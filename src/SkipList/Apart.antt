-- ===== src/SkipList/Apart.antt =====
-- The addresses of the items are different, since their keys are.
use libqb.Prelude.{
  ltb, Bool-cases, ℕ, ◌≡◌, sym, ap, ◌∙◌, ◌≢◌, inl, inr, none, some, List, [], ◌∷◌, ◌++◌, arith,
  some-injective,
}
use libqb.Map.Order.{greater_ne}
use libqb.SkipList.{SkipList, Node}
use libqb.SkipList.Items.{Item, last_at, Stored, AllStored, AllAbove, IsSorted}
use libqb.SkipList.Writes.{IsMemory}

-- No item is at the address.
abbrev pub IsApart : ℕ → List Item → Type 0
IsApart x [] = Unit {0}
IsApart x (i ∷ is) = (x ≢ i.at) × IsApart x is

abbrev pub AllApart : List Item → Type 0
AllApart [] = Unit {0}
AllApart (i ∷ is) = IsApart i.at is × AllApart is

pub IsApart-parts : (x : ℕ) (is js : List Item) → IsApart x (is ++ js) → IsApart x is × IsApart x js
IsApart-parts x [] js h = (tt, h)
IsApart-parts x (i ∷ is) js (h, hs) = let (a, b) = IsApart-parts x is js hs in ((h, a), b)

-- The items before one, which are not at its address, and those behind it
pub AllApart-from :
    (i : Item) (is js : List Item) → AllApart (is ++ (i ∷ js)) → IsApart i.at is × IsApart i.at js
AllApart-from i [] js (h, hs) = (tt, h)
AllApart-from i (k ∷ is) js (h, hs) =
    let (a, b) = AllApart-from i is js hs in
    let (c, (d, e)) = IsApart-parts k.at is (i ∷ js) h in ((λ p. d (sym p), a), b)

module _ (s : SkipList) where
  same_node : (x y : ℕ) (m n : Node) → s.nodes x ≡ some m → s.nodes y ≡ some n → x ≡ y → m ≡ n
  same_node x y m n e f p = some-injective (sym e ∙ ap s.nodes p ∙ f)

  pub keyless-IsApart :
      (x : ℕ) (n : Node) (is : List Item)
      → s.nodes x ≡ some n
      → n.key ≡ none
      → AllStored s is
      → IsApart x is
  keyless-IsApart x n [] e k st = tt
  keyless-IsApart x n (i ∷ is) e k (st, sts) = (
    λ p.
        let q =
          sym k ∙ ap (λ (z : Node). z.key) (same_node x i.at n st.node e st.there p) ∙ st.keyed in
        cc,
    keyless-IsApart x n is e k sts,
  )

  pub fresh-IsApart : (is : List Item) → IsMemory s → AllStored s is → IsApart s.fresh is
  fresh-IsApart [] mem st = tt
  fresh-IsApart (i ∷ is) mem (st, sts) = (
    λ p. let (a, b) = mem.given i.at st.node st.there in omega (arith, p, a),
    fresh-IsApart is mem sts,
  )

  above-IsApart :
      (i : Item) (is : List Item)
      → Stored s i
      → AllStored s is
      → AllAbove i.key is
      → IsApart i.at is
  above-IsApart i [] st sts a = tt
  above-IsApart i (j ∷ is) st (sj, sts) (a, as') = (
    λ p. greater_ne j.key i.key a (
        some-injective (
          sym sj.keyed
          ∙ ap (λ (z : Node). z.key) (same_node j.at i.at sj.node st.node sj.there st.there (sym p))
          ∙ st.keyed)),
    above-IsApart i is st sts as',
  )

  pub sorted-AllApart : (is : List Item) → AllStored s is → IsSorted is → AllApart is
  sorted-AllApart [] st so = tt
  sorted-AllApart (i ∷ is) (st, sts) (a, so) =
      (above-IsApart i is st sts a, sorted-AllApart is sts so)

  pub last_at-there :
      (l x : ℕ) (n : Node) (is : List Item)
      → s.nodes x ≡ some n
      → AllStored s is
      → (m : Node) × (s.nodes (last_at l x is) ≡ some m)
  last_at-there l x n [] e st = (n, e)
  last_at-there l x n (i ∷ is) e (st, sts) = elim (Bool-cases (ltb l i.reach)) [
    | inl t ↦ rw t (last_at-there l i.at st.node is st.there sts)
    | inr t ↦ rw t (last_at-there l x n is e sts)
  ]
