-- ===== src/SkipList/Reading.antt =====
-- The entries of a list in shape, and skiplist_get.
use libqb.Prelude.{
  if◌then◌else◌, ℕ, ◌≡◌, refl, sym, ap, ◌∙◌, subst, inl, inr, true, false, none, some, List, [],
  ◌∷◌, ◌++◌, arith, bind-some,
}
use libqb.Map.Keys.{Key, key_eq, key_eq_refl, Key-cases, apart}
use libqb.Map.Entries.{Entries, lookup, or_null}
use libqb.Map.Order.{less_ne, greater_ne}
use libqb.SkipList.{SkipList, list_get, list_lookup, value_at}
use libqb.SkipList.Items.{Item, AllBelow, AllAbove, AllStored-parts}
use libqb.SkipList.Sorted.{revalued}
use libqb.SkipList.Shape.{Shape, Middle, missing, present, cut}
use libqb.SkipList.Searching.{search-missing, search-present}

abbrev pub entries_of : List Item → Entries
entries_of [] = []
entries_of (i ∷ is) = (i.key, i.value) ∷ entries_of is

pub lookup-AllAbove : (q : Key) (is : List Item) → AllAbove q is → lookup q (entries_of is) ≡ none
unfolding lookup
lookup-AllAbove q [] a = refl
lookup-AllAbove q (i ∷ is) (h, a) =
    rw (apart i.key q (greater_ne i.key q h)) (lookup-AllAbove q is a)

pub lookup-AllBelow :
    (q : Key) (is js : List Item)
    → AllBelow q is
    → lookup q (entries_of (is ++ js)) ≡ lookup q (entries_of js)
unfolding lookup
lookup-AllBelow q [] js b = refl
lookup-AllBelow q (i ∷ is) js (h, b) =
    rw (apart i.key q (less_ne i.key q h)) (lookup-AllBelow q is js b)

pub at_self :
    {key : Key} (i : Item) (is : List Item)
    → i.key ≡ key
    → lookup key (entries_of (i ∷ is)) ≡ some i.value
unfolding lookup
at_self i is e = ap (λ k. lookup k (entries_of (i ∷ is))) (sym e) ∙ rw (key_eq_refl i.key) refl

pub lookup-insert :
    (q : Key) (j : Item) (is js : List Item)
    → AllBelow j.key is
    → lookup q (entries_of (is ++ (j ∷ js)))
      ≡ (if key_eq j.key q then some j.value else lookup q (entries_of (is ++ js)))
unfolding lookup
lookup-insert q j [] js b = refl
lookup-insert q j (i ∷ is) js (h, b) = elim (Key-cases i.key q) [
  | inl (e, t) ↦
      let n : key_eq j.key q ≡ false = apart j.key q (λ p. less_ne i.key j.key h (e ∙ sym p)) in
      rw (t, n) refl
  | inr (e, t) ↦ rw t (lookup-insert q j is js b)
]

pub AllBelow-same : (j k : Key) (is : List Item) → j ≡ k → AllBelow k is → AllBelow j is
AllBelow-same j k is e b = subst (λ z. AllBelow z is) (sym e) b

pub lookup-revalued :
    (q key : Key) (i : Item) (v : ℕ) (is js : List Item)
    → i.key ≡ key
    → AllBelow key is
    → lookup q (entries_of (is ++ (revalued i v ∷ js)))
      ≡ (if key_eq key q then some v else lookup q (entries_of (is ++ (i ∷ js))))
lookup-revalued q key i v is js e b =
    let b' = AllBelow-same i.key key is e b in
    let same = ap (λ k. key_eq k q) e in
    ground (arith, same, lookup-insert q (revalued i v) is js b', lookup-insert q i is js b')

pub lookup-gone :
    (q : Key) (is js : List Item)
    → AllBelow q is
    → AllAbove q js
    → lookup q (entries_of (is ++ js)) ≡ none
lookup-gone q is js b a = lookup-AllBelow q is js b ∙ lookup-AllAbove q js a

module _ (s : SkipList) (key : Key) where
  get-middle :
      (front rest : List Item)
      → Shape s (front ++ rest)
      → AllBelow key front
      → Middle key rest
      → list_get s key ≡ some (or_null (lookup key (entries_of (front ++ rest))))
  unfolding list_get list_lookup value_at
  get-middle front _ h b (missing rest a) =
      bind-some _ (bind-some _ (search-missing s key front rest true h b a) refl) refl
      ∙ ap (λ o. some (or_null o)) (sym (lookup-gone key front rest b a))
  get-middle front _ h b (present i rest e a) =
      let (near, (st, far)) = AllStored-parts s front (i ∷ rest) h.stored in
      bind-some _ (bind-some _ (search-present s key front i rest h b e a) refl)
        (bind-some _ st.there (ap some st.valued))
      ∙ ap (λ o. some (or_null o)) (sym (lookup-AllBelow key front (i ∷ rest) b ∙ at_self i rest e))

  -- skiplist_get gives the value of the item that has the key, or NULL.
  pub list_get-Shape :
      (items : List Item)
      → Shape s items
      → list_get s key ≡ some (or_null (lookup key (entries_of items)))
  list_get-Shape items h =
      let c = cut key items h.sorted in
      get-middle c.front c.rest (subst (Shape s) c.whole h) c.below c.middle
      ∙ ap (λ xs. some (or_null (lookup key (entries_of xs)))) (sym c.whole)
