-- ===== src/SkipList/Walking.antt =====
-- Where the search of skiplist_get, skiplist_put and skiplist_rm ends on each level, and in all.
use libqb.Prelude.{
  ltb, Bool-cases, length, ℕ, zero, suc, ◌<◌, ◌≡◌, refl, sym, ap, ◌∙◌, ◌⊎◌, inl, inr, Bool, true,
  false, Option, none, some, List, [], ◌∷◌, ◌++◌, arith, ◌>>=◌,
}
use libqb.Map.Keys.{Key}
use libqb.Map.Order.{Order, less, greater, strcmp}
use libqb.SkipList.{SkipList, Walk, before, Op, op_of, op_search, forward_at, turn, walk}
use libqb.SkipList.Items.{
  Item, first, last_at, any_at, Forwards, Links, Stored, AllStored, AllBelow, AllAbove,
  last_at-none, last_at-cons, any_at-suc,
}

pub op_search-Stored :
    (s : SkipList) (i : Item) (key : Key) (o : Order)
    → Stored s i
    → strcmp i.key key ≡ o
    → op_search s (some i.at) key ≡ some (op_of o)
unfolding op_search
op_search-Stored s i key o st e =
    ap (λ m. m >>= λ n. n.key >>= λ k. some (op_of (strcmp k key))) st.there
    ∙ ap (λ m. m >>= λ k. some (op_of (strcmp k key))) st.keyed
    ∙ ap (λ p. some (op_of p)) e

clash : {b : Bool} → b ≡ false → b ≡ true → ⊥
clash e f = cc

module _ (finishes : Bool) (s : SkipList) (key : Key) (level : ℕ) where
  pub walk-turn :
      (fuel x : ℕ) (fwd : Option ℕ) (op : Op)
      → forward_at s x level ≡ some fwd
      → op_search s fwd key ≡ some op
      → walk finishes (suc fuel) s key level x
        ≡ turn finishes (walk finishes fuel s key level) x fwd op
  unfolding walk
  walk-turn fuel x fwd op e o =
      ap
        (λ m. m >>= λ f.
          op_search s f key >>= λ p. turn finishes (walk finishes fuel s key level) x f p)
        e
      ∙ ap (λ m. m >>= λ p. turn finishes (walk finishes fuel s key level) x fwd p) o

  -- Before keys that are greater the walk stops.
  pub walk-AllAbove :
      (rest : List Item) (fuel x : ℕ)
      → AllStored s rest
      → AllAbove key rest
      → forward_at s x level ≡ some (first level rest)
      → walk finishes (suc fuel) s key level x ≡ some (before x)
  unfolding turn op_search
  walk-AllAbove [] fuel x st a e = walk-turn fuel x none (op_of greater) e refl
  walk-AllAbove (i ∷ is) fuel x (st, sts) (a, as') e = elim (Bool-cases (ltb level i.reach)) [
    | inl t ↦
        walk-turn fuel x (some i.at) (op_of greater) (rw t at e)
          (op_search-Stored s i key greater st a)
    | inr t ↦ walk-AllAbove is fuel x sts as' (rw t at e)
  ]

  -- What a walk does that reaches `rest`, where it stops at `result`.
  module _ (rest : List Item) (result : ℕ → Walk)
      (stops : (fuel x : ℕ)
        → forward_at s x level ≡ some (first level rest)
        → walk finishes (suc fuel) s key level x ≡ some (result x)) where
    walk-AllBelow :
        (front : List Item) (fuel x : ℕ)
        → AllStored s front
        → AllBelow key front
        → Links s (front ++ rest)
        → forward_at s x level ≡ some (first level (front ++ rest))
        → length front < fuel
        → walk finishes fuel s key level x ≡ some (result (last_at level x front))
    unfolding turn
    walk-AllBelow front zero x st b ls e f = absurd (omega arith)
    walk-AllBelow [] (suc fuel) x st b ls e f = stops fuel x e
    walk-AllBelow (i ∷ is) (suc fuel) x (st, sts) (b, bs) (l, ls) e f =
        elim (Bool-cases (ltb level i.reach)) [
          | inl t ↦
              walk-turn fuel x (some i.at) (op_of less) (rw t at e)
                (op_search-Stored s i key less st b)
              ∙ walk-AllBelow is fuel i.at sts bs ls (l level (ground arith)) (omega arith)
              ∙ ap (λ y. some (result y)) (rw t refl)
          | inr t ↦
              walk-AllBelow is (suc fuel) x sts bs ls (rw t at e) (omega arith)
              ∙ ap (λ y. some (result y)) (rw t refl)
        ]

    -- The walk starts where that of the level above ended.
    pub walk-level :
        (front : List Item) (fuel x reach : ℕ)
        → AllStored s front
        → AllBelow key front
        → Forwards s x reach (front ++ rest)
        → Links s (front ++ rest)
        → (level < reach) ⊎ (any_at (suc level) front ≡ true)
        → length front < fuel
        → walk finishes fuel s key level (last_at (suc level) x front)
          ≡ some (result (last_at level x front))
    walk-level [] fuel x reach st b fs ls (inl r) f = walk-AllBelow [] fuel x st b ls (fs level r) f
    walk-level [] fuel x reach st b fs ls (inr r) f = cc
    walk-level (i ∷ is) fuel x reach (st, sts) (b, bs) fs (l, ls) r f =
        elim (Bool-cases (any_at (suc level) is)) [
          | inl t ↦
              ap (walk finishes fuel s key level) (last_at-cons (suc level) x i is (inr t))
              ∙ walk-level is fuel i.at i.reach sts bs l ls (inr t) (omega arith)
              ∙ ap (λ y. some (result y))
                  (sym (last_at-cons level x i is (inr (any_at-suc level is t))))
          | inr t ↦ elim (Bool-cases (ltb (suc level) i.reach)) [
            | inl u ↦
                ap (walk finishes fuel s key level) (last_at-cons (suc level) x i is (inl u))
                ∙ walk-level is fuel i.at i.reach sts bs l ls (inl (ground arith)) (omega arith)
                ∙ ap (λ y. some (result y)) (sym (last_at-cons level x i is (inl (ground arith))))
            | inr u ↦
                ap (walk finishes fuel s key level) (last_at-none (suc level) x (i ∷ is) (rw u t))
                ∙ walk-AllBelow (i ∷ is) fuel x (st, sts) (b, bs) (l, ls)
                    (fs level (elim r [ inl q ↦ q | inr q ↦ absurd (clash (rw u t) q) ])) f
          ]
        ]
