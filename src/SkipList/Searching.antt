-- ===== src/SkipList/Searching.antt =====
-- What the search over all levels finds.
use libqb.Prelude.{
  ltb, if◌then◌else◌, Bool-cases, length, length-append, update, ℕ, zero, suc, ◌≤◌, ◌<◌, ◌≡◌, refl,
  sym, ap, ◌∙◌, inl, inr, Bool, true, false, ◌&&◌, Option, some, List, ◌∷◌, ◌++◌, arith, ◌>>=◌,
}
use libqb.Map.Keys.{Key}
use libqb.Map.Order.{equal, strcmp, strcmp_refl}
use libqb.SkipList.{
  SkipList, Walk, at_key, before, finish, op_of, forward_at, turn, walk, Update, Search, found,
  past, next_level, search, level_count, no_update,
}
use libqb.SkipList.Items.{
  Item, first, last_at, Forwards, Links, AllStored, AllBelow, AllAbove, last_at-none,
  any_at-AllReach, AllStored-parts, AllReach-parts,
}
use libqb.SkipList.Shape.{Shape}
use libqb.SkipList.Walking.{op_search-Stored, walk-AllAbove, walk-level, walk-turn}

-- The updates that the search leaves, from `level` down
abbrev pub updates : ℕ → ℕ → List Item → Update → Update
updates zero x front u = u
updates (suc level) x front u =
    updates level x front (update u level (some (last_at level x front)))

pub updates-at :
    (level l x : ℕ) (front : List Item) (u : Update)
    → updates level x front u l ≡ (if ltb l level then some (last_at l x front) else u l)
updates-at zero l x front u = ground arith
updates-at (suc level) l x front u =
    let same : level ≡ l → last_at level x front ≡ last_at l x front =
      λ e. ap (λ m. last_at m x front) e in
    ground (arith, same, updates-at level l x front (update u level (some (last_at level x front))))

module _ (s : SkipList) (key : Key) (header : ℕ) (front rest : List Item)
    (stored : AllStored s front) (below : AllBelow key front)
    (forwards : Forwards s header level_count (front ++ rest)) (links : Links s (front ++ rest))
    (room : length front < s.fresh) where
  abbrev Stops : Bool → (ℕ → ℕ → Walk) → Type 0
  Stops finishes result =
      (level fuel x : ℕ)
      → forward_at s x level ≡ some (first level rest)
      → walk finishes (suc fuel) s key level x ≡ some (result level x)

  pub search-past :
      (finishes : Bool)
      → Stops finishes (λ level x. before x)
      → (level : ℕ) (u : Update) → level ≤ level_count
      → search finishes s key level (last_at level header front) u
        ≡ some (past (last_at 0 header front) (updates level header front u))
  unfolding search next_level
  search-past finishes stops zero u b = refl
  search-past finishes stops (suc level) u b =
      ap (λ m. m >>= next_level (search finishes s key level) level u)
        (walk-level finishes s key level rest (λ x. before x) (stops level) front s.fresh header
          level_count stored below forwards links (inl (omega arith)) room)
      ∙ search-past finishes stops level (update u level (some (last_at level header front)))
          (omega arith)

  pub search-found :
      (i : Item)
      → 0 < i.reach
      → Stops true (λ level x. if ltb level i.reach then at_key i.at else before x)
      → (level : ℕ) (u : Update) → 0 < level
      → level ≤ level_count
      → search true s key level (last_at level header front) u ≡ some (found i.at)
  unfolding search next_level
  search-found i p stops zero u z b = absurd (omega arith)
  search-found i p stops (suc level) u z b =
      ap (λ m. m >>= next_level (search true s key level) level u)
        (walk-level true s key level rest (λ x. if ltb level i.reach then at_key i.at else before x)
          (stops level) front s.fresh header level_count stored below forwards links
          (inl (omega arith)) room)
      ∙ (elim (Bool-cases (ltb level i.reach)) [
        | inl t ↦ rw t refl
        | inr t ↦ rw t (
            search-found i p stops level (update u level (some (last_at level header front)))
              (ground arith) (omega arith))
      ])

finished :
    (finishes reached : Bool) (more : ℕ → Option Walk) (x y : ℕ)
    → reached ≡ true
    → turn finishes more x (some y) finish
      ≡ some (if finishes && reached then at_key y else before x)
unfolding turn
finished true reached more x y e = rw e refl
finished false reached more x y e = refl

beyond :
    (finishes reached : Bool) (x y : ℕ)
    → reached ≡ false
    → some (before x) ≡ some (if finishes && reached then at_key y else before x)
beyond true reached x y e = rw e refl
beyond false reached x y e = refl

-- The search of a list in shape
module _ (s : SkipList) (key : Key) (front rest : List Item) where
  search-level :
      (finishes : Bool) (o : Option Search)
      → Shape s (front ++ rest)
      → search finishes s key s.level (last_at s.level s.header front) no_update ≡ o
      → search finishes s key s.level s.header no_update ≡ o
  search-level finishes o h e =
      let (near, far) = AllReach-parts s.level front rest h.reach in
      ap (λ x. search finishes s key s.level x no_update)
        (sym (last_at-none s.level s.header front (any_at-AllReach s.level front near)))
      ∙ e

  room-front : Shape s (front ++ rest) → length front < s.fresh
  room-front h = let e = length-append front rest in omega (arith, h.room)

  abbrev pub past_all : Search
  past_all = past (last_at 0 s.header front) (updates s.level s.header front no_update)

  pub search-missing :
      (finishes : Bool)
      → Shape s (front ++ rest)
      → AllBelow key front
      → AllAbove key rest
      → search finishes s key s.level s.header no_update ≡ some past_all
  search-missing finishes h b a =
      let (near, far) = AllStored-parts s front rest h.stored in
      search-level finishes (some past_all) h (
        search-past s key s.header front rest near b h.forwards h.links (room-front h) finishes
          (λ level fuel x e. walk-AllAbove finishes s key level rest fuel x far a e) s.level
          no_update h.height)

module _ (s : SkipList) (key : Key) (front : List Item) (i : Item) (is : List Item)
    (h : Shape s (front ++ (i ∷ is))) (below : AllBelow key front) (same : i.key ≡ key)
    (above : AllAbove key is) where
  walk-present :
      (finishes : Bool) (level fuel x : ℕ)
      → forward_at s x level ≡ some (first level (i ∷ is))
      → walk finishes (suc fuel) s key level x
        ≡ some (if finishes && ltb level i.reach then at_key i.at else before x)
  unfolding turn
  walk-present finishes level fuel x e =
      let (near, (st, far)) = AllStored-parts s front (i ∷ is) h.stored in
      elim (Bool-cases (ltb level i.reach)) [
        | inl t ↦
            walk-turn finishes s key level fuel x (some i.at) (op_of equal) (rw t at e)
              (op_search-Stored s i key equal st (ap (λ k. strcmp k key) same ∙ strcmp_refl key))
            ∙ finished finishes (ltb level i.reach) (walk finishes fuel s key level) x i.at t
        | inr t ↦
            walk-AllAbove finishes s key level is fuel x far above (rw t at e)
            ∙ beyond finishes (ltb level i.reach) x i.at t
      ]

  -- skiplist_get and skiplist_put find the node, and skiplist_rm the node before it.
  pub search-present : search true s key s.level s.header no_update ≡ some (found i.at)
  search-present =
      let (near, far) = AllStored-parts s front (i ∷ is) h.stored in
      let (low, ((p, q), high)) = AllReach-parts s.level front (i ∷ is) h.reach in
      search-level s key front (i ∷ is) true (some (found i.at)) h (
        search-found s key s.header front (i ∷ is) near below h.forwards h.links
          (room-front s key front (i ∷ is) h) i p (walk-present true) s.level no_update
          (omega arith) h.height)

  pub search_before-present :
      search false s key s.level s.header no_update ≡ some (past_all s key front (i ∷ is))
  search_before-present =
      let (near, far) = AllStored-parts s front (i ∷ is) h.stored in
      search-level s key front (i ∷ is) false (some (past_all s key front (i ∷ is))) h (
        search-past s key s.header front (i ∷ is) near below h.forwards h.links
          (room-front s key front (i ∷ is) h) false (walk-present false) s.level no_update h.height)
