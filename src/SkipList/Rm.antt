-- ===== src/SkipList/Rm.antt =====
-- skiplist_rm on a list in shape.
use libqb.Prelude.{
  if◌then◌else◌, ℕ, zero, suc, ◌+◌, ◌%◌, ◌<◌, ◌≡◌, refl, sym, ap, ◌∙◌, inl, true, false, Option,
  none, some, List, [], ◌∷◌, ◌++◌, arith, lt→ltb, bind-some,
}
use libqb.Map.Keys.{Key, key_eq, key_eq_refl, apart}
use libqb.Map.Order.{greater_ne}
use libqb.SkipList.{SkipList, node_next, next_loop, unless_dead, forward_at, no_update}
use libqb.SkipList.Removing.{list_rm, rm_searched, rm_next, remove, true_with}
use libqb.SkipList.Items.{
  Item, first, last_at, last_at-cons, AllStored, AllBelow, AllAbove, AllReach, AllStored-parts,
  AllReach-parts,
}
use libqb.SkipList.Shape.{Shape}
use libqb.SkipList.Searching.{updates, search-missing, search_before-present}
use libqb.SkipList.Spliced.{all_updates, here, last_at-forward, splice_loop-Past}
use libqb.SkipList.Kept.{capped}
use libqb.SkipList.Removed.{remove-behind, last_at-keyed}
use libqb.SkipList.RemovedFirst.{remove-first}

abbrev pub head_of : List Item → Option ℕ
head_of [] = none
head_of (i ∷ is) = some i.at

next_loop-head :
    (fuel level : ℕ) (s : SkipList) (x : ℕ) (rest : List Item)
    → 0 < fuel
    → forward_at s x 0 ≡ some (first 0 rest)
    → AllStored s rest
    → AllReach level rest
    → next_loop fuel s x ≡ some (head_of rest)
unfolding next_loop
next_loop-head zero level s x rest f e st r = absurd (omega arith)
next_loop-head (suc fuel) level s x [] f e st r = bind-some _ e refl
next_loop-head (suc fuel) level s x (i ∷ is) f e (st, sts) ((p, q), r) =
    bind-some _ (e ∙ ap (λ b. some (if b then some i.at else first 0 is)) (lt→ltb 0 i.reach p))
      (ap (unless_dead (next_loop fuel s) i.at) st.there ∙ rw st.once refl)

module _ (s : SkipList) (front rest : List Item) (h : Shape s (front ++ rest)) where
  -- skiplist_node_next from where the search ended
  node_next-head : node_next s (last_at 0 s.header front) ≡ some (head_of rest)
  unfolding node_next
  node_next-head =
      let (a, b) = AllStored-parts s front rest h.stored in
      let (c, d) = AllReach-parts s.level front rest h.reach in
      next_loop-head s.fresh s.level s (last_at 0 s.header front) rest (omega (arith, h.room))
        (last_at-forward s 0 s.header front rest (h.forwards 0 (omega arith)) h.links) b d

  module _ (key : Key) (below : AllBelow key front) (above : AllAbove key rest) where
    differs :
        (is : List Item) (cur : ℕ) (u : ℕ → Option ℕ)
        → AllStored s is
        → AllAbove key is
        → rm_next s key cur u (head_of is) ≡ some (false, s)
    unfolding rm_next
    differs [] cur u st a = refl
    differs (i ∷ is) cur u (st, sts) (g, a) = bind-some _ st.there (
        bind-some _ st.keyed (
          ap (λ b. if b then true_with (remove s i.at cur u) else some (false, s))
            (apart i.key key (greater_ne i.key key g))))

    -- A key that is not there
    pub rm-missing : list_rm s key ≡ some (false, s)
    unfolding list_rm rm_searched
    rm-missing = bind-some _ (search-missing s key front rest false h below above) (
        bind-some _ node_next-head (
          differs rest (last_at 0 s.header front) (updates s.level s.header front no_update)
            (AllStored-parts s front rest h.stored).1 above))

-- A key that is there
module _ (s : SkipList) (key : Key) (i : Item) (rest : List Item) (same : i.key ≡ key)
    (above : AllAbove key rest) where
  matches :
      (front : List Item) (h : Shape s (front ++ (i ∷ rest)))
      → AllBelow key front
      → (o : Option SkipList)
      → remove s i.at (last_at 0 s.header front) (all_updates s front rest i h) ≡ o
      → list_rm s key ≡ true_with o
  unfolding list_rm rm_searched rm_next
  matches front h below o e =
      let (a, (st, b)) = AllStored-parts s front (i ∷ rest) h.stored in
      bind-some _ (search_before-present s key front i rest h below same above) (
        bind-some _ (node_next-head s front (i ∷ rest) h) (
          bind-some _ st.there (
            bind-some _ st.keyed (
              ap
                (λ b.
                  if b
                  then true_with
                      (remove s i.at (last_at 0 s.header front) (all_updates s front rest i h))
                  else some (false, s))
                (ap (key_eq i.key) (sym same) ∙ key_eq_refl i.key)
              ∙ ap true_with e))))

  pub rm-present_first :
      (h : Shape s (i ∷ rest))
      → (t : SkipList) × (list_rm s key ≡ some (true, t))
        × ((top : ℕ) × Shape t (capped top rest))
        × (t.length ≡ (s.length + 18446744073709551615) % 18446744073709551616)
  rm-present_first h =
      let (arrays, runs, left) = splice_loop-Past s [] rest i h in
      let (t, e, shape, len) = remove-first s rest i h arrays left runs in
      (t, matches [] h tt (some t) e, ((here s [] rest i h).node.level, shape), len)

  pub rm-present_behind :
      (k : Item) (is : List Item) (h : Shape s ((k ∷ is) ++ (i ∷ rest)))
      → AllBelow key (k ∷ is)
      → (t : SkipList) × (list_rm s key ≡ some (true, t))
        × Shape t ((k ∷ is) ++ rest)
        × (t.length ≡ (s.length + 18446744073709551615) % 18446744073709551616)
  rm-present_behind k is h below =
      let (arrays, runs, left) = splice_loop-Past s (k ∷ is) rest i h in
      let (st, sts) = (AllStored-parts s (k ∷ is) (i ∷ rest) h.stored).0 in
      let (p, q) = h.reach.0 in
      let (c, e, f) = last_at-keyed s k is 0 st sts in
      let cur : last_at 0 s.header (k ∷ is) ≡ last_at 0 k.at is =
        last_at-cons 0 s.header k is (inl (lt→ltb 0 k.reach p)) in
      let (t, w, shape, len) =
        remove-behind s (k ∷ is) rest i h arrays left (last_at 0 s.header (k ∷ is)) c
          (ap s.nodes cur ∙ e) f runs in
      (t, matches (k ∷ is) h below (some t) w, shape, len)
