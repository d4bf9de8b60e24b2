-- ===== src/SkipList/Put.antt =====
-- skiplist_put on a list in shape.
use libqb.Prelude.{
  ltb, leb, if◌then◌else◌, Bool-cases, update, ℕ, zero, suc, ◌+◌, ◌-◌, ◌%◌, ◌≤◌, ◌<◌, min, max, ◌≡◌,
  refl, ap, ◌∙◌, inl, inr, true, ◌&&◌, Option, none, some, List, [], ◌∷◌, ◌++◌, arith, ◌>>=◌,
  bind-some, some-injective,
}
use libqb.Map.{Notification, notify_inserted, notify_replaced}
use libqb.Map.Keys.{Key}
use libqb.SkipList.{SkipList, Update, level_count, no_update, level_generate, generate_loop}
use libqb.SkipList.Nodes.{notify, key_or_empty, node_new}
use libqb.SkipList.Putting.{
  Chance, list_put, put_searched, put_new, put_replaced, header_updates, link_loop, one_more,
}
use libqb.SkipList.Items.{
  Item, last_at, AllBelow, AllAbove, AllStored-parts, AllReach-parts, AllReach-more,
  any_at-AllReach, last_at-none,
}
use libqb.SkipList.Sorted.{revalued}
use libqb.SkipList.Shape.{Shape, recount-Shape}
use libqb.SkipList.Added.{with_node}
use libqb.SkipList.Searching.{updates, updates-at, search-missing, search-present}
use libqb.SkipList.Replaced.{after_replace, replaced-Shape}
use libqb.SkipList.Inserted.{item_of, node_of, inserted-Shape}

generate_loop-more :
    (randoms : List ℕ) (level l : ℕ) → generate_loop randoms level ≡ some l → level ≤ l
unfolding generate_loop
generate_loop-more [] level l e = cc
generate_loop-more (r ∷ rs) level l e = ground (arith, generate_loop-more rs (level + 1) l)

bind-inverse :
    {A B : Type 0} (m : Option A) (f : A → Option B) {b : B}
    → (m >>= f) ≡ some b
    → (a : A) × (m ≡ some a) × (f a ≡ some b)
bind-inverse none f e = cc
bind-inverse (some a) f e = (a, refl, e)

pub level_generate-bounds :
    (randoms : List ℕ) (level : ℕ)
    → level_generate randoms ≡ some level
    → (0 < level) × (level ≤ level_count)
unfolding level_generate
level_generate-bounds randoms level e =
    let (l, p, q) =
      bind-inverse (generate_loop randoms 1) (λ level. some (min level level_count)) e in
    let r = some-injective q in
    let b = generate_loop-more randoms 1 l p in (omega (arith, r, b), omega (arith, r))

pub header_updates-at :
    (count level header l : ℕ) (u : Update)
    → header_updates count level header u l
      ≡ (if leb level l && ltb l (level + count) then some header else u l)
unfolding header_updates
header_updates-at zero level header l u = ground arith
header_updates-at (suc count) level header l u =
    header_updates-at count (level + 1) header l (update u level (some header)) ∙ ground arith

module _ (s : SkipList) (key : Key) (value : ℕ) (c : Chance) (front rest : List Item)
    (h : Shape s (front ++ rest)) (below : AllBelow key front) (above : AllAbove key rest)
    (level : ℕ) (memory : c.malloc ≡ true) (generated : level_generate c.randoms ≡ some level) where
  abbrev all_updates : Update
  all_updates =
      header_updates (level - s.level) s.level s.header (updates s.level s.header front no_update)

  updated : (l : ℕ) → l < level → all_updates l ≡ some (last_at l s.header front)
  updated l p =
      let (near, far) = AllReach-parts s.level front rest h.reach in
      header_updates-at (level - s.level) s.level s.header l
        (updates s.level s.header front no_update)
      ∙ (elim (Bool-cases (ltb l s.level)) [
        | inl t ↦ ground (arith, updates-at s.level l s.header front no_update)
        | inr t ↦
            let alone : last_at l s.header front ≡ s.header =
              last_at-none l s.header front
                (any_at-AllReach l front (AllReach-more s.level l front (ground arith) near)) in
            ground (arith, alone)
      ])

  abbrev calls : List Notification
  calls = (notify s [] h.header_node.notifiers notify_inserted key 0 value).calls

  -- A key that is not there gets a new node.
  pub put-missing :
      (t : SkipList) × (list_put c s key value ≡ some t)
      × Shape t (front ++ (item_of s key value level ∷ rest))
      × (t.length ≡ (s.length + 1) % 18446744073709551616)
  unfolding list_put put_searched put_new node_new notify
  put-missing =
      let (some_level, low) = level_generate-bounds c.randoms level generated in
      let (t, e, shape, len) =
        inserted-Shape s front rest key value level calls h below above some_level low all_updates
          updated in
      (
        one_more t,
        bind-some _ (search-missing s key front rest true h below above) (
            bind-some _ generated (
              bind-some _ h.header_there (
                bind-some _
                  (ap
                      (λ b.
                        if b
                        then link_loop level 0 s.fresh all_updates
                            (with_node s (node_of s key value level) (max s.level level) calls)
                        else none)
                      memory
                    ∙ e)
                  refl))),
        recount-Shape t (front ++ (item_of s key value level ∷ rest)) shape t.level
            (one_more t).length shape.reach shape.height,
        ap (λ n. (n + 1) % 18446744073709551616) len,
      )

module _ (s : SkipList) (key : Key) (value : ℕ) (c : Chance) (front rest : List Item) (i : Item)
    (h : Shape s (front ++ (i ∷ rest))) (below : AllBelow key front) (same : i.key ≡ key)
    (above : AllAbove key rest) where
  -- A key that is there keeps its node.
  pub put-present :
      (t : SkipList) × (list_put c s key value ≡ some t)
      × Shape t (front ++ (revalued i value ∷ rest))
      × (t.length ≡ s.length)
  unfolding list_put put_searched put_replaced notify
  put-present =
      let (near, (st, far)) = AllStored-parts s front (i ∷ rest) h.stored in
      let calls =
        (notify s st.node.notifiers h.header_node.notifiers notify_replaced
          (key_or_empty st.node.key) st.node.value value).calls in
      (
        after_replace s front rest i key value calls h same st.node st.there,
        bind-some _ (search-present s key front i rest h below same above)
            (bind-some _ st.there (bind-some _ h.header_there refl)),
        replaced-Shape s front rest i key value calls h same st.node st.there,
        refl,
      )
