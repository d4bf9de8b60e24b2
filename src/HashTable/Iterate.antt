-- ===== src/HashTable/Iterate.antt =====
-- Going through a hash table with an iterator.
use libqb.Prelude.{
  if◌then◌else◌, length, update, update_ne, ℕ, zero, suc, ◌+◌, ◌-◌, ◌%◌, ◌<◌, ◌≡◌, refl, sym, ap,
  ap₂, ◌∙◌, subst, ◌≢◌, inl, inr, Bool, true, false, Option, none, some, List, [], ◌∷◌, ◌++◌,
  append-nil, append_assoc, arith, ℕ_discrete, lt→ltb, some-injective, some_ne_none,
}
use libqb.Map.{foreach, foreach_loop, foreach_with}
use libqb.Map.Keys.{Key, key_eq, key_eq_refl, Key-cases, apart}
use libqb.Map.Entries.{Entries, lookup, IsDistinct, same-length}
use libqb.HashTable.{
  Table, Node, Iter, find, change, hash_string, bucket_of, lookup_node, one_less, rm_node, table_rm,
  table_get, value_of,
}
use libqb.HashTable.Iterating.{
  more_references, deref_node, drop_current, hold, moved, stay, after_node, scan, start_list,
  search_from, found_next, iter_next, iter_create, iter_free,
}
use libqb.HashTable.Creation.{hashtable_ops}
use libqb.HashTable.Bucket.{IsUnique, AllOnce, AllAt, mapped, find-change}
use libqb.HashTable.Hash.{pow_pos}
use libqb.HashTable.Refine.{Holds}
use libqb.HashTable.Visited.{lookup-visited, visited-IsDistinct}
use libqb.HashTable.Remaining.{
  to_visit, first, tagged_entries, restored, swapped, scan-first, scan-hold, not_among,
  after-change, at_self, lowered, drop_current-lowered, update_twice, update_same, update_apart,
  to_visit-At, to_visit-head, unique_tail, once_tail, At, visited,
}

-- A function for qb_map_foreach that keeps what it is called with, and goes on.
unfoldable pub collect : Key → ℕ → Entries → Bool × Entries
collect key value seen = (false, seen ++ ((key, value) ∷ []))

abbrev Next : Type 0
Next = Option (Key × ℕ) × Iter × Table

module _ (t : Table) (es : Entries) (h : Holds t es) where
  -- Dropping the one more reference restores the bucket.
  left_once :
      (n : Node) → n.refcount ≡ 1 → ((n.refcount + 1) % 4294967296 + 4294967295) % 4294967296 ≡ 1
  left_once n e = omega (arith, e)

  module _ (b : ℕ) (n : Node) (before after : List Node)
      (here : t.hash_buckets b ≡ before ++ (n ∷ after)) where
    find_at :
        (ns : List Node) → IsUnique (ns ++ (n ∷ after)) → find n.key (ns ++ (n ∷ after)) ≡ some n
    unfolding find
    find_at [] u = rw (key_eq_refl n.key) refl
    find_at (m ∷ ms) (u, us) = elim (Key-cases m.key n.key) [
      | inl (e, s) ↦ absurd (
          not_among n.key n ms after (key_eq_refl n.key)
            (ap (λ k. find k (ms ++ (n ∷ after))) (sym e) ∙ u))
      | inr (e, f) ↦ rw f (find_at ms us)
    ]

    IsUnique-here : IsUnique (before ++ (n ∷ after))
    IsUnique-here = subst IsUnique here (h.unique b)

    once_at : (ns : List Node) → AllOnce (ns ++ (n ∷ after)) → n.refcount ≡ 1
    once_at [] o = o.0
    once_at (m ∷ ms) o = once_at ms o.1

    hashed : (ns : List Node) → AllAt t.order b (ns ++ (n ∷ after)) → hash_string n.key t.order ≡ b
    hashed [] o = o.0
    hashed (m ∷ ms) o = hashed ms o.1

    refs : n.refcount ≡ 1
    refs = once_at before (subst AllOnce here (h.once b))

    home : hash_string n.key t.order ≡ b
    home = hashed before (subst (AllAt t.order b) here (h.placed b))

    found_here : find n.key (t.hash_buckets b) ≡ some n
    found_here = ap (find n.key) here ∙ find_at before IsUnique-here

    start-after : start_list (hold t b n) (record { node = some n.key; bucket = b }) ≡ some after
    unfolding start_list
    start-after =
        ap (after_node n.key)
          (at_self t.hash_buckets b (change more_references n.key (t.hash_buckets b)))
        ∙ ap (λ xs. after_node n.key (change more_references n.key xs)) here
        ∙ after-change n before after IsUnique-here

    abbrev x : List Node
    x = change more_references n.key (t.hash_buckets b)

    held_found : find n.key x ≡ some (more_references n)
    held_found =
        find-change more_references n.key (λ m q. q) n.key (t.hash_buckets b)
        ∙ ap
            (λ v.
              if v
              then mapped more_references (find n.key (t.hash_buckets b))
              else find n.key (t.hash_buckets b))
            (key_eq_refl n.key)
        ∙ ap (mapped more_references) found_here

    lowered_back : lowered n.key x ≡ t.hash_buckets b
    lowered_back = restored n.key (t.hash_buckets b) (h.once b)

    drop_held : drop_current (some n.key) (hold t b n) ≡ some t
    drop_held =
        drop_current-lowered (hold t b n) n.key b (more_references n) home
          (ap (find n.key) (at_self t.hash_buckets b x) ∙ held_found) refl (left_once n refs)
        ∙ ap (λ f. some (record t { hash_buckets = f }))
            (update_twice t.hash_buckets b x (lowered n.key (update t.hash_buckets b x b))
              ∙ update_same t.hash_buckets b (lowered n.key (update t.hash_buckets b x b))
                  (ap (lowered n.key) (at_self t.hash_buckets b x) ∙ lowered_back))

    -- The reference to the node before is dropped once the next one is held.
    drop_moved :
        (c : ℕ) (m : Node)
        → m.key ≢ n.key
        → drop_current (some n.key) (hold (hold t b n) c m) ≡ some (hold t c m)
    drop_moved c m d = elim (ℕ_discrete c b) [
      | yes e ↦
          subst (λ k. drop_current (some n.key) (hold (hold t b n) k m) ≡ some (hold t k m)) (sym e)
            (let y : List Node = change more_references m.key x in
              let now : (hold (hold t b n) b m).hash_buckets b ≡ y =
                at_self (update t.hash_buckets b x) b
                  (change more_references m.key (update t.hash_buckets b x b))
                ∙ ap (change more_references m.key) (at_self t.hash_buckets b x) in
              drop_current-lowered (hold (hold t b n) b m) n.key b (more_references n) home
                (ap (find n.key) now
                  ∙ find-change more_references m.key (λ k q. q) n.key x
                  ∙ ap (λ v. if v then mapped more_references (find n.key x) else find n.key x)
                      (apart m.key n.key d)
                  ∙ held_found)
                refl (left_once n refs)
              ∙ ap (λ f. some (record t { hash_buckets = f }))
                  (update_twice (update t.hash_buckets b x) b _ _
                    ∙ update_twice t.hash_buckets b x _
                    ∙ ap (update t.hash_buckets b) (
                        ap (lowered n.key) now
                        ∙ swapped 1 n.key m.key x (λ q. d (sym q))
                        ∙ ap (change more_references m.key) lowered_back)))
      | no e ↦
          let z : List Node = change more_references m.key (update t.hash_buckets b x c) in
          let now : (hold (hold t b n) c m).hash_buckets b ≡ x =
            update_ne (update t.hash_buckets b x) c z b e ∙ at_self t.hash_buckets b x in
          let w : List Node = lowered n.key ((hold (hold t b n) c m).hash_buckets b) in
          drop_current-lowered (hold (hold t b n) c m) n.key b (more_references n) home
            (ap (find n.key) now ∙ held_found) refl (left_once n refs)
          ∙ ap (λ f. some (record t { hash_buckets = f }))
              (update_apart (update t.hash_buckets b x) c b z w e
                ∙ ap (λ f. update f c z)
                    (update_twice t.hash_buckets b x w
                      ∙ update_same t.hash_buckets b w (ap (lowered n.key) now ∙ lowered_back))
                ∙ ap (λ xs. update t.hash_buckets c (change more_references m.key xs))
                    (update_ne t.hash_buckets b x c (λ q. e (sym q))))
    ]

  -- The node where the iterator goes next has another key.
  ahead-ne :
      (b : ℕ) (n : Node) (more : List (ℕ × Node)) (c : ℕ) (m : Node) (rest : List (ℕ × Node))
      → At t b n more
      → more ≡ (c, m) ∷ rest
      → m.key ≢ n.key
  ahead-ne b n more c m rest a e q =
      let now : to_visit t (t.hash_buckets_len - 1 - b) b a.after ≡ (c, m) ∷ rest =
        sym a.ahead ∙ e in
      let next : At t c m rest =
        to_visit-At t (t.hash_buckets_len - 1 - b) b (a.before ++ (n ∷ [])) a.after c m rest
          (omega (arith, a.inside)) (a.here ∙ sym (append_assoc a.before (n ∷ []) a.after)) now in
      elim (to_visit-head t (t.hash_buckets_len - 1 - b) b a.after c m rest now) [
        | inl (same, tail, split) ↦
            not_among n.key m [] tail (ap (λ k. key_eq k n.key) q ∙ key_eq_refl n.key) (
              ap (find n.key) (sym split)
              ∙ unique_tail n a.before a.after (subst IsUnique a.here (h.unique b)))
        | inr later ↦
            let apart_buckets : c ≡ b =
              sym (home c m next.before next.after next.here)
              ∙ ap (λ k. hash_string k t.order) q
              ∙ home b n a.before a.after a.here in
            absurd (omega (arith, apart_buckets, later))
      ]

  stand : ℕ → Node → Iter
  stand b n = record { node = some n.key; bucket = b }

  next-first :
      (b : ℕ) (n : Node) (more : List (ℕ × Node))
      → At t b n more
      → iter_next (stand b n) (hold t b n) ≡ found_next (stand b n) (hold t b n) (some (first more))
  unfolding iter_next stand search_from
  next-first b n more a = ap (found_next (stand b n) (hold t b n)) (
      ap (search_from (hold t b n) (stand b n)) (start-after b n a.before a.after a.here)
      ∙ ap
          (λ v. some (if v then scan (hold t b n) (t.hash_buckets_len - 1 - b) b a.after else none))
          (lt→ltb b t.hash_buckets_len a.inside)
      ∙ ap some (
          scan-hold t b n (t.hash_buckets_len - 1 - b) b a.after (omega arith)
          ∙ scan-first t h.once (t.hash_buckets_len - 1 - b) b a.after
              (once_tail n a.before a.after (subst AllOnce a.here (h.once b)))
          ∙ ap first (sym a.ahead)))

  foreach-rest :
      (fuel : ℕ) (b : ℕ) (n : Node) (more : List (ℕ × Node)) (seen : Entries)
      → At t b n more
      → length more < fuel
      → foreach_loop hashtable_ops fuel collect seen (stand b n) (hold t b n)
        ≡ some (seen ++ tagged_entries more, t)
  unfolding foreach_loop foreach_with found_next collect stand
  foreach-rest zero b n more seen a f = absurd (omega arith)
  foreach-rest (suc fuel) b n [] seen a f =
      ap (foreach_with hashtable_ops collect (foreach_loop hashtable_ops fuel collect) seen)
        (next-first b n [] a ∙ ap (stay (stand b n)) (drop_held b n a.before a.after a.here))
      ∙ ap (λ xs. some (xs, t)) (sym (append-nil seen))
  foreach-rest (suc fuel) b n ((c, m) ∷ rest) seen a f =
      let next : At t c m rest =
        to_visit-At t (t.hash_buckets_len - 1 - b) b (a.before ++ (n ∷ [])) a.after c m rest
          (omega (arith, a.inside)) (a.here ∙ sym (append_assoc a.before (n ∷ []) a.after))
          (sym a.ahead) in
      ap (foreach_with hashtable_ops collect (foreach_loop hashtable_ops fuel collect) seen) (
        next-first b n ((c, m) ∷ rest) a
        ∙ ap (moved c m) (
            drop_moved b n a.before a.after a.here c m
              (ahead-ne b n ((c, m) ∷ rest) c m rest a refl)))
      ∙ foreach-rest fuel c m rest (seen ++ ((m.key, m.value) ∷ [])) next (omega arith)
      ∙ ap (λ xs. some (xs, t)) (append_assoc seen ((m.key, m.value) ∷ []) (tagged_entries rest))

  foreach-first :
      (fuel : ℕ) (all : List (ℕ × Node))
      → all ≡ to_visit t (t.hash_buckets_len - 1) 0 (t.hash_buckets 0)
      → length all < suc fuel
      → 0 < t.hash_buckets_len
      → foreach_with hashtable_ops collect
          (foreach_loop hashtable_ops fuel collect)
          []
          (found_next (record { node = none; bucket = 0 }) t (some (first all)))
        ≡ some (tagged_entries all, t)
  unfolding foreach_with found_next collect drop_current stand
  foreach-first fuel [] e f pos = refl
  foreach-first fuel ((c, m) ∷ rest) e f pos =
      foreach-rest fuel c m rest ((m.key, m.value) ∷ [])
        (to_visit-At t (t.hash_buckets_len - 1) 0 [] (t.hash_buckets 0) c m rest (omega arith) refl
          (sym e))
        (omega arith)

  -- The first call of hashtable_iter_next.
  next-start :
      (all : List (ℕ × Node))
      → all ≡ to_visit t (t.hash_buckets_len - 1) 0 (t.hash_buckets 0)
      → 0 < t.hash_buckets_len
      → iter_next (record { node = none; bucket = 0 }) t
        ≡ found_next (record { node = none; bucket = 0 }) t (some (first all))
  unfolding iter_next start_list search_from
  next-start all e pos =
      ap
        (λ v.
          found_next (record { node = none; bucket = 0 }) t
            (some (if v then scan t (t.hash_buckets_len - 1 - 0) 0 (t.hash_buckets 0) else none)))
        (lt→ltb 0 t.hash_buckets_len pos)
      ∙ ap (λ o. found_next (record { node = none; bucket = 0 }) t (some o))
          (ap (λ k. scan t k 0 (t.hash_buckets 0))
              (let q : t.hash_buckets_len - 1 - 0 ≡ t.hash_buckets_len - 1 = omega arith in q)
            ∙ scan-first t h.once (t.hash_buckets_len - 1) 0 (t.hash_buckets 0) (h.once 0)
            ∙ ap first (sym e))

  -- qb_map_foreach from the start.
  foreach-start :
      (fuel : ℕ) (all : List (ℕ × Node))
      → all ≡ to_visit t (t.hash_buckets_len - 1) 0 (t.hash_buckets 0)
      → length all < fuel
      → 0 < t.hash_buckets_len
      → foreach hashtable_ops fuel t collect [] ≡ some (tagged_entries all, t)
  unfolding foreach foreach_loop
  foreach-start zero all e f pos = absurd (omega arith)
  foreach-start (suc fuel) all e f pos =
      ap (foreach_with hashtable_ops collect (foreach_loop hashtable_ops fuel collect) [])
        (next-start all e pos)
      ∙ foreach-first fuel all e f pos

  rm-deref :
      (s : Table) (o : Option Node) (r : Table)
      → deref_node s o ≡ some r
      → rm_node s o ≡ (true, one_less r)
  unfolding deref_node rm_node
  rm-deref s none r e = cc
  rm-deref s (some n) r e = ap (λ x. (true, one_less x)) (some-injective e)

  -- Removing the node that an iterator refers to only drops a reference.
  rm_held :
      (b : ℕ) (n : Node) (more : List (ℕ × Node))
      → At t b n more
      → table_rm (hold t b n) n.key ≡ (true, one_less t)
  unfolding table_rm drop_current
  rm_held b n more a =
      rm-deref (hold t b n) (lookup_node (hold t b n) n.key) t
        (drop_held b n a.before a.after a.here)

  found-leaves :
      (all : List (ℕ × Node)) (key : Key) (value : ℕ) (i : Iter) (t' : Table)
      → all ≡ to_visit t (t.hash_buckets_len - 1) 0 (t.hash_buckets 0)
      → 0 < t.hash_buckets_len
      → found_next (record { node = none; bucket = 0 }) t (some (first all))
        ≡ some (some (key, value), i, t')
      → (table_rm t' key ≡ (true, one_less t)) × (table_get (one_less t) key ≡ value)
  unfolding found_next drop_current table_get lookup_node value_of
  found-leaves [] key value i t' e pos r =
      absurd (some_ne_none (sym (ap (λ (p : Next). p.0) (some-injective r))))
  found-leaves ((c, m) ∷ rest) key value i t' e pos r =
      let all_left : t.hash_buckets_len - 1 + 0 + 1 ≡ t.hash_buckets_len = omega (arith, pos) in
      let there : some (m.key, m.value) ≡ some (key, value) =
        ap (λ (p : Next). p.0) (some-injective r) in
      let same_key : m.key ≡ key = ap (λ (p : Key × ℕ). p.0) (some-injective there) in
      let same_value : m.value ≡ value = ap (λ (p : Key × ℕ). p.1) (some-injective there) in
      let same_table : hold t c m ≡ t' = ap (λ (p : Next). p.2) (some-injective r) in
      let place : At t c m rest =
        to_visit-At t (t.hash_buckets_len - 1) 0 [] (t.hash_buckets 0) c m rest all_left refl
          (sym e) in
      let found : find m.key (bucket_of t m.key) ≡ some m =
        ap (λ b. find m.key (t.hash_buckets b)) (home c m place.before place.after place.here)
        ∙ found_here c m place.before place.after place.here in
      (
        ap₂ table_rm (sym same_table) (sym same_key) ∙ rm_held c m rest place,
        ap (λ k. value_of (find k (bucket_of t k))) (sym same_key) ∙ ap value_of found ∙ same_value,
      )

  length-visited :
      length (tagged_entries (to_visit t (t.hash_buckets_len - 1) 0 (t.hash_buckets 0))) ≡ length es
  unfolding visited
  length-visited =
      same-length (visited t) es (visited-IsDistinct t h.placed h.unique) h.distinct
        (λ q. lookup-visited t h.placed q h.sized ∙ h.reads q)

  length-tagged : (xs : List (ℕ × Node)) → length (tagged_entries xs) ≡ length xs
  length-tagged [] = refl
  length-tagged ((b, n) ∷ xs) = ap suc (length-tagged xs)

-- With fuel for one more step than there are entries, qb_map_foreach with a function that never
-- stops it calls the function once for every entry of the table, and leaves the table as it was,
-- reference counts included.
pub foreach-collects :
    (t : Table) (es : Entries)
    → Holds t es
    → (fuel : ℕ) → length es < fuel
    → (seen : Entries) × (foreach hashtable_ops fuel t collect [] ≡ some (seen, t))
      × IsDistinct seen
      × ((q : Key) → lookup q seen ≡ lookup q es)
unfolding visited
foreach-collects t es h fuel f = (
  visited t,
  foreach-start t es h fuel (to_visit t (t.hash_buckets_len - 1) 0 (t.hash_buckets 0)) refl
      (omega (
        arith,
        length-visited t es h,
        length-tagged t es h (to_visit t (t.hash_buckets_len - 1) 0 (t.hash_buckets 0)),
      ))
      (omega (arith, h.sized, pow_pos t.order)),
  visited-IsDistinct t h.placed h.unique,
  λ q. lookup-visited t h.placed q h.sized ∙ h.reads q,
)

-- An iterator that is freed after its first step, which found an entry, keeps its reference to it:
-- hashtable_rm of that entry says that it removed the entry and counts it as gone, but only drops
-- that reference, and hashtable_get still finds the value.
pub iter_free-keeps_reference :
    (t : Table) (es : Entries)
    → Holds t es
    → (key : Key) (value : ℕ) (i : Iter) (t' : Table)
    → iter_next (iter_create t none).0 t ≡ some (some (key, value), i, t')
    → (table_rm (iter_free i t') key ≡ (true, one_less t)) × (table_get (one_less t) key ≡ value)
iter_free-keeps_reference t es h key value i t' e =
    let pos : 0 < t.hash_buckets_len = omega (arith, h.sized, pow_pos t.order) in
    found-leaves t es h (to_visit t (t.hash_buckets_len - 1) 0 (t.hash_buckets 0)) key value i t'
      refl pos
      (sym (next-start t es h (to_visit t (t.hash_buckets_len - 1) 0 (t.hash_buckets 0)) refl pos)
        ∙ e)
