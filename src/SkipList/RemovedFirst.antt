-- ===== src/SkipList/RemovedFirst.antt =====
-- skiplist_rm of the first node of the list, whose array the header gets.
use libqb.Prelude.{
  ltb, if◌then◌else◌, Bool-cases, update, update_self, update_ne, ℕ, ◌+◌, ◌%◌, ◌≤◌, ◌<◌, ◌≡◌, refl,
  sym, ap, ◌∙◌, ◌≢◌, inl, inr, true, ◌||◌, Option, some, List, [], ◌∷◌, arith, ne→beq, bind-some,
}
use libqb.Map.{Notification}
use libqb.SkipList.{SkipList, Node, Forward, level_count}
use libqb.SkipList.Nodes.{node_deref}
use libqb.SkipList.Removing.{remove, splice_loop, take_over, has_no_key, one_less}
use libqb.SkipList.Items.{Item, Forwards, AllStored, AllStored-keeps}
use libqb.SkipList.Writes.{with_arrays}
use libqb.SkipList.Apart.{AllApart-from, sorted-AllApart}
use libqb.SkipList.Shape.{Shape, recount-Shape}
use libqb.SkipList.Dropping.{without, told_deleted, node_deref-once}
use libqb.SkipList.TakingOver.{
  Neighbours, take_over-lem, taken, marked, moved, rest_of, header_array, rest-header, rest-keeps,
  rest-back, rest-forward, rest-forward_header, rest-IsMemory,
}
use libqb.SkipList.Kept.{
  AllAt, AllStored-at, Links-at, AllEnded-at, capped, first-capped_low, first-capped_high,
  capped-Links, capped-AllStored, capped-AllEnded, capped-IsSorted, capped-AllReach, length-capped,
}
use libqb.SkipList.Lowering.{lower-lem, with_level}
use libqb.SkipList.Spliced.{all_updates, here, header-IsApart, Past}
use libqb.SkipList.Removed.{at_both}

module _ (s : SkipList) (rest : List Item) (i : Item) (h : Shape s (i ∷ rest))
    (arrays : ℕ → Option Forward) (past : Past s [] rest i h (with_arrays s arrays)) where
  abbrev sp : SkipList
  sp = with_arrays s arrays

  abbrev n : Node
  n = (here s [] rest i h).node

  there : s.nodes i.at ≡ some n
  there = (here s [] rest i h).there

  ne_header : i.at ≢ s.header
  ne_header q = (header-IsApart s [] rest i h).0 (sym q)

  low : n.level ≤ level_count
  low = (here s [] rest i h).made

  s_level : 0 < s.level
  s_level = let (p, q) = h.reach.0 in omega (arith, p, q)

  abbrev w : Neighbours sp i.at s.header
  w = record {
    node = n;
    header = h.header_node;
    apart = ne_header;
    memory = past.memory;
    there = there;
    header_there = h.header_there;
    low = low;
  }

  abbrev over : SkipList
  over = taken sp i.at s.header w

  abbrev calls : List Notification
  calls = told_deleted over (marked sp i.at s.header w) (moved sp i.at s.header w)

  abbrev after : SkipList
  after = rest_of sp i.at s.header w calls

  stored : AllStored s rest
  stored = h.stored.1

  others : AllAt (λ y. (i.at ≢ y) × (s.header ≢ y)) rest
  others =
      at_both i.at s.header rest
        (AllApart-from i [] rest (sorted-AllApart s (i ∷ rest) h.stored h.sorted)).1
        (header-IsApart s [] rest i h).1

  some_level : 0 < n.level
  some_level = let r = (here s [] rest i h).reaches in let (p, q) = h.reach.0 in omega (arith, p, r)

  forwards : Forwards after s.header level_count (capped n.level rest)
  forwards l p =
      rest-forward_header sp i.at s.header w calls l ∙ (elim (Bool-cases (ltb l n.level)) [
        | inl t ↦
            rw t
              (past.linked.0 l p ∙ ap some (sym (first-capped_low n.level l rest (ground arith))))
        | inr t ↦ rw t (
            past.own l
            ∙ h.ended.0 n there l (ground arith) p
            ∙ ap some (sym (first-capped_high n.level l rest (ground arith))))
      ])

  after-Shape : Shape after (capped n.level rest)
  after-Shape =
      let sp_stored : AllStored sp rest = AllStored-keeps s sp rest (λ y m e. e) stored in
      record {
        header_node = record h.header_node { forward = n.forward };
        header_there = rest-header sp i.at s.header w calls;
        header_unkeyed = h.header_unkeyed;
        header_once = h.header_once;
        forwards = forwards;
        links = capped-Links after n.level rest (
            Links-at sp after (λ y. (i.at ≢ y) × (s.header ≢ y)) rest
              (λ y l m q e. rest-forward sp i.at s.header w calls y l m q.0 q.1 e) others sp_stored
              past.linked.1);
        stored = capped-AllStored after n.level rest (
            AllStored-at s after (λ y. (i.at ≢ y) × (s.header ≢ y)) rest
              (λ y m q e. rest-keeps sp i.at s.header w calls y m q.0 q.1 e) others stored);
        sorted = capped-IsSorted n.level rest h.sorted.1;
        reach = capped-AllReach n.level s.level rest some_level h.reach.1;
        height = h.height;
        ended = capped-AllEnded after n.level rest (
            AllEnded-at sp after (λ y. (i.at ≢ y) × (s.header ≢ y)) rest
              (λ y m q e. elim (rest-back sp i.at s.header w calls y m e).1 [
                | inl (a, b) ↦ absurd (q.1 a)
                | inr (a, b) ↦ b
              ])
              (λ y l m q e. rest-forward sp i.at s.header w calls y l m q.0 q.1 e) others
              past.ended);
        room = let e = length-capped n.level rest in omega (arith, e, h.room);
        memory = rest-IsMemory sp i.at s.header w calls;
      }

  deref-first : node_deref over i.at ≡ some after
  deref-first =
      let (f, g, k) = header_array sp i.at s.header w calls in
      node_deref-once over i.at (marked sp i.at s.header w) (moved sp i.at s.header w)
        (update_ne (update s.nodes i.at (some (marked sp i.at s.header w))) s.header
            (some (moved sp i.at s.header w)) i.at (λ q. ne_header (sym q))
          ∙ update_self s.nodes i.at (some (marked sp i.at s.header w)))
        (update_self (update s.nodes i.at (some (marked sp i.at s.header w))) s.header
          (some (moved sp i.at s.header w)))
        ne_header (here s [] rest i h).once f g
      ∙ ap (λ b. some (without over i.at (marked sp i.at s.header w) b calls))
          (ne→beq s.level 0 (omega (arith, s_level)))

  keyless :
      (c : Node) (o : Option SkipList)
      → has_no_key c.key ≡ true
      → (if ltb 1 n.refcount || has_no_key c.key then o else some sp) ≡ o
  keyless c o e = ground (arith, e)

  -- What skiplist_rm does when the node is the first.
  pub remove-first :
      splice_loop s.level 0 i.at (all_updates s [] rest i h) s ≡ some sp
      → (t : SkipList) × (remove s i.at s.header (all_updates s [] rest i h) ≡ some t)
        × Shape t (capped n.level rest)
        × (t.length ≡ (s.length + 18446744073709551615) % 18446744073709551616)
  unfolding remove
  remove-first runs =
      let (l, lowered, p, r) =
        lower-lem s.level after (capped n.level rest) after-Shape.forwards h.height
          after-Shape.reach in
      (
        one_less (with_level after l),
        bind-some _ runs (
            bind-some _ there (
              bind-some _ h.header_there (
                bind-some _
                  (keyless h.header_node (take_over sp i.at s.header)
                      (ap has_no_key h.header_unkeyed)
                    ∙ take_over-lem sp i.at s.header w)
                  (bind-some _ deref-first (bind-some _ lowered refl))))),
        recount-Shape after (capped n.level rest) after-Shape l
            ((s.length + 18446744073709551615) % 18446744073709551616) r
            (omega (arith, p, h.height)),
        refl,
      )
