-- ===== src/SkipList/Removed.antt =====
-- skiplist_rm of a key that is there keeps the list in shape.
use libqb.Prelude.{
  ltb, ◌==◌, if◌then◌else◌, Bool-cases, length, length-append, ℕ, ◌+◌, ◌%◌, ◌<◌, ◌≡◌, refl, sym, ap,
  ◌∙◌, ◌≢◌, inl, inr, true, false, ◌||◌, Option, some, List, [], ◌∷◌, ◌++◌, arith, lt→ltb,
  bind-some,
}
use libqb.Map.{Notification}
use libqb.SkipList.{SkipList, Node, Forward}
use libqb.SkipList.Nodes.{node_deref}
use libqb.SkipList.Removing.{remove, splice_loop, take_over, has_no_key, one_less}
use libqb.SkipList.Items.{
  Item, last_at, Stored, AllStored, AllReach, AllStored-parts, AllStored-join, AllStored-keeps,
  AllReach-parts, AllReach-join,
}
use libqb.SkipList.Sorted.{IsSorted-remove}
use libqb.SkipList.Writes.{with_arrays}
use libqb.SkipList.Apart.{IsApart, IsApart-parts, AllApart-from, sorted-AllApart}
use libqb.SkipList.Shape.{Shape, recount-Shape}
use libqb.SkipList.Dropping.{
  without, told_deleted, node_deref-once, without-keeps, without-back, without-forward,
  without-IsMemory,
}
use libqb.SkipList.Kept.{AllAt, AllStored-at, Links-at, AllEnded-at}
use libqb.SkipList.Lowering.{lower-lem, with_level}
use libqb.SkipList.Spliced.{all_updates, here, header-IsApart, Past}

at_of : (x : ℕ) (is : List Item) → IsApart x is → AllAt (λ y. x ≢ y) is
at_of x [] a = tt
at_of x (i ∷ is) (n, a) = (n, at_of x is a)

pub at_both :
    (x z : ℕ) (is : List Item) → IsApart x is → IsApart z is → AllAt (λ y. (x ≢ y) × (z ≢ y)) is
at_both x z [] a b = tt
at_both x z (i ∷ is) (n, a) (m, b) = ((n, m), at_both x z is a b)

IsApart-join : (x : ℕ) (is js : List Item) → IsApart x is → IsApart x js → IsApart x (is ++ js)
IsApart-join x [] js a b = b
IsApart-join x (i ∷ is) js (n, a) b = (n, IsApart-join x is js a b)

pub last_at-keyed :
    (s : SkipList) (k : Item) (is : List Item) (l : ℕ)
    → Stored s k
    → AllStored s is
    → (m : Node) × (s.nodes (last_at l k.at is) ≡ some m) × (has_no_key m.key ≡ false)
last_at-keyed s k [] l st sts = (st.node, st.there, ap has_no_key st.keyed)
last_at-keyed s k (i ∷ is) l st (si, sts) = elim (Bool-cases (ltb l i.reach)) [
  | inl t ↦ rw t (last_at-keyed s i is l si sts)
  | inr t ↦ rw t (last_at-keyed s k is l st sts)
]

module _ (s : SkipList) (front rest : List Item) (i : Item) (h : Shape s (front ++ (i ∷ rest)))
    (arrays : ℕ → Option Forward) (past : Past s front rest i h (with_arrays s arrays)) where
  abbrev sp : SkipList
  sp = with_arrays s arrays

  abbrev n : Node
  n = (here s front rest i h).node

  there : s.nodes i.at ≡ some n
  there = (here s front rest i h).there

  header_ne : i.at ≢ s.header
  header_ne q =
      let (a, (b, c)) = IsApart-parts s.header front (i ∷ rest) (header-IsApart s front rest i h) in
      b (sym q)

  abbrev calls : List Notification
  calls = told_deleted sp n h.header_node

  stored : AllStored s (front ++ rest)
  stored =
      let (a, (b, c)) = AllStored-parts s front (i ∷ rest) h.stored in
      AllStored-join s front rest a c

  others : AllAt (λ y. i.at ≢ y) (front ++ rest)
  others =
      let (a, b) =
        AllApart-from i front rest (sorted-AllApart s (front ++ (i ∷ rest)) h.stored h.sorted) in
      at_of i.at (front ++ rest) (IsApart-join i.at front rest a b)

  reach : AllReach s.level (front ++ rest)
  reach =
      let (a, (b, c)) = AllReach-parts s.level front (i ∷ rest) h.reach in
      AllReach-join s.level front rest a c

  room : length (front ++ rest) < s.fresh
  room =
      let e = length-append front (i ∷ rest) in
      let f = length-append front rest in omega (arith, h.room)

  abbrev without_it : SkipList
  without_it = without sp i.at n true calls

  -- Behind another node the node is freed with its array.
  without-Shape : Shape without_it (front ++ rest)
  without-Shape =
      let sp_stored : AllStored sp (front ++ rest) =
        AllStored-keeps s sp (front ++ rest) (λ y m e. e) stored in
      let same = without-forward sp past.memory i.at n there calls in
      record {
        header_node = h.header_node;
        header_there =
            without-keeps sp past.memory i.at n there calls s.header h.header_node header_ne
              h.header_there;
        header_unkeyed = h.header_unkeyed;
        header_once = h.header_once;
        forwards =
            λ l p. same s.header l h.header_node header_ne h.header_there ∙ past.linked.0 l p;
        links =
            Links-at sp without_it (λ y. i.at ≢ y) (front ++ rest) (λ y l m q e. same y l m q e)
              others sp_stored past.linked.1;
        stored =
            AllStored-at s without_it (λ y. i.at ≢ y) (front ++ rest)
              (λ y m q e. without-keeps sp past.memory i.at n there calls y m q e) others stored;
        sorted = IsSorted-remove i front rest h.sorted;
        reach = reach;
        height = h.height;
        ended =
            AllEnded-at sp without_it (λ y. i.at ≢ y) (front ++ rest)
              (λ y m q e. (without-back sp past.memory i.at n there calls y m e).1)
              (λ y l m q e. same y l m q e) others past.ended;
        room = room;
        memory = without-IsMemory sp past.memory i.at n there calls;
      }

  array_there : (f : Forward) × (arrays n.forward ≡ some f)
  array_there = past.memory.backed i.at n there

  once : n.refcount ≡ 1
  once = (here s front rest i h).once

  some_level : 0 < n.level
  some_level =
      let (a, (b, c)) = AllReach-parts s.level front (i ∷ rest) h.reach in
      let (p, q) = b in let r = (here s front rest i h).reaches in omega (arith, p, r)

  deref-behind : node_deref sp i.at ≡ some without_it
  deref-behind =
      let (f, g) = array_there in
      node_deref-once sp i.at n h.header_node there h.header_there header_ne once f g
      ∙ ap (λ b. some (without sp i.at n (b || s.level == 0) calls)) (lt→ltb 0 n.level some_level)

  plain :
      (c : Node) (o : Option SkipList)
      → has_no_key c.key ≡ false
      → (if ltb 1 n.refcount || has_no_key c.key then o else some sp) ≡ some sp
  plain c o e = rw (once, e) refl

  -- What skiplist_rm does from a predecessor with a key on.
  pub remove-behind :
      (cur : ℕ) (c : Node)
      → s.nodes cur ≡ some c
      → has_no_key c.key ≡ false
      → splice_loop s.level 0 i.at (all_updates s front rest i h) s ≡ some sp
      → (t : SkipList) × (remove s i.at cur (all_updates s front rest i h) ≡ some t)
        × Shape t (front ++ rest)
        × (t.length ≡ (s.length + 18446744073709551615) % 18446744073709551616)
  unfolding remove
  remove-behind cur c e k runs =
      let (l, w, p, r) =
        lower-lem s.level without_it (front ++ rest) without-Shape.forwards h.height reach in
      (
        one_less (with_level without_it l),
        bind-some _ runs (
            bind-some _ there (
              bind-some _ e (
                bind-some _ (plain c (take_over sp i.at cur) k)
                  (bind-some _ deref-behind (bind-some _ w refl))))),
        recount-Shape without_it (front ++ rest) without-Shape l
            ((s.length + 18446744073709551615) % 18446744073709551616) r
            (omega (arith, p, h.height)),
        refl,
      )
