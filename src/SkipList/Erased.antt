-- ===== src/SkipList/Erased.antt =====
-- What skiplist_rm does to the entries that a skip list holds.
use libqb.Prelude.{
  if◌then◌else◌, length, ℕ, ◌+◌, ◌-◌, ◌%◌, ◌≡◌, sym, ap, ◌∙◌, subst, inl, inr, false, none, some,
  List, [], ◌∷◌, ◌++◌, arith,
}
use libqb.Map.Keys.{Key, key_eq, Key-cases}
use libqb.Map.Entries.{
  Entries, lookup, erase, is_some, lookup-erase, erase-IsDistinct, length-erase, some_long,
}
use libqb.SkipList.{SkipList}
use libqb.SkipList.Rm.{rm-missing, rm-present_first, rm-present_behind}
use libqb.SkipList.Kept.{capped, entries_of-capped}
use libqb.SkipList.Removing.{list_rm}
use libqb.SkipList.Items.{Item, AllBelow, AllAbove}
use libqb.SkipList.Shape.{Shape, Middle, missing, present, cut}
use libqb.SkipList.Reading.{
  entries_of, lookup-insert, lookup-gone, AllBelow-same, lookup-AllBelow, at_self,
}
use libqb.SkipList.Holding.{Holds}

module _ (s : SkipList) (es : Entries) (key : Key) (h : Holds s es) where
  erased :
      (front rest : List Item)
      → lookup key (entries_of (front ++ rest)) ≡ none
      → ((q : Key) → key_eq key q ≡ false → lookup q (entries_of (front ++ rest)) ≡ lookup q es)
      → (q : Key) → lookup q (entries_of (front ++ rest)) ≡ lookup q (erase key es)
  erased front rest gone others q = elim (Key-cases key q) [
    | inl (e, t) ↦
        ap (λ k. lookup k (entries_of (front ++ rest))) (sym e)
        ∙ gone
        ∙ sym (lookup-erase key q es h.distinct ∙ ap (λ b. if b then none else lookup q es) t)
    | inr (n, t) ↦
        others q t
        ∙ sym (lookup-erase key q es h.distinct ∙ ap (λ b. if b then none else lookup q es) t)
  ]

  fewer :
      (i : Item) (front rest : List Item)
      → h.items ≡ front ++ (i ∷ rest)
      → i.key ≡ key
      → AllBelow key front
      → AllAbove key rest
      → (q : Key) → lookup q (entries_of (front ++ rest)) ≡ lookup q (erase key es)
  fewer i front rest w e b a = erased front rest (lookup-gone key front rest b a) (λ q t.
      let split = lookup-insert q i front rest (AllBelow-same i.key key front e b) in
      let differs : key_eq i.key q ≡ false = ap (λ k. key_eq k q) e ∙ t in
      sym (
        split ∙ ap (λ c. if c then some i.value else lookup q (entries_of (front ++ rest))) differs)
      ∙ ap (λ xs. lookup q (entries_of xs)) (sym w)
      ∙ h.reads q)

  there_before :
      (i : Item) (front rest : List Item)
      → h.items ≡ front ++ (i ∷ rest)
      → i.key ≡ key
      → AllBelow key front
      → lookup key es ≡ some i.value
  there_before i front rest w e b =
      sym (h.reads key)
      ∙ ap (λ xs. lookup key (entries_of xs)) w
      ∙ lookup-AllBelow key front (i ∷ rest) b
      ∙ at_self i rest e

  counts :
      (t : SkipList) (v : ℕ)
      → lookup key es ≡ some v
      → t.length ≡ (s.length + 18446744073709551615) % 18446744073709551616
      → t.length ≡ length (erase key es) % 18446744073709551616
  counts t v e len =
      let n = length-erase key es ∙ ap (λ p. if is_some p then length es - 1 else length es) e in
      let p = some_long key es (ap is_some e) in omega (arith, len, n, p, h.counted)

  rm-middle :
      (front rest : List Item)
      → h.items ≡ front ++ rest
      → Shape s (front ++ rest)
      → AllBelow key front
      → Middle key rest
      → (t : SkipList) × (list_rm s key ≡ some (is_some (lookup key es), t))
        × Holds t (erase key es)
  rm-middle front _ w shape b (missing rest a) =
      let gone : lookup key es ≡ none =
        sym (h.reads key)
        ∙ ap (λ xs. lookup key (entries_of xs)) w
        ∙ lookup-gone key front rest b a in
      (
        s,
        rm-missing s front rest shape key b a ∙ ap (λ o. some (is_some o, s)) (sym gone),
        record {
          items = h.items;
          shape = h.shape;
          reads = λ q.
              ap (λ xs. lookup q (entries_of xs)) w
              ∙ erased front rest (lookup-gone key front rest b a)
                  (λ r t. ap (λ xs. lookup r (entries_of xs)) (sym w) ∙ h.reads r) q;
          distinct = erase-IsDistinct key es h.distinct;
          counted =
              h.counted
              ∙ ap (λ n. n % 18446744073709551616)
                  (sym (
                    length-erase key es
                    ∙ ap (λ p. if is_some p then length es - 1 else length es) gone));
        },
      )
  rm-middle [] _ w shape b (present i rest e a) =
      let (t, r, (top, shape'), len) = rm-present_first s key i rest e a shape in
      let there = there_before i [] rest w e b in
      (
        t,
        r ∙ ap (λ o. some (is_some o, t)) (sym there),
        record {
          items = capped top rest;
          shape = shape';
          reads = λ q. ap (lookup q) (entries_of-capped top rest) ∙ fewer i [] rest w e b a q;
          distinct = erase-IsDistinct key es h.distinct;
          counted = counts t i.value there len;
        },
      )
  rm-middle (k ∷ is) _ w shape b (present i rest e a) =
      let (t, r, shape', len) = rm-present_behind s key i rest e a k is shape b in
      let there = there_before i (k ∷ is) rest w e b in
      (
        t,
        r ∙ ap (λ o. some (is_some o, t)) (sym there),
        record {
          items = (k ∷ is) ++ rest;
          shape = shape';
          reads = fewer i (k ∷ is) rest w e b a;
          distinct = erase-IsDistinct key es h.distinct;
          counted = counts t i.value there len;
        },
      )

  -- skiplist_rm tells whether there was an entry, and then the list does not have it.
  pub list_rm-Holds :
      (t : SkipList) × (list_rm s key ≡ some (is_some (lookup key es), t)) × Holds t (erase key es)
  list_rm-Holds =
      let k = cut key h.items h.shape.sorted in
      rm-middle k.front k.rest k.whole (subst (Shape s) k.whole h.shape) k.below k.middle
