-- ===== src/SkipList/Holding.antt =====
-- What a skip list without iterators holds, and what skiplist_get and skiplist_put do to it.
use libqb.Prelude.{
  if◌then◌else◌, length, ℕ, ◌+◌, ◌%◌, ◌≡◌, sym, ap, ◌∙◌, subst, true, Option, none, some, List, ◌∷◌,
  ◌++◌, arith,
}
use libqb.Map.Keys.{Key, key_eq}
use libqb.Map.Entries.{
  Entries, lookup, assign, or_null, is_some, IsDistinct, lookup-assign, assign-IsDistinct,
  length-assign,
}
use libqb.SkipList.{SkipList, level_generate, list_get}
use libqb.SkipList.Putting.{Chance, list_put}
use libqb.SkipList.Items.{Item, AllBelow}
use libqb.SkipList.Sorted.{revalued}
use libqb.SkipList.Shape.{Shape, Middle, missing, present, cut}
use libqb.SkipList.Inserted.{item_of}
use libqb.SkipList.Reading.{
  entries_of, lookup-insert, lookup-gone, lookup-revalued, lookup-AllBelow, at_self, list_get-Shape,
}
use libqb.SkipList.Put.{put-missing, put-present}

-- The list is in shape, and its items are read like the entries, of which there are as many as it
-- counts.
pub record Holds (s : SkipList) (es : Entries) : Type 0 where
  pub items : List Item
  pub shape : Shape s items
  pub reads : (q : Key) → lookup q (entries_of items) ≡ lookup q es
  pub distinct : IsDistinct es
  pub counted : s.length ≡ length es % 18446744073709551616

-- malloc and calloc succeed, and random stops to ask for another level before its numbers end.
abbrev pub Supplied : Chance → Type 0
Supplied c = (c.malloc ≡ true) × ((level : ℕ) × (level_generate c.randoms ≡ some level))

-- skiplist_get gives the value of the entry, or NULL when there is none.
pub list_get-or_null :
    (s : SkipList) (es : Entries) (key : Key)
    → Holds s es
    → list_get s key ≡ some (or_null (lookup key es))
list_get-or_null s es key h =
    list_get-Shape s key h.items h.shape ∙ ap (λ o. some (or_null o)) (h.reads key)

module _ (c : Chance) (s : SkipList) (es : Entries) (key : Key) (value : ℕ) (h : Holds s es)
    (supplied : Supplied c) where
  assigned :
      (q : Key)
      → lookup q (assign key value es)
        ≡ (if key_eq key q then some value else lookup q (entries_of h.items))
  assigned q =
      lookup-assign key q value es
      ∙ ap (λ o. if key_eq key q then some value else o) (sym (h.reads q))

  count-assign :
      (o : Option ℕ)
      → lookup key (entries_of h.items) ≡ o
      → length (assign key value es) ≡ (if is_some o then length es else length es + 1)
  count-assign o e =
      length-assign key value es
      ∙ ap (λ p. if is_some p then length es else length es + 1) (sym (h.reads key) ∙ e)

  put-middle :
      (front rest : List Item)
      → h.items ≡ front ++ rest
      → Shape s (front ++ rest)
      → AllBelow key front
      → Middle key rest
      → (t : SkipList) × (list_put c s key value ≡ some t) × Holds t (assign key value es)
  put-middle front _ w shape b (missing rest a) =
      let (t, e, shape', len) =
        put-missing s key value c front rest shape b a supplied.1.0 supplied.0 supplied.1.1 in
      (
        t,
        e,
        record {
          items = front ++ (item_of s key value supplied.1.0 ∷ rest);
          shape = shape';
          reads = λ q.
              lookup-insert q (item_of s key value supplied.1.0) front rest b
              ∙ ap (λ xs. if key_eq key q then some value else lookup q (entries_of xs)) (sym w)
              ∙ sym (assigned q);
          distinct = assign-IsDistinct key value es h.distinct;
          counted =
              let n =
                count-assign none
                  (ap (λ xs. lookup key (entries_of xs)) w ∙ lookup-gone key front rest b a) in
              omega (arith, len, n, h.counted);
        },
      )
  put-middle front _ w shape b (present i rest e a) =
      let (t, r, shape', len) = put-present s key value c front rest i shape b e a in
      (
        t,
        r,
        record {
          items = front ++ (revalued i value ∷ rest);
          shape = shape';
          reads = λ q.
              lookup-revalued q key i value front rest e b
              ∙ ap (λ xs. if key_eq key q then some value else lookup q (entries_of xs)) (sym w)
              ∙ sym (assigned q);
          distinct = assign-IsDistinct key value es h.distinct;
          counted =
              let n = count-assign (some i.value) (
                ap (λ xs. lookup key (entries_of xs)) w
                ∙ lookup-AllBelow key front (i ∷ rest) b
                ∙ at_self i rest e) in
              len ∙ h.counted ∙ ap (λ m. m % 18446744073709551616) (sym n);
        },
      )

  -- skiplist_put succeeds when there is memory, and then the list has the entry.
  pub list_put-Holds :
      (t : SkipList) × (list_put c s key value ≡ some t) × Holds t (assign key value es)
  list_put-Holds =
      let k = cut key h.items h.shape.sorted in
      put-middle k.front k.rest k.whole (subst (Shape s) k.whole h.shape) k.below k.middle
