-- ===== src/Handles/Iterator.antt =====
-- qb_hdb_iterator_next, which gets one active instance after the other.
use libqb.Prelude.{
  ◌==◌, if◌then◌else◌, Errno, ebadf, other, Ret, ok, err, ℕ, zero, suc, ◌+◌, ◌-◌, ◌*◌, ◌%◌, ◌≤◌,
  ◌<◌, ◌≡◌, refl, sym, ap, ◌∙◌, ◌⊎◌, inl, inr, Bool, true, false, not, ◌&&◌, Option, none, some,
  arith, ℕ_discrete, eq→beq,
}
use libqb.Array.{Array, Indexed, element_at, failed, index, element, element_in}
use libqb.Array.Index.{index-loaded}
use libqb.Handles.{
  Hdb, Memory, Entry, State, empty, pending_removal, active, is_active, zeroed, store, base_convert,
  check_of, handle_get,
}
use libqb.Handles.Entries.{IsValid}
use libqb.Handles.Count.{Names, get-named, get-refused}

-- The result, *instance, *handle, and the database.
abbrev pub Next : Type 0
Next = Ret × ℕ × ℕ × Hdb

abbrev pub is_ok : Ret → Bool
is_ok (ok k) = true
is_ok (err e) = false

abbrev pub one_on : Hdb → Hdb
one_on h = record h { iterator = (h.iterator + 1) % 4294967296 }

-- What follows the qb_hdb_handle_get in the `while` of qb_hdb_iterator_next.
unfoldable pub got_next :
    (Ret → ℕ → ℕ → Hdb → Option Next) → ℕ → Option (Ret × ℕ × Hdb) → Option Next
got_next more handle none = none
got_next more handle (some (res, instance_, h)) =
    let rest = more res instance_ handle (one_on h) in
    if is_ok res then some (res, instance_, handle, one_on h) else rest

unfoldable pub entry_next :
    Memory → (Ret → ℕ → ℕ → Hdb → Option Next) → Hdb → Option Entry → Option Next
unfolding got_next
entry_next m more h none = none
entry_next m more h (some entry) =
    let handle = entry.check * 4294967296 + h.iterator in
    got_next more handle (handle_get m h handle)

unfoldable pub indexed_next :
    Memory
    → (Ret → ℕ → ℕ → Hdb → Option Next)
    → ℕ
    → ℕ
    → Hdb
    → Option (Indexed × Array Entry)
    → Option Next
unfolding entry_next
indexed_next m more instance_ handle h none = none
indexed_next m more instance_ handle h (some (failed e, a)) =
    some (err e, instance_, handle, record h { handles = a })
indexed_next m more instance_ handle h (some (element_at b elem new, a)) =
    entry_next m more (record h { handles = a }) (element_in a.bin b elem)

-- The `while`, with `left` entries from the iterator to handle_count.
unfoldable pub next_loop : Memory → ℕ → Ret → ℕ → ℕ → Hdb → Option Next
unfolding indexed_next
next_loop m zero res instance_ handle h = some (res, instance_, handle, h)
next_loop m (suc left) res instance_ handle h =
    indexed_next m (next_loop m left) instance_ handle h
      (index m.realloc_in_grow m.realloc m.calloc zeroed h.handles h.iterator)

-- qb_hdb_iterator_next, from what *instance and *handle are before it. The -1 that it starts with
-- is -EPERM.
unfoldable pub iterator_next : Memory → ℕ → ℕ → Hdb → Option Next
unfolding next_loop
iterator_next m instance_ handle h =
    next_loop m (h.handle_count - h.iterator) (err (other 1)) instance_ handle h

-- qb_hdb_iterator_reset
abbrev pub iterator_reset : Hdb → Hdb
iterator_reset h = record h { iterator = 0 }

-- No entry from `a` to below `b` is active.
abbrev pub Passed : Hdb → ℕ → ℕ → Type 0
Passed h a b =
    (j : ℕ) (e : Entry) → a ≤ j → j < b → element h.handles j ≡ some e → is_active e.state ≡ false

-- A call that gets the first active entry from `a` on, and steps past it.
pub record Gets (h : Hdb) (a : ℕ) (r : Option Next) : Type 0 where
  pub at : ℕ
  pub entry : Entry
  pub from : a ≤ at
  pub below : at < h.handle_count
  pub there : element h.handles at ≡ some entry
  pub is_active_there : entry.state ≡ active
  pub passed : Passed h a at
  pub gives :
      r
      ≡ some (
        ok 0,
        entry.instance_of,
        entry.check * 4294967296 + at,
        record (store h at (record entry { ref_count = (entry.ref_count + 1) % 4294967296 })) {
          iterator = at + 1;
        },
      )

-- A call that finds no active entry from `a` on.
pub record Ends (h : Hdb) (a : ℕ) (r : Option Next) : Type 0 where
  pub passed : Passed h a h.handle_count
  pub errno : Errno
  pub instance_of : ℕ
  pub handle : ℕ
  pub gives : r ≡ some (err errno, instance_of, handle, record h { iterator = h.handle_count })

and_false : (b : Bool) → (b && false) ≡ false
and_false true = refl
and_false false = refl

abbrev active_of : Option Entry → Bool
active_of none = false
active_of (some e) = is_active e.state

module _ (m : Memory) (h : Hdb) (v : IsValid h)
    (checks : (j : ℕ) (e : Entry) → element h.handles j ≡ some e → e.check < 4294967296) where
  abbrev on : ℕ → Hdb
  on i = record h { iterator = i }

  on-Names :
      (i : ℕ) (e : Entry)
      → i < h.handle_count
      → element h.handles i ≡ some e
      → Names (on i) (e.check * 4294967296 + i) e
  on-Names i e below at =
      let small : i < 4294967296 = omega (arith, below, v.counted, v.well_formed.bounded) in
      let base : base_convert (e.check * 4294967296 + i) ≡ i = omega (arith, small) in
      let upper : check_of (e.check * 4294967296 + i) ≡ e.check = omega (arith, small) in
      record {
        valid = record { well_formed = v.well_formed; counted = v.counted; loaded = v.loaded };
        below = omega (arith, base, below);
        at = ap (element h.handles) base ∙ at;
        checked =
            ap (λ c. not (c == 4294967295) && not (c == e.check)) upper
            ∙ ap (λ t. not (e.check == 4294967295) && not t) (eq→beq e.check e.check refl)
            ∙ and_false (not (e.check == 4294967295));
      }

  extend :
      (i : ℕ) (e : Entry)
      → element h.handles i ≡ some e
      → is_active e.state ≡ false
      → (b : ℕ) → Passed h (i + 1) b
      → Passed h i b
  extend i e at dead b p j x l g q = elim (ℕ_discrete i j) [
    | yes s ↦ ap active_of (sym q ∙ ap (element h.handles) (sym s) ∙ at) ∙ dead
    | no s ↦ p j x (omega (arith, l, s)) g q
  ]

  loop_entry :
      (left i : ℕ) (res : Ret) (instance_ handle : ℕ) (e : Entry)
      → i < h.handle_count
      → element h.handles i ≡ some e
      → next_loop m (suc left) res instance_ handle (on i)
        ≡ got_next
            (next_loop m left)
            (e.check * 4294967296 + i)
            (handle_get m (on i) (e.check * 4294967296 + i))
  unfolding next_loop indexed_next entry_next
  loop_entry left i res instance_ handle e below at =
      ap (indexed_next m (next_loop m left) instance_ handle (on i)) (
        index-loaded zeroed h.handles i v.well_formed (omega (arith, below, v.counted)) e at
          m.realloc_in_grow m.realloc m.calloc)
      ∙ ap (entry_next m (next_loop m left) (on i)) at

  wrapped : (i : ℕ) → i < h.handle_count → (i + 1) % 4294967296 ≡ i + 1
  wrapped i below = omega (arith, below, v.counted, v.well_formed.bounded)

  base_of : (i : ℕ) (e : Entry) → i < h.handle_count → base_convert (e.check * 4294967296 + i) ≡ i
  base_of i e below = omega (arith, below, v.counted, v.well_formed.bounded)

  loop_active :
      (left i : ℕ) (res : Ret) (instance_ handle : ℕ) (e : Entry)
      → i < h.handle_count
      → element h.handles i ≡ some e
      → e.state ≡ active
      → next_loop m (suc left) res instance_ handle (on i)
        ≡ some (
          ok 0,
          e.instance_of,
          e.check * 4294967296 + i,
          record (store h i (record e { ref_count = (e.ref_count + 1) % 4294967296 })) {
            iterator = i + 1;
          },
        )
  unfolding got_next
  loop_active left i res instance_ handle e below at a =
      let id : ℕ = e.check * 4294967296 + i in
      let held : Entry = record e { ref_count = (e.ref_count + 1) % 4294967296 } in
      loop_entry left i res instance_ handle e below at
      ∙ ap (got_next (next_loop m left) id) (get-named m (on i) id e (on-Names i e below at) a)
      ∙ ap (λ j. some (ok 0, e.instance_of, id, one_on (store (on i) j held))) (base_of i e below)
      ∙ ap (λ k. some (ok 0, e.instance_of, id, record (store h i held) { iterator = k }))
          (wrapped i below)

  loop_passes :
      (left i : ℕ) (res : Ret) (instance_ handle : ℕ) (e : Entry)
      → i < h.handle_count
      → element h.handles i ≡ some e
      → is_active e.state ≡ false
      → next_loop m (suc left) res instance_ handle (on i)
        ≡ next_loop m left (err ebadf) 0 (e.check * 4294967296 + i) (on (i + 1))
  unfolding got_next
  loop_passes left i res instance_ handle e below at a =
      let id : ℕ = e.check * 4294967296 + i in
      loop_entry left i res instance_ handle e below at
      ∙ ap (got_next (next_loop m left) id) (get-refused m (on i) id e (on-Names i e below at) a)
      ∙ ap (λ k. next_loop m left (err ebadf) 0 id (on k)) (wrapped i below)

  state_cases : (s : State) → (s ≡ active) ⊎ (is_active s ≡ false)
  state_cases empty = inr refl
  state_cases pending_removal = inr refl
  state_cases active = inl refl

  next_loop-next :
      (left i : ℕ) (e : Errno) (instance_ handle : ℕ)
      → left + i ≡ h.handle_count
      → Gets h i (next_loop m left (err e) instance_ handle (on i))
        ⊎ Ends h i (next_loop m left (err e) instance_ handle (on i))
  unfolding next_loop
  next_loop-next zero i e instance_ handle s = inr (record {
    passed = λ j x l g q. absurd (omega (arith, s, l, g));
    errno = e;
    instance_of = instance_;
    handle = handle;
    gives =
        ap (λ k. some (err e, instance_, handle, on k))
          (let t : i ≡ h.handle_count = omega arith in t);
  })
  next_loop-next (suc left) i e instance_ handle s =
      let below : i < h.handle_count = omega arith in
      let (x, at) = v.loaded i below in
      elim (state_cases x.state) [
        | inl a ↦ inl (record {
          at = i;
          entry = x;
          from = omega arith;
          below = below;
          there = at;
          is_active_there = a;
          passed = λ j y l g q. absurd (omega (arith, l, g));
          gives = loop_active left i (err e) instance_ handle x below at a;
        })
        | inr d ↦
            let id : ℕ = x.check * 4294967296 + i in
            let step : next_loop m (suc left) (err e) instance_ handle (on i)
                ≡ next_loop m left (err ebadf) 0 id (on (i + 1)) =
              loop_passes left i (err e) instance_ handle x below at d in
            elim (next_loop-next left (i + 1) ebadf 0 id (omega arith)) [
              | inl g ↦ inl (record {
                at = g.at;
                entry = g.entry;
                from = omega (arith, g.from);
                below = g.below;
                there = g.there;
                is_active_there = g.is_active_there;
                passed = extend i x at d g.at g.passed;
                gives = step ∙ g.gives;
              })
              | inr n ↦ inr (record {
                passed = extend i x at d h.handle_count n.passed;
                errno = n.errno;
                instance_of = n.instance_of;
                handle = n.handle;
                gives = step ∙ n.gives;
              })
            ]
      ]

-- In a valid database whose iterator has not gone past the last entry, qb_hdb_iterator_next gets
-- the first active instance from there on, with its handle and one more reference, and the iterator
-- stands behind it. If no entry there is active, it returns an error with the iterator at the end,
-- and changes nothing else.
pub iterator_next-next :
    (m : Memory) (h : Hdb)
    → IsValid h
    → ((j : ℕ) (e : Entry) → element h.handles j ≡ some e → e.check < 4294967296)
    → h.iterator ≤ h.handle_count
    → (instance_of handle : ℕ)
    → Gets h h.iterator (iterator_next m instance_of handle h)
      ⊎ Ends h h.iterator (iterator_next m instance_of handle h)
unfolding iterator_next
iterator_next-next m h v checks l instance_of handle =
    next_loop-next m h v checks (h.handle_count - h.iterator) h.iterator (other 1) instance_of
      handle (omega arith)
