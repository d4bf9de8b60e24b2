-- ===== src/Handles/Created.antt =====
-- What qb_hdb_handle_create does to a valid database.
use libqb.Prelude.{
  ltb, if◌then◌else◌, Bool-cases, ok, ℕ, zero, suc, ◌+◌, ◌*◌, ◌%◌, ◌<◌, ◌≡◌, refl, sym, ap, ◌∙◌,
  ◌≢◌, inl, inr, true, false, Option, none, some, arith, ℕ_discrete, ne→beq, eq→beq,
}
use libqb.Array.{Array, Bins, Indexed, index, grow, element}
use libqb.Array.Index.{HandsOut, index-HandsOut}
use libqb.Array.Grow.{grow-Grown}
use libqb.Handles.{
  Hdb, Memory, Entry, State, empty, active, pending_removal, zeroed, entry_at, store, base_convert,
  handle_get, handle_refcount_get, check_fails, check_of,
}
use libqb.Handles.Entries.{IsValid, entry_at-valid, element-store, store-IsValid}
use libqb.Handles.Count.{Names, get-named, refcount-named}
use libqb.Handles.Creation.{
  Supply, slot, is_empty, search_entry, search, last_entry, last_slot, grown_slot, find_slot,
  draw_check, fill_slot, handle_create,
}

-- What a search of a valid database finds: an entry that is empty, or that none is.
abbrev pub Searched : Hdb → Option (ℕ × Entry) → Type 0
Searched h none = Unit {0}
Searched h (some (handle, entry)) =
    (handle < h.handle_count) × (element h.handles handle ≡ some entry) × (entry.state ≡ empty)

empty_state : (s : State) → is_empty s ≡ true → s ≡ empty
empty_state empty e = refl
empty_state active e = cc
empty_state pending_removal e = cc

module _ (m : Memory) (h : Hdb) (v : IsValid h) where
  search-Searched :
      (left handle : ℕ)
      → left + handle ≡ h.handle_count
      → (o : Option (ℕ × Entry)) × (search m left handle h ≡ some (o, h)) × Searched h o
  unfolding search search_entry
  search-Searched zero handle e = (none, refl, tt)
  search-Searched (suc left) handle e =
      let (entry, at) = v.loaded handle (omega arith) in
      let found : entry_at m h handle ≡ some (some entry, h) =
        entry_at-valid h v handle (omega arith) entry at m in
      elim (Bool-cases (is_empty entry.state)) [
        | inl t ↦
            (some (handle, entry), rw (found, t) refl, (omega arith, at, empty_state entry.state t))
        | inr f ↦
            let (o, done, s) = search-Searched left (handle + 1) (omega arith) in
            (o, rw (found, f) done, s)
      ]

abbrev state_of : Option Entry → State
state_of none = empty
state_of (some x) = x.state

-- The number that is drawn for a check is one of those of `random`, or 0 if none was drawn.
draw_check-lt :
    (random : ℕ → ℕ)
    → ((i : ℕ) → random i < 2147483648)
    → (left i check : ℕ) → check < 2147483648
    → draw_check random left i check < 2147483648
unfolding draw_check
draw_check-lt random r zero i check h = h
draw_check-lt random r (suc left) i check h = elim (Bool-cases (ltb 0 (random i))) [
  | inl t ↦ rw t (r i)
  | inr f ↦ rw f (draw_check-lt random r left (i + 1) (random i) (r i))
]

-- Where an instance is put: a valid database with an entry for it that is no active one of `h`, and
-- which has what `h` has.
pub record Prepared (h : Hdb) (handle : ℕ) (h' : Hdb) : Type 0 where
  pub valid : IsValid h'
  pub below : handle < h'.handle_count
  pub entry : Entry
  pub at : element h'.handles handle ≡ some entry
  pub kept :
      (j : ℕ) (x : Entry)
      → j ≢ handle
      → element h.handles j ≡ some x
      → element h'.handles j ≡ some x
  pub inactive :
      (x : Entry) → handle < h.handle_count → element h.handles handle ≡ some x → x.state ≡ empty
  pub same_freed : h'.freed ≡ h.freed

module _ (s : Supply) (h : Hdb) (v : IsValid h) where
  find_slot-found :
      (handle : ℕ) (entry : Entry)
      → Searched h (some (handle, entry))
      → (x : Entry) × (h' : Hdb) × (find_slot s (some (some (handle, entry), h))
          ≡ some (slot handle x h'))
        × Prepared h handle h'
  unfolding find_slot
  find_slot-found handle entry (below, at, e) =
      let held : Entry = record entry { ref_count = (entry.ref_count + 1) % 4294967296 } in
      (
        held,
        store h handle held,
        refl,
        record {
          valid = store-IsValid h v handle below entry at held;
          below = below;
          entry = held;
          at =
              element-store h v handle below entry at held handle
              ∙ ap (λ t. if t then some held else element h.handles handle)
                  (eq→beq handle handle refl);
          kept = λ j x d q.
              element-store h v handle below entry at held j
              ∙ ap (λ t. if t then some held else element h.handles j)
                  (ne→beq handle j (λ w. d (sym w)))
              ∙ q;
          inactive = λ x b q. ap (λ o. state_of o) (sym q ∙ at) ∙ e;
          same_freed = refl;
        },
      )

  element_cases :
      (a a' : Array Entry) (idx : ℕ) (o : Option Entry)
      → element a idx ≡ o
      → (r : Indexed) → HandsOut zeroed a idx r a'
      → (x : Entry) × (element a' idx ≡ some x)
  element_cases a a' idx none e r out = (zeroed, out.zero_if_new e)
  element_cases a a' idx (some x) e r out = (x, out.kept idx x e)

  find_slot-new :
      h.handle_count < 65536
      → (fresh : Bins Entry) → s.grow_realloc ≡ some fresh
      → s.memory.calloc ≡ true
      → (x : Entry) × (h' : Hdb) × (find_slot s (some (none, h)) ≡ some (slot h.handle_count x h'))
        × Prepared h h.handle_count h'
  unfolding find_slot grown_slot last_slot last_entry
  find_slot-new room fresh supplied calloc =
      let n : ℕ = h.handle_count in
      let (b, grew, g) = grow-Grown h.handles v.well_formed fresh (n + 1) (omega (arith, room)) in
      let (r, a, indexed, out) =
        index-HandsOut zeroed b n g.well_formed (omega (arith, g.elements)) s.memory.realloc_in_grow
          s.memory.realloc in
      let (x, there) = element_cases b a n (element b n) refl r out in
      let wrapped : (n + 1) % 4294967296 ≡ n + 1 = omega (arith, room) in
      let h' : Hdb = record h { handles = a; handle_count = n + 1 } in
      (
        x,
        h',
        ap (λ o. grown_slot s.memory h (grow o h.handles (n + 1))) supplied
            ∙ ap (grown_slot s.memory h) grew
            ∙ ap
                (λ c.
                  last_slot (record h { handles = b })
                    (index s.memory.realloc_in_grow s.memory.realloc c zeroed b n))
                calloc
            ∙ ap (last_slot (record h { handles = b })) indexed
            ∙ ap (λ i. last_slot (record h { handles = b }) (some (i, a))) out.at
            ∙ ap (λ c. last_entry n (record h { handles = a; handle_count = c }) (element a n))
                wrapped
            ∙ ap (last_entry n h') there,
        record {
          valid = record {
            well_formed = out.well_formed;
            counted = omega (arith, g.elements, out.no_fewer);
            loaded = λ i p. elim (ℕ_discrete i n) [
              | yes e ↦ (x, ap (element a) e ∙ there)
              | no e ↦
                  let (y, at) = v.loaded i (omega (arith, p, e)) in
                  (y, out.kept i y (g.same i ∙ at))
            ];
          };
          below = omega arith;
          entry = x;
          at = there;
          kept = λ j y d q. out.kept j y (g.same j ∙ q);
          inactive = λ y b q. absurd (omega (arith, b));
          same_freed = refl;
        },
      )

-- An instance that was made: its handle gets it, nothing else has changed, and no active instance
-- has lost its entry.
pub record Made (s : Supply) (h : Hdb) (handle_id : ℕ) (h' : Hdb) : Type 0 where
  pub valid : IsValid h'
  pub gets :
      (m : Memory) → (held : Hdb) × (handle_get m h' handle_id ≡ some (ok 0, s.instance_of, held))
  pub one_reference : (m : Memory) → handle_refcount_get m h' handle_id ≡ some (ok 1, h')
  pub kept :
      (j : ℕ) (x : Entry)
      → j ≢ base_convert handle_id
      → element h.handles j ≡ some x
      → element h'.handles j ≡ some x
  pub unused :
      (x : Entry)
      → base_convert handle_id < h.handle_count
      → element h.handles (base_convert handle_id) ≡ some x
      → x.state ≡ empty
  pub nothing_freed : h'.freed ≡ h.freed

module _ (s : Supply) (h : Hdb) (instance_ : 0 < s.instance_of)
    (random : (i : ℕ) → s.random i < 2147483648) where
  -- The check that is drawn.
  unfoldable check : ℕ
  check = draw_check s.random 200 0 0

  check-lt : check < 2147483648
  unfolding check
  check-lt = draw_check-lt s.random random 200 0 0 (omega arith)

  unfoldable new_entry : Entry
  unfolding check
  new_entry = record { state = active; instance_of = s.instance_of; check = check; ref_count = 1 }

  filled :
      (i : ℕ) (x : Entry) (h' : Hdb)
      → fill_slot s (some (slot i x h'))
        ≡ some (ok 0, some (check * 4294967296 + i), store h' i new_entry)
  unfolding fill_slot new_entry
  filled i x h' = rw (ne→beq s.instance_of 0 (λ e. absurd (omega (arith, instance_, e)))) refl

  module _ (i : ℕ) (h' : Hdb) (p : Prepared h i h') where
    abbrev made_id : ℕ
    made_id = check * 4294967296 + i

    abbrev made : Hdb
    made = store h' i new_entry

    small : i < 4294967296
    small = omega (arith, p.below, p.valid.counted, p.valid.well_formed.bounded)

    base : base_convert made_id ≡ i
    base = omega (arith, small)

    upper : check_of made_id ≡ check
    upper = omega (arith, small)

    passes : check_fails made_id new_entry ≡ false
    unfolding new_entry
    passes = rw upper (
        rw (eq→beq check check refl)
          (rw (ne→beq check 4294967295 (λ e. absurd (omega (arith, check-lt, e)))) refl))

    made-Names : Names made made_id new_entry
    made-Names = record {
      valid = store-IsValid h' p.valid i p.below p.entry p.at new_entry;
      below = omega (arith, base, p.below);
      at =
          ap (element made.handles) base
          ∙ element-store h' p.valid i p.below p.entry p.at new_entry i
          ∙ ap (λ t. if t then some new_entry else element h'.handles i) (eq→beq i i refl);
      checked = passes;
    }

    made-Made : Made s h made_id made
    unfolding new_entry
    made-Made = record {
      valid = made-Names.valid;
      gets = λ m. (_, get-named m made made_id new_entry made-Names refl);
      one_reference = λ m. refcount-named m made made_id new_entry made-Names;
      kept = λ j x d q.
          element-store h' p.valid i p.below p.entry p.at new_entry j
          ∙ ap (λ t. if t then some new_entry else element h'.handles j)
              (ne→beq i j (λ e. d (sym e ∙ sym base)))
          ∙ p.kept j x (λ e. d (e ∙ sym base)) q;
      unused =
          λ x b q. p.inactive x (omega (arith, b, base)) (sym (ap (element h.handles) base) ∙ q);
      nothing_freed = p.same_freed;
    }

  create-slot :
      (x : Entry) (i : ℕ) (h' : Hdb) (o : Option (ℕ × Entry))
      → search s.memory h.handle_count 0 h ≡ some (o, h)
      → find_slot s (some (o, h)) ≡ some (slot i x h')
      → Prepared h i h'
      → (handle_id : ℕ) × (made : Hdb) × (handle_create s h ≡ some (ok 0, some handle_id, made))
        × Made s h handle_id made
  unfolding handle_create
  create-slot x i h' o found e p = (
    made_id i h' p,
    made i h' p,
    ap (λ o. fill_slot s (find_slot s o)) found ∙ ap (fill_slot s) e ∙ filled i x h',
    made-Made i h' p,
  )

  create-Searched :
      (v : IsValid h)
      → h.handle_count < 65536
      → (fresh : Bins Entry) → s.grow_realloc ≡ some fresh
      → s.memory.calloc ≡ true
      → (o : Option (ℕ × Entry)) → search s.memory h.handle_count 0 h ≡ some (o, h)
      → Searched h o
      → (handle_id : ℕ) × (made : Hdb) × (handle_create s h ≡ some (ok 0, some handle_id, made))
        × Made s h handle_id made
  create-Searched v room fresh supplied calloc none e w =
      let (x, h', found, p) = find_slot-new s h v room fresh supplied calloc in
      create-slot x h.handle_count h' none e found p
  create-Searched v room fresh supplied calloc (some (handle, entry)) e w =
      let (x, h', found, p) = find_slot-found s h v handle entry w in
      create-slot x handle h' (some (handle, entry)) e found p

-- In a valid database of fewer than 65536 entries, and with memory for the array and the instance,
-- qb_hdb_handle_create succeeds and leaves the database valid. The handle it gives gets the
-- instance, whose reference count is 1. The entry it takes held no instance, every other entry is
-- as it was, and nothing is freed.
pub handle_create-Made :
    (s : Supply) (h : Hdb)
    → IsValid h
    → h.handle_count < 65536
    → (fresh : Bins Entry) → s.grow_realloc ≡ some fresh
    → s.memory.calloc ≡ true
    → 0 < s.instance_of
    → ((i : ℕ) → s.random i < 2147483648)
    → (handle_id : ℕ) × (h' : Hdb) × (handle_create s h ≡ some (ok 0, some handle_id, h'))
      × Made s h handle_id h'
handle_create-Made s h v room fresh supplied calloc positive random =
    let (o, e, w) = search-Searched s.memory h v h.handle_count 0 (omega arith) in
    create-Searched s h positive random v room fresh supplied calloc o e w
