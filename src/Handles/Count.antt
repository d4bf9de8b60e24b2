-- ===== src/Handles/Count.antt =====
-- How reference counts and checks guard an instance.
use libqb.Prelude.{
  if◌then◌else◌, ebadf, ok, err, ℕ, ◌+◌, ◌-◌, ◌%◌, ◌<◌, ◌≡◌, refl, sym, ap, ap₂, ◌∙◌, true, false,
  not, ◌&&◌, some, List, ◌∷◌, arith, ℕ_discrete, ne→beq, eq→beq, lt→leb,
}
use libqb.Array.{element}
use libqb.Handles.{
  Hdb, Memory, Entry, pending_removal, active, zeroed, entry_at, store, handle_get, handle_put,
  handle_destroy, handle_refcount_get, refcount_of, get_entry, put_entry, drop_ref, destroy_entry,
  beyond, check_of, base_convert, check_fails, is_active, uint32_max,
}
use libqb.Handles.Entries.{IsValid, entry_at-valid, element-store, store-IsValid}

-- Entry `e` of a valid database, and a handle of it that passes the check.
pub record Names (h : Hdb) (handle_in : ℕ) (e : Entry) : Type 0 where
  pub valid : IsValid h
  pub below : base_convert handle_in < h.handle_count
  pub at : element h.handles (base_convert handle_in) ≡ some e
  pub checked : check_fails handle_in e ≡ false

module _ (m : Memory) (h : Hdb) (handle_in : ℕ) (e : Entry) (n : Names h handle_in e) where
  abbrev i : ℕ
  i = base_convert handle_in

  beyond-false : beyond h i ≡ false
  beyond-false =
      ap₂ (λ s t. not s && t)
        (lt→leb 2147483648 i (omega (arith, n.below, n.valid.counted, n.valid.well_formed.bounded)))
        (lt→leb h.handle_count i n.below)

  found : entry_at m h i ≡ some (some e, h)
  found = entry_at-valid h n.valid i n.below e n.at m

  pub get-named :
      e.state ≡ active
      → handle_get m h handle_in
        ≡ some (
          ok 0,
          e.instance_of,
          store h i (record e { ref_count = (e.ref_count + 1) % 4294967296 }),
        )
  unfolding handle_get get_entry
  get-named a = rw (beyond-false, found, a, n.checked) refl

  pub get-refused : is_active e.state ≡ false → handle_get m h handle_in ≡ some (err ebadf, 0, h)
  unfolding handle_get get_entry
  get-refused a = rw (beyond-false, found, a) refl

  pub refcount-named : handle_refcount_get m h handle_in ≡ some (ok e.ref_count, h)
  unfolding handle_refcount_get refcount_of
  refcount-named = rw (beyond-false, found, n.checked) refl

  put-named : handle_put m h handle_in ≡ some (ok 0, drop_ref h i e)
  unfolding handle_put put_entry
  put-named = rw (beyond-false, found, n.checked) refl

  stored-Names : (x : Entry) → check_fails handle_in x ≡ false → Names (store h i x) handle_in x
  stored-Names x c = record {
    valid = store-IsValid h n.valid i n.below e n.at x;
    below = n.below;
    at =
        element-store h n.valid i n.below e n.at x i
        ∙ ap (λ t. if t then some x else element h.handles i) (eq→beq i i refl);
    checked = c;
  }

  last_ref :
      (x : Entry)
      → x.ref_count ≡ 1
      → drop_ref h i x ≡ record (store h i zeroed) { freed = x.instance_of ∷ h.freed }
  unfolding drop_ref
  last_ref x one = rw (eq→beq ((x.ref_count + uint32_max) % 4294967296) 0 (omega (arith, one))) refl

  earlier_ref :
      (x : Entry)
      → 1 < x.ref_count
      → x.ref_count < 4294967296
      → drop_ref h i x ≡ store h i (record x { ref_count = x.ref_count - 1 })
  unfolding drop_ref
  earlier_ref x more bound =
      let dropped : (x.ref_count + uint32_max) % 4294967296 ≡ x.ref_count - 1 =
        omega (arith, more, bound) in
      rw dropped (rw (ne→beq (x.ref_count - 1) 0 (λ q. absurd (omega (arith, more, q)))) refl)

-- In a valid database, getting an active instance by a handle that passes its entry's check and
-- putting it back hands out the instance, and leaves every entry as it was and nothing freed, if the
-- reference count is positive and can still rise.
pub get-put :
    (m : Memory) (h : Hdb) (handle_in : ℕ) (e : Entry)
    → Names h handle_in e
    → e.state ≡ active
    → 0 < e.ref_count
    → e.ref_count + 1 < 4294967296
    → (held : Hdb) × (back : Hdb) × (handle_get m h handle_in ≡ some (ok 0, e.instance_of, held))
      × (handle_put m held handle_in ≡ some (ok 0, back))
      × (back.freed ≡ h.freed)
      × ((j : ℕ) → element back.handles j ≡ element h.handles j)
get-put m h handle_in e n a positive bound =
    let i : ℕ = base_convert handle_in in
    let taken : Entry = record e { ref_count = e.ref_count + 1 } in
    let held : Hdb = store h i taken in
    let k : Names held handle_in taken = stored-Names m h handle_in e n taken n.checked in
    let small : (e.ref_count + 1) % 4294967296 ≡ e.ref_count + 1 = omega (arith, bound) in
    let same : e.ref_count + 1 - 1 ≡ e.ref_count = omega arith in
    let back : Hdb = store held i (record taken { ref_count = e.ref_count + 1 - 1 }) in
    (
      held,
      back,
      get-named m h handle_in e n a
          ∙ ap (λ r. some (ok 0, e.instance_of, store h i (record e { ref_count = r }))) small,
      put-named m held handle_in taken k
          ∙ ap (λ d. some (ok 0, d))
              (earlier_ref m held handle_in taken k taken (omega (arith, positive)) bound),
      refl,
      λ j.
          element-store held k.valid i k.below taken k.at
            (record taken { ref_count = e.ref_count + 1 - 1 }) j
          ∙ elim (ℕ_discrete i j) [
            | yes q ↦
                ap
                  (λ t.
                    if t
                    then some (record e { ref_count = e.ref_count + 1 - 1 })
                    else element held.handles j)
                  (eq→beq i j q)
                ∙ ap (λ r. some (record e { ref_count = r })) same
                ∙ sym n.at
                ∙ ap (element h.handles) q
            | no q ↦
                ap
                  (λ t.
                    if t
                    then some (record e { ref_count = e.ref_count + 1 - 1 })
                    else element held.handles j)
                  (ne→beq i j q)
                ∙ element-store h n.valid i n.below e n.at taken j
                ∙ ap (λ t. if t then some taken else element h.handles j) (ne→beq i j q)
          ],
    )

freed-IsValid : (h : Hdb) (freed : List ℕ) → IsValid h → IsValid (record h { freed = freed })
freed-IsValid h freed v = record {
  well_formed = v.well_formed;
  counted = v.counted;
  loaded = v.loaded;
}

-- In a valid database, putting the last reference by a handle that passes its entry's check frees
-- the instance. If the check is neither 0 nor the one that every entry passes, then get, put and
-- destroy refuse the same handle with -EBADF afterwards, and none of them changes anything.
pub put_last-stale :
    (m : Memory) (h : Hdb) (handle_in : ℕ) (e : Entry)
    → Names h handle_in e
    → e.ref_count ≡ 1
    → 0 < check_of handle_in
    → check_of handle_in < uint32_max
    → (after : Hdb) × (handle_put m h handle_in ≡ some (ok 0, after))
      × (after.freed ≡ e.instance_of ∷ h.freed)
      × (handle_get m after handle_in ≡ some (err ebadf, 0, after))
      × (handle_put m after handle_in ≡ some (err ebadf, after))
      × (handle_destroy m after handle_in ≡ some (err ebadf, after))
unfolding handle_get handle_put handle_destroy get_entry put_entry destroy_entry
put_last-stale m h handle_in e n one low high =
    let i : ℕ = base_convert handle_in in
    let after : Hdb = record (store h i zeroed) { freed = e.instance_of ∷ h.freed } in
    let valid : IsValid after =
      freed-IsValid (store h i zeroed) (e.instance_of ∷ h.freed)
        (store-IsValid h n.valid i n.below e n.at zeroed) in
    let at : element after.handles i ≡ some zeroed =
      element-store h n.valid i n.below e n.at zeroed i
      ∙ ap (λ t. if t then some zeroed else element h.handles i) (eq→beq i i refl) in
    let inside : beyond after i ≡ false = beyond-false m h handle_in e n in
    let there : entry_at m after i ≡ some (some zeroed, after) =
      entry_at-valid after valid i n.below zeroed at m in
    let stale : check_fails handle_in zeroed ≡ true = ground (arith, low, high) in
    (
      after,
      put-named m h handle_in e n ∙ ap (λ d. some (ok 0, d)) (last_ref m h handle_in e n e one),
      refl,
      rw (inside, there) refl,
      rw (inside, there, stale) refl,
      rw (inside, there, stale) refl,
    )

-- In a valid database, destroying an instance to which there are further references, by a handle
-- that passes its entry's check, frees nothing: the entry is left pending with one reference less,
-- and get refuses its handle with -EBADF.
pub handle_destroy-pending :
    (m : Memory) (h : Hdb) (handle_in : ℕ) (e : Entry)
    → Names h handle_in e
    → 1 < e.ref_count
    → e.ref_count < 4294967296
    → (after : Hdb) × (handle_destroy m h handle_in ≡ some (ok 0, after))
      × (after.freed ≡ h.freed)
      × (element after.handles (base_convert handle_in)
          ≡ some (record e { state = pending_removal; ref_count = e.ref_count - 1 }))
      × (handle_get m after handle_in ≡ some (err ebadf, 0, after))
unfolding handle_destroy destroy_entry
handle_destroy-pending m h handle_in e n more bound =
    let i : ℕ = base_convert handle_in in
    let pending : Entry = record e { state = pending_removal } in
    let marked : Hdb = store h i pending in
    let k : Names marked handle_in pending = stored-Names m h handle_in e n pending n.checked in
    let left : Entry = record pending { ref_count = e.ref_count - 1 } in
    let after : Hdb = store marked i left in
    let k2 : Names after handle_in left =
      stored-Names m marked handle_in pending k left n.checked in
    (
      after,
      rw (beyond-false m h handle_in e n, found m h handle_in e n, n.checked)
          (put-named m marked handle_in pending k
            ∙ ap (λ d. some (ok 0, d))
                (earlier_ref m marked handle_in pending k pending more bound)),
      refl,
      k2.at,
      get-refused m after handle_in left k2 refl,
    )
