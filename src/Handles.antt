-- ===== src/Handles.antt =====
-- lib/hdb.c: handles to reference-counted instances, in an array of entries. The upper 32 bits of
-- a handle are a check, which tells a handle from an earlier one of the same entry; `int32_t` and
-- `uint32_t` values are kept as their 32 bits. The destructor is a callback that leaves the database
-- alone, and its call is part of freeing an instance. `none` is a NULL pointer that is followed.
pub mod Entries
pub mod Count
pub mod Creation
pub mod Created
pub mod Iterator
mod Tests
use libqb.Prelude.{
  leb, ◌==◌, if◌then◌else◌, ebadf, Ret, ok, err, ℕ, ◌+◌, ◌*◌, ◌/◌, ◌%◌, Bool, true, false, not,
  ◌&&◌, Option, none, some, List, ◌∷◌,
}
use libqb.Array.{Array, Bins, Indexed, element_at, failed, index, element_in, stored, is_negative}

-- `enum QB_HDB_HANDLE_STATE`
pub data State : Type 0 where
  empty pending_removal active : State

-- `struct qb_hdb_handle`
pub record Entry : Type 0 where
  pub state : State
  pub instance_of : ℕ
  pub check : ℕ
  pub ref_count : ℕ

-- What memset and calloc leave.
abbrev pub zeroed : Entry
zeroed = record { state = empty; instance_of = 0; check = 0; ref_count = 0 }

-- `struct qb_hdb` after its first run, and the instances freed so far, the latest first.
pub record Hdb : Type 0 where
  pub handle_count : ℕ
  pub handles : Array Entry
  pub iterator : ℕ
  pub freed : List ℕ

-- What qb_array_index of this call gets from realloc and calloc, should it want memory.
pub record Memory : Type 0 where
  pub realloc_in_grow : Option (Bins Entry)
  pub realloc : Option (Bins Entry)
  pub calloc : Bool

abbrev pub uint32_max : ℕ
uint32_max = 4294967295

abbrev pub check_of : ℕ → ℕ
check_of handle_in = handle_in / 4294967296

-- qb_hdb_base_convert
abbrev pub base_convert : ℕ → ℕ
base_convert handle_in = handle_in % 4294967296

-- qb_hdb_nocheck_convert
abbrev pub nocheck_convert : ℕ → ℕ
nocheck_convert handle = uint32_max * 4294967296 + handle

abbrev pub is_active : State → Bool
is_active active = true
is_active s = false

abbrev pub dereferenced : Hdb → Option Entry → Option (Option Entry × Hdb)
dereferenced h none = none
dereferenced h (some entry) = some (some entry, h)

abbrev pub looked_up : Hdb → Option (Indexed × Array Entry) → Option (Option Entry × Hdb)
looked_up h none = none
looked_up h (some (failed e, a)) = some (none, record h { handles = a })
looked_up h (some (element_at b elem new, a)) =
    dereferenced (record h { handles = a }) (element_in a.bin b elem)

-- qb_array_index of the handles: the entry it finds, if it finds one.
unfoldable pub entry_at : Memory → Hdb → ℕ → Option (Option Entry × Hdb)
entry_at m h handle =
    looked_up h (index m.realloc_in_grow m.realloc m.calloc zeroed h.handles handle)

-- A store through the pointer to an entry.
abbrev pub store : Hdb → ℕ → Entry → Hdb
store h handle entry = record h { handles = stored h.handles handle entry }

-- handle >= handle_count, of two `int32_t`
abbrev pub beyond : Hdb → ℕ → Bool
beyond h handle = not (is_negative handle) && leb h.handle_count handle

-- The test of a handle's check against its entry's.
abbrev pub check_fails : ℕ → Entry → Bool
check_fails handle_in entry =
    not (check_of handle_in == uint32_max) && not (check_of handle_in == entry.check)

abbrev refused : Hdb → Ret × ℕ × Hdb
refused h = (err ebadf, 0, h)

-- qb_hdb_handle_get: the instance that is handed out, 0 for NULL.
get_entry : ℕ → Option Entry × Hdb → Ret × ℕ × Hdb
get_entry handle_in (none, h) = refused h
get_entry handle_in (some entry, h) =
    if not (is_active entry.state)
    then refused h
    else if check_fails handle_in entry
    then refused h
    else (
      ok 0,
      entry.instance_of,
      store h (base_convert handle_in)
          (record entry { ref_count = (entry.ref_count + 1) % 4294967296 }),
    )

abbrev pub on_entry :
    {A : Type 0} → (Option Entry × Hdb → A) → Option (Option Entry × Hdb) → Option A
on_entry f none = none
on_entry f (some r) = some (f r)

unfoldable pub handle_get : Memory → Hdb → ℕ → Option (Ret × ℕ × Hdb)
unfolding entry_at get_entry
handle_get m h handle_in =
    if beyond h (base_convert handle_in)
    then some (refused h)
    else on_entry (get_entry handle_in) (entry_at m h (base_convert handle_in))

-- What qb_hdb_handle_put does to an entry: the count falls, and at 0 the instance is destroyed and
-- freed, and the entry cleared.
drop_ref : Hdb → ℕ → Entry → Hdb
drop_ref h handle entry =
    let dropped = (entry.ref_count + uint32_max) % 4294967296 in
    if dropped == 0
    then record (store h handle zeroed) { freed = entry.instance_of ∷ h.freed }
    else store h handle (record entry { ref_count = dropped })

put_entry : ℕ → Option Entry × Hdb → Ret × Hdb
unfolding drop_ref
put_entry handle_in (none, h) = (err ebadf, h)
put_entry handle_in (some entry, h) =
    if check_fails handle_in entry
    then (err ebadf, h)
    else (ok 0, drop_ref h (base_convert handle_in) entry)

-- qb_hdb_handle_put
unfoldable pub handle_put : Memory → Hdb → ℕ → Option (Ret × Hdb)
unfolding entry_at put_entry
handle_put m h handle_in =
    if beyond h (base_convert handle_in)
    then some (err ebadf, h)
    else on_entry (put_entry handle_in) (entry_at m h (base_convert handle_in))

destroy_entry : Memory → ℕ → Option (Option Entry × Hdb) → Option (Ret × Hdb)
unfolding handle_put
destroy_entry m handle_in none = none
destroy_entry m handle_in (some (none, h)) = some (err ebadf, h)
destroy_entry m handle_in (some (some entry, h)) =
    if check_fails handle_in entry
    then some (err ebadf, h)
    else handle_put m (store h (base_convert handle_in) (record entry { state = pending_removal }))
        handle_in

-- qb_hdb_handle_destroy
unfoldable pub handle_destroy : Memory → Hdb → ℕ → Option (Ret × Hdb)
unfolding entry_at destroy_entry
handle_destroy m h handle_in =
    if beyond h (base_convert handle_in)
    then some (err ebadf, h)
    else destroy_entry m handle_in (entry_at m h (base_convert handle_in))

refcount_of : ℕ → Option Entry × Hdb → Ret × Hdb
refcount_of handle_in (none, h) = (err ebadf, h)
refcount_of handle_in (some entry, h) =
    if check_fails handle_in entry then (err ebadf, h) else (ok entry.ref_count, h)

-- qb_hdb_handle_refcount_get
unfoldable pub handle_refcount_get : Memory → Hdb → ℕ → Option (Ret × Hdb)
unfolding entry_at refcount_of
handle_refcount_get m h handle_in =
    if beyond h (base_convert handle_in)
    then some (err ebadf, h)
    else on_entry (refcount_of handle_in) (entry_at m h (base_convert handle_in))
