-- ===== src/Handles/Creation.antt =====
-- qb_hdb_handle_create, and the database that qb_hdb_create makes.
use libqb.Prelude.{
  ltb, ◌==◌, if◌then◌else◌, Errno, enomem, Ret, ok, err, ℕ, zero, suc, ◌+◌, ◌*◌, ◌%◌, Bool, true,
  false, Option, none, some, [],
}
use libqb.Array.{Array, Bins, Indexed, element_at, failed, index, grow, create_2, element_in}
use libqb.Handles.{Hdb, Memory, Entry, State, empty, active, zeroed, entry_at, store}

-- What qb_hdb_handle_create gets from outside: from the reallocs and the calloc of the array, the
-- instance from malloc (0 for NULL), and the numbers from random, of which it draws 200 at most.
pub record Supply : Type 0 where
  pub memory : Memory
  pub grow_realloc : Option (Bins Entry)
  pub instance_of : ℕ
  pub random : ℕ → ℕ

-- The entry that a new instance gets, with the place of it.
pub data Slot : Type 0 where
  slot : ℕ → Entry → Hdb → Slot
  no_slot : Errno → Hdb → Slot

abbrev pub is_empty : State → Bool
is_empty empty = true
is_empty s = false

-- The first `for` of qb_hdb_handle_create at one handle, which goes on as `more`.
unfoldable pub search_entry :
    (Hdb → Option (Option (ℕ × Entry) × Hdb))
    → ℕ
    → Option (Option Entry × Hdb)
    → Option (Option (ℕ × Entry) × Hdb)
search_entry more handle none = none
search_entry more handle (some (none, h)) = more h
search_entry more handle (some (some entry, h)) =
    let rest = more h in if is_empty entry.state then some (some (handle, entry), h) else rest

unfoldable pub search : Memory → ℕ → ℕ → Hdb → Option (Option (ℕ × Entry) × Hdb)
unfolding entry_at search_entry
search m zero handle h = some (none, h)
search m (suc left) handle h =
    search_entry (search m left (handle + 1)) handle (entry_at m h handle)

unfoldable pub last_entry : ℕ → Hdb → Option Entry → Option Slot
last_entry handle h none = none
last_entry handle h (some entry) = some (slot handle entry h)

-- A new entry at the end, once the array has grown: its index, and the count that rises.
unfoldable pub last_slot : Hdb → Option (Indexed × Array Entry) → Option Slot
unfolding last_entry
last_slot h none = none
last_slot h (some (failed e, a)) = some (no_slot e (record h { handles = a }))
last_slot h (some (element_at b elem new, a)) =
    last_entry h.handle_count
      (record h { handles = a; handle_count = (h.handle_count + 1) % 4294967296 })
      (element_in a.bin b elem)

unfoldable pub grown_slot : Memory → Hdb → Ret × Array Entry → Option Slot
unfolding last_slot
grown_slot m h (err e, a) = some (no_slot e (record h { handles = a }))
grown_slot m h (ok k, a) =
    last_slot (record h { handles = a })
      (index m.realloc_in_grow m.realloc m.calloc zeroed a h.handle_count)

-- The entry that was found, with one reference, or else a new one.
unfoldable pub find_slot : Supply → Option (Option (ℕ × Entry) × Hdb) → Option Slot
unfolding grown_slot
find_slot s none = none
find_slot s (some (some (handle, entry), h)) =
    let held = record entry { ref_count = (entry.ref_count + 1) % 4294967296 } in
    some (slot handle held (store h handle held))
find_slot s (some (none, h)) =
    grown_slot s.memory h (grow s.grow_realloc h.handles (h.handle_count + 1))

-- The `for` that draws a check, with `left` draws to go, the next of them the `i`-th, after `check`.
unfoldable pub draw_check : (ℕ → ℕ) → ℕ → ℕ → ℕ → ℕ
draw_check random zero i check = check
draw_check random (suc left) i check =
    let rest = draw_check random left (i + 1) (random i) in
    if ltb 0 (random i) then random i else rest

-- The instance is put into its entry: the result, the handle that is given out, and the database.
unfoldable pub fill_slot : Supply → Option Slot → Option (Ret × Option ℕ × Hdb)
unfolding draw_check
fill_slot s none = none
fill_slot s (some (no_slot e h)) = some (err e, none, h)
fill_slot s (some (slot handle entry h)) =
    let check = draw_check s.random 200 0 0 in
    if s.instance_of == 0
    then some (err enomem, none, h)
    else some (
      ok 0,
      some (check * 4294967296 + handle),
      store h handle
          (record { state = active; instance_of = s.instance_of; check = check; ref_count = 1 }),
    )

-- qb_hdb_handle_create, after the first run
unfoldable pub handle_create : Supply → Hdb → Option (Ret × Option ℕ × Hdb)
unfolding search find_slot fill_slot
handle_create s h = fill_slot s (find_slot s (search s.memory h.handle_count 0 h))

unfoldable pub hdb_of : Option (Array Entry) → Option Hdb
hdb_of none = none
hdb_of (some a) = some (record { handle_count = 0; handles = a; iterator = 0; freed = [] })

-- qb_hdb_create, with qb_hdb_create_first_run; `size` is that of an entry. `none` is a database
-- without an array, in which every other function would follow a NULL pointer.
unfoldable pub hdb_create : Option (Bins Entry) → ℕ → Option Hdb
unfolding hdb_of
hdb_create realloc size = hdb_of (create_2 realloc 32 size 0)
