-- ===== src/Handles/Tests.antt =====
-- Tests of the handles, on a database with one entry, whose handle has the check 5.
use libqb.Prelude.{
  ◌==◌, if◌then◌else◌, ebadf, ok, err, ℕ, ◌*◌, ◌%◌, ◌<◌, ◌≡◌, refl, ap, ◌⊎◌, true, false, Option,
  none, some, [], ◌∷◌, arith,
}
use libqb.Array.{Bins, element}
use libqb.Handles.{
  Hdb, Memory, Entry, active, pending_removal, zeroed, handle_get, handle_put, handle_destroy,
}
use libqb.Handles.Entries.{IsValid}
use libqb.Handles.Creation.{Supply, handle_create}
use libqb.Handles.Created.{Made, handle_create-Made}
use libqb.Handles.Iterator.{Gets, Ends, iterator_next, iterator_next-next}
use libqb.Handles.Count.{Names, get-put, put_last-stale, handle_destroy-pending}

abbrev shared : ℕ → Entry
shared references = record { state = active; instance_of = 77; check = 5; ref_count = references }

abbrev bins : ℕ → Bins Entry
bins references b =
    if b == 0 then some (λ i. if i == 0 then shared references else zeroed) else none

abbrev hdb : ℕ → Hdb
hdb references = record {
  handle_count = 1;
  handles = record {
    bin = some (bins references);
    max_elements = 32;
    num_bins = 3;
    autogrow_elements = 0;
    new_bin_cb = false;
  };
  iterator = 0;
  freed = [];
}

abbrev handle : ℕ
handle = 5 * 4294967296

abbrev memory : Memory
memory = record { realloc_in_grow = none; realloc = none; calloc = false }

hdb-IsValid : (references : ℕ) → IsValid (hdb references)
hdb-IsValid references = record {
  well_formed = record {
    bins = bins references;
    has_bins = refl;
    bounded = omega arith;
    enough = omega arith;
    absent = λ b p. ground arith;
  };
  counted = omega arith;
  loaded = λ i p. (shared references, ground arith);
}

check_at : Option Entry → ℕ
check_at none = 0
check_at (some e) = e.check

hdb-checks : (j : ℕ) (e : Entry) → element (hdb 1).handles j ≡ some e → e.check < 4294967296
unfolding check_at
hdb-checks j e q =
    let known : check_at (element (hdb 1).handles j) ≡ e.check = ap check_at q in
    ground (arith, known)

handle-Names : (references : ℕ) → Names (hdb references) handle (shared references)
handle-Names references = record {
  valid = hdb-IsValid references;
  below = omega arith;
  at = refl;
  checked = refl;
}

get-put_example :
    (held : Hdb) × (back : Hdb) × (handle_get memory (hdb 1) handle ≡ some (ok 0, 77, held))
    × (handle_put memory held handle ≡ some (ok 0, back))
    × (back.freed ≡ [])
    × ((j : ℕ) → element back.handles j ≡ element (hdb 1).handles j)
get-put_example =
    get-put memory (hdb 1) handle (shared 1) (handle-Names 1) refl (omega arith) (omega arith)

put_last-stale_example :
    (after : Hdb) × (handle_put memory (hdb 1) handle ≡ some (ok 0, after))
    × (after.freed ≡ 77 ∷ [])
    × (handle_get memory after handle ≡ some (err ebadf, 0, after))
    × (handle_put memory after handle ≡ some (err ebadf, after))
    × (handle_destroy memory after handle ≡ some (err ebadf, after))
put_last-stale_example =
    put_last-stale memory (hdb 1) handle (shared 1) (handle-Names 1) refl (omega arith)
      (omega arith)

handle_destroy-pending_example :
    (after : Hdb) × (handle_destroy memory (hdb 2) handle ≡ some (ok 0, after))
    × (after.freed ≡ [])
    × (element after.handles 0
        ≡ some (record (shared 2) { state = pending_removal; ref_count = 1 }))
    × (handle_get memory after handle ≡ some (err ebadf, 0, after))
handle_destroy-pending_example =
    handle_destroy-pending memory (hdb 2) handle (shared 2) (handle-Names 2) (omega arith)
      (omega arith)

abbrev block : Bins Entry
block b = none

abbrev supply : Supply
supply = record {
  memory = record { realloc_in_grow = none; realloc = none; calloc = true };
  grow_realloc = some block;
  instance_of = 88;
  random = λ i. i % 2147483648;
}

handle_create-Made_example :
    (handle_id : ℕ) × (h' : Hdb) × (handle_create supply (hdb 1) ≡ some (ok 0, some handle_id, h'))
    × Made supply (hdb 1) handle_id h'
handle_create-Made_example =
    handle_create-Made supply (hdb 1) (hdb-IsValid 1) (omega arith) block refl refl (omega arith)
      (λ i. omega arith)

iterator_next-next_example :
    Gets (hdb 1) 0 (iterator_next memory 0 0 (hdb 1))
    ⊎ Ends (hdb 1) 0 (iterator_next memory 0 0 (hdb 1))
iterator_next-next_example =
    iterator_next-next memory (hdb 1) (hdb-IsValid 1) hdb-checks (omega arith) 0 0
