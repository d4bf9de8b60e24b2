-- ===== src/HashTable/Tests.antt =====
-- Tests of the hash table, on a table of eight buckets with two entries.
use libqb.Prelude.{
  leb, if◌then◌else◌, ok, ℕ, ◌^◌, ◌≤◌, ◌<◌, ◌≡◌, refl, Bool, true, none, some, List, [], ◌∷◌, arith,
}
use libqb.Map.{Notifier, foreach, map_notify_add, map_notify_del}
use libqb.Map.Keys.{Key}
use libqb.Map.Entries.{Entries, lookup, assign, IsDistinct}
use libqb.Map.Run.{Request, put, get, rm, count, map_run, entries_run}
use libqb.HashTable.{
  Table, Iter, table_put, table_get, table_rm, one_less, lookup_node, hash_string,
}
use libqb.HashTable.Notifiers.{notify_add}
use libqb.HashTable.Iterating.{iter_create, iter_next, iter_free, hold, drop_current}
use libqb.HashTable.Creation.{
  create, order_found, create_order, order_loop, size_of_order, made, null, overflow,
  table_of_order, hashtable_ops,
}
use libqb.HashTable.Hash.{create-ends, create-overflows, create-never_ends}
use libqb.HashTable.Refine.{Holds, hashtable_refines, table_put-Holds, table_of_order-Holds}
use libqb.HashTable.Iterate.{collect, foreach-collects, iter_free-keeps_reference}
use libqb.HashTable.Notify.{notify_del-notify_add}

abbrev one : Key
one = 49 ∷ []

abbrev two : Key
two = 50 ∷ 51 ∷ []

unfoldable empty : Table
empty = table_of_order 3

unfoldable table : Table
unfolding table_put empty
table = table_put true (table_put true empty one 7) two 8

abbrev entries : Entries
entries = (one, 7) ∷ (two, 8) ∷ []

table-Holds : Holds table entries
unfolding table empty assign
table-Holds =
    table_put-Holds (table_put true empty one 7) ((one, 7) ∷ [])
      (table_put-Holds empty [] (table_of_order-Holds 3) one 7) two 8

abbrev requests : List (Request Bool)
requests = put true one 9 ∷ get one ∷ rm two ∷ get two ∷ count ∷ []

hashtable_refines_example : map_run hashtable_ops table requests ≡ entries_run entries requests
hashtable_refines_example = hashtable_refines table entries table-Holds requests (refl, tt)

-- A calloc that gives up to 2^32 bytes.
abbrev plenty : ℕ → Bool
plenty bytes = leb bytes 4294967296

created_128 : create 136 24 plenty 40 100 ≡ some (made (table_of_order 7))
unfolding create order_found create_order order_loop
created_128 = refl

create-ends_example :
    (order : ℕ) × (create 136 24 plenty 40 100
      ≡ some (
          if plenty (size_of_order 136 24 plenty order) then made (table_of_order order) else null))
    × (order ≤ 30)
    × (100 < 2 ^ order)
create-ends_example = create-ends 136 24 plenty 100 40 (omega arith) (omega arith)

create-overflows_example : create 136 24 plenty 40 1500000000 ≡ some overflow
create-overflows_example =
    create-overflows 136 24 plenty 1500000000 40 (omega arith) (omega arith) (omega arith)

create-never_ends_example : create 136 24 plenty 50 2147483648 ≡ none
create-never_ends_example = create-never_ends 136 24 plenty 50 2147483648 (omega arith)

foreach-collects_example :
    (seen : Entries) × (foreach hashtable_ops 3 table collect [] ≡ some (seen, table))
    × IsDistinct seen
    × ((q : Key) → lookup q seen ≡ lookup q entries)
foreach-collects_example = foreach-collects table entries table-Holds 3 (omega arith)

abbrev at_two : Iter
at_two = record { node = some two; bucket = 0 }

unfoldable held : Table
unfolding table
held = hold table 0 (record { value = 8; key = two; refcount = 1; notifiers = [] })

first_step : iter_next (iter_create table none).0 table ≡ some (some (two, 8), at_two, held)
unfolding held iter_next lookup_node hash_string drop_current
first_step = refl

iter_free-keeps_reference_example :
    (table_rm (iter_free at_two held) two ≡ (true, one_less table))
    × (table_get (one_less table) two ≡ 8)
iter_free-keeps_reference_example =
    iter_free-keeps_reference table entries table-Holds two 8 at_two held first_step

abbrev watcher : Notifier
watcher = record { callback = 1; events = 3; user_data = 5 }

unfoldable watched : Table
unfolding notify_add table
watched = (notify_add true table (some two) watcher).1

notify_add-watched :
    map_notify_add hashtable_ops true table (some two) watcher ≡ some (ok 0, watched)
unfolding map_notify_add watched hash_string
notify_add-watched = refl

notify_del-notify_add_example :
    map_notify_del hashtable_ops watched (some two) watcher true ≡ some (ok 0, table)
notify_del-notify_add_example =
    notify_del-notify_add true table (some two) watcher watched notify_add-watched
