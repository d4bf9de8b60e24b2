-- ===== src/SkipList/Refine.antt =====
-- A skip list without iterators is a map.
use libqb.Prelude.{◌≡◌, refl, none, List, [], arith}
use libqb.Map.Entries.{Entries, lookup}
use libqb.SkipList.{SkipList, Node, level_count, forward_at}
use libqb.SkipList.Nodes.{node_new}
use libqb.Map.Interface.{IsMap}
use libqb.Map.Run.{Request, map_run, entries_run, AllSupplied, map_run-entries_run}
use libqb.SkipList.Putting.{Chance}
use libqb.SkipList.Writes.{IsMemory}
use libqb.SkipList.Added.{added-IsMemory}
use libqb.SkipList.Creation.{create, skiplist_ops}
use libqb.SkipList.Holding.{Holds, Supplied, list_get-or_null, list_put-Holds}
use libqb.SkipList.Erased.{list_rm-Holds}

abbrev pub skiplist_IsMap : IsMap skiplist_ops
skiplist_IsMap = record {
  Holds = Holds;
  Supplied = Supplied;
  distinct = λ m es h. h.distinct;
  put_lem = λ c m es k v h s. list_put-Holds c m es k v h s;
  get_lem = λ m es k h. list_get-or_null m es k h;
  rm_lem = λ m es k h. list_rm-Holds m es k h;
  count_lem = λ m es h. h.counted;
}

-- While there is memory and random lets every new node have a level, no sequence of put, get, rm
-- and count_get tells a skip list, from any state in which it is in shape and no iterator refers to
-- a node, from a map of entries with distinct keys.
pub skiplist_refines :
    (s : SkipList) (es : Entries)
    → Holds s es
    → (requests : List (Request Chance)) → AllSupplied skiplist_ops skiplist_IsMap requests
    → map_run skiplist_ops s requests ≡ entries_run es requests
skiplist_refines s es h requests supplied =
    map_run-entries_run skiplist_ops skiplist_IsMap requests s es h supplied

-- The memory before the header is made
abbrev nothing : SkipList
nothing = record {
  length = 0;
  level = 1;
  header = 0;
  nodes = λ x. none;
  arrays = λ a. none;
  fresh = 0;
  calls = [];
}

nothing-IsMemory : IsMemory nothing
nothing-IsMemory = record { backed = λ x n e. cc; owned = λ x y m n e f g. cc; given = λ x n e. cc }

abbrev header_of_create : Node
header_of_create = record {
  key = none;
  value = 0;
  level = level_count;
  refcount = 1;
  notifiers = [];
  forward = 0;
}

-- A list that was just created has no entries.
pub create-Holds : Holds create []
unfolding create node_new lookup forward_at
create-Holds = record {
  items = [];
  shape = record {
    header_node = header_of_create;
    header_there = refl;
    header_unkeyed = refl;
    header_once = refl;
    forwards = λ l p. ground arith;
    links = tt;
    stored = tt;
    sorted = tt;
    reach = tt;
    height = omega arith;
    ended = tt;
    room = omega arith;
    memory = added-IsMemory nothing nothing-IsMemory header_of_create 1 [] refl;
  };
  reads = λ q. refl;
  distinct = tt;
  counted = omega arith;
}
