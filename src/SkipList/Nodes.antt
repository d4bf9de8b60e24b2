-- ===== src/SkipList/Nodes.antt =====
-- skiplist_notify, and how the nodes of a skip list are made, referenced and freed
use libqb.Prelude.{
  ltb, ◌==◌, if◌then◌else◌, update, ℕ, ◌+◌, ◌%◌, ◌||◌, Option, none, some, List, [], ◌++◌, ◌>>=◌,
}
use libqb.Map.{Notifier, notify_deleted}
use libqb.Map.Keys.{Key}
use libqb.HashTable.{node_calls, table_calls}
use libqb.SkipList.{SkipList, Forward, set_node}

-- skiplist_notify, where the first loop goes through the notifiers of a node and the second through
-- those of the header
unfoldable pub notify : SkipList → List Notifier → List Notifier → ℕ → Key → ℕ → ℕ → SkipList
unfolding node_calls table_calls
notify s node_notifiers header_notifiers event key old_value value = record s {
  calls =
      s.calls
      ++ (node_calls event key old_value value node_notifiers
          ++ table_calls event key old_value value header_notifiers);
}

-- The key in the calls of notifiers; the header, which has none, is destroyed with the list alone.
abbrev pub key_or_empty : Option Key → Key
key_or_empty none = []
key_or_empty (some k) = k

abbrev pub free_array : SkipList → ℕ → Option Forward → Option SkipList
free_array s a none = none
free_array s a (some f) = some (record s { arrays = update s.arrays a none })

-- skiplist_node_destroy
unfoldable pub node_destroy : SkipList → ℕ → Option SkipList
unfolding notify
node_destroy s x = do
  n ← s.nodes x
  h ← s.nodes s.header
  let told = notify s n.notifiers h.notifiers notify_deleted (key_or_empty n.key) n.value 0
  dropped ←
      if ltb 0 n.level || s.level == 0
      then free_array told n.forward (told.arrays n.forward)
      else some told
  some (record dropped { nodes = update dropped.nodes x none })

-- skiplist_node_deref
unfoldable pub node_deref : SkipList → ℕ → Option SkipList
unfolding node_destroy
node_deref s x = do
  n ← s.nodes x
  let left = (n.refcount + 4294967295) % 4294967296
  let lowered = set_node s x (record n { refcount = left })
  if left == 0 then node_destroy lowered x else some lowered

-- The array that calloc gives
abbrev pub zeroed : Forward
zeroed level = none

-- skiplist_node_new, with its array; the header is made so too.
unfoldable pub node_new : SkipList → ℕ → Option Key → ℕ → SkipList
node_new s level key value = record s {
  nodes = update s.nodes s.fresh (
      some (record {
        key = key;
        value = value;
        level = level;
        refcount = 1;
        notifiers = [];
        forward = s.fresh;
      }));
  arrays = update s.arrays s.fresh (some zeroed);
  fresh = s.fresh + 1;
}
