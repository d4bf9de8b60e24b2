-- ===== src/SkipList/Notifiers.antt =====
-- skiplist_notify_add and skiplist_notify_del
use libqb.Prelude.{
  if◌then◌else◌, einval, enoent, enomem, eexist, Ret, ok, err, ℕ, Bool, Option, none, some, List,
  ◌>>=◌,
}
use libqb.Map.{Notifier}
use libqb.Map.Keys.{Key}
use libqb.HashTable.Notifiers.{has_notifier, added_notifier, remaining, any_deleted}
use libqb.SkipList.{SkipList, Node, set_node, list_lookup}

-- The node whose notifiers a key, or NULL, selects
unfoldable pub selected : SkipList → Option Key → Option (Option ℕ)
unfolding list_lookup
selected s none = some (some s.header)
selected s (some key) = list_lookup s key

abbrev pub with_notifiers : SkipList → ℕ → Node → List Notifier → SkipList
with_notifiers s x n ns = set_node s x (record n { notifiers = ns })

unfoldable pub add_to : Bool → SkipList → Notifier → Option ℕ → Option (Ret × SkipList)
unfolding has_notifier
add_to memory s f none = some (err einval, s)
add_to memory s f (some x) = do
  n ← s.nodes x
  some (
      if has_notifier f n.notifiers
      then (err eexist, s)
      else if memory
      then (ok 0, with_notifiers s x n (added_notifier f n.notifiers))
      else (err enomem, s))

-- skiplist_notify_add
unfoldable pub notify_add : Bool → SkipList → Option Key → Notifier → Option (Ret × SkipList)
unfolding selected add_to
notify_add memory s key f = selected s key >>= add_to memory s f

unfoldable pub del_from : SkipList → Notifier → Bool → Option ℕ → Option (Ret × SkipList)
unfolding any_deleted remaining
del_from s f cmp_userdata none = some (err enoent, s)
del_from s f cmp_userdata (some x) = do
  n ← s.nodes x
  some (
      if any_deleted f cmp_userdata n.notifiers
      then (ok 0, with_notifiers s x n (remaining f cmp_userdata n.notifiers))
      else (err enoent, s))

-- skiplist_notify_del
unfoldable pub notify_del : SkipList → Option Key → Notifier → Bool → Option (Ret × SkipList)
unfolding selected del_from
notify_del s key f cmp_userdata = selected s key >>= del_from s f cmp_userdata
