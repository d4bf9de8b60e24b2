-- ===== src/SkipList/Iterating.antt =====
-- The iterator of a skip list, which has a reference to the node that it stands at.
use libqb.Prelude.{ℕ, ◌+◌, ◌%◌, Option, none, some, ◌>>=◌}
use libqb.Map.Keys.{Key}
use libqb.SkipList.{SkipList, set_node, node_next}
use libqb.SkipList.Nodes.{node_deref}

-- `struct skiplist_iter`
pub record Iter : Type 0 where
  pub node : Option ℕ

-- n->refcount++
unfoldable pub node_ref : SkipList → ℕ → Option SkipList
node_ref s x = do
  n ← s.nodes x
  some (set_node s x (record n { refcount = (n.refcount + 1) % 4294967296 }))

-- skiplist_iter_create: the prefix is not looked at.
unfoldable pub iter_create : SkipList → Option Key → Option (Iter × SkipList)
unfolding node_ref
iter_create s prefix = node_ref s s.header >>= λ t. some (record { node = some s.header }, t)

-- What skiplist_iter_next does with the node that follows `p`
unfoldable pub step_to : SkipList → ℕ → Option ℕ → Option (Option (Key × ℕ) × Iter × SkipList)
unfolding node_ref node_deref
step_to s p none = node_deref s p >>= λ t. some (none, record { node = none }, t)
step_to s p (some y) = do
  held ← node_ref s y
  dropped ← node_deref held p
  n ← dropped.nodes y
  key ← n.key
  some (some (key, n.value), record { node = some y }, dropped)

unfoldable pub next_from : SkipList → Option ℕ → Option (Option (Key × ℕ) × Iter × SkipList)
unfolding node_next step_to
next_from s none = some (none, record { node = none }, s)
next_from s (some p) = node_next s p >>= step_to s p

-- skiplist_iter_next
unfoldable pub iter_next : Iter → SkipList → Option (Option (Key × ℕ) × Iter × SkipList)
unfolding next_from
iter_next i s = next_from s i.node

-- skiplist_iter_free: only the iterator is freed.
abbrev pub iter_free : Iter → SkipList → SkipList
iter_free i s = s
