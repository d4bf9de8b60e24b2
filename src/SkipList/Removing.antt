-- ===== src/SkipList/Removing.antt =====
-- skiplist_rm
use libqb.Prelude.{
  ltb, ◌==◌, if◌then◌else◌, ℕ, zero, suc, ◌+◌, ◌%◌, Bool, true, false, ◌||◌, Option, none, some,
  ◌>>=◌,
}
use libqb.Map.Keys.{Key, key_eq}
use libqb.SkipList.{
  SkipList, Update, Search, found, past, forward_at, set_forward, set_node, node_next, search,
  no_update,
}
use libqb.SkipList.Nodes.{free_array, node_deref}

abbrev pub is_node : ℕ → Option ℕ → Bool
is_node x none = false
is_node x (some y) = x == y

-- The `for` of skiplist_rm that splices the node out, over `count` levels from `level`
unfoldable pub splice_loop : ℕ → ℕ → ℕ → Update → SkipList → Option SkipList
unfolding forward_at set_forward
splice_loop zero level x update_ s = some s
splice_loop (suc count) level x update_ s = do
  u ← update_ level
  next ← forward_at s u level
  spliced ← if is_node x next then forward_at s x level >>= set_forward s u level else some s
  splice_loop count (level + 1) x update_ spliced

-- The `for` that copies the forward pointers of `cur` to the node
unfoldable pub copy_loop : ℕ → ℕ → ℕ → ℕ → SkipList → Option SkipList
unfolding forward_at set_forward
copy_loop zero level x cur s = some s
copy_loop (suc count) level x cur s = do
  next ← forward_at s cur level
  copied ← set_forward s x level next
  copy_loop count (level + 1) x cur copied

-- The node's array takes the place of that of `cur`, and is no longer the node's to free.
unfoldable pub take_over : SkipList → ℕ → ℕ → Option SkipList
unfolding copy_loop
take_over s x cur = do
  n ← s.nodes x
  copied ← copy_loop n.level 0 x cur s
  let marked = set_node copied x (record n { level = 0 })
  c ← marked.nodes cur
  freed ← free_array marked c.forward (marked.arrays c.forward)
  some (set_node freed cur (record c { forward = n.forward }))

abbrev pub unless_used : (SkipList → Option SkipList) → ℕ → SkipList → Option ℕ → Option SkipList
unless_used more level s (some y) = some s
unless_used more level s none = more (record s { level = level })

-- The last `for` of skiplist_rm, with `level` one more than the level that it looks at
unfoldable pub lower : ℕ → SkipList → Option SkipList
unfolding forward_at
lower zero s = some s
lower (suc level) s = forward_at s s.header level >>= unless_used (lower level) level s

abbrev pub one_less : SkipList → SkipList
one_less s = record s { length = (s.length + 18446744073709551615) % 18446744073709551616 }

abbrev pub has_no_key : Option Key → Bool
has_no_key none = true
has_no_key (some k) = false

unfoldable pub remove : SkipList → ℕ → ℕ → Update → Option SkipList
unfolding splice_loop take_over node_deref lower
remove s x cur update_ = do
  spliced ← splice_loop s.level 0 x update_ s
  n ← spliced.nodes x
  c ← spliced.nodes cur
  taken ← if ltb 1 n.refcount || has_no_key c.key then take_over spliced x cur else some spliced
  dropped ← node_deref taken x
  lowered ← lower dropped.level dropped
  some (one_less lowered)

abbrev pub true_with : Option SkipList → Option (Bool × SkipList)
true_with none = none
true_with (some s) = some (true, s)

-- Whether the node that was found has the key
unfoldable pub rm_next : SkipList → Key → ℕ → Update → Option ℕ → Option (Bool × SkipList)
unfolding remove
rm_next s key cur update_ none = some (false, s)
rm_next s key cur update_ (some x) = do
  n ← s.nodes x
  k ← n.key
  if key_eq k key then true_with (remove s x cur update_) else some (false, s)

unfoldable pub rm_searched : SkipList → Key → Search → Option (Bool × SkipList)
unfolding rm_next node_next
rm_searched s key (found y) = none
rm_searched s key (past cur update_) = node_next s cur >>= rm_next s key cur update_

-- skiplist_rm
unfoldable pub list_rm : SkipList → Key → Option (Bool × SkipList)
unfolding search rm_searched
list_rm s key = search false s key s.level s.header no_update >>= rm_searched s key
