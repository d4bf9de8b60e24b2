-- ===== src/SkipList.antt =====
-- lib/skiplist.c: the map interface on a skip list. Nodes and their arrays of forward pointers are
-- objects at addresses, which a removed node may share; a freed one holds `none`, and so a call that
-- reads it is `none`. malloc gives addresses that were not given before. A level is kept as one more
-- than the `int8_t`, which can be -1. The calls of notifiers are recorded in order.
pub mod Nodes
pub mod Putting
pub mod Removing
pub mod Iterating
pub mod Notifiers
pub mod Creation
pub mod Items
pub mod Sorted
pub mod Walking
pub mod Writes
pub mod Shape
pub mod Searching
pub mod Reading
pub mod Linking
pub mod Apart
pub mod Placing
pub mod Added
pub mod Inserted
pub mod Replaced
pub mod Put
pub mod Splicing
pub mod Unlinking
pub mod Spliced
pub mod Dropping
pub mod TakingOver
pub mod Lowering
pub mod Kept
pub mod Removed
pub mod RemovedFirst
pub mod Rm
pub mod Holding
pub mod Erased
pub mod Refine
mod Tests
use libqb.Prelude.{
  ltb, ◌==◌, if◌then◌else◌, length, update, ℕ, zero, suc, ◌+◌, ◌%◌, min, Bool, true, false, Option,
  none, some, List, [], ◌∷◌, ◌>>=◌,
}
use libqb.Map.{Notifier, Notification}
use libqb.Map.Keys.{Key}
use libqb.Map.Order.{Order, less, equal, greater, strcmp}

-- SKIPLIST_LEVEL_COUNT, that is SKIPLIST_LEVEL_MAX + 1
abbrev pub level_count : ℕ
level_count = 9

-- `struct skiplist_node`; the header has the key NULL.
pub record Node : Type 0 where
  pub key : Option Key
  pub value : ℕ
  pub level : ℕ
  pub refcount : ℕ
  pub notifiers : List Notifier
  pub forward : ℕ

-- An array of forward pointers, by level
abbrev pub Forward : Type 0
Forward = ℕ → Option ℕ

-- `struct skiplist`, with the nodes and arrays, the next address that malloc gives, and the calls of
-- notifiers so far
pub record SkipList : Type 0 where
  pub length : ℕ
  pub level : ℕ
  pub header : ℕ
  pub nodes : ℕ → Option Node
  pub arrays : ℕ → Option Forward
  pub fresh : ℕ
  pub calls : List Notification

abbrev pub inside : {A : Type 0} → ℕ → A → Option A
inside level v = if ltb level level_count then some v else none

-- node->forward[level], read and written
unfoldable pub forward_at : SkipList → ℕ → ℕ → Option (Option ℕ)
forward_at s x level = do n ← s.nodes x; f ← s.arrays n.forward; inside level (f level)

unfoldable pub set_forward : SkipList → ℕ → ℕ → Option ℕ → Option SkipList
set_forward s x level v = do
  n ← s.nodes x
  f ← s.arrays n.forward
  inside level (record s { arrays = update s.arrays n.forward (some (update f level v)) })

abbrev pub set_node : SkipList → ℕ → Node → SkipList
set_node s x n = record s { nodes = update s.nodes x (some n) }

-- The `while` of skiplist_level_generate, over the numbers that random gives: one more than the
-- level. `none` where they run out, and where the `int8_t` would overflow.
unfoldable pub generate_loop : List ℕ → ℕ → Option ℕ
generate_loop [] level = none
generate_loop (r ∷ rs) level =
    let rest = generate_loop rs (level + 1) in
    if ltb (r % 65536) 16383 then (if level == 128 then none else rest) else some level

-- skiplist_level_generate
unfoldable pub level_generate : List ℕ → Option ℕ
unfolding generate_loop
level_generate randoms = generate_loop randoms 1 >>= λ level. some (min level level_count)

abbrev pub unless_dead : (ℕ → Option (Option ℕ)) → ℕ → Option Node → Option (Option ℕ)
unless_dead more y none = none
unless_dead more y (some n) = if n.refcount == 0 then more y else some (some y)

abbrev pub next_live : SkipList → (ℕ → Option (Option ℕ)) → Option ℕ → Option (Option ℕ)
next_live s more none = some none
next_live s more (some y) = unless_dead more y (s.nodes y)

-- The `do` of skiplist_node_next, on fuel
unfoldable pub next_loop : ℕ → SkipList → ℕ → Option (Option ℕ)
unfolding forward_at
next_loop zero s x = none
next_loop (suc fuel) s x = forward_at s x 0 >>= next_live s (next_loop fuel s)

-- skiplist_node_next
unfoldable pub node_next : SkipList → ℕ → Option (Option ℕ)
unfolding next_loop
node_next s x = next_loop s.fresh s x

pub data Op : Type 0 where
  goto_next_level goto_next_node finish : Op

abbrev pub op_of : Order → Op
op_of less = goto_next_node
op_of equal = finish
op_of greater = goto_next_level

-- op_search
unfoldable pub op_search : SkipList → Option ℕ → Key → Option Op
op_search s none key = some goto_next_level
op_search s (some y) key = do n ← s.nodes y; k ← n.key; some (op_of (strcmp k key))

-- Where a walk along one level ends: at a node with the key, or before the first one that is not
-- less than it.
pub data Walk : Type 0 where
  at_key : ℕ → Walk
  before : ℕ → Walk

-- One turn of the `while` of skiplist_lookup, skiplist_put and skiplist_rm, which goes on along the
-- level as `more`. skiplist_rm takes OP_FINISH as the next level: there `finishes` is false.
unfoldable pub turn : Bool → (ℕ → Option Walk) → ℕ → Option ℕ → Op → Option Walk
turn finishes more cur fwd goto_next_level = some (before cur)
turn finishes more cur none goto_next_node = none
turn finishes more cur (some y) goto_next_node = more y
turn finishes more cur none finish = none
turn true more cur (some y) finish = some (at_key y)
turn false more cur (some y) finish = some (before cur)

-- The turns along one level, on fuel
unfoldable pub walk : Bool → ℕ → SkipList → Key → ℕ → ℕ → Option Walk
unfolding turn forward_at op_search
walk finishes zero s key level cur = none
walk finishes (suc fuel) s key level cur = do
  fwd ← forward_at s cur level
  op ← op_search s fwd key
  turn finishes (walk finishes fuel s key level) cur fwd op

-- skiplist_update_t, whose entries have no value at first
abbrev pub Update : Type 0
Update = ℕ → Option ℕ

abbrev pub no_update : Update
no_update level = none

-- What the `while` ends with: the node that has the key, or cur_node and the update of each level.
pub data Search : Type 0 where
  found : ℕ → Search
  past : ℕ → Update → Search

unfoldable pub next_level : (ℕ → Update → Option Search) → ℕ → Update → Walk → Option Search
next_level more level update_ (at_key y) = some (found y)
next_level more level update_ (before cur) = more cur (update update_ level (some cur))

-- The whole `while`, from `level` (one more than the first) down
unfoldable pub search : Bool → SkipList → Key → ℕ → ℕ → Update → Option Search
unfolding walk next_level
search finishes s key zero cur update_ = some (past cur update_)
search finishes s key (suc level) cur update_ =
    walk finishes s.fresh s key level cur >>= next_level (search finishes s key level) level update_

abbrev pub found_node : Search → Option ℕ
found_node (found y) = some y
found_node (past cur update_) = none

-- skiplist_lookup
unfoldable pub list_lookup : SkipList → Key → Option (Option ℕ)
unfolding search
list_lookup s key = search true s key s.level s.header no_update >>= λ w. some (found_node w)

unfoldable pub value_at : SkipList → Option ℕ → Option ℕ
value_at s none = some 0
value_at s (some y) = s.nodes y >>= λ n. some n.value

-- skiplist_get
unfoldable pub list_get : SkipList → Key → Option ℕ
unfolding list_lookup value_at
list_get s key = list_lookup s key >>= value_at s
