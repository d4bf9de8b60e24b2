-- ===== src/SkipList/Putting.antt =====
-- skiplist_put
use libqb.Prelude.{
  if◌then◌else◌, update, ℕ, zero, suc, ◌+◌, ◌-◌, ◌%◌, max, Bool, true, Option, none, some, List, [],
  ◌>>=◌,
}
use libqb.Map.{notify_replaced, notify_inserted}
use libqb.Map.Keys.{Key}
use libqb.SkipList.{
  SkipList, Update, Search, found, past, forward_at, set_forward, set_node, level_generate, search,
  no_update,
}
use libqb.SkipList.Nodes.{notify, key_or_empty, node_new}

-- The `for` of skiplist_put over the levels from `level` on, `count` of them
unfoldable pub header_updates : ℕ → ℕ → ℕ → Update → Update
header_updates zero level header update_ = update_
header_updates (suc count) level header update_ =
    header_updates count (level + 1) header (update update_ level (some header))

-- What skiplist_put takes from outside: whether malloc and calloc succeed, and what random gives.
pub record Chance : Type 0 where
  pub malloc : Bool
  pub randoms : List ℕ

-- The `for` of skiplist_put that drops the new node into the list, over `count` levels from `level`
unfoldable pub link_loop : ℕ → ℕ → ℕ → Update → SkipList → Option SkipList
unfolding forward_at set_forward
link_loop zero level new update_ s = some s
link_loop (suc count) level new update_ s = do
  u ← update_ level
  next ← forward_at s u level
  linked ← set_forward s new level next
  dropped ← set_forward linked u level (some new)
  link_loop count (level + 1) new update_ dropped

abbrev pub one_more : SkipList → SkipList
one_more s = record s { length = (s.length + 1) % 18446744073709551616 }

abbrev pub raise : SkipList → ℕ → SkipList
raise s level = record s { level = max s.level level }

-- skiplist_put, when the key is not there
unfoldable pub put_new : Chance → SkipList → Key → ℕ → Update → Option SkipList
unfolding level_generate header_updates node_new notify link_loop
put_new c s key value update_ = do
  level ← level_generate c.randoms
  let updates = header_updates (level - s.level) s.level s.header update_
  let made = node_new (raise s level) level (some key) value
  h ← s.nodes s.header
  linked ←
      if c.malloc
      then link_loop level 0 s.fresh updates
          (notify made [] h.notifiers notify_inserted key 0 value)
      else none
  some (one_more linked)

-- skiplist_put, when it is
unfoldable pub put_replaced : SkipList → Key → ℕ → ℕ → Option SkipList
unfolding notify
put_replaced s key value y = do
  n ← s.nodes y
  h ← s.nodes s.header
  some (
      notify (set_node s y (record n { key = some key; value = value })) n.notifiers h.notifiers
        notify_replaced (key_or_empty n.key) n.value value)

unfoldable pub put_searched : Chance → SkipList → Key → ℕ → Search → Option SkipList
unfolding put_new put_replaced
put_searched c s key value (found y) = put_replaced s key value y
put_searched c s key value (past cur update_) = put_new c s key value update_

-- skiplist_put
unfoldable pub list_put : Chance → SkipList → Key → ℕ → Option SkipList
unfolding search put_searched
list_put c s key value = search true s key s.level s.header no_update >>= put_searched c s key value
