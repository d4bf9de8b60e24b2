-- ===== src/SkipList/Creation.antt =====
-- skiplist_destroy and qb_skiplist_create
use libqb.Prelude.{ℕ, zero, suc, Option, none, some, [], ◌>>=◌}
use libqb.Map.{Ops}
use libqb.SkipList.{SkipList, node_next, list_get, level_count}
use libqb.SkipList.Nodes.{node_new, node_destroy}
use libqb.SkipList.Putting.{Chance, list_put}
use libqb.SkipList.Removing.{list_rm}
use libqb.SkipList.Iterating.{Iter, iter_create, iter_next, iter_free}
use libqb.SkipList.Notifiers.{notify_add, notify_del}

-- The `for` of skiplist_destroy, on fuel
unfoldable pub destroy_loop : ℕ → SkipList → Option ℕ → Option SkipList
unfolding node_next node_destroy
destroy_loop fuel s none = some s
destroy_loop zero s (some x) = none
destroy_loop (suc fuel) s (some x) = do
  next ← node_next s x
  destroyed ← node_destroy s x
  destroy_loop fuel destroyed next

-- skiplist_destroy, up to the freeing of the list itself
unfoldable pub destroy : SkipList → Option SkipList
unfolding destroy_loop
destroy s = do
  let torn = record s { level = 0 }
  first ← node_next torn torn.header
  emptied ← destroy_loop torn.fresh torn first
  node_destroy emptied emptied.header

-- qb_skiplist_create, when there is memory for the list and its header
unfoldable pub create : SkipList
unfolding node_new
create =
    node_new
      (record {
        length = 0;
        level = 1;
        header = 0;
        nodes = λ x. none;
        arrays = λ a. none;
        fresh = 0;
        calls = [];
      })
      level_count none 0

-- The functions that qb_skiplist_create puts into `struct qb_map`
abbrev pub skiplist_ops : Ops Chance SkipList Iter
skiplist_ops = record {
  put = list_put;
  get = list_get;
  rm = list_rm;
  count_get = λ s. s.length;
  destroy = destroy;
  iter_create = iter_create;
  iter_next = iter_next;
  iter_free = iter_free;
  notify_add = some notify_add;
  notify_del = some notify_del;
}
