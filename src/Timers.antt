-- ===== src/Timers.antt =====
-- include/tlist.h: the timers of the main loop, a binary heap of pointers to timers. Each timer
-- records its place in the heap, so that a handle finds its entry. A failed assertion is `none`.
-- Pointers are numbers, and the mutex calls succeed.
pub mod Swap
pub mod SiftUp
pub mod SiftDown
pub mod Delete
pub mod Insert
pub mod Expire
pub mod Check
mod Tests
use libqb.Prelude.{
  ◌>>=◌, ltb, ◌==◌, if◌then◌else◌, set, update, enomem, other, Ret, ok, err, ℕ, zero, suc, ◌+◌, ◌-◌,
  ◌*◌, ◌/◌, ◌%◌, Bool, true, false, Option, none, some, List, [], ◌∷◌,
}

-- `struct timerlist_timer`
pub record Timer : Type 0 where
  pub expire_time : ℕ
  pub is_absolute_timer : Bool
  pub timer_fn : ℕ
  pub user_data : ℕ
  pub handle_addr : ℕ
  pub heap_pos : ℕ

-- `struct timerlist`, with the memory that it points to: the timers, and the clients' handles.
pub record TimerList : Type 0 where
  pub heap_entries : ℕ → ℕ
  pub allocated : ℕ
  pub size : ℕ
  pub timers : ℕ → Timer
  pub handles : ℕ → Option ℕ

abbrev pub left_of : ℕ → ℕ
left_of index = 2 * index + 1

abbrev pub right_of : ℕ → ℕ
right_of index = 2 * index + 2

-- Of index 0 the source takes no parent.
abbrev pub parent_of : ℕ → ℕ
parent_of index = (index - 1) / 2

-- timerlist_heap_entry_set
unfoldable pub entry_set : TimerList → ℕ → ℕ → Option TimerList
entry_set l item_pos timer =
    if ltb item_pos l.size
    then some (record l {
      heap_entries = update l.heap_entries item_pos timer;
      timers = update l.timers timer (record (l.timers timer) { heap_pos = item_pos });
    })
    else none

-- timerlist_heap_entry_get
unfoldable pub entry_get : TimerList → ℕ → Option ℕ
entry_get l item_pos = if ltb item_pos l.size then some (l.heap_entries item_pos) else none

-- timerlist_entry_cmp, as the tests that its callers make of it
abbrev pub expires_before : TimerList → ℕ → ℕ → Bool
expires_before l t1 t2 = ltb (l.timers t1).expire_time (l.timers t2).expire_time

-- The `while` of timerlist_heap_sift_up, on fuel.
unfoldable pub sift_up_loop : ℕ → TimerList → ℕ → ℕ → Option TimerList
unfolding entry_set entry_get
sift_up_loop zero l timer item_pos = none
sift_up_loop (suc fuel) l timer item_pos =
    if ltb 0 item_pos
    then (do
      let parent_pos = parent_of item_pos
      parent_timer ← entry_get l parent_pos
      let swap = do
        l1 ← entry_set l parent_pos timer
        l2 ← entry_set l1 item_pos parent_timer
        sift_up_loop fuel l2 timer parent_pos
      if expires_before l timer parent_timer then swap else some l)
    else some l

-- timerlist_heap_sift_up
unfoldable pub sift_up : TimerList → ℕ → Option TimerList
unfolding sift_up_loop
sift_up l item_pos = do timer ← entry_get l item_pos; sift_up_loop (item_pos + 1) l timer item_pos

-- One of the two tests for a smaller child: the position and entry that are smallest so far.
unfoldable pub smaller : TimerList → ℕ → ℕ × ℕ → Option (ℕ × ℕ)
unfolding entry_get
smaller l child_pos (smallest_pos, smallest_entry) =
    if ltb child_pos l.size
    then (do
      entry ← entry_get l child_pos
      some (
          if expires_before l entry smallest_entry
          then (child_pos, entry)
          else (smallest_pos, smallest_entry)))
    else some (smallest_pos, smallest_entry)

-- The `while` of timerlist_heap_sift_down, on fuel.
unfoldable pub sift_down_loop : ℕ → TimerList → ℕ → Option TimerList
unfolding entry_set entry_get smaller
sift_down_loop zero l item_pos = none
sift_down_loop (suc fuel) l item_pos = do
  item ← entry_get l item_pos
  first ← smaller l (left_of item_pos) (item_pos, item)
  second ← smaller l (right_of item_pos) first
  let sink = do
    tmp_entry ← entry_get l item_pos
    l1 ← entry_set l item_pos second.1
    l2 ← entry_set l1 second.0 tmp_entry
    sift_down_loop fuel l2 second.0
  if second.0 == item_pos then some l else sink

-- timerlist_heap_sift_down
unfoldable pub sift_down : TimerList → ℕ → Option TimerList
unfolding sift_down_loop
sift_down l item_pos = sift_down_loop (l.size + 1) l item_pos

abbrev pub size_max : ℕ
size_max = 18446744073709551615

-- Up or down, by how the replacement compares with the entry that has gone.
resift : TimerList → ℕ → ℕ → ℕ → Option TimerList
resift l replacement_entry entry entry_pos =
    if expires_before l replacement_entry entry
    then sift_up l entry_pos
    else if expires_before l entry replacement_entry
    then sift_down l entry_pos
    else some l

-- timerlist_heap_delete
unfoldable pub heap_delete : TimerList → ℕ → Option TimerList
unfolding sift_up sift_down resift
heap_delete l entry = do
  let entry_pos = (l.timers entry).heap_pos
  let marked = record l {
    timers = update l.timers entry (record (l.timers entry) { heap_pos = size_max });
  }
  replacement_entry ← entry_get marked (marked.size - 1)
  replaced ← entry_set marked entry_pos replacement_entry
  resift (record replaced { size = replaced.size - 1 }) replacement_entry entry entry_pos

-- timerlist_init, on memory as it is
unfoldable pub init : TimerList → TimerList
init l = record l { heap_entries = λ item_pos. 0; allocated = 0; size = 0 }

-- The `for` of timerlist_destroy from entry `zi`, with `left` to go: the timers that it frees.
unfoldable pub free_from : TimerList → ℕ → ℕ → List ℕ
free_from l zi zero = []
free_from l zi (suc left) = l.heap_entries zi ∷ free_from l (zi + 1) left

-- timerlist_destroy
unfoldable pub destroy : TimerList → List ℕ
unfolding free_from
destroy l = free_from l 0 l.size

-- The end of timerlist_add, once the array is large enough.
place_last : TimerList → ℕ → Option (Ret × TimerList)
place_last l timer = do
  set ← entry_set (record l { size = l.size + 1 }) l.size timer
  sifted ← sift_up set l.size
  some (ok 0, sifted)

-- timerlist_add. `memory` says whether realloc succeeds.
unfoldable pub add : Bool → TimerList → ℕ → Option (Ret × TimerList)
unfolding sift_up entry_set place_last
add memory l timer =
    if ltb l.allocated (l.size + 1)
    then (if memory
        then place_last (record l { allocated = (l.allocated + 1) * 2 }) timer
        else some (err enomem, l))
    else place_last l timer

abbrev give_handle : ℕ → ℕ → Ret × TimerList → Ret × TimerList
give_handle handle timer (ok k, l) =
    (ok 0, record l { handles = update l.handles handle (some timer) })
give_handle handle timer (err e, l) = (err e, l)

-- timerlist_add_duration. `fresh` is what malloc returns, `now` the monotonic clock.
unfoldable pub add_duration :
    Bool → Option ℕ → ℕ → TimerList → ℕ → ℕ → ℕ → ℕ → Option (Ret × TimerList)
unfolding add
add_duration memory none now l timer_fn user_data nano_duration handle = some (err enomem, l)
add_duration memory (some timer) now l timer_fn user_data nano_duration handle = do
  let filled = record l {
    timers = update l.timers timer (record {
      expire_time = (now + nano_duration) % 18446744073709551616;
      is_absolute_timer = false;
      timer_fn = timer_fn;
      user_data = user_data;
      handle_addr = handle;
      heap_pos = (l.timers timer).heap_pos;
    });
  }
  added ← add memory filled timer
  some (give_handle handle timer added)

abbrev clear_handle : TimerList → ℕ → TimerList
clear_handle l timer = record l { handles = update l.handles (l.timers timer).handle_addr none }

-- timerlist_del and timerlist_pre_dispatch. The freed timer is not read again.
unfoldable pub del : TimerList → ℕ → Option TimerList
unfolding heap_delete
del l timer = heap_delete (clear_handle l timer) timer

-- timerlist_expire_time
unfoldable pub expire_time : TimerList → ℕ → ℕ
expire_time l timer = (l.timers timer).expire_time

-- timerlist_msec_duration_to_expire, given both clocks and the ticks of a second, which are not 0
unfoldable pub msec_duration_to_expire : ℕ → ℕ → ℕ → TimerList → Option ℕ
unfolding entry_get
msec_duration_to_expire hertz monotonic from_epoch l = if l.size == 0 then some size_max else do
  timer ← entry_get l 0
  let current_time = if (l.timers timer).is_absolute_timer then from_epoch else monotonic
  some (
      if ltb (l.timers timer).expire_time current_time
      then 0
      else ((l.timers timer).expire_time - current_time) / 1000000 + 1000 / hertz)

abbrev pub clock_of : ℕ → ℕ → TimerList → ℕ → ℕ
clock_of monotonic from_epoch l timer =
    if (l.timers timer).is_absolute_timer then from_epoch else monotonic

-- The `while` of timerlist_expire, on fuel: the heap that is left, and the timers whose functions
-- were called, in that order. The functions leave the heap alone, since the mutex is held.
unfoldable pub expire_loop : ℕ → ℕ → ℕ → TimerList → Option (List ℕ × TimerList)
unfolding entry_get del
expire_loop zero monotonic from_epoch l = none
expire_loop (suc fuel) monotonic from_epoch l =
    let dispatch = do
      timer ← entry_get l 0
      let step = do
        rest ← del l timer
        called ← expire_loop fuel monotonic from_epoch rest
        some (timer ∷ called.0, called.1)
      if ltb (l.timers timer).expire_time (clock_of monotonic from_epoch l timer)
          then step
          else some ([], l)
    in if ltb 0 l.size then dispatch else some ([], l)

-- timerlist_expire
unfoldable pub expire : ℕ → ℕ → TimerList → Option (List ℕ × TimerList)
unfolding expire_loop
expire monotonic from_epoch l = expire_loop (l.size + 1) monotonic from_epoch l

-- One of the two tests of timerlist_debug_is_valid_heap: whether a child expires too early.
child_before : TimerList → ℕ → ℕ → Option Bool
unfolding entry_get
child_before l child_pos cur_entry =
    if ltb child_pos l.size
    then (entry_get l child_pos >>= λ entry. some (expires_before l entry cur_entry))
    else some false

-- The `for` of timerlist_debug_is_valid_heap, from entry `i` on, with `n` entries to go.
is_valid_from : TimerList → ℕ → ℕ → Option Bool
unfolding entry_get child_before
is_valid_from l i zero = some true
is_valid_from l i (suc n) =
    let rest = is_valid_from l (i + 1) n in
    do
      cur_entry ← entry_get l i
      left ← child_before l (left_of i) cur_entry
      let other = do
        right ← child_before l (right_of i) cur_entry
        if right then some false else rest
      if left then some false else other

-- timerlist_debug_is_valid_heap
unfoldable pub debug_is_valid_heap : TimerList → Option Bool
unfolding is_valid_from
debug_is_valid_heap l = is_valid_from l 0 l.size
