-- ===== src/LoopTimers.antt =====
-- lib/loop_timerlist.c: the timer source of the loop, which keeps its timers in a growing array and
-- their expiry times in the heap. A timer is named by its index in the array, which stands for its
-- address, and the `timerlist_handle` of timer `idx` is the client's handle at address `idx` of the
-- heap. The functions of the loop's clients are arguments. `none` for a whole call is a failed
-- assertion or a NULL pointer that is followed.
pub mod Stale
pub mod Failure
pub mod Sleep
mod Tests
use libqb.Prelude.{
  ltb, ◌==◌, if◌then◌else◌, length, Errno, einval, Ret, ok, err, ℕ, zero, suc, ◌+◌, ◌*◌, ◌/◌, ◌%◌,
  Bool, true, false, Option, none, some, List, [], ◌∷◌, ◌>>=◌,
}
use libqb.Array.{Array, Bins, Indexed, element_at, failed, index, grow, element_in, stored}
use libqb.Loop.{Loop, Item, timer, level_item_add, level_item_del, set_level}
use libqb.Timers.{TimerList, add_duration, del, expire, expire_time}
use libqb.Handles.Creation.{draw_check}

-- `enum qb_poll_entry_state`
pub data PollEntryState : Type 0 where
  empty joblist deleted active : PollEntryState

-- `struct qb_loop_timer`; the check is kept as its 32 bits.
pub record LoopTimer : Type 0 where
  pub user_data : ℕ
  pub dispatch_fn : ℕ
  pub p : ℕ
  pub state : PollEntryState
  pub check : ℕ
  pub install_pos : ℕ

-- What calloc leaves.
abbrev pub zeroed : LoopTimer
zeroed = record { user_data = 0; dispatch_fn = 0; p = 0; state = empty; check = 0; install_pos = 0 }

-- `struct qb_timer_source`, with the loop that it belongs to
pub record TimerSource : Type 0 where
  pub loop : Loop
  pub timerlist : TimerList
  pub timers : Array LoopTimer
  pub timer_entry_count : ℕ

-- What qb_array_index of this call gets from realloc and calloc, should it want memory.
pub record Memory : Type 0 where
  pub realloc_in_grow : Option (Bins LoopTimer)
  pub realloc : Option (Bins LoopTimer)
  pub calloc : Bool

-- A timer that was looked up, or a negated errno.
pub data Found : Type 0 where
  found : LoopTimer → Found
  not_found : Errno → Found

abbrev pub read_timer : TimerSource → Option LoopTimer → Option (Found × TimerSource)
read_timer s none = none
read_timer s (some t) = some (found t, s)

abbrev pub indexed : TimerSource → Option (Indexed × Array LoopTimer) → Option (Found × TimerSource)
indexed s none = none
indexed s (some (failed e, a)) = some (not_found e, record s { timers = a })
indexed s (some (element_at b elem new, a)) =
    read_timer (record s { timers = a }) (element_in a.bin b elem)

-- qb_array_index of the timers
unfoldable pub timer_index : Memory → TimerSource → ℕ → Option (Found × TimerSource)
timer_index m s idx = indexed s (index m.realloc_in_grow m.realloc m.calloc zeroed s.timers idx)

abbrev pub store : TimerSource → ℕ → LoopTimer → TimerSource
store s idx t = record s { timers = stored s.timers idx t }

-- The item of a timer, on the list of a level.
abbrev pub item_of : ℕ → LoopTimer → Item
item_of idx t = record {
  address = idx;
  type_of = timer;
  user_data = t.user_data;
  dispatch_fn = t.dispatch_fn;
}

unfoldable pub with_check : ℕ → Option (Found × TimerSource) → Option (Found × TimerSource)
with_check check none = none
with_check check (some (not_found e, s)) = some (not_found e, s)
with_check check (some (found t, s)) =
    if t.check == check then some (found t, s) else some (not_found einval, s)

-- _timer_from_handle_
unfoldable pub timer_from_handle : Memory → TimerSource → ℕ → Option (Found × TimerSource)
unfolding timer_index with_check
timer_from_handle m s handle_in =
    if handle_in == 0
    then some (not_found einval, s)
    else with_check (handle_in / 4294967296) (timer_index m s (handle_in % 4294967296))

abbrev pub is_active : PollEntryState → Bool
is_active active = true
is_active s = false

-- make_job_from_tmo, on the timer `idx`
unfoldable pub make_job : ℕ → TimerSource → Option LoopTimer → Option TimerSource
unfolding level_item_add
make_job idx s none = none
make_job idx s (some t) =
    if is_active t.state
    then some (
        store
          (record s {
            loop = set_level s.loop t.p (level_item_add (s.loop.level t.p) (item_of idx t));
          })
          idx (record t { state = joblist }))
    else none

-- The timer `idx` as it is now.
unfoldable pub timer_now : TimerSource → ℕ → Option LoopTimer
timer_now s idx = element_in s.timers.bin (idx / 16) (idx % 16)

-- The functions that timerlist_expire calls, for the entries of the heap that have expired.
unfoldable pub make_jobs : List ℕ → TimerSource → Option TimerSource
unfolding make_job timer_now
make_jobs [] s = some s
make_jobs (entry ∷ rest) s =
    let idx = (s.timerlist.timers entry).user_data in
    make_job idx s (timer_now s idx) >>= make_jobs rest

-- expire_the_timers, given both clocks: how many timers expired, and the timer source
unfoldable pub expire_the_timers : ℕ → ℕ → TimerSource → Option (ℕ × TimerSource)
unfolding make_jobs
expire_the_timers monotonic from_epoch s = expire monotonic from_epoch s.timerlist >>= λ r.
    make_jobs r.0 (record s { timerlist = r.1 }) >>= λ made. some (length r.0, made)

-- The timer source when the function of timer `idx` is called by timer_dispatch.
unfoldable pub before_dispatch : ℕ → TimerSource → LoopTimer → Option TimerSource
before_dispatch idx s t = elim t.state [
  | joblist ↦ some (store s idx (record t { check = 0 }))
  | empty ↦ none
  | deleted ↦ none
  | active ↦ none
]

emptied : ℕ → TimerSource → Option LoopTimer → Option TimerSource
emptied idx s none = none
emptied idx s (some t) = some (store s idx (record t { state = empty }))

called : ℕ → Option TimerSource → Option TimerSource
unfolding emptied timer_now
called idx none = none
called idx (some s) = emptied idx s (timer_now s idx)

after_check : (TimerSource → Option TimerSource) → ℕ → Option TimerSource → Option TimerSource
unfolding called
after_check fn idx none = none
after_check fn idx (some s) = called idx (fn s)

-- timer_dispatch of timer `idx`, whose function does `fn`
unfoldable pub timer_dispatch :
    (TimerSource → Option TimerSource) → ℕ → TimerSource → LoopTimer → Option TimerSource
unfolding before_dispatch after_check
timer_dispatch fn idx s t = after_check fn idx (before_dispatch idx s t)

-- timerlist_del, if the timer has a handle, and the state of the timer afterwards
with_list : ℕ → TimerSource → LoopTimer → Option TimerList → Option (Ret × TimerSource)
with_list idx s t none = none
with_list idx s t (some l) =
    some (ok 0, store (record s { timerlist = l }) idx (record t { state = empty }))

abbrev pub delete_entry : TimerList → Option ℕ → Option TimerList
delete_entry l none = some l
delete_entry l (some entry) = del l entry

remove : ℕ → TimerSource → LoopTimer → Option (Ret × TimerSource)
unfolding with_list
remove idx s t = with_list idx s t (delete_entry s.timerlist (s.timerlist.handles idx))

-- What qb_loop_timer_del does to a timer in each of its states.
unfoldable pub del_timer : ℕ → TimerSource → LoopTimer → Option (Ret × TimerSource)
unfolding remove level_item_del
del_timer idx s t = elim t.state [
  | deleted ↦ some (ok 0, s)
  | empty ↦ some (err einval, s)
  | active ↦ remove idx s t
  | joblist ↦ remove idx (record s { loop = level_item_del s.loop t.p (item_of idx t) }) t
]

unfoldable pub del_found : ℕ → Option (Found × TimerSource) → Option (Ret × TimerSource)
unfolding del_timer
del_found idx none = none
del_found idx (some (not_found e, s)) = some (err e, s)
del_found idx (some (found t, s)) = del_timer idx s t

-- qb_loop_timer_del
unfoldable pub timer_del : Memory → TimerSource → ℕ → Option (Ret × TimerSource)
unfolding timer_from_handle del_found
timer_del m s th = del_found (th % 4294967296) (timer_from_handle m s th)

-- timerlist_expire_time of a handle, which is not to be NULL
abbrev pub entry_time : TimerList → Option ℕ → Option ℕ
entry_time l none = none
entry_time l (some entry) = some (expire_time l entry)

unfoldable pub time_of : TimerSource → Option ℕ → Option (ℕ × TimerSource)
time_of s none = none
time_of s (some k) = some (k, s)

unfoldable pub time_found : ℕ → Option (Found × TimerSource) → Option (ℕ × TimerSource)
unfolding time_of
time_found idx none = none
time_found idx (some (not_found e, s)) = some (0, s)
time_found idx (some (found t, s)) =
    if is_active t.state
    then time_of s (entry_time s.timerlist (s.timerlist.handles idx))
    else some (0, s)

-- qb_loop_timer_expire_time_get
unfoldable pub expire_time_get : Memory → TimerSource → ℕ → Option (ℕ × TimerSource)
unfolding timer_from_handle time_found
expire_time_get m s th = time_found (th % 4294967296) (timer_from_handle m s th)

abbrev pub running : Option (ℕ × TimerSource) → Option (Bool × TimerSource)
running none = none
running (some (k, s)) = some (ltb 0 k, s)

-- qb_loop_timer_is_running
unfoldable pub is_running : Memory → TimerSource → ℕ → Option (Bool × TimerSource)
unfolding expire_time_get
is_running m s th = running (expire_time_get m s th)

abbrev pub is_empty_entry : PollEntryState → Bool
is_empty_entry empty = true
is_empty_entry s = false

unfoldable pub position_at :
    (TimerSource → Option (Ret × ℕ × TimerSource))
    → ℕ
    → Option (Found × TimerSource)
    → Option (Ret × ℕ × TimerSource)
position_at more pos none = none
position_at more pos (some (not_found e, s)) = none
position_at more pos (some (found t, s)) =
    let rest = more s in if is_empty_entry t.state then some (ok 0, pos, s) else rest

position_grown : TimerSource → Ret × Array LoopTimer → Option (Ret × ℕ × TimerSource)
position_grown s (err e, a) = some (err e, 0, record s { timers = a })
position_grown s (ok k, a) = some (
  ok 0,
  s.timer_entry_count,
  record s { timers = a; timer_entry_count = s.timer_entry_count + 1 },
)

-- The `for` of _get_empty_array_position_, with `left` timers to look at, and what follows it.
unfoldable pub empty_position :
    Memory → Option (Bins LoopTimer) → ℕ → ℕ → TimerSource → Option (Ret × ℕ × TimerSource)
unfolding position_at position_grown timer_index
empty_position m grow_realloc zero pos s =
    position_grown s (grow grow_realloc s.timers (s.timer_entry_count + 1))
empty_position m grow_realloc (suc left) pos s =
    position_at (empty_position m grow_realloc left (pos + 1)) pos (timer_index m s pos)

-- The clock, the memory for the heap, and the numbers of random, for qb_loop_timer_add.
pub record Outside : Type 0 where
  pub memory : Memory
  pub grow_realloc : Option (Bins LoopTimer)
  pub heap_memory : Bool
  pub heap_timer : Option ℕ
  pub now : ℕ
  pub random : ℕ → ℕ

unfoldable pub added_timer : ℕ → TimerSource → Ret × TimerList → Ret × ℕ × TimerSource
added_timer th s (r, l) = (r, th, record s { timerlist = l })

-- The timer at `idx` is filled in and put on the heap.
unfoldable pub fill_timer :
    Outside → ℕ → ℕ → ℕ → ℕ → ℕ → Option (Found × TimerSource) → Option (Ret × ℕ × TimerSource)
unfolding added_timer
fill_timer o p nsec_duration user_data fn idx none = none
fill_timer o p nsec_duration user_data fn idx (some (not_found e, s)) = none
fill_timer o p nsec_duration user_data fn idx (some (found t, s)) =
    let check = draw_check o.random 200 0 t.check in
    let filled = store s idx (record {
      user_data = user_data;
      dispatch_fn = fn;
      p = p;
      state = active;
      check = check;
      install_pos = idx;
    }) in
    add_duration o.heap_memory o.heap_timer o.now s.timerlist 0 idx nsec_duration idx >>= λ r.
    some (added_timer (check * 4294967296 + idx) filled r)

unfoldable pub at_position :
    Outside → ℕ → ℕ → ℕ → ℕ → Option (Ret × ℕ × TimerSource) → Option (Ret × ℕ × TimerSource)
unfolding fill_timer timer_index
at_position o p nsec_duration user_data fn none = none
at_position o p nsec_duration user_data fn (some (err e, pos, s)) = none
at_position o p nsec_duration user_data fn (some (ok k, pos, s)) =
    fill_timer o p nsec_duration user_data fn pos (timer_index o.memory s pos)

-- qb_loop_timer_add: the result, the handle, and the timer source
unfoldable pub timer_add : Outside → TimerSource → ℕ → ℕ → ℕ → ℕ → Option (Ret × ℕ × TimerSource)
unfolding empty_position at_position
timer_add o s p nsec_duration user_data timer_fn =
    if timer_fn == 0
    then some (err einval, 0, s)
    else at_position o p nsec_duration user_data timer_fn
        (empty_position o.memory o.grow_realloc s.timer_entry_count 0 s)
