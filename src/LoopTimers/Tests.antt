-- ===== src/LoopTimers/Tests.antt =====
-- Tests of the timer source, with one timer in its array.
use libqb.Prelude.{
  ◌==◌, if◌then◌else◌, einval, enomem, err, ℕ, ◌+◌, ◌≤◌, ◌<◌, ◌≡◌, refl, ◌↔◌, true, false, none,
  some, [], arith,
}
use libqb.Array.{element}
use libqb.Array.Index.{IsWellFormed}
use libqb.Handles.Creation.{draw_check}
use libqb.LoopTimers.{
  TimerSource, LoopTimer, PollEntryState, empty, joblist, active, Memory, Outside, before_dispatch,
  timer_add, timer_del, expire_time_get,
}
use libqb.LoopTimers.Stale.{before_dispatch-stale}
use libqb.Timers.{msec_duration_to_expire}
use libqb.LoopTimers.Sleep.{msec_duration, msec_duration-negative}
use libqb.LoopTimers.Failure.{filled_in, timer_add-leaks}

abbrev timer_in : PollEntryState → LoopTimer
timer_in state = record {
  user_data = 4;
  dispatch_fn = 1;
  p = 1;
  state = state;
  check = 7;
  install_pos = 0;
}

abbrev source : PollEntryState → TimerSource
source state = record {
  loop = record {
    level = λ p. record { to_process = 4; todo = 0; wait_head = []; job_head = [] };
    stop_requested = false;
  };
  timerlist = record {
    heap_entries = λ i. 0;
    allocated = 0;
    size = 0;
    timers = λ i. record {
      expire_time = 0;
      is_absolute_timer = false;
      timer_fn = 0;
      user_data = 0;
      handle_addr = 0;
      heap_pos = 0;
    };
    handles = λ i. none;
  };
  timers = record {
    bin = some (λ b. if b == 0 then some (λ i. timer_in state) else none);
    max_elements = 16;
    num_bins = 2;
    autogrow_elements = 16;
    new_bin_cb = false;
  };
  timer_entry_count = 1;
}

source-IsWellFormed : (state : PollEntryState) → IsWellFormed (source state).timers
source-IsWellFormed state = record {
  bins = λ b. if b == 0 then some (λ i. timer_in state) else none;
  has_bins = refl;
  bounded = omega arith;
  enough = omega arith;
  absent = λ b h. ground arith;
}

abbrev memory : Memory
memory = record { realloc_in_grow = none; realloc = none; calloc = false }

abbrev outside : Outside
outside = record {
  memory = memory;
  grow_realloc = none;
  heap_memory = true;
  heap_timer = none;
  now = 0;
  random = λ i. i + 3;
}

before_dispatch-stale_example :
    (s' : TimerSource) × (before_dispatch 0 (source joblist) (timer_in joblist) ≡ some s')
    × (timer_del memory s' 30064771072 ≡ some (err einval, s'))
    × (expire_time_get memory s' 30064771072 ≡ some (0, s'))
before_dispatch-stale_example =
    before_dispatch-stale memory (source joblist) 0 30064771072 (timer_in joblist)
      (source-IsWellFormed joblist) (omega arith) refl refl refl (omega arith)

draws : 0 < draw_check outside.random 200 0 7
unfolding draw_check
draws = omega arith

timer_add-leaks_example :
    (th : ℕ) × (s' : TimerSource) × (timer_add outside (source empty) 1 100 4 1
      ≡ some (err enomem, th, s'))
    × (element s'.timers 0 ≡ some (filled_in outside (timer_in empty) 1 4 1))
    × (expire_time_get memory s' th ≡ none)
timer_add-leaks_example =
    timer_add-leaks outside memory (source empty) 0 (timer_in empty) 1 100 4 1
      (source-IsWellFormed empty) (omega arith) refl refl refl (λ e. absurd (omega (arith, e))) refl
      draws refl

-- A timer that expires in 3 * 10^9 milliseconds
abbrev far : TimerSource
far = record (source active) {
  timerlist = record (source active).timerlist {
    size = 1;
    timers = λ i. record {
      expire_time = 3000000000000000;
      is_absolute_timer = false;
      timer_fn = 0;
      user_data = 0;
      handle_addr = 0;
      heap_pos = 0;
    };
  };
}

far_left : msec_duration_to_expire 1000 0 0 far.timerlist ≡ some 3000000001
unfolding msec_duration_to_expire
far_left = refl

msec_duration-negative_example :
    (r : ℕ) × (msec_duration 1000 0 0 far ≡ some r) × ((2147483648 ≤ r) ↔ (2147483648 ≤ 3000000001))
msec_duration-negative_example =
    msec_duration-negative 1000 0 0 far 3000000001 far_left (omega arith)
