-- ===== src/LoopTimers/Failure.antt =====
-- What qb_loop_timer_add leaves behind when it fails.
use libqb.Prelude.{
  if◌then◌else◌, einval, enomem, ok, err, ℕ, suc, ◌+◌, ◌*◌, ◌/◌, ◌%◌, ◌<◌, ◌≡◌, refl, sym, ap, ◌∙◌,
  ◌≢◌, none, some, arith, ne→beq, eq→beq,
}
use libqb.Array.{element}
use libqb.Array.Index.{IsWellFormed}
use libqb.Array.Store.{element-stored, stored-IsWellFormed}
use libqb.Timers.{add_duration}
use libqb.Handles.Creation.{draw_check}
use libqb.LoopTimers.{
  TimerSource, LoopTimer, empty, active, Memory, Outside, found, not_found, timer_index, with_check,
  timer_from_handle, position_at, empty_position, fill_timer, at_position, added_timer, timer_add,
  expire_time_get, time_found, time_of, entry_time, store,
}
use libqb.LoopTimers.Stale.{timer_index-loaded}

-- The timer that qb_loop_timer_add fills in at the first place.
abbrev pub filled_in : Outside → LoopTimer → ℕ → ℕ → ℕ → LoopTimer
filled_in o t p user_data timer_fn = record {
  user_data = user_data;
  dispatch_fn = timer_fn;
  p = p;
  state = active;
  check = draw_check o.random 200 0 t.check;
  install_pos = 0;
}

module _ (s : TimerSource) (left : ℕ) (t : LoopTimer) (w : IsWellFormed s.timers)
    (below : 0 < s.timers.max_elements) (counted : s.timer_entry_count ≡ suc left)
    (at : element s.timers 0 ≡ some t) (free : t.state ≡ empty) (o : Outside)
    (p nsec user_data timer_fn : ℕ) where
  first_place : empty_position o.memory o.grow_realloc s.timer_entry_count 0 s ≡ some (ok 0, 0, s)
  unfolding empty_position position_at
  first_place =
      ap (λ n. empty_position o.memory o.grow_realloc n 0 s) counted
      ∙ ap (position_at (empty_position o.memory o.grow_realloc left 1) 0)
          (timer_index-loaded o.memory s 0 t w below at)
      ∙ rw free refl

  abbrev after : TimerSource
  after = store s 0 (filled_in o t p user_data timer_fn)

  abbrev handle : ℕ
  handle = draw_check o.random 200 0 t.check * 4294967296 + 0

  add-enomem :
      timer_fn ≢ 0
      → o.heap_timer ≡ none
      → timer_add o s p nsec user_data timer_fn ≡ some (err enomem, handle, after)
  unfolding timer_add at_position fill_timer added_timer add_duration
  add-enomem nz no_memory = rw (ne→beq timer_fn 0 nz) (
      ap (at_position o p nsec user_data timer_fn) first_place
      ∙ ap (fill_timer o p nsec user_data timer_fn 0) (timer_index-loaded o.memory s 0 t w below at)
      ∙ rw no_memory refl)

  after-at : element after.timers 0 ≡ some (filled_in o t p user_data timer_fn)
  after-at = element-stored s.timers w 0 below t at (filled_in o t p user_data timer_fn) 0

  read_after :
      (m : Memory)
      → 0 < draw_check o.random 200 0 t.check
      → s.timerlist.handles 0 ≡ none
      → expire_time_get m after handle ≡ none
  unfolding expire_time_get timer_from_handle with_check time_found time_of
  read_after m positive no_entry =
      let base : handle % 4294967296 ≡ 0 = omega arith in
      let upper : handle / 4294967296 ≡ draw_check o.random 200 0 t.check = omega arith in
      rw (ne→beq handle 0 (λ e. absurd (omega (arith, e, positive)))) (
        ap
          (λ i.
            time_found (handle % 4294967296)
              (with_check (handle / 4294967296) (timer_index m after i)))
          base
        ∙ ap (λ r. time_found (handle % 4294967296) (with_check (handle / 4294967296) r))
            (timer_index-loaded m after 0 (filled_in o t p user_data timer_fn)
              (stored-IsWellFormed s.timers w 0 below t at (filled_in o t p user_data timer_fn))
              below after-at)
        ∙ ap
            (λ b. time_found (handle % 4294967296) (
              if b
              then some (found (filled_in o t p user_data timer_fn), after)
              else some (not_found einval, after)))
            (eq→beq (draw_check o.random 200 0 t.check) (handle / 4294967296) (sym upper))
        ∙ ap (λ i. time_found i (some (found (filled_in o t p user_data timer_fn), after))) base
        ∙ ap (λ h. time_of after (entry_time s.timerlist h)) no_entry)

-- When the first entry of the array is empty and there is no memory for the heap's timer,
-- qb_loop_timer_add returns -ENOMEM, but has given out a handle and left the entry active. If the
-- handle's check is not 0 and the entry has no timer on the heap, qb_loop_timer_expire_time_get of
-- that handle then follows a NULL pointer.
pub timer_add-leaks :
    (o : Outside) (m : Memory) (s : TimerSource) (left : ℕ) (t : LoopTimer)
    (p nsec user_data timer_fn : ℕ)
    → IsWellFormed s.timers
    → 0 < s.timers.max_elements
    → s.timer_entry_count ≡ suc left
    → element s.timers 0 ≡ some t
    → t.state ≡ empty
    → timer_fn ≢ 0
    → o.heap_timer ≡ none
    → 0 < draw_check o.random 200 0 t.check
    → s.timerlist.handles 0 ≡ none
    → (th : ℕ) × (s' : TimerSource) × (timer_add o s p nsec user_data timer_fn
        ≡ some (err enomem, th, s'))
      × (element s'.timers 0 ≡ some (filled_in o t p user_data timer_fn))
      × (expire_time_get m s' th ≡ none)
timer_add-leaks o m s left t p nsec user_data timer_fn w below counted at free nz no_memory positive
      no_entry =
    (
      _,
      _,
      add-enomem s left t w below counted at free o p nsec user_data timer_fn nz no_memory,
      after-at s left t w below counted at free o p nsec user_data timer_fn,
      read_after s left t w below counted at free o p nsec user_data timer_fn m positive no_entry,
    )
