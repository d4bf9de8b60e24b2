-- ===== src/LoopTimers/Stale.antt =====
-- What a timer's handle is good for once its function is called.
use libqb.Prelude.{
  if◌then◌else◌, einval, err, ℕ, ◌/◌, ◌%◌, ◌≤◌, ◌<◌, ◌≡◌, refl, ap, ◌∙◌, ◌≢◌, some, arith,
  ℕ_discrete, ne→beq, eq→beq,
}
use libqb.Array.{element}
use libqb.Array.Index.{IsWellFormed, index-loaded}
use libqb.Array.Store.{element-stored, stored-IsWellFormed}
use libqb.LoopTimers.{
  TimerSource, LoopTimer, joblist, Memory, found, not_found, zeroed, indexed, read_timer,
  timer_index, with_check, timer_from_handle, before_dispatch, timer_del, del_found,
  expire_time_get, time_found, store,
}

-- A timer that is there is looked up as it is.
pub timer_index-loaded :
    (m : Memory) (s : TimerSource) (idx : ℕ) (t : LoopTimer)
    → IsWellFormed s.timers
    → idx < s.timers.max_elements
    → element s.timers idx ≡ some t
    → timer_index m s idx ≡ some (found t, s)
unfolding timer_index
timer_index-loaded m s idx t w below at =
    ap (indexed s)
      (index-loaded zeroed s.timers idx w below t at m.realloc_in_grow m.realloc m.calloc)
    ∙ ap (read_timer s) at

-- A handle with another check than its timer's is refused.
from_handle-stale :
    (m : Memory) (s : TimerSource) (idx th : ℕ) (t : LoopTimer)
    → IsWellFormed s.timers
    → idx < s.timers.max_elements
    → element s.timers idx ≡ some t
    → th % 4294967296 ≡ idx
    → t.check ≢ th / 4294967296
    → timer_from_handle m s th ≡ some (not_found einval, s)
unfolding timer_from_handle with_check
from_handle-stale m s idx th t w below at here other_check = elim (ℕ_discrete th 0) [
  | yes z ↦ rw (eq→beq th 0 z) refl
  | no nz ↦ rw (ne→beq th 0 nz) (
      ap (λ i. with_check (th / 4294967296) (timer_index m s i)) here
      ∙ ap (with_check (th / 4294967296)) (timer_index-loaded m s idx t w below at)
      ∙ rw (ne→beq t.check (th / 4294967296) other_check) refl)
]

-- By the time that the function of an expired timer is called, the handle of that timer, whose check
-- is not 0, is stale: qb_loop_timer_del refuses it with -EINVAL, qb_loop_timer_expire_time_get gives
-- 0, and neither changes anything.
pub before_dispatch-stale :
    (m : Memory) (s : TimerSource) (idx th : ℕ) (t : LoopTimer)
    → IsWellFormed s.timers
    → idx < s.timers.max_elements
    → element s.timers idx ≡ some t
    → t.state ≡ joblist
    → th % 4294967296 ≡ idx
    → 4294967296 ≤ th
    → (s' : TimerSource) × (before_dispatch idx s t ≡ some s')
      × (timer_del m s' th ≡ some (err einval, s'))
      × (expire_time_get m s' th ≡ some (0, s'))
unfolding before_dispatch timer_del del_found expire_time_get time_found
before_dispatch-stale m s idx th t w below at queued here checked_ =
    let dispatched : LoopTimer = record t { check = 0 } in
    let s' : TimerSource = store s idx dispatched in
    let refused : timer_from_handle m s' th ≡ some (not_found einval, s') =
      from_handle-stale m s' idx th dispatched
        (stored-IsWellFormed s.timers w idx below t at dispatched) below
        (element-stored s.timers w idx below t at dispatched idx
          ∙ ap (λ b. if b then some dispatched else element s.timers idx) (eq→beq idx idx refl))
        here (λ e. absurd (omega (arith, e, checked_))) in
    (
      s',
      rw queued refl,
      ap (del_found (th % 4294967296)) refused,
      ap (time_found (th % 4294967296)) refused,
    )
