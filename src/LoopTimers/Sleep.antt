-- ===== src/LoopTimers/Sleep.antt =====
-- How long the loop may sleep, how long a timer has left, and how a timer source is made and freed.
use libqb.Prelude.{
  ltb, ◌==◌, if◌then◌else◌, Bool-cases, ℕ, ◌-◌, ◌%◌, ◌≤◌, ◌≡◌, refl, ◌↔◌, inl, inr, not, ◌&&◌,
  Option, none, some, List, arith, ◌>>=◌, bind-some,
}
use libqb.Array.{Bins, create_2, free}
use libqb.Loop.{Loop}
use libqb.Timers.{TimerList, init, destroy, clock_of, msec_duration_to_expire}
use libqb.LoopTimers.{
  TimerSource, LoopTimer, Memory, Found, found, not_found, is_active, entry_time, timer_from_handle,
}

-- The `if` of qb_loop_timer_msec_duration_to_expire, and the `int32_t` that it returns, as its 32
-- bits
abbrev pub bounded_left : ℕ → ℕ
bounded_left left =
    if not (left == 18446744073709551615) && ltb 4294967295 left then 4294967294 else left

-- qb_loop_timer_msec_duration_to_expire, given the timer slack and both clocks
unfoldable pub msec_duration : ℕ → ℕ → ℕ → TimerSource → Option ℕ
msec_duration hertz monotonic from_epoch s =
    msec_duration_to_expire hertz monotonic from_epoch s.timerlist >>= λ left.
    some (bounded_left left % 4294967296)

-- The time that is left until `expires`, or 0 when it is over
abbrev pub time_left : ℕ → ℕ → ℕ
time_left current_ns expires = if ltb expires current_ns then 0 else expires - current_ns

unfoldable pub remaining_of : ℕ → ℕ → TimerSource → Option ℕ → Option (ℕ × TimerSource)
remaining_of monotonic from_epoch s entry = do
  k ← entry
  expires ← entry_time s.timerlist entry
  some (time_left (clock_of monotonic from_epoch s.timerlist k) expires, s)

unfoldable pub remaining_found : ℕ → ℕ → ℕ → Option (Found × TimerSource) → Option (ℕ × TimerSource)
unfolding remaining_of
remaining_found monotonic from_epoch idx none = none
remaining_found monotonic from_epoch idx (some (not_found e, s)) = some (0, s)
remaining_found monotonic from_epoch idx (some (found t, s)) =
    if is_active t.state
    then remaining_of monotonic from_epoch s (s.timerlist.handles idx)
    else some (0, s)

-- qb_loop_timer_expire_time_remaining, given both clocks
unfoldable pub expire_time_remaining : Memory → ℕ → ℕ → TimerSource → ℕ → Option (ℕ × TimerSource)
unfolding timer_from_handle remaining_found
expire_time_remaining m monotonic from_epoch s th =
    remaining_found monotonic from_epoch (th % 4294967296) (timer_from_handle m s th)

-- qb_loop_timer_create, when there is memory; `size` is that of `struct qb_loop_timer`.
unfoldable pub source_create : Option (Bins LoopTimer) → ℕ → Loop → TimerList → Option TimerSource
unfolding create_2 init
source_create calloc size l timerlist = create_2 calloc 16 size 16 >>= λ timers.
    some (record { loop = l; timerlist = init timerlist; timers = timers; timer_entry_count = 0 })

-- qb_loop_timer_destroy: the entries of the heap and the parts of the array that it frees
unfoldable pub source_destroy : TimerSource → Option (List ℕ × List ℕ)
unfolding destroy free
source_destroy s = free s.timers >>= λ bins. some (destroy s.timerlist, bins)

negative-far :
    (left : ℕ)
    → left ≤ 18446744073709551615
    → 2147483648 ≤ bounded_left left % 4294967296
    → 2147483648 ≤ left
negative-far left b h = ground arith

far-negative :
    (left : ℕ)
    → left ≤ 18446744073709551615
    → 2147483648 ≤ left
    → 2147483648 ≤ bounded_left left % 4294967296
far-negative left b h = elim (Bool-cases (left == 18446744073709551615)) [
  | inl t ↦ ground (arith, t)
  | inr t ↦ elim (Bool-cases (ltb 4294967295 left)) [
    | inl u ↦ rw (t, u) (omega arith)
    | inr u ↦ rw (t, u) (let v : left ≤ 4294967295 = ground (arith, u) in omega (arith, v, h))
  ]
]

-- When timerlist_msec_duration_to_expire gives a number, a `uint64_t`, the `int32_t` that
-- qb_loop_timer_msec_duration_to_expire returns is negative exactly when the number is 2^31 or more.
pub msec_duration-negative :
    (hertz monotonic from_epoch : ℕ) (s : TimerSource) (left : ℕ)
    → msec_duration_to_expire hertz monotonic from_epoch s.timerlist ≡ some left
    → left ≤ 18446744073709551615
    → (r : ℕ) × (msec_duration hertz monotonic from_epoch s ≡ some r)
      × ((2147483648 ≤ r) ↔ (2147483648 ≤ left))
unfolding msec_duration
msec_duration-negative hertz monotonic from_epoch s left e b = (
  bounded_left left % 4294967296,
  bind-some _ e refl,
  (λ h. negative-far left b h, λ h. far-negative left b h),
)
