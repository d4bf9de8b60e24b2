-- ===== src/Loop/Liveness.antt =====
-- Every level is run within three turns, and so what is on its list is dispatched.
use libqb.Prelude.{
  ◌==◌, if◌then◌else◌, get_elem?, Ret, ℕ, zero, suc, ◌+◌, ◌*◌, ◌≤◌, ◌<◌, ◌≡◌, refl, sym, ◌∙◌, ◌⊎◌,
  inl, inr, Bool, true, false, Option, none, some, List, ◌++◌, arith,
}
use libqb.Loop.{
  Loop, Item, Call, Sources, get_more_jobs, calls, next_p_stop, poll_timeout, count_of, turn,
  run_rest, run_turns, run,
}
use libqb.Loop.Order.{AllKeep, calls-Longer, get_more_jobs-moves}
use libqb.Loop.Places.{
  Among, LevelsMoved, kept_place, levels-LevelsMoved, run_levels-stops, Among-append_left,
  Among-append_right,
}

-- How many turns it is until p_stop is QB_LOOP_LOW.
abbrev to_low : ℕ → ℕ
to_low p_stop = if p_stop == 0 then 3 else p_stop

no_turns : (k p_stop : ℕ) → 3 * k + to_low p_stop ≤ 0 → ⊥
no_turns k p_stop h = ground arith

next_low : (p_stop : ℕ) → p_stop ≤ 2 → next_p_stop p_stop ≤ 2
next_low p_stop h = ground arith

fewer :
    (n k j p_stop : ℕ)
    → p_stop ≤ 2
    → 3 * k + to_low p_stop ≤ suc n
    → j ≤ k
    → ((next_p_stop p_stop ≤ 0) → j < k)
    → 3 * j + to_low (next_p_stop p_stop) ≤ n
fewer n k j zero low h near nearer = omega arith
fewer n k j (suc zero) low h near nearer = omega (arith, nearer (omega arith))
fewer n k j (suc (suc zero)) low h near nearer = omega arith
fewer n k j (suc (suc (suc q))) low h near nearer = absurd (omega arith)

module _ (dispatch : Item → Loop → List Call)
    (keep : (i : Item) (l : Loop) → AllKeep (dispatch i l)) (sources : Sources)
    (timers_keep : (l : Loop) → AllKeep (sources.timer_poll l).0)
    (fds_keep : (timeout : ℕ) (l : Loop) → AllKeep (sources.fd_poll timeout l)) (p : ℕ)
    (level_ : p ≤ 2) (item : Item) where
  turn-Moved :
      (k p_stop remaining : ℕ) (l : Loop)
      → get_elem? (l.level p).job_head k ≡ some item
      → (let t = turn dispatch sources p_stop remaining l in
          LevelsMoved dispatch keep p k item (next_p_stop p_stop) 3 t.0)
  unfolding turn
  turn-Moved k p_stop remaining l at =
      let jobs : ℕ × Loop = get_more_jobs l in
      let timers : List Call × Ret = sources.timer_poll jobs.1 in
      let timed : Loop = calls timers.0 jobs.1 in
      let timeout : ℕ =
        poll_timeout remaining (count_of timers.1) jobs.0 (sources.msec_to_expire timed) in
      let polled : Loop = calls (sources.fd_poll timeout timed) timed in
      levels-LevelsMoved dispatch keep p item (next_p_stop p_stop) 3 0 k polled (
        kept_place p k item timed polled
          (calls-Longer (sources.fd_poll timeout timed) timed p (fds_keep timeout timed))
          (kept_place p k item jobs.1 timed (calls-Longer timers.0 jobs.1 p (timers_keep jobs.1)) (
            kept_place p k item l jobs.1
              ((l.level p).wait_head, ((get_more_jobs-moves l).0 p level_).0) at)))

  -- The item is dispatched, or a stop was requested.
  abbrev Done : List Item × Option ℕ × Loop → Type 0
  Done r = (r.2.stop_requested ≡ true) ⊎ Among item r.0

  turn-stops :
      (p_stop remaining : ℕ) (l : Loop)
      → (turn dispatch sources p_stop remaining l).0.1 ≡ none
      → (turn dispatch sources p_stop remaining l).0.2.stop_requested ≡ true
  unfolding turn
  turn-stops p_stop remaining l =
      let jobs : ℕ × Loop = get_more_jobs l in
      let timers : List Call × Ret = sources.timer_poll jobs.1 in
      let timed : Loop = calls timers.0 jobs.1 in
      let timeout : ℕ =
        poll_timeout remaining (count_of timers.1) jobs.0 (sources.msec_to_expire timed) in
      run_levels-stops dispatch keep 3 (next_p_stop p_stop) 0
        (calls (sources.fd_poll timeout timed) timed)

  chosen-Done :
      (b : Bool) (called : List Item) (l : Loop) (r : List Item × Option ℕ × Loop)
      → l.stop_requested ≡ b
      → (l.stop_requested ≡ true) ⊎ (Among item called ⊎ Done r)
      → Done (if b then (called, none, l) else (called ++ r.0, r.1, r.2))
  chosen-Done true called l r e m = inl e
  chosen-Done false called l r e (inl s) = let no : true ≡ false = sym s ∙ e in cc
  chosen-Done false called l r e (inr (inl a)) = inr (Among-append_left item called r.0 a)
  chosen-Done false called l r e (inr (inr (inl s))) = inl s
  chosen-Done false called l r e (inr (inr (inr a))) = inr (Among-append_right item called r.0 a)

  rest-Done :
      (more : ℕ → Loop → List Item × Option ℕ × Loop) (called : List Item) (o : Option ℕ) (l : Loop)
      → ((o ≡ none) → l.stop_requested ≡ true)
      → (l.stop_requested ≡ true)
        ⊎ (Among item called ⊎ ((remaining : ℕ) → Done (more remaining l)))
      → Done (run_rest more called o l)
  unfolding run_rest
  rest-Done more called none l stops m = inl (stops refl)
  rest-Done more called (some remaining) l stops (inl s) =
      chosen-Done l.stop_requested called l (more remaining l) refl (inl s)
  rest-Done more called (some remaining) l stops (inr (inl a)) =
      chosen-Done l.stop_requested called l (more remaining l) refl (inr (inl a))
  rest-Done more called (some remaining) l stops (inr (inr d)) =
      chosen-Done l.stop_requested called l (more remaining l) refl (inr (inr (d remaining)))

  -- Enough turns for an item at place `k` when `p_stop` is that of the turn before.
  turns-Done :
      (n k p_stop remaining : ℕ) (l : Loop)
      → p_stop ≤ 2
      → get_elem? (l.level p).job_head k ≡ some item
      → 3 * k + to_low p_stop ≤ n
      → Done (run_turns dispatch sources n p_stop remaining l)
  unfolding run_turns turn
  turns-Done zero k p_stop remaining l low at enough = absurd (no_turns k p_stop enough)
  turns-Done (suc n) k p_stop remaining l low at enough =
      let t = turn dispatch sources p_stop remaining l in
      rest-Done (run_turns dispatch sources n t.1) t.0.0 t.0.1 t.0.2 (turn-stops p_stop remaining l)
        (elim (turn-Moved k p_stop remaining l at) [
          | inl s ↦ inl s
          | inr (inl a) ↦ inr (inl a)
          | inr (inr (j, there, near, nearer)) ↦ inr (
              inr (λ left. turns-Done n j t.1 left t.0.2 (next_low p_stop low) there (
                fewer n k j p_stop low enough near
                  (λ s. nearer (omega (arith, level_), omega (arith, s))))))
        ])

-- When neither the dispatched functions nor the sources take items off the lists, an item with `k`
-- before it on the list of its level is dispatched within the first 3 (k + 1) turns of qb_loop_run,
-- unless a stop is requested before: no level starves, however busy the levels above it are.
pub run-dispatches :
    (dispatch : Item → Loop → List Call) (sources : Sources)
    → ((i : Item) (l : Loop) → AllKeep (dispatch i l))
    → ((l : Loop) → AllKeep (sources.timer_poll l).0)
    → ((timeout : ℕ) (l : Loop) → AllKeep (sources.fd_poll timeout l))
    → (n k p : ℕ) (item : Item) (l : Loop) → p ≤ 2
    → get_elem? (l.level p).job_head k ≡ some item
    → 3 * (k + 1) ≤ n
    → ((run dispatch sources n l).2.stop_requested ≡ true) ⊎ Among item (run dispatch sources n l).0
unfolding run
run-dispatches dispatch sources keep timers fds n k p item l level_ at enough =
    turns-Done dispatch keep sources timers fds p level_ item n k 0 0
      (record l { stop_requested = false }) (omega arith) at (omega arith)
