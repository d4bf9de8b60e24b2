-- ===== src/Loop/Todo.antt =====
-- `todo` of a level, which decides whether the loop may sleep, counts the items of its list.
use libqb.Prelude.{
  leb, if◌then◌else◌, Bool-cases, length, length-append, ℕ, zero, suc, ◌%◌, max, ◌≡◌, refl, ap,
  subst, inl, inr, Bool, true, false, Option, List, [], ◌∷◌, arith,
}
use libqb.Loop.{
  Sources, turn, next_p_stop, poll_timeout, count_of, Loop, Level, Item, Call, set_level, move_jobs,
  get_more_jobs, calls, dispatch_first, take_first, run_items, run_level, run_levels, create,
  int_add,
}
use libqb.Loop.Steady.{
  Each, AtHome, Homeless, LevelOk, Steady, CallsAtHome, plus_one, set_level-Steady, Each-append,
  one_more-Steady, count_off-Steady, Homeless-AtHome, calls-Steady,
}

-- At each level `todo` counts, as an `int32_t`, the items of the list.
abbrev pub Counts : Loop → Type 0
Counts l = (p : ℕ) → (l.level p).todo ≡ length (l.level p).job_head % 4294967296

-- The item of a source that has level `home` is on the list of that level, if on any.
abbrev pub Placed : (ℕ → Option ℕ) → Loop → Type 0
Placed home l =
    (p : ℕ) → Each (AtHome home p) (l.level p).job_head × Each (Homeless home) (l.level p).wait_head

abbrev none_more : ℕ → ℕ
none_more q = 0

module _ (home : ℕ → Option ℕ) where
  abbrev Right : Loop → Type 0
  Right l = Steady home none_more l

  Right-of : (l : Loop) → Counts l → Placed home l → Right l
  Right-of l c placed q = record {
    counts = omega (arith, c q);
    listed = (placed q).0;
    waiting = (placed q).1;
  }

  Right-Counts : (l : Loop) → Right l → Counts l × Placed home l
  Right-Counts l r = (λ q. omega (arith, (r q).counts), λ q. ((r q).listed, (r q).waiting))

  chosen :
      (t : Bool) (x y : List Item × Loop) → Right x.1 → Right y.1 → Right (if t then x else y).1
  chosen true x y c d = c
  chosen false x y c d = d

  move_jobs-LevelOk : (q : ℕ) (v : Level) → LevelOk home q 0 v → LevelOk home q 0 (move_jobs v)
  unfolding move_jobs
  move_jobs-LevelOk q v h = record {
    counts = omega (arith, h.counts, length-append v.job_head v.wait_head);
    listed =
        Each-append (AtHome home q) v.job_head v.wait_head h.listed
          (Homeless-AtHome home q v.wait_head h.waiting);
    waiting = tt;
  }

  moved-Right : (l : Loop) (p : ℕ) → Right l → Right (set_level l p (move_jobs (l.level p)))
  moved-Right l p r =
      set_level-Steady home none_more l p (move_jobs (l.level p)) r
        (move_jobs-LevelOk p (l.level p) (r p))

  get_more_jobs-Right : (l : Loop) → Right l → Right (get_more_jobs l).1
  unfolding get_more_jobs
  get_more_jobs-Right l r =
      let first : Loop = set_level l 0 (move_jobs (l.level 0)) in
      let second : Loop = set_level first 1 (move_jobs (first.level 1)) in
      moved-Right second 2 (moved-Right first 1 (moved-Right l 0 r))

  module _ (dispatch : Item → Loop → List Call)
      (functions : (item : Item) (l : Loop) → CallsAtHome home (dispatch item l)) where
    off-LevelOk :
        (p : ℕ) (v : Level) (item : Item) (rest : List Item)
        → v.job_head ≡ item ∷ rest
        → LevelOk home p 0 v
        → LevelOk home p 1 (record v { job_head = rest })
    off-LevelOk p v item rest e h =
        let all : Each (AtHome home p) (item ∷ rest) = subst (Each (AtHome home p)) e h.listed in
        record {
          counts = omega (arith, h.counts, ap length e);
          listed = all.1;
          waiting = h.waiting;
        }

    dispatch_first-Right :
        (l : Loop) (p : ℕ) (item : Item) (rest : List Item)
        → Right l
        → (l.level p).job_head ≡ item ∷ rest
        → Right (dispatch_first dispatch l p item rest)
    unfolding dispatch_first
    dispatch_first-Right l p item rest r e =
        let off : Loop = set_level l p (record (l.level p) { job_head = rest }) in
        count_off-Steady home none_more (calls (dispatch item off) off) p (
          calls-Steady home (plus_one home none_more p) (dispatch item off) off (functions item off)
            (one_more-Steady home none_more l p _ r (off-LevelOk p (l.level p) item rest e (r p))))

    take_first-Right :
        (more : Loop → List Item × Loop) (l : Loop) (p : ℕ) (items : List Item)
        → ((m : Loop) → Right m → Right (more m).1)
        → Right l
        → (l.level p).job_head ≡ items
        → Right (take_first dispatch more l p items).1
    unfolding take_first
    take_first-Right more l p [] kept c e = c
    take_first-Right more l p (item ∷ rest) kept c e =
        let after : Loop = dispatch_first dispatch l p item rest in
        let counted : Right after = dispatch_first-Right l p item rest c e in
        chosen after.stop_requested (item ∷ [], after) (item ∷ (more after).0, (more after).1)
          counted (kept after counted)

    run_items-Right :
        (left : ℕ) (l : Loop) (p : ℕ) → Right l → Right (run_items dispatch left l p).1
    unfolding run_items
    run_items-Right zero l p c = c
    run_items-Right (suc left) l p c =
        take_first-Right (λ m. run_items dispatch left m p) l p (l.level p).job_head
          (λ m k. run_items-Right left m p k) c refl

    run_level-Right : (l : Loop) (p : ℕ) → Right l → Right (run_level dispatch l p).1
    unfolding run_level
    run_level-Right l p c = run_items-Right (max (l.level p).to_process 1) l p c

    run_levels-Right :
        (p p_stop remaining : ℕ) (l : Loop)
        → Right l
        → Right (run_levels dispatch p p_stop remaining l).2
    unfolding run_levels
    run_levels-Right zero p_stop remaining l c = c
    run_levels-Right (suc p) p_stop remaining l c =
        let ran : List Item × Loop = run_level dispatch l p in
        let counted : Right ran.1 = run_level-Right l p c in
        elim (Bool-cases (leb p_stop p)) [
          | inr f ↦ rw f (run_levels-Right p p_stop (int_add remaining (l.level p).todo) l c)
          | inl t ↦ elim (Bool-cases (ran.1).stop_requested) [
            | inl s ↦ rw (t, s) counted
            | inr s ↦
                rw (t, s)
                  (run_levels-Right p p_stop (int_add remaining ((ran.1).level p).todo) ran.1
                    counted)
          ]
        ]

-- The loop that qb_loop_create makes has nothing to do at any level, and its counts are right.
create-Counts : Counts create
unfolding create
create-Counts p = refl

-- Suppose that each source's entry has one priority, `home`, and that whatever the sources and the
-- dispatched functions call adds and deletes the items of a source at that level, and places no
-- job in the memory of such an item; jobs are added and deleted at any level. Then from a loop in
-- which `todo` of each level is, as an `int32_t`, the number of items on its list, and in which
-- the items of sources are at their levels, a whole turn of qb_loop_run comes to such a loop
-- again: the counts by which the loop decides not to sleep neither forget an item nor keep one
-- that has gone.
pub turn-Counts :
    (home : ℕ → Option ℕ) (dispatch : Item → Loop → List Call) (sources : Sources)
    (p_stop remaining_todo : ℕ) (l : Loop)
    → ((item : Item) (m : Loop) → CallsAtHome home (dispatch item m))
    → ((m : Loop) → CallsAtHome home (sources.timer_poll m).0)
    → ((timeout : ℕ) (m : Loop) → CallsAtHome home (sources.fd_poll timeout m))
    → Counts l
    → Placed home l
    → Counts (turn dispatch sources p_stop remaining_todo l).0.2
      × Placed home (turn dispatch sources p_stop remaining_todo l).0.2
unfolding turn
turn-Counts home dispatch sources p_stop remaining_todo l functions timers fds c placed =
    let jobs : ℕ × Loop = get_more_jobs l in
    let timed : Loop = calls (sources.timer_poll jobs.1).0 jobs.1 in
    let timed_right =
      calls-Steady home none_more (sources.timer_poll jobs.1).0 jobs.1 (timers jobs.1)
        (get_more_jobs-Right home l (Right-of home l c placed)) in
    let timeout : ℕ =
      poll_timeout remaining_todo (count_of (sources.timer_poll jobs.1).1) jobs.0
        (sources.msec_to_expire timed) in
    let polled : Loop = calls (sources.fd_poll timeout timed) timed in
    Right-Counts home (run_levels dispatch 3 (next_p_stop p_stop) 0 polled).2 (
      run_levels-Right home dispatch functions 3 (next_p_stop p_stop) 0 polled (
        calls-Steady home none_more (sources.fd_poll timeout timed) timed (fds timeout timed)
          timed_right))
