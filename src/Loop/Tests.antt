-- ===== src/Loop/Tests.antt =====
-- Tests of the loop, with jobs that add jobs.
use libqb.Prelude.{
  ◌==◌, if◌then◌else◌, ok, ℕ, ◌≡◌, refl, ◌⊎◌, true, false, Option, none, some, List, [], ◌∷◌, arith,
  none_ne_some,
}
use libqb.Loop.{
  run, Sources, turn, Loop, Level, Item, job, Call, add_job, del_job, add_item, del_item, calls,
  run_level, create, call, level_item_add, level_item_del,
}
use libqb.Loop.Places.{Among}
use libqb.Loop.Liveness.{run-dispatches}
use libqb.Loop.Todo.{Counts, Placed, turn-Counts}
use libqb.Loop.Steady.{CallsAtHome}
use libqb.Loop.Order.{AllKeep, Served, run_level-Served}

-- The item of a job.
abbrev item_of : ℕ → Item
item_of address = record { address = address; type_of = job; user_data = address; dispatch_fn = 1 }

-- Two items to dispatch and one job that waits, at each level.
abbrev busy_level : Level
busy_level = record {
  to_process = 4;
  todo = 2;
  wait_head = item_of 3 ∷ [];
  job_head = item_of 1 ∷ item_of 2 ∷ [];
}

abbrev busy : Loop
busy = record { level = λ p. busy_level; stop_requested = false }

busy-Counts : Counts busy
busy-Counts p = refl

-- The entries with items at 5, 6 and 8 have priorities; all else is jobs.
abbrev home : ℕ → Option ℕ
home address =
    if address == 5
    then some 2
    else if address == 6
    then some 1
    else if address == 8
    then some 0
    else none

busy-Placed : Placed home busy
busy-Placed p =
    (((λ q e. absurd (none_ne_some e)), ((λ q e. absurd (none_ne_some e)), tt)), (refl, tt))

abbrev dispatch : Item → Loop → List Call
dispatch item l = add_job (some 9) 1 7 1 ∷ add_item 0 (item_of 8) ∷ []

dispatch-AllKeep : (item : Item) (l : Loop) → AllKeep (dispatch item l)
dispatch-AllKeep item l = (tt, (tt, tt))

dispatch-CallsAtHome : (item : Item) (l : Loop) → CallsAtHome home (dispatch item l)
dispatch-CallsAtHome item l = (refl, (refl, tt))

abbrev sources : Sources
sources = record {
  timer_poll = λ l. (add_item 2 (item_of 5) ∷ [], ok 1);
  msec_to_expire = λ l. 10;
  fd_poll = λ timeout l. add_item 1 (item_of 6) ∷ [];
}

-- Sources that also delete what they add.
abbrev deleting : Sources
deleting = record {
  timer_poll = λ l. (add_item 2 (item_of 5) ∷ del_job 0 3 1 ∷ [], ok 1);
  msec_to_expire = λ l. 10;
  fd_poll = λ timeout l. add_item 1 (item_of 6) ∷ del_item 2 (item_of 5) ∷ [];
}

turn-Counts_example :
    Counts (turn dispatch deleting 0 0 busy).0.2 × Placed home (turn dispatch deleting 0 0 busy).0.2
turn-Counts_example =
    turn-Counts home dispatch deleting 0 0 busy dispatch-CallsAtHome (λ m. (refl, (tt, tt)))
      (λ timeout m. (refl, (refl, tt))) busy-Counts busy-Placed

-- An entry's item is queued at level 2, and qb_loop_poll_mod then gives the entry priority 0: when
-- qb_loop_poll_del deletes the item, level 0 counts -1 items of its empty list, and level 2 counts
-- an item that it does not have.
abbrev mod_del : Loop
mod_del = calls (add_item 2 (item_of 5) ∷ del_item 0 (item_of 5) ∷ []) create

counted_wrong :
    ((mod_del.level 0).todo ≡ 4294967295)
    × ((mod_del.level 0).job_head ≡ [])
    × ((mod_del.level 2).todo ≡ 1)
    × ((mod_del.level 2).job_head ≡ [])
unfolding calls call level_item_add level_item_del create
counted_wrong = (refl, refl, refl, refl)

run_level-Served_example :
    Served 4 0 busy (run_level dispatch busy 0).0 (run_level dispatch busy 0).1
run_level-Served_example = run_level-Served dispatch dispatch-AllKeep 0 busy

sources-AllKeep : (l : Loop) → AllKeep (sources.timer_poll l).0
sources-AllKeep l = (tt, tt)

fds-AllKeep : (timeout : ℕ) (l : Loop) → AllKeep (sources.fd_poll timeout l)
fds-AllKeep timeout l = (tt, tt)

run-dispatches_example :
    ((run dispatch sources 6 busy).2.stop_requested ≡ true)
    ⊎ Among (item_of 2) (run dispatch sources 6 busy).0
run-dispatches_example =
    run-dispatches dispatch sources dispatch-AllKeep sources-AllKeep fds-AllKeep 6 1 0 (item_of 2)
      busy (omega arith) refl (omega arith)
