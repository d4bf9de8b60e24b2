-- ===== src/Loop.antt =====
-- lib/loop.c and lib/loop_job.c: the main loop with its three priorities, and its one-shot jobs.
-- What a client's function does when it is dispatched is a sequence of calls of this interface.
-- An item is on one list at most; the lists stand here as the items in their order. An `int32_t`
-- is kept as its 32 bits.
pub mod Steady
pub mod Todo
pub mod Order
pub mod Places
pub mod Liveness
mod Tests
use libqb.Prelude.{
  ltb, leb, ◌==◌, if◌then◌else◌, length, update, einval, enoent, enomem, Ret, ok, err, ℕ, zero, suc,
  ◌+◌, ◌-◌, ◌%◌, max, Bool, true, false, ◌&&◌, ◌||◌, Option, none, some, List, [], ◌∷◌, ◌++◌,
}

-- `enum qb_loop_type` of an item; its name for a descriptor is fd.
pub data ItemType : Type 0 where
  job fd timer signal : ItemType

-- `struct qb_loop_item` at `address`, and the function of the job that holds it.
pub record Item : Type 0 where
  pub address : ℕ
  pub type_of : ItemType
  pub user_data : ℕ
  pub dispatch_fn : ℕ

-- `struct qb_loop_level`
pub record Level : Type 0 where
  pub to_process : ℕ
  pub todo : ℕ
  pub wait_head : List Item
  pub job_head : List Item

-- `struct qb_loop`; its levels are QB_LOOP_LOW, QB_LOOP_MED and QB_LOOP_HIGH.
pub record Loop : Type 0 where
  pub level : ℕ → Level
  pub stop_requested : Bool

abbrev pub qb_loop_low : ℕ
qb_loop_low = 0

abbrev pub qb_loop_high : ℕ
qb_loop_high = 2

abbrev pub is_job : ItemType → Bool
is_job job = true
is_job t = false

-- Whether an entry is the job that qb_loop_job_del looks for.
abbrev pub matches : ℕ → ℕ → Item → Bool
matches user_data dispatch_fn item =
    is_job item.type_of && (item.dispatch_fn == dispatch_fn && item.user_data == user_data)

-- The list without the first item that passes the test, if one does.
abbrev pub remove_first : (Item → Bool) → List Item → Option (List Item)
remove_first test [] = none
remove_first test (item ∷ rest) =
    if test item
    then some rest
    else elim (remove_first test rest) [ none ↦ none | some left ↦ some (item ∷ left) ]

abbrev pub set_level : Loop → ℕ → Level → Loop
set_level l p v = record l { level = update l.level p v }

abbrev pub int_add : ℕ → ℕ → ℕ
int_add a b = (a + b) % 4294967296

-- `todo--`
abbrev pub count_off : Level → Level
count_off v = record v { todo = int_add v.todo 4294967295 }

-- qb_loop_level_item_add
unfoldable pub level_item_add : Level → Item → Level
level_item_add v item = record v { job_head = v.job_head ++ (item ∷ []); todo = int_add v.todo 1 }

-- Whether an entry is the item at an address.
abbrev pub is_at : ℕ → Item → Bool
is_at address item = item.address == address

-- A level without an item, from what the searches of its two lists gave.
unlinked : Level → Option (List Item) → Option (List Item) → Option Level
unlinked v (some left) waiting = some (record v { job_head = left })
unlinked v none (some left) = some (record v { wait_head = left })
unlinked v none none = none

-- The level without the item at an address, if that is on one of its lists.
unlink_item : ℕ → Level → Option Level
unfolding unlinked
unlink_item address v =
    unlinked v (remove_first (is_at address) v.job_head) (remove_first (is_at address) v.wait_head)

unlink_or : Loop → ℕ → Option Loop → Option Level → Option Loop
unlink_or l p rest none = rest
unlink_or l p rest (some v) = some (set_level l p v)

-- qb_list_del of the item at an address, which is on a list of one of the levels below `n`, or on
-- none.
unlink_below : ℕ → ℕ → Loop → Option Loop
unfolding unlink_item unlink_or
unlink_below zero address l = none
unlink_below (suc n) address l =
    unlink_or l n (unlink_below n address l) (unlink_item address (l.level n))

count_off_if : Loop → ℕ → Option Loop → Loop
count_off_if l p none = l
count_off_if l p (some m) = set_level m p (count_off (m.level p))

-- qb_loop_level_item_del with level `p`: the item is taken off whatever list it is on, and counted
-- off at level `p`.
unfoldable pub level_item_del : Loop → ℕ → Item → Loop
unfolding unlink_below count_off_if
level_item_del l p item = count_off_if l p (unlink_below 3 item.address l)

-- The level that qb_loop_create sets up.
abbrev pub new_level : Level
new_level = record { to_process = 4; todo = 0; wait_head = []; job_head = [] }

unfoldable pub create : Loop
create = record { level = λ p. new_level; stop_requested = false }

-- The end of qb_loop_job_add, with what malloc returns.
queue_job : Option ℕ → Loop → ℕ → ℕ → ℕ → Ret × Loop
queue_job none l p user_data dispatch_fn = (err enomem, l)
queue_job (some address) l p user_data dispatch_fn = (
  ok 0,
  set_level l p (record (l.level p) {
    wait_head =
        (l.level p).wait_head
        ++ (record {
          address = address;
          type_of = job;
          user_data = user_data;
          dispatch_fn = dispatch_fn;
        }
            ∷ []);
  }),
)

-- qb_loop_job_add. Function 0 is NULL.
unfoldable pub job_add : Option ℕ → Loop → ℕ → ℕ → ℕ → Ret × Loop
unfolding queue_job
job_add fresh l p user_data dispatch_fn =
    if dispatch_fn == 0
    then (err einval, l)
    else if ltb qb_loop_high p
    then (err einval, l)
    else queue_job fresh l p user_data dispatch_fn

-- The second search of qb_loop_job_del, in the list of those to be dispatched.
del_from_job_head : Loop → ℕ → Option (List Item) → Ret × Loop
del_from_job_head l p none = (err enoent, l)
del_from_job_head l p (some left) =
    (ok 0, set_level l p (count_off (record (l.level p) { job_head = left })))

-- The first search, in the list of those that wait.
del_from_wait_head : Loop → ℕ → (Item → Bool) → Option (List Item) → Ret × Loop
unfolding del_from_job_head
del_from_wait_head l p test (some left) =
    (ok 0, set_level l p (record (l.level p) { wait_head = left }))
del_from_wait_head l p test none = del_from_job_head l p (remove_first test (l.level p).job_head)

-- qb_loop_job_del
unfoldable pub job_del : Loop → ℕ → ℕ → ℕ → Ret × Loop
unfolding del_from_wait_head
job_del l p user_data dispatch_fn =
    let test = matches user_data dispatch_fn in
    if dispatch_fn == 0
    then (err einval, l)
    else if ltb qb_loop_high p
    then (err einval, l)
    else del_from_wait_head l p test (remove_first test (l.level p).wait_head)

-- One turn of the `for` of get_more_jobs.
unfoldable pub move_jobs : Level → Level
move_jobs v = record v {
  job_head = v.job_head ++ v.wait_head;
  wait_head = [];
  todo = int_add v.todo (length v.wait_head);
}

-- get_more_jobs
unfoldable pub get_more_jobs : Loop → ℕ × Loop
unfolding move_jobs
get_more_jobs l =
    let moved : Loop → ℕ → Loop = λ m p. set_level m p (move_jobs (m.level p)) in
    (
      length (l.level 0).wait_head + length (l.level 1).wait_head + length (l.level 2).wait_head,
      moved (moved (moved l 0) 1) 2,
    )

-- What a dispatched function, or a source that is polled, calls.
pub data Call : Type 0 where
  add_job : Option ℕ → ℕ → ℕ → ℕ → Call
  del_job : ℕ → ℕ → ℕ → Call
  add_item del_item : ℕ → Item → Call
  stop : Call

unfoldable pub call : Call → Loop → Loop
unfolding job_add job_del level_item_add level_item_del
call (add_job fresh p user_data fn) l = (job_add fresh l p user_data fn).1
call (del_job p user_data fn) l = (job_del l p user_data fn).1
call (add_item p item) l = set_level l p (level_item_add (l.level p) item)
call (del_item p item) l = level_item_del l p item
call stop l = record l { stop_requested = true }

unfoldable pub calls : List Call → Loop → Loop
unfolding call
calls [] l = l
calls (c ∷ cs) l = calls cs (call c l)

module _ (dispatch : Item → Loop → List Call) where
  -- The item at the head of the list is taken off, dispatched, and counted off.
  unfoldable pub dispatch_first : Loop → ℕ → Item → List Item → Loop
  unfolding calls
  dispatch_first l p item rest =
      let off = set_level l p (record (l.level p) { job_head = rest }) in
      let back = calls (dispatch item off) off in set_level back p (count_off (back.level p))

  -- The body of qb_loop_run_level, which goes on as `more` unless a stop was requested.
  unfoldable pub take_first : (Loop → List Item × Loop) → Loop → ℕ → List Item → List Item × Loop
  unfolding dispatch_first
  take_first more l p [] = ([], l)
  take_first more l p (item ∷ rest) =
      let after = dispatch_first l p item rest in
      let next = more after in
      if after.stop_requested then (item ∷ [], after) else (item ∷ next.0, next.1)

  -- Its `goto` loop, with `left` items that it may still take: the items that were dispatched, in
  -- that order, and the loop afterwards.
  unfoldable pub run_items : ℕ → Loop → ℕ → List Item × Loop
  unfolding take_first
  run_items zero l p = ([], l)
  run_items (suc left) l p = take_first (λ m. run_items left m p) l p (l.level p).job_head

  -- qb_loop_run_level: one item is taken whatever to_process says.
  unfoldable pub run_level : Loop → ℕ → List Item × Loop
  unfolding run_items
  run_level l p = run_items (max (l.level p).to_process 1) l p

  -- The `for` of qb_loop_run over the priorities from `p` - 1 down: what was dispatched, and
  -- remaining_todo, `none` after a stop.
  unfoldable pub run_levels : ℕ → ℕ → ℕ → Loop → List Item × Option ℕ × Loop
  unfolding run_level
  run_levels zero p_stop remaining l = ([], some remaining, l)
  run_levels (suc p) p_stop remaining l =
      let ran = run_level l p in
      let rest = run_levels p p_stop (int_add remaining ((ran.1).level p).todo) ran.1 in
      let skipped = run_levels p p_stop (int_add remaining (l.level p).todo) l in
      if leb p_stop p
      then (if (ran.1).stop_requested
          then (ran.0, none, ran.1)
          else (ran.0 ++ rest.0, rest.1, rest.2))
      else skipped

-- p_stop of qb_loop_run, from one turn to the next
abbrev pub next_p_stop : ℕ → ℕ
next_p_stop p_stop = if p_stop == 0 then qb_loop_high else p_stop - 1

-- The timeout that qb_loop_run polls the descriptors with.
unfoldable pub poll_timeout : ℕ → ℕ → ℕ → ℕ → ℕ
poll_timeout remaining_todo timer_todo job_todo msec_to_expire =
    if (ltb 0 remaining_todo && ltb remaining_todo 2147483648) || ltb 0 timer_todo
    then 0
    else if ltb 0 job_todo
    then 50
    else msec_to_expire

-- What is polled besides the jobs: the timers, which return how many expired, and the descriptors,
-- which are given a timeout. `msec_to_expire` is qb_loop_timer_msec_duration_to_expire, and all of
-- these are sources whose other state is their own.
pub record Sources : Type 0 where
  pub timer_poll : Loop → List Call × Ret
  pub msec_to_expire : Loop → ℕ
  pub fd_poll : ℕ → Loop → List Call

abbrev pub count_of : Ret → ℕ
count_of (ok k) = k
count_of (err e) = 0

-- One turn of the `do` of qb_loop_run, from the p_stop and the remaining_todo that the turn before
-- left: what was dispatched, the new remaining_todo, `none` after a stop, and the new p_stop.
unfoldable pub turn :
    (Item → Loop → List Call) → Sources → ℕ → ℕ → Loop → (List Item × Option ℕ × Loop) × ℕ
unfolding get_more_jobs calls poll_timeout run_levels
turn dispatch sources p_stop remaining_todo l =
    let jobs = get_more_jobs l in
    let timers = sources.timer_poll jobs.1 in
    let timed = calls timers.0 jobs.1 in
    let ms_timeout =
      poll_timeout remaining_todo (count_of timers.1) jobs.0 (sources.msec_to_expire timed) in
    let polled = calls (sources.fd_poll ms_timeout timed) timed in
    (run_levels dispatch 3 (next_p_stop p_stop) 0 polled, next_p_stop p_stop)

-- The `while` of qb_loop_run after a turn, which goes on as `more` unless a stop was requested.
unfoldable pub run_rest :
    (ℕ → Loop → List Item × Option ℕ × Loop)
    → List Item
    → Option ℕ
    → Loop
    → List Item × Option ℕ × Loop
run_rest more called none l = (called, none, l)
run_rest more called (some remaining) l =
    let rest = more remaining l in
    if l.stop_requested then (called, none, l) else (called ++ rest.0, rest.1, rest.2)

-- Its `do` loop for `n` turns: what was dispatched, the last remaining_todo, `none` after a stop,
-- and the loop.
unfoldable pub run_turns :
    (Item → Loop → List Call) → Sources → ℕ → ℕ → ℕ → Loop → List Item × Option ℕ × Loop
unfolding turn run_rest
run_turns dispatch sources zero p_stop remaining_todo l = ([], some remaining_todo, l)
run_turns dispatch sources (suc n) p_stop remaining_todo l =
    let t = turn dispatch sources p_stop remaining_todo l in
    run_rest (run_turns dispatch sources n t.1) t.0.0 t.0.1 t.0.2

-- The first `n` turns of qb_loop_run.
unfoldable pub run : (Item → Loop → List Call) → Sources → ℕ → Loop → List Item × Option ℕ × Loop
unfolding run_turns
run dispatch sources n l =
    run_turns dispatch sources n qb_loop_low 0 (record l { stop_requested = false })
