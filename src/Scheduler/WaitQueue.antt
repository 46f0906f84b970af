-- ===== src/Scheduler/WaitQueue.antt =====
-- kernel/scheduler.c: wait queues and events.
use neuro_spark.Prelude.{
  ℕ, zero, suc, ◌+◌, ◌-◌, ◌%◌, Bool, true, false, ◌&&◌, Option, none, some, ltb, ◌==◌,
  if◌then◌else◌, update, add32,
}
use neuro_spark.Prelude.Int.{ℤ, pos, negsuc}
use neuro_spark.Task.{TaskState, is_blocked, max_tasks}
use neuro_spark.Scheduler.{Sched, set_task, make_ready, select_and_switch}

pub record WaitQueue : Type 0 where
  -- A cell holds a task's number, or -1.
  pub task_ids : ℕ → ℤ
  pub head : ℕ
  pub tail : ℕ
  pub count : ℕ

unfoldable pub wait_queue_init : WaitQueue
wait_queue_init = record { task_ids = λ _. negsuc 0; head = 0; tail = 0; count = 0 }

abbrev pub enqueue : WaitQueue → ℕ → WaitQueue
enqueue q id = record q {
  task_ids = update q.task_ids q.tail (pos id);
  tail = (q.tail + 1) % max_tasks;
  count = q.count + 1;
}

abbrev pub dequeue : WaitQueue → WaitQueue
dequeue q = record q {
  task_ids = update q.task_ids q.head (negsuc 0);
  head = (q.head + 1) % max_tasks;
  count = q.count - 1;
}

-- The locked stretch of `wait_queue_wait`: a full queue takes nobody, and nobody blocks.
unfoldable pub join_queue : WaitQueue → Sched → WaitQueue × Sched
join_queue q s =
    if ltb q.count max_tasks
    then (
      enqueue q s.current,
      set_task s s.current (record (s.tasks s.current) { state = TaskState.blocked }),
    )
    else (q, s)

unfoldable pub wait_queue_wait : WaitQueue → Sched → WaitQueue × Sched
unfolding join_queue
wait_queue_wait q s = let (q', s') = join_queue q s in (q', select_and_switch false s')

-- The locked stretch of `wait_queue_wait_timeout`.
unfoldable pub join_queue_until : ℕ → WaitQueue → Sched → WaitQueue × Sched
join_queue_until deadline q s =
    if ltb q.count max_tasks
    then (
      enqueue q s.current,
      set_task s s.current
          (record (s.tasks s.current) { state = TaskState.blocked; wake_tick = deadline }),
    )
    else (q, s)

-- The deadline that the resumed task compares with (`sleep_timeout_result`), if it waited.
unfoldable pub wait_queue_wait_timeout : ℕ → WaitQueue → Sched → Option ℕ × WaitQueue × Sched
unfolding join_queue_until
wait_queue_wait_timeout max_ticks q s =
    let deadline = add32 s.scheduler_ticks max_ticks in
    let (q', s') = join_queue_until deadline q s in
    if max_ticks == 0 then (none, q, s) else (some deadline, q', select_and_switch false s')

-- The task may be woken: it exists and is BLOCKED.
abbrev pub is_waiting : Sched → ℤ → Bool
is_waiting s (negsuc _) = false
is_waiting s (pos id) = ltb id s.task_count && is_blocked (s.tasks id).state

abbrev pub make_ready_ℤ : Sched → ℤ → Sched
make_ready_ℤ s (negsuc _) = s
make_ready_ℤ s (pos id) = make_ready s id

-- The loop of `wait_queue_wake_one`, with at most so many rounds.
unfoldable pub wake_loop : ℕ → WaitQueue → Sched → Bool × WaitQueue × Sched
wake_loop zero q s = (false, q, s)
wake_loop (suc n) q s =
    let id = q.task_ids q.head in
    let rest = wake_loop n (dequeue q) s in
    if q.count == 0
    then (false, q, s)
    else if is_waiting s id
    then (true, dequeue q, make_ready_ℤ s id)
    else rest

-- Each round takes an entry, so there are at most as many rounds as entries.
unfoldable pub wait_queue_wake_one : WaitQueue → Sched → Bool × WaitQueue × Sched
wait_queue_wake_one q s = wake_loop q.count q s

-- `while (wait_queue_wake_one(queue)) total++;`, with at most so many rounds.
unfoldable pub wake_all_loop : ℕ → ℕ → WaitQueue → Sched → ℕ × WaitQueue × Sched
wake_all_loop zero total q s = (total, q, s)
wake_all_loop (suc n) total q s =
    let (woken, q', s') = wait_queue_wake_one q s in
    let rest = wake_all_loop n (total + 1) q' s' in if woken then rest else (total, q', s')

unfoldable pub wait_queue_wake_all : WaitQueue → Sched → ℕ × WaitQueue × Sched
wait_queue_wake_all q s = wake_all_loop (q.count + 1) 0 q s

pub record SchedEvent : Type 0 where
  pub waiters : WaitQueue
  pub signaled : Bool

unfoldable pub event_init : SchedEvent
event_init = record { waiters = wait_queue_init; signaled = false }

unfoldable pub event_wait : SchedEvent → Sched → SchedEvent × Sched
event_wait e s =
    let (q, s') = wait_queue_wait e.waiters s in
    if e.signaled then (record e { signaled = false }, s) else (record e { waiters = q }, s')

unfoldable pub event_signal : SchedEvent → Sched → SchedEvent × Sched
event_signal e s =
    let (woken, q, s') = wait_queue_wake_one e.waiters s in
    if woken
    then (record e { waiters = q }, s')
    else (record e { waiters = q; signaled = true }, s')

unfoldable pub event_broadcast : SchedEvent → Sched → SchedEvent × Sched
event_broadcast e s =
    let (_, q, s') = wait_queue_wake_all e.waiters s in
    (record e { waiters = q; signaled = true }, s')

-- Whether the signal was taken at once, the deadline of a wait, and the states.
unfoldable pub event_wait_timeout : ℕ → SchedEvent → Sched → Bool × Option ℕ × SchedEvent × Sched
event_wait_timeout max_ticks e s =
    let (deadline, q, s') = wait_queue_wait_timeout max_ticks e.waiters s in
    if max_ticks == 0
    then (false, none, e, s)
    else if e.signaled
    then (true, none, record e { signaled = false }, s)
    else (false, deadline, record e { waiters = q }, s')
