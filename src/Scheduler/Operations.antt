-- ===== src/Scheduler/Operations.antt =====
-- kernel/scheduler.c: every operation keeps the task table consistent.
use neuro_spark.Prelude.{
  ℕ, zero, suc, ◌<◌, ◌≡◌, refl, ◌∙◌, inl, inr, true, false, arith, ltb, ◌==◌, update, Bool-cases,
  lt→ltb,
}
use neuro_spark.Prelude.Int.{ℤ, pos, negsuc}
use neuro_spark.Task.{TaskTable, TaskState, is_running, is_terminated}
use neuro_spark.Task.Tracing.{SameTask-task_trace_event}
use neuro_spark.Scheduler.{Sched, select_and_switch, schedule, make_ready}
use neuro_spark.Scheduler.Wake.{SameTable}
use neuro_spark.Scheduler.Consistent.{IsConsistent, select_and_switch-IsConsistent}
use neuro_spark.Scheduler.Clock.{fall_asleep, task_sleep, task_sleep_timeout}
use neuro_spark.Scheduler.Exit.{
  wake_parent, clean_up, mark_exited, trace_exit, task_exit_with_code, kill_other, task_kill,
}
use neuro_spark.Scheduler.WaitQueue.{
  WaitQueue, join_queue, join_queue_until, wait_queue_wait, wait_queue_wait_timeout, wake_loop,
  wait_queue_wake_one, is_waiting, make_ready_ℤ, dequeue,
}

-- No task starts to run, and the table keeps its size and its current task.
pub record NoNewRunner (s s' : Sched) : Type 0 where
  pub task_count : s'.task_count ≡ s.task_count
  pub current : s'.current ≡ s.current
  pub keeps : (i : ℕ) → is_running (s'.tasks i).state ≡ true → is_running (s.tasks i).state ≡ true

pub NoNewRunner-IsConsistent : {s s' : Sched} → NoNewRunner s s' → IsConsistent s → IsConsistent s'
NoNewRunner-IsConsistent {s} {s'} n v = record {
  in_table = rw (n.current, n.task_count) v.in_table;
  small = rw n.task_count v.small;
  one_running = λ i a r. rw n.current (v.one_running i (rw n.task_count at a) (n.keeps i r));
}

pub NoNewRunner-trans :
    {s s' s'' : Sched} → NoNewRunner s s' → NoNewRunner s' s'' → NoNewRunner s s''
NoNewRunner-trans n m = record {
  task_count = m.task_count ∙ n.task_count;
  current = m.current ∙ n.current;
  keeps = λ i r. n.keeps i (m.keeps i r);
}

pub NoNewRunner-refl : (s : Sched) → NoNewRunner s s
NoNewRunner-refl s = record { task_count = refl; current = refl; keeps = λ i r. r }

-- With the current task not RUNNING any more, the switch that follows is safe.
switch_away :
    {s s' : Sched}
    → NoNewRunner s s'
    → is_running (s'.tasks s'.current).state ≡ false
    → IsConsistent s
    → IsConsistent (select_and_switch false s')
switch_away {s} {s'} n h v =
    (select_and_switch-IsConsistent false s' (NoNewRunner-IsConsistent n v) (inr h)).0

pub schedule-IsConsistent : (s : Sched) → IsConsistent s → IsConsistent (schedule s)
unfolding schedule
schedule-IsConsistent s v = (select_and_switch-IsConsistent true s v (inl refl)).0

asleep : Sched → ℕ → TaskTable
asleep s wake =
    update s.tasks s.current
      (record (s.tasks s.current) { state = TaskState.sleeping; wake_tick = wake })

fall_asleep-NoNewRunner :
    (t w : ℕ) (s : Sched)
    → NoNewRunner s (fall_asleep t w s)
      × (is_running ((fall_asleep t w s).tasks s.current).state ≡ false)
unfolding fall_asleep asleep
fall_asleep-NoNewRunner t w s = (
  record {
    task_count = refl;
    current = refl;
    keeps = λ i r. ground (arith, SameTask-task_trace_event (asleep s w) s.current 4 t i);
  },
  ground (arith, SameTask-task_trace_event (asleep s w) s.current 4 t s.current),
)

pub task_sleep-IsConsistent : (t : ℕ) (s : Sched) → IsConsistent s → IsConsistent (task_sleep t s)
unfolding task_sleep
task_sleep-IsConsistent t s v = elim (Bool-cases (t == 0)) [
  | inl e ↦ rw e (schedule-IsConsistent s v)
  | inr e ↦ rw e (let (n, h) = fall_asleep-NoNewRunner t _ s in switch_away n h v)
]

pub task_sleep_timeout-IsConsistent :
    (t m : ℕ) (s : Sched) → IsConsistent s → IsConsistent (task_sleep_timeout t m s).1
unfolding task_sleep_timeout
task_sleep_timeout-IsConsistent t m s v = elim (Bool-cases (t == 0)) [
  | inl e ↦ rw e (schedule-IsConsistent s v)
  | inr e ↦ elim (Bool-cases (m == 0)) [
    | inl z ↦ rw (e, z) v
    | inr z ↦ rw (e, z) (let (n, h) = fall_asleep-NoNewRunner t _ s in switch_away n h v)
  ]
]

wake_parent-NoNewRunner : (p : ℤ) (id : ℕ) (s : Sched) → NoNewRunner s (wake_parent p id s)
unfolding wake_parent
wake_parent-NoNewRunner (negsuc n) id s = NoNewRunner-refl s
wake_parent-NoNewRunner (pos p) id s = record {
  task_count = ground arith;
  current = ground arith;
  keeps = λ i r. ground arith;
}

clean_up-NoNewRunner : (id pd : ℕ) (s : Sched) → NoNewRunner s (clean_up id pd s)
unfolding clean_up
clean_up-NoNewRunner id pd s = record {
  task_count = ground arith;
  current = ground arith;
  keeps = λ i r. ground arith;
}

trace_exit-NoNewRunner : (s : Sched) → NoNewRunner s (trace_exit s)
unfolding trace_exit
trace_exit-NoNewRunner s = record {
  task_count = ground arith;
  current = ground arith;
  keeps = λ i r. ground (arith, SameTask-task_trace_event s.tasks s.current 6 0 i);
}

mark_exited-NoNewRunner :
    (code : ℤ) (id : ℕ) (s : Sched)
    → NoNewRunner s (record s { tasks = update s.tasks id (mark_exited code (s.tasks id)) })
mark_exited-NoNewRunner code id s = record {
  task_count = refl;
  current = refl;
  keeps = λ i r. ground arith;
}

trace_exit-table : (s : Sched) → SameTable s (trace_exit s)
unfolding trace_exit
trace_exit-table s = ground arith

wake_parent-state :
    (p : ℤ) (id i : ℕ) (s : Sched)
    → is_running (s.tasks i).state ≡ false
    → is_running ((wake_parent p id s).tasks i).state ≡ false
unfolding wake_parent
wake_parent-state (negsuc n) id i s h = h
wake_parent-state (pos p) id i s h = ground arith

clean_up-state : (id pd i : ℕ) (s : Sched) → ((clean_up id pd s).tasks i).state ≡ (s.tasks i).state
unfolding clean_up
clean_up-state id pd i s = ground arith

pub task_exit_with_code-IsConsistent :
    (code : ℤ) (s : Sched) → IsConsistent s → IsConsistent (task_exit_with_code code s)
unfolding task_exit_with_code
task_exit_with_code-IsConsistent code s v =
    let cur = s.current in
    let b = s.tasks cur in
    let s1 = trace_exit s in
    let s2 : Sched = record s1 { tasks = update s1.tasks cur (mark_exited code (s1.tasks cur)) } in
    let s3 = wake_parent b.parent_pid cur s2 in
    let n = NoNewRunner-trans (trace_exit-NoNewRunner s) (
      NoNewRunner-trans (mark_exited-NoNewRunner code cur s1) (
        NoNewRunner-trans (wake_parent-NoNewRunner b.parent_pid cur s2)
          (clean_up-NoNewRunner cur b.page_dir s3))) in
    let gone : is_running (s2.tasks cur).state ≡ false = ground arith in
    switch_away n
      (rw (n.current, clean_up-state cur b.page_dir cur s3)
        (wake_parent-state b.parent_pid cur cur s2 gone))
      v

kill_other-NoNewRunner : (id : ℕ) (code : ℤ) (s : Sched) → NoNewRunner s (kill_other id code s).1
unfolding kill_other
kill_other-NoNewRunner id code s =
    let b = s.tasks id in
    let s1 : Sched = record s { tasks = update s.tasks id (mark_exited code b) } in
    let n = NoNewRunner-trans (mark_exited-NoNewRunner code id s) (
      NoNewRunner-trans (wake_parent-NoNewRunner b.parent_pid id s1)
        (clean_up-NoNewRunner id b.page_dir (wake_parent b.parent_pid id s1))) in
    elim (Bool-cases (is_terminated b.state)) [ inl e ↦ rw e (NoNewRunner-refl s) | inr e ↦ rw e n ]

pub task_kill-IsConsistent :
    (id code : ℤ) (s : Sched) → IsConsistent s → IsConsistent (task_kill id code s).1
unfolding task_kill
task_kill-IsConsistent (negsuc n) code s v = v
task_kill-IsConsistent (pos id) code s v = elim (Bool-cases (ltb id s.task_count)) [
  | inr e ↦ rw e v
  | inl e ↦ elim (Bool-cases (id == s.current)) [
    | inl c ↦ rw (e, c) (task_exit_with_code-IsConsistent code s v)
    | inr c ↦ rw (e, c) (NoNewRunner-IsConsistent (kill_other-NoNewRunner id code s) v)
  ]
]

make_ready-NoNewRunner : (s : Sched) (id : ℕ) → NoNewRunner s (make_ready s id)
make_ready-NoNewRunner s id = record {
  task_count = refl;
  current = refl;
  keeps = λ i r. ground arith;
}

make_ready_ℤ-NoNewRunner : (s : Sched) (id : ℤ) → NoNewRunner s (make_ready_ℤ s id)
make_ready_ℤ-NoNewRunner s (negsuc n) = NoNewRunner-refl s
make_ready_ℤ-NoNewRunner s (pos id) = make_ready-NoNewRunner s id

wake_loop-NoNewRunner : (n : ℕ) (q : WaitQueue) (s : Sched) → NoNewRunner s (wake_loop n q s).2
unfolding wake_loop
wake_loop-NoNewRunner zero q s = NoNewRunner-refl s
wake_loop-NoNewRunner (suc n) q s = elim (Bool-cases (q.count == 0)) [
  | inl e ↦ rw e (NoNewRunner-refl s)
  | inr e ↦ elim (Bool-cases (is_waiting s (q.task_ids q.head))) [
    | inl w ↦ rw (e, w) (make_ready_ℤ-NoNewRunner s (q.task_ids q.head))
    | inr w ↦ rw (e, w) (wake_loop-NoNewRunner n (dequeue q) s)
  ]
]

pub wait_queue_wake_one-IsConsistent :
    (q : WaitQueue) (s : Sched) → IsConsistent s → IsConsistent (wait_queue_wake_one q s).2
unfolding wait_queue_wake_one
wait_queue_wake_one-IsConsistent q s v =
    NoNewRunner-IsConsistent (wake_loop-NoNewRunner q.count q s) v

-- A task that joins a queue with room blocks.
pub wait_queue_wait-IsConsistent :
    (q : WaitQueue) (s : Sched)
    → q.count < 8
    → IsConsistent s
    → IsConsistent (wait_queue_wait q s).1
unfolding wait_queue_wait join_queue
wait_queue_wait-IsConsistent q s h v = rw (lt→ltb q.count 8 h) (
    switch_away (record { task_count = refl; current = refl; keeps = λ i r. ground arith })
      (ground arith) v)

pub wait_queue_wait_timeout-IsConsistent :
    (m : ℕ) (q : WaitQueue) (s : Sched)
    → q.count < 8
    → IsConsistent s
    → IsConsistent (wait_queue_wait_timeout m q s).2
unfolding wait_queue_wait_timeout join_queue_until
wait_queue_wait_timeout-IsConsistent m q s h v = elim (Bool-cases (m == 0)) [
  | inl e ↦ rw e v
  | inr e ↦
      rw (e, lt→ltb q.count 8 h)
        (switch_away (record { task_count = refl; current = refl; keeps = λ i r. ground arith })
          (ground arith) v)
]
