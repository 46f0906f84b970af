-- ===== src/Scheduler/Reach.antt =====
-- kernel/scheduler.c: any sequence of operations and ticks, in any order.
use neuro_spark.Prelude.{ℕ, ◌<◌}
use neuro_spark.Prelude.Int.{ℤ}
use neuro_spark.Scheduler.{Sched, schedule}
use neuro_spark.Scheduler.Consistent.{IsConsistent}
use neuro_spark.Scheduler.Clock.{task_sleep, task_sleep_timeout, timer_tick}
use neuro_spark.Scheduler.Exit.{task_exit_with_code, task_kill}
use neuro_spark.Scheduler.WaitQueue.{
  WaitQueue, wait_queue_wait, wait_queue_wait_timeout, wait_queue_wake_one,
}
use neuro_spark.Scheduler.Operations.{
  schedule-IsConsistent, task_sleep-IsConsistent, task_sleep_timeout-IsConsistent,
  task_exit_with_code-IsConsistent, task_kill-IsConsistent, wait_queue_wait-IsConsistent,
  wait_queue_wait_timeout-IsConsistent, wait_queue_wake_one-IsConsistent,
}
use neuro_spark.Scheduler.Tick.{timer_tick-IsConsistent}

-- A step of the running task or of the timer. The queues belong to the callers, so a step may
-- use any queue; one that is waited on has room.
pub data Step (s : Sched) : Sched → Type 0 where
  yields : Step s (schedule s)
  ticks : Step s (timer_tick s)
  sleeps : (t : ℕ) → Step s (task_sleep t s)
  sleeps_until : (t m : ℕ) → Step s (task_sleep_timeout t m s).1
  exits : (code : ℤ) → Step s (task_exit_with_code code s)
  kills : (id code : ℤ) → Step s (task_kill id code s).1
  waits : (q : WaitQueue) → q.count < 8 → Step s (wait_queue_wait q s).1
  waits_until : (m : ℕ) (q : WaitQueue) → q.count < 8 → Step s (wait_queue_wait_timeout m q s).2
  wakes : (q : WaitQueue) → Step s (wait_queue_wake_one q s).2

pub data Reach (s : Sched) : Sched → Type 0 where
  here : Reach s s
  next : {t u : Sched} → Reach s t → Step t u → Reach s u

Step-IsConsistent : {s t : Sched} → Step s t → IsConsistent s → IsConsistent t
Step-IsConsistent {s} yields v = schedule-IsConsistent s v
Step-IsConsistent {s} ticks v = timer_tick-IsConsistent s v
Step-IsConsistent {s} (sleeps t) v = task_sleep-IsConsistent t s v
Step-IsConsistent {s} (sleeps_until t m) v = task_sleep_timeout-IsConsistent t m s v
Step-IsConsistent {s} (exits code) v = task_exit_with_code-IsConsistent code s v
Step-IsConsistent {s} (kills id code) v = task_kill-IsConsistent id code s v
Step-IsConsistent {s} (waits q h) v = wait_queue_wait-IsConsistent q s h v
Step-IsConsistent {s} (waits_until m q h) v = wait_queue_wait_timeout-IsConsistent m q s h v
Step-IsConsistent {s} (wakes q) v = wait_queue_wake_one-IsConsistent q s v

-- From a consistent state, whatever tasks and timer do, in any order, at most the current task is
-- RUNNING and the current task stands in the table, as long as nobody waits on a full wait queue.
pub Reach-IsConsistent : {s t : Sched} → Reach s t → IsConsistent s → IsConsistent t
Reach-IsConsistent here v = v
Reach-IsConsistent (next r st) v = Step-IsConsistent st (Reach-IsConsistent r v)
