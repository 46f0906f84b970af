-- ===== src/Task/Tracing.antt =====
-- kernel/task.c: tracing an event touches nothing but the trace.
use neuro_spark.Prelude.{ℕ, ◌≡◌, arith}
use neuro_spark.Task.{TaskTable, task_trace_event, Tcb}

-- What the trace of an event leaves of every task.
pub record SameTask (b b' : Tcb) : Type 0 where
  pub state : b'.state ≡ b.state
  pub wake_tick : b'.wake_tick ≡ b.wake_tick
  pub boost : b'.sched_wake_boost ≡ b.sched_wake_boost
  pub waits : b'.sched_wait_ticks ≡ b.sched_wait_ticks
  pub priority : b'.priority ≡ b.priority
  pub slice : b'.time_slice ≡ b.time_slice

pub SameTask-task_trace_event :
    (t : TaskTable) (id e a j : ℕ) → SameTask (t j) (task_trace_event t id e a j)
unfolding task_trace_event
SameTask-task_trace_event t id e a j = ground arith
