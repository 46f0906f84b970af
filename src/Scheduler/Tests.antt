-- ===== src/Scheduler/Tests.antt =====
-- kernel/scheduler.c: three tasks at work.
use neuro_spark.Prelude.{ℕ, ◌<◌, ◌≡◌, ◌⊎◌, refl, ◌≢◌, true, false, arith, ◌==◌, if◌then◌else◌, []}
use neuro_spark.Prelude.Int.{pos, negsuc}
use neuro_spark.Task.{TaskState, WorkloadClass, wait_none, is_running, Tcb, TaskTable, Trace}
use neuro_spark.Scheduler.{
  wake_boost_max, Sched, is_due, is_runnable, pick_next, wake_sleepers, select_and_switch, schedule,
}
use neuro_spark.Scheduler.Clock.{task_sleep, timer_tick}
use neuro_spark.Scheduler.Consistent.{IsConsistent}
use neuro_spark.Scheduler.Pick.{IsBestPick, pick_next_best, pick_next_starves}
use neuro_spark.Scheduler.Wake.{HasOverslept, wake_sleepers_lem}
use neuro_spark.Scheduler.Reach.{Step, Reach, Reach-IsConsistent}
use neuro_spark.Scheduler.Faults.{switch_revives, wait_full_strands}
use neuro_spark.Scheduler.WaitQueue.{WaitQueue, wait_queue_wait}
use neuro_spark.Scheduler.Ipc.{Ipc, ipc_send, ipc_recv, empty_channel}
use neuro_spark.Scheduler.Fifo.{
  IsValid, inbox, queue_send, queue_recv, boot-IsValid, ipc_send_refines, ipc_recv_refines,
}

abbrev no_trace : Trace
no_trace = record {
  enabled = false;
  last_event = 0;
  last_arg = 0;
  last_syscall = 0;
  last_arg0 = 0;
  last_arg1 = 0;
  last_arg2 = 0;
  last_result = 0;
  event_count = 0;
}

-- A task of this state, base priority and wake tick.
abbrev tcb : TaskState → ℕ → ℕ → Tcb
tcb state priority wake_tick = record {
  esp = 0;
  ebp = 0;
  eip = 0;
  page_dir = 0;
  state = state;
  wake_tick = wake_tick;
  time_slice = 1;
  runtime_ticks = 0;
  context_switches = 0;
  priority = priority;
  workload_class = WorkloadClass.sim;
  trace = no_trace;
  fault_code = 0;
  fault_addr = 0;
  fault_eip = 0;
  user_entry = 0;
  user_stack = 0;
  user_retval = 0;
  signal_pending = 0;
  signal_mask = 0;
  signal_handler = λ _. 0;
  parent_pid = negsuc 0;
  exit_status = pos 0;
  exited = false;
  waited = false;
  wait_target = negsuc 0;
  fd_table = λ _. negsuc 0;
  wait_reason = wait_none;
  task_id = 0;
  sched_wait_ticks = 0;
  sched_wake_boost = 0;
  sched_last_run_tick = 0;
}

abbrev three : Tcb → Tcb → Tcb → TaskTable
three a b c i = if i == 0 then a else if i == 1 then b else c

abbrev at_tick_10 : TaskTable → Sched
at_tick_10 t = record {
  tasks = t;
  task_count = 3;
  current = 0;
  scheduler_ticks = 10;
  metrics = record {
    ticks = 10;
    io_wake_boosts = 0;
    starvation_mitigations = 0;
    inversion_hints = 0;
    band_runtime = λ _. 0;
    band_switches = λ _. 0;
    max_wait_ticks = λ _. 0;
  };
  kernel_page_directory = 0;
  cleanups = [];
}

-- Task 0 runs, task 1 is READY, task 2 is due.
abbrev busy : Sched
busy =
    at_tick_10
      (three (tcb TaskState.running 1 0) (tcb TaskState.ready 7 0) (tcb TaskState.sleeping 3 5))

abbrev stuck : Sched
stuck =
    at_tick_10 (
      three (tcb TaskState.blocked 2 0) (tcb TaskState.terminated 7 0)
        (tcb TaskState.sleeping 3 50))

busy-IsConsistent : IsConsistent busy
busy-IsConsistent = record {
  in_table = omega arith;
  small = omega arith;
  one_running = λ i a r. ground arith;
}

pick_next_best_example : IsBestPick busy 0 (pick_next busy 0).0
pick_next_best_example = pick_next_best busy 0 1 (omega arith) (omega arith) refl

pick_next_starves_example : (pick_next busy 0).0 ≢ 0
pick_next_starves_example =
    pick_next_starves busy 0 1 0 (omega arith) (omega arith) (omega arith) refl (omega arith)
      (omega arith)

wake_sleepers_lem_example :
    let b = busy.tasks 2 in
    let b' = (wake_sleepers busy).tasks 2 in
    (HasOverslept busy 2
      × (b'.state ≡ TaskState.ready)
      × (b'.wake_tick ≡ 0)
      × (b'.sched_wake_boost ≡ wake_boost_max))
    ⊎ ((¬ HasOverslept busy 2)
        × (b'.state ≡ b.state)
        × (b'.wake_tick ≡ b.wake_tick)
        × (b'.sched_wake_boost ≡ b.sched_wake_boost))
wake_sleepers_lem_example = wake_sleepers_lem busy 2

Reach-IsConsistent_example : IsConsistent (timer_tick (task_sleep 4 (schedule busy)))
Reach-IsConsistent_example =
    Reach-IsConsistent
      (Reach.next (Reach.next (Reach.next Reach.here Step.yields) (Step.sleeps 4)) Step.ticks)
      busy-IsConsistent

stuck-none : (i : ℕ) → i < 3 → is_runnable (stuck.tasks i).state ≡ false
stuck-none i a = ground arith

stuck-not_due : (i : ℕ) → i < 3 → is_due stuck i ≡ false
stuck-not_due i a = ground arith

switch_revives_example :
    ((select_and_switch false stuck).current ≡ 0)
    × (((select_and_switch false stuck).tasks 0).state ≡ TaskState.running)
switch_revives_example = switch_revives stuck (omega arith) stuck-none stuck-not_due

abbrev full_queue : WaitQueue
full_queue = record { task_ids = λ _. pos 2; head = 0; tail = 0; count = 8 }

wait_full_strands_example :
    let (q', s') = wait_queue_wait full_queue busy in
    (q' ≡ full_queue)
    × (s'.current ≢ 0)
    × (is_running (s'.tasks 0).state ≡ true)
    × (is_running (s'.tasks s'.current).state ≡ true)
    × ¬ IsConsistent s'
wait_full_strands_example =
    wait_full_strands full_queue busy 1 (omega arith) (omega arith) refl (omega arith) refl

abbrev no_waiters : WaitQueue
no_waiters = record { task_ids = λ _. negsuc 0; head = 0; tail = 0; count = 0 }

abbrev boot : Ipc
boot = record {
  channels = λ _. empty_channel;
  send_waiters = λ _. no_waiters;
  recv_waiters = λ _. no_waiters;
  initialized = false;
  sched = busy;
}

ipc_send_refines_example :
    let (sent, k') = ipc_send (pos 2) (pos 7) boot in
    ((sent, inbox k' 2) ≡ queue_send (inbox boot 2) (pos 7))
    × ((d : ℕ) → 2 ≢ d → inbox k' d ≡ inbox boot d)
    × IsValid k'
ipc_send_refines_example = ipc_send_refines 2 (pos 7) boot (omega arith) (boot-IsValid boot refl)

abbrev sent_7 : Ipc
sent_7 = (ipc_send (pos 2) (pos 7) boot).1

ipc_recv_refines_example :
    let (got, k') = ipc_recv (pos 2) sent_7 in
    ((got, inbox k' 2) ≡ queue_recv (inbox sent_7 2))
    × ((d : ℕ) → 2 ≢ d → inbox k' d ≡ inbox sent_7 d)
    × IsValid k'
ipc_recv_refines_example = ipc_recv_refines 2 sent_7 (omega arith) ipc_send_refines_example.2
