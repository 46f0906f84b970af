-- ===== src/Scheduler.antt =====
-- kernel/scheduler.c, the core: priorities, waking sleepers, picking and switching, the timer
-- tick, sleeping, exit and kill. A function is the state change of the source's function up to
-- the context switch; what a task does once it is resumed stands apart (`sleep_timeout_result`).
-- The lock is held by one task at a time with interrupts off, so a locked stretch is one step.
pub mod Clock
pub mod Exit
pub mod WaitQueue
pub mod Ipc
pub mod Priority
pub mod Pick
pub mod Wake
pub mod Consistent
pub mod Operations
pub mod Tick
pub mod Reach
pub mod Faults
pub mod Fifo
mod Tests
use neuro_spark.Prelude.{
  ℕ, zero, suc, ◌+◌, ◌-◌, ◌/◌, ◌%◌, Bool, true, false, ◌&&◌, ◌||◌, not, Option, none, some, List,
  ◌∷◌, ltb, leb, ◌==◌, if◌then◌else◌, update, find_index, add32, inc32,
}
use neuro_spark.Prelude.Int.{ℤ, pos, negsuc}
use neuro_spark.Task.{
  TaskState, is_ready, is_running, is_blocked, is_sleeping, is_terminated, WaitReason, wait_none,
  wait_child, Tcb, TaskTable, task_trace_event, evt_switch_in, evt_switch_out, evt_sleep, evt_wake,
  evt_terminate,
}

pub record SchedulerMetrics : Type 0 where
  pub ticks : ℕ
  pub io_wake_boosts : ℕ
  pub starvation_mitigations : ℕ
  pub inversion_hints : ℕ
  pub band_runtime : ℕ → ℕ
  pub band_switches : ℕ → ℕ
  pub max_wait_ticks : ℕ → ℕ

-- What the scheduler asks of the file system and of paging when a task ends.
pub data Cleanup : Type 0 where
  close_all : ℕ → Cleanup
  destroy_space : ℕ → Cleanup

pub record Sched : Type 0 where
  pub tasks : TaskTable
  pub task_count : ℕ
  pub current : ℕ
  pub scheduler_ticks : ℕ
  pub metrics : SchedulerMetrics
  pub kernel_page_directory : ℕ
  -- The calls made so far, the latest first.
  pub cleanups : List Cleanup

abbrev pub prio_max : ℕ
prio_max = 7

abbrev pub wait_boost_max : ℕ
wait_boost_max = 3

abbrev pub wake_boost_max : ℕ
wake_boost_max = 2

abbrev pub starvation_wait_ticks : ℕ
starvation_wait_ticks = 120

abbrev pub cap : ℕ → ℕ → ℕ
cap limit x = if ltb limit x then limit else x

pub prio_band : ℕ → ℕ
prio_band prio = if leb prio 1 then 0 else if leb prio 3 then 1 else if leb prio 5 then 2 else 3

pub effective_priority : Sched → ℕ → ℕ
effective_priority s id =
    let b = s.tasks id in
    if leb s.task_count id
    then 0
    else cap (prio_max + wait_boost_max + wake_boost_max) (
        cap prio_max b.priority
        + cap wait_boost_max (b.sched_wait_ticks / 16)
        + cap wake_boost_max b.sched_wake_boost)

pub time_slice_for_priority : ℕ → ℕ
time_slice_for_priority prio = if prio == 0 then 3 else if leb 3 prio then 8 else 5 + prio

abbrev pub set_task : Sched → ℕ → Tcb → Sched
set_task s i b = record s { tasks = update s.tasks i b }

abbrev pub is_due : Sched → ℕ → Bool
is_due s i =
    let b = s.tasks i in
    (is_sleeping b.state || is_blocked b.state)
    && not (b.wake_tick == 0)
    && leb b.wake_tick s.scheduler_ticks

-- `state = READY; wake_tick = 0; sched_wake_boost = MAX; io_wake_boosts++`.
abbrev pub make_ready : Sched → ℕ → Sched
make_ready s i = record s {
  tasks = update s.tasks i (record (s.tasks i) {
    state = TaskState.ready;
    wake_tick = 0;
    sched_wake_boost = wake_boost_max;
  });
  metrics = record s.metrics { io_wake_boosts = inc32 s.metrics.io_wake_boosts };
}

-- One round of `scheduler_wake_sleepers_locked`.
pub wake_if_due : Sched → ℕ → Sched
wake_if_due s i =
    let s' = make_ready s i in
    if is_due s i
    then record s' { tasks = task_trace_event s'.tasks i evt_wake s'.scheduler_ticks }
    else s

pub wake_from : ℕ → ℕ → Sched → Sched
wake_from zero i s = s
wake_from (suc n) i s = wake_from n (i + 1) (wake_if_due s i)

pub wake_sleepers : Sched → Sched
wake_sleepers s = wake_from s.task_count 0 s

-- `best_idx` with `best_prio`; `none` is `best_idx == -1`.
abbrev pub Best : Type 0
Best = Option (ℕ × ℕ)

abbrev pub better : Best → ℕ → ℕ → Best
better none idx prio = some (idx, prio)
better (some (i, p)) idx prio = if ltb p prio then some (idx, prio) else some (i, p)

abbrev pub candidate : Sched → ℕ → ℕ → ℕ
candidate s old step = (old + step) % s.task_count

-- The first loop of `scheduler_pick_next_locked`, `n` steps from `step` on.
pub scan_ready : Sched → ℕ → ℕ → ℕ → Best → Best
scan_ready s old zero step best = best
scan_ready s old (suc n) step best =
    let idx = candidate s old step in
    scan_ready s old n (step + 1)
      (if is_ready (s.tasks idx).state then better best idx (effective_priority s idx) else best)

abbrev pub is_runnable : TaskState → Bool
is_runnable st = not (is_blocked st) && not (is_sleeping st) && not (is_terminated st)

-- The answer if no other task is ready.
pub pick_fallback : Sched → ℕ → ℕ
pick_fallback s old =
    if is_running (s.tasks old).state || is_ready (s.tasks old).state
    then old
    else elim (find_index (λ i. is_runnable (s.tasks i).state) s.task_count 0) [
      | some i ↦ i
      | none ↦ old
    ]

pub picked : Sched → ℕ → Best → ℕ × Sched
picked s old none = (pick_fallback s old, s)
picked s old (some (best, _)) = (
  best,
  if leb starvation_wait_ticks (s.tasks best).sched_wait_ticks
      then record s {
        metrics = record s.metrics {
          starvation_mitigations = inc32 s.metrics.starvation_mitigations;
        };
      }
      else s,
)

pub pick_next : Sched → ℕ → ℕ × Sched
unfolding picked
pick_next s old = picked s old (scan_ready s old s.task_count 1 none)

-- `os_current_task = new_task` and what follows for it, before the trace.
abbrev pub dispatch : Sched → ℕ → Sched
dispatch s new =
    let b = s.tasks new in
    record s {
      current = new;
      tasks = update s.tasks new (record b {
        state = TaskState.running;
        time_slice = time_slice_for_priority b.priority;
        sched_last_run_tick = s.scheduler_ticks;
        sched_wait_ticks = 0;
        sched_wake_boost = 0;
      });
      metrics = record s.metrics {
        band_switches =
            update s.metrics.band_switches (prio_band b.priority)
              (inc32 (s.metrics.band_switches (prio_band b.priority)));
      };
    }

pub trace_switch : Sched → ℕ → ℕ → Sched
trace_switch s old new =
    let t1 = task_trace_event s.tasks old evt_switch_out new in
    let t2 = task_trace_event t1 new evt_switch_in old in
    if new == old then s else record s {
      tasks =
          update t2 new (record (t2 new) { context_switches = inc32 (t2 new).context_switches });
    }

-- The current task gives up its turn, if it is asked to and still runs.
pub preempt : Bool → Sched → Sched
preempt force s =
    let b = s.tasks s.current in
    if force && is_running b.state
    then set_task s s.current (record b { state = TaskState.ready; sched_wait_ticks = 0 })
    else s

pub select_and_switch : Bool → Sched → Sched
select_and_switch force s =
    let old = s.current in
    let s1 = wake_sleepers (preempt force s) in
    let (new, s2) = pick_next s1 old in trace_switch (dispatch s2 new) old new

pub schedule : Sched → Sched
schedule s = select_and_switch true s
