-- ===== src/Scheduler/Clock.antt =====
-- kernel/scheduler.c: the timer tick, and sleeping with and without a limit.
use neuro_spark.Prelude.{
  ℕ, zero, suc, ◌+◌, ◌-◌, Bool, true, false, ◌&&◌, ◌||◌, not, Option, none, some, ltb, leb, ◌==◌,
  if◌then◌else◌, update, find_index, add32, inc32,
}
use neuro_spark.Task.{TaskState, is_ready, is_running, task_trace_event, evt_sleep}
use neuro_spark.Scheduler.{
  Sched, set_task, prio_band, effective_priority, time_slice_for_priority, wake_sleepers,
  select_and_switch, schedule,
}

-- A READY task that is not running waits one tick more.
unfoldable pub age_task : Sched → ℕ → Sched
age_task s i =
    let b = s.tasks i in
    let waits =
      if ltb b.sched_wait_ticks 0xffff_ffff then b.sched_wait_ticks + 1 else b.sched_wait_ticks in
    let band = prio_band b.priority in
    if not (i == s.current) && is_ready b.state
    then record s {
      tasks = update s.tasks i (record b { sched_wait_ticks = waits });
      metrics = record s.metrics {
        max_wait_ticks =
            if ltb (s.metrics.max_wait_ticks band) waits
            then update s.metrics.max_wait_ticks band waits
            else s.metrics.max_wait_ticks;
      };
    }
    else s

unfoldable pub age_from : ℕ → ℕ → Sched → Sched
age_from zero i s = s
age_from (suc n) i s = age_from n (i + 1) (age_task s i)

-- The running task is charged for the tick.
unfoldable pub charge : Sched → Sched
charge s =
    let b = s.tasks s.current in
    let band = prio_band b.priority in
    record s {
      tasks =
          update s.tasks s.current
            (record b { runtime_ticks = inc32 b.runtime_ticks; time_slice = b.time_slice - 1 });
      metrics = record s.metrics {
        band_runtime = update s.metrics.band_runtime band (inc32 (s.metrics.band_runtime band));
      };
    }

-- Some other READY task has a higher effective priority than the running one.
unfoldable pub inverted : Sched → Bool
inverted s =
    elim (find_index
      (λ i.
        not (i == s.current)
        && is_ready (s.tasks i).state
        && ltb (effective_priority s s.current) (effective_priority s i))
      s.task_count 0) [ some _ ↦ true | none ↦ false ]

-- The second locked stretch: the slice starts anew, or is cut to one tick.
unfoldable pub end_slice : Bool → Sched → Sched
end_slice due_to_slice s =
    let b = s.tasks s.current in
    if is_running b.state
    then if due_to_slice
      then set_task s s.current (record b { time_slice = time_slice_for_priority b.priority })
      else if ltb 1 b.time_slice
      then set_task s s.current (record b { time_slice = 1 })
      else s
    else s

abbrev pub count_inversion : Bool → Sched → Sched
count_inversion inv s =
    if inv
    then record s {
      metrics = record s.metrics { inversion_hints = inc32 s.metrics.inversion_hints };
    }
    else s

unfoldable pub tick_running : Sched → Sched
unfolding charge inverted end_slice
tick_running s =
    let s1 = charge s in
    let expired = (s1.tasks s1.current).time_slice == 0 in
    let inv = inverted s1 in
    let s2 = count_inversion inv s1 in if expired || inv then end_slice expired s2 else s2

abbrev pub advance_clock : Sched → Sched
advance_clock s =
    let now = inc32 s.scheduler_ticks in
    record s { scheduler_ticks = now; metrics = record s.metrics { ticks = now } }

unfoldable pub timer_tick : Sched → Sched
timer_tick s =
    let s1 = wake_sleepers (advance_clock s) in
    let s2 = age_from s1.task_count 0 s1 in
    if is_running (s2.tasks s2.current).state then tick_running s2 else s2

-- The locked stretch of `task_sleep` and `task_sleep_timeout`.
unfoldable pub fall_asleep : ℕ → ℕ → Sched → Sched
fall_asleep ticks wake s =
    let b = s.tasks s.current in
    let t = update s.tasks s.current (record b { state = TaskState.sleeping; wake_tick = wake }) in
    record s { tasks = task_trace_event t s.current evt_sleep ticks }

unfoldable pub task_sleep : ℕ → Sched → Sched
unfolding fall_asleep
task_sleep ticks s =
    if ticks == 0
    then schedule s
    else select_and_switch false (fall_asleep ticks (add32 s.scheduler_ticks ticks) s)

-- The deadline that the resumed task compares with, if it went to sleep.
unfoldable pub task_sleep_timeout : ℕ → ℕ → Sched → Option ℕ × Sched
unfolding fall_asleep
task_sleep_timeout ticks max_ticks s =
    let deadline = add32 s.scheduler_ticks max_ticks in
    let wake = add32 s.scheduler_ticks ticks in
    if ticks == 0 then (none, schedule s) else if max_ticks == 0 then (none, s) else (
      some deadline,
      select_and_switch false (fall_asleep ticks (if ltb deadline wake then deadline else wake) s),
    )

-- What it answers once it is resumed: 1 (true) unless the deadline has come.
unfoldable pub sleep_timeout_result : ℕ → Sched → Bool
sleep_timeout_result deadline s = not (leb deadline s.scheduler_ticks)

unfoldable pub reset_metrics : Sched → Sched
reset_metrics s = record s {
  metrics = record {
    ticks = s.scheduler_ticks;
    io_wake_boosts = 0;
    starvation_mitigations = 0;
    inversion_hints = 0;
    band_runtime = λ _. 0;
    band_switches = λ _. 0;
    max_wait_ticks = λ _. 0;
  };
}
