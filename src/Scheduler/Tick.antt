-- ===== src/Scheduler/Tick.antt =====
-- kernel/scheduler.c: what `scheduler_timer_tick` keeps and counts.
use neuro_spark.Prelude.{
  ℕ, zero, suc, ◌+◌, ◌≤◌, ◌≡◌, refl, ◌∙◌, inl, inr, Bool, true, false, ◌||◌, arith, ◌==◌,
  Bool-cases, inc32,
}
use neuro_spark.Task.{is_running}
use neuro_spark.Scheduler.{Sched, wake_sleepers}
use neuro_spark.Scheduler.Wake.{wake_sleepers-SameTable, wake_sleepers-WokenIf}
use neuro_spark.Scheduler.Priority.{time_slice_bounds}
use neuro_spark.Scheduler.Consistent.{IsConsistent}
use neuro_spark.Scheduler.Operations.{
  NoNewRunner, NoNewRunner-IsConsistent, NoNewRunner-trans, NoNewRunner-refl,
}
use neuro_spark.Scheduler.Clock.{
  timer_tick, age_task, age_from, charge, inverted, end_slice, tick_running, advance_clock,
  count_inversion,
}

wake_sleepers-NoNewRunner : (s : Sched) → NoNewRunner s (wake_sleepers s)
wake_sleepers-NoNewRunner s = record {
  task_count = ground (arith, wake_sleepers-SameTable s);
  current = ground (arith, wake_sleepers-SameTable s);
  keeps = λ i r. ground (arith, wake_sleepers-WokenIf s i);
}

-- What the aging of the READY tasks leaves of every task and of the clock.
record Aged (s s' : Sched) : Type 0 where
  task_count : s'.task_count ≡ s.task_count
  current : s'.current ≡ s.current
  clock : s'.scheduler_ticks ≡ s.scheduler_ticks
  state : (i : ℕ) → (s'.tasks i).state ≡ (s.tasks i).state
  waits : (i : ℕ) → (s.tasks i).sched_wait_ticks ≤ (s'.tasks i).sched_wait_ticks

age_task-Aged : (s : Sched) (i : ℕ) → Aged s (age_task s i)
unfolding age_task
age_task-Aged s i = record {
  task_count = ground arith;
  current = ground arith;
  clock = ground arith;
  state = λ j. ground arith;
  waits = λ j. ground arith;
}

Aged-trans : {s s' s'' : Sched} → Aged s s' → Aged s' s'' → Aged s s''
Aged-trans a b = record {
  task_count = b.task_count ∙ a.task_count;
  current = b.current ∙ a.current;
  clock = b.clock ∙ a.clock;
  state = λ i. b.state i ∙ a.state i;
  waits = λ i. omega (arith, a.waits i, b.waits i);
}

age_from-Aged : (n i : ℕ) (s : Sched) → Aged s (age_from n i s)
unfolding age_from
age_from-Aged zero i s = record {
  task_count = refl;
  current = refl;
  clock = refl;
  state = λ j. refl;
  waits = λ j. omega arith;
}
age_from-Aged (suc n) i s = Aged-trans (age_task-Aged s i) (age_from-Aged n (i + 1) (age_task s i))

Aged-NoNewRunner : {s s' : Sched} → Aged s s' → NoNewRunner s s'
Aged-NoNewRunner a = record {
  task_count = a.task_count;
  current = a.current;
  keeps = λ i r. rw (a.state i) at r;
}

charge-NoNewRunner : (s : Sched) → NoNewRunner s (charge s)
unfolding charge
charge-NoNewRunner s = record { task_count = refl; current = refl; keeps = λ i r. ground arith }

end_slice-NoNewRunner : (b : Bool) (s : Sched) → NoNewRunner s (end_slice b s)
unfolding end_slice
end_slice-NoNewRunner b s = record {
  task_count = ground arith;
  current = ground arith;
  keeps = λ i r. ground arith;
}

count_inversion-NoNewRunner : (b : Bool) (s : Sched) → NoNewRunner s (count_inversion b s)
count_inversion-NoNewRunner true s = record { task_count = refl; current = refl; keeps = λ i r. r }
count_inversion-NoNewRunner false s = NoNewRunner-refl s

tick_running-NoNewRunner : (s : Sched) → NoNewRunner s (tick_running s)
unfolding tick_running
tick_running-NoNewRunner s =
    let s1 = charge s in
    let inv = inverted s1 in
    let s2 = count_inversion inv s1 in
    let due = (s1.tasks s1.current).time_slice == 0 in
    let n = NoNewRunner-trans (charge-NoNewRunner s) (count_inversion-NoNewRunner inv s1) in
    elim (Bool-cases (due || inv)) [
      | inl e ↦ rw e (NoNewRunner-trans n (end_slice-NoNewRunner due s2))
      | inr e ↦ rw e n
    ]

-- A tick starts no task and moves no turn: it keeps the table consistent.
pub timer_tick-IsConsistent : (s : Sched) → IsConsistent s → IsConsistent (timer_tick s)
unfolding timer_tick
timer_tick-IsConsistent s v =
    let s0 = advance_clock s in
    let s1 = wake_sleepers s0 in
    let s2 = age_from s1.task_count 0 s1 in
    let start : NoNewRunner s s0 = record { task_count = refl; current = refl; keeps = λ i r. r } in
    let n = NoNewRunner-trans start (
      NoNewRunner-trans (wake_sleepers-NoNewRunner s0)
        (Aged-NoNewRunner (age_from-Aged s1.task_count 0 s1))) in
    elim (Bool-cases (is_running (s2.tasks s2.current).state)) [
      | inl e ↦
          rw e (NoNewRunner-IsConsistent (NoNewRunner-trans n (tick_running-NoNewRunner s2)) v)
      | inr e ↦ rw e (NoNewRunner-IsConsistent n v)
    ]

-- A tick of a RUNNING task with a slice of at most 8 counts one tick of running time and leaves a
-- slice of 1 to 8: a slice that has run out starts anew.
tick_running-slice :
    (s : Sched)
    → is_running (s.tasks s.current).state ≡ true
    → (s.tasks s.current).time_slice ≤ 8
    → let b' = (tick_running s).tasks s.current in
      (1 ≤ b'.time_slice)
      × (b'.time_slice ≤ 8)
      × (b'.runtime_ticks ≡ inc32 (s.tasks s.current).runtime_ticks)
unfolding tick_running charge end_slice
tick_running-slice s h l = ground (arith, time_slice_bounds (s.tasks s.current).priority)
