-- ===== src/Scheduler/Wake.antt =====
-- kernel/scheduler.c: which tasks `scheduler_wake_sleepers_locked` wakes.
use neuro_spark.Prelude.{
  ℕ, zero, suc, ◌+◌, ◌≡◌, ◌≢◌, ◌≤◌, ◌<◌, ◌⊎◌, inl, inr, Bool-cases, true, refl, Bool, ◌&&◌, arith,
  ltb, leb, ◌==◌, if◌then◌else◌,
}
use neuro_spark.Task.{TaskState, Tcb}
use neuro_spark.Task.Tracing.{SameTask-task_trace_event}
use neuro_spark.Scheduler.{
  Sched, is_due, make_ready, wake_if_due, wake_from, wake_sleepers, wake_boost_max,
}

-- Task `j` after it was passed by, when `due` said whether it was to be woken.
pub record WokenIf (due : Bool) (b b' : Tcb) : Type 0 where
  pub state : b'.state ≡ (if due then TaskState.ready else b.state)
  pub wake_tick : b'.wake_tick ≡ (if due then 0 else b.wake_tick)
  pub boost : b'.sched_wake_boost ≡ (if due then wake_boost_max else b.sched_wake_boost)
  pub waits : b'.sched_wait_ticks ≡ b.sched_wait_ticks
  pub priority : b'.priority ≡ b.priority

wake_if_due-WokenIf :
    (s : Sched) (i j : ℕ) → WokenIf (i == j && is_due s i) (s.tasks j) ((wake_if_due s i).tasks j)
unfolding wake_if_due
wake_if_due-WokenIf s i j =
    let s' = make_ready s i in
    ground (arith, SameTask-task_trace_event s'.tasks i 5 s'.scheduler_ticks j)

-- What a round leaves of the rest of the state.
pub record SameTable (s s' : Sched) : Type 0 where
  pub task_count : s'.task_count ≡ s.task_count
  pub current : s'.current ≡ s.current
  pub scheduler_ticks : s'.scheduler_ticks ≡ s.scheduler_ticks

SameTable-refl : (s : Sched) → SameTable s s
SameTable-refl s = record { task_count = refl; current = refl; scheduler_ticks = refl }

wake_if_due-SameTable : (s : Sched) (i : ℕ) → SameTable s (wake_if_due s i)
unfolding wake_if_due
wake_if_due-SameTable s i = ground arith

wake_from-SameTable : (n i : ℕ) (s : Sched) → SameTable s (wake_from n i s)
unfolding wake_from
wake_from-SameTable zero i s = SameTable-refl s
wake_from-SameTable (suc n) i s =
    ground (arith, wake_from-SameTable n (i + 1) (wake_if_due s i), wake_if_due-SameTable s i)

wake_from-WokenIf :
    (n i : ℕ) (s : Sched) (j : ℕ)
    → WokenIf (leb i j && ltb j (i + n) && is_due s j) (s.tasks j) ((wake_from n i s).tasks j)
unfolding wake_from
wake_from-WokenIf zero i s j = ground arith
wake_from-WokenIf (suc n) i s j =
    let s' = wake_if_due s i in
    ground (
      arith,
      wake_if_due-WokenIf s i j,
      wake_if_due-SameTable s i,
      wake_from-WokenIf n (i + 1) s' j,
    )

-- Every task after the sleepers are woken.
pub wake_sleepers-WokenIf :
    (s : Sched) (j : ℕ)
    → WokenIf (ltb j s.task_count && is_due s j) (s.tasks j) ((wake_sleepers s).tasks j)
unfolding wake_sleepers
wake_sleepers-WokenIf s j = ground (arith, wake_from-WokenIf s.task_count 0 s j)

-- The task sleeps or blocks until a tick that has come; the tick 0 stands for no end.
pub record HasOverslept (s : Sched) (j : ℕ) : Type 0 where
  pub in_table : j < s.task_count
  pub asleep : ((s.tasks j).state ≡ TaskState.sleeping) ⊎ ((s.tasks j).state ≡ TaskState.blocked)
  pub has_end : (s.tasks j).wake_tick ≢ 0
  pub ended : (s.tasks j).wake_tick ≤ s.scheduler_ticks

HasOverslept-due :
    (s : Sched) (j : ℕ) → HasOverslept s j → (ltb j s.task_count && is_due s j) ≡ true
HasOverslept-due s j h =
    let a = h.in_table in
    let b = h.has_end in
    let c = h.ended in elim h.asleep [ inl e ↦ rw e (ground arith) | inr e ↦ rw e (ground arith) ]

due-HasOverslept :
    (s : Sched) (j : ℕ) → (ltb j s.task_count && is_due s j) ≡ true → HasOverslept s j
due-HasOverslept s j e = record {
  in_table = ground arith;
  asleep = ground arith;
  has_end = ground arith;
  ended = ground arith;
}

-- The tasks of the table that sleep or block until a tick that has come, and no others, are made
-- READY, with no wake tick and the full wake boost; every other task keeps its state, its wake tick
-- and its boost.
pub wake_sleepers_lem :
    (s : Sched) (j : ℕ)
    → let b = s.tasks j in
      let b' = (wake_sleepers s).tasks j in
      (HasOverslept s j
        × (b'.state ≡ TaskState.ready)
        × (b'.wake_tick ≡ 0)
        × (b'.sched_wake_boost ≡ wake_boost_max))
      ⊎ ((¬ HasOverslept s j)
          × (b'.state ≡ b.state)
          × (b'.wake_tick ≡ b.wake_tick)
          × (b'.sched_wake_boost ≡ b.sched_wake_boost))
wake_sleepers_lem s j =
    let w = wake_sleepers-WokenIf s j in
    elim (Bool-cases (ltb j s.task_count && is_due s j)) [
      | inl e ↦ inl (due-HasOverslept s j e, rw e at w.state, rw e at w.wake_tick, rw e at w.boost)
      | inr e ↦ inr (
        (λ h. let t = HasOverslept-due s j h in cc),
        rw e at w.state,
        rw e at w.wake_tick,
        rw e at w.boost,
      )
    ]

pub wake_sleepers-SameTable : (s : Sched) → SameTable s (wake_sleepers s)
unfolding wake_sleepers
wake_sleepers-SameTable s = wake_from-SameTable s.task_count 0 s
