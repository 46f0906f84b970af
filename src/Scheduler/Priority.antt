-- ===== src/Scheduler/Priority.antt =====
-- kernel/scheduler.c: the ranges of priorities and time slices.
use native.Mathlib.Nat.{add-le-add}
use neuro_spark.Prelude.{lt→leb, ◌/◌, ℕ, ◌+◌, ◌≤◌, ◌<◌, ◌≡◌, arith}
use neuro_spark.Scheduler.{Sched, cap, prio_band, effective_priority, time_slice_for_priority}

-- A task of the table is ranked by its base priority, capped at 7, raised by at most 5 for the
-- time that it has waited and for being woken; a task outside the table ranks 0.
pub effective_priority_bounds :
    (s : Sched) (i : ℕ)
    → (i < s.task_count
        → (cap 7 (s.tasks i).priority ≤ effective_priority s i)
          × (effective_priority s i ≤ cap 7 (s.tasks i).priority + 5))
      × (s.task_count ≤ i → effective_priority s i ≡ 0)
      × (effective_priority s i ≤ 12)
unfolding effective_priority
effective_priority_bounds s i = (λ h. (ground arith, ground arith), λ h. ground arith, ground arith)

cap_mono : (limit a b : ℕ) → a ≤ b → cap limit a ≤ cap limit b
cap_mono limit a b h = ground arith

effective_priority-eq :
    (s : Sched) (i : ℕ)
    → i < s.task_count
    → effective_priority s i
      ≡ cap 12 (
          cap 7 (s.tasks i).priority
          + cap 3 ((s.tasks i).sched_wait_ticks / 16)
          + cap 2 (s.tasks i).sched_wake_boost)
unfolding effective_priority
effective_priority-eq s i h = rw (lt→leb _ _ h)

-- A task of the table with at least the base priority, the waiting time and the wake boost of
-- another one is not ranked below it.
effective_priority_mono :
    (s : Sched) (i j : ℕ)
    → i < s.task_count
    → j < s.task_count
    → (s.tasks i).priority ≤ (s.tasks j).priority
    → (s.tasks i).sched_wait_ticks ≤ (s.tasks j).sched_wait_ticks
    → (s.tasks i).sched_wake_boost ≤ (s.tasks j).sched_wake_boost
    → effective_priority s i ≤ effective_priority s j
effective_priority_mono s i j a b p w k =
    let waited : (s.tasks i).sched_wait_ticks / 16 ≤ (s.tasks j).sched_wait_ticks / 16 =
      omega arith in
    rw (effective_priority-eq s i a, effective_priority-eq s j b)
      (cap_mono 12 _ _
        (add-le-add (add-le-add (cap_mono 7 _ _ p) (cap_mono 3 _ _ waited)) (cap_mono 2 _ _ k)))

prio_band-lt : (p : ℕ) → prio_band p < 4
unfolding prio_band
prio_band-lt p = ground arith

pub time_slice_bounds : (p : ℕ) → (3 ≤ time_slice_for_priority p) × (time_slice_for_priority p ≤ 8)
unfolding time_slice_for_priority
time_slice_bounds p = ground arith
