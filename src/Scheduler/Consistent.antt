-- ===== src/Scheduler/Consistent.antt =====
-- kernel/scheduler.c: at most the current task is RUNNING, and a switch keeps it so.
use neuro_spark.Prelude.{
  ℕ, ◌≤◌, ◌<◌, ◌≡◌, ◌∙◌, ◌⊎◌, inl, inr, Bool, true, false, arith, ◌==◌, if◌then◌else◌, none, some,
  find_index, find_index-some, Option-cases,
}
use neuro_spark.Task.{TaskState, is_running, task_trace_event}
use neuro_spark.Scheduler.{
  Sched, is_runnable, wake_sleepers, preempt, pick_fallback, picked, pick_next, dispatch,
  trace_switch, select_and_switch, Best,
}
use neuro_spark.Task.Tracing.{SameTask-task_trace_event}
use native.Mathlib.Nat.{mod-lt}
use neuro_spark.Scheduler.Wake.{wake_sleepers-WokenIf, wake_sleepers-SameTable, SameTable}
use neuro_spark.Scheduler.Pick.{Scanned, scan_ready-Scanned, pick_next-tasks}

pub record IsConsistent (s : Sched) : Type 0 where
  pub in_table : s.current < s.task_count
  pub small : s.task_count ≤ 8
  pub one_running : (i : ℕ) → i < s.task_count → is_running (s.tasks i).state ≡ true → i ≡ s.current

-- No task of the table is RUNNING.
pub record IsIdle (s : Sched) : Type 0 where
  pub in_table : s.current < s.task_count
  pub small : s.task_count ≤ 8
  pub none_running : (i : ℕ) → i < s.task_count → is_running (s.tasks i).state ≡ false

preempt-IsIdle :
    (force : Bool) (s : Sched)
    → IsConsistent s
    → (force ≡ true) ⊎ (is_running (s.tasks s.current).state ≡ false)
    → IsIdle (preempt force s)
unfolding preempt
preempt-IsIdle force s v h = record {
  in_table = ground arith;
  small = ground arith;
  none_running = λ i a. ground (arith, v.one_running i);
}

preempt-SameTable : (force : Bool) (s : Sched) → SameTable s (preempt force s)
unfolding preempt
preempt-SameTable force s = ground arith

wake_sleepers-IsIdle : (s : Sched) → IsIdle s → IsIdle (wake_sleepers s)
wake_sleepers-IsIdle s v = record {
  in_table = ground (arith, wake_sleepers-SameTable s);
  small = ground (arith, wake_sleepers-SameTable s);
  none_running =
      λ i a. ground (arith, wake_sleepers-SameTable s, wake_sleepers-WokenIf s i, v.none_running i);
}

pick_fallback-lt : (s : Sched) (old : ℕ) → old < s.task_count → pick_fallback s old < s.task_count
unfolding pick_fallback
pick_fallback-lt s old h =
    elim (Option-cases (find_index (λ i. is_runnable (s.tasks i).state) s.task_count 0)) [
      | inl e ↦ ground (arith, e)
      | inr (i, e) ↦
          let q = find_index-some (λ i. is_runnable (s.tasks i).state) s.task_count 0 e in
          ground (arith, e, q.1)
    ]

picked-lt :
    (s : Sched) (old : ℕ) (best : Best)
    → old < s.task_count
    → Scanned s old s.task_count best
    → (picked s old best).0 < s.task_count
unfolding picked
picked-lt s old none h k = pick_fallback-lt s old h
picked-lt s old (some (i, p)) h (k, b) = rw b.index (mod-lt _ (omega arith))

pick_next-lt : (s : Sched) (old : ℕ) → old < s.task_count → (pick_next s old).0 < s.task_count
unfolding pick_next
pick_next-lt s old h = picked-lt s old _ h (scan_ready-Scanned s old)

dispatch-IsConsistent :
    (s : Sched) (new : ℕ)
    → IsIdle s
    → new < s.task_count
    → IsConsistent (dispatch s new) × (is_running ((dispatch s new).tasks new).state ≡ true)
dispatch-IsConsistent s new v h = (
  record { in_table = h; small = v.small; one_running = λ i a r. ground (arith, v.none_running i) },
  ground arith,
)

trace_switch-state :
    (s : Sched) (old new i : ℕ) → ((trace_switch s old new).tasks i).state ≡ (s.tasks i).state
unfolding trace_switch
trace_switch-state s old new i =
    let t1 = task_trace_event s.tasks old 2 new in
    let t2 = task_trace_event t1 new 1 old in
    ground (
      arith,
      SameTask-task_trace_event s.tasks old 2 new i,
      SameTask-task_trace_event t1 new 1 old i,
      SameTask-task_trace_event s.tasks old 2 new new,
      SameTask-task_trace_event t1 new 1 old new,
    )

trace_switch-SameTable : (s : Sched) (old new : ℕ) → SameTable s (trace_switch s old new)
unfolding trace_switch
trace_switch-SameTable s old new = ground arith

pick_next-IsIdle : (s : Sched) (old : ℕ) → IsIdle s → IsIdle (pick_next s old).1
pick_next-IsIdle s old v =
    let e = pick_next-tasks s old in
    record {
      in_table = rw (e.1, e.2) v.in_table;
      small = rw e.1 v.small;
      none_running = λ i a. rw e.0 (v.none_running i (rw e.1 at a));
    }

-- From a consistent state, a switch from a task that is asked to give up its turn, or that does
-- not run any more, leaves the task that it picks as the only RUNNING one, whatever the sleepers
-- and priorities.
pub select_and_switch-IsConsistent :
    (force : Bool) (s : Sched)
    → IsConsistent s
    → (force ≡ true) ⊎ (is_running (s.tasks s.current).state ≡ false)
    → let s' = select_and_switch force s in
      IsConsistent s' × (is_running (s'.tasks s'.current).state ≡ true)
unfolding select_and_switch
select_and_switch-IsConsistent force s v h =
    let s1 = wake_sleepers (preempt force s) in
    let v1 = wake_sleepers-IsIdle (preempt force s) (preempt-IsIdle force s v h) in
    let new = (pick_next s1 s.current).0 in
    let s2 = (pick_next s1 s.current).1 in
    let v2 = pick_next-IsIdle s1 s.current v1 in
    let a : s.current < s1.task_count =
      ground (arith, preempt-SameTable force s, wake_sleepers-SameTable (preempt force s)) in
    let b : new < s2.task_count =
      rw ((pick_next-tasks s1 s.current).1) (pick_next-lt s1 s.current a) in
    let d = dispatch-IsConsistent s2 new v2 b in
    let t = trace_switch-SameTable (dispatch s2 new) s.current new in
    let st = λ (i : ℕ). trace_switch-state (dispatch s2 new) s.current new i in
    (
      record {
        in_table = rw (t.current, t.task_count) d.0.in_table;
        small = rw t.task_count d.0.small;
        one_running =
            λ i c r. rw t.current (d.0.one_running i (rw t.task_count at c) (rw (st i) at r));
      },
      rw (t.current, st new) d.1,
    )

abbrev pub woken : Bool → Sched → Sched
woken force s = wake_sleepers (preempt force s)

-- Who runs after a switch, and the states of the others.
pub select_and_switch-current :
    (force : Bool) (s : Sched)
    → (select_and_switch force s).current ≡ (pick_next (woken force s) s.current).0
unfolding select_and_switch
select_and_switch-current force s =
    let (new, s2) = pick_next (woken force s) s.current in
    (trace_switch-SameTable (dispatch s2 new) s.current new).current

pub select_and_switch-state :
    (force : Bool) (s : Sched) (i : ℕ)
    → ((select_and_switch force s).tasks i).state ≡ (
        if (pick_next (woken force s) s.current).0 == i
        then TaskState.running
        else ((woken force s).tasks i).state)
unfolding select_and_switch
select_and_switch-state force s i =
    let (new, s2) = pick_next (woken force s) s.current in
    let e = (pick_next-tasks (woken force s) s.current).0 in
    trace_switch-state (dispatch s2 new) s.current new i ∙ rw e (ground arith)

pub select_and_switch-task_count :
    (force : Bool) (s : Sched) → (select_and_switch force s).task_count ≡ s.task_count
unfolding select_and_switch
select_and_switch-task_count force s =
    let (new, s2) = pick_next (woken force s) s.current in
    (trace_switch-SameTable (dispatch s2 new) s.current new).task_count
    ∙ (pick_next-tasks (woken force s) s.current).1
    ∙ (wake_sleepers-SameTable (preempt force s)).task_count
    ∙ (preempt-SameTable force s).task_count
