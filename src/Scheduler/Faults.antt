-- ===== src/Scheduler/Faults.antt =====
-- kernel/scheduler.c: two situations in which a switch leaves a task in the wrong state.
use neuro_spark.Prelude.{
  ℕ, ◌≤◌, ◌<◌, ◌≡◌, refl, sym, ◌∙◌, ◌≢◌, inl, inr, true, false, arith, Option-cases, none, some,
  find_index, find_index-some, ==_self, ==_ne, le→ltb,
}
use native.Mathlib.Nat.{mod-lt}
use neuro_spark.Task.{TaskState, is_running, is_ready}
use neuro_spark.Scheduler.{
  Sched, is_due, is_runnable, pick_fallback, picked, pick_next, Best, preempt, select_and_switch,
}
use neuro_spark.Scheduler.Wake.{wake_sleepers-WokenIf, wake_sleepers-SameTable, SameTable}
use neuro_spark.Scheduler.Pick.{Scanned, scan_ready-Scanned, pick_next_best}
use neuro_spark.Scheduler.Consistent.{
  IsConsistent, woken, select_and_switch-current, select_and_switch-state,
  select_and_switch-task_count,
}
use neuro_spark.Scheduler.WaitQueue.{WaitQueue, wait_queue_wait, join_queue}

-- Nobody can run.
abbrev pub NoneRunnable : Sched → Type 0
NoneRunnable s = (i : ℕ) → i < s.task_count → is_runnable (s.tasks i).state ≡ false

picked-old :
    (s : Sched) (old : ℕ) (best : Best)
    → old < s.task_count
    → NoneRunnable s
    → Scanned s old s.task_count best
    → (picked s old best).0 ≡ old
unfolding picked pick_fallback
picked-old s old (some (i, p)) h n (k, b) =
    let i_lt : i < s.task_count = rw b.index (mod-lt _ (omega arith)) in
    let c = n i i_lt in let r = b.ready in ground arith
picked-old s old none h n k =
    elim (Option-cases (find_index (λ i. is_runnable (s.tasks i).state) s.task_count 0)) [
      | inl e ↦ ground (arith, e)
      | inr (i, e) ↦
          let q = find_index-some (λ i. is_runnable (s.tasks i).state) s.task_count 0 e in
          let i_lt : i < s.task_count = omega arith in let c = n i i_lt in let r = q.2 in cc
    ]

pick_next-old :
    (s : Sched) (old : ℕ) → old < s.task_count → NoneRunnable s → (pick_next s old).0 ≡ old
unfolding pick_next
pick_next-old s old h n = picked-old s old _ h n (scan_ready-Scanned s old)

module _ (s : Sched) where
  woken-SameTable : SameTable s (woken false s)
  unfolding preempt
  woken-SameTable = wake_sleepers-SameTable s

  -- A task that is not due keeps its state when the sleepers are woken.
  woken-state : (i : ℕ) → is_due s i ≡ false → ((woken false s).tasks i).state ≡ (s.tasks i).state
  unfolding preempt
  woken-state i d = ground (arith, wake_sleepers-WokenIf s i)

-- If no task can run and no sleeper is due, a switch goes back to the task that gave up its turn
-- and marks it RUNNING, be it BLOCKED, SLEEPING or TERMINATED.
pub switch_revives :
    (s : Sched)
    → s.current < s.task_count
    → NoneRunnable s
    → ((i : ℕ) → i < s.task_count → is_due s i ≡ false)
    → let s' = select_and_switch false s in
      (s'.current ≡ s.current) × ((s'.tasks s.current).state ≡ TaskState.running)
switch_revives s h n d =
    let w = woken false s in
    let t = woken-SameTable s in
    let h' : s.current < w.task_count = rw t.task_count h in
    let n' : NoneRunnable w = λ i a.
      let a' : i < s.task_count = rw t.task_count at a in rw (woken-state s i (d i a')) (n i a') in
    let e = pick_next-old w s.current h' n' in
    (
      select_and_switch-current false s ∙ e,
      select_and_switch-state false s s.current ∙ rw (e, ==_self s.current),
    )

-- A running task that waits on a full wait queue while another task is READY is not queued, stays
-- RUNNING and loses its turn to another task, which is RUNNING as well.
pub wait_full_strands :
    (q : WaitQueue) (s : Sched) (i : ℕ)
    → 8 ≤ q.count
    → s.current < s.task_count
    → is_running (s.tasks s.current).state ≡ true
    → i < s.task_count
    → is_ready (s.tasks i).state ≡ true
    → let (q', s') = wait_queue_wait q s in
      (q' ≡ q)
      × (s'.current ≢ s.current)
      × (is_running (s'.tasks s.current).state ≡ true)
      × (is_running (s'.tasks s'.current).state ≡ true)
      × ¬ IsConsistent s'
unfolding wait_queue_wait join_queue
wait_full_strands q s i full h run a r = rw (le→ltb q.count 8 full) strands
  where
    w : Sched
    w = woken false s

    t : SameTable s w
    t = woken-SameTable s

    new : ℕ
    new = (pick_next w s.current).0

    not_due : (j : ℕ) → is_ready (s.tasks j).state ≡ true → is_due s j ≡ false
    not_due j e = ground arith

    ready : is_ready (w.tasks i).state ≡ true
    ready = rw (woken-state s i (not_due i r)) r

    picks : is_ready (w.tasks new).state ≡ true
    picks = (pick_next_best w s.current i (rw t.task_count h) (rw t.task_count a) ready).ready

    still : (w.tasks s.current).state ≡ (s.tasks s.current).state
    still = woken-state s s.current (ground arith)

    moved : new ≢ s.current
    moved e =
        let p : is_ready (w.tasks s.current).state ≡ true = rw e at picks in ground (arith, still)

    s' : Sched
    s' = select_and_switch false s

    left : is_running (s'.tasks s.current).state ≡ true
    left = rw (select_and_switch-state false s s.current, ==_ne new s.current moved, still) run

    taken : is_running (s'.tasks s'.current).state ≡ true
    taken =
        rw (select_and_switch-current false s)
          (rw (select_and_switch-state false s new, ==_self new) refl)

    gone : s'.current ≢ s.current
    gone e = moved (sym (select_and_switch-current false s) ∙ e)

    strands :
        (q ≡ q)
        × (s'.current ≢ s.current)
        × (is_running (s'.tasks s.current).state ≡ true)
        × (is_running (s'.tasks s'.current).state ≡ true)
        × ¬ IsConsistent s'
    strands = (
      refl,
      gone,
      left,
      taken,
      λ v. gone (sym (v.one_running s.current (rw (select_and_switch-task_count false s) h) left)),
    )
