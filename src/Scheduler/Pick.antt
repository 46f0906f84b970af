-- ===== src/Scheduler/Pick.antt =====
-- kernel/scheduler.c: which task `scheduler_pick_next_locked` picks.
use native.Mathlib.Decide.{dec_lt}
use native.Mathlib.Nat.{le_of_lt, le_refl, lt_of_le_of_lt, mod-eq_of_lt, add-mod_right, mod-lt}
use neuro_spark.Prelude.{
  ℕ, zero, suc, ◌+◌, ◌-◌, ◌%◌, ◌≤◌, ◌<◌, ◌≡◌, refl, ◌∙◌, ◌≢◌, subst, inl, inr, true, false, none,
  some, arith, Bool-cases, ltb, ltb→lt, ltb→le, if◌then◌else◌,
}
use neuro_spark.Task.{is_ready}
use neuro_spark.Scheduler.Priority.{effective_priority_bounds}
use neuro_spark.Scheduler.{
  Sched, Best, better, candidate, effective_priority, scan_ready, picked, pick_next,
}

abbrev pub IsReadyStep : Sched → ℕ → ℕ → Type 0
IsReadyStep s old j = is_ready (s.tasks (candidate s old j)).state ≡ true

-- Of the steps 1 … m the first with the highest effective priority.
pub record IsBestStep (s : Sched) (old m i p k : ℕ) : Type 0 where
  pub from : 0 < k
  pub upto : k ≤ m
  pub index : i ≡ candidate s old k
  pub ready : is_ready (s.tasks i).state ≡ true
  pub prio : p ≡ effective_priority s i
  pub highest :
      (j : ℕ) → 0 < j → j ≤ m → IsReadyStep s old j → effective_priority s (candidate s old j) ≤ p
  pub first :
      (j : ℕ) → 0 < j → j < k → IsReadyStep s old j → effective_priority s (candidate s old j) < p

abbrev pub NoneReady : Sched → ℕ → ℕ → Type 0
NoneReady s old m = (j : ℕ) → 0 < j → j ≤ m → is_ready (s.tasks (candidate s old j)).state ≡ false

abbrev pub Scanned : Sched → ℕ → ℕ → Best → Type 0
Scanned s old m none = NoneReady s old m
Scanned s old m (some (i, p)) = (k : ℕ) × IsBestStep s old m i p k

abbrev next_best : Sched → ℕ → ℕ → Best → Best
next_best s old step best =
    let idx = candidate s old step in
    if is_ready (s.tasks idx).state then better best idx (effective_priority s idx) else best

-- To go on from the steps 1 … m to the step m + 1.
upto_step :
    (P : ℕ → Type 0) (m : ℕ)
    → ((j : ℕ) → 0 < j → j ≤ m → P j)
    → P (m + 1)
    → (j : ℕ) → 0 < j
    → j ≤ m + 1
    → P j
upto_step P m h e j a b = elim (dec_lt m j) [
  | yes q ↦ let r : m + 1 ≡ j = omega arith in subst P r e
  | no n ↦ h j a (omega arith)
]

-- What the scan keeps when step m + 1 has no better task.
keep_best :
    (s : Sched) (old m i p k : ℕ)
    → (IsReadyStep s old (m + 1) → effective_priority s (candidate s old (m + 1)) ≤ p)
    → IsBestStep s old m i p k
    → IsBestStep s old (m + 1) i p k
keep_best s old m i p k last h = record {
  from = h.from;
  upto = omega arith;
  index = h.index;
  ready = h.ready;
  prio = h.prio;
  highest =
      upto_step (λ j. IsReadyStep s old j → effective_priority s (candidate s old j) ≤ p) m
        h.highest last;
  first = h.first;
}

-- What it has when step m + 1 is better than all before.
new_best :
    (s : Sched) (old m : ℕ)
    → IsReadyStep s old (m + 1)
    → ((j : ℕ)
        → 0 < j
        → j ≤ m
        → IsReadyStep s old j
        → effective_priority s (candidate s old j) < effective_priority s (candidate s old (m + 1)))
    → IsBestStep s old
        (m + 1)
        (candidate s old (m + 1))
        (effective_priority s (candidate s old (m + 1)))
        (m + 1)
new_best s old m e below = record {
  from = omega arith;
  upto = omega arith;
  index = refl;
  ready = e;
  prio = refl;
  highest =
      upto_step
        (λ j.
          IsReadyStep s old j
          → effective_priority s (candidate s old j)
            ≤ effective_priority s (candidate s old (m + 1)))
        m (λ j a b r. le_of_lt (below j a b r)) (λ r. le_refl _);
  first = λ j a b r. below j a (omega arith) r;
}

Scanned-next :
    (s : Sched) (old m : ℕ) (best : Best)
    → Scanned s old m best
    → Scanned s old (m + 1) (next_best s old (m + 1) best)
Scanned-next s old m none h =
    elim (Bool-cases (is_ready (s.tasks (candidate s old (m + 1))).state)) [
      | inr e ↦ rw e (upto_step (λ j. is_ready (s.tasks (candidate s old j)).state ≡ false) m h e)
      | inl e ↦ rw e (m + 1, new_best s old m e (λ j a b r. let q = h j a b in cc))
    ]
Scanned-next s old m (some (i, p)) (k, h) =
    let idx = candidate s old (m + 1) in
    elim (Bool-cases (is_ready (s.tasks idx).state)) [
      | inr e ↦ rw e (k, keep_best s old m i p k (λ r. cc) h)
      | inl e ↦ elim (Bool-cases (ltb p (effective_priority s idx))) [
        | inl g ↦
            let g' = ltb→lt p (effective_priority s idx) g in
            rw (e, g) (m + 1, new_best s old m e (λ j a b r. lt_of_le_of_lt (h.highest j a b r) g'))
        | inr l ↦
            rw (e, l) (k, keep_best s old m i p k (λ _. ltb→le p (effective_priority s idx) l) h)
      ]
    ]

Scanned-scan_ready :
    (s : Sched) (old n m l : ℕ) (best : Best)
    → m + n ≡ l
    → Scanned s old m best
    → Scanned s old l (scan_ready s old n (m + 1) best)
unfolding scan_ready
Scanned-scan_ready s old zero m l best e h =
    let q : m ≡ l = omega arith in subst (λ x. Scanned s old x best) q h
Scanned-scan_ready s old (suc n) m l best e h =
    Scanned-scan_ready s old n (m + 1) l (next_best s old (m + 1) best) (omega arith)
      (Scanned-next s old m best h)

pub scan_ready-Scanned :
    (s : Sched) (old : ℕ) → Scanned s old s.task_count (scan_ready s old s.task_count 1 none)
scan_ready-Scanned s old =
    Scanned-scan_ready s old s.task_count 0 s.task_count none (omega arith)
      (λ j a b. absurd (omega arith))

-- Every task of the table is met in one of the steps.
step_of : (n old i : ℕ) → old < n → i < n → (j : ℕ) × (0 < j) × (j ≤ n) × ((old + j) % n ≡ i)
step_of n old i a b = elim (dec_lt old i) [
  | yes p ↦ (
    i - old,
    omega arith,
    omega arith,
    let e : old + (i - old) ≡ i = omega arith in rw e (mod-eq_of_lt b),
  )
  | no q ↦ (
    i + n - old,
    omega arith,
    omega arith,
    let e : old + (i + n - old) ≡ i + n = omega arith in rw e (add-mod_right i n ∙ mod-eq_of_lt b),
  )
]

-- `r` is READY, has the highest effective priority of the READY tasks of the table, and is the
-- first of those in the rotation that starts behind `old`.
pub record IsBestPick (s : Sched) (old r : ℕ) : Type 0 where
  pub ready : is_ready (s.tasks r).state ≡ true
  pub in_table : r < s.task_count
  pub highest :
      (j : ℕ)
      → j < s.task_count
      → is_ready (s.tasks j).state ≡ true
      → effective_priority s j ≤ effective_priority s r
  -- The step of the rotation at which it stands.
  pub turn : ℕ
  pub stands : (0 < turn) × (turn ≤ s.task_count) × (r ≡ candidate s old turn)
  pub first :
      (j : ℕ)
      → 0 < j
      → j < turn
      → IsReadyStep s old j
      → effective_priority s (candidate s old j) < effective_priority s r

picked-IsBestPick :
    (s : Sched) (old i : ℕ) (best : Best)
    → old < s.task_count
    → i < s.task_count
    → is_ready (s.tasks i).state ≡ true
    → Scanned s old s.task_count best
    → IsBestPick s old (picked s old best).0
unfolding picked
picked-IsBestPick s old i none a b e h =
    let (j, p, q, r) = step_of s.task_count old i a b in
    let n = h j p q in let n' : is_ready (s.tasks i).state ≡ false = rw r at n in cc
picked-IsBestPick s old i (some (r, p)) a b e (k, h) = record {
  ready = h.ready;
  in_table = rw h.index (mod-lt _ (omega arith));
  highest = λ j c d.
      let (l, x, y, z) = step_of s.task_count old j a c in
      let w : effective_priority s (candidate s old l) ≤ p = h.highest l x y (rw z d) in
      rw (← h.prio, ← z) w;
  turn = k;
  stands = (h.from, h.upto, h.index);
  first = λ j x y d. rw (← h.prio) (h.first j x y d);
}

picked-tasks :
    (s : Sched) (old : ℕ) (best : Best)
    → let s' = (picked s old best).1 in
      (s'.tasks ≡ s.tasks)
      × (s'.task_count ≡ s.task_count)
      × (s'.current ≡ s.current)
      × (s'.scheduler_ticks ≡ s.scheduler_ticks)
unfolding picked
picked-tasks s old none = (refl, refl, refl, refl)
picked-tasks s old (some (i, p)) = ground arith

-- If the current task stands in the table and some task of the table is READY then
-- `scheduler_pick_next_locked` picks a READY task of the highest effective priority, and of those
-- the first in the rotation behind the current task.
pub pick_next_best :
    (s : Sched) (old i : ℕ)
    → old < s.task_count
    → i < s.task_count
    → is_ready (s.tasks i).state ≡ true
    → IsBestPick s old (pick_next s old).0
unfolding pick_next
pick_next_best s old i a b e = picked-IsBestPick s old i _ a b e (scan_ready-Scanned s old)

-- If the current task stands in the table, a task whose base priority is more than 5 below that of a
-- READY task, which is at most 7, is not picked, however long it has waited: the boosts do not rule
-- out starvation.
pub pick_next_starves :
    (s : Sched) (old i j : ℕ)
    → old < s.task_count
    → i < s.task_count
    → j < s.task_count
    → is_ready (s.tasks i).state ≡ true
    → (s.tasks i).priority ≤ 7
    → (s.tasks j).priority + 5 < (s.tasks i).priority
    → (pick_next s old).0 ≢ j
pick_next_starves s old i j a b c e p q r =
    let v = pick_next_best s old i a b e in
    let h : effective_priority s i ≤ effective_priority s (pick_next s old).0 = v.highest i b e in
    let h' : effective_priority s i ≤ effective_priority s j = rw r at h in
    let lo = (effective_priority_bounds s i).0 b in
    let hi = (effective_priority_bounds s j).0 c in ground (arith, h', lo.0, hi.1)

-- Only the count of starvations can differ in the state that is left.
pub pick_next-tasks :
    (s : Sched) (old : ℕ)
    → let s' = (pick_next s old).1 in
      (s'.tasks ≡ s.tasks)
      × (s'.task_count ≡ s.task_count)
      × (s'.current ≡ s.current)
      × (s'.scheduler_ticks ≡ s.scheduler_ticks)
unfolding pick_next
pick_next-tasks s old = picked-tasks s old (scan_ready s old s.task_count 1 none)
