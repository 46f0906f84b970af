-- ===== src/Vfs/Descriptors/Clone.antt =====
-- kernel/vfs.c: a task that is forked gets the descriptors of its parent.
use neuro_spark.Prelude.{
  ℕ, zero, suc, ◌≤◌, ◌<◌, ◌≡◌, ◌≢◌, refl, ap, sym, ◌∙◌, subst, arith, true, false, ◌&&◌, not,
  Bool-cases, inl, inr,
}
use native.Mathlib.Decide.{ℕ_discrete}
use neuro_spark.Prelude.Int.{ℤ, pos, negsuc, pos_part}
use neuro_spark.Vfs.{is_neg, out_of_range, vfs_ok}
use neuro_spark.Vfs.Descriptors.{
  State, task_max_fds, max_global_fds, set_fd, retain, clear_below, clone_one, clone_below,
  vfs_clone_task_fds,
}
use neuro_spark.Vfs.Descriptors.Refs.{points, refs_set, set_map_keeps}
use neuro_spark.Vfs.Descriptors.Balance.{
  Live, Balanced, nothing, nonneg, points_free, bind-Balanced,
}
use neuro_spark.Task.{max_tasks}

-- The descriptor that a clone of `z` is: itself, or -1 if it is not open.
abbrev pub cloned : ℤ → ℤ
cloned (pos g) = pos g
cloned (negsuc e) = negsuc 0

neg_out : (z : ℤ) (n : ℕ) → is_neg z ≡ true → out_of_range z n ≡ true
neg_out (pos i) n e = absurd (cc)
neg_out (negsuc i) n e = refl

in_out : (z : ℤ) (n : ℕ) → is_neg z ≡ false → pos_part z < n → out_of_range z n ≡ false
in_out (pos i) n e l = ground arith
in_out (negsuc i) n e l = absurd (cc)

cloned_pos : (z : ℤ) → is_neg z ≡ false → cloned z ≡ z
cloned_pos (pos i) e = refl
cloned_pos (negsuc i) e = absurd (cc)

cloned_neg : (z : ℤ) → is_neg z ≡ true → cloned z ≡ negsuc 0
cloned_neg (pos i) e = absurd (cc)
cloned_neg (negsuc i) e = refl

module _ {W : Type 0} (src dst : ℕ) (s : State W) where
  -- The first `n` descriptors are cleared.
  record Cleared (n : ℕ) (s' : State W) : Type 0 where
    balanced : Balanced nothing s'
    source_at : (j : ℕ) → s'.task_fd_map src j ≡ s.task_fd_map src j
    clear : (j : ℕ) → j < n → s'.task_fd_map dst j ≡ negsuc 0
    unused : (j : ℕ) → j < task_max_fds → is_neg (s'.task_fd_map dst j) ≡ true

  clear_below-Cleared :
      (n : ℕ)
      → src ≢ dst
      → dst < max_tasks
      → n ≤ task_max_fds
      → Balanced nothing s
      → ((j : ℕ) → j < task_max_fds → is_neg (s.task_fd_map dst j) ≡ true)
      → Cleared n (clear_below dst n s)
  unfolding clear_below
  clear_below-Cleared zero ne a b v h = record {
    balanced = v;
    source_at = λ j. refl;
    clear = λ j l. absurd (omega arith);
    unused = h;
  }
  clear_below-Cleared (suc n) ne a b v h =
      let c = clear_below-Cleared n ne a (omega arith) v h in
      let old = clear_below dst n s in
      let w = c.balanced in
      record {
        balanced = record {
          named = λ u j p q.
              set_map_keeps (λ z. is_neg z ≡ false → Live old.fd_table (pos_part z)) old.task_fd_map
                dst n (negsuc 0) u j (λ m. absurd (cc)) (w.named u j p q);
          counted = λ k l u.
              let free : points (old.task_fd_map dst n) k ≡ 0 =
                points_free (old.task_fd_map dst n) k (c.unused n (omega arith)) in
              omega (
                arith,
                free,
                w.counted k l u,
                refs_set old.task_fd_map dst n (negsuc 0) k a (omega arith),
              );
          held = w.held;
        };
        source_at = λ j. ground (arith, c.source_at j);
        clear = λ j l. ground (arith, c.clear j);
        unused = λ j l. ground (arith, c.unused j l);
      }

  record Cloned (n : ℕ) (s' : State W) : Type 0 where
    balanced : Balanced nothing s'
    source_at : (j : ℕ) → s'.task_fd_map src j ≡ s.task_fd_map src j
    done : (j : ℕ) → j < n → s'.task_fd_map dst j ≡ cloned (s.task_fd_map src j)
    left : (j : ℕ) → n ≤ j → j < task_max_fds → s'.task_fd_map dst j ≡ negsuc 0

  clone_one-Cloned :
      (n : ℕ) (s' : State W)
      → src ≢ dst
      → src < max_tasks
      → dst < max_tasks
      → n < task_max_fds
      → Cloned n s'
      → Cloned (suc n) (clone_one src dst n s')
  unfolding clone_one
  clone_one-Cloned n s' ne a b l c =
      let z = s'.task_fd_map src n in
      let same : z ≡ s.task_fd_map src n = c.source_at n in
      elim (Bool-cases (is_neg z)) [
        | inl e ↦
            let shut : out_of_range z max_global_fds ≡ true = neg_out z max_global_fds e in
            rw shut (record {
              balanced = c.balanced;
              source_at = c.source_at;
              done = λ j m. elim (ℕ_discrete n j) [
                | yes q ↦ rw (← q) (c.left n (omega arith) l ∙ sym (rw same at (cloned_neg z e)))
                | no q ↦ c.done j (omega arith)
              ];
              left = λ j m. c.left j (omega arith);
            })
        | inr e ↦
            let live = c.balanced.named src n a l e in
            let g = pos_part z in
            let p : z ≡ pos g = nonneg z e in
            let free : is_neg (s'.task_fd_map dst n) ≡ true = rw (c.left n (omega arith) l) refl in
            let copy : z ≡ cloned (s.task_fd_map src n) = sym (cloned_pos z e) ∙ ap cloned same in
            let test : (not (out_of_range z max_global_fds) && (s'.fd_table g).used) ≡ true =
              ground (arith, in_out z max_global_fds e live.0, live.1) in
            rw test (record {
              balanced =
                  subst (λ y. Balanced nothing (retain g (set_fd dst n y s'))) (sym p)
                    (bind-Balanced dst n g s' c.balanced b l free live);
              source_at = λ j. ground (arith, c.source_at j);
              done = λ j m. elim (ℕ_discrete n j) [
                | yes q ↦ rw (← q) (ground (arith, copy))
                | no q ↦ ground (arith, c.done j)
              ];
              left = λ j m k. ground (arith, c.left j);
            })
      ]

  clone_below-Cloned :
      (n : ℕ) (s' : State W)
      → src ≢ dst
      → src < max_tasks
      → dst < max_tasks
      → n ≤ task_max_fds
      → Cloned 0 s'
      → Cloned n (clone_below src dst n s')
  unfolding clone_below
  clone_below-Cloned zero s' ne a b l c = c
  clone_below-Cloned (suc n) s' ne a b l c =
      clone_one-Cloned n (clone_below src dst n s') ne a b (omega arith)
        (clone_below-Cloned n s' ne a b (omega arith) c)

  -- From a balanced state, if the two tasks differ and the child has no open descriptor, the
  -- child's descriptors become those of its parent, the parent keeps its own, and the counts of the
  -- shared table stay exact.
  pub clone_lem :
      src ≢ dst
      → src < max_tasks
      → dst < max_tasks
      → Balanced nothing s
      → ((j : ℕ) → j < task_max_fds → is_neg (s.task_fd_map dst j) ≡ true)
      → let (rc, s') = vfs_clone_task_fds (pos src) (pos dst) s in
        (rc ≡ vfs_ok)
        × Balanced nothing s'
        × ((j : ℕ) → s'.task_fd_map src j ≡ s.task_fd_map src j)
        × ((j : ℕ) → j < task_max_fds → s'.task_fd_map dst j ≡ cloned (s.task_fd_map src j))
  unfolding vfs_clone_task_fds
  clone_lem ne a b v h =
      let c = clear_below-Cleared task_max_fds ne b (omega arith) v h in
      let start : Cloned 0 (clear_below dst task_max_fds s) = record {
        balanced = c.balanced;
        source_at = c.source_at;
        done = λ j l. absurd (omega arith);
        left = λ j l k. c.clear j k;
      } in
      let r =
        clone_below-Cloned task_max_fds (clear_below dst task_max_fds s) ne a b (omega arith)
          start in
      let p : out_of_range (pos src) max_tasks ≡ false = ground arith in
      let q : out_of_range (pos dst) max_tasks ≡ false = ground arith in
      rw (p, q) (refl, r.balanced, r.source_at, r.done)
