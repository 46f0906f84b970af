-- ===== src/Vfs/Descriptors/Operations.antt =====
-- kernel/vfs.c: closing descriptors, and copying over them, keeps the reference counts exact.
use neuro_spark.Prelude.{
  ℕ, zero, suc, ◌≤◌, ◌<◌, ◌≡◌, ◌≢◌, refl, sym, ◌∙◌, subst, arith, true, false, Bool-cases, inl, inr,
  ◌⊎◌,
}
use native.Mathlib.Decide.{ℕ_discrete}
use neuro_spark.Prelude.Int.{ℤ, pos, negsuc, pos_part}
use neuro_spark.Vfs.{is_neg, out_of_range, int_eq}
use neuro_spark.Vfs.Descriptors.{
  VfsBackendOps, State, task_max_fds, bad_gfd, set_fd, retain, close_global_fd, current_task_id,
  task_fd_to_global, vfs_close, vfs_dup2, make_room, close_one, close_below, vfs_close_all_for_task,
}
use neuro_spark.Vfs.Descriptors.Balance.{
  Live, Balanced, nothing, nonneg, unbind-Balanced, bind-Balanced, close_global_fd-Balanced,
}
use neuro_spark.Task.{max_tasks}
use neuro_spark.Vfs.Descriptors.Dup.{in_range, current_in, good_fd}

differ :
    (a b : ℤ) (n : ℕ)
    → out_of_range a n ≡ false
    → out_of_range b n ≡ false
    → int_eq a b ≡ false
    → pos_part b ≢ pos_part a
differ (pos i) (pos j) n p q r = λ e. ground arith
differ (pos i) (negsuc j) n p q r = absurd (cc)
differ (negsuc i) b n p q r = absurd (cc)

module _ {W : Type 0} (backend : ℕ → VfsBackendOps W) where
  -- Closing an entry touches no descriptor.
  pub close_keeps_map :
      (z : ℤ) (s : State W)
      → ((close_global_fd backend z s).1.task_fd_map ≡ s.task_fd_map)
        × ((close_global_fd backend z s).1.current ≡ s.current)
  unfolding close_global_fd
  close_keeps_map z s = (ground arith, ground arith)

  -- A descriptor is taken away and its entry closed.
  release-Balanced :
      (t i : ℕ) (s : State W)
      → Balanced nothing s
      → t < max_tasks
      → i < task_max_fds
      → is_neg (s.task_fd_map t i) ≡ false
      → Balanced nothing (close_global_fd backend (s.task_fd_map t i) (set_fd t i (negsuc 0) s)).1
  release-Balanced t i s v a b n =
      let g = pos_part (s.task_fd_map t i) in
      let e : s.task_fd_map t i ≡ pos g = nonneg (s.task_fd_map t i) n in
      subst (λ y. Balanced nothing (close_global_fd backend y (set_fd t i (negsuc 0) s)).1) (sym e)
        (close_global_fd-Balanced backend g (set_fd t i (negsuc 0) s)
          (unbind-Balanced t i g s v a b e) (v.named t i a b n))

  pub close-Balanced :
      (fd : ℤ) (s : State W) → Balanced nothing s → Balanced nothing (vfs_close backend fd s).1
  unfolding vfs_close
  close-Balanced fd s v =
      let t = current_task_id s in
      let i = pos_part fd in
      elim (Bool-cases (out_of_range fd task_max_fds)) [
        | inl b ↦ rw b v
        | inr b ↦ elim (Bool-cases (is_neg (s.task_fd_map t i))) [
          | inl n ↦ rw (b, n) v
          | inr n ↦
              rw (b, n) (release-Balanced t i s v (current_in s) (in_range fd task_max_fds b) n)
        ]
      ]

  -- Making room for a descriptor frees it and touches no other.
  record Roomy (fd : ℤ) (s s' : State W) : Type 0 where
    balanced : Balanced nothing s'
    free : is_neg (s'.task_fd_map (current_task_id s) (pos_part fd)) ≡ true
    others :
        (j : ℕ)
        → pos_part fd ≢ j
        → s'.task_fd_map (current_task_id s) j ≡ s.task_fd_map (current_task_id s) j

  make_room-Roomy :
      (fd : ℤ) (s : State W)
      → Balanced nothing s
      → out_of_range fd task_max_fds ≡ false
      → Roomy fd s (make_room backend fd s)
  unfolding make_room vfs_close
  make_room-Roomy fd s v b =
      let t = current_task_id s in
      let i = pos_part fd in
      elim (Bool-cases (is_neg (s.task_fd_map t i))) [
        | inl n ↦ rw n (record { balanced = v; free = n; others = λ j ne. refl })
        | inr n ↦
            let m = (close_keeps_map (s.task_fd_map t i) (set_fd t i (negsuc 0) s)).0 in
            rw (n, b)
              (record {
                balanced = release-Balanced t i s v (current_in s) (in_range fd task_max_fds b) n;
                free = rw m (ground arith);
                others = λ j ne. rw m (ground arith);
              })
      ]

  pub dup2-Balanced :
      (fd newfd : ℤ) (s : State W)
      → Balanced nothing s
      → Balanced nothing (vfs_dup2 backend fd newfd s).1
  unfolding vfs_dup2
  dup2-Balanced fd newfd s v =
      let t = current_task_id s in
      let z = task_fd_to_global fd s in
      elim (Bool-cases (bad_gfd z s)) [
        | inl b ↦ rw b v
        | inr b ↦ elim (Bool-cases (out_of_range newfd task_max_fds)) [
          | inl c ↦ rw (b, c) v
          | inr c ↦ elim (Bool-cases (int_eq fd newfd)) [
            | inl d ↦ rw (b, c, d) v
            | inr d ↦
                let n = good_fd fd s b in
                let i = pos_part newfd in
                let s' = make_room backend newfd s in
                let r = make_room-Roomy newfd s v c in
                let there : s'.task_fd_map t (pos_part fd) ≡ pos (pos_part z) =
                  r.others (pos_part fd) (differ fd newfd task_max_fds n.fd_ok c d)
                  ∙ sym n.entry_at
                  ∙ n.is_pos in
                let open_ : is_neg (s'.task_fd_map t (pos_part fd)) ≡ false = rw there refl in
                let named = r.balanced.named t (pos_part fd) (current_in s) n.fd_in open_ in
                let live : Live s'.fd_table (pos_part z) =
                  subst (λ y. Live s'.fd_table (pos_part y)) there named in
                rw (b, c, d)
                  (subst (λ y. Balanced nothing (retain (pos_part z) (set_fd t i y s')))
                    (sym n.is_pos)
                    (bind-Balanced t i (pos_part z) s' r.balanced (current_in s)
                      (in_range newfd task_max_fds c) r.free live))
          ]
        ]
      ]

  close_one-Balanced :
      (t i : ℕ) (s : State W)
      → t < max_tasks
      → i < task_max_fds
      → Balanced nothing s
      → Balanced nothing (close_one backend t i s)
  unfolding close_one
  close_one-Balanced t i s a b v = elim (Bool-cases (is_neg (s.task_fd_map t i))) [
    | inl n ↦ rw n v
    | inr n ↦ rw n (release-Balanced t i s v a b n)
  ]

  -- The loop of vfs_close_all_for_task keeps the balance and frees the descriptors that it passed.
  record Closed (t n : ℕ) (s : State W) : Type 0 where
    balanced : Balanced nothing s
    freed : (i : ℕ) → i < n → is_neg (s.task_fd_map t i) ≡ true

  close_one_frees :
      (t i : ℕ) (s : State W) (j : ℕ)
      → is_neg (s.task_fd_map t j) ≡ true ⊎ (i ≡ j)
      → is_neg ((close_one backend t i s).task_fd_map t j) ≡ true
  unfolding close_one
  close_one_frees t i s j h =
      let m = (close_keeps_map (s.task_fd_map t i) (set_fd t i (negsuc 0) s)).0 in
      elim (Bool-cases (is_neg (s.task_fd_map t i))) [
        | inl n ↦ elim h [ inl q ↦ rw n q | inr q ↦ rw (n, ← q) n ]
        | inr n ↦ elim h [ inl q ↦ rw (n, m) (ground arith) | inr q ↦ rw (n, m) (ground arith) ]
      ]

  close_below-Closed :
      (t n : ℕ) (s : State W)
      → t < max_tasks
      → n ≤ task_max_fds
      → Balanced nothing s
      → Closed t n (close_below backend t n s)
  unfolding close_below
  close_below-Closed t zero s a b v = record { balanced = v; freed = λ i l. absurd (omega arith) }
  close_below-Closed t (suc n) s a b v =
      let rest = close_below-Closed t n s a (omega arith) v in
      record {
        balanced = close_one-Balanced t n (close_below backend t n s) a (omega arith) rest.balanced;
        freed = λ i l. elim (ℕ_discrete n i) [
          | yes e ↦ close_one_frees t n (close_below backend t n s) i (inr e)
          | no e ↦
              close_one_frees t n (close_below backend t n s) i (inl (rest.freed i (omega arith)))
        ];
      }

  -- From a balanced state, closing all descriptors of a task leaves none of them open, and the
  -- counts of the shared table exact.
  pub close_all_lem :
      (t : ℕ) (s : State W)
      → t < max_tasks
      → Balanced nothing s
      → let s' = vfs_close_all_for_task backend (pos t) s in
        Balanced nothing s' × ((i : ℕ) → i < task_max_fds → is_neg (s'.task_fd_map t i) ≡ true)
  unfolding vfs_close_all_for_task
  close_all_lem t s a v =
      let r = close_below-Closed t task_max_fds s a (omega arith) v in
      let ok : out_of_range (pos t) max_tasks ≡ false = ground arith in rw ok (r.balanced, r.freed)

  pub close_all-Balanced :
      (task : ℤ) (s : State W)
      → Balanced nothing s
      → Balanced nothing (vfs_close_all_for_task backend task s)
  unfolding vfs_close_all_for_task
  close_all-Balanced task s v = elim (Bool-cases (out_of_range task max_tasks)) [
    | inl e ↦ rw e v
    | inr e ↦
        rw e
          (close_below-Closed (pos_part task) task_max_fds s (in_range task max_tasks e)
            (omega arith) v).balanced
  ]
