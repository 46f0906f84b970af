-- ===== src/Vfs/World/NoPipe.antt =====
-- kernel/vfs.c: vfs_pipe reserves the descriptor for reading by -2, which counts as free.
use neuro_spark.Prelude.{
  ℕ, ◌≡◌, refl, arith, true, false, ◌||◌, Bool-cases, Option-cases, inl, inr, some, none, Option,
  find_index_first, find_index-some,
}
use neuro_spark.Prelude.Int.{ℤ, negsuc, pos_part}
use neuro_spark.Vfs.{is_neg, vfs_err_no_space, int_eq}
use neuro_spark.Vfs.Descriptors.{State, task_max_fds, alloc_task_fd, current_task_id, set_fd}
use neuro_spark.Vfs.Pipes.{vfs_pipe_alloc_slot, vfs_pipe_handle_alloc}
use neuro_spark.Vfs.World.{World, bind_pipe, finish_pipe, reserve_gfds, reserve_fds, vfs_pipe}

module _ {E : Type 0} where
  -- The reserved descriptor is found again.
  found_again :
      (t i : ℕ) (s : State (World E))
      → alloc_task_fd t s ≡ some i
      → alloc_task_fd t (set_fd t i (negsuc 1) s) ≡ some i
  unfolding alloc_task_fd
  found_again t i s e =
      let r = find_index-some (λ j. is_neg (s.task_fd_map t j)) task_max_fds 0 e in
      find_index_first (λ j. is_neg ((set_fd t i (negsuc 1) s).task_fd_map t j)) task_max_fds i
        (omega (arith, r.1)) (ground arith) (λ j l. ground (arith, r.3 j (omega arith) l))

  -- The two descriptors are the same, or there is none.
  reserve_fds_clash :
      (t : ℕ) (s : State (World E))
      → let (rl, wl, s') = reserve_fds t s in (is_neg rl || is_neg wl || int_eq rl wl) ≡ true
  unfolding reserve_fds
  reserve_fds_clash t s = elim (Option-cases (alloc_task_fd t s)) [
    | inl e ↦ rw e refl
    | inr (i, e) ↦ rw (e, found_again t i s e) (ground arith)
  ]

  -- The answer of a call that finds no space.
  record NoSpace (r : ℤ × Option (ℤ × ℤ) × State (World E)) : Type 0 where
    answer : r.0 ≡ vfs_err_no_space
    stored : r.1 ≡ none

  finish_pipe_fails :
      (rh wh : ℤ) (g r : ℤ × ℤ × State (World E))
      → (is_neg r.0 || is_neg r.1 || int_eq r.0 r.1) ≡ true
      → NoSpace (finish_pipe rh wh g r)
  unfolding finish_pipe
  finish_pipe_fails rh wh g r h =
      let test : (is_neg g.0 || is_neg g.1 || is_neg r.0 || is_neg r.1 || int_eq r.0 r.1) ≡ true =
        ground arith in
      rw test (record { answer = refl; stored = refl })

  bind_pipe_fails : (rh wh : ℤ) (s : State (World E)) → NoSpace (bind_pipe rh wh s)
  unfolding bind_pipe
  bind_pipe_fails rh wh s =
      let g = reserve_gfds s in
      let t = current_task_id s in
      finish_pipe_fails rh wh g (reserve_fds t g.2) (reserve_fds_clash t g.2)

  vfs_pipe-NoSpace : (s : State (World E)) → NoSpace (vfs_pipe s)
  unfolding vfs_pipe
  vfs_pipe-NoSpace s =
      let a = vfs_pipe_alloc_slot s.world.pipes in
      let b = vfs_pipe_handle_alloc (pos_part a.0) false a.1 in
      let c = vfs_pipe_handle_alloc (pos_part a.0) true b.1 in
      elim (Bool-cases (is_neg a.0)) [
        | inl e ↦ rw e (record { answer = refl; stored = refl })
        | inr e ↦ elim (Bool-cases (is_neg b.0 || is_neg c.0)) [
          | inl d ↦ rw (e, d) (record { answer = refl; stored = refl })
          | inr d ↦ rw (e, d) (bind_pipe_fails b.0 c.0 _)
        ]
      ]

  -- In every state vfs_pipe answers that there is no space, and stores no descriptors: the one that
  -- it reserves for reading, by -2, is found again as the one for writing.
  pub vfs_pipe_fails :
      (s : State (World E)) → ((vfs_pipe s).0 ≡ vfs_err_no_space) × ((vfs_pipe s).1 ≡ none)
  vfs_pipe_fails s = let v = vfs_pipe-NoSpace s in (v.answer, v.stored)
