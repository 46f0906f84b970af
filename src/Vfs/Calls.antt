-- ===== src/Vfs/Calls.antt =====
-- kernel/vfs.c: any sequence of calls on descriptors, over any backends.
use neuro_spark.Prelude.{
  ℕ, ◌<◌, ◌≡◌, arith, true, false, not, Bool-cases, Option-cases, inl, inr, some, none, Option,
  List, [], ◌∷◌, find_index-some, ◌≢◌, ap, ◌||◌,
}
use neuro_spark.Prelude.Int.{ℤ, pos, negsuc, pos_part}
use neuro_spark.Vfs.{is_neg, out_of_range}
use neuro_spark.Vfs.Descriptors.Clone.{clone_lem}
use neuro_spark.Task.{max_tasks}
use neuro_spark.Vfs.Descriptors.{
  VfsBackendOps, State, current_task_id, alloc_task_fd, alloc_global_fd, max_global_fds, find_op,
  vfs_read, vfs_write, vfs_close, vfs_lseek, vfs_ftruncate, vfs_dup, vfs_dup2, vfs_fcntl,
  vfs_close_all_for_task, vfs_clone_task_fds, task_max_fds, on_handle, task_fd_to_global, bad_gfd,
}
use neuro_spark.Vfs.Descriptors.Balance.{Balanced, nothing, enter-Balanced}
use neuro_spark.Vfs.Descriptors.Dup.{
  current_in, Balanced-world, alloc_task_fd-some, dup-Balanced, fcntl-Balanced,
}
use neuro_spark.Vfs.Descriptors.Operations.{close-Balanced, dup2-Balanced, close_all-Balanced}
use neuro_spark.Vfs.Mounts.{vfs_open, opened, install, resolve_mount}

pub data Call : Type 0 where
  opening : List ℕ → ℕ → Call
  closing : ℤ → Call
  dup : ℤ → Call
  dup2 : ℤ → ℤ → Call
  fcntl : ℤ → ℕ → ℕ → Call
  reading : ℤ → Option (ℕ → ℕ) → ℕ → Call
  writing : ℤ → Option (ℕ → ℕ) → ℕ → Call
  seeking : ℤ → ℤ → ℕ → Call
  cutting : ℤ → ℕ → Call
  exiting : ℤ → Call
  switching : ℤ → Call
  cloning : ℤ → ℤ → Call

module _ {W : Type 0} (backend : ℕ → VfsBackendOps W) where
  -- A call by the current task, the end of a task, a switch to another, or a clone.
  unfoldable pub call : Call → State W → State W
  call (opening path flags) s = (vfs_open backend path flags s).1
  call (closing fd) s = (vfs_close backend fd s).1
  call (dup fd) s = (vfs_dup fd s).1
  call (dup2 fd newfd) s = (vfs_dup2 backend fd newfd s).1
  call (fcntl fd cmd arg) s = (vfs_fcntl fd cmd arg s).1
  call (reading fd buf size) s = (vfs_read backend fd buf size s).2
  call (writing fd buf size) s = (vfs_write backend fd buf size s).1
  call (seeking fd by whence) s = (vfs_lseek backend fd by whence s).1
  call (cutting fd size) s = (vfs_ftruncate backend fd size s).1
  call (exiting task) s = vfs_close_all_for_task backend task s
  call (switching task) s = record s { current = task }
  call (cloning src dst) s = (vfs_clone_task_fds src dst s).1

  unfoldable pub calls : List Call → State W → State W
  calls [] s = s
  calls (c ∷ cs) s = calls cs (call c s)

  -- Descriptors are cloned to another task, which has none open.
  abbrev pub MayMake : Call → State W → Type 0
  MayMake (cloning src dst) s =
      (src ≢ dst) × ((j : ℕ) → j < task_max_fds → is_neg (s.task_fd_map (pos_part dst) j) ≡ true)
  MayMake _ s = Unit

  -- So is it at every clone of the sequence.
  abbrev pub MayMakeAll : List Call → State W → Type 0
  MayMakeAll [] s = Unit
  MayMakeAll (c ∷ cs) s = MayMake c s × MayMakeAll cs (call c s)

  alloc_global_fd-some :
      (g : ℕ) (s : State W)
      → alloc_global_fd s ≡ some g
      → (g < max_global_fds) × ((s.fd_table g).used ≡ false)
  unfolding alloc_global_fd
  alloc_global_fd-some g s e =
      let r = find_index-some (λ i. not (s.fd_table i).used) max_global_fds 0 e in
      let free : not (s.fd_table g).used ≡ true = r.2 in (omega (arith, r.1), ground arith)

  install-Balanced :
      (o : ℕ) (h : ℤ) (flags : ℕ) (s : State W)
      → Balanced nothing s
      → Balanced nothing (install backend (some o) h flags s).1
  unfolding install
  install-Balanced o h flags s v =
      let t = current_task_id s in
      elim (Option-cases (alloc_global_fd s)) [
        | inl e ↦ rw (e, install) (Balanced-world nothing _ s v)
        | inr (g, e) ↦ elim (Option-cases (alloc_task_fd t s)) [
          | inl d ↦ rw (e, d, install) (Balanced-world nothing _ s v)
          | inr (i, d) ↦
              let entry = alloc_global_fd-some g s e in
              let slot = alloc_task_fd-some t i s d in
              rw (e, d, install)
                (enter-Balanced t i g o h flags s v (current_in s) slot.0 entry.0 slot.1 entry.1)
        ]
      ]

  opened-Balanced :
      (o flags : ℕ) (r : ℤ × W) (s : State W)
      → Balanced nothing s
      → Balanced nothing (opened backend (some o) flags r s).1
  unfolding opened
  opened-Balanced o flags r s v = elim (Bool-cases (is_neg r.0)) [
    | inl e ↦ rw e (Balanced-world nothing r.1 s v)
    | inr e ↦
        rw e
          (install-Balanced o r.0 flags (record s { world = r.1 }) (Balanced-world nothing r.1 s v))
  ]

  open-Balanced :
      (path : List ℕ) (flags : ℕ) (s : State W)
      → Balanced nothing s
      → Balanced nothing (vfs_open backend path flags s).1
  unfolding vfs_open find_op
  open-Balanced [] flags s v = v
  open-Balanced (c ∷ path) flags s v = elim (Option-cases (resolve_mount (c ∷ path) s)) [
    | inl e ↦ rw e v
    | inr ((none, rel), e) ↦ rw e v
    | inr ((some p, rel), e) ↦ elim (Option-cases (backend p).open_op) [
      | inl d ↦ rw (e, d) v
      | inr (f, d) ↦ rw (e, d) (opened-Balanced p flags (f rel flags s.world) s v)
    ]
  ]

  on_handle-Balanced :
      {F : Type 0} (select : VfsBackendOps W → Option F) (run : F → ℤ → W → ℤ × W) (fd : ℤ)
      (s : State W)
      → Balanced nothing s
      → Balanced nothing (on_handle backend select run fd s).1
  unfolding on_handle
  on_handle-Balanced select run fd s v =
      let e = s.fd_table (pos_part (task_fd_to_global fd s)) in
      elim (Bool-cases (bad_gfd (task_fd_to_global fd s) s)) [
        | inl b ↦ rw b v
        | inr b ↦ elim (Option-cases (find_op backend select e.ops)) [
          | inl d ↦ rw (b, d, on_handle) v
          | inr (f, d) ↦ rw (b, d, on_handle) (Balanced-world nothing _ s v)
        ]
      ]

  read-Balanced :
      (fd : ℤ) (buf : Option (ℕ → ℕ)) (size : ℕ) (s : State W)
      → Balanced nothing s
      → Balanced nothing (vfs_read backend fd buf size s).2
  unfolding vfs_read
  read-Balanced fd buf size s v =
      let e = s.fd_table (pos_part (task_fd_to_global fd s)) in
      elim (Bool-cases (bad_gfd (task_fd_to_global fd s) s)) [
        | inl b ↦ rw b v
        | inr b ↦ elim (Option-cases (find_op backend (λ o. o.read) e.ops)) [
          | inl d ↦ rw (b, d, vfs_read) v
          | inr (f, d) ↦ rw (b, d, vfs_read) (Balanced-world nothing _ s v)
        ]
      ]

  clone-Balanced :
      (src dst : ℤ) (s : State W)
      → Balanced nothing s
      → MayMake (cloning src dst) s
      → Balanced nothing (vfs_clone_task_fds src dst s).1
  unfolding vfs_clone_task_fds
  clone-Balanced (negsuc a) dst s v m = v
  clone-Balanced (pos a) (negsuc b) s v m = elim (Bool-cases (out_of_range (pos a) max_tasks)) [
    | inl e ↦ rw e v
    | inr e ↦ rw e v
  ]
  clone-Balanced (pos a) (pos b) s v m =
      elim (Bool-cases (out_of_range (pos a) max_tasks || out_of_range (pos b) max_tasks)) [
        | inl e ↦ rw e v
        | inr e ↦
            let w = clone_lem a b s (λ q. m.0 (ap pos q)) (ground arith) (ground arith) v m.1 in
            unfold vfs_clone_task_fds in w.1
      ]

  call-Balanced :
      (c : Call) (s : State W) → Balanced nothing s → MayMake c s → Balanced nothing (call c s)
  unfolding call vfs_write vfs_lseek vfs_ftruncate
  call-Balanced (opening path flags) s v m = open-Balanced path flags s v
  call-Balanced (closing fd) s v m = close-Balanced backend fd s v
  call-Balanced (dup fd) s v m = dup-Balanced fd s v
  call-Balanced (dup2 fd newfd) s v m = dup2-Balanced backend fd newfd s v
  call-Balanced (fcntl fd cmd arg) s v m = fcntl-Balanced fd cmd arg s v
  call-Balanced (reading fd buf size) s v m = read-Balanced fd buf size s v
  call-Balanced (writing fd buf size) s v m =
      on_handle-Balanced (λ o. o.write) (λ f h w. f h buf size w) fd s v
  call-Balanced (seeking fd by whence) s v m =
      on_handle-Balanced (λ o. o.lseek) (λ f h w. f h by whence w) fd s v
  call-Balanced (cutting fd size) s v m =
      on_handle-Balanced (λ o. o.ftruncate) (λ f h w. f h size w) fd s v
  call-Balanced (exiting task) s v m = close_all-Balanced backend task s v
  call-Balanced (switching task) s v m = record {
    named = v.named;
    counted = v.counted;
    held = v.held;
  }
  call-Balanced (cloning src dst) s v m = clone-Balanced src dst s v m

  -- Whatever backends there are and whatever is called on descriptors by whichever task, from a
  -- state whose reference counts are exact, as long as descriptors are cloned only to another task
  -- that has none open: they stay exact.
  pub calls-Balanced :
      (cs : List Call) (s : State W)
      → Balanced nothing s
      → MayMakeAll cs s
      → Balanced nothing (calls cs s)
  unfolding calls
  calls-Balanced [] s v m = v
  calls-Balanced (c ∷ cs) s v m = calls-Balanced cs (call c s) (call-Balanced c s v m.0) m.1
