-- ===== src/Vfs/World.antt =====
-- kernel/vfs.c: the tables of backend operations, and vfs_pipe. The pipes and the ramdisk are
-- those of this file; the operations of TFS and ext2 are a parameter over a state `E` of their own.
pub mod NoPipe
pub mod Files
pub mod Loops
pub mod RoundTrip
pub mod Init
use neuro_spark.Prelude.{
  ℕ, zero, suc, ◌+◌, Bool, true, false, ◌&&◌, ◌||◌, not, Option, none, some, List, [], ◌∷◌, ◌==◌,
  ltb, if◌then◌else◌, update,
}
use neuro_spark.Prelude.Int.{ℤ, pos, negsuc, pos_part}
use neuro_spark.Vfs.{
  vfs_ok, vfs_err_no_space, vfs_err_invalid_arg, vfs_err_perm, is_neg, int_eq, vfs_o_rdonly,
  vfs_o_wronly,
}
use neuro_spark.Vfs.Pipes.{
  VfsPipe, VfsPipeHandle, pipe_max, handle_max, Pipes, pipe_read_backend, pipe_write_backend,
  pipe_close_backend, vfs_pipe_alloc_slot, vfs_pipe_handle_alloc, set_pipe,
}
use neuro_spark.Vfs.Ramdisk.{
  Ramdisk, RamdiskFile, RamdiskHandle, max_files, max_handles, ramdisk_open, ramdisk_read,
  ramdisk_write, ramdisk_close, ramdisk_delete, ramdisk_lseek, ramdisk_stat, ramdisk_rename,
  ramdisk_truncate, ramdisk_ftruncate,
}
use neuro_spark.Vfs.Descriptors.{
  VfsBackendOps, VfsMount, VfsFd, free_fd, max_global_fds, task_max_fds, State, current_task_id,
  alloc_task_fd, alloc_global_fd, set_entry, set_fd,
}
use neuro_spark.Vfs.Mounts.{vfs_mount, root, max_mounts}
use neuro_spark.Task.{max_tasks}

pub record World (E : Type 0) : Type 0 where
  pub pipes : Pipes
  pub ramdisk : Ramdisk
  pub others : E

-- The addresses of the tables of operations.
abbrev pub pipe_ops : ℕ
pipe_ops = 0

abbrev pub ramdisk_ops : ℕ
ramdisk_ops = 1

-- A handle is closed if there is one.
abbrev pub close_pipe_handle : ℤ → Pipes → Pipes
close_pipe_handle h p = if is_neg h then p else (pipe_close_backend h p).1

abbrev pub index : Option ℕ → ℤ
index none = negsuc 0
index (some i) = pos i

abbrev pub pipe_fd : ℤ → ℕ → VfsFd
pipe_fd h flags = record {
  used = true;
  ops = some pipe_ops;
  backend_handle = h;
  flags = flags;
  ref_count = 1;
}

abbrev pub tfs_ops : ℕ
tfs_ops = 2

abbrev pub no_mount : VfsMount
no_mount = record { used = false; mount_path = []; mount_len = 0; ops = none }

abbrev pub empty_pipe : VfsPipe → VfsPipe
empty_pipe p = record p {
  used = false;
  head = 0;
  tail = 0;
  count = 0;
  read_refs = 0;
  write_refs = 0;
}

abbrev pub no_pipe_handle : VfsPipeHandle
no_pipe_handle = record { used = false; pipe_idx = negsuc 0; writable = false }

abbrev pub empty_file : RamdiskFile → RamdiskFile
empty_file f = record f { used = false; name = []; size = 0; inode = 0; mtime = 0 }

abbrev pub no_handle : RamdiskHandle
no_handle = record { used = false; entry_idx = negsuc 0; offset = 0; flags = 0 }

module _ {E : Type 0} where
  abbrev pub in_pipes : World E → ℤ × Pipes → ℤ × World E
  in_pipes w (rc, p) = (rc, record w { pipes = p })

  abbrev pub in_ramdisk : World E → ℤ × Ramdisk → ℤ × World E
  in_ramdisk w (rc, r) = (rc, record w { ramdisk = r })

  unfoldable pub pipe_backend_ops : VfsBackendOps (World E)
  pipe_backend_ops = record {
    open_op = none;
    read = some (λ h buf n w.
        let (rc, buf', p) = pipe_read_backend h buf n w.pipes in
        (rc, buf', record w { pipes = p }));
    write = some (λ h buf n w. in_pipes w (pipe_write_backend h buf n w.pipes));
    close = some (λ h w. in_pipes w (pipe_close_backend h w.pipes));
    delete = some (λ path w. (vfs_err_perm, w));
    lseek = some (λ h by whence w. (vfs_err_invalid_arg, w));
    stat = some (λ path w. ((vfs_err_invalid_arg, none), w));
    rename = some (λ old new w. (vfs_err_perm, w));
    truncate = some (λ path n w. (vfs_err_perm, w));
    ftruncate = some (λ h n w. (vfs_err_perm, w));
    link = some (λ old new w. (vfs_err_perm, w));
  }

  unfoldable pub ramdisk_backend_ops : VfsBackendOps (World E)
  ramdisk_backend_ops = record {
    open_op = some (λ path flags w. in_ramdisk w (ramdisk_open path flags w.ramdisk));
    read = some (λ h buf n w.
        let (rc, buf', r) = ramdisk_read h buf n w.ramdisk in (rc, buf', record w { ramdisk = r }));
    write = some (λ h buf n w. in_ramdisk w (ramdisk_write h buf n w.ramdisk));
    close = some (λ h w. in_ramdisk w (ramdisk_close h w.ramdisk));
    delete = some (λ path w. in_ramdisk w (ramdisk_delete path w.ramdisk));
    lseek = some (λ h by whence w. in_ramdisk w (ramdisk_lseek h by whence w.ramdisk));
    stat = some (λ path w. (ramdisk_stat path w.ramdisk, w));
    rename = some (λ old new w. in_ramdisk w (ramdisk_rename old new w.ramdisk));
    truncate = some (λ path n w. in_ramdisk w (ramdisk_truncate path n w.ramdisk));
    ftruncate = some (λ h n w. in_ramdisk w (ramdisk_ftruncate h n w.ramdisk));
    link = some (λ old new w. (vfs_err_invalid_arg, w));
  }

  -- Where the tables stand: pipes, the ramdisk, and behind them the others.
  unfoldable pub backend_at : (ℕ → VfsBackendOps (World E)) → ℕ → VfsBackendOps (World E)
  unfolding pipe_backend_ops ramdisk_backend_ops
  backend_at others zero = pipe_backend_ops
  backend_at others (suc zero) = ramdisk_backend_ops
  backend_at others (suc (suc n)) = others n

  abbrev pub in_state_pipes : State (World E) → Pipes → State (World E)
  in_state_pipes s p = record s { world = record s.world { pipes = p } }

  abbrev pub mark_used : ℤ → Bool → State (World E) → State (World E)
  mark_used g b s =
      let k = pos_part g in
      if is_neg g then s else set_entry k (record (s.fd_table k) { used = b }) s

  -- `if (read_lfd >= 0) task_fd_map[task_id][read_lfd] = -2;`
  abbrev pub reserve : ℕ → ℤ → State (World E) → State (World E)
  reserve t i s = if is_neg i then s else set_fd t (pos_part i) (negsuc 1) s

  -- `if (read_lfd >= 0 && task_fd_map[..] == -2) task_fd_map[..] = -1;`
  abbrev pub unreserve : ℕ → ℤ → State (World E) → State (World E)
  unreserve t i s =
      if not (is_neg i) && int_eq (s.task_fd_map t (pos_part i)) (negsuc 1)
      then set_fd t (pos_part i) (negsuc 0) s
      else s

  -- Two entries of the shared table, the first one reserved while the second is looked for.
  unfoldable pub reserve_gfds : State (World E) → ℤ × ℤ × State (World E)
  reserve_gfds s =
      let rg = index (alloc_global_fd s) in
      let s1 = mark_used rg true s in
      let wg = index (alloc_global_fd s1) in (rg, wg, mark_used wg true s1)

  -- Two descriptors of the task `t`, the first one reserved by -2.
  unfoldable pub reserve_fds : ℕ → State (World E) → ℤ × ℤ × State (World E)
  reserve_fds t s =
      let rl = index (alloc_task_fd t s) in
      let s1 = reserve t rl s in (rl, index (alloc_task_fd t s1), s1)

  -- The entries are filled, or the reservations taken back.
  unfoldable pub finish_pipe :
      ℤ
      → ℤ
      → ℤ × ℤ × State (World E)
      → ℤ × ℤ × State (World E)
      → ℤ × Option (ℤ × ℤ) × State (World E)
  finish_pipe rh wh (rg, wg, s2) (rl, wl, s3) =
      let t = current_task_id s3 in
      let back = unreserve t rl (mark_used wg false (mark_used rg false s3)) in
      let shut = (pipe_close_backend wh (pipe_close_backend rh back.world.pipes).1).1 in
      let s4 = set_entry (pos_part rg) (pipe_fd rh vfs_o_rdonly) s3 in
      let s5 = set_entry (pos_part wg) (pipe_fd wh vfs_o_wronly) s4 in
      if is_neg rg || is_neg wg || is_neg rl || is_neg wl || int_eq rl wl
      then (vfs_err_no_space, none, in_state_pipes back shut)
      else (vfs_ok, some (rl, wl), set_fd t (pos_part wl) wg (set_fd t (pos_part rl) rg s5))

  -- The descriptors of a pipe whose two handles are there.
  unfoldable pub bind_pipe : ℤ → ℤ → State (World E) → ℤ × Option (ℤ × ℤ) × State (World E)
  unfolding finish_pipe
  bind_pipe rh wh s =
      let g = reserve_gfds s in finish_pipe rh wh g (reserve_fds (current_task_id s) g.2)

  -- The two pointers are not null; the answer holds what is stored through them.
  unfoldable pub vfs_pipe : State (World E) → ℤ × Option (ℤ × ℤ) × State (World E)
  vfs_pipe s =
      let (k, p0) = vfs_pipe_alloc_slot s.world.pipes in
      let (rh, p1) = vfs_pipe_handle_alloc (pos_part k) false p0 in
      let (wh, p2) = vfs_pipe_handle_alloc (pos_part k) true p1 in
      let p3 = close_pipe_handle wh (close_pipe_handle rh p2) in
      let freed = set_pipe (pos_part k) (record (p3.pipes (pos_part k)) { used = false }) p3 in
      if is_neg k
      then (vfs_err_no_space, none, s)
      else if is_neg rh || is_neg wh
      then (vfs_err_no_space, none, in_state_pipes s freed)
      else bind_pipe rh wh (in_state_pipes s p2)

  -- The tables are emptied; those of TFS are not modelled.
  unfoldable pub cleared : State (World E) → State (World E)
  cleared s =
      let p = s.world.pipes in
      let r = s.world.ramdisk in
      record s {
        mounts = λ i. if ltb i max_mounts then no_mount else s.mounts i;
        fd_table = λ g. if ltb g max_global_fds then free_fd else s.fd_table g;
        task_fd_map =
            λ t i. if ltb t max_tasks && ltb i task_max_fds then negsuc 0 else s.task_fd_map t i;
        world = record s.world {
          pipes = record {
            pipes = λ i. if ltb i pipe_max then empty_pipe (p.pipes i) else p.pipes i;
            handles = λ i. if ltb i handle_max then no_pipe_handle else p.handles i;
          };
          ramdisk = record {
            files = λ i. if ltb i max_files then empty_file (r.files i) else r.files i;
            handles = λ i. if ltb i max_handles then no_handle else r.handles i;
            next_inode = 1;
            mtime_tick = 1;
          };
        };
      }

  -- The table of TFS, which stands at `tfs_ops`, is mounted at the root.
  unfoldable pub vfs_init : State (World E) → State (World E)
  unfolding cleared
  vfs_init s = (vfs_mount root (some tfs_ops) (cleared s)).1
