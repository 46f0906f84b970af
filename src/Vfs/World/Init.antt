-- ===== src/Vfs/World/Init.antt =====
-- kernel/vfs.c: the state after vfs_init.
use neuro_spark.Prelude.{ℕ, ◌≡◌, refl, arith, some, none, Option, List}
use neuro_spark.Vfs.Descriptors.{VfsBackendOps, State}
use neuro_spark.Vfs.Descriptors.Balance.{Balanced, nothing}
use neuro_spark.Vfs.Mounts.{vfs_mount, root}
use neuro_spark.Vfs.Mounts.Longest.{HasLengths, vfs_mount-HasLengths}
use neuro_spark.Vfs.Ramdisk.Valid.{IsValid}
use neuro_spark.Vfs.World.{World, backend_at, cleared, vfs_init, tfs_ops}
use neuro_spark.Vfs.Calls.{Call, MayMakeAll, calls, calls-Balanced}

module _ {E : Type 0} where
  -- Mounting changes the mounts alone.
  vfs_mount-mounts :
      (path : List ℕ) (o : Option ℕ) (s : State (World E))
      → let s' = (vfs_mount path o s).1 in
        (s'.fd_table ≡ s.fd_table) × (s'.task_fd_map ≡ s.task_fd_map) × (s'.world ≡ s.world)
  unfolding vfs_mount
  vfs_mount-mounts path none s = (refl, refl, refl)
  vfs_mount-mounts path (some o) s = (ground arith, ground arith, ground arith)

  cleared-Balanced : (s : State (World E)) → Balanced nothing (cleared s)
  unfolding cleared
  cleared-Balanced s = record {
    named = λ t i a b n. absurd (ground arith);
    counted = λ g l u. absurd (ground arith);
    held = λ g l u. absurd (ground arith);
  }

  cleared-IsValid : (s : State (World E)) → IsValid (cleared s).world.ramdisk
  unfolding cleared
  cleared-IsValid s = record {
    opened = λ i l u. absurd (ground arith);
    sizes = λ e l. ground arith;
    unique = λ d e l m p q r. absurd (ground arith);
  }

  cleared-HasLengths : (s : State (World E)) → HasLengths (cleared s)
  unfolding cleared
  cleared-HasLengths s = record {
    at_least = λ i l u. absurd (ground arith);
    measured = λ i l u. absurd (ground arith);
  }

  -- resolve_mount has what it needs.
  pub vfs_init-HasLengths : (s : State (World E)) → HasLengths (vfs_init s)
  unfolding vfs_init
  vfs_init-HasLengths s =
      vfs_mount-HasLengths root (some tfs_ops) (cleared s) (cleared-HasLengths s)

  Balanced-tables :
      (s s' : State (World E))
      → Balanced nothing s
      → s'.fd_table ≡ s.fd_table
      → s'.task_fd_map ≡ s.task_fd_map
      → Balanced nothing s'
  Balanced-tables s s' v a b = record {
    named = rw (a, b) v.named;
    counted = rw (a, b) v.counted;
    held = rw a v.held;
  }

  vfs_init-Balanced : (s : State (World E)) → Balanced nothing (vfs_init s)
  unfolding vfs_init
  vfs_init-Balanced s =
      let m = vfs_mount-mounts root (some tfs_ops) (cleared s) in
      Balanced-tables (cleared s) _ (cleared-Balanced s) m.0 m.1

  pub vfs_init-IsValid : (s : State (World E)) → IsValid (vfs_init s).world.ramdisk
  unfolding vfs_init
  vfs_init-IsValid s =
      let m = vfs_mount-mounts root (some tfs_ops) (cleared s) in rw m.2 (cleared-IsValid s)

  -- From vfs_init on, whatever sequence of vfs_open, vfs_close, vfs_dup, vfs_dup2, vfs_fcntl,
  -- vfs_read, vfs_write, vfs_lseek, vfs_ftruncate, vfs_close_all_for_task and vfs_clone_task_fds is
  -- called by whichever task and whatever the other backends do, as long as descriptors are cloned
  -- only to another task that has none open: every open descriptor names an entry in use that has a
  -- backend, and every entry in use counts as many references as descriptors name it, at least one.
  pub calls-vfs_init :
      (others : ℕ → VfsBackendOps (World E)) (cs : List Call) (s : State (World E))
      → MayMakeAll (backend_at others) cs (vfs_init s)
      → Balanced nothing (calls (backend_at others) cs (vfs_init s))
  calls-vfs_init others cs s m =
      calls-Balanced (backend_at others) cs (vfs_init s) (vfs_init-Balanced s) m
