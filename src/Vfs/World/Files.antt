-- ===== src/Vfs/World/Files.antt =====
-- kernel/vfs.c: whole calls on a file of the ramdisk, from the path or the descriptor down to its
-- bytes.
use neuro_spark.Prelude.{
  ℕ, ◌<◌, ◌≡◌, refl, ap, ◌∙◌, arith, true, false, leb, Option-cases, inl, inr, some, Option, update,
  List, ◌∷◌,
}
use neuro_spark.Prelude.Int.{ℤ, pos, negsuc}
use neuro_spark.Vfs.{is_neg}
use neuro_spark.Vfs.Descriptors.{
  VfsBackendOps, VfsFd, State, task_max_fds, max_global_fds, bad_gfd, set_fd, set_entry, free_fd,
  find_op, close_handle, close_global_fd, vfs_read, vfs_write, vfs_close, task_fd_to_global,
  current_task_id, alloc_task_fd, alloc_global_fd,
}
use neuro_spark.Vfs.Mounts.{vfs_open, opened, install, resolve_mount}
use neuro_spark.Vfs.Ramdisk.{Ramdisk, ramdisk_read, ramdisk_write, ramdisk_close, ramdisk_open}
use neuro_spark.Vfs.World.{World, ramdisk_ops, backend_at, in_ramdisk}

-- The state with another ramdisk.
abbrev pub with_ramdisk : {E : Type 0} → State (World E) → Ramdisk → State (World E)
with_ramdisk s r = record s { world = record s.world { ramdisk = r } }

-- The descriptor `i` of the current task is the only one of the entry `g`, which stands for the
-- handle `h` of the ramdisk.
pub record Open {E : Type 0} (i g h : ℕ) (s : State (World E)) : Type 0 where
  pub fd_in : i < task_max_fds
  pub entry_in : g < max_global_fds
  pub fd_at : s.task_fd_map (current_task_id s) i ≡ pos g
  pub used_at : (s.fd_table g).used ≡ true
  pub ops_at : (s.fd_table g).ops ≡ some ramdisk_ops
  pub handle_at : (s.fd_table g).backend_handle ≡ pos h
  pub count_at : (s.fd_table g).ref_count ≡ 1

module _ {E : Type 0} (others : ℕ → VfsBackendOps (World E)) where
  global_at : (i g h : ℕ) (s : State (World E)) → Open i g h s → task_fd_to_global (pos i) s ≡ pos g
  unfolding task_fd_to_global
  global_at i g h s o =
      let l : leb task_max_fds i ≡ false = ground (arith, o.fd_in) in rw (l, o.fd_at) refl

  good_at : (i g h : ℕ) (s : State (World E)) → Open i g h s → bad_gfd (pos g) s ≡ false
  good_at i g h s o =
      let l : leb max_global_fds g ≡ false = ground (arith, o.entry_in) in
      rw (l, o.used_at, o.ops_at) refl

  -- Writing and reading go to the ramdisk.
  pub vfs_write_at :
      (i g h : ℕ) (buf : ℕ → ℕ) (size : ℕ) (s : State (World E))
      → Open i g h s
      → vfs_write (backend_at others) (pos i) (some buf) size s ≡ (
        (ramdisk_write (pos h) (some buf) size s.world.ramdisk).0,
        with_ramdisk s (ramdisk_write (pos h) (some buf) size s.world.ramdisk).1,
      )
  unfolding vfs_write backend_at find_op
  vfs_write_at i g h buf size s o =
      rw (global_at i g h s o, good_at i g h s o, o.ops_at, backend_at)
        (rw (global_at i g h s o, o.handle_at) refl)

  pub vfs_read_at :
      (i g h : ℕ) (buf : ℕ → ℕ) (size : ℕ) (s : State (World E))
      → Open i g h s
      → vfs_read (backend_at others) (pos i) (some buf) size s ≡ (
        (ramdisk_read (pos h) (some buf) size s.world.ramdisk).0,
        (ramdisk_read (pos h) (some buf) size s.world.ramdisk).1,
        with_ramdisk s (ramdisk_read (pos h) (some buf) size s.world.ramdisk).2,
      )
  unfolding vfs_read backend_at find_op
  vfs_read_at i g h buf size s o =
      rw (global_at i g h s o, good_at i g h s o, o.ops_at, backend_at)
        (rw (global_at i g h s o, o.handle_at) refl)

  pub vfs_close_at :
      (i g h : ℕ) (s : State (World E))
      → Open i g h s
      → (vfs_close (backend_at others) (pos i) s).1 ≡ record s {
        task_fd_map = (set_fd (current_task_id s) i (negsuc 0) s).task_fd_map;
        fd_table = update s.fd_table g free_fd;
        world = record s.world { ramdisk = (ramdisk_close (pos h) s.world.ramdisk).1 };
      }
  unfolding vfs_close close_global_fd close_handle backend_at find_op
  vfs_close_at i g h s o =
      let l : leb task_max_fds i ≡ false = ground (arith, o.fd_in) in
      let m : leb max_global_fds g ≡ false = ground (arith, o.entry_in) in
      rw (l, o.fd_at, m, o.used_at, o.ops_at, o.handle_at, o.count_at) refl

abbrev entry_of : ℕ → ℕ → VfsFd
entry_of h flags = record {
  used = true;
  ops = some ramdisk_ops;
  backend_handle = pos h;
  flags = flags;
  ref_count = 1;
}

-- The state after the ramdisk answered the handle `h` and both tables had room.
abbrev pub open_state : {E : Type 0} → ℕ → ℕ → ℕ → ℕ → Ramdisk → State (World E) → State (World E)
open_state i g h flags disk s =
    set_fd (current_task_id s) i (pos g) (set_entry g (entry_of h flags) (with_ramdisk s disk))

-- An open that succeeds on the ramdisk.
pub record Opens {E : Type 0} (rel : List ℕ) (flags i g h : ℕ) (disk : Ramdisk)
    (s : State (World E)) : Type 0 where
  pub opens : ramdisk_open rel flags s.world.ramdisk ≡ (pos h, disk)
  pub entry_free : alloc_global_fd s ≡ some g
  pub fd_free : alloc_task_fd (current_task_id s) s ≡ some i

module _ {E : Type 0} (others : ℕ → VfsBackendOps (World E)) where
  open_eq :
      (c : ℕ) (path rel : List ℕ) (flags : ℕ) (s : State (World E))
      → resolve_mount (c ∷ path) s ≡ some (some ramdisk_ops, rel)
      → vfs_open (backend_at others) (c ∷ path) flags s
        ≡ opened
            (backend_at others)
            (some ramdisk_ops)
            flags
            (in_ramdisk s.world (ramdisk_open rel flags s.world.ramdisk))
            s
  unfolding vfs_open backend_at find_op
  open_eq c path rel flags s e = rw e refl

  install_at :
      (o : Option ℕ) (h : ℤ) (flags i g : ℕ) (s : State (World E))
      → alloc_global_fd s ≡ some g
      → alloc_task_fd (current_task_id s) s ≡ some i
      → install (backend_at others) o h flags s ≡ (
        pos i,
        set_fd (current_task_id s) i (pos g) (
            set_entry g
              (record { used = true; ops = o; backend_handle = h; flags = flags; ref_count = 1 })
              s),
      )
  unfolding install
  install_at o h flags i g s a b = rw (a, b, install) refl

  install_inv :
      (o : Option ℕ) (h : ℤ) (flags : ℕ) (s : State (World E))
      → is_neg (install (backend_at others) o h flags s).0 ≡ false
      → (i : ℕ) × (g : ℕ) × (alloc_global_fd s ≡ some g)
        × (alloc_task_fd (current_task_id s) s ≡ some i)
  unfolding install
  install_inv o h flags s ok = elim (Option-cases (alloc_global_fd s)) [
    | inl e ↦ absurd (ground arith)
    | inr (g, e) ↦ elim (Option-cases (alloc_task_fd (current_task_id s) s)) [
      | inl d ↦ absurd (ground arith)
      | inr (i, d) ↦ (i, g, e, d)
    ]
  ]

  -- With room in the tables the descriptor is the lowest free one.
  pub vfs_open_at :
      (c : ℕ) (path rel : List ℕ) (flags i g h : ℕ) (disk : Ramdisk) (s : State (World E))
      → resolve_mount (c ∷ path) s ≡ some (some ramdisk_ops, rel)
      → Opens rel flags i g h disk s
      → vfs_open (backend_at others) (c ∷ path) flags s ≡ (pos i, open_state i g h flags disk s)
  unfolding opened alloc_global_fd alloc_task_fd current_task_id
  vfs_open_at c path rel flags i g h disk s e o =
      open_eq c path rel flags s e
      ∙ ap (λ r. opened (backend_at others) (some ramdisk_ops) flags (in_ramdisk s.world r) s)
          o.opens
      ∙ install_at (some ramdisk_ops) (pos h) flags i g (with_ramdisk s disk) o.entry_free o.fd_free

  opened_inv :
      (rel : List ℕ) (flags : ℕ) (r : ℤ × Ramdisk) (s : State (World E))
      → ramdisk_open rel flags s.world.ramdisk ≡ r
      → is_neg (opened (backend_at others) (some ramdisk_ops) flags (in_ramdisk s.world r) s).0
        ≡ false
      → (i : ℕ) × (g : ℕ) × (h : ℕ) × (disk : Ramdisk) × Opens rel flags i g h disk s
  unfolding opened alloc_global_fd alloc_task_fd current_task_id
  opened_inv rel flags (negsuc e, disk) s q ok = absurd (cc)
  opened_inv rel flags (pos h, disk) s q ok =
      let t = install_inv (some ramdisk_ops) (pos h) flags (with_ramdisk s disk) ok in
      (t.0, t.1, h, disk, record { opens = q; entry_free = t.2; fd_free = t.3 })

  -- What a successful open has found.
  pub vfs_open_inv :
      (c : ℕ) (path rel : List ℕ) (flags : ℕ) (s : State (World E))
      → resolve_mount (c ∷ path) s ≡ some (some ramdisk_ops, rel)
      → is_neg (vfs_open (backend_at others) (c ∷ path) flags s).0 ≡ false
      → (i : ℕ) × (g : ℕ) × (h : ℕ) × (disk : Ramdisk) × Opens rel flags i g h disk s
  vfs_open_inv c path rel flags s e ok =
      opened_inv rel flags (ramdisk_open rel flags s.world.ramdisk) s refl
        (rw (open_eq c path rel flags s e) at ok)
