-- ===== src/Vfs/Descriptors.antt =====
-- kernel/vfs.c: the descriptors of the tasks and the table that they share. A backend is reached
-- through an address of its operations, at which `backend` finds them; `W` is the state behind all
-- backends.
pub mod Refs
pub mod Balance
pub mod Dup
pub mod Operations
pub mod Clone
use neuro_spark.Prelude.{
  ℕ, zero, suc, ◌+◌, ◌-◌, Bool, true, false, ◌&&◌, ◌||◌, not, Option, none, some, List, [], ◌∷◌,
  ltb, leb, ◌==◌, if◌then◌else◌, update, find_index,
}
use neuro_spark.Prelude.Int.{ℤ, pos, negsuc, pos_part}
use neuro_spark.Vfs.{
  vfs_ok, vfs_err_invalid_fd, vfs_err_not_found, vfs_err_no_space, vfs_err_invalid_arg, is_neg,
  out_of_range, int_eq, VfsFileStat,
}
use neuro_spark.Task.{max_tasks}

abbrev pub task_max_fds : ℕ
task_max_fds = 256

abbrev pub max_global_fds : ℕ
max_global_fds = 512

-- `none` is a null pointer.
pub record VfsBackendOps (W : Type 0) : Type 0 where
  pub open_op : Option (List ℕ → ℕ → W → ℤ × W)
  pub read : Option (ℤ → Option (ℕ → ℕ) → ℕ → W → ℤ × Option (ℕ → ℕ) × W)
  pub write : Option (ℤ → Option (ℕ → ℕ) → ℕ → W → ℤ × W)
  pub close : Option (ℤ → W → ℤ × W)
  pub delete : Option (List ℕ → W → ℤ × W)
  pub lseek : Option (ℤ → ℤ → ℕ → W → ℤ × W)
  pub stat : Option (List ℕ → W → (ℤ × Option VfsFileStat) × W)
  pub rename : Option (List ℕ → List ℕ → W → ℤ × W)
  pub truncate : Option (List ℕ → ℕ → W → ℤ × W)
  pub ftruncate : Option (ℤ → ℕ → W → ℤ × W)
  pub link : Option (List ℕ → List ℕ → W → ℤ × W)

pub record VfsMount : Type 0 where
  pub used : Bool
  pub mount_path : List ℕ
  pub mount_len : ℕ
  pub ops : Option ℕ

pub record VfsFd : Type 0 where
  pub used : Bool
  pub ops : Option ℕ
  pub backend_handle : ℤ
  pub flags : ℕ
  pub ref_count : ℕ

pub record State (W : Type 0) : Type 0 where
  pub mounts : ℕ → VfsMount
  pub fd_table : ℕ → VfsFd
  pub task_fd_map : ℕ → ℕ → ℤ
  pub current : ℤ
  pub world : W

abbrev pub has_ops : Option ℕ → Bool
has_ops none = false
has_ops (some o) = true

-- `task_fd_map[t][i] = v`.
abbrev pub set_map : ℕ → ℕ → ℤ → (ℕ → ℕ → ℤ) → ℕ → ℕ → ℤ
set_map t i v map = update map t (update (map t) i v)

abbrev pub free_fd : VfsFd
free_fd = record { used = false; ops = none; backend_handle = negsuc 0; flags = 0; ref_count = 0 }

abbrev pub vfs_f_getfl : ℕ
vfs_f_getfl = 1

abbrev pub vfs_f_setfl : ℕ
vfs_f_setfl = 2

module _ {W : Type 0} where
  unfoldable pub current_task_id : State W → ℕ
  current_task_id s = if out_of_range s.current max_tasks then 0 else pos_part s.current

  -- `none` is the answer -1.
  unfoldable pub alloc_task_fd : ℕ → State W → Option ℕ
  alloc_task_fd t s = find_index (λ i. is_neg (s.task_fd_map t i)) task_max_fds 0

  unfoldable pub alloc_global_fd : State W → Option ℕ
  alloc_global_fd s = find_index (λ i. not (s.fd_table i).used) max_global_fds 0

  unfoldable pub task_fd_to_global : ℤ → State W → ℤ
  task_fd_to_global fd s =
      if out_of_range fd task_max_fds
      then negsuc 0
      else s.task_fd_map (current_task_id s) (pos_part fd)

  -- `g < 0 || g >= VFS_MAX_GLOBAL_FDS || !fd_table[g].used || fd_table[g].ops == 0`.
  abbrev pub bad_gfd : ℤ → State W → Bool
  bad_gfd g s =
      out_of_range g max_global_fds
      || not (s.fd_table (pos_part g)).used
      || not (has_ops (s.fd_table (pos_part g)).ops)

  abbrev pub set_entry : ℕ → VfsFd → State W → State W
  set_entry g e s = record s { fd_table = update s.fd_table g e }

  abbrev pub set_fd : ℕ → ℕ → ℤ → State W → State W
  set_fd t i v s = record s { task_fd_map = set_map t i v s.task_fd_map }

  -- One more descriptor for the entry.
  abbrev pub retain : ℕ → State W → State W
  retain g s = set_entry g (record (s.fd_table g) { ref_count = (s.fd_table g).ref_count + 1 }) s

  unfoldable pub vfs_dup : ℤ → State W → ℤ × State W
  vfs_dup fd s =
      let t = current_task_id s in
      let g = task_fd_to_global fd s in
      let answer : ℤ × State W = elim (alloc_task_fd t s) [
        | none ↦ (vfs_err_no_space, s)
        | some i ↦ (pos i, retain (pos_part g) (set_fd t i g s))
      ] in
      if bad_gfd g s then (vfs_err_invalid_fd, s) else answer

  unfoldable pub vfs_fcntl : ℤ → ℕ → ℕ → State W → ℤ × State W
  vfs_fcntl fd cmd arg s =
      let g = task_fd_to_global fd s in
      let k = pos_part g in
      let e = s.fd_table k in
      if out_of_range g max_global_fds || not e.used
      then (vfs_err_invalid_fd, s)
      else if cmd == vfs_f_getfl
      then (pos e.flags, s)
      else if cmd == vfs_f_setfl
      then (vfs_ok, set_entry k (record e { flags = arg }) s)
      else (vfs_err_invalid_arg, s)

  unfoldable pub clear_below : ℕ → ℕ → State W → State W
  clear_below t zero s = s
  clear_below t (suc n) s = set_fd t n (negsuc 0) (clear_below t n s)

  unfoldable pub clone_one : ℕ → ℕ → ℕ → State W → State W
  clone_one src dst i s =
      let g = s.task_fd_map src i in
      if not (out_of_range g max_global_fds) && (s.fd_table (pos_part g)).used
      then retain (pos_part g) (set_fd dst i g s)
      else s

  unfoldable pub clone_below : ℕ → ℕ → ℕ → State W → State W
  clone_below src dst zero s = s
  clone_below src dst (suc n) s = clone_one src dst n (clone_below src dst n s)

  unfoldable pub vfs_clone_task_fds : ℤ → ℤ → State W → ℤ × State W
  vfs_clone_task_fds src dst s =
      if out_of_range src max_tasks || out_of_range dst max_tasks
      then (vfs_err_invalid_arg, s)
      else (
        vfs_ok,
        clone_below (pos_part src) (pos_part dst) task_max_fds
            (clear_below (pos_part dst) task_max_fds s),
      )

module _ {W : Type 0} (backend : ℕ → VfsBackendOps W) where
  -- The operation that `select` names of a backend; `none` if a pointer on the way is null.
  unfoldable pub find_op : {F : Type 0} → (VfsBackendOps W → Option F) → Option ℕ → Option F
  find_op select none = none
  find_op select (some o) = select (backend o)

  -- `ops->close(handle)`, if there is one.
  unfoldable pub close_handle : VfsFd → W → ℤ × W
  unfolding find_op
  close_handle e w = elim (find_op (λ o. o.close) e.ops) [
    | none ↦ (vfs_ok, w)
    | some f ↦ f e.backend_handle w
  ]

  unfoldable pub close_global_fd : ℤ → State W → ℤ × State W
  unfolding close_handle
  close_global_fd g s =
      let k = pos_part g in
      let e = s.fd_table k in
      let (rc, w) = close_handle e s.world in
      if bad_gfd g s
      then (vfs_err_invalid_fd, s)
      else if ltb 1 e.ref_count
      then (vfs_ok, set_entry k (record e { ref_count = e.ref_count - 1 }) s)
      else (rc, record s { fd_table = update s.fd_table k free_fd; world = w })

  unfoldable pub vfs_read : ℤ → Option (ℕ → ℕ) → ℕ → State W → ℤ × Option (ℕ → ℕ) × State W
  unfolding find_op
  vfs_read fd buf size s =
      let g = task_fd_to_global fd s in
      let e = s.fd_table (pos_part g) in
      let answer : ℤ × Option (ℕ → ℕ) × State W = elim (find_op (λ o. o.read) e.ops) [
        | none ↦ (vfs_err_invalid_fd, buf, s)
        | some f ↦
            let (rc, buf', w) = f e.backend_handle buf size s.world in
            (rc, buf', record s { world = w })
      ] in
      if bad_gfd g s then (vfs_err_invalid_fd, buf, s) else answer

  -- A call of an operation on the handle behind a descriptor.
  unfoldable pub on_handle :
      {F : Type 0} → (VfsBackendOps W → Option F) → (F → ℤ → W → ℤ × W) → ℤ → State W → ℤ × State W
  unfolding find_op
  on_handle select run fd s =
      let g = task_fd_to_global fd s in
      let e = s.fd_table (pos_part g) in
      let answer : ℤ × State W = elim (find_op select e.ops) [
        | none ↦ (vfs_err_invalid_fd, s)
        | some f ↦ let (rc, w) = run f e.backend_handle s.world in (rc, record s { world = w })
      ] in
      if bad_gfd g s then (vfs_err_invalid_fd, s) else answer

  unfoldable pub vfs_write : ℤ → Option (ℕ → ℕ) → ℕ → State W → ℤ × State W
  unfolding on_handle
  vfs_write fd buf size s = on_handle (λ o. o.write) (λ f h w. f h buf size w) fd s

  unfoldable pub vfs_lseek : ℤ → ℤ → ℕ → State W → ℤ × State W
  unfolding on_handle
  vfs_lseek fd by whence s = on_handle (λ o. o.lseek) (λ f h w. f h by whence w) fd s

  unfoldable pub vfs_ftruncate : ℤ → ℕ → State W → ℤ × State W
  unfolding on_handle
  vfs_ftruncate fd size s = on_handle (λ o. o.ftruncate) (λ f h w. f h size w) fd s

  unfoldable pub vfs_close : ℤ → State W → ℤ × State W
  unfolding close_global_fd
  vfs_close fd s =
      let t = current_task_id s in
      let i = pos_part fd in
      let g = s.task_fd_map t i in
      if out_of_range fd task_max_fds
      then (vfs_err_invalid_fd, s)
      else if is_neg g
      then (vfs_err_invalid_fd, s)
      else close_global_fd g (set_fd t i (negsuc 0) s)

  -- The new descriptor is closed first if it is open.
  unfoldable pub make_room : ℤ → State W → State W
  unfolding vfs_close
  make_room newfd s =
      if is_neg (s.task_fd_map (current_task_id s) (pos_part newfd))
      then s
      else (vfs_close newfd s).1

  unfoldable pub vfs_dup2 : ℤ → ℤ → State W → ℤ × State W
  vfs_dup2 fd newfd s =
      let t = current_task_id s in
      let g = task_fd_to_global fd s in
      if bad_gfd g s
      then (vfs_err_invalid_fd, s)
      else if out_of_range newfd task_max_fds
      then (vfs_err_invalid_arg, s)
      else if int_eq fd newfd
      then (newfd, s)
      else (newfd, retain (pos_part g) (set_fd t (pos_part newfd) g (make_room newfd s)))

  unfoldable pub close_one : ℕ → ℕ → State W → State W
  unfolding close_global_fd
  close_one t i s =
      let g = s.task_fd_map t i in
      if is_neg g then s else (close_global_fd g (set_fd t i (negsuc 0) s)).1

  -- The descriptors below `n`, in order.
  unfoldable pub close_below : ℕ → ℕ → State W → State W
  close_below t zero s = s
  close_below t (suc n) s = close_one t n (close_below t n s)

  unfoldable pub vfs_close_all_for_task : ℤ → State W → State W
  vfs_close_all_for_task task s =
      if out_of_range task max_tasks then s else close_below (pos_part task) task_max_fds s
