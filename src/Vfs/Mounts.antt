-- ===== src/Vfs/Mounts.antt =====
-- kernel/vfs.c: the mounts, and the calls that take a path.
pub mod Below
pub mod Longest
use neuro_spark.Prelude.{
  ℕ, zero, suc, ◌+◌, ◌-◌, Bool, true, false, ◌&&◌, ◌||◌, not, Option, none, some, List, [], ◌∷◌,
  ltb, leb, ◌==◌, if◌then◌else◌, update, find_index, take, length,
}
use neuro_spark.Prelude.Int.{ℤ, pos, negsuc, pos_part}
use neuro_spark.Vfs.{
  vfs_ok, vfs_err_not_found, vfs_err_no_space, vfs_err_invalid_arg, vfs_err_perm, vfs_err_io,
  is_neg, str_eq, vfs_o_rdonly, VfsFileStat,
}
use neuro_spark.Vfs.Descriptors.{
  VfsBackendOps, VfsMount, VfsFd, State, current_task_id, alloc_task_fd, alloc_global_fd, set_entry,
  set_fd, find_op, vfs_read, vfs_write, vfs_close, has_ops,
}

abbrev pub max_mounts : ℕ
max_mounts = 8

abbrev pub mount_path_max : ℕ
mount_path_max = 23

abbrev pub root : List ℕ
root = b'/' ∷ []

unfoldable pub str_prefix : List ℕ → List ℕ → Bool
str_prefix s [] = true
str_prefix [] (p ∷ ps) = false
str_prefix (c ∷ s) (p ∷ ps) = c == p && str_prefix s ps

-- The text behind the first `n` characters.
unfoldable pub drop : ℕ → List ℕ → List ℕ
drop zero s = s
drop (suc n) [] = []
drop (suc n) (c ∷ s) = drop n s

-- At a NUL or a slash.
abbrev pub at_boundary : List ℕ → Bool
at_boundary [] = true
at_boundary (c ∷ s) = c == b'/'

abbrev pub starts_with_slash : List ℕ → Bool
starts_with_slash [] = false
starts_with_slash (c ∷ s) = c == b'/'

-- The mount covers the path.
unfoldable pub covers : List ℕ → VfsMount → Bool
covers path m = str_prefix path m.mount_path && at_boundary (drop m.mount_len path)

abbrev first_of : Option ℕ → ℕ → Option ℕ
first_of none i = some i
first_of (some b) i = some b

abbrev or_root : List ℕ → List ℕ
or_root [] = root
or_root (c ∷ s) = c ∷ s

abbrev null_text : List ℕ → Bool
null_text [] = true
null_text (c ∷ s) = false

abbrev same_ops : Option ℕ → Option ℕ → Bool
same_ops none none = true
same_ops (some a) (some b) = a == b
same_ops none (some b) = false
same_ops (some a) none = false

-- `buf + total`, and the buffer after a call has filled it from there.
abbrev pub shifted : (ℕ → ℕ) → ℕ → ℕ → ℕ
shifted buf total i = buf (total + i)

abbrev pub put_back : (ℕ → ℕ) → ℕ → Option (ℕ → ℕ) → ℕ → ℕ
put_back buf total none i = buf i
put_back buf total (some part) i = if ltb i total then buf i else part (i - total)

-- `VFS_O_WRONLY | VFS_O_CREAT | VFS_O_TRUNC`.
abbrev pub rewriting : ℕ
rewriting = 14

-- The path below the mount.
unfoldable pub rel_path : List ℕ → VfsMount → List ℕ
rel_path path m = if str_eq m.mount_path root then path else or_root (drop m.mount_len path)

module _ {W : Type 0} where
  -- `best < 0 || mounts[i].mount_len > mounts[best].mount_len`.
  abbrev pub longer : State W → Option ℕ → ℕ → Bool
  longer s none i = true
  longer s (some b) i = ltb (s.mounts b).mount_len (s.mounts i).mount_len

  unfoldable pub better_mount : List ℕ → State W → Option ℕ → ℕ → Option ℕ
  better_mount path s best i =
      let m = s.mounts i in
      if not m.used
      then best
      else if str_eq m.mount_path root
      then first_of best i
      else if covers path m && longer s best i
      then some i
      else best

  -- The best of the first `n` mounts.
  unfoldable pub best_mount : List ℕ → State W → ℕ → Option ℕ
  best_mount path s zero = none
  best_mount path s (suc n) = better_mount path s (best_mount path s n) n

  -- The operations and the path below the mount.
  unfoldable pub resolve_mount : List ℕ → State W → Option (Option ℕ × List ℕ)
  resolve_mount path s = elim (best_mount path s max_mounts) [
    | none ↦ none
    | some i ↦ let m = s.mounts i in some (m.ops, rel_path path m)
  ]

  abbrev pub set_mount : ℕ → VfsMount → State W → State W
  set_mount i m s = record s { mounts = update s.mounts i m }

  abbrev pub is_mounted_at : List ℕ → State W → ℕ → Bool
  is_mounted_at path s i = (s.mounts i).used && str_eq (s.mounts i).mount_path path

  unfoldable pub vfs_mount : List ℕ → Option ℕ → State W → ℤ × State W
  vfs_mount path none s = (vfs_err_invalid_arg, s)
  vfs_mount path (some o) s =
      let placed : ℤ × State W = elim (find_index (λ i. not (s.mounts i).used) max_mounts 0) [
        | none ↦ (vfs_err_no_space, s)
        | some i ↦
            let text = take mount_path_max path in
            (
              vfs_ok,
              set_mount i
                  (record { used = true; mount_path = text; mount_len = length text; ops = some o })
                  s,
            )
      ] in
      let answer : ℤ × State W = elim (find_index (is_mounted_at path s) max_mounts 0) [
        | some i ↦ (vfs_ok, set_mount i (record (s.mounts i) { ops = some o }) s)
        | none ↦ placed
      ] in
      if starts_with_slash path then answer else (vfs_err_invalid_arg, s)

  unfoldable pub vfs_umount : List ℕ → State W → ℤ × State W
  vfs_umount path s =
      let answer : ℤ × State W = elim (find_index (is_mounted_at path s) max_mounts 0) [
        | none ↦ (vfs_err_not_found, s)
        | some i ↦ (
          vfs_ok,
          set_mount i (record { used = false; mount_path = []; mount_len = 0; ops = none }) s,
        )
      ] in
      if not (starts_with_slash path)
      then (vfs_err_invalid_arg, s)
      else if str_eq path root
      then (vfs_err_perm, s)
      else answer

module _ {W : Type 0} (backend : ℕ → VfsBackendOps W) where
  -- The operation that `select` names of the backend behind a path, and the path below its mount.
  unfoldable pub resolve_op :
      {F : Type 0} → (VfsBackendOps W → Option F) → List ℕ → State W → Option (F × List ℕ)
  unfolding find_op
  resolve_op select path s = elim (resolve_mount path s) [
    | none ↦ none
    | some (o, rel) ↦ elim (find_op backend select o) [ none ↦ none | some f ↦ some (f, rel) ]
  ]

  -- A call of a backend that changes the world alone.
  abbrev pub in_world : State W → ℤ × W → ℤ × State W
  in_world s (rc, w) = (rc, record s { world = w })

  abbrev pub close_or_skip : Option ℕ → ℤ → W → W
  close_or_skip o h w = elim (find_op backend (λ b. b.close) o) [ none ↦ w | some f ↦ (f h w).1 ]

  -- What follows a successful open of the backend, which answered the handle `h`.
  unfoldable pub install : Option ℕ → ℤ → ℕ → State W → ℤ × State W
  install o h flags s =
      let t = current_task_id s in
      let failed : ℤ × State W =
        (vfs_err_no_space, record s { world = close_or_skip o h s.world }) in
      elim (alloc_global_fd s) [
        | none ↦ failed
        | some g ↦ elim (alloc_task_fd t s) [
          | none ↦ failed
          | some i ↦ (
            pos i,
            set_fd t i (pos g) (
                set_entry g
                  (record {
                    used = true;
                    ops = o;
                    backend_handle = h;
                    flags = flags;
                    ref_count = 1;
                  })
                  s),
          )
        ]
      ]

  -- `if (backend_handle < 0) return backend_handle;`
  unfoldable pub opened : Option ℕ → ℕ → ℤ × W → State W → ℤ × State W
  unfolding install
  opened o flags (rc, w) s =
      if is_neg rc
      then (rc, record s { world = w })
      else install o rc flags (record s { world = w })

  unfoldable pub vfs_open : List ℕ → ℕ → State W → ℤ × State W
  vfs_open path flags s =
      let answer : ℤ × State W = elim (resolve_mount path s) [
        | none ↦ (vfs_err_not_found, s)
        | some (o, rel) ↦ elim (find_op backend (λ b. b.open_op) o) [
          | none ↦ (vfs_err_not_found, s)
          | some f ↦ opened o flags (f rel flags s.world) s
        ]
      ] in
      if null_text path then (vfs_err_invalid_arg, s) else answer

  unfoldable pub vfs_delete : List ℕ → State W → ℤ × State W
  unfolding resolve_op
  vfs_delete path s =
      let answer : ℤ × State W = elim (resolve_op (λ b. b.delete) path s) [
        | none ↦ (vfs_err_not_found, s)
        | some (f, rel) ↦ in_world s (f rel s.world)
      ] in
      if null_text path then (vfs_err_invalid_arg, s) else answer

  unfoldable pub vfs_stat : List ℕ → State W → (ℤ × Option VfsFileStat) × State W
  unfolding resolve_op
  vfs_stat path s = elim (resolve_op (λ b. b.stat) path s) [
    | none ↦ ((vfs_err_not_found, none), s)
    | some (f, rel) ↦ let (r, w) = f rel s.world in (r, record s { world = w })
  ]

  unfoldable pub vfs_truncate : List ℕ → ℕ → State W → ℤ × State W
  unfolding resolve_op
  vfs_truncate path size s = elim (resolve_op (λ b. b.truncate) path s) [
    | none ↦ (vfs_err_not_found, s)
    | some (f, rel) ↦ in_world s (f rel size s.world)
  ]

  unfoldable pub vfs_rename : List ℕ → List ℕ → State W → ℤ × State W
  unfolding find_op
  vfs_rename old_path new_path s = elim (resolve_mount old_path s) [
    | none ↦ (vfs_err_not_found, s)
    | some (o, rel_old) ↦ elim (resolve_mount new_path s) [
      | none ↦ (vfs_err_not_found, s)
      | some (o', rel_new) ↦
          let answer : ℤ × State W = elim (find_op backend (λ b. b.rename) o) [
            | none ↦ (vfs_err_perm, s)
            | some f ↦ in_world s (f rel_old rel_new s.world)
          ] in
          if same_ops o o' then answer else (vfs_err_perm, s)
    ]
  ]

  -- The backend gets both paths as they are, not those below the mount.
  unfoldable pub vfs_link : List ℕ → List ℕ → State W → ℤ × State W
  unfolding resolve_op
  vfs_link old_path new_path s = elim (resolve_op (λ b. b.link) new_path s) [
    | none ↦ (vfs_err_not_found, s)
    | some (f, rel) ↦ in_world s (f old_path new_path s.world)
  ]

  -- The loop of vfs_read_file; a round that goes on reads a byte at least, so `max_size` rounds do.
  unfoldable pub read_loop : ℕ → ℤ → (ℕ → ℕ) → ℕ → ℕ → State W → ℤ × (ℕ → ℕ) × State W
  read_loop zero fd buf total max_size s = (pos total, buf, s)
  read_loop (suc rounds) fd buf total max_size s =
      let (n, part, s') = vfs_read backend fd (some (shifted buf total)) (max_size - total) s in
      let buf' = put_back buf total part in
      let rest = read_loop rounds fd buf' (total + pos_part n) max_size s' in
      if leb max_size total
      then (pos total, buf, s)
      else if is_neg n
      then (n, buf', s')
      else if pos_part n == 0
      then (pos total, buf', s')
      else rest

  unfoldable pub vfs_read_file : List ℕ → (ℕ → ℕ) → ℕ → State W → ℤ × (ℕ → ℕ) × State W
  vfs_read_file path buf max_size s =
      let (fd, s') = vfs_open path vfs_o_rdonly s in
      let (rc, buf', s2) = read_loop max_size fd buf 0 max_size s' in
      if is_neg fd then (fd, buf, s') else (rc, buf', (vfs_close backend fd s2).1)

  -- The loop of vfs_write_file.
  unfoldable pub write_loop : ℕ → ℤ → (ℕ → ℕ) → ℕ → ℕ → State W → ℤ × State W
  write_loop zero fd buf total size s = (pos total, s)
  write_loop (suc rounds) fd buf total size s =
      let (n, s') = vfs_write backend fd (some (shifted buf total)) (size - total) s in
      let rest = write_loop rounds fd buf (total + pos_part n) size s' in
      if leb size total
      then (pos total, s)
      else if is_neg n || pos_part n == 0
      then (vfs_err_io, s')
      else rest

  unfoldable pub vfs_write_file : List ℕ → (ℕ → ℕ) → ℕ → State W → ℤ × State W
  vfs_write_file path buf size s =
      let (fd, s') = vfs_open path rewriting s in
      let (rc, s2) = write_loop size fd buf 0 size s' in
      if is_neg fd then (fd, s') else (rc, (vfs_close backend fd s2).1)
