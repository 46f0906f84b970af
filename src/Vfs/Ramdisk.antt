-- ===== src/Vfs/Ramdisk.antt =====
-- kernel/vfs.c: the ramdisk, 64 files of at most 8192 bytes in memory, and its 128 handles.
pub mod Names
pub mod Valid
pub mod Kept
pub mod Entries
pub mod Content
pub mod Opening
pub mod Session
use neuro_spark.Prelude.{
  ℕ, zero, suc, ◌+◌, ◌-◌, Bool, true, false, ◌&&◌, ◌||◌, not, Option, none, some, List, [], ◌∷◌,
  ltb, leb, ◌==◌, if◌then◌else◌, update, find_index, inc32, take,
}
use neuro_spark.Prelude.Int.{ℤ, pos, negsuc, pos_part, ◌+ℤ◌, wrap_int}
use neuro_spark.Vfs.{
  vfs_ok, vfs_err_invalid_fd, vfs_err_not_found, vfs_err_no_space, vfs_err_invalid_arg,
  vfs_err_perm, vfs_o_rdonly, vfs_o_wronly, vfs_o_rdwr, vfs_o_creat, vfs_o_trunc, vfs_seek_set,
  vfs_seek_cur, vfs_seek_end, has_flag, out_of_range, int_eq, str_eq, copy_bytes, VfsFileStat,
}
use Prim.Native.Nat.{bit_and}

abbrev pub max_files : ℕ
max_files = 64

abbrev pub max_handles : ℕ
max_handles = 128

abbrev pub name_max : ℕ
name_max = 23

abbrev pub file_capacity : ℕ
file_capacity = 8192

pub record RamdiskFile : Type 0 where
  pub used : Bool
  pub name : List ℕ
  pub size : ℕ
  pub inode : ℕ
  pub mtime : ℕ
  pub bytes : ℕ → ℕ

-- `offset` is the field `pos` of the source.
pub record RamdiskHandle : Type 0 where
  pub used : Bool
  pub entry_idx : ℤ
  pub offset : ℕ
  pub flags : ℕ

pub record Ramdisk : Type 0 where
  pub files : ℕ → RamdiskFile
  pub handles : ℕ → RamdiskHandle
  pub next_inode : ℕ
  pub mtime_tick : ℕ

-- The copy of at most `left` characters up to a slash or the end, and what is behind them.
unfoldable pub scan_name : ℕ → List ℕ → List ℕ × List ℕ
scan_name zero path = ([], path)
scan_name (suc left) [] = ([], [])
scan_name (suc left) (c ∷ path) =
    let (name, rest) = scan_name left path in if c == b'/' then ([], c ∷ path) else (c ∷ name, rest)

abbrev pub skip_slash : List ℕ → List ℕ
skip_slash [] = []
skip_slash (c ∷ path) = if c == b'/' then path else c ∷ path

abbrev is_empty : List ℕ → Bool
is_empty [] = true
is_empty (c ∷ cs) = false

unfoldable pub ramdisk_extract_name : List ℕ → Option (List ℕ)
ramdisk_extract_name path =
    let (name, rest) = scan_name name_max (skip_slash path) in
    if is_empty name || not (is_empty rest) then none else some name

abbrev pub has_name : Ramdisk → List ℕ → ℕ → Bool
has_name s name i = (s.files i).used && str_eq (s.files i).name name

-- `none` is the answer -1.
unfoldable pub ramdisk_find_entry : List ℕ → Ramdisk → Option ℕ
ramdisk_find_entry name s = find_index (has_name s name) max_files 0

unfoldable pub ramdisk_alloc_entry : Ramdisk → Option ℕ
ramdisk_alloc_entry s = find_index (λ i. not (s.files i).used) max_files 0

unfoldable pub ramdisk_alloc_handle : Ramdisk → Option ℕ
ramdisk_alloc_handle s = find_index (λ i. not (s.handles i).used) max_handles 0

abbrev pub set_file : ℕ → RamdiskFile → Ramdisk → Ramdisk
set_file i f s = record s { files = update s.files i f }

abbrev pub set_handle : ℕ → RamdiskHandle → Ramdisk → Ramdisk
set_handle i h s = record s { handles = update s.handles i h }

-- A new entry in the free slot `i`.
unfoldable pub create_entry : List ℕ → ℕ → Ramdisk → Ramdisk
create_entry name i s = record s {
  files = update s.files i (record (s.files i) {
    used = true;
    name = take name_max name;
    size = 0;
    inode = s.next_inode;
    mtime = s.mtime_tick;
  });
  next_inode = inc32 s.next_inode;
  mtime_tick = inc32 s.mtime_tick;
}

abbrev pub touch : ℕ → RamdiskFile → Ramdisk → Ramdisk
touch i f s = record s {
  files = update s.files i (record f { mtime = s.mtime_tick });
  mtime_tick = inc32 s.mtime_tick;
}

-- The entry that is opened, created or emptied, or the error; then a handle for it.
unfoldable pub open_entry : List ℕ → ℕ → Ramdisk → ℤ × Ramdisk
unfolding create_entry
open_entry name flags s = elim (ramdisk_find_entry name s) [
  | some i ↦
      (pos i, if has_flag flags vfs_o_trunc then touch i (record (s.files i) { size = 0 }) s else s)
  | none ↦
      let fresh : ℤ × Ramdisk = elim (ramdisk_alloc_entry s) [
        | some i ↦ (pos i, create_entry name i s)
        | none ↦ (vfs_err_no_space, s)
      ] in
      if has_flag flags vfs_o_creat then fresh else (vfs_err_not_found, s)
]

unfoldable pub open_handle : ℤ → ℕ → Ramdisk → ℤ × Ramdisk
open_handle entry flags s = elim (ramdisk_alloc_handle s) [
  | none ↦ (vfs_err_no_space, s)
  | some i ↦
      (pos i, set_handle i (record { used = true; entry_idx = entry; offset = 0; flags = flags }) s)
]

-- A failed step answers its error.
abbrev pub and_then : ℤ × Ramdisk → (ℤ → Ramdisk → ℤ × Ramdisk) → ℤ × Ramdisk
and_then (pos i, s) f = f (pos i) s
and_then (negsuc e, s) f = (negsuc e, s)

unfoldable pub ramdisk_open : List ℕ → ℕ → Ramdisk → ℤ × Ramdisk
unfolding open_entry open_handle
ramdisk_open path flags s = elim (ramdisk_extract_name path) [
  | none ↦ (vfs_err_invalid_arg, s)
  | some name ↦ and_then (open_entry name flags s) (λ entry s'. open_handle entry flags s')
]

abbrev pub bad_handle : ℤ → Ramdisk → Bool
bad_handle h s = out_of_range h max_handles || not (s.handles (pos_part h)).used

-- `(flags & mask) == 0 && (flags & VFS_O_RDWR) != VFS_O_RDWR`.
abbrev pub lacks : ℕ → ℕ → Bool
lacks mask flags = not (has_flag flags mask) && not (bit_and flags vfs_o_rdwr == vfs_o_rdwr)

abbrev pub smaller : ℕ → ℕ → ℕ
smaller a b = if ltb b a then b else a

unfoldable pub ramdisk_read : ℤ → Option (ℕ → ℕ) → ℕ → Ramdisk → ℤ × Option (ℕ → ℕ) × Ramdisk
ramdisk_read handle none size s = (vfs_err_invalid_arg, none, s)
ramdisk_read handle (some buf) size s =
    let i = pos_part handle in
    let h = s.handles i in
    let file = s.files (pos_part h.entry_idx) in
    let n = smaller size (file.size - h.offset) in
    if bad_handle handle s
    then (vfs_err_invalid_arg, some buf, s)
    else if lacks vfs_o_rdonly h.flags
    then (vfs_err_perm, some buf, s)
    else if leb file.size h.offset
    then (pos 0, some buf, s)
    else (
      pos n,
      some (copy_bytes buf 0 file.bytes h.offset n),
      set_handle i (record h { offset = h.offset + n }) s,
    )

unfoldable pub ramdisk_write : ℤ → Option (ℕ → ℕ) → ℕ → Ramdisk → ℤ × Ramdisk
ramdisk_write handle none size s = (vfs_err_invalid_arg, s)
ramdisk_write handle (some buf) size s =
    let i = pos_part handle in
    let h = s.handles i in
    let e = pos_part h.entry_idx in
    let file = s.files e in
    let n = smaller size (file_capacity - h.offset) in
    let end_ = h.offset + n in
    if bad_handle handle s
    then (vfs_err_invalid_arg, s)
    else if lacks vfs_o_wronly h.flags
    then (vfs_err_perm, s)
    else if leb file_capacity h.offset
    then (vfs_err_no_space, s)
    else (
      pos n,
      touch e
          (record file {
            bytes = copy_bytes file.bytes h.offset buf 0 n;
            size = if ltb file.size end_ then end_ else file.size;
          })
          (set_handle i (record h { offset = end_ }) s),
    )

unfoldable pub ramdisk_close : ℤ → Ramdisk → ℤ × Ramdisk
ramdisk_close handle s = if bad_handle handle s then (vfs_err_invalid_arg, s) else (
  vfs_ok,
  set_handle (pos_part handle)
      (record { used = false; entry_idx = negsuc 0; offset = 0; flags = 0 }) s,
)

-- Some handle is open on the entry.
unfoldable pub is_open : ℕ → Ramdisk → Bool
is_open e s =
    elim (find_index (λ i. (s.handles i).used && int_eq (s.handles i).entry_idx (pos e)) max_handles
      0) [ some i ↦ true | none ↦ false ]

-- An operation on the entry of a name, if there is one.
abbrev pub on_entry : List ℕ → Ramdisk → (ℕ → ℤ × Ramdisk) → ℤ × Ramdisk
on_entry path s f = elim (ramdisk_extract_name path) [
  | none ↦ (vfs_err_invalid_arg, s)
  | some name ↦ elim (ramdisk_find_entry name s) [ none ↦ (vfs_err_not_found, s) | some e ↦ f e ]
]

abbrev pub delete_entry : Ramdisk → ℕ → ℤ × Ramdisk
delete_entry s e = if is_open e s then (vfs_err_perm, s) else (
  vfs_ok,
  set_file e (record (s.files e) { used = false; name = []; size = 0; inode = 0; mtime = 0 }) s,
)

unfoldable pub ramdisk_delete : List ℕ → Ramdisk → ℤ × Ramdisk
ramdisk_delete path s = on_entry path s (delete_entry s)

abbrev pub clamp_to : ℤ → ℕ → ℤ
clamp_to (negsuc n) size = pos 0
clamp_to (pos n) size = if ltb size n then pos size else pos n

-- `none` stands for a `whence` that is none of the three. A sum that overflows, which C leaves
-- undefined, wraps on 32 bits.
abbrev pub seek_target : ℕ → ℕ → ℕ → ℤ → Option ℤ
seek_target whence offset size by =
    if whence == vfs_seek_set
    then some by
    else if whence == vfs_seek_cur
    then some (wrap_int (pos offset +ℤ by))
    else if whence == vfs_seek_end
    then some (wrap_int (pos size +ℤ by))
    else none

unfoldable pub ramdisk_lseek : ℤ → ℤ → ℕ → Ramdisk → ℤ × Ramdisk
ramdisk_lseek handle by whence s =
    let i = pos_part handle in
    let h = s.handles i in
    let file = s.files (pos_part h.entry_idx) in
    let moved : ℤ × Ramdisk = elim (seek_target whence h.offset file.size by) [
      | none ↦ (vfs_err_invalid_arg, s)
      | some target ↦
          let p = clamp_to target file.size in
          (p, set_handle i (record h { offset = pos_part p }) s)
    ] in
    if bad_handle handle s then (vfs_err_invalid_arg, s) else moved

unfoldable pub ramdisk_stat : List ℕ → Ramdisk → ℤ × Option VfsFileStat
ramdisk_stat path s = elim (ramdisk_extract_name path) [
  | none ↦ (vfs_err_invalid_arg, none)
  | some name ↦ elim (ramdisk_find_entry name s) [
    | none ↦ (vfs_err_not_found, none)
    | some e ↦ (vfs_ok, some (record { size = (s.files e).size; flags = 1 }))
  ]
]

abbrev pub rename_entry : Ramdisk → List ℕ → ℕ → ℤ × Ramdisk
rename_entry s new_name e =
    let done : ℤ × Ramdisk =
      (vfs_ok, touch e (record (s.files e) { name = take name_max new_name }) s) in
    elim (ramdisk_find_entry new_name s) [
      | none ↦ done
      | some other ↦ if other == e then done else (vfs_err_perm, s)
    ]

unfoldable pub ramdisk_rename : List ℕ → List ℕ → Ramdisk → ℤ × Ramdisk
ramdisk_rename old_path new_path s = elim (ramdisk_extract_name new_path) [
  | none ↦ (vfs_err_invalid_arg, s)
  | some new_name ↦ on_entry old_path s (rename_entry s new_name)
]

-- The handles of the entry that stand behind the new end go back to it.
abbrev pub pull_back : ℕ → ℕ → (ℕ → RamdiskHandle) → ℕ → RamdiskHandle
pull_back e size handles i =
    let h = handles i in
    if ltb i max_handles && h.used && int_eq h.entry_idx (pos e) && ltb size h.offset
    then record h { offset = size }
    else h

abbrev pub truncate_entry : ℕ → Ramdisk → ℕ → ℤ × Ramdisk
truncate_entry size s e =
    let n = smaller size file_capacity in
    let s' = touch e (record (s.files e) { size = n }) s in
    (vfs_ok, record s' { handles = pull_back e n s.handles })

unfoldable pub ramdisk_truncate : List ℕ → ℕ → Ramdisk → ℤ × Ramdisk
ramdisk_truncate path size s = on_entry path s (truncate_entry size s)

unfoldable pub ramdisk_ftruncate : ℤ → ℕ → Ramdisk → ℤ × Ramdisk
ramdisk_ftruncate handle size s =
    let i = pos_part handle in
    let h = s.handles i in
    let e = pos_part h.entry_idx in
    let n = smaller size file_capacity in
    if bad_handle handle s then (vfs_err_invalid_fd, s) else (
      vfs_ok,
      touch e (record (s.files e) { size = n })
          (set_handle i (record h { offset = smaller h.offset n }) s),
    )
