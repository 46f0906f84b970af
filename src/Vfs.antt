-- ===== src/Vfs.antt =====
-- kernel/vfs.c: mounts, descriptors, and the backends that this file holds: pipes, the ramdisk and
-- TFS. An `int` is an integer here, and an index is taken from it after the test of its sign. A
-- buffer is a function from its offsets.
pub mod Pipes
pub mod Ramdisk
pub mod Descriptors
pub mod Mounts
pub mod Calls
pub mod World
mod Tests
use Prim.Native.Nat.{bit_and}
use neuro_spark.Prelude.{
  ℕ, zero, suc, ◌+◌, Bool, true, false, ◌&&◌, not, List, [], ◌∷◌, ◌==◌, leb, update,
}
use neuro_spark.Prelude.Int.{ℤ, pos, negsuc, pos_part}

abbrev pub vfs_ok : ℤ
vfs_ok = pos 0

abbrev pub vfs_err_invalid_fd : ℤ
vfs_err_invalid_fd = negsuc 0

abbrev pub vfs_err_not_found : ℤ
vfs_err_not_found = negsuc 1

abbrev pub vfs_err_no_space : ℤ
vfs_err_no_space = negsuc 2

abbrev pub vfs_err_invalid_arg : ℤ
vfs_err_invalid_arg = negsuc 3

abbrev pub vfs_err_io : ℤ
vfs_err_io = negsuc 4

abbrev pub vfs_err_perm : ℤ
vfs_err_perm = negsuc 5

abbrev pub vfs_err_would_block : ℤ
vfs_err_would_block = negsuc 6

abbrev pub vfs_o_rdonly : ℕ
vfs_o_rdonly = 1

abbrev pub vfs_o_wronly : ℕ
vfs_o_wronly = 2

abbrev pub vfs_o_rdwr : ℕ
vfs_o_rdwr = 3

abbrev pub vfs_o_creat : ℕ
vfs_o_creat = 4

abbrev pub vfs_o_trunc : ℕ
vfs_o_trunc = 8

-- `flags & mask`, as a test.
abbrev pub has_flag : ℕ → ℕ → Bool
has_flag flags mask = not (bit_and flags mask == 0)

-- `x < 0`.
abbrev pub is_neg : ℤ → Bool
is_neg (pos n) = false
is_neg (negsuc n) = true

-- `x < 0 || x >= n`.
abbrev pub out_of_range : ℤ → ℕ → Bool
out_of_range (pos i) n = leb n i
out_of_range (negsuc i) n = true

-- `for (i = 0; i < n; i++) dst[d + i] = src[s + i];`
unfoldable pub copy_bytes : (ℕ → ℕ) → ℕ → (ℕ → ℕ) → ℕ → ℕ → ℕ → ℕ
copy_bytes dst d src s zero = dst
copy_bytes dst d src s (suc n) = update (copy_bytes dst d src s n) (d + n) (src (s + n))

-- `a == b`.
abbrev pub int_eq : ℤ → ℤ → Bool
int_eq (pos i) (pos j) = i == j
int_eq (negsuc i) (negsuc j) = i == j
int_eq (pos i) (negsuc j) = false
int_eq (negsuc i) (pos j) = false

-- A path is its characters up to the NUL, and never null: every caller has tested that.
unfoldable pub str_eq : List ℕ → List ℕ → Bool
str_eq [] [] = true
str_eq [] (d ∷ ds) = false
str_eq (c ∷ cs) [] = false
str_eq (c ∷ cs) (d ∷ ds) = c == d && str_eq cs ds

pub record VfsFileStat : Type 0 where
  pub size : ℕ
  pub flags : ℕ

abbrev pub vfs_seek_set : ℕ
vfs_seek_set = 0

abbrev pub vfs_seek_cur : ℕ
vfs_seek_cur = 1

abbrev pub vfs_seek_end : ℕ
vfs_seek_end = 2
