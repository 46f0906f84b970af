-- ===== src/Vfs/Ramdisk/Session.antt =====
-- kernel/vfs.c: any sequence of calls on the ramdisk.
use neuro_spark.Prelude.{ℕ, Option, List, [], ◌∷◌}
use neuro_spark.Prelude.Int.{ℤ}
use neuro_spark.Vfs.Ramdisk.{
  Ramdisk, ramdisk_open, ramdisk_read, ramdisk_write, ramdisk_close, ramdisk_delete, ramdisk_lseek,
  ramdisk_rename, ramdisk_truncate, ramdisk_ftruncate,
}
use neuro_spark.Vfs.Ramdisk.Valid.{IsValid}
use neuro_spark.Vfs.Ramdisk.Kept.{
  open-IsValid, read-IsValid, write-IsValid, close-IsValid, lseek-IsValid,
}
use neuro_spark.Vfs.Ramdisk.Entries.{
  delete-IsValid, rename-IsValid_op, truncate-IsValid, ftruncate-IsValid,
}

pub data Request : Type 0 where
  opening : List ℕ → ℕ → Request
  reading : ℤ → Option (ℕ → ℕ) → ℕ → Request
  writing : ℤ → Option (ℕ → ℕ) → ℕ → Request
  closing : ℤ → Request
  deleting : List ℕ → Request
  seeking : ℤ → ℤ → ℕ → Request
  renaming : List ℕ → List ℕ → Request
  truncating : List ℕ → ℕ → Request
  cutting : ℤ → ℕ → Request

unfoldable pub serve : Request → Ramdisk → Ramdisk
serve (opening path flags) s = (ramdisk_open path flags s).1
serve (reading h buf size) s = (ramdisk_read h buf size s).2
serve (writing h buf size) s = (ramdisk_write h buf size s).1
serve (closing h) s = (ramdisk_close h s).1
serve (deleting path) s = (ramdisk_delete path s).1
serve (seeking h by whence) s = (ramdisk_lseek h by whence s).1
serve (renaming old new) s = (ramdisk_rename old new s).1
serve (truncating path size) s = (ramdisk_truncate path size s).1
serve (cutting h size) s = (ramdisk_ftruncate h size s).1

unfoldable pub serve_all : List Request → Ramdisk → Ramdisk
serve_all [] s = s
serve_all (r ∷ rs) s = serve_all rs (serve r s)

serve-IsValid : (r : Request) (s : Ramdisk) → IsValid s → IsValid (serve r s)
unfolding serve
serve-IsValid (opening path flags) s v = open-IsValid path flags s v
serve-IsValid (reading h buf size) s v = read-IsValid h buf size s v
serve-IsValid (writing h buf size) s v = write-IsValid h buf size s v
serve-IsValid (closing h) s v = close-IsValid h s v
serve-IsValid (deleting path) s v = delete-IsValid path s v
serve-IsValid (seeking h by whence) s v = lseek-IsValid h by whence s v
serve-IsValid (renaming old new) s v = rename-IsValid_op old new s v
serve-IsValid (truncating path size) s v = truncate-IsValid path size s v
serve-IsValid (cutting h size) s v = ftruncate-IsValid h size s v

-- Whatever is called on a valid ramdisk: every open handle stays one of a file in use, no file is
-- larger than 8192 bytes, and no two files in use have the same name.
pub serve_all-IsValid : (rs : List Request) (s : Ramdisk) → IsValid s → IsValid (serve_all rs s)
unfolding serve_all
serve_all-IsValid [] s v = v
serve_all-IsValid (r ∷ rs) s v = serve_all-IsValid rs (serve r s) (serve-IsValid r s v)
