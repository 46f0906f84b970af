-- ===== src/Vfs/Ramdisk/Content.antt =====
-- kernel/vfs.c: the bytes of a ramdisk file.
use neuro_spark.Prelude.{
  ℕ, zero, suc, ◌+◌, ◌-◌, ◌≤◌, ◌<◌, ◌≡◌, ◌≢◌, refl, ap, ◌∙◌, subst, arith, if◌then◌else◌, ◌==◌,
  true, false, ◌&&◌, ltb, leb, Bool-cases, ==_self, inl, inr, some, Option,
}
use native.Mathlib.Decide.{ℕ_discrete}
use neuro_spark.Prelude.Int.{pos}
use neuro_spark.Vfs.{copy_bytes, vfs_o_rdonly, vfs_o_wronly, vfs_seek_set, vfs_ok}
use neuro_spark.Vfs.Ramdisk.{
  Ramdisk, max_handles, file_capacity, lacks, smaller, bad_handle, ramdisk_read, ramdisk_write,
  ramdisk_lseek, ramdisk_ftruncate,
}

-- Each byte after a copy.
pub copy_bytes_at :
    (dst : ℕ → ℕ) (d : ℕ) (src : ℕ → ℕ) (k n i : ℕ)
    → copy_bytes dst d src k n i ≡ (if leb d i && ltb i (d + n) then src (k + (i - d)) else dst i)
unfolding copy_bytes
copy_bytes_at dst d src k zero i = ground arith
copy_bytes_at dst d src k (suc n) i = elim (ℕ_discrete (d + n) i) [
  | yes e ↦
      let here : (d + n == i) ≡ true = ground arith in
      let place : k + n ≡ k + (i - d) = omega arith in
      let test : (leb d i && ltb i (d + suc n)) ≡ true = ground arith in rw (here, test, place) refl
  | no e ↦
      let there : (d + n == i) ≡ false = ground arith in
      rw there (copy_bytes_at dst d src k n i ∙ ground arith)
]

-- The handle is open on an entry, at an offset, with flags.
pub record At (s : Ramdisk) (h e off flags : ℕ) : Type 0 where
  pub handle_in : h < max_handles
  pub used_at : (s.handles h).used ≡ true
  pub entry_at : (s.handles h).entry_idx ≡ pos e
  pub offset_at : (s.handles h).offset ≡ off
  pub flags_at : (s.handles h).flags ≡ flags

pub good : {s : Ramdisk} {h e off flags : ℕ} → At s h e off flags → bad_handle (pos h) s ≡ false
good a = ground (arith, a.handle_in, a.used_at)

-- What a write of `size` bytes at the offset does, `n` of them being written.
pub record Written (s s' : Ramdisk) (h e off flags n : ℕ) (buf : ℕ → ℕ) : Type 0 where
  pub at_end : At s' h e (off + n) flags
  pub size_at :
      (s'.files e).size ≡ (if ltb (s.files e).size (off + n) then off + n else (s.files e).size)
  pub bytes_at :
      (i : ℕ)
      → (s'.files e).bytes i
        ≡ (if leb off i && ltb i (off + n) then buf (i - off) else (s.files e).bytes i)
  pub kept : ((s'.files e).used ≡ (s.files e).used) × ((s'.files e).name ≡ (s.files e).name)
  pub other_files : (d : ℕ) → e ≢ d → s'.files d ≡ s.files d
  pub other_handles : (j : ℕ) → h ≢ j → s'.handles j ≡ s.handles j

-- A write through a handle that allows it, at an offset below 8192, writes `size` bytes or as many
-- as fit before 8192, and answers their number: these bytes of the file change and no others, the
-- file ends at the larger of its old end and the end of the write, and the handle stands there;
-- other files and handles stay.
pub ramdisk_write_lem :
    (h e off flags size : ℕ) (buf : ℕ → ℕ) (s : Ramdisk)
    → At s h e off flags
    → lacks vfs_o_wronly flags ≡ false
    → off < file_capacity
    → let (rc, s') = ramdisk_write (pos h) (some buf) size s in
      let n = smaller size (file_capacity - off) in (rc ≡ pos n) × Written s s' h e off flags n buf
unfolding ramdisk_write
ramdisk_write_lem h e off flags size buf s a p l =
    let full : leb file_capacity off ≡ false = ground arith in
    let n = smaller size (file_capacity - off) in
    rw (good a, a.flags_at, a.offset_at, a.entry_at, p, full)
      (
        refl,
        record {
          at_end = record {
            handle_in = a.handle_in;
            used_at = ground (arith, a.used_at);
            entry_at = ground (arith, a.entry_at);
            offset_at = ground arith;
            flags_at = ground (arith, a.flags_at);
          };
          size_at = ground arith;
          bytes_at = λ i.
              let z : 0 + (i - off) ≡ i - off = omega arith in
              rw (==_self e, copy_bytes_at (s.files e).bytes off buf 0 n i, z) refl;
          kept = (ground arith, ground arith);
          other_files = λ d ne. ground arith;
          other_handles = λ j ne. ground arith;
        },
      )

-- What a read at the offset does, `n` bytes being read.
pub record Received (s s' : Ramdisk) (h e off flags n : ℕ) (buf : ℕ → ℕ) (out : Option (ℕ → ℕ))
    : Type 0 where
  pub buffer : ℕ → ℕ
  pub buffer_at : out ≡ some buffer
  pub bytes_at : (i : ℕ) → buffer i ≡ (if ltb i n then (s.files e).bytes (off + i) else buf i)
  pub at_end : At s' h e (off + n) flags
  pub files_at : s'.files ≡ s.files
  pub other_handles : (j : ℕ) → h ≢ j → s'.handles j ≡ s.handles j

-- A read through a handle that allows it takes `size` bytes of the file from the offset on, or as
-- many as there are, into the front of the buffer, and answers their number; the handle moves
-- behind them, and neither the files nor other handles change.
pub ramdisk_read_lem :
    (h e off flags size : ℕ) (buf : ℕ → ℕ) (s : Ramdisk)
    → At s h e off flags
    → lacks vfs_o_rdonly flags ≡ false
    → let (rc, out, s') = ramdisk_read (pos h) (some buf) size s in
      let n = smaller size ((s.files e).size - off) in
      (rc ≡ pos n) × Received s s' h e off flags n buf out
unfolding ramdisk_read
ramdisk_read_lem h e off flags size buf s a p = elim (Bool-cases (leb (s.files e).size off)) [
  | inl q ↦
      let none_left : smaller size ((s.files e).size - off) ≡ 0 = ground arith in
      let same : off + 0 ≡ off = omega arith in
      rw (good a, a.flags_at, a.offset_at, a.entry_at, p, q, none_left)
        (
          refl,
          record {
            buffer = buf;
            buffer_at = refl;
            bytes_at = λ i. ground arith;
            at_end = rw same a;
            files_at = refl;
            other_handles = λ j ne. refl;
          },
        )
  | inr q ↦
      let n = smaller size ((s.files e).size - off) in
      rw (good a, a.flags_at, a.offset_at, a.entry_at, p, q)
        (
          refl,
          record {
            buffer = copy_bytes buf 0 (s.files e).bytes off n;
            buffer_at = refl;
            bytes_at = λ i.
                let z : i - 0 ≡ i = omega arith in
                let y : 0 + n ≡ n = omega arith in
                copy_bytes_at buf 0 (s.files e).bytes off n i ∙ ground (arith, z, y);
            at_end = record {
              handle_in = a.handle_in;
              used_at = ground (arith, a.used_at);
              entry_at = ground (arith, a.entry_at);
              offset_at = ground arith;
              flags_at = ground (arith, a.flags_at);
            };
            files_at = refl;
            other_handles = λ j ne. ground arith;
          },
        )
]

-- Seeking to a place within the file.
ramdisk_lseek_within :
    (h e off flags target : ℕ) (s : Ramdisk)
    → At s h e off flags
    → target ≤ (s.files e).size
    → let (rc, s') = ramdisk_lseek (pos h) (pos target) vfs_seek_set s in
      (rc ≡ pos target) × At s' h e target flags × (s'.files ≡ s.files)
unfolding ramdisk_lseek
ramdisk_lseek_within h e off flags target s a l =
    let within : ltb (s.files e).size target ≡ false = ground arith in
    rw (good a, a.entry_at, within)
      (
        refl,
        record {
          handle_in = a.handle_in;
          used_at = ground (arith, a.used_at);
          entry_at = ground (arith, a.entry_at);
          offset_at = ground arith;
          flags_at = ground (arith, a.flags_at);
        },
        refl,
      )

-- What is written through a handle that allows reading and writing, and fits before the end of the
-- file's 8192 bytes, is read back after seeking to where it was written.
pub write_seek_read :
    (h e off flags size : ℕ) (input buf : ℕ → ℕ) (s : Ramdisk)
    → At s h e off flags
    → lacks vfs_o_rdonly flags ≡ false
    → lacks vfs_o_wronly flags ≡ false
    → 0 < size
    → off + size ≤ file_capacity
    → let (rc1, s1) = ramdisk_write (pos h) (some input) size s in
      let (rc2, s2) = ramdisk_lseek (pos h) (pos off) vfs_seek_set s1 in
      let (rc3, out, s3) = ramdisk_read (pos h) (some buf) size s2 in
      (rc1 ≡ pos size)
      × (rc2 ≡ pos off)
      × (rc3 ≡ pos size)
      × ((b : ℕ → ℕ) × (out ≡ some b) × ((i : ℕ) → i < size → b i ≡ input i))
write_seek_read h e off flags size input buf s a r w z l =
    let s1 = (ramdisk_write (pos h) (some input) size s).1 in
    let s2 = (ramdisk_lseek (pos h) (pos off) vfs_seek_set s1).1 in
    let t = ramdisk_write_lem h e off flags size input s a w (omega arith) in
    let all : smaller size (file_capacity - off) ≡ size = ground arith in
    let end_ : off + size ≤ (s1.files e).size = ground (arith, t.1.size_at, all) in
    let u =
      ramdisk_lseek_within h e (off + smaller size (file_capacity - off)) flags off s1 t.1.at_end
        (omega arith) in
    let v = ramdisk_read_lem h e off flags size buf s2 u.1 r in
    let same : s2.files ≡ s1.files = u.2 in
    let fits : smaller size ((s2.files e).size - off) ≡ size = rw same (ground arith) in
    (
      t.0 ∙ ap pos all,
      u.0,
      v.0 ∙ ap pos fits,
      (
        v.1.buffer,
        v.1.buffer_at,
        λ i k.
            let back : off + i - off ≡ i = omega arith in
            let content : (s1.files e).bytes (off + i) ≡ input i =
              t.1.bytes_at (off + i) ∙ ground (arith, all, ap input back) in
            v.1.bytes_at i ∙ (rw (fits, same) (ground (arith, content))),
      ),
    )

-- Truncating through a handle sets the size and leaves the bytes.
ramdisk_ftruncate_lem :
    (h e off flags size : ℕ) (s : Ramdisk)
    → At s h e off flags
    → size ≤ file_capacity
    → let (rc, s') = ramdisk_ftruncate (pos h) size s in
      (rc ≡ vfs_ok)
      × At s' h e (smaller off size) flags
      × ((s'.files e).size ≡ size)
      × ((s'.files e).bytes ≡ (s.files e).bytes)
unfolding ramdisk_ftruncate
ramdisk_ftruncate_lem h e off flags size s a l =
    let n : smaller size file_capacity ≡ size = ground arith in
    rw (good a, a.offset_at, a.entry_at, n)
      (
        refl,
        record {
          handle_in = a.handle_in;
          used_at = ground (arith, a.used_at);
          entry_at = ground (arith, a.entry_at);
          offset_at = ground arith;
          flags_at = ground (arith, a.flags_at);
        },
        ground arith,
        ground arith,
      )

-- A file that is cut to nothing and grown again, to at most 8192 bytes, shows through a handle that
-- allows reading the bytes that it had before, not zeros.
pub truncate_uncovers :
    (h e off flags size : ℕ) (buf : ℕ → ℕ) (s : Ramdisk)
    → At s h e off flags
    → lacks vfs_o_rdonly flags ≡ false
    → size ≤ file_capacity
    → let s1 = (ramdisk_ftruncate (pos h) 0 s).1 in
      let s2 = (ramdisk_ftruncate (pos h) size s1).1 in
      let (rc, out, s3) = ramdisk_read (pos h) (some buf) size s2 in
      (rc ≡ pos size)
      × ((b : ℕ → ℕ) × (out ≡ some b) × ((i : ℕ) → i < size → b i ≡ (s.files e).bytes i))
truncate_uncovers h e off flags size buf s a p l =
    let s1 = (ramdisk_ftruncate (pos h) 0 s).1 in
    let s2 = (ramdisk_ftruncate (pos h) size s1).1 in
    let t = ramdisk_ftruncate_lem h e off flags 0 s a (omega arith) in
    let z : smaller off 0 ≡ 0 = ground arith in
    let a1 : At s1 h e 0 flags = subst (λ k. At s1 h e k flags) z t.1 in
    let u = ramdisk_ftruncate_lem h e 0 flags size s1 a1 l in
    let y : smaller 0 size ≡ 0 = ground arith in
    let a2 : At s2 h e 0 flags = subst (λ k. At s2 h e k flags) y u.1 in
    let r = ramdisk_read_lem h e 0 flags size buf s2 a2 p in
    let all : smaller size ((s2.files e).size - 0) ≡ size = rw (u.2) (ground arith) in
    (
      r.0 ∙ ap pos all,
      (
        r.1.buffer,
        r.1.buffer_at,
        λ i k.
            let i0 : 0 + i ≡ i = omega arith in
            let test : ltb i (smaller size ((s2.files e).size - 0)) ≡ true =
              rw all (ground arith) in
            let old : (s2.files e).bytes ≡ (s.files e).bytes = u.3 ∙ t.3 in
            r.1.bytes_at i ∙ (rw (test, i0, old) refl),
      ),
    )
