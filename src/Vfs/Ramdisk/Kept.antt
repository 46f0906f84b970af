-- ===== src/Vfs/Ramdisk/Kept.antt =====
-- kernel/vfs.c: opening a file and using its handle keep the ramdisk valid.
use neuro_spark.Prelude.{
  ℕ, ◌≤◌, ◌<◌, ◌≡◌, refl, true, false, not, Option, none, some, List, arith, leb, length,
  find_index-some, Bool-cases, inl, inr, Option-cases,
}
use neuro_spark.Prelude.Int.{ℤ, pos, negsuc, pos_part}
use neuro_spark.Vfs.{vfs_o_trunc, vfs_o_creat, has_flag, vfs_o_rdonly, vfs_o_wronly}
use neuro_spark.Vfs.Ramdisk.{
  Ramdisk, RamdiskHandle, max_files, max_handles, file_capacity, name_max, set_handle, create_entry,
  ramdisk_find_entry, ramdisk_alloc_entry, ramdisk_alloc_handle, ramdisk_extract_name, open_entry,
  open_handle, ramdisk_open, ramdisk_read, ramdisk_write, ramdisk_close, ramdisk_lseek, bad_handle,
  and_then, lacks, seek_target,
}
use neuro_spark.Vfs.Ramdisk.Names.{extract_name_short, find_entry-some}
use neuro_spark.Vfs.Ramdisk.Valid.{IsValid, set_handle-IsValid, touch-IsValid, create_entry-IsValid}

pub alloc_entry_in : (s : Ramdisk) (i : ℕ) → ramdisk_alloc_entry s ≡ some i → i < max_files
unfolding ramdisk_alloc_entry
alloc_entry_in s i e =
    let t = find_index-some (λ j. not (s.files j).used) max_files 0 e in omega (arith, t.1)

created :
    (name : List ℕ) (i k : ℕ) (s : Ramdisk)
    → i < max_files
    → i ≡ k
    → (k < max_files) × (((create_entry name i s).files k).used ≡ true)
unfolding create_entry
created name i k s l e = ground arith

-- The entry that a step answers, if it answers one.
record Entered (r : ℤ × Ramdisk) : Type 0 where
  valid : IsValid r.1
  entry : (i : ℕ) → r.0 ≡ pos i → (i < max_files) × ((r.1.files i).used ≡ true)

open_entry-Entered :
    (name : List ℕ) (flags : ℕ) (s : Ramdisk)
    → IsValid s
    → length name ≤ name_max
    → Entered (open_entry name flags s)
unfolding open_entry
open_entry-Entered name flags s v short = elim (Option-cases (ramdisk_find_entry name s)) [
  | inr (i, e) ↦
      let found = find_entry-some name s i e in
      elim (Bool-cases (has_flag flags vfs_o_trunc)) [
        | inl t ↦
            rw (e, t, open_entry)
              (record {
                valid = touch-IsValid i _ _ s v refl refl (omega arith);
                entry = λ k q. ground (arith, found);
              })
        | inr t ↦ rw (e, t, open_entry) (record { valid = v; entry = λ k q. ground (arith, found) })
      ]
  | inl e ↦ elim (Bool-cases (has_flag flags vfs_o_creat)) [
    | inr c ↦ rw (e, c, open_entry) (record { valid = v; entry = λ k q. ground arith })
    | inl c ↦ elim (Option-cases (ramdisk_alloc_entry s)) [
      | inl a ↦ rw (e, c, a, open_entry) (record { valid = v; entry = λ k q. ground arith })
      | inr (i, a) ↦
          let low : i < max_files = alloc_entry_in s i a in
          rw (e, c, a, open_entry)
            (record {
              valid = create_entry-IsValid name i s v short e;
              entry = λ k q. created name i k s low (ground arith);
            })
    ]
  ]
]

open_handle-IsValid :
    (i flags : ℕ) (s : Ramdisk)
    → IsValid s
    → i < max_files
    → (s.files i).used ≡ true
    → IsValid (open_handle (pos i) flags s).1
unfolding open_handle
open_handle-IsValid i flags s v l u = elim (Option-cases (ramdisk_alloc_handle s)) [
  | inl e ↦ rw (e, open_handle) v
  | inr (k, e) ↦
      rw (e, open_handle)
        (set_handle-IsValid k _ s v (λ q. record { entry_at = refl; entry_in = l; file_used = u }))
]

open_steps :
    (r : ℤ × Ramdisk) (flags : ℕ)
    → Entered r
    → IsValid (and_then r (λ entry s'. open_handle entry flags s')).1
open_steps (pos i, s) flags t =
    let e = t.entry i refl in open_handle-IsValid i flags s t.valid e.0 e.1
open_steps (negsuc i, s) flags t = t.valid

pub open-IsValid :
    (path : List ℕ) (flags : ℕ) (s : Ramdisk) → IsValid s → IsValid (ramdisk_open path flags s).1
unfolding ramdisk_open
open-IsValid path flags s v = elim (Option-cases (ramdisk_extract_name path)) [
  | inl e ↦ rw (e, ramdisk_open) v
  | inr (name, e) ↦
      rw (e, ramdisk_open)
        (open_steps (open_entry name flags s) flags
          (open_entry-Entered name flags s v (extract_name_short path name e)))
]

-- A handle that a call moves stays a handle of its file.
pub move-IsValid :
    (i : ℕ) (h : RamdiskHandle) (s : Ramdisk)
    → IsValid s
    → i < max_handles
    → (s.handles i).used ≡ true
    → h.entry_idx ≡ (s.handles i).entry_idx
    → IsValid (set_handle i h s)
move-IsValid i h s v l u e =
    let o = v.opened i l u in
    set_handle-IsValid i h s v (λ q. record {
      entry_at = rw e o.entry_at;
      entry_in = rw e o.entry_in;
      file_used = rw e o.file_used;
    })

pub good_handle :
    (handle : ℤ) (s : Ramdisk)
    → bad_handle handle s ≡ false
    → (pos_part handle < max_handles) × ((s.handles (pos_part handle)).used ≡ true)
good_handle (pos i) s e = ground arith
good_handle (negsuc i) s e = absurd (cc)

pub read-IsValid :
    (handle : ℤ) (buf : Option (ℕ → ℕ)) (size : ℕ) (s : Ramdisk)
    → IsValid s
    → IsValid (ramdisk_read handle buf size s).2
unfolding ramdisk_read
read-IsValid handle none size s v = v
read-IsValid handle (some buf) size s v = elim (Bool-cases (bad_handle handle s)) [
  | inl b ↦ rw b v
  | inr b ↦
      let i = pos_part handle in
      let h = s.handles i in
      let g = good_handle handle s b in
      elim (Bool-cases (lacks vfs_o_rdonly h.flags)) [
        | inl p ↦ rw (b, p) v
        | inr p ↦ elim (Bool-cases (leb (s.files (pos_part h.entry_idx)).size h.offset)) [
          | inl q ↦ rw (b, p, q) v
          | inr q ↦ rw (b, p, q) (move-IsValid i _ s v g.0 g.1 refl)
        ]
      ]
]

pub write-IsValid :
    (handle : ℤ) (buf : Option (ℕ → ℕ)) (size : ℕ) (s : Ramdisk)
    → IsValid s
    → IsValid (ramdisk_write handle buf size s).1
unfolding ramdisk_write
write-IsValid handle none size s v = v
write-IsValid handle (some buf) size s v = elim (Bool-cases (bad_handle handle s)) [
  | inl b ↦ rw b v
  | inr b ↦
      let i = pos_part handle in
      let h = s.handles i in
      let g = good_handle handle s b in
      let o = v.opened i g.0 g.1 in
      elim (Bool-cases (lacks vfs_o_wronly h.flags)) [
        | inl p ↦ rw (b, p) v
        | inr p ↦ elim (Bool-cases (leb file_capacity h.offset)) [
          | inl q ↦ rw (b, p, q) v
          | inr q ↦
              let small = v.sizes (pos_part h.entry_idx) o.entry_in in
              rw (b, p, q)
                (touch-IsValid (pos_part h.entry_idx) _ _ (set_handle i _ s)
                  (move-IsValid i _ s v g.0 g.1 refl) refl refl (ground arith))
        ]
      ]
]

pub close-IsValid : (handle : ℤ) (s : Ramdisk) → IsValid s → IsValid (ramdisk_close handle s).1
unfolding ramdisk_close
close-IsValid handle s v = elim (Bool-cases (bad_handle handle s)) [
  | inl b ↦ rw b v
  | inr b ↦ rw b (set_handle-IsValid (pos_part handle) _ s v (λ q. absurd (cc)))
]

pub lseek-IsValid :
    (handle by : ℤ) (whence : ℕ) (s : Ramdisk)
    → IsValid s
    → IsValid (ramdisk_lseek handle by whence s).1
unfolding ramdisk_lseek
lseek-IsValid handle by whence s v =
    let i = pos_part handle in
    let h = s.handles i in
    let size = (s.files (pos_part h.entry_idx)).size in
    elim (Bool-cases (bad_handle handle s)) [
      | inl b ↦ rw b v
      | inr b ↦
          let g = good_handle handle s b in
          elim (Option-cases (seek_target whence h.offset size by)) [
            | inl e ↦ rw (b, e) v
            | inr (target, e) ↦ rw (b, e) (move-IsValid i _ s v g.0 g.1 refl)
          ]
    ]
