-- ===== src/Vfs/Ramdisk/Entries.antt =====
-- kernel/vfs.c: deleting, renaming and cutting files keep the ramdisk valid.
use neuro_spark.Prelude.{
  ℕ, ◌≤◌, ◌<◌, ◌≡◌, refl, sym, ◌∙◌, true, ◌&&◌, List, arith, ltb, ◌==◌, length, Bool-cases, inl,
  inr, Option-cases, ==_iff,
}
use neuro_spark.Prelude.Int.{ℤ, pos, pos_part}
use neuro_spark.Vfs.{int_eq}
use neuro_spark.Vfs.Ramdisk.{
  Ramdisk, max_files, max_handles, file_capacity, name_max, set_handle, touch, ramdisk_find_entry,
  ramdisk_extract_name, ramdisk_delete, ramdisk_rename, ramdisk_truncate, ramdisk_ftruncate,
  is_open, delete_entry, rename_entry, truncate_entry, bad_handle, smaller, on_entry, pull_back,
}
use neuro_spark.Vfs.Ramdisk.Names.{extract_name_short, find_entry-none, find_entry-some}
use neuro_spark.Vfs.Ramdisk.Valid.{IsValid, touch-IsValid, delete_entry-IsValid, rename-IsValid}
use neuro_spark.Vfs.Ramdisk.Kept.{move-IsValid, good_handle}

-- An operation on the entry of a name keeps the disk valid if it does so for every used entry.
on_entry-IsValid :
    (path : List ℕ) (s : Ramdisk) (f : ℕ → ℤ × Ramdisk)
    → IsValid s
    → ((e : ℕ) → e < max_files → (s.files e).used ≡ true → IsValid (f e).1)
    → IsValid (on_entry path s f).1
on_entry-IsValid path s f v keep = elim (Option-cases (ramdisk_extract_name path)) [
  | inl e ↦ rw (e, on_entry) v
  | inr (name, e) ↦ elim (Option-cases (ramdisk_find_entry name s)) [
    | inl d ↦ rw (e, d, on_entry) v
    | inr (k, d) ↦ let t = find_entry-some name s k d in rw (e, d, on_entry) (keep k t.0 t.1)
  ]
]

pub delete-IsValid : (path : List ℕ) (s : Ramdisk) → IsValid s → IsValid (ramdisk_delete path s).1
unfolding ramdisk_delete
delete-IsValid path s v = on_entry-IsValid path s (delete_entry s) v (λ e l u.
    elim (Bool-cases (is_open e s)) [
      | inl b ↦ rw b v
      | inr b ↦ rw b (delete_entry-IsValid e _ s v b refl (omega arith))
    ])

rename_entry-IsValid :
    (name : List ℕ) (s : Ramdisk) (e : ℕ)
    → IsValid s
    → length name ≤ name_max
    → e < max_files
    → (s.files e).used ≡ true
    → IsValid (rename_entry s name e).1
rename_entry-IsValid name s e v short l u = elim (Option-cases (ramdisk_find_entry name s)) [
  | inl d ↦
      rw (d, rename_entry)
        (rename-IsValid name e s v l u short
          (λ j lj uj q. absurd (find_entry-none name s d j lj uj q)))
  | inr (k, d) ↦
      let t = find_entry-some name s k d in
      elim (Bool-cases (k == e)) [
        | inr b ↦ rw (d, b, rename_entry) v
        | inl b ↦
            let p : k ≡ e = (==_iff k e).0 b in
            rw (d, b, rename_entry)
              (rename-IsValid name e s v l u short
                (λ j lj uj q. v.unique j k lj t.0 uj t.1 (q ∙ sym t.2) ∙ p))
      ]
]

pub rename-IsValid_op :
    (old_path new_path : List ℕ) (s : Ramdisk)
    → IsValid s
    → IsValid (ramdisk_rename old_path new_path s).1
unfolding ramdisk_rename
rename-IsValid_op old_path new_path s v = elim (Option-cases (ramdisk_extract_name new_path)) [
  | inl e ↦ rw (e, ramdisk_rename) v
  | inr (name, e) ↦
      rw (e, ramdisk_rename)
        (on_entry-IsValid old_path s (rename_entry s name) v
          (λ k l u. rename_entry-IsValid name s k v (extract_name_short new_path name e) l u))
]

pull_back-IsValid :
    (e size : ℕ) (s : Ramdisk)
    → IsValid s
    → IsValid (record s { handles = pull_back e size s.handles })
pull_back-IsValid e size s v = record {
  opened = λ i l u.
      let h = s.handles i in
      elim (Bool-cases
        (ltb i max_handles && h.used && int_eq h.entry_idx (pos e) && ltb size h.offset)) [
          | inl b ↦
              let o = v.opened i l (ground arith) in
              rw b
                (record { entry_at = o.entry_at; entry_in = o.entry_in; file_used = o.file_used })
          | inr b ↦ rw b (v.opened i l (ground arith))
        ];
  sizes = v.sizes;
  unique = v.unique;
}

pub truncate-IsValid :
    (path : List ℕ) (size : ℕ) (s : Ramdisk) → IsValid s → IsValid (ramdisk_truncate path size s).1
unfolding ramdisk_truncate
truncate-IsValid path size s v = on_entry-IsValid path s (truncate_entry size s) v (λ e l u.
    pull_back-IsValid e (smaller size file_capacity)
      (touch e (record (s.files e) { size = smaller size file_capacity }) s)
      (touch-IsValid e _ _ s v refl refl (ground arith)))

pub ftruncate-IsValid :
    (handle : ℤ) (size : ℕ) (s : Ramdisk) → IsValid s → IsValid (ramdisk_ftruncate handle size s).1
unfolding ramdisk_ftruncate
ftruncate-IsValid handle size s v = elim (Bool-cases (bad_handle handle s)) [
  | inl b ↦ rw b v
  | inr b ↦
      let i = pos_part handle in
      let g = good_handle handle s b in
      rw b (
        touch-IsValid (pos_part (s.handles i).entry_idx) _ _ (set_handle i _ s)
          (move-IsValid i _ s v g.0 g.1 refl) refl refl (ground arith))
]
