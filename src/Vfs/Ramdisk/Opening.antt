-- ===== src/Vfs/Ramdisk/Opening.antt =====
-- kernel/vfs.c: which file of the ramdisk an open finds, and with which handle.
use neuro_spark.Prelude.{
  ℕ, ◌≤◌, ◌<◌, ◌≡◌, refl, sym, ap, ◌∙◌, subst, arith, if◌then◌else◌, true, false, not, Bool-cases,
  Option-cases, inl, inr, some, List, find_index-some, find_index-none, length, take,
}
use neuro_spark.Prelude.Int.{ℤ, pos, negsuc}
use neuro_spark.Vfs.{has_flag, vfs_o_trunc, vfs_o_creat}
use neuro_spark.Vfs.Ramdisk.{
  Ramdisk, RamdiskHandle, max_files, max_handles, name_max, ramdisk_open, open_entry, open_handle,
  and_then, create_entry, touch, set_handle, ramdisk_extract_name, ramdisk_find_entry,
  ramdisk_alloc_entry, ramdisk_alloc_handle,
}
use neuro_spark.Vfs.Ramdisk.Names.{extract_name_short, take_all, find_entry-none, find_entry-some}
use neuro_spark.Vfs.Ramdisk.Valid.{IsValid}
use neuro_spark.Vfs.Ramdisk.Content.{At}

-- The file that an open answers a handle for.
pub record Found (name : List ℕ) (flags h e : ℕ) (s : Ramdisk) : Type 0 where
  pub entry_in : e < max_files
  pub at : At s h e 0 flags
  pub used_at : (s.files e).used ≡ true
  pub name_at : (s.files e).name ≡ name
  pub empty : has_flag flags vfs_o_trunc ≡ true → (s.files e).size ≡ 0

-- The entry that a step answers.
record Entry (name : List ℕ) (flags e : ℕ) (s : Ramdisk) : Type 0 where
  entry_in : e < max_files
  used_at : (s.files e).used ≡ true
  name_at : (s.files e).name ≡ name
  empty : has_flag flags vfs_o_trunc ≡ true → (s.files e).size ≡ 0

open_entry_found :
    (name : List ℕ) (flags e : ℕ) (s : Ramdisk)
    → length name ≤ name_max
    → (open_entry name flags s).0 ≡ pos e
    → Entry name flags e (open_entry name flags s).1
unfolding open_entry create_entry ramdisk_alloc_entry
open_entry_found name flags e s short q = elim (Option-cases (ramdisk_find_entry name s)) [
  | inr (k, f) ↦
      let found = find_entry-some name s k f in
      let eq : open_entry name flags s ≡ (
        pos k,
        if has_flag flags vfs_o_trunc then touch k (record (s.files k) { size = 0 }) s else s,
      ) =
        rw (f, open_entry) refl in
      let same : k ≡ e = ground (arith, eq, q) in
      rw eq (
        rw (← same) (record {
          entry_in = found.0;
          used_at = ground (arith, found.1);
          name_at = ground (arith, found.2);
          empty = λ t. ground arith;
        }))
  | inl f ↦ elim (Bool-cases (has_flag flags vfs_o_creat)) [
    | inr c ↦ absurd (ground arith)
    | inl c ↦ elim (Option-cases (ramdisk_alloc_entry s)) [
      | inl a ↦ absurd (ground arith)
      | inr (k, a) ↦
          let low = find_index-some (λ i. not (s.files i).used) max_files 0 a in
          let t : take name_max name ≡ name = take_all name_max name short in
          let eq : open_entry name flags s ≡ (pos k, create_entry name k s) =
            rw (f, c, a, open_entry) refl in
          let same : k ≡ e = ground (arith, eq, q) in
          rw eq (
            rw (← same) (record {
              entry_in = omega (arith, low.1);
              used_at = ground arith;
              name_at = ground (arith, t);
              empty = λ u. ground arith;
            }))
    ]
  ]
]

open_handle-Found :
    (name : List ℕ) (flags e h : ℕ) (s : Ramdisk)
    → Entry name flags e s
    → (open_handle (pos e) flags s).0 ≡ pos h
    → Found name flags h e (open_handle (pos e) flags s).1
unfolding open_handle ramdisk_alloc_handle
open_handle-Found name flags e h s v q = elim (Option-cases (ramdisk_alloc_handle s)) [
  | inl a ↦ absurd (ground arith)
  | inr (k, a) ↦
      let low = find_index-some (λ i. not (s.handles i).used) max_handles 0 a in
      let eq : open_handle (pos e) flags s ≡ (
        pos k,
        set_handle k (record { used = true; entry_idx = pos e; offset = 0; flags = flags }) s,
      ) =
        rw (a, open_handle) refl in
      let same : k ≡ h = ground (arith, eq, q) in
      rw eq (
        rw (← same) (record {
          entry_in = v.entry_in;
          at = record {
            handle_in = omega (arith, low.1);
            used_at = ground arith;
            entry_at = ground arith;
            offset_at = ground arith;
            flags_at = ground arith;
          };
          used_at = v.used_at;
          name_at = v.name_at;
          empty = v.empty;
        }))
]

steps-Found :
    (name : List ℕ) (flags h : ℕ) (r : ℤ × Ramdisk)
    → ((e : ℕ) → r.0 ≡ pos e → Entry name flags e r.1)
    → (and_then r (λ entry s'. open_handle entry flags s')).0 ≡ pos h
    → (e : ℕ) × Found name flags h e (and_then r (λ entry s'. open_handle entry flags s')).1
steps-Found name flags h (pos e, s) v q = (e, open_handle-Found name flags e h s (v e refl) q)
steps-Found name flags h (negsuc e, s) v q = absurd (cc)

-- A successful open has found, made or emptied the file of its name.
pub ramdisk_open-Found :
    (rel name : List ℕ) (flags h : ℕ) (s s' : Ramdisk)
    → ramdisk_extract_name rel ≡ some name
    → ramdisk_open rel flags s ≡ (pos h, s')
    → (e : ℕ) × Found name flags h e s'
unfolding ramdisk_open
ramdisk_open-Found rel name flags h s s' x q =
    let steps = and_then (open_entry name flags s) (λ entry t. open_handle entry flags t) in
    let eq : ramdisk_open rel flags s ≡ steps = rw (x, ramdisk_open) refl in
    let p : steps ≡ (pos h, s') = sym eq ∙ q in
    let r =
      steps-Found name flags h (open_entry name flags s)
        (λ e a. open_entry_found name flags e s (extract_name_short rel name x) a)
        (ap (λ z. z.0) p) in
    (r.0, subst (λ z. Found name flags h r.0 z) (ap (λ z. z.1) p) r.1)

-- Opening a file that is there, without emptying it, with a handle that is free.
pub ramdisk_open_again :
    (rel name : List ℕ) (flags e j : ℕ) (s : Ramdisk)
    → IsValid s
    → ramdisk_extract_name rel ≡ some name
    → has_flag flags vfs_o_trunc ≡ false
    → e < max_files
    → (s.files e).used ≡ true
    → (s.files e).name ≡ name
    → j < max_handles
    → (s.handles j).used ≡ false
    → (h : ℕ) × (s' : Ramdisk) × (ramdisk_open rel flags s ≡ (pos h, s'))
      × (s'.files ≡ s.files)
      × At s' h e 0 flags
unfolding ramdisk_open ramdisk_alloc_handle
ramdisk_open_again rel name flags e j s v x t l u n m w =
    elim (Option-cases (ramdisk_find_entry name s)) [
      | inl f ↦ absurd (find_entry-none name s f e l u n)
      | inr (k, f) ↦
          let found = find_entry-some name s k f in
          let same : k ≡ e = v.unique k e found.0 l found.1 u (found.2 ∙ sym n) in
          let entry : open_entry name flags s ≡ (pos k, s) = rw (f, open_entry) (rw t refl) in
          elim (Option-cases (ramdisk_alloc_handle s)) [
            | inl a ↦
                let all =
                  find_index-none (λ i. not (s.handles i).used) max_handles 0 a j (omega arith)
                    (omega arith) in
                absurd (ground arith)
            | inr (h, a) ↦
                let low = find_index-some (λ i. not (s.handles i).used) max_handles 0 a in
                let handle : RamdiskHandle = record {
                  used = true;
                  entry_idx = pos k;
                  offset = 0;
                  flags = flags;
                } in
                (
                  h,
                  set_handle h handle s,
                  rw (x, ramdisk_open) (rw entry (rw (a, open_handle) refl)),
                  refl,
                  record {
                    handle_in = omega (arith, low.1);
                    used_at = ground arith;
                    entry_at = ground (arith, same);
                    offset_at = ground arith;
                    flags_at = ground arith;
                  },
                )
          ]
    ]
