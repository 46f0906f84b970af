-- ===== src/Vfs/Ramdisk/Names.antt =====
-- kernel/vfs.c: the names of ramdisk files, compared, copied and looked up.
use neuro_spark.Prelude.{
  ℕ, zero, suc, ◌≤◌, ◌<◌, ◌≡◌, ◌≢◌, refl, ap, true, false, none, some, List, [], ◌∷◌, arith, ◌==◌,
  ==_iff, take, length, find_index-none, find_index-some, Bool-cases, inl, inr,
}
use neuro_spark.Vfs.{str_eq}
use neuro_spark.Vfs.Ramdisk.{
  Ramdisk, scan_name, skip_slash, ramdisk_extract_name, ramdisk_find_entry, name_max, max_files,
  has_name,
}

pub str_eq_self : (s : List ℕ) → str_eq s s ≡ true
unfolding str_eq
str_eq_self [] = refl
str_eq_self (c ∷ s) = ground (arith, str_eq_self s)

pub str_eq_sound : (s t : List ℕ) → str_eq s t ≡ true → s ≡ t
unfolding str_eq
str_eq_sound [] [] h = refl
str_eq_sound [] (d ∷ t) h = cc
str_eq_sound (c ∷ s) [] h = cc
str_eq_sound (c ∷ s) (d ∷ t) h = elim (Bool-cases (c == d)) [
  | inl e ↦
      let rest : str_eq s t ≡ true = ground arith in
      let p : c ≡ d = (==_iff c d).0 e in let q : s ≡ t = str_eq_sound s t rest in cc
  | inr e ↦ ground arith
]

scan_name_short : (n : ℕ) (path : List ℕ) → length (scan_name n path).0 ≤ n
unfolding scan_name
scan_name_short zero path = omega arith
scan_name_short (suc n) [] = omega arith
scan_name_short (suc n) (c ∷ path) = ground (arith, scan_name_short n path)

pub extract_name_short :
    (path name : List ℕ) → ramdisk_extract_name path ≡ some name → length name ≤ name_max
unfolding ramdisk_extract_name
extract_name_short path name h = ground (arith, scan_name_short name_max (skip_slash path))

pub take_all : (n : ℕ) (s : List ℕ) → length s ≤ n → take n s ≡ s
take_all zero [] h = refl
take_all zero (c ∷ s) h = absurd (omega arith)
take_all (suc n) [] h = refl
take_all (suc n) (c ∷ s) h = ap (λ (l : List ℕ). c ∷ l) (take_all n s (omega arith))

-- No used entry has a name that is not found.
pub find_entry-none :
    (name : List ℕ) (s : Ramdisk)
    → ramdisk_find_entry name s ≡ none
    → (j : ℕ) → j < max_files
    → (s.files j).used ≡ true
    → (s.files j).name ≢ name
unfolding ramdisk_find_entry
find_entry-none name s h j l u e =
    let p : has_name s name j ≡ false =
      find_index-none (has_name s name) max_files 0 h j (omega arith) (omega arith) in
    let q : str_eq (s.files j).name name ≡ true = rw e (str_eq_self name) in ground arith

pub find_entry-some :
    (name : List ℕ) (s : Ramdisk) (e : ℕ)
    → ramdisk_find_entry name s ≡ some e
    → (e < max_files) × ((s.files e).used ≡ true) × ((s.files e).name ≡ name)
unfolding ramdisk_find_entry
find_entry-some name s e h =
    let t = find_index-some (has_name s name) max_files 0 h in
    let p : has_name s name e ≡ true = t.2 in
    let u : (s.files e).used ≡ true = ground arith in
    let q : str_eq (s.files e).name name ≡ true = ground arith in
    (omega (arith, t.1), u, str_eq_sound (s.files e).name name q)
