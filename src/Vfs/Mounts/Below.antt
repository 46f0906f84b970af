-- ===== src/Vfs/Mounts/Below.antt =====
-- kernel/vfs.c: which mounts a path lies below, said of the texts.
use neuro_spark.Prelude.{
  ℕ, ◌≡◌, ◌≢◌, refl, ap, sym, ◌∙◌, subst, arith, Bool, true, false, ◌||◌, ◌&&◌, Bool-cases, inl,
  inr, List, [], ◌∷◌, ◌++◌, ◌⊎◌, length,
}
use neuro_spark.Vfs.{str_eq}
use neuro_spark.Vfs.Descriptors.{VfsMount}
use neuro_spark.Vfs.Mounts.{covers, rel_path, root, str_prefix, drop, at_boundary, or_root}
use neuro_spark.Vfs.Ramdisk.Names.{str_eq_sound}

-- The mount takes the path: the root takes all.
abbrev pub takes : List ℕ → VfsMount → Bool
takes path m = m.used && (str_eq m.mount_path root || covers path m)

-- `rest` is the path below the mount: the whole path at the root; elsewhere what follows the path of
-- the mount, which is nothing, for which the root stands, or starts with a slash.
pub BelowMount : List ℕ → VfsMount → List ℕ → Type 0
BelowMount path m rest =
    ((m.mount_path ≡ root) × (rest ≡ path))
    ⊎ ((m.mount_path ≢ root)
        × (((path ≡ m.mount_path) × (rest ≡ root))
            ⊎ ((t : List ℕ) × (path ≡ m.mount_path ++ b'/' ∷ t) × (rest ≡ b'/' ∷ t))))

str_prefix_split : (s p : List ℕ) → str_prefix s p ≡ true → s ≡ p ++ drop (length p) s
unfolding str_prefix drop
str_prefix_split s [] h = refl
str_prefix_split [] (c ∷ p) h = absurd (cc)
str_prefix_split (d ∷ s) (c ∷ p) h =
    let rest : str_prefix s p ≡ true = ground arith in
    let same : d ≡ c = ground arith in
    ap (λ x. x ∷ s) same ∙ ap (λ t. c ∷ t) (str_prefix_split s p rest)

str_prefix-append : (p t : List ℕ) → str_prefix (p ++ t) p ≡ true
unfolding str_prefix
str_prefix-append [] t = refl
str_prefix-append (c ∷ p) t = ground (arith, str_prefix-append p t)

drop-append : (p t : List ℕ) → drop (length p) (p ++ t) ≡ t
unfolding drop
drop-append [] t = refl
drop-append (c ∷ p) t = drop-append p t

append-nil : (p : List ℕ) → p ++ [] ≡ p
append-nil [] = refl
append-nil (c ∷ p) = ap (λ t. c ∷ t) (append-nil p)

behind :
    (path mp tail : List ℕ)
    → path ≡ mp ++ tail
    → at_boundary tail ≡ true
    → ((path ≡ mp) × (or_root tail ≡ root))
      ⊎ ((t : List ℕ) × (path ≡ mp ++ b'/' ∷ t) × (or_root tail ≡ b'/' ∷ t))
behind path mp [] e b = inl (e ∙ append-nil mp, refl)
behind path mp (c ∷ t) e b =
    let q : c ≡ b'/' = ground arith in inr (t, e ∙ ap (λ x. mp ++ x ∷ t) q, ap (λ x. x ∷ t) q)

-- A mount that takes the path has it below.
pub takes-BelowMount :
    (path : List ℕ) (m : VfsMount)
    → m.mount_len ≡ length m.mount_path
    → takes path m ≡ true
    → BelowMount path m (rel_path path m)
unfolding covers rel_path BelowMount str_eq
takes-BelowMount path m l h = elim (Bool-cases (str_eq m.mount_path root)) [
  | inl e ↦ rw e (inl (str_eq_sound m.mount_path root e, refl))
  | inr e ↦
      let p : str_prefix path m.mount_path ≡ true = ground arith in
      let b : at_boundary (drop m.mount_len path) ≡ true = ground arith in
      let cut : path ≡ m.mount_path ++ drop m.mount_len path =
        str_prefix_split path m.mount_path p ∙ ap (λ n. m.mount_path ++ drop n path) (sym l) in
      let ne : m.mount_path ≢ root =
        λ q. let r : str_eq root root ≡ false = subst (λ x. str_eq x root ≡ false) q e in cc in
      rw e (inr (ne, behind path m.mount_path (drop m.mount_len path) cut b))
]

covered :
    (path tail : List ℕ) (m : VfsMount)
    → m.mount_len ≡ length m.mount_path
    → path ≡ m.mount_path ++ tail
    → at_boundary tail ≡ true
    → covers path m ≡ true
unfolding covers
covered path tail m l e b =
    let a : str_prefix path m.mount_path ≡ true =
      subst (λ x. str_prefix x m.mount_path ≡ true) (sym e) (str_prefix-append m.mount_path tail) in
    let d : drop m.mount_len path ≡ tail =
      ap (λ n. drop n path) l ∙ ap (drop (length m.mount_path)) e ∙ drop-append m.mount_path tail in
    let f : at_boundary (drop m.mount_len path) ≡ true =
      subst (λ x. at_boundary x ≡ true) (sym d) b in
    ground arith

-- And the other way round.
pub BelowMount-takes :
    (path : List ℕ) (m : VfsMount) (rest : List ℕ)
    → m.used ≡ true
    → m.mount_len ≡ length m.mount_path
    → BelowMount path m rest
    → takes path m ≡ true
unfolding BelowMount str_eq
BelowMount-takes path m rest u l (inl (q, r)) =
    let a : str_eq m.mount_path root ≡ true = subst (λ x. str_eq x root ≡ true) (sym q) refl in
    ground arith
BelowMount-takes path m rest u l (inr (ne, inl (q, r))) =
    let c = covered path [] m l (q ∙ sym (append-nil m.mount_path)) refl in ground arith
BelowMount-takes path m rest u l (inr (ne, inr (t, q, r))) =
    let c = covered path (b'/' ∷ t) m l q refl in ground arith
