-- ===== src/Vfs/Mounts/Longest.antt =====
-- kernel/vfs.c: a path belongs to the longest mount that covers it.
use neuro_spark.Prelude.{
  ℕ, zero, suc, ◌≤◌, ◌<◌, ◌≡◌, refl, arith, true, false, not, Bool-cases, Option-cases, inl, inr,
  some, none, Option, List, [], ◌∷◌, ◌⊎◌, length, take, update_keeps, find_index, find_index-some,
}
use native.Mathlib.Decide.{ℕ_discrete}
use neuro_spark.Vfs.{str_eq}
use neuro_spark.Vfs.Descriptors.{VfsMount, State}
use neuro_spark.Vfs.Mounts.{
  better_mount, best_mount, resolve_mount, rel_path, root, max_mounts, set_mount, starts_with_slash,
  vfs_mount, vfs_umount, mount_path_max, is_mounted_at,
}
use neuro_spark.Vfs.Mounts.Below.{takes, BelowMount, takes-BelowMount, BelowMount-takes}
use neuro_spark.Vfs.Ramdisk.Names.{str_eq_sound}

-- What `vfs_mount` stores: the length of a path that is not empty.
pub record HasLengths {W : Type 0} (s : State W) : Type 0 where
  pub at_least : (i : ℕ) → i < max_mounts → (s.mounts i).used ≡ true → 1 ≤ (s.mounts i).mount_len
  pub measured :
      (i : ℕ)
      → i < max_mounts
      → (s.mounts i).used ≡ true
      → (s.mounts i).mount_len ≡ length (s.mounts i).mount_path

root-length : (text : List ℕ) → str_eq text root ≡ true → length text ≤ 1
root-length text h = rw (str_eq_sound text root h) (omega arith)

root_len :
    {W : Type 0} (s : State W) (i : ℕ)
    → HasLengths s
    → i < max_mounts
    → (s.mounts i).used ≡ true
    → str_eq (s.mounts i).mount_path root ≡ true
    → (s.mounts i).mount_len ≤ 1
root_len s i v l u e = omega (arith, v.measured i l u, root-length (s.mounts i).mount_path e)

module _ {W : Type 0} (path : List ℕ) (s : State W) where
  -- What the scan of the first `n` mounts answers.
  pub record IsLongest (n : ℕ) (best : Option ℕ) : Type 0 where
    pub none_takes : best ≡ none → (j : ℕ) → j < n → takes path (s.mounts j) ≡ false
    pub best_in : (b : ℕ) → best ≡ some b → (b < n) × (takes path (s.mounts b) ≡ true)
    pub best_of :
        (b : ℕ)
        → best ≡ some b
        → (j : ℕ) → j < n
        → takes path (s.mounts j) ≡ true
        → (s.mounts j).mount_len ≤ (s.mounts b).mount_len

  better-IsLongest :
      (n : ℕ) (best : Option ℕ)
      → n < max_mounts
      → HasLengths s
      → IsLongest n best
      → IsLongest (suc n) (better_mount path s best n)
  unfolding better_mount
  better-IsLongest n none z v h = record {
    none_takes = λ e j l. elim (ℕ_discrete n j) [
      | yes q ↦ rw (← q) (ground arith)
      | no q ↦ h.none_takes refl j (omega arith)
    ];
    best_in = λ b e. ground arith;
    best_of = λ b e j l t. elim (ℕ_discrete n j) [
      | yes q ↦ rw (← q) (ground arith)
      | no q ↦ ground (arith, h.none_takes refl j)
    ];
  }
  better-IsLongest n (some b) z v h =
      let inside = h.best_in b refl in
      let low = v.at_least b (omega (arith, inside.0)) in
      let used_b : (s.mounts b).used ≡ true = ground (arith, inside) in
      let root_b = root_len s b v (omega (arith, inside.0)) used_b in
      record {
        none_takes = λ e j l. absurd (ground arith);
        best_in = λ c e. ground (arith, inside);
        best_of = λ c e j l t. elim (ℕ_discrete n j) [
          | yes q ↦
              let here : takes path (s.mounts n) ≡ true = rw q t in
              rw (← q) (ground (arith, inside, low, root_len s n v z, root_b, here))
          | no q ↦ ground (arith, h.best_of b refl j)
        ];
      }

  best_mount-IsLongest : (n : ℕ) → n ≤ max_mounts → HasLengths s → IsLongest n (best_mount path s n)
  unfolding best_mount
  best_mount-IsLongest zero z v = record {
    none_takes = λ e j l. absurd (omega arith);
    best_in = λ b e. absurd (cc);
    best_of = λ b e j l t. absurd (omega arith);
  }
  best_mount-IsLongest (suc n) z v =
      better-IsLongest n (best_mount path s n) (omega arith) v
        (best_mount-IsLongest n (omega arith) v)

  -- If every mount in use stores the length of its path, which is not empty: a path is resolved by a
  -- mount in use that it lies below, to the operations of that mount and the path below it, and no
  -- mount in use that it lies below has a longer path; or it is not resolved, and lies below none of
  -- the 8 mounts in use.
  pub resolve_longest :
      HasLengths s
      → ((resolve_mount path s ≡ none)
          × ((j : ℕ) (rest : List ℕ)
              → j < max_mounts
              → (s.mounts j).used ≡ true
              → ¬ BelowMount path (s.mounts j) rest))
        ⊎ ((i : ℕ) × (i < max_mounts)
            × ((s.mounts i).used ≡ true)
            × ((rest : List ℕ) × BelowMount path (s.mounts i) rest
                × (resolve_mount path s ≡ some ((s.mounts i).ops, rest)))
            × ((j : ℕ) (rest : List ℕ)
                → j < max_mounts
                → (s.mounts j).used ≡ true
                → BelowMount path (s.mounts j) rest
                → length (s.mounts j).mount_path ≤ length (s.mounts i).mount_path))
  unfolding resolve_mount
  resolve_longest v =
      let t = best_mount-IsLongest max_mounts (omega arith) v in
      elim (Option-cases (best_mount path s max_mounts)) [
        | inl e ↦ inl (
          rw (e, resolve_mount) refl,
          λ j rest l u h.
              let no_take = t.none_takes e j l in
              let take = BelowMount-takes path (s.mounts j) rest u (v.measured j l u) h in cc,
        )
        | inr (i, e) ↦
            let b = t.best_in i e in
            let u : (s.mounts i).used ≡ true = let w = b.1 in ground arith in
            let len = v.measured i b.0 u in
            inr (
              i,
              b.0,
              u,
              (
                rel_path path (s.mounts i),
                takes-BelowMount path (s.mounts i) len b.1,
                rw (e, resolve_mount) refl,
              ),
              λ j rest l x h.
                  let take = BelowMount-takes path (s.mounts j) rest x (v.measured j l x) h in
                  omega (arith, t.best_of i e j l take, len, v.measured j l x),
            )
      ]

set_mount-HasLengths :
    {W : Type 0} (i : ℕ) (m : VfsMount) (s : State W)
    → HasLengths s
    → (m.used ≡ true → 1 ≤ m.mount_len)
    → (m.used ≡ true → m.mount_len ≡ length m.mount_path)
    → HasLengths (set_mount i m s)
set_mount-HasLengths i m s v a b = record {
  at_least = λ j l u.
      update_keeps (λ (x : VfsMount). x.used ≡ true → 1 ≤ x.mount_len) s.mounts i m j a
        (v.at_least j l) u;
  measured = λ j l u.
      update_keeps (λ (x : VfsMount). x.used ≡ true → x.mount_len ≡ length x.mount_path) s.mounts i
        m j b (v.measured j l) u;
}

slash_length :
    (path : List ℕ) → starts_with_slash path ≡ true → 1 ≤ length (take mount_path_max path)
slash_length [] h = absurd (cc)
slash_length (c ∷ path) h = omega arith

-- Mounting keeps what resolve_mount needs.
pub vfs_mount-HasLengths :
    {W : Type 0} (path : List ℕ) (o : Option ℕ) (s : State W)
    → HasLengths s
    → HasLengths (vfs_mount path o s).1
unfolding vfs_mount
vfs_mount-HasLengths path none s v = v
vfs_mount-HasLengths path (some o) s v = elim (Bool-cases (starts_with_slash path)) [
  | inr e ↦ rw e v
  | inl e ↦
      let old = find_index (is_mounted_at path s) max_mounts 0 in
      elim (Option-cases old) [
        | inr (i, h) ↦
            let low = find_index-some (is_mounted_at path s) max_mounts 0 h in
            let l : i < max_mounts = omega (arith, low.1) in
            rw (e, h) (set_mount-HasLengths i _ s v (v.at_least i l) (v.measured i l))
        | inl h ↦ elim (Option-cases (find_index (λ i. not (s.mounts i).used) max_mounts 0)) [
          | inl k ↦ rw (e, h, k) v
          | inr (i, k) ↦
              rw (e, h, k) (set_mount-HasLengths i _ s v (λ u. slash_length path e) (λ u. refl))
        ]
      ]
]

vfs_umount-HasLengths :
    {W : Type 0} (path : List ℕ) (s : State W) → HasLengths s → HasLengths (vfs_umount path s).1
unfolding vfs_umount str_eq
vfs_umount-HasLengths path s v = elim (Bool-cases (starts_with_slash path)) [
  | inr e ↦ rw e v
  | inl e ↦ elim (Bool-cases (str_eq path root)) [
    | inl r ↦ rw (e, r) v
    | inr r ↦ elim (Option-cases (find_index (is_mounted_at path s) max_mounts 0)) [
      | inl k ↦ rw (e, r, k) v
      | inr (i, k) ↦
          rw (e, r, k) (set_mount-HasLengths i _ s v (λ u. absurd (cc)) (λ u. absurd (cc)))
    ]
  ]
]
