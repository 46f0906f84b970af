-- ===== src/Vfs/Descriptors/Dup.antt =====
-- kernel/vfs.c: looking up and copying descriptors keeps the reference counts exact.
use neuro_spark.Prelude.{
  ℕ, ◌<◌, ◌≡◌, refl, sym, subst, arith, ◌==◌, true, false, ◌||◌, not, Bool-cases, Option-cases, inl,
  inr, some, find_index-some,
}
use neuro_spark.Prelude.Int.{ℤ, pos, negsuc, pos_part}
use neuro_spark.Vfs.{is_neg, out_of_range}
use neuro_spark.Vfs.Descriptors.{
  VfsFd, State, task_max_fds, max_global_fds, bad_gfd, set_entry, set_fd, retain, current_task_id,
  alloc_task_fd, task_fd_to_global, vfs_dup, vfs_fcntl,
}
use neuro_spark.Vfs.Descriptors.Balance.{
  Live, Balanced, nothing, good_gfd, bind-Balanced, Live-update,
}
use neuro_spark.Task.{max_tasks}

pub in_range : (z : ℤ) (n : ℕ) → out_of_range z n ≡ false → pos_part z < n
in_range (pos i) n e = ground arith
in_range (negsuc i) n e = absurd (cc)

module _ {W : Type 0} where
  pub current_in : (s : State W) → current_task_id s < max_tasks
  unfolding current_task_id
  current_in s = elim (Bool-cases (out_of_range s.current max_tasks)) [
    | inl e ↦ rw e (omega arith)
    | inr e ↦ rw e (in_range s.current max_tasks e)
  ]

  pub Balanced-world :
      (debt : ℕ → ℕ) (w : W) (s : State W)
      → Balanced debt s
      → Balanced debt (record s { world = w })
  Balanced-world debt w s v = record { named = v.named; counted = v.counted; held = v.held }

  pub alloc_task_fd-some :
      (t i : ℕ) (s : State W)
      → alloc_task_fd t s ≡ some i
      → (i < task_max_fds) × (is_neg (s.task_fd_map t i) ≡ true)
  unfolding alloc_task_fd
  alloc_task_fd-some t i s e =
      let r = find_index-some (λ j. is_neg (s.task_fd_map t j)) task_max_fds 0 e in
      (omega (arith, r.1), r.2)

  -- A descriptor that names a live entry.
  pub record Names (fd : ℤ) (s : State W) : Type 0 where
    pub fd_ok : out_of_range fd task_max_fds ≡ false
    pub fd_in : pos_part fd < task_max_fds
    pub entry_at : task_fd_to_global fd s ≡ s.task_fd_map (current_task_id s) (pos_part fd)
    pub is_pos : task_fd_to_global fd s ≡ pos (pos_part (task_fd_to_global fd s))
    pub live : Live s.fd_table (pos_part (task_fd_to_global fd s))

  pub good_fd : (fd : ℤ) (s : State W) → bad_gfd (task_fd_to_global fd s) s ≡ false → Names fd s
  unfolding task_fd_to_global
  good_fd fd s e = elim (Bool-cases (out_of_range fd task_max_fds)) [
    | inl b ↦ let z : bad_gfd (negsuc 0) s ≡ false = ground arith in absurd (cc)
    | inr b ↦
        let g = good_gfd (task_fd_to_global fd s) s e in
        record {
          fd_ok = b;
          fd_in = in_range fd task_max_fds b;
          entry_at = rw b refl;
          is_pos = g.0;
          live = g.1;
        }
  ]

  pub dup-Balanced : (fd : ℤ) (s : State W) → Balanced nothing s → Balanced nothing (vfs_dup fd s).1
  unfolding vfs_dup
  dup-Balanced fd s v =
      let t = current_task_id s in
      let z = task_fd_to_global fd s in
      elim (Bool-cases (bad_gfd z s)) [
        | inl b ↦ rw b v
        | inr b ↦ elim (Option-cases (alloc_task_fd t s)) [
          | inl e ↦ rw (b, e) v
          | inr (i, e) ↦
              let n = good_fd fd s b in
              let slot = alloc_task_fd-some t i s e in
              rw (b, e)
                (subst (λ y. Balanced nothing (retain (pos_part z) (set_fd t i y s))) (sym n.is_pos)
                  (bind-Balanced t i (pos_part z) s v (current_in s) slot.0 slot.1 n.live))
        ]
      ]

  -- A store that leaves the use, the backend and the count of an entry.
  set_entry-Balanced :
      (g : ℕ) (e : VfsFd) (s : State W)
      → Balanced nothing s
      → e.used ≡ (s.fd_table g).used
      → e.ops ≡ (s.fd_table g).ops
      → e.ref_count ≡ (s.fd_table g).ref_count
      → Balanced nothing (set_entry g e s)
  set_entry-Balanced g e s v a b c = record {
    named = λ u j p q n. Live-update s.fd_table g _ e a b (v.named u j p q n);
    counted = λ k m u. ground (arith, v.counted k m);
    held = λ k m u. ground (arith, v.held k m);
  }

  pub fcntl-Balanced :
      (fd : ℤ) (cmd arg : ℕ) (s : State W)
      → Balanced nothing s
      → Balanced nothing (vfs_fcntl fd cmd arg s).1
  unfolding vfs_fcntl
  fcntl-Balanced fd cmd arg s v =
      let z = task_fd_to_global fd s in
      let e = s.fd_table (pos_part z) in
      elim (Bool-cases (out_of_range z max_global_fds || not e.used)) [
        | inl b ↦ rw b v
        | inr b ↦ elim (Bool-cases (cmd == 1)) [
          | inl c ↦ rw (b, c) v
          | inr c ↦ elim (Bool-cases (cmd == 2)) [
            | inr d ↦ rw (b, c, d) v
            | inl d ↦
                rw (b, c, d)
                  (set_entry-Balanced (pos_part z) (record e { flags = arg }) s v refl refl refl)
          ]
        ]
      ]
