-- ===== src/Vfs/Descriptors/Balance.antt =====
-- kernel/vfs.c: the reference counts of the shared table.
use neuro_spark.Prelude.{
  ℕ, ◌+◌, ◌-◌, ◌<◌, ◌≡◌, ◌≢◌, refl, ap, sym, ◌∙◌, arith, update, update_ne, true, false, ltb,
  Bool-cases, inl, inr, some,
}
use neuro_spark.Prelude.Int.{ℤ, pos, negsuc, pos_part}
use neuro_spark.Vfs.{is_neg}
use neuro_spark.Vfs.Descriptors.{
  VfsBackendOps, VfsFd, State, task_max_fds, max_global_fds, has_ops, bad_gfd, set_entry, set_fd,
  retain, free_fd, close_global_fd,
}
use neuro_spark.Vfs.Descriptors.Refs.{points, refs, refs_set, refs_pos, refs_zero, set_map_keeps}
use neuro_spark.Task.{max_tasks}

-- The entry is in use and has a backend.
abbrev pub Live : (ℕ → VfsFd) → ℕ → Type 0
Live table g = (g < max_global_fds) × ((table g).used ≡ true) × (has_ops (table g).ops ≡ true)

-- Descriptors name entries in use, and an entry in use counts the descriptors that name it, and
-- `debt` on top.
pub record Balanced {W : Type 0} (debt : ℕ → ℕ) (s : State W) : Type 0 where
  pub named :
      (t i : ℕ)
      → t < max_tasks
      → i < task_max_fds
      → is_neg (s.task_fd_map t i) ≡ false
      → Live s.fd_table (pos_part (s.task_fd_map t i))
  pub counted :
      (g : ℕ)
      → g < max_global_fds
      → (s.fd_table g).used ≡ true
      → (s.fd_table g).ref_count ≡ refs s.task_fd_map g + debt g
  pub held :
      (g : ℕ) → g < max_global_fds → (s.fd_table g).used ≡ true → 0 < (s.fd_table g).ref_count

abbrev pub nothing : ℕ → ℕ
nothing g = 0

pub good_gfd :
    {W : Type 0} (z : ℤ) (s : State W)
    → bad_gfd z s ≡ false
    → (z ≡ pos (pos_part z)) × Live s.fd_table (pos_part z)
good_gfd (pos g) s e = (refl, (ground arith, ground arith, ground arith))
good_gfd (negsuc g) s e = absurd (cc)

Live-gfd : {W : Type 0} (g : ℕ) (s : State W) → Live s.fd_table g → bad_gfd (pos g) s ≡ false
Live-gfd g s l = ground (arith, l.0, l.1, l.2)

pub nonneg : (z : ℤ) → is_neg z ≡ false → z ≡ pos (pos_part z)
nonneg (pos n) e = refl
nonneg (negsuc n) e = absurd (cc)

-- No descriptor names an entry without references.
unnamed :
    (map : ℕ → ℕ → ℤ) (g t i : ℕ)
    → refs map g ≡ 0
    → t < max_tasks
    → i < task_max_fds
    → is_neg (map t i) ≡ false
    → g ≢ pos_part (map t i)
unnamed map g t i z a b n e =
    let here : map t i ≡ pos g = nonneg (map t i) n ∙ ap pos (sym e) in
    omega (arith, refs_pos map t i g a b here)

pub points_free : (z : ℤ) (k : ℕ) → is_neg z ≡ true → points z k ≡ 0
points_free z k e = ground arith

-- An entry stays live under a store that leaves it in use.
pub Live-update :
    (table : ℕ → VfsFd) (g k : ℕ) (e : VfsFd)
    → e.used ≡ (table g).used
    → e.ops ≡ (table g).ops
    → Live table k
    → Live (update table g e) k
Live-update table g k e a b l = (l.0, ground (arith, l.1), ground (arith, l.2))

Live-update_ne :
    (table : ℕ → VfsFd) (g k : ℕ) (e : VfsFd) → g ≢ k → Live table k → Live (update table g e) k
Live-update_ne table g k e ne l = rw (update_ne table g k e ne) l

module _ {W : Type 0} where
  -- A descriptor is taken away: the entry counts one too many.
  pub unbind-Balanced :
      (t i g : ℕ) (s : State W)
      → Balanced nothing s
      → t < max_tasks
      → i < task_max_fds
      → s.task_fd_map t i ≡ pos g
      → Balanced (points (pos g)) (set_fd t i (negsuc 0) s)
  unbind-Balanced t i g s v a b e = record {
    named = λ u j c d.
        set_map_keeps (λ z. is_neg z ≡ false → Live s.fd_table (pos_part z)) s.task_fd_map t i
          (negsuc 0) u j (λ n. absurd (cc)) (v.named u j c d);
    counted = λ k l u.
        let p : points (s.task_fd_map t i) k ≡ points (pos g) k = ap (λ z. points z k) e in
        omega (arith, p, v.counted k l u, refs_set s.task_fd_map t i (negsuc 0) k a b);
    held = v.held;
  }

  -- A free descriptor is bound to an entry in use, which counts it.
  pub bind-Balanced :
      (t i g : ℕ) (s : State W)
      → Balanced nothing s
      → t < max_tasks
      → i < task_max_fds
      → is_neg (s.task_fd_map t i) ≡ true
      → Live s.fd_table g
      → Balanced nothing (retain g (set_fd t i (pos g) s))
  bind-Balanced t i g s v a b e l =
      let entry : VfsFd = record (s.fd_table g) { ref_count = (s.fd_table g).ref_count + 1 } in
      record {
        named = λ u j c d.
            set_map_keeps (λ z. is_neg z ≡ false → Live (update s.fd_table g entry) (pos_part z))
              s.task_fd_map t i (pos g) u j (λ n. Live-update s.fd_table g g entry refl refl l)
              (λ n. Live-update s.fd_table g _ entry refl refl (v.named u j c d n));
        counted = λ k m u. ground (
          arith,
          v.counted k m,
          refs_set s.task_fd_map t i (pos g) k a b,
          points_free (s.task_fd_map t i) k e,
        );
        held = λ k m u. ground (arith, v.held k m);
      }

  -- A descriptor is bound to an entry that nobody used.
  pub enter-Balanced :
      (t i g : ℕ) (o : ℕ) (h : ℤ) (flags : ℕ) (s : State W)
      → Balanced nothing s
      → t < max_tasks
      → i < task_max_fds
      → g < max_global_fds
      → is_neg (s.task_fd_map t i) ≡ true
      → (s.fd_table g).used ≡ false
      → Balanced nothing (
          set_fd t i (pos g) (
            set_entry g
              (record {
                used = true;
                ops = some o;
                backend_handle = h;
                flags = flags;
                ref_count = 1;
              })
              s))
  enter-Balanced t i g o h flags s v a b c e idle =
      let entry : VfsFd = record {
        used = true;
        ops = some o;
        backend_handle = h;
        flags = flags;
        ref_count = 1;
      } in
      let other =
        λ (u j : ℕ) (p : u < max_tasks) (q : j < task_max_fds)
            (n : is_neg (s.task_fd_map u j) ≡ false).
          let ne : g ≢ pos_part (s.task_fd_map u j) = λ r.
            let w = (v.named u j p q n).1 in let w' : (s.fd_table g).used ≡ true = rw r w in cc in
          ne in
      let none_yet : refs s.task_fd_map g ≡ 0 =
        refs_zero s.task_fd_map g (λ u j p q. ground (arith, other u j p q)) in
      record {
        named = λ u j p q.
            set_map_keeps (λ z. is_neg z ≡ false → Live (update s.fd_table g entry) (pos_part z))
              s.task_fd_map t i (pos g) u j (λ n. (c, (ground arith), (ground arith)))
              (λ n. Live-update_ne s.fd_table g _ entry (other u j p q n) (v.named u j p q n));
        counted = λ k m u. ground (
          arith,
          v.counted k m,
          none_yet,
          refs_set s.task_fd_map t i (pos g) k a b,
          points_free (s.task_fd_map t i) k e,
        );
        held = λ k m u. ground (arith, v.held k m);
      }

module _ {W : Type 0} (backend : ℕ → VfsBackendOps W) where
  -- Closing an entry that counts one too many.
  pub close_global_fd-Balanced :
      (g : ℕ) (s : State W)
      → Balanced (points (pos g)) s
      → Live s.fd_table g
      → Balanced nothing (close_global_fd backend (pos g) s).1
  unfolding close_global_fd
  close_global_fd-Balanced g s v l =
      let count = v.counted g l.0 l.1 in
      elim (Bool-cases (ltb 1 (s.fd_table g).ref_count)) [
        | inl more ↦
            let entry : VfsFd = record (s.fd_table g) {
              ref_count = (s.fd_table g).ref_count - 1;
            } in
            rw (Live-gfd g s l, more)
              (record {
                named = λ u j p q n. Live-update s.fd_table g _ entry refl refl (v.named u j p q n);
                counted = λ k m u. ground (arith, v.counted k m);
                held = λ k m u. ground (arith, v.held k m);
              })
        | inr last ↦
            let none_left : refs s.task_fd_map g ≡ 0 = ground (arith, count) in
            rw (Live-gfd g s l, last)
              (record {
                named = λ u j p q n.
                    Live-update_ne s.fd_table g _ free_fd
                      (unnamed s.task_fd_map g u j none_left p q n) (v.named u j p q n);
                counted = λ k m u. ground (arith, v.counted k m);
                held = λ k m u. ground (arith, v.held k m);
              })
      ]
