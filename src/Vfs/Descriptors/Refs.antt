-- ===== src/Vfs/Descriptors/Refs.antt =====
-- kernel/vfs.c: how many descriptors of all tasks name an entry of the shared table.
use neuro_spark.Prelude.{
  ℕ, ◌+◌, ◌≤◌, ◌<◌, ◌≡◌, ap, sym, ◌∙◌, arith, update, update_self, update_ne, if◌then◌else◌, ◌==◌,
  Bool-cases, ==_iff, inl, inr, update_keeps,
}
use neuro_spark.Prelude.Count.{total, total_change, le-total, total-zero}
use neuro_spark.Prelude.Int.{ℤ, pos}
use neuro_spark.Vfs.{int_eq}
use neuro_spark.Vfs.Descriptors.{set_map, task_max_fds}
use neuro_spark.Task.{max_tasks}

-- 1 if the descriptor names the entry.
abbrev pub points : ℤ → ℕ → ℕ
points v g = if int_eq v (pos g) then 1 else 0

pub refs_of_row : (ℕ → ℤ) → ℕ → ℕ
refs_of_row row g = total (λ i. points (row i) g) task_max_fds

pub refs : (ℕ → ℕ → ℤ) → ℕ → ℕ
refs map g = total (λ t. refs_of_row (map t) g) max_tasks

refs_of_row_set :
    (row : ℕ → ℤ) (i : ℕ) (v : ℤ) (g : ℕ)
    → i < task_max_fds
    → refs_of_row (update row i v) g + points (row i) g ≡ refs_of_row row g + points v g
unfolding refs_of_row
refs_of_row_set row i v g l =
    let here : update row i v i ≡ v = update_self row i v in
    let t =
      total_change (λ j. points (row j) g) (λ j. points (update row i v j) g) task_max_fds i l
        (λ j ne. ap (λ z. points z g) (sym (update_ne row i j v ne))) in
    t ∙ ap (λ z. total (λ j. points (row j) g) task_max_fds + points z g) here

-- A store into one descriptor takes a reference from the old entry and gives one to the new.
pub refs_set :
    (map : ℕ → ℕ → ℤ) (t i : ℕ) (v : ℤ) (g : ℕ)
    → t < max_tasks
    → i < task_max_fds
    → refs (set_map t i v map) g + points (map t i) g ≡ refs map g + points v g
unfolding refs
refs_set map t i v g a b =
    let row = update (map t) i v in
    let here : update map t row t ≡ row = update_self map t row in
    let outer =
      total_change (λ k. refs_of_row (map k) g) (λ k. refs_of_row (update map t row k) g) max_tasks
        t a (λ k ne. ap (λ r. refs_of_row r g) (sym (update_ne map t k row ne))) in
    let same : refs_of_row (update map t row t) g ≡ refs_of_row row g =
      ap (λ r. refs_of_row r g) here in
    omega (arith, outer, same, refs_of_row_set (map t) i v g b)

points-le-row : (row : ℕ → ℤ) (i g : ℕ) → i < task_max_fds → points (row i) g ≤ refs_of_row row g
unfolding refs_of_row
points-le-row row i g l = le-total (λ j. points (row j) g) task_max_fds i l

-- An entry that a descriptor names has a reference.
pub refs_pos :
    (map : ℕ → ℕ → ℤ) (t i g : ℕ)
    → t < max_tasks
    → i < task_max_fds
    → map t i ≡ pos g
    → 0 < refs map g
unfolding refs
refs_pos map t i g a b e =
    let one : points (map t i) g ≡ 1 = rw e (ground arith) in
    omega
      (arith, one, points-le-row (map t) i g b, le-total (λ k. refs_of_row (map k) g) max_tasks t a)

-- An entry that no descriptor names has no reference.
pub refs_zero :
    (map : ℕ → ℕ → ℤ) (g : ℕ)
    → ((t i : ℕ) → t < max_tasks → i < task_max_fds → points (map t i) g ≡ 0)
    → refs map g ≡ 0
unfolding refs refs_of_row
refs_zero map g h =
    total-zero _ max_tasks
      (λ t a. total-zero (λ i. points (map t i) g) task_max_fds (λ i b. h t i a b))

-- What holds of the stored descriptor and of the old ones holds of all of them after the store.
pub set_map_keeps {ℓ} :
    (P : ℤ → Type ℓ) (map : ℕ → ℕ → ℤ) (t i : ℕ) (v : ℤ) (u j : ℕ)
    → P v
    → P (map u j)
    → P (set_map t i v map u j)
set_map_keeps P map t i v u j new old = elim (Bool-cases (t == u)) [
  | inl e ↦ let q : t ≡ u = (==_iff t u).0 e in rw e (update_keeps P (map t) i v j new (rw q old))
  | inr e ↦ rw e old
]
