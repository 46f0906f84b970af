-- ===== src/Prelude/Count.antt =====
-- Sums over the indices of a table, and what one store changes in them.
use neuro_spark.Prelude.{ℕ, zero, suc, ◌+◌, ◌≤◌, ◌<◌, ◌≡◌, ◌≢◌, refl, arith}
use native.Mathlib.Decide.{ℕ_discrete}

-- The sum of the `n` values from index 0 on.
pub total : (ℕ → ℕ) → ℕ → ℕ
total f zero = 0
total f (suc n) = total f n + f n

pub total-congr : (f g : ℕ → ℕ) (n : ℕ) → ((i : ℕ) → i < n → f i ≡ g i) → total f n ≡ total g n
unfolding total
total-congr f g zero h = refl
total-congr f g (suc n) h =
    omega (arith, h n (omega arith), total-congr f g n (λ i l. h i (omega arith)))

-- Two tables that differ at one index differ there in their sums.
pub total_change :
    (f g : ℕ → ℕ) (n k : ℕ)
    → k < n
    → ((i : ℕ) → k ≢ i → f i ≡ g i)
    → total g n + f k ≡ total f n + g k
unfolding total
total_change f g zero k l h = absurd (omega arith)
total_change f g (suc n) k l h = elim (ℕ_discrete k n) [
  | yes e ↦
      let same : total f n ≡ total g n =
        total-congr f g n (λ i m. h i (λ q. absurd (omega arith))) in
      rw e (omega (arith, same))
  | no e ↦ omega (arith, h n e, total_change f g n k (omega arith) h)
]

pub le-total : (f : ℕ → ℕ) (n k : ℕ) → k < n → f k ≤ total f n
unfolding total
le-total f zero k l = absurd (omega arith)
le-total f (suc n) k l = elim (ℕ_discrete k n) [
  | yes e ↦ rw e (omega arith)
  | no e ↦ omega (arith, le-total f n k (omega arith))
]

pub total-zero : (f : ℕ → ℕ) (n : ℕ) → ((i : ℕ) → i < n → f i ≡ 0) → total f n ≡ 0
unfolding total
total-zero f zero h = refl
total-zero f (suc n) h = omega (arith, h n (omega arith), total-zero f n (λ i l. h i (omega arith)))
