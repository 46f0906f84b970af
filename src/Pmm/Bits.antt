-- ===== src/Pmm/Bits.antt =====
-- The binary digits of a byte: what setting, clearing and testing one of them does.
use Prim.Native.Nat.{min, max, bit_and, bit_or, digits, bitwise, bit_and-bitwise, bit_or-bitwise}
use native.Mathlib.Nat.{pow-suc}
use neuro_spark.Prelude.{
  ap, ◌∙◌, not, ==_ne, ==_iff, ℕ, zero, suc, ◌+◌, ◌-◌, ◌*◌, ◌/◌, ◌%◌, ◌^◌, ◌≤◌, ◌<◌, ◌≡◌, refl,
  arith, Bool, false, ◌==◌, if◌then◌else◌, find_index, find_index-none, none,
}

-- An operation on two binary numbers, digit by digit, that goes on with `z` when the first runs
-- out.
module _ (z : ℕ → ℕ) (f : ℕ → ℕ → ℕ) where
  -- Any count of digits that is large enough gives the same number.
  digits_count : (b n k a : ℕ) → a ≤ k → a ≤ n → digits z f n a b ≡ digits z f k a b
  digits_count b (suc n) (suc k) (suc a) p q =
      ap (λ r. r * 2 + f (suc a % 2) (b % 2))
        (digits_count (b / 2) n k (suc a / 2) (omega arith) (omega arith))
  digits_count b (suc n) (suc k) zero p q = refl
  digits_count b (suc n) zero zero p q = refl
  digits_count b zero (suc k) zero p q = refl
  digits_count b zero zero zero p q = refl
  digits_count b zero k (suc a) p q = absurd (omega arith)
  digits_count b (suc n) zero (suc a) p q = absurd (omega arith)

  -- The lowest digit, and the rest.
  bitwise_split :
      (a b : ℕ)
      → ((c : ℕ) → z c ≡ z (c / 2) * 2 + f 0 (c % 2))
      → bitwise z f a b ≡ bitwise z f (a / 2) (b / 2) * 2 + f (a % 2) (b % 2)
  bitwise_split zero b h = h b
  bitwise_split (suc a) b h =
      ap (λ r. r * 2 + f (suc a % 2) (b % 2))
        (digits_count (b / 2) a (suc a / 2) (suc a / 2) (omega arith) (omega arith))

bit_and_split : (a b : ℕ) → bit_and a b ≡ bit_and (a / 2) (b / 2) * 2 + min (a % 2) (b % 2)
bit_and_split a b = omega (
  arith,
  bitwise_split (λ c. 0) min a b (λ c. omega arith),
  bit_and-bitwise a b,
  bit_and-bitwise (a / 2) (b / 2),
)

bit_or_split : (a b : ℕ) → bit_or a b ≡ bit_or (a / 2) (b / 2) * 2 + max (a % 2) (b % 2)
bit_or_split a b = omega (
  arith,
  bitwise_split (λ c. c) max a b (λ c. omega arith),
  bit_or-bitwise a b,
  bit_or-bitwise (a / 2) (b / 2),
)

-- Digit `k` of a number.
pub bit : ℕ → ℕ → ℕ
bit b zero = b % 2
bit b (suc k) = bit (b / 2) k

pub bit-le : (b k : ℕ) → bit b k ≤ 1
unfolding bit
bit-le b zero = omega arith
bit-le b (suc k) = bit-le (b / 2) k

pub bit-bit_and : (a b k : ℕ) → bit (bit_and a b) k ≡ min (bit a k) (bit b k)
unfolding bit
bit-bit_and a b zero = omega (arith, bit_and_split a b)
bit-bit_and a b (suc k) =
    let e : bit_and a b / 2 ≡ bit_and (a / 2) (b / 2) = omega (arith, bit_and_split a b) in
    rw e (bit-bit_and (a / 2) (b / 2) k)

pub bit-bit_or : (a b k : ℕ) → bit (bit_or a b) k ≡ max (bit a k) (bit b k)
unfolding bit
bit-bit_or a b zero = omega (arith, bit_or_split a b)
bit-bit_or a b (suc k) =
    let e : bit_or a b / 2 ≡ bit_or (a / 2) (b / 2) = omega (arith, bit_or_split a b) in
    rw e (bit-bit_or (a / 2) (b / 2) k)

pub bit-zero : (k : ℕ) → bit 0 k ≡ 0
unfolding bit
bit-zero zero = refl
bit-zero (suc k) = bit-zero k

pub bit-pow : (j k : ℕ) → bit (2 ^ j) k ≡ (if j == k then 1 else 0)
unfolding bit
bit-pow zero zero = refl
bit-pow zero (suc k) = rw (==_ne 0 (suc k) (λ e. omega (arith, e))) (bit-zero k)
bit-pow (suc j) zero = rw (==_ne (suc j) 0 (λ e. omega (arith, e))) (omega (arith, pow-suc 2 j))
bit-pow (suc j) (suc k) =
    let e : 2 ^ suc j / 2 ≡ 2 ^ j = omega (arith, pow-suc 2 j) in rw e (bit-pow j k ∙ ground arith)

-- Cell (j, k) of the table of masks, in one number: all 64 are right, by looking.
abbrev wrong_mask : ℕ → Bool
wrong_mask i =
    let j = i / 8 in let k = i % 8 in not (bit (255 - 2 ^ j) k == (if j == k then 0 else 1))

no_wrong_mask : find_index wrong_mask 64 0 ≡ none
unfolding find_index bit
no_wrong_mask = refl

pub bit-mask : (j k : ℕ) → j < 8 → k < 8 → bit (255 - 2 ^ j) k ≡ (if j == k then 0 else 1)
bit-mask j k a b =
    let row : (j * 8 + k) / 8 ≡ j = omega arith in
    let col : (j * 8 + k) % 8 ≡ k = omega arith in
    let right =
      find_index-none wrong_mask 64 0 no_wrong_mask (j * 8 + k) (omega arith) (omega arith) in
    let right' : not (bit (255 - 2 ^ j) k == (if j == k then 0 else 1)) ≡ false =
      rw (row, col) at right in
    (==_iff _ _).0 (ground (arith, right'))

-- No digit is left of an empty mask.
digits-and_zero : (n a : ℕ) → digits (λ c. 0) min n a 0 ≡ 0
digits-and_zero zero a = refl
digits-and_zero (suc n) zero = refl
digits-and_zero (suc n) (suc a) = omega (arith, digits-and_zero n (suc a / 2))

-- Testing with a mask of one digit tests that digit.
pub bit_and-pow : (b k : ℕ) → (bit_and b (2 ^ k) == 0) ≡ (bit b k == 0)
unfolding bit
bit_and-pow b zero =
    let e : bit_and b 1 ≡ b % 2 =
      omega
        (arith, bit_and_split b 1, bit_and-bitwise (b / 2) 0, digits-and_zero (b / 2) (b / 2)) in
    ap (λ x. x == 0) e
bit_and-pow b (suc k) =
    let e : 2 ^ suc k / 2 ≡ 2 ^ k = omega (arith, pow-suc 2 k) in
    let s : bit_and b (2 ^ suc k) ≡ bit_and (b / 2) (2 ^ suc k / 2) * 2 =
      omega (arith, bit_and_split b (2 ^ suc k), pow-suc 2 k) in
    let t : bit_and b (2 ^ suc k) ≡ bit_and (b / 2) (2 ^ k) * 2 = rw e at s in
    rw t (ground arith) ∙ bit_and-pow (b / 2) k
