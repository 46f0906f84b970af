-- ===== src/Prelude/Words.antt =====
-- `uint32_t` arithmetic.
use Prim.Native.Nat.{ℕ, ◌+◌, ◌-◌, ◌%◌, ◌^◌}

abbrev pub u32 : ℕ
u32 = 2 ^ 32

abbrev pub add32 : ℕ → ℕ → ℕ
add32 a b = (a + b) % u32

abbrev pub sub32 : ℕ → ℕ → ℕ
sub32 a b = (a + u32 - b) % u32

-- `x++` on a `uint32_t`.
abbrev pub inc32 : ℕ → ℕ
inc32 a = (a + 1) % u32
