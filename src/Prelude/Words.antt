-- ===== src/Prelude/Words.antt =====
-- `unsigned long` and `u64` arithmetic: 64 bits, wrapping.
use Prim.Native.Nat.{ℕ, ◌+◌, ◌-◌, ◌%◌, ◌≤◌, ◌<◌}
use mathlib.Core.Path.{◌≡◌}
use native.Mathlib.Omega.{arith}

-- 2 ^ 64.
abbrev pub u64_mod : ℕ
u64_mod = 18446744073709551616

abbrev pub add64 : ℕ → ℕ → ℕ
add64 a b = (a + b) % u64_mod

abbrev pub sub64 : ℕ → ℕ → ℕ
sub64 a b = (a + u64_mod - b) % u64_mod

-- `int` results: `negsuc n` is -(n + 1), so `negsuc 0` is -1.
pub data ℤ : Type 0 where
  pos : ℕ → ℤ
  negsuc : ℕ → ℤ

-- A difference of two times that are in order is their distance.
pub sub64_ordered : (a b : ℕ) → b ≤ a → a < u64_mod → sub64 a b ≡ a - b
sub64_ordered a b h k = omega arith

pub add64_lt : (a b : ℕ) → add64 a b < u64_mod
add64_lt a b = omega arith
