-- ===== src/Common/Int.antt =====
-- Signed integers over the native numbers, and their two's-complement bit patterns.
use Prim.Native.Nat.{ℕ, ◌+◌, ◌-◌, ◌%◌, ◌<◌}
use mathlib.Core.Path.{◌≡◌}
use native.Mathlib.Nat.{mod-eq_of_lt}
use native.Mathlib.Omega.{arith}
use secs_lib.Common.Tests.{ltb, if◌then◌else◌}

-- `negsuc n` is -(n + 1).
pub data ℤ : Type 0 where
  pos : ℕ → ℤ
  negsuc : ℕ → ℤ

-- A conversion to the unsigned type with `m` values: the representative modulo `m`.
unfoldable pub to_unsigned : ℕ → ℤ → ℕ
to_unsigned m (pos n) = n % m
to_unsigned m (negsuc n) = m - 1 - n % m

-- `std::bit_cast` from the unsigned type with `m` values to the signed one: the upper half of
-- the patterns stands for the negative numbers.
unfoldable pub to_signed : ℕ → ℕ → ℤ
to_signed m b = if ltb (b + b) m then pos b else negsuc (m - 1 - b)

-- The values of the signed type with `m` bit patterns.
abbrev pub IsSigned : ℕ → ℤ → Type 0
IsSigned m (pos n) = n + n < m
IsSigned m (negsuc n) = n + n + 1 < m

pub to_unsigned-lt : (m : ℕ) (x : ℤ) → 0 < m → to_unsigned m x < m
unfolding to_unsigned
to_unsigned-lt m (pos n) h = omega arith
to_unsigned-lt m (negsuc n) h = omega arith

-- The bit pattern of a value of the signed type stands for that value.
pub to_signed-to_unsigned : (m : ℕ) (x : ℤ) → IsSigned m x → to_signed m (to_unsigned m x) ≡ x
unfolding to_signed to_unsigned
to_signed-to_unsigned m (pos n) h = ground (arith, mod-eq_of_lt {n = n} {m = m} (omega arith))
to_signed-to_unsigned m (negsuc n) h = ground (arith, mod-eq_of_lt {n = n} {m = m} (omega arith))
