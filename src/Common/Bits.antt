-- ===== src/Common/Bits.antt =====
-- The top bit of a byte and the seven below it, as arithmetic. Each fact is a table over the
-- values, checked by evaluation.
use Prim.Native.Nat.{ℕ, zero, suc, ◌+◌, ◌*◌, ◌/◌, ◌%◌, ◌<◌, bit_and, bit_or}
use mathlib.Core.Path.{◌≡◌, refl}
use mathlib.Core.Bool.{Bool, true, false}
use native.Mathlib.Omega.{arith}
use secs_lib.Common.Tests.{◌==◌, if◌then◌else◌}

-- `p` holds of every number below `n`.
holds_below : ℕ → (ℕ → Bool) → Bool
holds_below zero p = true
holds_below (suc n) p = if p n then holds_below n p else false

below : (n x : ℕ) (f g : ℕ → ℕ) → holds_below n (λ b. f b == g b) ≡ true → x < n → f x ≡ g x
unfolding holds_below
below zero x f g e h = absurd (omega arith)
below (suc n) x f g e h = ground (arith, below n x f g)

pub and_top : (b : ℕ) → b < 256 → bit_and b 0x80 ≡ b / 128 * 128
unfolding holds_below
and_top b = below 256 b (λ b. bit_and b 0x80) (λ b. b / 128 * 128) refl

pub and_low : (b : ℕ) → b < 256 → bit_and b 0x7f ≡ b % 128
unfolding holds_below
and_low b = below 256 b (λ b. bit_and b 0x7f) (λ b. b % 128) refl

pub or_top : (b : ℕ) → b < 128 → bit_or 0x80 b ≡ 128 + b
unfolding holds_below
or_top b = below 128 b (λ b. bit_or 0x80 b) (λ b. 128 + b) refl

pub or_none : (b : ℕ) → b < 128 → bit_or 0x00 b ≡ b
unfolding holds_below
or_none b = below 128 b (λ b. bit_or 0x00 b) (λ b. b) refl

-- A flag in the top bit over a value of seven bits.
unfoldable pub with_flag : Bool → ℕ → ℕ
with_flag flag x = bit_or (if flag then 0x80 else 0x00) x

-- `(b & 0x80) != 0` and `b & 0x7F`.
unfoldable pub has_flag : ℕ → Bool
has_flag b = if bit_and b 0x80 == 0 then false else true

unfoldable pub low_bits : ℕ → ℕ
low_bits b = bit_and b 0x7f

pub with_flag-sum :
    (flag : Bool) (x : ℕ) → x < 128 → with_flag flag x ≡ (if flag then 128 else 0) + x
unfolding with_flag
with_flag-sum true x h = or_top x h
with_flag-sum false x h = ground (arith, or_none x h)

pub has_flag-with_flag : (flag : Bool) (x : ℕ) → x < 128 → has_flag (with_flag flag x) ≡ flag
unfolding has_flag
has_flag-with_flag true x h = ground (arith, with_flag-sum true x h, and_top (128 + x))
has_flag-with_flag false x h = ground (arith, with_flag-sum false x h, and_top x)

pub low_bits-with_flag : (flag : Bool) (x : ℕ) → x < 128 → low_bits (with_flag flag x) ≡ x
unfolding low_bits
low_bits-with_flag true x h = ground (arith, with_flag-sum true x h, and_low (128 + x))
low_bits-with_flag false x h = ground (arith, with_flag-sum false x h, and_low x)

pub with_flag-IsByte : (flag : Bool) (x : ℕ) → x < 128 → with_flag flag x < 256
with_flag-IsByte true x h = omega (arith, with_flag-sum true x h)
with_flag-IsByte false x h = omega (arith, with_flag-sum false x h)

pub low_bits-lt : (b : ℕ) → b < 256 → low_bits b < 128
unfolding low_bits
low_bits-lt b h = omega (arith, and_low b h)

-- A byte is its flag over its low bits.
pub with_flag-parts : (b : ℕ) → b < 256 → with_flag (has_flag b) (low_bits b) ≡ b
unfolding has_flag low_bits
with_flag-parts b h =
    ground
      (arith, and_top b h, and_low b h, with_flag-sum true (b % 128), with_flag-sum false (b % 128))

pub low_bits_small : (b : ℕ) → b < 128 → low_bits b ≡ b
unfolding low_bits
low_bits_small b h = omega (arith, and_low b)
