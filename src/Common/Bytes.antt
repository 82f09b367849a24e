-- ===== src/Common/Bytes.antt =====
-- Bytes and big-endian numbers.
use Prim.Native.Nat.{ℕ, zero, suc, ◌+◌, ◌*◌, ◌/◌, ◌%◌, ◌^◌, ◌≤◌, ◌<◌}
use mathlib.Core.Path.{◌≡◌, refl, sym, ap, ◌∙◌}
use mathlib.Core.List.{List, [], ◌∷◌}
use native.Mathlib.Omega.{arith}
use native.Mathlib.Nat.{
  pow-suc, mod-eq_of_lt, div-add-mod, add-mul-mod_self_left, one-le-pow, mod-lt, mul-le-mul_right,
}
use secs_lib.Common.Lists.{length, All, get_or, drop}

abbrev pub IsByte : ℕ → Type 0
IsByte b = b < 256

-- The last `k` bytes of `v`, the highest first.
unfoldable pub be_bytes : ℕ → ℕ → List ℕ
be_bytes zero v = []
be_bytes (suc k) v = (v / 256 ^ k % 256) ∷ be_bytes k v

-- The number that the bytes spell after `acc`.
unfoldable pub be_uint : ℕ → List ℕ → ℕ
be_uint acc [] = acc
be_uint acc (b ∷ bs) = be_uint (acc * 256 + b) bs

pub length-be_bytes : (k v : ℕ) → length (be_bytes k v) ≡ k
unfolding be_bytes
length-be_bytes zero v = refl
length-be_bytes (suc k) v = ap suc (length-be_bytes k v)

pub be_bytes-IsByte : (k v : ℕ) → All IsByte (be_bytes k v)
unfolding be_bytes
be_bytes-IsByte zero v = tt
be_bytes-IsByte (suc k) v = (omega arith, be_bytes-IsByte k v)

pub pow_pos : (k : ℕ) → 0 < 256 ^ k
pow_pos k = one-le-pow k 256 (omega arith)

split_value : (v p : ℕ) → v / p % 256 * p + v % p + p * 256 * (v / p / 256) ≡ v
split_value v p = omega (arith, div-add-mod v p, ap (λ (t : ℕ). p * t) (div-add-mod (v / p) 256))

split_lt : (v p : ℕ) → 0 < p → v / p % 256 * p + v % p < p * 256
split_lt v p h =
    let d : v / p % 256 ≤ 255 = omega arith in omega (arith, mod-lt v h, mul-le-mul_right p d)

split_mod : (v p : ℕ) → 0 < p → v % (p * 256) ≡ v / p % 256 * p + v % p
split_mod v p h =
    ap (λ (t : ℕ). t % (p * 256)) (sym (split_value v p))
    ∙ add-mul-mod_self_left _ (p * 256) (v / p / 256)
    ∙ mod-eq_of_lt (split_lt v p h)

pub be_uint-be_bytes : (k v acc : ℕ) → be_uint acc (be_bytes k v) ≡ acc * 256 ^ k + v % 256 ^ k
unfolding be_bytes be_uint
be_uint-be_bytes zero v acc = omega arith
be_uint-be_bytes (suc k) v acc =
    be_uint-be_bytes k v (acc * 256 + v / 256 ^ k % 256)
    ∙ rw pow-suc (omega (arith, split_mod v (256 ^ k) (pow_pos k)))

pub be_uint-lt : (v : ℕ) (bs : List ℕ) → All IsByte bs → be_uint v bs < (v + 1) * 256 ^ length bs
unfolding be_uint
be_uint-lt v [] h = omega arith
be_uint-lt v (b ∷ bs) h =
    let widened =
      mul-le-mul_right {m = v * 256 + b + 1} {n = (v + 1) * 256} (256 ^ length bs)
        (omega (arith, h.0)) in
    rw pow-suc (omega (arith, be_uint-lt (v * 256 + b) bs h.1, widened))

abbrev pub byte_at : List ℕ → ℕ → ℕ
byte_at p i = get_or p i 0

-- Ten bytes and the rest, for a list of at least ten.
pub ten_bytes :
    (p : List ℕ)
    → 10 ≤ length p
    → (byte_at p 0
        ∷ byte_at p 1
        ∷ byte_at p 2
        ∷ byte_at p 3
        ∷ byte_at p 4
        ∷ byte_at p 5
        ∷ byte_at p 6
        ∷ byte_at p 7
        ∷ byte_at p 8
        ∷ byte_at p 9
        ∷ drop 10 p)
      ≡ p
ten_bytes (a ∷ b ∷ c ∷ d ∷ e ∷ f ∷ g ∷ h ∷ i ∷ j ∷ p) n = refl
ten_bytes _ n = absurd (omega arith)

pub byte_at-IsByte : (p : List ℕ) (i : ℕ) → All IsByte p → byte_at p i < 256
byte_at-IsByte [] i h = omega arith
byte_at-IsByte (x ∷ p) zero h = h.0
byte_at-IsByte (x ∷ p) (suc i) h = byte_at-IsByte p i h.1
