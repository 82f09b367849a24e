-- ===== src/Ii/Size/Lengths.antt =====
-- The length field of every item, in one equation.
use secs_lib.Common.{
  ℕ, ◌+◌, ◌*◌, ◌^◌, ◌≤◌, ◌<◌, ◌≡◌, refl, ◌⊎◌, inl, inr, arith, Bool-cases, leb, ltb, if◌then◌else◌,
  length,
}
use secs_lib.Common.Outcome.{Result, ok, err}
use secs_lib.Ii.Format.{
  Errc, length_overflow, FormatCode, max_length, length_bytes_for, make_format_byte, code_bits,
}
use secs_lib.Ii.Item.{Item, list, ascii, binary, boolean, i1, i2, i4, i8, u1, u2, u4, u8, f4, f8}
use secs_lib.Ii.Size.{numeric_payload_length, length_value, checked_mul}
use secs_lib.Ii.Wire.{extent}

-- The value if a length field of three bytes can hold it.
abbrev pub bounded : ℕ → Result Errc ℕ
bounded n = if ltb max_length n then err length_overflow else ok n

-- At the four element sizes the check of the product against `size_t` adds nothing.
numeric_one : (n : ℕ) → numeric_payload_length n 1 ≡ bounded n
unfolding numeric_payload_length checked_mul
numeric_one n = ground arith

numeric_two : (n : ℕ) → numeric_payload_length n 2 ≡ bounded (n * 2)
unfolding numeric_payload_length checked_mul
numeric_two n = ground arith

numeric_four : (n : ℕ) → numeric_payload_length n 4 ≡ bounded (n * 4)
unfolding numeric_payload_length checked_mul
numeric_four n = ground arith

numeric_eight : (n : ℕ) → numeric_payload_length n 8 ≡ bounded (n * 8)
unfolding numeric_payload_length checked_mul
numeric_eight n = ground arith

pub length_value-extent : (x : Item) → length_value x ≡ bounded (extent x)
unfolding length_value extent
length_value-extent (list xs) = refl
length_value-extent (ascii s) = refl
length_value-extent (binary s) = refl
length_value-extent (boolean s) = refl
length_value-extent (i1 s) = numeric_one (length s)
length_value-extent (i2 s) = numeric_two (length s)
length_value-extent (i4 s) = numeric_four (length s)
length_value-extent (i8 s) = numeric_eight (length s)
length_value-extent (u1 s) = numeric_one (length s)
length_value-extent (u2 s) = numeric_two (length s)
length_value-extent (u4 s) = numeric_four (length s)
length_value-extent (u8 s) = numeric_eight (length s)
length_value-extent (f4 s) = numeric_four (length s)
length_value-extent (f8 s) = numeric_eight (length s)

pub length_value_fits : (x : Item) → extent x ≤ max_length → length_value x ≡ ok (extent x)
length_value_fits x h = ground (arith, length_value-extent x)

pub length_bytes_cases :
    (n : ℕ) → (length_bytes_for n ≡ 1) ⊎ (length_bytes_for n ≡ 2) ⊎ (length_bytes_for n ≡ 3)
unfolding length_bytes_for
length_bytes_cases n = ground arith

format_one : (c : FormatCode) → make_format_byte c 1 ≡ code_bits c * 4 + 1
unfolding make_format_byte code_bits
format_one FormatCode.list = refl
format_one _ = refl

format_two : (c : FormatCode) → make_format_byte c 2 ≡ code_bits c * 4 + 2
unfolding make_format_byte code_bits
format_two FormatCode.list = refl
format_two _ = refl

format_three : (c : FormatCode) → make_format_byte c 3 ≡ code_bits c * 4 + 3
unfolding make_format_byte code_bits
format_three FormatCode.list = refl
format_three _ = refl

-- `|` is a sum, since the code leaves the two low bits free.
pub make_format_byte-sum :
    (c : FormatCode) (n : ℕ)
    → make_format_byte c (length_bytes_for n) ≡ code_bits c * 4 + length_bytes_for n
make_format_byte-sum c n = elim (length_bytes_cases n) [
  | inl e ↦ rw e (format_one c)
  | inr (inl e) ↦ rw e (format_two c)
  | inr (inr e) ↦ rw e (format_three c)
]

-- The length bytes hold the length.
pub length_bytes_hold : (n : ℕ) → n ≤ max_length → n < 256 ^ length_bytes_for n
unfolding length_bytes_for
length_bytes_hold n h = elim (Bool-cases (leb n 0xff)) [
  | inl e ↦ rw e (ground arith)
  | inr e ↦ elim (Bool-cases (leb n 0xffff)) [
    | inl e' ↦ rw (e, e') (ground arith)
    | inr e' ↦ rw (e, e') (ground arith)
  ]
]
