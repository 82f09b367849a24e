-- ===== src/Ii/Decode/Sound.antt =====
-- What the readers and `decode_head` ensure on any bytes.
use secs_lib.Common.{
  ℕ, zero, suc, ◌+◌, ◌/◌, ◌%◌, ◌^◌, ◌≤◌, ◌<◌, ◌≡◌, ap, ◌||◌, [], ◌∷◌, arith, length, take, All,
  All-take, All-drop, length-take, length-drop, ltb, leb, ltb→ge, ◌==◌, Bool-cases, inl, inr,
  Option, none, some,
}
use secs_lib.Common.Bytes.{IsByte, length-be_bytes}
use secs_lib.Common.Run.{Ensures, Ensures-bind, Ensures-fail_if}
use secs_lib.Ii.Format.{FormatCode, max_length, length_bytes_for, format_code_from_bits}
use secs_lib.Ii.Wire.{header_bytes}
use secs_lib.Ii.Decode.{
  SpanReader, DecodeBudget, DecodeLimits, Head, read_u8, read_be_u32, read_payload, decode_head,
  known_format,
}
use secs_lib.Ii.Decode.Ranges.{shift_in-lt}

-- `r'` has read from `r`, and at least `k` bytes.
abbrev pub Past : ℕ → SpanReader → SpanReader → Type 0
Past k r r' =
    (k + length r'.rest ≤ length r.rest)
    × (r'.pos + length r'.rest ≡ r.pos + length r.rest)
    × All IsByte r'.rest

read_u8-Ensures :
    (r : SpanReader) → All IsByte r.rest → Ensures (λ (v, r'). Past 1 r r') (read_u8 r)
unfolding read_u8
read_u8-Ensures r h =
    elim (r.rest)
        as (λ rest.
          All IsByte rest
          → Ensures (λ (v, r'). Past 1 (record { rest = rest; pos = r.pos }) r')
              (read_u8 (record { rest = rest; pos = r.pos }))) [
                | [] ↦ λ h. tt
                | b ∷ bs ↦ λ h. (omega arith, omega arith, h.1)
              ]
      h

pub read_payload-Ensures :
    (n : ℕ) (r : SpanReader)
    → All IsByte r.rest
    → Ensures (λ (p, r'). Past n r r' × (length p ≡ n) × All IsByte p) (read_payload n r)
unfolding read_payload
read_payload-Ensures n r h = elim (Bool-cases (ltb (length r.rest) n)) [
  | inl e ↦ rw e tt
  | inr e ↦ rw e (
    (
      omega (arith, length-drop n r.rest, ltb→ge _ _ e),
      omega (arith, length-drop n r.rest, ltb→ge _ _ e),
      All-drop IsByte n r.rest h,
    ),
    omega (arith, length-take n r.rest, ltb→ge _ _ e),
    All-take IsByte n r.rest h,
  )
]

read_be_u32-Ensures :
    (k : ℕ) (r : SpanReader)
    → All IsByte r.rest
    → 256 ^ k ≤ 2 ^ 32
    → Ensures (λ (v, r'). Past k r r' × (v < 256 ^ k)) (read_be_u32 k r)
unfolding read_be_u32
read_be_u32-Ensures k r h hk = elim (Bool-cases (ltb k 1 || ltb 3 k)) [
  | inl e ↦ rw e tt
  | inr e ↦ elim (Bool-cases (ltb (length r.rest) k)) [
    | inl e' ↦ rw (e, e') tt
    | inr e' ↦
        rw (e, e')
          (
            (
              omega (arith, length-drop k r.rest, ltb→ge _ _ e'),
              omega (arith, length-drop k r.rest, ltb→ge _ _ e'),
              All-drop IsByte k r.rest h,
            ),
            shift_in-lt (2 ^ 32) k (take k r.rest) (All-take IsByte k r.rest h)
                (omega (arith, length-take k r.rest)) hk,
          )
  ]
]

-- A length that fits `k` bytes is written in no more than `k`.
minimal_length : (k n : ℕ) → 1 ≤ k → k ≤ 3 → n < 256 ^ k → length_bytes_for n ≤ k
unfolding length_bytes_for
minimal_length zero n lo hi h = absurd (omega arith)
minimal_length (suc zero) n lo hi h = ground arith
minimal_length (suc (suc zero)) n lo hi h = ground arith
minimal_length (suc (suc (suc zero))) n lo hi h = ground arith
minimal_length (suc (suc (suc (suc k)))) n lo hi h = absurd (omega arith)

pow_small : (k : ℕ) → k ≤ 3 → 256 ^ k ≤ 2 ^ 32
pow_small zero h = omega arith
pow_small (suc zero) h = omega arith
pow_small (suc (suc zero)) h = omega arith
pow_small (suc (suc (suc zero))) h = omega arith
pow_small (suc (suc (suc (suc k)))) h = absurd (omega arith)

length-header_bytes : (c : FormatCode) (n : ℕ) → length (header_bytes c n) ≡ 1 + length_bytes_for n
unfolding header_bytes
length-header_bytes c n = omega (arith, length-be_bytes (length_bytes_for n) n)

-- What a header that was read says of the states around it.
abbrev pub HeadOf : DecodeLimits → ℕ → SpanReader → DecodeBudget → Head → Type 0
HeadOf l depth r b h =
    (depth ≤ l.max_depth)
    × (b.total_items < l.max_total_items)
    × (h.budget ≡ record { total_items = b.total_items + 1; total_bytes = b.total_bytes })
    × (h.extent ≤ max_length)
    × Past (length (header_bytes h.code h.extent)) r h.reader

known_format-Ensures : (o : Option FormatCode) → Ensures (λ c. Unit) (known_format o)
unfolding known_format
known_format-Ensures none = tt
known_format-Ensures (some c) = tt

pub decode_head-Ensures :
    (l : DecodeLimits) (depth : ℕ) (r : SpanReader) (b : DecodeBudget)
    → l.max_total_items < 2 ^ 64
    → All IsByte r.rest
    → Ensures (HeadOf l depth r b) (decode_head l depth r b)
unfolding decode_head
decode_head-Ensures l depth r b hl h = Ensures-fail_if _ (ltb l.max_depth depth) _ _ λ deep.
    Ensures-fail_if _ (leb l.max_total_items b.total_items) _ _ λ many.
      Ensures-bind _ _ (read_u8 r) _ (read_u8-Ensures r h) λ (byte, r₁) p₁.
        Ensures-fail_if _ (byte % 4 == 0 || ltb 3 (byte % 4)) _ _ λ lb.
          Ensures-bind _ _ (read_be_u32 (byte % 4) r₁) _
            (read_be_u32-Ensures (byte % 4) r₁ p₁.2 (pow_small (byte % 4) (omega arith)))
            λ (n, r₂) p₂. Ensures-fail_if _ (ltb max_length n) _ _ λ long.
              Ensures-bind (λ c. Unit) _ (known_format (format_code_from_bits (byte / 4))) _
                (known_format-Ensures (format_code_from_bits (byte / 4)))
                λ c u. (
                  ltb→ge _ _ deep,
                  ground arith,
                  ap (λ t. record { total_items = t; total_bytes = b.total_bytes }) (ground arith),
                  ltb→ge _ _ long,
                  (
                    ground (arith, length-header_bytes c n, minimal_length (byte % 4) n),
                    omega arith,
                    p₂.0.2,
                  ),
                )
