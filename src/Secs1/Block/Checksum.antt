-- ===== src/Secs1/Block/Checksum.antt =====
-- The checksum of a block (`checksum` of src/secs1/block.cpp), and what it detects.
use secs_lib.Common.{
  ℕ, zero, suc, ◌+◌, ◌*◌, ◌/◌, ◌%◌, ◌^◌, ◌≤◌, ◌<◌, ◌≡◌, ◌≢◌, refl, sym, ap, ap₂, ◌∙◌, false, List,
  [], ◌∷◌, ◌++◌, arith, ◌==◌, length, get_or, set, All, All-append,
}
use secs_lib.Common.Bits.{low_bits, with_flag-IsByte, low_bits_small}
use secs_lib.Common.Bytes.{IsByte}
use secs_lib.Common.Outcome.{ok, err}
use secs_lib.Secs1.Block.{
  Header, checksum_mismatch, checksum, sum_from, header_bytes, encode_block, decode_block,
}
use secs_lib.Secs1.Block.Codec.{
  IsHeader, envelope, checksum-lt, decode_block-envelope, encode_block_inverts, length-body,
}

-- The sum without a machine width.
unfoldable total : List ℕ → ℕ
total [] = 0
total (b ∷ bs) = b + total bs

total-le : (bs : List ℕ) → All IsByte bs → total bs ≤ 255 * length bs
unfolding total
total-le [] h = omega arith
total-le (b ∷ bs) h = omega (arith, total-le bs h.1, h.0)

sum_from-total : (s : ℕ) (bs : List ℕ) → s + total bs < 2 ^ 32 → sum_from s bs ≡ s + total bs
unfolding sum_from total
sum_from-total s [] h = omega arith
sum_from-total s (b ∷ bs) h =
    let e : (s + b) % 2 ^ 32 ≡ s + b = omega arith in
    ap (λ n. sum_from n bs) e ∙ sum_from-total (s + b) bs (omega arith) ∙ (omega arith)

-- The sum of at most 254 bytes fits the two bytes of the checksum.
checksum-total : (bs : List ℕ) → All IsByte bs → length bs ≤ 254 → checksum bs ≡ total bs
unfolding checksum
checksum-total bs h n = omega (arith, total-le bs h, sum_from-total 0 bs)

total-set :
    (bs : List ℕ) (i v : ℕ) → i < length bs → total (set bs i v) + get_or bs i 0 ≡ total bs + v
unfolding total
total-set [] i v h = absurd (omega arith)
total-set (b ∷ bs) zero v h = omega arith
total-set (b ∷ bs) (suc i) v h = omega (arith, total-set bs i v)

length-set : (bs : List ℕ) (i v : ℕ) → length (set bs i v) ≡ length bs
length-set [] i v = refl
length-set (b ∷ bs) zero v = refl
length-set (b ∷ bs) (suc i) v = ap suc (length-set bs i v)

All-set : (bs : List ℕ) (i v : ℕ) → All IsByte bs → IsByte v → All IsByte (set bs i v)
All-set [] i v h b = tt
All-set (x ∷ bs) zero v h b = (b, h.1)
All-set (x ∷ bs) (suc i) v h b = (h.0, All-set bs i v h.1 b)

set-front : (xs ys : List ℕ) (i v : ℕ) → i < length xs → set (xs ++ ys) i v ≡ set xs i v ++ ys
set-front [] ys i v h = absurd (omega arith)
set-front (x ∷ xs) ys zero v h = refl
set-front (x ∷ xs) ys (suc i) v h = ap (λ t. x ∷ t) (set-front xs ys i v (omega arith))

get_or-front : (xs ys : List ℕ) (i : ℕ) → i < length xs → get_or (xs ++ ys) i 0 ≡ get_or xs i 0
get_or-front [] ys i h = absurd (omega arith)
get_or-front (x ∷ xs) ys zero h = refl
get_or-front (x ∷ xs) ys (suc i) h = get_or-front xs ys i (omega arith)

header_bytes-IsByte : (h : Header) → IsHeader h → All IsByte (header_bytes h)
unfolding header_bytes
header_bytes-IsByte h v = (
  with_flag-IsByte h.reverse_bit (h.device_id / 2 ^ 8 % 128) (omega arith),
  (
    omega arith,
    (
      with_flag-IsByte h.wait_bit (low_bits h.stream)
          (omega (arith, low_bits_small h.stream v.stream, v.stream)),
      (
        v.function,
        (
          with_flag-IsByte h.end_bit (h.block_number / 2 ^ 8 % 128) (omega arith),
          (omega arith, (omega arith, (omega arith, (omega arith, (omega arith, tt))))),
        ),
      ),
    ),
  ),
)

-- Writing into the body changes the checksum, which is left as it was.
checksum-set :
    (body : List ℕ) (i v : ℕ)
    → All IsByte body
    → length body ≤ 254
    → i < length body
    → IsByte v
    → v ≢ get_or body i 0
    → (checksum body == checksum (set body i v)) ≡ false
checksum-set body i v b n l bv d = ground (
  arith,
  checksum-total body b n,
  checksum-total (set body i v) (All-set body i v b bv),
  length-set body i v,
  total-set body i v l,
)

envelope-set :
    (body : List ℕ) (i v : ℕ)
    → i < length body
    → set (envelope body (checksum body)) (suc i) v ≡ envelope (set body i v) (checksum body)
envelope-set body i v l = ap₂ (λ n t. n ∷ t) (sym (length-set body i v)) (set-front body _ i v l)

envelope_detects :
    (body : List ℕ) (i v : ℕ)
    → All IsByte body
    → 10 ≤ length body
    → length body ≤ 254
    → i < length body
    → IsByte v
    → v ≢ get_or (envelope body (checksum body)) (suc i) 0
    → decode_block (set (envelope body (checksum body)) (suc i) v) ≡ err checksum_mismatch
envelope_detects body i v b lo hi l bv d =
    let d' : v ≢ get_or body i 0 = λ e. d (e ∙ sym (get_or-front body _ i l)) in
    let n = length-set body i v in
    rw
      (
        envelope-set body i v l,
        decode_block-envelope (set body i v) (checksum body) (omega (arith, n)) (omega (arith, n))
            (checksum-lt body),
        checksum-set body i v b hi l bv d',
      )
      refl

-- A frame that `encode_block` made of a header with fields in range and of bytes is refused with
-- checksum_mismatch if one byte between the length and the checksum is replaced by another byte.
pub decode_block_detects :
    (h : Header) (bytes frame : List ℕ) (i v : ℕ)
    → IsHeader h
    → All IsByte bytes
    → encode_block h bytes ≡ ok frame
    → 1 ≤ i
    → i ≤ 10 + length bytes
    → IsByte v
    → v ≢ get_or frame i 0
    → decode_block (set frame i v) ≡ err checksum_mismatch
decode_block_detects h bytes frame zero v w b e lo hi bv d = absurd (omega arith)
decode_block_detects h bytes frame (suc i) v w b e lo hi bv d =
    let facts = encode_block_inverts h bytes frame e in
    let eq = facts.4 in
    let n = length-body h bytes in
    rw eq (
      envelope_detects (header_bytes h ++ bytes) i v
        (All-append IsByte (header_bytes h) bytes (header_bytes-IsByte h w) b) (omega (arith, n))
        (omega (arith, n, facts.0)) (omega (arith, n)) bv
        (λ e'. d (e' ∙ sym (ap (λ f. get_or f (suc i) 0) eq))))
