-- ===== src/Secs1/Block/Whole.antt =====
-- Frames that `decode_block` of src/secs1/block.cpp accepts, encoded again.
use secs_lib.Common.{
  ℕ, zero, suc, ◌+◌, ◌*◌, ◌^◌, ◌≤◌, ◌<◌, ◌≡◌, refl, sym, ap, ap₂, ◌∙◌, List, [], ◌∷◌, ◌++◌, arith,
  length, take, drop, get_or, All, length-take, length-drop, All-take, All-drop,
}
use secs_lib.Common.Bits.{low_bits, low_bits-lt, low_bits_small, with_flag-parts}
use secs_lib.Common.Bytes.{IsByte, byte_at-IsByte, ten_bytes}
use secs_lib.Common.Outcome.{ok}
use secs_lib.Secs1.Block.{
  DecodedBlock, checksum, header_bytes, framed, encode_block, parse_header, checked_block,
  checked_frame, decode_block,
}
use secs_lib.Secs1.Block.Codec.{envelope}

header_bytes-parse_header :
    (p : List ℕ) → All IsByte p → 10 ≤ length p → header_bytes (parse_header p) ++ drop 10 p ≡ p
unfolding header_bytes parse_header
header_bytes-parse_header p h n = ground (
  arith,
  byte_at-IsByte p 1 h,
  byte_at-IsByte p 3 h,
  byte_at-IsByte p 5 h,
  byte_at-IsByte p 6 h,
  byte_at-IsByte p 7 h,
  byte_at-IsByte p 8 h,
  byte_at-IsByte p 9 h,
  low_bits-lt (get_or p 0 0) (byte_at-IsByte p 0 h),
  low_bits-lt (get_or p 2 0) (byte_at-IsByte p 2 h),
  low_bits-lt (get_or p 4 0) (byte_at-IsByte p 4 h),
  low_bits_small (low_bits (get_or p 2 0)),
  with_flag-parts (get_or p 0 0) (byte_at-IsByte p 0 h),
  with_flag-parts (get_or p 2 0) (byte_at-IsByte p 2 h),
  with_flag-parts (get_or p 4 0) (byte_at-IsByte p 4 h),
  ten_bytes p n,
)

-- What an accepted frame is like: `n` is its length field and `body` what follows it.
decode_block_inverts :
    (frame : List ℕ) (b : DecodedBlock)
    → decode_block frame ≡ ok b
    → (10 ≤ get_or frame 0 0)
      × (get_or frame 0 0 ≤ 254)
      × (length frame ≡ 3 + get_or frame 0 0)
      × (checked_frame (get_or frame 0 0) frame ≡ ok b)
unfolding decode_block
decode_block_inverts frame b e = ground arith

checked_frame_inverts :
    (n : ℕ) (frame : List ℕ) (b : DecodedBlock)
    → checked_frame n frame ≡ ok b
    → (get_or frame (1 + n) 0 * 2 ^ 8 + get_or frame (1 + n + 1) 0
        ≡ checksum (take n (drop 1 frame)))
      × (0 < (parse_header (take n (drop 1 frame))).block_number)
      × ((parse_header (take n (drop 1 frame))).block_number ≤ 0x7fff)
      × (b ≡ record {
        header = parse_header (take n (drop 1 frame));
        payload = drop 10 (take n (drop 1 frame));
      })
unfolding checked_frame checked_block
checked_frame_inverts n frame b e = ground arith

tail_split :
    (n : ℕ) (rest : List ℕ)
    → length rest ≡ 2 + n
    → take n rest ++ (get_or rest n 0 ∷ get_or rest (n + 1) 0 ∷ []) ≡ rest
tail_split n [] l = absurd (omega arith)
tail_split n (x ∷ []) l = absurd (omega arith)
tail_split zero (x ∷ y ∷ []) l = refl
tail_split zero (x ∷ y ∷ z ∷ rest) l = absurd (omega arith)
tail_split (suc n) (x ∷ y ∷ rest) l =
    ap (λ k. x ∷ (take n (y ∷ rest) ++ (get_or (y ∷ rest) n 0 ∷ get_or (x ∷ y ∷ rest) k 0 ∷ [])))
      (let e : suc n + 1 ≡ suc (n + 1) = omega arith in e)
    ∙ ap (λ t. x ∷ t) (tail_split n (y ∷ rest) (omega arith))

frame_split :
    (n : ℕ) (frame : List ℕ)
    → length frame ≡ 3 + n
    → (get_or frame 0 0
        ∷ (take n (drop 1 frame) ++ (get_or frame (1 + n) 0 ∷ get_or frame (1 + n + 1) 0 ∷ [])))
      ≡ frame
frame_split n [] l = absurd (omega arith)
frame_split n (x ∷ rest) l =
    ap₂ (λ j k. x ∷ (take n rest ++ (get_or (x ∷ rest) j 0 ∷ get_or (x ∷ rest) k 0 ∷ [])))
      (let e : 1 + n ≡ suc n = omega arith in e)
      (let e : 1 + n + 1 ≡ suc (n + 1) = omega arith in e)
    ∙ ap (λ t. x ∷ t) (tail_split n rest (omega arith))

envelope_split :
    (n : ℕ) (frame : List ℕ)
    → All IsByte frame
    → n ≡ get_or frame 0 0
    → length frame ≡ 3 + n
    → envelope (take n (drop 1 frame)) (get_or frame (1 + n) 0 * 2 ^ 8 + get_or frame (1 + n + 1) 0)
      ≡ frame
envelope_split n frame h e l =
    let hi = byte_at-IsByte frame (1 + n) h in
    let lo = byte_at-IsByte frame (1 + n + 1) h in
    let m : length (take n (drop 1 frame)) ≡ get_or frame 0 0 =
      omega (arith, length-take n (drop 1 frame), length-drop 1 frame) in
    ap₂ (λ a t. a ∷ (take n (drop 1 frame) ++ t)) m (ground arith) ∙ frame_split n frame l

device_id-le : (p : List ℕ) → All IsByte p → (parse_header p).device_id ≤ 0x7fff
unfolding parse_header
device_id-le p h =
    omega (arith, low_bits-lt (get_or p 0 0) (byte_at-IsByte p 0 h), byte_at-IsByte p 1 h)

encode_block-parse_header :
    (p : List ℕ)
    → All IsByte p
    → 10 ≤ length p
    → length p ≤ 254
    → 0 < (parse_header p).block_number
    → (parse_header p).block_number ≤ 0x7fff
    → encode_block (parse_header p) (drop 10 p) ≡ ok (framed p)
unfolding encode_block
encode_block-parse_header p h lo hi pos small =
    let d : (parse_header p).device_id ≤ 0x7fff = device_id-le p h in
    ground (arith, length-drop 10 p, header_bytes-parse_header p h lo, d)

-- The block that `decode_block` finds in a frame of bytes is encoded to the same frame.
pub encode_block-decode_block :
    (frame : List ℕ) (b : DecodedBlock)
    → All IsByte frame
    → decode_block frame ≡ ok b
    → encode_block b.header b.payload ≡ ok frame
unfolding framed
encode_block-decode_block frame b h e =
    let n = get_or frame 0 0 in
    let (lo, hi, l, checked) = decode_block_inverts frame b e in
    let (sum, pos, small, same) = checked_frame_inverts n frame b checked in
    let p = take n (drop 1 frame) in
    let m : length p ≡ n = omega (arith, length-take n (drop 1 frame), length-drop 1 frame, l) in
    let bytes = All-take IsByte n (drop 1 frame) (All-drop IsByte 1 frame h) in
    ap (λ x. encode_block x.header x.payload) same
    ∙ encode_block-parse_header p bytes (omega (arith, m, lo)) (omega (arith, m, hi)) pos small
    ∙ ap (λ c. ok (envelope p c)) (sym sum)
    ∙ ap ok (envelope_split n frame h refl l)
