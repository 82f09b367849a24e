-- ===== src/Secs1/Block/Codec.antt =====
-- What one block's codec guarantees: a round trip in both directions.
use secs_lib.Common.{
  ℕ, suc, ◌+◌, ◌/◌, ◌%◌, ◌^◌, ◌≤◌, ◌<◌, ◌≡◌, refl, ap, ◌∙◌, if◌then◌else◌, List, [], ◌∷◌, ◌++◌,
  arith, ◌==◌, length, drop, get_or, length-append, take-append,
}
use secs_lib.Common.Bits.{has_flag-with_flag, low_bits-with_flag, low_bits_small}
use secs_lib.Common.Outcome.{ok, err}
use secs_lib.Secs1.Block.{
  Header, checksum_mismatch, checksum, header_bytes, framed, encode_block, parse_header,
  checked_block, checked_frame, decode_block, max_block_data_size,
}

-- The fields are values of their types, and the stream leaves the W-bit free.
pub record IsHeader (h : Header) : Type 0 where
  pub device : h.device_id < 2 ^ 15
  pub stream : h.stream < 2 ^ 7
  pub function : h.function < 2 ^ 8
  pub number : h.block_number < 2 ^ 15
  pub number_pos : 0 < h.block_number
  pub system : h.system_bytes < 2 ^ 32

pub encode_block_frames :
    (h : Header) (bytes : List ℕ)
    → IsHeader h
    → length bytes ≤ max_block_data_size
    → encode_block h bytes ≡ ok (framed (header_bytes h ++ bytes))
unfolding encode_block
encode_block_frames h bytes v n = ground arith

pub checksum-lt : (bytes : List ℕ) → checksum bytes < 0x1_0000
unfolding checksum
checksum-lt bytes = omega arith

get_or-append : (xs ys : List ℕ) (i d : ℕ) → get_or (xs ++ ys) (length xs + i) d ≡ get_or ys i d
get_or-append [] ys i d = ap (λ n. get_or ys n d) (let e : 0 + i ≡ i = omega arith in e)
get_or-append (x ∷ xs) ys i d =
    ap (λ n. get_or (x ∷ (xs ++ ys)) n d)
      (let e : suc (length xs) + i ≡ suc (length xs + i) = omega arith in e)
    ∙ get_or-append xs ys i d

parse_header-header_bytes :
    (h : Header) (bytes : List ℕ) → IsHeader h → parse_header (header_bytes h ++ bytes) ≡ h
unfolding parse_header header_bytes
parse_header-header_bytes h bytes v = ground (
  arith,
  has_flag-with_flag h.reverse_bit (h.device_id / 2 ^ 8 % 128) (omega arith),
  low_bits-with_flag h.reverse_bit (h.device_id / 2 ^ 8 % 128) (omega arith),
  has_flag-with_flag h.wait_bit h.stream v.stream,
  low_bits-with_flag h.wait_bit h.stream v.stream,
  low_bits_small h.stream v.stream,
  has_flag-with_flag h.end_bit (h.block_number / 2 ^ 8 % 128) (omega arith),
  low_bits-with_flag h.end_bit (h.block_number / 2 ^ 8 % 128) (omega arith),
)

-- A body behind its length and before the checksum `cs`.
abbrev pub envelope : List ℕ → ℕ → List ℕ
envelope body cs = length body ∷ (body ++ (cs / 2 ^ 8 % 256 ∷ cs % 256 ∷ []))

module _ (body : List ℕ) (cs : ℕ) where
  abbrev tail : List ℕ
  tail = cs / 2 ^ 8 % 256 ∷ cs % 256 ∷ []

  high-envelope : get_or (envelope body cs) (1 + length body) 0 ≡ cs / 2 ^ 8 % 256
  high-envelope =
      ap (λ n. get_or (envelope body cs) n 0)
        (let e : 1 + length body ≡ suc (length body + 0) = omega arith in e)
      ∙ get_or-append body tail 0 0

  low-envelope : get_or (envelope body cs) (1 + length body + 1) 0 ≡ cs % 256
  low-envelope =
      ap (λ n. get_or (envelope body cs) n 0)
        (let e : 1 + length body + 1 ≡ suc (length body + 1) = omega arith in e)
      ∙ get_or-append body tail 1 0

  -- The body is accepted, up to the header in it, exactly if `cs` is its checksum.
  checked_frame-envelope :
      cs < 0x1_0000
      → checked_frame (length body) (envelope body cs) ≡ (
          if cs == checksum body
          then checked_block (parse_header body) body
          else err checksum_mismatch)
  unfolding checked_frame
  checked_frame-envelope h =
      ground (arith, high-envelope, low-envelope, take-append (length body) body tail refl)

  pub decode_block-envelope :
      10 ≤ length body
      → length body ≤ 254
      → cs < 0x1_0000
      → decode_block (envelope body cs) ≡ (
          if cs == checksum body
          then checked_block (parse_header body) body
          else err checksum_mismatch)
  unfolding decode_block
  decode_block-envelope lo hi h = ground (arith, length-append body tail, checked_frame-envelope h)

drop-header_bytes : (h : Header) (bytes : List ℕ) → drop 10 (header_bytes h ++ bytes) ≡ bytes
unfolding header_bytes
drop-header_bytes h bytes = refl

pub length-body :
    (h : Header) (bytes : List ℕ) → length (header_bytes h ++ bytes) ≡ 10 + length bytes
unfolding header_bytes
length-body h bytes = omega arith

pub encode_block_inverts :
    (h : Header) (bytes frame : List ℕ)
    → encode_block h bytes ≡ ok frame
    → (length bytes ≤ 244)
      × (0 < h.block_number)
      × (h.block_number ≤ 0x7fff)
      × (h.device_id ≤ 0x7fff)
      × (frame ≡ envelope (header_bytes h ++ bytes) (checksum (header_bytes h ++ bytes)))
unfolding encode_block framed
encode_block_inverts h bytes frame e = ground arith

-- `decode_block` takes a frame that `encode_block` made of a header with fields in range and of
-- data apart into that header and data.
pub decode_block-encode_block :
    (h : Header) (bytes frame : List ℕ)
    → IsHeader h
    → encode_block h bytes ≡ ok frame
    → decode_block frame ≡ ok (record { header = h; payload = bytes })
unfolding checked_block
decode_block-encode_block h bytes frame v e =
    let facts = encode_block_inverts h bytes frame e in
    ground (
      arith,
      facts,
      decode_block-envelope (header_bytes h ++ bytes) (checksum (header_bytes h ++ bytes)),
      checksum-lt (header_bytes h ++ bytes),
      length-body h bytes,
      parse_header-header_bytes h bytes v,
      drop-header_bytes h bytes,
    )
