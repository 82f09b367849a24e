-- ===== src/Secs1/Block.antt =====
-- One block frame: `encode_block` and `decode_block` of src/secs1/block.cpp.
pub mod Checksum
pub mod Codec
pub mod Whole
use secs_lib.Common.{
  ℕ, zero, suc, ◌+◌, ◌*◌, ◌/◌, ◌%◌, ◌^◌, Bool, ◌||◌, not, List, [], ◌∷◌, ◌++◌, ltb, ◌==◌,
  if◌then◌else◌, length, take, drop, get_or,
}
use secs_lib.Common.Bits.{with_flag, has_flag, low_bits}
use secs_lib.Common.Outcome.{Result, ok, err}
use secs_lib.Core.Error

-- `secs::secs1::errc`.
pub data Errc : Type 0 where
  invalid_block checksum_mismatch device_id_mismatch protocol_error : Errc
  too_many_retries block_sequence_error : Errc

pub record Header : Type 0 where
  pub reverse_bit : Bool
  pub device_id : ℕ
  pub wait_bit : Bool
  pub stream : ℕ
  pub function : ℕ
  pub end_bit : Bool
  pub block_number : ℕ
  pub system_bytes : ℕ

pub record DecodedBlock : Type 0 where
  pub header : Header
  pub payload : List ℕ

abbrev pub header_size : ℕ
header_size = 10

abbrev pub max_block_data_size : ℕ
max_block_data_size = 244

abbrev pub max_block_length : ℕ
max_block_length = header_size + max_block_data_size

abbrev pub max_block_frame_size : ℕ
max_block_frame_size = 1 + max_block_length + 2

-- `sum += b` in a `uint32_t`.
unfoldable pub sum_from : ℕ → List ℕ → ℕ
sum_from sum [] = sum
sum_from sum (b ∷ bs) = sum_from ((sum + b) % 2 ^ 32) bs

unfoldable pub checksum : List ℕ → ℕ
unfolding sum_from
checksum bytes = sum_from 0 bytes % 0x1_0000

-- The ten bytes of a header.
unfoldable pub header_bytes : Header → List ℕ
header_bytes h =
    with_flag h.reverse_bit (h.device_id / 2 ^ 8 % 128)
    ∷ h.device_id % 256
    ∷ with_flag h.wait_bit (low_bits h.stream)
    ∷ h.function
    ∷ with_flag h.end_bit (h.block_number / 2 ^ 8 % 128)
    ∷ h.block_number % 256
    ∷ h.system_bytes / 2 ^ 24 % 256
    ∷ h.system_bytes / 2 ^ 16 % 256
    ∷ h.system_bytes / 2 ^ 8 % 256
    ∷ h.system_bytes % 256
    ∷ []

-- The frame around a payload: its length, and the checksum behind it.
unfoldable pub framed : List ℕ → List ℕ
framed body = length body ∷ (body ++ (checksum body / 2 ^ 8 % 256 ∷ checksum body % 256 ∷ []))

-- The value is what `out` holds after success; on an error `out` is not touched.
unfoldable pub encode_block : Header → List ℕ → Result Error.Errc (List ℕ)
unfolding header_bytes framed
encode_block h bytes =
    if ltb 0x7fff h.device_id
    then err Error.invalid_argument
    else (if h.block_number == 0 || ltb 0x7fff h.block_number
        then err Error.invalid_argument
        else (if ltb max_block_data_size (length bytes)
            then err Error.invalid_argument
            else (if ltb (header_size + length bytes) header_size
                  || ltb max_block_length (header_size + length bytes)
                then err Error.invalid_argument
                else ok (framed (header_bytes h ++ bytes)))))

-- The header that the first ten bytes of a payload hold.
unfoldable pub parse_header : List ℕ → Header
parse_header p = record {
  reverse_bit = has_flag (get_or p 0 0);
  device_id = low_bits (get_or p 0 0) * 2 ^ 8 + get_or p 1 0;
  wait_bit = has_flag (get_or p 2 0);
  stream = low_bits (get_or p 2 0);
  function = get_or p 3 0;
  end_bit = has_flag (get_or p 4 0);
  block_number = low_bits (get_or p 4 0) * 2 ^ 8 + get_or p 5 0;
  system_bytes =
      get_or p 6 0 * 2 ^ 24 + get_or p 7 0 * 2 ^ 16 + get_or p 8 0 * 2 ^ 8 + get_or p 9 0;
}

unfoldable pub checked_block : Header → List ℕ → Result Errc DecodedBlock
checked_block h body =
    if h.block_number == 0 || ltb 0x7fff h.block_number
    then err invalid_block
    else ok (record { header = h; payload = drop header_size body })

-- The checksum is compared, and then the header is read; `n` is the length field.
unfoldable pub checked_frame : ℕ → List ℕ → Result Errc DecodedBlock
checked_frame n frame =
    let body = take n (drop 1 frame) in
    let cs_recv = get_or frame (1 + n) 0 * 2 ^ 8 + get_or frame (1 + n + 1) 0 in
    if not (cs_recv == checksum body)
    then err checksum_mismatch
    else checked_block (parse_header body) body

unfoldable pub decode_block : List ℕ → Result Errc DecodedBlock
decode_block frame =
    if ltb max_block_frame_size (length frame)
    then err invalid_block
    else (if ltb (length frame) (1 + header_size + 2)
        then err invalid_block
        else (if ltb (get_or frame 0 0) header_size || ltb max_block_length (get_or frame 0 0)
            then err invalid_block
            else (if not (length frame == 1 + get_or frame 0 0 + 2)
                then err invalid_block
                else checked_frame (get_or frame 0 0) frame)))
