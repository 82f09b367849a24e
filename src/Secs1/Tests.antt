-- ===== src/Secs1/Tests.antt =====
-- Examples of the theorems about SECS-I blocks, on small messages.
use secs_lib.Common.{
  ℕ, ◌+◌, ◌/◌, ◌≡◌, refl, List, [], ◌∷◌, arith, true, length, set, replicate, some, max,
  length-replicate,
}
use secs_lib.Common.Bits.{with_flag, low_bits}
use secs_lib.Common.Outcome.{ok, err}
use secs_lib.Secs1.Block.{Header, checksum_mismatch, encode_block, decode_block, checksum}
use secs_lib.Secs1.Fragment.{block_header, fragment_message}
use secs_lib.Secs1.Reassembler.{reassembler, is_unexpected}
use secs_lib.Secs1.Block.Codec.{IsHeader, decode_block-encode_block}
use secs_lib.Secs1.Block.Checksum.{decode_block_detects}
use secs_lib.Secs1.Block.Whole.{encode_block-decode_block}
use secs_lib.Secs1.Transfer.{IsBase, deliver, deliver-fragment_message}

abbrev sample_header : Header
sample_header = record {
  reverse_bit = true;
  device_id = 0x0102;
  wait_bit = true;
  stream = 1;
  function = 13;
  end_bit = true;
  block_number = 1;
  system_bytes = 0x0a0b_0c0d;
}

abbrev sample_bytes : List ℕ
sample_bytes = 5 ∷ 6 ∷ []

abbrev sample_frame : List ℕ
sample_frame = 12 ∷ 129 ∷ 2 ∷ 129 ∷ 13 ∷ 128 ∷ 1 ∷ 10 ∷ 11 ∷ 12 ∷ 13 ∷ 5 ∷ 6 ∷ 1 ∷ 203 ∷ []

sample_header-IsHeader : IsHeader sample_header
sample_header-IsHeader = record {
  device = omega arith;
  stream = omega arith;
  function = omega arith;
  number = omega arith;
  number_pos = omega arith;
  system = omega arith;
}

sample_header-IsBase : IsBase sample_header
sample_header-IsBase = record {
  device = omega arith;
  stream = omega arith;
  function = omega arith;
  system = omega arith;
}

encode_block-sample : encode_block sample_header sample_bytes ≡ ok sample_frame
unfolding encode_block with_flag low_bits checksum
encode_block-sample = refl

decode_block-encode_block_example :
    decode_block sample_frame ≡ ok (record { header = sample_header; payload = sample_bytes })
decode_block-encode_block_example =
    decode_block-encode_block sample_header sample_bytes sample_frame sample_header-IsHeader
      encode_block-sample

decode_block-sample :
    decode_block sample_frame ≡ ok (record { header = sample_header; payload = sample_bytes })
decode_block-sample =
    decode_block-encode_block sample_header sample_bytes sample_frame sample_header-IsHeader
      encode_block-sample

decode_block_detects_example : decode_block (set sample_frame 11 7) ≡ err checksum_mismatch
decode_block_detects_example =
    decode_block_detects sample_header sample_bytes sample_frame 11 7 sample_header-IsHeader
      (ground arith) encode_block-sample (omega arith) (omega arith) (omega arith) (ground arith)

encode_block-decode_block_example : encode_block sample_header sample_bytes ≡ ok sample_frame
encode_block-decode_block_example =
    encode_block-decode_block sample_frame
      (record { header = sample_header; payload = sample_bytes }) (ground arith) decode_block-sample

-- 500 bytes, which take three blocks.
unfoldable zeros : List ℕ
zeros = replicate 500 0

length-zeros : length zeros ≡ 500
unfolding zeros
length-zeros = length-replicate {A = ℕ} 500 0

deliver-fragment_message_example :
    deliver (reassembler (some 0x0102)) (fragment_message sample_header zeros)
    ≡ ok (record {
      expected_device_id = some 0x0102;
      has_header = true;
      header = block_header sample_header 1 true;
      next_block = max 1 ((length zeros + 243) / 244) + 1;
      body = zeros;
    })
unfolding is_unexpected
deliver-fragment_message_example =
    deliver-fragment_message (some 0x0102) sample_header zeros sample_header-IsBase refl
      (omega (arith, length-zeros))
