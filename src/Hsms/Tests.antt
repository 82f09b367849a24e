-- ===== src/Hsms/Tests.antt =====
-- Examples of the theorems about HSMS frames, on small messages.
use secs_lib.Common.{ℕ, ◌≡◌, refl, List, [], ◌∷◌, ◌++◌, arith, length, take}
use secs_lib.Common.Outcome.{ok, err}
use secs_lib.Core.Error.{invalid_argument}
use secs_lib.Hsms.Message.{
  Header, Message, encode_frame, decode_frame, encode_header_bytes, u16_be, u32_be,
}
use secs_lib.Hsms.Frame.{
  IsHeader, decode_frame-encode_frame, encode_frame-decode_frame, decode_frame_truncated,
}

abbrev sample_header : Header
sample_header = record {
  session_id = 0x0102;
  header_byte2 = 0x81;
  header_byte3 = 13;
  p_type = 0;
  s_type = 0;
  system_bytes = 0x0a0b_0c0d;
}

abbrev one_byte : List ℕ
one_byte = 1 ∷ []

abbrev sample : Message
sample = record { header = sample_header; body = 1 ∷ 0 ∷ [] }

abbrev sample_frame : List ℕ
sample_frame = 0 ∷ 0 ∷ 0 ∷ 12 ∷ 1 ∷ 2 ∷ 0x81 ∷ 13 ∷ 0 ∷ 0 ∷ 10 ∷ 11 ∷ 12 ∷ 13 ∷ 1 ∷ 0 ∷ []

sample_header-IsHeader : IsHeader sample_header
sample_header-IsHeader = record {
  session = omega arith;
  byte2 = omega arith;
  byte3 = omega arith;
  p_type = omega arith;
  s_type = omega arith;
  system = omega arith;
}

encode_frame-sample : encode_frame sample ≡ ok sample_frame
unfolding encode_frame encode_header_bytes u16_be u32_be
encode_frame-sample = refl

decode_frame-sample : decode_frame (sample_frame ++ (7 ∷ [])) ≡ ok (sample, 16)
decode_frame-sample =
    decode_frame-encode_frame sample sample_frame (7 ∷ []) sample_header-IsHeader
      encode_frame-sample

decode_frame-encode_frame_example :
    decode_frame (sample_frame ++ (7 ∷ [])) ≡ ok (sample, length sample_frame)
decode_frame-encode_frame_example =
    decode_frame-encode_frame sample sample_frame (7 ∷ []) sample_header-IsHeader
      encode_frame-sample

encode_frame-decode_frame_example : encode_frame sample ≡ ok (take 16 (sample_frame ++ (7 ∷ [])))
encode_frame-decode_frame_example =
    encode_frame-decode_frame (sample_frame ++ (7 ∷ [])) sample 16 (ground arith)
      decode_frame-sample

decode_frame_truncated_example : decode_frame (take 15 sample_frame) ≡ err invalid_argument
decode_frame_truncated_example =
    decode_frame_truncated sample sample_frame 15 encode_frame-sample (omega arith)
