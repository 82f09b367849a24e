-- ===== src/Hsms/Message.antt =====
-- HSMS messages and their frames: src/hsms/message.cpp and include/secs/hsms/message.hpp.
use secs_lib.Common.{
  ℕ, ◌+◌, ◌-◌, ◌*◌, ◌/◌, ◌%◌, ◌^◌, Bool, not, List, [], ◌∷◌, ◌++◌, ltb, ◌==◌, if◌then◌else◌, length,
  take, drop, get_or,
}
use secs_lib.Common.Bits.{with_flag, has_flag, low_bits}
use secs_lib.Common.Outcome.{Result, ok, err}
use secs_lib.Hsms.SType
use secs_lib.Core.Error.{Errc, invalid_argument, buffer_overflow}

abbrev pub length_field_size : ℕ
length_field_size = 4

abbrev pub header_size : ℕ
header_size = 10

abbrev pub p_type_secs2 : ℕ
p_type_secs2 = 0x00

abbrev pub max_payload_size : ℕ
max_payload_size = 16 * 1024 * 1024

pub record Header : Type 0 where
  pub session_id : ℕ
  pub header_byte2 : ℕ
  pub header_byte3 : ℕ
  pub p_type : ℕ
  pub s_type : ℕ
  pub system_bytes : ℕ

pub record Message : Type 0 where
  pub header : Header
  pub body : List ℕ

unfoldable pub is_data : Message → Bool
is_data m = m.header.s_type == SType.data_message

unfoldable pub is_control : Message → Bool
is_control m = not (m.header.s_type == SType.data_message)

unfoldable pub w_bit : Message → Bool
w_bit m = has_flag m.header.header_byte2

unfoldable pub stream : Message → ℕ
stream m = low_bits m.header.header_byte2

unfoldable pub function : Message → ℕ
function m = m.header.header_byte3

-- `write_u16_be` and `write_u32_be`.
unfoldable pub u16_be : ℕ → List ℕ
u16_be v = v / 2 ^ 8 % 256 ∷ v % 256 ∷ []

unfoldable pub u32_be : ℕ → List ℕ
u32_be v = v / 2 ^ 24 % 256 ∷ v / 2 ^ 16 % 256 ∷ v / 2 ^ 8 % 256 ∷ v % 256 ∷ []

-- `read_u16_be` and `read_u32_be` at a place of the bytes.
unfoldable pub read_u16_be : List ℕ → ℕ → ℕ
read_u16_be p i = get_or p i 0 * 2 ^ 8 + get_or p (i + 1) 0

unfoldable pub read_u32_be : List ℕ → ℕ → ℕ
read_u32_be p i =
    get_or p i 0 * 2 ^ 24
    + get_or p (i + 1) 0 * 2 ^ 16
    + get_or p (i + 2) 0 * 2 ^ 8
    + get_or p (i + 3) 0

unfoldable pub encode_header_bytes : Header → List ℕ
unfolding u16_be u32_be
encode_header_bytes h =
    u16_be h.session_id
    ++ (h.header_byte2 ∷ h.header_byte3 ∷ h.p_type ∷ h.s_type ∷ u32_be h.system_bytes)

unfoldable pub make_control_base : ℕ → ℕ → ℕ → Message
make_control_base stype session_id system_bytes = record {
  header = record {
    session_id = session_id;
    header_byte2 = 0;
    header_byte3 = 0;
    p_type = p_type_secs2;
    s_type = stype;
    system_bytes = system_bytes;
  };
  body = [];
}

-- `m.header.header_byte2 = value`.
unfoldable pub set_byte2 : Message → ℕ → Message
set_byte2 m value = record {
  header = record {
    session_id = m.header.session_id;
    header_byte2 = value;
    header_byte3 = m.header.header_byte3;
    p_type = m.header.p_type;
    s_type = m.header.s_type;
    system_bytes = m.header.system_bytes;
  };
  body = m.body;
}

unfoldable pub make_select_req : ℕ → ℕ → Message
make_select_req session_id system_bytes = make_control_base SType.select_req session_id system_bytes

unfoldable pub make_select_rsp : ℕ → ℕ → ℕ → Message
make_select_rsp session_id status system_bytes =
    set_byte2 (make_control_base SType.select_rsp session_id system_bytes) status

unfoldable pub make_deselect_req : ℕ → ℕ → Message
make_deselect_req session_id system_bytes =
    make_control_base SType.deselect_req session_id system_bytes

unfoldable pub make_deselect_rsp : ℕ → ℕ → ℕ → Message
make_deselect_rsp session_id status system_bytes =
    set_byte2 (make_control_base SType.deselect_rsp session_id system_bytes) status

unfoldable pub make_linktest_req : ℕ → ℕ → Message
make_linktest_req session_id system_bytes =
    make_control_base SType.linktest_req session_id system_bytes

unfoldable pub make_linktest_rsp : ℕ → ℕ → Message
make_linktest_rsp session_id system_bytes =
    make_control_base SType.linktest_rsp session_id system_bytes

-- The body echoes the header of the rejected message.
unfoldable pub make_reject_req : ℕ → Header → Message
make_reject_req reason_code rejected =
    let m =
      set_byte2 (make_control_base SType.reject_req rejected.session_id rejected.system_bytes)
        reason_code in
    record { header = m.header; body = encode_header_bytes rejected }

unfoldable pub make_separate_req : ℕ → ℕ → Message
make_separate_req session_id system_bytes =
    make_control_base SType.separate_req session_id system_bytes

unfoldable pub make_data_message : ℕ → ℕ → ℕ → Bool → ℕ → List ℕ → Message
make_data_message session_id stream function w_bit system_bytes body = record {
  header = record {
    session_id = session_id;
    header_byte2 = with_flag w_bit (low_bits stream);
    header_byte3 = function;
    p_type = p_type_secs2;
    s_type = SType.data_message;
    system_bytes = system_bytes;
  };
  body = body;
}

-- The value is what `out` holds after success. The allocation is taken to succeed.
unfoldable pub encode_frame : Message → Result Errc (List ℕ)
encode_frame msg =
    if not (msg.header.p_type == p_type_secs2)
    then err invalid_argument
    else (if ltb max_payload_size header_size
        then err invalid_argument
        else (if ltb (max_payload_size - header_size) (length msg.body)
            then err buffer_overflow
            else ok (
                u32_be ((header_size + length msg.body) % 2 ^ 32)
                ++ (encode_header_bytes msg.header ++ msg.body))))

-- The overload without an error code.
unfoldable pub encode_frame_or_empty : Message → List ℕ
encode_frame_or_empty msg = elim (encode_frame msg) [ ok out ↦ out | err e ↦ [] ]

-- The header that the first ten bytes hold.
unfoldable pub header_of : List ℕ → Header
header_of p = record {
  session_id = read_u16_be p 0;
  header_byte2 = get_or p 2 0;
  header_byte3 = get_or p 3 0;
  p_type = get_or p 4 0;
  s_type = get_or p 5 0;
  system_bytes = read_u32_be p 6;
}

unfoldable pub decode_payload : List ℕ → Result Errc Message
unfolding header_of
decode_payload payload =
    if ltb (length payload) header_size
    then err invalid_argument
    else (if ltb max_payload_size (length payload)
        then err buffer_overflow
        else (if not ((header_of payload).p_type == p_type_secs2)
            then err invalid_argument
            else ok (record { header = header_of payload; body = drop header_size payload })))

unfoldable pub with_consumed : ℕ → Result Errc Message → Result Errc (Message × ℕ)
with_consumed consumed (ok msg) = ok (msg, consumed)
with_consumed consumed (err e) = err e

-- The message and `consumed`, which is 0 after an error.
unfoldable pub decode_frame : List ℕ → Result Errc (Message × ℕ)
decode_frame frame =
    if ltb (length frame) length_field_size
    then err invalid_argument
    else (if ltb (read_u32_be frame 0) header_size
        then err invalid_argument
        else (if ltb max_payload_size (read_u32_be frame 0)
            then err buffer_overflow
            else (if ltb (length frame) (length_field_size + read_u32_be frame 0)
                then err invalid_argument
                else with_consumed (length_field_size + read_u32_be frame 0)
                    (decode_payload (take (read_u32_be frame 0) (drop length_field_size frame))))))
