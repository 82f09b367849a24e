-- ===== src/Hsms/Builders.antt =====
-- The messages that the `make_*` functions of src/hsms/message.cpp build, as the peer reads them.
use secs_lib.Common.{
  ℕ, ◌+◌, ◌^◌, ◌≤◌, ◌<◌, ◌≡◌, refl, ap, ◌∙◌, sym, Bool, true, List, [], ◌++◌, arith, length,
  append-nil,
}
use secs_lib.Common.Bits.{
  low_bits, has_flag-with_flag, low_bits-with_flag, with_flag-IsByte, low_bits_small,
}
use secs_lib.Common.Bytes.{IsByte}
use secs_lib.Common.Outcome.{ok, err}
use secs_lib.Hsms.Message.{
  Header, Message, encode_frame, encode_frame_or_empty, decode_frame, header_of,
  encode_header_bytes, u32_be, make_reject_req, make_control_base, set_byte2, make_data_message,
  w_bit, stream, function, is_data,
}
use secs_lib.Hsms.Frame.{
  IsHeader, decode_frame-encode_frame, encode_frame_lem, header_of-encode_header_bytes,
  length-u32_be, length-payload,
}

-- A message of the library's p-type, within the limit, is read back from what `encode_frame` returns.
decode_frame-encode_frame_or_empty :
    (m : Message) (rest : List ℕ)
    → IsHeader m.header
    → m.header.p_type ≡ 0
    → length m.body ≤ 0xff_fff6
    → decode_frame (encode_frame_or_empty m ++ rest) ≡ ok (m, 14 + length m.body)
unfolding encode_frame_or_empty
decode_frame-encode_frame_or_empty m rest v p n =
    let frame = u32_be (10 + length m.body) ++ (encode_header_bytes m.header ++ m.body) in
    let e : encode_frame m ≡ ok frame = ground (arith, encode_frame_lem m) in
    let l = length-u32_be (10 + length m.body) (encode_header_bytes m.header ++ m.body) in
    let l' : length frame ≡ 14 + length m.body = omega (arith, l, length-payload m.header m.body) in
    ap (λ r. decode_frame ((elim r [ ok out ↦ out | err x ↦ [] ]) ++ rest)) e
    ∙ decode_frame-encode_frame m frame rest v e
    ∙ ap (λ (k : ℕ). ok (m, k)) l'

-- A reject message is read back from its frame, and the ten bytes of its body, read as a header, are
-- the header of the message that was rejected.
pub decode_frame-make_reject_req :
    (reason : ℕ) (rejected : Header) (rest : List ℕ)
    → IsByte reason
    → IsHeader rejected
    → (decode_frame (encode_frame_or_empty (make_reject_req reason rejected) ++ rest)
        ≡ ok (make_reject_req reason rejected, 24))
      × (header_of (make_reject_req reason rejected).body ≡ rejected)
unfolding make_reject_req make_control_base set_byte2
decode_frame-make_reject_req reason rejected rest b v =
    let m = make_reject_req reason rejected in
    let w : IsHeader m.header = record {
      session = v.session;
      byte2 = b;
      byte3 = omega arith;
      p_type = omega arith;
      s_type = omega arith;
      system = v.system;
    } in
    let nil = append-nil (encode_header_bytes rejected) in
    let n : length (encode_header_bytes rejected) ≡ 10 =
      sym (ap length nil) ∙ length-payload rejected [] in
    (
      decode_frame-encode_frame_or_empty m rest w refl (omega (arith, n))
          ∙ ap (λ (k : ℕ). ok (m, k))
              (let e : 14 + length (encode_header_bytes rejected) ≡ 24 = omega (arith, n) in e),
      ap header_of (sym nil) ∙ header_of-encode_header_bytes rejected [] v,
    )

-- A data message is read back from its frame, and its accessors give the stream, the function and the
-- W-bit it was made with.
pub decode_frame-make_data_message :
    (session_id str fn : ℕ) (w : Bool) (system_bytes : ℕ) (body rest : List ℕ)
    → session_id < 2 ^ 16
    → str < 128
    → IsByte fn
    → system_bytes < 2 ^ 32
    → length body ≤ 0xff_fff6
    → (decode_frame
          (encode_frame_or_empty (make_data_message session_id str fn w system_bytes body) ++ rest)
        ≡ ok (make_data_message session_id str fn w system_bytes body, 14 + length body))
      × (stream (make_data_message session_id str fn w system_bytes body) ≡ str)
      × (function (make_data_message session_id str fn w system_bytes body) ≡ fn)
      × (w_bit (make_data_message session_id str fn w system_bytes body) ≡ w)
      × (is_data (make_data_message session_id str fn w system_bytes body) ≡ true)
unfolding make_data_message stream function w_bit is_data
decode_frame-make_data_message session_id str fn w system_bytes body rest hs hstr hf hsys n =
    let low = low_bits_small str hstr in
    let lt : low_bits str < 128 = omega (arith, low) in
    let m = make_data_message session_id str fn w system_bytes body in
    let v : IsHeader m.header = record {
      session = hs;
      byte2 = with_flag-IsByte w (low_bits str) lt;
      byte3 = hf;
      p_type = omega arith;
      s_type = omega arith;
      system = hsys;
    } in
    (
      decode_frame-encode_frame_or_empty m rest v refl n,
      low_bits-with_flag w (low_bits str) lt ∙ low,
      refl,
      has_flag-with_flag w (low_bits str) lt,
      refl,
    )
