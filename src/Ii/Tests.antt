-- ===== src/Ii/Tests.antt =====
-- Runs of the codec, and the theorems at concrete items.
use secs_lib.Common.{
  ◌≡◌, ◌↔◌, true, false, refl, none, List, [], ◌∷◌, ◌++◌, ℕ, length, ◌≤◌, arith, replicate,
}
use secs_lib.Common.Bytes.{be_bytes}
use secs_lib.Common.Int.{pos, negsuc, to_unsigned, to_signed}
use secs_lib.Common.Run.{ok, Ensures}
use secs_lib.Ii.Format.{format_code_from_bits, make_format_byte, code_bits, length_bytes_for}
use secs_lib.Ii.Item.{Item, list, ascii, binary, i2, f4, nil, cons}
use secs_lib.Ii.Size.{encoded_size_impl, total_size, length_value, item_code}
use secs_lib.Ii.Writer.{write_u8, write_bytes, write_be_u32, write_be_uint, store_be}
use secs_lib.Ii.Encode.{
  encode, encode_to, encode_item, encode_head, encode_payload, encode_header_and_length, write_each,
}
use secs_lib.Ii.Encode.Sized.{Reports, encoded_size-Reports}
use secs_lib.Ii.Encode.Whole.{Appends, encode-Appends, Writes, encode_to-Writes}
use secs_lib.Ii.Equal.{equal_item, all_equal, equal_nat, equal_item_iff}
use secs_lib.Ii.Wire.{wire, extent, payload_bytes, header_bytes, Encodable}
use secs_lib.Ii.Measure.{nest, nodes, volume, HasValues}
use secs_lib.Ii.Decode.{decode_one, default_limits}
use secs_lib.Ii.Decode.Budget.{Fits}
use secs_lib.Ii.Decode.Safe.{decode_one-Ensures}
use secs_lib.Ii.RoundTrip.{decode_one-encode, decode-encode-decode}

-- <L [2] <A "AB"> <I2 1 -2>>
abbrev sample : Item
sample = list (cons (ascii (b'A' ∷ b'B' ∷ [])) (cons (i2 (pos 1 ∷ negsuc 1 ∷ [])) nil))

abbrev sample_bytes : List ℕ
sample_bytes = 1 ∷ 2 ∷ 0x41 ∷ 2 ∷ 0x41 ∷ 0x42 ∷ 0x69 ∷ 4 ∷ 0 ∷ 1 ∷ 0xff ∷ 0xfe ∷ []

encode-sample : encode sample [] ≡ (none, sample_bytes)
unfolding encode encode_to encode_item encode_head encode_payload encode_header_and_length
    write_each write_u8 write_bytes write_be_u32 write_be_uint store_be encoded_size_impl total_size
    length_value item_code make_format_byte code_bits length_bytes_for to_unsigned
encode-sample = refl

decode-sample : decode_one (sample_bytes ++ (9 ∷ [])) default_limits ≡ ok (sample, 12)
unfolding decode_one to_signed format_code_from_bits
decode-sample = refl

-- A length field of three bytes for one byte of text.
abbrev long_form : List ℕ
long_form = 0x43 ∷ 0 ∷ 0 ∷ 1 ∷ 0x41 ∷ []

decode_long_form : decode_one long_form default_limits ≡ ok (ascii (0x41 ∷ []), 5)
unfolding decode_one format_code_from_bits
decode_long_form = refl

encoded_size-Reports_example :
    Reports (Encodable sample) (length (wire sample)) (encoded_size_impl sample)
encoded_size-Reports_example = encoded_size-Reports sample

encode-Appends_example : Appends sample (7 ∷ []) (encode sample (7 ∷ []))
encode-Appends_example = encode-Appends sample (7 ∷ []) (omega arith)

-- Shut, so that a long payload is never written out.
zeros : ℕ → List ℕ
zeros n = replicate n 0

-- One byte more than a length field can count.
Appends-too_long :
    Appends (binary (zeros 0x100_0000)) (7 ∷ []) (encode (binary (zeros 0x100_0000)) (7 ∷ []))
Appends-too_long = encode-Appends (binary (zeros 0x100_0000)) (7 ∷ []) (omega arith)

encode_to-Writes_example :
    Writes
      (wire (ascii (0x41 ∷ [])))
      (replicate 14 5)
      (encode_to (replicate 14 5) (ascii (0x41 ∷ [])))
unfolding extent wire payload_bytes header_bytes length_bytes_for be_bytes
encode_to-Writes_example = encode_to-Writes (ascii (0x41 ∷ [])) (replicate 14 5) (omega arith)

-- Two floats with the bits of +0 and -0 differ.
zeros_differ : equal_item (f4 (0 ∷ [])) (f4 (0x8000_0000 ∷ [])) ≡ false
unfolding equal_item all_equal equal_nat
zeros_differ = refl

equal_item_iff_example : (equal_item sample sample ≡ true) ↔ (sample ≡ sample)
equal_item_iff_example = equal_item_iff sample sample

decode_one-Ensures_example :
    Ensures
      (λ (x, consumed).
        Fits default_limits 0 (record { total_items = 0; total_bytes = 0 }) x
        × HasValues x
        × Encodable x
        × (length (wire x) ≤ consumed)
        × (consumed ≤ 5))
      (decode_one long_form default_limits)
decode_one-Ensures_example = decode_one-Ensures long_form default_limits (omega arith) (omega arith)

decode_one-encode_example : decode_one (sample_bytes ++ (9 ∷ [])) default_limits ≡ ok (sample, 12)
unfolding extent nest nodes volume
decode_one-encode_example =
    decode_one-encode sample sample_bytes (9 ∷ []) default_limits encode-sample (omega arith)
      (omega arith) (omega arith)

decode-encode-decode_example :
    (encode (ascii (0x41 ∷ [])) [] ≡ (none, wire (ascii (0x41 ∷ []))))
    × (length (wire (ascii (0x41 ∷ []))) ≤ 5)
    × (decode_one (wire (ascii (0x41 ∷ [])) ++ (9 ∷ [])) default_limits
        ≡ ok (ascii (0x41 ∷ []), length (wire (ascii (0x41 ∷ [])))))
decode-encode-decode_example =
    decode-encode-decode long_form (9 ∷ []) default_limits (ascii (0x41 ∷ [])) 5 (omega arith)
      (omega arith) (omega arith) decode_long_form
