-- ===== src/Stack/Tests.antt =====
-- Examples of the theorems about items on the two transports.
use secs_lib.Common.{ℕ, ◌≡◌, refl, none, some, List, [], ◌∷◌, ◌++◌, arith, true}
use secs_lib.Common.Int.{to_unsigned}
use secs_lib.Ii.Format.{make_format_byte, code_bits, length_bytes_for}
use secs_lib.Ii.Item.{Item, list, ascii, nil, cons}
use secs_lib.Ii.Size.{encoded_size_impl, total_size, length_value, item_code}
use secs_lib.Ii.Writer.{write_u8, write_bytes, write_be_u32, write_be_uint, store_be}
use secs_lib.Ii.Encode.{
  encode, encode_to, encode_item, encode_head, encode_payload, encode_header_and_length, write_each,
}
use secs_lib.Ii.Measure.{nest, nodes, volume}
use secs_lib.Ii.Wire.{extent, payload_bytes}
use secs_lib.Ii.Decode.{default_limits}
use secs_lib.Hsms.Message.{make_data_message, encode_frame_or_empty}
use secs_lib.Secs1.Block.{Header}
use secs_lib.Secs1.Fragment.{fragment_message}
use secs_lib.Secs1.Reassembler.{is_unexpected}
use secs_lib.Secs1.Transfer.{IsBase}
use secs_lib.Stack.{
  from_frame, from_blocks, from_frame-make_data_message, from_blocks-fragment_message,
}

-- <L [1] <A "AB">>
abbrev greeting : Item
greeting = list (cons (ascii (b'A' ∷ b'B' ∷ [])) nil)

abbrev greeting_bytes : List ℕ
greeting_bytes = 1 ∷ 1 ∷ 0x41 ∷ 2 ∷ 0x41 ∷ 0x42 ∷ []

encode-greeting : encode greeting [] ≡ (none, greeting_bytes)
unfolding encode encode_to encode_item encode_head encode_payload encode_header_and_length
    write_each write_u8 write_bytes write_be_u32 write_be_uint store_be encoded_size_impl total_size
    length_value item_code make_format_byte code_bits length_bytes_for to_unsigned
encode-greeting = refl

abbrev base : Header
base = record {
  reverse_bit = true;
  device_id = 5;
  wait_bit = true;
  stream = 1;
  function = 13;
  end_bit = true;
  block_number = 1;
  system_bytes = 9;
}

base-IsBase : IsBase base
base-IsBase = record {
  device = omega arith;
  stream = omega arith;
  function = omega arith;
  system = omega arith;
}

from_frame-make_data_message_example :
    from_frame default_limits
      (encode_frame_or_empty (make_data_message 5 1 13 true 9 greeting_bytes) ++ (0 ∷ []))
    ≡ some greeting
unfolding nest nodes volume extent payload_bytes
from_frame-make_data_message_example =
    from_frame-make_data_message greeting greeting_bytes default_limits encode-greeting
      (omega arith) (omega arith) (omega arith) 5 1 13 true 9 (0 ∷ []) (omega arith) (omega arith)
      (omega arith) (omega arith) (omega arith)

from_blocks-fragment_message_example :
    from_blocks default_limits (some 5) (fragment_message base greeting_bytes) ≡ some greeting
unfolding nest nodes volume extent payload_bytes is_unexpected
from_blocks-fragment_message_example =
    from_blocks-fragment_message greeting greeting_bytes default_limits encode-greeting
      (omega arith) (omega arith) (omega arith) (some 5) base base-IsBase refl (omega arith)
