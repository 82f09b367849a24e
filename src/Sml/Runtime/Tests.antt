-- ===== src/Sml/Runtime/Tests.antt =====
-- Tests of src/sml/runtime.cpp.
use secs_lib.Ii.Wire.{extent}
use secs_lib.Ii.Measure.{nest, nodes, volume}
use secs_lib.Ii.Writer.{write_u8, write_bytes, write_be_u32, write_be_uint, store_be}
use secs_lib.Ii.Size.{encoded_size_impl, total_size, length_value, item_code}
use secs_lib.Common.Int.{to_unsigned}
use secs_lib.Common.{
  ℕ, ◌≡◌, refl, ◌++◌, ◌-◌, ◌==◌, if◌then◌else◌, get_elem?, false, true, List, [], ◌∷◌, none, some,
  length, arith,
}
use secs_lib.Common.Outcome.{ok}
use secs_lib.Common.Run
use secs_lib.Ii.Item
use secs_lib.Ii.Item.{Item}
use secs_lib.Ii.Format.{make_format_byte, code_bits, length_bytes_for}
use secs_lib.Ii.Decode.{decode_one, default_limits}
use secs_lib.Ii.Encode.{
  encode, encode_to, encode_item, encode_head, encode_payload, encode_header_and_length, write_each,
}
use secs_lib.Sml.Ast.{value, TemplateItem, list, ascii, nil, cons, MessageDef, Document}
use secs_lib.Sml.Lexer.{same_text}
use secs_lib.Sml.Parser.Items.{item_has_var, is_var}
use secs_lib.Sml.Render.{get, put, without, render_item, render_ascii}
use secs_lib.Sml.Render.Closed.{plain_item, ascii_literal}
use secs_lib.Sml.Runtime.{
  Runtime, MessageBody, load, indexed_from, indexed, is_empty, message_at, get_or_sf, get_message,
  find_preorder_nth, encoded_body, rendered_body, message_body, encode_message_body, parse_sf,
}
use secs_lib.Sml.Runtime.Found.{first_some, last_named, last_unnamed, first_of, of_sf}
use secs_lib.Sml.Runtime.Lookup.{get_message-load}
use secs_lib.Sml.Runtime.Preorder.{preorder, find_preorder_nth-preorder}
use secs_lib.Sml.Runtime.Body.{decode_one-encode_message_body}

-- `m: S1F13 W <L <A "AB">>.`
abbrev name : List ℕ
name = b'm' ∷ []

abbrev template : TemplateItem
template = list (cons (ascii (value (b'A' ∷ b'B' ∷ []))) nil)

abbrev item : Item
item = Item.list (Item.cons (Item.ascii (b'A' ∷ b'B' ∷ [])) Item.nil)

abbrev message : MessageDef
message = record { name = name; stream = 1; function = 13; w_bit = true; item = template }

abbrev runtime : Runtime
runtime = load (record { messages = message ∷ []; conditions = []; timers = [] })

abbrev body : MessageBody
body = record {
  bytes = 1 ∷ 1 ∷ 0x41 ∷ 2 ∷ 0x41 ∷ 0x42 ∷ [];
  stream = 1;
  function = 13;
  w_bit = true;
}

get_message-runtime : get_message name runtime ≡ some message
unfolding load indexed_from indexed is_empty put without get same_text message_at get_or_sf
    get_message
get_message-runtime = refl

template-closed : item_has_var template ≡ false
unfolding item_has_var is_var
template-closed = refl

plain_item-template : plain_item template ≡ item
unfolding plain_item ascii_literal
plain_item-template = refl

find_preorder_nth-preorder_example :
    find_preorder_nth item 2 ≡ (if 2 == 0 then none else get_elem? (preorder item) (2 - 1))
find_preorder_nth-preorder_example = find_preorder_nth-preorder item 2

body-made : encode_message_body name [] runtime ≡ ok body
unfolding encode_message_body message_body rendered_body encoded_body load indexed_from indexed
    is_empty put without get same_text message_at get_or_sf get_message render_item render_ascii
    encode encode_to encode_item encode_head encode_payload encode_header_and_length write_each
    write_u8 write_bytes write_be_u32 write_be_uint store_be encoded_size_impl total_size
    length_value item_code make_format_byte code_bits length_bytes_for to_unsigned
body-made = refl

decode_one-encode_message_body_example :
    (decode_one (body.bytes ++ (9 ∷ [])) default_limits
      ≡ Run.ok (plain_item template, length body.bytes))
    × (body.stream ≡ message.stream)
    × (body.function ≡ message.function)
    × (body.w_bit ≡ message.w_bit)
unfolding plain_item ascii_literal extent nest nodes volume
decode_one-encode_message_body_example =
    decode_one-encode_message_body name (9 ∷ []) [] runtime message body default_limits
      get_message-runtime template-closed (omega arith) (omega arith) (omega arith) body-made

-- `m: S1F13 W <L <A "AB">>.` and `S1F13 <A "C">.`
abbrev nameless : MessageDef
nameless = record {
  name = [];
  stream = 1;
  function = 13;
  w_bit = false;
  item = ascii (value (b'C' ∷ []));
}

abbrev two_messages : Document
two_messages = record { messages = message ∷ nameless ∷ []; conditions = []; timers = [] }

abbrev s1f13 : List ℕ
s1f13 = b'S' ∷ b'1' ∷ b'F' ∷ b'1' ∷ b'3' ∷ []

get_message-load_example :
    get_message s1f13 (load two_messages)
    ≡ first_some
        (last_named s1f13 two_messages.messages)
        (of_sf (parse_sf s1f13) two_messages.messages)
get_message-load_example = get_message-load s1f13 two_messages (omega arith, (omega arith, tt))

of_sf-s1f13 : of_sf (some (1, 13)) two_messages.messages ≡ some nameless
unfolding of_sf last_unnamed first_of is_empty
of_sf-s1f13 = refl
