-- ===== src/Sml/Runtime/Body.antt =====
-- `encode_message_body` of src/sml/runtime.cpp and the decoder of the peer.
use secs_lib.Common.{ℕ, ◌≡◌, sym, ap, ◌∙◌, false, List, [], ◌++◌, Option, none, some, length}
use secs_lib.Common.Outcome.{ok}
use secs_lib.Common.Run
use secs_lib.Ii.Format.{Errc}
use secs_lib.Ii.Encode.{encode}
use secs_lib.Ii.Decode.{decode_one, DecodeLimits}
use secs_lib.Ii.Decode.Budget.{HasSizes, Fits}
use secs_lib.Ii.Measure.{HasValues}
use secs_lib.Ii.RoundTrip.{decode_one-encode}
use secs_lib.Sml.Ast.{MessageDef}
use secs_lib.Sml.Parser.Items.{item_has_var}
use secs_lib.Sml.Render.{RenderContext}
use secs_lib.Sml.Render.Closed.{plain_item, render_item-plain_item}
use secs_lib.Sml.Runtime.{
  Runtime, MessageBody, get_message, encoded_body, rendered_body, message_body, encode_message_body,
}

-- The bytes are what `encode` wrote of the item, and the other fields those of the message.
encoded_body-encode :
    (m : MessageDef) (r : Option Errc × List ℕ) (b : MessageBody)
    → encoded_body m r ≡ ok b
    → (r ≡ (none, b.bytes))
      × (b.stream ≡ m.stream)
      × (b.function ≡ m.function)
      × (b.w_bit ≡ m.w_bit)
unfolding encoded_body
encoded_body-encode m (some e, out) b h = cc
encoded_body-encode m (none, out) b h =
    let made : MessageBody = record {
      bytes = out;
      stream = m.stream;
      function = m.function;
      w_bit = m.w_bit;
    } in
    let same : made ≡ b = cc in
    (
      ap (λ (x : MessageBody). (none, x.bytes)) same,
      sym (ap (λ (x : MessageBody). x.stream) same),
      sym (ap (λ (x : MessageBody). x.function) same),
      sym (ap (λ (x : MessageBody). x.w_bit) same),
    )

-- A body that `encode_message_body` makes of a message without variables is decoded by the peer,
-- whatever follows it, to the item of the message, if the values are in the range of their types,
-- and the limits of the peer are values of `size_t` and admit the item; the stream, the function
-- and the W-bit are those of the message.
pub decode_one-encode_message_body :
    (name more : List ℕ) (ctx : RenderContext) (r : Runtime) (m : MessageDef) (b : MessageBody)
    (l : DecodeLimits)
    → get_message name r ≡ some m
    → item_has_var m.item ≡ false
    → HasValues (plain_item m.item)
    → HasSizes l
    → Fits l 0 (record { total_items = 0; total_bytes = 0 }) (plain_item m.item)
    → encode_message_body name ctx r ≡ ok b
    → (decode_one (b.bytes ++ more) l ≡ Run.ok (plain_item m.item, length b.bytes))
      × (b.stream ≡ m.stream)
      × (b.function ≡ m.function)
      × (b.w_bit ≡ m.w_bit)
unfolding encode_message_body message_body rendered_body
decode_one-encode_message_body name more ctx r m b l found closed values sizes fits made =
    let whole : message_body ctx (some m) ≡ ok b = sym (ap (message_body ctx) found) ∙ made in
    let plain : encoded_body m (encode (plain_item m.item) []) ≡ ok b =
      sym (ap (rendered_body m) (render_item-plain_item ctx m.item closed)) ∙ whole in
    let encoded = encoded_body-encode m (encode (plain_item m.item) []) b plain in
    (
      decode_one-encode (plain_item m.item) b.bytes more l encoded.0 values sizes fits,
      encoded.1,
      encoded.2,
      encoded.3,
    )
