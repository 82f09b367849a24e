-- ===== src/Ii/Decode/Bodies.antt =====
-- The body of an item, a scalar or a list, as `decode_body` of src/ii/codec.cpp reads it.
use secs_lib.Common.{ℕ, ◌+◌, ◌^◌, ◌≤◌, ◌<◌, ◌≡◌, sym, true, false, List, ◌++◌, arith}
use secs_lib.Common.Run.{ok}
use secs_lib.Ii.Item.{Item, Items, list}
use secs_lib.Ii.Size.{item_code}
use secs_lib.Ii.Encode.Sized.{length-payload_bytes}
use secs_lib.Ii.Wire.{extent, payload_bytes}
use secs_lib.Ii.Measure.{IsLeaf, HasValues}
use secs_lib.Ii.Decode.{
  SpanReader, DecodeBudget, DecodeLimits, Head, Decoded, decode_scalar, decode_list,
  decode_children, decode_body, is_list,
}
use secs_lib.Ii.Decode.Values.{decode_leaf-payload_bytes}
use secs_lib.Ii.Decode.Header.{read_payload-append}
use secs_lib.Ii.Decode.Budget.{HasSizes, reader}

module _ (l : DecodeLimits) (more : List ℕ) (pos : ℕ) (b : DecodeBudget) where
  pub scalar-decode :
      (x : Item)
      → IsLeaf x
      → HasValues x
      → HasSizes l
      → extent x ≤ l.max_payload_bytes
      → b.total_bytes + extent x ≤ l.max_total_bytes
      → decode_scalar l (record {
        code = item_code x;
        extent = extent x;
        reader = reader (payload_bytes x ++ more) pos;
        budget = b;
      })
        ≡ ok (
          x,
          reader more (pos + extent x),
          record { total_items = b.total_items; total_bytes = b.total_bytes + extent x },
        )
  unfolding decode_scalar
  scalar-decode x leaf vals sizes hp hb = ground (
    arith,
    read_payload-append (payload_bytes x) more (extent x) pos (sym (length-payload_bytes x leaf)),
    decode_leaf-payload_bytes x leaf vals,
  )

pub decode_body_scalar :
    (decode : SpanReader → DecodeBudget → Decoded Item) (l : DecodeLimits) (h : Head)
    → is_list h.code ≡ false
    → decode_body decode l h ≡ decode_scalar l h
unfolding decode_body
decode_body_scalar decode l h e = ground arith

pub decode_body_list :
    (decode : SpanReader → DecodeBudget → Decoded Item) (l : DecodeLimits) (h : Head)
    → is_list h.code ≡ true
    → decode_body decode l h ≡ decode_list decode l h
unfolding decode_body
decode_body_list decode l h e = ground arith

pub decode_list_children :
    (decode : SpanReader → DecodeBudget → Decoded Item) (l : DecodeLimits) (xs : Items) (h : Head)
    {r : SpanReader} {b : DecodeBudget}
    → h.extent ≤ l.max_list_items
    → h.budget.total_items + h.extent ≤ l.max_total_items
    → l.max_total_items < 2 ^ 64
    → decode_children decode h.extent h.reader h.budget ≡ ok (xs, r, b)
    → decode_list decode l h ≡ ok (list xs, r, b)
unfolding decode_list
decode_list_children decode l xs h hl hi hm e = ground arith
