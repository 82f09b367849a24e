-- ===== src/Ii/Decode/RoundTrip.antt =====
-- What `encode` writes, `decode_one` reads back.
use secs_lib.Common.{
  ℕ, zero, suc, ◌+◌, ◌≤◌, ◌<◌, ◌≡◌, refl, ◌∙◌, false, List, ◌++◌, arith, length, length-append,
  append_assoc,
}
use secs_lib.Common.Run.{ok}
use secs_lib.Ii.Item.{
  Item, Items, list, ascii, binary, boolean, i1, i2, i4, i8, u1, u2, u4, u8, f4, f8, nil, cons,
  count,
}
use secs_lib.Ii.Size.{item_code}
use secs_lib.Ii.Encode.Sized.{length-payload_bytes}
use secs_lib.Ii.Wire.{
  extent, header_bytes, payload_bytes, children_bytes, wire, Encodable, AllEncodable,
  Encodable-extent,
}
use secs_lib.Ii.Measure.{
  IsLeaf, HasValues, AllHaveValues, nest, nest_all, nodes, nodes_all, volume, volume_all,
}
use secs_lib.Ii.Decode.{
  SpanReader, DecodeBudget, DecodeLimits, Decoded, decode_children, decode_body, decode_item,
  decode_one, is_list, add_size,
}
use secs_lib.Ii.Decode.Header.{decode_head-header_bytes}
use secs_lib.Ii.Decode.Budget.{
  HasSizes, Fits, AllFit, spend, opened, reader, length-wire_parts, count-le-nodes, nest-lt-wire,
}
use secs_lib.Ii.Decode.Bodies.{
  scalar-decode, decode_body_scalar, decode_body_list, decode_list_children,
}

module _ (l : DecodeLimits) (sizes : HasSizes l) (depth : ℕ) (more : List ℕ) (pos : ℕ)
    (b : DecodeBudget) where
  -- The header of `x` is read; what follows is decided by its code.
  item-decode_body :
      (x : Item) (f : ℕ)
      → Encodable x
      → depth ≤ l.max_depth
      → b.total_items < l.max_total_items
      → decode_item (suc f) l depth (reader (wire x ++ more) pos) b
        ≡ decode_body (decode_item f l (add_size depth 1)) l (record {
          code = item_code x;
          extent = extent x;
          reader =
              reader
                (payload_bytes x ++ more)
                (pos + length (header_bytes (item_code x) (extent x)));
          budget = record { total_items = b.total_items + 1; total_bytes = b.total_bytes };
        })
  unfolding decode_item wire
  item-decode_body x f enc hd hi = rw (
    append_assoc (header_bytes (item_code x) (extent x)) (payload_bytes x) more,
    decode_head-header_bytes l depth pos b (item_code x) (extent x) (payload_bytes x ++ more) hd hi
        sizes.1 (Encodable-extent x enc),
  )

  -- The outcome that the round trip promises of `x`.
  abbrev ReadsBack : ℕ → Item → Type 0
  ReadsBack f x =
      decode_item f l depth (reader (wire x ++ more) pos) b
      ≡ ok (x, reader more (pos + length (wire x)), spend b (nodes x) (volume x))

  leaf-decode :
      (x : Item) (f : ℕ)
      → IsLeaf x
      → is_list (item_code x) ≡ false
      → nodes x ≡ 1
      → volume x ≡ extent x
      → Encodable x
      → HasValues x
      → extent x ≤ l.max_payload_bytes
      → Fits l depth b x
      → 0 < f
      → ReadsBack f x
  leaf-decode x zero leaf e n v enc vals hp fits hf = absurd (omega arith)
  leaf-decode x (suc f) leaf e n v enc vals hp fits hf =
      item-decode_body x f enc (omega arith) (omega arith)
      ∙ decode_body_scalar (decode_item f l (add_size depth 1)) l _ e
      ∙ scalar-decode l more (pos + length (header_bytes (item_code x) (extent x)))
          (record { total_items = b.total_items + 1; total_bytes = b.total_bytes }) x leaf vals
          sizes hp (omega arith)
      ∙ ground (arith, length-wire_parts x, length-payload_bytes x leaf)

  -- A list whose children are read back is read back.
  list-decode :
      (xs : Items) (f : ℕ)
      → Encodable (list xs)
      → Fits l depth b (list xs)
      → let start = pos + length (header_bytes (item_code (list xs)) (extent (list xs))) in
        decode_children
            (decode_item f l (add_size depth 1))
            (count xs)
            (reader (children_bytes xs ++ more) start)
            (opened b)
          ≡ ok (
            xs,
            reader more (start + length (children_bytes xs)),
            spend (opened b) (nodes_all xs) (volume_all xs),
          )
        → ReadsBack (suc f) (list xs)
  unfolding nodes nest volume extent item_code is_list payload_bytes
  list-decode xs f enc fits children =
      item-decode_body (list xs) f enc (omega arith) (omega arith)
      ∙ decode_body_list (decode_item f l (add_size depth 1)) l _ refl
      ∙ decode_list_children (decode_item f l (add_size depth 1)) l xs _ (omega arith)
          (omega (arith, count-le-nodes xs)) sizes.1 children
      ∙ ground (arith, length-wire_parts (list xs))

pub decode_children_end :
    (decode : SpanReader → DecodeBudget → Decoded Item) (r : SpanReader) (b : DecodeBudget)
    → decode_children decode 0 r b ≡ ok (nil, r, b)
unfolding decode_children
decode_children_end decode r b = refl

module _ (l : DecodeLimits) (sizes : HasSizes l) where
  -- One child, then the others: the loop goes on where the child ended.
  child-decode :
      (decode : SpanReader → DecodeBudget → Decoded Item) (x : Item) (xs : Items) (more : List ℕ)
      (pos : ℕ) (b : DecodeBudget)
      → decode (reader (wire x ++ (children_bytes xs ++ more)) pos) b
        ≡ ok (
          x,
          reader (children_bytes xs ++ more) (pos + length (wire x)),
          spend b (nodes x) (volume x),
        )
      → decode_children decode
          (count xs)
          (reader (children_bytes xs ++ more) (pos + length (wire x)))
          (spend b (nodes x) (volume x))
        ≡ ok (
          xs,
          reader more (pos + length (wire x) + length (children_bytes xs)),
          spend (spend b (nodes x) (volume x)) (nodes_all xs) (volume_all xs),
        )
      → decode_children decode
          (suc (count xs))
          (reader ((wire x ++ children_bytes xs) ++ more) pos)
          b
        ≡ ok (
          cons x xs,
          reader more (pos + length (wire x ++ children_bytes xs)),
          spend b (nodes x + nodes_all xs) (volume x + volume_all xs),
        )
  unfolding decode_children
  child-decode decode x xs more pos b first others =
      rw (append_assoc (wire x) (children_bytes xs) more, first, others)
        (ground (arith, length-append (wire x) (children_bytes xs)))

  mutual
    unfolding nest nodes volume item_code is_list wire payload_bytes extent

    item-decode :
        (x : Item) (f depth pos : ℕ) (more : List ℕ) (b : DecodeBudget)
        → Encodable x
        → HasValues x
        → Fits l depth b x
        → nest x < f
        → ReadsBack l sizes depth more pos b f x
    item-decode (list xs) zero depth pos more b enc vals fits hf = absurd (omega arith)
    item-decode (list xs) (suc f) depth pos more b enc vals fits hf =
        list-decode l sizes depth more pos b xs f enc fits (
          children-decode xs f (add_size depth 1) _ more (opened b) enc.1 vals
            (omega arith, omega arith, omega arith, fits.3.1) (omega arith))
    item-decode (ascii s) f depth pos more b enc vals fits hf =
        leaf-decode l sizes depth more pos b (ascii s) f tt refl refl refl enc vals fits.3 fits hf
    item-decode (binary s) f depth pos more b enc vals fits hf =
        leaf-decode l sizes depth more pos b (binary s) f tt refl refl refl enc vals fits.3 fits hf
    item-decode (boolean s) f depth pos more b enc vals fits hf =
        leaf-decode l sizes depth more pos b (boolean s) f tt refl refl refl enc vals fits.3 fits hf
    item-decode (i1 s) f depth pos more b enc vals fits hf =
        leaf-decode l sizes depth more pos b (i1 s) f tt refl refl refl enc vals fits.3 fits hf
    item-decode (i2 s) f depth pos more b enc vals fits hf =
        leaf-decode l sizes depth more pos b (i2 s) f tt refl refl refl enc vals fits.3 fits hf
    item-decode (i4 s) f depth pos more b enc vals fits hf =
        leaf-decode l sizes depth more pos b (i4 s) f tt refl refl refl enc vals fits.3 fits hf
    item-decode (i8 s) f depth pos more b enc vals fits hf =
        leaf-decode l sizes depth more pos b (i8 s) f tt refl refl refl enc vals fits.3 fits hf
    item-decode (u1 s) f depth pos more b enc vals fits hf =
        leaf-decode l sizes depth more pos b (u1 s) f tt refl refl refl enc vals fits.3 fits hf
    item-decode (u2 s) f depth pos more b enc vals fits hf =
        leaf-decode l sizes depth more pos b (u2 s) f tt refl refl refl enc vals fits.3 fits hf
    item-decode (u4 s) f depth pos more b enc vals fits hf =
        leaf-decode l sizes depth more pos b (u4 s) f tt refl refl refl enc vals fits.3 fits hf
    item-decode (u8 s) f depth pos more b enc vals fits hf =
        leaf-decode l sizes depth more pos b (u8 s) f tt refl refl refl enc vals fits.3 fits hf
    item-decode (f4 s) f depth pos more b enc vals fits hf =
        leaf-decode l sizes depth more pos b (f4 s) f tt refl refl refl enc vals fits.3 fits hf
    item-decode (f8 s) f depth pos more b enc vals fits hf =
        leaf-decode l sizes depth more pos b (f8 s) f tt refl refl refl enc vals fits.3 fits hf

    children-decode :
        (xs : Items) (f depth pos : ℕ) (more : List ℕ) (b : DecodeBudget)
        → AllEncodable xs
        → AllHaveValues xs
        → AllFit l depth b xs
        → nest_all xs ≤ f
        → decode_children
            (decode_item f l depth)
            (count xs)
            (reader (children_bytes xs ++ more) pos)
            b
          ≡ ok (
            xs,
            reader more (pos + length (children_bytes xs)),
            spend b (nodes_all xs) (volume_all xs),
          )
    children-decode nil f depth pos more b enc vals fits hf =
        decode_children_end (decode_item f l depth) (reader more pos) b ∙ ground arith
    children-decode (cons x xs) f depth pos more b enc vals fits hf =
        child-decode (decode_item f l depth) x xs more pos b
          (item-decode x f depth pos (children_bytes xs ++ more) b enc.0 vals.0
            (omega arith, omega arith, omega arith, fits.3.0) (omega arith))
          (children-decode xs f depth _ more (spend b (nodes x) (volume x)) enc.1 vals.1
            (omega arith, omega arith, omega arith, fits.3.1) (omega arith))

-- What `encode` appends for an item whose values are in range, `decode_one` reads back from the
-- front of any input, and it consumes exactly those bytes, if the limits admit the item.
pub decode_one-wire :
    (x : Item) (more : List ℕ) (l : DecodeLimits)
    → Encodable x
    → HasValues x
    → HasSizes l
    → Fits l 0 (record { total_items = 0; total_bytes = 0 }) x
    → decode_one (wire x ++ more) l ≡ ok (x, length (wire x))
unfolding decode_one
decode_one-wire x more l enc vals sizes fits =
    let whole =
      item-decode l sizes x (suc (length (wire x ++ more))) 0 0 more
        (record { total_items = 0; total_bytes = 0 }) enc vals fits
        (omega (arith, nest-lt-wire x, length-append (wire x) more)) in
    ground (arith, whole)
