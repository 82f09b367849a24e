-- ===== src/Ii/Decode/Safe.antt =====
-- What `decode_one` ensures on any bytes, well formed or not.
use secs_lib.Common.{
  ℕ, zero, suc, ◌+◌, ◌≤◌, ◌<◌, ◌≡◌, refl, sym, ap, subst, ap₂, ◌∙◌, true, List, arith, length,
  length-append, All, ltb, ltb→ge, Bool-cases, inl, inr,
}
use secs_lib.Common.Bytes.{IsByte}
use secs_lib.Common.Run.{Ensures, Ensures-bind, Ensures-fail_if}
use secs_lib.Ii.Format.{FormatCode, max_length}
use secs_lib.Ii.Item.{Item, Items, list, cons, count}
use secs_lib.Ii.Size.{item_code, checked_add}
use secs_lib.Ii.Encode.Sized.{length-payload_bytes}
use secs_lib.Ii.Wire.{
  extent, header_bytes, payload_bytes, children_bytes, wire, Encodable, AllEncodable,
}
use secs_lib.Ii.Measure.{
  IsLeaf, HasValues, AllHaveValues, nest, nest_all, nodes, nodes_all, volume, volume_all, Within,
  AllWithin,
}
use secs_lib.Ii.Decode.{
  SpanReader, DecodeBudget, DecodeLimits, Head, Decoded, decode_head, decode_scalar, decode_list,
  decode_children, decode_body, decode_item, decode_one, is_list, counted, add_size, read_payload,
  decode_leaf,
}
use secs_lib.Ii.Decode.Ranges.{LeafOf, decode_leaf-Ensures}
use secs_lib.Ii.Decode.Sound.{Past, HeadOf, decode_head-Ensures, read_payload-Ensures}
use secs_lib.Ii.Decode.Budget.{HasSizes, Fits, header_pos}
use secs_lib.Ii.Decode.Bodies.{decode_body_scalar, decode_body_list}

-- The item `x` was read from `r` to `r'`: it is within the limits, it has been charged to the
-- budget, and its own encoding is no longer than what was read.
abbrev pub ItemOf :
    DecodeLimits → ℕ → SpanReader → DecodeBudget → Item × SpanReader × DecodeBudget → Type 0
ItemOf l depth r b (x, r', b') =
    Past (length (wire x)) r r'
    × (b'
        ≡ record { total_items = b.total_items + nodes x; total_bytes = b.total_bytes + volume x })
    × Fits l depth b x
    × Encodable x
    × HasValues x

abbrev ItemsOf :
    DecodeLimits → ℕ → ℕ → SpanReader → DecodeBudget → Items × SpanReader × DecodeBudget → Type 0
ItemsOf l n depth r b (xs, r', b') =
    Past (length (children_bytes xs)) r r'
    × (b' ≡ record {
      total_items = b.total_items + nodes_all xs;
      total_bytes = b.total_bytes + volume_all xs;
    })
    × (depth + nest_all xs ≤ suc l.max_depth)
    × (b.total_items + nodes_all xs ≤ l.max_total_items)
    × (b.total_bytes + volume_all xs ≤ l.max_total_bytes)
    × AllWithin l.max_list_items l.max_payload_bytes xs
    × AllEncodable xs
    × AllHaveValues xs
    × (count xs ≡ n)

-- A leaf as `Fits` and its neighbours see it.
leaf_facts :
    (x : Item)
    → IsLeaf x
    → (nest x ≡ 0)
      × (nodes x ≡ 1)
      × (volume x ≡ extent x)
      × (length (wire x) ≡ length (header_bytes (item_code x) (extent x)) + extent x)
      × ((children bytes : ℕ) → extent x ≤ bytes → Within children bytes x)
      × (extent x ≤ max_length → Encodable x)
unfolding nest nodes volume wire
leaf_facts (list xs) leaf = absurd leaf
leaf_facts x leaf = (
  refl,
  refl,
  refl,
  omega (
    arith,
    length-append (header_bytes (item_code x) (extent x)) (payload_bytes x),
    length-payload_bytes x leaf,
  ),
  λ children bytes h. h,
  λ h. h,
)

counted-Ensures : (a n : ℕ) → Ensures (λ m. m ≡ a + n) (counted (checked_add a n))
unfolding counted checked_add
counted-Ensures a n = ground arith

-- The facts about a leaf, the header before it and the budget together.
scalar-ItemOf :
    (l : DecodeLimits) (depth : ℕ) (r r' : SpanReader) (b : DecodeBudget) (h : Head) (x : Item)
    (payload : List ℕ) (next : ℕ)
    → HeadOf l depth r b h
    → h.extent ≤ l.max_payload_bytes
    → next ≡ h.budget.total_bytes + h.extent
    → next ≤ l.max_total_bytes
    → Past h.extent h.reader r'
    → length payload ≡ h.extent
    → LeafOf h.code payload x
    → ItemOf l depth r b (x, r', record { total_items = h.budget.total_items; total_bytes = next })
scalar-ItemOf l depth r r' b h x payload next head hp e hb past size leaf =
    let facts = leaf_facts x leaf.0 in
    let items = ap (λ t. t.total_items) head.2 in
    let bytes = ap (λ t. t.total_bytes) head.2 in
    let long : extent x ≡ h.extent = leaf.2 ∙ size in
    let header : length (header_bytes (item_code x) (extent x))
        ≡ length (header_bytes h.code h.extent) =
      ap₂ (λ c n. length (header_bytes c n)) leaf.1 long in
    (
      (omega arith, omega arith, past.2),
      ground arith,
      (omega arith, omega arith, ground arith, facts.4 _ _ (omega arith)),
      facts.5 (omega arith),
      leaf.3,
    )

scalar-Ensures :
    (l : DecodeLimits) (depth : ℕ) (r : SpanReader) (b : DecodeBudget) (h : Head)
    → HeadOf l depth r b h
    → Ensures (ItemOf l depth r b) (decode_scalar l h)
unfolding decode_scalar
scalar-Ensures l depth r b h head = Ensures-fail_if _ (ltb l.max_payload_bytes h.extent) _ _ λ long.
    Ensures-bind _ _ (counted (checked_add h.budget.total_bytes h.extent)) _
      (counted-Ensures h.budget.total_bytes h.extent)
      λ next e. Ensures-fail_if _ (ltb l.max_total_bytes next) _ _ λ much.
        Ensures-bind _ _ (read_payload h.extent h.reader) _
          (read_payload-Ensures h.extent h.reader head.4.2)
          λ (payload, r') p.
            Ensures-bind _ _ (decode_leaf h.code payload) _ (decode_leaf-Ensures h.code payload p.2)
              λ x leaf.
                scalar-ItemOf l depth r r' b h x payload next head (ltb→ge _ _ long) e
                  (ltb→ge _ _ much) p.0 p.1 leaf

-- The loop over the children, for a decoder of one child that is sound on what is left.
module _ (l : DecodeLimits) (depth f : ℕ) (decode : SpanReader → DecodeBudget → Decoded Item) where
  abbrev IsSound : Type 0
  IsSound =
      (r : SpanReader) (b : DecodeBudget)
      → All IsByte r.rest
      → length r.rest < f
      → b.total_bytes ≤ l.max_total_bytes
      → Ensures (ItemOf l depth r b) (decode r b)

  cons-ItemsOf :
      (n : ℕ) (r r₁ r₂ : SpanReader) (b b₁ b₂ : DecodeBudget) (x : Item) (xs : Items)
      → ItemOf l depth r b (x, r₁, b₁)
      → ItemsOf l n depth r₁ b₁ (xs, r₂, b₂)
      → ItemsOf l (suc n) depth r b (cons x xs, r₂, b₂)
  unfolding nest nodes volume wire payload_bytes
  cons-ItemsOf n r r₁ r₂ b b₁ b₂ x xs first others =
      let items = ap (λ t. t.total_items) first.1 in
      let bytes = ap (λ t. t.total_bytes) first.1 in
      let size = length-append (wire x) (children_bytes xs) in
      (
        (omega (arith, size), omega arith, others.0.2),
        ground arith,
        omega arith,
        omega arith,
        omega arith,
        (first.2.3, others.5),
        (first.3, others.6),
        (first.4, others.7),
        omega arith,
      )

  children-Ensures :
      (n : ℕ) (r : SpanReader) (b : DecodeBudget)
      → IsSound
      → All IsByte r.rest
      → length r.rest < f
      → depth ≤ suc l.max_depth
      → b.total_items ≤ l.max_total_items
      → b.total_bytes ≤ l.max_total_bytes
      → Ensures (ItemsOf l n depth r b) (decode_children decode n r b)
  unfolding decode_children nest nodes volume payload_bytes
  children-Ensures zero r b sound h hf hd hi hb = (
    (omega arith, refl, h),
    ground arith,
    omega arith,
    omega arith,
    omega arith,
    tt,
    tt,
    tt,
    refl,
  )
  children-Ensures (suc n) r b sound h hf hd hi hb =
      Ensures-bind _ _ (decode r b) _ (sound r b h hf hb) λ (x, r₁, b₁) p.
        Ensures-bind _ _ (decode_children decode n r₁ b₁) _
          (children-Ensures n r₁ b₁ sound p.0.2 (omega (arith, p.0)) hd
            (omega (arith, ap (λ t. t.total_items) p.1))
            (omega (arith, ap (λ t. t.total_bytes) p.1)))
          λ (xs, r₂, b₂) q. cons-ItemsOf n r r₁ r₂ b b₁ b₂ x xs p q

is_list→eq : (c : FormatCode) → is_list c ≡ true → c ≡ FormatCode.list
unfolding is_list
is_list→eq c h = ground arith

list-ItemOf :
    (l : DecodeLimits) (depth : ℕ) (r r' : SpanReader) (b b' : DecodeBudget) (h : Head) (xs : Items)
    → HeadOf l depth r b h
    → is_list h.code ≡ true
    → h.extent ≤ l.max_list_items
    → ItemsOf l h.extent (depth + 1) h.reader h.budget (xs, r', b')
    → ItemOf l depth r b (list xs, r', b')
unfolding nest nodes volume wire payload_bytes extent item_code is_list
list-ItemOf l depth r r' b b' h xs head code hl inner =
    let items = ap (λ t. t.total_items) head.2 in
    let bytes = ap (λ t. t.total_bytes) head.2 in
    let size = length-append (header_bytes FormatCode.list (count xs)) (children_bytes xs) in
    let header : length (header_bytes FormatCode.list (count xs))
        ≡ length (header_bytes h.code h.extent) =
      ap₂ (λ c n. length (header_bytes c n)) (sym (is_list→eq h.code code)) inner.8 in
    (
      (omega (arith, size), omega arith, inner.0.2),
      ground arith,
      (omega arith, omega arith, omega arith, (omega arith, inner.5)),
      (omega arith, inner.6),
      inner.7,
    )

list-Ensures :
    (l : DecodeLimits) (depth f : ℕ) (decode : SpanReader → DecodeBudget → Decoded Item)
    (r : SpanReader) (b : DecodeBudget) (h : Head)
    → HeadOf l depth r b h
    → is_list h.code ≡ true
    → IsSound l (depth + 1) f decode
    → length h.reader.rest < f
    → b.total_bytes ≤ l.max_total_bytes
    → Ensures (ItemOf l depth r b) (decode_list decode l h)
unfolding decode_list
list-Ensures l depth f decode r b h head code sound hf hb =
    Ensures-fail_if _ (ltb l.max_list_items h.extent) _ _ λ long.
      Ensures-fail_if _ (ltb l.max_total_items (add_size h.budget.total_items h.extent)) _ _ λ many.
        Ensures-bind _ _ (decode_children decode h.extent h.reader h.budget) _
          (children-Ensures l (depth + 1) f decode h.extent h.reader h.budget sound head.4.2 hf
            (omega arith) (omega (arith, ap (λ t. t.total_items) head.2))
            (omega (arith, ap (λ t. t.total_bytes) head.2)))
          λ (xs, r', b') inner. list-ItemOf l depth r r' b b' h xs head code (ltb→ge _ _ long) inner

module _ (l : DecodeLimits) (sizes : HasSizes l) where
  body-Ensures :
      (depth f : ℕ) (decode : SpanReader → DecodeBudget → Decoded Item) (r : SpanReader)
      (b : DecodeBudget) (h : Head)
      → HeadOf l depth r b h
      → IsSound l (depth + 1) f decode
      → length h.reader.rest < f
      → b.total_bytes ≤ l.max_total_bytes
      → Ensures (ItemOf l depth r b) (decode_body decode l h)
  body-Ensures depth f decode r b h head sound hf hb = elim (Bool-cases (is_list h.code)) [
    | inl e ↦
        rw (decode_body_list decode l h e) (list-Ensures l depth f decode r b h head e sound hf hb)
    | inr e ↦ rw (decode_body_scalar decode l h e) (scalar-Ensures l depth r b h head)
  ]

  item-Ensures :
      (f depth : ℕ) (r : SpanReader) (b : DecodeBudget)
      → All IsByte r.rest
      → length r.rest < f
      → b.total_bytes ≤ l.max_total_bytes
      → Ensures (ItemOf l depth r b) (decode_item f l depth r b)
  unfolding decode_item
  item-Ensures zero depth r b h hf hb = absurd (omega arith)
  item-Ensures (suc f) depth r b h hf hb =
      Ensures-bind _ _ (decode_head l depth r b) _ (decode_head-Ensures l depth r b sizes.1 h)
        λ head p.
          body-Ensures depth f (decode_item f l (add_size depth 1)) r b head p
            (λ r' b' h' hf' hb'.
              let e : depth + 1 ≡ add_size depth 1 = omega arith in
              subst (λ d. Ensures (ItemOf l d r' b') (decode_item f l (add_size depth 1) r' b'))
                (sym e) (item-Ensures f (add_size depth 1) r' b' h' hf' hb'))
            (omega (arith, p.4, header_pos head.code head.extent)) hb

-- On any bytes, and for any limits that are values of `size_t`, `decode_one` returns. Where it
-- gives an item, the item lies within all limits, its values are in range, it can be encoded, and
-- that takes no more bytes than were consumed, which are no more than there were.
pub decode_one-Ensures :
    (bytes : List ℕ) (l : DecodeLimits)
    → All IsByte bytes
    → HasSizes l
    → Ensures
        (λ (x, consumed).
          Fits l 0 (record { total_items = 0; total_bytes = 0 }) x
          × HasValues x
          × Encodable x
          × (length (wire x) ≤ consumed)
          × (consumed ≤ length bytes))
        (decode_one bytes l)
unfolding decode_one
decode_one-Ensures bytes l h sizes =
    Ensures-bind _ _
      (decode_item (suc (length bytes)) l 0 (record { rest = bytes; pos = 0 })
        (record { total_items = 0; total_bytes = 0 }))
      _
      (item-Ensures l sizes (suc (length bytes)) 0 (record { rest = bytes; pos = 0 })
        (record { total_items = 0; total_bytes = 0 }) h (omega arith) (omega arith))
      λ (x, r, b) p. (p.2, p.4, p.3, omega (arith, p.0), omega (arith, p.0))
