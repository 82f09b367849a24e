-- ===== src/Ii/Decode.antt =====
-- The decoder of src/ii/codec.cpp. Allocation is taken to succeed.
pub mod Values
pub mod Header
pub mod Budget
pub mod Bodies
pub mod RoundTrip
pub mod Ranges
pub mod Sound
pub mod Safe
use secs_lib.Common.{
  ℕ, zero, suc, ◌+◌, ◌*◌, ◌/◌, ◌%◌, ◌^◌, Bool, true, false, not, ◌||◌, Option, none, some, List, [],
  ◌∷◌, map, ltb, leb, ◌==◌, if◌then◌else◌, length, take, drop,
}
use secs_lib.Common.Int.{to_signed}
use secs_lib.Common.Run.{Run, ok, err, stuck, ◌>>=◌, ◌>>◌, fail_if}
use secs_lib.Ii.Format.{
  Errc, truncated, invalid_header, invalid_format, length_overflow, length_mismatch, list_too_large,
  payload_too_large, total_budget_exceeded, FormatCode, format_code_from_bits, max_length,
}
use secs_lib.Ii.Item.{
  Item, Items, list, ascii, binary, boolean, i1, i2, i4, i8, u1, u2, u4, u8, f4, f8, nil, cons,
}
use secs_lib.Ii.Size.{checked_add}

-- `SpanReader`: what `in_` holds from `pos_` on, and `pos_`.
pub record SpanReader : Type 0 where
  pub rest : List ℕ
  pub pos : ℕ

pub record DecodeBudget : Type 0 where
  pub total_items : ℕ
  pub total_bytes : ℕ

pub record DecodeLimits : Type 0 where
  pub max_depth : ℕ
  pub max_list_items : ℕ
  pub max_payload_bytes : ℕ
  pub max_total_items : ℕ
  pub max_total_bytes : ℕ

abbrev pub default_limits : DecodeLimits
default_limits = record {
  max_depth = 64;
  max_list_items = 65_535;
  max_payload_bytes = 4 * 1024 * 1024;
  max_total_items = 1024 * 1024;
  max_total_bytes = 64 * 1024 * 1024;
}

-- `size_t` addition.
abbrev pub add_size : ℕ → ℕ → ℕ
add_size a b = (a + b) % 2 ^ 64

unfoldable pub read_u8 : SpanReader → Run Errc (ℕ × SpanReader)
read_u8 r = elim (r.rest) [
  | [] ↦ err truncated
  | b ∷ bs ↦ ok (b, record { rest = bs; pos = r.pos + 1 })
]

-- `v = (v << 8) | b` for each byte, in an unsigned type with `m` values.
unfoldable pub shift_in : ℕ → ℕ → List ℕ → ℕ
shift_in m v [] = v
shift_in m v (b ∷ bs) = shift_in m ((v * 256 + b) % m) bs

unfoldable pub advance : ℕ → SpanReader → SpanReader
advance n r = record { rest = drop n r.rest; pos = r.pos + n }

unfoldable pub read_be_u32 : ℕ → SpanReader → Run Errc (ℕ × SpanReader)
unfolding advance
read_be_u32 bytes r =
    if ltb bytes 1 || ltb 3 bytes
    then err invalid_header
    else (if ltb (length r.rest) bytes
        then err truncated
        else ok (shift_in (2 ^ 32) 0 (take bytes r.rest), advance bytes r))

unfoldable pub read_payload : ℕ → SpanReader → Run Errc (List ℕ × SpanReader)
unfolding advance
read_payload n r = if ltb (length r.rest) n then err truncated else ok (take n r.rest, advance n r)

-- The loop of the vector decoders: `n` values of `w` bytes each from the front of what is left.
unfoldable pub read_values : ℕ → ℕ → List ℕ → List ℕ
unfolding shift_in
read_values w zero bytes = []
read_values w (suc n) bytes = shift_in (256 ^ w) 0 (take w bytes) ∷ read_values w n (drop w bytes)

unfoldable pub decode_unsigned_vector : ℕ → List ℕ → Run Errc (List ℕ)
unfolding read_values
decode_unsigned_vector w payload =
    if not (length payload % w == 0)
    then err length_mismatch
    else ok (read_values w (length payload / w) payload)

unfoldable pub not_zero : ℕ → Bool
not_zero b = not (b == 0)

-- The `switch` over the format code of an item that is no list.
unfoldable pub decode_leaf : FormatCode → List ℕ → Run Errc Item
unfolding decode_unsigned_vector not_zero
decode_leaf FormatCode.ascii payload = ok (ascii payload)
decode_leaf FormatCode.binary payload = ok (binary payload)
decode_leaf FormatCode.boolean payload = ok (boolean (map not_zero payload))
decode_leaf FormatCode.i1 payload = do
  v ← decode_unsigned_vector 1 payload
  ok (i1 (map (to_signed 0x100) v))
decode_leaf FormatCode.u1 payload = ok (u1 payload)
decode_leaf FormatCode.i2 payload = do
  v ← decode_unsigned_vector 2 payload
  ok (i2 (map (to_signed 0x1_0000) v))
decode_leaf FormatCode.u2 payload = do v ← decode_unsigned_vector 2 payload; ok (u2 v)
decode_leaf FormatCode.i4 payload = do
  v ← decode_unsigned_vector 4 payload
  ok (i4 (map (to_signed 0x1_0000_0000) v))
decode_leaf FormatCode.u4 payload = do v ← decode_unsigned_vector 4 payload; ok (u4 v)
decode_leaf FormatCode.i8 payload = do
  v ← decode_unsigned_vector 8 payload
  ok (i8 (map (to_signed 0x1_0000_0000_0000_0000) v))
decode_leaf FormatCode.u8 payload = do v ← decode_unsigned_vector 8 payload; ok (u8 v)
decode_leaf FormatCode.f4 payload = do v ← decode_unsigned_vector 4 payload; ok (f4 v)
decode_leaf FormatCode.f8 payload = do v ← decode_unsigned_vector 8 payload; ok (f8 v)
decode_leaf FormatCode.list payload = err invalid_format

-- What follows a header: the format code, the value of the length field, and the states.
pub record Head : Type 0 where
  pub code : FormatCode
  pub extent : ℕ
  pub reader : SpanReader
  pub budget : DecodeBudget

unfoldable pub known_format : Option FormatCode → Run Errc FormatCode
known_format none = err invalid_format
known_format (some code) = ok code

-- `decode_item` up to the branch on the format code.
unfoldable pub decode_head : DecodeLimits → ℕ → SpanReader → DecodeBudget → Run Errc Head
unfolding read_u8 read_be_u32 known_format
decode_head limits depth r budget = do
  fail_if (ltb limits.max_depth depth) invalid_header
  fail_if (leb limits.max_total_items budget.total_items) total_budget_exceeded
  (format_byte, r₁) ← read_u8 r
  fail_if (format_byte % 4 == 0 || ltb 3 (format_byte % 4)) invalid_header
  (n, r₂) ← read_be_u32 (format_byte % 4) r₁
  fail_if (ltb max_length n) length_overflow
  code ← known_format (format_code_from_bits (format_byte / 4))
  ok (record {
    code = code;
    extent = n;
    reader = r₂;
    budget = record budget { total_items = add_size budget.total_items 1 };
  })

abbrev pub Decoded : Type 0 → Type 0
Decoded A = Run Errc (A × SpanReader × DecodeBudget)

-- The loop over the children, with `n` of them still to come.
unfoldable pub decode_children :
    (SpanReader → DecodeBudget → Decoded Item) → ℕ → SpanReader → DecodeBudget → Decoded Items
decode_children decode zero r budget = ok (nil, r, budget)
decode_children decode (suc n) r budget = do
  (x, r₁, budget₁) ← decode r budget
  (xs, r₂, budget₂) ← decode_children decode n r₁ budget₁
  ok (cons x xs, r₂, budget₂)

unfoldable pub decode_list :
    (SpanReader → DecodeBudget → Decoded Item) → DecodeLimits → Head → Decoded Item
unfolding decode_children
decode_list decode limits h = do
  fail_if (ltb limits.max_list_items h.extent) list_too_large
  fail_if (ltb limits.max_total_items (add_size h.budget.total_items h.extent))
      total_budget_exceeded
  (xs, r, budget) ← decode_children decode h.extent h.reader h.budget
  ok (list xs, r, budget)

unfoldable pub counted : Option ℕ → Run Errc ℕ
counted none = err total_budget_exceeded
counted (some n) = ok n

unfoldable pub decode_scalar : DecodeLimits → Head → Decoded Item
unfolding counted checked_add read_payload decode_leaf
decode_scalar limits h = do
  fail_if (ltb limits.max_payload_bytes h.extent) payload_too_large
  next_total_bytes ← counted (checked_add h.budget.total_bytes h.extent)
  fail_if (ltb limits.max_total_bytes next_total_bytes) total_budget_exceeded
  (payload, r) ← read_payload h.extent h.reader
  x ← decode_leaf h.code payload
  ok (x, r, record { total_items = h.budget.total_items; total_bytes = next_total_bytes })

unfoldable pub is_list : FormatCode → Bool
is_list FormatCode.list = true
is_list _ = false

unfoldable pub decode_body :
    (SpanReader → DecodeBudget → Decoded Item) → DecodeLimits → Head → Decoded Item
unfolding is_list decode_list decode_scalar
decode_body decode limits h = elim (is_list h.code) [
  | true ↦ decode_list decode limits h
  | false ↦ decode_scalar limits h
]

-- The recursion is on fuel: a call for a child is made behind the two bytes of a header at least.
unfoldable pub decode_item : ℕ → DecodeLimits → ℕ → SpanReader → DecodeBudget → Decoded Item
unfolding decode_head decode_body
decode_item zero limits depth r budget = stuck
decode_item (suc fuel) limits depth r budget = do
  h ← decode_head limits depth r budget
  decode_body (decode_item fuel limits (add_size depth 1)) limits h

-- `decode_one`: the item and `consumed`.
unfoldable pub decode_one : List ℕ → DecodeLimits → Run Errc (Item × ℕ)
unfolding decode_item
decode_one bytes limits = do
  (x, r, budget) ←
      decode_item (suc (length bytes)) limits 0 (record { rest = bytes; pos = 0 })
        (record { total_items = 0; total_bytes = 0 })
  ok (x, r.pos)
