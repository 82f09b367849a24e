-- ===== src/Ii/Size.antt =====
-- The lengths and sizes that the encoder of src/ii/codec.cpp computes before it writes.
pub mod Lengths
use secs_lib.Common.{
  ℕ, ◌+◌, ◌-◌, ◌*◌, ◌/◌, ◌||◌, Option, none, some, ltb, ◌==◌, if◌then◌else◌, length,
}
use secs_lib.Common.Outcome.{Result, ok, err, ◌>>=◌}
use secs_lib.Ii.Format.{Errc, length_overflow, FormatCode, max_length, size_max, length_bytes_for}
use secs_lib.Ii.Item.{
  Item, Items, list, ascii, binary, boolean, i1, i2, i4, i8, u1, u2, u4, u8, f4, f8, nil, cons,
  count,
}

unfoldable pub checked_add : ℕ → ℕ → Option ℕ
checked_add a b = if ltb (size_max - a) b then none else some (a + b)

unfoldable pub checked_mul : ℕ → ℕ → Option ℕ
checked_mul a b =
    if a == 0 || b == 0 then some 0 else (if ltb (size_max / b) a then none else some (a * b))

unfoldable pub item_code : Item → FormatCode
item_code (list xs) = FormatCode.list
item_code (ascii s) = FormatCode.ascii
item_code (binary s) = FormatCode.binary
item_code (boolean s) = FormatCode.boolean
item_code (i1 s) = FormatCode.i1
item_code (i2 s) = FormatCode.i2
item_code (i4 s) = FormatCode.i4
item_code (i8 s) = FormatCode.i8
item_code (u1 s) = FormatCode.u1
item_code (u2 s) = FormatCode.u2
item_code (u4 s) = FormatCode.u4
item_code (u8 s) = FormatCode.u8
item_code (f4 s) = FormatCode.f4
item_code (f8 s) = FormatCode.f8

unfoldable pub numeric_payload_length : ℕ → ℕ → Result Errc ℕ
numeric_payload_length n elem_size = elim (checked_mul n elem_size) [
  | none ↦ err length_overflow
  | some bytes ↦ if ltb max_length bytes then err length_overflow else ok bytes
]

-- A length that is no product: `v.size() > kMaxLength` is refused.
unfoldable pub plain_length : ℕ → Result Errc ℕ
plain_length n = if ltb max_length n then err length_overflow else ok n

-- The `length_value` that both `encoded_size_impl` and `encode_item` compute for an item.
unfoldable pub length_value : Item → Result Errc ℕ
unfolding plain_length numeric_payload_length checked_mul
length_value (list xs) = plain_length (count xs)
length_value (ascii s) = plain_length (length s)
length_value (binary s) = plain_length (length s)
length_value (boolean s) = plain_length (length s)
length_value (i1 s) = numeric_payload_length (length s) 1
length_value (i2 s) = numeric_payload_length (length s) 2
length_value (i4 s) = numeric_payload_length (length s) 4
length_value (i8 s) = numeric_payload_length (length s) 8
length_value (u1 s) = numeric_payload_length (length s) 1
length_value (u2 s) = numeric_payload_length (length s) 2
length_value (u4 s) = numeric_payload_length (length s) 4
length_value (u8 s) = numeric_payload_length (length s) 8
length_value (f4 s) = numeric_payload_length (length s) 4
length_value (f8 s) = numeric_payload_length (length s) 8

unfoldable pub checked : Option ℕ → Result Errc ℕ
checked none = err length_overflow
checked (some n) = ok n

-- The end of `encoded_size_impl`: the header's bytes are added to the payload's.
unfoldable pub total_size : ℕ → ℕ → Result Errc ℕ
unfolding checked checked_add length_bytes_for
total_size length_value payload_size =
    checked (checked_add (1 + length_bytes_for length_value) payload_size)

unfoldable mutual
  pub encoded_size_impl : Item → Result Errc ℕ
  encoded_size_impl (list xs) = do
    n ← length_value (list xs)
    payload_size ← children_size xs 0
    total_size n payload_size
  encoded_size_impl leaf = do n ← length_value leaf; total_size n n

  -- The loop over the children, with `payload_size` so far.
  pub children_size : Items → ℕ → Result Errc ℕ
  children_size nil payload_size = ok payload_size
  children_size (cons x xs) payload_size = do
    child_size ← encoded_size_impl x
    next ← checked (checked_add payload_size child_size)
    children_size xs next
