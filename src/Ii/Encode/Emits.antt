-- ===== src/Ii/Encode/Emits.antt =====
-- The encoder writes the prescribed bytes behind what the span holds, or runs out of room.
use secs_lib.Common.{ℕ, ◌≤◌, ◌≡◌, List, [], ◌∷◌, map, arith, ge→ltb, sym, subst}
use secs_lib.Common.Bytes.{be_bytes}
use secs_lib.Common.Int.{ℤ, to_unsigned}
use secs_lib.Ii.Format.{FormatCode, max_length, length_bytes_for}
use secs_lib.Ii.Item.{
  Item, Items, list, ascii, binary, boolean, i1, i2, i4, i8, u1, u2, u4, u8, f4, f8, nil, cons,
}
use secs_lib.Ii.Size.{item_code}
use secs_lib.Ii.Size.Lengths.{length_value_fits, length_bytes_cases, make_format_byte-sum}
use secs_lib.Ii.Writer.{Write, ◌>>◌, write_u8, write_be_u32, write_be_uint}
use secs_lib.Ii.Writer.Emits.{
  Emits, done-Emits, >>-Emits, write_u8-Emits, write_bytes-Emits, write_be_u32-Emits,
  write_be_uint-Emits,
}
use secs_lib.Ii.Encode.{
  bool_byte, write_each, encode_header_and_length, encode_head, encode_payload, encode_children,
  encode_item,
}
use secs_lib.Ii.Wire.{
  concat_map, extent, header_bytes, payload_bytes, children_bytes, wire, Encodable, AllEncodable,
  Encodable-extent,
}

header-Emits :
    (c : FormatCode) (n : ℕ)
    → n ≤ max_length
    → Emits (encode_header_and_length c n) (header_bytes c n)
unfolding encode_header_and_length header_bytes
header-Emits c n h =
    rw (ge→ltb max_length n h, make_format_byte-sum c n)
      (>>-Emits (write_u8 _) (write_be_u32 n _) (_ ∷ []) _ (write_u8-Emits _) (
        write_be_u32-Emits n (length_bytes_for n) (ground (arith, length_bytes_cases n))
          (ground (arith, length_bytes_cases n))))

encode_head_writes :
    (x : Item)
    → extent x ≤ max_length
    → encode_head x ≡ encode_header_and_length (item_code x) (extent x)
unfolding encode_head
encode_head_writes x h = rw (length_value_fits x h, encode_head)

encode_head-Emits :
    (x : Item)
    → extent x ≤ max_length
    → Emits (encode_head x) (header_bytes (item_code x) (extent x))
encode_head-Emits x h =
    subst (λ m. Emits m (header_bytes (item_code x) (extent x))) (sym (encode_head_writes x h))
      (header-Emits (item_code x) (extent x) h)

module _ {ℓ} {A : Type ℓ} (write : A → Write) where
  each-Emits :
      (f : A → List ℕ)
      → ((x : A) → Emits (write x) (f x))
      → (xs : List A) → Emits (write_each write xs) (concat_map f xs)
  unfolding write_each
  each-Emits f h [] = done-Emits
  each-Emits f h (x ∷ xs) =
      >>-Emits (write x) (write_each write xs) (f x) (concat_map f xs) (h x) (each-Emits f h xs)

  each-Emits_one :
      (f : A → ℕ)
      → ((x : A) → Emits (write x) (f x ∷ []))
      → (xs : List A) → Emits (write_each write xs) (map f xs)
  unfolding write_each
  each-Emits_one f h [] = done-Emits
  each-Emits_one f h (x ∷ xs) =
      >>-Emits (write x) (write_each write xs) (f x ∷ []) (map f xs) (h x) (each-Emits_one f h xs)

numbers-Emits :
    (k : ℕ) (xs : List ℕ) → Emits (write_each (write_be_uint k) xs) (concat_map (be_bytes k) xs)
numbers-Emits k = each-Emits (write_be_uint k) (be_bytes k) (write_be_uint-Emits k)

signed-Emits :
    (k m : ℕ) (xs : List ℤ)
    → Emits
        (write_each (λ x. write_be_uint k (to_unsigned m x)) xs)
        (concat_map (λ x. be_bytes k (to_unsigned m x)) xs)
signed-Emits k m =
    each-Emits (λ x. write_be_uint k (to_unsigned m x)) (λ x. be_bytes k (to_unsigned m x))
      (λ x. write_be_uint-Emits k (to_unsigned m x))

bytes-Emits : (s : List ℕ) → Emits (write_each write_u8 s) s
unfolding write_each
bytes-Emits [] = done-Emits
bytes-Emits (x ∷ xs) =
    >>-Emits (write_u8 x) (write_each write_u8 xs) (x ∷ []) xs (write_u8-Emits x) (bytes-Emits xs)

mutual
  unfolding encode_payload payload_bytes extent

  payload-Emits : (x : Item) → Encodable x → Emits (encode_payload x) (payload_bytes x)
  payload-Emits (list xs) h = children-Emits xs h.1
  payload-Emits (ascii s) h = write_bytes-Emits s
  payload-Emits (binary s) h = write_bytes-Emits s
  payload-Emits (boolean s) h =
      each-Emits_one (λ b. write_u8 (bool_byte b)) bool_byte (λ b. write_u8-Emits (bool_byte b)) s
  payload-Emits (i1 s) h =
      each-Emits_one (λ x. write_u8 (to_unsigned 0x100 x)) (to_unsigned 0x100)
        (λ x. write_u8-Emits (to_unsigned 0x100 x)) s
  payload-Emits (i2 s) h = signed-Emits 2 _ s
  payload-Emits (i4 s) h = signed-Emits 4 _ s
  payload-Emits (i8 s) h = signed-Emits 8 _ s
  payload-Emits (u1 s) h = bytes-Emits s
  payload-Emits (u2 s) h = numbers-Emits 2 s
  payload-Emits (u4 s) h = numbers-Emits 4 s
  payload-Emits (u8 s) h = numbers-Emits 8 s
  payload-Emits (f4 s) h = numbers-Emits 4 s
  payload-Emits (f8 s) h = numbers-Emits 8 s

  children-Emits : (xs : Items) → AllEncodable xs → Emits (encode_children xs) (children_bytes xs)
  children-Emits nil h = done-Emits
  children-Emits (cons x xs) h =
      >>-Emits (encode_head x >> encode_payload x) (encode_children xs) _ (children_bytes xs)
        (>>-Emits (encode_head x) (encode_payload x) _ (payload_bytes x)
          (encode_head-Emits x (Encodable-extent x h.0)) (payload-Emits x h.0))
        (children-Emits xs h.1)

-- Into a span of any size `encode_item` writes the prescribed bytes, or reports that it is too
-- small.
pub encode_item-Emits : (x : Item) → Encodable x → Emits (encode_item x) (wire x)
unfolding encode_item wire
encode_item-Emits x h =
    >>-Emits (encode_head x) (encode_payload x) _ _ (encode_head-Emits x (Encodable-extent x h))
      (payload-Emits x h)
