-- ===== src/Ii/Wire.antt =====
-- The encoding that SEMI E5 prescribes, as the comment at the head of src/ii/codec.cpp states it:
-- a format byte, a length of one to three bytes, and the payload, big-endian.
use secs_lib.Common.{ℕ, ◌+◌, ◌*◌, ◌≤◌, List, [], ◌∷◌, ◌++◌, map, length}
use secs_lib.Common.Bytes.{be_bytes}
use secs_lib.Common.Int.{to_unsigned}
use secs_lib.Ii.Format.{FormatCode, code_bits, max_length, length_bytes_for}
use secs_lib.Ii.Item.{
  Item, Items, list, ascii, binary, boolean, i1, i2, i4, i8, u1, u2, u4, u8, f4, f8, nil, cons,
  count,
}
use secs_lib.Ii.Size.{item_code}
use secs_lib.Ii.Encode.{bool_byte}

abbrev pub concat_map {ℓ} : {A : Type ℓ} → (A → List ℕ) → List A → List ℕ
concat_map f [] = []
concat_map f (x ∷ xs) = f x ++ concat_map f xs

-- The value of the length field: children of a list, payload bytes of any other item.
unfoldable pub extent : Item → ℕ
extent (list xs) = count xs
extent (ascii s) = length s
extent (binary s) = length s
extent (boolean s) = length s
extent (i1 s) = length s
extent (i2 s) = length s * 2
extent (i4 s) = length s * 4
extent (i8 s) = length s * 8
extent (u1 s) = length s
extent (u2 s) = length s * 2
extent (u4 s) = length s * 4
extent (u8 s) = length s * 8
extent (f4 s) = length s * 4
extent (f8 s) = length s * 8

unfoldable pub header_bytes : FormatCode → ℕ → List ℕ
header_bytes c n = (code_bits c * 4 + length_bytes_for n) ∷ be_bytes (length_bytes_for n) n

unfoldable mutual
  pub payload_bytes : Item → List ℕ
  payload_bytes (list xs) = children_bytes xs
  payload_bytes (ascii s) = s
  payload_bytes (binary s) = s
  payload_bytes (boolean s) = map bool_byte s
  payload_bytes (i1 s) = map (to_unsigned 0x100) s
  payload_bytes (i2 s) = concat_map (λ x. be_bytes 2 (to_unsigned 0x1_0000 x)) s
  payload_bytes (i4 s) = concat_map (λ x. be_bytes 4 (to_unsigned 0x1_0000_0000 x)) s
  payload_bytes (i8 s) = concat_map (λ x. be_bytes 8 (to_unsigned 0x1_0000_0000_0000_0000 x)) s
  payload_bytes (u1 s) = s
  payload_bytes (u2 s) = concat_map (be_bytes 2) s
  payload_bytes (u4 s) = concat_map (be_bytes 4) s
  payload_bytes (u8 s) = concat_map (be_bytes 8) s
  payload_bytes (f4 s) = concat_map (be_bytes 4) s
  payload_bytes (f8 s) = concat_map (be_bytes 8) s

  pub children_bytes : Items → List ℕ
  children_bytes nil = []
  children_bytes (cons x xs) =
      (header_bytes (item_code x) (extent x) ++ payload_bytes x) ++ children_bytes xs

unfoldable pub wire : Item → List ℕ
wire x = header_bytes (item_code x) (extent x) ++ payload_bytes x

-- No length field of the item needs more than three bytes.
abbrev mutual
  pub Encodable : Item → Type 0
  Encodable (list xs) = (count xs ≤ max_length) × AllEncodable xs
  Encodable x = extent x ≤ max_length

  pub AllEncodable : Items → Type 0
  AllEncodable nil = Unit
  AllEncodable (cons x xs) = Encodable x × AllEncodable xs

pub Encodable-extent : (x : Item) → Encodable x → extent x ≤ max_length
unfolding extent
Encodable-extent (list xs) h = h.0
Encodable-extent _ h = h
