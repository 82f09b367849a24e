-- ===== src/Ii/Encode.antt =====
-- The encoder of src/ii/codec.cpp. Allocation is taken to succeed.
pub mod Emits
pub mod Sized
pub mod Whole
use secs_lib.Common.{
  ℕ, ◌-◌, Bool, Option, none, some, List, [], ◌∷◌, ◌++◌, ltb, ◌==◌, if◌then◌else◌, length, take,
  replicate,
}
use secs_lib.Common.Int.{to_unsigned}
use secs_lib.Common.Outcome.{ok, err}
use secs_lib.Ii.Format.{
  Errc, length_overflow, invalid_header, FormatCode, max_length, size_max, length_bytes_for,
  make_format_byte,
}
use secs_lib.Ii.Item.{
  Item, Items, list, ascii, binary, boolean, i1, i2, i4, i8, u1, u2, u4, u8, f4, f8, nil, cons,
}
use secs_lib.Ii.Size.{item_code, length_value, encoded_size_impl}
use secs_lib.Ii.Writer.{
  SpanWriter, Write, done, fail, ◌>>◌, write_u8, write_bytes, write_be_u32, write_be_uint,
}

unfoldable pub encode_header_and_length : FormatCode → ℕ → Write
encode_header_and_length code n =
    if ltb max_length n
    then fail length_overflow
    else (write_u8 (make_format_byte code (length_bytes_for n))
        >> write_be_u32 n (length_bytes_for n))

-- `for (auto x : v.values) { auto ec = write(x); if (ec) return ec; }`
unfoldable pub write_each {ℓ} : {A : Type ℓ} → (A → Write) → List A → Write
write_each write [] = done
write_each write (x ∷ xs) = write x >> write_each write xs

abbrev pub bool_byte : Bool → ℕ
bool_byte b = if b then 0x01 else 0x00

-- `encode_item` up to the call of `encode_payload`.
unfoldable pub encode_head : Item → Write
encode_head x = elim (length_value x) [
  | ok n ↦ encode_header_and_length (item_code x) n
  | err e ↦ fail e
]

unfoldable mutual
  pub encode_payload : Item → Write
  encode_payload (list xs) = encode_children xs
  encode_payload (ascii s) = write_bytes s
  encode_payload (binary s) = write_bytes s
  encode_payload (boolean s) = write_each (λ b. write_u8 (bool_byte b)) s
  encode_payload (i1 s) = write_each (λ x. write_u8 (to_unsigned 0x100 x)) s
  encode_payload (u1 s) = write_each write_u8 s
  encode_payload (i2 s) = write_each (λ x. write_be_uint 2 (to_unsigned 0x1_0000 x)) s
  encode_payload (u2 s) = write_each (write_be_uint 2) s
  encode_payload (i4 s) = write_each (λ x. write_be_uint 4 (to_unsigned 0x1_0000_0000 x)) s
  encode_payload (u4 s) = write_each (write_be_uint 4) s
  encode_payload (i8 s) =
      write_each (λ x. write_be_uint 8 (to_unsigned 0x1_0000_0000_0000_0000 x)) s
  encode_payload (u8 s) = write_each (write_be_uint 8) s
  encode_payload (f4 s) = write_each (write_be_uint 4) s
  encode_payload (f8 s) = write_each (write_be_uint 8) s

  -- The children of a list, each as `encode_item` writes it.
  pub encode_children : Items → Write
  encode_children nil = done
  encode_children (cons x xs) = (encode_head x >> encode_payload x) >> encode_children xs

unfoldable pub encode_item : Item → Write
encode_item x = encode_head x >> encode_payload x

-- The error code, the span after the call, and `written`.
unfoldable pub encode_to : List ℕ → Item → Option Errc × SpanWriter
encode_to out x = encode_item x (record { buf = out; written = 0 })

-- `encode_to` has run on the part of `out` behind `offset`; unless it filled that part without
-- an error, `out` is cut back.
unfoldable pub settle : List ℕ → ℕ → Option Errc × SpanWriter → Option Errc × List ℕ
settle out size (some e, w) = (some e, take (length out) (out ++ w.buf))
settle out size (none, w) =
    if w.written == size
    then (none, out ++ w.buf)
    else (some invalid_header, take (length out) (out ++ w.buf))

unfoldable pub encode_sized : Item → List ℕ → ℕ → Option Errc × List ℕ
unfolding settle
encode_sized x out size =
    if ltb (size_max - length out) size
    then (some length_overflow, out)
    else settle out size (encode_to (replicate size 0) x)

-- `encode`: the error code, and `out` after the call. Growing `out` succeeds, so its handlers, that
-- for more bytes than a vector may hold included, have nothing to do.
unfoldable pub encode : Item → List ℕ → Option Errc × List ℕ
unfolding encode_sized
encode x out = elim (encoded_size_impl x) [
  | ok size ↦ encode_sized x out size
  | err e ↦ (some e, out)
]
