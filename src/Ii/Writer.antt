-- ===== src/Ii/Writer.antt =====
-- `SpanWriter` of src/ii/codec.cpp: bytes written one behind the other into a fixed span.
pub mod Emits
use secs_lib.Common.{
  ℕ, zero, suc, ◌+◌, ◌-◌, ◌/◌, ◌%◌, ◌^◌, Bool, ◌||◌, Option, none, some, List, [], ◌∷◌, ◌++◌, ltb,
  leb, if◌then◌else◌, length, set, take, drop,
}
use secs_lib.Ii.Format.{Errc, invalid_header, buffer_overflow}

-- `out_` and `written_`.
pub record SpanWriter : Type 0 where
  pub buf : List ℕ
  pub written : ℕ

-- A method: the `std::error_code` (`none` for success), and the writer after the call.
abbrev pub Write : Type 0
Write = SpanWriter → Option Errc × SpanWriter

-- `return {};`, `return make_error_code(e);`, and `if (ec) return ec;` between two calls.
abbrev pub done : Write
done w = (none, w)

abbrev pub fail : Errc → Write
fail e w = (some e, w)

infixl 5 ◌>>◌
abbrev pub ◌>>◌ : Write → Write → Write
◌>>◌ m k w = let (ec, w') = m w in elim ec [ none ↦ k w' | some e ↦ (some e, w') ]

unfoldable pub write_u8 : ℕ → Write
write_u8 v w =
    if leb (length w.buf) w.written
    then (some buffer_overflow, w)
    else (none, record { buf = set w.buf w.written v; written = w.written + 1 })

-- `written_` never passes the span's size, so the subtraction does not wrap.
unfoldable pub write_bytes : List ℕ → Write
write_bytes [] w = (none, w)
write_bytes (b ∷ bs) w =
    if ltb (length w.buf - w.written) (length (b ∷ bs)) then (some buffer_overflow, w) else (
      none,
      record {
        buf = take w.written w.buf ++ ((b ∷ bs) ++ drop (w.written + length (b ∷ bs)) w.buf);
        written = w.written + length (b ∷ bs);
      },
    )

-- The loop of `write_be_u32`: byte by byte from index `i` on, `k` bytes still to come.
unfoldable pub store_be : ℕ → ℕ → ℕ → List ℕ → List ℕ
store_be zero v i buf = buf
store_be (suc k) v i buf = store_be k v (i + 1) (set buf i (v / 256 ^ k % 256))

unfoldable pub write_be_u32 : ℕ → ℕ → Write
write_be_u32 v bytes w =
    if ltb bytes 1 || ltb 3 bytes
    then (some invalid_header, w)
    else (if ltb (length w.buf - w.written) bytes
        then (some buffer_overflow, w)
        else (none, record { buf = store_be bytes v w.written w.buf; written = w.written + bytes }))

-- `write_be_uint<UInt>` with `k` bytes of `sizeof(UInt)` still to come.
unfoldable pub write_be_uint : ℕ → ℕ → Write
write_be_uint zero v = done
write_be_uint (suc k) v = write_u8 (v / 256 ^ k % 256) >> write_be_uint k v
