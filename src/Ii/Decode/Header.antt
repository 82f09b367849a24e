-- ===== src/Ii/Decode/Header.antt =====
-- The header that the encoder writes, read back.
use secs_lib.Common.{
  ℕ, ◌+◌, ◌^◌, ◌≤◌, ◌<◌, ◌≡◌, sym, inl, inr, List, ◌++◌, arith, length, take-append, drop-append,
  length-append,
}
use secs_lib.Common.Bytes.{be_bytes, length-be_bytes}
use secs_lib.Common.Run.{ok}
use secs_lib.Ii.Format.{FormatCode, length_bytes_for, code_of_bits, max_length}
use secs_lib.Ii.Size.Lengths.{length_bytes_cases, length_bytes_hold}
use secs_lib.Ii.Wire.{header_bytes}
use secs_lib.Ii.Decode.{DecodeBudget, DecodeLimits, read_be_u32, read_payload, decode_head}
use secs_lib.Ii.Decode.Values.{shift_in-be_bytes}

pub read_payload-append :
    (bs more : List ℕ) (n pos : ℕ)
    → n ≡ length bs
    → read_payload n (record { rest = bs ++ more; pos = pos })
      ≡ ok (bs, record { rest = more; pos = pos + n })
unfolding read_payload
read_payload-append bs more n pos e =
    ground (arith, take-append n bs more e, drop-append n bs more e, length-append bs more)

read_be_u32-be_bytes :
    (k n : ℕ) (more : List ℕ) (pos : ℕ)
    → 1 ≤ k
    → k ≤ 3
    → n < 256 ^ k
    → 256 ^ k ≤ 2 ^ 32
    → read_be_u32 k (record { rest = be_bytes k n ++ more; pos = pos })
      ≡ ok (n, record { rest = more; pos = pos + k })
unfolding read_be_u32
read_be_u32-be_bytes k n more pos lo hi h room = ground (
  arith,
  take-append k (be_bytes k n) more (sym (length-be_bytes k n)),
  drop-append k (be_bytes k n) more (sym (length-be_bytes k n)),
  length-append (be_bytes k n) more,
  length-be_bytes k n,
  shift_in-be_bytes (2 ^ 32) k n room h,
)

length_bytes_room :
    (n : ℕ)
    → (1 ≤ length_bytes_for n) × (length_bytes_for n ≤ 3) × (256 ^ length_bytes_for n ≤ 2 ^ 32)
length_bytes_room n = elim (length_bytes_cases n) [
  | inl e ↦ rw e (omega arith)
  | inr (inl e) ↦ rw e (omega arith)
  | inr (inr e) ↦ rw e (omega arith)
]

module _ (limits : DecodeLimits) (depth pos : ℕ) (b : DecodeBudget) (c : FormatCode) (n : ℕ)
    (more : List ℕ) where
  pub decode_head-header_bytes :
      depth ≤ limits.max_depth
      → b.total_items < limits.max_total_items
      → limits.max_total_items < 2 ^ 64
      → n ≤ max_length
      → decode_head limits depth (record { rest = header_bytes c n ++ more; pos = pos }) b
        ≡ ok (record {
          code = c;
          extent = n;
          reader = record { rest = more; pos = pos + length (header_bytes c n) };
          budget = record b { total_items = b.total_items + 1 };
        })
  unfolding decode_head header_bytes
  decode_head-header_bytes hd hi hm hn =
      let lb = length_bytes_room n in
      ground (
        arith,
        read_be_u32-be_bytes (length_bytes_for n) n more (pos + 1) lb.0 lb.1
            (length_bytes_hold n hn) lb.2,
        code_of_bits c,
        length-be_bytes (length_bytes_for n) n,
      )
