-- ===== src/Ii/RoundTrip.antt =====
-- `encode` and `decode_one` together.
use secs_lib.Common.{ℕ, ◌+◌, ◌≤◌, ◌≡◌, subst, none, List, [], ◌++◌, arith, length, All}
use secs_lib.Common.Bytes.{IsByte}
use secs_lib.Common.Outcome.{Result, ok, err}
use secs_lib.Common.Run.{Run}
use secs_lib.Ii.Format.{Errc, size_max}
use secs_lib.Ii.Item.{Item}
use secs_lib.Ii.Size.{encoded_size_impl}
use secs_lib.Ii.Encode.{encode}
use secs_lib.Ii.Encode.Sized.{Reports, encoded_size-Reports}
use secs_lib.Ii.Encode.Whole.{encode-append, encode_rejects}
use secs_lib.Ii.Wire.{wire, Encodable}
use secs_lib.Ii.Measure.{HasValues}
use secs_lib.Ii.Decode.{DecodeLimits, decode_one}
use secs_lib.Ii.Decode.Budget.{HasSizes, Fits}
use secs_lib.Ii.Decode.RoundTrip.{decode_one-wire}
use secs_lib.Ii.Decode.Safe.{decode_one-Ensures}
use native.Mathlib.Decide.{dec_le}

encode_admits :
    (x : Item) (out bytes : List ℕ)
    → length out ≤ size_max
    → encode x out ≡ (none, bytes)
    → Encodable x × (length out + length (wire x) ≤ size_max)
encode_admits x out bytes h e = by_size (encoded_size_impl x) (encoded_size-Reports x)
  where
    by_size :
        (r : Result Errc ℕ)
        → Reports (Encodable x) (length (wire x)) r
        → Encodable x × (length out + length (wire x) ≤ size_max)
    by_size (ok n) p = elim (dec_le (length out + length (wire x)) size_max) [
      | yes q ↦ (p.0, q)
      | no q ↦ cc (encode_rejects x out h (λ both. q both.1))
    ]
    by_size (err n) p = cc (encode_rejects x out h (λ both. p.1 (both.0, omega (arith, both.1))))

-- What `encode` wrote for an item whose values are in range, `decode_one` reads back from the
-- front of any input, consuming exactly those bytes, if the limits are values of `size_t` and
-- admit the item.
pub decode_one-encode :
    (x : Item) (bytes more : List ℕ) (l : DecodeLimits)
    → encode x [] ≡ (none, bytes)
    → HasValues x
    → HasSizes l
    → Fits l 0 (record { total_items = 0; total_bytes = 0 }) x
    → decode_one (bytes ++ more) l ≡ Run.ok (x, length bytes)
decode_one-encode x bytes more l e vals sizes fits =
    let admitted = encode_admits x [] bytes (omega arith) e in
    let written : wire x ≡ bytes = cc (encode-append x [] admitted.0 admitted.1) in
    subst (λ w. decode_one (w ++ more) l ≡ Run.ok (x, length w)) written
      (decode_one-wire x more l admitted.0 vals sizes fits)

-- An item that was decoded from any bytes, no more than a `size_t` counts, encodes to bytes that
-- decode to the same item, under the same limits, which are values of `size_t`, and whatever
-- follows; they are no more than were consumed the first time.
pub decode-encode-decode :
    (bytes more : List ℕ) (l : DecodeLimits) (x : Item) (consumed : ℕ)
    → All IsByte bytes
    → HasSizes l
    → length bytes ≤ size_max
    → decode_one bytes l ≡ Run.ok (x, consumed)
    → (encode x [] ≡ (none, wire x))
      × (length (wire x) ≤ consumed)
      × (decode_one (wire x ++ more) l ≡ Run.ok (x, length (wire x)))
decode-encode-decode bytes more l x consumed h sizes hb e =
    let p = rw e at (decode_one-Ensures bytes l h sizes) in
    (encode-append x [] p.2 (omega (arith, p)), p.3, decode_one-wire x more l p.2 p.1 sizes p.0)
