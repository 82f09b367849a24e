-- ===== src/Ii/Decode/Ranges.antt =====
-- The values that the decoder makes of any bytes are in the range of their types.
use secs_lib.Common.{
  ℕ, zero, suc, ◌+◌, ◌*◌, ◌/◌, ◌%◌, ◌^◌, ◌≤◌, ◌<◌, ◌≡◌, refl, ap, List, [], ◌∷◌, map, arith, ltb,
  ltb→lt, ltb→ge, Bool-cases, inl, inr, ◌==◌, ==_iff, length, take, drop, All, All-take, All-drop,
  length-take,
}
use secs_lib.Common.Bytes.{IsByte, be_uint-lt}
use secs_lib.Common.Int.{ℤ, to_signed, IsSigned}
use secs_lib.Common.Run.{ok, ◌>>=◌, Ensures, Ensures-bind}
use secs_lib.Ii.Format.{FormatCode}
use secs_lib.Ii.Item.{Item, i1, i2, i4, i8, u2, u4, u8, f4, f8}
use secs_lib.Ii.Size.{item_code}
use secs_lib.Ii.Wire.{extent}
use secs_lib.Ii.Measure.{IsLeaf, HasValues}
use secs_lib.Ii.Decode.{shift_in, read_values, decode_unsigned_vector, decode_leaf, not_zero}
use secs_lib.Ii.Decode.Values.{shift_in-be_uint}
use native.Mathlib.Nat.{pow-le-pow_right, div-add-mod'}

pub shift_in-lt :
    (m k : ℕ) (bs : List ℕ)
    → All IsByte bs
    → length bs ≤ k
    → 256 ^ k ≤ m
    → shift_in m 0 bs < 256 ^ k
shift_in-lt m k bs h hk hm =
    let smaller = pow-le-pow_right {n = 256} (omega arith) hk in
    rw (shift_in-be_uint m 0 bs h (omega (arith, smaller)))
      (omega (arith, be_uint-lt 0 bs h, smaller))

read_values-lt :
    (w n : ℕ) (bytes : List ℕ) → All IsByte bytes → All (λ x. x < 256 ^ w) (read_values w n bytes)
unfolding read_values
read_values-lt w zero bytes h = tt
read_values-lt w (suc n) bytes h = (
  shift_in-lt (256 ^ w) w (take w bytes) (All-take IsByte w bytes h)
      (omega (arith, length-take w bytes)) (omega arith),
  read_values-lt w n (drop w bytes) (All-drop IsByte w bytes h),
)

length-read_values : (w n : ℕ) (bytes : List ℕ) → length (read_values w n bytes) ≡ n
unfolding read_values
length-read_values w zero bytes = refl
length-read_values w (suc n) bytes = ap suc (length-read_values w n (drop w bytes))

to_signed-IsSigned : (m b : ℕ) → b < m → IsSigned m (to_signed m b)
unfolding to_signed
to_signed-IsSigned m b h = elim (Bool-cases (ltb (b + b) m)) [
  | inl e ↦ rw e (ltb→lt (b + b) m e)
  | inr e ↦ rw e (omega (arith, ltb→ge (b + b) m e))
]

vector-IsSigned :
    (m : ℕ) (xs : List ℕ) → All (λ x. x < m) xs → All (IsSigned m) (map (to_signed m) xs)
vector-IsSigned m [] h = tt
vector-IsSigned m (x ∷ xs) h = (to_signed-IsSigned m x h.0, vector-IsSigned m xs h.1)

length-map {ℓ κ} :
    {A : Type ℓ} {B : Type κ} (f : A → B) (xs : List A) → length (map f xs) ≡ length xs
length-map f [] = refl
length-map f (x ∷ xs) = ap suc (length-map f xs)

-- A vector of values in range, as many as the payload holds; or a length mismatch.
vector-Ensures :
    (w : ℕ) (payload : List ℕ)
    → 0 < w
    → All IsByte payload
    → Ensures
        (λ v. All (λ x. x < 256 ^ w) v × (length v * w ≡ length payload))
        (decode_unsigned_vector w payload)
unfolding decode_unsigned_vector
vector-Ensures w payload hw h = elim (Bool-cases (length payload % w == 0)) [
  | inl e ↦ rw e (
    read_values-lt w (length payload / w) payload h,
    omega (
      arith,
      length-read_values w (length payload / w) payload,
      (==_iff (length payload % w) 0).0 e,
      div-add-mod' (length payload) w,
      ap (λ (t : ℕ). t * w) (length-read_values w (length payload / w) payload),
    ),
  )
  | inr e ↦ rw e tt
]

-- What `decode_leaf` makes of a payload of bytes for the code `c`.
abbrev pub LeafOf : FormatCode → List ℕ → Item → Type 0
LeafOf c payload x = IsLeaf x × (item_code x ≡ c) × (extent x ≡ length payload) × HasValues x

signed-Ensures :
    (w : ℕ) (c : FormatCode) (payload : List ℕ) (item : List ℤ → Item)
    → 0 < w
    → All IsByte payload
    → ((v : List ℕ)
        → All (λ x. x < 256 ^ w) v
        → length v * w ≡ length payload
        → LeafOf c payload (item (map (to_signed (256 ^ w)) v)))
    → Ensures
        (LeafOf c payload)
        (decode_unsigned_vector w payload >>= λ v. ok (item (map (to_signed (256 ^ w)) v)))
signed-Ensures w c payload item hw h k =
    Ensures-bind _ (LeafOf c payload) (decode_unsigned_vector w payload) _
      (vector-Ensures w payload hw h) (λ v p. k v p.0 p.1)

unsigned-Ensures :
    (w : ℕ) (c : FormatCode) (payload : List ℕ) (item : List ℕ → Item)
    → 0 < w
    → All IsByte payload
    → ((v : List ℕ)
        → All (λ x. x < 256 ^ w) v
        → length v * w ≡ length payload
        → LeafOf c payload (item v))
    → Ensures (LeafOf c payload) (decode_unsigned_vector w payload >>= λ v. ok (item v))
unsigned-Ensures w c payload item hw h k =
    Ensures-bind _ (LeafOf c payload) (decode_unsigned_vector w payload) _
      (vector-Ensures w payload hw h) (λ v p. k v p.0 p.1)

pub decode_leaf-Ensures :
    (c : FormatCode) (payload : List ℕ)
    → All IsByte payload
    → Ensures (LeafOf c payload) (decode_leaf c payload)
unfolding decode_leaf extent item_code
decode_leaf-Ensures FormatCode.list payload h = tt
decode_leaf-Ensures FormatCode.ascii payload h = (tt, refl, refl, h)
decode_leaf-Ensures FormatCode.binary payload h = (tt, refl, refl, h)
decode_leaf-Ensures FormatCode.boolean payload h = (tt, refl, length-map not_zero payload, tt)
decode_leaf-Ensures FormatCode.u1 payload h = (tt, refl, refl, h)
decode_leaf-Ensures FormatCode.i1 payload h =
    signed-Ensures 1 FormatCode.i1 payload i1 (omega arith) h (λ v r e.
      (tt, refl, omega (arith, length-map (to_signed (256 ^ 1)) v), vector-IsSigned _ v r))
decode_leaf-Ensures FormatCode.i2 payload h =
    signed-Ensures 2 FormatCode.i2 payload i2 (omega arith) h (λ v r e.
      (tt, refl, omega (arith, length-map (to_signed (256 ^ 2)) v), vector-IsSigned _ v r))
decode_leaf-Ensures FormatCode.i4 payload h =
    signed-Ensures 4 FormatCode.i4 payload i4 (omega arith) h (λ v r e.
      (tt, refl, omega (arith, length-map (to_signed (256 ^ 4)) v), vector-IsSigned _ v r))
decode_leaf-Ensures FormatCode.i8 payload h =
    signed-Ensures 8 FormatCode.i8 payload i8 (omega arith) h (λ v r e.
      (tt, refl, omega (arith, length-map (to_signed (256 ^ 8)) v), vector-IsSigned _ v r))
decode_leaf-Ensures FormatCode.u2 payload h =
    unsigned-Ensures 2 FormatCode.u2 payload u2 (omega arith) h (λ v r e. (tt, refl, e, r))
decode_leaf-Ensures FormatCode.u4 payload h =
    unsigned-Ensures 4 FormatCode.u4 payload u4 (omega arith) h (λ v r e. (tt, refl, e, r))
decode_leaf-Ensures FormatCode.u8 payload h =
    unsigned-Ensures 8 FormatCode.u8 payload u8 (omega arith) h (λ v r e. (tt, refl, e, r))
decode_leaf-Ensures FormatCode.f4 payload h =
    unsigned-Ensures 4 FormatCode.f4 payload f4 (omega arith) h (λ v r e. (tt, refl, e, r))
decode_leaf-Ensures FormatCode.f8 payload h =
    unsigned-Ensures 8 FormatCode.f8 payload f8 (omega arith) h (λ v r e. (tt, refl, e, r))
