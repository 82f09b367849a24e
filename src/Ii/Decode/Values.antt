-- ===== src/Ii/Decode/Values.antt =====
-- The payloads: what `decode_leaf` makes of the bytes that the encoder writes.
use secs_lib.Common.{
  ℕ, zero, suc, ◌+◌, ◌*◌, ◌^◌, ◌≤◌, ◌<◌, ◌≡◌, refl, sym, ap, ap₂, ◌∙◌, Bool, true, false, List, [],
  ◌∷◌, map, arith, length, All, take-append, drop-append,
}
use secs_lib.Common.Bytes.{
  IsByte, be_bytes, be_uint, length-be_bytes, be_bytes-IsByte, be_uint-be_bytes, pow_pos,
}
use secs_lib.Common.Int.{ℤ, to_unsigned, to_signed, to_unsigned-lt, to_signed-to_unsigned, IsSigned}
use secs_lib.Common.Run.{ok}
use secs_lib.Ii.Item.{Item, list, ascii, binary, boolean, i1, i2, i4, i8, u1, u2, u4, u8, f4, f8}
use secs_lib.Ii.Size.{item_code}
use secs_lib.Ii.Encode.{bool_byte}
use secs_lib.Ii.Encode.Sized.{length-concat_map}
use secs_lib.Ii.Wire.{concat_map, payload_bytes}
use secs_lib.Ii.Measure.{HasValues, IsLeaf}
use secs_lib.Ii.Decode.{shift_in, read_values, decode_unsigned_vector, decode_leaf, not_zero}
use native.Mathlib.Nat.{
  mul-mod_left, mul-div_cancel, mod-eq_of_lt, pow-suc, mul-le-mul_right, mul-le-mul_left,
}

-- As long as the number fits the type, the shifts lose nothing.
pub shift_in-be_uint :
    (m v : ℕ) (bs : List ℕ)
    → All IsByte bs
    → (v + 1) * 256 ^ length bs ≤ m
    → shift_in m v bs ≡ be_uint v bs
unfolding shift_in be_uint
shift_in-be_uint m v [] h fits = refl
shift_in-be_uint m v (b ∷ bs) h fits =
    let p : (v + 1) * (256 ^ length bs * 256) ≤ m = rw pow-suc at fits in
    let q : (v * 256 + b + 1) * 256 ^ length bs ≤ m = omega (
      arith,
      mul-le-mul_right {m = v * 256 + b + 1} {n = (v + 1) * 256} (256 ^ length bs)
          (omega (arith, h.0)),
    ) in
    let r : v * 256 + b < m =
      omega (arith, mul-le-mul_left (v * 256 + b + 1) (pow_pos (length bs))) in
    ap (λ t. shift_in m t bs) (mod-eq_of_lt r) ∙ shift_in-be_uint m (v * 256 + b) bs h.1 q

pub shift_in-be_bytes : (m k v : ℕ) → 256 ^ k ≤ m → v < 256 ^ k → shift_in m 0 (be_bytes k v) ≡ v
shift_in-be_bytes m k v h hv =
    shift_in-be_uint m 0 (be_bytes k v) (be_bytes-IsByte k v) (rw length-be_bytes (omega arith))
    ∙ be_uint-be_bytes k v 0
    ∙ omega (arith, mod-eq_of_lt hv)

module _ {ℓ} {A : Type ℓ} (w : ℕ) (g : A → ℕ) where
  read_values-concat_map :
      (xs : List A)
      → All (λ x. g x < 256 ^ w) xs
      → read_values w (length xs) (concat_map (λ x. be_bytes w (g x)) xs) ≡ map g xs
  unfolding read_values
  read_values-concat_map [] h = refl
  read_values-concat_map (x ∷ xs) h =
      let front = sym (length-be_bytes w (g x)) in
      ap₂ ◌∷◌
        (ap (shift_in (256 ^ w) 0) (take-append w (be_bytes w (g x)) _ front)
          ∙ shift_in-be_bytes (256 ^ w) w (g x) (omega arith) h.0)
        (ap (read_values w (length xs)) (drop-append w (be_bytes w (g x)) _ front)
          ∙ read_values-concat_map xs h.1)

map_id : (xs : List ℕ) → map (λ x. x) xs ≡ xs
map_id [] = refl
map_id (x ∷ xs) = ap (λ t. x ∷ t) (map_id xs)

signed_patterns :
    (m : ℕ) (xs : List ℤ) → All (IsSigned m) xs → map (to_signed m) (map (to_unsigned m) xs) ≡ xs
signed_patterns m [] h = refl
signed_patterns m (x ∷ xs) h = ap₂ ◌∷◌ (to_signed-to_unsigned m x h.0) (signed_patterns m xs h.1)

patterns-lt : (m : ℕ) (xs : List ℤ) → 0 < m → All (λ x. to_unsigned m x < m) xs
patterns-lt m [] h = tt
patterns-lt m (x ∷ xs) h = (to_unsigned-lt m x h, patterns-lt m xs h)

-- A vector of `n` values of `w` bytes each is read back.
vector_of :
    (w n : ℕ) (bytes vs : List ℕ)
    → 0 < w
    → length bytes ≡ n * w
    → read_values w n bytes ≡ vs
    → decode_unsigned_vector w bytes ≡ ok vs
unfolding decode_unsigned_vector
vector_of w n bytes vs hw size e = ground (arith, mul-mod_left n w, mul-div_cancel n hw, size, e)

numbers-decode :
    (w : ℕ) (xs : List ℕ)
    → 0 < w
    → All (λ x. x < 256 ^ w) xs
    → decode_unsigned_vector w (concat_map (be_bytes w) xs) ≡ ok xs
numbers-decode w xs hw h =
    vector_of w (length xs) _ xs hw (length-concat_map (be_bytes w) w xs (length-be_bytes w))
      (read_values-concat_map w (λ x. x) xs h ∙ map_id xs)

signed-decode :
    (w : ℕ) (xs : List ℤ)
    → 0 < w
    → decode_unsigned_vector w (concat_map (λ x. be_bytes w (to_unsigned (256 ^ w) x)) xs)
      ≡ ok (map (to_unsigned (256 ^ w)) xs)
signed-decode w xs hw =
    vector_of w (length xs) _ _ hw
      (length-concat_map (λ x. be_bytes w (to_unsigned (256 ^ w) x)) w xs
        (λ x. length-be_bytes w _))
      (read_values-concat_map w (to_unsigned (256 ^ w)) xs (patterns-lt (256 ^ w) xs (pow_pos w)))

bytes-decode : (n : ℕ) (xs : List ℕ) → n ≡ length xs → All IsByte xs → read_values 1 n xs ≡ xs
unfolding read_values shift_in
bytes-decode zero [] e h = refl
bytes-decode zero (x ∷ xs) e h = absurd (omega arith)
bytes-decode (suc n) [] e h = absurd (omega arith)
bytes-decode (suc n) (x ∷ xs) e h =
    ap₂ ◌∷◌ (omega (arith, h.0)) (bytes-decode n xs (omega arith) h.1)

bools-decode : (bs : List Bool) → map not_zero (map bool_byte bs) ≡ bs
unfolding not_zero
bools-decode [] = refl
bools-decode (true ∷ bs) = ap (λ t. true ∷ t) (bools-decode bs)
bools-decode (false ∷ bs) = ap (λ t. false ∷ t) (bools-decode bs)

All-patterns : (xs : List ℤ) → All (IsSigned 0x100) xs → All IsByte (map (to_unsigned 0x100) xs)
All-patterns [] h = tt
All-patterns (x ∷ xs) h = (to_unsigned-lt 0x100 x (omega arith), All-patterns xs h.1)

-- The payload of a leaf whose values are in the range of their type decodes to that leaf.
pub decode_leaf-payload_bytes :
    (x : Item) → IsLeaf x → HasValues x → decode_leaf (item_code x) (payload_bytes x) ≡ ok x
unfolding decode_leaf payload_bytes item_code
decode_leaf-payload_bytes (list xs) l h = absurd l
decode_leaf-payload_bytes (ascii s) l h = refl
decode_leaf-payload_bytes (binary s) l h = refl
decode_leaf-payload_bytes (boolean s) l h = ap (λ v. ok (boolean v)) (bools-decode s)
decode_leaf-payload_bytes (i1 s) l h =
    rw
      (vector_of 1 (length (map (to_unsigned 0x100) s)) _ _ (omega arith) (omega arith)
        (bytes-decode _ _ refl (All-patterns s h)))
      (ap (λ v. ok (i1 v)) (signed_patterns 0x100 s h))
decode_leaf-payload_bytes (i2 s) l h =
    rw (signed-decode 2 s (omega arith)) (ap (λ v. ok (i2 v)) (signed_patterns 0x1_0000 s h))
decode_leaf-payload_bytes (i4 s) l h =
    rw (signed-decode 4 s (omega arith)) (ap (λ v. ok (i4 v)) (signed_patterns 0x1_0000_0000 s h))
decode_leaf-payload_bytes (i8 s) l h =
    rw (signed-decode 8 s (omega arith))
      (ap (λ v. ok (i8 v)) (signed_patterns 0x1_0000_0000_0000_0000 s h))
decode_leaf-payload_bytes (u1 s) l h = refl
decode_leaf-payload_bytes (u2 s) l h = rw (numbers-decode 2 s (omega arith) h)
decode_leaf-payload_bytes (u4 s) l h = rw (numbers-decode 4 s (omega arith) h)
decode_leaf-payload_bytes (u8 s) l h = rw (numbers-decode 8 s (omega arith) h)
decode_leaf-payload_bytes (f4 s) l h = rw (numbers-decode 4 s (omega arith) h)
decode_leaf-payload_bytes (f8 s) l h = rw (numbers-decode 8 s (omega arith) h)
