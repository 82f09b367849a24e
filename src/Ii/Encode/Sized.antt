-- ===== src/Ii/Encode/Sized.antt =====
-- `encoded_size` against the prescribed encoding.
use secs_lib.Common.{
  ℕ, suc, ◌+◌, ◌*◌, ◌≤◌, ◌≡◌, refl, sym, subst, ap, List, [], ◌∷◌, ◌++◌, map, arith, length,
  length-append,
}
use secs_lib.Common.Bytes.{be_bytes, length-be_bytes}
use secs_lib.Common.Int.{to_unsigned}
use secs_lib.Common.Outcome.{Result, ok, err, ◌>>=◌}
use secs_lib.Ii.Format.{Errc, length_overflow, max_length, size_max, length_bytes_for}
use secs_lib.Ii.Item.{
  Item, Items, list, ascii, binary, boolean, i1, i2, i4, i8, u1, u2, u4, u8, f4, f8, nil, cons,
}
use secs_lib.Ii.Size.{
  item_code, checked, checked_add, length_value, total_size, encoded_size_impl, children_size,
}
use secs_lib.Ii.Size.Lengths.{bounded, length_value-extent}
use secs_lib.Ii.Encode.{bool_byte}
use secs_lib.Ii.Measure.{IsLeaf}
use secs_lib.Ii.Wire.{
  concat_map, extent, header_bytes, payload_bytes, children_bytes, wire, Encodable, AllEncodable,
}

pub length-concat_map {ℓ} :
    {A : Type ℓ} (f : A → List ℕ) (k : ℕ) (xs : List A)
    → ((x : A) → length (f x) ≡ k)
    → length (concat_map f xs) ≡ length xs * k
length-concat_map f k [] h = omega arith
length-concat_map f k (x ∷ xs) h =
    omega (arith, h x, length-concat_map f k xs h, length-append (f x) (concat_map f xs))

length-map {ℓ} : {A : Type ℓ} (f : A → ℕ) (xs : List A) → length (map f xs) ≡ length xs
length-map f [] = refl
length-map f (x ∷ xs) = ap suc (length-map f xs)

length-numbers : (k : ℕ) (xs : List ℕ) → length (concat_map (be_bytes k) xs) ≡ length xs * k
length-numbers k xs = length-concat_map (be_bytes k) k xs (length-be_bytes k)

-- The length field of an item that is no list counts its payload's bytes.
pub length-payload_bytes : (x : Item) → IsLeaf x → length (payload_bytes x) ≡ extent x
unfolding payload_bytes extent
length-payload_bytes (list xs) h = absurd h
length-payload_bytes (ascii s) h = refl
length-payload_bytes (binary s) h = refl
length-payload_bytes (boolean s) h = length-map bool_byte s
length-payload_bytes (i1 s) h = length-map (to_unsigned 0x100) s
length-payload_bytes (i2 s) h =
    length-concat_map (λ x. be_bytes 2 (to_unsigned 0x1_0000 x)) 2 s (λ x. length-be_bytes 2 _)
length-payload_bytes (i4 s) h =
    length-concat_map (λ x. be_bytes 4 (to_unsigned 0x1_0000_0000 x)) 4 s (λ x. length-be_bytes 4 _)
length-payload_bytes (i8 s) h =
    length-concat_map (λ x. be_bytes 8 (to_unsigned 0x1_0000_0000_0000_0000 x)) 8 s
      (λ x. length-be_bytes 8 _)
length-payload_bytes (u1 s) h = refl
length-payload_bytes (u2 s) h = length-numbers 2 s
length-payload_bytes (u4 s) h = length-numbers 4 s
length-payload_bytes (u8 s) h = length-numbers 8 s
length-payload_bytes (f4 s) h = length-numbers 4 s
length-payload_bytes (f8 s) h = length-numbers 8 s

-- The outcome is `ok m` where `P` holds and `m` is a `size_t`, and the overflow error otherwise.
abbrev pub Reports : Type 0 → ℕ → Result Errc ℕ → Type 0
Reports P m (ok n) = P × (n ≡ m) × (m ≤ size_max)
Reports P m (err e) = (e ≡ length_overflow) × ¬ (P × (m ≤ size_max))

bounded-Reports : (n : ℕ) → Reports (n ≤ max_length) n (bounded n)
bounded-Reports n = ground arith

length-wire :
    (x : Item)
    → length (header_bytes (item_code x) (extent x) ++ payload_bytes x)
      ≡ 1 + length_bytes_for (extent x) + length (payload_bytes x)
unfolding header_bytes
length-wire x = omega (
  arith,
  length-append (header_bytes (item_code x) (extent x)) (payload_bytes x),
  length-be_bytes (length_bytes_for (extent x)) (extent x),
)

Reports-bind :
    (P Q : Type 0) (m m' : ℕ) (r : Result Errc ℕ) (k : ℕ → Result Errc ℕ)
    → Reports P m r
    → (Q → m' ≤ size_max → P × (m ≤ size_max))
    → (P → m ≤ size_max → Reports Q m' (k m))
    → Reports Q m' (r >>= k)
Reports-bind P Q m m' (ok n) k h needs then_ =
    subst (λ n. Reports Q m' (k n)) (sym (h.1)) (then_ h.0 h.2)
Reports-bind P Q m m' (err e) k h needs then_ = (h.0, λ q. h.1 (needs q.0 q.1))

Reports-iff :
    {P Q : Type 0} {m m' : ℕ} (r : Result Errc ℕ)
    → Reports P m r
    → (P → Q)
    → (Q → P)
    → m ≡ m'
    → Reports Q m' r
Reports-iff (ok n) h to from e = (to h.0, omega arith, omega arith)
Reports-iff (err x) h to from e = (h.0, λ q. h.1 (from q.0, omega arith))

checked_add-Reports : (a b : ℕ) → a ≤ size_max → Reports Unit (a + b) (checked (checked_add a b))
unfolding checked checked_add
checked_add-Reports a b h = ground arith

length_value-Reports : (x : Item) → Reports (extent x ≤ max_length) (extent x) (length_value x)
length_value-Reports x = rw length_value-extent (bounded-Reports (extent x))

total_size-Reports :
    (x : Item) → Reports Unit (length (wire x)) (total_size (extent x) (length (payload_bytes x)))
unfolding total_size wire length_bytes_for
total_size-Reports x =
    Reports-iff _
      (checked_add-Reports (1 + length_bytes_for (extent x)) (length (payload_bytes x))
        (ground arith))
      (λ u. tt) (λ u. tt) (sym (length-wire x))

payload-le-wire : (x : Item) → length (payload_bytes x) ≤ length (wire x)
unfolding wire
payload-le-wire x = omega (arith, length-wire x)

-- A leaf: its length field is bounded, and the header is added to as many bytes.
leaf-Reports :
    (x : Item)
    → length (payload_bytes x) ≡ extent x
    → Reports (extent x ≤ max_length) (length (wire x)) (length_value x >>= λ n. total_size n n)
leaf-Reports x e =
    Reports-bind _ _ _ _ (length_value x) (λ n. total_size n n) (length_value-Reports x)
      (λ q s. (q, omega arith))
      (λ p s.
        Reports-iff _
          (subst (λ n. Reports Unit (length (wire x)) (total_size (extent x) n)) e
            (total_size-Reports x))
          (λ u. p) (λ q. tt) refl)

-- A list: the children's sizes are summed up under the same checks.
list-Reports :
    (xs : Items) (r : Result Errc ℕ)
    → Reports (AllEncodable xs) (length (children_bytes xs)) r
    → Reports
        ((extent (list xs) ≤ max_length) × AllEncodable xs)
        (length (wire (list xs)))
        (length_value (list xs) >>= λ n. (r >>= λ p. total_size n p))
unfolding payload_bytes
list-Reports xs r h =
    Reports-bind _ _ _ _ (length_value (list xs)) _ (length_value-Reports (list xs))
      (λ q s. (q.0, omega arith))
      (λ p s.
        Reports-bind (AllEncodable xs) _ _ _ r (total_size (extent (list xs))) h
          (λ q s'. (q.1, omega (arith, payload-le-wire (list xs))))
          (λ p' s'. Reports-iff _ (total_size-Reports (list xs)) (λ u. (p, p')) (λ q. tt) refl))

child-Reports :
    (x : Item) (xs : Items) (acc : ℕ) (r : Result Errc ℕ)
    → acc ≤ size_max
    → Reports (Encodable x) (length (wire x)) r
    → ((next : ℕ)
        → next ≤ size_max
        → Reports (AllEncodable xs) (next + length (children_bytes xs)) (children_size xs next))
    → Reports
        (Encodable x × AllEncodable xs)
        (acc + length (wire x ++ children_bytes xs))
        (r >>= λ c. (checked (checked_add acc c) >>= λ next. children_size xs next))
child-Reports x xs acc r h hx ih =
    let sum = length-append (wire x) (children_bytes xs) in
    Reports-bind (Encodable x) _ (length (wire x)) _ r _ hx (λ q s. (q.0, omega (arith, sum)))
      (λ p s.
        Reports-bind Unit _ (acc + length (wire x)) _ _ (children_size xs)
          (checked_add-Reports acc (length (wire x)) h) (λ q s'. (tt, omega (arith, sum)))
          (λ u s'.
            Reports-iff (children_size xs (acc + length (wire x))) (ih (acc + length (wire x)) s')
              (λ p'. (p, p')) (λ q. q.1) (omega (arith, sum))))

mutual
  unfolding encoded_size_impl wire payload_bytes extent

  size-Reports : (x : Item) → Reports (Encodable x) (length (wire x)) (encoded_size_impl x)
  size-Reports (list xs) = list-Reports xs (children_size xs 0) (
      Reports-iff (children_size xs 0) (children-Reports xs 0 (omega arith)) (λ p. p) (λ p. p)
        (omega arith))
  size-Reports (ascii s) = leaf-Reports (ascii s) (length-payload_bytes (ascii s) tt)
  size-Reports (binary s) = leaf-Reports (binary s) (length-payload_bytes (binary s) tt)
  size-Reports (boolean s) = leaf-Reports (boolean s) (length-payload_bytes (boolean s) tt)
  size-Reports (i1 s) = leaf-Reports (i1 s) (length-payload_bytes (i1 s) tt)
  size-Reports (i2 s) = leaf-Reports (i2 s) (length-payload_bytes (i2 s) tt)
  size-Reports (i4 s) = leaf-Reports (i4 s) (length-payload_bytes (i4 s) tt)
  size-Reports (i8 s) = leaf-Reports (i8 s) (length-payload_bytes (i8 s) tt)
  size-Reports (u1 s) = leaf-Reports (u1 s) (length-payload_bytes (u1 s) tt)
  size-Reports (u2 s) = leaf-Reports (u2 s) (length-payload_bytes (u2 s) tt)
  size-Reports (u4 s) = leaf-Reports (u4 s) (length-payload_bytes (u4 s) tt)
  size-Reports (u8 s) = leaf-Reports (u8 s) (length-payload_bytes (u8 s) tt)
  size-Reports (f4 s) = leaf-Reports (f4 s) (length-payload_bytes (f4 s) tt)
  size-Reports (f8 s) = leaf-Reports (f8 s) (length-payload_bytes (f8 s) tt)

  children-Reports :
      (xs : Items) (acc : ℕ)
      → acc ≤ size_max
      → Reports (AllEncodable xs) (acc + length (children_bytes xs)) (children_size xs acc)
  children-Reports nil acc h = (tt, omega arith, omega arith)
  children-Reports (cons x xs) acc h =
      child-Reports x xs acc (encoded_size_impl x) h (size-Reports x) (children-Reports xs)

-- `encoded_size` gives the length of the prescribed encoding where the item is encodable and that
-- length is a `size_t`, and the overflow error otherwise.
pub encoded_size-Reports :
    (x : Item) → Reports (Encodable x) (length (wire x)) (encoded_size_impl x)
encoded_size-Reports x = size-Reports x
