-- ===== src/Ii/Encode/Whole.antt =====
-- `encode` and `encode_to`: what a caller relies on.
use secs_lib.Common.{
  ℕ, ◌+◌, ◌-◌, ◌≤◌, ◌<◌, ◌≡◌, refl, sym, ap, ◌∙◌, subst, Option, none, some, List, [], ◌∷◌, ◌++◌,
  arith, lt→ltb, length, drop, replicate, length-replicate, append-nil, ge→ltb, ==_iff,
}
use native.Mathlib.Decide.{dec_lt}
use secs_lib.Common.Outcome.{Result, ok, err}
use secs_lib.Ii.Format.{Errc, length_overflow, buffer_overflow, size_max}
use secs_lib.Ii.Item.{Item}
use secs_lib.Ii.Writer.{SpanWriter}
use secs_lib.Ii.Size.{encoded_size_impl}
use secs_lib.Ii.Encode.{encode, encode_to, encode_sized}
use secs_lib.Ii.Encode.Emits.{encode_item-Emits}
use secs_lib.Ii.Encode.Sized.{Reports, encoded_size-Reports}
use secs_lib.Ii.Wire.{wire, Encodable}

pub encode_to_fits :
    (x : Item) (out : List ℕ)
    → Encodable x
    → length (wire x) ≤ length out
    → encode_to out x
      ≡ (none, record { buf = wire x ++ drop (length (wire x)) out; written = length (wire x) })
unfolding encode_to
encode_to_fits x out h room = (encode_item-Emits x h [] out).0 room

pub encode_to_overflow :
    (x : Item) (out : List ℕ)
    → Encodable x
    → length out < length (wire x)
    → (encode_to out x).0 ≡ some buffer_overflow
unfolding encode_to
encode_to_overflow x out h short = (encode_item-Emits x h [] out).1 short

drop_all {ℓ} : {A : Type ℓ} (xs : List A) → drop (length xs) xs ≡ []
drop_all [] = refl
drop_all (x ∷ xs) = drop_all xs

encode_to_zeros :
    (x : Item)
    → Encodable x
    → encode_to (replicate (length (wire x)) 0) x
      ≡ (none, record { buf = wire x; written = length (wire x) })
encode_to_zeros x h =
    let zeros = length-replicate {A = ℕ} (length (wire x)) 0 in
    let whole = encode_to_fits x (replicate (length (wire x)) 0) h (omega (arith, zeros)) in
    let nothing =
      ap (λ n. drop n (replicate (length (wire x)) 0)) (sym zeros)
      ∙ drop_all (replicate (length (wire x)) 0) in
    rw (nothing, append-nil) at whole

encode_sized_fits :
    (x : Item) (out : List ℕ)
    → Encodable x
    → length out + length (wire x) ≤ size_max
    → encode_sized x out (length (wire x)) ≡ (none, out ++ wire x)
unfolding encode_sized
encode_sized_fits x out h fits = rw (
  ge→ltb (size_max - length out) (length (wire x)) (omega arith),
  encode_to_zeros x h,
  (==_iff (length (wire x)) _).1 refl,
)

-- More than `size_t` can count is refused before anything is written.
encode_sized_overflow :
    (x : Item) (out : List ℕ) (size : ℕ)
    → size_max < length out + size
    → length out ≤ size_max
    → encode_sized x out size ≡ (some length_overflow, out)
unfolding encode_sized
encode_sized_overflow x out size h fits = rw (lt→ltb (size_max - length out) size (omega arith))

encode_measured :
    (x : Item) (out : List ℕ) (n : ℕ)
    → encoded_size_impl x ≡ ok n
    → encode x out ≡ encode_sized x out n
unfolding encode
encode_measured x out n e = rw (e, encode)

encode_unmeasured :
    (x : Item) (out : List ℕ) (e : Errc)
    → encoded_size_impl x ≡ err e
    → encode x out ≡ (some e, out)
unfolding encode
encode_unmeasured x out n e = rw (e, encode)

module _ (x : Item) (out : List ℕ) where
  appends_by_size :
      (r : Result Errc ℕ)
      → encoded_size_impl x ≡ r
      → Reports (Encodable x) (length (wire x)) r
      → Encodable x
      → length out + length (wire x) ≤ size_max
      → encode x out ≡ (none, out ++ wire x)
  appends_by_size (ok n) e h enc fits =
      encode_measured x out n e ∙ ap (encode_sized x out) h.1 ∙ encode_sized_fits x out enc fits
  appends_by_size (err n) e h enc fits = absurd (h.1 (enc, omega arith))

  rejects_by_size :
      (r : Result Errc ℕ)
      → encoded_size_impl x ≡ r
      → Reports (Encodable x) (length (wire x)) r
      → length out ≤ size_max
      → ¬ (Encodable x × (length out + length (wire x) ≤ size_max))
      → encode x out ≡ (some length_overflow, out)
  rejects_by_size (ok n) e h fits bad =
      encode_measured x out n e
      ∙ encode_sized_overflow x out n
          (elim (dec_lt size_max (length out + n)) [
            | yes p ↦ p
            | no p ↦ absurd (bad (h.0, omega arith))
          ])
          fits
  rejects_by_size (err n) e h fits bad = encode_unmeasured x out n e ∙ ap (λ t. (some t, out)) h.0

pub encode-append :
    (x : Item) (out : List ℕ)
    → Encodable x
    → length out + length (wire x) ≤ size_max
    → encode x out ≡ (none, out ++ wire x)
encode-append x out = appends_by_size x out (encoded_size_impl x) refl (encoded_size-Reports x)

pub encode_rejects :
    (x : Item) (out : List ℕ)
    → length out ≤ size_max
    → ¬ (Encodable x × (length out + length (wire x) ≤ size_max))
    → encode x out ≡ (some length_overflow, out)
encode_rejects x out = rejects_by_size x out (encoded_size_impl x) refl (encoded_size-Reports x)

-- What the bytes `prescribed` come to in the span `out`, and what is reported of it.
abbrev pub Writes : List ℕ → List ℕ → Option Errc × SpanWriter → Type 0
Writes prescribed out (none, w) =
    (length prescribed ≤ length out)
    × (w.buf ≡ prescribed ++ drop (length prescribed) out)
    × (w.written ≡ length prescribed)
Writes prescribed out (some e, w) = (length out < length prescribed) × (e ≡ buffer_overflow)

refused_Writes :
    (bytes out : List ℕ) (r : Option Errc × SpanWriter)
    → length out < length bytes
    → r.0 ≡ some buffer_overflow
    → Writes bytes out r
refused_Writes bytes out (none, w) short e = ground arith
refused_Writes bytes out (some e, w) short h = (short, ground arith)

-- `encode_to` writes the bytes that SEMI E5 prescribes of an encodable item at the front of a span
-- with room for them, counts them and leaves the rest of the span alone, or reports
-- buffer_overflow, and this for every span that is too small and for no other.
pub encode_to-Writes :
    (x : Item) (out : List ℕ) → Encodable x → Writes (wire x) out (encode_to out x)
encode_to-Writes x out h = elim (dec_lt (length out) (length (wire x))) [
  | yes p ↦ refused_Writes (wire x) out (encode_to out x) p (encode_to_overflow x out h p)
  | no p ↦
      subst (Writes (wire x) out) (sym (encode_to_fits x out h (omega arith)))
        (omega arith, refl, refl)
]

-- What `encode` reports of an item, and what it leaves in `out`.
abbrev pub Appends : Item → List ℕ → Option Errc × List ℕ → Type 0
Appends x out (none, after) =
    Encodable x × (length out + length (wire x) ≤ size_max) × (after ≡ out ++ wire x)
Appends x out (some e, after) =
    ¬ (Encodable x × (length out + length (wire x) ≤ size_max))
    × (e ≡ length_overflow)
    × (after ≡ out)

appended :
    (x : Item) (out : List ℕ) (r : Result Errc ℕ)
    → encoded_size_impl x ≡ r
    → Reports (Encodable x) (length (wire x)) r
    → length out ≤ size_max
    → Appends x out (encode x out)
appended x out (ok n) e h fits = elim (dec_lt size_max (length out + length (wire x))) [
  | yes p ↦
      let bad : ¬ (Encodable x × (length out + length (wire x) ≤ size_max)) =
        λ t. omega (arith, t.1) in
      subst (Appends x out) (sym (encode_rejects x out fits bad)) (bad, refl, refl)
  | no p ↦
      let room : length out + length (wire x) ≤ size_max = omega arith in
      subst (Appends x out) (sym (encode-append x out h.0 room)) (h.0, room, refl)
]
appended x out (err n) e h fits =
    let bad : ¬ (Encodable x × (length out + length (wire x) ≤ size_max)) =
      λ t. h.1 (t.0, omega (arith, t.1)) in
    subst (Appends x out) (sym (encode_rejects x out fits bad)) (bad, refl, refl)

-- For an `out` whose length is a `size_t`, `encode` appends the bytes that SEMI E5 prescribes exactly
-- if no length field needs more than three bytes and the length of `out` with them is still a
-- `size_t`; in every other case it reports length_overflow and leaves `out` as it was.
pub encode-Appends :
    (x : Item) (out : List ℕ) → length out ≤ size_max → Appends x out (encode x out)
encode-Appends x out = appended x out (encoded_size_impl x) refl (encoded_size-Reports x)
