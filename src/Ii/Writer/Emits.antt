-- ===== src/Ii/Writer/Emits.antt =====
-- What the methods of `SpanWriter` do to a span of which a front part is written: they put given
-- bytes behind it, or report that the span is too small.
use secs_lib.Common.{
  ℕ, zero, suc, ◌+◌, ◌/◌, ◌%◌, ◌^◌, ◌≤◌, ◌<◌, ◌≡◌, refl, sym, ap, ap₂, ◌∙◌, none, some, List, [],
  ◌∷◌, ◌++◌, append-nil, append_assoc, arith, ltb, length, drop, length-append, take-append,
  drop-append, set-append, inl, inr, ltb→lt, ltb→ge, Bool-cases,
}
use secs_lib.Common.Bytes.{be_bytes, length-be_bytes}
use secs_lib.Ii.Format.{Errc, buffer_overflow}
use secs_lib.Ii.Writer.{
  SpanWriter, Write, done, ◌>>◌, write_u8, write_bytes, store_be, write_be_u32, write_be_uint,
}

-- A writer over the span `front ++ rest` that has written `front`.
abbrev pub at : List ℕ → List ℕ → SpanWriter
at front rest = record { buf = front ++ rest; written = length front }

abbrev pub Fits : Write → List ℕ → List ℕ → List ℕ → Type 0
Fits m bs front rest =
    length bs ≤ length rest → m (at front rest) ≡ (none, at (front ++ bs) (drop (length bs) rest))

abbrev pub Overflows : Write → List ℕ → List ℕ → List ℕ → Type 0
Overflows m bs front rest = length rest < length bs → (m (at front rest)).0 ≡ some buffer_overflow

abbrev pub Emits : Write → List ℕ → Type 0
Emits m bs = (front rest : List ℕ) → Fits m bs front rest × Overflows m bs front rest

drop-length-append :
    (bs cs rest : List ℕ) → drop (length cs) (drop (length bs) rest) ≡ drop (length (bs ++ cs)) rest
drop-length-append [] cs rest = refl
drop-length-append (b ∷ bs) [] [] = refl
drop-length-append (b ∷ bs) (c ∷ cs) [] = refl
drop-length-append (b ∷ bs) cs (x ∷ rest) = drop-length-append bs cs rest

drop_past :
    (front bs rest : List ℕ)
    → drop (length front + length bs) (front ++ rest) ≡ drop (length bs) rest
drop_past [] bs rest = ap (λ n. drop n rest) (let e : 0 + length bs ≡ length bs = omega arith in e)
drop_past (x ∷ front) bs rest =
    let e : suc (length front) + length bs ≡ suc (length front + length bs) = omega arith in
    ap (λ n. drop n (x ∷ (front ++ rest))) e ∙ drop_past front bs rest

length-drop_add :
    (bs rest : List ℕ)
    → length bs ≤ length rest
    → length (drop (length bs) rest) + length bs ≡ length rest
length-drop_add [] rest h = omega arith
length-drop_add (b ∷ bs) [] h = absurd (omega arith)
length-drop_add (b ∷ bs) (x ∷ rest) h = omega (arith, length-drop_add bs rest (omega arith))

pub done-Emits : Emits done []
done-Emits front rest = (λ h. rw append-nil, λ h. absurd (omega arith))

>>_then : (m k : Write) (w w' : SpanWriter) → m w ≡ (none, w') → (m >> k) w ≡ k w'
>>_then m k w w' e = ground arith

>>_stops : (m k : Write) (w : SpanWriter) (e : Errc) → (m w).0 ≡ some e → ((m >> k) w).0 ≡ some e
>>_stops m k w e h = ground arith

module _ (m k : Write) (bs cs : List ℕ) (hm : Emits m bs) (hk : Emits k cs)
    (front rest : List ℕ) where
  -- What is left of the span after `bs`.
  abbrev left : List ℕ
  left = drop (length bs) rest

  >>-Fits : Fits (m >> k) (bs ++ cs) front rest
  >>-Fits h =
      let size = length-append bs cs in
      let first = (hm front rest).0 (omega (arith, size)) in
      let second = (hk (front ++ bs) left).0 (omega (arith, size, length-drop_add bs rest)) in
      >>_then m k _ _ first
      ∙ second
      ∙ ap₂ (λ f r. (none, at f r)) (append_assoc front bs cs) (drop-length-append bs cs rest)

  >>-Overflows : Overflows (m >> k) (bs ++ cs) front rest
  >>-Overflows h = elim (Bool-cases (ltb (length rest) (length bs))) [
    | inl short ↦ >>_stops m k _ _ ((hm front rest).1 (ltb→lt _ _ short))
    | inr room ↦
        let enough = ltb→ge _ _ room in
        ap (λ r. r.0) (>>_then m k _ _ ((hm front rest).0 enough))
        ∙ (hk (front ++ bs) left).1
            (omega (arith, length-append bs cs, length-drop_add bs rest enough))
  ]

pub >>-Emits : (m k : Write) (bs cs : List ℕ) → Emits m bs → Emits k cs → Emits (m >> k) (bs ++ cs)
>>-Emits m k bs cs hm hk front rest =
    (>>-Fits m k bs cs hm hk front rest, >>-Overflows m k bs cs hm hk front rest)

pub write_u8-Emits : (v : ℕ) → Emits (write_u8 v) (v ∷ [])
unfolding write_u8
write_u8-Emits v front [] = (λ h. absurd (omega arith), λ h. ground (arith, append-nil front))
write_u8-Emits v front (x ∷ rest) = (
  λ h. ground (
    arith,
    length-append front (x ∷ rest),
    set-append front x rest (length front) v refl,
    append_assoc front (v ∷ []) rest,
    length-append front (v ∷ []),
  ),
  λ h. absurd (omega arith),
)

store_be-eq :
    (k v : ℕ) (front rest : List ℕ)
    → k ≤ length rest
    → store_be k v (length front) (front ++ rest) ≡ (front ++ be_bytes k v) ++ drop k rest
unfolding store_be be_bytes
store_be-eq zero v front rest h = rw append-nil
store_be-eq (suc k) v front [] h = absurd (omega arith)
store_be-eq (suc k) v front (x ∷ rest) h =
    let b = v / 256 ^ k % 256 in
    let stored =
      set-append front x rest (length front) b refl ∙ sym (append_assoc front (b ∷ []) rest) in
    let next : length front + 1 ≡ length (front ++ (b ∷ [])) =
      omega (arith, length-append front (b ∷ [])) in
    ap₂ (store_be k v) next stored
    ∙ store_be-eq k v (front ++ (b ∷ [])) rest (omega arith)
    ∙ ap (λ t. t ++ drop k rest) (append_assoc front (b ∷ []) (be_bytes k v))

write_be_u32_stores :
    (v k : ℕ) (front rest : List ℕ)
    → 1 ≤ k
    → k ≤ 3
    → k ≤ length rest
    → Fits (write_be_u32 v k) (be_bytes k v) front rest
unfolding write_be_u32
write_be_u32_stores v k front rest lo hi h fits = ground (
  arith,
  length-append front rest,
  length-append front (be_bytes k v),
  length-be_bytes k v,
  store_be-eq k v front rest,
)

pub write_be_u32-Emits : (v k : ℕ) → 1 ≤ k → k ≤ 3 → Emits (write_be_u32 v k) (be_bytes k v)
unfolding write_be_u32
write_be_u32-Emits v k lo hi front rest = (
  λ h. write_be_u32_stores v k front rest lo hi (omega (arith, length-be_bytes k v)) h,
  λ h. ground (arith, length-append front rest, length-be_bytes k v),
)

pub write_be_uint-Emits : (k v : ℕ) → Emits (write_be_uint k v) (be_bytes k v)
unfolding write_be_uint be_bytes
write_be_uint-Emits zero v = done-Emits
write_be_uint-Emits (suc k) v =
    >>-Emits (write_u8 (v / 256 ^ k % 256)) (write_be_uint k v) _ _
      (write_u8-Emits (v / 256 ^ k % 256)) (write_be_uint-Emits k v)

write_bytes_copies :
    (b : ℕ) (bs front rest : List ℕ) → Fits (write_bytes (b ∷ bs)) (b ∷ bs) front rest
unfolding write_bytes
write_bytes_copies b bs front rest h = ground (
  arith,
  length-append front rest,
  length-append front (b ∷ bs),
  take-append (length front) front rest refl,
  drop-append (length front) front rest refl,
  drop_past front (b ∷ bs) rest,
  append_assoc front (b ∷ bs) (drop (length (b ∷ bs)) rest),
)

pub write_bytes-Emits : (bs : List ℕ) → Emits (write_bytes bs) bs
unfolding write_bytes
write_bytes-Emits [] front rest = done-Emits front rest
write_bytes-Emits (b ∷ bs) front rest =
    (λ h. write_bytes_copies b bs front rest h, λ h. ground (arith, length-append front rest))
