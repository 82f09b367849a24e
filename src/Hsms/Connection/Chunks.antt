-- ===== src/Hsms/Connection/Chunks.antt =====
-- Frames of src/hsms/connection.cpp that arrive in pieces.
use secs_lib.Common.{
  ℕ, zero, suc, ◌+◌, ◌-◌, ◌≤◌, ◌≡◌, refl, sym, ap, ◌∙◌, subst, true, false, either_branch, List, [],
  ◌∷◌, ◌++◌, All, arith, ltb, ◌==◌, length, take, drop, append_assoc, append-nil, length-append,
  length-drop, take-append, drop-append,
}
use secs_lib.Common.Outcome.{ok}
use secs_lib.Hsms.Message.{
  Header, Message, header_size, length_field_size, max_payload_size, header_of, read_u32_be, u32_be,
  u16_be, encode_header_bytes, encode_frame,
}
use secs_lib.Hsms.Frame.{
  IsHeader, header_of-encode_header_bytes, read_u32_be-u32_be, encode_frame_inverts, length-payload,
}
use secs_lib.Hsms.Connection.Incoming.{
  Arrival, bytes, Reading, done, in_front, read_exactly, then_read, read_body, read_header,
  read_payload, async_read_message,
}

-- The pieces, and all their bytes.
unfoldable pub joined : List (List ℕ) → List ℕ
joined [] = []
joined (xs ∷ rest) = xs ++ joined rest

unfoldable pub arrivals : List (List ℕ) → List Arrival
arrivals [] = []
arrivals (xs ∷ rest) = bytes xs ∷ arrivals rest

-- No piece is empty: an empty read is an error.
abbrev pub IsPiece : List ℕ → Type 0
IsPiece xs = 1 ≤ length xs

-- The call gives the value and leaves the pieces of exactly these bytes.
unfoldable pub Leaves : {A : Type 0} → A → List ℕ → Reading (A × List Arrival) → Type 0
Leaves a left r =
    (pieces : List (List ℕ)) × (r ≡ done (a, arrivals pieces))
    × (joined pieces ≡ left)
    × All IsPiece pieces

take_append_over :
    (n : ℕ) (xs ys : List ℕ) → length xs ≤ n → take n (xs ++ ys) ≡ xs ++ take (n - length xs) ys
take_append_over n [] ys l = let whole : n ≡ n - 0 = omega arith in ap (λ k. take k ys) whole
take_append_over zero (x ∷ xs) ys l = absurd (omega arith)
take_append_over (suc n) (x ∷ xs) ys l =
    let rest : suc n - suc (length xs) ≡ n - length xs = omega arith in
    rw rest (ap (λ t. x ∷ t) (take_append_over n xs ys (omega arith)))

drop_append_over :
    (n : ℕ) (xs ys : List ℕ) → length xs ≤ n → drop n (xs ++ ys) ≡ drop (n - length xs) ys
drop_append_over n [] ys l = let whole : n ≡ n - 0 = omega arith in ap (λ k. drop k ys) whole
drop_append_over zero (x ∷ xs) ys l = absurd (omega arith)
drop_append_over (suc n) (x ∷ xs) ys l =
    let rest : suc n - suc (length xs) ≡ n - length xs = omega arith in
    rw rest (drop_append_over n xs ys (omega arith))

take_append_under : (n : ℕ) (xs ys : List ℕ) → n ≤ length xs → take n (xs ++ ys) ≡ take n xs
take_append_under zero xs ys l = refl
take_append_under (suc n) [] ys l = absurd (omega arith)
take_append_under (suc n) (x ∷ xs) ys l = ap (λ t. x ∷ t) (take_append_under n xs ys (omega arith))

drop_append_under : (n : ℕ) (xs ys : List ℕ) → n ≤ length xs → drop n (xs ++ ys) ≡ drop n xs ++ ys
drop_append_under zero xs ys l = refl
drop_append_under (suc n) [] ys l = absurd (omega arith)
drop_append_under (suc n) (x ∷ xs) ys l = drop_append_under n xs ys (omega arith)

in_front-Leaves :
    (xs ys left : List ℕ) (r : Reading (List ℕ × List Arrival))
    → Leaves ys left r
    → Leaves (xs ++ ys) left (in_front xs r)
unfolding in_front Leaves
in_front-Leaves xs ys left r h = (h.0, ap (in_front xs) h.1, h.2, h.3)

-- As many bytes as are asked for come from any pieces that hold them.
read_exactly-Leaves :
    (n : ℕ) (pieces : List (List ℕ))
    → All IsPiece pieces
    → n ≤ length (joined pieces)
    → Leaves (take n (joined pieces)) (drop n (joined pieces)) (read_exactly n (arrivals pieces))
unfolding read_exactly joined arrivals Leaves
read_exactly-Leaves zero [] h l = ([], refl, refl, tt)
read_exactly-Leaves (suc n) [] h l = absurd (omega (arith, l))
read_exactly-Leaves zero (xs ∷ rest) h l = (xs ∷ rest, refl, refl, h)
read_exactly-Leaves (suc n) (xs ∷ rest) h l =
    let k = suc n in
    let Q : Reading (List ℕ × List Arrival) → Type 0 =
      λ r. Leaves (take k (xs ++ joined rest)) (drop k (xs ++ joined rest)) r in
    either_branch Q (k == 0) _ _ (λ z. absurd (ground (arith, z)))
      λ z.
        either_branch Q (length xs == 0) _ _ (λ e. absurd (ground (arith, e, h.0)))
          λ e.
            either_branch Q (ltb k (length xs)) _ _
              (λ s. (
                drop k xs ∷ rest,
                ap (λ t. done (t, bytes (drop k xs) ∷ arrivals rest))
                    (sym (take_append_under k xs (joined rest) (ground (arith, s)))),
                sym (drop_append_under k xs (joined rest) (ground (arith, s))),
                (ground (arith, s, length-drop k xs), h.1),
              ))
              λ s.
                rw
                  (
                    take_append_over k xs (joined rest) (ground (arith, s)),
                    drop_append_over k xs (joined rest) (ground (arith, s)),
                  )
                  (in_front-Leaves xs _ _ (read_exactly (k - length xs) (arrivals rest)) (
                    read_exactly-Leaves (k - length xs) rest h.1
                      (omega (arith, l, length-append xs (joined rest)))))

-- What is read of the front is passed on with the pieces of the others.
then_read-Leaves :
    {A B : Type 0} (r : Reading (A × List Arrival)) (a : A) (left : List ℕ)
    (f : A → List Arrival → Reading (B × List Arrival)) (b : B) (end : List ℕ)
    → Leaves a left r
    → ((pieces : List (List ℕ))
        → joined pieces ≡ left
        → All IsPiece pieces
        → Leaves b end (f a (arrivals pieces)))
    → Leaves b end (then_read r f)
unfolding Leaves
then_read-Leaves r a left f b end h k = rw h.1 (k h.0 h.2 h.3)

-- A front of known length.
read_front :
    (n : ℕ) (xs ys : List ℕ) (pieces : List (List ℕ))
    → n ≡ length xs
    → joined pieces ≡ xs ++ ys
    → All IsPiece pieces
    → Leaves xs ys (read_exactly n (arrivals pieces))
read_front n xs ys pieces e j h =
    let enough : n ≤ length (joined pieces) = omega (arith, e, ap length j, length-append xs ys) in
    let front : take n (joined pieces) ≡ xs = ap (take n) j ∙ take-append n xs ys e in
    let behind : drop n (joined pieces) ≡ ys = ap (drop n) j ∙ drop-append n xs ys e in
    subst (λ l. Leaves xs l (read_exactly n (arrivals pieces))) behind
      (subst (λ f. Leaves f (drop n (joined pieces)) (read_exactly n (arrivals pieces))) front
        (read_exactly-Leaves n pieces h enough))

length-length_field : (n : ℕ) → 4 ≡ length (u32_be n)
unfolding u32_be
length-length_field n = refl

length-header : (h : Header) → 10 ≡ length (encode_header_bytes h)
unfolding encode_header_bytes u16_be u32_be
length-header h = refl

read_body-Leaves :
    (h : Header) (body rest : List ℕ) (pieces : List (List ℕ))
    → joined pieces ≡ rest
    → All IsPiece pieces
    → Leaves (record { header = h; body = body }) rest (read_body h body (arrivals pieces))
unfolding read_body Leaves
read_body-Leaves h body rest pieces j p = (pieces, refl, j, p)

read_header-Leaves :
    (m : Message) (rest : List ℕ) (pieces : List (List ℕ))
    → IsHeader m.header
    → m.header.p_type ≡ 0
    → joined pieces ≡ m.body ++ rest
    → All IsPiece pieces
    → Leaves m rest
        (read_header (10 + length m.body) (encode_header_bytes m.header) (arrivals pieces))
unfolding read_header
read_header-Leaves m rest pieces v t j p =
    let again : header_of (encode_header_bytes m.header) ≡ m.header =
      ap header_of (sym (append-nil (encode_header_bytes m.header)))
      ∙ header_of-encode_header_bytes m.header [] v in
    let typed : ((header_of (encode_header_bytes m.header)).p_type == 0) ≡ true =
      ground (arith, ap (λ (h : Header). h.p_type) again, t) in
    let size : (10 + length m.body) - 10 ≡ length m.body = omega arith in
    rw typed (
      rw again (
        rw size (
          then_read-Leaves (read_exactly (length m.body) (arrivals pieces)) m.body rest
            (read_body m.header) m rest (read_front (length m.body) m.body rest pieces refl j p)
            (read_body-Leaves m.header m.body rest))))

read_payload-Leaves :
    (m : Message) (rest : List ℕ) (pieces : List (List ℕ))
    → IsHeader m.header
    → m.header.p_type ≡ 0
    → length m.body ≤ 0xff_fff6
    → joined pieces ≡ encode_header_bytes m.header ++ (m.body ++ rest)
    → All IsPiece pieces
    → Leaves m rest (read_payload (u32_be (10 + length m.body)) (arrivals pieces))
unfolding read_payload
read_payload-Leaves m rest pieces v t l j p =
    let n = 10 + length m.body in
    let again : read_u32_be (u32_be n) 0 ≡ n =
      ap (λ b. read_u32_be b 0) (sym (append-nil (u32_be n)))
      ∙ read_u32_be-u32_be n [] (omega arith) in
    let long : ltb n header_size ≡ false = ground arith in
    let short : ltb max_payload_size n ≡ false = ground (arith, l) in
    rw again (
      rw long (
        rw short (
          then_read-Leaves (read_exactly header_size (arrivals pieces))
            (encode_header_bytes m.header) (m.body ++ rest) (read_header n) m rest
            (read_front 10 (encode_header_bytes m.header) (m.body ++ rest) pieces
              (length-header m.header) j p)
            λ more k q. read_header-Leaves m rest more v t k q)))

-- A frame of `encode_frame`, of a message whose header fields are in range, that arrives in any
-- non-empty pieces, with any bytes behind it, is read by `async_read_message` as the message it
-- was made of, and the bytes behind it are left for the next call.
pub async_read_message-encode_frame :
    (m : Message) (frame rest : List ℕ) (pieces : List (List ℕ))
    → IsHeader m.header
    → encode_frame m ≡ ok frame
    → joined pieces ≡ frame ++ rest
    → All IsPiece pieces
    → Leaves m rest (async_read_message (arrivals pieces))
unfolding async_read_message
async_read_message-encode_frame m frame rest pieces v e j p =
    let facts = encode_frame_inverts m frame e in
    let h = encode_header_bytes m.header in
    let size : length (h ++ m.body) ≡ 10 + length m.body = length-payload m.header m.body in
    let whole : joined pieces ≡ u32_be (10 + length m.body) ++ (h ++ (m.body ++ rest)) =
      j
      ∙ ap (λ f. f ++ rest) facts.2
      ∙ ap (λ n. (u32_be n ++ (h ++ m.body)) ++ rest) size
      ∙ append_assoc (u32_be (10 + length m.body)) (h ++ m.body) rest
      ∙ ap (λ t. u32_be (10 + length m.body) ++ t) (append_assoc h m.body rest) in
    then_read-Leaves (read_exactly length_field_size (arrivals pieces))
      (u32_be (10 + length m.body)) (h ++ (m.body ++ rest)) read_payload m rest
      (read_front 4 (u32_be (10 + length m.body)) (h ++ (m.body ++ rest)) pieces
        (length-length_field (10 + length m.body)) whole p)
      λ more k q. read_payload-Leaves m rest more v facts.0 facts.1 k q
