-- ===== src/Hsms/Frame.antt =====
-- What the codec of HSMS frames guarantees: round trips in both directions, and what is refused.
use secs_lib.Common.{
  ℕ, suc, ◌+◌, ◌-◌, ◌%◌, ◌^◌, ◌≤◌, ◌<◌, ◌≡◌, refl, sym, ap, ◌∙◌, inl, inr, if◌then◌else◌, List, [],
  ◌∷◌, ◌++◌, arith, ltb, ◌==◌, length, take, drop, All, Bool-cases, append_assoc, length-append,
  length-take, length-drop, take-append, not, All-take, All-drop,
}
use secs_lib.Common.Bytes.{IsByte, byte_at-IsByte, ten_bytes}
use secs_lib.Common.Outcome.{Result, ok, err}
use secs_lib.Core.Error.{Errc, invalid_argument, buffer_overflow}
use secs_lib.Hsms.Message.{
  Header, Message, encode_header_bytes, encode_frame, decode_payload, decode_frame, with_consumed,
  header_of, read_u16_be, read_u32_be, u16_be, u32_be,
}

-- The fields are values of their types.
pub record IsHeader (h : Header) : Type 0 where
  pub session : h.session_id < 2 ^ 16
  pub byte2 : IsByte h.header_byte2
  pub byte3 : IsByte h.header_byte3
  pub p_type : IsByte h.p_type
  pub s_type : IsByte h.s_type
  pub system : h.system_bytes < 2 ^ 32

pub header_of-encode_header_bytes :
    (h : Header) (body : List ℕ) → IsHeader h → header_of (encode_header_bytes h ++ body) ≡ h
unfolding header_of encode_header_bytes read_u16_be read_u32_be
header_of-encode_header_bytes h body v = ground (arith, v.session, v.system)

drop-encode_header_bytes :
    (h : Header) (body : List ℕ) → drop 10 (encode_header_bytes h ++ body) ≡ body
unfolding encode_header_bytes u16_be u32_be
drop-encode_header_bytes h body = refl

pub length-payload :
    (h : Header) (body : List ℕ) → length (encode_header_bytes h ++ body) ≡ 10 + length body
unfolding encode_header_bytes u16_be u32_be
length-payload h body = omega arith

pub read_u32_be-u32_be : (v : ℕ) (bs : List ℕ) → v < 2 ^ 32 → read_u32_be (u32_be v ++ bs) 0 ≡ v
unfolding read_u32_be u32_be
read_u32_be-u32_be v bs h = omega arith

drop-u32_be : (v : ℕ) (bs : List ℕ) → drop 4 (u32_be v ++ bs) ≡ bs
unfolding u32_be
drop-u32_be v bs = refl

pub length-u32_be : (v : ℕ) (bs : List ℕ) → length (u32_be v ++ bs) ≡ 4 + length bs
unfolding u32_be
length-u32_be v bs = omega arith

-- What `encode_frame` returns, on every branch.
pub encode_frame_lem :
    (m : Message)
    → encode_frame m ≡ (
        if not (m.header.p_type == 0)
        then err invalid_argument
        else (if ltb 0xff_fff6 (length m.body)
            then err buffer_overflow
            else ok (u32_be (10 + length m.body) ++ (encode_header_bytes m.header ++ m.body))))
unfolding encode_frame
encode_frame_lem m = ground arith

decode_payload-encode_header_bytes :
    (h : Header) (body : List ℕ)
    → IsHeader h
    → h.p_type ≡ 0
    → length body ≤ 0xff_fff6
    → decode_payload (encode_header_bytes h ++ body) ≡ ok (record { header = h; body = body })
unfolding decode_payload
decode_payload-encode_header_bytes h body v p n = ground (
  arith,
  length-payload h body,
  header_of-encode_header_bytes h body v,
  drop-encode_header_bytes h body,
)

-- A frame of a payload `p` with anything after it.
decode_frame_lem :
    (p rest : List ℕ)
    → 10 ≤ length p
    → length p ≤ 0x100_0000
    → decode_frame (u32_be (length p) ++ (p ++ rest))
      ≡ with_consumed (4 + length p) (decode_payload p)
unfolding decode_frame
decode_frame_lem p rest lo hi = ground (
  arith,
  read_u32_be-u32_be (length p) (p ++ rest),
  length-u32_be (length p) (p ++ rest),
  length-append p rest,
  drop-u32_be (length p) (p ++ rest),
  take-append (length p) p rest refl,
)

pub encode_frame_inverts :
    (m : Message) (frame : List ℕ)
    → encode_frame m ≡ ok frame
    → (m.header.p_type ≡ 0)
      × (length m.body ≤ 0xff_fff6)
      × (frame
          ≡ u32_be (length (encode_header_bytes m.header ++ m.body))
            ++ (encode_header_bytes m.header ++ m.body))
unfolding encode_frame
encode_frame_inverts m frame e = ground (arith, length-payload m.header m.body)

-- For a message whose header fields are in range, `decode_frame` reads back from the frame that
-- `encode_frame` wrote the message it was made of, whatever comes after the frame, and `consumed`
-- is the length of the frame.
pub decode_frame-encode_frame :
    (m : Message) (frame rest : List ℕ)
    → IsHeader m.header
    → encode_frame m ≡ ok frame
    → decode_frame (frame ++ rest) ≡ ok (m, length frame)
unfolding with_consumed
decode_frame-encode_frame m frame rest v e =
    let facts = encode_frame_inverts m frame e in
    let p = encode_header_bytes m.header ++ m.body in
    let n = length-payload m.header m.body in
    ap (λ f. decode_frame (f ++ rest)) facts.2
    ∙ ap decode_frame (append_assoc (u32_be (length p)) p rest)
    ∙ decode_frame_lem p rest (omega (arith, n)) (omega (arith, n, facts.1))
    ∙ ap (with_consumed (4 + length p))
        (decode_payload-encode_header_bytes m.header m.body v facts.0 facts.1)
    ∙ ap (λ (k : ℕ). ok (m, k)) (sym (ap length facts.2 ∙ length-u32_be (length p) p))

-- Bytes that begin with four or ten of them are what the reading and the writing of those give.
u32_be-read_u32_be :
    (f : List ℕ) → All IsByte f → 4 ≤ length f → u32_be (read_u32_be f 0) ++ drop 4 f ≡ f
unfolding u32_be read_u32_be
u32_be-read_u32_be [] h n = absurd (omega arith)
u32_be-read_u32_be (a ∷ []) h n = absurd (omega arith)
u32_be-read_u32_be (a ∷ b ∷ []) h n = absurd (omega arith)
u32_be-read_u32_be (a ∷ b ∷ c ∷ []) h n = absurd (omega arith)
u32_be-read_u32_be (a ∷ b ∷ c ∷ d ∷ f) h n = ground (arith, h)

encode_header_bytes-header_of :
    (p : List ℕ) → All IsByte p → 10 ≤ length p → encode_header_bytes (header_of p) ++ drop 10 p ≡ p
unfolding encode_header_bytes header_of read_u16_be read_u32_be
encode_header_bytes-header_of p h n = ground (
  arith,
  byte_at-IsByte p 0 h,
  byte_at-IsByte p 1 h,
  byte_at-IsByte p 6 h,
  byte_at-IsByte p 7 h,
  byte_at-IsByte p 8 h,
  byte_at-IsByte p 9 h,
  ten_bytes p n,
)

decode_payload_inverts :
    (p : List ℕ) (m : Message)
    → decode_payload p ≡ ok m
    → ((header_of p).p_type ≡ 0) × (m ≡ record { header = header_of p; body = drop 10 p })
unfolding decode_payload
decode_payload_inverts p m e = ground arith

encode_frame-header_of :
    (p : List ℕ)
    → All IsByte p
    → 10 ≤ length p
    → length p ≤ 0x100_0000
    → (header_of p).p_type ≡ 0
    → encode_frame (record { header = header_of p; body = drop 10 p }) ≡ ok (u32_be (length p) ++ p)
unfolding encode_frame
encode_frame-header_of p h lo hi t =
    let bytes = encode_header_bytes-header_of p h lo in
    let l : (10 + length (drop 10 p)) % 2 ^ 32 ≡ length p = omega (arith, length-drop 10 p) in
    ground (arith, t, bytes, l, length-drop 10 p)

with_consumed_inverts :
    (c : ℕ) (r : Result Errc Message) (m : Message) (n : ℕ)
    → with_consumed c r ≡ ok (m, n)
    → (r ≡ ok m) × (n ≡ c)
unfolding with_consumed
with_consumed_inverts c (ok x) m n e = ground arith
with_consumed_inverts c (err x) m n e = ground arith

decode_frame_inverts :
    (frame : List ℕ) (m : Message) (n : ℕ)
    → decode_frame frame ≡ ok (m, n)
    → (10 ≤ read_u32_be frame 0)
      × (read_u32_be frame 0 ≤ 0x100_0000)
      × (4 + read_u32_be frame 0 ≤ length frame)
      × (n ≡ 4 + read_u32_be frame 0)
      × (decode_payload (take (read_u32_be frame 0) (drop 4 frame)) ≡ ok m)
unfolding decode_frame
decode_frame_inverts frame m n e = ground (
  arith,
  with_consumed_inverts (4 + read_u32_be frame 0)
      (decode_payload (take (read_u32_be frame 0) (drop 4 frame))) m n,
)

take-u32_be : (v k : ℕ) (bs : List ℕ) → take (4 + k) (u32_be v ++ bs) ≡ u32_be v ++ take k bs
unfolding u32_be
take-u32_be v k bs =
    ap (λ j. take j (u32_be v ++ bs)) (let e : 4 + k ≡ suc (suc (suc (suc k))) = omega arith in e)

-- A message that `decode_frame` reads from bytes is encoded to the very bytes that were consumed.
pub encode_frame-decode_frame :
    (frame : List ℕ) (m : Message) (n : ℕ)
    → All IsByte frame
    → decode_frame frame ≡ ok (m, n)
    → encode_frame m ≡ ok (take n frame)
encode_frame-decode_frame frame m n h e =
    let (lo, hi, fits, en, em) = decode_frame_inverts frame m n e in
    let v = read_u32_be frame 0 in
    let p = take v (drop 4 frame) in
    let (type, same) = decode_payload_inverts p m em in
    let l : length p ≡ v = omega (arith, length-take v (drop 4 frame), length-drop 4 frame, fits) in
    let bytes = All-take IsByte v (drop 4 frame) (All-drop IsByte 4 frame h) in
    ap encode_frame same
    ∙ encode_frame-header_of p bytes (omega (arith, l, lo)) (omega (arith, l, hi)) type
    ∙ ap (λ k. ok (u32_be k ++ p)) l
    ∙ ap ok (sym (take-u32_be v v (drop 4 frame)))
    ∙ ap (λ f. ok (take (4 + v) f)) (u32_be-read_u32_be frame h (omega (arith, fits)))
    ∙ ap (λ k. ok (take k frame)) (sym en)

module _ (m : Message) (frame : List ℕ) (k : ℕ) (e : encode_frame m ≡ ok frame)
    (short : k < length frame) where
  length_short : 4 ≤ k → decode_frame (take (4 + (k - 4)) frame) ≡ err invalid_argument
  unfolding decode_frame
  length_short h =
      let facts = encode_frame_inverts m frame e in
      let p = encode_header_bytes m.header ++ m.body in
      let cut = take-u32_be (length p) (k - 4) p in
      let n = length-payload m.header m.body in
      let lt : length p < 2 ^ 32 = omega (arith, n, facts.1) in
      ap (λ f. decode_frame (take (4 + (k - 4)) f)) facts.2
      ∙ ap decode_frame cut
      ∙ ground (
        arith,
        n,
        facts,
        read_u32_be-u32_be (length p) (take (k - 4) p) lt,
        length-u32_be (length p) (take (k - 4) p),
        length-u32_be (length p) p,
        length-take (k - 4) p,
      )

  -- Every proper beginning of a frame is refused, with nothing consumed.
  pub decode_frame_truncated : decode_frame (take k frame) ≡ err invalid_argument
  unfolding decode_frame
  decode_frame_truncated = elim (Bool-cases (ltb k 4)) [
    | inl b ↦ ground (arith, length-take k frame)
    | inr b ↦
        ap (λ j. decode_frame (take j frame)) (let p : k ≡ 4 + (k - 4) = ground arith in p)
        ∙ length_short (ground arith)
  ]
