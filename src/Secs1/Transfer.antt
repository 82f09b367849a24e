-- ===== src/Secs1/Transfer.antt =====
-- A message through fragmentation, the block codec and reassembly.
use secs_lib.Common.{
  ℕ, zero, suc, ◌+◌, ◌-◌, ◌*◌, ◌/◌, ◌%◌, ◌^◌, ◌≤◌, ◌<◌, ◌≡◌, refl, sym, ap, ap₂, ◌∙◌, Bool, true,
  false, inl, inr, List, [], ◌∷◌, ◌++◌, arith, ltb, length, take, drop, Bool-cases, min, max,
  Option, length-take, take_all,
}
use secs_lib.Common.Outcome.{Result, ok, ◌>>=◌}
use secs_lib.Secs1.Block.{Header, Errc, encode_block, decode_block}
use secs_lib.Secs1.Block.Codec.{IsHeader, encode_block_frames, decode_block-encode_block}
use secs_lib.Secs1.Fragment.{block_header, frame_of, fragments, fragment_message}
use secs_lib.Secs1.Reassembler.{Reassembler, reassembler, accept, accept_next, is_unexpected, same}

-- The frames decoded and accepted one after the other.
unfoldable pub deliver : Reassembler → List (List ℕ) → Result Errc Reassembler
deliver r [] = ok r
deliver r (frame ∷ frames) =
    decode_block frame >>= λ block. accept r block >>= λ r'. deliver r' frames

-- The fields that a message has are values of their types.
pub record IsBase (h : Header) : Type 0 where
  pub device : h.device_id < 2 ^ 15
  pub stream : h.stream < 2 ^ 7
  pub function : h.function < 2 ^ 8
  pub system : h.system_bytes < 2 ^ 32

pub block_header-IsHeader :
    (h : Header) (n : ℕ) (last : Bool)
    → IsBase h
    → 0 < n
    → n < 2 ^ 15
    → IsHeader (block_header h n last)
unfolding block_header
block_header-IsHeader h n last v lo hi = record {
  device = v.device;
  stream = v.stream;
  function = v.function;
  number = hi;
  number_pos = lo;
  system = v.system;
}

-- A frame as the loop makes it decodes to the block it was made of.
pub decode_block-frame :
    (h : Header) (bytes : List ℕ)
    → IsHeader h
    → length bytes ≤ 244
    → decode_block (frame_of (encode_block h bytes)) ≡ ok (record { header = h; payload = bytes })
unfolding frame_of
decode_block-frame h bytes v n =
    let e = encode_block_frames h bytes v n in
    ap (λ r. decode_block (frame_of r)) e ∙ decode_block-encode_block h bytes _ v e

same_self : (b : Bool) → same b b ≡ true
unfolding same
same_self true = refl
same_self false = refl

take_nil : (n : ℕ) → take {A = ℕ} n [] ≡ []
take_nil zero = refl
take_nil (suc n) = refl

pub take-take : (m n : ℕ) (xs : List ℕ) → take m xs ++ take n (drop m xs) ≡ take (m + n) xs
take-take zero n xs = ap (λ k. take k xs) (let e : n ≡ 0 + n = omega arith in e)
take-take (suc m) n [] = take_nil n ∙ sym (take_nil (suc m + n))
take-take (suc m) n (x ∷ xs) =
    ap (λ t. x ∷ t) (take-take m n xs)
    ∙ ap (λ k. take k (x ∷ xs)) (let e : suc (m + n) ≡ suc m + n = omega arith in e)

pub fragments_done :
    (fuel offset number : ℕ) (h : Header) (payload : List ℕ)
    → length payload ≤ offset
    → fragments fuel h payload offset number ≡ []
unfolding fragments
fragments_done zero offset number h payload l = refl
fragments_done (suc fuel) offset number h payload l = ground arith

module _ (h : Header) (payload : List ℕ) (fuel offset number : ℕ) where
  -- The last pass, of at most 244 bytes.
  pub fragments_last :
      offset < length payload
      → length payload ≤ offset + 244
      → fragments (suc fuel) h payload offset number
        ≡ frame_of (
            encode_block
              (block_header h number true)
              (take (length payload - offset) (drop offset payload)))
          ∷ []
  unfolding fragments
  fragments_last lo hi =
      let c : min (length payload - offset) 244 ≡ length payload - offset = omega arith in
      let d =
        fragments_done fuel (offset + (length payload - offset)) ((number + 1) % 2 ^ 16) h payload
          (omega arith) in
      ground (arith, c, d)

  pub fragments_full :
      offset + 244 < length payload
      → fragments (suc fuel) h payload offset number
        ≡ frame_of (encode_block (block_header h number false) (take 244 (drop offset payload)))
          ∷ fragments fuel h payload (offset + 244) ((number + 1) % 2 ^ 16)
  unfolding fragments
  fragments_full lo =
      let c : min (length payload - offset) 244 ≡ 244 = omega arith in ground (arith, c)

module _ (expected : Option ℕ) (h : Header) (payload : List ℕ) where
  -- The object after `n` blocks, the last one with the end bit `last` and `body` collected.
  abbrev pub collected : ℕ → Bool → List ℕ → Reassembler
  collected n last body = record {
    expected_device_id = expected;
    has_header = true;
    header = block_header h 1 last;
    next_block = n + 1;
    body = body;
  }

  -- The object after `n` full blocks.
  abbrev pub after : ℕ → Reassembler
  after zero = reassembler expected
  after (suc n) = collected (suc n) false (take (244 * suc n) payload)

  pub accept-after :
      (n : ℕ) (last : Bool) (bytes : List ℕ)
      → is_unexpected expected h.device_id ≡ false
      → n < 0x7fff
      → accept (after n) (record { header = block_header h (n + 1) last; payload = bytes })
        ≡ ok (collected (n + 1) last (take (244 * n) payload ++ bytes))
  unfolding accept accept_next block_header reassembler
  accept-after zero last bytes e b = ground arith
  accept-after (suc n) last bytes e b =
      ground (arith, same_self h.reverse_bit, same_self h.wait_bit)

  module _ (v : IsBase h) (e : is_unexpected expected h.device_id ≡ false) where
    -- One block of the loop, decoded and accepted.
    step :
        (n : ℕ) (last : Bool) (bytes : List ℕ) (frames : List (List ℕ))
        → n < 0x7fff
        → length bytes ≤ 244
        → deliver (after n) (frame_of (encode_block (block_header h (n + 1) last) bytes) ∷ frames)
          ≡ deliver (collected (n + 1) last (take (244 * n) payload ++ bytes)) frames
    unfolding deliver
    step n last bytes frames b l =
        let d =
          decode_block-frame (block_header h (n + 1) last) bytes
            (block_header-IsHeader h (n + 1) last v (omega arith) (omega arith)) l in
        rw (d, accept-after n last bytes e b) refl

    pub state_eq :
        (n : ℕ)
        → collected (n + 1) false (take (244 * n) payload ++ take 244 (drop (244 * n) payload))
          ≡ after (suc n)
    state_eq n =
        ap₂ (λ k b. collected k false b) (let p : n + 1 ≡ suc n = omega arith in p)
          (take-take (244 * n) 244 payload
            ∙ ap (λ k. take k payload) (let p : 244 * n + 244 ≡ 244 * suc n = omega arith in p))

    deliver-fragments :
        (fuel n : ℕ)
        → 244 * n < length payload
        → length payload ≤ 244 * 0x7fff
        → length payload ≤ 244 * n + fuel
        → deliver (after n) (fragments fuel h payload (244 * n) (n + 1))
          ≡ ok (collected ((length payload + 243) / 244) true payload)
    unfolding deliver
    deliver-fragments zero n lo hi f = absurd (omega arith)
    deliver-fragments (suc fuel) n lo hi f =
        elim (Bool-cases (ltb (244 * n + 244) (length payload))) [
          | inl b ↦
              ap (deliver (after n))
                (fragments_full h payload fuel (244 * n) (n + 1) (ground arith))
              ∙ step n false (take 244 (drop (244 * n) payload)) _ (ground arith)
                  (omega (arith, length-take 244 (drop (244 * n) payload)))
              ∙ ap₂ deliver (state_eq n) (
                  ap₂ (λ o k. fragments fuel h payload o k)
                    (let p : 244 * n + 244 ≡ 244 * suc n = omega arith in p)
                    (let p : (n + 1 + 1) % 2 ^ 16 ≡ suc n + 1 = ground arith in p))
              ∙ deliver-fragments fuel (suc n) (ground arith) hi (omega arith)
          | inr b ↦
              ap (deliver (after n))
                (fragments_last h payload fuel (244 * n) (n + 1) lo (ground arith))
              ∙ step n true (take (length payload - 244 * n) (drop (244 * n) payload)) []
                  (omega arith)
                  (ground (arith, length-take (length payload - 244 * n) (drop (244 * n) payload)))
              ∙ ap ok (
                  ap₂ (λ k t. collected k true t)
                    (let p : n + 1 ≡ (length payload + 243) / 244 = ground arith in p)
                    (take-take (244 * n) (length payload - 244 * n) payload
                      ∙ take_all (244 * n + (length payload - 244 * n)) payload (omega arith)))
        ]

-- A message of at most 0x7fff blocks, with a base header in range, that is cut into frames which
-- are decoded and given to a new reassembler that expects the device of the header or any,
-- arrives whole: the payload is the body, and the header is the base header as of a first and
-- last block.
pub deliver-fragment_message :
    (expected : Option ℕ) (h : Header) (payload : List ℕ)
    → IsBase h
    → is_unexpected expected h.device_id ≡ false
    → length payload ≤ 244 * 0x7fff
    → deliver (reassembler expected) (fragment_message h payload)
      ≡ ok (record {
        expected_device_id = expected;
        has_header = true;
        header = block_header h 1 true;
        next_block = max 1 ((length payload + 243) / 244) + 1;
        body = payload;
      })
unfolding fragment_message deliver
deliver-fragment_message expected h [] v e n =
    step expected h [] v e 0 true [] [] (omega arith) (omega arith)
deliver-fragment_message expected h (b ∷ bs) v e n =
    ground (arith, deliver-fragments expected h (b ∷ bs) v e (length (b ∷ bs)) 0)
