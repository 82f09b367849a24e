-- ===== src/Secs1/Machine/Arrive.antt =====
-- The steps of `StateMachine::async_receive` for a frame that arrives whole.
use secs_lib.Common.{
  ℕ, suc, ◌+◌, ◌/◌, ◌%◌, ◌^◌, ◌≡◌, ◌≤◌, ◌<◌, refl, sym, true, false, ◌||◌, List, [], ◌∷◌, ◌++◌,
  Option, none, length, arith, ltb, leb, length-append,
}
use secs_lib.Common.Outcome as Outcome
use secs_lib.Common.Outcome.{Result}
use secs_lib.Common.Run.{ok}
use secs_lib.Secs1.Block.{
  Header, header_size, max_block_length, max_block_data_size, encode_block, decode_block, checksum,
  framed, header_bytes,
}
use secs_lib.Secs1.Block.Codec.{IsHeader, encode_block_frames}
use secs_lib.Secs1.Fragment.{frame_of}
use secs_lib.Secs1.Machine.{Code, enq, eot, StateMachine, ReceivedMessage, M}
use secs_lib.Secs1.Machine.Receive.{
  Loop, or_abort, read_length, read_rest, read_frame, read_block, block_decoded, wait_enq, enq_read,
  wait_start, start_read, eot_sent, block_start,
}
use secs_lib.Secs1.Machine.Wire.{Wire, wire, taken, arriving}

length_block : (h : Header) (bytes : List ℕ) → length (header_bytes h ++ bytes) ≡ 10 + length bytes
unfolding header_bytes
length_block h bytes = omega arith

module _ (m : StateMachine) (out : List ℕ) where
  read_rest-arriving :
      (bytes : List ℕ) (rest : List (Result Code ℕ))
      → read_rest wire (length bytes) (m, record { inbox = arriving bytes rest; outbox = out })
        ≡ (ok bytes, (m, record { inbox = rest; outbox = out }))
  unfolding read_rest or_abort arriving wire taken
  read_rest-arriving [] rest = refl
  read_rest-arriving (b ∷ bytes) rest = rw (read_rest-arriving bytes rest) refl

  -- A frame of a length that is allowed.
  read_frame-arriving :
      (len : ℕ) (bytes : List ℕ) (rest : List (Result Code ℕ))
      → 10 ≤ len
      → len ≤ 254
      → len + 2 ≡ length bytes
      → read_frame wire len (m, record { inbox = arriving bytes rest; outbox = out })
        ≡ (ok (len ∷ bytes), (m, record { inbox = rest; outbox = out }))
  unfolding read_frame
  read_frame-arriving len bytes rest lo hi e =
      let fine : (ltb len header_size || ltb max_block_length len) ≡ false = ground arith in
      rw (fine, e, read_rest-arriving bytes rest) refl

  read_block-arriving :
      (next : Loop → M Wire ReceivedMessage) (loop : Loop) (timeout len : ℕ) (bytes : List ℕ)
      (rest : List (Result Code ℕ))
      → 10 ≤ len
      → len ≤ 254
      → len + 2 ≡ length bytes
      → read_block wire next loop
          (none, timeout)
          (m, record { inbox = arriving (len ∷ bytes) rest; outbox = out })
        ≡ block_decoded wire next loop timeout
            (decode_block (len ∷ bytes))
            (m, record { inbox = rest; outbox = out })
  unfolding read_block read_length or_abort arriving wire taken
  read_block-arriving next loop timeout len bytes rest lo hi e =
      rw (read_frame-arriving len bytes rest lo hi e) refl

  read_block-framed :
      (next : Loop → M Wire ReceivedMessage) (loop : Loop) (timeout : ℕ) (body : List ℕ)
      (rest : List (Result Code ℕ))
      → 10 ≤ length body
      → length body ≤ 254
      → read_block wire next loop
          (none, timeout)
          (m, record { inbox = arriving (framed body) rest; outbox = out })
        ≡ block_decoded wire next loop timeout
            (decode_block (framed body))
            (m, record { inbox = rest; outbox = out })
  unfolding framed
  read_block-framed next loop timeout body rest lo hi =
      let tail = checksum body / 2 ^ 8 % 256 ∷ checksum body % 256 ∷ [] in
      read_block-arriving next loop timeout (length body) (body ++ tail) rest lo hi
        (sym (length-append body tail))

  -- A frame of `encode_block` is read as it was made.
  pub read_block-encoded :
      (next : Loop → M Wire ReceivedMessage) (loop : Loop) (timeout : ℕ) (h : Header)
      (bytes : List ℕ) (rest : List (Result Code ℕ))
      → IsHeader h
      → length bytes ≤ max_block_data_size
      → read_block wire next loop
          (none, timeout)
          (m, record { inbox = arriving (frame_of (encode_block h bytes)) rest; outbox = out })
        ≡ block_decoded wire next loop timeout
            (decode_block (frame_of (encode_block h bytes)))
            (m, record { inbox = rest; outbox = out })
  unfolding frame_of
  read_block-encoded next loop timeout h bytes rest v n = rw (encode_block_frames h bytes v n) (
      let k = length_block h bytes in
      read_block-framed next loop timeout (header_bytes h ++ bytes) rest (omega (arith, k))
        (omega (arith, k)))

  -- ENQ is answered with EOT, at the start of a message and of each further block.
  pub wait_enq-arriving :
      (fuel : ℕ) (timeout : Option ℕ) (rest : List (Result Code ℕ))
      → wait_enq wire (suc fuel) timeout (m, record { inbox = Outcome.ok enq ∷ rest; outbox = out })
        ≡ (ok tt, (m, record { inbox = rest; outbox = out }))
  unfolding wait_enq enq_read wire taken
  wait_enq-arriving fuel timeout rest = refl

  pub block_start-arriving :
      (fuel nacks timeout : ℕ) (rest : List (Result Code ℕ))
      → 0 < timeout
      → block_start wire
          (suc fuel)
          (record { nack_count = nacks; allow_enq_or_length = true; next_block_timeout = timeout })
          (m, record { inbox = Outcome.ok enq ∷ rest; outbox = out })
        ≡ (
          ok (none, m.timeouts.t2_protocol),
          (m, record { inbox = rest; outbox = out ++ eot ∷ [] }),
        )
  unfolding block_start wait_start start_read eot_sent wire taken
  block_start-arriving fuel nacks timeout rest p =
      let later : leb (0 + timeout) 0 ≡ false = ground arith in rw later refl
