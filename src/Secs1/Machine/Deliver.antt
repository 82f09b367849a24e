-- ===== src/Secs1/Machine/Deliver.antt =====
-- A message of frames, each after a request to send, as `StateMachine::async_receive` takes it.
use secs_lib.Common.{
  ℕ, zero, suc, ◌+◌, ◌-◌, ◌*◌, ◌%◌, ◌^◌, ◌≡◌, inl, inr, ◌≤◌, ◌<◌, refl, sym, ap, ap₂, subst, ◌∙◌,
  Bool, Bool-cases, true, false, List, [], ◌∷◌, ◌++◌, Option, none, length, arith, ltb, take, drop,
  take_all, length-take,
}
use secs_lib.Common.Outcome as Outcome
use secs_lib.Common.Outcome.{Result}
use secs_lib.Common.Run.{Run, ok}
use secs_lib.Secs1.Block.{Header, encode_block}
use secs_lib.Secs1.Fragment.{block_header, frame_of, fragments}
use secs_lib.Secs1.Reassembler.{is_unexpected}
use secs_lib.Secs1.Transfer.{
  IsBase, block_header-IsHeader, decode_block-frame, fragments_full, fragments_last, take-take,
  state_eq,
}
use secs_lib.Secs1.Machine.{Code, eot, ack, StateMachine, State, ReceivedMessage, M}
use secs_lib.Secs1.Machine.Receive.{Loop, block_decoded, read_block, receive_blocks}
use secs_lib.Secs1.Machine.Wire.{
  Wire, wire, incoming, awaited, confirmed, acknowledged, IsSome, incoming-awaited,
  confirmed-acknowledged, arriving,
}
use secs_lib.Secs1.Machine.Arrive.{read_block-encoded, block_start-arriving}
use secs_lib.Secs1.Machine.Collect.{IsFresh, block, Waits, taken_in, decoded_more, decoded_last}

-- The message is returned, the object is idle with nothing in flight, and the line is as said.
pub record Delivers (message : ReceivedMessage) (rest : List (Result Code ℕ)) (out : List ℕ)
    (r : Run Code ReceivedMessage × (StateMachine × Wire)) : Type 0 where
  pub returned : r.0 ≡ ok message
  pub line : r.1.1 ≡ record { inbox = rest; outbox = out }
  pub idle : r.1.0.state ≡ State.idle
  pub settled : r.1.0.in_flight ≡ []

-- The loop's variables after a block that was acknowledged.
abbrev going_on : ℕ → Loop
going_on timeout = record {
  nack_count = 0;
  allow_enq_or_length = true;
  next_block_timeout = timeout;
}

-- ENQ, EOT, and the next block.
next_block :
    (passes : ℕ) (m : StateMachine) (frames : List (List ℕ)) (timeout : ℕ)
    (rest : List (Result Code ℕ)) (out : List ℕ)
    → 0 < passes
    → 0 < timeout
    → IsSome frames
    → receive_blocks wire passes
        (going_on timeout)
        (m, record { inbox = incoming frames rest; outbox = out })
      ≡ read_block wire
          (receive_blocks wire (passes - 1))
          (going_on timeout)
          (none, m.timeouts.t2_protocol)
          (m, record { inbox = awaited frames rest; outbox = out ++ eot ∷ [] })
unfolding receive_blocks
next_block zero m frames timeout rest out q p s = absurd (omega arith)
next_block (suc passes) m frames timeout rest out q p s =
    let left : suc passes - 1 ≡ passes = omega arith in
    rw
      (
        left,
        incoming-awaited frames rest s,
        block_start-arriving m out passes 0 timeout (awaited frames rest) p,
      )
      refl

module _ (expected : Option ℕ) (h : Header) (payload : List ℕ) (v : IsBase h)
    (e : is_unexpected expected h.device_id ≡ false) where
  -- A block's frame, up to what `decode_block` makes of it.
  arrives :
      (next : Loop → M Wire ReceivedMessage) (loop : Loop) (timeout n : ℕ) (last : Bool)
      (bytes : List ℕ) (m : StateMachine) (rest : List (Result Code ℕ)) (out : List ℕ)
      → n < 0x7fff
      → length bytes ≤ 244
      → read_block wire next loop
          (none, timeout)
          (
            m,
            record {
              inbox = arriving (frame_of (encode_block (block_header h (n + 1) last) bytes)) rest;
              outbox = out;
            },
          )
        ≡ block_decoded wire next loop timeout
            (Outcome.ok (block expected h payload n last bytes))
            (m, record { inbox = rest; outbox = out })
  arrives next loop timeout n last bytes m rest out b l =
      let header-IsHeader = block_header-IsHeader h (n + 1) last v (omega arith) (omega arith) in
      read_block-encoded m out next loop timeout (block_header h (n + 1) last) bytes rest
        header-IsHeader l
      ∙ ap (λ d. block_decoded wire next loop timeout d (m, record { inbox = rest; outbox = out }))
          (decode_block-frame (block_header h (n + 1) last) bytes header-IsHeader l)

  pub fragments-IsSome :
      (fuel n : ℕ)
      → 244 * n < length payload
      → length payload ≤ 244 * n + fuel
      → IsSome (fragments fuel h payload (244 * n) (n + 1))
  unfolding IsSome
  fragments-IsSome zero n lo f = absurd (omega arith)
  fragments-IsSome (suc fuel) n lo f = elim (Bool-cases (ltb (244 * n + 244) (length payload))) [
    | inl b ↦ subst IsSome (sym (fragments_full h payload fuel (244 * n) (n + 1) (ground arith))) tt
    | inr b ↦
        subst IsSome (sym (fragments_last h payload fuel (244 * n) (n + 1) lo (ground arith))) tt
  ]

  Waits-taken_in :
      (n : ℕ) (m : StateMachine)
      → Waits expected h payload n m
      → Waits expected h payload
          (suc n)
          (taken_in expected h payload n false (take 244 (drop (244 * n) payload)) m)
  unfolding IsFresh block_header
  Waits-taken_in n m w = record {
    device = w.device;
    under_way = ap (λ r. (h.system_bytes, r) ∷ []) (state_eq expected h payload v e n);
    fresh = inl (omega arith);
    interblock = w.interblock;
  }

  abbrev message : ReceivedMessage
  message = record { header = block_header h 1 true; body = payload }

  receive-last :
      (next : Loop → M Wire ReceivedMessage) (loop : Loop) (timeout n : ℕ) (bytes : List ℕ)
      (m : StateMachine) (rest : List (Result Code ℕ)) (out : List ℕ)
      → Waits expected h payload n m
      → n < 0x7fff
      → length bytes ≤ 244
      → take (244 * n) payload ++ bytes ≡ payload
      → Delivers message rest (out ++ ack ∷ []) (
          read_block wire next loop
            (none, timeout)
            (
              m,
              record {
                inbox = arriving (frame_of (encode_block (block_header h (n + 1) true) bytes)) rest;
                outbox = out;
              },
            ))
  receive-last next loop timeout n bytes m rest out w b l whole =
      let line : Wire = record { inbox = rest; outbox = out ++ ack ∷ [] } in
      let done : StateMachine = record (taken_in expected h payload n true bytes m) {
        in_flight = [];
        state = State.idle;
      } in
      let at_end : Delivers message rest (out ++ ack ∷ []) (ok message, (done, line)) = record {
        returned = refl;
        line = refl;
        idle = refl;
        settled = refl;
      } in
      subst (Delivers message rest (out ++ ack ∷ []))
        (sym (
          arrives next loop timeout n true bytes m rest out b l
          ∙ decoded_last expected h payload e next m loop timeout n bytes rest out w b
          ∙ ap (λ body. (ok (record { header = block_header h 1 true; body = body }), (done, line)))
              whole))
        at_end

  pub receive-single :
      (next : Loop → M Wire ReceivedMessage) (loop : Loop) (timeout n : ℕ) (bytes : List ℕ)
      (m : StateMachine) (rest : List (Result Code ℕ)) (out : List ℕ)
      → Waits expected h payload n m
      → n < 0x7fff
      → length bytes ≤ 244
      → take (244 * n) payload ++ bytes ≡ payload
      → Delivers message rest
          (acknowledged (frame_of (encode_block (block_header h (n + 1) true) bytes) ∷ []) out)
          (read_block wire next loop
            (none, timeout)
            (
              m,
              record {
                inbox =
                    awaited (frame_of (encode_block (block_header h (n + 1) true) bytes) ∷ []) rest;
                outbox = out;
              },
            ))
  unfolding awaited acknowledged incoming confirmed
  receive-single = receive-last

  receive-more :
      (passes : ℕ) (loop : Loop) (timeout n : ℕ) (bytes : List ℕ) (frames : List (List ℕ))
      (m : StateMachine) (rest : List (Result Code ℕ)) (out : List ℕ)
      → Waits expected h payload n m
      → n < 0x7fff
      → length bytes ≤ 244
      → 0 < passes
      → IsSome frames
      → Delivers message rest (acknowledged frames ((out ++ ack ∷ []) ++ eot ∷ [])) (
          read_block wire
            (receive_blocks wire (passes - 1))
            (going_on m.timeouts.t4_interblock)
            (none, m.timeouts.t2_protocol)
            (
              taken_in expected h payload n false bytes m,
              record { inbox = awaited frames rest; outbox = (out ++ ack ∷ []) ++ eot ∷ [] },
            ))
      → Delivers message rest
          (acknowledged (frame_of (encode_block (block_header h (n + 1) false) bytes) ∷ frames) out)
          (read_block wire
            (receive_blocks wire passes)
            loop
            (none, timeout)
            (
              m,
              record {
                inbox =
                    awaited
                      (frame_of (encode_block (block_header h (n + 1) false) bytes) ∷ frames)
                      rest;
                outbox = out;
              },
            ))
  unfolding awaited acknowledged
  receive-more passes loop timeout n bytes frames m rest out w b l q s later =
      let next = receive_blocks wire passes in
      let way =
        arrives next loop timeout n false bytes m (incoming frames rest) out b l
        ∙ decoded_more expected h payload e next m loop timeout n bytes (incoming frames rest) out w
            b
        ∙ next_block passes (taken_in expected h payload n false bytes m) frames
            m.timeouts.t4_interblock rest (out ++ ack ∷ []) q w.interblock s in
      let frame = frame_of (encode_block (block_header h (n + 1) false) bytes) in
      subst
        (λ o. Delivers message rest o (
          read_block wire next loop (none, timeout)
            (m, record { inbox = arriving frame (incoming frames rest); outbox = out })))
        (confirmed-acknowledged frames (out ++ ack ∷ []) s)
        (subst (Delivers message rest (acknowledged frames ((out ++ ack ∷ []) ++ eot ∷ [])))
          (sym way) later)

  -- The blocks after the first `n`, the first of them after its EOT.
  pub receive-fragments :
      (fuel passes n : ℕ) (m : StateMachine) (loop : Loop) (timeout : ℕ)
      (rest : List (Result Code ℕ)) (out : List ℕ)
      → Waits expected h payload n m
      → 244 * n < length payload
      → length payload ≤ 244 * 0x7fff
      → length payload ≤ 244 * n + fuel
      → length payload ≤ 244 * (n + 1) + 244 * passes
      → Delivers message rest (acknowledged (fragments fuel h payload (244 * n) (n + 1)) out) (
          read_block wire
            (receive_blocks wire passes)
            loop
            (none, timeout)
            (
              m,
              record {
                inbox = awaited (fragments fuel h payload (244 * n) (n + 1)) rest;
                outbox = out;
              },
            ))
  receive-fragments zero passes n m loop timeout rest out w lo hi f p = absurd (omega arith)
  receive-fragments (suc fuel) passes n m loop timeout rest out w lo hi f p =
      elim (Bool-cases (ltb (244 * n + 244) (length payload))) [
        | inl b ↦
            let rest_eq =
              ap₂ (λ o k. fragments fuel h payload o k)
                (let q : 244 * n + 244 ≡ 244 * suc n = omega arith in q)
                (let q : (n + 1 + 1) % 2 ^ 16 ≡ suc n + 1 = ground arith in q) in
            let first = take 244 (drop (244 * n) payload) in
            let cut =
              fragments_full h payload fuel (244 * n) (n + 1) (ground arith)
              ∙ ap (λ fs. frame_of (encode_block (block_header h (n + 1) false) first) ∷ fs)
                  rest_eq in
            subst
              (λ fs. Delivers message rest (acknowledged fs out) (
                read_block wire (receive_blocks wire passes) loop (none, timeout)
                  (m, record { inbox = awaited fs rest; outbox = out })))
              (sym cut)
              (receive-more passes loop timeout n first
                (fragments fuel h payload (244 * suc n) (suc n + 1)) m rest out w (ground arith)
                (omega (arith, length-take 244 (drop (244 * n) payload))) (ground arith)
                (fragments-IsSome fuel (suc n) (ground arith) (omega arith))
                (receive-fragments fuel (passes - 1) (suc n)
                  (taken_in expected h payload n false first m) (going_on m.timeouts.t4_interblock)
                  m.timeouts.t2_protocol rest ((out ++ ack ∷ []) ++ eot ∷ []) (Waits-taken_in n m w)
                  (ground arith) hi (omega arith) (ground arith)))
        | inr b ↦
            subst
              (λ fs. Delivers message rest (acknowledged fs out) (
                read_block wire (receive_blocks wire passes) loop (none, timeout)
                  (m, record { inbox = awaited fs rest; outbox = out })))
              (sym (fragments_last h payload fuel (244 * n) (n + 1) lo (ground arith)))
              (receive-single (receive_blocks wire passes) loop timeout n
                (take (length payload - 244 * n) (drop (244 * n) payload)) m rest out w
                (omega arith)
                (ground (arith, length-take (length payload - 244 * n) (drop (244 * n) payload)))
                (take-take (244 * n) (length payload - 244 * n) payload
                  ∙ take_all (244 * n + (length payload - 244 * n)) payload (omega arith)))
      ]
