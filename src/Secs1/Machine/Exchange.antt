-- ===== src/Secs1/Machine/Exchange.antt =====
-- A message from `async_send` of one `StateMachine` to `async_receive` of another.
use secs_lib.Common.{
  ℕ, suc, ◌*◌, ◌≡◌, ◌≤◌, ◌<◌, refl, sym, subst, true, false, List, [], ◌∷◌, ◌++◌, Option, none,
  some, length, arith, inr,
}
use secs_lib.Common.Outcome.{Result}
use secs_lib.Secs1.Block.{Header, encode_block}
use secs_lib.Secs1.Fragment.{block_header, frame_of, fragments, fragment_message}
use secs_lib.Secs1.Reassembler.{is_unexpected}
use secs_lib.Secs1.Transfer.{IsBase}
use secs_lib.Secs1.Machine.{Code, eot, StateMachine, State, ReceivedMessage, is_idle, wait_block}
use secs_lib.Secs1.Machine.Receive.{
  Loop, read_block, receive_blocks, block_start, receive_new, permitted, async_receive, is_empty,
}
use secs_lib.Secs1.Machine.Wire.{
  wire, incoming, awaited, confirmed, acknowledged, IsSome, incoming-awaited,
  confirmed-acknowledged,
}
use secs_lib.Secs1.Machine.Arrive.{wait_enq-arriving}
use secs_lib.Secs1.Machine.Collect.{IsNew, IsFresh, Waits}
use secs_lib.Secs1.Machine.Deliver.{Delivers, receive-single, receive-fragments, fragments-IsSome}

-- The first request, up to the first block.
first_block :
    (passes : ℕ) (timeout : Option ℕ) (m : StateMachine) (frames : List (List ℕ))
    (rest : List (Result Code ℕ)) (out : List ℕ)
    → m.state ≡ State.idle
    → m.in_flight ≡ []
    → IsSome frames
    → async_receive wire
        (suc passes)
        timeout
        (m, record { inbox = incoming frames rest; outbox = out })
      ≡ read_block wire
          (receive_blocks wire passes)
          (record {
            nack_count = 0;
            allow_enq_or_length = false;
            next_block_timeout = m.timeouts.t2_protocol;
          })
          (none, m.timeouts.t2_protocol)
          (
            record m { state = wait_block },
            record { inbox = awaited frames rest; outbox = out ++ eot ∷ [] },
          )
unfolding async_receive receive_new permitted receive_blocks block_start is_idle is_empty wire
first_block passes timeout m frames rest out h f s =
    rw
      (
        h,
        f,
        incoming-awaited frames rest s,
        wait_enq-arriving (record m { state = State.idle; in_flight = [] }) out passes timeout
            (awaited frames rest),
      )
      refl

fragment_message_cons :
    (h : Header) (b : ℕ) (bs : List ℕ)
    → length (b ∷ bs) ≤ 244 * 0x7fff
    → fragment_message h (b ∷ bs) ≡ fragments (length (b ∷ bs)) h (b ∷ bs) 0 1
unfolding fragment_message
fragment_message_cons h b bs l = ground arith

IsSome-single : (frame : List ℕ) → IsSome (frame ∷ [])
unfolding IsSome
IsSome-single frame = tt

IsNew-IsFresh :
    (expected : Option ℕ) (h : Header) (payload : List ℕ) (g : Option Header)
    → IsNew g h
    → IsFresh expected h payload 0 g
unfolding IsNew IsFresh
IsNew-IsFresh expected h payload none n = tt
IsNew-IsFresh expected h payload (some g) n = inr n

module _ (h : Header) (m : StateMachine) where
  -- An object that is to take the message: idle, with nothing in flight, for the header's device,
  -- and a block of other system bytes, if any, was the last one accepted.
  pub record IsReady : Type 0 where
    pub idle : m.state ≡ State.idle
    pub settled : m.in_flight ≡ []
    pub new : IsNew m.last_accepted_header h
    pub device : is_unexpected m.expected_device_id h.device_id ≡ false
    pub interblock : 0 < m.timeouts.t4_interblock

  -- The object once the first request has come.
  abbrev waiting : StateMachine
  waiting = record m { state = wait_block }

  abbrev first_loop : Loop
  first_loop = record {
    nack_count = 0;
    allow_enq_or_length = false;
    next_block_timeout = m.timeouts.t2_protocol;
  }

  begins :
      (message : ReceivedMessage) (frames : List (List ℕ)) (passes : ℕ) (timeout : Option ℕ)
      (rest : List (Result Code ℕ)) (out : List ℕ)
      → IsReady
      → IsSome frames
      → Delivers message rest (acknowledged frames (out ++ eot ∷ [])) (
          read_block wire
            (receive_blocks wire passes)
            first_loop
            (none, m.timeouts.t2_protocol)
            (waiting, record { inbox = awaited frames rest; outbox = out ++ eot ∷ [] }))
      → Delivers message rest (confirmed frames out) (
          async_receive wire
            (suc passes)
            timeout
            (m, record { inbox = incoming frames rest; outbox = out }))
  begins message frames passes timeout rest out r s d =
      subst
        (λ o. Delivers message rest o (
          async_receive wire (suc passes) timeout
            (m, record { inbox = incoming frames rest; outbox = out })))
        (confirmed-acknowledged frames out s)
        (subst (Delivers message rest (acknowledged frames (out ++ eot ∷ [])))
          (sym (first_block passes timeout m frames rest out r.idle r.settled s)) d)

  -- A message that was cut into frames and sent with a request before each is received whole: it is
  -- returned, EOT and ACK answer each frame, and the object is idle with nothing in flight.
  pub async_receive-fragment_message :
      (payload : List ℕ) (passes : ℕ) (timeout : Option ℕ) (rest : List (Result Code ℕ))
      (out : List ℕ)
      → IsBase h
      → IsReady
      → length payload ≤ 244 * 0x7fff
      → length payload ≤ 244 * suc passes
      → Delivers
          (record { header = block_header h 1 true; body = payload })
          rest
          (confirmed (fragment_message h payload) out)
          (async_receive wire
            (suc passes)
            timeout
            (m, record { inbox = incoming (fragment_message h payload) rest; outbox = out }))
  unfolding fragment_message
  async_receive-fragment_message [] passes timeout rest out v r l p =
      let w : Waits m.expected_device_id h [] 0 waiting = record {
        device = refl;
        under_way = r.settled;
        fresh = IsNew-IsFresh m.expected_device_id h [] m.last_accepted_header r.new;
        interblock = r.interblock;
      } in
      begins (record { header = block_header h 1 true; body = [] })
        (frame_of (encode_block (block_header h 1 true) []) ∷ []) passes timeout rest out r
        (IsSome-single _)
        (receive-single m.expected_device_id h [] v r.device (receive_blocks wire passes) first_loop
          m.timeouts.t2_protocol 0 [] waiting rest (out ++ eot ∷ []) w (omega arith) (omega arith)
          refl)
  async_receive-fragment_message (b ∷ bs) passes timeout rest out v r l p =
      let payload = b ∷ bs in
      let message : ReceivedMessage = record { header = block_header h 1 true; body = payload } in
      let w : Waits m.expected_device_id h payload 0 waiting = record {
        device = refl;
        under_way = r.settled;
        fresh = IsNew-IsFresh m.expected_device_id h payload m.last_accepted_header r.new;
        interblock = r.interblock;
      } in
      subst
        (λ frames. Delivers message rest (confirmed frames out) (
          async_receive wire (suc passes) timeout
            (m, record { inbox = incoming frames rest; outbox = out })))
        (sym (fragment_message_cons h b bs l))
        (begins message (fragments (length payload) h payload 0 1) passes timeout rest out r
          (fragments-IsSome m.expected_device_id h payload v r.device (length payload) 0
            (omega arith) (omega arith))
          (receive-fragments m.expected_device_id h payload v r.device (length payload) passes 0
            waiting first_loop m.timeouts.t2_protocol rest (out ++ eot ∷ []) w (omega arith) l
            (omega arith) (omega arith)))
