-- ===== src/Secs1/Machine/Retry.antt =====
-- `StateMachine::async_send` with a peer that refuses now and then.
use secs_lib.Common.{
  ℕ, zero, suc, ◌+◌, ◌-◌, ◌*◌, ◌^◌, ◌%◌, min, take, drop, ◌≡◌, ◌≤◌, ◌<◌, refl, sym, ap, ◌∙◌, Bool,
  true, false, List, [], ◌∷◌, ◌++◌, length, arith, ◌==◌,
}
use secs_lib.Common.Outcome as Outcome
use secs_lib.Common.Outcome.{Result}
use secs_lib.Common.Run.{ok, err}
use secs_lib.Secs1.Block.{Header, max_block_data_size, encode_block, too_many_retries}
use secs_lib.Secs1.Fragment.{fragment_message, fragments, frame_of, block_header}
use secs_lib.Secs1.Machine.{
  Code, secs1_code, enq, ack, StateMachine, State, is_idle, is_timeout, followed, wait_eot,
  wait_check, set_state,
}
use secs_lib.Secs1.Machine.Send.{
  Answer, go_on, again, answered, ask, decide, handshake, transmit, send_frames, too_long,
  async_send, handshake_answer, check_answer,
}
use secs_lib.Secs1.Machine.Wire.{
  wire, taken, Refusal, nak_read, timed_out, refusal, refused, Script, grant, answers, repeated,
  sent, Fits,
}

-- One refusal for each attempt.
handshake_refusal : (r : Refusal) → handshake_answer (refusal r) ≡ again
unfolding handshake_answer refusal is_timeout
handshake_refusal nak_read = refl
handshake_refusal timed_out = refl

check_refusal : (r : Refusal) → check_answer (refusal r) ≡ again
unfolding check_answer refusal is_timeout
check_refusal nak_read = refl
check_refusal timed_out = refl

handshake_grant : (b : Bool) → handshake_answer (Outcome.ok (grant b)) ≡ go_on
unfolding handshake_answer grant
handshake_grant true = refl
handshake_grant false = refl

module _ (m : StateMachine) where
  -- A question to the other end takes the next answer.
  ask-wire :
      (bytes : List ℕ) (judge : Result Code ℕ → Answer) (r : Result Code ℕ)
      (rest : List (Result Code ℕ)) (out : List ℕ)
      → ask wire bytes judge (m, record { inbox = r ∷ rest; outbox = out })
        ≡ (ok (judge r), (m, record { inbox = rest; outbox = out ++ bytes }))
  unfolding ask answered wire taken
  ask-wire bytes judge r rest out = refl

  handshake-wire :
      (rs : List Refusal) (n : ℕ) (b : Bool) (rest : List (Result Code ℕ)) (out : List ℕ)
      → length rs < n
      → handshake wire n
          (m, record { inbox = refused rs (Outcome.ok (grant b) ∷ rest); outbox = out })
        ≡ (ok tt, (m, record { inbox = rest; outbox = repeated (suc (length rs)) (enq ∷ []) out }))
  unfolding handshake decide refused repeated
  handshake-wire rs zero b rest out l = absurd (omega arith)
  handshake-wire [] (suc n) b rest out l =
      rw (ask-wire (enq ∷ []) handshake_answer (Outcome.ok (grant b)) rest out, handshake_grant b)
        refl
  handshake-wire (r ∷ rs) (suc n) b rest out l =
      rw
        (
          ask-wire (enq ∷ []) handshake_answer (refusal r)
              (refused rs (Outcome.ok (grant b) ∷ rest)) out,
          handshake_refusal r,
        )
        (handshake-wire rs n b rest (out ++ enq ∷ []) (omega arith))

  -- As many refusals as there are attempts.
  handshake-refused :
      (rs : List Refusal) (rest : List (Result Code ℕ)) (out : List ℕ)
      → handshake wire (length rs) (m, record { inbox = refused rs rest; outbox = out }) ≡ (
        err (secs1_code too_many_retries),
        (
          record m { state = State.idle },
          record { inbox = rest; outbox = repeated (length rs) (enq ∷ []) out },
        ),
      )
  unfolding handshake decide refused repeated
  handshake-refused [] rest out = refl
  handshake-refused (r ∷ rs) rest out =
      rw
        (
          ask-wire (enq ∷ []) handshake_answer (refusal r) (refused rs rest) out,
          handshake_refusal r,
        )
        (handshake-refused rs rest (out ++ enq ∷ []))

  transmit-wire :
      (frame : List ℕ) (rs : List Refusal) (n : ℕ) (rest : List (Result Code ℕ)) (out : List ℕ)
      → length rs ≤ n
      → transmit wire frame n
          (m, record { inbox = refused rs (Outcome.ok ack ∷ rest); outbox = out })
        ≡ (ok tt, (m, record { inbox = rest; outbox = repeated (suc (length rs)) frame out }))
  unfolding transmit decide refused repeated check_answer
  transmit-wire frame [] zero rest out l =
      rw (ask-wire frame check_answer (Outcome.ok ack) rest out) refl
  transmit-wire frame [] (suc n) rest out l =
      rw (ask-wire frame check_answer (Outcome.ok ack) rest out) refl
  transmit-wire frame (r ∷ rs) zero rest out l = absurd (omega arith)
  transmit-wire frame (r ∷ rs) (suc n) rest out l =
      rw
        (
          ask-wire frame check_answer (refusal r) (refused rs (Outcome.ok ack ∷ rest)) out,
          check_refusal r,
        )
        (transmit-wire frame rs n rest (out ++ frame) (omega arith))

send_frames-wire :
    (m : StateMachine) (frames : List (List ℕ)) (scripts : List Script) (st : State)
    (rest : List (Result Code ℕ)) (out : List ℕ)
    → Fits m.retry_limit frames scripts
    → followed
        (λ u. set_state State.idle)
        (send_frames wire frames
          (record m { state = st }, record { inbox = answers scripts rest; outbox = out }))
      ≡ (
        ok tt,
        (
          record m { state = State.idle },
          record { inbox = rest; outbox = sent frames scripts out },
        ),
      )
unfolding send_frames answers sent Fits
send_frames-wire m [] [] st rest out f = refl
send_frames-wire m [] (s ∷ scripts) st rest out f = absurd f
send_frames-wire m (frame ∷ frames) [] st rest out f = absurd f
send_frames-wire m (frame ∷ frames) (s ∷ scripts) st rest out f =
    let asked = repeated (suc (length s.before_grant)) (enq ∷ []) out in
    let waiting = Outcome.ok ack ∷ answers scripts rest in
    rw
      (
        handshake-wire (record m { state = wait_eot }) s.before_grant m.retry_limit s.by_eot
            (refused s.before_ack waiting) out f.0,
        transmit-wire (record m { state = wait_check }) frame s.before_ack (m.retry_limit - 1)
            (answers scripts rest) asked (omega (arith, f.1)),
      )
      (send_frames-wire m frames scripts wait_check rest
        (repeated (suc (length s.before_ack)) frame asked) f.2)

short_enough : (body : List ℕ) → length body ≤ 244 * 0x7fff → too_long body ≡ false
unfolding too_long
short_enough body l = ground arith

-- A message of at most 0x7fff blocks is sent by an idle object to a peer that refuses each
-- request to send and each frame fewer than `retry_limit` times, with NAK or with silence: the
-- object writes a request and the frame again for each refusal, takes all the answers, succeeds,
-- and is idle again.
pub async_send-answers :
    (m : StateMachine) (header : Header) (body : List ℕ) (scripts : List Script)
    (rest : List (Result Code ℕ)) (out : List ℕ)
    → m.state ≡ State.idle
    → length body ≤ 244 * 0x7fff
    → Fits m.retry_limit (fragment_message header body) scripts
    → async_send wire header body (m, record { inbox = answers scripts rest; outbox = out }) ≡ (
      ok tt,
      (m, record { inbox = rest; outbox = sent (fragment_message header body) scripts out }),
    )
unfolding async_send is_idle
async_send-answers m header body scripts rest out h l f =
    rw (h, short_enough body l)
      (send_frames-wire m (fragment_message header body) scripts State.idle rest out f)

-- There is always a frame.
fragment_message_some :
    (header : Header) (body : List ℕ)
    → length body ≤ 244 * 0x7fff
    → (frame : List ℕ) × (frames : List (List ℕ)) × (fragment_message header body ≡ frame ∷ frames)
unfolding fragment_message fragments
fragment_message_some header [] l = (_, _, refl)
fragment_message_some header (b ∷ bs) l =
    let body = b ∷ bs in
    let chunk = min (length body - 0) max_block_data_size in
    (
      frame_of (
          encode_block (block_header header 1 (0 + chunk == length body))
            (take chunk (drop 0 body))),
      fragments (length bs) header body (0 + chunk) ((1 + 1) % 2 ^ 16),
      ground (arith, l),
    )

send_frames-refused :
    (m : StateMachine) (frame : List ℕ) (frames : List (List ℕ)) (rs : List Refusal)
    (rest : List (Result Code ℕ)) (out : List ℕ)
    → length rs ≡ m.retry_limit
    → send_frames wire (frame ∷ frames) (m, record { inbox = refused rs rest; outbox = out }) ≡ (
      err (secs1_code too_many_retries),
      (
        record m { state = State.idle },
        record { inbox = rest; outbox = repeated (length rs) (enq ∷ []) out },
      ),
    )
unfolding send_frames
send_frames-refused m frame frames rs rest out n =
    let waiting : StateMachine = record m { state = wait_eot } in
    let given_up =
      ap (λ k. handshake wire k (waiting, record { inbox = refused rs rest; outbox = out })) (sym n)
      ∙ handshake-refused waiting rs rest out in
    rw given_up refl

-- Where an idle object sends a message of at most 0x7fff blocks, a peer that answers the first
-- `retry_limit` requests with NAK or with silence is asked no more: the call has written as many
-- requests, fails with too_many_retries, and the object is idle.
pub async_send-refused :
    (m : StateMachine) (header : Header) (body : List ℕ) (rs : List Refusal)
    (rest : List (Result Code ℕ)) (out : List ℕ)
    → m.state ≡ State.idle
    → length body ≤ 244 * 0x7fff
    → length rs ≡ m.retry_limit
    → async_send wire header body (m, record { inbox = refused rs rest; outbox = out }) ≡ (
      err (secs1_code too_many_retries),
      (m, record { inbox = rest; outbox = repeated (length rs) (enq ∷ []) out }),
    )
unfolding async_send is_idle
async_send-refused m header body rs rest out h l n =
    let (frame, frames, e) = fragment_message_some header body l in
    rw
      (
        h,
        short_enough body l,
        e,
        send_frames-refused (record m { state = State.idle }) frame frames rs rest out n,
      )
      refl
