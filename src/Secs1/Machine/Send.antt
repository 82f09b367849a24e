-- ===== src/Secs1/Machine/Send.antt =====
-- `StateMachine::async_send`.
use secs_lib.Common.{
  ℕ, zero, suc, ◌+◌, ◌-◌, ◌/◌, Bool, ◌&&◌, ◌||◌, not, List, [], ◌∷◌, Option, none, some, ltb, ◌==◌,
  if◌then◌else◌, length,
}
use secs_lib.Common.Outcome as Outcome
use secs_lib.Common.Outcome.{Result}
use secs_lib.Core.Error as Core
use secs_lib.Secs1.Block as Block
use secs_lib.Secs1.Block.{Header, max_block_data_size}
use secs_lib.Secs1.Fragment.{fragment_message}
use secs_lib.Secs1.Machine.{
  Code, core_code, secs1_code, enq, eot, ack, nak, Link, State, is_idle, is_timeout, M, pure, throw,
  ◌>>=◌, ◌>>◌, get, set_state, write, read_byte,
}

-- What a byte read in answer is taken for.
pub data Answer : Type 0 where
  go_on again : Answer
  give_up : Code → Answer

-- After ENQ: EOT and ACK permit to send; NAK and the timeout lead to the next attempt.
unfoldable pub handshake_answer : Result Code ℕ → Answer
handshake_answer (Outcome.ok resp) =
    if resp == eot || resp == ack
    then go_on
    else (if resp == nak then again else give_up (secs1_code Block.protocol_error))
handshake_answer (Outcome.err e) = if is_timeout e then again else give_up e

-- After a frame: ACK ends it; NAK and the timeout lead to the next attempt.
unfoldable pub check_answer : Result Code ℕ → Answer
check_answer (Outcome.ok resp) =
    if resp == ack
    then go_on
    else (if resp == nak then again else give_up (secs1_code Block.protocol_error))
check_answer (Outcome.err e) = if is_timeout e then again else give_up e

unfoldable pub too_long : List ℕ → Bool
too_long body =
    not (length body == 0)
    && ltb 0x7fff ((length body + max_block_data_size - 1) / max_block_data_size)

module _ {S : Type 0} (link : Link S) where
  -- The object is idle again when the call returns.
  abbrev pub fail : {A : Type 0} → Code → M S A
  fail e = set_state State.idle >> throw e

  -- After a write: its error, or what is read within T2, judged.
  unfoldable pub answered : (Result Code ℕ → Answer) → Option Code → M S Answer
  answered judge (some code) = pure (give_up code)
  answered judge none = do
    m ← get
    resp ← read_byte link (some m.timeouts.t2_protocol)
    pure (judge resp)

  unfoldable pub ask : List ℕ → (Result Code ℕ → Answer) → M S Answer
  unfolding answered
  ask bytes judge = write link bytes >>= answered judge

  -- What follows an answer, where `next` is what NAK and the timeout lead to.
  unfoldable pub decide : M S (Unit {0}) → Answer → M S (Unit {0})
  decide next go_on = pure tt
  decide next again = next
  decide next (give_up e) = fail e

  -- The attempts that are left to get the permission to send.
  unfoldable pub handshake : ℕ → M S (Unit {0})
  unfolding decide
  handshake zero = fail (secs1_code Block.too_many_retries)
  handshake (suc attempts) = ask (enq ∷ []) handshake_answer >>= decide (handshake attempts)

  -- One frame, and the attempts that are left after this one.
  unfoldable pub transmit : List ℕ → ℕ → M S (Unit {0})
  unfolding decide
  transmit frame zero = ask frame check_answer >>= decide (fail (secs1_code Block.too_many_retries))
  transmit frame (suc attempts) = ask frame check_answer >>= decide (transmit frame attempts)

  -- Each frame has a handshake of its own.
  unfoldable pub send_frames : List (List ℕ) → M S (Unit {0})
  send_frames [] = pure tt
  send_frames (frame ∷ frames) = do
    set_state State.wait_eot
    m ← get
    handshake m.retry_limit
    set_state State.wait_check
    m' ← get
    transmit frame (m'.retry_limit - 1)
    send_frames frames

  unfoldable pub async_send : Header → List ℕ → M S (Unit {0})
  async_send header body = do
    m ← get
    if not (is_idle m.state) || too_long body
        then throw (core_code Core.invalid_argument)
        else (send_frames (fragment_message header body) >> set_state State.idle)
