-- ===== src/Secs1/Machine.antt =====
-- The class `StateMachine` of include/secs/secs1/state_machine.hpp and src/secs1/state_machine.cpp.
-- The link and the clock are an interface: their state is of any type, and a call gives its result
-- and the state after it. A coroutine is the sequence of its calls of the link; nothing else uses
-- the object between them, which is what `state_` is there to see to.
pub mod Send
pub mod Restores
pub mod Stops
pub mod Rests
pub mod Receive
pub mod Wire
pub mod Retry
pub mod Arrive
pub mod Collect
pub mod Deliver
pub mod Exchange
pub mod Converse
mod Tests
use secs_lib.Common.{ℕ, zero, suc, Bool, true, false, List, [], ◌∷◌, Option, none, some}
use secs_lib.Common.Outcome.{Result}
use secs_lib.Common.Run.{Run, ok, err, stuck}
use secs_lib.Core.Error as Core
use secs_lib.Secs1.Block as Block
use secs_lib.Secs1.Block.{Header}
use secs_lib.Secs1.Reassembler.{Reassembler}

-- A `std::error_code`: of the core, of SECS-I, or of another category, which only links return.
pub data Code : Type 0 where
  core_code : Core.Errc → Code
  secs1_code : Block.Errc → Code
  other_code : ℕ → Code

abbrev pub enq : ℕ
enq = 0x05

abbrev pub eot : ℕ
eot = 0x04

abbrev pub ack : ℕ
ack = 0x06

abbrev pub nak : ℕ
nak = 0x15

-- `Link`, and the steady clock; durations are numbers of ticks, and `none` waits without an end.
pub record Link (S : Type 0) : Type 0 where
  pub async_write : List ℕ → S → Option Code × S
  pub async_read_byte : Option ℕ → S → Result Code ℕ × S
  pub now : S → ℕ × S

pub record Timeouts : Type 0 where
  pub t1_intercharacter : ℕ
  pub t2_protocol : ℕ
  pub t3_reply : ℕ
  pub t4_interblock : ℕ

pub data State : Type 0 where
  idle wait_eot wait_block wait_check : State

pub record ReceivedMessage : Type 0 where
  pub header : Header
  pub body : List ℕ

-- The fields but the link. The time of the last block of a message under way is left out of
-- `in_flight`, since nothing reads it.
pub record StateMachine : Type 0 where
  pub expected_device_id : Option ℕ
  pub timeouts : Timeouts
  pub retry_limit : ℕ
  pub state : State
  pub in_flight : List (ℕ × Reassembler)
  pub last_accepted_header : Option Header
  pub last_accepted_data : List ℕ

unfoldable pub is_idle : State → Bool
is_idle idle = true
is_idle _ = false

-- `is_timeout`, of a read's result.
unfoldable pub is_timeout : Code → Bool
is_timeout (core_code Core.timeout) = true
is_timeout _ = false

-- A computation with the object and the link: its result, and both after it.
abbrev pub M : Type 0 → Type 0 → Type 0
M S A = StateMachine × S → Run Code A × (StateMachine × S)

abbrev pub pure : {S A : Type 0} → A → M S A
pure a w = (ok a, w)

abbrev pub throw : {S A : Type 0} → Code → M S A
throw e w = (err e, w)

-- What follows a computation that ended so.
abbrev pub followed :
    {S A B : Type 0}
    → (A → M S B)
    → Run Code A × (StateMachine × S)
    → Run Code B × (StateMachine × S)
followed f (ok a, w) = f a w
followed f (err e, w) = (err e, w)
followed f (stuck, w) = (stuck, w)

infixl 5 ◌>>=◌ ◌>>◌
abbrev pub ◌>>=◌ : {S A B : Type 0} → M S A → (A → M S B) → M S B
◌>>=◌ m f w = followed f (m w)

abbrev pub ◌>>◌ : {S B : Type 0} → M S (Unit {0}) → M S B → M S B
m >> k = m >>= λ _. k

abbrev pub get : {S : Type 0} → M S StateMachine
get (m, s) = (ok m, (m, s))

abbrev pub put : {S : Type 0} → StateMachine → M S (Unit {0})
put m (old, s) = (ok tt, (m, s))

abbrev pub set_state : {S : Type 0} → State → M S (Unit {0})
set_state st (m, s) = (ok tt, (record m { state = st }, s))

module _ {S : Type 0} (link : Link S) where
  abbrev pub write : List ℕ → M S (Option Code)
  write bytes (m, s) = let (e, s') = link.async_write bytes s in (ok e, (m, s'))

  abbrev pub read_byte : Option ℕ → M S (Result Code ℕ)
  read_byte timeout (m, s) = let (r, s') = link.async_read_byte timeout s in (ok r, (m, s'))

  abbrev pub clock : M S ℕ
  clock (m, s) = let (t, s') = link.now s in (ok t, (m, s'))
