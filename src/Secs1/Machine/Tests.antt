-- ===== src/Secs1/Machine/Tests.antt =====
-- The theorems about the state machine at concrete objects and answers.
use secs_lib.Common.{
  ℕ, ◌≡◌, refl, List, [], ◌∷◌, arith, true, false, replicate, length-replicate, none, some,
}
use secs_lib.Common.Outcome as Outcome
use secs_lib.Common.Run.{ok, err}
use secs_lib.Secs1.Block.{Header, too_many_retries}
use secs_lib.Secs1.Fragment.{block_header, fragment_message}
use secs_lib.Secs1.Reassembler.{is_unexpected}
use secs_lib.Secs1.Transfer.{IsBase}
use secs_lib.Secs1.Machine.{enq, StateMachine, State, secs1_code}
use secs_lib.Secs1.Machine.Send.{async_send}
use secs_lib.Secs1.Machine.Receive.{async_receive}
use secs_lib.Secs1.Machine.Restores.{Restored, async_send-Ends}
use secs_lib.Secs1.Machine.Wire.{
  wire, Script, nak_read, timed_out, answers, refused, sent, repeated, Fits, arriving,
}
use secs_lib.Secs1.Machine.Retry.{async_send-answers, async_send-refused}
use secs_lib.Secs1.Machine.Collect.{IsNew}
use secs_lib.Secs1.Machine.Deliver.{Delivers}
use secs_lib.Secs1.Machine.Exchange.{IsReady}
use secs_lib.Secs1.Machine.Converse.{async_send-async_receive}
use secs_lib.Secs1.Machine.{ReceivedMessage}
use secs_lib.Secs1.Machine.Stops.{Stops, IsIdle}
use secs_lib.Secs1.Machine.Rests.{async_receive-Stops}

abbrev request : Header
request = record {
  reverse_bit = false;
  device_id = 7;
  wait_bit = true;
  stream = 1;
  function = 13;
  end_bit = true;
  block_number = 1;
  system_bytes = 42;
}

request-IsBase : IsBase request
request-IsBase = record {
  device = omega arith;
  stream = omega arith;
  function = omega arith;
  system = omega arith;
}

abbrev machine : StateMachine
machine = record {
  expected_device_id = some 7;
  timeouts = record { t1_intercharacter = 1; t2_protocol = 3; t3_reply = 45; t4_interblock = 45 };
  retry_limit = 3;
  state = State.idle;
  in_flight = [];
  last_accepted_header = none;
  last_accepted_data = [];
}

machine-IsReady : IsReady request machine
unfolding IsNew is_unexpected
machine-IsReady = record {
  idle = refl;
  settled = refl;
  new = tt;
  device = refl;
  interblock = omega arith;
}

-- A message of two blocks.
abbrev long_body : List ℕ
long_body = replicate 300 9

async_send-async_receive_example :
    (requests : List ℕ) × (replies : List ℕ) × (async_send wire request long_body
        (machine, record { inbox = arriving replies []; outbox = [] })
      ≡ (ok tt, (machine, record { inbox = []; outbox = requests })))
    × Delivers
        (record { header = block_header request 1 true; body = long_body })
        []
        replies
        (async_receive wire 2 none (machine, record { inbox = arriving requests []; outbox = [] }))
async_send-async_receive_example =
    async_send-async_receive request long_body machine machine 1 none refl (omega arith)
      request-IsBase machine-IsReady (omega (arith, length-replicate {A = ℕ} 300 9))
      (omega (arith, length-replicate {A = ℕ} 300 9))

-- The request is refused twice, and the frame once.
abbrev scripts : List Script
scripts =
    record { before_grant = nak_read ∷ timed_out ∷ []; by_eot = true; before_ack = nak_read ∷ [] }
    ∷ []

scripts-Fits : Fits 3 (fragment_message request []) scripts
unfolding fragment_message Fits
scripts-Fits = (omega arith, omega arith, tt)

async_send-answers_example :
    async_send wire request [] (machine, record { inbox = answers scripts []; outbox = [] }) ≡ (
      ok tt,
      (machine, record { inbox = []; outbox = sent (fragment_message request []) scripts [] }),
    )
async_send-answers_example =
    async_send-answers machine request [] scripts [] [] refl (omega arith) scripts-Fits

async_send-refused_example :
    async_send wire request []
      (machine, record { inbox = refused (nak_read ∷ timed_out ∷ nak_read ∷ []) []; outbox = [] })
    ≡ (
      err (secs1_code too_many_retries),
      (machine, record { inbox = []; outbox = repeated 3 (enq ∷ []) [] }),
    )
async_send-refused_example =
    async_send-refused machine request [] (nak_read ∷ timed_out ∷ nak_read ∷ []) [] [] refl
      (omega arith) refl

async_send-Ends_example :
    Restored machine
      (async_send wire request [] (machine, record { inbox = Outcome.ok 0x41 ∷ []; outbox = [] }))
async_send-Ends_example =
    async_send-Ends wire request [] machine (record { inbox = Outcome.ok 0x41 ∷ []; outbox = [] })
      refl

-- Noise, and then nothing more.
async_receive-Stops_example :
    Stops ReceivedMessage IsIdle
      (async_receive wire 3 none (machine, record { inbox = Outcome.ok 0x41 ∷ []; outbox = [] }))
async_receive-Stops_example =
    async_receive-Stops wire 3 none machine (record { inbox = Outcome.ok 0x41 ∷ []; outbox = [] })
      refl
