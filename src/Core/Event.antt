-- ===== src/Core/Event.antt =====
-- The events that coroutines wait for: src/core/event.cpp. A wait is what it does before it
-- suspends and what it does when its timer wakes it; the timer is the environment's.
use secs_lib.Common.{
  ℕ, ◌+◌, ◌-◌, ◌%◌, ◌^◌, Bool, true, false, not, Option, none, some, leb, ◌==◌, if◌then◌else◌,
}
use secs_lib.Core.Error.{Failure, core, system, timeout, cancelled, out_of_memory}

pub record Event : Type 0 where
  pub signaled : Bool
  pub set_generation : ℕ
  pub cancel_generation : ℕ
  pub waiters : ℕ
  pub max_waiters : ℕ

unfoldable pub new_event : ℕ → Event
new_event max_waiters = record {
  signaled = false;
  set_generation = 0;
  cancel_generation = 0;
  waiters = 0;
  max_waiters = max_waiters;
}

unfoldable pub set : Event → Event
set e = record e { signaled = true; set_generation = (e.set_generation + 1) % 2 ^ 64 }

unfoldable pub reset : Event → Event
reset e = record e { signaled = false }

unfoldable pub cancel : Event → Event
cancel e = record e { cancel_generation = (e.cancel_generation + 1) % 2 ^ 64 }

-- What a wait does at first: it returns, or suspends with the two generations it saw.
pub data Wait : Type 0 where
  returns : Option Failure → Wait
  suspends : ℕ → ℕ → Wait

unfoldable pub wait : Event → Wait × Event
wait e =
    if e.signaled
    then (returns none, e)
    else (if leb (if e.max_waiters == 0 then 1 else e.max_waiters) e.waiters
        then (returns (some (core out_of_memory)), e)
        else (suspends e.set_generation e.cancel_generation, record e { waiters = e.waiters + 1 }))

-- How the timer of a wait ended.
pub data Wake : Type 0 where
  expired aborted : Wake
  failed : ℕ → Wake

unfoldable pub wake_code : Wake → Failure
wake_code expired = core timeout
wake_code aborted = core cancelled
wake_code (failed e) = system e

-- What a suspended wait returns.
unfoldable pub woken : ℕ → ℕ → Wake → Event → Option Failure × Event
woken set_seen cancel_seen wake e =
    let left : Event = record e { waiters = e.waiters - 1 } in
    if not (e.set_generation == set_seen)
    then (none, left)
    else (if not (e.cancel_generation == cancel_seen)
        then (some (core cancelled), left)
        else (some (wake_code wake), left))
