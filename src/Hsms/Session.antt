-- ===== src/Hsms/Session.antt =====
-- The HSMS session: include/secs/hsms/session.hpp and src/hsms/session.cpp. A coroutine is the
-- functions it runs through between its waits; what a wait, a read or a write gives it comes with
-- the step. `pending` is the map from system bytes to transactions; one that leaves it stands in
-- `released` as its waiter sees it, and its number stands for the pointer that both share. The
-- control events that the callback gets are recorded.
pub mod Reader
pub mod Transactions
pub mod Calls
pub mod Invariant
pub mod Entries
pub mod Steps
pub mod Opening
pub mod Reached
pub mod Replies
pub mod Responses
mod Tests
use secs_lib.Common.{
  ℕ, ◌+◌, ◌%◌, ◌^◌, Bool, true, false, not, List, [], ◌∷◌, ◌++◌, Option, none, some, ◌==◌,
  if◌then◌else◌, length,
}
use secs_lib.Core.Error.{Failure, core, cancelled}
use secs_lib.Core.Event
use secs_lib.Core.Event.{Event, new_event}
use secs_lib.Hsms.Message.{Header, Message, is_control, header_of, header_size}
use secs_lib.Hsms.SType
use secs_lib.Hsms.Connection.{
  Connection, new_connection, enable_data_writes, disable_data_writes, close, write_message,
}

pub data SessionState : Type 0 where
  disconnected connected selected : SessionState

unfoldable pub is_selected : SessionState → Bool
is_selected selected = true
is_selected _ = false

unfoldable pub is_disconnected : SessionState → Bool
is_disconnected disconnected = true
is_disconnected _ = false

pub data ControlDirection : Type 0 where
  rx tx : ControlDirection

-- The fields of the event's header stand together.
pub record ControlEvent : Type 0 where
  pub direction : ControlDirection
  pub state : SessionState
  pub header : Header
  pub rejected_header : Option Header

pub record SessionOptions : Type 0 where
  pub session_id : ℕ
  pub linktest_interval : ℕ
  pub linktest_max_consecutive_failures : ℕ
  pub auto_reconnect : Bool
  pub passive_accept_select : Bool
  pub max_pending_requests : ℕ
  pub observed : Bool

-- A transaction that waits, or has waited, for its response.
pub record Pending : Type 0 where
  pub number : ℕ
  pub expected_stype : ℕ
  pub ready : Event
  pub ec : Option Failure
  pub response : Option Message

pub record Session : Type 0 where
  pub options : SessionOptions
  pub connection : Connection
  pub system_bytes : ℕ
  pub state : SessionState
  pub selected_generation : ℕ
  pub stop_requested : Bool
  pub reader_running : Bool
  pub selected_event : Event
  pub disconnected_event : Event
  pub reader_stopped_event : Event
  pub inbound_event : Event
  pub inbound_data : List Message
  pub pending : List (ℕ × Pending)
  pub released : List Pending
  pub control_events : List ControlEvent
  pub linktests : List ℕ
  pub numbers : ℕ

abbrev pub control_session_id : ℕ
control_session_id = 0xFFFF

abbrev pub rsp_ok : ℕ
rsp_ok = 0

abbrev pub rsp_reject : ℕ
rsp_reject = 1

abbrev pub fresh_event : Event
fresh_event = new_event 1024

-- `ConnectionOptions::max_queue_size`, which a session leaves as it is.
abbrev pub default_queue_size : ℕ
default_queue_size = 1024

unfoldable pub new_session : SessionOptions → Session
new_session options = record {
  options = options;
  connection = new_connection false default_queue_size;
  system_bytes = 1;
  state = disconnected;
  selected_generation = 0;
  stop_requested = false;
  reader_running = false;
  selected_event = fresh_event;
  disconnected_event = fresh_event;
  reader_stopped_event = Event.set fresh_event;
  inbound_event = fresh_event;
  inbound_data = [];
  pending = [];
  released = [];
  control_events = [];
  linktests = [];
  numbers = 0;
}

-- The transactions of the map, without their keys.
unfoldable pub transactions : List (ℕ × Pending) → List Pending
transactions [] = []
transactions ((sb, p) ∷ rest) = p ∷ transactions rest

-- `pending->ec = reason; pending->ready.cancel()`.
unfoldable pub cancelled_with : Failure → Pending → Pending
cancelled_with reason p = record p { ec = some reason; ready = Event.cancel p.ready }

unfoldable pub all_cancelled : Failure → List (ℕ × Pending) → List Pending
all_cancelled reason [] = []
all_cancelled reason ((sb, p) ∷ rest) = cancelled_with reason p ∷ all_cancelled reason rest

unfoldable pub reset_state : Session → Session
reset_state s = record s {
  state = connected;
  connection = disable_data_writes (core cancelled) s.connection;
  selected_event = Event.reset s.selected_event;
  inbound_event = Event.reset s.inbound_event;
  disconnected_event = Event.reset s.disconnected_event;
  inbound_data = [];
  pending = [];
  released = s.released ++ transactions s.pending;
}

-- `linktests` holds the generations for which `linktest_loop_` was started. The start itself does not fail.
unfoldable pub set_selected : Session → Session
set_selected s =
    let gen = (s.selected_generation + 1) % 2 ^ 64 in
    if is_selected s.state then s else record s {
      state = selected;
      connection = enable_data_writes s.connection;
      selected_generation = gen;
      selected_event = Event.set s.selected_event;
      linktests = if s.options.linktest_interval == 0 then s.linktests else s.linktests ++ gen ∷ [];
    }

unfoldable pub is_data_transaction : Pending → Bool
is_data_transaction p = p.expected_stype == SType.data_message

-- `cancel_pending_data_`: the transactions that stay, and those that are cancelled.
unfoldable pub without_data : List (ℕ × Pending) → List (ℕ × Pending)
without_data [] = []
without_data ((sb, p) ∷ rest) =
    let more = without_data rest in if is_data_transaction p then more else (sb, p) ∷ more

unfoldable pub data_cancelled : Failure → List (ℕ × Pending) → List Pending
data_cancelled reason [] = []
data_cancelled reason ((sb, p) ∷ rest) =
    let more = data_cancelled reason rest in
    if is_data_transaction p then cancelled_with reason p ∷ more else more

unfoldable pub cancel_pending_data : Failure → Session → Session
cancel_pending_data reason s = record s {
  pending = without_data s.pending;
  released = s.released ++ data_cancelled reason s.pending;
}

unfoldable pub set_not_selected : Session → Session
set_not_selected s =
    if is_disconnected s.state
    then s
    else cancel_pending_data (core cancelled) (record s {
      state = connected;
      connection = disable_data_writes (core cancelled) s.connection;
      selected_event = Event.reset s.selected_event;
      inbound_data = [];
      inbound_event = Event.reset (Event.cancel s.inbound_event);
    })

unfoldable pub on_disconnected : Failure → Session → Session
on_disconnected reason s = record s {
  state = disconnected;
  connection = disable_data_writes reason s.connection;
  selected_event = Event.reset (Event.cancel s.selected_event);
  inbound_event = Event.reset (Event.cancel s.inbound_event);
  reader_running = false;
  disconnected_event = Event.set s.disconnected_event;
  pending = [];
  released = s.released ++ all_cancelled reason s.pending;
  inbound_data = [];
}

-- The header that a Reject.req echoes.
unfoldable pub rejected_of : Message → Option Header
rejected_of m =
    if m.header.s_type == SType.reject_req
    then (if length m.body == header_size then some (header_of m.body) else none)
    else none

unfoldable pub emit_control_event : ControlDirection → Message → Session → Session
emit_control_event direction m s =
    if not s.options.observed
    then s
    else (if not (is_control m) then s else record s {
      control_events =
          s.control_events
          ++ record {
            direction = direction;
            state = s.state;
            header = m.header;
            rejected_header = rejected_of m;
          }
            ∷ [];
    })

-- `connection_.async_write_message` up to its wait.
unfoldable pub write : Message → Session → Session × Option Failure
write m s =
    let r = write_message s.numbers m s.connection in
    (record s { connection = r.0; numbers = s.numbers + 1 }, r.1)

-- What follows a control message that was written, or not.
unfoldable pub emit_written : Option Failure → Message → Session → Session
emit_written none m s = emit_control_event tx m s
emit_written (some e) m s = s

unfoldable pub close_connection : Session → Session
close_connection s = record s { connection = close s.connection }

unfoldable pub stop : Session → Session
stop s = on_disconnected (core cancelled) (close_connection (record s { stop_requested = true }))

unfoldable pub allocate_system_bytes : Session → Session
allocate_system_bytes s = record s { system_bytes = (s.system_bytes + 1) % 2 ^ 32 }
