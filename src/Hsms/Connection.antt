-- ===== src/Hsms/Connection.antt =====
-- The writing side of src/hsms/connection.cpp: the two queues of requests, the writer that puts them
-- on the stream, and the gate for data messages. The stream itself is the program's environment: a
-- step brings how a write to it ended. A request's number stands for the pointer that its caller and
-- the queues share, and `results` holds the requests whose `done` is set, with their error codes.
pub mod Invariant
pub mod Steps
pub mod Incoming
pub mod Chunks
pub mod Gate
pub mod Control
pub mod Accounts
use secs_lib.Common.{
  ℕ, ◌+◌, Bool, true, false, ◌&&◌, not, List, [], ◌∷◌, ◌++◌, map, Option, none, some, ltb, ◌==◌,
  if◌then◌else◌, length,
}
use secs_lib.Common.Outcome.{Result, ok, err}
use secs_lib.Core.Error.{Failure, core, Errc, cancelled, buffer_overflow, invalid_argument}
use secs_lib.Hsms.Message.{Message, is_data, encode_frame}

pub record WriteRequest : Type 0 where
  pub id : ℕ
  pub frame : List ℕ
  pub is_data_request : Bool

pub record Connection : Type 0 where
  pub is_open : Bool
  pub data_writes_enabled : Bool
  pub control_queue : List WriteRequest
  pub data_queue : List WriteRequest
  pub in_flight : Option WriteRequest
  pub results : List (WriteRequest × Option Failure)
  pub writer_running : Bool
  pub max_queue_size : ℕ

unfoldable pub new_connection : Bool → ℕ → Connection
new_connection opened max_queue_size = record {
  is_open = opened;
  data_writes_enabled = true;
  control_queue = [];
  data_queue = [];
  in_flight = none;
  results = [];
  writer_running = false;
  max_queue_size = max_queue_size;
}

-- The requests of a queue, all ending with this error code.
unfoldable pub failed : Failure → List WriteRequest → List (WriteRequest × Option Failure)
failed reason [] = []
failed reason (r ∷ rs) = (r, some reason) ∷ failed reason rs

unfoldable pub cancel_queued_writes : Failure → Connection → Connection
cancel_queued_writes reason c = record c {
  results = c.results ++ (failed reason c.control_queue ++ failed reason c.data_queue);
  control_queue = [];
  data_queue = [];
}

unfoldable pub cancel_queued_data_writes : Failure → Connection → Connection
cancel_queued_data_writes reason c = record c {
  results = c.results ++ failed reason c.data_queue;
  data_queue = [];
}

unfoldable pub enable_data_writes : Connection → Connection
enable_data_writes c = record c { data_writes_enabled = true }

unfoldable pub disable_data_writes : Failure → Connection → Connection
disable_data_writes reason c =
    cancel_queued_data_writes reason (record c { data_writes_enabled = false })

-- `async_close` and `cancel_and_close`.
unfoldable pub close : Connection → Connection
close c =
    cancel_queued_writes (core cancelled)
      (disable_data_writes (core cancelled) (record c { is_open = false }))

unfoldable pub queued : Connection → ℕ
queued c = length c.control_queue + length c.data_queue

unfoldable pub queue_limit : Connection → ℕ
queue_limit c = if c.max_queue_size == 0 then 1 else c.max_queue_size

-- The data requests make way for a control message where the queues are full.
unfoldable pub make_room : Message → Connection → Connection
make_room msg c =
    if ltb (queued c) (queue_limit c)
    then c
    else (if is_data msg then c else cancel_queued_data_writes (core buffer_overflow) c)

unfoldable pub push : WriteRequest → Connection → Connection
push r c =
    if r.is_data_request
    then record c { data_queue = c.data_queue ++ r ∷ []; writer_running = true }
    else record c { control_queue = c.control_queue ++ r ∷ []; writer_running = true }

unfoldable pub enqueue :
    ℕ → Message → Connection → Result Errc (List ℕ) → Connection × Option Failure
enqueue id msg c (ok frame) =
    (push (record { id = id; frame = frame; is_data_request = is_data msg }) c, none)
enqueue id msg c (err e) = (c, some (core e))

-- `async_write_message` up to its wait, and the error code it gives without one.
unfoldable pub write_message : ℕ → Message → Connection → Connection × Option Failure
write_message id msg c =
    if not c.is_open
    then (c, some (core invalid_argument))
    else (if is_data msg && not c.data_writes_enabled
        then (c, some (core cancelled))
        else (if ltb (queued (make_room msg c)) (queue_limit c)
            then enqueue id msg (make_room msg c) (encode_frame msg)
            else (make_room msg c, some (core buffer_overflow))))

-- The end of `writer_loop_`.
unfoldable pub writer_stopped : Connection → Connection
writer_stopped c = cancel_queued_writes (core cancelled) (record c { writer_running = false })

-- Control messages go first; with both queues empty the writer waits.
unfoldable pub take_next : List WriteRequest → List WriteRequest → Connection → Connection
take_next (r ∷ rs) ds c = record c { control_queue = rs; in_flight = some r }
take_next [] (r ∷ rs) c = record c { data_queue = rs; in_flight = some r }
take_next [] [] c = c

-- A turn of `writer_loop_` up to its next wait.
unfoldable pub writer_turn : Connection → Connection
writer_turn c = if c.is_open then take_next c.control_queue c.data_queue c else writer_stopped c

-- What follows `async_write_all`.
unfoldable pub written : Option Failure → WriteRequest → Connection → Connection
written none r c = record c { results = c.results ++ (r, none) ∷ []; in_flight = none }
written (some e) r c = writer_stopped (
    cancel_queued_writes e
      (record c { results = c.results ++ (r, some e) ∷ []; in_flight = none; is_open = false }))
