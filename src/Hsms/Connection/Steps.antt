-- ===== src/Hsms/Connection/Steps.antt =====
-- The histories of a connection of src/hsms/connection.cpp, and what holds in them.
use secs_lib.Common.{ℕ, ◌≡◌, inl, inr, Bool, true, Bool-cases, List, [], ◌∷◌, Option, none, some}
use secs_lib.Core.Error.{Failure}
use secs_lib.Hsms.Message.{Message}
use secs_lib.Hsms.Connection.{
  WriteRequest, Connection, new_connection, enable_data_writes, disable_data_writes, close,
  write_message, writer_stopped, writer_turn, written,
}
use secs_lib.Hsms.Connection.Invariant.{
  IsConnection, new_connection-IsConnection, enable_data_writes-IsConnection,
  disable_data_writes-IsConnection, close-IsConnection, write_message-IsConnection,
  writer_stopped-IsConnection, writer_turn-IsConnection, written-IsConnection,
}

-- The numbers of the requests that got into a queue, after one more write.
unfoldable pub accepted : ℕ → Option Failure → List ℕ → List ℕ
accepted id none ids = id ∷ ids
accepted id (some e) ids = ids

-- What happens to a connection: callers write, open and close the gate, or close the connection,
-- and the writer takes requests, hears how a write ended, or is woken to stop. The list holds the
-- numbers of the requests that got into a queue.
pub data Reachable : List ℕ → Connection → Type 0 where
  created : (opened : Bool) (size : ℕ) → Reachable [] (new_connection opened size)
  wrote :
      (ids : List ℕ) (c : Connection) (id : ℕ) (msg : Message)
      → Reachable ids c
      → Reachable (accepted id (write_message id msg c).1 ids) (write_message id msg c).0
  enabled : (ids : List ℕ) (c : Connection) → Reachable ids c → Reachable ids (enable_data_writes c)
  disabled :
      (ids : List ℕ) (c : Connection) (reason : Failure)
      → Reachable ids c
      → Reachable ids (disable_data_writes reason c)
  closed : (ids : List ℕ) (c : Connection) → Reachable ids c → Reachable ids (close c)
  turned :
      (ids : List ℕ) (c : Connection)
      → c.writer_running ≡ true
      → c.in_flight ≡ none
      → Reachable ids c
      → Reachable ids (writer_turn c)
  stopped :
      (ids : List ℕ) (c : Connection)
      → c.writer_running ≡ true
      → c.in_flight ≡ none
      → Reachable ids c
      → Reachable ids (writer_stopped c)
  finished :
      (ids : List ℕ) (c : Connection) (r : WriteRequest) (o : Option Failure)
      → c.in_flight ≡ some r
      → Reachable ids c
      → Reachable ids (written o r c)

pub in_flight-running :
    (c : Connection) (r : WriteRequest)
    → c.in_flight ≡ some r
    → IsConnection c
    → c.writer_running ≡ true
in_flight-running c r i v = elim (Bool-cases c.writer_running) [
  | inl w ↦ w
  | inr w ↦ let idle : c.in_flight ≡ none = (v.served w).2 in cc
]

-- In every history of a connection its queues hold at most `max_queue_size` requests (one, where
-- that is 0), each queue its kind of message; behind the closed gate no data request waits; and
-- without a running writer none waits at all.
pub Reachable-IsConnection : (ids : List ℕ) (c : Connection) → Reachable ids c → IsConnection c
Reachable-IsConnection _ _ (created opened size) = new_connection-IsConnection opened size
Reachable-IsConnection _ _ (wrote ids c id msg h) =
    write_message-IsConnection id msg c (Reachable-IsConnection ids c h)
Reachable-IsConnection _ _ (enabled ids c h) =
    enable_data_writes-IsConnection c (Reachable-IsConnection ids c h)
Reachable-IsConnection _ _ (disabled ids c reason h) =
    disable_data_writes-IsConnection reason c (Reachable-IsConnection ids c h)
Reachable-IsConnection _ _ (closed ids c h) = close-IsConnection c (Reachable-IsConnection ids c h)
Reachable-IsConnection _ _ (turned ids c w i h) =
    writer_turn-IsConnection c w i (Reachable-IsConnection ids c h)
Reachable-IsConnection _ _ (stopped ids c w i h) =
    writer_stopped-IsConnection c i (Reachable-IsConnection ids c h)
Reachable-IsConnection _ _ (finished ids c r o i h) =
    let v = Reachable-IsConnection ids c h in
    written-IsConnection o r c (in_flight-running c r i v) v
