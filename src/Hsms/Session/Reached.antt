-- ===== src/Hsms/Session/Reached.antt =====
-- The histories of an HSMS session of src/hsms/session.cpp: its coroutines in any order, with any
-- messages and any endings of reads, writes and waits. The order in the program is one of these.
use secs_lib.Common.{ℕ, ◌≡◌, true, List, Option, none, some}
use secs_lib.Common.Outcome.{Result}
use secs_lib.Core.Error.{Failure}
use secs_lib.Hsms.Message.{Message}
use secs_lib.Hsms.Connection.{WriteRequest, Connection, writer_turn, writer_stopped, written}
use secs_lib.Hsms.Connection
use secs_lib.Hsms.Connection.Invariant.{
  IsConnection, writer_turn-IsConnection, writer_stopped-IsConnection, written-IsConnection,
}
use secs_lib.Hsms.Connection.Steps.{Reachable-IsConnection, in_flight-running}
use secs_lib.Hsms.Connection.Gate.{
  IsShut, writer_turn-IsShut, writer_stopped-IsShut, written-IsShut,
}
use secs_lib.Hsms.Session.{
  SessionOptions, Session, new_session, on_disconnected, emit_written, stop,
}
use secs_lib.Hsms.Session.Reader.{After, read_message, replied, read_failed, reader_ended}
use secs_lib.Hsms.Session.Transactions.{erase_pending, request_written}
use secs_lib.Hsms.Session.Calls.{
  close_old, open_with, open_active, opened_active, opened_passive, send, receive_data,
  request_data, linktest, linktest_counted,
}
use secs_lib.Hsms.Session.Invariant.{
  IsSession, new_session-IsSession, stop-IsSession, on_disconnected-IsSession,
  emit_written-IsSession,
}
use secs_lib.Hsms.Session.Entries.{erase_pending-IsSession, request_written-IsSession}
use secs_lib.Hsms.Session.Steps.{
  read_message-IsSession, replied-IsSession, read_failed-IsSession, reader_ended-IsSession,
}
use secs_lib.Hsms.Session.Opening.{
  close_old-IsSession, open_with-IsSession, open_active-IsSession, opened_active-IsSession,
  opened_passive-IsSession, send-IsSession, receive_data-IsSession, request_data-IsSession,
  linktest-IsSession, linktest_counted-IsSession,
}

-- The session over another connection.
abbrev pub over : Connection → Session → Session
over c s = record s { connection = c }

pub data Reachable : Session → Type 0 where
  created : (options : SessionOptions) → Reachable (new_session options)
  closing_old : (s : Session) → Reachable s → Reachable (close_old s)
  opening_passive :
      (ids : List ℕ) (c : Connection) (s : Session)
      → Connection.Steps.Reachable ids c
      → Reachable s
      → Reachable (open_with c s)
  opening_active :
      (ids : List ℕ) (c : Connection) (s : Session)
      → Connection.Steps.Reachable ids c
      → Reachable s
      → Reachable (open_active c s).0
  selection_answered :
      (r : Result Failure Message) (s : Session) → Reachable s → Reachable (opened_active r s).0
  selection_waited :
      (o : Option Failure) (s : Session) → Reachable s → Reachable (opened_passive o s).0
  read : (m : Message) (s : Session) → Reachable s → Reachable (read_message m s).0
  reply_written :
      (o : Option Failure) (rsp : Message) (after : After) (s : Session)
      → Reachable s
      → Reachable (replied o rsp after s).0
  reading_failed : (e : Failure) (s : Session) → Reachable s → Reachable (read_failed e s)
  reader_left : (s : Session) → Reachable s → Reachable (reader_ended s)
  sent : (m : Message) (s : Session) → Reachable s → Reachable (send m s).0
  written_message :
      (o : Option Failure) (m : Message) (s : Session)
      → Reachable s
      → Reachable (emit_written o m s)
  received :
      (m : Message) (s t : Session) → receive_data s ≡ some (m, t) → Reachable s → Reachable t
  asked_data :
      (stream function : ℕ) (body : List ℕ) (s : Session)
      → Reachable s
      → Reachable (request_data stream function body s).0
  asked_linktest : (s : Session) → Reachable s → Reachable (linktest s).0
  request_sent :
      (o : Option Failure) (req : Message) (s : Session)
      → Reachable s
      → Reachable (request_written o req s)
  transaction_ended : (sb : ℕ) (s : Session) → Reachable s → Reachable (erase_pending sb s)
  writer_turned :
      (s : Session)
      → s.connection.writer_running ≡ true
      → s.connection.in_flight ≡ none
      → Reachable s
      → Reachable (over (writer_turn s.connection) s)
  writer_left :
      (s : Session)
      → s.connection.writer_running ≡ true
      → s.connection.in_flight ≡ none
      → Reachable s
      → Reachable (over (writer_stopped s.connection) s)
  frame_written :
      (r : WriteRequest) (o : Option Failure) (s : Session)
      → s.connection.in_flight ≡ some r
      → Reachable s
      → Reachable (over (written o r s.connection) s)
  connect_failed : (e : Failure) (s : Session) → Reachable s → Reachable (on_disconnected e s)
  linktest_ended :
      (failures : ℕ) (o : Option Failure) (s : Session)
      → Reachable s
      → Reachable (linktest_counted failures o s).0
  stopped : (s : Session) → Reachable s → Reachable (stop s)

-- A connection that is still a connection, and still shut if it was, keeps the session one.
over-IsSession :
    (c : Connection) (s : Session)
    → IsConnection c
    → (IsShut s.connection → IsShut c)
    → IsSession s
    → IsSession (over c s)
unfolding IsSession
over-IsSession c s h k v = record {
  connection = h;
  gated = λ e. k (v.gated e);
  quiet = v.quiet;
  control_only = v.control_only;
  idle = v.idle;
  bounded = v.bounded;
}

connection_of : (s : Session) → IsSession s → IsConnection s.connection
unfolding IsSession
connection_of s v = v.connection

-- After any steps of the coroutines of a session, in any order and with any messages and endings of
-- writes, reads and waits: while it is not selected, data writes are disabled or the connection is
-- closed, no received data waits, and no transaction waits for data; while it is disconnected no
-- transaction waits; and the transactions and the write queues are within their limits.
pub Reachable-IsSession : (s : Session) → Reachable s → IsSession s
Reachable-IsSession _ (created options) = new_session-IsSession options
Reachable-IsSession _ (closing_old s h) = close_old-IsSession s (Reachable-IsSession s h)
Reachable-IsSession _ (opening_passive ids c s r h) =
    open_with-IsSession c s (Reachable-IsConnection ids c r)
Reachable-IsSession _ (opening_active ids c s r h) =
    open_active-IsSession c s (Reachable-IsConnection ids c r)
Reachable-IsSession _ (selection_answered r s h) =
    opened_active-IsSession r s (Reachable-IsSession s h)
Reachable-IsSession _ (selection_waited o s h) =
    opened_passive-IsSession o s (Reachable-IsSession s h)
Reachable-IsSession _ (read m s h) = read_message-IsSession m s (Reachable-IsSession s h)
Reachable-IsSession _ (reply_written o rsp after s h) =
    replied-IsSession o rsp after s (Reachable-IsSession s h)
Reachable-IsSession _ (reading_failed e s h) = read_failed-IsSession e s (Reachable-IsSession s h)
Reachable-IsSession _ (reader_left s h) = reader_ended-IsSession s (Reachable-IsSession s h)
Reachable-IsSession _ (sent m s h) = send-IsSession m s (Reachable-IsSession s h)
Reachable-IsSession _ (written_message o m s h) =
    emit_written-IsSession o m s (Reachable-IsSession s h)
Reachable-IsSession _ (received m s t e h) =
    receive_data-IsSession s t m e (Reachable-IsSession s h)
Reachable-IsSession _ (asked_data stream function body s h) =
    request_data-IsSession stream function body s (Reachable-IsSession s h)
Reachable-IsSession _ (asked_linktest s h) = linktest-IsSession s (Reachable-IsSession s h)
Reachable-IsSession _ (request_sent o req s h) =
    request_written-IsSession o req s (Reachable-IsSession s h)
Reachable-IsSession _ (transaction_ended sb s h) =
    erase_pending-IsSession sb s (Reachable-IsSession s h)
Reachable-IsSession _ (writer_turned s w i h) =
    let v = Reachable-IsSession s h in
    over-IsSession (writer_turn s.connection) s
      (writer_turn-IsConnection s.connection w i (connection_of s v))
      (writer_turn-IsShut s.connection) v
Reachable-IsSession _ (writer_left s w i h) =
    let v = Reachable-IsSession s h in
    over-IsSession (writer_stopped s.connection) s
      (writer_stopped-IsConnection s.connection i (connection_of s v))
      (writer_stopped-IsShut s.connection) v
Reachable-IsSession _ (frame_written r o s i h) =
    let v = Reachable-IsSession s h in
    let w = in_flight-running s.connection r i (connection_of s v) in
    over-IsSession (written o r s.connection) s
      (written-IsConnection o r s.connection w (connection_of s v))
      (written-IsShut o r s.connection) v
Reachable-IsSession _ (connect_failed e s h) =
    on_disconnected-IsSession e s (Reachable-IsSession s h)
Reachable-IsSession _ (linktest_ended failures o s h) =
    linktest_counted-IsSession failures o s (Reachable-IsSession s h)
Reachable-IsSession _ (stopped s h) = stop-IsSession s (Reachable-IsSession s h)
