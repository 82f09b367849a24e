-- ===== src/Hsms/Session/Tests.antt =====
-- Tests of the HSMS session and connection of src/hsms/.
use secs_lib.Common.{◌≡◌, refl, true, false, [], none, some, List, ◌∷◌, ◌++◌, arith, ℕ}
use secs_lib.Common.Assoc.{lookup}
use secs_lib.Common.Outcome.{ok}
use secs_lib.Core.Error.{core, cancelled}
use secs_lib.Hsms.Message.{
  Message, is_data, make_select_req, make_control_base, u16_be, u32_be, encode_header_bytes,
  make_data_message, make_select_rsp, encode_frame,
}
use secs_lib.Hsms.Connection.{
  Connection, new_connection, write_message, close, queued, make_room, queue_limit, enqueue,
}
use secs_lib.Hsms.Connection.Invariant.{IsConnection}
use secs_lib.Hsms.Connection.Steps.{Reachable-IsConnection, accepted, wrote, closed}
use secs_lib.Hsms.Connection.Steps
use secs_lib.Hsms.Session.{
  SessionOptions, Session, Pending, selected, new_session, stop, set_selected, is_selected,
  emit_written, on_disconnected, close_connection, allocate_system_bytes, write,
}
use secs_lib.Hsms.Session.Reader.{enters_selected, read_message, replied, after_reply}
use secs_lib.Hsms.Session.Calls.{open_with, request_data}
use secs_lib.Hsms.Session.Reached
use secs_lib.Hsms.Session.Reached.{
  Reachable-IsSession, opening_passive, read, reply_written, stopped,
}
use secs_lib.Hsms.Session.Invariant.{IsSession}
use secs_lib.Hsms.Session.Responses.{request_data-answered}
use secs_lib.Hsms.Session.Transactions.{
  transaction_result, begin_transaction, pending_limit, begun, insert_pending,
}
use secs_lib.Hsms.Connection.Incoming.{async_read_message}
use secs_lib.Hsms.Connection.Chunks.{Leaves, joined, arrivals, async_read_message-encode_frame}
use secs_lib.Hsms.Frame.{IsHeader}
use secs_lib.Hsms.Connection.Accounts.{held, occurrences, answered, Reachable-answered}

abbrev options : SessionOptions
options = record {
  session_id = 1;
  linktest_interval = 0;
  linktest_max_consecutive_failures = 1;
  auto_reconnect = true;
  passive_accept_select = true;
  max_pending_requests = 8;
  observed = true;
}

abbrev open_connection : Connection
open_connection = new_connection true 16

-- A passive session that gets a Select.req and replies to it.
abbrev opened : Session
opened = open_with open_connection (new_session options)

abbrev select : Message
select = make_select_req 0xFFFF 7

abbrev accepted_select : Message
accepted_select = make_select_rsp 0xFFFF 0 7

opened-Reachable : Reached.Reachable opened
opened-Reachable =
    opening_passive [] open_connection (new_session options) (Steps.created true 16)
      (Reached.created options)

-- The session is stopped while its reply is being written: the write fails, and the session is
-- selected all the same.
abbrev stopped_session : Session
stopped_session =
    (replied (some (core cancelled)) accepted_select enters_selected
      (stop (read_message select opened).0)).0

stopped_session-selected :
    (stopped_session.state ≡ selected) × (stopped_session.stop_requested ≡ true)
unfolding replied after_reply set_selected is_selected emit_written stop on_disconnected
    close_connection
stopped_session-selected = (refl, refl)

Reachable-IsSession_example : IsSession stopped_session
Reachable-IsSession_example = Reachable-IsSession stopped_session (
    reply_written (some (core cancelled)) accepted_select enters_selected
      (stop (read_message select opened).0)
      (stopped (read_message select opened).0 (read select opened opened-Reachable)))

abbrev written_select : Connection
written_select = (write_message 3 select open_connection).0

written_select-Reachable :
    Steps.Reachable (accepted 3 (write_message 3 select open_connection).1 []) written_select
written_select-Reachable = wrote [] open_connection 3 select (Steps.created true 16)

Reachable-IsConnection_example : IsConnection (close written_select)
Reachable-IsConnection_example =
    Reachable-IsConnection (accepted 3 (write_message 3 select open_connection).1 [])
      (close written_select)
      (closed (accepted 3 (write_message 3 select open_connection).1 []) written_select
        written_select-Reachable)

Reachable-answered_example :
    (held 3 written_select
      ≡ occurrences 3 (accepted 3 (write_message 3 select open_connection).1 []))
    × (written_select.writer_running ≡ false
        → answered 3 written_select.results
          ≡ occurrences 3 (accepted 3 (write_message 3 select open_connection).1 []))
Reachable-answered_example =
    Reachable-answered (accepted 3 (write_message 3 select open_connection).1 []) written_select 3
      written_select-Reachable

-- A selected session asks for S1F1 and gets an answer.
abbrev selected_session : Session
selected_session = record (new_session options) { state = selected; connection = open_connection }

abbrev response : Message
response = make_data_message 1 1 2 false 1 []

asked_waits : (request_data 1 1 [] selected_session).1 ≡ none
unfolding request_data is_selected new_session begin_transaction allocate_system_bytes pending_limit
    begun write write_message insert_pending new_connection is_data make_data_message queued
    make_room queue_limit enqueue encode_frame
asked_waits = refl

response-is_data : is_data response ≡ true
unfolding is_data make_data_message
response-is_data = refl

response-system_bytes : response.header.system_bytes ≡ selected_session.system_bytes
unfolding make_data_message new_session
response-system_bytes = refl

request_data-answered_example :
    (p : Pending) × (lookup selected_session.system_bytes
        (read_message response (request_data 1 1 [] selected_session).0).0.pending
      ≡ some p)
    × (transaction_result none p ≡ ok response)
    × ((read_message response (request_data 1 1 [] selected_session).0).0.inbound_data
        ≡ selected_session.inbound_data)
request_data-answered_example =
    request_data-answered 1 1 [] selected_session response asked_waits response-is_data
      response-system_bytes

-- A Select.req whose frame comes in pieces of one, six and seven bytes, with one more byte behind it.
abbrev select_frame : List ℕ
select_frame = 0 ∷ 0 ∷ 0 ∷ 10 ∷ 255 ∷ 255 ∷ 0 ∷ 0 ∷ 0 ∷ 1 ∷ 0 ∷ 0 ∷ 0 ∷ 7 ∷ []

abbrev pieces : List (List ℕ)
pieces =
    (0 ∷ []) ∷ (0 ∷ 0 ∷ 10 ∷ 255 ∷ 255 ∷ 0 ∷ []) ∷ (0 ∷ 0 ∷ 1 ∷ 0 ∷ 0 ∷ 0 ∷ 7 ∷ []) ∷ (9 ∷ []) ∷ []

select-IsHeader : IsHeader select.header
unfolding make_select_req make_control_base
select-IsHeader = record {
  session = omega arith;
  byte2 = omega arith;
  byte3 = omega arith;
  p_type = omega arith;
  s_type = omega arith;
  system = omega arith;
}

encode_frame-select : encode_frame select ≡ ok select_frame
unfolding encode_frame make_select_req make_control_base u32_be encode_header_bytes u16_be
encode_frame-select = refl

joined-pieces : joined pieces ≡ select_frame ++ (9 ∷ [])
unfolding joined
joined-pieces = refl

async_read_message-encode_frame_example :
    Leaves select (9 ∷ []) (async_read_message (arrivals pieces))
async_read_message-encode_frame_example =
    async_read_message-encode_frame select select_frame (9 ∷ []) pieces select-IsHeader
      encode_frame-select joined-pieces
      (omega arith, (omega arith, (omega arith, (omega arith, tt))))
