-- ===== src/Hsms/Session/Reader.antt =====
-- `reader_loop_` of src/hsms/session.cpp: what a turn does with a message, up to a reply if it sends
-- one, and what follows the reply.
use secs_lib.Common.{ℕ, true, false, not, [], ◌∷◌, ◌++◌, Option, none, some, ◌==◌, if◌then◌else◌}
use secs_lib.Common.Assoc.{lookup, assign}
use secs_lib.Core.Error.{Failure, core, cancelled, invalid_argument}
use secs_lib.Core.Event
use secs_lib.Hsms.Message.{
  Message, is_data, make_select_rsp, make_deselect_rsp, make_linktest_rsp, make_reject_req,
}
use secs_lib.Hsms.SType
use secs_lib.Hsms.Session.{
  Session, Pending, is_selected, is_disconnected, rx, set_selected, set_not_selected,
  on_disconnected, emit_control_event, emit_written, write, close_connection, control_session_id,
  rsp_ok, rsp_reject,
}

unfoldable pub respond : Message → Pending → Pending
respond m p = record p { response = some m; ec = none; ready = Event.set p.ready }

-- `fulfill_pending_`: nothing where it returns false.
unfoldable pub fulfilled : Message → Session → Option Pending → Option Session
fulfilled m s none = none
fulfilled m s (some p) =
    if p.expected_stype == m.header.s_type
    then some (record s { pending = assign m.header.system_bytes (respond m p) s.pending })
    else none

unfoldable pub fulfill_pending : Message → Session → Option Session
fulfill_pending m s = fulfilled m s (lookup m.header.system_bytes s.pending)

-- What the reader does after its reply.
pub data After : Type 0 where
  stays enters_selected leaves_selected closes : After

-- How a turn goes on: with the next message, with what follows a reply, or not at all. A reply that
-- is refused at once comes with its error code.
pub data Turn : Type 0 where
  reads : Turn
  replies : Message → After → Option Failure → Turn
  ends : Turn

unfoldable pub reply : Message → After → Session → Session × Turn
reply rsp after s = let r = write rsp s in (r.0, replies rsp after r.1)

-- A data message goes to the transaction that waits for it, or to the queue of a selected session.
unfoldable pub read_unmatched : Message → Session → Session
read_unmatched m s = if not (is_selected s.state) then s else record s {
  inbound_data = s.inbound_data ++ m ∷ [];
  inbound_event = Event.set s.inbound_event;
}

unfoldable pub read_data : Message → Session → Option Session → Session
read_data m s none = read_unmatched m s
read_data m s (some t) = t

unfoldable pub if_fulfilled : Session → Option Session → Session
if_fulfilled s none = s
if_fulfilled s (some t) = t

unfoldable pub read_select_req : Message → Session → Session × Turn
read_select_req m s =
    let sb = m.header.system_bytes in
    let id = m.header.session_id in
    let no_select = reply (make_select_rsp id rsp_reject sb) leaves_selected s in
    let no_change = reply (make_select_rsp id rsp_reject sb) stays s in
    let no_session = reply (make_select_rsp id rsp_reject sb) closes s in
    let yes = reply (make_select_rsp id rsp_ok sb) enters_selected s in
    if not s.options.passive_accept_select
    then no_select
    else (if is_selected s.state
        then no_change
        else (if not (id == control_session_id) then no_session else yes))

-- Only an accepted response that a transaction waits for selects.
unfoldable pub read_select_rsp : Message → Session → Option Session → Session
read_select_rsp m s none = s
read_select_rsp m s (some t) = if m.header.header_byte2 == rsp_ok then set_selected t else t

unfoldable pub disconnected_by : Failure → Session → Session × Turn
disconnected_by reason s = (on_disconnected reason (close_connection s), ends)

-- The cases of the switch over the type of a control message.
pub data ControlKind : Type 0 where
  select_request select_response deselect_request deselect_response : ControlKind
  linktest_request linktest_response reject_request separate_request unknown : ControlKind

unfoldable pub control_kind : ℕ → ControlKind
control_kind k =
    if k == SType.select_req
    then select_request
    else (if k == SType.select_rsp
        then select_response
        else (if k == SType.deselect_req
            then deselect_request
            else (if k == SType.deselect_rsp
                then deselect_response
                else (if k == SType.linktest_req
                    then linktest_request
                    else (if k == SType.linktest_rsp
                        then linktest_response
                        else (if k == SType.reject_req
                            then reject_request
                            else (if k == SType.separate_req
                                then separate_request
                                else unknown)))))))

-- What the reader does in each case.
unfoldable pub read_control : ControlKind → Message → Session → Session × Turn
read_control select_request m s = read_select_req m s
read_control select_response m s = (read_select_rsp m s (fulfill_pending m s), reads)
read_control deselect_request m s =
    reply (make_deselect_rsp m.header.session_id rsp_ok m.header.system_bytes) stays
      (set_not_selected s)
read_control deselect_response m s =
    (set_not_selected (if_fulfilled s (fulfill_pending m s)), reads)
read_control linktest_request m s =
    reply (make_linktest_rsp m.header.session_id m.header.system_bytes) stays s
read_control linktest_response m s = (if_fulfilled s (fulfill_pending m s), reads)
read_control reject_request m s = (s, reads)
read_control separate_request m s = disconnected_by (core cancelled) s
read_control unknown m s = reply (make_reject_req 1 m.header) stays s

-- A control message for another session ends the connection.
unfoldable pub read_addressed : Message → Session → Session × Turn
read_addressed m s =
    let elsewhere = disconnected_by (core invalid_argument) s in
    let here = read_control (control_kind m.header.s_type) m s in
    if not (m.header.session_id == control_session_id) then elsewhere else here

unfoldable pub read_message : Message → Session → Session × Turn
read_message m s =
    let as_data : Session × Turn = (read_data m s (fulfill_pending m s), reads) in
    let as_control = read_addressed m (emit_control_event rx m s) in
    if is_data m then as_data else as_control

-- What follows the reply: it is reported if it was written, and the session goes on either way.
unfoldable pub after_reply : After → Session → Session × Turn
after_reply stays s = (s, reads)
after_reply enters_selected s = (set_selected s, reads)
after_reply leaves_selected s = (set_not_selected s, reads)
after_reply closes s = disconnected_by (core invalid_argument) s

unfoldable pub replied : Option Failure → Message → After → Session → Session × Turn
replied ec rsp after s = after_reply after (emit_written ec rsp s)

-- The reading failed.
unfoldable pub read_failed : Failure → Session → Session
read_failed ec s =
    let shut = close_connection s in
    if is_disconnected shut.state then shut else on_disconnected ec shut

unfoldable pub reader_ended : Session → Session
reader_ended s = record s {
  reader_running = false;
  reader_stopped_event = Event.set s.reader_stopped_event;
}

unfoldable pub start_reader : Session → Session
start_reader s = record s {
  reader_running = true;
  disconnected_event = Event.reset s.disconnected_event;
  reader_stopped_event = Event.reset s.reader_stopped_event;
}
