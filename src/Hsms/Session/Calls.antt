-- ===== src/Hsms/Session/Calls.antt =====
-- The calls of src/hsms/session.cpp: opening, sending, receiving and asking.
use secs_lib.Common.{
  ℕ, Bool, true, ◌&&◌, ◌||◌, not, List, [], ◌∷◌, Option, none, some, leb, ◌==◌, if◌then◌else◌,
  false, max, ◌+◌, ◌%◌, ◌^◌,
}
use secs_lib.Common.Outcome.{Result, ok, err}
use secs_lib.Core.Error.{Failure, core, invalid_argument, cancelled, timeout}
use secs_lib.Core.Event
use secs_lib.Hsms.Message.{Message, is_data, make_select_req, make_linktest_req, make_data_message}
use secs_lib.Hsms.SType
use secs_lib.Hsms.Connection.{Connection}
use secs_lib.Hsms.Session.{
  Session, is_selected, reset_state, set_selected, on_disconnected, write, close_connection,
  allocate_system_bytes, control_session_id, rsp_ok,
}
use secs_lib.Hsms.Session.Reader.{start_reader}
use secs_lib.Hsms.Session.Transactions.{begin_transaction, is_timeout}

-- Where the reader of an old connection runs, that connection is closed, and its end is waited for.
unfoldable pub close_old : Session → Session
close_old s = if s.reader_running then close_connection s else s

-- `connection_ = std::move(connection)` and what follows it up to the first wait.
unfoldable pub open_with : Connection → Session → Session
open_with c s = start_reader (reset_state (record s { connection = c }))

unfoldable pub open_active : Connection → Session → Session × Option Failure
open_active c s =
    let opened = open_with c s in
    begin_transaction SType.select_rsp (make_select_req control_session_id opened.system_bytes)
      (allocate_system_bytes opened)

unfoldable pub open_failed : Failure → Session → Session × Option Failure
open_failed e s = (on_disconnected e (close_connection s), some e)

-- What `async_open_active` makes of the end of its transaction.
unfoldable pub opened_active : Result Failure Message → Session → Session × Option Failure
opened_active (err e) s = open_failed e s
opened_active (ok rsp) s =
    let refused = open_failed (core invalid_argument) s in
    if not (rsp.header.header_byte2 == rsp_ok) then refused else (set_selected s, none)

-- What `async_open_passive` makes of its wait for the selection.
unfoldable pub opened_passive : Option Failure → Session → Session × Option Failure
opened_passive none s = (s, none)
opened_passive (some e) s = open_failed e s

-- `async_send` up to the wait for the write; what follows that is `emit_written`.
unfoldable pub send : Message → Session → Session × Option Failure
send m s =
    let refused : Session × Option Failure = (s, some (core invalid_argument)) in
    let sent = write m s in
    if not s.connection.is_open
    then refused
    else (if is_data m && not (is_selected s.state) then refused else sent)

-- `async_receive_data`: nothing where it waits.
unfoldable pub receive_from : List Message → Session → Option (Message × Session)
receive_from [] s = none
receive_from (m ∷ []) s =
    some (m, record s { inbound_data = []; inbound_event = Event.reset s.inbound_event })
receive_from (m ∷ n ∷ rest) s = some (m, record s { inbound_data = n ∷ rest })

unfoldable pub receive_data : Session → Option (Message × Session)
receive_data s = receive_from s.inbound_data s

-- A session id is 16 bits wide, so its top bit is set from 0x8000 on.
unfoldable pub request_data : ℕ → ℕ → List ℕ → Session → Session × Option Failure
request_data stream function body s =
    let refused : Session × Option Failure = (s, some (core invalid_argument)) in
    let req = make_data_message s.options.session_id stream function true s.system_bytes body in
    let asked = begin_transaction SType.data_message req (allocate_system_bytes s) in
    if not (is_selected s.state)
    then refused
    else (if leb 0x8000 s.options.session_id then refused else asked)

unfoldable pub linktest : Session → Session × Option Failure
linktest s =
    let refused : Session × Option Failure = (s, some (core invalid_argument)) in
    let asked =
      begin_transaction SType.linktest_rsp (make_linktest_req control_session_id s.system_bytes)
        (allocate_system_bytes s) in
    if not (is_selected s.state) then refused else asked

-- What `async_linktest` makes of the end of its transaction.
unfoldable pub linktest_result : Result Failure Message → Option Failure
linktest_result (err e) = some e
linktest_result (ok rsp) =
    if rsp.header.session_id == control_session_id then none else some (core invalid_argument)

-- A turn of the loop of `async_wait_selected`: what it returns, if it does.
unfoldable pub wait_selected : ℕ → Bool → Session → Option (Option Failure)
wait_selected min_generation late s =
    if s.stop_requested
    then some (some (core cancelled))
    else (if is_selected s.state && leb min_generation s.selected_generation
        then some none
        else (if late then some (some (core timeout)) else none))

-- `linktest_loop_` goes on, at the start of a turn and after its wait for the interval.
unfoldable pub linktest_due : ℕ → Session → Bool
linktest_due generation s = is_selected s.state && s.selected_generation == generation

-- How that wait ended: only a timeout lets the loop go on.
unfoldable pub interval_over : Option Failure → Bool
interval_over none = false
interval_over (some e) = is_timeout e

unfoldable pub failure_limit : Session → ℕ
failure_limit s = max 1 s.options.linktest_max_consecutive_failures

-- The end of a Linktest: the session, and the failures in a row if the loop goes on.
unfoldable pub linktest_counted : ℕ → Option Failure → Session → Session × Option ℕ
linktest_counted failures none s = (s, some 0)
linktest_counted failures (some e) s =
    let closed : Session × Option ℕ = (close_connection s, none) in
    let counted : Session × Option ℕ = (s, some ((failures + 1) % 2 ^ 32)) in
    if leb (failure_limit s) ((failures + 1) % 2 ^ 32) then closed else counted

-- `async_run_active`: what it returns, if it does, after an attempt to open and after a disconnection.
unfoldable pub run_over : Session → Bool
run_over s = not s.options.auto_reconnect || s.stop_requested

unfoldable pub run_opened : Option Failure → Session → Option (Option Failure)
run_opened none s = none
run_opened (some e) s = if run_over s then some (some e) else none

unfoldable pub run_disconnected : Session → Option (Option Failure)
run_disconnected s = if run_over s then some none else none
