-- ===== src/Hsms/Session/Steps.antt =====
-- The steps of the reader and the calls of src/hsms/session.cpp keep the invariant.
use secs_lib.Common.{◌≡◌, Bool, true, false, either_branch, not, Option, none, some, ◌==◌, clash}
use secs_lib.Core.Error.{Failure, core, cancelled, invalid_argument}
use secs_lib.Hsms.Message.{Message, is_data}
use secs_lib.Hsms.Session.{
  Session, is_selected, is_disconnected, rx, set_not_selected, emit_control_event, emit_written,
  close_connection, control_session_id, rsp_ok,
}
use secs_lib.Hsms.Session.Reader.{
  fulfill_pending, After, stays, enters_selected, leaves_selected, closes, Turn, reply,
  read_unmatched, read_data, if_fulfilled, read_select_req, read_select_rsp, disconnected_by,
  ControlKind, select_request, select_response, deselect_request, deselect_response,
  linktest_request, linktest_response, reject_request, separate_request, unknown, control_kind,
  read_control, read_addressed, read_message, after_reply, replied, read_failed, reader_ended,
}
use secs_lib.Hsms.Session.Invariant.{
  IsSession, on_disconnected-IsSession, set_selected-IsSession, set_not_selected-IsSession,
  close_connection-IsSession, write-IsSession, emit_control_event-IsSession, emit_written-IsSession,
}
use secs_lib.Hsms.Session.Entries.{IsSessionIf, fulfill_pending-IsSession}

-- The session that a step leaves is one.
abbrev pub Leaves : {A : Type 0} → Session × A → Type 0
Leaves r = IsSession r.0

reply-IsSession :
    (rsp : Message) (after : After) (s : Session) → IsSession s → Leaves (reply rsp after s)
unfolding reply
reply-IsSession rsp after s v = write-IsSession rsp s v

pub unselected : (b : Bool) → b ≡ false → not b ≡ false → ⊥
unselected true d e = clash d
unselected false d e = clash e

read_unmatched-IsSession :
    (m : Message) (s : Session) → IsSession s → IsSession (read_unmatched m s)
unfolding read_unmatched IsSession
read_unmatched-IsSession m s v =
    either_branch (λ t. IsSession t) (not (is_selected s.state)) _ _ (λ e. v)
      λ e. record {
        connection = v.connection;
        gated = v.gated;
        quiet = λ d. absurd (unselected (is_selected s.state) d e);
        control_only = v.control_only;
        idle = v.idle;
        bounded = v.bounded;
      }

read_data-IsSession :
    (m : Message) (s : Session) (o : Option Session)
    → IsSession s
    → IsSessionIf o
    → IsSession (read_data m s o)
unfolding read_data
read_data-IsSession m s none v h = read_unmatched-IsSession m s v
read_data-IsSession m s (some t) v h = h

if_fulfilled-IsSession :
    (s : Session) (o : Option Session) → IsSession s → IsSessionIf o → IsSession (if_fulfilled s o)
unfolding if_fulfilled
if_fulfilled-IsSession s none v h = v
if_fulfilled-IsSession s (some t) v h = h

read_select_rsp-IsSession :
    (m : Message) (s : Session) (o : Option Session)
    → IsSession s
    → IsSessionIf o
    → IsSession (read_select_rsp m s o)
unfolding read_select_rsp
read_select_rsp-IsSession m s none v h = v
read_select_rsp-IsSession m s (some t) v h =
    either_branch (λ t. IsSession t) (m.header.header_byte2 == rsp_ok) _ _
      (λ e. set_selected-IsSession t h) λ e. h

disconnected_by-IsSession :
    (reason : Failure) (s : Session) → IsSession s → Leaves (disconnected_by reason s)
unfolding disconnected_by
disconnected_by-IsSession reason s v =
    on_disconnected-IsSession reason (close_connection s) (close_connection-IsSession s v)

read_select_req-IsSession : (m : Message) (s : Session) → IsSession s → Leaves (read_select_req m s)
unfolding read_select_req
read_select_req-IsSession m s v =
    let Fine : Session × Turn → Type 0 = λ r. IsSession r.0 in
    either_branch Fine (not s.options.passive_accept_select) _ _ (λ e. reply-IsSession _ _ s v)
      λ e.
        either_branch Fine (is_selected s.state) _ _ (λ d. reply-IsSession _ _ s v)
          λ d.
            either_branch Fine (not (m.header.session_id == control_session_id)) _ _
              (λ c. reply-IsSession _ _ s v) λ c. reply-IsSession _ _ s v

read_control-IsSession :
    (k : ControlKind) (m : Message) (s : Session) → IsSession s → Leaves (read_control k m s)
unfolding read_control
read_control-IsSession select_request m s v = read_select_req-IsSession m s v
read_control-IsSession select_response m s v =
    read_select_rsp-IsSession m s (fulfill_pending m s) v (fulfill_pending-IsSession m s v)
read_control-IsSession deselect_request m s v =
    reply-IsSession _ stays (set_not_selected s) (set_not_selected-IsSession s v)
read_control-IsSession deselect_response m s v =
    set_not_selected-IsSession (if_fulfilled s (fulfill_pending m s))
      (if_fulfilled-IsSession s (fulfill_pending m s) v (fulfill_pending-IsSession m s v))
read_control-IsSession linktest_request m s v = reply-IsSession _ stays s v
read_control-IsSession linktest_response m s v =
    if_fulfilled-IsSession s (fulfill_pending m s) v (fulfill_pending-IsSession m s v)
read_control-IsSession reject_request m s v = v
read_control-IsSession separate_request m s v = disconnected_by-IsSession (core cancelled) s v
read_control-IsSession unknown m s v = reply-IsSession _ stays s v

read_addressed-IsSession : (m : Message) (s : Session) → IsSession s → Leaves (read_addressed m s)
unfolding read_addressed
read_addressed-IsSession m s v =
    let Fine : Session × Turn → Type 0 = λ r. IsSession r.0 in
    either_branch Fine (not (m.header.session_id == control_session_id)) _ _
      (λ e. disconnected_by-IsSession (core invalid_argument) s v)
      λ e. read_control-IsSession (control_kind m.header.s_type) m s v

pub read_message-IsSession : (m : Message) (s : Session) → IsSession s → Leaves (read_message m s)
unfolding read_message
read_message-IsSession m s v =
    let Fine : Session × Turn → Type 0 = λ r. IsSession r.0 in
    either_branch Fine (is_data m) _ _
      (λ e. read_data-IsSession m s (fulfill_pending m s) v (fulfill_pending-IsSession m s v))
      λ e.
        read_addressed-IsSession m (emit_control_event rx m s)
          (emit_control_event-IsSession rx m s v)

after_reply-IsSession : (after : After) (s : Session) → IsSession s → Leaves (after_reply after s)
unfolding after_reply
after_reply-IsSession stays s v = v
after_reply-IsSession enters_selected s v = set_selected-IsSession s v
after_reply-IsSession leaves_selected s v = set_not_selected-IsSession s v
after_reply-IsSession closes s v = disconnected_by-IsSession (core invalid_argument) s v

pub replied-IsSession :
    (ec : Option Failure) (rsp : Message) (after : After) (s : Session)
    → IsSession s
    → Leaves (replied ec rsp after s)
unfolding replied
replied-IsSession ec rsp after s v =
    after_reply-IsSession after (emit_written ec rsp s) (emit_written-IsSession ec rsp s v)

pub read_failed-IsSession :
    (ec : Failure) (s : Session) → IsSession s → IsSession (read_failed ec s)
unfolding read_failed
read_failed-IsSession ec s v =
    let shut = close_connection s in
    let ok_shut = close_connection-IsSession s v in
    either_branch (λ t. IsSession t) (is_disconnected shut.state) _ _ (λ e. ok_shut)
      λ e. on_disconnected-IsSession ec shut ok_shut

pub reader_ended-IsSession : (s : Session) → IsSession s → IsSession (reader_ended s)
unfolding reader_ended IsSession
reader_ended-IsSession s v = v
