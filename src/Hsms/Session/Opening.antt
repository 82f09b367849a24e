-- ===== src/Hsms/Session/Opening.antt =====
-- The calls of src/hsms/session.cpp keep the invariant of the session.
use secs_lib.Common.{
  ℕ, ◌≡◌, refl, sym, ◌∙◌, subst, false, either_branch, ◌&&◌, not, List, [], ◌∷◌, Option, none, some,
  leb, ◌==◌, ◌+◌, ◌%◌, ◌^◌, clash,
}
use secs_lib.Common.Outcome.{Result, ok, err}
use secs_lib.Core.Error.{Failure, core, invalid_argument}
use secs_lib.Core.Event
use secs_lib.Hsms.Message.{Message, is_data}
use secs_lib.Hsms.SType
use secs_lib.Hsms.Connection.{Connection}
use secs_lib.Hsms.Connection.Invariant.{IsConnection}
use secs_lib.Hsms.Session.{
  Session, is_selected, is_disconnected, SessionState, disconnected, connected, selected,
  reset_state, close_connection, allocate_system_bytes, rsp_ok,
}
use secs_lib.Hsms.Session.Reader.{start_reader}
use secs_lib.Hsms.Session.Calls.{
  close_old, open_with, open_active, open_failed, opened_active, opened_passive, send, receive_from,
  receive_data, request_data, linktest, linktest_counted, failure_limit,
}
use secs_lib.Hsms.Session.Invariant.{
  IsSession, reset_state-IsSession, on_disconnected-IsSession, set_selected-IsSession,
  close_connection-IsSession, write-IsSession,
}
use secs_lib.Hsms.Session.Entries.{begin_transaction-IsSession}
use secs_lib.Hsms.Session.Steps.{Leaves, unselected}

pub close_old-IsSession : (s : Session) → IsSession s → IsSession (close_old s)
unfolding close_old
close_old-IsSession s v =
    either_branch (λ t. IsSession t) s.reader_running _ _ (λ e. close_connection-IsSession s v)
      λ e. v

pub open_with-IsSession :
    (c : Connection) (s : Session) → IsConnection c → IsSession (open_with c s)
unfolding open_with start_reader IsSession
open_with-IsSession c s v = reset_state-IsSession (record s { connection = c }) v

-- The session that is opened is connected.
open_with-connected : (c : Connection) (s : Session) → is_disconnected (open_with c s).state ≡ false
unfolding open_with start_reader reset_state is_disconnected
open_with-connected c s = refl

pub open_active-IsSession :
    (c : Connection) (s : Session) → IsConnection c → Leaves (open_active c s)
unfolding open_active allocate_system_bytes IsSession
open_active-IsSession c s v =
    begin_transaction-IsSession SType.select_rsp _ (allocate_system_bytes (open_with c s))
      (open_with-IsSession c s v) (open_with-connected c s) λ e. refl

open_failed-IsSession : (e : Failure) (s : Session) → IsSession s → Leaves (open_failed e s)
unfolding open_failed
open_failed-IsSession e s v =
    on_disconnected-IsSession e (close_connection s) (close_connection-IsSession s v)

pub opened_active-IsSession :
    (r : Result Failure Message) (s : Session) → IsSession s → Leaves (opened_active r s)
unfolding opened_active
opened_active-IsSession (err e) s v = open_failed-IsSession e s v
opened_active-IsSession (ok rsp) s v =
    either_branch (λ (r : Session × Option Failure). IsSession r.0)
      (not (rsp.header.header_byte2 == rsp_ok)) _ _
      (λ e. open_failed-IsSession (core invalid_argument) s v) λ e. set_selected-IsSession s v

pub opened_passive-IsSession :
    (o : Option Failure) (s : Session) → IsSession s → Leaves (opened_passive o s)
unfolding opened_passive
opened_passive-IsSession none s v = v
opened_passive-IsSession (some e) s v = open_failed-IsSession e s v

pub send-IsSession : (m : Message) (s : Session) → IsSession s → Leaves (send m s)
unfolding send
send-IsSession m s v =
    let Fine : Session × Option Failure → Type 0 = λ r. IsSession r.0 in
    either_branch Fine (not s.connection.is_open) _ _ (λ e. v)
      λ e.
        either_branch Fine (is_data m && not (is_selected s.state)) _ _ (λ d. v)
          λ d. write-IsSession m s v

cons_empty : (m : Message) (ms : List Message) → m ∷ ms ≡ [] → ⊥
cons_empty m ms e = cc

-- A message is only received where one waits, in a selected session.
receive_from-IsSession :
    (inbound : List Message) (s t : Session) (m : Message)
    → s.inbound_data ≡ inbound
    → receive_from inbound s ≡ some (m, t)
    → IsSession s
    → IsSession t
unfolding receive_from IsSession
receive_from-IsSession [] s t m q e v = cc
receive_from-IsSession (n ∷ []) s t m q e v =
    let popped : Session = record s {
      inbound_data = [];
      inbound_event = Event.reset s.inbound_event;
    } in
    let same : popped ≡ t = cc in
    subst IsSession same (record {
      connection = v.connection;
      gated = v.gated;
      quiet = λ d. refl;
      control_only = v.control_only;
      idle = v.idle;
      bounded = v.bounded;
    })
receive_from-IsSession (n ∷ k ∷ rest) s t m q e v =
    let popped : Session = record s { inbound_data = k ∷ rest } in
    let same : popped ≡ t = cc in
    subst IsSession same (record {
      connection = v.connection;
      gated = v.gated;
      quiet = λ d. absurd (cons_empty n (k ∷ rest) (sym q ∙ v.quiet d));
      control_only = v.control_only;
      idle = v.idle;
      bounded = v.bounded;
    })

pub receive_data-IsSession :
    (s t : Session) (m : Message) → receive_data s ≡ some (m, t) → IsSession s → IsSession t
unfolding receive_data
receive_data-IsSession s t m e v = receive_from-IsSession s.inbound_data s t m refl e v

-- A selected session is connected.
selected_is_connected :
    (state : SessionState) → not (is_selected state) ≡ false → is_disconnected state ≡ false
unfolding is_selected is_disconnected
selected_is_connected disconnected e = absurd (clash e)
selected_is_connected connected e = refl
selected_is_connected selected e = refl

pub request_data-IsSession :
    (stream function : ℕ) (body : List ℕ) (s : Session)
    → IsSession s
    → Leaves (request_data stream function body s)
unfolding request_data allocate_system_bytes IsSession
request_data-IsSession stream function body s v =
    let Fine : Session × Option Failure → Type 0 = λ r. IsSession r.0 in
    either_branch Fine (not (is_selected s.state)) _ _ (λ e. v)
      λ e.
        either_branch Fine (leb 0x8000 s.options.session_id) _ _ (λ d. v)
          λ d.
            begin_transaction-IsSession SType.data_message _ (allocate_system_bytes s) v
              (selected_is_connected s.state e) λ c. absurd (unselected (is_selected s.state) c e)

pub linktest-IsSession : (s : Session) → IsSession s → Leaves (linktest s)
unfolding linktest allocate_system_bytes IsSession
linktest-IsSession s v =
    either_branch (λ (r : Session × Option Failure). IsSession r.0) (not (is_selected s.state)) _ _
      (λ e. v)
      λ e.
        begin_transaction-IsSession SType.linktest_rsp _ (allocate_system_bytes s) v
          (selected_is_connected s.state e) λ c. refl

pub linktest_counted-IsSession :
    (failures : ℕ) (o : Option Failure) (s : Session)
    → IsSession s
    → Leaves (linktest_counted failures o s)
unfolding linktest_counted
linktest_counted-IsSession failures none s v = v
linktest_counted-IsSession failures (some e) s v =
    either_branch (λ (r : Session × Option ℕ). IsSession r.0)
      (leb (failure_limit s) ((failures + 1) % 2 ^ 32)) _ _ (λ c. close_connection-IsSession s v)
      λ c. v
