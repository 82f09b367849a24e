-- ===== src/Hsms/Session/Invariant.antt =====
-- What holds of an HSMS session of src/hsms/session.cpp between two steps, and that the changes of
-- its state keep it.
use secs_lib.Common.{
  ℕ, ◌≤◌, ◌≡◌, inr, refl, sym, true, false, either_branch, not, List, [], ◌∷◌, All, Option, none,
  some, arith, ◌==◌, if◌then◌else◌, length, clash,
}
use secs_lib.Core.Error.{Failure, core, cancelled}
use secs_lib.Hsms.Message.{Message, is_control}
use secs_lib.Hsms.Connection.{Connection, new_connection}
use secs_lib.Hsms.Connection.Invariant.{
  IsConnection, new_connection-IsConnection, enable_data_writes-IsConnection,
  disable_data_writes-IsConnection, close-IsConnection, write_message-IsConnection,
}
use secs_lib.Hsms.Connection.Gate.{
  IsShut, disable_data_writes-IsShut, close-IsShut, write_message-IsShut,
}
use secs_lib.Hsms.Session.{
  SessionState, is_selected, is_disconnected, ControlDirection, tx, SessionOptions,
  default_queue_size, Pending, Session, new_session, reset_state, set_selected, is_data_transaction,
  without_data, cancel_pending_data, set_not_selected, on_disconnected, emit_control_event,
  emit_written, write, close_connection, stop,
}

-- A transaction of the map that waits for a control message.
abbrev pub IsControlEntry : ℕ × Pending → Type 0
IsControlEntry e = is_data_transaction e.1 ≡ false

-- While the session is not selected, no data can be written, none waits to be received and none is
-- waited for; while it is disconnected nothing is waited for at all. The transactions are within their limit, as
-- are the queues of the connection.
pub record IsState (c : Connection) (state : SessionState) (inbound : List Message)
    (pending : List (ℕ × Pending)) (limit : ℕ) : Type 0 where
  pub connection : IsConnection c
  pub gated : is_selected state ≡ false → IsShut c
  pub quiet : is_selected state ≡ false → inbound ≡ []
  pub control_only : is_selected state ≡ false → All IsControlEntry pending
  pub idle : is_disconnected state ≡ true → pending ≡ []
  pub bounded : length pending ≤ (if limit == 0 then 1 else limit)

unfoldable pub IsSession : Session → Type 0
IsSession s = IsState s.connection s.state s.inbound_data s.pending s.options.max_pending_requests

pub new_session-IsSession : (options : SessionOptions) → IsSession (new_session options)
unfolding new_session new_connection IsShut IsSession
new_session-IsSession options = record {
  connection = new_connection-IsConnection false default_queue_size;
  gated = λ e. inr refl;
  quiet = λ e. refl;
  control_only = λ e. tt;
  idle = λ e. refl;
  bounded = omega arith;
}

pub reset_state-IsSession : (s : Session) → IsConnection s.connection → IsSession (reset_state s)
unfolding reset_state is_disconnected IsSession
reset_state-IsSession s v = record {
  connection = disable_data_writes-IsConnection (core cancelled) s.connection v;
  gated = λ e. disable_data_writes-IsShut (core cancelled) s.connection;
  quiet = λ e. refl;
  control_only = λ e. tt;
  idle = λ e. absurd (clash (sym e));
  bounded = omega arith;
}

pub on_disconnected-IsSession :
    (reason : Failure) (s : Session) → IsSession s → IsSession (on_disconnected reason s)
unfolding on_disconnected IsSession
on_disconnected-IsSession reason s v = record {
  connection = disable_data_writes-IsConnection reason s.connection v.connection;
  gated = λ e. disable_data_writes-IsShut reason s.connection;
  quiet = λ e. refl;
  control_only = λ e. tt;
  idle = λ e. refl;
  bounded = omega arith;
}

pub set_selected-IsSession : (s : Session) → IsSession s → IsSession (set_selected s)
unfolding set_selected is_selected is_disconnected IsSession
set_selected-IsSession s v =
    either_branch (λ t. IsSession t) (is_selected s.state) _ _ (λ e. v)
      λ e. record {
        connection = enable_data_writes-IsConnection s.connection v.connection;
        gated = λ d. absurd (clash d);
        quiet = λ d. absurd (clash d);
        control_only = λ d. absurd (clash d);
        idle = λ d. absurd (clash (sym d));
        bounded = v.bounded;
      }

without_data-control : (entries : List (ℕ × Pending)) → All IsControlEntry (without_data entries)
unfolding without_data
without_data-control [] = tt
without_data-control ((sb, p) ∷ rest) =
    either_branch (All IsControlEntry) (is_data_transaction p) _ _ (λ e. without_data-control rest)
      λ e. (e, without_data-control rest)

without_data-le : (entries : List (ℕ × Pending)) → length (without_data entries) ≤ length entries
unfolding without_data
without_data-le [] = omega arith
without_data-le ((sb, p) ∷ rest) = ground (arith, without_data-le rest)

pub set_not_selected-IsSession : (s : Session) → IsSession s → IsSession (set_not_selected s)
unfolding set_not_selected cancel_pending_data is_disconnected IsSession
set_not_selected-IsSession s v =
    either_branch (λ t. IsSession t) (is_disconnected s.state) _ _ (λ e. v)
      λ e. record {
        connection = disable_data_writes-IsConnection (core cancelled) s.connection v.connection;
        gated = λ d. disable_data_writes-IsShut (core cancelled) s.connection;
        quiet = λ d. refl;
        control_only = λ d. without_data-control s.pending;
        idle = λ d. absurd (clash (sym d));
        bounded = omega (arith, without_data-le s.pending, v.bounded);
      }

pub close_connection-IsSession : (s : Session) → IsSession s → IsSession (close_connection s)
unfolding close_connection IsSession
close_connection-IsSession s v = record {
  connection = close-IsConnection s.connection v.connection;
  gated = λ e. close-IsShut s.connection;
  quiet = v.quiet;
  control_only = v.control_only;
  idle = v.idle;
  bounded = v.bounded;
}

pub stop-IsSession : (s : Session) → IsSession s → IsSession (stop s)
unfolding stop IsSession
stop-IsSession s v =
    let stopping : Session = record s { stop_requested = true } in
    on_disconnected-IsSession (core cancelled) (close_connection stopping)
      (close_connection-IsSession stopping v)

pub write-IsSession : (m : Message) (s : Session) → IsSession s → IsSession (write m s).0
unfolding write IsSession
write-IsSession m s v = record {
  connection = write_message-IsConnection s.numbers m s.connection v.connection;
  gated = λ e. write_message-IsShut s.numbers m s.connection (v.gated e);
  quiet = v.quiet;
  control_only = v.control_only;
  idle = v.idle;
  bounded = v.bounded;
}

pub emit_control_event-IsSession :
    (direction : ControlDirection) (m : Message) (s : Session)
    → IsSession s
    → IsSession (emit_control_event direction m s)
unfolding emit_control_event is_control IsSession
emit_control_event-IsSession direction m s v =
    either_branch (λ t. IsSession t) (not s.options.observed) _ _ (λ e. v)
      λ e. either_branch (λ t. IsSession t) (not (is_control m)) _ _ (λ d. v) λ d. v

pub emit_written-IsSession :
    (o : Option Failure) (m : Message) (s : Session) → IsSession s → IsSession (emit_written o m s)
unfolding emit_written
emit_written-IsSession none m s v = emit_control_event-IsSession tx m s v
emit_written-IsSession (some e) m s v = v
