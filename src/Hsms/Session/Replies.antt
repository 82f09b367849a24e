-- ===== src/Hsms/Session/Replies.antt =====
-- The replies of `reader_loop_` of src/hsms/session.cpp.
use secs_lib.Common.{◌&&◌, ℕ, ◌+◌, ◌≡◌, ◌⊎◌, Bool, false, ◌||◌, ◌==◌}
use secs_lib.Hsms.Message.{Message}
use secs_lib.Hsms.SType
use secs_lib.Hsms.Connection.Control.{IsShort, Placed}
use secs_lib.Hsms.Session.{Session, control_session_id}
use secs_lib.Hsms.Session.Reader.{
  Turn, reads, replies, ends, ControlKind, select_request, deselect_request, linktest_request,
  unknown,
}

-- The response to this request, or a Reject.req about it, of the same session and transaction.
unfoldable pub IsReply : Message → Message → Type 0
IsReply m rsp =
    (rsp.header.system_bytes ≡ m.header.system_bytes)
    × (rsp.header.session_id ≡ m.header.session_id)
    × ((rsp.header.s_type ≡ m.header.s_type + 1) ⊎ (rsp.header.s_type ≡ SType.reject_req))

-- A request to the control session, which asks for a response.
unfoldable pub asks : Message → Bool
asks m =
    (m.header.s_type == SType.select_req
      || (m.header.s_type == SType.deselect_req || m.header.s_type == SType.linktest_req))
    && m.header.session_id == control_session_id

-- The session and the turn after a message: a reply is one to the message, and was placed on the
-- connection; where there is none, the message did not ask for one.
unfoldable pub Answers : Message → Session × Turn → Type 0
Answers m (s, replies rsp after refused) = IsReply m rsp × Placed rsp s.connection refused
Answers m (s, reads) = asks m ≡ false
Answers m (s, ends) = asks m ≡ false

-- A reply that can be written.
abbrev Fits : Message → Message → Type 0
Fits m rsp = IsReply m rsp × IsShort rsp

-- The type of a message of this kind.
unfoldable pub IsOf : ControlKind → ℕ → Type 0
IsOf select_request k = k ≡ SType.select_req
IsOf deselect_request k = k ≡ SType.deselect_req
IsOf linktest_request k = k ≡ SType.linktest_req
IsOf unknown k = Unit
IsOf _ k = (k ≡ SType.select_req → ⊥) × (k ≡ SType.deselect_req → ⊥) × (k ≡ SType.linktest_req → ⊥)
