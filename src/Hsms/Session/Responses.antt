-- ===== src/Hsms/Session/Responses.antt =====
-- The transactions of src/hsms/session.cpp and the reader: a response gets to its request.
use secs_lib.Common.{
  ℕ, ◌≡◌, refl, sym, ap, ◌∙◌, subst, true, either_branch, not, List, Option, none, some, arith, leb,
  ltb, ◌==◌, length,
}
use secs_lib.Common.Assoc.{lookup, assign, lookup-assign}
use secs_lib.Common.Outcome.{ok}
use secs_lib.Core.Error.{Failure, core, buffer_overflow, invalid_argument}
use secs_lib.Hsms.Message.{Message, is_data, make_data_message}
use secs_lib.Hsms.SType
use secs_lib.Hsms.Session.{Session, Pending, is_selected, write, allocate_system_bytes}
use secs_lib.Hsms.Session.Reader.{respond, fulfilled, fulfill_pending, read_data, read_message}
use secs_lib.Hsms.Session.Transactions.{
  pending_limit, new_pending, insert_pending, begun, begin_transaction, response_of,
  transaction_result,
}
use secs_lib.Hsms.Session.Calls.{request_data}

-- Where a key was assigned, it is found.
lookup-assigned :
    (key : ℕ) (p : Pending) (entries : List (ℕ × Pending))
    → lookup key (assign key p entries) ≡ some p
lookup-assigned key p entries = ground (arith, lookup-assign key key p entries)

-- A transaction that began waits under its key, and nothing was received.
unfoldable pub IsWaiting : ℕ → ℕ → List Message → Session × Option Failure → Type 0
IsWaiting sb expected inbound r =
    r.1 ≡ none
    → (p : Pending) × (lookup sb r.0.pending ≡ some p)
      × (p.expected_stype ≡ expected)
      × (r.0.inbound_data ≡ inbound)

begun-IsWaiting :
    (expected : ℕ) (req : Message) (s : Session) (o : Option Failure) (c : Session)
    → c.pending ≡ (insert_pending expected req s).pending
    → c.inbound_data ≡ s.inbound_data
    → IsWaiting req.header.system_bytes expected s.inbound_data
        (begun req.header.system_bytes (c, o))
unfolding begun IsWaiting insert_pending new_pending
begun-IsWaiting expected req s none c h k e = (
  new_pending s.numbers expected,
  ap (lookup req.header.system_bytes) h
      ∙ lookup-assigned req.header.system_bytes (new_pending s.numbers expected) s.pending,
  refl,
  k,
)
begun-IsWaiting expected req s (some f) c h k e = cc

-- A write leaves the transactions and the received messages alone.
write-pending : (req : Message) (s : Session) → (write req s).0.pending ≡ s.pending
unfolding write
write-pending req s = refl

write-inbound : (req : Message) (s : Session) → (write req s).0.inbound_data ≡ s.inbound_data
unfolding write
write-inbound req s = refl

refused-IsWaiting :
    (sb expected : ℕ) (inbound : List Message) (s : Session) (e : Failure)
    → IsWaiting sb expected inbound (s, some e)
unfolding IsWaiting
refused-IsWaiting sb expected inbound s e h = cc

data_expected :
    (m : Message) (k : ℕ)
    → is_data m ≡ true
    → k ≡ SType.data_message
    → (k == m.header.s_type) ≡ true
unfolding is_data
data_expected m k d x = ground (arith, d, x)

begin_transaction-IsWaiting :
    (expected : ℕ) (req : Message) (s : Session)
    → IsWaiting req.header.system_bytes expected s.inbound_data (begin_transaction expected req s)
unfolding begin_transaction insert_pending
begin_transaction-IsWaiting expected req s =
    let r = write req (insert_pending expected req s) in
    either_branch (IsWaiting req.header.system_bytes expected s.inbound_data)
      (ltb (length s.pending) (pending_limit s)) _ _
      (λ e.
        begun-IsWaiting expected req s r.1 r.0 (write-pending req (insert_pending expected req s))
          (write-inbound req (insert_pending expected req s)))
      λ e.
        refused-IsWaiting req.header.system_bytes expected s.inbound_data s (core buffer_overflow)

request_data-IsWaiting :
    (stream function : ℕ) (body : List ℕ) (s : Session)
    → IsWaiting s.system_bytes SType.data_message s.inbound_data
        (request_data stream function body s)
unfolding request_data allocate_system_bytes make_data_message
request_data-IsWaiting stream function body s =
    let sb = s.system_bytes in
    let Fine : Session × Option Failure → Type 0 =
      λ r. IsWaiting sb SType.data_message s.inbound_data r in
    either_branch Fine (not (is_selected s.state)) _ _
      (λ e. refused-IsWaiting sb SType.data_message s.inbound_data s (core invalid_argument))
      λ e.
        either_branch Fine (leb 0x8000 s.options.session_id) _ _
          (λ d. refused-IsWaiting sb SType.data_message s.inbound_data s (core invalid_argument))
          λ d.
            begin_transaction-IsWaiting SType.data_message
              (make_data_message s.options.session_id stream function true s.system_bytes body)
              (allocate_system_bytes s)

-- The response is taken by the transaction that waits for it.
read_message-response :
    (m : Message) (t : Session) (p : Pending)
    → is_data m ≡ true
    → lookup m.header.system_bytes t.pending ≡ some p
    → p.expected_stype ≡ SType.data_message
    → (lookup m.header.system_bytes (read_message m t).0.pending ≡ some (respond m p))
      × ((read_message m t).0.inbound_data ≡ t.inbound_data)
unfolding read_message read_data fulfill_pending fulfilled
read_message-response m t p d l x =
    let same : (p.expected_stype == m.header.s_type) ≡ true =
      data_expected m p.expected_stype d x in
    rw d (rw l (rw same (lookup-assigned m.header.system_bytes (respond m p) t.pending, refl)))

-- Where `async_request_data` gets to wait and the reader then reads a data message with its
-- system bytes, the transaction is still there and returns that message once it is woken without
-- an error, and nothing is added to the queue of received messages.
pub request_data-answered :
    (stream function : ℕ) (body : List ℕ) (s : Session) (m : Message)
    → (request_data stream function body s).1 ≡ none
    → is_data m ≡ true
    → m.header.system_bytes ≡ s.system_bytes
    → (p : Pending) × (lookup s.system_bytes
          (read_message m (request_data stream function body s).0).0.pending
        ≡ some p)
      × (transaction_result none p ≡ ok m)
      × ((read_message m (request_data stream function body s).0).0.inbound_data ≡ s.inbound_data)
unfolding transaction_result response_of respond IsWaiting
request_data-answered stream function body s m w d k =
    let t = (request_data stream function body s).0 in
    let waiting = request_data-IsWaiting stream function body s w in
    let found = subst (λ key. lookup key t.pending ≡ some waiting.0) (sym k) waiting.1 in
    let taken = read_message-response m t waiting.0 d found waiting.2 in
    (
      respond m waiting.0,
      subst (λ key. lookup key (read_message m t).0.pending ≡ some (respond m waiting.0)) k taken.0,
      refl,
      taken.1 ∙ waiting.3,
    )
