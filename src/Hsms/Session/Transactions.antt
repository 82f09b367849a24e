-- ===== src/Hsms/Session/Transactions.antt =====
-- The control and data transactions of src/hsms/session.cpp.
use secs_lib.Common.{
  ℕ, ◌+◌, Bool, true, false, List, [], ◌∷◌, ◌++◌, Option, none, some, ltb, ◌==◌, if◌then◌else◌,
  length,
}
use secs_lib.Common.Assoc.{lookup, assign, erase_key}
use secs_lib.Common.Outcome.{Result, ok, err}
use secs_lib.Core.Error.{Failure, core, buffer_overflow, invalid_argument, timeout}
use secs_lib.Hsms.Message.{Message}
use secs_lib.Hsms.Session.{Session, Pending, fresh_event, write, emit_written}

unfoldable pub pending_limit : Session → ℕ
pending_limit s = if s.options.max_pending_requests == 0 then 1 else s.options.max_pending_requests

-- The transaction under a key, which leaves the map.
unfoldable pub replaced : Option Pending → List Pending
replaced none = []
replaced (some p) = p ∷ []

unfoldable pub new_pending : ℕ → ℕ → Pending
new_pending number expected = record {
  number = number;
  expected_stype = expected;
  ready = fresh_event;
  ec = none;
  response = none;
}

unfoldable pub insert_pending : ℕ → Message → Session → Session
insert_pending expected req s =
    let sb = req.header.system_bytes in
    record s {
      pending = assign sb (new_pending s.numbers expected) s.pending;
      released = s.released ++ replaced (lookup sb s.pending);
      numbers = s.numbers + 1;
    }

unfoldable pub erase_pending : ℕ → Session → Session
erase_pending sb s = record s {
  pending = erase_key sb s.pending;
  released = s.released ++ replaced (lookup sb s.pending);
}

-- A request refused at once leaves no transaction.
unfoldable pub begun : ℕ → Session × Option Failure → Session × Option Failure
begun sb (s, none) = (s, none)
begun sb (s, some e) = (erase_pending sb s, some e)

-- The start of `async_control_transaction_` and `async_data_transaction_`, up to the wait for the
-- write, and the error code of one that ends at once.
unfoldable pub begin_transaction : ℕ → Message → Session → Session × Option Failure
begin_transaction expected req s =
    let full : Session × Option Failure = (s, some (core buffer_overflow)) in
    let sent = begun req.header.system_bytes (write req (insert_pending expected req s)) in
    if ltb (length s.pending) (pending_limit s) then sent else full

-- The write of the request ended; `emit_control_event_` leaves data messages out.
unfoldable pub request_written : Option Failure → Message → Session → Session
request_written none req s = emit_written none req s
request_written (some e) req s = erase_pending req.header.system_bytes s

-- What the transaction returns: the wait's error code, and the transaction as its waiter sees it.
unfoldable pub response_of : Option Message → Result Failure Message
response_of none = err (core invalid_argument)
response_of (some m) = ok m

unfoldable pub is_timeout : Failure → Bool
is_timeout (core timeout) = true
is_timeout _ = false

unfoldable pub transaction_result : Option Failure → Pending → Result Failure Message
transaction_result none p = elim p.ec [ some e ↦ err e | none ↦ response_of p.response ]
transaction_result (some e) p =
    if is_timeout e then err e else err (elim p.ec [ some own ↦ own | none ↦ e ])
