-- ===== src/Hsms/Connection/Invariant.antt =====
-- What each call of a connection keeps, on the writing side of src/hsms/connection.cpp.
use secs_lib.Common.{
  ℕ, ◌+◌, ◌≤◌, ◌≡◌, refl, sym, ◌∙◌, subst, Bool, true, false, either_branch, ◌&&◌, not, List, [],
  ◌∷◌, All, All-append, Option, none, some, arith, ltb, length-append, clash,
}
use secs_lib.Common.Outcome.{Result, ok, err}
use secs_lib.Core.Error.{Failure, core, Errc, buffer_overflow}
use secs_lib.Hsms.Message.{Message, is_data, encode_frame}
use secs_lib.Hsms.Connection.{
  WriteRequest, Connection, new_connection, cancel_queued_writes, cancel_queued_data_writes,
  enable_data_writes, disable_data_writes, close, queued, queue_limit, make_room, push, enqueue,
  write_message, writer_stopped, take_next, writer_turn, written,
}

-- One of the two kinds of message.
abbrev pub IsOfKind : Bool → WriteRequest → Type 0
IsOfKind kind r = r.is_data_request ≡ kind

-- The queues are within their limit and hold their kind of message, no data waits behind the closed
-- gate, and with no writer nothing waits at all.
pub record IsConnection (c : Connection) : Type 0 where
  pub bounded : queued c ≤ queue_limit c
  pub control : All (IsOfKind false) c.control_queue
  pub data_only : All (IsOfKind true) c.data_queue
  pub gated : c.data_writes_enabled ≡ false → c.data_queue ≡ []
  pub served :
      c.writer_running ≡ false → (c.control_queue ≡ []) × (c.data_queue ≡ []) × (c.in_flight ≡ none)

pub new_connection-IsConnection :
    (opened : Bool) (size : ℕ) → IsConnection (new_connection opened size)
unfolding new_connection queued queue_limit
new_connection-IsConnection opened size = record {
  bounded = ground arith;
  control = tt;
  data_only = tt;
  gated = λ e. refl;
  served = λ e. (refl, refl, refl);
}

pub cancel_queued_writes-IsConnection :
    (reason : Failure) (c : Connection)
    → IsConnection c
    → IsConnection (cancel_queued_writes reason c)
unfolding cancel_queued_writes queued queue_limit
cancel_queued_writes-IsConnection reason c v = record {
  bounded = omega arith;
  control = tt;
  data_only = tt;
  gated = λ e. refl;
  served = λ e. (refl, refl, (v.served e).2);
}

pub cancel_queued_data_writes-IsConnection :
    (reason : Failure) (c : Connection)
    → IsConnection c
    → IsConnection (cancel_queued_data_writes reason c)
unfolding cancel_queued_data_writes queued queue_limit
cancel_queued_data_writes-IsConnection reason c v = record {
  bounded = omega (arith, v.bounded);
  control = v.control;
  data_only = tt;
  gated = λ e. refl;
  served = λ e. ((v.served e).0, refl, (v.served e).2);
}

pub enable_data_writes-IsConnection :
    (c : Connection) → IsConnection c → IsConnection (enable_data_writes c)
unfolding enable_data_writes queued queue_limit
enable_data_writes-IsConnection c v = record {
  bounded = v.bounded;
  control = v.control;
  data_only = v.data_only;
  gated = λ e. cc;
  served = v.served;
}

pub disable_data_writes-IsConnection :
    (reason : Failure) (c : Connection)
    → IsConnection c
    → IsConnection (disable_data_writes reason c)
unfolding disable_data_writes cancel_queued_data_writes queued queue_limit
disable_data_writes-IsConnection reason c v = record {
  bounded = omega (arith, v.bounded);
  control = v.control;
  data_only = tt;
  gated = λ e. refl;
  served = λ e. ((v.served e).0, refl, (v.served e).2);
}

pub close-IsConnection : (c : Connection) → IsConnection c → IsConnection (close c)
unfolding close disable_data_writes cancel_queued_data_writes cancel_queued_writes queued
    queue_limit
close-IsConnection c v = record {
  bounded = omega arith;
  control = tt;
  data_only = tt;
  gated = λ e. refl;
  served = λ e. (refl, refl, (v.served e).2);
}

-- A data message that the gate let through.
open_gate : (b enabled : Bool) → b ≡ true → (b && not enabled) ≡ false → enabled ≡ true
open_gate true true d e = refl
open_gate true false d e = absurd (clash e)
open_gate false enabled d e = absurd (clash (sym d))

make_room-IsConnection :
    (msg : Message) (c : Connection) → IsConnection c → IsConnection (make_room msg c)
unfolding make_room
make_room-IsConnection msg c v =
    either_branch IsConnection (ltb (queued c) (queue_limit c)) _ _ (λ e. v)
      λ e.
        either_branch IsConnection (is_data msg) _ _ (λ d. v)
          λ d. cancel_queued_data_writes-IsConnection (core buffer_overflow) c v

push-IsConnection :
    (r : WriteRequest) (c : Connection)
    → IsConnection c
    → (r.is_data_request ≡ true → c.data_writes_enabled ≡ true)
    → queued c + 1 ≤ queue_limit c
    → IsConnection (push r c)
unfolding push queued queue_limit
push-IsConnection r c v g l =
    either_branch IsConnection r.is_data_request _ _
      (λ d. record {
        bounded = omega (arith, length-append c.data_queue (r ∷ []), l);
        control = v.control;
        data_only = All-append (IsOfKind true) c.data_queue (r ∷ []) v.data_only (d, tt);
        gated = λ e. absurd (clash (sym (g d) ∙ e));
        served = λ e. absurd (clash e);
      })
      (λ d. record {
        bounded = omega (arith, length-append c.control_queue (r ∷ []), l);
        control = All-append (IsOfKind false) c.control_queue (r ∷ []) v.control (d, tt);
        data_only = v.data_only;
        gated = v.gated;
        served = λ e. absurd (clash e);
      })

enqueue-IsConnection :
    (id : ℕ) (msg : Message) (c : Connection) (o : Result Errc (List ℕ))
    → IsConnection c
    → (is_data msg ≡ true → c.data_writes_enabled ≡ true)
    → queued c + 1 ≤ queue_limit c
    → IsConnection (enqueue id msg c o).0
unfolding enqueue
enqueue-IsConnection id msg c (ok frame) v g l = push-IsConnection _ c v g l
enqueue-IsConnection id msg c (err e) v g l = v

-- Making room leaves the gate as it is.
make_room-gate :
    (msg : Message) (c : Connection) → (make_room msg c).data_writes_enabled ≡ c.data_writes_enabled
unfolding make_room cancel_queued_data_writes
make_room-gate msg c = ground arith

make_room-limit : (msg : Message) (c : Connection) → queue_limit (make_room msg c) ≡ queue_limit c
unfolding make_room cancel_queued_data_writes queue_limit
make_room-limit msg c = ground arith

pub write_message-IsConnection :
    (id : ℕ) (msg : Message) (c : Connection)
    → IsConnection c
    → IsConnection (write_message id msg c).0
unfolding write_message
write_message-IsConnection id msg c v =
    let roomy = make_room-IsConnection msg c v in
    let gate = make_room-gate msg c in
    let Fine : Connection × Option Failure → Type 0 = λ r. IsConnection r.0 in
    either_branch Fine (not c.is_open) _ _ (λ e. v)
      λ e.
        either_branch Fine (is_data msg && not c.data_writes_enabled) _ _ (λ d. v)
          λ d.
            either_branch Fine (ltb (queued (make_room msg c)) (queue_limit c)) _ _
              (λ l.
                enqueue-IsConnection id msg (make_room msg c) (encode_frame msg) roomy
                  (λ k. gate ∙ open_gate (is_data msg) c.data_writes_enabled k d)
                  (ground (arith, l, make_room-limit msg c)))
              (λ l. roomy)

pub writer_stopped-IsConnection :
    (c : Connection) → c.in_flight ≡ none → IsConnection c → IsConnection (writer_stopped c)
unfolding writer_stopped cancel_queued_writes queued queue_limit
writer_stopped-IsConnection c i v = record {
  bounded = omega arith;
  control = tt;
  data_only = tt;
  gated = λ e. refl;
  served = λ e. (refl, refl, i);
}

-- The queue in front is taken apart.
take_next-IsConnection :
    (cs ds : List WriteRequest) (c : Connection)
    → c.control_queue ≡ cs
    → c.data_queue ≡ ds
    → c.writer_running ≡ true
    → IsConnection c
    → IsConnection (take_next cs ds c)
unfolding take_next queued queue_limit
take_next-IsConnection (r ∷ rs) ds c p q w v = record {
  bounded = ground (arith, v.bounded, p);
  control = (subst (All (IsOfKind false)) p v.control).1;
  data_only = v.data_only;
  gated = v.gated;
  served = λ e. absurd (clash (sym w ∙ e));
}
take_next-IsConnection [] (r ∷ rs) c p q w v = record {
  bounded = ground (arith, v.bounded, q);
  control = v.control;
  data_only = (subst (All (IsOfKind true)) q v.data_only).1;
  gated = λ e. let e2 : c.data_queue ≡ [] = v.gated e in cc;
  served = λ e. absurd (clash (sym w ∙ e));
}
take_next-IsConnection [] [] c p q w v = v

pub writer_turn-IsConnection :
    (c : Connection)
    → c.writer_running ≡ true
    → c.in_flight ≡ none
    → IsConnection c
    → IsConnection (writer_turn c)
unfolding writer_turn
writer_turn-IsConnection c w i v =
    either_branch IsConnection c.is_open _ _
      (λ e. take_next-IsConnection c.control_queue c.data_queue c refl refl w v)
      λ e. writer_stopped-IsConnection c i v

pub written-IsConnection :
    (o : Option Failure) (r : WriteRequest) (c : Connection)
    → c.writer_running ≡ true
    → IsConnection c
    → IsConnection (written o r c)
unfolding written writer_stopped cancel_queued_writes queued queue_limit
written-IsConnection none r c w v = record {
  bounded = v.bounded;
  control = v.control;
  data_only = v.data_only;
  gated = v.gated;
  served = λ e. absurd (clash (sym w ∙ e));
}
written-IsConnection (some e) r c w v = record {
  bounded = omega arith;
  control = tt;
  data_only = tt;
  gated = λ d. refl;
  served = λ d. (refl, refl, refl);
}
