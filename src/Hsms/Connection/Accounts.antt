-- ===== src/Hsms/Connection/Accounts.antt =====
-- The account of the write requests of src/hsms/connection.cpp: none is lost, none is answered twice.
use secs_lib.Common.{
  ℕ, ◌+◌, ◌≡◌, refl, ap, ◌∙◌, Bool, false, either_branch, ◌&&◌, not, List, [], ◌∷◌, ◌++◌, Option,
  none, some, arith, ltb, ◌==◌, if◌then◌else◌,
}
use secs_lib.Common.Outcome.{Result, ok, err}
use secs_lib.Core.Error.{Failure, core, Errc, cancelled, buffer_overflow}
use secs_lib.Hsms.Message.{Message, is_data, encode_frame}
use secs_lib.Hsms.Connection.{
  WriteRequest, Connection, new_connection, failed, cancel_queued_writes, cancel_queued_data_writes,
  enable_data_writes, disable_data_writes, close, queued, queue_limit, make_room, push, enqueue,
  write_message, writer_stopped, take_next, writer_turn, written,
}
use secs_lib.Hsms.Connection.Steps.{
  accepted, Reachable, created, wrote, enabled, disabled, closed, turned, stopped, finished,
  Reachable-IsConnection,
}

-- How often a request stands in a list, by its number.
unfoldable pub occurrences : ℕ → List ℕ → ℕ
occurrences k [] = 0
occurrences k (id ∷ ids) = (if id == k then 1 else 0) + occurrences k ids

unfoldable pub waiting : ℕ → List WriteRequest → ℕ
waiting k [] = 0
waiting k (r ∷ rs) = (if r.id == k then 1 else 0) + waiting k rs

unfoldable pub answered : ℕ → List (WriteRequest × Option Failure) → ℕ
answered k [] = 0
answered k ((r, e) ∷ rest) = (if r.id == k then 1 else 0) + answered k rest

unfoldable pub writing : ℕ → Option WriteRequest → ℕ
writing k none = 0
writing k (some r) = if r.id == k then 1 else 0

-- Where a request can be: answered, on the stream, or in a queue.
unfoldable pub held : ℕ → Connection → ℕ
held k c =
    answered k c.results
    + writing k c.in_flight
    + waiting k c.control_queue
    + waiting k c.data_queue

waiting-append :
    (k : ℕ) (xs ys : List WriteRequest) → waiting k (xs ++ ys) ≡ waiting k xs + waiting k ys
unfolding waiting
waiting-append k [] ys = omega arith
waiting-append k (x ∷ xs) ys = omega (arith, waiting-append k xs ys)

answered-append :
    (k : ℕ) (xs ys : List (WriteRequest × Option Failure))
    → answered k (xs ++ ys) ≡ answered k xs + answered k ys
unfolding answered
answered-append k [] ys = omega arith
answered-append k ((r, e) ∷ xs) ys = omega (arith, answered-append k xs ys)

answered-failed :
    (k : ℕ) (reason : Failure) (rs : List WriteRequest)
    → answered k (failed reason rs) ≡ waiting k rs
unfolding answered failed waiting
answered-failed k reason [] = refl
answered-failed k reason (r ∷ rs) = omega (arith, answered-failed k reason rs)

held-cancel_queued_writes :
    (k : ℕ) (reason : Failure) (c : Connection) → held k (cancel_queued_writes reason c) ≡ held k c
unfolding held cancel_queued_writes waiting
held-cancel_queued_writes k reason c = omega (
  arith,
  answered-append k c.results (failed reason c.control_queue ++ failed reason c.data_queue),
  answered-append k (failed reason c.control_queue) (failed reason c.data_queue),
  answered-failed k reason c.control_queue,
  answered-failed k reason c.data_queue,
)

held-cancel_queued_data_writes :
    (k : ℕ) (reason : Failure) (c : Connection)
    → held k (cancel_queued_data_writes reason c) ≡ held k c
unfolding held cancel_queued_data_writes waiting
held-cancel_queued_data_writes k reason c = omega (
  arith,
  answered-append k c.results (failed reason c.data_queue),
  answered-failed k reason c.data_queue,
)

-- The fields that are no queue do not count.
held-close : (k : ℕ) (c : Connection) → held k (close c) ≡ held k c
unfolding held close disable_data_writes
held-close k c =
    let shut : Connection = record c { is_open = false; data_writes_enabled = false } in
    held-cancel_queued_writes k (core cancelled) (cancel_queued_data_writes (core cancelled) shut)
    ∙ held-cancel_queued_data_writes k (core cancelled) shut

held-disable_data_writes :
    (k : ℕ) (reason : Failure) (c : Connection) → held k (disable_data_writes reason c) ≡ held k c
unfolding held disable_data_writes
held-disable_data_writes k reason c =
    held-cancel_queued_data_writes k reason (record c { data_writes_enabled = false })

held-writer_stopped : (k : ℕ) (c : Connection) → held k (writer_stopped c) ≡ held k c
unfolding held writer_stopped
held-writer_stopped k c =
    held-cancel_queued_writes k (core cancelled) (record c { writer_running = false })

held-make_room : (k : ℕ) (msg : Message) (c : Connection) → held k (make_room msg c) ≡ held k c
unfolding make_room
held-make_room k msg c =
    let Same : Connection → Type 0 = λ d. held k d ≡ held k c in
    either_branch Same (ltb (queued c) (queue_limit c)) _ _ (λ e. refl)
      λ e.
        either_branch Same (is_data msg) _ _ (λ d. refl)
          λ d. held-cancel_queued_data_writes k (core buffer_overflow) c

held-push :
    (k : ℕ) (r : WriteRequest) (c : Connection)
    → held k (push r c) ≡ (if r.id == k then 1 else 0) + held k c
unfolding held push waiting
held-push k r c =
    let More : Connection → Type 0 = λ d. held k d ≡ (if r.id == k then 1 else 0) + held k c in
    either_branch More r.is_data_request _ _
      (λ d. omega (arith, waiting-append k c.data_queue (r ∷ [])))
      (λ d. omega (arith, waiting-append k c.control_queue (r ∷ [])))

-- A write adds its request to the account, if it is accepted.
abbrev Adds : ℕ → ℕ → Connection → Connection × Option Failure → Type 0
Adds k id c r =
    (ids : List ℕ) → held k c ≡ occurrences k ids → held k r.0 ≡ occurrences k (accepted id r.1 ids)

enqueue-Adds :
    (k id : ℕ) (msg : Message) (c : Connection) (o : Result Errc (List ℕ))
    → Adds k id c (enqueue id msg c o)
unfolding enqueue accepted occurrences
enqueue-Adds k id msg c (ok frame) ids h =
    let r : WriteRequest = record { id = id; frame = frame; is_data_request = is_data msg } in
    held-push k r c ∙ ap (λ n. (if id == k then 1 else 0) + n) h
enqueue-Adds k id msg c (err e) ids h = h

write_message-Adds :
    (k id : ℕ) (msg : Message) (c : Connection) → Adds k id c (write_message id msg c)
unfolding write_message accepted
write_message-Adds k id msg c ids h =
    let same : held k (make_room msg c) ≡ occurrences k ids = held-make_room k msg c ∙ h in
    let Fine : Connection × Option Failure → Type 0 =
      λ r. held k r.0 ≡ occurrences k (accepted id r.1 ids) in
    either_branch Fine (not c.is_open) _ _ (λ e. h)
      λ e.
        either_branch Fine (is_data msg && not c.data_writes_enabled) _ _ (λ d. h)
          λ d.
            either_branch Fine (ltb (queued (make_room msg c)) (queue_limit c)) _ _
              (λ l. enqueue-Adds k id msg (make_room msg c) (encode_frame msg) ids same) (λ l. same)

held-take_next :
    (k : ℕ) (cs ds : List WriteRequest) (c : Connection)
    → c.control_queue ≡ cs
    → c.data_queue ≡ ds
    → c.in_flight ≡ none
    → held k (take_next cs ds c) ≡ held k c
unfolding held take_next waiting writing
held-take_next k (r ∷ rs) ds c p q i = rw (p, i) (omega arith)
held-take_next k [] (r ∷ rs) c p q i = rw (p, q, i) (omega arith)
held-take_next k [] [] c p q i = refl

held-writer_turn : (k : ℕ) (c : Connection) → c.in_flight ≡ none → held k (writer_turn c) ≡ held k c
unfolding writer_turn
held-writer_turn k c i =
    either_branch (λ d. held k d ≡ held k c) c.is_open _ _
      (λ e. held-take_next k c.control_queue c.data_queue c refl refl i)
      λ e. held-writer_stopped k c

-- The request on the stream is answered.
held_finished :
    (k : ℕ) (o : Option Failure) (r : WriteRequest) (opened : Bool) (c : Connection)
    → c.in_flight ≡ some r
    → held k (record c { results = c.results ++ (r, o) ∷ []; in_flight = none; is_open = opened })
      ≡ held k c
unfolding held answered writing
held_finished k o r opened c i =
    omega (arith, answered-append k c.results ((r, o) ∷ []), ap (writing k) i)

held-written :
    (k : ℕ) (o : Option Failure) (r : WriteRequest) (c : Connection)
    → c.in_flight ≡ some r
    → held k (written o r c) ≡ held k c
unfolding written
held-written k none r c i = held_finished k none r c.is_open c i
held-written k (some e) r c i =
    let stopped_stream : Connection = record c {
      results = c.results ++ (r, some e) ∷ [];
      in_flight = none;
      is_open = false;
    } in
    held-writer_stopped k (cancel_queued_writes e stopped_stream)
    ∙ (held-cancel_queued_writes k e stopped_stream ∙ held_finished k (some e) r false c i)

-- In every history the account is right: a request is as often answered, on the stream or in a queue, in all, as
-- it was accepted.
Reachable-held :
    (ids : List ℕ) (c : Connection) (k : ℕ) → Reachable ids c → held k c ≡ occurrences k ids
unfolding occurrences held waiting answered writing new_connection enable_data_writes
Reachable-held _ _ k (created opened size) = refl
Reachable-held _ _ k (wrote ids c id msg h) =
    write_message-Adds k id msg c ids (Reachable-held ids c k h)
Reachable-held _ _ k (enabled ids c h) = Reachable-held ids c k h
Reachable-held _ _ k (disabled ids c reason h) =
    held-disable_data_writes k reason c ∙ Reachable-held ids c k h
Reachable-held _ _ k (closed ids c h) = held-close k c ∙ Reachable-held ids c k h
Reachable-held _ _ k (turned ids c w i h) = held-writer_turn k c i ∙ Reachable-held ids c k h
Reachable-held _ _ k (stopped ids c w i h) = held-writer_stopped k c ∙ Reachable-held ids c k h
Reachable-held _ _ k (finished ids c r o i h) = held-written k o r c i ∙ Reachable-held ids c k h

-- In every history a request is as often answered, on the stream or in a queue, in all, as it was
-- accepted; and where the writer has stopped, it has been answered that often.
pub Reachable-answered :
    (ids : List ℕ) (c : Connection) (k : ℕ)
    → Reachable ids c
    → (held k c ≡ occurrences k ids)
      × (c.writer_running ≡ false → answered k c.results ≡ occurrences k ids)
unfolding held waiting writing
Reachable-answered ids c k h =
    let all = Reachable-held ids c k h in
    let v = Reachable-IsConnection ids c h in
    (
      all,
      λ w.
          let idle = v.served w in
          omega (arith, all, ap (waiting k) idle.0, ap (waiting k) idle.1, ap (writing k) idle.2),
    )
