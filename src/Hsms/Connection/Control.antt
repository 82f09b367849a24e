-- ===== src/Hsms/Connection/Control.antt =====
-- A control message that `async_write_message` of src/hsms/connection.cpp takes, up to its wait.
use secs_lib.Common.Outcome.{ok}
use secs_lib.Core.Error.{Failure, core, invalid_argument, buffer_overflow}
use secs_lib.Hsms.Connection.{
  WriteRequest, Connection, queued, queue_limit, make_room, cancel_queued_data_writes, push,
  enqueue, write_message,
}
use secs_lib.Common.{
  ◌≤◌, ◌&&◌, ◌%◌, ◌^◌, ◌∙◌, sym, subst, List, [], ◌∷◌, ◌++◌, Option, none, some, length, ltb, ℕ,
  ◌+◌, ◌≡◌, ◌⊎◌, inl, inr, refl, true, false, either_branch, not, arith,
}
use secs_lib.Hsms.Message.{
  Message, is_data, encode_frame, u32_be, encode_header_bytes, header_size, p_type_secs2,
}

-- A control message that fits into a frame.
unfoldable pub IsShort : Message → Type 0
IsShort rsp =
    (is_data rsp ≡ false) × (rsp.header.p_type ≡ p_type_secs2) × (length rsp.body ≤ header_size)

-- What became of the writing of a control message: its frame is the last request of the queue for
-- these, and the writer is awake; or the connection is closed, or that queue is full.
unfoldable pub Placed : Message → Connection → Option Failure → Type 0
Placed rsp c none =
    (older : List WriteRequest) × (r : WriteRequest) × (c.control_queue ≡ older ++ r ∷ [])
    × (encode_frame rsp ≡ ok r.frame)
    × (c.writer_running ≡ true)
Placed rsp c (some e) =
    ((c.is_open ≡ false) × (e ≡ core invalid_argument))
    ⊎ ((c.is_open ≡ true) × (queue_limit c ≤ length c.control_queue) × (e ≡ core buffer_overflow))

short_frame : (rsp : Message) → IsShort rsp → (frame : List ℕ) × (encode_frame rsp ≡ ok frame)
unfolding IsShort encode_frame
short_frame rsp (control, p_type, short) = (
  u32_be ((header_size + length rsp.body) % 2 ^ 32) ++ (encode_header_bytes rsp.header ++ rsp.body),
  ground (arith, p_type, short),
)

-- Where even a control message finds no room, the requests in the way are all for control.
make_room-full :
    (rsp : Message) (c : Connection)
    → is_data rsp ≡ false
    → ltb (queued (make_room rsp c)) (queue_limit c) ≡ false
    → (queue_limit (make_room rsp c) ≤ length (make_room rsp c).control_queue)
      × ((make_room rsp c).is_open ≡ c.is_open)
unfolding make_room queued queue_limit cancel_queued_data_writes
make_room-full rsp c control =
    let Fine : Connection → Type 0 = λ d.
      ltb (queued d) (queue_limit c) ≡ false
      → (queue_limit d ≤ length d.control_queue) × (d.is_open ≡ c.is_open) in
    either_branch Fine (ltb (queued c) (queue_limit c)) _ _
      (λ fits full. absurd (ground (arith, fits, full)))
      λ e.
        either_branch Fine (is_data rsp) _ _ (λ d full. absurd (ground (arith, control, d)))
          λ no full. (ground (arith, full), refl)

enqueue-Placed :
    (id : ℕ) (rsp : Message) (c : Connection) (frame : List ℕ)
    → encode_frame rsp ≡ ok frame
    → is_data rsp ≡ false
    → Placed rsp (enqueue id rsp c (ok frame)).0 (enqueue id rsp c (ok frame)).1
unfolding enqueue push Placed
enqueue-Placed id rsp c frame made control =
    either_branch (λ d. Placed rsp d none) (is_data rsp) _ _
      (λ d. absurd (ground (arith, control, d)))
      λ e. (
        c.control_queue,
        record { id = id; frame = frame; is_data_request = is_data rsp },
        refl,
        made,
        refl,
      )

pub write_message-Placed :
    (id : ℕ) (rsp : Message) (c : Connection)
    → IsShort rsp
    → Placed rsp (write_message id rsp c).0 (write_message id rsp c).1
unfolding write_message Placed enqueue push IsShort
write_message-Placed id rsp c short =
    let Fine : Connection × Option Failure → Type 0 = λ r. Placed rsp r.0 r.1 in
    let (frame, made) = short_frame rsp short in
    either_branch Fine (not c.is_open) _ _ (λ shut. inl (ground (arith, shut), refl))
      λ opened.
        either_branch Fine (is_data rsp && not c.data_writes_enabled) _ _
          (λ gated. absurd (ground (arith, short, gated)))
          λ passes.
            either_branch Fine (ltb (queued (make_room rsp c)) (queue_limit c)) _ _
              (λ room.
                subst (λ f. Fine (enqueue id rsp (make_room rsp c) f)) (sym made)
                  (enqueue-Placed id rsp (make_room rsp c) frame made short.0))
              λ full.
                let (many, same) = make_room-full rsp c short.0 full in
                inr (same ∙ ground (arith, opened), many, refl)
