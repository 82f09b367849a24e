-- ===== src/Hsms/Connection/Gate.antt =====
-- The gate for data messages of src/hsms/connection.cpp: it stays shut until it is enabled.
use secs_lib.Common.{
  ℕ, ◌≡◌, ◌⊎◌, inl, inr, refl, false, either_branch, ◌&&◌, not, List, [], ◌∷◌, Option, none, some,
  ltb,
}
use secs_lib.Common.Outcome.{Result, ok, err}
use secs_lib.Core.Error.{Failure, Errc}
use secs_lib.Hsms.Message.{Message, is_data, encode_frame}
use secs_lib.Hsms.Connection.{
  WriteRequest, Connection, cancel_queued_writes, cancel_queued_data_writes, disable_data_writes,
  close, queued, queue_limit, make_room, push, enqueue, write_message, writer_stopped, take_next,
  writer_turn, written,
}

-- No data message is accepted.
unfoldable pub IsShut : Connection → Type 0
IsShut c = (c.data_writes_enabled ≡ false) ⊎ (c.is_open ≡ false)

pub disable_data_writes-IsShut :
    (reason : Failure) (c : Connection) → IsShut (disable_data_writes reason c)
unfolding IsShut disable_data_writes cancel_queued_data_writes
disable_data_writes-IsShut reason c = inl refl

pub close-IsShut : (c : Connection) → IsShut (close c)
unfolding IsShut close disable_data_writes cancel_queued_data_writes cancel_queued_writes
close-IsShut c = inr refl

make_room-IsShut : (m : Message) (c : Connection) → IsShut c → IsShut (make_room m c)
unfolding make_room cancel_queued_data_writes IsShut
make_room-IsShut m c h =
    either_branch IsShut (ltb (queued c) (queue_limit c)) _ _ (λ e. h)
      λ e. either_branch IsShut (is_data m) _ _ (λ d. h) λ d. h

push-IsShut : (r : WriteRequest) (c : Connection) → IsShut c → IsShut (push r c)
unfolding push IsShut
push-IsShut r c h = either_branch IsShut r.is_data_request _ _ (λ d. h) λ d. h

enqueue-IsShut :
    (id : ℕ) (m : Message) (c : Connection) (o : Result Errc (List ℕ))
    → IsShut c
    → IsShut (enqueue id m c o).0
unfolding enqueue
enqueue-IsShut id m c (ok frame) h = push-IsShut _ c h
enqueue-IsShut id m c (err e) h = h

pub write_message-IsShut :
    (id : ℕ) (m : Message) (c : Connection) → IsShut c → IsShut (write_message id m c).0
unfolding write_message
write_message-IsShut id m c h =
    let Fine : Connection × Option Failure → Type 0 = λ r. IsShut r.0 in
    let roomy = make_room-IsShut m c h in
    either_branch Fine (not c.is_open) _ _ (λ e. h)
      λ e.
        either_branch Fine (is_data m && not c.data_writes_enabled) _ _ (λ d. h)
          λ d.
            either_branch Fine (ltb (queued (make_room m c)) (queue_limit c)) _ _
              (λ l. enqueue-IsShut id m (make_room m c) (encode_frame m) roomy) (λ l. roomy)

pub writer_stopped-IsShut : (c : Connection) → IsShut c → IsShut (writer_stopped c)
unfolding writer_stopped cancel_queued_writes IsShut
writer_stopped-IsShut c h = h

take_next-IsShut :
    (cs ds : List WriteRequest) (c : Connection) → IsShut c → IsShut (take_next cs ds c)
unfolding take_next IsShut
take_next-IsShut (r ∷ rs) ds c h = h
take_next-IsShut [] (r ∷ rs) c h = h
take_next-IsShut [] [] c h = h

pub writer_turn-IsShut : (c : Connection) → IsShut c → IsShut (writer_turn c)
unfolding writer_turn
writer_turn-IsShut c h =
    either_branch IsShut c.is_open _ _ (λ e. take_next-IsShut c.control_queue c.data_queue c h)
      λ e. writer_stopped-IsShut c h

pub written-IsShut :
    (o : Option Failure) (r : WriteRequest) (c : Connection) → IsShut c → IsShut (written o r c)
unfolding written writer_stopped cancel_queued_writes IsShut
written-IsShut none r c h = h
written-IsShut (some e) r c h = inr refl
