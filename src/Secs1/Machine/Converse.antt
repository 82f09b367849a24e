-- ===== src/Secs1/Machine/Converse.antt =====
-- Two `StateMachine`s on one line: what each reads is what the other one writes.
use secs_lib.Common.{
  ℕ, suc, ◌*◌, ◌≡◌, ◌≤◌, ◌<◌, refl, sym, ap, subst, ◌∙◌, true, List, [], ◌∷◌, ◌++◌, Option, length,
}
use secs_lib.Common.Outcome as Outcome
use secs_lib.Common.Outcome.{Result}
use secs_lib.Common.Run.{ok}
use secs_lib.Secs1.Block.{Header}
use secs_lib.Secs1.Fragment.{block_header, fragment_message}
use secs_lib.Secs1.Transfer.{IsBase}
use secs_lib.Secs1.Machine.{Code, enq, eot, ack, StateMachine, State}
use secs_lib.Secs1.Machine.Send.{async_send}
use secs_lib.Secs1.Machine.Receive.{async_receive}
use secs_lib.Secs1.Machine.Wire.{
  wire, Script, answers, refused, grant, sent, repeated, Fits, arriving, incoming, confirmed,
}
use secs_lib.Secs1.Machine.Retry.{async_send-answers}
use secs_lib.Secs1.Machine.Deliver.{Delivers}
use secs_lib.Secs1.Machine.Exchange.{IsReady, async_receive-fragment_message}

-- No frame is refused.
unfoldable plain : List (List ℕ) → List Script
plain [] = []
plain (frame ∷ frames) = record { before_grant = []; by_eot = true; before_ack = [] } ∷ plain frames

arriving-append :
    (xs ys : List ℕ) (rest : List (Result Code ℕ))
    → arriving (xs ++ ys) rest ≡ arriving xs (arriving ys rest)
unfolding arriving
arriving-append [] ys rest = refl
arriving-append (x ∷ xs) ys rest = ap (λ t. Outcome.ok x ∷ t) (arriving-append xs ys rest)

Fits-plain : (limit : ℕ) (frames : List (List ℕ)) → 0 < limit → Fits limit frames (plain frames)
unfolding Fits plain
Fits-plain limit [] p = tt
Fits-plain limit (frame ∷ frames) p = (p, p, Fits-plain limit frames p)

-- What the sender writes is what the receiver has to read, ...
arriving-sent :
    (frames : List (List ℕ)) (out : List ℕ) (rest : List (Result Code ℕ))
    → arriving (sent frames (plain frames) out) rest ≡ arriving out (incoming frames rest)
unfolding sent plain repeated incoming arriving
arriving-sent [] out rest = refl
arriving-sent (frame ∷ frames) out rest =
    arriving-sent frames ((out ++ enq ∷ []) ++ frame) rest
    ∙ arriving-append (out ++ enq ∷ []) frame (incoming frames rest)
    ∙ arriving-append out (enq ∷ []) (arriving frame (incoming frames rest))

-- ... and the other way round.
arriving-confirmed :
    (frames : List (List ℕ)) (out : List ℕ) (rest : List (Result Code ℕ))
    → arriving (confirmed frames out) rest ≡ arriving out (answers (plain frames) rest)
unfolding confirmed plain answers refused grant arriving
arriving-confirmed [] out rest = refl
arriving-confirmed (frame ∷ frames) out rest =
    arriving-confirmed frames ((out ++ eot ∷ []) ++ ack ∷ []) rest
    ∙ arriving-append (out ++ eot ∷ []) (ack ∷ []) (answers (plain frames) rest)
    ∙ arriving-append out (eot ∷ []) (arriving (ack ∷ []) (answers (plain frames) rest))

-- The two ends of a line whose reads are given beforehand agree: there are byte sequences
-- `requests` and `replies` with which `async_send` of one object, which reads the replies, writes
-- the requests and succeeds, and `async_receive` of the other, which reads the requests, writes
-- the replies and returns the message that was sent, and is idle. This takes a message of at most
-- 0x7fff blocks with a header in range; a sender that is idle and may try at least once; and a
-- receiver that is idle, expects the device of the header or any, has no message in flight, did
-- not accept a block of the same system bytes last, and has a T4 above 0, with enough fuel for
-- the blocks.
pub async_send-async_receive :
    (header : Header) (body : List ℕ) (sender receiver : StateMachine) (passes : ℕ)
    (timeout : Option ℕ)
    → sender.state ≡ State.idle
    → 0 < sender.retry_limit
    → IsBase header
    → IsReady header receiver
    → length body ≤ 244 * 0x7fff
    → length body ≤ 244 * suc passes
    → (requests : List ℕ) × (replies : List ℕ) × (async_send wire header body
          (sender, record { inbox = arriving replies []; outbox = [] })
        ≡ (ok tt, (sender, record { inbox = []; outbox = requests })))
      × Delivers
          (record { header = block_header header 1 true; body = body })
          []
          replies
          (async_receive wire
            (suc passes)
            timeout
            (receiver, record { inbox = arriving requests []; outbox = [] }))
unfolding arriving
async_send-async_receive header body sender receiver passes timeout h q v r l p =
    let frames = fragment_message header body in
    (
      sent frames (plain frames) [],
      confirmed frames [],
      ap (λ i. async_send wire header body (sender, record { inbox = i; outbox = [] }))
            (arriving-confirmed frames [] [])
          ∙ async_send-answers sender header body (plain frames) [] [] h l
              (Fits-plain sender.retry_limit frames q),
      subst
          (λ i.
            Delivers (record { header = block_header header 1 true; body = body }) []
              (confirmed frames [])
              (async_receive wire (suc passes) timeout
                (receiver, record { inbox = i; outbox = [] })))
          (sym (arriving-sent frames [] []))
          (async_receive-fragment_message header receiver body passes timeout [] [] v r l p),
    )
