-- ===== src/Secs1/Machine/Wire.antt =====
-- A link whose reads are given beforehand and whose writes are kept: the other end of the line as
-- `StateMachine` sees it. Time stands still, so a read that has nothing to give times out.
use secs_lib.Common.{
  ℕ, zero, suc, Bool, true, false, List, [], ◌∷◌, ◌++◌, none, ◌<◌, ◌≡◌, refl, length,
}
use secs_lib.Common.Outcome as Outcome
use secs_lib.Common.Outcome.{Result}
use secs_lib.Core.Error as Core
use secs_lib.Secs1.Machine.{Code, core_code, enq, eot, ack, nak, Link}

pub record Wire : Type 0 where
  pub inbox : List (Result Code ℕ)
  pub outbox : List ℕ

unfoldable pub taken : List (Result Code ℕ) → List ℕ → Result Code ℕ × Wire
taken [] out = (Outcome.err (core_code Core.timeout), record { inbox = []; outbox = out })
taken (r ∷ rs) out = (r, record { inbox = rs; outbox = out })

unfoldable pub wire : Link Wire
unfolding taken
wire = record {
  async_write = λ bytes w. (none, record w { outbox = w.outbox ++ bytes });
  async_read_byte = λ timeout w. taken w.inbox w.outbox;
  now = λ w. (0, w);
}

-- Bytes that arrive, and then more.
unfoldable pub arriving : List ℕ → List (Result Code ℕ) → List (Result Code ℕ)
arriving [] rest = rest
arriving (b ∷ bytes) rest = Outcome.ok b ∷ arriving bytes rest

-- What makes a sender try again: a NAK, or no answer within T2.
pub data Refusal : Type 0 where
  nak_read timed_out : Refusal

unfoldable pub refusal : Refusal → Result Code ℕ
refusal nak_read = Outcome.ok nak
refusal timed_out = Outcome.err (core_code Core.timeout)

unfoldable pub refused : List Refusal → List (Result Code ℕ) → List (Result Code ℕ)
unfolding refusal
refused [] rest = rest
refused (r ∷ rs) rest = refusal r ∷ refused rs rest

-- A peer's answers to the sending of one frame: refusals of the request, the permission, which is
-- EOT or ACK, and refusals of the frame before its ACK.
pub record Script : Type 0 where
  pub before_grant : List Refusal
  pub by_eot : Bool
  pub before_ack : List Refusal

unfoldable pub grant : Bool → ℕ
grant true = eot
grant false = ack

unfoldable pub answers : List Script → List (Result Code ℕ) → List (Result Code ℕ)
answers [] rest = rest
answers (s ∷ scripts) rest =
    refused s.before_grant
      (Outcome.ok (grant s.by_eot) ∷ refused s.before_ack (Outcome.ok ack ∷ answers scripts rest))

-- Bytes, and then others so many times.
unfoldable pub repeated : ℕ → List ℕ → List ℕ → List ℕ
repeated zero bytes out = out
repeated (suc n) bytes out = repeated n bytes (out ++ bytes)

-- All that is written for frames, one after the other, that are refused so.
unfoldable pub sent : List (List ℕ) → List Script → List ℕ → List ℕ
sent [] scripts out = out
sent (frame ∷ frames) [] out = out
sent (frame ∷ frames) (s ∷ scripts) out = sent frames scripts (
    repeated (suc (length s.before_ack)) frame
      (repeated (suc (length s.before_grant)) (enq ∷ []) out))

-- A script for each frame, and fewer refusals of a request or a frame than `limit`.
unfoldable pub Fits : ℕ → List (List ℕ) → List Script → Type 0
Fits limit [] [] = Unit
Fits limit [] (s ∷ scripts) = ⊥
Fits limit (frame ∷ frames) [] = ⊥
Fits limit (frame ∷ frames) (s ∷ scripts) =
    (length s.before_grant < limit) × (length s.before_ack < limit) × Fits limit frames scripts

-- What a sender that is never refused writes for frames, as it arrives.
unfoldable pub incoming : List (List ℕ) → List (Result Code ℕ) → List (Result Code ℕ)
incoming [] rest = rest
incoming (frame ∷ frames) rest = Outcome.ok enq ∷ arriving frame (incoming frames rest)

-- What a receiver answers to that.
unfoldable pub confirmed : List (List ℕ) → List ℕ → List ℕ
confirmed [] out = out
confirmed (frame ∷ frames) out = confirmed frames ((out ++ eot ∷ []) ++ ack ∷ [])

-- The same once the first request is answered.
unfoldable pub awaited : List (List ℕ) → List (Result Code ℕ) → List (Result Code ℕ)
awaited [] rest = rest
awaited (frame ∷ frames) rest = arriving frame (incoming frames rest)

unfoldable pub acknowledged : List (List ℕ) → List ℕ → List ℕ
acknowledged [] out = out
acknowledged (frame ∷ frames) out = confirmed frames (out ++ ack ∷ [])

unfoldable pub IsSome : List (List ℕ) → Type 0
IsSome [] = ⊥
IsSome (frame ∷ frames) = Unit

pub incoming-awaited :
    (frames : List (List ℕ)) (rest : List (Result Code ℕ))
    → IsSome frames
    → incoming frames rest ≡ Outcome.ok enq ∷ awaited frames rest
unfolding incoming awaited IsSome
incoming-awaited [] rest s = absurd s
incoming-awaited (frame ∷ frames) rest s = refl

pub confirmed-acknowledged :
    (frames : List (List ℕ)) (out : List ℕ)
    → IsSome frames
    → acknowledged frames (out ++ eot ∷ []) ≡ confirmed frames out
unfolding confirmed acknowledged IsSome
confirmed-acknowledged [] out s = absurd s
confirmed-acknowledged (frame ∷ frames) out s = refl
