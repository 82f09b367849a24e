-- ===== src/Secs1/Machine/Stops.antt =====
-- What the steps of `StateMachine::async_receive` leave of the object, whatever the link does.
use secs_lib.Common.{
  ℕ, zero, suc, ◌+◌, ◌-◌, ◌≡◌, refl, Bool-cases, inl, inr, ◌||◌, ◌&&◌, List, [], ◌∷◌, Option, none,
  some, ltb, leb, ◌==◌,
}
use secs_lib.Common.Outcome as Outcome
use secs_lib.Common.Outcome.{Result}
use secs_lib.Common.Run.{Run, ok, err, stuck}
use secs_lib.Core.Error as Core
use secs_lib.Secs1.Block as Block
use secs_lib.Secs1.Block.{DecodedBlock, decode_block, header_size, max_block_length}
use secs_lib.Secs1.Machine.{
  Code, core_code, secs1_code, enq, eot, Link, StateMachine, State, M, followed,
}
use secs_lib.Secs1.Machine.Receive.{
  Loop, abort, reject, or_abort, eot_sent, start_read, wait_start, block_start, read_length,
  read_rest, read_frame,
}

-- Nothing is under way and the object is idle.
abbrev pub IsQuiet : StateMachine → Type 0
IsQuiet m = (m.state ≡ State.idle) × (m.in_flight ≡ [])

abbrev pub Anything : StateMachine → Type 0
Anything m = Unit

abbrev pub IsIdle : StateMachine → Type 0
IsIdle m = m.state ≡ State.idle

module _ {S : Type 0} where
  -- After a value `P` holds of the object, and after an error it is quiet.
  unfoldable pub Stops :
      (A : Type 0) → (StateMachine → Type 0) → Run Code A × (StateMachine × S) → Type 0
  Stops A P (ok a, (m, s)) = P m
  Stops A P (err e, (m, s)) = IsQuiet m
  Stops A P (stuck, (m, s)) = Unit

  pub Stops-bind :
      (A B : Type 0) (P : StateMachine → Type 0) (f : A → M S B)
      (x : Run Code A × (StateMachine × S))
      → Stops A Anything x
      → ((a : A) (w : StateMachine × S) → Stops B P (f a w))
      → Stops B P (followed f x)
  unfolding Stops
  Stops-bind A B P f (ok a, (m, s)) h g = g a (m, s)
  Stops-bind A B P f (err e, (m, s)) h g = h
  Stops-bind A B P f (stuck, (m, s)) h g = tt

  pub returned :
      (A : Type 0) (P : StateMachine → Type 0) (a : A) (w : StateMachine × S)
      → P w.0
      → Stops A P (ok a, w)
  unfolding Stops
  returned A P a w p = p

  pub out_of_fuel :
      (A : Type 0) (P : StateMachine → Type 0) (w : StateMachine × S) → Stops A P (stuck, w)
  unfolding Stops
  out_of_fuel A P w = tt

  module _ (link : Link S) where
    pub abort-Stops :
        (A : Type 0) (P : StateMachine → Type 0) (e : Code) (w : StateMachine × S)
        → Stops A P (abort link e w)
    unfolding Stops abort
    abort-Stops A P e w = (refl, refl)

    pub reject-Stops :
        (A : Type 0) (P : StateMachine → Type 0) (e : Code) (w : StateMachine × S)
        → Stops A P (reject link e w)
    unfolding reject
    reject-Stops A P e w = abort-Stops A P e _

    or_abort-Stops :
        (A : Type 0) (r : Result Code A) (w : StateMachine × S)
        → Stops A Anything (or_abort link r w)
    unfolding or_abort
    or_abort-Stops A (Outcome.ok a) w = returned A Anything a w tt
    or_abort-Stops A (Outcome.err e) w = abort-Stops A Anything e w

    eot_sent-Stops :
        (e : Option Code) (w : StateMachine × S) → Stops (Option ℕ × ℕ) Anything (eot_sent link e w)
    unfolding eot_sent
    eot_sent-Stops none w = returned _ Anything _ _ tt
    eot_sent-Stops (some e) w = abort-Stops _ Anything e w

    start_read-Stops :
        (next : M S (Option ℕ × ℕ)) (timeout : ℕ) (r : Result Code ℕ) (w : StateMachine × S)
        → ((v : StateMachine × S) → Stops _ Anything (next v))
        → Stops _ Anything (start_read link next timeout r w)
    unfolding start_read
    start_read-Stops next timeout (Outcome.err e) w h = abort-Stops _ Anything e w
    start_read-Stops next timeout (Outcome.ok b) w h = elim (Bool-cases (b == enq)) [
      | inl e ↦ rw e (
          eot_sent-Stops (link.async_write (eot ∷ []) w.1).0
            (w.0, (link.async_write (eot ∷ []) w.1).1))
      | inr e ↦ elim (Bool-cases (leb header_size b && leb b max_block_length)) [
        | inl l ↦ rw (e, l) (returned (Option ℕ × ℕ) Anything (some b, timeout) w tt)
        | inr l ↦ rw (e, l) (h w)
      ]
    ]

    wait_start-Stops :
        (fuel deadline timeout : ℕ) (w : StateMachine × S)
        → Stops (Option ℕ × ℕ) Anything (wait_start link fuel deadline timeout w)
    unfolding wait_start
    wait_start-Stops zero deadline timeout w = out_of_fuel (Option ℕ × ℕ) Anything w
    wait_start-Stops (suc fuel) deadline timeout w =
        let t = link.now w.1 in
        let r = link.async_read_byte (some (deadline - t.0)) t.1 in
        elim (Bool-cases (leb deadline t.0)) [
          | inl e ↦ rw e (abort-Stops (Option ℕ × ℕ) Anything (core_code Core.timeout) (w.0, t.1))
          | inr e ↦ rw e (
              start_read-Stops (wait_start link fuel deadline timeout) timeout r.0 (w.0, r.1)
                (wait_start-Stops fuel deadline timeout))
        ]

    pub block_start-Stops :
        (fuel : ℕ) (loop : Loop) (w : StateMachine × S)
        → Stops (Option ℕ × ℕ) Anything (block_start link fuel loop w)
    unfolding block_start
    block_start-Stops fuel loop w =
        let t = link.now w.1 in
        elim (Bool-cases loop.allow_enq_or_length) [
          | inl e ↦ rw e (
              wait_start-Stops fuel (t.0 + loop.next_block_timeout) loop.next_block_timeout
                (w.0, t.1))
          | inr e ↦ rw e (returned (Option ℕ × ℕ) Anything (none, loop.next_block_timeout) w tt)
        ]

    pub read_length-Stops :
        (b : Option ℕ) (timeout : ℕ) (w : StateMachine × S)
        → Stops ℕ Anything (read_length link b timeout w)
    unfolding read_length
    read_length-Stops (some b) timeout w = returned ℕ Anything b w tt
    read_length-Stops none timeout w =
        let r = link.async_read_byte (some timeout) w.1 in or_abort-Stops ℕ r.0 (w.0, r.1)

    read_rest-Stops : (n : ℕ) (w : StateMachine × S) → Stops (List ℕ) Anything (read_rest link n w)
    unfolding read_rest
    read_rest-Stops zero w = returned (List ℕ) Anything [] w tt
    read_rest-Stops (suc n) w =
        let r = link.async_read_byte (some w.0.timeouts.t1_intercharacter) w.1 in
        Stops-bind ℕ (List ℕ) Anything _ (or_abort link r.0 (w.0, r.1))
          (or_abort-Stops ℕ r.0 (w.0, r.1))
          λ b v.
            Stops-bind (List ℕ) (List ℕ) Anything _ (read_rest link n v) (read_rest-Stops n v)
              λ bytes u. returned (List ℕ) Anything (b ∷ bytes) u tt

    pub read_frame-Stops :
        (len : ℕ) (w : StateMachine × S) → Stops (List ℕ) Anything (read_frame link len w)
    unfolding read_frame
    read_frame-Stops len w = elim (Bool-cases (ltb len header_size || ltb max_block_length len)) [
      | inl e ↦ rw e (reject-Stops (List ℕ) Anything (secs1_code Block.invalid_block) w)
      | inr e ↦ rw e (
          Stops-bind (List ℕ) (List ℕ) Anything _ (read_rest link (len + 2) w)
            (read_rest-Stops (len + 2) w) λ bytes u. returned (List ℕ) Anything (len ∷ bytes) u tt)
    ]
