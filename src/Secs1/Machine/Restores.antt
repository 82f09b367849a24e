-- ===== src/Secs1/Machine/Restores.antt =====
-- What `StateMachine::async_send` leaves of the object, on every path.
use secs_lib.Common.{
  ℕ, zero, suc, ◌-◌, ◌≡◌, inl, inr, refl, sym, ap, subst, ◌∙◌, Bool-cases, ◌||◌, not, List, [], ◌∷◌,
  Option, none, some,
}
use secs_lib.Common.Outcome.{Result}
use secs_lib.Common.Run.{Run, ok, err, stuck}
use secs_lib.Core.Error as Core
use secs_lib.Secs1.Block.{Header, too_many_retries}
use secs_lib.Secs1.Fragment.{fragment_message}
use secs_lib.Secs1.Machine.{
  Code, core_code, secs1_code, enq, set_state, wait_eot, wait_check, Link, StateMachine, State,
  is_idle, M, followed,
}
use secs_lib.Secs1.Machine.Send.{
  Answer, go_on, again, give_up, answered, decide, fail, ask, handshake, transmit, send_frames,
  too_long, async_send, handshake_answer, check_answer,
}

abbrev pub idle : StateMachine → StateMachine
idle m = record m { state = State.idle }

same_idle : (m : StateMachine) (st : State) → idle (record m { state = st }) ≡ idle m
same_idle m st = refl

idle_self : (m : StateMachine) → m.state ≡ State.idle → idle m ≡ m
idle_self m h = ap (λ st. record m { state = st }) (sym h)

module _ {S : Type 0} where
  -- The call returns, having changed nothing but `state_`, which is idle after an error.
  unfoldable pub Ends : {A : Type 0} → StateMachine → Run Code A × (StateMachine × S) → Type 0
  Ends k (ok a, (m, s)) = idle m ≡ k
  Ends k (err e, (m, s)) = m ≡ k
  Ends k (stuck, (m, s)) = ⊥

  -- The call returns, and the object is as it was.
  unfoldable pub Restored : {A : Type 0} → StateMachine → Run Code A × (StateMachine × S) → Type 0
  Restored k (ok a, (m, s)) = m ≡ k
  Restored k (err e, (m, s)) = m ≡ k
  Restored k (stuck, (m, s)) = ⊥

  returned :
      {A : Type 0} (k : StateMachine) (a : A) (m : StateMachine) (s : S)
      → idle m ≡ k
      → Ends k (ok a, (m, s))
  unfolding Ends
  returned k a m s h = h

  rejected : (A : Type 0) (k : StateMachine) (e : Code) (s : S) → Restored {A = A} k (err e, (k, s))
  unfolding Restored
  rejected A k e s = refl

  failed :
      (A : Type 0) (k : StateMachine) (e : Code) (m : StateMachine) (s : S)
      → idle m ≡ k
      → Ends {A = A} k (err e, (idle m, s))
  unfolding Ends
  failed A k e m s h = h

  finished :
      (k : StateMachine) (x : Run Code (Unit {0}) × (StateMachine × S))
      → Ends k x
      → Restored k (followed (λ u. set_state State.idle) x)
  unfolding Ends Restored
  finished k (ok a, (m, s)) h = h
  finished k (err e, (m, s)) h = h
  finished k (stuck, (m, s)) h = h

  Ends-bind :
      {A B : Type 0} (k : StateMachine) (f : A → M S B) (x : Run Code A × (StateMachine × S))
      → Ends k x
      → ((a : A) (m : StateMachine) (s : S) → idle m ≡ k → Ends k (f a (m, s)))
      → Ends k (followed f x)
  unfolding Ends
  Ends-bind k f (ok a, (m, s)) h g = g a m s h
  Ends-bind k f (err e, (m, s)) h g = h
  Ends-bind k f (stuck, (m, s)) h g = absurd h

  module _ (link : Link S) where
    answered_returns :
        (judge : Result Code ℕ → Answer) (e : Option Code) (m : StateMachine) (s : S)
        → (a : Answer) × (t : S) × (answered link judge e (m, s) ≡ (ok a, (m, t)))
    unfolding answered
    answered_returns judge (some code) m s = (give_up code, s, refl)
    answered_returns judge none m s =
        let r = link.async_read_byte (some m.timeouts.t2_protocol) s in (judge r.0, r.1, refl)

    -- A question leaves the object alone.
    ask_returns :
        (bytes : List ℕ) (judge : Result Code ℕ → Answer) (m : StateMachine) (s : S)
        → (a : Answer) × (t : S) × (ask link bytes judge (m, s) ≡ (ok a, (m, t)))
    unfolding ask
    ask_returns bytes judge m s =
        let w = link.async_write bytes s in answered_returns judge w.0 m w.1

    -- A question, and what follows its answer.
    decide-Ends :
        (k : StateMachine) (next : M S (Unit {0})) (a : Answer) (m : StateMachine) (s : S)
        → idle m ≡ k
        → Ends k (next (m, s))
        → Ends k (decide link next a (m, s))
    unfolding decide Ends
    decide-Ends k next go_on m s h g = h
    decide-Ends k next again m s h g = g
    decide-Ends k next (give_up code) m s h g = h

    asked-Ends :
        (k : StateMachine) (next : M S (Unit {0})) (bytes : List ℕ) (judge : Result Code ℕ → Answer)
        (m : StateMachine) (s : S)
        → idle m ≡ k
        → ((t : S) → Ends k (next (m, t)))
        → Ends k (followed (decide link next) (ask link bytes judge (m, s)))
    asked-Ends k next bytes judge m s h g =
        let (a, t, e) = ask_returns bytes judge m s in
        subst (λ x. Ends k (followed (decide link next) x)) (sym e)
          (decide-Ends k next a m t h (g t))

    handshake-Ends :
        (k : StateMachine) (n : ℕ) (m : StateMachine) (s : S)
        → idle m ≡ k
        → Ends k (handshake link n (m, s))
    unfolding handshake
    handshake-Ends k zero m s h = failed (Unit {0}) k (secs1_code too_many_retries) m s h
    handshake-Ends k (suc n) m s h =
        asked-Ends k (handshake link n) (enq ∷ []) handshake_answer m s h
          (λ t. handshake-Ends k n m t h)

    transmit-Ends :
        (k : StateMachine) (frame : List ℕ) (n : ℕ) (m : StateMachine) (s : S)
        → idle m ≡ k
        → Ends k (transmit link frame n (m, s))
    unfolding transmit
    transmit-Ends k frame zero m s h =
        asked-Ends k (fail link (secs1_code too_many_retries)) frame check_answer m s h
          (λ t. failed (Unit {0}) k (secs1_code too_many_retries) m t h)
    transmit-Ends k frame (suc n) m s h =
        asked-Ends k (transmit link frame n) frame check_answer m s h
          (λ t. transmit-Ends k frame n m t h)

    send_frames-Ends :
        (k : StateMachine) (frames : List (List ℕ)) (m : StateMachine) (s : S)
        → idle m ≡ k
        → Ends k (send_frames link frames (m, s))
    unfolding send_frames
    send_frames-Ends k [] m s h = returned k tt m s h
    send_frames-Ends k (frame ∷ frames) m s h =
        Ends-bind k _ (handshake link m.retry_limit (record m { state = wait_eot }, s))
          (handshake-Ends k m.retry_limit (record m { state = wait_eot }) s
            (same_idle m wait_eot ∙ h))
          λ u m1 t e1.
            Ends-bind k _
              (transmit link frame (m1.retry_limit - 1) (record m1 { state = wait_check }, t))
              (transmit-Ends k frame (m1.retry_limit - 1) (record m1 { state = wait_check }) t
                (same_idle m1 wait_check ∙ e1))
              λ u' m2 t' e2. send_frames-Ends k frames m2 t' e2

    -- Whatever the link does, `async_send` of an idle object returns, and leaves the object as it
    -- was, on success and on every error.
    pub async_send-Ends :
        (header : Header) (body : List ℕ) (m : StateMachine) (s : S)
        → m.state ≡ State.idle
        → Restored m (async_send link header body (m, s))
    unfolding async_send
    async_send-Ends header body m s h = elim (Bool-cases (not (is_idle m.state) || too_long body)) [
      | inl e ↦ rw e (rejected (Unit {0}) m (core_code Core.invalid_argument) s)
      | inr e ↦ rw e (
          finished m (send_frames link (fragment_message header body) (m, s))
            (send_frames-Ends m (fragment_message header body) m s (idle_self m h)))
    ]
