-- ===== src/Secs1/Machine/Rests.antt =====
-- The loop of `StateMachine::async_receive` over the blocks, and the whole call: what they leave.
use secs_lib.Common.{
  ℕ, zero, suc, ◌+◌, ◌≡◌, refl, sym, ap, subst, true, false, Bool-cases, inl, inr, not, List, [],
  ◌∷◌, Option, none, some, leb, ◌==◌,
}
use secs_lib.Common.Assoc.{lookup}
use secs_lib.Common.Outcome as Outcome
use secs_lib.Common.Outcome.{Result}
use secs_lib.Common.Run.{Run, ok, err, stuck}
use secs_lib.Secs1.Block as Block
use secs_lib.Secs1.Block.{DecodedBlock, decode_block, header_size, max_block_length}
use secs_lib.Secs1.Reassembler.{Reassembler, reassembler, accept, has_message}
use secs_lib.Secs1.Machine.{
  Code, secs1_code, enq, eot, Link, StateMachine, State, ReceivedMessage, is_idle, M, followed,
}
use secs_lib.Secs1.Machine.Receive.{
  Loop, enq_read, wait_enq, block_start, read_length, read_frame, is_duplicate, is_empty,
  block_accepted, block_routed, block_decoded, read_block, receive_blocks, permitted, receive_new,
  receive_more, async_receive,
}
use secs_lib.Secs1.Machine.Stops.{
  IsQuiet, IsIdle, Stops, Stops-bind, returned, out_of_fuel, abort-Stops, reject-Stops,
  block_start-Stops, read_length-Stops, read_frame-Stops,
}

module _ {S : Type 0} (link : Link S) where
  module _ (next : Loop → M S ReceivedMessage)
      (later : (loop : Loop) (w : StateMachine × S)
        → Stops ReceivedMessage IsIdle (next loop w)) where
    block_accepted-Stops :
        (block : DecodedBlock) (r : Result Block.Errc Reassembler) (w : StateMachine × S)
        → Stops ReceivedMessage IsIdle (block_accepted link next block r w)
    unfolding block_accepted
    block_accepted-Stops block (Outcome.err e) w =
        reject-Stops link ReceivedMessage IsIdle (secs1_code e) w
    block_accepted-Stops block (Outcome.ok r) w = elim (Bool-cases (has_message r)) [
      | inl e ↦ rw e (returned ReceivedMessage IsIdle _ _ refl)
      | inr e ↦ rw e (later _ _)
    ]

    block_routed-Stops :
        (block : DecodedBlock) (expected : Option ℕ) (r : Option Reassembler) (w : StateMachine × S)
        → Stops ReceivedMessage IsIdle (block_routed link next block expected r w)
    unfolding block_routed
    block_routed-Stops block expected (some r) w = block_accepted-Stops block (accept r block) w
    block_routed-Stops block expected none w =
        elim (Bool-cases (not (block.header.block_number == 1))) [
          | inl e ↦
              rw e
                (reject-Stops link ReceivedMessage IsIdle (secs1_code Block.block_sequence_error) w)
          | inr e ↦ rw e (block_accepted-Stops block (accept (reassembler expected) block) w)
        ]

    block_decoded-Stops :
        (loop : Loop) (timeout : ℕ) (r : Result Block.Errc DecodedBlock) (w : StateMachine × S)
        → Stops ReceivedMessage IsIdle (block_decoded link next loop timeout r w)
    unfolding block_decoded
    block_decoded-Stops loop timeout (Outcome.err e) w =
        elim (Bool-cases (leb w.0.retry_limit (loop.nack_count + 1))) [
          | inl l ↦ rw l (abort-Stops link ReceivedMessage IsIdle _ _)
          | inr l ↦ rw l (later _ _)
        ]
    block_decoded-Stops loop timeout (Outcome.ok block) w =
        elim (Bool-cases (is_duplicate w.0.last_accepted_header w.0.last_accepted_data block)) [
          | inl l ↦ rw l (later _ _)
          | inr l ↦ rw l (
              block_routed-Stops block w.0.expected_device_id
                (lookup block.header.system_bytes w.0.in_flight) w)
        ]

    read_block-Stops :
        (loop : Loop) (start : Option ℕ × ℕ) (w : StateMachine × S)
        → Stops ReceivedMessage IsIdle (read_block link next loop start w)
    unfolding read_block
    read_block-Stops loop start w =
        Stops-bind ℕ ReceivedMessage IsIdle _ (read_length link start.0 start.1 w)
          (read_length-Stops link start.0 start.1 w)
          λ len v.
            Stops-bind (List ℕ) ReceivedMessage IsIdle _ (read_frame link len v)
              (read_frame-Stops link len v)
              λ frame u. block_decoded-Stops loop start.1 (decode_block frame) u

  receive_blocks-Stops :
      (fuel : ℕ) (loop : Loop) (w : StateMachine × S)
      → Stops ReceivedMessage IsIdle (receive_blocks link fuel loop w)
  unfolding receive_blocks
  receive_blocks-Stops zero loop w = out_of_fuel ReceivedMessage IsIdle w
  receive_blocks-Stops (suc fuel) loop w =
      Stops-bind (Option ℕ × ℕ) ReceivedMessage IsIdle _ (block_start link (suc fuel) loop w)
        (block_start-Stops link (suc fuel) loop w)
        λ start v.
          read_block-Stops (receive_blocks link fuel) (receive_blocks-Stops fuel) loop start v

  enq_read_keeps :
      (next : M S (Unit {0})) (r : Result Code ℕ) (w : StateMachine × S)
      → ((v : StateMachine × S) → (next v).1.0 ≡ v.0)
      → (enq_read link next r w).1.0 ≡ w.0
  unfolding enq_read
  enq_read_keeps next (Outcome.err e) w h = refl
  enq_read_keeps next (Outcome.ok b) w h = elim (Bool-cases (b == enq)) [
    | inl e ↦ rw e refl
    | inr e ↦ rw e (h w)
  ]

  wait_enq_keeps :
      (fuel : ℕ) (timeout : Option ℕ) (w : StateMachine × S)
      → (wait_enq link fuel timeout w).1.0 ≡ w.0
  unfolding wait_enq
  wait_enq_keeps zero timeout w = refl
  wait_enq_keeps (suc fuel) timeout w =
      let r = link.async_read_byte timeout w.1 in
      enq_read_keeps (wait_enq link fuel timeout) r.0 (w.0, r.1) (wait_enq_keeps fuel timeout)

  -- While nothing is in flight.
  new-Stops :
      (f : Unit {0} → M S ReceivedMessage) (m : StateMachine)
      (x : Run Code (Unit {0}) × (StateMachine × S))
      → x.1.0 ≡ m
      → IsQuiet m
      → ((s : S) → Stops ReceivedMessage IsIdle (f tt (m, s)))
      → Stops ReceivedMessage IsIdle (followed f x)
  unfolding Stops
  new-Stops f m (ok tt, (m', s)) e q h =
      subst (λ k. Stops ReceivedMessage IsIdle (f tt (k, s))) (sym e) (h s)
  new-Stops f m (err c, (m', s)) e q h = subst IsQuiet (sym e) q
  new-Stops f m (stuck, (m', s)) e q h = tt

  permitted-Stops :
      (fuel : ℕ) (e : Option Code) (m : StateMachine) (s : S)
      → m.in_flight ≡ []
      → Stops ReceivedMessage IsIdle (permitted link fuel e (m, s))
  unfolding permitted Stops
  permitted-Stops fuel none m s h = receive_blocks-Stops fuel _ (m, s)
  permitted-Stops fuel (some e) m s h = (refl, h)

  receive_new-Stops :
      (fuel : ℕ) (timeout : Option ℕ) (m : StateMachine) (s : S)
      → IsQuiet m
      → Stops ReceivedMessage IsIdle (receive_new link fuel timeout (m, s))
  unfolding receive_new
  receive_new-Stops fuel timeout m s q =
      new-Stops _ m (wait_enq link fuel timeout (m, s)) (wait_enq_keeps fuel timeout (m, s)) q λ t.
        permitted-Stops fuel (link.async_write (eot ∷ []) t).0
          (record m { state = State.wait_block }) (link.async_write (eot ∷ []) t).1 q.1

  empty_eq : (xs : List (ℕ × Reassembler)) → is_empty xs ≡ true → xs ≡ []
  unfolding is_empty
  empty_eq [] e = refl
  empty_eq (x ∷ xs) e = cc

  -- Whatever the link does: if `async_receive` of an idle object returns, the object is idle, and
  -- after an error no message is under way.
  pub async_receive-Stops :
      (fuel : ℕ) (timeout : Option ℕ) (m : StateMachine) (s : S)
      → m.state ≡ State.idle
      → Stops ReceivedMessage IsIdle (async_receive link fuel timeout (m, s))
  unfolding async_receive receive_more is_idle
  async_receive-Stops fuel timeout m s h =
      let free : not (is_idle m.state) ≡ false = ap (λ st. not (is_idle st)) h in
      elim (Bool-cases (is_empty m.in_flight)) [
        | inl e ↦ rw (free, e) (receive_new-Stops fuel timeout m s (h, empty_eq m.in_flight e))
        | inr e ↦
            rw (free, e) (receive_blocks-Stops fuel _ (record m { state = State.wait_block }, s))
      ]
