-- ===== src/Secs1/Machine/Collect.antt =====
-- The steps of `StateMachine::async_receive` for the blocks of one message.
use secs_lib.Common.{
  ℕ, zero, suc, ◌+◌, ◌*◌, ◌≡◌, ◌≢◌, ◌⊎◌, inl, inr, ◌<◌, refl, ap, ap₂, ◌∙◌, Bool, true, false, not,
  List, [], ◌∷◌, ◌++◌, Option, none, some, arith, ◌==◌, take,
}
use secs_lib.Common.Assoc.{lookup, erase_key, assign}
use secs_lib.Common.Outcome as Outcome
use secs_lib.Common.Outcome.{Result}
use secs_lib.Common.Run.{ok}
use secs_lib.Secs1.Block.{Header, DecodedBlock}
use secs_lib.Secs1.Fragment.{block_header}
use secs_lib.Secs1.Reassembler.{Reassembler, reassembler, accept, has_message, is_unexpected}
use secs_lib.Secs1.Transfer.{collected, after, accept-after}
use secs_lib.Secs1.Machine.{Code, ack, StateMachine, State, ReceivedMessage, M}
use secs_lib.Secs1.Machine.Receive.{
  Loop, same_header, is_duplicate, block_accepted, block_routed, block_decoded,
}
use secs_lib.Secs1.Machine.Wire.{Wire, wire}

-- No block of a message with these system bytes was the last one accepted.
unfoldable pub IsNew : Option Header → Header → Type 0
IsNew none h = Unit
IsNew (some g) h = g.system_bytes ≢ h.system_bytes

number_is : (h : Header) (n : ℕ) (last : Bool) → (block_header h n last).block_number ≡ n
unfolding block_header
number_is h n last = refl

system_is :
    (h : Header) (n : ℕ) (last : Bool) → (block_header h n last).system_bytes ≡ h.system_bytes
unfolding block_header
system_is h n last = refl

module _ (next : Loop → M Wire ReceivedMessage) (block : DecodedBlock) where
  routed_first :
      (expected : Option ℕ) (r : Reassembler)
      → block.header.block_number ≡ 1
      → accept (reassembler expected) block ≡ Outcome.ok r
      → block_routed wire next block expected none ≡ block_accepted wire next block (Outcome.ok r)
  unfolding block_routed
  routed_first expected r p q =
      let test : not (block.header.block_number == 1) ≡ false = ground (arith, p) in
      rw (q, test) refl

  routed_next :
      (expected : Option ℕ) (before r : Reassembler)
      → accept before block ≡ Outcome.ok r
      → block_routed wire next block expected (some before)
        ≡ block_accepted wire next block (Outcome.ok r)
  unfolding block_routed
  routed_next expected before r q = rw q refl

  -- The object after a block is accepted, and the time to go on.
  abbrev after_block : Reassembler → StateMachine → StateMachine
  after_block r m = record m {
    in_flight = assign block.header.system_bytes r m.in_flight;
    last_accepted_header = some block.header;
    last_accepted_data = block.payload;
  }

  accepted_more :
      (r : Reassembler) (m : StateMachine) (rest : List (Result Code ℕ)) (out : List ℕ)
      → has_message r ≡ false
      → block_accepted wire next block (Outcome.ok r) (m, record { inbox = rest; outbox = out })
        ≡ next
            (record {
              nack_count = 0;
              allow_enq_or_length = true;
              next_block_timeout = m.timeouts.t4_interblock;
            })
            (after_block r m, record { inbox = rest; outbox = out ++ ack ∷ [] })
  unfolding block_accepted wire
  accepted_more r m rest out e = rw e refl

  accepted_last :
      (r : Reassembler) (m : StateMachine) (rest : List (Result Code ℕ)) (out : List ℕ)
      → has_message r ≡ true
      → block_accepted wire next block (Outcome.ok r) (m, record { inbox = rest; outbox = out }) ≡ (
        ok (record { header = r.header; body = r.body }),
        (
          record (after_block r m) {
            in_flight = erase_key block.header.system_bytes (after_block r m).in_flight;
            state = State.idle;
          },
          record { inbox = rest; outbox = out ++ ack ∷ [] },
        ),
      )
  unfolding block_accepted wire
  accepted_last r m rest out e = rw e refl

module _ (next : Loop → M Wire ReceivedMessage) (loop : Loop) (timeout : ℕ)
    (block : DecodedBlock) where
  fresh_block :
      (w : StateMachine × Wire)
      → is_duplicate w.0.last_accepted_header w.0.last_accepted_data block ≡ false
      → block_decoded wire next loop timeout (Outcome.ok block) w
        ≡ block_routed wire next block w.0.expected_device_id
            (lookup block.header.system_bytes w.0.in_flight)
            w
  unfolding block_decoded
  fresh_block w e = rw e refl

module _ (expected : Option ℕ) (h : Header) (payload : List ℕ) where
  abbrev pub block : ℕ → Bool → List ℕ → DecodedBlock
  block n last bytes = record { header = block_header h (n + 1) last; payload = bytes }

  -- What is in flight after `n` blocks.
  abbrev pub flight : ℕ → List (ℕ × Reassembler)
  flight zero = []
  flight (suc n) = (h.system_bytes, after expected h payload (suc n)) ∷ []

  -- The header last accepted is not that of the block after `n`.
  unfoldable pub IsFresh : ℕ → Option Header → Type 0
  IsFresh n none = Unit
  IsFresh n (some g) = (g.block_number ≢ n + 1) ⊎ (g.system_bytes ≢ h.system_bytes)

  -- The object waits for the block after `n`.
  pub record Waits (n : ℕ) (m : StateMachine) : Type 0 where
    pub device : m.expected_device_id ≡ expected
    pub under_way : m.in_flight ≡ flight n
    pub fresh : IsFresh n m.last_accepted_header
    pub interblock : 0 < m.timeouts.t4_interblock

  -- The object once the block after `n` is accepted.
  abbrev pub taken_in : ℕ → Bool → List ℕ → StateMachine → StateMachine
  taken_in n last bytes m = record m {
    in_flight =
        (
          h.system_bytes,
          collected expected h payload (n + 1) last (take (244 * n) payload ++ bytes),
        )
        ∷ [];
    last_accepted_header = some (block_header h (n + 1) last);
    last_accepted_data = bytes;
  }

  not_duplicate :
      (n : ℕ) (last : Bool) (bytes : List ℕ) (g : Option Header) (seen : List ℕ)
      → IsFresh n g
      → is_duplicate g seen (block n last bytes) ≡ false
  unfolding is_duplicate same_header IsFresh block_header
  not_duplicate n last bytes none seen f = refl
  not_duplicate n last bytes (some g) seen (inl f) = ground (arith, f)
  not_duplicate n last bytes (some g) seen (inr f) = ground (arith, f)

  -- The reassembly that the next block goes to.
  abbrev under_way : ℕ → Option Reassembler
  under_way zero = none
  under_way (suc n) = some (after expected h payload (suc n))

  lookup-flight : (n : ℕ) → lookup h.system_bytes (flight n) ≡ under_way n
  unfolding lookup
  lookup-flight zero = refl
  lookup-flight (suc n) =
      let same : (h.system_bytes == h.system_bytes) ≡ true = ground arith in rw same refl

  assign-flight :
      (n : ℕ) (r : Reassembler) → assign h.system_bytes r (flight n) ≡ (h.system_bytes, r) ∷ []
  unfolding assign erase_key
  assign-flight zero r = refl
  assign-flight (suc n) r =
      let same : (h.system_bytes == h.system_bytes) ≡ true = ground arith in rw same refl

  erase_only : (r : Reassembler) → erase_key h.system_bytes ((h.system_bytes, r) ∷ []) ≡ []
  unfolding erase_key
  erase_only r = let same : (h.system_bytes == h.system_bytes) ≡ true = ground arith in rw same refl

  module _ (e : is_unexpected expected h.device_id ≡ false)
      (next : Loop → M Wire ReceivedMessage) where
    routed :
        (n : ℕ) (last : Bool) (bytes : List ℕ)
        → n < 0x7fff
        → block_routed wire next (block n last bytes) expected (under_way n)
          ≡ block_accepted wire next (block n last bytes) (
              Outcome.ok
                (collected expected h payload (n + 1) last (take (244 * n) payload ++ bytes)))
    routed zero last bytes b =
        routed_first next (block 0 last bytes) expected _ (number_is h 1 last)
          (accept-after expected h payload 0 last bytes e b)
    routed (suc n) last bytes b =
        routed_next next (block (suc n) last bytes) expected _ _
          (accept-after expected h payload (suc n) last bytes e b)

    module _ (m : StateMachine) (loop : Loop) (timeout n : ℕ) (bytes : List ℕ)
        (rest : List (Result Code ℕ)) (out : List ℕ) (w : Waits n m) (b : n < 0x7fff) where
      complete :
          (k : ℕ) (last : Bool)
          → has_message
              (collected expected h payload (k + 1) last (take (244 * k) payload ++ bytes))
            ≡ last
      unfolding has_message block_header
      complete k last = refl

      abbrev here : StateMachine × Wire
      here = (m, record { inbox = rest; outbox = out })

      -- The way of the block to its reassembly.
      decoded :
          (last : Bool)
          → block_decoded wire next loop timeout (Outcome.ok (block n last bytes)) here
            ≡ block_accepted wire next
                (block n last bytes)
                (Outcome.ok
                  (collected expected h payload (n + 1) last (take (244 * n) payload ++ bytes)))
                here
      decoded last =
          fresh_block next loop timeout (block n last bytes) here
            (not_duplicate n last bytes m.last_accepted_header m.last_accepted_data w.fresh)
          ∙ ap₂ (λ x y. block_routed wire next (block n last bytes) x y here) w.device
              (ap₂ lookup (system_is h (n + 1) last) w.under_way ∙ lookup-flight n)
          ∙ ap (λ f. f here) (routed n last bytes b)

      assigned :
          (last : Bool)
          → assign
              (block_header h (n + 1) last).system_bytes
              (collected expected h payload (n + 1) last (take (244 * n) payload ++ bytes))
              m.in_flight
            ≡ (taken_in n last bytes m).in_flight
      assigned last =
          ap₂
            (λ k f.
              assign k (collected expected h payload (n + 1) last (take (244 * n) payload ++ bytes))
                f)
            (system_is h (n + 1) last) w.under_way
          ∙ assign-flight n _

      -- A block that is not the last one leads on.
      pub decoded_more :
          block_decoded wire next loop timeout (Outcome.ok (block n false bytes)) here
          ≡ next
              (record {
                nack_count = 0;
                allow_enq_or_length = true;
                next_block_timeout = m.timeouts.t4_interblock;
              })
              (taken_in n false bytes m, record { inbox = rest; outbox = out ++ ack ∷ [] })
      decoded_more =
          decoded false
          ∙ accepted_more next (block n false bytes) _ m rest out (complete n false)
          ∙ ap
              (λ f.
                next
                  (record {
                    nack_count = 0;
                    allow_enq_or_length = true;
                    next_block_timeout = m.timeouts.t4_interblock;
                  })
                  (
                    record (taken_in n false bytes m) { in_flight = f },
                    record { inbox = rest; outbox = out ++ ack ∷ [] },
                  ))
              (assigned false)

      pub decoded_last :
          block_decoded wire next loop timeout (Outcome.ok (block n true bytes)) here ≡ (
            ok (record { header = block_header h 1 true; body = take (244 * n) payload ++ bytes }),
            (
              record (taken_in n true bytes m) { in_flight = []; state = State.idle },
              record { inbox = rest; outbox = out ++ ack ∷ [] },
            ),
          )
      decoded_last =
          decoded true
          ∙ accepted_last next (block n true bytes) _ m rest out (complete n true)
          ∙ ap
              (λ f. (
                ok (record {
                  header = block_header h 1 true;
                  body = take (244 * n) payload ++ bytes;
                }),
                (
                  record (taken_in n true bytes m) { in_flight = f; state = State.idle },
                  record { inbox = rest; outbox = out ++ ack ∷ [] },
                ),
              ))
              (ap₂ erase_key (system_is h (n + 1) true) (assigned true) ∙ erase_only _)
