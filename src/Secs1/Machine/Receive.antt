-- ===== src/Secs1/Machine/Receive.antt =====
-- `StateMachine::async_receive` and `async_transact`.
use secs_lib.Common.{
  ℕ, zero, suc, ◌+◌, ◌-◌, Bool, true, false, ◌&&◌, ◌||◌, not, List, [], ◌∷◌, Option, none, some,
  ltb, leb, ◌==◌, if◌then◌else◌,
}
use secs_lib.Common.Assoc.{lookup, erase_key, assign}
use secs_lib.Common.Outcome as Outcome
use secs_lib.Common.Outcome.{Result}
use secs_lib.Common.Run.{stuck}
use secs_lib.Core.Error as Core
use secs_lib.Secs1.Block as Block
use secs_lib.Secs1.Block.{Header, DecodedBlock, header_size, max_block_length, decode_block}
use secs_lib.Secs1.Reassembler.{Reassembler, reassembler, accept, has_message, same}
use secs_lib.Secs1.Machine.{
  Code, core_code, secs1_code, enq, eot, ack, nak, Link, ReceivedMessage, State, is_idle, M, pure,
  throw, ◌>>=◌, ◌>>◌, get, put, set_state, write, read_byte, clock,
}
use secs_lib.Secs1.Machine.Send.{async_send}

-- The variables that the loop over the blocks keeps.
pub record Loop : Type 0 where
  pub nack_count : ℕ
  pub allow_enq_or_length : Bool
  pub next_block_timeout : ℕ

unfoldable pub same_bytes : List ℕ → List ℕ → Bool
same_bytes [] [] = true
same_bytes [] (y ∷ ys) = false
same_bytes (x ∷ xs) [] = false
same_bytes (x ∷ xs) (y ∷ ys) = x == y && same_bytes xs ys

unfoldable pub same_header : Header → Header → Bool
same_header h g =
    same h.reverse_bit g.reverse_bit
    && (h.device_id == g.device_id
        && (same h.wait_bit g.wait_bit
            && (h.stream == g.stream
                && (h.function == g.function
                    && (same h.end_bit g.end_bit
                        && (h.block_number == g.block_number
                            && h.system_bytes == g.system_bytes))))))

-- A block with the header and the data of the one last accepted: the peer has missed an ACK.
unfoldable pub is_duplicate : Option Header → List ℕ → DecodedBlock → Bool
is_duplicate none seen block = false
is_duplicate (some h) seen block = same_header block.header h && same_bytes block.payload seen

unfoldable pub is_empty : List (ℕ × Reassembler) → Bool
is_empty [] = true
is_empty (entry ∷ entries) = false

module _ {S : Type 0} (link : Link S) where
  -- Every message under way is given up, and the object is idle.
  unfoldable pub abort : {A : Type 0} → Code → M S A
  abort e = do m ← get; put (record m { in_flight = []; state = State.idle }); throw e

  -- A NAK before that, whose own failure does not matter.
  unfoldable pub reject : {A : Type 0} → Code → M S A
  reject e = do ignored ← write link (nak ∷ []); abort e

  unfoldable pub or_abort : {A : Type 0} → Result Code A → M S A
  or_abort (Outcome.ok a) = pure a
  or_abort (Outcome.err e) = abort e

  -- The wait for ENQ, which passes over other bytes; `next` waits on.
  unfoldable pub enq_read : M S (Unit {0}) → Result Code ℕ → M S (Unit {0})
  enq_read next (Outcome.err e) = throw e
  enq_read next (Outcome.ok b) = if b == enq then pure tt else next

  unfoldable pub wait_enq : ℕ → Option ℕ → M S (Unit {0})
  wait_enq zero timeout w = (stuck, w)
  wait_enq (suc fuel) timeout w = (read_byte link timeout >>= enq_read (wait_enq fuel timeout)) w

  -- The way a block starts, `first_len` and the time to wait for the length: after EOT was sent, ...
  unfoldable pub eot_sent : Option Code → M S (Option ℕ × ℕ)
  eot_sent (some e) = abort e
  eot_sent none = do m ← get; pure (none, m.timeouts.t2_protocol)

  -- ... and for a byte that was read, where `next` waits on.
  unfoldable pub start_read : M S (Option ℕ × ℕ) → ℕ → Result Code ℕ → M S (Option ℕ × ℕ)
  start_read next timeout (Outcome.err e) = abort e
  start_read next timeout (Outcome.ok b) =
      if b == enq
      then (write link (eot ∷ []) >>= eot_sent)
      else (if leb header_size b && leb b max_block_length then pure (some b, timeout) else next)

  unfoldable pub wait_start : ℕ → ℕ → ℕ → M S (Option ℕ × ℕ)
  wait_start zero deadline timeout w = (stuck, w)
  wait_start (suc fuel) deadline timeout w =
      (clock link >>= λ now.
      if leb deadline now
      then abort (core_code Core.timeout)
      else (read_byte link (some (deadline - now))
          >>= start_read (wait_start fuel deadline timeout) timeout))
        w

  unfoldable pub block_start : ℕ → Loop → M S (Option ℕ × ℕ)
  block_start fuel loop =
      if loop.allow_enq_or_length
      then (clock link >>= λ now.
          wait_start fuel (now + loop.next_block_timeout) loop.next_block_timeout)
      else pure (none, loop.next_block_timeout)

  unfoldable pub read_length : Option ℕ → ℕ → M S ℕ
  read_length (some b) timeout = pure b
  read_length none timeout = read_byte link (some timeout) >>= or_abort

  -- The bytes behind the length.
  unfoldable pub read_rest : ℕ → M S (List ℕ)
  read_rest zero = pure []
  read_rest (suc n) = do
    m ← get
    r ← read_byte link (some m.timeouts.t1_intercharacter)
    b ← or_abort r
    bytes ← read_rest n
    pure (b ∷ bytes)

  unfoldable pub read_frame : ℕ → M S (List ℕ)
  read_frame len =
      if ltb len header_size || ltb max_block_length len
      then reject (secs1_code Block.invalid_block)
      else (read_rest (len + 2) >>= λ bytes. pure (len ∷ bytes))

  -- What the reassembly of the block's message says; `next` goes on with the loop.
  unfoldable pub block_accepted :
      (Loop → M S ReceivedMessage)
      → DecodedBlock
      → Result Block.Errc Reassembler
      → M S ReceivedMessage
  block_accepted next block (Outcome.err e) = reject (secs1_code e)
  block_accepted next block (Outcome.ok r) = do
    m ← get
    put (record m {
      in_flight = assign block.header.system_bytes r m.in_flight;
      last_accepted_header = some block.header;
      last_accepted_data = block.payload;
    })
    ignored ← write link (ack ∷ [])
    m' ← get
    if has_message r
        then (put (record m' {
          in_flight = erase_key block.header.system_bytes m'.in_flight;
          state = State.idle;
        })
            >> pure (record { header = r.header; body = r.body }))
        else next (record {
          nack_count = 0;
          allow_enq_or_length = true;
          next_block_timeout = m'.timeouts.t4_interblock;
        })

  -- A new message has to start with block number 1.
  unfoldable pub block_routed :
      (Loop → M S ReceivedMessage)
      → DecodedBlock
      → Option ℕ
      → Option Reassembler
      → M S ReceivedMessage
  block_routed next block expected (some r) = block_accepted next block (accept r block)
  block_routed next block expected none =
      if not (block.header.block_number == 1)
      then reject (secs1_code Block.block_sequence_error)
      else block_accepted next block (accept (reassembler expected) block)

  unfoldable pub block_decoded :
      (Loop → M S ReceivedMessage) → Loop → ℕ → Result Block.Errc DecodedBlock → M S ReceivedMessage
  block_decoded next loop timeout (Outcome.err e) = do
    ignored ← write link (nak ∷ [])
    m ← get
    if leb m.retry_limit (loop.nack_count + 1)
        then abort (secs1_code Block.too_many_retries)
        else next (record loop { nack_count = loop.nack_count + 1; next_block_timeout = timeout })
  block_decoded next loop timeout (Outcome.ok block) = do
    m ← get
    if is_duplicate m.last_accepted_header m.last_accepted_data block
        then (write link (ack ∷ []) >>= λ ignored. next (record {
          nack_count = 0;
          allow_enq_or_length = true;
          next_block_timeout = m.timeouts.t4_interblock;
        }))
        else block_routed next block m.expected_device_id
            (lookup block.header.system_bytes m.in_flight)

  -- One pass of the loop from the length on.
  unfoldable pub read_block :
      (Loop → M S ReceivedMessage) → Loop → Option ℕ × ℕ → M S ReceivedMessage
  read_block next loop (first_len, timeout) = do
    len ← read_length first_len timeout
    frame ← read_frame len
    block_decoded next loop timeout (decode_block frame)

  -- The loop over the blocks. `fuel` bounds its passes, and in each the bytes it passes over.
  unfoldable pub receive_blocks : ℕ → Loop → M S ReceivedMessage
  receive_blocks zero loop w = (stuck, w)
  receive_blocks (suc fuel) loop w =
      (block_start (suc fuel) loop >>= read_block (receive_blocks fuel) loop) w

  -- The first EOT.
  unfoldable pub permitted : ℕ → Option Code → M S ReceivedMessage
  permitted fuel (some e) = set_state State.idle >> throw e
  permitted fuel none = do
    m ← get
    receive_blocks fuel (record {
      nack_count = 0;
      allow_enq_or_length = false;
      next_block_timeout = m.timeouts.t2_protocol;
    })

  unfoldable pub receive_new : ℕ → Option ℕ → M S ReceivedMessage
  receive_new fuel timeout = do
    wait_enq fuel timeout
    set_state State.wait_block
    e ← write link (eot ∷ [])
    permitted fuel e

  unfoldable pub receive_more : ℕ → M S ReceivedMessage
  receive_more fuel = do
    set_state State.wait_block
    m ← get
    receive_blocks fuel (record {
      nack_count = 0;
      allow_enq_or_length = true;
      next_block_timeout = m.timeouts.t4_interblock;
    })

  unfoldable pub async_receive : ℕ → Option ℕ → M S ReceivedMessage
  async_receive fuel timeout = do
    m ← get
    if not (is_idle m.state)
        then throw (core_code Core.invalid_argument)
        else (if is_empty m.in_flight then receive_new fuel timeout else receive_more fuel)

  unfoldable pub async_transact : ℕ → Header → List ℕ → M S ReceivedMessage
  async_transact fuel header body = do
    async_send link header body
    m ← get
    async_receive fuel (some m.timeouts.t3_reply)
