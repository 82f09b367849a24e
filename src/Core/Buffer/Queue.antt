-- ===== src/Core/Buffer/Queue.antt =====
-- A `FixedBuffer` of src/core/buffer.cpp as a queue of bytes with a limit.
use secs_lib.Common.{
  ℕ, ◌+◌, ◌<◌, ◌≡◌, ◌≢◌, refl, sym, ap, subst, inl, inr, List, [], ◌∷◌, ◌++◌, ltb, if◌then◌else◌,
  true, false, length, drop, Option, none, some, arith,
}
use secs_lib.Core.Error.{Errc, buffer_overflow, invalid_argument}
use secs_lib.Core.Buffer.{
  FixedBuffer, readable_bytes, size, append, consume, reserve, clear, compact,
}
use secs_lib.Core.Buffer.Shape.{
  IsBuffer, Keeps, length-readable_bytes, readable_bytes_none, clear-IsBuffer, compact-Compacts,
}
use secs_lib.Core.Buffer.Grow.{IsAllocator, Refuses}
use secs_lib.Core.Buffer.Readable.{Holds}
use secs_lib.Core.Buffer.Bytes.{
  Appends, append-Appends, Consumes, consume-Consumes, Reserves, reserve-Reserves,
}

pub data Operation : Type 0 where
  appending : List ℕ → Operation
  consuming : ℕ → Operation
  reserving : ℕ → Operation
  clearing compacting : Operation

-- The call of the object, and what it means for a queue that holds `max_capacity` bytes at most.
module _ (allocate : ℕ → Option (List ℕ)) where
  unfoldable pub perform : Operation → FixedBuffer → Option Errc × FixedBuffer
  perform (appending bytes) b = append allocate b bytes
  perform (consuming n) b = consume b n
  perform (reserving n) b = reserve allocate b n
  perform clearing b = (none, clear b)
  perform compacting b = (none, compact b)

unfoldable pub queue_step : ℕ → Operation → List ℕ → Option Errc × List ℕ
queue_step limit (appending bytes) q =
    if ltb limit (length q + length bytes) then (some buffer_overflow, q) else (none, q ++ bytes)
queue_step limit (consuming n) q =
    if ltb (length q) n then (some invalid_argument, q) else (none, drop n q)
queue_step limit (reserving n) q = if ltb limit n then (some buffer_overflow, q) else (none, q)
queue_step limit clearing q = (none, [])
queue_step limit compacting q = (none, q)

-- The error code and the readable bytes are those of the queue.
pub record Agrees (b : FixedBuffer) (r : Option Errc × FixedBuffer) (s : Option Errc × List ℕ)
    : Type 0 where
  pub code : r.0 ≡ s.0
  pub held : Holds b r.1 s.1

unchanged : (b c : FixedBuffer) → Keeps b c → Holds b c (readable_bytes b)
unchanged b c k = record { shape = k.shape; bytes = k.bytes; same_max = k.same_max }

same : (b c : FixedBuffer) → IsBuffer b → c ≡ b → Holds b c (readable_bytes b)
same b c v e =
    subst (λ x. Holds b x (readable_bytes b)) (sym e)
      (record { shape = v; bytes = refl; same_max = refl })

clear-Agrees : (b : FixedBuffer) → IsBuffer b → Agrees b (none, clear b) (none, [])
unfolding clear
clear-Agrees b v = record {
  code = refl;
  held = record { shape = clear-IsBuffer b v; bytes = readable_bytes_none b 0; same_max = refl };
}

compact-Agrees :
    (b : FixedBuffer) → IsBuffer b → Agrees b (none, compact b) (none, readable_bytes b)
compact-Agrees b v = record {
  code = refl;
  held = unchanged b (compact b) (compact-Compacts b v).keeps;
}

module _ (allocate : ℕ → Option (List ℕ)) (exact : IsAllocator allocate)
    (memory : (n : ℕ) → allocate n ≢ none) where
  -- With memory, a refusal is an overflow.
  overflows :
      (b : FixedBuffer) (total : ℕ) (e : Errc)
      → Refuses allocate b total e
      → (e ≡ buffer_overflow) × (b.max_capacity < total)
  overflows b total e (inl h) = h
  overflows b total e (inr (p, (n, q, none_left))) = absurd (memory n none_left)

  append-Agrees :
      (b : FixedBuffer) (bytes : List ℕ) (r : Option Errc × FixedBuffer)
      → IsBuffer b
      → Appends allocate b bytes r
      → Agrees b r (queue_step b.max_capacity (appending bytes) (readable_bytes b))
  unfolding Appends queue_step
  append-Agrees b bytes (none, c) v h =
      let fits : ltb b.max_capacity (length (readable_bytes b) + length bytes) ≡ false =
        ground (arith, h.1, length-readable_bytes b v) in
      rw fits (record { code = refl; held = h.0 })
  append-Agrees b bytes (some e, c) v h =
      let (code, over) = overflows b (size b + length bytes) e h.1 in
      let full : ltb b.max_capacity (length (readable_bytes b) + length bytes) ≡ true =
        ground (arith, over, length-readable_bytes b v) in
      rw full (record { code = ap some code; held = unchanged b c h.0 })

  consume-Agrees :
      (b : FixedBuffer) (n : ℕ) (r : Option Errc × FixedBuffer)
      → IsBuffer b
      → Consumes b n r
      → Agrees b r (queue_step b.max_capacity (consuming n) (readable_bytes b))
  unfolding Consumes queue_step
  consume-Agrees b n (none, c) v h =
      let fits : ltb (length (readable_bytes b)) n ≡ false =
        ground (arith, h.1, length-readable_bytes b v) in
      rw fits (record { code = refl; held = h.0 })
  consume-Agrees b n (some e, c) v h =
      let short : ltb (length (readable_bytes b)) n ≡ true =
        ground (arith, h.2, length-readable_bytes b v) in
      rw short (record { code = ap some h.1; held = same b c v h.0 })

  reserve-Agrees :
      (b : FixedBuffer) (n : ℕ) (r : Option Errc × FixedBuffer)
      → IsBuffer b
      → Reserves allocate b n r
      → Agrees b r (queue_step b.max_capacity (reserving n) (readable_bytes b))
  unfolding Reserves queue_step
  reserve-Agrees b n (none, c) v h =
      let fits : ltb b.max_capacity n ≡ false =
        ground (arith, h.1, h.0.shape.capacity_le, h.0.same_max) in
      rw fits (record { code = refl; held = unchanged b c h.0 })
  reserve-Agrees b n (some e, c) v h =
      let (code, over) = overflows b n e h.1 in
      let large : ltb b.max_capacity n ≡ true = ground (arith, over) in
      rw large (record { code = ap some code; held = same b c v h.0 })

  -- One call, on any object, does what the queue does.
  pub perform-Agrees :
      (op : Operation) (b : FixedBuffer)
      → IsBuffer b
      → Agrees b (perform allocate op b) (queue_step b.max_capacity op (readable_bytes b))
  unfolding perform queue_step
  perform-Agrees (appending bytes) b v =
      append-Agrees b bytes (append allocate b bytes) v (append-Appends allocate b bytes exact v)
  perform-Agrees (consuming n) b v = consume-Agrees b n (consume b n) v (consume-Consumes b n v)
  perform-Agrees (reserving n) b v =
      reserve-Agrees b n (reserve allocate b n) v (reserve-Reserves allocate b n exact v)
  perform-Agrees clearing b v = clear-Agrees b v
  perform-Agrees compacting b v = compact-Agrees b v

-- A sequence of calls: the codes and the last state.
unfoldable pub perform_all :
    (ℕ → Option (List ℕ)) → List Operation → FixedBuffer → List (Option Errc) × List ℕ
perform_all allocate [] b = ([], readable_bytes b)
perform_all allocate (op ∷ ops) b =
    let (code, c) = perform allocate op b in
    let (codes, bytes) = perform_all allocate ops c in (code ∷ codes, bytes)

unfoldable pub queue_all : ℕ → List Operation → List ℕ → List (Option Errc) × List ℕ
queue_all limit [] q = ([], q)
queue_all limit (op ∷ ops) q =
    let (code, q') = queue_step limit op q in
    let (codes, bytes) = queue_all limit ops q' in (code ∷ codes, bytes)
