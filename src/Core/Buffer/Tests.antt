-- ===== src/Core/Buffer/Tests.antt =====
-- Runs of a `FixedBuffer`, and the theorems about it at concrete objects.
use secs_lib.Common.{ℕ, ◌≡◌, refl, List, [], ◌∷◌, Option, none, some, arith}
use secs_lib.Core.Error.{buffer_overflow, invalid_argument}
use secs_lib.Core.Buffer.{FixedBuffer, fixed_buffer, zeros, append}
use secs_lib.Core.Buffer.Shape.{IsBuffer, fixed_buffer-IsBuffer}
use secs_lib.Core.Buffer.Bytes.{Appends, append-Appends}
use secs_lib.Core.Buffer.Queue.{Operation, appending, consuming, reserving, queue_all, queue_step}

-- Memory that never runs out.
abbrev plenty : ℕ → Option (List ℕ)
plenty n = some (zeros n)

-- A buffer of 4 to 8 bytes: the fifth byte makes it grow, and the ninth is refused.
abbrev calls : List Operation
calls =
    appending (1 ∷ 2 ∷ 3 ∷ [])
    ∷ consuming 1
    ∷ appending (4 ∷ 5 ∷ 6 ∷ [])
    ∷ reserving 9
    ∷ appending (7 ∷ 8 ∷ 9 ∷ 10 ∷ [])
    ∷ consuming 6
    ∷ consuming 2
    ∷ []

queue_calls : queue_all 8 calls [] ≡ (
  none
      ∷ none
      ∷ none
      ∷ some buffer_overflow
      ∷ some buffer_overflow
      ∷ some invalid_argument
      ∷ none
      ∷ [],
  4 ∷ 5 ∷ 6 ∷ [],
)
unfolding queue_all queue_step
queue_calls = refl

-- A limit above the inline bytes, and memory that has run out.
abbrev large : FixedBuffer
large = fixed_buffer 10 10000

large-IsBuffer : IsBuffer large
large-IsBuffer = fixed_buffer-IsBuffer 10 10000 (omega arith)

append-Appends_example :
    Appends (λ n. none) large (zeros 9000) (append (λ n. none) large (zeros 9000))
append-Appends_example =
    append-Appends (λ n. none) large (zeros 9000) (λ n bytes e. cc) large-IsBuffer
