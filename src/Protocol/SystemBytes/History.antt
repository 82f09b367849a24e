-- ===== src/Protocol/SystemBytes/History.antt =====
-- The states that an allocator of src/protocol/system_bytes.cpp comes to, as a step relation.
use secs_lib.Common.{ℕ, ◌≤◌, ◌<◌, ◌^◌, ◌≡◌, Option, none, some}
use secs_lib.Protocol.SystemBytes.{SystemBytes, system_bytes, allocate, release, in_use_count}
use secs_lib.Protocol.SystemBytes.Invariant.{IsAllocator, system_bytes-IsAllocator}
use secs_lib.Protocol.SystemBytes.Allocate.{Given, allocate-Given}
use secs_lib.Protocol.SystemBytes.Release.{release-IsAllocator}
use secs_lib.Protocol.SystemBytes.Exhaustion.{allocate_exhausted}

-- A new allocator, and one after any sequence of calls, whatever their order.
pub data Reachable : SystemBytes → Type 0 where
  created :
      (initial max_value : ℕ) → max_value < 2 ^ 32 → Reachable (system_bytes initial max_value)
  allocated : (s : SystemBytes) → Reachable s → Reachable (allocate s).1
  released : (s : SystemBytes) (sb : ℕ) → Reachable s → Reachable (release s sb)

Given-IsAllocator : (s : SystemBytes) (r : Option ℕ × SystemBytes) → Given s r → IsAllocator r.1
unfolding Given
Given-IsAllocator s (none, s') g = g.0
Given-IsAllocator s (some sb, s') g = g.0

-- In every reachable state the ids in use and the free ids are in 1 to the maximum, no id is listed
-- twice, and none is both free and in use.
pub Reachable-IsAllocator : (s : SystemBytes) → Reachable s → IsAllocator s
Reachable-IsAllocator _ (created initial max_value h) = system_bytes-IsAllocator initial max_value h
Reachable-IsAllocator _ (allocated s r) =
    Given-IsAllocator s (allocate s) (allocate-Given s (Reachable-IsAllocator s r))
Reachable-IsAllocator _ (released s sb r) = (release-IsAllocator s sb (Reachable-IsAllocator s r)).0

-- In every reachable state where `allocate` gives no id, as many ids are in use as there are.
pub allocate-Reachable_exhausted :
    (s : SystemBytes) → Reachable s → (allocate s).0 ≡ none → s.max_value ≤ in_use_count s
allocate-Reachable_exhausted s r e =
    let v = Reachable-IsAllocator s r in allocate_exhausted s v.next_pos v.next_le e
