-- ===== src/Protocol/Tests.antt =====
-- Examples of the theorems about the allocator of ids, one with two ids, and the table of handlers.
use secs_lib.Common.{ℕ, ◌≤◌, ◌≡◌, refl, arith, none, some, List, [], ◌∷◌}
use secs_lib.Protocol.Router.{find, or_else}
use secs_lib.Protocol.Router.Find.{
  Update, set_one, set_stream, set_rest, erase_one, IsUpdate, after, exact, by_stream, for_the_rest,
  find-after,
}
use secs_lib.Protocol.SystemBytes.{
  SystemBytes, member, insert, system_bytes, advance, attempt, allocate, release, in_use_count,
}
use secs_lib.Protocol.SystemBytes.Invariant.{IsAllocator}
use secs_lib.Protocol.SystemBytes.Allocate.{Given, allocate-Given}
use secs_lib.Protocol.SystemBytes.History.{
  Reachable, created, allocated, released, Reachable-IsAllocator, allocate-Reachable_exhausted,
}

-- Both ids are allocated; then the first is released.
abbrev full : SystemBytes
full = (allocate (allocate (system_bytes 2 2)).1).1

full-Reachable : Reachable full
full-Reachable = allocated _ (allocated _ (created 2 2 (omega arith)))

allocate-full : (allocate full).0 ≡ none
unfolding allocate attempt system_bytes member advance
allocate-full = refl

allocate-released : (allocate (release full 2)).0 ≡ some 2
unfolding allocate attempt system_bytes release member insert advance
allocate-released = refl

Reachable-IsAllocator_example : IsAllocator (release full 2)
Reachable-IsAllocator_example =
    Reachable-IsAllocator (release full 2) (released full 2 full-Reachable)

full-IsAllocator : IsAllocator full
full-IsAllocator = Reachable-IsAllocator full full-Reachable

released-IsAllocator : IsAllocator (release full 2)
released-IsAllocator = Reachable-IsAllocator (release full 2) (released full 2 full-Reachable)

allocate-Given_example : Given (release full 2) (allocate (release full 2))
allocate-Given_example = allocate-Given (release full 2) released-IsAllocator

allocate-Reachable_exhausted_example : full.max_value ≤ in_use_count full
allocate-Reachable_exhausted_example =
    allocate-Reachable_exhausted full full-Reachable allocate-full

-- The handler of S1F13 is set and erased, and one for stream 1 stays.
abbrev history : List (Update ℕ)
history = erase_one 1 13 ∷ set_stream 1 20 ∷ set_one 1 13 10 ∷ set_rest 30 ∷ []

find-after_example :
    find (after history) 1 13
    ≡ or_else (exact history 1 13) (or_else (by_stream history 1) (for_the_rest history))
unfolding IsUpdate
find-after_example =
    find-after history 1 13 (omega arith, (tt, (omega arith, (tt, tt)))) (omega arith)

find-history :
    or_else (exact history 1 13) (or_else (by_stream history 1) (for_the_rest history)) ≡ some 20
unfolding or_else exact by_stream
find-history = refl
