-- ===== src/Protocol/SystemBytes.antt =====
-- The allocator of transaction ids: src/protocol/system_bytes.cpp. The set `in_use_` is a list,
-- which an insertion leaves alone when the element is there. The mutex makes each call one step.
pub mod Sets
pub mod Exhaustion
pub mod Invariant
pub mod Allocate
pub mod Release
pub mod History
use secs_lib.Common.{
  ℕ, zero, suc, ◌+◌, ◌-◌, ◌^◌, min, Bool, true, false, ◌||◌, not, List, [], ◌∷◌, ◌++◌, ltb, ◌==◌,
  if◌then◌else◌, length, Option, none, some,
}
use secs_lib.Core.Error.{Errc, buffer_overflow}

pub record SystemBytes : Type 0 where
  pub next : ℕ
  pub max_value : ℕ
  pub free : List ℕ
  pub in_use : List ℕ

unfoldable pub member : ℕ → List ℕ → Bool
member x [] = false
member x (y ∷ ys) = x == y || member x ys

unfoldable pub insert : ℕ → List ℕ → List ℕ
unfolding member
insert x ys = if member x ys then ys else x ∷ ys

unfoldable pub erase : ℕ → List ℕ → List ℕ
erase x [] = []
erase x (y ∷ ys) = let rest = erase x ys in if x == y then rest else y ∷ rest

abbrev pub min_system_bytes : ℕ
min_system_bytes = 1

abbrev pub uint32_max : ℕ
uint32_max = 2 ^ 32 - 1

-- `max_` after the constructor, and `next_` for that `max_`.
unfoldable pub settled_max : ℕ → ℕ
settled_max max_value =
    let widened = (if max_value == 0 then uint32_max else max_value) in
    if ltb widened min_system_bytes then min_system_bytes else widened

unfoldable pub settled_next : ℕ → ℕ → ℕ
settled_next initial max_value =
    if initial == 0 || ltb max_value initial then min_system_bytes else initial

unfoldable pub system_bytes : ℕ → ℕ → SystemBytes
unfolding settled_max settled_next
system_bytes initial max_value = record {
  next = settled_next initial (settled_max max_value);
  max_value = settled_max max_value;
  free = [];
  in_use = [];
}

-- `next_candidate_` returns `next_` and moves it on.
unfoldable pub advance : ℕ → ℕ → ℕ
advance max_value next = if next == max_value then min_system_bytes else next + 1

unfoldable pub moved : SystemBytes → SystemBytes
moved s = record {
  next = advance s.max_value s.next;
  max_value = s.max_value;
  free = s.free;
  in_use = s.in_use;
}

-- The attempts of `allocate`, and what `next_` is after them.
unfoldable pub attempt : ℕ → SystemBytes → Option ℕ × SystemBytes
unfolding moved
attempt zero s = (none, s)
attempt (suc attempts) s =
    let rest = attempt attempts (moved s) in
    if member s.next s.in_use then rest else (
      some s.next,
      record {
        next = advance s.max_value s.next;
        max_value = s.max_value;
        free = s.free;
        in_use = s.next ∷ s.in_use;
      },
    )

-- `allocate`: the id, or `none` for `buffer_overflow`, the only error left when memory suffices.
unfoldable pub allocate : SystemBytes → Option ℕ × SystemBytes
allocate s = elim s.free [
  | sb ∷ free ↦ (
    some sb,
    record { next = s.next; max_value = s.max_value; free = free; in_use = insert sb s.in_use },
  )
  | [] ↦
      if not (ltb (length s.in_use) s.max_value)
      then (none, s)
      else attempt (min (length s.in_use + 2) s.max_value) s
]

unfoldable pub release : SystemBytes → ℕ → SystemBytes
release s sb =
    if sb == 0 || ltb s.max_value sb
    then s
    else (if not (member sb s.in_use) then s else record {
      next = s.next;
      max_value = s.max_value;
      free = s.free ++ (sb ∷ []);
      in_use = erase sb s.in_use;
    })

unfoldable pub is_in_use : SystemBytes → ℕ → Bool
is_in_use s sb = if sb == 0 || ltb s.max_value sb then false else member sb s.in_use

unfoldable pub in_use_count : SystemBytes → ℕ
in_use_count s = length s.in_use
