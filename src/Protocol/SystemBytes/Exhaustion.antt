-- ===== src/Protocol/SystemBytes/Exhaustion.antt =====
-- `allocate` fails only when every id is in use: its attempts are enough.
use secs_lib.Common.{
  ℕ, zero, suc, ◌+◌, ◌-◌, ◌≤◌, ◌<◌, ◌≡◌, ◌≢◌, sym, ap, ◌∙◌, true, List, arith, ltb, leb,
  if◌then◌else◌, length, min, none, Bool-cases, inl, inr,
}
use secs_lib.Protocol.SystemBytes.{
  SystemBytes, member, erase, advance, moved, attempt, allocate, in_use_count,
}
use secs_lib.Protocol.SystemBytes.Sets.{member-erase, length-erase}

-- The candidate of attempt `j`, counted from 0.
unfoldable candidate : ℕ → ℕ → ℕ → ℕ
candidate max_value next j = if leb (next + j) max_value then next + j else next + j - max_value

candidate-advance :
    (max_value next j : ℕ)
    → next ≤ max_value
    → j < max_value
    → candidate max_value (advance max_value next) j ≡ candidate max_value next (suc j)
unfolding candidate advance
candidate-advance max_value next j h l = ground arith

candidates_differ :
    (max_value next i j : ℕ)
    → 1 ≤ next
    → next ≤ max_value
    → i < j
    → j < max_value
    → candidate max_value next i ≢ candidate max_value next j
unfolding candidate
candidates_differ max_value next i j lo hi l b = ground arith

-- As many different candidates as there are attempts need as many elements.
pigeonhole :
    (max_value next k : ℕ) (xs : List ℕ)
    → 1 ≤ next
    → next ≤ max_value
    → k ≤ max_value
    → ((j : ℕ) → j < k → member (candidate max_value next j) xs ≡ true)
    → k ≤ length xs
pigeonhole max_value next zero xs lo hi b h = omega arith
pigeonhole max_value next (suc k) xs lo hi b h =
    let c = candidate max_value next k in
    let fewer = length-erase c xs (h k (omega arith)) in
    let rest = pigeonhole max_value next k (erase c xs) lo hi (omega arith) (λ j l.
      member-erase (candidate max_value next j) c xs
        (candidates_differ max_value next j k lo hi l (omega arith))
      ∙ h j (omega arith)) in
    omega (arith, fewer, rest)

advance_bounds :
    (max_value next : ℕ)
    → 1 ≤ next
    → next ≤ max_value
    → (1 ≤ advance max_value next) × (advance max_value next ≤ max_value)
unfolding advance
advance_bounds max_value next lo hi = ground arith

candidate_first : (max_value next : ℕ) → next ≤ max_value → candidate max_value next 0 ≡ next
unfolding candidate
candidate_first max_value next h = ground arith

attempt_missed :
    (k : ℕ) (s : SystemBytes)
    → (attempt (suc k) s).0 ≡ none
    → (member s.next s.in_use ≡ true) × ((attempt k (moved s)).0 ≡ none)
unfolding attempt
attempt_missed k s e = ground arith

attempt_misses :
    (k : ℕ) (s : SystemBytes)
    → 1 ≤ s.next
    → s.next ≤ s.max_value
    → k ≤ s.max_value
    → (attempt k s).0 ≡ none
    → (j : ℕ) → j < k
    → member (candidate s.max_value s.next j) s.in_use ≡ true
unfolding attempt moved
attempt_misses zero s lo hi b e j l = absurd (omega arith)
attempt_misses (suc k) s lo hi b e zero l =
    ap (λ c. member c s.in_use) (candidate_first s.max_value s.next hi) ∙ (attempt_missed k s e).0
attempt_misses (suc k) s lo hi b e (suc j) l =
    let bounds = advance_bounds s.max_value s.next lo hi in
    ap (λ c. member c s.in_use) (sym (candidate-advance s.max_value s.next j hi (omega arith)))
    ∙ attempt_misses k (moved s) bounds.0 bounds.1 (omega arith) (attempt_missed k s e).1 j
        (omega arith)

allocate_missed :
    (s : SystemBytes)
    → (allocate s).0 ≡ none
    → length s.in_use < s.max_value
    → (attempt (min (length s.in_use + 2) s.max_value) s).0 ≡ none
unfolding allocate
allocate_missed s e l = ground arith

-- Where `allocate` gives no id, as many ids are in use as there are.
pub allocate_exhausted :
    (s : SystemBytes)
    → 1 ≤ s.next
    → s.next ≤ s.max_value
    → (allocate s).0 ≡ none
    → s.max_value ≤ in_use_count s
unfolding in_use_count
allocate_exhausted s lo hi e = elim (Bool-cases (ltb (length s.in_use) s.max_value)) [
  | inl b ↦
      let l : length s.in_use < s.max_value = ground arith in
      let k = min (length s.in_use + 2) s.max_value in
      let fits =
        pigeonhole s.max_value s.next k s.in_use lo hi (omega arith)
          (attempt_misses k s lo hi (omega arith) (allocate_missed s e l)) in
      absurd (omega (arith, fits, l))
  | inr b ↦ ground arith
]
