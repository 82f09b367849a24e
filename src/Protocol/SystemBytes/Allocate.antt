-- ===== src/Protocol/SystemBytes/Allocate.antt =====
-- What a call of `allocate` of src/protocol/system_bytes.cpp does to the allocator.
use secs_lib.Common.{
  ℕ, zero, suc, ◌+◌, ◌≡◌, refl, sym, ap, subst, ◌∙◌, true, false, not, List, [], ◌∷◌, arith, ltb,
  ◌==◌, if◌then◌else◌, length, min, Option, none, some, Bool-cases, inl, inr,
}
use secs_lib.Protocol.SystemBytes.{SystemBytes, member, insert, advance, moved, attempt, allocate}
use secs_lib.Protocol.SystemBytes.Sets.{Unique}
use secs_lib.Protocol.SystemBytes.Invariant.{
  IsAllocator, Gives, given, given-Gives, given-IsAllocator, member_head, member_tail,
  member_differs,
}

-- After a call: an id was given, or the ids in use are those of before.
unfoldable pub Given : SystemBytes → Option ℕ × SystemBytes → Type 0
Given s (none, s') = IsAllocator s' × (s'.in_use ≡ s.in_use)
Given s (some sb, s') = IsAllocator s' × Gives s s' sb

moved-IsAllocator : (s : SystemBytes) → IsAllocator s → IsAllocator (moved s)
unfolding moved advance
moved-IsAllocator s v = record {
  next_pos = ground (arith, v.next_pos, v.next_le);
  next_le = ground (arith, v.next_pos, v.next_le);
  max_fits = v.max_fits;
  used_range = v.used_range;
  free_range = v.free_range;
  disjoint = v.disjoint;
  used_unique = v.used_unique;
  free_unique = v.free_unique;
}

-- Only the candidate differs between `s` and `moved s`.
Given-moved : (s : SystemBytes) (r : Option ℕ × SystemBytes) → Given (moved s) r → Given s r
unfolding Given moved
Given-moved s (none, s') g = g
Given-moved s (some sb, s') g = (
  g.0,
  record { range = g.1.range; unused = g.1.unused; used = g.1.used; same_max = g.1.same_max },
)

not_member : (x : ℕ) → member x [] ≡ true → ⊥
unfolding member
not_member x h = ground arith

module _ (s : SystemBytes) (v : IsAllocator s) (f : s.free ≡ []) where
  nothing_free :
      (x : ℕ) → member x s.free ≡ true → (member x s.free ≡ true) × ((x == s.next) ≡ false)
  nothing_free x h =
      absurd (let no : member x [] ≡ true = ap (member x) (sym f) ∙ h in not_member x no)

attempt-Given : (k : ℕ) (s : SystemBytes) → IsAllocator s → s.free ≡ [] → Given s (attempt k s)
unfolding attempt Given
attempt-Given zero s v f = (v, refl)
attempt-Given (suc k) s v f = elim (Bool-cases (member s.next s.in_use)) [
  | inl m ↦
      rw m
        (Given-moved s (attempt k (moved s)) (attempt-Given k (moved s) (moved-IsAllocator s v) f))
  | inr m ↦ rw m (
    given-IsAllocator s s.next (advance s.max_value s.next) s.free v v.next_pos v.next_le m
        (moved-IsAllocator s v).next_pos (moved-IsAllocator s v).next_le (nothing_free s v f)
        v.free_unique,
    given-Gives s s.next (advance s.max_value s.next) s.free v.next_pos v.next_le m,
  )
]

insert_new : (x : ℕ) (xs : List ℕ) → member x xs ≡ false → insert x xs ≡ x ∷ xs
unfolding insert
insert_new x xs h = ground arith

-- The first branch of `allocate`.
allocate_reuse :
    (s : SystemBytes) (sb : ℕ) (free : List ℕ)
    → s.free ≡ sb ∷ free
    → member sb s.in_use ≡ false
    → allocate s ≡ (some sb, given s sb s.next free)
unfolding allocate
allocate_reuse s sb free e m = rw (e, insert_new sb s.in_use m) refl

allocate_search :
    (s : SystemBytes)
    → s.free ≡ []
    → allocate s ≡ (
        if not (ltb (length s.in_use) s.max_value)
        then (none, s)
        else attempt (min (length s.in_use + 2) s.max_value) s)
unfolding allocate
allocate_search s e = rw e refl

reuse-Given :
    (s : SystemBytes) (sb : ℕ) (free : List ℕ)
    → IsAllocator s
    → s.free ≡ sb ∷ free
    → Given s (allocate s)
unfolding Given Unique
reuse-Given s sb free v e =
    let listed : member sb s.free ≡ true = ap (member sb) e ∙ member_head sb free in
    let unused = v.disjoint sb listed in
    let (lo, hi) = v.free_range sb listed in
    let unique : Unique (sb ∷ free) = subst Unique e v.free_unique in
    rw (allocate_reuse s sb free e unused) (
      given-IsAllocator s sb s.next free v lo hi unused v.next_pos v.next_le
          (λ x h. (ap (member x) e ∙ member_tail x sb free h, member_differs x sb free unique h))
          unique.1,
      given-Gives s sb s.next free lo hi unused,
    )

search-Given : (s : SystemBytes) → IsAllocator s → s.free ≡ [] → Given s (allocate s)
unfolding Given
search-Given s v e =
    rw (allocate_search s e) (elim (Bool-cases (ltb (length s.in_use) s.max_value)) [
      | inl b ↦ rw b (attempt-Given (min (length s.in_use + 2) s.max_value) s v e)
      | inr b ↦ rw b (v, refl)
    ])

allocate_split :
    (s : SystemBytes) (free : List ℕ) → IsAllocator s → s.free ≡ free → Given s (allocate s)
allocate_split s [] v e = search-Given s v e
allocate_split s (sb ∷ free) v e = reuse-Given s sb free v e

-- `allocate` keeps an allocator in good order. An id that it gives is in range, was not in use
-- and now is, and the other ids in use stay what they were; without an id nothing in use changes.
pub allocate-Given : (s : SystemBytes) → IsAllocator s → Given s (allocate s)
allocate-Given s v = allocate_split s s.free v refl
