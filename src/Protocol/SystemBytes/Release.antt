-- ===== src/Protocol/SystemBytes/Release.antt =====
-- What a call of `release` of src/protocol/system_bytes.cpp does to the allocator.
use secs_lib.Common.{
  ℕ, ◌≡◌, sym, ap, ◌∙◌, true, false, not, [], ◌∷◌, ◌++◌, arith, ltb, ◌==◌, ◌||◌, ◌&&◌, Bool-cases,
  inl, inr,
}
use secs_lib.Protocol.SystemBytes.{SystemBytes, member, erase, release}
use secs_lib.Protocol.SystemBytes.Sets.{
  member-erase, member-erase_same, member-append, erase-Unique, append-Unique,
}
use secs_lib.Protocol.SystemBytes.Invariant.{IsAllocator}

-- Membership of an id that cannot be in use.
outside :
    (s : SystemBytes) (sb : ℕ)
    → IsAllocator s
    → (sb == 0 || ltb s.max_value sb) ≡ true
    → member sb s.in_use ≡ false
outside s sb v b = ground (arith, v.used_range sb)

unlisted :
    (s : SystemBytes) (sb : ℕ)
    → IsAllocator s
    → member sb s.in_use ≡ true
    → member sb s.free ≡ false
unlisted s sb v m = elim (Bool-cases (member sb s.free)) [
  | inl e ↦ absurd (let no = sym m ∙ v.disjoint sb e in ground arith)
  | inr e ↦ e
]

unfoldable removed : SystemBytes → ℕ → SystemBytes
removed s sb = record {
  next = s.next;
  max_value = s.max_value;
  free = s.free ++ (sb ∷ []);
  in_use = erase sb s.in_use;
}

member-removed :
    (s : SystemBytes) (sb x : ℕ)
    → member x (erase sb s.in_use) ≡ (member x s.in_use && not (x == sb))
member-removed s sb x = elim (Bool-cases (x == sb)) [
  | inl e ↦
      let same : x ≡ sb = ground arith in
      let gone : member x (erase sb s.in_use) ≡ false =
        ap (λ z. member z (erase sb s.in_use)) same ∙ member-erase_same sb s.in_use in
      ground (arith, gone, e)
  | inr e ↦ ground (arith, member-erase x sb s.in_use (ground arith), e)
]

removed-IsAllocator :
    (s : SystemBytes) (sb : ℕ)
    → IsAllocator s
    → member sb s.in_use ≡ true
    → IsAllocator (removed s sb)
unfolding removed member
removed-IsAllocator s sb v m = record {
  next_pos = v.next_pos;
  next_le = v.next_le;
  max_fits = v.max_fits;
  used_range = λ x h. v.used_range x (ground (arith, member-removed s sb x, h));
  free_range =
      λ x h. ground (arith, h, member-append x s.free (sb ∷ []), v.free_range x, v.used_range sb m);
  disjoint = λ x h.
      ground (arith, h, member-append x s.free (sb ∷ []), member-removed s sb x, v.disjoint x);
  used_unique = erase-Unique sb s.in_use v.used_unique;
  free_unique = append-Unique s.free sb v.free_unique (unlisted s sb v m);
}

absent :
    (s : SystemBytes) (sb x : ℕ)
    → member sb s.in_use ≡ false
    → member x s.in_use ≡ (member x s.in_use && not (x == sb))
absent s sb x m = elim (Bool-cases (x == sb)) [
  | inl e ↦
      let same : x ≡ sb = ground arith in
      let no : member x s.in_use ≡ false = ap (λ z. member z s.in_use) same ∙ m in
      ground (arith, no, e)
  | inr e ↦ ground (arith, e)
]

-- `release` keeps an allocator one, and takes exactly the id it is called with out of those in use,
-- whatever that id is.
pub release-IsAllocator :
    (s : SystemBytes) (sb : ℕ)
    → IsAllocator s
    → IsAllocator (release s sb)
      × ((x : ℕ) → member x (release s sb).in_use ≡ (member x s.in_use && not (x == sb)))
unfolding release removed
release-IsAllocator s sb v = elim (Bool-cases (sb == 0 || ltb s.max_value sb)) [
  | inl b ↦ rw b (v, λ x. absent s sb x (outside s sb v b))
  | inr b ↦ rw b (elim (Bool-cases (member sb s.in_use)) [
    | inl m ↦ rw m (removed-IsAllocator s sb v m, member-removed s sb)
    | inr m ↦ rw m (v, λ x. absent s sb x m)
  ])
]
