-- ===== src/Protocol/SystemBytes/Invariant.antt =====
-- What the allocator keeps: ids in range, none twice, none both free and in use.
use secs_lib.Common.{
  ℕ, ◌≤◌, ◌<◌, ◌≡◌, refl, sym, ap, ◌∙◌, true, false, List, ◌∷◌, arith, ◌==◌, ◌||◌, Bool-cases, inl,
  inr, ◌^◌,
}
use secs_lib.Protocol.SystemBytes.{SystemBytes, member, system_bytes, settled_max, settled_next}
use secs_lib.Protocol.SystemBytes.Sets.{Unique}

pub record IsAllocator (s : SystemBytes) : Type 0 where
  pub next_pos : 1 ≤ s.next
  pub next_le : s.next ≤ s.max_value
  pub max_fits : s.max_value < 2 ^ 32
  pub used_range : (x : ℕ) → member x s.in_use ≡ true → (1 ≤ x) × (x ≤ s.max_value)
  pub free_range : (x : ℕ) → member x s.free ≡ true → (1 ≤ x) × (x ≤ s.max_value)
  pub disjoint : (x : ℕ) → member x s.free ≡ true → member x s.in_use ≡ false
  pub used_unique : Unique s.in_use
  pub free_unique : Unique s.free

-- A new allocator is one.
pub system_bytes-IsAllocator :
    (initial max_value : ℕ) → max_value < 2 ^ 32 → IsAllocator (system_bytes initial max_value)
unfolding system_bytes settled_max settled_next member Unique
system_bytes-IsAllocator initial max_value h = record {
  next_pos = ground arith;
  next_le = ground arith;
  max_fits = ground arith;
  used_range = λ x e. absurd (ground arith);
  free_range = λ x e. absurd (ground arith);
  disjoint = λ x e. refl;
  used_unique = tt;
  free_unique = tt;
}

-- The id `sb` is given out of `s`, which becomes `s'`: it was in range and not in use, and the ids
-- in use are those of before and `sb`.
pub record Gives (s s' : SystemBytes) (sb : ℕ) : Type 0 where
  pub range : (1 ≤ sb) × (sb ≤ s.max_value)
  pub unused : member sb s.in_use ≡ false
  pub used : (x : ℕ) → member x s'.in_use ≡ (x == sb || member x s.in_use)
  pub same_max : s'.max_value ≡ s.max_value

pub member_head : (x : ℕ) (xs : List ℕ) → member x (x ∷ xs) ≡ true
unfolding member
member_head x xs = ground arith

pub member_tail : (x y : ℕ) (xs : List ℕ) → member x xs ≡ true → member x (y ∷ xs) ≡ true
unfolding member
member_tail x y xs h = ground arith

-- An element of the rest of a list without repetitions is not its head.
pub member_differs :
    (x y : ℕ) (xs : List ℕ) → Unique (y ∷ xs) → member x xs ≡ true → (x == y) ≡ false
unfolding Unique
member_differs x y xs u h = elim (Bool-cases (x == y)) [
  | inl e ↦
      let same : x ≡ y = ground arith in
      absurd (let no = sym h ∙ ap (λ z. member z xs) same ∙ u.0 in ground arith)
  | inr e ↦ e
]

-- The state after an id went from outside the ids in use into them.
abbrev pub given : SystemBytes → ℕ → ℕ → List ℕ → SystemBytes
given s sb next free = record {
  next = next;
  max_value = s.max_value;
  free = free;
  in_use = sb ∷ s.in_use;
}

pub given-Gives :
    (s : SystemBytes) (sb next : ℕ) (free : List ℕ)
    → 1 ≤ sb
    → sb ≤ s.max_value
    → member sb s.in_use ≡ false
    → Gives s (given s sb next free) sb
unfolding member
given-Gives s sb next free lo hi m = record {
  range = (lo, hi);
  unused = m;
  used = λ x. refl;
  same_max = refl;
}

pub given-IsAllocator :
    (s : SystemBytes) (sb next : ℕ) (free : List ℕ)
    → IsAllocator s
    → 1 ≤ sb
    → sb ≤ s.max_value
    → member sb s.in_use ≡ false
    → 1 ≤ next
    → next ≤ s.max_value
    → ((x : ℕ) → member x free ≡ true → (member x s.free ≡ true) × ((x == sb) ≡ false))
    → Unique free
    → IsAllocator (given s sb next free)
unfolding member Unique
given-IsAllocator s sb next free v lo hi m nlo nhi sub u = record {
  next_pos = nlo;
  next_le = nhi;
  max_fits = v.max_fits;
  used_range = λ x e. ground (arith, v.used_range x);
  free_range = λ x e. v.free_range x (sub x e).0;
  disjoint = λ x e. ground (arith, sub x e, v.disjoint x);
  used_unique = (m, v.used_unique);
  free_unique = u;
}
