-- ===== src/Protocol/SystemBytes/Sets.antt =====
-- Sets of ids as lists: membership, insertion and erasure.
use secs_lib.Common.{
  ℕ, ◌+◌, ◌≤◌, ◌≡◌, ◌≢◌, refl, ◌∙◌, true, false, ◌||◌, List, [], ◌∷◌, ◌++◌, arith, ◌==◌, length,
  Bool-cases, inl, inr,
}
use secs_lib.Protocol.SystemBytes.{member, erase}

-- No element stands in the list twice.
unfoldable pub Unique : List ℕ → Type 0
Unique [] = Unit {0}
Unique (x ∷ xs) = (member x xs ≡ false) × Unique xs

pub member-erase : (x y : ℕ) (xs : List ℕ) → x ≢ y → member x (erase y xs) ≡ member x xs
unfolding member erase
member-erase x y [] h = refl
member-erase x y (z ∷ xs) h = ground (arith, member-erase x y xs h)

pub member-erase_same : (x : ℕ) (xs : List ℕ) → member x (erase x xs) ≡ false
unfolding member erase
member-erase_same x [] = refl
member-erase_same x (z ∷ xs) = ground (arith, member-erase_same x xs)

length-erase_le : (x : ℕ) (xs : List ℕ) → length (erase x xs) ≤ length xs
unfolding erase
length-erase_le x [] = omega arith
length-erase_le x (y ∷ xs) = ground (arith, length-erase_le x xs)

pub length-erase : (x : ℕ) (xs : List ℕ) → member x xs ≡ true → 1 + length (erase x xs) ≤ length xs
unfolding member erase
length-erase x [] h = absurd (ground arith)
length-erase x (y ∷ xs) h = ground (arith, length-erase_le x xs, length-erase x xs)

pub member-append : (x : ℕ) (xs ys : List ℕ) → member x (xs ++ ys) ≡ (member x xs || member x ys)
unfolding member
member-append x [] ys = refl
member-append x (z ∷ xs) ys = ground (arith, member-append x xs ys)

pub erase-Unique : (x : ℕ) (xs : List ℕ) → Unique xs → Unique (erase x xs)
unfolding Unique erase
erase-Unique x [] h = tt
erase-Unique x (y ∷ xs) h = elim (Bool-cases (x == y)) [
  | inl e ↦ rw e (erase-Unique x xs h.1)
  | inr e ↦ rw e (member-erase y x xs (ground arith) ∙ h.0, erase-Unique x xs h.1)
]

pub append-Unique :
    (xs : List ℕ) (y : ℕ) → Unique xs → member y xs ≡ false → Unique (xs ++ (y ∷ []))
unfolding Unique member
append-Unique [] y h m = (refl, tt)
append-Unique (x ∷ xs) y h m =
    (ground (arith, member-append x xs (y ∷ []), h.0), append-Unique xs y h.1 (ground arith))
