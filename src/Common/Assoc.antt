-- ===== src/Common/Assoc.antt =====
-- Maps with numbers for keys, as association lists with one entry for a key.
use Prim.Native.Nat.{ℕ}
use mathlib.Core.Path.{◌≡◌, refl, ◌∙◌}
use mathlib.Core.Bool.{Bool, true, false}
use mathlib.Core.Logic.{inl, inr}
use mathlib.Core.List.{List, [], ◌∷◌}
use mathlib.Core.Option.{Option, none, some}
use native.Mathlib.Omega.{arith}
use secs_lib.Common.Tests.{◌==◌, if◌then◌else◌, Bool-cases}

unfoldable pub lookup {ℓ} : {A : Type ℓ} → ℕ → List (ℕ × A) → Option A
lookup key [] = none
lookup key ((k, a) ∷ entries) = let rest = lookup key entries in if key == k then some a else rest

unfoldable pub erase_key {ℓ} : {A : Type ℓ} → ℕ → List (ℕ × A) → List (ℕ × A)
erase_key key [] = []
erase_key key ((k, a) ∷ entries) =
    let rest = erase_key key entries in if key == k then rest else (k, a) ∷ rest

-- `insert_or_assign`.
unfoldable pub assign {ℓ} : {A : Type ℓ} → ℕ → A → List (ℕ × A) → List (ℕ × A)
unfolding erase_key
assign key a entries = (key, a) ∷ erase_key key entries

module _ {ℓ} {A : Type ℓ} where
  if_none :
      (b : Bool) (t e : Option A)
      → (if b then none else e) ≡ (if b then none else (if b then t else e))
  if_none true t e = refl
  if_none false t e = refl

  pub lookup-erase_key :
      (k key : ℕ) (entries : List (ℕ × A))
      → lookup k (erase_key key entries) ≡ (if k == key then none else lookup k entries)
  unfolding lookup erase_key
  lookup-erase_key k key [] = ground arith
  lookup-erase_key k key ((x, a) ∷ entries) = elim (Bool-cases (key == x)) [
    | inl e ↦
        let same : (k == x) ≡ (k == key) = ground arith in
        rw (e, same)
          (lookup-erase_key k key entries ∙ if_none (k == key) (some a) (lookup k entries))
    | inr e ↦ rw e (ground (arith, e, lookup-erase_key k key entries))
  ]

  pub lookup-assign :
      (k key : ℕ) (a : A) (entries : List (ℕ × A))
      → lookup k (assign key a entries) ≡ (if k == key then some a else lookup k entries)
  unfolding lookup assign
  lookup-assign k key a entries = ground (arith, lookup-erase_key k key entries)
