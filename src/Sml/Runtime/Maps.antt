-- ===== src/Sml/Runtime/Maps.antt =====
-- What the maps of src/sml/runtime.cpp give after an entry was put.
use secs_lib.Common.{
  ℕ, ◌≡◌, refl, sym, subst, Bool, true, false, List, [], ◌∷◌, none, some, arith, ◌==◌,
  if◌then◌else◌, Bool-cases, inl, inr,
}
use secs_lib.Common.Assoc.{lookup, assign, lookup-assign}
use secs_lib.Sml.Lexer.{same_text}
use secs_lib.Sml.Render.{get, put, without}

same_text_sound : (xs ys : List ℕ) → same_text xs ys ≡ true → xs ≡ ys
unfolding same_text
same_text_sound [] [] h = refl
same_text_sound [] (y ∷ ys) h = ground arith
same_text_sound (x ∷ xs) [] h = ground arith
same_text_sound (x ∷ xs) (y ∷ ys) h = ground (arith, same_text_sound xs ys)

module _ {A : Type 0} where
  get-without :
      (name key : List ℕ) (entries : List (List ℕ × A))
      → get name (without key entries) ≡ (if same_text key name then none else get name entries)
  unfolding get without
  get-without name key [] = ground arith
  get-without name key ((k, a) ∷ entries) = elim (Bool-cases (same_text k key)) [
    | inl e ↦ rw e (
        subst
          (λ k. get name (without key entries) ≡ (
            if same_text key name
            then none
            else (if same_text k name then some a else get name entries)))
          (sym (same_text_sound k key e)) (ground (arith, get-without name key entries)))
    | inr e ↦ elim (Bool-cases (same_text key name)) [
      | inl found ↦
          let apart : same_text k name ≡ false =
            subst (λ t. same_text k t ≡ false) (same_text_sound key name found) e in
          ground (arith, e, found, apart, get-without name key entries)
      | inr other ↦ ground (arith, e, other, get-without name key entries)
    ]
  ]

  pub get-put :
      (name key : List ℕ) (a : A) (entries : List (List ℕ × A))
      → get name (put key a entries) ≡ (if same_text key name then some a else get name entries)
  unfolding get put
  get-put name key a entries = ground (arith, get-without name key entries)

pub lookup_if :
    (k key i : ℕ) (c : Bool) (entries : List (ℕ × ℕ))
    → lookup k (if c then assign key i entries else entries)
      ≡ (if c then (if k == key then some i else lookup k entries) else lookup k entries)
lookup_if k key i true entries = lookup-assign k key i entries
lookup_if k key i false entries = refl
