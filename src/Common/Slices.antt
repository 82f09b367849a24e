-- ===== src/Common/Slices.antt =====
-- A stretch of an array read, and an array written over from a place on.
use Prim.Native.Nat.{ℕ, zero, suc, ◌+◌, ◌-◌, ◌≤◌}
use mathlib.Core.Path.{◌≡◌, refl, sym, ap, ap₂, ◌∙◌}
use mathlib.Core.List.{List, [], ◌∷◌, ◌++◌}
use native.Mathlib.Omega.{arith}
use secs_lib.Common.Lists.{length, take, drop, length-append, length-take, length-drop, take-append}

module _ {ℓ} {A : Type ℓ} where
  -- The elements from place `r` up to place `w`.
  unfoldable pub slice : List A → ℕ → ℕ → List A
  slice xs r w = take (w - r) (drop r xs)

  -- `xs` with `d` copied to place `w`.
  unfoldable pub splice : List A → ℕ → List A → List A
  splice xs w d = take w xs ++ (d ++ drop (w + length d) xs)

module _ {ℓ} {A : Type ℓ} where
  pub length-slice : (xs : List A) (r w : ℕ) → w ≤ length xs → length (slice xs r w) ≡ w - r
  unfolding slice
  length-slice xs r w h = omega (arith, length-take (w - r) (drop r xs), length-drop r xs)

  pub length-splice :
      (xs : List A) (w : ℕ) (d : List A)
      → w + length d ≤ length xs
      → length (splice xs w d) ≡ length xs
  unfolding splice
  length-splice xs w d h = omega (
    arith,
    length-append (take w xs) (d ++ drop (w + length d) xs),
    length-append d (drop (w + length d) xs),
    length-take w xs,
    length-drop (w + length d) xs,
  )

  take_nil : (n : ℕ) → take {A = A} n [] ≡ []
  take_nil zero = refl
  take_nil (suc n) = refl

  drop_nil : (n : ℕ) → drop {A = A} n [] ≡ []
  drop_nil zero = refl
  drop_nil (suc n) = refl

  drop-take : (n m : ℕ) (xs : List A) → drop n (take m xs) ≡ take (m - n) (drop n xs)
  drop-take zero m xs = ap (λ k. take k xs) (let e : m ≡ m - 0 = omega arith in e)
  drop-take (suc n) zero xs =
      ap (λ k. take k (drop (suc n) xs)) (let e : 0 ≡ 0 - suc n = omega arith in e)
  drop-take (suc n) (suc m) [] = sym (take_nil (suc m - suc n))
  drop-take (suc n) (suc m) (x ∷ xs) =
      drop-take n m xs
      ∙ ap (λ k. take k (drop n xs)) (let e : m - n ≡ suc m - suc n = omega arith in e)

  pub drop-drop : (n m : ℕ) (xs : List A) → drop n (drop m xs) ≡ drop (m + n) xs
  drop-drop n zero xs = ap (λ k. drop k xs) (let e : n ≡ 0 + n = omega arith in e)
  drop-drop zero (suc m) [] = sym (drop_nil (suc m + 0))
  drop-drop (suc n) (suc m) [] = sym (drop_nil (suc m + suc n))
  drop-drop n (suc m) (x ∷ xs) =
      drop-drop n m xs
      ∙ ap (λ k. drop k (x ∷ xs)) (let e : suc (m + n) ≡ suc m + n = omega arith in e)

  pub drop-slice : (xs : List A) (r w n : ℕ) → drop n (slice xs r w) ≡ slice xs (r + n) w
  unfolding slice
  drop-slice xs r w n =
      drop-take n (w - r) (drop r xs)
      ∙ ap₂ take (let e : w - r - n ≡ w - (r + n) = omega arith in e) (drop-drop n r xs)

  splice_cons :
      (x : A) (xs : List A) (w : ℕ) (d : List A) → splice (x ∷ xs) (suc w) d ≡ x ∷ splice xs w d
  unfolding splice
  splice_cons x xs w d =
      ap (λ k. x ∷ (take w xs ++ (d ++ drop k (x ∷ xs))))
        (let e : suc w + length d ≡ suc (w + length d) = omega arith in e)

  slice_cons : (x : A) (xs : List A) (r w : ℕ) → slice (x ∷ xs) (suc r) (suc w) ≡ slice xs r w
  unfolding slice
  slice_cons x xs r w =
      ap (λ k. take k (drop r xs)) (let e : suc w - suc r ≡ w - r = omega arith in e)

  slice_front : (xs : List A) (w : ℕ) → slice xs 0 w ≡ take w xs
  unfolding slice
  slice_front xs w = ap (λ k. take k xs) (let e : w - 0 ≡ w = omega arith in e)

  take-splice :
      (xs : List A) (w : ℕ) (d : List A)
      → w ≤ length xs
      → take (w + length d) (splice xs w d) ≡ take w xs ++ d
  unfolding splice
  take-splice xs zero d h = take-append (0 + length d) d (drop (0 + length d) xs) (omega arith)
  take-splice [] (suc w) d h = absurd (omega arith)
  take-splice (x ∷ xs) (suc w) d h =
      ap₂ take (let e : suc w + length d ≡ suc (w + length d) = omega arith in e)
        (splice_cons x xs w d)
      ∙ ap (λ t. x ∷ t) (take-splice xs w d (omega arith))

  -- What a copy to the end of a stretch makes of it.
  pub slice-splice :
      (xs : List A) (r w : ℕ) (d : List A)
      → r ≤ w
      → w ≤ length xs
      → slice (splice xs w d) r (w + length d) ≡ slice xs r w ++ d
  slice-splice xs zero w d h l =
      slice_front (splice xs w d) (w + length d)
      ∙ take-splice xs w d l
      ∙ ap (λ t. t ++ d) (sym (slice_front xs w))
  slice-splice xs (suc r) zero d h l = absurd (omega arith)
  slice-splice [] (suc r) (suc w) d h l = absurd (omega arith)
  slice-splice (x ∷ xs) (suc r) (suc w) d h l =
      ap₂ (λ t k. slice t (suc r) k) (splice_cons x xs w d)
        (let e : suc w + length d ≡ suc (w + length d) = omega arith in e)
      ∙ slice_cons x (splice xs w d) r (w + length d)
      ∙ slice-splice xs r w d (omega arith) (omega arith)
      ∙ ap (λ t. t ++ d) (sym (slice_cons x xs r w))

  -- A stretch copied to the front.
  pub slice-splice_front : (xs d : List A) → slice (splice xs 0 d) 0 (length d) ≡ d
  unfolding slice splice
  slice-splice_front xs d = take-append (length d - 0) d (drop (0 + length d) xs) (omega arith)
