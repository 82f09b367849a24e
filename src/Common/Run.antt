-- ===== src/Common/Run.antt =====
-- What a recursion on fuel gives back: as `Result`, with `stuck` where the fuel ran out, which is
-- no outcome of the program.
use mathlib.Core.Path.{◌≡◌, refl}
use mathlib.Core.Bool.{Bool, true, false}

pub data Run {ℓ} (E : Type 0) (A : Type ℓ) : Type ℓ where
  ok : A → Run E A
  err : E → Run E A
  stuck : Run E A

module _ {E : Type 0} where
  infixl 5 ◌>>=◌ ◌>>◌
  abbrev pub ◌>>=◌ {ℓ κ} : {A : Type ℓ} {B : Type κ} → Run E A → (A → Run E B) → Run E B
  ok a >>= f = f a
  err e >>= f = err e
  stuck >>= f = stuck

  abbrev pub ◌>>◌ {κ} : {B : Type κ} → Run E (Unit {0}) → Run E B → Run E B
  m >> k = m >>= λ _. k

  -- An early return with an error, where the test holds.
  abbrev pub fail_if : Bool → E → Run E (Unit {0})
  fail_if true e = err e
  fail_if false e = ok tt

  -- The call returns, and `P` holds of the value if it gives one.
  abbrev pub Ensures {ℓ} : {A : Type ℓ} → (A → Type 0) → Run E A → Type 0
  Ensures P (ok a) = P a
  Ensures P (err e) = Unit
  Ensures P stuck = ⊥

  pub Ensures-bind {ℓ ℓ'} :
      {A : Type ℓ} {B : Type ℓ'} (P : A → Type 0) (Q : B → Type 0) (r : Run E A) (f : A → Run E B)
      → Ensures P r
      → ((a : A) → P a → Ensures Q (f a))
      → Ensures Q (r >>= f)
  Ensures-bind P Q (ok a) f h k = k a h
  Ensures-bind P Q (err e) f h k = tt
  Ensures-bind P Q stuck f h k = absurd h

  pub Ensures-fail_if {ℓ} :
      {B : Type ℓ} (Q : B → Type 0) (b : Bool) (e : E) (k : Run E B)
      → (b ≡ false → Ensures Q k)
      → Ensures Q (fail_if b e >> k)
  Ensures-fail_if Q true e k h = tt
  Ensures-fail_if Q false e k h = h refl
