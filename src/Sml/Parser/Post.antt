-- ===== src/Sml/Parser/Post.antt =====
-- What a method of the parser of src/sml/parser.cpp gives back and leaves: rules for its steps.
use secs_lib.Common.{
  ℕ, ◌≡◌, ◌≤◌, ◌<◌, Bool, Bool-cases, inl, inr, true, false, List, [], ◌∷◌, arith, length,
}
use secs_lib.Common.Run.{Run, ok, err, stuck}
use secs_lib.Sml.Token.{TokenType, Token}
use secs_lib.Sml.Parser.{
  ParserErrc, ParserText, ParserError, P, followed, peek, is, check, behind, matches, error, checks,
  expect, expect_value, advance, end_token,
}

-- The method returns; a value has the property `Q`, and at most `n` tokens are left behind it.
unfoldable pub Post : {A : Type 0} → (A → Type 0) → ℕ → Run ParserError (A × List Token) → Type 0
Post Q n (ok (a, ts)) = Q a × (length ts ≤ n)
Post Q n (err e) = Unit
Post Q n stuck = ⊥

abbrev pub Any : {A : Type 0} → A → Type 0
Any a = Unit

pub Post-ok :
    {A : Type 0} (Q : A → Type 0) (n : ℕ) (a : A) (ts : List Token)
    → Q a
    → length ts ≤ n
    → Post Q n (ok (a, ts))
unfolding Post
Post-ok Q n a ts q l = (q, l)

pub Post-error :
    {A : Type 0} (Q : A → Type 0) (n : ℕ) (code : ParserErrc) (text : ParserText) (ts : List Token)
    → Post Q n (error code text ts)
unfolding Post error
Post-error Q n code text ts = tt

pub Post-bind :
    {A B : Type 0} (Q : A → Type 0) (m : ℕ) (R : B → Type 0) (n : ℕ) (f : A → P B)
    (r : Run ParserError (A × List Token))
    → Post Q m r
    → ((a : A) (ts : List Token) → Q a → length ts ≤ m → Post R n (f a ts))
    → Post R n (followed f r)
unfolding Post
Post-bind Q m R n f (ok (a, ts)) h g = g a ts h.0 h.1
Post-bind Q m R n f (err e) h g = tt
Post-bind Q m R n f stuck h g = absurd h

pub Post-le :
    {A : Type 0} (Q : A → Type 0) (m n : ℕ) (r : Run ParserError (A × List Token))
    → m ≤ n
    → Post Q m r
    → Post Q n r
unfolding Post
Post-le Q m n (ok (a, ts)) l h = (h.0, omega arith)
Post-le Q m n (err e) l h = tt
Post-le Q m n stuck l h = h

pub behind-le : (ts : List Token) → length (behind ts) ≤ length ts
unfolding behind
behind-le [] = omega arith
behind-le (t ∷ ts) = ground arith

-- A token of another type than Eof is left behind.
pub behind-lt :
    (k : TokenType) (ts : List Token)
    → is k end_token ≡ false
    → check k ts ≡ true
    → length (behind ts) < length ts
unfolding behind check peek is
behind-lt k [] e h = cc
behind-lt k (t ∷ ts) e h = ground (arith, e, h)

module _ {B : Type 0} (R : B → Type 0) (n : ℕ) (k : TokenType) (ts : List Token) where
  pub matches-then :
      (f : Bool → P B)
      → is k end_token ≡ false
      → ((rest : List Token) → length rest < length ts → Post R n (f true rest))
      → Post R n (f false ts)
      → Post R n (followed f (matches k ts))
  unfolding matches
  matches-then f e g h = elim (Bool-cases (check k ts)) [
    | inl c ↦ rw c (g (behind ts) (behind-lt k ts e c))
    | inr c ↦ rw c h
  ]

  pub checks-then :
      (f : Bool → P B)
      → (check k ts ≡ true → Post R n (f true ts))
      → (check k ts ≡ false → Post R n (f false ts))
      → Post R n (followed f (checks k ts))
  unfolding checks
  checks-then f g h = elim (Bool-cases (check k ts)) [ inl c ↦ rw c (g c) | inr c ↦ rw c (h c) ]

  pub expect-then :
      (code : ParserErrc) (text : ParserText) (f : Unit {0} → P B)
      → is k end_token ≡ false
      → ((rest : List Token) → length rest < length ts → Post R n (f tt rest))
      → Post R n (followed f (expect k code text ts))
  unfolding expect matches error Post
  expect-then code text f e g = elim (Bool-cases (check k ts)) [
    | inl c ↦ rw c (g (behind ts) (behind-lt k ts e c))
    | inr c ↦ rw c tt
  ]

  pub expect_value-then :
      (code : ParserErrc) (text : ParserText) (f : List ℕ → P B)
      → is k end_token ≡ false
      → ((v : List ℕ) (rest : List Token) → length rest < length ts → Post R n (f v rest))
      → Post R n (followed f (expect_value k code text ts))
  unfolding expect_value checks advance error Post
  expect_value-then code text f e g = elim (Bool-cases (check k ts)) [
    | inl c ↦ rw c (g (peek ts).value (behind ts) (behind-lt k ts e c))
    | inr c ↦ rw c tt
  ]
