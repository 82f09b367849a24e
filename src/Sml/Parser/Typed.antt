-- ===== src/Sml/Parser/Typed.antt =====
-- The items that the parser of src/sml/parser.cpp makes: every value is one of its type.
use secs_lib.Common.{
  ℕ, ◌+◌, ◌-◌, ◌^◌, ◌≡◌, ◌≤◌, refl, Bool, Bool-cases, inl, inr, ◌||◌, List, [], ◌∷◌, Option, none,
  some, arith, length, All,
}
use secs_lib.Common.Int.{ℤ, pos, negsuc, IsSigned}
use secs_lib.Common.Run.{Run, ok, err, stuck}
use secs_lib.Sml.Token.{TokenType, identifier, string, eof, l_bracket, r_bracket, index_of, Token}
use secs_lib.Sml.Ast.{
  ValueExpr, value, var, TemplateItem, list, ascii, binary, boolean, i1, i2, i4, i8, u1, u2, u4, u8,
  f4, f8, TemplateItems, nil, cons,
}
use secs_lib.Sml.Number.{parse_uint64_literal, parse_int64_literal}
use secs_lib.Sml.Parser.{
  ParserError, peek, is, check, behind, parse_values, with_value, with_var, up_to, is_between,
  within, unsigned, signed, parse_ascii, skip_size, parse_size, matches, expect, ParserErrc,
  ParserText, unexpected_token, rbracket_text, advance, expected_number, value_range_text,
}
use secs_lib.Sml.Parser.Items.{parse_array}
use secs_lib.Sml.Parser.Post.{
  Post, Any, Post-ok, Post-error, Post-bind, Post-le, behind-le, matches-then, checks-then,
}

-- A value has the property, a variable may stand for any.
unfoldable pub IsValue : {A : Type 0} → (A → Type 0) → ValueExpr A → Type 0
IsValue Q (value a) = Q a
IsValue Q (var name) = Unit

abbrev pub IsUpTo : ℕ → ℕ → Type 0
IsUpTo limit n = n ≤ limit

unfoldable mutual
  pub IsTyped : TemplateItem → Type 0
  IsTyped (list xs) = AreTyped xs
  IsTyped (ascii v) = Unit
  IsTyped (binary vs) = All (IsValue (IsUpTo 0xff)) vs
  IsTyped (boolean vs) = Unit
  IsTyped (i1 vs) = All (IsValue (IsSigned (2 ^ 8))) vs
  IsTyped (i2 vs) = All (IsValue (IsSigned (2 ^ 16))) vs
  IsTyped (i4 vs) = All (IsValue (IsSigned (2 ^ 32))) vs
  IsTyped (i8 vs) = All (IsValue (IsSigned (2 ^ 64))) vs
  IsTyped (u1 vs) = All (IsValue (IsUpTo (2 ^ 8 - 1))) vs
  IsTyped (u2 vs) = All (IsValue (IsUpTo (2 ^ 16 - 1))) vs
  IsTyped (u4 vs) = All (IsValue (IsUpTo (2 ^ 32 - 1))) vs
  IsTyped (u8 vs) = All (IsValue (IsUpTo (2 ^ 64 - 1))) vs
  IsTyped (f4 vs) = Unit
  IsTyped (f8 vs) = Unit

  pub AreTyped : TemplateItems → Type 0
  AreTyped nil = Unit
  AreTyped (cons x xs) = IsTyped x × AreTyped xs

up_to-le : (limit n : ℕ) (o : Option ℕ) → up_to limit o ≡ some n → n ≤ limit
unfolding up_to
up_to-le limit n none e = cc
up_to-le limit n (some k) e = ground (arith, e)

within-IsSigned :
    (half : ℕ) (x : ℤ) (o : Option ℤ) → within half o ≡ some x → IsSigned (half + half) x
unfolding within is_between
within-IsSigned half x none e = cc
within-IsSigned half (pos n) (some (pos k)) e = ground (arith, e)
within-IsSigned half (negsuc n) (some (negsuc k)) e = ground (arith, e)
within-IsSigned half (pos n) (some (negsuc k)) e = ground (arith, e)
within-IsSigned half (negsuc n) (some (pos k)) e = ground (arith, e)

-- What `convert` makes of a text has the property.
abbrev pub Converts : {A : Type 0} → (List ℕ → Option A) → (A → Type 0) → Type 0
Converts {A} convert Q = (text : List ℕ) (a : A) → convert text ≡ some a → Q a

module _ {A : Type 0} (Q : A → Type 0) (accepts : Token → Bool) (convert : List ℕ → Option A) where
  with_value-Post :
      (n : ℕ) (o : Option A) (ts : List Token)
      (r : Run ParserError (List (ValueExpr A) × List Token))
      → ((a : A) → o ≡ some a → Q a)
      → Post (All (IsValue Q)) n r
      → Post (All (IsValue Q)) n (with_value accepts convert o ts r)
  unfolding with_value Post IsValue
  with_value-Post n (some a) ts (ok (vs, rest)) c h = ((c a refl, h.0), h.1)
  with_value-Post n (some a) ts (err e) c h = tt
  with_value-Post n (some a) ts stuck c h = h
  with_value-Post n none ts r c h =
      Post-error (All (IsValue Q)) n expected_number value_range_text ts

  with_var-Post :
      (n : ℕ) (name : List ℕ) (r : Run ParserError (List (ValueExpr A) × List Token))
      → Post (All (IsValue Q)) n r
      → Post (All (IsValue Q)) n (with_var accepts convert name r)
  unfolding with_var Post IsValue
  with_var-Post n name (ok (vs, rest)) h = ((tt, h.0), h.1)
  with_var-Post n name (err e) h = tt
  with_var-Post n name stuck h = h

  parse_values-Post :
      Converts convert Q
      → (ts : List Token) → Post (All (IsValue Q)) (length ts) (parse_values accepts convert ts)
  unfolding parse_values
  parse_values-Post c [] = Post-ok (All (IsValue Q)) 0 [] [] tt (omega arith)
  parse_values-Post c (t ∷ ts) =
      let n = length (t ∷ ts) in
      let rest =
        Post-le (All (IsValue Q)) (length ts) n (parse_values accepts convert ts) (omega arith)
          (parse_values-Post c ts) in
      elim (Bool-cases (is identifier t)) [
        | inl i ↦ rw i (with_var-Post n t.value (parse_values accepts convert ts) rest)
        | inr i ↦ elim (Bool-cases (accepts t)) [
          | inl a ↦
              rw (i, a)
                (with_value-Post n (convert t.value) ts (parse_values accepts convert ts)
                  (c t.value) rest)
          | inr a ↦ rw (i, a) (Post-ok (All (IsValue Q)) n [] (t ∷ ts) tt (omega arith))
        ]
      ]

  pub parse_array-Post :
      (wrap : List (ValueExpr A) → TemplateItem) (ts : List Token)
      → Converts convert Q
      → ((vs : List (ValueExpr A)) → All (IsValue Q) vs → IsTyped (wrap vs))
      → Post IsTyped (length ts) (parse_array accepts convert wrap ts)
  unfolding parse_array advance
  parse_array-Post wrap ts c typed =
      Post-bind (All (IsValue Q)) (length (behind ts)) IsTyped (length ts) _
        (parse_values accepts convert (behind ts)) (parse_values-Post c (behind ts))
        λ vs rest h l.
          Post-ok IsTyped (length ts) (wrap vs) rest (typed vs h) (omega (arith, behind-le ts))

pub unsigned-Converts : (limit : ℕ) → Converts (unsigned limit) (IsUpTo limit)
unfolding unsigned
unsigned-Converts limit text n e = up_to-le limit n (parse_uint64_literal text) e

pub signed-Converts : (half : ℕ) → Converts (signed half) (IsSigned (half + half))
unfolding signed
signed-Converts half text x e = within-IsSigned half x (parse_int64_literal text) e

pub Any-Converts : {A : Type 0} (convert : List ℕ → Option A) → Converts convert Any
Any-Converts convert text a e = tt

pub parse_ascii-Post : (ts : List Token) → Post IsTyped (length ts) (parse_ascii ts)
unfolding parse_ascii advance IsTyped
parse_ascii-Post ts =
    let n = length ts in
    let taken : (v : ValueExpr (List ℕ)) → Post IsTyped n (ok (ascii v, behind ts)) =
      λ v. Post-ok IsTyped n (ascii v) (behind ts) tt (behind-le ts) in
    checks-then IsTyped n string ts _
      (λ s.
        checks-then IsTyped n identifier ts _ (λ i. taken (value (peek ts).value))
          (λ i. taken (value (peek ts).value)))
      (λ s.
        checks-then IsTyped n identifier ts _ (λ i. taken (var (peek ts).value))
          (λ i. Post-ok IsTyped n (ascii (value [])) ts tt (omega arith)))

skip_size-Post : (ts : List Token) → Post Any (length ts) (skip_size ts)
unfolding skip_size
skip_size-Post [] = Post-ok Any 0 tt [] tt (omega arith)
skip_size-Post (t ∷ ts) = elim (Bool-cases (is r_bracket t || is eof t)) [
  | inl e ↦ rw e (Post-ok Any (length (t ∷ ts)) tt (t ∷ ts) tt (omega arith))
  | inr e ↦
      rw e
        (Post-le Any (length ts) (length (t ∷ ts)) (skip_size ts) (omega arith) (skip_size-Post ts))
]

-- `expect` by itself.
expect-Post :
    (k : TokenType) (code : ParserErrc) (text : ParserText) (ts : List Token)
    → Post Any (length ts) (expect k code text ts)
unfolding expect matches
expect-Post k code text ts = elim (Bool-cases (check k ts)) [
  | inl c ↦ rw c (Post-ok Any (length ts) tt (behind ts) tt (behind-le ts))
  | inr c ↦ rw c (Post-error Any (length ts) code text ts)
]

pub parse_size-Post : (ts : List Token) → Post Any (length ts) (parse_size ts)
unfolding parse_size is index_of
parse_size-Post ts =
    matches-then Any (length ts) l_bracket ts _ refl
      (λ rest l.
        Post-bind Any (length rest) Any (length ts) _ (skip_size rest) (skip_size-Post rest)
          λ u more a m.
            Post-le Any (length more) (length ts)
              (expect r_bracket unexpected_token rbracket_text more) (omega arith)
              (expect-Post r_bracket unexpected_token rbracket_text more))
      (Post-ok Any (length ts) tt ts tt (omega arith))
