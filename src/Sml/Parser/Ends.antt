-- ===== src/Sml/Parser/Ends.antt =====
-- No method of the parser of src/sml/parser.cpp takes the Eof token away that is ahead.
use secs_lib.Common.{
  ℕ, zero, suc, ◌≡◌, refl, sym, subst, Bool, true, false, ◌||◌, either_branch, Bool-cases, inl, inr,
  List, [], ◌∷◌, Option, none, some, arith, if◌then◌else◌,
}
use secs_lib.Common.Run.{Run, ok, err, stuck}
use secs_lib.Sml.Token.{TokenType, Token, eof, index_of}
use secs_lib.Sml.Token
use secs_lib.Sml.Ast.{ValueExpr, TemplateItem, TemplateItems}
use secs_lib.Sml.Parser.{
  ParserErrc, ParserText, ParserError, P, pure, followed, ◌>>=◌, peek, is, check, has_eof, behind,
  matches, error, checks, expect, expect_value, advance, with_value, with_var, parse_values,
  is_integer, is_number, parse_ascii, skip_size, parse_size,
}
use secs_lib.Sml.Parser.Items.{
  parse_array, parse_list, parse_body, body_here, parse_item_with, parse_items, parse_item,
}

-- An Eof is ahead of what is left as it was before.
unfoldable pub Kept : {A : Type 0} → Bool → Run ParserError (A × List Token) → Type 0
Kept b (ok (a, ts)) = has_eof ts ≡ b
Kept b (err e) = Unit
Kept b stuck = Unit

unfoldable pub Stays : {A : Type 0} → P A → Type 0
Stays m = (ts : List Token) → Kept (has_eof ts) (m ts)

has_eof-behind : (ts : List Token) → has_eof (behind ts) ≡ has_eof ts
unfolding has_eof behind
has_eof-behind [] = refl
has_eof-behind (t ∷ ts) = ground arith

module _ {A B : Type 0} where
  Kept-followed :
      (b : Bool) (f : A → P B) (r : Run ParserError (A × List Token))
      → Kept b r
      → ((a : A) → Stays (f a))
      → Kept b (followed f r)
  unfolding Kept Stays
  Kept-followed b f (ok (a, ts)) h g = subst (λ c. Kept c (f a ts)) h (g a ts)
  Kept-followed b f (err e) h g = tt
  Kept-followed b f stuck h g = tt

  pub Stays-bind : (m : P A) (f : A → P B) → Stays m → ((a : A) → Stays (f a)) → Stays (m >>= f)
  unfolding Stays
  Stays-bind m f h g ts = Kept-followed (has_eof ts) f (m ts) (h ts) g

pub Stays-error :
    (A : Type 0) (code : ParserErrc) (text : ParserText) → Stays {A = A} (error code text)
unfolding Stays Kept error
Stays-error A code text ts = tt

module _ {A : Type 0} where
  pub Stays-pure : (a : A) → Stays (pure a)
  unfolding Stays Kept
  Stays-pure a ts = refl

  pub Stays-if : (b : Bool) (x y : P A) → Stays x → Stays y → Stays (if b then x else y)
  Stays-if true x y h g = h
  Stays-if false x y h g = g

pub matches-Stays : (k : TokenType) → Stays (matches k)
unfolding Stays Kept matches
matches-Stays k ts = elim (Bool-cases (check k ts)) [
  | inl c ↦ rw c (has_eof-behind ts)
  | inr c ↦ rw c refl
]

pub checks-Stays : (k : TokenType) → Stays (checks k)
unfolding Stays Kept checks
checks-Stays k ts = refl

pub advance-Stays : Stays advance
unfolding Stays Kept advance
advance-Stays ts = has_eof-behind ts

pub expect-Stays :
    (k : TokenType) (code : ParserErrc) (text : ParserText) → Stays (expect k code text)
unfolding expect
expect-Stays k code text =
    Stays-bind _ _ (matches-Stays k)
      λ found. Stays-if found _ _ (Stays-pure tt) (Stays-error _ code text)

pub expect_value-Stays :
    (k : TokenType) (code : ParserErrc) (text : ParserText) → Stays (expect_value k code text)
unfolding expect_value
expect_value-Stays k code text = Stays-bind _ _ (checks-Stays k) λ found.
    Stays-if found _ _ (Stays-bind _ _ advance-Stays λ t. Stays-pure t.value)
      (Stays-error _ code text)

-- Behind a token that is no Eof.
has_eof-next : (t : Token) (ts : List Token) → is eof t ≡ false → has_eof (t ∷ ts) ≡ has_eof ts
unfolding has_eof
has_eof-next t ts e = ground (arith, e)

skip_size-Stays : Stays skip_size
unfolding Stays Kept skip_size
skip_size-Stays [] = refl
skip_size-Stays (t ∷ ts) = elim (Bool-cases (is Token.r_bracket t || is eof t)) [
  | inl e ↦ rw e refl
  | inr e ↦ rw e (
      subst (λ b. Kept b (skip_size ts)) (sym (has_eof-next t ts (ground (arith, e))))
        (skip_size-Stays ts))
]

parse_size-Stays : Stays parse_size
unfolding parse_size
parse_size-Stays = Stays-bind _ _ (matches-Stays Token.l_bracket) λ found.
    Stays-if found _ _ (Stays-bind _ _ skip_size-Stays λ u. expect-Stays Token.r_bracket _ _)
      (Stays-pure tt)

parse_ascii-Stays : Stays parse_ascii
unfolding parse_ascii
parse_ascii-Stays = Stays-bind _ _ (checks-Stays Token.string) λ is_string.
    Stays-bind _ _ (checks-Stays Token.identifier) λ is_name.
      Stays-if is_string _ _ (Stays-bind _ _ advance-Stays λ t. Stays-pure _)
        (Stays-if is_name _ _ (Stays-bind _ _ advance-Stays λ t. Stays-pure _) (Stays-pure _))

identifier-eof : (t : Token) → is Token.identifier t ≡ true → is eof t ≡ false
unfolding is index_of
identifier-eof t h = ground (arith, h)

module _ {A : Type 0} (accepts : Token → Bool) (convert : List ℕ → Option A)
    (no_eof : (t : Token) → accepts t ≡ true → is eof t ≡ false) where
  with_value-Kept :
      (b : Bool) (o : Option A) (ts : List Token)
      (r : Run ParserError (List (ValueExpr A) × List Token))
      → Kept b r
      → Kept b (with_value accepts convert o ts r)
  unfolding Kept with_value error
  with_value-Kept b (some a) ts (ok (vs, rest)) h = h
  with_value-Kept b (some a) ts (err e) h = tt
  with_value-Kept b (some a) ts stuck h = tt
  with_value-Kept b none ts r h = tt

  with_var-Kept :
      (b : Bool) (name : List ℕ) (r : Run ParserError (List (ValueExpr A) × List Token))
      → Kept b r
      → Kept b (with_var accepts convert name r)
  unfolding Kept with_var
  with_var-Kept b name (ok (vs, rest)) h = h
  with_var-Kept b name (err e) h = tt
  with_var-Kept b name stuck h = tt

  parse_values-Stays : Stays (parse_values accepts convert)
  unfolding Stays Kept parse_values
  parse_values-Stays [] = refl
  parse_values-Stays (t ∷ ts) =
      let rest = parse_values accepts convert ts in
      let behind_it : is eof t ≡ false → Kept (has_eof (t ∷ ts)) rest =
        λ e. subst (λ b. Kept b rest) (sym (has_eof-next t ts e)) (parse_values-Stays ts) in
      let Fine : Run ParserError (List (ValueExpr A) × List Token) → Type 0 =
        λ r. Kept (has_eof (t ∷ ts)) r in
      either_branch Fine (is Token.identifier t) _ _
        (λ i. with_var-Kept _ t.value rest (behind_it (identifier-eof t i)))
        λ i.
          either_branch Fine (accepts t) _ _
            (λ a. with_value-Kept _ (convert t.value) ts rest (behind_it (no_eof t a))) λ a. refl

is_integer-eof : (t : Token) → is_integer t ≡ true → is eof t ≡ false
unfolding is_integer is index_of
is_integer-eof t h = ground (arith, h)

is_number-eof : (t : Token) → is_number t ≡ true → is eof t ≡ false
unfolding is_number is index_of
is_number-eof t h = ground (arith, h)

parse_array-Stays :
    {A : Type 0} (accepts : Token → Bool) (convert : List ℕ → Option A)
    (wrap : List (ValueExpr A) → TemplateItem)
    → ((t : Token) → accepts t ≡ true → is eof t ≡ false)
    → Stays (parse_array accepts convert wrap)
unfolding parse_array
parse_array-Stays accepts convert wrap no_eof =
    Stays-bind _ _ advance-Stays
      λ keyword. Stays-bind _ _ (parse_values-Stays accepts convert no_eof) λ vs. Stays-pure _

parse_list-Stays : (items : P TemplateItems) → Stays items → Stays (parse_list items)
unfolding parse_list
parse_list-Stays items h =
    Stays-bind _ _ advance-Stays
      λ keyword. Stays-bind _ _ parse_size-Stays λ u. Stays-bind _ _ h λ xs. Stays-pure _

module _ (strtod : List ℕ → ℕ) (narrow : ℕ → ℕ) where
  parse_body-Stays :
      (items : P TemplateItems) (k : TokenType)
      → Stays items
      → Stays (parse_body strtod narrow items k)
  unfolding parse_body
  parse_body-Stays items Token.kw_l h = parse_list-Stays items h
  parse_body-Stays items Token.kw_a h = Stays-bind _ _ advance-Stays λ keyword. parse_ascii-Stays
  parse_body-Stays items Token.kw_b h = parse_array-Stays is_integer _ _ is_integer-eof
  parse_body-Stays items Token.kw_boolean h = parse_array-Stays is_integer _ _ is_integer-eof
  parse_body-Stays items Token.kw_u1 h = parse_array-Stays is_integer _ _ is_integer-eof
  parse_body-Stays items Token.kw_u2 h = parse_array-Stays is_integer _ _ is_integer-eof
  parse_body-Stays items Token.kw_u4 h = parse_array-Stays is_integer _ _ is_integer-eof
  parse_body-Stays items Token.kw_u8 h = parse_array-Stays is_integer _ _ is_integer-eof
  parse_body-Stays items Token.kw_i1 h = parse_array-Stays is_integer _ _ is_integer-eof
  parse_body-Stays items Token.kw_i2 h = parse_array-Stays is_integer _ _ is_integer-eof
  parse_body-Stays items Token.kw_i4 h = parse_array-Stays is_integer _ _ is_integer-eof
  parse_body-Stays items Token.kw_i8 h = parse_array-Stays is_integer _ _ is_integer-eof
  parse_body-Stays items Token.kw_f4 h = parse_array-Stays is_number _ _ is_number-eof
  parse_body-Stays items Token.kw_f8 h = parse_array-Stays is_number _ _ is_number-eof
  parse_body-Stays items _ h = Stays-error _ _ _

  body_here-Stays : (items : P TemplateItems) → Stays items → Stays (body_here strtod narrow items)
  unfolding body_here Stays
  body_here-Stays items h ts = parse_body-Stays items (peek ts).token_type h ts

  parse_item_with-Stays :
      (items : P TemplateItems) → Stays items → Stays (parse_item_with strtod narrow items)
  unfolding parse_item_with
  parse_item_with-Stays items h = Stays-bind _ _ (expect-Stays Token.l_angle _ _) λ u.
      Stays-bind _ _ (body_here-Stays items h)
        λ item. Stays-bind _ _ (expect-Stays Token.r_angle _ _) λ v. Stays-pure item

  parse_items-Stays : (fuel : ℕ) → Stays (parse_items strtod narrow fuel)
  unfolding parse_items Stays Kept
  parse_items-Stays zero ts = tt
  parse_items-Stays (suc fuel) ts =
      either_branch (Kept (has_eof ts)) (check Token.l_angle ts) _ _
        (λ c.
          Stays-bind _ _
            (parse_item_with-Stays (parse_items strtod narrow fuel) (parse_items-Stays fuel))
            (λ x.
              Stays-bind _ _ (parse_items-Stays fuel) λ xs. Stays-pure (TemplateItems.cons x xs))
            ts)
        λ c. refl

  pub parse_item-Stays : (fuel : ℕ) → Stays (parse_item strtod narrow fuel)
  unfolding parse_item
  parse_item-Stays fuel =
      parse_item_with-Stays (parse_items strtod narrow fuel) (parse_items-Stays fuel)
