-- ===== src/Sml/Parser.antt =====
-- The class `Parser` of include/secs/sml/parser.hpp and src/sml/parser.cpp. The place in the tokens
-- is what is left of them, which ends with the Eof token that a lexer puts there.
-- A method that reports an error returns at once and `parse` stops, so a method gives the first
-- error or its value. `strtod` and the conversion of a double to a float are parameters.
pub mod Items
pub mod Statements
pub mod Post
pub mod Typed
pub mod TypedItems
pub mod Documents
pub mod Rules
pub mod Messages
pub mod Ends
pub mod EndsStatements
pub mod Source
pub mod Returns
mod Tests
use secs_lib.Common.{
  ℕ, zero, suc, ◌+◌, ◌-◌, ◌^◌, Bool, true, false, ◌&&◌, ◌||◌, not, List, [], ◌∷◌, ◌++◌, Option,
  none, some, leb, ltb, ◌==◌, if◌then◌else◌, length,
}
use secs_lib.Common.Int.{ℤ, pos, negsuc}
use secs_lib.Common.Run.{Run, ok, err, stuck}
use secs_lib.Sml.Token.{
  TokenType, identifier, string, integer, float, kw_if, kw_every, kw_send, kw_w, kw_l, kw_a, kw_b,
  kw_boolean, kw_u1, kw_u2, kw_u4, kw_u8, kw_i1, kw_i2, kw_i4, kw_i8, kw_f4, kw_f8, colon, dot,
  l_angle, r_angle, l_paren, r_paren, l_bracket, r_bracket, equals, eof, Token, index_of,
}
use secs_lib.Sml.Ast.{
  ValueExpr, value, var, TemplateItem, list, ascii, binary, boolean, i1, i2, i4, i8, u1, u2, u4, u8,
  f4, f8, TemplateItems, nil, cons, MessageDef, Condition, ConditionRule, TimerRule, Document,
}
use secs_lib.Sml.Number.{parse_uint64_literal, parse_int64_literal, parse_sf_string}

pub data ParserErrc : Type 0 where
  unexpected_token expected_item expected_identifier expected_number invalid_stream_function
        unclosed_item invalid_condition :
      ParserErrc

-- The texts of the errors; `value_range_text` stands for those of a value out of the range of its type.
pub data ParserText : Type 0 where
  message_text after_colon_text end_of_message_text after_if_text after_condition_text response_text
        end_of_if_text :
      ParserText
  interval_text interval_range_text send_text message_name_text end_of_every_text langle_text
        item_type_text rangle_text rbracket_text :
      ParserText
  value_range_text condition_name_text index_text index_range_text index_zero_text after_index_text
        placeholder_text :
      ParserText
  format_text : List ℕ → ParserText

-- The place and the value of the token that an error is reported at are part of it.
pub record ParserError : Type 0 where
  pub ec : ParserErrc
  pub error_line : ℕ
  pub error_column : ℕ
  pub error_message : ParserText
  pub error_token : List ℕ

pub record ParseResult : Type 0 where
  pub document : Document
  pub failure : Option ParserError

-- A method: the value and the tokens left.
abbrev pub P : Type 0 → Type 0
P A = List Token → Run ParserError (A × List Token)

abbrev pub pure : {A : Type 0} → A → P A
pure a ts = ok (a, ts)

abbrev pub followed :
    {A B : Type 0} → (A → P B) → Run ParserError (A × List Token) → Run ParserError (B × List Token)
followed f (ok (a, ts)) = f a ts
followed f (err e) = err e
followed f stuck = stuck

infixl 5 ◌>>=◌ ◌>>◌
abbrev pub ◌>>=◌ : {A B : Type 0} → P A → (A → P B) → P B
◌>>=◌ m f ts = followed f (m ts)

abbrev pub ◌>>◌ : {B : Type 0} → P (Unit {0}) → P B → P B
m >> k = m >>= λ _. k

-- What stands for `peek` of an empty rest, which is out of bounds. `parse` comes to none: it has a
-- result only for tokens with an Eof (Source: a lexer gives one), and no method takes that away (Ends,
-- EndsStatements).
abbrev pub end_token : Token
end_token = record { token_type = eof; value = []; line = 0; column = 0 }

unfoldable pub peek : List Token → Token
peek [] = end_token
peek (t ∷ ts) = t

unfoldable pub is : TokenType → Token → Bool
is k t = index_of t.token_type == index_of k

unfoldable pub check : TokenType → List Token → Bool
check k ts = is k (peek ts)

unfoldable pub at_end : List Token → Bool
at_end ts = check eof ts

unfoldable pub has_eof : List Token → Bool
has_eof [] = false
has_eof (t ∷ ts) = is eof t || has_eof ts

unfoldable pub behind : List Token → List Token
behind [] = []
behind (t ∷ ts) = if is eof t then t ∷ ts else ts

unfoldable pub advance : P Token
advance ts = ok (peek ts, behind ts)

unfoldable pub matches : TokenType → P Bool
matches k ts = if check k ts then ok (true, behind ts) else ok (false, ts)

unfoldable pub error : {A : Type 0} → ParserErrc → ParserText → P A
error code text ts = err (record {
  ec = code;
  error_line = (peek ts).line;
  error_column = (peek ts).column;
  error_message = text;
  error_token = (peek ts).value;
})

unfoldable pub checks : TokenType → P Bool
checks k ts = ok (check k ts, ts)

-- `if (!match(k)) { error(...); return ...; }`.
unfoldable pub expect : TokenType → ParserErrc → ParserText → P (Unit {0})
expect k code text = do found ← matches k; if found then pure tt else error code text

-- The value of the next token, which has to be of this type.
unfoldable pub expect_value : TokenType → ParserErrc → ParserText → P (List ℕ)
expect_value k code text = do
  found ← checks k
  if found then (advance >>= λ t. pure t.value) else error code text

-- The loops over values: variables, and tokens for which `accepts` holds and that convert.
module _ {A : Type 0} (accepts : Token → Bool) (convert : List ℕ → Option A) where
  unfoldable pub with_value :
      Option A
      → List Token
      → Run ParserError (List (ValueExpr A) × List Token)
      → Run ParserError (List (ValueExpr A) × List Token)
  with_value (some a) ts (ok (vs, rest)) = ok (value a ∷ vs, rest)
  with_value (some a) ts (err e) = err e
  with_value (some a) ts stuck = stuck
  with_value none ts r = error expected_number value_range_text ts

  unfoldable pub with_var :
      List ℕ
      → Run ParserError (List (ValueExpr A) × List Token)
      → Run ParserError (List (ValueExpr A) × List Token)
  with_var name (ok (vs, rest)) = ok (var name ∷ vs, rest)
  with_var name (err e) = err e
  with_var name stuck = stuck

  unfoldable pub parse_values : P (List (ValueExpr A))
  parse_values [] = ok ([], [])
  parse_values (t ∷ ts) =
      let rest = parse_values ts in
      if is identifier t
      then with_var t.value rest
      else (if accepts t then with_value (convert t.value) ts rest else ok ([], t ∷ ts))

unfoldable pub is_integer : Token → Bool
is_integer t = is integer t

unfoldable pub is_number : Token → Bool
is_number t = is float t || is integer t

unfoldable pub up_to : ℕ → Option ℕ → Option ℕ
up_to limit none = none
up_to limit (some n) = if ltb limit n then none else some n

-- The range of the signed type with `half` values below 0.
unfoldable pub is_between : ℕ → ℤ → Bool
is_between half (pos n) = ltb n half
is_between half (negsuc n) = ltb n half

unfoldable pub within : ℕ → Option ℤ → Option ℤ
within half none = none
within half (some x) = if is_between half x then some x else none

unfoldable pub non_zero : Option ℤ → Option Bool
non_zero none = none
non_zero (some (pos n)) = some (not (n == 0))
non_zero (some (negsuc n)) = some true

unfoldable pub unsigned : ℕ → List ℕ → Option ℕ
unsigned limit text = up_to limit (parse_uint64_literal text)

unfoldable pub signed : ℕ → List ℕ → Option ℤ
signed half text = within half (parse_int64_literal text)

unfoldable pub truth : List ℕ → Option Bool
truth text = non_zero (parse_int64_literal text)

unfoldable pub parse_ascii : P TemplateItem
parse_ascii = do
  is_string ← checks string
  is_name ← checks identifier
  if is_string
      then (advance >>= λ t. pure (ascii (value t.value)))
      else (if is_name
          then (advance >>= λ t. pure (ascii (var t.value)))
          else pure (ascii (value [])))

-- The size in brackets after L is passed over.
unfoldable pub skip_size : P (Unit {0})
skip_size [] = ok (tt, [])
skip_size (t ∷ ts) =
    let rest = skip_size ts in if is r_bracket t || is eof t then ok (tt, t ∷ ts) else rest

unfoldable pub parse_size : P (Unit {0})
parse_size = do
  found ← matches l_bracket
  if found then (skip_size >> expect r_bracket unexpected_token rbracket_text) else pure tt
