-- ===== src/Sml/Parser/EndsStatements.antt =====
-- The rules for statements of src/sml/parser.cpp keep the Eof token that is ahead.
use secs_lib.Common.{ℕ, Bool, not, List, [], Option, none, some, ◌^◌, ◌-◌, ltb}
use secs_lib.Common.Int.{ℤ, pos, negsuc}
use secs_lib.Sml.Token.{TokenType, Token, eof, index_of}
use secs_lib.Sml.Token
use secs_lib.Sml.Ast.{TemplateItem}
use secs_lib.Sml.Parser.{has_eof}
use secs_lib.Sml.Parser.Items.{item_has_var}
use secs_lib.Sml.Number.{parse_uint64_literal, parse_int64_literal, parse_sf_string}
use secs_lib.Sml.Parser.Statements.{
  checked_index, parse_index, no_placeholder, checked_sf, checked_interval, parse_sf_token,
  parse_named, parse_heading, parse_expected, parse_condition, parse_if_rule, parse_every_rule,
  parse_message_item, message_end, parse_message_def, parse_statement,
}
use secs_lib.Sml.Parser.Ends.{
  Kept, Stays, Stays-bind, Stays-pure, Stays-if, Stays-error, matches-Stays, checks-Stays,
  advance-Stays, expect-Stays, expect_value-Stays, parse_item-Stays,
}

checked_index-Stays : (o : Option ℕ) → Stays (checked_index o)
unfolding checked_index
checked_index-Stays none = Stays-error _ _ _
checked_index-Stays (some n) = Stays-if (ltb n 1) _ _ (Stays-error _ _ _) (Stays-pure n)

parse_index-Stays : Stays parse_index
unfolding parse_index
parse_index-Stays = Stays-bind _ _ (matches-Stays Token.l_paren) λ found.
    Stays-if (not found) _ _ (Stays-pure _) (
      Stays-bind _ _ (expect_value-Stays Token.integer _ _) λ text.
        Stays-bind _ _ (checked_index-Stays (parse_uint64_literal text))
          λ n. Stays-bind _ _ (expect-Stays Token.r_paren _ _) λ u. Stays-pure _)

no_placeholder-Stays : (item : TemplateItem) → Stays (no_placeholder item)
unfolding no_placeholder
no_placeholder-Stays item = Stays-if (item_has_var item) _ _ (Stays-error _ _ _) (Stays-pure tt)

checked_sf-Stays : (text : List ℕ) (o : Option (ℕ × ℕ)) → Stays (checked_sf text o)
unfolding checked_sf
checked_sf-Stays text none = Stays-error _ _ _
checked_sf-Stays text (some sf) = Stays-pure sf

checked_interval-Stays : (o : Option ℤ) → Stays (checked_interval o)
unfolding checked_interval
checked_interval-Stays none = Stays-error _ _ _
checked_interval-Stays (some (negsuc n)) = Stays-error _ _ _
checked_interval-Stays (some (pos n)) =
    Stays-if (ltb (2 ^ 32 - 1) n) _ _ (Stays-error _ _ _) (Stays-pure n)

parse_sf_token-Stays : Stays parse_sf_token
unfolding parse_sf_token
parse_sf_token-Stays = Stays-bind _ _ (checks-Stays Token.identifier) λ is_name.
    Stays-if is_name _ _ (Stays-bind _ _ advance-Stays λ t. Stays-pure t.value)
      (expect_value-Stays Token.string _ _)

parse_named-Stays : Stays parse_named
unfolding parse_named
parse_named-Stays = Stays-bind _ _ advance-Stays λ first.
    Stays-bind _ _ (matches-Stays Token.colon) λ named.
      Stays-if named _ _
        (Stays-bind _ _ parse_sf_token-Stays λ text. Stays-pure (first.value, text))
        (Stays-pure ([], first.value))

parse_heading-Stays : Stays parse_heading
unfolding parse_heading
parse_heading-Stays = Stays-bind _ _ (checks-Stays Token.identifier) λ is_name.
    Stays-bind _ _ (checks-Stays Token.l_angle) λ is_item.
      Stays-if is_name _ _ parse_named-Stays
        (Stays-if is_item _ _ (Stays-pure ([], [])) (Stays-error _ _ _))

module _ (strtod : List ℕ → ℕ) (narrow : ℕ → ℕ) (fuel : ℕ) where
  parse_expected-Stays : Stays (parse_expected strtod narrow fuel)
  unfolding parse_expected
  parse_expected-Stays = Stays-bind _ _ (matches-Stays Token.equals) λ found.
      Stays-if (not found) _ _ (Stays-pure none) (
        Stays-bind _ _ (parse_item-Stays strtod narrow fuel)
          λ item. Stays-bind _ _ (no_placeholder-Stays item) λ u. Stays-pure (some item))

  parse_condition-Stays : Stays (parse_condition strtod narrow fuel)
  unfolding parse_condition
  parse_condition-Stays = Stays-bind _ _ (expect_value-Stays Token.identifier _ _) λ name.
      Stays-bind _ _ parse_index-Stays
        λ index. Stays-bind _ _ parse_expected-Stays λ expected. Stays-pure _

  parse_if_rule-Stays : Stays (parse_if_rule strtod narrow fuel)
  unfolding parse_if_rule
  parse_if_rule-Stays = Stays-bind _ _ (expect-Stays Token.l_paren _ _) λ u.
      Stays-bind _ _ parse_condition-Stays λ condition.
        Stays-bind _ _ (expect-Stays Token.r_paren _ _) λ v.
          Stays-bind _ _ (expect_value-Stays Token.identifier _ _)
            λ name. Stays-bind _ _ (expect-Stays Token.dot _ _) λ w. Stays-pure _

  parse_every_rule-Stays : Stays (parse_every_rule strtod narrow fuel)
  unfolding parse_every_rule
  parse_every_rule-Stays = Stays-bind _ _ (expect_value-Stays Token.integer _ _) λ text.
      Stays-bind _ _ (checked_interval-Stays (parse_int64_literal text)) λ seconds.
        Stays-bind _ _ (expect-Stays Token.kw_send _ _) λ u.
          Stays-bind _ _ (expect_value-Stays Token.identifier _ _)
            λ name. Stays-bind _ _ (expect-Stays Token.dot _ _) λ v. Stays-pure _

  parse_message_item-Stays : Stays (parse_message_item strtod narrow fuel)
  unfolding parse_message_item
  parse_message_item-Stays =
      Stays-bind _ _ (checks-Stays Token.l_angle)
        λ found. Stays-if found _ _ (parse_item-Stays strtod narrow fuel) (Stays-pure _)

  message_end-Stays :
      (heading : List ℕ × List ℕ) (sf : ℕ × ℕ) (w : Bool)
      → Stays (message_end strtod narrow fuel heading sf w)
  unfolding message_end
  message_end-Stays heading sf w =
      Stays-bind _ _ parse_message_item-Stays
        λ item. Stays-bind _ _ (expect-Stays Token.dot _ _) λ u. Stays-pure _

  parse_message_def-Stays : Stays (parse_message_def strtod narrow fuel)
  unfolding parse_message_def
  parse_message_def-Stays = Stays-bind _ _ parse_heading-Stays λ heading.
      Stays-bind _ _ (checked_sf-Stays heading.1 (parse_sf_string heading.1))
        λ sf. Stays-bind _ _ (matches-Stays Token.kw_w) λ w. message_end-Stays heading sf w

  parse_statement-Stays : Stays (parse_statement strtod narrow fuel)
  unfolding parse_statement
  parse_statement-Stays = Stays-bind _ _ (matches-Stays Token.kw_if) λ is_if.
      Stays-if is_if _ _ parse_if_rule-Stays (
        Stays-bind _ _ (matches-Stays Token.kw_every)
          λ is_every. Stays-if is_every _ _ parse_every_rule-Stays parse_message_def-Stays)

  pub parse_statement-Kept :
      (ts : List Token) → Kept (has_eof ts) (parse_statement strtod narrow fuel ts)
  unfolding Stays
  parse_statement-Kept = parse_statement-Stays
