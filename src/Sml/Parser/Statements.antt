-- ===== src/Sml/Parser/Statements.antt =====
-- The statements of a document and `Parser::parse`, of src/sml/parser.cpp.
use secs_lib.Common.{
  ℕ, zero, suc, ◌^◌, ◌-◌, Bool, not, List, [], ◌∷◌, ◌++◌, Option, none, some, ltb, if◌then◌else◌,
  length,
}
use secs_lib.Common.Int.{ℤ, pos, negsuc}
use secs_lib.Common.Run.{Run, stuck, ok, err}
use secs_lib.Sml.Token.{
  identifier, string, integer, kw_if, kw_every, kw_send, kw_w, colon, dot, l_angle, l_paren,
  r_paren, equals, Token,
}
use secs_lib.Sml.Ast.{
  TemplateItem, list, nil, MessageDef, Condition, ConditionRule, TimerRule, Document,
}
use secs_lib.Sml.Number.{parse_uint64_literal, parse_int64_literal, parse_sf_string}
use secs_lib.Sml.Parser.{
  unexpected_token, expected_number, invalid_stream_function, invalid_condition, message_text,
  after_colon_text, end_of_message_text, after_if_text, after_condition_text, response_text,
  end_of_if_text, interval_text, interval_range_text, send_text, message_name_text,
  end_of_every_text, condition_name_text, index_text, index_range_text, index_zero_text,
  after_index_text, placeholder_text, format_text, ParserError, ParseResult, P, pure, ◌>>=◌, ◌>>◌,
  at_end, has_eof, matches, checks, advance, error, expect, expect_value,
}
use secs_lib.Sml.Parser.Items.{parse_item, item_has_var}

-- What a statement adds to the document.
pub data Statement : Type 0 where
  message : MessageDef → Statement
  condition_rule : ConditionRule → Statement
  timer_rule : TimerRule → Statement

unfoldable pub with_statement : Statement → Document → Document
with_statement (message m) d = record d { messages = d.messages ++ m ∷ [] }
with_statement (condition_rule r) d = record d { conditions = d.conditions ++ r ∷ [] }
with_statement (timer_rule r) d = record d { timers = d.timers ++ r ∷ [] }

-- The index, and the token behind it is where an error is reported.
unfoldable pub checked_index : Option ℕ → P ℕ
checked_index none = error expected_number index_range_text
checked_index (some n) = if ltb n 1 then error invalid_condition index_zero_text else pure n

unfoldable pub parse_index : P (Option ℕ)
parse_index = do
  found ← matches l_paren
  if not found then pure none else (do
    text ← expect_value integer expected_number index_text
    n ← checked_index (parse_uint64_literal text)
    expect r_paren invalid_condition after_index_text
    pure (some n))

unfoldable pub no_placeholder : TemplateItem → P (Unit {0})
no_placeholder item =
    if item_has_var item then error invalid_condition placeholder_text else pure tt

-- The stream and the function of the text, or an error at the next token.
unfoldable pub checked_sf : List ℕ → Option (ℕ × ℕ) → P (ℕ × ℕ)
checked_sf text none = error invalid_stream_function (format_text text)
checked_sf text (some sf) = pure sf

-- The interval of a timer, in the range of `std::uint32_t`.
unfoldable pub checked_interval : Option ℤ → P ℕ
checked_interval none = error expected_number interval_range_text
checked_interval (some (negsuc n)) = error expected_number interval_range_text
checked_interval (some (pos n)) =
    if ltb (2 ^ 32 - 1) n then error expected_number interval_range_text else pure n

-- The name behind a colon: an identifier or a string.
unfoldable pub parse_sf_token : P (List ℕ)
parse_sf_token = do
  is_name ← checks identifier
  if is_name
      then (advance >>= λ t. pure t.value)
      else expect_value string unexpected_token after_colon_text

-- The name of the message, which may be missing, and the text of its stream and function.
unfoldable pub parse_named : P (List ℕ × List ℕ)
parse_named = do
  first ← advance
  named ← matches colon
  if named then (parse_sf_token >>= λ text. pure (first.value, text)) else pure ([], first.value)

unfoldable pub parse_heading : P (List ℕ × List ℕ)
parse_heading = do
  is_name ← checks identifier
  is_item ← checks l_angle
  if is_name
      then parse_named
      else (if is_item then pure ([], []) else error unexpected_token message_text)

module _ (strtod : List ℕ → ℕ) (narrow : ℕ → ℕ) (fuel : ℕ) where
  unfoldable pub parse_expected : P (Option TemplateItem)
  parse_expected = do
    found ← matches equals
    if not found
        then pure none
        else (do item ← parse_item strtod narrow fuel; no_placeholder item; pure (some item))

  unfoldable pub parse_condition : P Condition
  parse_condition = do
    name ← expect_value identifier invalid_condition condition_name_text
    index ← parse_index
    expected ← parse_expected
    pure (record { message_name = name; index = index; expected = expected })

  unfoldable pub parse_if_rule : P Statement
  parse_if_rule = do
    expect l_paren unexpected_token after_if_text
    condition ← parse_condition
    expect r_paren unexpected_token after_condition_text
    name ← expect_value identifier unexpected_token response_text
    expect dot unexpected_token end_of_if_text
    pure (condition_rule (record { condition = condition; response_name = name }))

  unfoldable pub parse_every_rule : P Statement
  parse_every_rule = do
    text ← expect_value integer expected_number interval_text
    seconds ← checked_interval (parse_int64_literal text)
    expect kw_send unexpected_token send_text
    name ← expect_value identifier unexpected_token message_name_text
    expect dot unexpected_token end_of_every_text
    pure (timer_rule (record { interval_seconds = seconds; message_name = name }))

  unfoldable pub parse_message_item : P TemplateItem
  parse_message_item = do
    found ← checks l_angle
    if found then parse_item strtod narrow fuel else pure (list nil)

  -- What follows the stream and the function.
  unfoldable pub message_end : List ℕ × List ℕ → ℕ × ℕ → Bool → P Statement
  message_end heading sf w = do
    item ← parse_message_item
    expect dot unexpected_token end_of_message_text
    pure (
        message
          (record { name = heading.0; stream = sf.0; function = sf.1; w_bit = w; item = item }))

  unfoldable pub parse_message_def : P Statement
  parse_message_def = do
    heading ← parse_heading
    sf ← checked_sf heading.1 (parse_sf_string heading.1)
    w ← matches kw_w
    message_end heading sf w

  unfoldable pub parse_statement : P Statement
  parse_statement = do
    is_if ← matches kw_if
    if is_if then parse_if_rule else (do
      is_every ← matches kw_every
      if is_every then parse_every_rule else parse_message_def)

-- The loop of `parse` on fuel, `none` where that runs out: `next` goes on behind a statement.
unfoldable pub statement_read :
    (Document → List Token → Option ParseResult)
    → Document
    → Run ParserError (Statement × List Token)
    → Option ParseResult
statement_read next d (ok (s, ts)) = next (with_statement s d) ts
statement_read next d (err e) = some (record { document = d; failure = some e })
statement_read next d stuck = none

abbrev pub no_statements : Document
no_statements = record { messages = []; conditions = []; timers = [] }

module _ (strtod : List ℕ → ℕ) (narrow : ℕ → ℕ) where
  unfoldable pub statements_from : ℕ → Document → List Token → Option ParseResult
  statements_from zero d ts = none
  statements_from (suc fuel) d ts =
      if at_end ts
      then some (record { document = d; failure = none })
      else statement_read (statements_from fuel) d
          (parse_statement strtod narrow (suc (length ts)) ts)

  -- The code reads past the end of tokens among which no Eof is: these have no result.
  unfoldable pub parse : List Token → Option ParseResult
  parse ts =
      let read = statements_from (suc (length ts)) no_statements ts in
      if has_eof ts then read else none
