-- ===== src/Sml/Parser/Tests.antt =====
-- Tests of the parser of src/sml/parser.cpp.
use secs_lib.Sml.Parser.Items.{
  parse_array, parse_list, parse_body, body_here, parse_item_with, parse_items, parse_item,
}
use secs_lib.Sml.Parser.{
  peek, has_eof, is, check, at_end, behind, advance, matches, error, checks, expect, expect_value,
  with_value, with_var, parse_values, is_integer, up_to, unsigned, parse_ascii, skip_size,
  parse_size,
}
use secs_lib.Common.{ℕ, ◌≡◌, refl, true, List, [], ◌∷◌, none, some}
use secs_lib.Sml.Token.{
  TokenType, identifier, integer, kw_w, kw_every, kw_send, kw_l, kw_u1, dot, l_angle, r_angle, eof,
  Token, index_of,
}
use secs_lib.Sml.Ast.{value, list, u1, nil, cons}
use secs_lib.Sml.Cursor.{is_digit, is_hex_digit}
use secs_lib.Sml.Number.{
  parse_uint64_literal, parse_int64_literal, parse_sf_string, is_digit_of, digit_value, digits_from,
  starts_with, from_chars, whole_number, is_minus, is_hex_prefixed, signed_magnitude, at_most,
  small_number, is_f, after_char, split_at_f, unquoted, both, sf_numbers, is_s,
}
use secs_lib.Sml.Parser.Statements.{
  parse, with_statement, checked_sf, checked_interval, parse_sf_token, parse_named, parse_heading,
  message_end, parse_every_rule, parse_message_item, parse_message_def, parse_statement,
  statement_read, statements_from,
}
use secs_lib.Sml.Parser.Returns.{Gives, parse-Gives}

-- Stand-ins for `strtod` and the conversion of a double to a float.
abbrev zero_double : List ℕ → ℕ
zero_double text = 0

abbrev low_word : ℕ → ℕ
low_word bits = bits

abbrev token_of : TokenType → List ℕ → Token
token_of k text = record { token_type = k; value = text; line = 1; column = 1 }

-- `S1F3 W <L <U1 7>> .` and `every 5 send m .`.
abbrev statements : List Token
statements =
    token_of identifier (b'S' ∷ b'1' ∷ b'F' ∷ b'3' ∷ [])
    ∷ token_of kw_w []
    ∷ token_of l_angle []
    ∷ token_of kw_l []
    ∷ token_of l_angle []
    ∷ token_of kw_u1 []
    ∷ token_of integer (b'7' ∷ [])
    ∷ token_of r_angle []
    ∷ token_of r_angle []
    ∷ token_of dot []
    ∷ token_of kw_every []
    ∷ token_of integer (b'5' ∷ [])
    ∷ token_of kw_send []
    ∷ token_of identifier (b'm' ∷ [])
    ∷ token_of dot []
    ∷ token_of eof []
    ∷ []

statements_read :
    parse zero_double low_word statements
    ≡ some (record {
      document = record {
        messages =
            record {
              name = [];
              stream = 1;
              function = 3;
              w_bit = true;
              item = list (cons (u1 (value 7 ∷ [])) nil);
            }
            ∷ [];
        conditions = [];
        timers = record { interval_seconds = 5; message_name = b'm' ∷ [] } ∷ [];
      };
      failure = none;
    })
unfolding with_statement checked_sf checked_interval parse_sf_token parse_named parse_heading
    message_end parse_every_rule parse_message_item parse_message_def parse_statement statement_read
    statements_from parse parse_array parse_list parse_body body_here parse_item_with parse_items
    parse_item peek has_eof is check at_end behind advance matches error checks expect expect_value
    with_value with_var parse_values is_integer up_to unsigned parse_ascii skip_size parse_size
    is_digit_of digit_value digits_from starts_with from_chars whole_number is_minus is_hex_prefixed
    parse_uint64_literal signed_magnitude parse_int64_literal at_most small_number is_f after_char
    split_at_f unquoted both sf_numbers is_s parse_sf_string is_digit is_hex_digit index_of
statements_read = refl

-- What follows the number of the function is not looked at.
tail_ignored : parse_sf_string (b'S' ∷ b'1' ∷ b'F' ∷ b'3' ∷ b'x' ∷ []) ≡ some (1, 3)
unfolding is_digit_of digit_value digits_from starts_with from_chars whole_number is_minus
    is_hex_prefixed parse_uint64_literal signed_magnitude parse_int64_literal at_most small_number
    is_f after_char split_at_f unquoted both sf_numbers is_s parse_sf_string is_digit is_hex_digit
tail_ignored = refl

statements-has_eof : has_eof statements ≡ true
unfolding has_eof is index_of
statements-has_eof = refl

-- Without an Eof there is no result.
no_eof : parse zero_double low_word [] ≡ none
unfolding parse has_eof
no_eof = refl

parse-Gives_example : Gives zero_double low_word statements (parse zero_double low_word statements)
parse-Gives_example = parse-Gives zero_double low_word statements statements-has_eof
