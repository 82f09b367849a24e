-- ===== src/Sml/Lexer.antt =====
-- The class `Lexer` of include/secs/sml/lexer.hpp and src/sml/lexer.cpp. The place in the source is
-- what is left of it; the character classes are those of the "C" locale.
pub mod Literal
pub mod Total
pub mod Tokenize
mod Tests
use secs_lib.Common.{
  ℕ, zero, suc, ◌+◌, ◌-◌, ◌%◌, ◌^◌, Bool, true, false, ◌&&◌, ◌||◌, not, List, [], ◌∷◌, ◌++◌, Option,
  none, some, leb, ◌==◌, if◌then◌else◌, length, take,
}
use secs_lib.Sml.Token.{
  TokenType, identifier, string, integer, float, kw_if, kw_every, kw_send, kw_w, kw_l, kw_a, kw_b,
  kw_boolean, kw_u1, kw_u2, kw_u4, kw_u8, kw_i1, kw_i2, kw_i4, kw_i8, kw_f4, kw_f8, colon, dot,
  l_angle, r_angle, l_paren, r_paren, l_bracket, r_bracket, equals, eof, Token,
}
use secs_lib.Sml.Cursor.{
  Cursor, is_digit, is_hex_digit, is_alpha, is_word, is_no_newline, peek, peek_next, passed,
  advance, skip_while, skip_whitespace,
}

pub data LexerErrc : Type 0 where
  unterminated_string unterminated_comment invalid_character invalid_hex_literal : LexerErrc

-- The texts of the errors.
pub data ErrorText : Type 0 where
  comment_text equals_text newline_text string_text hex_text : ErrorText
  character_text : ℕ → ErrorText

pub record LexerError : Type 0 where
  pub ec : LexerErrc
  pub error_line : ℕ
  pub error_column : ℕ
  pub error_message : ErrorText

pub record LexerResult : Type 0 where
  pub tokens : List Token
  pub failure : Option LexerError

pub data Comment : Type 0 where
  no_comment unterminated : Comment
  skipped : Cursor → Comment

-- The loop of a block comment, behind its first two characters.
unfoldable pub block_comment : List ℕ → ℕ → ℕ → Comment
block_comment [] line column = unterminated
block_comment (c ∷ []) line column = unterminated
block_comment (c ∷ d ∷ rest) line column =
    let after = passed c (d ∷ rest) line column in
    let more = block_comment (d ∷ rest) after.line after.column in
    if c == b'*' && d == b'/' then skipped (advance after) else more

unfoldable pub skip_comment : Cursor → Comment
skip_comment k =
    if peek k.rest == b'/' && peek_next k.rest == b'*'
    then (let inside = advance (advance k) in block_comment inside.rest inside.line inside.column)
    else (if peek k.rest == b'/' && peek_next k.rest == b'/'
        then skipped (skip_while is_no_newline k)
        else no_comment)

-- A token's type, its value and the place behind it, or the error.
pub data Scanned : Type 0 where
  scanned : TokenType → List ℕ → Cursor → Scanned
  failed : LexerErrc → ErrorText → Scanned

-- `source_.substr(start, current_ - start)`.
unfoldable pub between : Cursor → Cursor → List ℕ
between start k = take (length start.rest - length k.rest) start.rest

abbrev pub keywords : List (List ℕ × TokenType)
keywords =
    (b'i' ∷ b'f' ∷ [], kw_if)
    ∷ (b'e' ∷ b'v' ∷ b'e' ∷ b'r' ∷ b'y' ∷ [], kw_every)
    ∷ (b's' ∷ b'e' ∷ b'n' ∷ b'd' ∷ [], kw_send)
    ∷ (b'W' ∷ [], kw_w)
    ∷ (b'L' ∷ [], kw_l)
    ∷ (b'A' ∷ [], kw_a)
    ∷ (b'B' ∷ [], kw_b)
    ∷ (b'B' ∷ b'o' ∷ b'o' ∷ b'l' ∷ b'e' ∷ b'a' ∷ b'n' ∷ [], kw_boolean)
    ∷ (b'U' ∷ b'1' ∷ [], kw_u1)
    ∷ (b'U' ∷ b'2' ∷ [], kw_u2)
    ∷ (b'U' ∷ b'4' ∷ [], kw_u4)
    ∷ (b'U' ∷ b'8' ∷ [], kw_u8)
    ∷ (b'I' ∷ b'1' ∷ [], kw_i1)
    ∷ (b'I' ∷ b'2' ∷ [], kw_i2)
    ∷ (b'I' ∷ b'4' ∷ [], kw_i4)
    ∷ (b'I' ∷ b'8' ∷ [], kw_i8)
    ∷ (b'F' ∷ b'4' ∷ [], kw_f4)
    ∷ (b'F' ∷ b'8' ∷ [], kw_f8)
    ∷ []

unfoldable pub same_text : List ℕ → List ℕ → Bool
same_text [] [] = true
same_text [] (d ∷ ds) = false
same_text (c ∷ cs) [] = false
same_text (c ∷ cs) (d ∷ ds) = c == d && same_text cs ds

unfoldable pub keyword_type : List ℕ → List (List ℕ × TokenType) → TokenType
keyword_type text [] = identifier
keyword_type text ((word, t) ∷ entries) =
    let rest = keyword_type text entries in if same_text text word then t else rest

unfoldable pub identifier_type : List ℕ → TokenType
identifier_type text = keyword_type text keywords

unfoldable pub scan_identifier : Cursor → Scanned
scan_identifier start =
    let k = skip_while is_word start in
    let text = between start k in scanned (identifier_type text) text k

unfoldable pub unescaped : ℕ → ℕ
unescaped c =
    if c == b'n' then 0x0a else (if c == b't' then 0x09 else (if c == b'r' then 0x0d else c))

-- The loop of `scan_string`: the value so far, and the place.
unfoldable pub scan_string : ℕ → List ℕ → List ℕ → ℕ → ℕ → Scanned
scan_string quote value [] line column = failed unterminated_string string_text
scan_string quote value (c ∷ []) line column =
    if c == quote
    then scanned string value (passed c [] line column)
    else (if c == 0x0a
        then failed unterminated_string newline_text
        else failed unterminated_string string_text)
scan_string quote value (c ∷ d ∷ rest) line column =
    let after = passed c (d ∷ rest) line column in
    let behind = passed d rest after.line after.column in
    let plain = scan_string quote (value ++ c ∷ []) (d ∷ rest) after.line after.column in
    let escape = scan_string quote (value ++ unescaped d ∷ []) rest behind.line behind.column in
    if c == quote
    then scanned string value after
    else (if c == 0x0a
        then failed unterminated_string newline_text
        else (if c == 0x5c && not (d == 0) then escape else plain))

unfoldable pub scan_hex : Cursor → Cursor → Scanned
scan_hex start k =
    if not (is_hex_digit (peek k.rest))
    then failed invalid_hex_literal hex_text
    else (let end = skip_while is_hex_digit k in scanned integer (between start end) end)

unfoldable pub scan_exponent : Cursor → Cursor
scan_exponent k =
    if peek k.rest == b'e' || peek k.rest == b'E'
    then (let signed = advance k in
        skip_while is_digit
          (if peek signed.rest == b'+' || peek signed.rest == b'-' then advance signed else signed))
    else k

unfoldable pub scan_decimal : Cursor → Cursor → Scanned
scan_decimal start k =
    let whole = skip_while is_digit k in
    if peek whole.rest == b'.' && is_digit (peek_next whole.rest)
    then (let end = scan_exponent (skip_while is_digit (advance whole)) in
        scanned float (between start end) end)
    else scanned integer (between start whole) whole

unfoldable pub scan_number : Cursor → Scanned
scan_number start =
    let k = (if peek start.rest == b'-' then advance start else start) in
    if peek k.rest == b'0' && (peek_next k.rest == b'x' || peek_next k.rest == b'X')
    then scan_hex start (advance (advance k))
    else scan_decimal start k

-- The tokens of one character.
unfoldable pub punctuation : ℕ → Option TokenType
punctuation c =
    if c == b':'
    then some colon
    else (if c == b'.'
        then some dot
        else (if c == b'<'
            then some l_angle
            else (if c == b'>'
                then some r_angle
                else (if c == b'('
                    then some l_paren
                    else (if c == b')'
                        then some r_paren
                        else (if c == b'['
                            then some l_bracket
                            else (if c == b']' then some r_bracket else none)))))))

-- The rest of `scan_token`; `start` is the place before the character `c`.
unfoldable pub scan_other : ℕ → Cursor → Cursor → Scanned
scan_other c start k =
    if c == b'='
    then (if peek k.rest == b'='
        then scanned equals (between start (advance k)) (advance k)
        else failed invalid_character equals_text)
    else (if c == 0x22 || c == 0x27
        then scan_string c [] k.rest k.line k.column
        else (if is_alpha c || c == b'_'
            then scan_identifier start
            else (if is_digit c || (c == b'-' && is_digit (peek k.rest))
                then scan_number start
                else failed invalid_character (character_text c))))

unfoldable pub scan_mark : Option TokenType → ℕ → Cursor → Cursor → Scanned
scan_mark (some t) c start k = scanned t (between start k) k
scan_mark none c start k = scan_other c start k

unfoldable pub scan_token : Cursor → Scanned
scan_token start = scan_mark (punctuation (peek start.rest)) (peek start.rest) start (advance start)

unfoldable pub with_token : Token → Option LexerResult → Option LexerResult
with_token t none = none
with_token t (some r) = some (record { tokens = t ∷ r.tokens; failure = r.failure })

unfoldable pub stopped : LexerErrc → ErrorText → Cursor → LexerResult
stopped e text start = record {
  tokens = [];
  failure = some (record {
    ec = e;
    error_line = start.line;
    error_column = start.column;
    error_message = text;
  });
}

-- The last token has the place of the token before it, and the text from there on.
unfoldable pub finished : Cursor → Cursor → LexerResult
finished start k = record {
  tokens =
      record { token_type = eof; value = between start k; line = start.line; column = start.column }
      ∷ [];
  failure = none;
}

-- What follows a token or a comment; `next` goes on with the loop.
unfoldable pub token_read :
    (Cursor → Cursor → Option LexerResult) → Cursor → Scanned → Option LexerResult
token_read next start (failed e text) = some (stopped e text start)
token_read next start (scanned t value k) =
    with_token (record { token_type = t; value = value; line = start.line; column = start.column })
      (next start k)

unfoldable pub comment_read :
    (Cursor → Cursor → Option LexerResult) → Cursor → Cursor → Comment → Option LexerResult
comment_read next start k no_comment = token_read next k (scan_token k)
comment_read next start k unterminated = some (stopped unterminated_comment comment_text k)
comment_read next start k (skipped k') = next start k'

unfoldable pub is_at_end : List ℕ → Bool
is_at_end [] = true
is_at_end (c ∷ rest) = false

-- The loop of `tokenize` on fuel, which is `none` where that runs out; `start` is the place of the
-- last token.
unfoldable pub tokens_from : ℕ → Cursor → Cursor → Option LexerResult
tokens_from zero start k = none
tokens_from (suc fuel) start k =
    let here = skip_whitespace k in
    if is_at_end here.rest
    then some (finished start here)
    else comment_read (tokens_from fuel) start here (skip_comment here)

abbrev pub at_start : List ℕ → Cursor
at_start source = record { rest = source; line = 1; column = 1 }

unfoldable pub tokenize : List ℕ → Option LexerResult
tokenize source = tokens_from (suc (length source)) (at_start source) (at_start source)
