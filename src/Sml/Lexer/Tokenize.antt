-- ===== src/Sml/Lexer/Tokenize.antt =====
-- `Lexer::tokenize` of src/sml/lexer.cpp: it ends, and what it gives for a string literal.
use secs_lib.Common.{
  ℕ, zero, suc, ◌-◌, ◌≡◌, ◌≤◌, ◌<◌, refl, ap, ◌∙◌, Bool, Bool-cases, inl, inr, true, false, ◌&&◌,
  List, [], ◌∷◌, Option, none, some, arith, ◌==◌, if◌then◌else◌, length, take, take_all,
}
use secs_lib.Sml.Token.{Token, TokenType, string, eof}
use secs_lib.Sml.Cursor.{
  Cursor, advance, advance_from, passed, skip_from, skip_while, is_no_newline, is_blank,
  skip_whitespace, peek, peek_next,
}
use secs_lib.Sml.Lexer.{
  LexerResult, Comment, no_comment, unterminated, skipped, Scanned, scanned, failed, skip_comment,
  scan_token, scan_mark, scan_other, scan_string, punctuation, token_read, comment_read,
  tokens_from, tokenize, is_at_end, at_start, finished, stopped, with_token, between,
}
use secs_lib.Sml.Lexer.Literal.{quote, escaped, literal, Reads, scan_string-escaped}
use secs_lib.Sml.Lexer.Total.{
  Within, WithinComment, WithinComment-if, WithinComment-le, WithinComment-skipped,
  scan_token-Within, length-skip_first, length-advance, length-skip_while,
  block_comment-WithinComment,
}

-- The loop comes to a result.
abbrev Returns : Option LexerResult → Type 0
Returns o = (r : LexerResult) × (o ≡ some r)

WithinComment-none : (n : ℕ) → WithinComment n no_comment
unfolding WithinComment
WithinComment-none n = tt

no_newline : (c d : ℕ) → (c == b'/' && d == b'/') ≡ true → is_no_newline c ≡ true
unfolding is_no_newline
no_newline c d h = ground (arith, h)

line_comment-WithinComment :
    (c : ℕ) (rest : List ℕ) (line column : ℕ)
    → WithinComment (length rest) (
        if c == b'/' && peek rest == b'/'
        then skipped
            (skip_while is_no_newline (record { rest = c ∷ rest; line = line; column = column }))
        else no_comment)
line_comment-WithinComment c rest line column = elim (Bool-cases (c == b'/' && peek rest == b'/')) [
  | inl e ↦ rw e (
      WithinComment-skipped _ _
        (length-skip_first is_no_newline c rest line column (no_newline c (peek rest) e)))
  | inr e ↦ rw e (WithinComment-none _)
]

skip_comment-WithinComment :
    (c : ℕ) (rest : List ℕ) (line column : ℕ)
    → WithinComment
        (length rest)
        (skip_comment (record { rest = c ∷ rest; line = line; column = column }))
unfolding skip_comment peek peek_next
skip_comment-WithinComment c rest line column =
    let k : Cursor = record { rest = c ∷ rest; line = line; column = column } in
    let inside = advance (advance k) in
    WithinComment-if _ _ _ _
      (WithinComment-le _ _ _ (omega (arith, length-advance k, length-advance (advance k)))
        (block_comment-WithinComment inside.rest inside.line inside.column))
      (line_comment-WithinComment c rest line column)

module _ (n : ℕ) (next : Cursor → Cursor → Option LexerResult)
    (later : (start k : Cursor) → length k.rest ≤ n → Returns (next start k)) where
  with_token-Returns :
      (start : Cursor) (t : TokenType) (value : List ℕ) (k : Cursor)
      → Returns (next start k)
      → Returns (token_read next start (scanned t value k))
  unfolding token_read with_token
  with_token-Returns start t value k (r, e) =
      let token : Token = record {
        token_type = t;
        value = value;
        line = start.line;
        column = start.column;
      } in
      (record { tokens = token ∷ r.tokens; failure = r.failure }, ap (with_token token) e)

  token_read-Returns :
      (start : Cursor) (s : Scanned) → Within n s → Returns (token_read next start s)
  unfolding Within token_read
  token_read-Returns start (failed e text) w = (stopped e text start, refl)
  token_read-Returns start (scanned t value k) w =
      with_token-Returns start t value k (later start k w)

  comment_read-Returns :
      (start k : Cursor) (c : Comment)
      → WithinComment n c
      → Within n (scan_token k)
      → Returns (comment_read next start k c)
  unfolding comment_read WithinComment
  comment_read-Returns start k no_comment w v = token_read-Returns k (scan_token k) v
  comment_read-Returns start k unterminated w v = (_, refl)
  comment_read-Returns start k (skipped k') w v = later start k' w

-- One pass of the loop, at the end or before a character that is not blank.
pass-Returns :
    (fuel : ℕ) (start : Cursor) (xs : List ℕ) (line column : ℕ)
    → length xs ≤ fuel
    → (next : Cursor → Cursor → Option LexerResult)
    → ((start' k : Cursor) → length k.rest < fuel → Returns (next start' k))
    → Returns (
        if is_at_end xs
        then some (finished start (record { rest = xs; line = line; column = column }))
        else comment_read next start
            (record { rest = xs; line = line; column = column })
            (skip_comment (record { rest = xs; line = line; column = column })))
unfolding is_at_end
pass-Returns fuel start [] line column l next later =
    (finished start (record { rest = []; line = line; column = column }), refl)
pass-Returns fuel start (c ∷ rest) line column l next later =
    comment_read-Returns (length rest) next (λ start' k m. later start' k (omega arith)) start
      (record { rest = c ∷ rest; line = line; column = column })
      (skip_comment (record { rest = c ∷ rest; line = line; column = column }))
      (skip_comment-WithinComment c rest line column) (scan_token-Within c rest line column)

tokens_from-Returns :
    (fuel : ℕ) (start k : Cursor) → length k.rest < fuel → Returns (tokens_from fuel start k)
unfolding tokens_from skip_whitespace
tokens_from-Returns zero start k l = absurd (omega arith)
tokens_from-Returns (suc fuel) start k l =
    let here = skip_whitespace k in
    pass-Returns fuel start here.rest here.line here.column
      (omega (arith, length-skip_while is_blank k)) (tokens_from fuel)
      (λ start' k' m. tokens_from-Returns fuel start' k' m)

-- The loop of `tokenize` needs no more passes than the source has characters, and one: every source
-- has a result.
pub tokenize-Returns : (source : List ℕ) → (r : LexerResult) × (tokenize source ≡ some r)
unfolding tokenize
tokenize-Returns source =
    tokens_from-Returns (suc (length source)) (at_start source) (at_start source) (omega arith)

-- A quote begins a string.
quote_read :
    (b : Bool) (fuel : ℕ) (start : Cursor) (body : List ℕ)
    → tokens_from (suc fuel) start (at_start (quote b ∷ body))
      ≡ token_read
          (tokens_from fuel)
          (at_start (quote b ∷ body))
          (scan_string (quote b) [] body 1 2)
unfolding tokens_from skip_whitespace skip_while skip_from is_blank is_at_end skip_comment peek
    comment_read scan_token scan_mark scan_other punctuation advance advance_from passed
quote_read true fuel start body = refl
quote_read false fuel start body = refl

end_read :
    (fuel : ℕ) (start k : Cursor)
    → k.rest ≡ []
    → tokens_from (suc fuel) start k
      ≡ some (record {
        tokens =
            record {
              token_type = eof;
              value = start.rest;
              line = start.line;
              column = start.column;
            }
            ∷ [];
        failure = none;
      })
unfolding tokens_from skip_whitespace skip_while skip_from is_at_end finished between
end_read fuel start k e =
    let whole : take (length start.rest - 0) start.rest ≡ start.rest =
      take_all (length start.rest - 0) start.rest (omega arith) in
    rw (e, whole) refl

-- A string literal, its value escaped, is one token with that value, before the last token.
pub tokenize-literal :
    (b : Bool) (value : List ℕ)
    → tokenize (literal b value)
      ≡ some (record {
        tokens =
            record { token_type = string; value = value; line = 1; column = 1 }
            ∷ record { token_type = eof; value = literal b value; line = 1; column = 1 }
            ∷ [];
        failure = none;
      })
unfolding tokenize literal Reads token_read with_token
tokenize-literal b value =
    let body = escaped b value (quote b ∷ []) in
    let start = at_start (quote b ∷ body) in
    let (k, e, at_end) = scan_string-escaped b value [] 1 2 in
    quote_read b (suc (length body)) start body
    ∙ ap (token_read (tokens_from (suc (length body))) start) e
    ∙ ap (with_token (record { token_type = string; value = value; line = 1; column = 1 }))
        (end_read (length body) start k at_end)
