-- ===== src/Sml/Parser/Source.antt =====
-- What `tokenize` of src/sml/lexer.cpp hands to the parser of src/sml/parser.cpp.
use secs_lib.Common.{subst, ℕ, zero, suc, ◌≡◌, either_branch, true, List, Option, none, some, arith}
use secs_lib.Sml.Token.{Token, index_of}
use secs_lib.Sml.Cursor.{Cursor, skip_whitespace}
use secs_lib.Sml.Lexer.{
  LexerResult, Comment, no_comment, unterminated, skipped, Scanned, scanned, failed, skip_comment,
  scan_token, token_read, comment_read, tokens_from, tokenize, is_at_end, at_start, finished,
  stopped, with_token,
}
use secs_lib.Sml.Parser.{has_eof, is}

-- Tokens that were read without an error have an Eof among them.
unfoldable IsEnded : Option LexerResult → Type 0
IsEnded none = Unit
IsEnded (some r) = r.failure ≡ none → has_eof r.tokens ≡ true

none-IsEnded : IsEnded none
unfolding IsEnded
none-IsEnded = tt

with_token-IsEnded : (t : Token) (o : Option LexerResult) → IsEnded o → IsEnded (with_token t o)
unfolding with_token IsEnded has_eof
with_token-IsEnded t none h = tt
with_token-IsEnded t (some r) h = λ e. ground (arith, h e)

module _ (next : Cursor → Cursor → Option LexerResult)
    (later : (start k : Cursor) → IsEnded (next start k)) where
  token_read-IsEnded : (start : Cursor) (s : Scanned) → IsEnded (token_read next start s)
  unfolding token_read stopped IsEnded
  token_read-IsEnded start (failed e text) = λ h. absurd (ground (arith, h))
  token_read-IsEnded start (scanned t value k) = with_token-IsEnded _ (next start k) (later start k)

  comment_read-IsEnded : (start k : Cursor) (c : Comment) → IsEnded (comment_read next start k c)
  unfolding comment_read stopped IsEnded
  comment_read-IsEnded start k no_comment = token_read-IsEnded k (scan_token k)
  comment_read-IsEnded start k unterminated = λ h. absurd (ground (arith, h))
  comment_read-IsEnded start k (skipped k') = later start k'

finished-IsEnded : (start k : Cursor) → IsEnded (some (finished start k))
unfolding finished IsEnded has_eof is index_of
finished-IsEnded start k = λ e. ground arith

tokens_from-IsEnded : (fuel : ℕ) (start k : Cursor) → IsEnded (tokens_from fuel start k)
unfolding tokens_from
tokens_from-IsEnded zero start k = none-IsEnded
tokens_from-IsEnded (suc fuel) start k =
    let here = skip_whitespace k in
    either_branch IsEnded (is_at_end here.rest) _ _ (λ e. finished-IsEnded start here)
      λ e.
        comment_read-IsEnded (tokens_from fuel) (tokens_from-IsEnded fuel) start here
          (skip_comment here)

-- The tokens of a source that `tokenize` reads without an error have an Eof among them, which `parse`
-- takes for granted.
pub tokenize-has_eof :
    (source : List ℕ) (r : LexerResult)
    → tokenize source ≡ some r
    → r.failure ≡ none
    → has_eof r.tokens ≡ true
unfolding tokenize IsEnded
tokenize-has_eof source r e =
    subst IsEnded e (tokens_from-IsEnded _ (at_start source) (at_start source))
