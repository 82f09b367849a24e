-- ===== src/Sml/Lexer/Tests.antt =====
-- Runs of the lexer, and its theorems at concrete sources.
use secs_lib.Common.{ℕ, ◌≡◌, true, List, [], ◌∷◌, none, some}
use secs_lib.Sml.Token.{string, eof}
use secs_lib.Sml.Lexer.{LexerResult, tokenize}
use secs_lib.Sml.Lexer.Literal.{literal}
use secs_lib.Sml.Lexer.Tokenize.{tokenize-Returns, tokenize-literal}

-- The five characters a, double quote, backslash, newline, NUL.
abbrev sample : List ℕ
sample = b'a' ∷ 0x22 ∷ 0x5c ∷ 0x0a ∷ 0 ∷ []

tokenize-literal_example :
    tokenize (literal true sample)
    ≡ some (record {
      tokens =
          record { token_type = string; value = sample; line = 1; column = 1 }
          ∷ record { token_type = eof; value = literal true sample; line = 1; column = 1 }
          ∷ [];
      failure = none;
    })
tokenize-literal_example = tokenize-literal true sample

-- A comment that does not end.
tokenize-Returns_example : (r : LexerResult) × (tokenize (b'/' ∷ b'*' ∷ b'x' ∷ []) ≡ some r)
tokenize-Returns_example = tokenize-Returns (b'/' ∷ b'*' ∷ b'x' ∷ [])
