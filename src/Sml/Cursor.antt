-- ===== src/Sml/Cursor.antt =====
-- The characters of a source and the place in it: src/sml/lexer.cpp, up to skip_whitespace.
use secs_lib.Common.{
  ℕ, ◌+◌, ◌%◌, ◌^◌, Bool, ◌&&◌, ◌||◌, not, List, [], ◌∷◌, leb, ◌==◌, if◌then◌else◌,
}

-- `current_` as what is left of the source, `line_` and `column_`.
pub record Cursor : Type 0 where
  pub rest : List ℕ
  pub line : ℕ
  pub column : ℕ

unfoldable pub is_digit : ℕ → Bool
is_digit c = leb b'0' c && leb c b'9'

unfoldable pub is_hex_digit : ℕ → Bool
is_hex_digit c = leb b'0' c && leb c b'9' || (leb b'a' c && leb c b'f' || leb b'A' c && leb c b'F')

unfoldable pub is_alpha : ℕ → Bool
is_alpha c = leb b'a' c && leb c b'z' || leb b'A' c && leb c b'Z'

unfoldable pub is_blank : ℕ → Bool
is_blank c = c == 0x20 || (c == 0x09 || (c == 0x0d || c == 0x0a))

unfoldable pub is_word : ℕ → Bool
is_word c = is_alpha c || (is_digit c || c == b'_')

unfoldable pub is_no_newline : ℕ → Bool
is_no_newline c = not (c == 0x0a)

unfoldable pub peek : List ℕ → ℕ
peek [] = 0
peek (c ∷ rest) = c

unfoldable pub peek_next : List ℕ → ℕ
peek_next [] = 0
peek_next (c ∷ rest) = peek rest

-- `advance` over a character, with what is left behind it.
unfoldable pub passed : ℕ → List ℕ → ℕ → ℕ → Cursor
passed c rest line column =
    if c == 0x0a
    then record { rest = rest; line = (line + 1) % 2 ^ 32; column = 1 }
    else record { rest = rest; line = line; column = (column + 1) % 2 ^ 32 }

unfoldable pub advance_from : List ℕ → ℕ → ℕ → Cursor
advance_from [] line column = record { rest = []; line = line; column = column }
advance_from (c ∷ rest) line column = passed c rest line column

unfoldable pub advance : Cursor → Cursor
advance k = advance_from k.rest k.line k.column

-- The loops that advance while the next character passes a test.
unfoldable pub skip_from : (ℕ → Bool) → List ℕ → ℕ → ℕ → Cursor
skip_from test [] line column = record { rest = []; line = line; column = column }
skip_from test (c ∷ rest) line column =
    let after = passed c rest line column in
    let skipped = skip_from test rest after.line after.column in
    if test c then skipped else record { rest = c ∷ rest; line = line; column = column }

unfoldable pub skip_while : (ℕ → Bool) → Cursor → Cursor
skip_while test k = skip_from test k.rest k.line k.column

unfoldable pub skip_whitespace : Cursor → Cursor
skip_whitespace k = skip_while is_blank k
