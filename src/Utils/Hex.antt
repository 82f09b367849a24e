-- ===== src/Utils/Hex.antt =====
-- Hexadecimal text: src/utils/hex.cpp. A text is the list of its characters' codes. `std::isspace`
-- and `std::isxdigit` are those of the "C" locale.
mod RoundTrip
mod Tests
use secs_lib.Common.{
  ℕ, zero, suc, ◌+◌, ◌-◌, ◌*◌, ◌/◌, ◌%◌, min, Bool, true, false, ◌&&◌, ◌||◌, not, List, [], ◌∷◌,
  ◌++◌, ltb, leb, ◌==◌, if◌then◌else◌, length, take, drop, replicate, get_or, Option, none, some,
}
use secs_lib.Core.Error.{Errc, invalid_argument}

unfoldable pub is_hex_digit : ℕ → Bool
is_hex_digit c = leb b'0' c && leb c b'9' || leb b'a' c && leb c b'f' || leb b'A' c && leb c b'F'

unfoldable pub hex_value : ℕ → ℕ
hex_value c =
    if leb b'0' c && leb c b'9'
    then c - b'0'
    else (if leb b'a' c && leb c b'f'
        then c - b'a' + 10
        else (if leb b'A' c && leb c b'F' then c - b'A' + 10 else 0))

-- `std::isspace`.
unfoldable pub is_space : ℕ → Bool
is_space c = c == 0x20 || leb 0x09 c && leb c 0x0d

unfoldable pub one_of : ℕ → List ℕ → Bool
one_of c [] = false
one_of c (d ∷ ds) = c == d || one_of c ds

abbrev pub separators : List ℕ
separators =
    b',' ∷ b';' ∷ b':' ∷ b'-' ∷ b'_' ∷ b'|' ∷ b'/' ∷ 0x5c ∷ b'[' ∷ b']' ∷ b'(' ∷ b')' ∷ b'{' ∷ b'}'
    ∷ b'<' ∷ b'>' ∷ 0x27 ∷ 0x22 ∷ []

unfoldable pub is_separator : ℕ → Bool
unfolding is_space one_of
is_separator c = is_space c || one_of c separators

unfoldable pub is_prefix : ℕ → ℕ → Bool
is_prefix c n = c == b'0' && (n == b'x' || n == b'X')

-- The code and `out` at the end: a digit may not be left over.
unfoldable pub finish : Option ℕ → List ℕ → Option Errc × List ℕ
finish none out = (none, out)
finish (some hi) out = (some invalid_argument, out)

-- `hi_nibble` and `out` after a digit.
unfoldable pub take_digit : Option ℕ → ℕ → List ℕ → Option ℕ × List ℕ
take_digit none v out = (some v, out)
take_digit (some hi) v out = (none, out ++ (hi % 16 * 16 + v % 16) ∷ [])

-- The loop of `parse_hex` over what is left of the text.
unfoldable pub parse_from : Option ℕ → List ℕ → List ℕ → Option Errc × List ℕ
unfolding finish
parse_from hi [] out = finish hi out
parse_from hi (c ∷ []) out =
    let (hi', out') = take_digit hi (hex_value c) out in
    if is_separator c
    then finish hi out
    else (if not (is_hex_digit c) then (some invalid_argument, out) else finish hi' out')
parse_from hi (c ∷ n ∷ rest) out =
    let skip_one = parse_from hi (n ∷ rest) out in
    let skip_two = parse_from hi rest out in
    let digit =
      parse_from (take_digit hi (hex_value c) out).0 (n ∷ rest)
        (take_digit hi (hex_value c) out).1 in
    if is_separator c
    then skip_one
    else (if is_prefix c n
        then skip_two
        else (if not (is_hex_digit c) then (some invalid_argument, out) else digit))

unfoldable pub parse_hex : List ℕ → Option Errc × List ℕ
parse_hex text = parse_from none text []

pub record HexDumpOptions : Type 0 where
  pub bytes_per_line : ℕ
  pub max_bytes : ℕ
  pub show_offset : Bool
  pub show_ascii : Bool
  pub enable_color : Bool

abbrev pub ansi_reset : List ℕ
ansi_reset = 0x1b ∷ b'[' ∷ b'0' ∷ b'm' ∷ []

abbrev pub ansi_dim : List ℕ
ansi_dim = 0x1b ∷ b'[' ∷ b'2' ∷ b'm' ∷ []

abbrev pub ansi_bytes : List ℕ
ansi_bytes = 0x1b ∷ b'[' ∷ b'1' ∷ b';' ∷ b'3' ∷ b'3' ∷ b'm' ∷ []

abbrev pub ansi_ascii : List ℕ
ansi_ascii = 0x1b ∷ b'[' ∷ b'1' ∷ b';' ∷ b'3' ∷ b'2' ∷ b'm' ∷ []

abbrev pub ansi_error : List ℕ
ansi_error = 0x1b ∷ b'[' ∷ b'1' ∷ b';' ∷ b'3' ∷ b'1' ∷ b'm' ∷ []

unfoldable pub ansi : Bool → List ℕ → List ℕ
ansi enable code = if enable then code else []

unfoldable pub to_printable_ascii : ℕ → ℕ
to_printable_ascii b = if leb 0x20 b && leb b 0x7e then b else b'.'

-- The stream's numbers: the digits of a number in a base, with lower-case letters.
unfoldable pub digit_text : ℕ → ℕ
digit_text d = if ltb d 10 then b'0' + d else b'a' + (d - 10)

unfoldable pub digits : ℕ → ℕ → ℕ → List ℕ
digits zero base n = []
digits (suc fuel) base n =
    let rest = digits fuel base (n / base) in
    if ltb n base then digit_text n ∷ [] else rest ++ digit_text (n % base) ∷ []

-- `std::setw` with `std::setfill('0')`.
unfoldable pub padded : ℕ → List ℕ → List ℕ
padded width text = replicate (width - length text) b'0' ++ text

unfoldable pub byte_text : ℕ → List ℕ
byte_text b = padded 2 (digits (suc b) 16 b)

-- The bytes of a line, with a space between two of them.
unfoldable pub line_bytes : List ℕ → List ℕ
line_bytes [] = []
line_bytes (b ∷ []) = byte_text b
line_bytes (b ∷ c ∷ rest) = byte_text b ++ b' ' ∷ line_bytes (c ∷ rest)

unfoldable pub printable : List ℕ → List ℕ
printable [] = []
printable (b ∷ rest) = to_printable_ascii b ∷ printable rest

module _ (options : HexDumpOptions) where
  unfoldable pub offset_text : ℕ → List ℕ
  unfolding ansi
  offset_text offset =
      if options.show_offset
      then ansi options.enable_color ansi_dim
        ++ (padded 4 (digits (suc offset) 16 offset)
            ++ (b':' ∷ b' ' ∷ ansi options.enable_color ansi_reset))
      else []

  -- The side column; a short line is filled up to `per_line` bytes.
  unfoldable pub ascii_text : ℕ → List ℕ → List ℕ
  unfolding ansi
  ascii_text per_line line =
      if options.show_ascii
      then (if ltb (length line) per_line
          then replicate ((per_line - length line) * 3) b' '
          else b' ' ∷ [])
        ++ (b' '
            ∷ b' '
            ∷ (ansi options.enable_color ansi_ascii
                ++ (printable line ++ ansi options.enable_color ansi_reset)))
      else []

  unfoldable pub dump_line : ℕ → ℕ → List ℕ → List ℕ
  unfolding offset_text ascii_text ansi
  dump_line per_line offset line =
      offset_text offset
      ++ (ansi options.enable_color ansi_bytes
          ++ (line_bytes line
              ++ (ansi options.enable_color ansi_reset ++ (ascii_text per_line line ++ 0x0a ∷ []))))

  -- The loop over the lines, on fuel.
  unfoldable pub dump_lines : ℕ → ℕ → ℕ → ℕ → List ℕ → List ℕ
  dump_lines zero per_line max_bytes offset bytes = []
  dump_lines (suc fuel) per_line max_bytes offset bytes =
      let rest =
        dump_lines fuel per_line max_bytes ((offset + per_line) % 0x1_0000_0000_0000_0000) bytes in
      if ltb offset max_bytes
      then dump_line per_line offset (take (min per_line (max_bytes - offset)) (drop offset bytes))
        ++ rest
      else []

  -- "... (truncated, total=N bytes)".
  unfoldable pub truncated_text : ℕ → List ℕ
  unfolding ansi
  truncated_text total =
      if not (options.max_bytes == 0) && ltb options.max_bytes total
      then ansi options.enable_color ansi_error
        ++ (b'.'
            ∷ b'.'
            ∷ b'.'
            ∷ b' '
            ∷ b'('
            ∷ b't'
            ∷ b'r'
            ∷ b'u'
            ∷ b'n'
            ∷ b'c'
            ∷ b'a'
            ∷ b't'
            ∷ b'e'
            ∷ b'd'
            ∷ b','
            ∷ b' '
            ∷ b't'
            ∷ b'o'
            ∷ b't'
            ∷ b'a'
            ∷ b'l'
            ∷ b'='
            ∷ (digits (suc total) 10 total
                ++ (b' '
                    ∷ b'b'
                    ∷ b'y'
                    ∷ b't'
                    ∷ b'e'
                    ∷ b's'
                    ∷ b')'
                    ∷ (ansi options.enable_color ansi_reset ++ 0x0a ∷ []))))
      else []

  unfoldable pub hex_dump : List ℕ → List ℕ
  hex_dump bytes =
      let max_bytes =
        (if options.max_bytes == 0 then length bytes else min (length bytes) options.max_bytes) in
      let per_line = (if options.bytes_per_line == 0 then 16 else options.bytes_per_line) in
      dump_lines (suc max_bytes) per_line max_bytes 0 bytes ++ truncated_text (length bytes)
