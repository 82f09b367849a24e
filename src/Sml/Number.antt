-- ===== src/Sml/Number.antt =====
-- The numbers in SML: parse_uint64_literal, parse_int64_literal and parse_sf_string of
-- src/sml/parser.cpp. `std::from_chars` is written out: a run of digits, a number in the range of
-- the type, and what is left of the text.
use secs_lib.Common.{
  ℕ, ◌+◌, ◌-◌, ◌*◌, ◌^◌, Bool, true, false, ◌&&◌, ◌||◌, not, List, [], ◌∷◌, Option, none, some, leb,
  ltb, ◌==◌, if◌then◌else◌, length, take, drop, get_or,
}
use secs_lib.Common.Int.{ℤ, pos, negsuc}
use secs_lib.Sml.Cursor.{is_digit, is_hex_digit}

unfoldable pub is_digit_of : ℕ → ℕ → Bool
is_digit_of base c = if base == 10 then is_digit c else is_hex_digit c

unfoldable pub digit_value : ℕ → ℕ
digit_value c =
    if leb b'0' c && leb c b'9'
    then c - b'0'
    else (if leb b'a' c && leb c b'f' then c - b'a' + 10 else c - b'A' + 10)

-- The number that a run of digits extends `n` to, and what follows the run.
unfoldable pub digits_from : ℕ → ℕ → List ℕ → ℕ × List ℕ
digits_from base n [] = (n, [])
digits_from base n (c ∷ rest) =
    let more = digits_from base (n * base + digit_value c) rest in
    if is_digit_of base c then more else (n, c ∷ rest)

unfoldable pub starts_with : (ℕ → Bool) → List ℕ → Bool
starts_with test [] = false
starts_with test (c ∷ rest) = test c

-- `std::from_chars` for an unsigned type up to `limit`, in base 10 or 16.
unfoldable pub from_chars : ℕ → ℕ → List ℕ → Option (ℕ × List ℕ)
from_chars base limit text =
    if not (starts_with (is_digit_of base) text)
    then none
    else (if ltb limit (digits_from base 0 text).0 then none else some (digits_from base 0 text))

-- The number, if it takes up the whole text.
unfoldable pub whole_number : Option (ℕ × List ℕ) → Option ℕ
whole_number none = none
whole_number (some (n, [])) = some n
whole_number (some (n, c ∷ rest)) = none

unfoldable pub is_minus : ℕ → Bool
is_minus c = c == b'-'

unfoldable pub is_hex_prefixed : List ℕ → Bool
is_hex_prefixed text =
    ltb 2 (length text)
    && (get_or text 0 0 == b'0' && (get_or text 1 0 == b'x' || get_or text 1 0 == b'X'))

unfoldable pub parse_uint64_literal : List ℕ → Option ℕ
parse_uint64_literal text =
    if length text == 0
    then none
    else (if starts_with is_minus text
        then none
        else (if is_hex_prefixed text
            then whole_number (from_chars 16 (2 ^ 64 - 1) (drop 2 text))
            else whole_number (from_chars 10 (2 ^ 64 - 1) text)))

-- A sign and a magnitude, in the range of `std::int64_t`.
unfoldable pub signed_magnitude : Bool → Option ℕ → Option ℤ
signed_magnitude negative none = none
signed_magnitude false (some magnitude) =
    if ltb (2 ^ 63 - 1) magnitude then none else some (pos magnitude)
signed_magnitude true (some magnitude) =
    if ltb (2 ^ 63) magnitude
    then none
    else (if magnitude == 0 then some (pos 0) else some (negsuc (magnitude - 1)))

unfoldable pub parse_int64_literal : List ℕ → Option ℤ
parse_int64_literal text =
    if length text == 0
    then none
    else (if starts_with is_minus text
        then signed_magnitude true (parse_uint64_literal (drop 1 text))
        else signed_magnitude false (parse_uint64_literal text))

-- `std::from_chars` for an `int`, and the test of its range from 0 to `limit`. A number after a
-- minus sign is only in range if it is 0; what follows the number is not looked at.
unfoldable pub at_most : ℕ → Option (ℕ × List ℕ) → Option ℕ
at_most limit none = none
at_most limit (some (n, rest)) = if ltb limit n then none else some n

unfoldable pub small_number : ℕ → List ℕ → Option ℕ
small_number limit text =
    if starts_with is_minus text
    then at_most 0 (from_chars 10 (2 ^ 31) (drop 1 text))
    else at_most limit (from_chars 10 (2 ^ 31 - 1) text)

unfoldable pub is_f : ℕ → Bool
is_f c = c == b'F' || c == b'f'

unfoldable pub after_char : ℕ → Option (List ℕ × List ℕ) → Option (List ℕ × List ℕ)
after_char c none = none
after_char c (some (xs, ys)) = some (c ∷ xs, ys)

-- `find_first_of("Ff")`: the text before it and behind it.
unfoldable pub split_at_f : List ℕ → Option (List ℕ × List ℕ)
split_at_f [] = none
split_at_f (c ∷ rest) =
    let more = split_at_f rest in if is_f c then some ([], rest) else after_char c more

-- A text in single quotes, without them.
unfoldable pub unquoted : List ℕ → List ℕ
unquoted text =
    if get_or text 0 0 == 0x27 && get_or text (length text - 1) 0 == 0x27
    then take (length text - 2) (drop 1 text)
    else text

unfoldable pub both : Option ℕ → Option ℕ → Option (ℕ × ℕ)
both (some s) (some f) = some (s, f)
both _ _ = none

-- The stream and the function, from what stands before and behind the F.
unfoldable pub sf_numbers : Option (List ℕ × List ℕ) → Option (ℕ × ℕ)
sf_numbers none = none
sf_numbers (some (s, f)) =
    if ltb (length s) 2 then none else both (small_number 127 (drop 1 s)) (small_number 255 f)

unfoldable pub is_s : ℕ → Bool
is_s c = c == b'S' || c == b's'

unfoldable pub parse_sf_string : List ℕ → Option (ℕ × ℕ)
parse_sf_string text =
    if ltb (length text) 4
    then none
    else (if not (starts_with is_s (unquoted text))
        then none
        else sf_numbers (split_at_f (unquoted text)))
