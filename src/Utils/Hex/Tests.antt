-- ===== src/Utils/Hex/Tests.antt =====
-- Runs of the hexadecimal text, and its round trip at concrete bytes.
use secs_lib.Common.{ℕ, ◌≡◌, refl, false, List, [], ◌∷◌, some, none, arith}
use secs_lib.Core.Error.{invalid_argument}
use secs_lib.Utils.Hex.{
  HexDumpOptions, parse_hex, hex_dump, parse_from, take_digit, is_separator, is_prefix,
  is_hex_digit, hex_value,
}
use secs_lib.Utils.Hex.RoundTrip.{IsPlain, parse_hex-hex_dump}

-- Two bytes on a line, and no limit.
abbrev plain : HexDumpOptions
plain = record {
  bytes_per_line = 2;
  max_bytes = 0;
  show_offset = false;
  show_ascii = false;
  enable_color = false;
}

plain-IsPlain : IsPlain plain
plain-IsPlain = record { offset = refl; ascii = refl; color = refl; line = omega arith }

abbrev sample : List ℕ
sample = 0 ∷ 10 ∷ 255 ∷ []

parse_hex-hex_dump_example : parse_hex (hex_dump plain sample) ≡ (none, sample)
parse_hex-hex_dump_example =
    parse_hex-hex_dump plain plain-IsPlain sample (omega arith) (omega arith) refl

-- "0x0A,f" has a digit too many.
parse_hex_odd :
    parse_hex (b'0' ∷ b'x' ∷ b'0' ∷ b'A' ∷ b',' ∷ b'f' ∷ []) ≡ (some invalid_argument, 10 ∷ [])
unfolding parse_hex parse_from take_digit is_separator is_prefix is_hex_digit hex_value
parse_hex_odd = refl
