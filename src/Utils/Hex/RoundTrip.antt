-- ===== src/Utils/Hex/RoundTrip.antt =====
-- Bytes that `hex_dump` of src/utils/hex.cpp writes and `parse_hex` reads.
use secs_lib.Common.{
  ℕ, zero, suc, ◌+◌, ◌-◌, ◌*◌, ◌/◌, ◌%◌, ◌≤◌, ◌<◌, ◌≡◌, ◌⊎◌, refl, sym, ap, ap₂, ◌∙◌, min, true,
  false, ◌&&◌, ◌||◌, not, List, [], ◌∷◌, ◌++◌, ltb, leb, ◌==◌, if◌then◌else◌, length, take, drop,
  Option, none, some, arith, All, Bool-cases, inl, inr, append_assoc, append-nil, take-append-drop,
  All-take, All-drop, length-drop, take_all,
}
use secs_lib.Common.Bytes.{IsByte}
use secs_lib.Common.Slices.{drop-drop}
use secs_lib.Utils.Hex.{
  is_hex_digit, hex_value, is_separator, is_prefix, finish, take_digit, parse_from, parse_hex,
  digit_text, digits, padded, byte_text, line_bytes, dump_line, dump_lines, hex_dump,
  HexDumpOptions, ansi, offset_text, ascii_text, truncated_text,
}

-- What is true of each of the sixteen digits.
abbrev Reads : ℕ → Type 0
Reads d =
    (is_separator (digit_text d) ≡ false)
    × (is_hex_digit (digit_text d) ≡ true)
    × (hex_value (digit_text d) ≡ d)
    × ((digit_text d == b'x' || digit_text d == b'X') ≡ false)

digit_text-Reads : (d : ℕ) → d < 16 → Reads d
unfolding is_separator is_hex_digit hex_value digit_text
digit_text-Reads d h = (ground arith, ground arith, ground arith, ground arith)

-- The digits of a byte, of which the second loop pass writes the first.
two_digits :
    (b fuel : ℕ)
    → IsByte b
    → digits (suc (suc fuel)) 16 b
      ≡ (if ltb b 16 then digit_text b ∷ [] else digit_text (b / 16) ∷ digit_text (b % 16) ∷ [])
unfolding digits
two_digits b fuel h = ground arith

byte_text_lem : (b : ℕ) → IsByte b → byte_text b ≡ digit_text (b / 16) ∷ digit_text (b % 16) ∷ []
unfolding byte_text padded digits digit_text
byte_text_lem zero h = refl
byte_text_lem (suc b) h = elim (Bool-cases (ltb (suc b) 16)) [
  | inl e ↦
      let high : suc b / 16 ≡ 0 = ground (arith, e) in
      let low : suc b % 16 ≡ suc b = ground (arith, e) in
      rw (two_digits (suc b) b h, e, high, low) refl
  | inr e ↦ rw (two_digits (suc b) b h, e) refl
]

no_prefix : (c n : ℕ) → (n == b'x' || n == b'X') ≡ false → is_prefix c n ≡ false
unfolding is_prefix
no_prefix c n x = ground (arith, x)

-- A character that is no separator, before one that makes no prefix with it.
parse_digit :
    (hi : Option ℕ) (d n : ℕ) (rest out : List ℕ)
    → d < 16
    → (n == b'x' || n == b'X') ≡ false
    → parse_from hi (digit_text d ∷ n ∷ rest) out
      ≡ parse_from (take_digit hi d out).0 (n ∷ rest) (take_digit hi d out).1
unfolding parse_from is_prefix
parse_digit hi d n rest out h x =
    let (sep, hex, val, own) = digit_text-Reads d h in
    rw (sep, no_prefix (digit_text d) n x, hex, val) refl

parse_separator :
    (hi : Option ℕ) (c : ℕ) (rest out : List ℕ)
    → is_separator c ≡ true
    → parse_from hi (c ∷ rest) out ≡ parse_from hi rest out
unfolding parse_from
parse_separator hi c [] out e = rw e refl
parse_separator hi c (n ∷ rest) out e = rw e refl

-- A byte's text before a character that makes no prefix.
parse_byte :
    (b n : ℕ) (rest out : List ℕ)
    → IsByte b
    → (n == b'x' || n == b'X') ≡ false
    → parse_from none (byte_text b ++ (n ∷ rest)) out ≡ parse_from none (n ∷ rest) (out ++ b ∷ [])
unfolding take_digit
parse_byte b n rest out h x =
    let own = (digit_text-Reads (b % 16) (omega arith)).3 in
    let high : b / 16 < 16 = omega arith in
    let value : b / 16 % 16 * 16 + b % 16 % 16 ≡ b = omega arith in
    rw (byte_text_lem b h) (
      parse_digit none (b / 16) (digit_text (b % 16)) (n ∷ rest) out high own
      ∙ parse_digit (some (b / 16)) (b % 16) n rest out (omega arith) x
      ∙ ap (λ v. parse_from none (n ∷ rest) (out ++ v ∷ [])) value)

-- A line of bytes and the end of the line.
parse_line :
    (line rest out : List ℕ)
    → All IsByte line
    → parse_from none (line_bytes line ++ (0x0a ∷ rest)) out ≡ parse_from none rest (out ++ line)
unfolding line_bytes is_separator
parse_line [] rest out h =
    parse_separator none 0x0a rest out refl ∙ ap (parse_from none rest) (sym (append-nil out))
parse_line (b ∷ []) rest out h =
    parse_byte b 0x0a rest out h.0 refl ∙ parse_separator none 0x0a rest (out ++ b ∷ []) refl
parse_line (b ∷ c ∷ line) rest out h =
    ap (λ t. parse_from none t out)
      (append_assoc (byte_text b) (b' ' ∷ line_bytes (c ∷ line)) (0x0a ∷ rest))
    ∙ parse_byte b b' ' (line_bytes (c ∷ line) ++ (0x0a ∷ rest)) out h.0 refl
    ∙ parse_separator none b' ' (line_bytes (c ∷ line) ++ (0x0a ∷ rest)) (out ++ b ∷ []) refl
    ∙ parse_line (c ∷ line) rest (out ++ b ∷ []) h.1
    ∙ ap (parse_from none rest) (append_assoc out (b ∷ []) (c ∷ line))

ended : (offset : ℕ) (bytes out : List ℕ) → length bytes ≤ offset → out ≡ out ++ drop offset bytes
ended offset bytes out h = sym (append-nil out) ∙ ap (λ t. out ++ t) (sym (drop_all offset bytes h))
  where
    drop_all : (n : ℕ) (xs : List ℕ) → length xs ≤ n → drop n xs ≡ []
    drop_all zero [] l = refl
    drop_all zero (x ∷ xs) l = absurd (omega arith)
    drop_all (suc n) [] l = refl
    drop_all (suc n) (x ∷ xs) l = drop_all n xs (omega arith)

take-min : (p : ℕ) (xs : List ℕ) → take (min p (length xs)) xs ≡ take p xs
take-min p xs = elim (Bool-cases (leb p (length xs))) [
  | inl e ↦ ap (λ k. take k xs) (let q : min p (length xs) ≡ p = ground (arith, e) in q)
  | inr e ↦
      ap (λ k. take k xs) (let q : min p (length xs) ≡ length xs = ground (arith, e) in q)
      ∙ take_all (length xs) xs (omega arith)
      ∙ sym (take_all p xs (ground (arith, e)))
]

-- One line and what comes after it.
line_and_rest :
    (p offset : ℕ) (bytes : List ℕ)
    → take (min p (length bytes - offset)) (drop offset bytes) ++ drop (offset + p) bytes
      ≡ drop offset bytes
line_and_rest p offset bytes =
    ap₂ (λ k t. take (min p k) (drop offset bytes) ++ t) (sym (length-drop offset bytes))
      (sym (drop-drop p offset bytes))
    ∙ ap (λ t. t ++ drop p (drop offset bytes)) (take-min p (drop offset bytes))
    ∙ take-append-drop p (drop offset bytes)

-- Bytes only: no offsets, no side column and no colours.
pub record IsPlain (options : HexDumpOptions) : Type 0 where
  pub offset : options.show_offset ≡ false
  pub ascii : options.show_ascii ≡ false
  pub color : options.enable_color ≡ false
  pub line : options.bytes_per_line < 0x1_0000_0000_0000_0000

module _ (options : HexDumpOptions) (v : IsPlain options) where
  plain_line :
      (per_line offset : ℕ) (line : List ℕ)
      → dump_line options per_line offset line ≡ line_bytes line ++ 0x0a ∷ []
  unfolding dump_line offset_text ascii_text ansi
  plain_line per_line offset line = rw (v.offset, v.ascii, v.color) refl

  parse-dump_lines :
      (fuel per_line offset : ℕ) (bytes out : List ℕ)
      → All IsByte bytes
      → length bytes ≤ 0x8000_0000_0000_0000
      → 0 < per_line
      → per_line < 0x1_0000_0000_0000_0000
      → ((offset ≡ 0) ⊎ (per_line ≤ offset))
      → length bytes < offset + fuel
      → parse_from none (dump_lines options fuel per_line (length bytes) offset bytes) out
        ≡ (none, out ++ drop offset bytes)
  unfolding dump_lines parse_from finish
  parse-dump_lines zero per_line offset bytes out h n p q r f =
      ap (λ q. (none, q)) (ended offset bytes out (omega arith))
  parse-dump_lines (suc fuel) per_line offset bytes out h n p q r f =
      elim (Bool-cases (ltb offset (length bytes))) [
        | inl e ↦ rw e (
            let line = take (min per_line (length bytes - offset)) (drop offset bytes) in
            let next : (offset + per_line) % 0x1_0000_0000_0000_0000 ≡ offset + per_line =
              ground (arith, e, r, q, n) in
            let rest = dump_lines options fuel per_line (length bytes) (offset + per_line) bytes in
            ap
              (λ k.
                parse_from none
                  (dump_line options per_line offset line
                    ++ dump_lines options fuel per_line (length bytes) k bytes)
                  out)
              next
            ∙ ap (λ t. parse_from none (t ++ rest) out) (plain_line per_line offset line)
            ∙ ap (λ t. parse_from none t out) (append_assoc (line_bytes line) (0x0a ∷ []) rest)
            ∙ parse_line line rest out (
                All-take IsByte (min per_line (length bytes - offset)) (drop offset bytes)
                  (All-drop IsByte offset bytes h))
            ∙ parse-dump_lines fuel per_line (offset + per_line) bytes (out ++ line) h n p q
                (inr (omega arith)) (omega arith)
            ∙ ap (λ t. (none, t))
                (append_assoc out line (drop (offset + per_line) bytes)
                  ∙ ap (λ t. out ++ t) (line_and_rest per_line offset bytes)))
        | inr e ↦ rw e (ap (λ q. (none, q)) (ended offset bytes out (ground arith)))
      ]

  untruncated :
      (total : ℕ)
      → (options.max_bytes == 0 || leb total options.max_bytes) ≡ true
      → truncated_text options total ≡ []
  unfolding truncated_text
  untruncated total whole =
      let no : (not (options.max_bytes == 0) && ltb options.max_bytes total) ≡ false =
        ground (arith, whole) in
      rw no refl

  -- What `hex_dump` writes of bytes, at most 2^63 and all of them, and with nothing beside them,
  -- `parse_hex` reads back.
  pub parse_hex-hex_dump :
      (bytes : List ℕ)
      → All IsByte bytes
      → length bytes ≤ 0x8000_0000_0000_0000
      → (options.max_bytes == 0 || leb (length bytes) options.max_bytes) ≡ true
      → parse_hex (hex_dump options bytes) ≡ (none, bytes)
  unfolding parse_hex hex_dump
  parse_hex-hex_dump bytes h n whole =
      let none_left : truncated_text options (length bytes) ≡ [] =
        untruncated (length bytes) whole in
      let limit : (if options.max_bytes == 0
            then length bytes
            else min (length bytes) options.max_bytes)
          ≡ length bytes =
        ground (arith, whole) in
      let p = (if options.bytes_per_line == 0 then 16 else options.bytes_per_line) in
      ap₂ (λ m t. parse_from none (dump_lines options (suc m) p m 0 bytes ++ t) []) limit none_left
      ∙ ap (λ t. parse_from none t [])
          (append-nil (dump_lines options (suc (length bytes)) p (length bytes) 0 bytes))
      ∙ parse-dump_lines (suc (length bytes)) p 0 bytes [] h n (ground arith)
          (ground (arith, v.line)) (inl refl) (omega arith)
