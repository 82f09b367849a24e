-- ===== src/Sml/Lexer/Total.antt =====
-- `Lexer::tokenize` of src/sml/lexer.cpp comes to an end.
use secs_lib.Common.{
  ℕ, ◌-◌, ◌≡◌, ◌≤◌, refl, ap, Bool, Bool-cases, inl, inr, true, false, ◌&&◌, ◌||◌, List, [], ◌∷◌,
  ◌++◌, Option, none, some, arith, ◌==◌, if◌then◌else◌, length,
}
use secs_lib.Sml.Token.{TokenType}
use secs_lib.Sml.Cursor.{
  Cursor, passed, advance, advance_from, skip_from, skip_while, is_word, is_digit, is_alpha,
  is_hex_digit, peek,
}
use secs_lib.Sml.Lexer.{
  Comment, no_comment, unterminated, skipped, Scanned, scanned, failed, block_comment, scan_string,
  scan_identifier, scan_hex, scan_exponent, scan_decimal, scan_number, LexerErrc, ErrorText,
  unescaped, scan_other, scan_mark, scan_token, punctuation,
}

-- What is left after a token is at most `n` characters.
unfoldable pub Within : ℕ → Scanned → Type 0
Within n (failed e text) = Unit
Within n (scanned t value k) = length k.rest ≤ n

unfoldable pub WithinComment : ℕ → Comment → Type 0
WithinComment n no_comment = Unit
WithinComment n unterminated = Unit
WithinComment n (skipped k) = length k.rest ≤ n

passed_rest : (c : ℕ) (rest : List ℕ) (line column : ℕ) → (passed c rest line column).rest ≡ rest
unfolding passed
passed_rest c rest line column = ground arith

length-skip_from :
    (test : ℕ → Bool) (xs : List ℕ) (line column : ℕ)
    → length (skip_from test xs line column).rest ≤ length xs
unfolding skip_from
length-skip_from test [] line column = omega arith
length-skip_from test (c ∷ rest) line column =
    let after = passed c rest line column in
    ground (arith, length-skip_from test rest after.line after.column)

length-advance_from :
    (xs : List ℕ) (line column : ℕ) → length (advance_from xs line column).rest ≤ length xs - 1
unfolding advance_from
length-advance_from [] line column = omega arith
length-advance_from (c ∷ rest) line column =
    omega (arith, ap length (passed_rest c rest line column))

Within-if :
    (n : ℕ) (b : Bool) (s t : Scanned) → Within n s → Within n t → Within n (if b then s else t)
Within-if n true s t p q = p
Within-if n false s t p q = q

Within-le : (m n : ℕ) (s : Scanned) → m ≤ n → Within m s → Within n s
unfolding Within
Within-le m n (failed e text) l w = tt
Within-le m n (scanned t value k) l w = omega arith

pub WithinComment-le : (m n : ℕ) (s : Comment) → m ≤ n → WithinComment m s → WithinComment n s
unfolding WithinComment
WithinComment-le m n no_comment l w = tt
WithinComment-le m n unterminated l w = tt
WithinComment-le m n (skipped k) l w = omega arith

pub WithinComment-if :
    (n : ℕ) (b : Bool) (s t : Comment)
    → WithinComment n s
    → WithinComment n t
    → WithinComment n (if b then s else t)
WithinComment-if n true s t p q = p
WithinComment-if n false s t p q = q

Within-failed : (n : ℕ) (e : LexerErrc) (text : ErrorText) → Within n (failed e text)
unfolding Within
Within-failed n e text = tt

Within-scanned :
    (n : ℕ) (t : TokenType) (value : List ℕ) (k : Cursor)
    → length k.rest ≤ n
    → Within n (scanned t value k)
unfolding Within
Within-scanned n t value k l = l

pub WithinComment-skipped : (n : ℕ) (k : Cursor) → length k.rest ≤ n → WithinComment n (skipped k)
unfolding WithinComment
WithinComment-skipped n k l = l

WithinComment-unterminated : (n : ℕ) → WithinComment n unterminated
unfolding WithinComment
WithinComment-unterminated n = tt

length-passed :
    (c : ℕ) (rest : List ℕ) (line column : ℕ)
    → length (passed c rest line column).rest ≤ length rest
length-passed c rest line column = omega (arith, ap length (passed_rest c rest line column))

pub block_comment-WithinComment :
    (xs : List ℕ) (line column : ℕ) → WithinComment (length xs) (block_comment xs line column)
unfolding block_comment advance
block_comment-WithinComment [] line column = WithinComment-unterminated _
block_comment-WithinComment (c ∷ []) line column = WithinComment-unterminated _
block_comment-WithinComment (c ∷ d ∷ rest) line column =
    let after = passed c (d ∷ rest) line column in
    let n = length (c ∷ d ∷ rest) in
    WithinComment-if n _ _ _
      (WithinComment-skipped n _ (
        omega (
          arith,
          length-passed c (d ∷ rest) line column,
          length-advance_from after.rest after.line after.column,
        )))
      (WithinComment-le (length (d ∷ rest)) n _ (omega arith)
        (block_comment-WithinComment (d ∷ rest) after.line after.column))

scan_string-Within :
    (quote : ℕ) (value xs : List ℕ) (line column : ℕ)
    → Within (length xs) (scan_string quote value xs line column)
unfolding scan_string
scan_string-Within quote value [] line column = Within-failed _ _ _
scan_string-Within quote value (c ∷ []) line column =
    Within-if 1 _ _ _ (Within-scanned 1 _ _ _ (omega (arith, length-passed c [] line column)))
      (Within-if 1 _ _ _ (Within-failed 1 _ _) (Within-failed 1 _ _))
scan_string-Within quote value (c ∷ d ∷ rest) line column =
    let n = length (c ∷ d ∷ rest) in
    let after = passed c (d ∷ rest) line column in
    let behind = passed d rest after.line after.column in
    Within-if n _ _ _
      (Within-scanned n _ _ _ (omega (arith, length-passed c (d ∷ rest) line column)))
      (Within-if n _ _ _ (Within-failed n _ _) (
        Within-if n _ _ _
          (Within-le (length rest) n _ (omega arith)
            (scan_string-Within quote (value ++ unescaped d ∷ []) rest behind.line behind.column))
          (Within-le (length (d ∷ rest)) n _ (omega arith)
            (scan_string-Within quote (value ++ c ∷ []) (d ∷ rest) after.line after.column))))

Within-when :
    (n : ℕ) (b : Bool) (s t : Scanned)
    → (b ≡ true → Within n s)
    → (b ≡ false → Within n t)
    → Within n (if b then s else t)
Within-when n true s t p q = p refl
Within-when n false s t p q = q refl

pub length-advance : (k : Cursor) → length (advance k).rest ≤ length k.rest - 1
unfolding advance
length-advance k = length-advance_from k.rest k.line k.column

pub length-skip_while :
    (test : ℕ → Bool) (k : Cursor) → length (skip_while test k).rest ≤ length k.rest
unfolding skip_while
length-skip_while test k = length-skip_from test k.rest k.line k.column

scan_hex-Within : (start k : Cursor) → Within (length k.rest) (scan_hex start k)
unfolding scan_hex
scan_hex-Within start k =
    Within-if _ _ _ _ (Within-failed _ _ _)
      (Within-scanned _ _ _ _ (length-skip_while is_hex_digit k))

length-signed : (b : Bool) (k : Cursor) → length (if b then advance k else k).rest ≤ length k.rest
length-signed true k = omega (arith, length-advance k)
length-signed false k = omega arith

length-scan_exponent : (k : Cursor) → length (scan_exponent k).rest ≤ length k.rest
unfolding scan_exponent
length-scan_exponent k = elim (Bool-cases (peek k.rest == b'e' || peek k.rest == b'E')) [
  | inl e ↦
      let signed = advance k in
      let sign = peek signed.rest == b'+' || peek signed.rest == b'-' in
      rw e (
        omega (
          arith,
          length-skip_while is_digit (if sign then advance signed else signed),
          length-signed sign signed,
          length-advance k,
        ))
  | inr e ↦ rw e (omega arith)
]

scan_decimal-Within :
    (n : ℕ) (start k : Cursor)
    → length (skip_while is_digit k).rest ≤ n
    → Within n (scan_decimal start k)
unfolding scan_decimal
scan_decimal-Within n start k l =
    let whole = skip_while is_digit k in
    let fraction = skip_while is_digit (advance whole) in
    Within-if n _ _ _
      (Within-scanned n _ _ _ (
        omega (
          arith,
          length-scan_exponent fraction,
          length-skip_while is_digit (advance whole),
          length-advance whole,
        )))
      (Within-scanned n _ _ _ l)

-- Where the first character passes the test, it is left behind.
pub length-skip_first :
    (test : ℕ → Bool) (c : ℕ) (rest : List ℕ) (line column : ℕ)
    → test c ≡ true
    → length (skip_while test (record { rest = c ∷ rest; line = line; column = column })).rest
      ≤ length rest
unfolding skip_while skip_from
length-skip_first test c rest line column e =
    let after = passed c rest line column in
    rw e (length-skip_from test rest after.line after.column)

scan_number-Within :
    (c : ℕ) (rest : List ℕ) (line column : ℕ)
    → (is_digit c || c == b'-') ≡ true
    → Within (length rest) (scan_number (record { rest = c ∷ rest; line = line; column = column }))
unfolding scan_number peek
scan_number-Within c rest line column h =
    let start : Cursor = record { rest = c ∷ rest; line = line; column = column } in
    let behind = advance start in
    elim (Bool-cases (c == b'-')) [
      | inl e ↦ rw e (
          Within-if _ _ _ _
            (Within-le _ _ _
              (omega (
                arith,
                length-advance start,
                length-advance behind,
                length-advance (advance behind),
              ))
              (scan_hex-Within start (advance (advance behind))))
            (scan_decimal-Within _ start behind
              (omega (arith, length-skip_while is_digit behind, length-advance start))))
      | inr e ↦
          let digit : is_digit c ≡ true = ground (arith, h, e) in
          rw e (
            Within-if _ _ _ _
              (Within-le _ _ _ (omega (arith, length-advance start, length-advance behind))
                (scan_hex-Within start (advance behind)))
              (scan_decimal-Within _ start start
                (length-skip_first is_digit c rest line column digit)))
    ]

word_first : (c : ℕ) → (is_alpha c || c == b'_') ≡ true → is_word c ≡ true
unfolding is_word
word_first c h = ground (arith, h)

number_first :
    (c : ℕ) (d : Bool) → (is_digit c || (c == b'-' && d)) ≡ true → (is_digit c || c == b'-') ≡ true
number_first c d h = ground (arith, h)

scan_other-Within :
    (c : ℕ) (rest : List ℕ) (line column : ℕ) (k : Cursor)
    → length k.rest ≤ length rest
    → Within
        (length rest)
        (scan_other c (record { rest = c ∷ rest; line = line; column = column }) k)
unfolding scan_other scan_identifier
scan_other-Within c rest line column k l =
    Within-if _ _ _ _
      (Within-if _ _ _ _ (Within-scanned _ _ _ _ (omega (arith, length-advance k)))
        (Within-failed _ _ _))
      (Within-if _ _ _ _ (Within-le _ _ _ l (scan_string-Within c [] k.rest k.line k.column)) (
        Within-when _ _ _ _
          (λ e.
            Within-scanned _ _ _ _ (length-skip_first is_word c rest line column (word_first c e)))
          λ no.
            Within-when _ _ _ _
              (λ e.
                scan_number-Within c rest line column (number_first c (is_digit (peek k.rest)) e))
              λ nothing. Within-failed _ _ _))

scan_mark-Within :
    (mark : Option TokenType) (c : ℕ) (rest : List ℕ) (line column : ℕ) (k : Cursor)
    → length k.rest ≤ length rest
    → Within
        (length rest)
        (scan_mark mark c (record { rest = c ∷ rest; line = line; column = column }) k)
unfolding scan_mark
scan_mark-Within (some t) c rest line column k l = Within-scanned _ _ _ _ l
scan_mark-Within none c rest line column k l = scan_other-Within c rest line column k l

-- A token takes a character at least.
pub scan_token-Within :
    (c : ℕ) (rest : List ℕ) (line column : ℕ)
    → Within (length rest) (scan_token (record { rest = c ∷ rest; line = line; column = column }))
unfolding scan_token peek
scan_token-Within c rest line column =
    let start : Cursor = record { rest = c ∷ rest; line = line; column = column } in
    scan_mark-Within (punctuation c) c rest line column (advance start)
      (omega (arith, length-advance start))
