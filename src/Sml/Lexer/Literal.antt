-- ===== src/Sml/Lexer/Literal.antt =====
-- String literals of SML, as `Lexer::scan_string` in src/sml/lexer.cpp reads them.
use secs_lib.Common.{
  ℕ, ◌≡◌, refl, sym, ap, ◌∙◌, Bool, Bool-cases, inl, inr, true, false, ◌||◌, List, [], ◌∷◌, ◌++◌,
  arith, ◌==◌, if◌then◌else◌, append_assoc, subst, append-nil,
}
use secs_lib.Sml.Token.{string}
use secs_lib.Sml.Cursor.{Cursor, passed}
use secs_lib.Sml.Lexer.{Scanned, scanned, scan_string, unescaped}

abbrev pub quote : Bool → ℕ
quote true = 0x22
quote false = 0x27

-- A literal's text up to `tail`: the quote, the backslash and the newline are escaped.
unfoldable pub escaped : Bool → List ℕ → List ℕ → List ℕ
escaped b [] tail = tail
escaped b (c ∷ value) tail =
    let rest = escaped b value tail in
    if c == quote b || c == 0x5c
    then 0x5c ∷ c ∷ rest
    else (if c == 0x0a then 0x5c ∷ b'n' ∷ rest else c ∷ rest)

unfoldable pub literal : Bool → List ℕ → List ℕ
literal b value = quote b ∷ escaped b value (quote b ∷ [])

-- The scan of a literal's end gives its value.
unfoldable pub Reads : List ℕ → Scanned → Type 0
Reads value s = (k : Cursor) × (s ≡ scanned string value k) × (k.rest ≡ [])

backslash_quote : (b : Bool) → (0x5c == quote b) ≡ false
backslash_quote true = refl
backslash_quote false = refl

passed_rest : (c : ℕ) (rest : List ℕ) (line column : ℕ) → (passed c rest line column).rest ≡ rest
unfolding passed
passed_rest c rest line column = ground arith

module _ (b : Bool) (value : List ℕ) (line column : ℕ) where
  scan_string-plain :
      (c : ℕ) (rest : List ℕ)
      → (c == quote b) ≡ false
      → (c == 0x0a) ≡ false
      → (c == 0x5c) ≡ false
      → scan_string (quote b) value (c ∷ rest) line column
        ≡ scan_string
            (quote b)
            (value ++ c ∷ [])
            rest
            (passed c rest line column).line
            (passed c rest line column).column
  unfolding scan_string
  scan_string-plain c [] p q r = rw (p, q) refl
  scan_string-plain c (d ∷ rest) p q r = rw (p, q, r) refl

  scan_string-escape :
      (d x : ℕ) (rest : List ℕ)
      → (d == 0) ≡ false
      → unescaped d ≡ x
      → (l : ℕ) × (k : ℕ) × (scan_string (quote b) value (0x5c ∷ d ∷ rest) line column
          ≡ scan_string (quote b) (value ++ x ∷ []) rest l k)
  unfolding scan_string
  scan_string-escape d x rest p q =
      let after = passed 0x5c (d ∷ rest) line column in
      let behind = passed d rest after.line after.column in
      (behind.line, behind.column, rw (backslash_quote b, p, q) refl)

  scan_string-end : Reads value (scan_string (quote b) value (quote b ∷ []) line column)
  unfolding scan_string Reads
  scan_string-end =
      let same : (quote b == quote b) ≡ true = ground arith in
      (passed (quote b) [] line column, rw same refl, passed_rest (quote b) [] line column)

-- An escaped character is no NUL and stands for itself.
escaped_nonzero : (b : Bool) (c : ℕ) → (c == quote b || c == 0x5c) ≡ true → (c == 0) ≡ false
escaped_nonzero true c e = ground (arith, e)
escaped_nonzero false c e = ground (arith, e)

unescaped_same : (b : Bool) (c : ℕ) → (c == quote b || c == 0x5c) ≡ true → unescaped c ≡ c
unfolding unescaped
unescaped_same true c e = ground (arith, e)
unescaped_same false c e = ground (arith, e)

unescaped_newline : (c : ℕ) → (c == 0x0a) ≡ true → unescaped b'n' ≡ c
unfolding unescaped
unescaped_newline c e = ground (arith, e)

plain_quote : (b : Bool) (c : ℕ) → (c == quote b || c == 0x5c) ≡ false → (c == quote b) ≡ false
plain_quote true c e = ground (arith, e)
plain_quote false c e = ground (arith, e)

plain_backslash : (b : Bool) (c : ℕ) → (c == quote b || c == 0x5c) ≡ false → (c == 0x5c) ≡ false
plain_backslash true c e = ground (arith, e)
plain_backslash false c e = ground (arith, e)

-- One character more of the value.
Reads-cons :
    (x : ℕ) (xs value : List ℕ) (s t : Scanned)
    → t ≡ s
    → Reads ((value ++ x ∷ []) ++ xs) s
    → Reads (value ++ x ∷ xs) t
unfolding Reads
Reads-cons x xs value s t e (k, p, q) =
    (k, e ∙ p ∙ ap (λ v. scanned string v k) (append_assoc value (x ∷ []) xs), q)

-- Every value is read back from its escaped text.
pub scan_string-escaped :
    (b : Bool) (xs value : List ℕ) (line column : ℕ)
    → Reads (value ++ xs) (scan_string (quote b) value (escaped b xs (quote b ∷ [])) line column)
unfolding escaped
scan_string-escaped b [] value line column =
    subst (λ v. Reads v (scan_string (quote b) value (quote b ∷ []) line column))
      (sym (append-nil value)) (scan_string-end b value line column)
scan_string-escaped b (c ∷ xs) value line column = elim (Bool-cases (c == quote b || c == 0x5c)) [
  | inl e ↦ rw e (
      let rest = escaped b xs (quote b ∷ []) in
      let (l, k, q) =
        scan_string-escape b value line column c c rest (escaped_nonzero b c e)
          (unescaped_same b c e) in
      Reads-cons c xs value _ _ q (scan_string-escaped b xs (value ++ c ∷ []) l k))
  | inr e ↦ elim (Bool-cases (c == 0x0a)) [
    | inl n ↦
        rw (e, n)
          (let rest = escaped b xs (quote b ∷ []) in
            let (l, k, q) =
              scan_string-escape b value line column b'n' c rest refl (unescaped_newline c n) in
            Reads-cons c xs value _ _ q (scan_string-escaped b xs (value ++ c ∷ []) l k))
    | inr n ↦
        rw (e, n)
          (let rest = escaped b xs (quote b ∷ []) in
            let after = passed c rest line column in
            Reads-cons c xs value _ _
              (scan_string-plain b value line column c rest (plain_quote b c e) n
                (plain_backslash b c e))
              (scan_string-escaped b xs (value ++ c ∷ []) after.line after.column))
  ]
]
