-- ===== src/Sml/Parser/TypedItems.antt =====
-- The items of SML, lists included, as src/sml/parser.cpp reads them: it ends, and they are typed.
use secs_lib.Common.{
  ℕ, zero, suc, ◌-◌, ◌^◌, ◌≤◌, ◌<◌, refl, Bool-cases, inl, inr, List, arith, length,
}
use secs_lib.Common.Int.{IsSigned}
use secs_lib.Sml.Token.{
  TokenType, kw_l, kw_a, kw_b, kw_boolean, kw_u1, kw_u2, kw_u4, kw_u8, kw_i1, kw_i2, kw_i4, kw_i8,
  kw_f4, kw_f8, l_angle, r_angle, index_of, Token,
}
use secs_lib.Sml.Ast.{
  list, binary, boolean, i1, i2, i4, i8, u1, u2, u4, u8, f4, f8, TemplateItems, nil, cons,
}
use secs_lib.Sml.Parser.{
  P, peek, is, check, behind, is_integer, is_number, unsigned, signed, truth, parse_ascii,
  parse_size, advance,
}
use secs_lib.Sml.Parser.Items.{
  parse_list, to_double, to_float, parse_body, body_here, parse_item_with, parse_items, parse_item,
}
use secs_lib.Sml.Parser.Post.{
  Post, Any, Post-ok, Post-error, Post-bind, Post-le, behind-le, behind-lt, expect-then,
}
use secs_lib.Sml.Parser.{expected_item, unclosed_item, langle_text, rangle_text, item_type_text}
use secs_lib.Sml.Parser.Typed.{
  IsTyped, AreTyped, IsUpTo, parse_array-Post, unsigned-Converts, signed-Converts, Any-Converts,
  parse_ascii-Post, parse_size-Post,
}

-- What reads the items of a list, from any place with fewer than `n` tokens left.
abbrev Reads : P TemplateItems → ℕ → Type 0
Reads items n = (ts : List Token) → length ts < n → Post AreTyped (length ts) (items ts)

parse_list-Post :
    (items : P TemplateItems) (n : ℕ) (ts : List Token)
    → Reads items n
    → length ts < n
    → Post IsTyped (length ts) (parse_list items ts)
unfolding parse_list advance IsTyped
parse_list-Post items n ts r l =
    Post-bind Any (length (behind ts)) IsTyped (length ts) _ (parse_size (behind ts))
      (parse_size-Post (behind ts))
      λ u rest a m.
        Post-bind AreTyped (length rest) IsTyped (length ts) _ (items rest)
          (r rest (omega (arith, behind-le ts)))
          λ xs more h k. Post-ok IsTyped (length ts) (list xs) more h (omega (arith, behind-le ts))

module _ (strtod : List ℕ → ℕ) (narrow : ℕ → ℕ) (items : P TemplateItems) (n : ℕ)
    (reads : Reads items n) where
  parse_body-Post :
      (k : TokenType) (ts : List Token)
      → length ts < n
      → Post IsTyped (length ts) (parse_body strtod narrow items k ts)
  unfolding parse_body advance IsTyped
  parse_body-Post kw_l ts l = parse_list-Post items n ts reads l
  parse_body-Post kw_a ts l =
      Post-le IsTyped (length (behind ts)) (length ts) (parse_ascii (behind ts)) (behind-le ts)
        (parse_ascii-Post (behind ts))
  parse_body-Post kw_b ts l =
      parse_array-Post (IsUpTo 0xff) is_integer (unsigned 0xff) binary ts (unsigned-Converts 0xff)
        λ vs h. h
  parse_body-Post kw_boolean ts l =
      parse_array-Post Any is_integer truth boolean ts (Any-Converts truth) λ vs h. tt
  parse_body-Post kw_u1 ts l =
      parse_array-Post (IsUpTo (2 ^ 8 - 1)) is_integer (unsigned (2 ^ 8 - 1)) u1 ts
        (unsigned-Converts (2 ^ 8 - 1)) λ vs h. h
  parse_body-Post kw_u2 ts l =
      parse_array-Post (IsUpTo (2 ^ 16 - 1)) is_integer (unsigned (2 ^ 16 - 1)) u2 ts
        (unsigned-Converts (2 ^ 16 - 1)) λ vs h. h
  parse_body-Post kw_u4 ts l =
      parse_array-Post (IsUpTo (2 ^ 32 - 1)) is_integer (unsigned (2 ^ 32 - 1)) u4 ts
        (unsigned-Converts (2 ^ 32 - 1)) λ vs h. h
  parse_body-Post kw_u8 ts l =
      parse_array-Post (IsUpTo (2 ^ 64 - 1)) is_integer (unsigned (2 ^ 64 - 1)) u8 ts
        (unsigned-Converts (2 ^ 64 - 1)) λ vs h. h
  parse_body-Post kw_i1 ts l =
      parse_array-Post (IsSigned (2 ^ 8)) is_integer (signed (2 ^ 7)) i1 ts
        (signed-Converts (2 ^ 7)) λ vs h. h
  parse_body-Post kw_i2 ts l =
      parse_array-Post (IsSigned (2 ^ 16)) is_integer (signed (2 ^ 15)) i2 ts
        (signed-Converts (2 ^ 15)) λ vs h. h
  parse_body-Post kw_i4 ts l =
      parse_array-Post (IsSigned (2 ^ 32)) is_integer (signed (2 ^ 31)) i4 ts
        (signed-Converts (2 ^ 31)) λ vs h. h
  parse_body-Post kw_i8 ts l =
      parse_array-Post (IsSigned (2 ^ 64)) is_integer (signed (2 ^ 63)) i8 ts
        (signed-Converts (2 ^ 63)) λ vs h. h
  parse_body-Post kw_f4 ts l =
      parse_array-Post Any is_number (to_float strtod narrow) f4 ts
        (Any-Converts (to_float strtod narrow)) λ vs h. tt
  parse_body-Post kw_f8 ts l =
      parse_array-Post Any is_number (to_double strtod narrow) f8 ts
        (Any-Converts (to_double strtod narrow)) λ vs h. tt
  parse_body-Post _ ts l = Post-error IsTyped (length ts) expected_item item_type_text ts

  -- An item takes a token at least.
  parse_item_with-Post :
      (m : ℕ) (ts : List Token)
      → length ts ≤ suc m
      → length ts ≤ n
      → Post IsTyped m (parse_item_with strtod narrow items ts)
  unfolding parse_item_with body_here is index_of
  parse_item_with-Post m ts l b =
      expect-then IsTyped m l_angle ts expected_item langle_text _ refl λ rest lt.
        Post-bind IsTyped (length rest) IsTyped m _
          (parse_body strtod narrow items (peek rest).token_type rest)
          (parse_body-Post (peek rest).token_type rest (omega arith))
          λ item more h k.
            expect-then IsTyped m r_angle more unclosed_item rangle_text _ refl
              λ end less. Post-ok IsTyped m item end h (omega arith)

module _ (strtod : List ℕ → ℕ) (narrow : ℕ → ℕ) where
  pub parse_items-Post :
      (fuel : ℕ) (ts : List Token)
      → length ts < fuel
      → Post AreTyped (length ts) (parse_items strtod narrow fuel ts)
  unfolding parse_items IsTyped is index_of
  parse_items-Post zero ts l = absurd (omega arith)
  parse_items-Post (suc fuel) ts l = elim (Bool-cases (check l_angle ts)) [
    | inl c ↦
        let some_left : length (behind ts) < length ts = behind-lt l_angle ts refl c in
        rw c (
          Post-bind IsTyped (length ts - 1) AreTyped (length ts) _
            (parse_item_with strtod narrow (parse_items strtod narrow fuel) ts)
            (parse_item_with-Post strtod narrow (parse_items strtod narrow fuel) fuel
              (parse_items-Post fuel) (length ts - 1) ts (omega arith) (omega arith))
            λ x rest h k.
              Post-bind AreTyped (length rest) AreTyped (length ts) _
                (parse_items strtod narrow fuel rest) (parse_items-Post fuel rest (omega arith))
                λ xs more g j. Post-ok AreTyped (length ts) (cons x xs) more (h, g) (omega arith))
    | inr c ↦ rw c (Post-ok AreTyped (length ts) nil ts tt (omega arith))
  ]

  -- With fuel above the number of tokens left, an item comes to an end, and is typed.
  pub parse_item-Post :
      (fuel : ℕ) (ts : List Token)
      → length ts < fuel
      → Post IsTyped (length ts) (parse_item strtod narrow fuel ts)
  unfolding parse_item
  parse_item-Post fuel ts l =
      parse_item_with-Post strtod narrow (parse_items strtod narrow fuel) fuel
        (parse_items-Post fuel) (length ts) ts (omega arith) (omega arith)
