-- ===== src/Sml/Parser/Rules.antt =====
-- The rules of src/sml/parser.cpp, `if` and `every`: reading one ends, and it is in range.
use secs_lib.Common.{
  ℕ, ◌-◌, ◌^◌, ◌≡◌, ◌≤◌, ◌<◌, refl, Bool-cases, inl, inr, true, false, List, Option, none, some,
  arith, ltb, length,
}
use secs_lib.Common.Int.{ℤ, pos, negsuc}
use secs_lib.Sml.Token.{
  identifier, integer, kw_send, dot, l_paren, r_paren, equals, Token, index_of,
}
use secs_lib.Sml.Ast.{TemplateItem}
use secs_lib.Sml.Number.{parse_uint64_literal, parse_int64_literal}
use secs_lib.Sml.Parser.{
  unexpected_token, expected_number, invalid_condition, after_if_text, after_condition_text,
  response_text, end_of_if_text, interval_text, interval_range_text, send_text, message_name_text,
  end_of_every_text, condition_name_text, index_text, index_range_text, index_zero_text,
  after_index_text, placeholder_text, is,
}
use secs_lib.Sml.Parser.Items.{parse_item, item_has_var}
use secs_lib.Sml.Parser.Statements.{
  condition_rule, timer_rule, checked_index, parse_index, no_placeholder, checked_interval,
  parse_expected, parse_condition, parse_if_rule, parse_every_rule,
}
use secs_lib.Sml.Parser.Post.{
  Post, Post-ok, Post-error, Post-bind, matches-then, expect-then, expect_value-then,
}
use secs_lib.Sml.Parser.Typed.{IsTyped}
use secs_lib.Sml.Parser.Documents.{IsIndex, IsExpected, IsCondition, IsStatement}
use secs_lib.Sml.Parser.TypedItems.{parse_item-Post}

-- The number of an index is 1 at least.
checked_index-Post :
    (o : Option ℕ) (ts : List Token) → Post (λ n. 1 ≤ n) (length ts) (checked_index o ts)
unfolding checked_index
checked_index-Post none ts = Post-error (λ n. 1 ≤ n) (length ts) expected_number index_range_text ts
checked_index-Post (some n) ts = elim (Bool-cases (ltb n 1)) [
  | inl c ↦ rw c (Post-error (λ k. 1 ≤ k) (length ts) invalid_condition index_zero_text ts)
  | inr c ↦ rw c (Post-ok (λ k. 1 ≤ k) (length ts) n ts (ground (arith, c)) (omega arith))
]

parse_index-Post : (ts : List Token) → Post IsIndex (length ts) (parse_index ts)
unfolding parse_index IsIndex is index_of
parse_index-Post ts =
    matches-then IsIndex (length ts) l_paren ts _ refl
      (λ a l.
        expect_value-then IsIndex (length ts) integer a expected_number index_text _ refl
          λ text b k.
            Post-bind (λ n. 1 ≤ n) (length b) IsIndex (length ts) _
              (checked_index (parse_uint64_literal text) b)
              (checked_index-Post (parse_uint64_literal text) b)
              λ n c h j.
                expect-then IsIndex (length ts) r_paren c invalid_condition after_index_text _ refl
                  λ d i. Post-ok IsIndex (length ts) (some n) d h (omega arith))
      (Post-ok IsIndex (length ts) none ts tt (omega arith))

no_placeholder-Post :
    (item : TemplateItem) (ts : List Token)
    → Post (λ u. item_has_var item ≡ false) (length ts) (no_placeholder item ts)
unfolding no_placeholder
no_placeholder-Post item ts = elim (Bool-cases (item_has_var item)) [
  | inl c ↦ rw c (Post-error (λ u. true ≡ false) (length ts) invalid_condition placeholder_text ts)
  | inr c ↦ rw c (Post-ok (λ u. false ≡ false) (length ts) tt ts refl (omega arith))
]

checked_interval-Post :
    (o : Option ℤ) (ts : List Token)
    → Post (λ n. n ≤ 2 ^ 32 - 1) (length ts) (checked_interval o ts)
unfolding checked_interval
checked_interval-Post none ts =
    Post-error (λ n. n ≤ 2 ^ 32 - 1) (length ts) expected_number interval_range_text ts
checked_interval-Post (some (negsuc n)) ts =
    Post-error (λ k. k ≤ 2 ^ 32 - 1) (length ts) expected_number interval_range_text ts
checked_interval-Post (some (pos n)) ts = elim (Bool-cases (ltb (2 ^ 32 - 1) n)) [
  | inl c ↦
      rw c (Post-error (λ k. k ≤ 2 ^ 32 - 1) (length ts) expected_number interval_range_text ts)
  | inr c ↦ rw c (Post-ok (λ k. k ≤ 2 ^ 32 - 1) (length ts) n ts (ground (arith, c)) (omega arith))
]

module _ (strtod : List ℕ → ℕ) (narrow : ℕ → ℕ) (fuel : ℕ) where
  parse_expected-Post :
      (ts : List Token)
      → length ts < fuel
      → Post IsExpected (length ts) (parse_expected strtod narrow fuel ts)
  unfolding parse_expected IsExpected is index_of
  parse_expected-Post ts b =
      matches-then IsExpected (length ts) equals ts _ refl
        (λ a l.
          Post-bind IsTyped (length a) IsExpected (length ts) _ (parse_item strtod narrow fuel a)
            (parse_item-Post strtod narrow fuel a (omega arith))
            λ item c h k.
              Post-bind (λ u. item_has_var item ≡ false) (length c) IsExpected (length ts) _
                (no_placeholder item c) (no_placeholder-Post item c)
                λ u d e i. Post-ok IsExpected (length ts) (some item) d (h, e) (omega arith))
        (Post-ok IsExpected (length ts) none ts tt (omega arith))

  parse_condition-Post :
      (ts : List Token)
      → length ts ≤ fuel
      → Post IsCondition (length ts) (parse_condition strtod narrow fuel ts)
  unfolding parse_condition is index_of
  parse_condition-Post ts b =
      expect_value-then IsCondition (length ts) identifier ts invalid_condition condition_name_text
        _ refl
        λ name a l.
          Post-bind IsIndex (length a) IsCondition (length ts) _ (parse_index a)
            (parse_index-Post a)
            λ index c g k.
              Post-bind IsExpected (length c) IsCondition (length ts) _
                (parse_expected strtod narrow fuel c) (parse_expected-Post c (omega arith))
                λ expected d h i.
                  Post-ok IsCondition (length ts)
                    (record { message_name = name; index = index; expected = expected }) d (g, h)
                    (omega arith)

  pub parse_if_rule-Post :
      (m : ℕ) (ts : List Token)
      → length ts ≤ m
      → m ≤ fuel
      → Post IsStatement m (parse_if_rule strtod narrow fuel ts)
  unfolding parse_if_rule IsStatement is index_of
  parse_if_rule-Post m ts l b =
      expect-then IsStatement m l_paren ts unexpected_token after_if_text _ refl λ a k.
        Post-bind IsCondition (length a) IsStatement m _ (parse_condition strtod narrow fuel a)
          (parse_condition-Post a (omega arith))
          λ c d h j.
            expect-then IsStatement m r_paren d unexpected_token after_condition_text _ refl λ e i.
              expect_value-then IsStatement m identifier e unexpected_token response_text _ refl
                λ name f o.
                  expect-then IsStatement m dot f unexpected_token end_of_if_text _ refl λ end q.
                    Post-ok IsStatement m
                      (condition_rule (record { condition = c; response_name = name })) end h
                      (omega arith)

  pub parse_every_rule-Post :
      (m : ℕ) (ts : List Token)
      → length ts ≤ m
      → Post IsStatement m (parse_every_rule strtod narrow fuel ts)
  unfolding parse_every_rule IsStatement is index_of
  parse_every_rule-Post m ts l =
      expect_value-then IsStatement m integer ts expected_number interval_text _ refl λ text a k.
        Post-bind (λ n. n ≤ 2 ^ 32 - 1) (length a) IsStatement m _
          (checked_interval (parse_int64_literal text) a)
          (checked_interval-Post (parse_int64_literal text) a)
          λ seconds c h j.
            expect-then IsStatement m kw_send c unexpected_token send_text _ refl λ d i.
              expect_value-then IsStatement m identifier d unexpected_token message_name_text _ refl
                λ name e o.
                  expect-then IsStatement m dot e unexpected_token end_of_every_text _ refl λ end q.
                    Post-ok IsStatement m
                      (timer_rule (record { interval_seconds = seconds; message_name = name })) end
                      h (omega arith)
