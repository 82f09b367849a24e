-- ===== src/Sml/Parser/Messages.antt =====
-- The messages of src/sml/parser.cpp: reading a statement ends, takes a token, and what it gives is in range.
use secs_lib.Common.{
  ℕ, suc, ◌≡◌, ◌≤◌, ◌<◌, refl, Bool, true, false, List, [], Option, none, some, arith, length,
}
use secs_lib.Sml.Token.{
  TokenType, identifier, string, kw_if, kw_every, kw_w, colon, dot, l_angle, Token, index_of,
}
use secs_lib.Sml.Ast.{list, nil}
use secs_lib.Sml.Number.{parse_sf_string}
use secs_lib.Sml.Parser.{
  unexpected_token, invalid_stream_function, message_text, after_colon_text, end_of_message_text,
  format_text, ParserErrc, ParserText, peek, is, behind, advance, expect_value,
}
use secs_lib.Sml.Parser.Statements.{
  message, checked_sf, message_end, parse_sf_token, parse_named, parse_heading, parse_message_item,
  parse_message_def, parse_statement,
}
use secs_lib.Sml.Parser.Post.{
  Post, Any, Post-ok, Post-error, Post-bind, behind-le, matches-then, checks-then, expect-then,
}
use secs_lib.Sml.Parser.Typed.{IsTyped}
use secs_lib.Sml.Parser.Documents.{IsStatement, IsSf, parse_sf_string-IsSf}
use secs_lib.Sml.Parser.TypedItems.{parse_item-Post}
use secs_lib.Sml.Parser.Rules.{parse_if_rule-Post, parse_every_rule-Post}

checked_sf-Post :
    (text : List ℕ) (o : Option (ℕ × ℕ)) (ts : List Token)
    → ((sf : ℕ × ℕ) → o ≡ some sf → IsSf sf)
    → Post IsSf (length ts) (checked_sf text o ts)
unfolding checked_sf
checked_sf-Post text none ts h =
    Post-error IsSf (length ts) invalid_stream_function (format_text text) ts
checked_sf-Post text (some sf) ts h = Post-ok IsSf (length ts) sf ts (h sf refl) (omega arith)

expect_value-Post :
    (k : TokenType) (code : ParserErrc) (text : ParserText) (ts : List Token)
    → Post Any (length ts) (expect_value k code text ts)
unfolding expect_value advance
expect_value-Post k code text ts =
    checks-then Any (length ts) k ts _
      (λ c. Post-ok Any (length ts) (peek ts).value (behind ts) tt (behind-le ts))
      (λ c. Post-error Any (length ts) code text ts)

parse_sf_token-Post : (ts : List Token) → Post Any (length ts) (parse_sf_token ts)
unfolding parse_sf_token advance is index_of
parse_sf_token-Post ts =
    checks-then Any (length ts) identifier ts _
      (λ c. Post-ok Any (length ts) (peek ts).value (behind ts) tt (behind-le ts))
      (λ c. expect_value-Post string unexpected_token after_colon_text ts)

parse_named-Post : (ts : List Token) → Post Any (length ts) (parse_named ts)
unfolding parse_named advance is index_of
parse_named-Post ts =
    let first = (peek ts).value in
    matches-then Any (length ts) colon (behind ts) _ refl
      (λ a l.
        Post-bind Any (length a) Any (length ts) _ (parse_sf_token a) (parse_sf_token-Post a)
          λ text b u k. Post-ok Any (length ts) (first, text) b tt (omega (arith, behind-le ts)))
      (Post-ok Any (length ts) ([], first) (behind ts) tt (behind-le ts))

parse_heading-Post : (ts : List Token) → Post Any (length ts) (parse_heading ts)
unfolding parse_heading is index_of
parse_heading-Post ts =
    let n = length ts in
    checks-then Any n identifier ts _
      (λ c. checks-then Any n l_angle ts _ (λ d. parse_named-Post ts) (λ d. parse_named-Post ts))
      (λ c.
        checks-then Any n l_angle ts _ (λ d. Post-ok Any n ([], []) ts tt (omega arith))
          (λ d. Post-error Any n unexpected_token message_text ts))

module _ (strtod : List ℕ → ℕ) (narrow : ℕ → ℕ) (fuel : ℕ) where
  parse_message_item-Post :
      (ts : List Token)
      → length ts < fuel
      → Post IsTyped (length ts) (parse_message_item strtod narrow fuel ts)
  unfolding parse_message_item is index_of IsTyped
  parse_message_item-Post ts b =
      checks-then IsTyped (length ts) l_angle ts _ (λ c. parse_item-Post strtod narrow fuel ts b)
        (λ c. Post-ok IsTyped (length ts) (list nil) ts tt (omega arith))

  -- What follows the heading, `w` telling whether there was a W.
  message_end-Post :
      (w : Bool) (h : List ℕ × List ℕ) (sf : ℕ × ℕ) (m : ℕ) (ts : List Token)
      → IsSf sf
      → length ts ≤ suc m
      → suc m < fuel
      → Post IsStatement m (message_end strtod narrow fuel h sf w ts)
  unfolding message_end IsStatement is index_of
  message_end-Post w h sf m ts g l b =
      Post-bind IsTyped (length ts) IsStatement m _ (parse_message_item strtod narrow fuel ts)
        (parse_message_item-Post ts (omega arith))
        λ item a i k.
          expect-then IsStatement m dot a unexpected_token end_of_message_text _ refl λ end q.
            Post-ok IsStatement m
              (message
                (record { name = h.0; stream = sf.0; function = sf.1; w_bit = w; item = item }))
              end (g.0, g.1, i) (omega arith)

  parse_message_def-Post :
      (m : ℕ) (ts : List Token)
      → length ts ≤ suc m
      → suc m < fuel
      → Post IsStatement m (parse_message_def strtod narrow fuel ts)
  unfolding parse_message_def IsStatement is index_of
  parse_message_def-Post m ts l b =
      Post-bind Any (length ts) IsStatement m _ (parse_heading ts) (parse_heading-Post ts)
        λ h a u k.
          Post-bind IsSf (length a) IsStatement m _ (checked_sf h.1 (parse_sf_string h.1) a)
            (checked_sf-Post h.1 (parse_sf_string h.1) a (parse_sf_string-IsSf h.1))
            λ sf c g j.
              matches-then IsStatement m kw_w c _ refl
                (λ d i. message_end-Post true h sf m d g (omega arith) b)
                (message_end-Post false h sf m c g (omega arith) b)

  -- A statement takes a token at least.
  pub parse_statement-Post :
      (m : ℕ) (ts : List Token)
      → length ts ≤ suc m
      → suc m < fuel
      → Post IsStatement m (parse_statement strtod narrow fuel ts)
  unfolding parse_statement is index_of
  parse_statement-Post m ts l b =
      matches-then IsStatement m kw_if ts _ refl
        (λ a k. parse_if_rule-Post strtod narrow fuel m a (omega arith) (omega arith))
        (matches-then IsStatement m kw_every ts _ refl
          (λ a k. parse_every_rule-Post strtod narrow fuel m a (omega arith))
          (parse_message_def-Post m ts l b))
