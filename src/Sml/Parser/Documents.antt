-- ===== src/Sml/Parser/Documents.antt =====
-- `Parser::parse` of src/sml/parser.cpp: it ends, and what it accepts is in range.
use secs_lib.Common.{
  ℕ, ◌-◌, ◌^◌, ◌≡◌, ◌≤◌, refl, Bool, true, false, not, List, [], ◌∷◌, Option, none, some, arith,
  ltb, if◌then◌else◌, length, All, All-append, subst, drop,
}
use secs_lib.Sml.Ast.{TemplateItem, MessageDef, Condition, ConditionRule, TimerRule, Document}
use secs_lib.Sml.Number.{
  parse_sf_string, at_most, small_number, both, sf_numbers, split_at_f, starts_with, from_chars,
  is_s, unquoted,
}
use secs_lib.Sml.Parser.Items.{item_has_var}
use secs_lib.Sml.Parser.Statements.{Statement, message, condition_rule, timer_rule, with_statement}
use secs_lib.Sml.Parser.Typed.{IsTyped}

unfoldable pub IsIndex : Option ℕ → Type 0
IsIndex none = Unit
IsIndex (some n) = 1 ≤ n

-- An expected item is typed and names no variable.
unfoldable pub IsExpected : Option TemplateItem → Type 0
IsExpected none = Unit
IsExpected (some item) = IsTyped item × (item_has_var item ≡ false)

abbrev pub IsCondition : Condition → Type 0
IsCondition c = IsIndex c.index × IsExpected c.expected

abbrev pub IsMessage : MessageDef → Type 0
IsMessage m = (m.stream ≤ 127) × (m.function ≤ 255) × IsTyped m.item

abbrev pub IsTimer : TimerRule → Type 0
IsTimer r = r.interval_seconds ≤ 2 ^ 32 - 1

abbrev pub IsRule : ConditionRule → Type 0
IsRule r = IsCondition r.condition

pub record IsDocument (d : Document) : Type 0 where
  pub messages : All IsMessage d.messages
  pub conditions : All IsRule d.conditions
  pub timers : All IsTimer d.timers

unfoldable pub IsStatement : Statement → Type 0
IsStatement (message m) = IsMessage m
IsStatement (condition_rule r) = IsRule r
IsStatement (timer_rule r) = IsTimer r

pub with_statement-IsDocument :
    (s : Statement) (d : Document) → IsStatement s → IsDocument d → IsDocument (with_statement s d)
unfolding with_statement IsStatement
with_statement-IsDocument (message m) d h v = record {
  messages = All-append IsMessage d.messages (m ∷ []) v.messages (h, tt);
  conditions = v.conditions;
  timers = v.timers;
}
with_statement-IsDocument (condition_rule r) d h v = record {
  messages = v.messages;
  conditions = All-append IsRule d.conditions (r ∷ []) v.conditions (h, tt);
  timers = v.timers;
}
with_statement-IsDocument (timer_rule r) d h v = record {
  messages = v.messages;
  conditions = v.conditions;
  timers = All-append IsTimer d.timers (r ∷ []) v.timers (h, tt);
}

at_most-le : (limit n : ℕ) (o : Option (ℕ × List ℕ)) → at_most limit o ≡ some n → n ≤ limit
unfolding at_most
at_most-le limit n none e = cc
at_most-le limit n (some (k, rest)) e = ground (arith, e)

small_number-le : (limit n : ℕ) (text : List ℕ) → small_number limit text ≡ some n → n ≤ limit
unfolding small_number
small_number-le limit n text e = ground (
  arith,
  e,
  at_most-le 0 n (from_chars 10 (2 ^ 31) (drop 1 text)),
  at_most-le limit n (from_chars 10 (2 ^ 31 - 1) text),
)

-- The stream and the function are in range.
abbrev pub IsSf : ℕ × ℕ → Type 0
IsSf sf = (sf.0 ≤ 127) × (sf.1 ≤ 255)

both-IsSf :
    (a b : Option ℕ) (sf : ℕ × ℕ)
    → ((s : ℕ) → a ≡ some s → s ≤ 127)
    → ((f : ℕ) → b ≡ some f → f ≤ 255)
    → both a b ≡ some sf
    → IsSf sf
unfolding both
both-IsSf (some s) (some f) sf p q e =
    let same : (s, f) ≡ sf = cc in subst (λ x. IsSf x) same (p s refl, q f refl)
both-IsSf (some s) none sf p q e = cc
both-IsSf none b sf p q e = cc

-- A text that is not refused is read.
not_refused :
    {A : Type 0} (refused : Bool) (o : Option A) (a : A)
    → (if refused then none else o) ≡ some a
    → o ≡ some a
not_refused true o a e = cc
not_refused false o a e = e

sf_numbers-IsSf : (o : Option (List ℕ × List ℕ)) (sf : ℕ × ℕ) → sf_numbers o ≡ some sf → IsSf sf
unfolding sf_numbers
sf_numbers-IsSf none sf e = cc
sf_numbers-IsSf (some (s, f)) sf e =
    both-IsSf (small_number 127 (drop 1 s)) (small_number 255 f) sf
      (λ n. small_number-le 127 n (drop 1 s)) (λ n. small_number-le 255 n f)
      (not_refused (ltb (length s) 2) (both (small_number 127 (drop 1 s)) (small_number 255 f)) sf
        e)

pub parse_sf_string-IsSf : (text : List ℕ) (sf : ℕ × ℕ) → parse_sf_string text ≡ some sf → IsSf sf
unfolding parse_sf_string
parse_sf_string-IsSf text sf e =
    let split = sf_numbers (split_at_f (unquoted text)) in
    let short = ltb (length text) 4 in
    let rest = if not (starts_with is_s (unquoted text)) then none else split in
    sf_numbers-IsSf (split_at_f (unquoted text)) sf
      (not_refused (not (starts_with is_s (unquoted text))) split sf (not_refused short rest sf e))
