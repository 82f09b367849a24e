-- ===== src/Sml/Parser/Returns.antt =====
-- `Parser::parse` of src/sml/parser.cpp on any tokens with an Eof.
use secs_lib.Common.{
  ℕ, zero, suc, ◌≡◌, refl, sym, ◌∙◌, ◌≤◌, ◌<◌, true, false, Bool-cases, inl, inr, List, [], ◌∷◌,
  ◌++◌, append-nil, append_assoc, Option, none, some, arith, length, subst,
}
use secs_lib.Common.Run.{Run, ok, err, stuck}
use secs_lib.Sml.Token.{Token, eof}
use secs_lib.Sml.Ast.{MessageDef, ConditionRule, TimerRule, Document}
use secs_lib.Sml.Parser.{ParserError, ParseResult, P, peek, is, check, at_end, has_eof}
use secs_lib.Sml.Parser.Statements.{
  Statement, message, condition_rule, timer_rule, with_statement, parse_statement, statement_read,
  statements_from, no_statements, parse,
}
use secs_lib.Sml.Parser.Post.{Post}
use secs_lib.Sml.Parser.Ends.{Kept}
use secs_lib.Sml.Parser.EndsStatements.{parse_statement-Kept}
use secs_lib.Sml.Parser.Documents.{IsDocument, IsStatement, with_statement-IsDocument}
use secs_lib.Sml.Parser.Messages.{parse_statement-Post}

-- The statements of each kind.
unfoldable pub messages_of : List Statement → List MessageDef
messages_of [] = []
messages_of (message m ∷ ss) = m ∷ messages_of ss
messages_of (_ ∷ ss) = messages_of ss

unfoldable pub rules_of : List Statement → List ConditionRule
rules_of [] = []
rules_of (condition_rule r ∷ ss) = r ∷ rules_of ss
rules_of (_ ∷ ss) = rules_of ss

unfoldable pub timers_of : List Statement → List TimerRule
timers_of [] = []
timers_of (timer_rule r ∷ ss) = r ∷ timers_of ss
timers_of (_ ∷ ss) = timers_of ss

module _ (strtod : List ℕ → ℕ) (narrow : ℕ → ℕ) where
  -- The statement at the front; an item in it has no more tokens than there are.
  abbrev pub statement_at : P Statement
  statement_at ts = parse_statement strtod narrow (suc (length ts)) ts

  -- The statements one behind the other, up to an Eof token or to the first error.
  pub data Reads : List Token → List Statement → Option ParserError → Type 0 where
    at_the_end : (t : Token) (ts : List Token) → is eof t ≡ true → Reads (t ∷ ts) [] none
    failed :
        (ts : List Token) (e : ParserError)
        → at_end ts ≡ false
        → statement_at ts ≡ err e
        → Reads ts [] (some e)
    statement :
        (ts rest : List Token) (s : Statement) (ss : List Statement) (failure : Option ParserError)
        → at_end ts ≡ false
        → statement_at ts ≡ ok (s, rest)
        → Reads rest ss failure
        → Reads ts (s ∷ ss) failure

  abbrev document_of : List Statement → Document
  document_of ss = record {
    messages = messages_of ss;
    conditions = rules_of ss;
    timers = timers_of ss;
  }

  -- A result with the document of the statements that are read, in range.
  unfoldable pub Gives : List Token → Option ParseResult → Type 0
  Gives ts none = ⊥
  Gives ts (some r) =
      (ss : List Statement) × Reads ts ss r.failure
      × (r.document ≡ document_of ss)
      × IsDocument r.document

  -- The document has these statements behind those of `d`.
  record Extends (d : Document) (ss : List Statement) (e : Document) : Type 0 where
    messages : e.messages ≡ d.messages ++ messages_of ss
    conditions : e.conditions ≡ d.conditions ++ rules_of ss
    timers : e.timers ≡ d.timers ++ timers_of ss

  -- What the loop gives from the tokens `ts` and the document `d` on.
  unfoldable GoesOn : Document → List Token → Option ParseResult → Type 0
  GoesOn d ts none = ⊥
  GoesOn d ts (some r) =
      (ss : List Statement) × Reads ts ss r.failure
      × Extends d ss r.document
      × IsDocument r.document

  Extends-statement :
      (s : Statement) (ss : List Statement) (d e : Document)
      → Extends (with_statement s d) ss e
      → Extends d (s ∷ ss) e
  unfolding with_statement messages_of rules_of timers_of
  Extends-statement (message m) ss d e h = record {
    messages = h.messages ∙ append_assoc d.messages (m ∷ []) (messages_of ss);
    conditions = h.conditions;
    timers = h.timers;
  }
  Extends-statement (condition_rule r) ss d e h = record {
    messages = h.messages;
    conditions = h.conditions ∙ append_assoc d.conditions (r ∷ []) (rules_of ss);
    timers = h.timers;
  }
  Extends-statement (timer_rule r) ss d e h = record {
    messages = h.messages;
    conditions = h.conditions;
    timers = h.timers ∙ append_assoc d.timers (r ∷ []) (timers_of ss);
  }

  GoesOn-statement :
      (s : Statement) (d : Document) (ts rest : List Token) (r : Option ParseResult)
      → at_end ts ≡ false
      → statement_at ts ≡ ok (s, rest)
      → GoesOn (with_statement s d) rest r
      → GoesOn d ts r
  unfolding GoesOn
  GoesOn-statement s d ts rest (some r) b e (ss, reads, extends, ranged) = (
    s ∷ ss,
    statement ts rest s ss r.failure b e reads,
    Extends-statement s ss d r.document extends,
    ranged,
  )
  GoesOn-statement s d ts rest none b e h = h

  Extends-none : (d : Document) → Extends d [] d
  unfolding messages_of rules_of timers_of
  Extends-none d = record {
    messages = sym (append-nil d.messages);
    conditions = sym (append-nil d.conditions);
    timers = sym (append-nil d.timers);
  }

  statement_read-GoesOn :
      (next : Document → List Token → Option ParseResult) (d : Document) (ts : List Token) (m : ℕ)
      (r : Run ParserError (Statement × List Token))
      → at_end ts ≡ false
      → statement_at ts ≡ r
      → IsDocument d
      → Post IsStatement m r
      → Kept true r
      → ((e : Document) (rest : List Token)
          → IsDocument e
          → length rest ≤ m
          → has_eof rest ≡ true
          → GoesOn e rest (next e rest))
      → GoesOn d ts (statement_read next d r)
  unfolding statement_read Post Kept GoesOn
  statement_read-GoesOn next d ts m (ok (s, rest)) b e v h k g =
      GoesOn-statement s d ts rest (next (with_statement s d) rest) b e
        (g (with_statement s d) rest (with_statement-IsDocument s d h.0 v) h.1 k)
  statement_read-GoesOn next d ts m (err x) b e v h k g = ([], failed ts x b e, Extends-none d, v)
  statement_read-GoesOn next d ts m stuck b e v h k g = h

  ended :
      (d : Document) (t : Token) (ts : List Token)
      → is eof t ≡ true
      → IsDocument d
      → GoesOn d (t ∷ ts) (some (record { document = d; failure = none }))
  unfolding GoesOn
  ended d t ts e v = ([], at_the_end t ts e, Extends-none d, v)

  statements_from-GoesOn :
      (fuel : ℕ) (d : Document) (ts : List Token)
      → IsDocument d
      → has_eof ts ≡ true
      → length ts < fuel
      → GoesOn d ts (statements_from strtod narrow fuel d ts)
  unfolding statements_from at_end check peek has_eof
  statements_from-GoesOn zero d ts v h l = absurd (omega arith)
  statements_from-GoesOn (suc fuel) d [] v h l = absurd (ground (arith, h))
  statements_from-GoesOn (suc fuel) d (t ∷ ts) v h l = elim (Bool-cases (is eof t)) [
    | inl c ↦ rw c (ended d t ts c v)
    | inr c ↦ rw c (
        statement_read-GoesOn (statements_from strtod narrow fuel) d (t ∷ ts) (length ts)
          (statement_at (t ∷ ts)) c refl v
          (parse_statement-Post strtod narrow (suc (length (t ∷ ts))) (length ts) (t ∷ ts)
            (omega arith) (omega arith))
          (subst (λ b. Kept b (statement_at (t ∷ ts))) h
            (parse_statement-Kept strtod narrow (suc (length (t ∷ ts))) (t ∷ ts)))
          λ e rest w k b. statements_from-GoesOn fuel e rest w b (omega arith))
  ]

  whole-document :
      (ss : List Statement) (d : Document) → Extends no_statements ss d → d ≡ document_of ss
  whole-document ss d h =
      let m : d.messages ≡ messages_of ss = h.messages in
      let c : d.conditions ≡ rules_of ss = h.conditions in
      let t : d.timers ≡ timers_of ss = h.timers in
      λ i. record { messages = m i; conditions = c i; timers = t i }

  GoesOn-Gives : (ts : List Token) (r : Option ParseResult) → GoesOn no_statements ts r → Gives ts r
  unfolding GoesOn Gives
  GoesOn-Gives ts none h = h
  GoesOn-Gives ts (some r) (ss, reads, extends, ranged) =
      (ss, reads, whole-document ss r.document extends, ranged)

-- For tokens among which there is an Eof the parser gives a result: the messages, the rules and
-- the timers of the statements that `parse_statement` reads one behind the other, each kind in
-- this order, up to an Eof token or to the first error, which is the error of the result. They
-- are in range: the streams up to 127, the functions up to 255, every value of an item one of its
-- type, the index of a condition 1 at least, no variable in what a condition expects, and an
-- interval within 32 bits.
pub parse-Gives :
    (strtod : List ℕ → ℕ) (narrow : ℕ → ℕ) (ts : List Token)
    → has_eof ts ≡ true
    → Gives strtod narrow ts (parse strtod narrow ts)
unfolding parse
parse-Gives strtod narrow ts ends = rw ends (
    GoesOn-Gives strtod narrow ts (statements_from strtod narrow (suc (length ts)) no_statements ts)
      (statements_from-GoesOn strtod narrow (suc (length ts)) no_statements ts
        (record { messages = tt; conditions = tt; timers = tt }) ends (omega arith)))
