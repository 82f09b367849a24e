-- ===== src/Sml/Runtime/Lookup.antt =====
-- `load` and `get_message` of src/sml/runtime.cpp: which message of a document a name finds.
use secs_lib.Common.{
  ℕ, ◌<◌, ◌≡◌, refl, ap, subst, Bool, true, false, not, ◌≤◌, ◌^◌, ◌-◌, ltb, length, drop, List, [],
  Option, none, some, arith, if◌then◌else◌, get_elem?, All,
}
use secs_lib.Common.Assoc.{lookup}
use secs_lib.Sml.Ast.{MessageDef, Document}
use secs_lib.Sml.Number.{at_most, both, from_chars, starts_with, is_s, split_at_f}
use secs_lib.Sml.Render.{get}
use secs_lib.Sml.Runtime.{
  Runtime, load, get_by_sf, get_or_sf, get_message, parse_sf, sf_parts, whole_small, to_end,
}
use secs_lib.Sml.Runtime.Found.{first_some, last_named, first_some-none, of_sf}
use secs_lib.Sml.Runtime.Indexed.{
  Points, Remain, named, by_sf, indexed_from-document, message_at-Points,
}

at_most-le : (limit : ℕ) (o : Option (ℕ × List ℕ)) (n : ℕ) → at_most limit o ≡ some n → n ≤ limit
unfolding at_most
at_most-le limit none n h = ground arith
at_most-le limit (some (k, rest)) n h = ground arith

not_refused :
    {A : Type 0} (b : Bool) (o : Option A) (a : A) → (if b then none else o) ≡ some a → o ≡ some a
not_refused true o a h = ground arith
not_refused false o a h = h

whole_small-le : (limit : ℕ) (text : List ℕ) (n : ℕ) → whole_small limit text ≡ some n → n ≤ limit
unfolding whole_small
whole_small-le limit text n h = ground (
  arith,
  at_most-le 0 (to_end (from_chars 10 (2 ^ 31) (drop 1 text))) n,
  at_most-le limit (to_end (from_chars 10 (2 ^ 31 - 1) text)) n,
)

both-second : (a b : Option ℕ) (s f : ℕ) → both a b ≡ some (s, f) → b ≡ some f
unfolding both
both-second (some a) (some b) s f h = ground (arith, h)
both-second none b s f h = ground arith
both-second (some a) none s f h = ground arith

sf_parts-small : (o : Option (List ℕ × List ℕ)) (s f : ℕ) → sf_parts o ≡ some (s, f) → f < 256
unfolding sf_parts
sf_parts-small none s f h = ground arith
sf_parts-small (some (before, behind)) s f h =
    let numbers : both (whole_small 127 (drop 1 before)) (whole_small 255 behind) ≡ some (s, f) =
      not_refused (ltb (length before) 2) _ (s, f) h in
    omega (arith, whole_small-le 255 behind f (both-second _ _ s f numbers))

parse_sf-small : (name : List ℕ) (s f : ℕ) → parse_sf name ≡ some (s, f) → f < 256
unfolding parse_sf
parse_sf-small name s f h = sf_parts-small (split_at_f name) s f (
    not_refused (not (starts_with is_s name)) _ (s, f)
      (not_refused (ltb (length name) 4) _ (s, f) h))

module _ (doc : Document) (ranged : All (λ m. m.function < 256) doc.messages) where
  blank : Runtime
  blank = record { document = doc; name_index = []; sf_index = []; loaded = true }

  Remain-all : Remain doc.messages 0 doc.messages
  Remain-all k = ap (get_elem? doc.messages) (omega arith)

  load-document : (load doc).document ≡ doc
  unfolding load blank
  load-document = indexed_from-document doc.messages 0 doc.messages blank

  get_by_sf-load :
      (name : List ℕ) (sf : Option (ℕ × ℕ))
      → parse_sf name ≡ sf
      → get_by_sf sf (load doc) ≡ of_sf sf doc.messages
  unfolding get_by_sf of_sf load lookup blank
  get_by_sf-load name none e = refl
  get_by_sf-load name (some (s, f)) e =
      message_at-Points doc.messages (load doc) _ _ (ap (λ d. d.messages) load-document) (
        by_sf doc.messages s f (parse_sf-small name s f e) doc.messages 0 blank none ranged
          Remain-all tt)

  -- `o` is what the index of names gives.
  by_name :
      (name : List ℕ) (o : Option ℕ) (om : Option MessageDef)
      → Points doc.messages o om
      → get_or_sf name o (load doc) ≡ first_some om (of_sf (parse_sf name) doc.messages)
  unfolding get_or_sf
  by_name name none none p = get_by_sf-load name (parse_sf name) refl
  by_name name (some i) (some m) p =
      message_at-Points doc.messages (load doc) (some i) (some m)
        (ap (λ d. d.messages) load-document) p
  by_name name none (some m) p = absurd p
  by_name name (some i) none p = absurd p

-- After `load` of a document whose functions are bytes, `get_message` of a name is the last message
-- of that name; if there is none, and the name is of the form SxFy, the last message without a name
-- of that stream and function; and if there is none either, the first message of that stream and
-- function; and nothing in every other case.
pub get_message-load :
    (name : List ℕ) (doc : Document)
    → All (λ m. m.function < 256) doc.messages
    → get_message name (load doc)
      ≡ first_some (last_named name doc.messages) (of_sf (parse_sf name) doc.messages)
unfolding get_message load get blank
get_message-load name doc ranged = by_name doc ranged name _ (last_named name doc.messages) (
    subst (Points doc.messages _) (first_some-none (last_named name doc.messages))
      (named doc.messages name doc.messages 0 (blank doc ranged) none (Remain-all doc ranged) tt))
