-- ===== src/Sml/Runtime/Found.antt =====
-- Which of the messages of a document a name stands for, said without the indexes of src/sml/runtime.cpp.
use secs_lib.Common.{
  ℕ, ◌≡◌, refl, Bool, ◌&&◌, not, List, [], ◌∷◌, Option, none, some, ◌==◌, if◌then◌else◌,
}
use secs_lib.Sml.Ast.{MessageDef}
use secs_lib.Sml.Lexer.{same_text}
use secs_lib.Sml.Runtime.{is_empty}

abbrev pub first_some : {A : Type 0} → Option A → Option A → Option A
first_some none o = o
first_some (some a) o = some a

abbrev pub where_it : {A : Type 0} → Bool → A → Option A
where_it b a = if b then some a else none

-- The last message of that name.
unfoldable pub last_named : List ℕ → List MessageDef → Option MessageDef
last_named name [] = none
last_named name (m ∷ ms) =
    first_some (last_named name ms) (where_it (not (is_empty m.name) && same_text m.name name) m)

-- The last message without a name of that stream and function.
unfoldable pub last_unnamed : ℕ → ℕ → List MessageDef → Option MessageDef
last_unnamed s f [] = none
last_unnamed s f (m ∷ ms) =
    first_some (last_unnamed s f ms)
      (where_it (is_empty m.name && (m.stream == s && m.function == f)) m)

-- The first message of that stream and function.
unfoldable pub first_of : ℕ → ℕ → List MessageDef → Option MessageDef
first_of s f [] = none
first_of s f (m ∷ ms) = first_some (where_it (m.stream == s && m.function == f) m) (first_of s f ms)

pub first_some_assoc :
    {A : Type 0} (a b c : Option A) → first_some (first_some a b) c ≡ first_some a (first_some b c)
first_some_assoc none b c = refl
first_some_assoc (some a) b c = refl

pub first_some-none : {A : Type 0} (o : Option A) → first_some o none ≡ o
first_some-none none = refl
first_some-none (some a) = refl

-- What the name stands for as a stream and a function: of the messages without a name the last, and
-- if there is none of these, of all the first.
unfoldable pub of_sf : Option (ℕ × ℕ) → List MessageDef → Option MessageDef
of_sf none ms = none
of_sf (some (s, f)) ms = first_some (last_unnamed s f ms) (first_of s f ms)
