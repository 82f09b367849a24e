-- ===== src/Sml/Ast.antt =====
-- include/secs/sml/ast.hpp: the documents that the parser makes. A signed value is a ℤ, and a float
-- is its bit pattern, as in the items.
use secs_lib.Common.{ℕ, Bool, List, [], ◌∷◌, Option, none, some, ◌&&◌, ◌==◌, if◌then◌else◌}
use secs_lib.Common.Int.{ℤ}
use secs_lib.Sml.Lexer.{same_text}

-- A value, or the name of a variable.
pub data ValueExpr (A : Type 0) : Type 0 where
  value : A → ValueExpr A
  var : List ℕ → ValueExpr A

mutual
  pub data TemplateItem : Type 0 where
    list : TemplateItems → TemplateItem
    ascii : ValueExpr (List ℕ) → TemplateItem
    binary : List (ValueExpr ℕ) → TemplateItem
    boolean : List (ValueExpr Bool) → TemplateItem
    i1 : List (ValueExpr ℤ) → TemplateItem
    i2 : List (ValueExpr ℤ) → TemplateItem
    i4 : List (ValueExpr ℤ) → TemplateItem
    i8 : List (ValueExpr ℤ) → TemplateItem
    u1 : List (ValueExpr ℕ) → TemplateItem
    u2 : List (ValueExpr ℕ) → TemplateItem
    u4 : List (ValueExpr ℕ) → TemplateItem
    u8 : List (ValueExpr ℕ) → TemplateItem
    f4 : List (ValueExpr ℕ) → TemplateItem
    f8 : List (ValueExpr ℕ) → TemplateItem

  pub data TemplateItems : Type 0 where
    nil : TemplateItems
    cons : TemplateItem → TemplateItems → TemplateItems

pub record MessageDef : Type 0 where
  pub name : List ℕ
  pub stream : ℕ
  pub function : ℕ
  pub w_bit : Bool
  pub item : TemplateItem

pub record Condition : Type 0 where
  pub message_name : List ℕ
  pub index : Option ℕ
  pub expected : Option TemplateItem

pub record ConditionRule : Type 0 where
  pub condition : Condition
  pub response_name : List ℕ

pub record TimerRule : Type 0 where
  pub interval_seconds : ℕ
  pub message_name : List ℕ

pub record Document : Type 0 where
  pub messages : List MessageDef
  pub conditions : List ConditionRule
  pub timers : List TimerRule

-- `Document::find_message` and `Document::find_by_sf`, over the messages.
unfoldable pub find_message : List ℕ → List MessageDef → Option MessageDef
find_message name [] = none
find_message name (m ∷ ms) =
    let rest = find_message name ms in if same_text m.name name then some m else rest

unfoldable pub find_by_sf : ℕ → ℕ → List MessageDef → Option MessageDef
find_by_sf stream function [] = none
find_by_sf stream function (m ∷ ms) =
    let rest = find_by_sf stream function ms in
    if m.stream == stream && (m.function == function && same_text m.name []) then some m else rest
