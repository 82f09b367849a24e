-- ===== src/Sml/Parser/Items.antt =====
-- `Parser::parse_item` and the methods for the types of items, of src/sml/parser.cpp.
use secs_lib.Common.{
  ℕ, zero, suc, ◌^◌, ◌-◌, Bool, true, false, ◌||◌, List, [], ◌∷◌, Option, some, if◌then◌else◌,
}
use secs_lib.Common.Run.{stuck, ok}
use secs_lib.Sml.Token.{
  TokenType, kw_l, kw_a, kw_b, kw_boolean, kw_u1, kw_u2, kw_u4, kw_u8, kw_i1, kw_i2, kw_i4, kw_i8,
  kw_f4, kw_f8, l_angle, r_angle, Token,
}
use secs_lib.Sml.Ast.{
  ValueExpr, value, var, TemplateItem, list, ascii, binary, boolean, i1, i2, i4, i8, u1, u2, u4, u8,
  f4, f8, TemplateItems, nil, cons,
}
use secs_lib.Sml.Parser.{
  P, pure, ◌>>=◌, ◌>>◌, expected_item, unclosed_item, langle_text, item_type_text, rangle_text,
  peek, check, advance, error, expect, parse_values, is_integer, is_number, unsigned, signed, truth,
  parse_ascii, parse_size,
}

-- The keyword, and the values behind it.
unfoldable pub parse_array :
    {A : Type 0}
    → (Token → Bool)
    → (List ℕ → Option A)
    → (List (ValueExpr A) → TemplateItem)
    → P TemplateItem
parse_array accepts convert wrap = do
  keyword ← advance
  values ← parse_values accepts convert
  pure (wrap values)

-- The keyword L, and what `items` reads behind the size.
unfoldable pub parse_list : P TemplateItems → P TemplateItem
parse_list items = do keyword ← advance; parse_size; xs ← items; pure (list xs)

module _ (strtod : List ℕ → ℕ) (narrow : ℕ → ℕ) where
  unfoldable pub to_double : List ℕ → Option ℕ
  to_double text = some (strtod text)

  unfoldable pub to_float : List ℕ → Option ℕ
  to_float text = some (narrow (strtod text))

  unfoldable pub parse_body : P TemplateItems → TokenType → P TemplateItem
  parse_body items kw_l = parse_list items
  parse_body items kw_a = advance >>= λ keyword. parse_ascii
  parse_body items kw_b = parse_array is_integer (unsigned 0xff) binary
  parse_body items kw_boolean = parse_array is_integer truth boolean
  parse_body items kw_u1 = parse_array is_integer (unsigned (2 ^ 8 - 1)) u1
  parse_body items kw_u2 = parse_array is_integer (unsigned (2 ^ 16 - 1)) u2
  parse_body items kw_u4 = parse_array is_integer (unsigned (2 ^ 32 - 1)) u4
  parse_body items kw_u8 = parse_array is_integer (unsigned (2 ^ 64 - 1)) u8
  parse_body items kw_i1 = parse_array is_integer (signed (2 ^ 7)) i1
  parse_body items kw_i2 = parse_array is_integer (signed (2 ^ 15)) i2
  parse_body items kw_i4 = parse_array is_integer (signed (2 ^ 31)) i4
  parse_body items kw_i8 = parse_array is_integer (signed (2 ^ 63)) i8
  parse_body items kw_f4 = parse_array is_number to_float f4
  parse_body items kw_f8 = parse_array is_number to_double f8
  parse_body items _ = error expected_item item_type_text

  unfoldable pub body_here : P TemplateItems → P TemplateItem
  body_here items ts = parse_body items (peek ts).token_type ts

  -- One item, with `items` for those of a list.
  unfoldable pub parse_item_with : P TemplateItems → P TemplateItem
  parse_item_with items = do
    expect l_angle expected_item langle_text
    item ← body_here items
    expect r_angle unclosed_item rangle_text
    pure item

  -- The loop of `parse_list`, on fuel, which the items in the list take too.
  unfoldable pub parse_items : ℕ → P TemplateItems
  parse_items zero ts = stuck
  parse_items (suc fuel) ts =
      if check l_angle ts
      then (parse_item_with (parse_items fuel) >>= λ x. parse_items fuel >>= λ xs. pure (cons x xs))
          ts
      else ok (nil, ts)

  unfoldable pub parse_item : ℕ → P TemplateItem
  parse_item fuel = parse_item_with (parse_items fuel)

unfoldable pub is_var : {A : Type 0} → ValueExpr A → Bool
is_var (value a) = false
is_var (var name) = true

unfoldable pub values_has_var : {A : Type 0} → List (ValueExpr A) → Bool
values_has_var [] = false
values_has_var (v ∷ vs) = is_var v || values_has_var vs

unfoldable mutual
  pub item_has_var : TemplateItem → Bool
  item_has_var (list xs) = items_has_var xs
  item_has_var (ascii v) = is_var v
  item_has_var (binary vs) = values_has_var vs
  item_has_var (boolean vs) = values_has_var vs
  item_has_var (i1 vs) = values_has_var vs
  item_has_var (i2 vs) = values_has_var vs
  item_has_var (i4 vs) = values_has_var vs
  item_has_var (i8 vs) = values_has_var vs
  item_has_var (u1 vs) = values_has_var vs
  item_has_var (u2 vs) = values_has_var vs
  item_has_var (u4 vs) = values_has_var vs
  item_has_var (u8 vs) = values_has_var vs
  item_has_var (f4 vs) = values_has_var vs
  item_has_var (f8 vs) = values_has_var vs

  pub items_has_var : TemplateItems → Bool
  items_has_var nil = false
  items_has_var (cons x xs) = item_has_var x || items_has_var xs
