-- ===== src/Sml/Render/Closed.antt =====
-- Templates of src/sml/render.cpp without variables.
use secs_lib.Common.{ℕ, ◌≡◌, refl, ap, ◌∙◌, Bool, true, false, ◌||◌, List, [], ◌∷◌, ◌++◌, Option}
use secs_lib.Common.Outcome.{ok, ◌>>=◌}
use secs_lib.Ii.Item
use secs_lib.Ii.Item.{Item, Items}
use secs_lib.Sml.Ast.{
  ValueExpr, value, var, TemplateItem, list, ascii, binary, boolean, i1, i2, i4, i8, u1, u2, u4, u8,
  f4, f8, TemplateItems, nil, cons,
}
use secs_lib.Sml.Parser.Items.{is_var, values_has_var, item_has_var, items_has_var}
use secs_lib.Sml.Render.{
  RenderContext, render_value, render_values, render_ascii, render_array, render_item, render_items,
  binary_of, boolean_of, i1_of, i2_of, i4_of, i8_of, u1_of, u2_of, u4_of, u8_of, f4_of, f8_of,
}

-- Two tests that both fail.
neither : (a b : Bool) → (a || b) ≡ false → (a ≡ false) × (b ≡ false)
neither true b e = absurd cc
neither false b e = (refl, e)

-- The literals themselves; a variable has none.
unfoldable pub literal : {A : Type 0} → ValueExpr A → List A
literal (value a) = a ∷ []
literal (var name) = []

unfoldable pub literals : {A : Type 0} → List (ValueExpr A) → List A
literals [] = []
literals (v ∷ vs) = literal v ++ literals vs

unfoldable pub ascii_literal : ValueExpr (List ℕ) → List ℕ
ascii_literal (value s) = s
ascii_literal (var name) = []

-- The item that a template without variables stands for.
unfoldable mutual
  pub plain_item : TemplateItem → Item
  plain_item (list xs) = Item.list (plain_items xs)
  plain_item (ascii v) = Item.ascii (ascii_literal v)
  plain_item (binary vs) = Item.binary (literals vs)
  plain_item (boolean vs) = Item.boolean (literals vs)
  plain_item (i1 vs) = Item.i1 (literals vs)
  plain_item (i2 vs) = Item.i2 (literals vs)
  plain_item (i4 vs) = Item.i4 (literals vs)
  plain_item (i8 vs) = Item.i8 (literals vs)
  plain_item (u1 vs) = Item.u1 (literals vs)
  plain_item (u2 vs) = Item.u2 (literals vs)
  plain_item (u4 vs) = Item.u4 (literals vs)
  plain_item (u8 vs) = Item.u8 (literals vs)
  plain_item (f4 vs) = Item.f4 (literals vs)
  plain_item (f8 vs) = Item.f8 (literals vs)

  pub plain_items : TemplateItems → Items
  plain_items nil = Item.nil
  plain_items (cons x xs) = Item.cons (plain_item x) (plain_items xs)

render_values-literals :
    {A : Type 0} (ctx : RenderContext) (get_if : Item → Option (List A)) (vs : List (ValueExpr A))
    → values_has_var vs ≡ false
    → render_values ctx get_if vs ≡ ok (literals vs)
unfolding render_values render_value values_has_var is_var literals literal
render_values-literals ctx get_if [] e = refl
render_values-literals ctx get_if (value a ∷ vs) e =
    ap (λ r. r >>= λ ys. ok (a ∷ ys)) (render_values-literals ctx get_if vs e)
render_values-literals ctx get_if (var name ∷ vs) e = absurd cc

render_array-literals :
    {A : Type 0} (ctx : RenderContext) (get_if : Item → Option (List A)) (make_item : List A → Item)
    (vs : List (ValueExpr A))
    → values_has_var vs ≡ false
    → render_array ctx get_if make_item vs ≡ ok (make_item (literals vs))
unfolding render_array
render_array-literals ctx get_if make_item vs e =
    ap (λ r. r >>= λ xs. ok (make_item xs)) (render_values-literals ctx get_if vs e)

mutual
  unfolding render_item render_ascii item_has_var items_has_var is_var plain_item ascii_literal

  -- A template without variables is rendered to its own item whatever the host provides: no variable is missing,
  -- and none has the wrong type.
  pub render_item-plain_item :
      (ctx : RenderContext) (t : TemplateItem)
      → item_has_var t ≡ false
      → render_item ctx t ≡ ok (plain_item t)
  render_item-plain_item ctx (list xs) e =
      ap (λ r. r >>= λ items. ok (Item.list items)) (render_items-plain_items ctx xs e)
  render_item-plain_item ctx (ascii (value s)) e = refl
  render_item-plain_item ctx (ascii (var name)) e = absurd cc
  render_item-plain_item ctx (binary vs) e = render_array-literals ctx binary_of Item.binary vs e
  render_item-plain_item ctx (boolean vs) e = render_array-literals ctx boolean_of Item.boolean vs e
  render_item-plain_item ctx (i1 vs) e = render_array-literals ctx i1_of Item.i1 vs e
  render_item-plain_item ctx (i2 vs) e = render_array-literals ctx i2_of Item.i2 vs e
  render_item-plain_item ctx (i4 vs) e = render_array-literals ctx i4_of Item.i4 vs e
  render_item-plain_item ctx (i8 vs) e = render_array-literals ctx i8_of Item.i8 vs e
  render_item-plain_item ctx (u1 vs) e = render_array-literals ctx u1_of Item.u1 vs e
  render_item-plain_item ctx (u2 vs) e = render_array-literals ctx u2_of Item.u2 vs e
  render_item-plain_item ctx (u4 vs) e = render_array-literals ctx u4_of Item.u4 vs e
  render_item-plain_item ctx (u8 vs) e = render_array-literals ctx u8_of Item.u8 vs e
  render_item-plain_item ctx (f4 vs) e = render_array-literals ctx f4_of Item.f4 vs e
  render_item-plain_item ctx (f8 vs) e = render_array-literals ctx f8_of Item.f8 vs e

  render_items-plain_items :
      (ctx : RenderContext) (xs : TemplateItems)
      → items_has_var xs ≡ false
      → render_items ctx xs ≡ ok (plain_items xs)
  render_items-plain_items ctx nil e = refl
  render_items-plain_items ctx (cons x xs) e =
      let parts = neither (item_has_var x) (items_has_var xs) e in
      ap (λ r. r >>= λ item. render_items ctx xs >>= λ items. ok (Item.cons item items))
        (render_item-plain_item ctx x parts.0)
      ∙ ap (λ r. r >>= λ items. ok (Item.cons (plain_item x) items))
          (render_items-plain_items ctx xs parts.1)
