-- ===== src/Sml/Render.antt =====
-- src/sml/render.cpp and include/secs/sml/render.hpp: a template becomes an item, its variables
-- replaced by what the host provides. An allocation is taken to succeed.
pub mod Closed
mod Tests
use secs_lib.Common.{ℕ, Bool, true, false, List, [], ◌∷◌, ◌++◌, Option, none, some, if◌then◌else◌}
use secs_lib.Common.Int.{ℤ}
use secs_lib.Common.Outcome.{Result, ok, err, ◌>>=◌}
use secs_lib.Ii.Item
use secs_lib.Ii.Item.{Item, Items}
use secs_lib.Sml.Ast.{
  ValueExpr, value, var, TemplateItem, list, ascii, binary, boolean, i1, i2, i4, i8, u1, u2, u4, u8,
  f4, f8, TemplateItems, nil, cons,
}
use secs_lib.Sml.Lexer.{same_text}

pub data RenderErrc : Type 0 where
  missing_variable type_mismatch : RenderErrc

-- `RenderContext`: the names and their items, one for a name.
abbrev pub RenderContext : Type 0
RenderContext = List (List ℕ × Item)

unfoldable pub get : {A : Type 0} → List ℕ → List (List ℕ × A) → Option A
get name [] = none
get name ((key, a) ∷ rest) = let more = get name rest in if same_text key name then some a else more

unfoldable pub without : {A : Type 0} → List ℕ → List (List ℕ × A) → List (List ℕ × A)
without name [] = []
without name ((key, a) ∷ rest) =
    let more = without name rest in if same_text key name then more else (key, a) ∷ more

-- `insert_or_assign`, as in `RenderContext::set`.
unfoldable pub put : {A : Type 0} → List ℕ → A → List (List ℕ × A) → List (List ℕ × A)
put name a entries = (name, a) ∷ without name entries

-- `get_if` for the types of values.
unfoldable pub ascii_of : Item → Option (List ℕ)
ascii_of (Item.ascii xs) = some xs
ascii_of _ = none

unfoldable pub binary_of : Item → Option (List ℕ)
binary_of (Item.binary xs) = some xs
binary_of _ = none

unfoldable pub boolean_of : Item → Option (List Bool)
boolean_of (Item.boolean xs) = some xs
boolean_of _ = none

unfoldable pub i1_of : Item → Option (List ℤ)
i1_of (Item.i1 xs) = some xs
i1_of _ = none

unfoldable pub i2_of : Item → Option (List ℤ)
i2_of (Item.i2 xs) = some xs
i2_of _ = none

unfoldable pub i4_of : Item → Option (List ℤ)
i4_of (Item.i4 xs) = some xs
i4_of _ = none

unfoldable pub i8_of : Item → Option (List ℤ)
i8_of (Item.i8 xs) = some xs
i8_of _ = none

unfoldable pub u1_of : Item → Option (List ℕ)
u1_of (Item.u1 xs) = some xs
u1_of _ = none

unfoldable pub u2_of : Item → Option (List ℕ)
u2_of (Item.u2 xs) = some xs
u2_of _ = none

unfoldable pub u4_of : Item → Option (List ℕ)
u4_of (Item.u4 xs) = some xs
u4_of _ = none

unfoldable pub u8_of : Item → Option (List ℕ)
u8_of (Item.u8 xs) = some xs
u8_of _ = none

unfoldable pub f4_of : Item → Option (List ℕ)
f4_of (Item.f4 xs) = some xs
f4_of _ = none

unfoldable pub f8_of : Item → Option (List ℕ)
f8_of (Item.f8 xs) = some xs
f8_of _ = none

-- The values of an item of this type.
unfoldable pub of_type : {A : Type 0} → Option (List A) → Result RenderErrc (List A)
of_type none = err type_mismatch
of_type (some xs) = ok xs

unfoldable pub of_variable :
    {A : Type 0} → (Item → Option (List A)) → Option Item → Result RenderErrc (List A)
of_variable get_if none = err missing_variable
of_variable get_if (some item) = of_type (get_if item)

module _ (ctx : RenderContext) where
  -- One value for a literal, all values of its item for a variable.
  unfoldable pub render_value :
      {A : Type 0} → (Item → Option (List A)) → ValueExpr A → Result RenderErrc (List A)
  render_value get_if (value a) = ok (a ∷ [])
  render_value get_if (var name) = of_variable get_if (get name ctx)

  -- `render_numeric`, and the loops of `render_binary` and `render_boolean`.
  unfoldable pub render_values :
      {A : Type 0} → (Item → Option (List A)) → List (ValueExpr A) → Result RenderErrc (List A)
  render_values get_if [] = ok []
  render_values get_if (v ∷ vs) =
      render_value get_if v >>= λ xs. render_values get_if vs >>= λ ys. ok (xs ++ ys)

  unfoldable pub render_ascii : ValueExpr (List ℕ) → Result RenderErrc Item
  render_ascii (value s) = ok (Item.ascii s)
  render_ascii (var name) = of_variable ascii_of (get name ctx) >>= λ s. ok (Item.ascii s)

  -- Values of a type, as its item.
  unfoldable pub render_array :
      {A : Type 0}
      → (Item → Option (List A))
      → (List A → Item)
      → List (ValueExpr A)
      → Result RenderErrc Item
  render_array get_if make_item vs = render_values get_if vs >>= λ xs. ok (make_item xs)

  unfoldable mutual
    pub render_item : TemplateItem → Result RenderErrc Item
    render_item (list xs) = render_items xs >>= λ items. ok (Item.list items)
    render_item (ascii v) = render_ascii v
    render_item (binary vs) = render_array binary_of Item.binary vs
    render_item (boolean vs) = render_array boolean_of Item.boolean vs
    render_item (i1 vs) = render_array i1_of Item.i1 vs
    render_item (i2 vs) = render_array i2_of Item.i2 vs
    render_item (i4 vs) = render_array i4_of Item.i4 vs
    render_item (i8 vs) = render_array i8_of Item.i8 vs
    render_item (u1 vs) = render_array u1_of Item.u1 vs
    render_item (u2 vs) = render_array u2_of Item.u2 vs
    render_item (u4 vs) = render_array u4_of Item.u4 vs
    render_item (u8 vs) = render_array u8_of Item.u8 vs
    render_item (f4 vs) = render_array f4_of Item.f4 vs
    render_item (f8 vs) = render_array f8_of Item.f8 vs

    pub render_items : TemplateItems → Result RenderErrc Items
    render_items nil = ok Item.nil
    render_items (cons x xs) =
        render_item x >>= λ item. render_items xs >>= λ items. ok (Item.cons item items)
