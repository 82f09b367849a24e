-- ===== src/Sml/Render/Tests.antt =====
-- Tests of src/sml/render.cpp.
use secs_lib.Common.{ℕ, ◌≡◌, refl, List, [], ◌∷◌}
use secs_lib.Common.Outcome.{ok, err}
use secs_lib.Ii.Item
use secs_lib.Sml.Ast.{value, var, TemplateItem, list, ascii, u1, nil, cons}
use secs_lib.Sml.Render.{
  RenderContext, missing_variable, render_item, render_array, render_values, render_value,
  of_variable, get, of_type, u1_of,
}
use secs_lib.Sml.Lexer.{same_text}

abbrev greeting : TemplateItem
greeting = list (cons (ascii (value (b'h' ∷ b'i' ∷ []))) (cons (u1 (value 1 ∷ value 2 ∷ [])) nil))

abbrev name : List ℕ
name = b'x' ∷ []

abbrev one_variable : RenderContext
one_variable = (name, Item.u1 (7 ∷ 8 ∷ [])) ∷ []

variable_filled :
    render_item one_variable (u1 (value 1 ∷ var name ∷ [])) ≡ ok (Item.u1 (1 ∷ 7 ∷ 8 ∷ []))
unfolding render_item render_array render_values render_value of_variable get of_type u1_of
    same_text
variable_filled = refl

variable_missing : render_item [] (u1 (value 1 ∷ var name ∷ [])) ≡ err missing_variable
unfolding render_item render_array render_values render_value of_variable get
variable_missing = refl
