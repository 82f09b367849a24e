-- ===== src/Sml/Runtime.antt =====
-- src/sml/runtime.cpp and include/secs/sml/runtime.hpp: the messages of a document by name and by
-- stream and function, and the conditions that a received item meets. An allocation is taken to
-- succeed. The comparisons of floats within a tolerance are parameters.
pub mod Found
pub mod Maps
pub mod Indexed
pub mod Lookup
pub mod Preorder
pub mod Body
mod Tests
use secs_lib.Common.{
  ℕ, suc, ◌+◌, ◌*◌, ◌^◌, ◌-◌, Bool, true, false, ◌&&◌, ◌||◌, not, List, [], ◌∷◌, Option, none, some,
  ltb, ◌==◌, if◌then◌else◌, length, drop, get_elem?,
}
use secs_lib.Common.Assoc.{lookup, assign}
use secs_lib.Common.Outcome.{Result, ok, err}
use secs_lib.Core.Error.{invalid_argument}
use secs_lib.Ii.Format.{Errc}
use secs_lib.Ii.Item
use secs_lib.Ii.Item.{Item, Items}
use secs_lib.Ii.Encode.{encode}
use secs_lib.Ii.Equal.{all_equal, equal_item}
use secs_lib.Sml.Ast.{MessageDef, Condition, ConditionRule, Document}
use secs_lib.Sml.Number.{from_chars, at_most, starts_with, is_minus, is_s, split_at_f, both}
use secs_lib.Sml.Render.{RenderErrc, RenderContext, get, put, render_item}

-- The numbers in `parse_sf` take up the whole of their text.
unfoldable pub to_end : Option (ℕ × List ℕ) → Option (ℕ × List ℕ)
to_end (some (n, [])) = some (n, [])
to_end _ = none

unfoldable pub whole_small : ℕ → List ℕ → Option ℕ
whole_small limit text =
    if starts_with is_minus text
    then at_most 0 (to_end (from_chars 10 (2 ^ 31) (drop 1 text)))
    else at_most limit (to_end (from_chars 10 (2 ^ 31 - 1) text))

unfoldable pub sf_parts : Option (List ℕ × List ℕ) → Option (ℕ × ℕ)
sf_parts none = none
sf_parts (some (s, f)) =
    if ltb (length s) 2 then none else both (whole_small 127 (drop 1 s)) (whole_small 255 f)

unfoldable pub parse_sf : List ℕ → Option (ℕ × ℕ)
parse_sf name =
    if ltb (length name) 4
    then none
    else (if not (starts_with is_s name) then none else sf_parts (split_at_f name))

pub record Runtime : Type 0 where
  pub document : Document
  pub name_index : List (List ℕ × ℕ)
  pub sf_index : List (ℕ × ℕ)
  pub loaded : Bool

unfoldable pub is_empty : List ℕ → Bool
is_empty [] = true
is_empty (c ∷ cs) = false

unfoldable pub is_there : Option ℕ → Bool
is_there none = false
is_there (some i) = true

unfoldable pub sf_key : ℕ → ℕ → ℕ
sf_key stream function = stream * 2 ^ 8 + function

-- A message without a name takes its stream and function over, a named one only where they are free.
unfoldable pub indexed : ℕ → MessageDef → Runtime → Runtime
indexed i m r =
    let key = sf_key m.stream m.function in
    record r {
      name_index = if is_empty m.name then r.name_index else put m.name i r.name_index;
      sf_index =
          if is_empty m.name || not (is_there (lookup key r.sf_index))
          then assign key i r.sf_index
          else r.sf_index;
    }

unfoldable pub indexed_from : ℕ → List MessageDef → Runtime → Runtime
indexed_from i [] r = r
indexed_from i (m ∷ ms) r = indexed_from (suc i) ms (indexed i m r)

-- `load` of a document.
unfoldable pub load : Document → Runtime
load doc =
    indexed_from 0 doc.messages
      (record { document = doc; name_index = []; sf_index = []; loaded = true })

unfoldable pub message_at : Option ℕ → Runtime → Option MessageDef
message_at none r = none
message_at (some i) r = get_elem? r.document.messages i

unfoldable pub get_by_sf : Option (ℕ × ℕ) → Runtime → Option MessageDef
get_by_sf none r = none
get_by_sf (some (stream, function)) r = message_at (lookup (sf_key stream function) r.sf_index) r

unfoldable pub get_or_sf : List ℕ → Option ℕ → Runtime → Option MessageDef
get_or_sf name none r = get_by_sf (parse_sf name) r
get_or_sf name (some i) r = message_at (some i) r

unfoldable pub get_message : List ℕ → Runtime → Option MessageDef
get_message name r = get_or_sf name (get name r.name_index) r

-- `find_preorder_nth`: the counter, and the item if it was found. `next` goes on where it was not.
unfoldable pub or_next : (ℕ → ℕ × Option Item) → ℕ × Option Item → ℕ × Option Item
or_next next (cur, some found) = (cur, some found)
or_next next (cur, none) = next cur

unfoldable mutual
  pub walk : ℕ → ℕ → Item → ℕ × Option Item
  walk n cur (Item.list xs) =
      let below = walk_all n (cur + 1) xs in
      if cur + 1 == n then (cur + 1, some (Item.list xs)) else below
  walk n cur x = if cur + 1 == n then (cur + 1, some x) else (cur + 1, none)

  pub walk_all : ℕ → ℕ → Items → ℕ × Option Item
  walk_all n cur Item.nil = (cur, none)
  walk_all n cur (Item.cons x xs) = or_next (λ c. walk_all n c xs) (walk n cur x)

unfoldable pub find_preorder_nth : Item → ℕ → Option Item
find_preorder_nth root n = if ltb n 1 then none else (walk n 0 root).1

-- `f4_close` and `f8_close` stand for float_almost_equal and double_almost_equal.
module _ (f4_close f8_close : ℕ → ℕ → Bool) where
  unfoldable pub items_equal : Item → Item → Bool
  items_equal (Item.f4 xs) (Item.f4 ys) = all_equal f4_close xs ys
  items_equal (Item.f8 xs) (Item.f8 ys) = all_equal f8_close xs ys
  items_equal a b = equal_item a b

  unfoldable pub rendered_equal : Item → Result RenderErrc Item → Bool
  rendered_equal elem (err e) = false
  rendered_equal elem (ok expected) = items_equal elem expected

  unfoldable pub is_list : Item → Bool
  is_list (Item.list xs) = true
  is_list _ = false

  unfoldable pub element_equal : Option Item → Result RenderErrc Item → Bool
  element_equal none r = false
  element_equal (some elem) r = rendered_equal elem r

  -- Only an index and an expected item together ask for more than the message.
  unfoldable pub match_element : Condition → Item → RenderContext → Bool
  match_element cond item ctx = elim cond.index [
    | none ↦ true
    | some idx ↦ elim cond.expected [
      | none ↦ true
      | some tpl ↦ is_list item && element_equal (find_preorder_nth item idx) (render_item ctx tpl)
    ]
  ]

  unfoldable pub is_sf : ℕ → ℕ → Option (ℕ × ℕ) → Bool
  is_sf stream function none = false
  is_sf stream function (some (s, f)) = stream == s && function == f

  unfoldable pub is_of_message : ℕ → ℕ → Option MessageDef → Bool
  is_of_message stream function none = false
  is_of_message stream function (some m) = m.stream == stream && m.function == function

  unfoldable pub match_message : List ℕ → ℕ → ℕ → Option (ℕ × ℕ) → Runtime → Bool
  match_message name stream function none r = is_of_message stream function (get_message name r)
  match_message name stream function (some sf) r = is_sf stream function (some sf)

  unfoldable pub match_condition : Condition → ℕ → ℕ → Item → RenderContext → Runtime → Bool
  match_condition cond stream function item ctx r =
      match_message cond.message_name stream function (parse_sf cond.message_name) r
      && match_element cond item ctx

  unfoldable pub match_rules :
      List ConditionRule → ℕ → ℕ → Item → RenderContext → Runtime → Option (List ℕ)
  match_rules [] stream function item ctx r = none
  match_rules (rule ∷ rules) stream function item ctx r =
      let rest = match_rules rules stream function item ctx r in
      if match_condition rule.condition stream function item ctx r
      then some rule.response_name
      else rest

  unfoldable pub match_response : ℕ → ℕ → Item → RenderContext → Runtime → Option (List ℕ)
  match_response stream function item ctx r =
      match_rules r.document.conditions stream function item ctx r

-- The errors of `encode_message_body`.
pub data BodyErrc : Type 0 where
  no_message : BodyErrc
  not_rendered : RenderErrc → BodyErrc
  not_encoded : Errc → BodyErrc

pub record MessageBody : Type 0 where
  pub bytes : List ℕ
  pub stream : ℕ
  pub function : ℕ
  pub w_bit : Bool

unfoldable pub encoded_body : MessageDef → Option Errc × List ℕ → Result BodyErrc MessageBody
encoded_body m (some e, out) = err (not_encoded e)
encoded_body m (none, out) =
    ok (record { bytes = out; stream = m.stream; function = m.function; w_bit = m.w_bit })

unfoldable pub rendered_body : MessageDef → Result RenderErrc Item → Result BodyErrc MessageBody
rendered_body m (err e) = err (not_rendered e)
rendered_body m (ok item) = encoded_body m (encode item [])

unfoldable pub message_body : RenderContext → Option MessageDef → Result BodyErrc MessageBody
message_body ctx none = err no_message
message_body ctx (some m) = rendered_body m (render_item ctx m.item)

unfoldable pub encode_message_body : List ℕ → RenderContext → Runtime → Result BodyErrc MessageBody
encode_message_body name ctx r = message_body ctx (get_message name r)
