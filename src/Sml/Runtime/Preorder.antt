-- ===== src/Sml/Runtime/Preorder.antt =====
-- `find_preorder_nth` of src/sml/runtime.cpp and the preorder of an item.
use secs_lib.Common.{
  ℕ, zero, suc, ◌+◌, ◌-◌, ◌<◌, ◌≡◌, refl, sym, ap, ◌∙◌, either_branch, false, List, [], ◌∷◌, ◌++◌,
  Option, none, some, arith, ltb, ◌==◌, if◌then◌else◌, length, length-append, get_elem?,
}
use secs_lib.Ii.Item
use secs_lib.Ii.Item.{Item, Items}
use secs_lib.Sml.Runtime.{or_next, walk, walk_all, find_preorder_nth}

-- The items of the tree, each before those below it.
unfoldable mutual
  pub preorder : Item → List Item
  preorder (Item.list xs) = Item.list xs ∷ preorder_all xs
  preorder x = x ∷ []

  pub preorder_all : Items → List Item
  preorder_all Item.nil = []
  preorder_all (Item.cons x xs) = preorder x ++ preorder_all xs

-- A walk over these items from a counter below `n`: it finds the one that brings the counter to `n`, or counts them all.
unfoldable pub Walks : ℕ → ℕ → List Item → ℕ × Option Item → Type 0
Walks n cur items r =
    (r.1 ≡ get_elem? items (n - (cur + 1))) × (r.1 ≡ none → (r.0 ≡ cur + length items) × (r.0 < n))

get_elem?-append_front :
    {A : Type 0} (xs ys : List A) (i : ℕ) (a : A)
    → get_elem? xs i ≡ some a
    → get_elem? (xs ++ ys) i ≡ some a
get_elem?-append_front [] ys i a e = cc
get_elem?-append_front (x ∷ xs) ys zero a e = e
get_elem?-append_front (x ∷ xs) ys (suc i) a e = get_elem?-append_front xs ys i a e

get_elem?-append_back :
    {A : Type 0} (xs ys : List A) (i k : ℕ)
    → i ≡ length xs + k
    → get_elem? (xs ++ ys) i ≡ get_elem? ys k
get_elem?-append_back [] ys i k e = ap (get_elem? ys) (omega (arith, e))
get_elem?-append_back (x ∷ xs) ys zero k e = absurd (omega (arith, e))
get_elem?-append_back (x ∷ xs) ys (suc i) k e = get_elem?-append_back xs ys i k (omega (arith, e))

or_next-Walks :
    (n cur : ℕ) (xs ys : List Item) (next : ℕ → ℕ × Option Item) (r : ℕ × Option Item)
    → Walks n cur xs r
    → ((c : ℕ) → c < n → Walks n c ys (next c))
    → Walks n cur (xs ++ ys) (or_next next r)
unfolding Walks or_next
or_next-Walks n cur xs ys next (c, some found) h k =
    (sym (get_elem?-append_front xs ys (n - (cur + 1)) found (sym h.0)), λ e. cc)
or_next-Walks n cur xs ys next (c, none) h k =
    let counted = h.1 refl in
    let rest = k c counted.1 in
    (
      rest.0
          ∙ sym (
              get_elem?-append_back xs ys (n - (cur + 1)) (n - (c + 1))
                (omega (arith, counted.0, counted.1))),
      λ e. (omega (arith, (rest.1 e).0, counted.0, length-append xs ys), (rest.1 e).1),
    )

-- The item itself, where the counter gets to `n`.
here-Walks :
    (n cur : ℕ) (x : Item) (xs : List Item) (below : ℕ × Option Item)
    → cur < n
    → (cur + 1 < n → Walks n (cur + 1) xs below)
    → Walks n cur (x ∷ xs) (if cur + 1 == n then (cur + 1, some x) else below)
unfolding Walks
here-Walks n cur x xs below l h =
    either_branch (Walks n cur (x ∷ xs)) (cur + 1 == n) _ _
      (λ e.
        let last : n - (cur + 1) ≡ 0 = ground (arith, e) in
        (ap (get_elem? (x ∷ xs)) (sym last), λ z. cc))
      λ e.
        let more : cur + 1 < n = ground (arith, e) in
        let rest = h more in
        let step : n - (cur + 1) ≡ suc (n - (cur + 1 + 1)) = omega (arith, more) in
        (
          rest.0 ∙ ap (get_elem? (x ∷ xs)) (sym step),
          λ z. (omega (arith, (rest.1 z).0), (rest.1 z).1),
        )

-- Nothing below the item.
nothing-Walks : (n cur : ℕ) → cur < n → Walks n cur [] (cur, none)
unfolding Walks
nothing-Walks n cur l = (refl, λ e. (omega arith, l))

mutual
  unfolding walk preorder

  walk-Walks : (n cur : ℕ) (x : Item) → cur < n → Walks n cur (preorder x) (walk n cur x)
  walk-Walks n cur (Item.list xs) l =
      here-Walks n cur (Item.list xs) (preorder_all xs) (walk_all n (cur + 1) xs) l
        λ k. walk_all-Walks n (cur + 1) xs k
  walk-Walks n cur (Item.ascii vs) l =
      here-Walks n cur (Item.ascii vs) [] (cur + 1, none) l λ k. nothing-Walks n (cur + 1) k
  walk-Walks n cur (Item.binary vs) l =
      here-Walks n cur (Item.binary vs) [] (cur + 1, none) l λ k. nothing-Walks n (cur + 1) k
  walk-Walks n cur (Item.boolean vs) l =
      here-Walks n cur (Item.boolean vs) [] (cur + 1, none) l λ k. nothing-Walks n (cur + 1) k
  walk-Walks n cur (Item.i1 vs) l =
      here-Walks n cur (Item.i1 vs) [] (cur + 1, none) l λ k. nothing-Walks n (cur + 1) k
  walk-Walks n cur (Item.i2 vs) l =
      here-Walks n cur (Item.i2 vs) [] (cur + 1, none) l λ k. nothing-Walks n (cur + 1) k
  walk-Walks n cur (Item.i4 vs) l =
      here-Walks n cur (Item.i4 vs) [] (cur + 1, none) l λ k. nothing-Walks n (cur + 1) k
  walk-Walks n cur (Item.i8 vs) l =
      here-Walks n cur (Item.i8 vs) [] (cur + 1, none) l λ k. nothing-Walks n (cur + 1) k
  walk-Walks n cur (Item.u1 vs) l =
      here-Walks n cur (Item.u1 vs) [] (cur + 1, none) l λ k. nothing-Walks n (cur + 1) k
  walk-Walks n cur (Item.u2 vs) l =
      here-Walks n cur (Item.u2 vs) [] (cur + 1, none) l λ k. nothing-Walks n (cur + 1) k
  walk-Walks n cur (Item.u4 vs) l =
      here-Walks n cur (Item.u4 vs) [] (cur + 1, none) l λ k. nothing-Walks n (cur + 1) k
  walk-Walks n cur (Item.u8 vs) l =
      here-Walks n cur (Item.u8 vs) [] (cur + 1, none) l λ k. nothing-Walks n (cur + 1) k
  walk-Walks n cur (Item.f4 vs) l =
      here-Walks n cur (Item.f4 vs) [] (cur + 1, none) l λ k. nothing-Walks n (cur + 1) k
  walk-Walks n cur (Item.f8 vs) l =
      here-Walks n cur (Item.f8 vs) [] (cur + 1, none) l λ k. nothing-Walks n (cur + 1) k

  walk_all-Walks :
      (n cur : ℕ) (xs : Items) → cur < n → Walks n cur (preorder_all xs) (walk_all n cur xs)
  walk_all-Walks n cur Item.nil l = nothing-Walks n cur l
  walk_all-Walks n cur (Item.cons x xs) l =
      or_next-Walks n cur (preorder x) (preorder_all xs) (λ c. walk_all n c xs) (walk n cur x)
        (walk-Walks n cur x l) λ c k. walk_all-Walks n c xs k

-- `find_preorder_nth` counts from 1: it finds the item at that place of the preorder, and nothing
-- at 0 or behind the last.
pub find_preorder_nth-preorder :
    (root : Item) (n : ℕ)
    → find_preorder_nth root n ≡ (if n == 0 then none else get_elem? (preorder root) (n - 1))
unfolding find_preorder_nth Walks
find_preorder_nth-preorder root zero = refl
find_preorder_nth-preorder root (suc n) =
    let found = (walk-Walks (suc n) 0 root (omega arith)).0 in
    let far : ltb (suc n) 1 ≡ false = ground arith in
    let some_place : (suc n == 0) ≡ false = ground arith in rw far (rw some_place found)
