-- ===== src/Ii/Equal.antt =====
-- `operator==` of src/ii/item.cpp, which compares floats by their bits.
use secs_lib.Common.{
  ℕ, ◌≡◌, refl, ap, subst, ◌↔◌, Bool, true, false, ◌&&◌, not, List, [], ◌∷◌, ◌==◌, ==_iff, arith,
}
use secs_lib.Common.Int.{ℤ, pos, negsuc}
use secs_lib.Ii.Item.{Item, Items}
use secs_lib.Ii.Item

unfoldable pub all_equal : {A : Type 0} → (A → A → Bool) → List A → List A → Bool
all_equal same [] [] = true
all_equal same (x ∷ xs) (y ∷ ys) = same x y && all_equal same xs ys
all_equal same _ _ = false

unfoldable pub equal_int : ℤ → ℤ → Bool
equal_int (pos m) (pos n) = m == n
equal_int (negsuc m) (negsuc n) = m == n
equal_int _ _ = false

unfoldable pub equal_bool : Bool → Bool → Bool
equal_bool true b = b
equal_bool false b = not b

unfoldable pub equal_nat : ℕ → ℕ → Bool
equal_nat m n = m == n

unfoldable mutual
  pub equal_item : Item → Item → Bool
  equal_item (Item.list xs) (Item.list ys) = equal_items xs ys
  equal_item (Item.ascii xs) (Item.ascii ys) = all_equal equal_nat xs ys
  equal_item (Item.binary xs) (Item.binary ys) = all_equal equal_nat xs ys
  equal_item (Item.boolean xs) (Item.boolean ys) = all_equal equal_bool xs ys
  equal_item (Item.i1 xs) (Item.i1 ys) = all_equal equal_int xs ys
  equal_item (Item.i2 xs) (Item.i2 ys) = all_equal equal_int xs ys
  equal_item (Item.i4 xs) (Item.i4 ys) = all_equal equal_int xs ys
  equal_item (Item.i8 xs) (Item.i8 ys) = all_equal equal_int xs ys
  equal_item (Item.u1 xs) (Item.u1 ys) = all_equal equal_nat xs ys
  equal_item (Item.u2 xs) (Item.u2 ys) = all_equal equal_nat xs ys
  equal_item (Item.u4 xs) (Item.u4 ys) = all_equal equal_nat xs ys
  equal_item (Item.u8 xs) (Item.u8 ys) = all_equal equal_nat xs ys
  equal_item (Item.f4 xs) (Item.f4 ys) = all_equal equal_nat xs ys
  equal_item (Item.f8 xs) (Item.f8 ys) = all_equal equal_nat xs ys
  equal_item _ _ = false

  pub equal_items : Items → Items → Bool
  equal_items Item.nil Item.nil = true
  equal_items (Item.cons x xs) (Item.cons y ys) = equal_item x y && equal_items xs ys
  equal_items _ _ = false

-- A Boolean test of a type that tells its values apart.
abbrev Tells : {A : Type 0} → (A → A → Bool) → Type 0
Tells {A} same = (x y : A) → (same x y ≡ true) ↔ (x ≡ y)

both_true : (a b : Bool) → a && b ≡ true → (a ≡ true) × (b ≡ true)
both_true true true h = (refl, refl)
both_true true false h = ground arith
both_true false b h = ground arith

equal_nat-Tells : Tells equal_nat
unfolding equal_nat
equal_nat-Tells = ==_iff

equal_bool-Tells : Tells equal_bool
unfolding equal_bool
equal_bool-Tells true true = (λ h. refl, λ h. refl)
equal_bool-Tells true false = ground arith
equal_bool-Tells false true = ground arith
equal_bool-Tells false false = (λ h. refl, λ h. refl)

equal_int-Tells : Tells equal_int
unfolding equal_int
equal_int-Tells (pos m) (pos n) = ground arith
equal_int-Tells (negsuc m) (negsuc n) = ground arith
equal_int-Tells (pos m) (negsuc n) = ground arith
equal_int-Tells (negsuc m) (pos n) = ground arith

cong_cons : {A : Type 0} {x y : A} {xs ys : List A} → x ≡ y → xs ≡ ys → x ∷ xs ≡ y ∷ ys
cong_cons p q = cc

all_equal-Tells : {A : Type 0} {same : A → A → Bool} → Tells same → Tells (all_equal same)
unfolding all_equal
all_equal-Tells h [] [] = (λ e. refl, λ e. refl)
all_equal-Tells {same} h (x ∷ xs) (y ∷ ys) = (
  λ e.
      let (p, q) = both_true (same x y) (all_equal same xs ys) e in
      cong_cons ((h x y).0 p) ((all_equal-Tells h xs ys).0 q),
  λ e. ground (arith, h x y, all_equal-Tells h xs ys),
)
all_equal-Tells h [] (y ∷ ys) = ground arith
all_equal-Tells h (x ∷ xs) [] = ground arith

mutual
  unfolding equal_item equal_items

  equal_item_sound : (a b : Item) → equal_item a b ≡ true → a ≡ b
  equal_item_sound (Item.list xs) (Item.list ys) h = ap Item.list (equal_items_sound xs ys h)
  equal_item_sound (Item.ascii xs) (Item.ascii ys) h =
      ap Item.ascii ((all_equal-Tells equal_nat-Tells xs ys).0 h)
  equal_item_sound (Item.binary xs) (Item.binary ys) h =
      ap Item.binary ((all_equal-Tells equal_nat-Tells xs ys).0 h)
  equal_item_sound (Item.boolean xs) (Item.boolean ys) h =
      ap Item.boolean ((all_equal-Tells equal_bool-Tells xs ys).0 h)
  equal_item_sound (Item.i1 xs) (Item.i1 ys) h =
      ap Item.i1 ((all_equal-Tells equal_int-Tells xs ys).0 h)
  equal_item_sound (Item.i2 xs) (Item.i2 ys) h =
      ap Item.i2 ((all_equal-Tells equal_int-Tells xs ys).0 h)
  equal_item_sound (Item.i4 xs) (Item.i4 ys) h =
      ap Item.i4 ((all_equal-Tells equal_int-Tells xs ys).0 h)
  equal_item_sound (Item.i8 xs) (Item.i8 ys) h =
      ap Item.i8 ((all_equal-Tells equal_int-Tells xs ys).0 h)
  equal_item_sound (Item.u1 xs) (Item.u1 ys) h =
      ap Item.u1 ((all_equal-Tells equal_nat-Tells xs ys).0 h)
  equal_item_sound (Item.u2 xs) (Item.u2 ys) h =
      ap Item.u2 ((all_equal-Tells equal_nat-Tells xs ys).0 h)
  equal_item_sound (Item.u4 xs) (Item.u4 ys) h =
      ap Item.u4 ((all_equal-Tells equal_nat-Tells xs ys).0 h)
  equal_item_sound (Item.u8 xs) (Item.u8 ys) h =
      ap Item.u8 ((all_equal-Tells equal_nat-Tells xs ys).0 h)
  equal_item_sound (Item.f4 xs) (Item.f4 ys) h =
      ap Item.f4 ((all_equal-Tells equal_nat-Tells xs ys).0 h)
  equal_item_sound (Item.f8 xs) (Item.f8 ys) h =
      ap Item.f8 ((all_equal-Tells equal_nat-Tells xs ys).0 h)
  equal_item_sound _ _ h = ground arith

  equal_items_sound : (xs ys : Items) → equal_items xs ys ≡ true → xs ≡ ys
  equal_items_sound Item.nil Item.nil h = refl
  equal_items_sound (Item.cons x xs) (Item.cons y ys) h =
      let (p, q) = both_true (equal_item x y) (equal_items xs ys) h in
      let head = equal_item_sound x y p in let tail = equal_items_sound xs ys q in cc
  equal_items_sound _ _ h = ground arith

mutual
  unfolding equal_item equal_items

  equal_item_refl : (a : Item) → equal_item a a ≡ true
  equal_item_refl (Item.list xs) = equal_items_refl xs
  equal_item_refl (Item.ascii xs) = (all_equal-Tells equal_nat-Tells xs xs).1 refl
  equal_item_refl (Item.binary xs) = (all_equal-Tells equal_nat-Tells xs xs).1 refl
  equal_item_refl (Item.boolean xs) = (all_equal-Tells equal_bool-Tells xs xs).1 refl
  equal_item_refl (Item.i1 xs) = (all_equal-Tells equal_int-Tells xs xs).1 refl
  equal_item_refl (Item.i2 xs) = (all_equal-Tells equal_int-Tells xs xs).1 refl
  equal_item_refl (Item.i4 xs) = (all_equal-Tells equal_int-Tells xs xs).1 refl
  equal_item_refl (Item.i8 xs) = (all_equal-Tells equal_int-Tells xs xs).1 refl
  equal_item_refl (Item.u1 xs) = (all_equal-Tells equal_nat-Tells xs xs).1 refl
  equal_item_refl (Item.u2 xs) = (all_equal-Tells equal_nat-Tells xs xs).1 refl
  equal_item_refl (Item.u4 xs) = (all_equal-Tells equal_nat-Tells xs xs).1 refl
  equal_item_refl (Item.u8 xs) = (all_equal-Tells equal_nat-Tells xs xs).1 refl
  equal_item_refl (Item.f4 xs) = (all_equal-Tells equal_nat-Tells xs xs).1 refl
  equal_item_refl (Item.f8 xs) = (all_equal-Tells equal_nat-Tells xs xs).1 refl

  equal_items_refl : (xs : Items) → equal_items xs xs ≡ true
  equal_items_refl Item.nil = refl
  equal_items_refl (Item.cons x xs) = rw (equal_item_refl x, equal_items_refl xs)

-- `==` holds of two items exactly when they are the same: the same format at every place, with the
-- same values in the same order, and the same bits where these are floats.
pub equal_item_iff : (a b : Item) → (equal_item a b ≡ true) ↔ (a ≡ b)
equal_item_iff a b =
    (equal_item_sound a b, λ same. subst (λ x. equal_item a x ≡ true) same (equal_item_refl a))
