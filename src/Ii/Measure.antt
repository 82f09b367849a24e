-- ===== src/Ii/Measure.antt =====
-- What `DecodeLimits` of include/secs/ii/codec.hpp bounds in an item, and the ranges of its values.
use secs_lib.Common.{ℕ, suc, ◌+◌, ◌≤◌, ◌<◌, All, max}
use secs_lib.Common.Bytes.{IsByte}
use secs_lib.Common.Int.{IsSigned}
use secs_lib.Ii.Item.{
  Item, Items, list, ascii, binary, boolean, i1, i2, i4, i8, u1, u2, u4, u8, f4, f8, nil, cons,
  count,
}
use secs_lib.Ii.Wire.{extent}

abbrev pub IsLeaf : Item → Type 0
IsLeaf (list xs) = ⊥
IsLeaf _ = Unit

-- The levels of lists above the deepest item.
unfoldable mutual
  pub nest : Item → ℕ
  nest (list xs) = nest_all xs
  nest _ = 0

  pub nest_all : Items → ℕ
  nest_all nil = 0
  nest_all (cons x xs) = max (suc (nest x)) (nest_all xs)

-- The items of the tree, the lists among them.
unfoldable mutual
  pub nodes : Item → ℕ
  nodes (list xs) = suc (nodes_all xs)
  nodes _ = 1

  pub nodes_all : Items → ℕ
  nodes_all nil = 0
  nodes_all (cons x xs) = nodes x + nodes_all xs

-- The payload bytes of the items that are no lists.
unfoldable mutual
  unfolding extent

  pub volume : Item → ℕ
  volume (list xs) = volume_all xs
  volume x = extent x

  pub volume_all : Items → ℕ
  volume_all nil = 0
  volume_all (cons x xs) = volume x + volume_all xs

-- No list has more than `children` children, and no other payload more than `bytes` bytes.
abbrev mutual
  pub Within : ℕ → ℕ → Item → Type 0
  Within children bytes (list xs) = (count xs ≤ children) × AllWithin children bytes xs
  Within children bytes x = extent x ≤ bytes

  pub AllWithin : ℕ → ℕ → Items → Type 0
  AllWithin children bytes nil = Unit
  AllWithin children bytes (cons x xs) = Within children bytes x × AllWithin children bytes xs

-- Each value is one of its type.
abbrev mutual
  pub HasValues : Item → Type 0
  HasValues (list xs) = AllHaveValues xs
  HasValues (ascii s) = All IsByte s
  HasValues (binary s) = All IsByte s
  HasValues (boolean s) = Unit
  HasValues (i1 s) = All (IsSigned 0x100) s
  HasValues (i2 s) = All (IsSigned 0x1_0000) s
  HasValues (i4 s) = All (IsSigned 0x1_0000_0000) s
  HasValues (i8 s) = All (IsSigned 0x1_0000_0000_0000_0000) s
  HasValues (u1 s) = All IsByte s
  HasValues (u2 s) = All (λ x. x < 0x1_0000) s
  HasValues (u4 s) = All (λ x. x < 0x1_0000_0000) s
  HasValues (u8 s) = All (λ x. x < 0x1_0000_0000_0000_0000) s
  HasValues (f4 s) = All (λ x. x < 0x1_0000_0000) s
  HasValues (f8 s) = All (λ x. x < 0x1_0000_0000_0000_0000) s

  pub AllHaveValues : Items → Type 0
  AllHaveValues nil = Unit
  AllHaveValues (cons x xs) = HasValues x × AllHaveValues xs
