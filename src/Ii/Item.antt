-- ===== src/Ii/Item.antt =====
-- include/secs/ii/item.hpp and src/ii/item.cpp: the data item.
-- A byte, an unsigned value and the bit pattern of a float are numbers; a signed value is a ℤ.
-- `std::bit_cast` between a float and its bits is the identity of the model.
use secs_lib.Common.{ℕ, suc, Bool, List}
use secs_lib.Common.Int.{ℤ}

-- `Items` is the `std::vector<Item>` of a list item.
mutual
  pub data Item : Type 0 where
    list : Items → Item
    ascii : List ℕ → Item
    binary : List ℕ → Item
    boolean : List Bool → Item
    i1 : List ℤ → Item
    i2 : List ℤ → Item
    i4 : List ℤ → Item
    i8 : List ℤ → Item
    u1 : List ℕ → Item
    u2 : List ℕ → Item
    u4 : List ℕ → Item
    u8 : List ℕ → Item
    f4 : List ℕ → Item
    f8 : List ℕ → Item

  pub data Items : Type 0 where
    nil : Items
    cons : Item → Items → Items

abbrev pub count : Items → ℕ
count nil = 0
count (cons x xs) = suc (count xs)
