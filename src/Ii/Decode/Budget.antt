-- ===== src/Ii/Decode/Budget.antt =====
-- What the limits of a decoding count, and how much of it a wire format holds.
use secs_lib.Common.{ℕ, suc, ◌+◌, ◌^◌, ◌≤◌, ◌<◌, ◌≡◌, List, arith, length, length-append}
use secs_lib.Ii.Format.{FormatCode}
use secs_lib.Ii.Item.{Item, Items, list, nil, cons, count}
use secs_lib.Ii.Size.{item_code}
use secs_lib.Ii.Wire.{extent, header_bytes, payload_bytes, children_bytes, wire}
use secs_lib.Ii.Measure.{nest, nest_all, nodes, nodes_all, volume, volume_all, Within, AllWithin}
use secs_lib.Ii.Decode.{SpanReader, DecodeBudget, DecodeLimits}

-- The limits are `size_t` values, and the depth can be counted past its limit.
abbrev pub HasSizes : DecodeLimits → Type 0
HasSizes l =
    (l.max_depth + 1 < 2 ^ 64) × (l.max_total_items < 2 ^ 64) × (l.max_total_bytes < 2 ^ 64)

-- Decoding the item below `depth` lists, with the budget `b` spent, exceeds no limit.
abbrev pub Fits : DecodeLimits → ℕ → DecodeBudget → Item → Type 0
Fits l depth b x =
    (depth + nest x ≤ l.max_depth)
    × (b.total_items + nodes x ≤ l.max_total_items)
    × (b.total_bytes + volume x ≤ l.max_total_bytes)
    × Within l.max_list_items l.max_payload_bytes x

abbrev pub AllFit : DecodeLimits → ℕ → DecodeBudget → Items → Type 0
AllFit l depth b xs =
    (depth + nest_all xs ≤ suc l.max_depth)
    × (b.total_items + nodes_all xs ≤ l.max_total_items)
    × (b.total_bytes + volume_all xs ≤ l.max_total_bytes)
    × AllWithin l.max_list_items l.max_payload_bytes xs

abbrev pub spend : DecodeBudget → ℕ → ℕ → DecodeBudget
spend b items bytes = record {
  total_items = b.total_items + items;
  total_bytes = b.total_bytes + bytes;
}

-- With the header of one more item read.
abbrev pub opened : DecodeBudget → DecodeBudget
opened b = record { total_items = b.total_items + 1; total_bytes = b.total_bytes }

abbrev pub reader : List ℕ → ℕ → SpanReader
reader rest pos = record { rest = rest; pos = pos }

pub length-wire_parts :
    (x : Item)
    → length (wire x) ≡ length (header_bytes (item_code x) (extent x)) + length (payload_bytes x)
unfolding wire
length-wire_parts x = length-append (header_bytes (item_code x) (extent x)) (payload_bytes x)

nodes_pos : (x : Item) → 0 < nodes x
unfolding nodes
nodes_pos (list xs) = omega arith
nodes_pos _ = omega arith

pub count-le-nodes : (xs : Items) → count xs ≤ nodes_all xs
unfolding nodes
count-le-nodes nil = omega arith
count-le-nodes (cons x xs) = omega (arith, count-le-nodes xs, nodes_pos x)

pub header_pos : (c : FormatCode) (n : ℕ) → 0 < length (header_bytes c n)
unfolding header_bytes
header_pos c n = omega arith

mutual
  unfolding nest wire payload_bytes

  pub nest-lt-wire : (x : Item) → nest x < length (wire x)
  nest-lt-wire (list xs) = omega (
    arith,
    nest_all-le-children xs,
    length-wire_parts (list xs),
    header_pos (item_code (list xs)) (extent (list xs)),
  )
  nest-lt-wire x = omega (arith, length-wire_parts x, header_pos (item_code x) (extent x))

  nest_all-le-children : (xs : Items) → nest_all xs ≤ length (children_bytes xs)
  nest_all-le-children nil = omega arith
  nest_all-le-children (cons x xs) =
      omega
        (arith, nest-lt-wire x, nest_all-le-children xs, length-append (wire x) (children_bytes xs))
