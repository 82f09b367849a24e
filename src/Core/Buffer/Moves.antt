-- ===== src/Core/Buffer/Moves.antt =====
-- The move constructor and the move assignment of src/core/buffer.cpp.
use secs_lib.Common.{
  ℕ, ◌+◌, ◌-◌, ◌≤◌, ◌≡◌, refl, sym, ap, ◌∙◌, Bool-cases, inl, inr, List, [], ◌++◌, ltb, length,
  Option, none, some, arith,
}
use secs_lib.Common.Slices.{slice, splice, length-splice, slice-splice}
use secs_lib.Core.Buffer.{
  FixedBuffer, default_capacity, chosen, storage, size, readable_bytes, move_assign, move_construct,
  moved_from, moved_inline, zeros,
}
use secs_lib.Core.Buffer.Shape.{IsBuffer, length-readable_bytes, length-zeros}
use secs_lib.Core.Buffer.Readable.{Holds, emptied}

-- Where a stretch is copied to its own place in another array.
moved_stretch :
    (own bytes : List ℕ) (r w : ℕ)
    → length bytes ≡ w - r
    → r ≤ w
    → w ≤ length own
    → slice (splice own r bytes) r w ≡ bytes
moved_stretch own bytes r w l lo hi =
    ap (λ k. slice (splice own r bytes) r k) (let e : w ≡ r + length bytes = omega (arith, l) in e)
    ∙ slice-splice own r r bytes (omega arith) (omega arith)
    ∙ ap (λ q. q ++ bytes) (emptied own r r (omega arith))

-- After `reserve`: the capacity asked for is there, or nothing changed.

module _ (own : List ℕ) (other : FixedBuffer) (l : length own ≡ default_capacity)
    (v : IsBuffer other) where
  -- The two cases of the array that is moved, as an argument.
  length-moved_inline :
      (h : Option (List ℕ))
      → length (readable_bytes other) ≡ size other
      → other.write_pos ≤ length (chosen h other.inline_bytes)
      → (length (moved_inline h own other) ≡ default_capacity)
        × (length (chosen h (moved_inline h own other)) ≡ length (chosen h other.inline_bytes))
  unfolding chosen moved_inline size
  length-moved_inline (some bytes) n w = (l, refl)
  length-moved_inline none n w = ground (
    arith,
    l,
    v.inline_length,
    v.read_le,
    length-splice own other.read_pos (readable_bytes other),
  )

  slice-moved_inline :
      (h : Option (List ℕ))
      → readable_bytes other ≡ slice (chosen h other.inline_bytes) other.read_pos other.write_pos
      → other.write_pos ≤ length (chosen h other.inline_bytes)
      → slice (chosen h (moved_inline h own other)) other.read_pos other.write_pos
        ≡ readable_bytes other
  unfolding chosen moved_inline size
  slice-moved_inline (some bytes) e w = sym e
  slice-moved_inline none e w = elim (Bool-cases (ltb other.read_pos other.write_pos)) [
    | inl lt ↦ rw lt (
        moved_stretch own (readable_bytes other) other.read_pos other.write_pos
          (length-readable_bytes other v) v.read_le (omega (arith, l, v.inline_length, w)))
    | inr ge ↦ rw ge (
        emptied own other.read_pos other.write_pos (ground arith)
        ∙ sym (e ∙ emptied other.inline_bytes other.read_pos other.write_pos (ground arith)))
  ]

  moved-Holds :
      Holds other
        (record other { inline_bytes = moved_inline other.heap own other })
        (readable_bytes other)
  unfolding storage readable_bytes
  moved-Holds =
      let inside : other.write_pos ≤ length (chosen other.heap other.inline_bytes) =
        omega (arith, v.fits, v.write_le) in
      let (n, m) = length-moved_inline other.heap (length-readable_bytes other v) inside in
      record {
        shape = record {
          inline_length = n;
          read_le = v.read_le;
          write_le = v.write_le;
          capacity_le = v.capacity_le;
          max_le = v.max_le;
          fits = omega (arith, m, v.fits);
        };
        bytes = slice-moved_inline other.heap refl inside;
        same_max = refl;
      }

-- What is left of an object that was moved from.
moved_from-Holds :
    (other : FixedBuffer) → IsBuffer other → Holds (moved_from other) (moved_from other) []
unfolding moved_from storage chosen readable_bytes
moved_from-Holds other v = record {
  shape = record {
    inline_length = v.inline_length;
    read_le = omega arith;
    write_le = omega arith;
    capacity_le = omega arith;
    max_le = omega arith;
    fits = omega arith;
  };
  bytes = emptied other.inline_bytes 0 0 (omega arith);
  same_max = refl;
}

-- A move hands over the readable bytes and the limit, and leaves the other object empty.
pub move_assign-Holds :
    (b other : FixedBuffer)
    → IsBuffer b
    → IsBuffer other
    → Holds other (move_assign b other).0 (readable_bytes other)
      × Holds (move_assign b other).1 (move_assign b other).1 []
unfolding move_assign
move_assign-Holds b other u v =
    (moved-Holds b.inline_bytes other u.inline_length v, moved_from-Holds other v)

pub move_construct-Holds :
    (other : FixedBuffer)
    → IsBuffer other
    → Holds other (move_construct other).0 (readable_bytes other)
      × Holds (move_construct other).1 (move_construct other).1 []
unfolding move_construct
move_construct-Holds other v = (
  moved-Holds (zeros default_capacity) other (length-zeros default_capacity) v,
  moved_from-Holds other v,
)
