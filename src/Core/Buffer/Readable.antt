-- ===== src/Core/Buffer/Readable.antt =====
-- The readable bytes of a buffer after a call of src/core/buffer.cpp.
use secs_lib.Common.{ℕ, ◌+◌, ◌-◌, ◌≤◌, ◌≡◌, ap, ◌∙◌, List, [], ◌++◌, length, take, drop, arith}
use secs_lib.Common.Slices.{slice, splice, length-splice, slice-splice}
use secs_lib.Core.Buffer.{FixedBuffer, storage, readable_bytes}
use secs_lib.Core.Buffer.Shape.{
  IsBuffer, rewritten, rewritten-IsBuffer, readable_bytes-rewritten, max-rewritten,
}

-- The readable bytes become `q`.
pub record Holds (b c : FixedBuffer) (q : List ℕ) : Type 0 where
  pub shape : IsBuffer c
  pub bytes : readable_bytes c ≡ q
  pub same_max : c.max_capacity ≡ b.max_capacity

-- Bytes copied behind the written ones, where there is room for them.
pub written-Holds :
    (b : FixedBuffer) (bytes : List ℕ)
    → IsBuffer b
    → b.write_pos + length bytes ≤ b.capacity
    → Holds b
        (rewritten b (splice (storage b) b.write_pos bytes) b.read_pos (b.write_pos + length bytes))
        (readable_bytes b ++ bytes)
unfolding readable_bytes
written-Holds b bytes v h =
    let l = length-splice (storage b) b.write_pos bytes (omega (arith, v.fits)) in
    record {
      shape =
          rewritten-IsBuffer b (splice (storage b) b.write_pos bytes) b.read_pos
            (b.write_pos + length bytes) v l (omega (arith, v.read_le)) h;
      bytes =
          readable_bytes-rewritten b (splice (storage b) b.write_pos bytes) b.read_pos
            (b.write_pos + length bytes) l
          ∙ slice-splice (storage b) b.read_pos b.write_pos bytes v.read_le
              (omega (arith, v.fits, v.write_le));
      same_max =
          (max-rewritten b (splice (storage b) b.write_pos bytes) b.read_pos
            (b.write_pos + length bytes) l).0;
    }

pub emptied : (bytes : List ℕ) (r w : ℕ) → w ≤ r → slice bytes r w ≡ []
unfolding slice
emptied bytes r w h = ap (λ k. take k (drop r bytes)) (let e : w - r ≡ 0 = omega arith in e)
