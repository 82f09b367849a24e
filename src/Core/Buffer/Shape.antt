-- ===== src/Core/Buffer/Shape.antt =====
-- The shape of a `FixedBuffer` of src/core/buffer.cpp, and the calls that only move its bytes.
use secs_lib.Common.{
  ℕ, ◌-◌, ◌^◌, ◌≤◌, ◌≡◌, min, refl, sym, ap, ◌∙◌, Bool-cases, inl, inr, List, [], take, drop, ◌==◌,
  length, length-replicate, Option, none, some, arith,
}
use secs_lib.Common.Slices.{slice, splice, length-slice, length-splice, slice-splice_front}
use secs_lib.Core.Buffer.{
  FixedBuffer, default_capacity, chosen, with_chosen, storage, with_storage, size, clear,
  readable_bytes, compact, fixed_buffer, clamp_capacity, zeros,
}

-- The positions are in order, and the capacity is within the array and the limit.
pub record IsBuffer (b : FixedBuffer) : Type 0 where
  pub inline_length : length b.inline_bytes ≡ default_capacity
  pub read_le : b.read_pos ≤ b.write_pos
  pub write_le : b.write_pos ≤ b.capacity
  pub capacity_le : b.capacity ≤ b.max_capacity
  pub max_le : b.max_capacity ≤ 2 ^ 63
  pub fits : b.capacity ≤ length (storage b)

-- What the calls that keep the readable bytes keep.
pub record Keeps (b b' : FixedBuffer) : Type 0 where
  pub shape : IsBuffer b'
  pub bytes : readable_bytes b' ≡ readable_bytes b
  pub same_max : b'.max_capacity ≡ b.max_capacity

pub Keeps-refl : (b : FixedBuffer) → IsBuffer b → Keeps b b
Keeps-refl b v = record { shape = v; bytes = refl; same_max = refl }

pub Keeps-trans : (a b c : FixedBuffer) → Keeps a b → Keeps b c → Keeps a c
Keeps-trans a b c k l = record {
  shape = l.shape;
  bytes = l.bytes ∙ k.bytes;
  same_max = l.same_max ∙ k.same_max;
}

pub length-readable_bytes : (b : FixedBuffer) → IsBuffer b → length (readable_bytes b) ≡ size b
unfolding readable_bytes size
length-readable_bytes b v =
    length-slice (storage b) b.read_pos b.write_pos (omega (arith, v.fits, v.write_le))

-- An object whose array was replaced, and its positions set.
abbrev pub rewritten : FixedBuffer → List ℕ → ℕ → ℕ → FixedBuffer
rewritten b bytes r w = record (with_storage b bytes) { read_pos = r; write_pos = w }

-- What a replacement of the array keeps.
pub record Rewrites (b c : FixedBuffer) (bytes : List ℕ) : Type 0 where
  pub array : storage c ≡ bytes
  pub same_capacity : c.capacity ≡ b.capacity
  pub same_limit : c.max_capacity ≡ b.max_capacity
  pub same_inline : length c.inline_bytes ≡ length b.inline_bytes

compacted_eq :
    (h : Option (List ℕ)) (b : FixedBuffer) (bytes : List ℕ)
    → length bytes ≡ length (chosen h b.inline_bytes)
    → Rewrites b (with_chosen h b bytes) bytes
unfolding storage with_chosen chosen
compacted_eq none b bytes l = record {
  array = refl;
  same_capacity = refl;
  same_limit = refl;
  same_inline = l;
}
compacted_eq (some old) b bytes l = record {
  array = refl;
  same_capacity = refl;
  same_limit = refl;
  same_inline = refl;
}

with_storage-Rewrites :
    (b : FixedBuffer) (bytes : List ℕ)
    → length bytes ≡ length (storage b)
    → Rewrites b (with_storage b bytes) bytes
unfolding storage with_storage
with_storage-Rewrites b bytes l = compacted_eq b.heap b bytes l

pub storage-rewritten :
    (b : FixedBuffer) (bytes : List ℕ) (r w : ℕ)
    → length bytes ≡ length (storage b)
    → storage (rewritten b bytes r w) ≡ bytes
unfolding storage
storage-rewritten b bytes r w l = (with_storage-Rewrites b bytes l).array

pub rewritten-IsBuffer :
    (b : FixedBuffer) (bytes : List ℕ) (r w : ℕ)
    → IsBuffer b
    → length bytes ≡ length (storage b)
    → r ≤ w
    → w ≤ b.capacity
    → IsBuffer (rewritten b bytes r w)
rewritten-IsBuffer b bytes r w v l lo hi =
    let k = with_storage-Rewrites b bytes l in
    record {
      inline_length = k.same_inline ∙ v.inline_length;
      read_le = lo;
      write_le = omega (arith, k.same_capacity);
      capacity_le = omega (arith, k.same_capacity, k.same_limit, v.capacity_le);
      max_le = omega (arith, k.same_limit, v.max_le);
      fits = omega (arith, k.same_capacity, v.fits, ap length (storage-rewritten b bytes r w l));
    }

pub max-rewritten :
    (b : FixedBuffer) (bytes : List ℕ) (r w : ℕ)
    → length bytes ≡ length (storage b)
    → ((rewritten b bytes r w).max_capacity ≡ b.max_capacity)
      × ((rewritten b bytes r w).capacity ≡ b.capacity)
max-rewritten b bytes r w l =
    let k = with_storage-Rewrites b bytes l in (k.same_limit, k.same_capacity)

pub readable_bytes-rewritten :
    (b : FixedBuffer) (bytes : List ℕ) (r w : ℕ)
    → length bytes ≡ length (storage b)
    → readable_bytes (rewritten b bytes r w) ≡ slice bytes r w
unfolding readable_bytes
readable_bytes-rewritten b bytes r w l = ap (λ s. slice s r w) (storage-rewritten b bytes r w l)

-- Nothing is readable where the positions meet.
pub readable_bytes_none :
    (b : FixedBuffer) (r : ℕ) → readable_bytes (record b { read_pos = r; write_pos = r }) ≡ []
unfolding readable_bytes slice storage
readable_bytes_none b r =
    ap (λ k. take k (drop r (storage b))) (let e : r - r ≡ 0 = omega arith in e)

pub length-zeros : (n : ℕ) → length (zeros n) ≡ n
unfolding zeros
length-zeros n = length-replicate n 0

-- A new object is empty.
pub fixed_buffer-IsBuffer :
    (initial_capacity max_capacity : ℕ)
    → max_capacity ≤ 2 ^ 63
    → IsBuffer (fixed_buffer initial_capacity max_capacity)
unfolding fixed_buffer clamp_capacity storage chosen
fixed_buffer-IsBuffer initial_capacity max_capacity h = record {
  inline_length = length-zeros default_capacity;
  read_le = omega arith;
  write_le = omega arith;
  capacity_le = ground arith;
  max_le = h;
  fits =
      ground
        (arith, length-zeros default_capacity, length-zeros (min initial_capacity max_capacity));
}

pub clear-IsBuffer : (b : FixedBuffer) → IsBuffer b → IsBuffer (clear b)
unfolding clear storage
clear-IsBuffer b v = record {
  inline_length = v.inline_length;
  read_le = omega arith;
  write_le = omega arith;
  capacity_le = v.capacity_le;
  max_le = v.max_le;
  fits = v.fits;
}

size_zero : (b : FixedBuffer) → IsBuffer b → size b ≡ 0 → readable_bytes b ≡ []
unfolding readable_bytes slice size
size_zero b v e = ap (λ k. take k (drop b.read_pos (storage b))) e

sizes_zero : (b : FixedBuffer) → size b ≡ 0 → size (clear b) ≡ size b
unfolding size clear
sizes_zero b e = omega (arith, e)

-- What `compact` does: the bytes stay, and stand at the front.
pub record Compacts (b c : FixedBuffer) : Type 0 where
  pub keeps : Keeps b c
  pub front : c.read_pos ≡ 0
  pub same_capacity : c.capacity ≡ b.capacity
  pub same_size : size c ≡ size b

compact_moves :
    (b : FixedBuffer)
    → IsBuffer b
    → Compacts b (rewritten b (splice (storage b) 0 (readable_bytes b)) 0 (size b))
unfolding size
compact_moves b v =
    let n = length-readable_bytes b v in
    let front = splice (storage b) 0 (readable_bytes b) in
    let l : length front ≡ length (storage b) =
      length-splice (storage b) 0 (readable_bytes b) (omega (arith, n, v.fits, v.write_le)) in
    let (limit, cap) = max-rewritten b front 0 (size b) l in
    record {
      keeps = record {
        shape = rewritten-IsBuffer b front 0 (size b) v l (omega arith) (omega (arith, v.write_le));
        bytes =
            readable_bytes-rewritten b front 0 (size b) l
            ∙ ap (λ k. slice front 0 k) (sym n)
            ∙ slice-splice_front (storage b) (readable_bytes b);
        same_max = limit;
      };
      front = refl;
      same_capacity = cap;
      same_size = omega arith;
    }

-- `compact` keeps the readable bytes, and leaves them at the front.
pub compact-Compacts : (b : FixedBuffer) → IsBuffer b → Compacts b (compact b)
unfolding compact clear
compact-Compacts b v = elim (Bool-cases (size b == 0)) [
  | inl e ↦ rw e (record {
    keeps = record {
      shape = clear-IsBuffer b v;
      bytes = readable_bytes_none b 0 ∙ sym (size_zero b v (ground arith));
      same_max = refl;
    };
    front = refl;
    same_capacity = refl;
    same_size = sizes_zero b (ground arith);
  })
  | inr e ↦ rw e (elim (Bool-cases (b.read_pos == 0)) [
    | inl z ↦ rw z (record {
      keeps = Keeps-refl b v;
      front = ground arith;
      same_capacity = refl;
      same_size = refl;
    })
    | inr z ↦ rw z (compact_moves b v)
  ])
]
