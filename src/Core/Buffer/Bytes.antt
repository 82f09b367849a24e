-- ===== src/Core/Buffer/Bytes.antt =====
-- What each call of a `FixedBuffer` of src/core/buffer.cpp does to the readable bytes.
use secs_lib.Common.{
  ℕ, zero, suc, ◌+◌, ◌-◌, ◌≤◌, ◌<◌, ◌≡◌, refl, sym, ap, subst, ◌∙◌, true, Bool-cases, inl, inr,
  List, [], ◌∷◌, ◌++◌, ltb, leb, ◌==◌, length, drop, Option, none, some, arith, append-nil,
}
use secs_lib.Common.Slices.{slice, splice, length-slice, length-splice, drop-slice}
use secs_lib.Core.Error.{Errc, invalid_argument}
use secs_lib.Core.Buffer.{
  FixedBuffer, storage, size, readable_bytes, writable_bytes, clear, commit, consume, append,
  copy_in, ensure_writable, reserve, grow, fill_writable, fill_writable,
}
use secs_lib.Core.Buffer.Shape.{
  IsBuffer, Keeps, Keeps-refl, length-readable_bytes, rewritten, max-rewritten, readable_bytes_none,
  clear-IsBuffer,
}
use secs_lib.Core.Buffer.Grow.{
  IsAllocator, Refuses, HasRoom, ensure_writable-HasRoom, Grows, grow-Grows,
}
use secs_lib.Core.Buffer.Readable.{Holds, written-Holds, emptied}

size-le : (b : FixedBuffer) → size b ≤ b.write_pos
unfolding size
size-le b = omega arith

fitting :
    (b c : FixedBuffer) (n : ℕ)
    → IsBuffer b
    → Keeps b c
    → c.write_pos + n ≤ c.capacity
    → size b + n ≤ b.max_capacity
fitting b c n v k h =
    let same : size c ≡ size b =
      sym (length-readable_bytes c k.shape) ∙ ap length k.bytes ∙ length-readable_bytes b v in
    omega (arith, h, same, size-le c, k.shape.capacity_le, k.same_max)

append_empty : (q bytes : List ℕ) → (length bytes == 0) ≡ true → q ++ bytes ≡ q
append_empty q [] e = append-nil q
append_empty q (x ∷ bytes) e = absurd (ground arith)

drop_none : (n : ℕ) (q : List ℕ) → (n == 0) ≡ true → drop n q ≡ q
drop_none zero q e = refl
drop_none (suc n) q e = absurd (ground arith)

-- After `append`: the bytes are behind the readable ones, or nothing readable changed.
unfoldable pub Appends :
    (ℕ → Option (List ℕ)) → FixedBuffer → List ℕ → Option Errc × FixedBuffer → Type 0
Appends allocate b bytes (some e, c) = Keeps b c × Refuses allocate b (size b + length bytes) e
Appends allocate b bytes (none, c) =
    Holds b c (readable_bytes b ++ bytes) × (size b + length bytes ≤ b.max_capacity)

copy_in-Appends :
    (allocate : ℕ → Option (List ℕ)) (b : FixedBuffer) (bytes : List ℕ)
    (r : Option Errc × FixedBuffer)
    → IsBuffer b
    → HasRoom allocate b (length bytes) r
    → Appends allocate b bytes (copy_in bytes r)
unfolding HasRoom Appends copy_in
copy_in-Appends allocate b bytes (some e, c) v h = h
copy_in-Appends allocate b bytes (none, c) v h =
    let k = h.0 in
    let held = written-Holds c bytes k.shape h.1 in
    (
      record {
        shape = held.shape;
        bytes = held.bytes ∙ ap (λ q. q ++ bytes) k.bytes;
        same_max = held.same_max ∙ k.same_max;
      },
      fitting b c (length bytes) v k h.1,
    )

-- With an allocator that gives the bytes asked for or none, `append` to a well-formed buffer adds the
-- bytes behind the readable ones, or refuses them and keeps the readable bytes: with
-- buffer_overflow only past the limit, with out_of_memory only if the allocation failed.
pub append-Appends :
    (allocate : ℕ → Option (List ℕ)) (b : FixedBuffer) (bytes : List ℕ)
    → IsAllocator allocate
    → IsBuffer b
    → Appends allocate b bytes (append allocate b bytes)
unfolding append Appends
append-Appends allocate b bytes exact v = elim (Bool-cases (length bytes == 0)) [
  | inl e ↦ rw e (
    record { shape = v; bytes = sym (append_empty (readable_bytes b) bytes e); same_max = refl },
    ground (arith, e, size-le b, v.write_le, v.capacity_le),
  )
  | inr e ↦ rw e (
      copy_in-Appends allocate b bytes (ensure_writable allocate b (length bytes)) v
        (ensure_writable-HasRoom allocate exact b (length bytes) v))
]

-- After `consume`: the first bytes are gone, or there were not as many.
unfoldable pub Consumes : FixedBuffer → ℕ → Option Errc × FixedBuffer → Type 0
Consumes b n (some e, c) = (c ≡ b) × (e ≡ invalid_argument) × (size b < n)
Consumes b n (none, c) = Holds b c (drop n (readable_bytes b)) × (n ≤ size b)

dropped :
    (b : FixedBuffer) (n : ℕ)
    → drop n (readable_bytes b) ≡ slice (storage b) (b.read_pos + n) b.write_pos
unfolding readable_bytes
dropped b n = drop-slice (storage b) b.read_pos b.write_pos n

advanced :
    (b : FixedBuffer) (n : ℕ)
    → IsBuffer b
    → n ≤ size b
    → Holds b (record b { read_pos = b.read_pos + n }) (drop n (readable_bytes b))
unfolding storage readable_bytes size
advanced b n v h = record {
  shape = record {
    inline_length = v.inline_length;
    read_le = omega (arith, v.read_le);
    write_le = v.write_le;
    capacity_le = v.capacity_le;
    max_le = v.max_le;
    fits = v.fits;
  };
  bytes = sym (dropped b n);
  same_max = refl;
}

pub consume-Consumes : (b : FixedBuffer) (n : ℕ) → IsBuffer b → Consumes b n (consume b n)
unfolding consume Consumes clear
consume-Consumes b n v = elim (Bool-cases (n == 0)) [
  | inl e ↦ rw e (
    record { shape = v; bytes = sym (drop_none n (readable_bytes b) e); same_max = refl },
    ground (arith, e),
  )
  | inr e ↦ rw e (elim (Bool-cases (ltb (size b) n)) [
    | inl f ↦ rw f (refl, refl, ground arith)
    | inr f ↦ rw f (elim (Bool-cases (b.read_pos + n == b.write_pos)) [
      | inl g ↦ rw g (
        record {
          shape = clear-IsBuffer b v;
          bytes =
              readable_bytes_none b 0
              ∙ sym (dropped b n ∙ emptied (storage b) (b.read_pos + n) b.write_pos (ground arith));
          same_max = refl;
        },
        ground (arith, f),
      )
      | inr g ↦ rw g (advanced b n v (ground (arith, f)), ground (arith, f))
    ])
  ])
]

-- What a writer puts into the writable bytes and commits is behind the readable ones.
pub commit-fill_writable :
    (b : FixedBuffer) (bytes : List ℕ)
    → IsBuffer b
    → length bytes ≤ length (writable_bytes b)
    → (c : FixedBuffer) × (commit (fill_writable b bytes) (length bytes) ≡ (none, c))
      × Holds b c (readable_bytes b ++ bytes)
unfolding commit writable_bytes fill_writable
commit-fill_writable b bytes v h =
    let room : length bytes ≤ b.capacity - b.write_pos =
      ground (arith, length-slice (storage b) b.write_pos b.capacity v.fits) in
    let l = length-splice (storage b) b.write_pos bytes (omega (arith, v.fits, v.write_le, room)) in
    let held = written-Holds b bytes v (omega (arith, v.write_le, room)) in
    let cap = (max-rewritten b (splice (storage b) b.write_pos bytes) b.read_pos b.write_pos l).1 in
    elim (Bool-cases (length bytes == 0)) [
      | inl e ↦ (
        rewritten b (splice (storage b) b.write_pos bytes) b.read_pos b.write_pos,
        rw e refl,
        subst
            (λ w.
              Holds b (rewritten b (splice (storage b) b.write_pos bytes) b.read_pos w)
                (readable_bytes b ++ bytes))
            (ground arith) held,
      )
      | inr e ↦ (
        rewritten b (splice (storage b) b.write_pos bytes) b.read_pos (b.write_pos + length bytes),
        ground (arith, cap, room, v.write_le),
        held,
      )
    ]

unfoldable pub Reserves :
    (ℕ → Option (List ℕ)) → FixedBuffer → ℕ → Option Errc × FixedBuffer → Type 0
Reserves allocate b n (some e, c) = (c ≡ b) × Refuses allocate b n e
Reserves allocate b n (none, c) = Keeps b c × (n ≤ c.capacity)

grown-Reserves :
    (allocate : ℕ → Option (List ℕ)) (b : FixedBuffer) (n : ℕ) (r : Option Errc × FixedBuffer)
    → Grows allocate b n r
    → Reserves allocate b n r
unfolding Grows Reserves
grown-Reserves allocate b n (some e, c) g = g
grown-Reserves allocate b n (none, c) g = (g.0, g.1)

pub reserve-Reserves :
    (allocate : ℕ → Option (List ℕ)) (b : FixedBuffer) (n : ℕ)
    → IsAllocator allocate
    → IsBuffer b
    → Reserves allocate b n (reserve allocate b n)
unfolding reserve Reserves
reserve-Reserves allocate b n exact v = elim (Bool-cases (leb n b.capacity)) [
  | inl e ↦ rw e (Keeps-refl b v, ground arith)
  | inr e ↦ rw e (elim (Bool-cases (ltb b.max_capacity n)) [
    | inl f ↦ rw f (refl, inl (refl, ground arith))
    | inr f ↦ rw f (
        grown-Reserves allocate b n (grow allocate b n)
          (grow-Grows allocate exact b v n (ground (arith, e, size-le b, v.write_le))))
  ])
]
