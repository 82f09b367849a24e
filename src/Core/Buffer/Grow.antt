-- ===== src/Core/Buffer/Grow.antt =====
-- How a `FixedBuffer` of src/core/buffer.cpp makes room: `grow`, `ensure_writable` and `reserve`.
use secs_lib.Common.{
  ℕ, zero, suc, ◌+◌, ◌-◌, ◌*◌, ◌^◌, ◌≤◌, ◌<◌, ◌≡◌, ◌⊎◌, min, max, refl, sym, ap, subst, ◌∙◌, true,
  Bool-cases, inl, inr, List, ltb, leb, ◌==◌, ◌&&◌, length, Option, none, some, arith,
}
use secs_lib.Common.Outcome.{ok}
use secs_lib.Common.Slices.{slice, splice, length-splice, slice-splice_front}
use secs_lib.Core.Error.{Errc, buffer_overflow, out_of_memory}
use secs_lib.Core.Buffer.{
  FixedBuffer, default_capacity, size_max, chosen, storage, size, readable_bytes, compact, doubled,
  is_inline, replaced, reallocate, grow, grow_for, ensure_compacted, ensure_writable,
}
use secs_lib.Core.Buffer.Shape.{
  IsBuffer, Keeps, Keeps-refl, Keeps-trans, length-readable_bytes, Compacts, compact-Compacts,
}

-- The loop of `grow` ends by its test, with a capacity between what is asked for and the limit.
pub doubled_enough :
    (fuel c lo hi : ℕ)
    → 1 ≤ c
    → c ≤ hi
    → lo ≤ hi
    → hi ≤ 2 ^ 63
    → lo < c + fuel
    → (n : ℕ) × (doubled fuel c lo hi ≡ ok n) × (lo ≤ n) × (n ≤ hi)
unfolding doubled
doubled_enough zero c lo hi p q l b f = (c, refl, omega arith, q)
doubled_enough (suc fuel) c lo hi p q l b f = elim (Bool-cases (ltb c lo)) [
  | inr e ↦ (c, rw e refl, ground arith, q)
  | inl e ↦
      let lt : c < lo = ground arith in
      let (n, r, below, above) =
        doubled_enough fuel (min (c * 2) hi) lo hi (omega arith) (omega arith) l b (omega arith) in
      (n, ground (arith, r), below, above)
]

-- Arrays come in the size asked for.
abbrev pub IsAllocator : (ℕ → Option (List ℕ)) → Type 0
IsAllocator allocate = (n : ℕ) (bytes : List ℕ) → allocate n ≡ some bytes → length bytes ≡ n

-- Why room for `n` bytes cannot be made.
abbrev pub Refuses : (ℕ → Option (List ℕ)) → FixedBuffer → ℕ → Errc → Type 0
Refuses allocate b total e =
    ((e ≡ buffer_overflow) × (b.max_capacity < total))
    ⊎ ((e ≡ out_of_memory) × ((n : ℕ) × (n ≤ b.max_capacity) × (allocate n ≡ none)))

-- After a call that makes a capacity of `total`: on an error everything is as it was.
unfoldable pub Grows : (ℕ → Option (List ℕ)) → FixedBuffer → ℕ → Option Errc × FixedBuffer → Type 0
Grows allocate b total (some e, c) = (c ≡ b) × Refuses allocate b total e
Grows allocate b total (none, c) =
    Keeps b c × (total ≤ c.capacity) × (size c ≡ size b) × (c.read_pos ≤ b.read_pos)

chosen_inline :
    (h : Option (List ℕ)) (inline : List ℕ) → is_inline h ≡ true → chosen h inline ≡ inline
unfolding chosen is_inline
chosen_inline none inline e = refl
chosen_inline (some bytes) inline e = cc

module _ (allocate : ℕ → Option (List ℕ)) (exact : IsAllocator allocate) (b : FixedBuffer)
    (v : IsBuffer b) where
  fresh-Grows :
      (total n : ℕ) (fresh : List ℕ)
      → length fresh ≡ n
      → size b ≤ total
      → total ≤ n
      → n ≤ b.max_capacity
      → Grows allocate b total (replaced allocate b n (some fresh))
  unfolding Grows replaced storage chosen readable_bytes size
  fresh-Grows total n fresh l s lo hi =
      let k : length (readable_bytes b) ≡ size b = length-readable_bytes b v in
      let front = splice fresh 0 (readable_bytes b) in
      let m : length front ≡ n = length-splice fresh 0 (readable_bytes b) (omega (arith, k)) ∙ l in
      (
        record {
          shape = record {
            inline_length = v.inline_length;
            read_le = omega arith;
            write_le = omega arith;
            capacity_le = hi;
            max_le = v.max_le;
            fits = omega (arith, m);
          };
          bytes = ap (λ w. slice front 0 w) (sym k) ∙ slice-splice_front fresh (readable_bytes b);
          same_max = refl;
        },
        lo,
        omega arith,
        omega arith,
      )

  replaced-Grows :
      (total n : ℕ) (found : Option (List ℕ))
      → allocate n ≡ found
      → size b ≤ total
      → total ≤ n
      → n ≤ b.max_capacity
      → Grows allocate b total (replaced allocate b n found)
  unfolding Grows replaced
  replaced-Grows total n (some fresh) e s lo hi =
      fresh-Grows total n fresh (exact n fresh e) s lo hi
  replaced-Grows total n none e s lo hi = (refl, inr (refl, (n, hi, e)))

  reallocate-Grows :
      (total : ℕ)
      → size b ≤ total
      → b.capacity < total
      → total ≤ b.max_capacity
      → Grows allocate b total
          (reallocate allocate b (doubled (suc total) (max b.capacity 1) total b.max_capacity))
  unfolding reallocate
  reallocate-Grows total s lo hi =
      let (n, e, below, above) =
        doubled_enough (suc total) (max b.capacity 1) total b.max_capacity (omega arith)
          (omega arith) hi v.max_le (omega arith) in
      rw e (replaced-Grows total n (allocate n) refl s below above)

  -- The inline bytes are used up to a new capacity.
  stay-Grows :
      (total : ℕ)
      → (is_inline b.heap && leb total default_capacity) ≡ true
      → b.capacity < total
      → total ≤ b.max_capacity
      → Grows allocate b total (none, record b { capacity = total })
  unfolding Grows storage readable_bytes size
  stay-Grows total g lo hi =
      let inline : chosen b.heap b.inline_bytes ≡ b.inline_bytes =
        chosen_inline b.heap b.inline_bytes (ground (arith, g)) in
      (
        record {
          shape = record {
            inline_length = v.inline_length;
            read_le = v.read_le;
            write_le = omega (arith, v.write_le);
            capacity_le = hi;
            max_le = v.max_le;
            fits = ground (arith, g, ap length inline, v.inline_length);
          };
          bytes = refl;
          same_max = refl;
        },
        omega arith,
        refl,
        omega arith,
      )

  -- `grow` makes the capacity asked for, or refuses for one of the two reasons.
  pub grow-Grows : (total : ℕ) → size b ≤ total → Grows allocate b total (grow allocate b total)
  unfolding grow Grows
  grow-Grows total s = elim (Bool-cases (leb total b.capacity)) [
    | inl e ↦ rw e (Keeps-refl b v, ground arith, refl, omega arith)
    | inr e ↦ rw e (elim (Bool-cases (ltb b.max_capacity total)) [
      | inl f ↦ rw f (refl, inl (refl, ground arith))
      | inr f ↦ rw f (elim (Bool-cases (is_inline b.heap && leb total default_capacity)) [
        | inl g ↦ rw g (stay-Grows total g (ground arith) (ground arith))
        | inr g ↦ rw g (reallocate-Grows total s (ground arith) (ground arith))
      ])
    ])
  ]

-- After a call that makes room for `n` bytes behind the written ones: the readable bytes stay in
-- any case, and on an error they and `n` more do not fit, or there was no memory.
unfoldable pub HasRoom :
    (ℕ → Option (List ℕ)) → FixedBuffer → ℕ → Option Errc × FixedBuffer → Type 0
HasRoom allocate b n (some e, c) = Keeps b c × Refuses allocate b (size b + n) e
HasRoom allocate b n (none, c) = Keeps b c × (c.write_pos + n ≤ c.capacity)

module _ (allocate : ℕ → Option (List ℕ)) (exact : IsAllocator allocate) where
  Refuses-along :
      (b c : FixedBuffer) (n : ℕ) (e : Errc)
      → Compacts b c
      → Refuses allocate c (size c + n) e
      → Refuses allocate b (size b + n) e
  Refuses-along b c n e k (inl (p, q)) = inl (p, omega (arith, q, k.same_size, k.keeps.same_max))
  Refuses-along b c n e k (inr (p, (m, q, a))) = inr (p, (m, omega (arith, q, k.keeps.same_max), a))

  grown-HasRoom :
      (b c : FixedBuffer) (n : ℕ) (r : Option Errc × FixedBuffer)
      → Compacts b c
      → Grows allocate c (size c + n) r
      → HasRoom allocate b n r
  unfolding Grows HasRoom size
  grown-HasRoom b c n (some e, d) k g =
      (subst (λ x. Keeps b x) (sym g.0) k.keeps, Refuses-along b c n e k g.1)
  grown-HasRoom b c n (none, d) k g =
      let read_le = g.0.shape.read_le in
      (Keeps-trans b c d k.keeps g.0, omega (arith, g.1, g.2, g.3, k.front, read_le))

  grow_for-HasRoom :
      (b c : FixedBuffer) (n : ℕ) → Compacts b c → HasRoom allocate b n (grow_for allocate c n)
  unfolding grow_for HasRoom
  grow_for-HasRoom b c n k =
      let same = k.same_size in
      let limit = k.keeps.same_max in
      let small = k.keeps.shape.max_le in
      elim (Bool-cases (ltb (size_max - size c) n)) [
        | inl e ↦ rw e (k.keeps, inl (refl, ground (arith, e, same, limit, small)))
        | inr e ↦ rw e (elim (Bool-cases (ltb c.max_capacity (size c + n))) [
          | inl f ↦ rw f (k.keeps, inl (refl, ground (arith, f, same, limit)))
          | inr f ↦ rw f (
              grown-HasRoom b c n (grow allocate c (size c + n)) k
                (grow-Grows allocate exact c k.keeps.shape (size c + n) (omega arith)))
        ])
      ]

  compacted-HasRoom :
      (b c : FixedBuffer) (n : ℕ)
      → Compacts b c
      → HasRoom allocate b n (ensure_compacted allocate c n)
  unfolding ensure_compacted HasRoom
  compacted-HasRoom b c n k =
      let inside = k.keeps.shape.write_le in
      elim (Bool-cases (ltb c.capacity c.write_pos)) [
        | inl e ↦ absurd (ground (arith, e, inside))
        | inr e ↦ rw e (elim (Bool-cases (leb n (c.capacity - c.write_pos))) [
          | inl f ↦ rw f (k.keeps, ground (arith, f, inside))
          | inr f ↦ rw f (grow_for-HasRoom b c n k)
        ])
      ]

  at_front : (b : FixedBuffer) → IsBuffer b → (b.read_pos == 0) ≡ true → Compacts b b
  at_front b v e = record {
    keeps = Keeps-refl b v;
    front = ground arith;
    same_capacity = refl;
    same_size = refl;
  }

  -- `ensure_writable` makes room, or refuses for one of the two reasons.
  pub ensure_writable-HasRoom :
      (b : FixedBuffer) (n : ℕ) → IsBuffer b → HasRoom allocate b n (ensure_writable allocate b n)
  unfolding ensure_writable HasRoom
  ensure_writable-HasRoom b n v = elim (Bool-cases (n == 0)) [
    | inl e ↦ rw e (Keeps-refl b v, ground arith)
    | inr e ↦ rw e (elim (Bool-cases (ltb b.capacity b.write_pos)) [
      | inl f ↦ absurd (ground arith)
      | inr f ↦ rw f (elim (Bool-cases (leb n (b.capacity - b.write_pos))) [
        | inl g ↦ rw g (Keeps-refl b v, ground arith)
        | inr g ↦ rw g (elim (Bool-cases (b.read_pos == 0)) [
          | inl h ↦ rw h (grow_for-HasRoom b b n (at_front b v h))
          | inr h ↦ rw h (compacted-HasRoom b (compact b) n (compact-Compacts b v))
        ])
      ])
    ])
  ]
