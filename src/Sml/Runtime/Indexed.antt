-- ===== src/Sml/Runtime/Indexed.antt =====
-- The two indexes that build_index of src/sml/runtime.cpp makes.
use secs_lib.Common.{
  ℕ, suc, ◌+◌, ◌<◌, ◌≡◌, refl, sym, ap, ◌∙◌, subst, Bool, true, false, ◌&&◌, ◌||◌, not, List, [],
  ◌∷◌, Option, none, some, arith, ◌==◌, if◌then◌else◌, get_elem?, All, ==_iff, Bool-cases, inl, inr,
}
use secs_lib.Common.Assoc.{lookup}
use secs_lib.Sml.Ast.{MessageDef}
use secs_lib.Sml.Lexer.{same_text}
use secs_lib.Sml.Render.{get}
use secs_lib.Sml.Runtime.{Runtime, is_empty, is_there, sf_key, indexed, indexed_from, message_at}
use secs_lib.Sml.Runtime.Found.{
  first_some, where_it, last_named, last_unnamed, first_of, first_some_assoc, first_some-none,
}
use secs_lib.Sml.Runtime.Maps.{get-put, lookup_if}

-- The index `o` in the messages stands for the message `om`.
abbrev pub Points : List MessageDef → Option ℕ → Option MessageDef → Type 0
Points doc none none = Unit
Points doc (some i) (some m) = get_elem? doc i ≡ some m
Points doc _ _ = ⊥

module _ (doc : List MessageDef) where
  -- The messages from the one at `i` on are `ms`.
  abbrev pub Remain : ℕ → List MessageDef → Type 0
  Remain i ms = (k : ℕ) → get_elem? doc (i + k) ≡ get_elem? ms k

  Remain-here :
      (i : ℕ) (m : MessageDef) (ms : List MessageDef) → Remain i (m ∷ ms) → get_elem? doc i ≡ some m
  Remain-here i m ms h = subst (λ n. get_elem? doc n ≡ some m) (omega arith) (h 0)

  Remain-next :
      (i : ℕ) (m : MessageDef) (ms : List MessageDef) → Remain i (m ∷ ms) → Remain (suc i) ms
  Remain-next i m ms h k = subst (λ n. get_elem? doc n ≡ get_elem? ms k) (omega arith) (h (suc k))

  module _ (name : List ℕ) where
    named-step :
        (i : ℕ) (m : MessageDef) (r : Runtime) (om : Option MessageDef)
        → get_elem? doc i ≡ some m
        → Points doc (get name r.name_index) om
        → Points doc
            (get name (indexed i m r).name_index)
            (first_some (where_it (not (is_empty m.name) && same_text m.name name) m) om)
    unfolding indexed
    named-step i m r om here p = elim (Bool-cases (is_empty m.name)) [
      | inl e ↦ rw e p
      | inr e ↦
          rw (e, get-put name m.name i r.name_index)
            (elim (Bool-cases (same_text m.name name)) [ inl s ↦ rw s here | inr s ↦ rw s p ])
    ]

    pub named :
        (ms : List MessageDef) (i : ℕ) (r : Runtime) (om : Option MessageDef)
        → Remain i ms
        → Points doc (get name r.name_index) om
        → Points doc
            (get name (indexed_from i ms r).name_index)
            (first_some (last_named name ms) om)
    unfolding indexed_from last_named
    named [] i r om h p = p
    named (m ∷ ms) i r om h p =
        subst (Points doc (get name (indexed_from (suc i) ms (indexed i m r)).name_index))
          (sym (first_some_assoc (last_named name ms) _ om))
          (named ms (suc i) (indexed i m r)
            (first_some (where_it (not (is_empty m.name) && same_text m.name name) m) om)
            (Remain-next i m ms h) (named-step i m r om (Remain-here i m ms h) p))

  module _ (s f : ℕ) (small : f < 256) where
    same_key :
        (m : MessageDef)
        → m.function < 256
        → (sf_key s f == sf_key m.stream m.function) ≡ (m.stream == s && m.function == f)
    unfolding sf_key
    same_key m h = ground arith

    hit_lands :
        (i : ℕ) (m : MessageDef) (o : Option ℕ) (om : Option MessageDef) (unnamed : Bool)
        → get_elem? doc i ≡ some m
        → Points doc o om
        → Points doc
            (if unnamed || not (is_there o) then some i else o)
            (first_some (where_it (unnamed && true) m) (first_some om (some m)))
    unfolding is_there
    hit_lands i m o om true here p = here
    hit_lands i m none none false here p = here
    hit_lands i m (some j) (some n) false here p = p
    hit_lands i m none (some n) false here p = absurd p
    hit_lands i m (some j) none false here p = absurd p

    passed_over :
        (m : MessageDef) (o : Option ℕ) (om : Option MessageDef) (unnamed free : Bool)
        → Points doc o om
        → Points doc
            (if free then o else o)
            (first_some (where_it (unnamed && false) m) (first_some om none))
    passed_over m o om true true p = subst (Points doc o) (sym (first_some-none om)) p
    passed_over m o om true false p = subst (Points doc o) (sym (first_some-none om)) p
    passed_over m o om false true p = subst (Points doc o) (sym (first_some-none om)) p
    passed_over m o om false false p = subst (Points doc o) (sym (first_some-none om)) p

    -- `there` is what the message's own key finds, `o` what the key in question does.
    hit_or_not :
        (i : ℕ) (m : MessageDef) (o there : Option ℕ) (om : Option MessageDef) (unnamed hit : Bool)
        → (hit ≡ true → there ≡ o)
        → get_elem? doc i ≡ some m
        → Points doc o om
        → Points doc
            (if unnamed || not (is_there there) then (if hit then some i else o) else o)
            (first_some (where_it (unnamed && hit) m) (first_some om (where_it hit m)))
    hit_or_not i m o there om unnamed true same here p =
        rw (same refl) (hit_lands i m o om unnamed here p)
    hit_or_not i m o there om unnamed false same here p =
        passed_over m o om unnamed (unnamed || not (is_there there)) p

    sf-step :
        (i : ℕ) (m : MessageDef) (r : Runtime) (om : Option MessageDef)
        → m.function < 256
        → get_elem? doc i ≡ some m
        → Points doc (lookup (sf_key s f) r.sf_index) om
        → Points doc (lookup (sf_key s f) (indexed i m r).sf_index) (
            first_some
              (where_it (is_empty m.name && (m.stream == s && m.function == f)) m)
              (first_some om (where_it (m.stream == s && m.function == f) m)))
    unfolding indexed
    sf-step i m r om h here p =
        rw (lookup_if (sf_key s f) (sf_key m.stream m.function) i _ r.sf_index, same_key m h)
          (hit_or_not i m (lookup (sf_key s f) r.sf_index)
            (lookup (sf_key m.stream m.function) r.sf_index) om (is_empty m.name)
            (m.stream == s && m.function == f)
            (λ e.
              ap (λ k. lookup k r.sf_index)
                (sym ((==_iff (sf_key s f) (sf_key m.stream m.function)).0 (same_key m h ∙ e))))
            here p)

    regroup :
        (a b c d e : Option MessageDef)
        → first_some a (first_some (first_some b (first_some c d)) e)
          ≡ first_some (first_some a b) (first_some c (first_some d e))
    regroup (some a) b c d e = refl
    regroup none (some b) c d e = refl
    regroup none none c d e = first_some_assoc c d e

    pub by_sf :
        (ms : List MessageDef) (i : ℕ) (r : Runtime) (om : Option MessageDef)
        → All (λ m. m.function < 256) ms
        → Remain i ms
        → Points doc (lookup (sf_key s f) r.sf_index) om
        → Points doc
            (lookup (sf_key s f) (indexed_from i ms r).sf_index)
            (first_some (last_unnamed s f ms) (first_some om (first_of s f ms)))
    unfolding indexed_from last_unnamed first_of
    by_sf [] i r om all h p = subst (Points doc _) (sym (first_some-none om)) p
    by_sf (m ∷ ms) i r om (small_m, all) h p =
        subst (Points doc (lookup (sf_key s f) (indexed_from (suc i) ms (indexed i m r)).sf_index))
          (regroup (last_unnamed s f ms) _ om _ (first_of s f ms))
          (by_sf ms (suc i) (indexed i m r) _ all (Remain-next i m ms h)
            (sf-step i m r om small_m (Remain-here i m ms h) p))

  pub indexed_from-document :
      (i : ℕ) (ms : List MessageDef) (r : Runtime) → (indexed_from i ms r).document ≡ r.document
  unfolding indexed_from indexed
  indexed_from-document i [] r = refl
  indexed_from-document i (m ∷ ms) r = indexed_from-document (suc i) ms (indexed i m r)

  pub message_at-Points :
      (r : Runtime) (o : Option ℕ) (om : Option MessageDef)
      → r.document.messages ≡ doc
      → Points doc o om
      → message_at o r ≡ om
  unfolding message_at
  message_at-Points r none none e p = refl
  message_at-Points r (some i) (some m) e p = rw e p
  message_at-Points r none (some m) e p = absurd p
  message_at-Points r (some i) none e p = absurd p
