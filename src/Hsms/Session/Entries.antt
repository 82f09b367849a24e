-- ===== src/Hsms/Session/Entries.antt =====
-- The map of the transactions of src/hsms/session.cpp under the changes of single entries.
use secs_lib.Common.{
  ℕ, ◌≤◌, ◌<◌, ◌≡◌, inl, inr, refl, sym, ap, ◌∙◌, subst, false, Bool-cases, either_branch, List, [],
  ◌∷◌, All, Option, none, some, arith, ltb, ◌==◌, if◌then◌else◌, length, clash,
}
use secs_lib.Common.Assoc.{lookup, assign, erase_key}
use secs_lib.Core.Error.{Failure}
use secs_lib.Hsms.Message.{Message}
use secs_lib.Hsms.SType
use secs_lib.Hsms.Session.{
  Pending, Session, is_data_transaction, is_selected, is_disconnected, write,
}
use secs_lib.Hsms.Session.Reader.{respond, fulfilled, fulfill_pending}
use secs_lib.Hsms.Session.Transactions.{
  pending_limit, new_pending, insert_pending, erase_pending, begun, begin_transaction,
  request_written,
}
use secs_lib.Hsms.Session.Invariant.{
  IsSession, IsControlEntry, write-IsSession, emit_written-IsSession,
}

module _ {A : Type 0} where
  erase_key-le :
      (key : ℕ) (entries : List (ℕ × A)) → length (erase_key key entries) ≤ length entries
  unfolding erase_key
  erase_key-le key [] = omega arith
  erase_key-le key ((k, a) ∷ entries) = ground (arith, erase_key-le key entries)

  erase_key-lt :
      (key : ℕ) (a : A) (entries : List (ℕ × A))
      → lookup key entries ≡ some a
      → length (erase_key key entries) < length entries
  unfolding erase_key lookup
  erase_key-lt key a [] h = cc
  erase_key-lt key a ((k, b) ∷ entries) h = elim (Bool-cases (key == k)) [
    | inl e ↦ rw e (omega (arith, erase_key-le key entries))
    | inr e ↦
        let found : lookup key entries ≡ some a =
          subst (λ t. (if t then some b else lookup key entries) ≡ some a) e h in
        rw e (omega (arith, erase_key-lt key a entries found))
  ]

  erase_key-All :
      (P : ℕ × A → Type 0) (key : ℕ) (entries : List (ℕ × A))
      → All P entries
      → All P (erase_key key entries)
  unfolding erase_key
  erase_key-All P key [] h = tt
  erase_key-All P key ((k, a) ∷ entries) h =
      either_branch (All P) (key == k) _ _ (λ e. erase_key-All P key entries h.1)
        λ e. (h.0, erase_key-All P key entries h.1)

  lookup-All :
      (Q : A → Type 0) (key : ℕ) (a : A) (entries : List (ℕ × A))
      → All (λ e. Q e.1) entries
      → lookup key entries ≡ some a
      → Q a
  unfolding lookup
  lookup-All Q key a [] h f = cc
  lookup-All Q key a ((k, b) ∷ entries) h f = elim (Bool-cases (key == k)) [
    | inl e ↦
        let same : some b ≡ some a =
          subst (λ t. (if t then some b else lookup key entries) ≡ some a) e f in
        let equal : b ≡ a = cc in subst Q equal h.0
    | inr e ↦
        lookup-All Q key a entries h.1
          (subst (λ t. (if t then some b else lookup key entries) ≡ some a) e f)
  ]

-- Nothing is found in an empty map.
nothing_there :
    {A : Type 0} (key : ℕ) (a : A) (entries : List (ℕ × A))
    → entries ≡ []
    → lookup key entries ≡ some a
    → ⊥
unfolding lookup
nothing_there key a [] e h = cc
nothing_there key a (x ∷ entries) e h = cc

-- A message that nothing waits for leaves the session as it is.
abbrev pub IsSessionIf : Option Session → Type 0
IsSessionIf none = Unit
IsSessionIf (some s) = IsSession s

fulfilled-IsSession :
    (m : Message) (s : Session) (o : Option Pending)
    → lookup m.header.system_bytes s.pending ≡ o
    → IsSession s
    → IsSessionIf (fulfilled m s o)
unfolding fulfilled assign respond is_data_transaction IsSession
fulfilled-IsSession m s none l v = tt
fulfilled-IsSession m s (some p) l v =
    let sb = m.header.system_bytes in
    either_branch IsSessionIf (p.expected_stype == m.header.s_type) _ _
      (λ e. record {
        connection = v.connection;
        gated = v.gated;
        quiet = v.quiet;
        control_only = λ d. (
          lookup-All (λ q. is_data_transaction q ≡ false) sb p s.pending (v.control_only d) l,
          erase_key-All IsControlEntry sb s.pending (v.control_only d),
        );
        idle = λ d. absurd (nothing_there sb p s.pending (v.idle d) l);
        bounded = omega (arith, erase_key-lt sb p s.pending l, v.bounded);
      })
      λ e. tt

pub fulfill_pending-IsSession :
    (m : Message) (s : Session) → IsSession s → IsSessionIf (fulfill_pending m s)
unfolding fulfill_pending
fulfill_pending-IsSession m s v =
    fulfilled-IsSession m s (lookup m.header.system_bytes s.pending) refl v

pub erase_pending-IsSession : (sb : ℕ) (s : Session) → IsSession s → IsSession (erase_pending sb s)
unfolding erase_pending erase_key IsSession
erase_pending-IsSession sb s v = record {
  connection = v.connection;
  gated = v.gated;
  quiet = v.quiet;
  control_only = λ d. erase_key-All IsControlEntry sb s.pending (v.control_only d);
  idle = λ d. ap (erase_key sb) (v.idle d);
  bounded = omega (arith, erase_key-le sb s.pending, v.bounded);
}

begun-IsSession : (sb : ℕ) (r : Session × Option Failure) → IsSession r.0 → IsSession (begun sb r).0
unfolding begun
begun-IsSession sb (s, none) v = v
begun-IsSession sb (s, some e) v = erase_pending-IsSession sb s v

insert_pending-IsSession :
    (expected : ℕ) (req : Message) (s : Session)
    → IsSession s
    → is_disconnected s.state ≡ false
    → (is_selected s.state ≡ false → (expected == SType.data_message) ≡ false)
    → length s.pending < pending_limit s
    → IsSession (insert_pending expected req s)
unfolding insert_pending assign pending_limit is_data_transaction new_pending IsSession
insert_pending-IsSession expected req s v c k l = record {
  connection = v.connection;
  gated = v.gated;
  quiet = v.quiet;
  control_only =
      λ d. (k d, erase_key-All IsControlEntry req.header.system_bytes s.pending (v.control_only d));
  idle = λ d. absurd (clash (sym d ∙ c));
  bounded = omega (arith, erase_key-le req.header.system_bytes s.pending, l);
}

-- A transaction begins in a connected session, one for data in a selected one.
pub begin_transaction-IsSession :
    (expected : ℕ) (req : Message) (s : Session)
    → IsSession s
    → is_disconnected s.state ≡ false
    → (is_selected s.state ≡ false → (expected == SType.data_message) ≡ false)
    → IsSession (begin_transaction expected req s).0
unfolding begin_transaction
begin_transaction-IsSession expected req s v c k =
    either_branch (λ (r : Session × Option Failure). IsSession r.0)
      (ltb (length s.pending) (pending_limit s)) _ _
      (λ e. begun-IsSession req.header.system_bytes (write req (insert_pending expected req s)) (
        write-IsSession req (insert_pending expected req s)
          (insert_pending-IsSession expected req s v c k (ground (arith, e)))))
      λ e. v

pub request_written-IsSession :
    (o : Option Failure) (req : Message) (s : Session)
    → IsSession s
    → IsSession (request_written o req s)
unfolding request_written
request_written-IsSession none req s v = emit_written-IsSession none req s v
request_written-IsSession (some e) req s v = erase_pending-IsSession req.header.system_bytes s v
