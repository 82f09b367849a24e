-- ===== src/Protocol/Router/Find.antt =====
-- `Router::find` after each operation.
use secs_lib.Common.{
  ℕ, ◌≡◌, refl, arith, List, [], All, ◌∷◌, ◌==◌, ◌&&◌, if◌then◌else◌, Option, none, some,
}
use secs_lib.Common.Bytes.{IsByte}
use secs_lib.Common.Assoc.{lookup, lookup-erase_key, lookup-assign}
use secs_lib.Protocol.Router.{
  Router, make_key, set_handler, set_stream_default, set_default, erase_handler,
  clear_stream_default, clear_default, clear, or_else, find,
}

same_key :
    (s f s' f' : ℕ) → IsByte f → IsByte f' → (make_key s f == make_key s' f') ≡ (s == s' && f == f')
unfolding make_key
same_key s f s' f' h h' = ground arith

-- The calls that change a table, of handlers in `A`.
module _ {ℓ} where
  pub data Update (A : Type ℓ) : Type ℓ where
    set_one : ℕ → ℕ → A → Update A
    set_stream : ℕ → A → Update A
    set_rest : A → Update A
    erase_one : ℕ → ℕ → Update A
    clear_stream : ℕ → Update A
    clear_rest : Update A
    clear_all : Update A

module _ {ℓ} {A : Type ℓ} where
  unfoldable pub apply : Update A → Router A → Router A
  apply (set_one s f h) r = set_handler r s f h
  apply (set_stream s h) r = set_stream_default r s h
  apply (set_rest h) r = set_default r h
  apply (erase_one s f) r = erase_handler r s f
  apply (clear_stream s) r = clear_stream_default r s
  apply clear_rest r = clear_default r
  apply clear_all r = clear r

  -- A new table after a history of calls, the last one first.
  unfoldable pub after : List (Update A) → Router A
  unfolding apply
  after [] = record { handlers = []; stream_default_handlers = []; default_handler = none }
  after (u ∷ us) = apply u (after us)

  -- What the history says of one stream and function, of one stream, and of the rest.
  unfoldable pub exact : List (Update A) → ℕ → ℕ → Option A
  exact [] s f = none
  exact (set_one s' f' h ∷ us) s f =
      let rest = exact us s f in if s == s' && f == f' then some h else rest
  exact (erase_one s' f' ∷ us) s f =
      let rest = exact us s f in if s == s' && f == f' then none else rest
  exact (clear_all ∷ us) s f = none
  exact (_ ∷ us) s f = exact us s f

  unfoldable pub by_stream : List (Update A) → ℕ → Option A
  by_stream [] s = none
  by_stream (set_stream s' h ∷ us) s = let rest = by_stream us s in if s == s' then some h else rest
  by_stream (clear_stream s' ∷ us) s = let rest = by_stream us s in if s == s' then none else rest
  by_stream (clear_all ∷ us) s = none
  by_stream (_ ∷ us) s = by_stream us s

  unfoldable pub for_the_rest : List (Update A) → Option A
  for_the_rest [] = none
  for_the_rest (set_rest h ∷ us) = some h
  for_the_rest (clear_rest ∷ us) = none
  for_the_rest (clear_all ∷ us) = none
  for_the_rest (_ ∷ us) = for_the_rest us

  -- The function of the call is a byte.
  unfoldable pub IsUpdate : Update A → Type 0
  IsUpdate (set_one s f h) = IsByte f
  IsUpdate (erase_one s f) = IsByte f
  IsUpdate _ = Unit {0}

module _ {ℓ} {A : Type ℓ} where
  lookup-exact :
      (us : List (Update A)) (s f : ℕ)
      → All IsUpdate us
      → IsByte f
      → lookup (make_key s f) (after us).handlers ≡ exact us s f
  unfolding after apply exact set_handler set_stream_default set_default erase_handler
      clear_stream_default clear_default clear IsUpdate lookup
  lookup-exact [] s f w h = refl
  lookup-exact (set_one s' f' a ∷ us) s f w h =
      rw
        (
          lookup-assign (make_key s f) (make_key s' f') a (after us).handlers,
          same_key s f s' f' h w.0,
          lookup-exact us s f w.1 h,
        )
        refl
  lookup-exact (erase_one s' f' ∷ us) s f w h =
      rw
        (
          lookup-erase_key (make_key s f) (make_key s' f') (after us).handlers,
          same_key s f s' f' h w.0,
          lookup-exact us s f w.1 h,
        )
        refl
  lookup-exact (clear_all ∷ us) s f w h = refl
  lookup-exact (set_stream s' a ∷ us) s f w h = lookup-exact us s f w.1 h
  lookup-exact (set_rest a ∷ us) s f w h = lookup-exact us s f w.1 h
  lookup-exact (clear_stream s' ∷ us) s f w h = lookup-exact us s f w.1 h
  lookup-exact (clear_rest ∷ us) s f w h = lookup-exact us s f w.1 h

  lookup-by_stream :
      (us : List (Update A)) (s : ℕ) → lookup s (after us).stream_default_handlers ≡ by_stream us s
  unfolding after apply by_stream set_handler set_stream_default set_default erase_handler
      clear_stream_default clear_default clear lookup
  lookup-by_stream [] s = refl
  lookup-by_stream (set_stream s' a ∷ us) s =
      rw (lookup-assign s s' a (after us).stream_default_handlers, lookup-by_stream us s) refl
  lookup-by_stream (clear_stream s' ∷ us) s =
      rw (lookup-erase_key s s' (after us).stream_default_handlers, lookup-by_stream us s) refl
  lookup-by_stream (clear_all ∷ us) s = refl
  lookup-by_stream (set_one s' f a ∷ us) s = lookup-by_stream us s
  lookup-by_stream (set_rest a ∷ us) s = lookup-by_stream us s
  lookup-by_stream (erase_one s' f ∷ us) s = lookup-by_stream us s
  lookup-by_stream (clear_rest ∷ us) s = lookup-by_stream us s

  default_rest : (us : List (Update A)) → (after us).default_handler ≡ for_the_rest us
  unfolding after apply for_the_rest set_handler set_stream_default set_default erase_handler
      clear_stream_default clear_default clear
  default_rest [] = refl
  default_rest (set_rest a ∷ us) = refl
  default_rest (clear_rest ∷ us) = refl
  default_rest (clear_all ∷ us) = refl
  default_rest (set_one s f a ∷ us) = default_rest us
  default_rest (set_stream s a ∷ us) = default_rest us
  default_rest (erase_one s f ∷ us) = default_rest us
  default_rest (clear_stream s ∷ us) = default_rest us

  -- After any history of calls on a new table, with functions that are bytes, `find` gives the
  -- handler that was last set for the stream and function and not taken out since, else the one
  -- for the stream, else the default one.
  pub find-after :
      (us : List (Update A)) (s f : ℕ)
      → All IsUpdate us
      → IsByte f
      → find (after us) s f ≡ or_else (exact us s f) (or_else (by_stream us s) (for_the_rest us))
  unfolding find
  find-after us s f w h = rw (lookup-exact us s f w h, lookup-by_stream us s, default_rest us) refl
