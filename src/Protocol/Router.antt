-- ===== src/Protocol/Router.antt =====
-- The table of handlers: include/secs/protocol/router.hpp and src/protocol/router.cpp. The maps are
-- association lists with one entry for a key, and a handler is a value of any type. The mutex makes
-- each call one step.
pub mod Find
use secs_lib.Common.Assoc.{lookup, erase_key, assign}
use secs_lib.Common.{ℕ, ◌+◌, ◌*◌, ◌^◌, List, [], ◌∷◌, ◌==◌, if◌then◌else◌, Option, none, some}

module _ {ℓ} where
  pub record Router (A : Type ℓ) : Type ℓ where
    pub handlers : List (ℕ × A)
    pub stream_default_handlers : List (ℕ × A)
    pub default_handler : Option A

-- `stream << 8 | function`, for a byte `function`.
unfoldable pub make_key : ℕ → ℕ → ℕ
make_key stream function = stream * 2 ^ 8 + function

module _ {ℓ} {A : Type ℓ} where
  unfoldable pub set_handler : Router A → ℕ → ℕ → A → Router A
  set_handler r stream function handler = record r {
    handlers = assign (make_key stream function) handler r.handlers;
  }

  unfoldable pub set_stream_default : Router A → ℕ → A → Router A
  set_stream_default r stream handler = record r {
    stream_default_handlers = assign stream handler r.stream_default_handlers;
  }

  unfoldable pub set_default : Router A → A → Router A
  set_default r handler = record r { default_handler = some handler }

  unfoldable pub erase_handler : Router A → ℕ → ℕ → Router A
  erase_handler r stream function = record r {
    handlers = erase_key (make_key stream function) r.handlers;
  }

  unfoldable pub clear_stream_default : Router A → ℕ → Router A
  clear_stream_default r stream = record r {
    stream_default_handlers = erase_key stream r.stream_default_handlers;
  }

  unfoldable pub clear_default : Router A → Router A
  clear_default r = record r { default_handler = none }

  unfoldable pub clear : Router A → Router A
  clear r = record { handlers = []; stream_default_handlers = []; default_handler = none }

  unfoldable pub or_else : Option A → Option A → Option A
  or_else (some a) other = some a
  or_else none other = other

  unfoldable pub find : Router A → ℕ → ℕ → Option A
  find r stream function =
      or_else (lookup (make_key stream function) r.handlers)
        (or_else (lookup stream r.stream_default_handlers) r.default_handler)
