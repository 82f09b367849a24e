-- ===== src/Core/Error.antt =====
-- `secs::core::errc` of include/secs/core/error.hpp.
use secs_lib.Common.{ℕ}

pub data Errc : Type 0 where
  timeout cancelled buffer_overflow invalid_argument out_of_memory : Errc

-- A `std::error_code` that is set: one of the library's, or one of the system's.
pub data Failure : Type 0 where
  core : Errc → Failure
  system : ℕ → Failure
