-- ===== src/Core.antt =====
-- include/secs/core and src/core: what all parts share.
pub mod Error
pub mod Event
pub mod Buffer
