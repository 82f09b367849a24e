-- ===== src/Ii.antt =====
-- The SECS-II (SEMI E5) data items and their codec: include/secs/ii and src/ii.
pub mod Format
pub mod Item
pub mod Equal
pub mod Writer
pub mod Size
pub mod Wire
pub mod Measure
pub mod Encode
pub mod Decode
pub mod RoundTrip
mod Tests
