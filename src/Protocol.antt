-- ===== src/Protocol.antt =====
-- The protocol layer of src/protocol/.
pub mod Router
pub mod SystemBytes
mod Tests
