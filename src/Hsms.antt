-- ===== src/Hsms.antt =====
-- HSMS of src/hsms/: messages and frames, connections and sessions.
pub mod SType
pub mod Message
pub mod Frame
pub mod Builders
pub mod Connection
pub mod Session
mod Tests
