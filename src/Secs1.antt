-- ===== src/Secs1.antt =====
-- The SECS-I block layer of src/secs1/.
pub mod Block
pub mod Fragment
pub mod Reassembler
pub mod Machine
pub mod Transfer
mod Tests
