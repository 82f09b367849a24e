-- ===== src/Utils.antt =====
-- The helpers of src/utils/.
pub mod Hex
