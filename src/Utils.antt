-- ===== src/Utils.antt =====
-- src/utils and include/utils.
pub mod TaskTimer
