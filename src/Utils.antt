-- ===== src/Utils.antt =====
-- src/utils.rs.
pub mod Wide
