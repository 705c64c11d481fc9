-- ===== src/Mount.antt =====
-- src/mount_manager.rs
pub mod Manager
pub mod Keys
pub mod Weights
pub mod Owned
pub mod Table
