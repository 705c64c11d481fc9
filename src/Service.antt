-- ===== src/Service.antt =====
-- src/service.rs
pub mod Run
pub mod Ends
pub mod Install
pub mod Protocol
pub mod Handles
pub mod Daemon
pub mod Whole
