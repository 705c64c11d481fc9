-- ===== src/Monitor.antt =====
-- src/device_monitor.rs
pub mod Scan
pub mod Handles
pub mod Letters
pub mod Finds
