-- ===== src/Watcher.antt =====
-- src/device_watcher.rs
pub mod Watch
pub mod Threads
pub mod Interface
