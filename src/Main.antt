-- ===== src/Main.antt =====
-- src/main.rs, but for the daemon.
pub mod Setup
pub mod Command
pub mod Manual
pub mod Owned
pub mod Keeps
pub mod Leaves
