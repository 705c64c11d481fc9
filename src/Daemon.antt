-- ===== src/Daemon.antt =====
-- src/main.rs: the daemon
pub mod KeySet
pub mod Update
pub mod Agree
pub mod Sync
pub mod Loop
pub mod Owned
pub mod Follows
