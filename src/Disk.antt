-- ===== src/Disk.antt =====
-- src/disk.rs
pub mod Api
pub mod Reader
pub mod Sector
pub mod Read
pub mod Superblock
pub mod Search
pub mod Space
pub mod Handles
