-- ===== src/Driver.antt =====
-- src/driver.rs
pub mod Extents
pub mod Read
pub mod Locate
pub mod Rounds
pub mod Content
pub mod Bounds
pub mod Apfs
pub mod New
pub mod Volume
pub mod Shared
pub mod Handles
pub mod Info
pub mod Files
pub mod Coherent
pub mod Answers
pub mod Serve
pub mod Threads
pub mod Fuel
pub mod Unmapped
