-- ===== src/Tests.antt =====
-- A disk image as the system, runs of the program over it, and the theorems at concrete data.
mod Image
mod Disk
mod Driver
mod Station
mod Cache
mod Container
mod Daemon
mod Service
mod Start
mod Owned
mod Process
mod Requests
mod Finds
mod Shared
mod Threads
