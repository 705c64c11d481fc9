-- ===== src/Lib.antt =====
-- ARFW mounts APFS volumes read-only on Windows. This library models the program and proves what makes
-- it correct.
--
-- The parts, and the files that model them:
--
-- Disk (src/disk.rs). `DiskReader` reads a raw disk, which takes only whole sectors, as a plain stream
--   of bytes. Disk/Api is the part of Win32 that is called, as the record `Win32` over a state
--   `World`, with `IsDisk` for its documented behaviour on a disk. Disk/Reader has the methods,
--   Disk/Superblock those that read APFS structures. Disk/Handles has how often each handle is open. A
--   method that fills a buffer takes the contents and returns the new ones. `read_exact` is the
--   standard library's; it has one round of fuel more than the buffer has bytes, and a round reads a
--   byte or ends it. `search_btree_node` has one round more than the node has bytes, and a round moves
--   on by eight bytes.
-- Driver (src/driver.rs). `ApfsDriver` answers WinFsp's requests. Driver/Extents and Driver/Read have
--   the reads through the extent map, Driver/Files the requests that go through the stat cache,
--   Driver/Info the attributes and times (also those of src/utils.rs), Driver/New and Driver/Volume
--   the start. Driver/Apfs is the APFS crate, as the record `ApfsApi`, `LruApi` the cache crate and
--   `DirBufferApi` WinFsp's directory buffer, which is given beside the context that holds it;
--   `IsVolume` and `IsLru` are what the driver relies on. The read loop has as many rounds of fuel as
--   bytes to read, and one more. WinFsp calls the driver on several threads: Driver/Shared has the
--   mutex of the reader and the two calls of a positioned read as steps, Driver/Threads the mutexes of
--   the cache and of the volume in the four requests for metadata, each with its invariant in a child
--   module. Elsewhere a request is one step. Driver/Handles follows the handles that the start opens.
-- Monitor (src/device_monitor.rs). The scan of the drives for APFS partitions, and the free drive
--   letters.
-- Mount (src/mount_manager.rs). `MountManager`, with WinFsp's host as the record `HostApi`. The table
--   of mounts is an association list under the keys that the source formats. Mount/Owned follows the
--   handles that the mounts own, by sums over the table in Mount/Weights, Mount/Table has the table
--   over any calls.
-- Daemon (src/main.rs, `run_daemon_internal` and `scan_and_update`). A scan mounts new partitions and
--   unmounts removed ones. The turns of the event loop are a list: an event, a closed channel, or 100
--   ms without an event, with or without a shutdown request. Daemon/Owned follows the handles over a
--   run, Daemon/Follows what is mounted after the last event.
-- Service (src/service.rs). The Windows service: the wait for WinFsp, the status reports, the daemon.
--   A round of the wait takes 500 ms of the 60 s, so its fuel is 121 rounds. Service/Protocol is the
--   order of the reports, Service/Install the installation and its removal. Service/Daemon puts the
--   daemon into the service, and Service/Whole follows its handles: the turns that its loop meets are
--   any, and then a shutdown request.
-- Watcher (src/device_watcher.rs). `DeviceWatcher`, with its sender on the heap. Watcher/Threads has
--   the watcher's moves and those of its callbacks, which run on threads of their own, with an
--   unregistration that may fail, and Watcher/Interface is the watcher as the daemon takes it.
-- Main (src/main.rs). The search for WinFsp's library, the mount by hand, and in Main/Command the
--   commands. `main` runs on one state that the disks, WinFsp, the registry and the service manager
--   share, the record `Outside`; the service manager gets the program's `service_main`. Main/Owned,
--   Main/Keeps and Main/Leaves follow the handles.
-- Utils (src/utils.rs). The conversions of paths between UTF-8 and UTF-16.
-- Error (src/error.rs). The error types, and the errors of an NTSTATUS.
-- Tests runs the definitions on a disk image, and applies the theorems to concrete data.
--
-- Numbers: u64 sums and products wrap (`add_u64`, `mul_u64`), as in a release build; a debug build
-- would panic where they do. Lengths and counts are not bounded by the machine's word, except where a
-- theorem says so. Text is the list of its character codes.
--
-- Not modelled: log lines, the vendored APFS crate under vendor/apfs, argument parsing, whose result
-- is a parameter, and the poisoning of a mutex by a panic.
pub mod Base
pub mod Error
pub mod Disk
pub mod Driver
pub mod Monitor
pub mod Mount
pub mod Watcher
pub mod Daemon
pub mod Service
pub mod Main
pub mod Utils
pub mod Tests
