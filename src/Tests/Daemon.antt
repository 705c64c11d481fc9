-- ===== src/Tests/Daemon.antt =====
-- The theorems about src/main.rs, src/mount_manager.rs and src/device_monitor.rs at concrete data.
use arfw.Base.{ℕ, ◌+◌, ◌≡◌, refl, true, false, List, [], ◌∷◌, ok}
use arfw.Base.Int.{to_u64}
use arfw.Base.Text.{text_eq, decimal}
use arfw.Monitor.Scan.{
  ApfsPartition, drive_path, scan_apfs_partitions, find_available_drive_letters,
}
use arfw.Monitor.Handles.{All, Same, IsOnDrive, scan_apfs_partitions_lem}
use arfw.Mount.Manager.{
  key, get, is_mounted, get_mounted_disks, mount_partition, open_host, unmount_partition,
}
use arfw.Monitor.Letters.{first, FirstFree, find_available_drive_letters-FirstFree}
use arfw.Mount.Table.{mem, Call, mounting, unmounting, calls, get_mounted_disks_iff}
use arfw.Mount.Keys.{MountsOne, mount_partition_lem, is_mounted-unmount_partition}
use arfw.Daemon.KeySet.{contains}
use arfw.Daemon.Update.{Daemon, update, scan_and_update}
use arfw.Daemon.Agree.{Agrees, scan_and_update-Agrees}
use arfw.Daemon.Sync.{keys, update-undisturbed, scan_and_update-current, scan_and_update-healthy}
use arfw.Daemon.Follows.{run_loop-current}
use arfw.Daemon.Loop.{initial, run_loop, timeout, added}
use arfw.Tests.Owned.{Handles, counter, handle_counts}
use arfw.Tests.Station.{system, crate, winfsp, station-IsHealthy}

scan_apfs_partitions_example :
    (found : List ApfsPartition) × (w : Handles) × (scan_apfs_partitions counter (1, (0, []) ∷ [])
      ≡ (ok found, w))
    × Same counter handle_counts (1, (0, []) ∷ []) w
    × All IsOnDrive found
scan_apfs_partitions_example = scan_apfs_partitions_lem counter handle_counts (1, (0, []) ∷ [])

abbrev start : Daemon system crate winfsp
start = initial system crate winfsp

start-Agrees : Agrees system crate winfsp start
unfolding contains is_mounted
start-Agrees d p = refl

scan_and_update-Agrees_example :
    Agrees system crate winfsp (scan_and_update system crate winfsp start 0).0
scan_and_update-Agrees_example = scan_and_update-Agrees system crate winfsp start 0 start-Agrees

abbrev found : List ApfsPartition
found =
    record {
      disk_number = 3;
      partition_number = 2;
      device_path = drive_path 3;
      offset = 100;
      size = 1100;
    }
    ∷ []

scan_finds : (scan_apfs_partitions system 0).0 ≡ ok found
unfolding scan_apfs_partitions drive_path text_eq decimal to_u64
scan_finds = refl

scan_and_update-healthy_example :
    is_mounted system crate winfsp (scan_and_update system crate winfsp start 0).0.mounts 3 2
    ≡ contains (3, 2) (keys found)
scan_and_update-healthy_example =
    scan_and_update-healthy system crate winfsp station-IsHealthy start 0 found 3 2 start-Agrees
      scan_finds

abbrev after : Daemon system crate winfsp
after = (scan_and_update system crate winfsp start 0).0

after-Agrees : Agrees system crate winfsp after
after-Agrees = scan_and_update-Agrees system crate winfsp start 0 start-Agrees

mounted_after : is_mounted system crate winfsp after.mounts 3 2 ≡ true
unfolding contains
mounted_after = scan_and_update-healthy_example

found_after : contains (3, 2) (keys found) ≡ true
unfolding contains
found_after = refl

scan_and_update-current_example : contains (3, 2) (keys found) ≡ true
scan_and_update-current_example =
    scan_and_update-current system crate winfsp start 0 found 3 2 start-Agrees scan_finds
      mounted_after

update-undisturbed_example :
    get (key 3 2) (update system crate winfsp found after 0).0.mounts ≡ get (key 3 2) after.mounts
update-undisturbed_example =
    update-undisturbed system crate winfsp 3 2 found after 0 after-Agrees mounted_after found_after

abbrev other_partition : ApfsPartition
other_partition = record {
  disk_number = 3;
  partition_number = 7;
  device_path = drive_path 3;
  offset = 1200;
  size = 500;
}

mount_partition_lem_example :
    let (result, mounts', w') =
      mount_partition system crate winfsp start.mounts other_partition b'E' 0 in
    MountsOne system crate winfsp start.mounts other_partition b'E'
      (open_host system crate winfsp other_partition b'E' 0).0
      result
      mounts'
mount_partition_lem_example =
    mount_partition_lem system crate winfsp start.mounts other_partition b'E' 0

run_loop-current_example : contains (3, 2) (keys found) ≡ true
unfolding run_loop
run_loop-current_example =
    run_loop-current system crate winfsp (timeout false ∷ []) (timeout false ∷ timeout true ∷ [])
      added start 0 found 3 2 start-Agrees refl refl scan_finds mounted_after

is_mounted-unmount_partition_example :
    is_mounted system crate winfsp (unmount_partition system crate winfsp after.mounts 3 2 0).0 3 2
    ≡ false
is_mounted-unmount_partition_example =
    is_mounted-unmount_partition system crate winfsp after.mounts 3 2 0 3 2

find_available_drive_letters-FirstFree_example :
    FirstFree system 0 b'D' (b'Z' + 1) (first (find_available_drive_letters system 0))
find_available_drive_letters-FirstFree_example = find_available_drive_letters-FirstFree system 0

-- A mount, and an unmount of another partition of the disk.
abbrev changes : List Call
changes = mounting other_partition b'E' ∷ unmounting 3 2 ∷ []

get_mounted_disks_iff_example :
    let (mounts, _) = calls system crate winfsp changes [] 0 in
    ((mem 3 (get_mounted_disks system crate winfsp mounts) ≡ true)
      → (p : ℕ) × (is_mounted system crate winfsp mounts 3 p ≡ true))
    × ((p : ℕ)
        → is_mounted system crate winfsp mounts 3 p ≡ true
        → mem 3 (get_mounted_disks system crate winfsp mounts) ≡ true)
get_mounted_disks_iff_example = get_mounted_disks_iff system crate winfsp changes 0 3
