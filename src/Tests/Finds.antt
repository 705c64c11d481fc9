-- ===== src/Tests/Finds.antt =====
-- The theorem about what a scan finds at concrete data: every drive has a Linux and an APFS partition.
use arfw.Base.{ℕ, ◌≡◌, ◌<◌, refl, Option, some, List, [], ok}
use arfw.Disk.Api.{Win32, DriveLayout}
use arfw.Monitor.Scan.{ApfsPartition, scan_apfs_partitions}
use arfw.Monitor.Finds.{Among, HasDrives, IsApfsOf, scan_apfs_partitions-IsApfsOf}
use arfw.Tests.Image.{image, layout}

abbrev shelf : Win32
shelf = record (image []) { drive_layout = λ handle w. (ok layout, w) }

abbrev layout_of : ℕ → Option DriveLayout
layout_of d = some layout

shelf-HasDrives : HasDrives shelf layout_of
shelf-HasDrives = record {
  present = λ d other w e. (_, w, refl, refl, cc);
  absent = λ d w e. absurd (cc);
}

scan_apfs_partitions-IsApfsOf_example :
    (found : List ApfsPartition) × ((scan_apfs_partitions shelf 0).0 ≡ ok found)
    × ((p : ApfsPartition) → Among p found → (n : ℕ) × (n < 100) × IsApfsOf layout_of n p)
    × ((p : ApfsPartition) (n : ℕ) → n < 100 → IsApfsOf layout_of n p → Among p found)
scan_apfs_partitions-IsApfsOf_example =
    scan_apfs_partitions-IsApfsOf shelf layout_of shelf-HasDrives 0
