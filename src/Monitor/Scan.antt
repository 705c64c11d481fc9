-- ===== src/Monitor/Scan.antt =====
-- src/device_monitor.rs: the search for APFS partitions and for free drive letters.
use arfw.Base.{
  ℕ, zero, suc, ◌+◌, min, Bool, ◌&&◌, List, [], ◌∷◌, ◌++◌, ok, err, Result, Io, ◌>>=◌, map_err,
  if◌then◌else◌, ◌==◌, take,
}
use arfw.Base.Int.{to_u64}
use arfw.Base.Text.{codes, text_eq, decimal}
use arfw.Error.{Error, last_os, io, windows}
use arfw.Disk.Api.{Win32, PartitionInformation}

-- 7C3457EF-0000-11AA-AA11-00306543ECAC
abbrev pub apfs_partition_guid : List ℕ
apfs_partition_guid =
    0xEF ∷ 0x57 ∷ 0x34 ∷ 0x7C ∷ 0x00 ∷ 0x00 ∷ 0xAA ∷ 0x11 ∷ 0xAA ∷ 0x11 ∷ 0x00 ∷ 0x30 ∷ 0x65 ∷ 0x43
    ∷ 0xEC ∷ 0xAC ∷ []

pub record ApfsPartition : Type 0 where
  pub disk_number : ℕ
  pub partition_number : ℕ
  pub device_path : List ℕ
  pub offset : ℕ
  pub size : ℕ

-- `\\.\PhysicalDrive` and the number
unfoldable pub drive_path : ℕ → List ℕ
drive_path disk_num = codes "\\\\.\\PhysicalDrive" ++ decimal disk_num

unfoldable pub is_apfs : PartitionInformation → Bool
is_apfs partition =
    partition.partition_style == 1 && text_eq partition.gpt_partition_type apfs_partition_guid

abbrev pub apfs_partition : ℕ → PartitionInformation → ApfsPartition
apfs_partition disk_num partition = record {
  disk_number = disk_num;
  partition_number = partition.partition_number;
  device_path = drive_path disk_num;
  offset = to_u64 partition.starting_offset;
  size = to_u64 partition.partition_length;
}

-- The loop over the entries.
unfoldable pub collect : ℕ → List PartitionInformation → List ApfsPartition
unfolding is_apfs
collect disk_num [] = []
collect disk_num (partition ∷ rest) =
    let others = collect disk_num rest in
    if is_apfs partition then apfs_partition disk_num partition ∷ others else others

-- The letters from `letter` on, `rounds` many, whose drive type is 1: no such drive.
abbrev letter_path : ℕ → List ℕ
letter_path letter = letter ∷ b':' ∷ b'\\' ∷ 0 ∷ []

module _ (api : Win32) where
  open api use {
    World, Handle, create_file, is_invalid, last_os_error, drive_layout, get_drive_type,
    close_handle,
  }

  unfoldable pub open_disk : List ℕ → Io World Error Handle
  open_disk path = do
    handle ← map_err windows (create_file (path ++ (0 ∷ [])))
    λ w. if is_invalid handle then (err (io (last_os (last_os_error w))), w) else (ok handle, w)

  unfoldable pub read_gpt_partitions : Handle → ℕ → Io World Error (List ApfsPartition)
  unfolding collect
  read_gpt_partitions handle disk_num w =
      let (result, w') = drive_layout handle w in
      elim result [
        | err _ ↦ (ok [], w')
        | ok layout ↦
            let count = min layout.partition_count 128 in
            (ok (collect disk_num (take count layout.partition_entry)), w')
      ]

  -- The handle is closed when `OwnedHandle` goes out of scope, whatever the result.
  unfoldable pub scan_disk_for_apfs : List ℕ → ℕ → Io World Error (List ApfsPartition)
  unfolding open_disk read_gpt_partitions
  scan_disk_for_apfs disk_path disk_num = open_disk disk_path >>= λ handle w.
      let (result, w') = read_gpt_partitions handle disk_num w in (result, close_handle handle w')

  -- What a failed disk adds: nothing.
  abbrev pub or_skip : Result Error (List ApfsPartition) → List ApfsPartition
  or_skip (ok disk_partitions) = disk_partitions
  or_skip (err _) = []

  -- The loop, with the rounds that are left.
  unfoldable pub scan_loop :
      ℕ → ℕ → List ApfsPartition → World → Result Error (List ApfsPartition) × World
  unfolding scan_disk_for_apfs
  scan_loop zero disk_num partitions w = (ok partitions, w)
  scan_loop (suc rounds) disk_num partitions w =
      let (result, w') = scan_disk_for_apfs (drive_path disk_num) disk_num w in
      scan_loop rounds (disk_num + 1) (partitions ++ or_skip result) w'

  unfoldable pub scan_apfs_partitions : Io World Error (List ApfsPartition)
  unfolding scan_loop drive_path
  scan_apfs_partitions = scan_loop 100 0 []

  unfoldable pub letters_loop : ℕ → ℕ → World → List ℕ
  letters_loop zero letter w = []
  letters_loop (suc rounds) letter w =
      let others = letters_loop rounds (letter + 1) w in
      if get_drive_type (letter_path letter) w == 1 then letter ∷ others else others

  -- `D` to `Z`
  unfoldable pub find_available_drive_letters : World → List ℕ
  unfolding letters_loop
  find_available_drive_letters = letters_loop 23 b'D'
