-- ===== src/Driver/Info.antt =====
-- src/driver.rs: paths, times, attributes and `fill_file_info`; src/utils.rs has the time once more.
use Prim.Native.Nat.{bit_and}
use arfw.Base.{
  ℕ, ◌+◌, ◌-◌, ◌*◌, ◌/◌, ◌%◌, ◌^◌, ◌≤◌, ◌<◌, ◌≡◌, List, map, if◌then◌else◌, ◌==◌, arith, add_u64,
  add_u64-eq_of_lt, u64_mod, i64_bound,
}
use arfw.Base.Bits.{bit_and-page}
use arfw.Base.Int.{ℤ, pos, negsuc, to_u64, quot}
use arfw.Utils.Wide.{decode_lossy}
use arfw.Driver.Apfs.{EntryKind, file, directory, symlink, FileStat}

abbrev pub unix_epoch_in_filetime : ℕ
unix_epoch_in_filetime = 116444736000000000

-- `ApfsDriver::apfs_time_to_filetime`
unfoldable pub apfs_time_to_filetime : ℤ → ℕ
unfolding add_u64 to_u64 quot
apfs_time_to_filetime nanos =
    let intervals = to_u64 (quot nanos 100) in add_u64 unix_epoch_in_filetime intervals

-- `utils::apfs_time_to_filetime`
unfoldable pub utils_time_to_filetime : ℤ → ℕ
unfolding add_u64 to_u64 quot
utils_time_to_filetime apfs_time =
    let intervals = to_u64 (quot apfs_time 100) in add_u64 unix_epoch_in_filetime intervals

-- `to_string_lossy` of the UTF-16 units, and then `\` becomes `/`.
unfoldable pub u16_to_path : List ℕ → List ℕ
unfolding decode_lossy
u16_to_path u16_path = map (λ c. if c == b'\\' then b'/' else c) (decode_lossy u16_path)

-- FILE_ATTRIBUTE_DIRECTORY and FILE_ATTRIBUTE_READONLY
unfoldable pub entry_kind_to_attributes : EntryKind → ℕ
entry_kind_to_attributes directory = 0x10
entry_kind_to_attributes file = 0x1
entry_kind_to_attributes symlink = 0x1

-- The fields of WinFsp's `FileInfo` that the driver sets.
pub record FileInfo : Type 0 where
  pub file_attributes : ℕ
  pub file_size : ℕ
  pub allocation_size : ℕ
  pub creation_time : ℕ
  pub last_access_time : ℕ
  pub last_write_time : ℕ
  pub change_time : ℕ
  pub index_number : ℕ

-- `(file_size + 4095) & !4095`
unfoldable pub allocation_size : ℕ → ℕ
unfolding add_u64
allocation_size file_size = bit_and (add_u64 file_size 4095) (u64_mod - 1 - 4095)

unfoldable pub fill_file_info : FileStat → ℕ → FileInfo
unfolding apfs_time_to_filetime entry_kind_to_attributes allocation_size
fill_file_info stat file_size = record {
  file_attributes = entry_kind_to_attributes stat.kind;
  file_size = file_size;
  allocation_size = allocation_size file_size;
  creation_time = apfs_time_to_filetime stat.create_time;
  last_access_time = apfs_time_to_filetime stat.modify_time;
  last_write_time = apfs_time_to_filetime stat.modify_time;
  change_time = apfs_time_to_filetime stat.modify_time;
  index_number = stat.oid;
}

-- Every time that an `i64` of nanoseconds can tell has a FILETIME: the epoch plus, or for times before it
-- minus, the whole intervals of 100 ns. The wrapping sum does not leave the 64 bits.
pub apfs_time_to_filetime_lem :
    (n : ℕ)
    → n < i64_bound
    → (apfs_time_to_filetime (pos n) ≡ unix_epoch_in_filetime + n / 100)
      × (apfs_time_to_filetime (negsuc n) + (n + 1) / 100 ≡ unix_epoch_in_filetime)
unfolding apfs_time_to_filetime
apfs_time_to_filetime_lem n h = (omega arith, ground arith)

-- For a size below 2^64 - 4095 the allocation size is the least multiple of the block size that holds
-- the file.
allocation_size_bounds :
    (size : ℕ)
    → size + 4095 < 2 ^ 64
    → (allocation_size size % 4096 ≡ 0)
      × (size ≤ allocation_size size)
      × (allocation_size size < size + 4096)
unfolding allocation_size
allocation_size_bounds size h =
    let sum : add_u64 size 4095 ≡ size + 4095 = add_u64-eq_of_lt size 4095 h in
    let page : bit_and (add_u64 size 4095) (2 ^ 64 - 4096) ≡ (size + 4095) / 4096 * 4096 =
      rw sum (bit_and-page (size + 4095) h) in
    (omega (arith, page), omega (arith, page), omega (arith, page))
