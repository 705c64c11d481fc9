-- ===== src/Disk/Api.antt =====
-- The calls of the Windows API that the program makes, as a parameter: each takes the state of the
-- system, and returns a result or an error code beside the new state.
use arfw.Base.{ℕ, ◌%◌, ◌^◌, ◌<◌, ◌≡◌, Bool, List, Result, ok, take, drop, i64_bound}
use arfw.Base.Int.{ℤ, pos}

pub data MoveMethod : Type 0 where
  file_begin file_current file_end : MoveMethod

-- What `IOCTL_DISK_GET_DRIVE_LAYOUT_EX` reports of one partition.
pub record PartitionInformation : Type 0 where
  pub partition_style : ℕ
  pub starting_offset : ℤ
  pub partition_length : ℤ
  pub partition_number : ℕ
  pub gpt_partition_type : List ℕ

pub record DriveLayout : Type 0 where
  pub partition_count : ℕ
  pub partition_entry : List PartitionInformation

pub record Win32 : Type 1 where
  pub World : Type 0
  pub Handle : Type 0
  -- the path is a byte string that ends in a zero
  pub create_file : List ℕ → World → Result ℕ Handle × World
  pub is_invalid : Handle → Bool
  pub last_os_error : World → ℕ
  pub set_file_pointer_ex : Handle → ℤ → MoveMethod → World → Result ℕ ℤ × World
  -- the bytes that were transferred, at most as many as asked for
  pub read_file : Handle → ℕ → World → Result ℕ (List ℕ) × World
  -- `IOCTL_DISK_GET_DRIVE_GEOMETRY_EX`: the field `disk_size`, and the number of bytes returned
  pub disk_geometry : Handle → World → Result ℕ (ℤ × ℕ) × World
  pub drive_layout : Handle → World → Result ℕ DriveLayout × World
  -- `GetDriveTypeW`, of a path that ends in a zero
  pub get_drive_type : List ℕ → World → ℕ
  pub close_handle : Handle → World → World

-- The documented behaviour of an open disk that holds `bytes`: absolute seeks set the file pointer, a
-- move by 0 tells it, and a read that begins and ends at sectors of 512 bytes transfers what the disk
-- has there. Nothing is said of other reads, which a disk refuses.
pub record IsDisk (api : Win32) (handle : api.Handle) (bytes : List ℕ) (position : api.World → ℕ)
    : Type 0 where
  pub seek_begin :
      (w : api.World) (d : ℕ)
      → d < i64_bound
      → (w' : api.World) × (api.set_file_pointer_ex handle (pos d) file_begin w ≡ (ok (pos d), w'))
        × (position w' ≡ d)
  pub seek_current :
      (w : api.World)
      → (w' : api.World) × (api.set_file_pointer_ex handle (pos 0) file_current w
          ≡ (ok (pos (position w)), w'))
        × (position w' ≡ position w)
  pub read_sectors :
      (w : api.World) (n : ℕ)
      → position w % 512 ≡ 0
      → n % 512 ≡ 0
      → n < 2 ^ 32
      → (w' : api.World) × (api.read_file handle n w ≡ (ok (take n (drop (position w) bytes)), w'))
