-- ===== src/Tests/Image.antt =====
-- A system with one disk, whose state is the file pointer. Like a raw disk it refuses reads that are not
-- made of whole sectors.
use native.Mathlib.Nat.{add-zero}
use arfw.Base.{
  ℕ, ◌+◌, ◌%◌, refl, false, ◌&&◌, List, [], ◌∷◌, ◌++◌, ok, err, Result, if◌then◌else◌, ◌==◌, length,
  replicate,
}
use arfw.Base.Int.{ℤ, pos, negsuc}
use arfw.Base.Text.{text_eq}
use arfw.Monitor.Scan.{drive_path, apfs_partition_guid}
use arfw.Disk.Api.{DriveLayout, Win32, MoveMethod, file_begin, file_current, file_end, IsDisk}
use arfw.Disk.Sector.{slice}
use arfw.Disk.Reader.{DiskReader}

abbrev move : ℕ → ℤ → MoveMethod → ℕ → Result ℕ ℤ × ℕ
move size (pos d) file_begin w = (ok (pos d), d)
move size (pos d) file_current w = (ok (pos (w + d)), w + d)
move size (pos d) file_end w = (ok (pos (size + d)), size + d)
move size (negsuc d) method w = (err 131, w)

abbrev transfer : List ℕ → ℕ → ℕ → Result ℕ (List ℕ) × ℕ
transfer bytes n w =
    if w % 512 == 0 && n % 512 == 0
    then (ok (slice bytes w n), w + length (slice bytes w n))
    else (err 87, w)

-- A Linux partition and an APFS partition.
abbrev pub layout : DriveLayout
layout = record {
  partition_count = 2;
  partition_entry =
      record {
        partition_style = 1;
        starting_offset = pos 34;
        partition_length = pos 66;
        partition_number = 1;
        gpt_partition_type = replicate 16 0xAF;
      }
      ∷ record {
        partition_style = 1;
        starting_offset = pos 100;
        partition_length = pos 1100;
        partition_number = 2;
        gpt_partition_type = apfs_partition_guid;
      }
      ∷ [];
}

abbrev pub image : List ℕ → Win32
image bytes = record {
  World = ℕ;
  Handle = List ℕ;
  create_file = λ path w. (ok path, w);
  is_invalid = λ handle. false;
  last_os_error = λ w. 0;
  set_file_pointer_ex = λ handle. move (length bytes);
  read_file = λ handle. transfer bytes;
  disk_geometry = λ handle w. (ok (pos (length bytes), 32), w);
  drive_layout =
      λ handle w. (if text_eq handle (drive_path 3 ++ (0 ∷ [])) then ok layout else err 1, w);
  get_drive_type = λ path w. 1;
  close_handle = λ handle w. w;
}

abbrev pub position : ℕ → ℕ
position w = w

pub image-IsDisk : (bytes : List ℕ) → IsDisk (image bytes) [] bytes position
image-IsDisk bytes = record {
  seek_begin = λ w d h. (d, refl, refl);
  seek_current = λ w. (w + 0, λ i. (ok (pos (add-zero w i)), w + 0), add-zero w);
  read_sectors = λ w n p q h. (w + length (slice bytes w n), rw (p, q));
}

-- 1200 bytes, a partition that begins at the 100th.
abbrev pub disk : List ℕ
disk = replicate 600 7 ++ replicate 600 9

abbrev pub reader : DiskReader (image disk)
reader = record { handle = []; size = 1200; offset = 100; device_path = b'x' ∷ [] }
