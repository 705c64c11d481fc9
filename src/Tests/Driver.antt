-- ===== src/Tests/Driver.antt =====
-- The theorems about src/driver.rs at concrete data.
use arfw.Base.{ℕ, ◌+◌, ◌≡◌, refl, List, [], ◌∷◌, ok, err, arith, replicate}
use arfw.Driver.Extents.{ExtentEntry}
use arfw.Driver.Read.{FileContext, status_end_of_file, read_loop, read}
use arfw.Driver.Fuel.{read_loop-enough}
use arfw.Driver.Unmapped.{read-unmapped}
use arfw.Driver.Content
use arfw.Driver.Bounds.{AtMost, read-AtMost}
use arfw.Base.Int.{pos, negsuc}
use arfw.Driver.Info.{apfs_time_to_filetime, apfs_time_to_filetime_lem}
use arfw.Tests.Image.{image, image-IsDisk, position, disk, reader}

abbrev extents : List ExtentEntry
extents = (0, 490, 10) ∷ (10, 20, 5) ∷ (15, 600, 100) ∷ []

abbrev file : FileContext
file = record { path = b'/' ∷ b'f' ∷ []; extent_map = extents; file_size = 17 }

read-content_example :
    (w : ℕ) × (read (image disk) reader 100 file (replicate 6 0) 13 0
      ≡ (ok (4, 7 ∷ 7 ∷ 9 ∷ 9 ∷ 0 ∷ 0 ∷ []), w))
read-content_example =
    Content.read-content (image disk) reader disk position (image-IsDisk disk) (omega arith) 100
      extents (omega arith) file (replicate 6 0) 13 0 refl (omega arith) (omega arith)

apfs_time_to_filetime_example :
    (apfs_time_to_filetime (pos 250) ≡ 116444736000000002)
    × (apfs_time_to_filetime (negsuc 250) + 2 ≡ 116444736000000000)
apfs_time_to_filetime_example = apfs_time_to_filetime_lem 250 (omega arith)

read-AtMost_example : AtMost 4 (read (image disk) reader 100 file (replicate 6 0) 13 0).0
read-AtMost_example =
    read-AtMost (image disk) reader 100 extents (b'/' ∷ b'f' ∷ []) 17 (replicate 6 0) 13 0

read_loop-enough_example :
    read_loop (image disk) reader 100 9 extents 13 4 0 (replicate 6 0) 0
    ≡ read_loop (image disk) reader 100 5 extents 13 4 0 (replicate 6 0) 0
read_loop-enough_example =
    read_loop-enough (image disk) reader 100 9 5 extents 13 4 0 (replicate 6 0) 0 (omega arith)
      (omega arith)

-- A file of 200 bytes whose extents hold 115.
abbrev sparse : FileContext
sparse = record { path = b'/' ∷ b's' ∷ []; extent_map = extents; file_size = 200 }

read-unmapped_example :
    (w : ℕ) × (read (image disk) reader 100 sparse (replicate 6 0) 112 0
      ≡ (err status_end_of_file, w))
read-unmapped_example =
    read-unmapped (image disk) reader disk position (image-IsDisk disk) (omega arith) 100 extents
      (omega arith) sparse (replicate 6 0) 112 0 refl (omega arith) (omega arith) (omega arith)
