-- ===== src/Tests/Disk.antt =====
-- The theorems about src/disk.rs at concrete data.
use arfw.Base.{ℕ, ◌≡◌, List, [], ◌∷◌, ok, err, arith, replicate}
use arfw.Error.{unexpected_eof}
use arfw.Disk.Reader.{read_at_absolute, read_at, read, read_exact}
use arfw.Disk.Read
use arfw.Tests.Image.{image, image-IsDisk, position, disk, reader}

abbrev zeros : List ℕ
zeros = replicate 4 0

read_at_absolute_example :
    (w : ℕ) × (read_at_absolute (image disk) reader 598 zeros 0 ≡ (ok (4, 7 ∷ 7 ∷ 9 ∷ 9 ∷ []), w))
read_at_absolute_example =
    Read.read_at_absolute_lem (image disk) reader disk position (image-IsDisk disk) 598 zeros 0
      (omega arith) (omega arith)

read_at_example :
    (w : ℕ) × (read_at (image disk) reader 498 zeros 0 ≡ (ok (4, 7 ∷ 7 ∷ 9 ∷ 9 ∷ []), w))
read_at_example =
    Read.read_at_lem (image disk) reader disk position (image-IsDisk disk) 498 zeros 0 (omega arith)
      (omega arith)

read_example :
    (w : ℕ) × (read (image disk) reader zeros 1198 ≡ (ok (2, 9 ∷ 9 ∷ 0 ∷ 0 ∷ []), w)) × (w ≡ 1200)
read_example =
    Read.read_lem (image disk) reader disk position (image-IsDisk disk) zeros 1198 (omega arith)
      (omega arith)

read_exact_example :
    (w : ℕ) × (read_exact (image disk) reader zeros 598 ≡ (ok (7 ∷ 7 ∷ 9 ∷ 9 ∷ []), w)) × (w ≡ 602)
read_exact_example =
    Read.read_exact_lem (image disk) reader disk position (image-IsDisk disk) zeros 598
      (omega arith) (omega arith) (omega arith)

read_exact_eof_example :
    (w : ℕ) × (read_exact (image disk) reader zeros 1198 ≡ (err unexpected_eof, w))
read_exact_eof_example =
    Read.read_exact_eof (image disk) reader disk position (image-IsDisk disk) zeros 1198
      (omega arith) (omega arith) (omega arith) (omega arith)
