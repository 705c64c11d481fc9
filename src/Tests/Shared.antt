-- ===== src/Tests/Shared.antt =====
-- The theorem about the threads that share the reader of src/driver.rs at a concrete run, over the disk of the
-- other tests: the second thread asks between the two halves of the first one's read, and reads after it.
use arfw.Base.{ℕ, ◌≡◌, ◌<◌, ◌^◌, i64_bound, refl, List, [], ◌∷◌, Result, true, arith}
use arfw.Base.Int.{to_i64}
use arfw.Error.{Error}
use arfw.Disk.Reader.{sector_offset, aligned_len, copy_out}
use arfw.Driver.Shared.{
  Pool, asks, locks, seeks, reads, unlocks, Reach, start, next, answered, holds, seek_half,
  read_half,
}
use arfw.Driver.Shared.Invariant.{alone, Reach-alone}
use arfw.Tests.Image.{image, image-IsDisk, position, disk, reader}

below_598 : 598 < i64_bound
below_598 = omega arith

two_short : 2 < 2 ^ 31
two_short = omega arith

one_short : 1 < 2 ^ 31
one_short = omega arith

below_100 : 100 < i64_bound
below_100 = omega arith

run : (s : Pool (image disk) reader) × Reach (image disk) reader position s
unfolding seek_half read_half to_i64 sector_offset aligned_len copy_out
run =
    let zero_asks = next (start 7) (asks 0 refl) in
    let zero_has = next zero_asks (locks 0 refl refl) in
    let zero_seeks = next zero_has (seeks 0 598 0 (0 ∷ []) refl below_598 two_short) in
    let one_asks = next zero_seeks (asks 1 refl) in
    let zero_reads = next one_asks (reads 0 598 0 (0 ∷ []) refl) in
    let zero_done = next zero_reads (unlocks 0 refl) in
    let one_has = next zero_done (locks 1 refl refl) in
    let one_seeks = next one_has (seeks 1 100 0 [] refl below_100 one_short) in
    let one_reads = next one_seeks (reads 1 100 0 [] refl) in (_, one_reads)

Reach-alone_example :
    ((i j : ℕ) → holds (run.0.pc i) ≡ true → holds (run.0.pc j) ≡ true → i ≡ j)
    × ((i o b : ℕ) (bs : List ℕ) (r : Result Error (ℕ × List ℕ))
        → run.0.pc i ≡ answered o b bs r
        → r ≡ alone (image disk) reader disk position (image-IsDisk disk) o (b ∷ bs))
Reach-alone_example = Reach-alone (image disk) reader disk position (image-IsDisk disk) run.1
