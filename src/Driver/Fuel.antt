-- ===== src/Driver/Fuel.antt =====
-- src/driver.rs: the rounds of the loop of `ApfsDriver::read`, over any system.
use arfw.Base.{
  ℕ, zero, suc, ◌+◌, ◌-◌, ◌<◌, min, ◌≡◌, refl, List, ltb, ◌==◌, add_u64, and_then, Bool-cases,
  Option-cases, Result-cases, inl, inr, arith,
}
use arfw.Disk.Api.{Win32}
use arfw.Disk.Reader.{DiskReader, read_at_absolute}
use arfw.Disk.Sector.{slice}
use arfw.Driver.Extents.{ExtentEntry, logical_to_physical, extent_remaining}
use arfw.Driver.Read.{ok_or, replace, read_loop}

module _ (api : Win32) (raw_disk : DiskReader api) (partition_offset : ℕ) where
  -- Whatever the system answers, the loop of `read` ends after no more rounds than there are bytes to read, and
  -- one test: with any two amounts of fuel above the bytes that are left, its result is the same.
  pub read_loop-enough :
      (fuel fuel' : ℕ) (extent_map : List ExtentEntry) (offset to_read total_read : ℕ)
      (buffer : List ℕ) (w : api.World)
      → to_read - total_read < fuel
      → to_read - total_read < fuel'
      → read_loop api raw_disk partition_offset fuel extent_map offset to_read total_read buffer w
        ≡ read_loop api raw_disk partition_offset fuel' extent_map offset to_read total_read buffer
            w
  unfolding read_loop
  read_loop-enough zero fuel' extent_map offset to_read total_read buffer w h h' =
      absurd (omega arith)
  read_loop-enough (suc fuel) zero extent_map offset to_read total_read buffer w h h' =
      absurd (omega arith)
  read_loop-enough (suc fuel) (suc fuel') extent_map offset to_read total_read buffer w h h' =
      let logical_pos = add_u64 offset total_read in
      let avail = extent_remaining extent_map logical_pos in
      let chunk_size = min (to_read - total_read) avail in
      elim (Bool-cases (ltb total_read to_read)) [
        | inr done ↦ rw (done, read_loop) refl
        | inl reads ↦ elim (Option-cases (logical_to_physical extent_map logical_pos)) [
          | inl hole ↦ rw (reads, read_loop) (rw (hole, ok_or) refl)
          | inr (physical_pos, mapped) ↦ elim (Bool-cases (avail == 0)) [
            | inl stuck ↦ rw (reads, read_loop) (rw (mapped, ok_or) (rw stuck refl))
            | inr some_left ↦
                let answer =
                  read_at_absolute api raw_disk (add_u64 partition_offset physical_pos)
                    (slice buffer total_read chunk_size) w in
                elim (Result-cases answer.0) [
                  | inl (e, failed) ↦
                      rw (reads, read_loop)
                        (rw (mapped, ok_or) (rw some_left (rw (failed, and_then) refl)))
                  | inr ((bytes, piece), got) ↦ elim (Bool-cases (bytes == 0)) [
                    | inl end ↦
                        rw (reads, read_loop)
                          (rw (mapped, ok_or) (rw some_left (rw (got, and_then) (rw end refl))))
                    | inr more_bytes ↦
                        rw (reads, read_loop)
                          (rw (mapped, ok_or)
                            (rw some_left (
                              rw (got, and_then)
                                (rw more_bytes (
                                  read_loop-enough fuel fuel' extent_map offset to_read
                                    (total_read + bytes)
                                    (replace buffer total_read chunk_size piece) answer.1
                                    (ground (arith, more_bytes, reads))
                                    (ground (arith, more_bytes, reads)))))))
                  ]
                ]
          ]
        ]
      ]
