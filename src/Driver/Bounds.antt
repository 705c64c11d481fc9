-- ===== src/Driver/Bounds.antt =====
-- The count that `FileSystemContext::read` of src/driver.rs returns, over any answers of the system.
use arfw.Base.{
  ℕ, zero, suc, ◌+◌, ◌-◌, ◌≤◌, min, inl, inr, List, [], ◌∷◌, ok, err, Result, ◌==◌, ltb, leb,
  length, drop, arith, add_u64, length-take, Bool-cases, ltb→lt, Option-cases, Result-cases,
}
use arfw.Disk.Api.{Win32, file_begin}
use arfw.Base.Int.{to_i64}
use arfw.Disk.Reader.{DiskReader, read_at_absolute, sector_offset, aligned_len, copy_out}
use arfw.Disk.Sector.{slice}
use arfw.Driver.Extents.{ExtentEntry, extent_remaining, logical_to_physical}
use arfw.Driver.Read.{read_loop, read, replace}

-- A result whose count, if there is one, is at most `n`.
abbrev pub AtMost : {E : Type 0} → ℕ → Result E (ℕ × List ℕ) → Type 0
AtMost n (err e) = Unit {0}
AtMost n (ok (count, buffer)) = count ≤ n

module _ (api : Win32) (raw_disk : DiskReader api) where
  read_at_absolute-AtMost :
      (absolute : ℕ) (buf : List ℕ) (w : api.World)
      → AtMost (length buf) (read_at_absolute api raw_disk absolute buf w).0
  unfolding read_at_absolute copy_out
  read_at_absolute-AtMost absolute [] w = omega arith
  read_at_absolute-AtMost absolute (b ∷ bs) w =
      let sought =
        api.set_file_pointer_ex raw_disk.handle (to_i64 (absolute - sector_offset absolute))
          file_begin w in
      elim (Result-cases sought.0) [
        | inl (e, failed) ↦ rw (failed, AtMost) (tt {0})
        | inr (_, there) ↦
            let got =
              api.read_file raw_disk.handle (aligned_len (sector_offset absolute) (length (b ∷ bs)))
                sought.1 in
            elim (Result-cases got.0) [
              | inl (e, failed) ↦ rw (there, AtMost) (rw (failed, AtMost) (tt {0}))
              | inr (bytes, answered) ↦ rw (there, AtMost) (rw (answered, AtMost) (omega arith))
            ]
      ]

  module _ (partition_offset : ℕ) (extent_map : List ExtentEntry) where
    read_loop-AtMost :
        (fuel offset to_read total : ℕ) (buffer : List ℕ) (w : api.World)
        → total ≤ to_read
        → AtMost to_read
            (read_loop api raw_disk partition_offset fuel extent_map offset to_read total buffer
              w).0
    unfolding read_loop
    read_loop-AtMost zero offset to_read total buffer w h = h
    read_loop-AtMost (suc fuel) offset to_read total buffer w h =
        let position = add_u64 offset total in
        let avail = extent_remaining extent_map position in
        let chunk = slice buffer total (min (to_read - total) avail) in
        elim (Bool-cases (ltb total to_read)) [
          | inr done ↦ rw (done, AtMost) h
          | inl more ↦ elim (Option-cases (logical_to_physical extent_map position)) [
            | inl hole ↦ rw (more, AtMost) (rw (hole, AtMost) (tt {0}))
            | inr (phys, found) ↦ elim (Bool-cases (avail == 0)) [
              | inl end ↦ rw (more, AtMost) (rw (found, AtMost) (rw (end, AtMost) h))
              | inr some_left ↦
                  let answer =
                    read_at_absolute api raw_disk (add_u64 partition_offset phys) chunk w in
                  let bound = read_at_absolute-AtMost (add_u64 partition_offset phys) chunk w in
                  elim (Result-cases answer.0) [
                    | inl (e, failed) ↦
                        rw (more, AtMost)
                          (rw (found, AtMost)
                            (rw (some_left, AtMost) (rw (failed, AtMost) (tt {0}))))
                    | inr ((n, piece), answered) ↦
                        let few : n ≤ length chunk = rw answered at bound in
                        elim (Bool-cases (n == 0)) [
                          | inl nothing ↦
                              rw (more, AtMost)
                                (rw (found, AtMost)
                                  (rw (some_left, AtMost)
                                    (rw (answered, AtMost) (rw (nothing, AtMost) h))))
                          | inr something ↦
                              let fits : total + n ≤ to_read = omega (
                                arith,
                                few,
                                length-take (min (to_read - total) avail) (drop total buffer),
                                ltb→lt total to_read more,
                              ) in
                              rw (more, AtMost)
                                (rw (found, AtMost)
                                  (rw (some_left, AtMost)
                                    (rw (answered, AtMost)
                                      (rw (something, AtMost)
                                        (read_loop-AtMost fuel offset to_read (total + n)
                                          (replace buffer total (min (to_read - total) avail) piece)
                                          answer.1 fits)))))
                        ]
                  ]
            ]
          ]
        ]

    -- Whatever the system answers, a read that succeeds returns a count that neither the buffer nor what is left of the
    -- file from the offset on exceeds.
    pub read-AtMost :
        (path : List ℕ) (file_size : ℕ) (buffer : List ℕ) (offset : ℕ) (w : api.World)
        → AtMost
            (min (length buffer) (file_size - offset))
            (read api raw_disk partition_offset
              (record { path = path; extent_map = extent_map; file_size = file_size })
              buffer
              offset
              w).0
    unfolding read
    read-AtMost path file_size buffer offset w =
        let to_read = min (length buffer) (file_size - offset) in
        elim (Bool-cases (leb file_size offset)) [
          | inl past ↦ rw (past, AtMost) (omega arith)
          | inr before ↦ elim (Bool-cases (to_read == 0)) [
            | inl nothing ↦ rw (before, AtMost) (rw (nothing, AtMost) (omega arith))
            | inr something ↦
                let result =
                  read_loop api raw_disk partition_offset (suc to_read) extent_map offset to_read 0
                    buffer w in
                let bound =
                  read_loop-AtMost (suc to_read) offset to_read 0 buffer w (omega arith) in
                elim (Result-cases result.0) [
                  | inl (e, failed) ↦
                      rw (before, AtMost) (rw (something, AtMost) (rw (failed, AtMost) (tt {0})))
                  | inr ((n, filled), answered) ↦
                      let few : n ≤ to_read = rw answered at bound in
                      rw (before, AtMost)
                        (rw (something, AtMost) (rw (answered, AtMost) (omega arith)))
                ]
          ]
        ]
