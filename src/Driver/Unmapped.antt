-- ===== src/Driver/Unmapped.antt =====
-- `FileSystemContext::read` of src/driver.rs, where the file is longer than its extents.
use arfw.Base.{
  ℕ, zero, suc, ◌+◌, ◌-◌, ◌^◌, ◌≤◌, ◌<◌, min, ◌≡◌, refl, ap, ◌∙◌, inl, inr, true, false, none, List,
  [], ◌∷◌, ◌++◌, err, ◌==◌, ltb, leb, length, drop, arith, i64_bound, add_u64, add_u64-eq_of_lt,
  length-take, length-drop, length-append, Bool-cases, ltb→lt, lt→ltb,
}
use arfw.Disk.Api.{Win32, IsDisk}
use arfw.Disk.Reader.{DiskReader}
use arfw.Disk.Sector.{slice}
use arfw.Driver.Extents.{ExtentEntry, covers, logical_to_physical}
use arfw.Driver.Locate.{Contiguous, content, length-slice, Contiguous-lt}
use arfw.Driver.Read.{FileContext, status_end_of_file, ok_or, read_loop, read, replace}
use arfw.Driver.Rounds.{replace-grows}
use arfw.Driver.Content.{round}

module _ (bytes : List ℕ) (partition_offset : ℕ) (small : length bytes < i64_bound) where
  -- Behind the last extent nothing is mapped.
  unmapped :
      (log : ℕ) (extent_map : List ExtentEntry)
      → Contiguous bytes partition_offset log extent_map
      → logical_to_physical extent_map (log + length (content bytes partition_offset extent_map))
        ≡ none
  unfolding logical_to_physical
  unmapped log [] c = refl
  unmapped log ((l, p, n) ∷ extent_map) c =
      let chunk = slice bytes (partition_offset + p) n in
      let rest = content bytes partition_offset extent_map in
      let full : length chunk ≡ n = length-slice bytes (partition_offset + p) n c.2 in
      let bounded : log + n < i64_bound =
        omega (arith, Contiguous-lt bytes partition_offset small (log + n) extent_map c.3) in
      let e : add_u64 l n ≡ l + n = add_u64-eq_of_lt l n (omega arith) in
      let there : log + length (chunk ++ rest) ≡ log + n + length rest =
        omega (arith, length-append chunk rest) in
      let miss : covers (l, p, n) (log + n + length rest) ≡ false = rw e (ground arith) in
      rw there (rw (miss, logical_to_physical) (unmapped (log + n) extent_map c.3))

module _ (api : Win32) (raw_disk : DiskReader api) (partition_offset : ℕ) where
  -- A round that finds no extent ends the loop with an error.
  read_loop_unmapped :
      (extent_map : List ExtentEntry) (fuel offset total to_read : ℕ) (buffer : List ℕ)
      (w : api.World)
      → ltb total to_read ≡ true
      → logical_to_physical extent_map (add_u64 offset total) ≡ none
      → read_loop api raw_disk partition_offset (suc fuel) extent_map offset to_read total buffer w
        ≡ (err status_end_of_file, w)
  unfolding read_loop
  read_loop_unmapped extent_map fuel offset total to_read buffer w more hole =
      rw (more, read_loop) (rw (hole, ok_or) refl)

module _ (api : Win32) (raw_disk : DiskReader api) (bytes : List ℕ) (position : api.World → ℕ)
    (disk : IsDisk api raw_disk.handle bytes position) (small : length bytes < i64_bound)
    (partition_offset : ℕ) (extent_map : List ExtentEntry)
    (contiguous : Contiguous bytes partition_offset 0 extent_map) where
  read_loop-short :
      (fuel offset total to_read : ℕ) (buffer : List ℕ) (w : api.World)
      → to_read - total < fuel
      → to_read ≤ length buffer
      → length buffer < 2 ^ 31
      → offset + total ≤ length (content bytes partition_offset extent_map)
      → length (content bytes partition_offset extent_map) < offset + to_read
      → (w' : api.World) × (read_loop api raw_disk partition_offset fuel extent_map offset to_read
            total buffer w
          ≡ (err status_end_of_file, w'))
  read_loop-short zero offset total to_read buffer w f fits h inside short = absurd (omega arith)
  read_loop-short (suc fuel) offset total to_read buffer w f fits h inside short =
      let file = content bytes partition_offset extent_map in
      let bound = Contiguous-lt bytes partition_offset small 0 extent_map contiguous in
      elim (Bool-cases (ltb (offset + total) (length file))) [
        | inl mapped ↦
            let (c, w₁, r) =
              round api raw_disk bytes position disk small partition_offset extent_map contiguous
                offset total to_read buffer w (omega arith) fits h
                (ltb→lt (offset + total) (length file) mapped) in
            let piece = slice file (offset + total) c in
            let buffer' = replace buffer total c piece in
            let (_, _, kept) =
              replace-grows buffer piece total c r.length_of (omega (arith, r.in_range)) in
            let (w', s) =
              read_loop-short fuel offset (total + c) to_read buffer' w₁
                (omega (arith, r.some_bytes)) (omega (arith, kept)) (omega (arith, kept))
                (omega (
                  arith,
                  r.length_of,
                  r.some_bytes,
                  length-take c (drop (offset + total) file),
                  length-drop (offset + total) file,
                ))
                short in
            (w', r.step fuel ∙ s)
        | inr behind ↦
            let at : offset + total ≡ 0 + length file = ground arith in
            let here : add_u64 offset total ≡ 0 + length file =
              add_u64-eq_of_lt offset total (omega arith) ∙ at in
            (
              w,
              read_loop_unmapped api raw_disk partition_offset extent_map fuel offset total to_read
                  buffer w (lt→ltb total to_read (omega arith))
                  (ap (logical_to_physical extent_map) here
                    ∙ unmapped bytes partition_offset small 0 extent_map contiguous),
            )
      ]

  -- Over a disk with the documented behaviour, whose partition's extents follow one another from the start of
  -- the file and lie on the disk below 2^63, a read that begins within the extents, or at their end, and would
  -- end behind them, before the file's end, fails as a whole with STATUS_END_OF_FILE, also when its first bytes
  -- are there.
  pub read-unmapped :
      (context : FileContext) (buffer : List ℕ) (offset : ℕ) (w : api.World)
      → context.extent_map ≡ extent_map
      → length buffer < 2 ^ 31
      → let file = content bytes partition_offset extent_map in
        offset ≤ length file
        → length file < offset + min (length buffer) (context.file_size - offset)
        → (w' : api.World) × (read api raw_disk partition_offset context buffer offset w
            ≡ (err status_end_of_file, w'))
  unfolding read
  read-unmapped context buffer offset w same h inside short =
      let n = min (length buffer) (context.file_size - offset) in
      let before : leb context.file_size offset ≡ false = ground arith in
      let something : (n == 0) ≡ false = ground arith in
      let (w', r) =
        read_loop-short (suc n) offset 0 n buffer w (omega arith) (omega arith) h (omega arith)
          short in
      (w', rw (before, something, same, r) refl)
