-- ===== src/Driver/Content.antt =====
-- `FileSystemContext::read` of src/driver.rs, against the bytes of the extents.
use native.Mathlib.Nat.{sub_self}
use arfw.Base.{
  ℕ, zero, suc, ◌+◌, ◌-◌, ◌%◌, ◌^◌, ◌≤◌, ◌<◌, min, ◌≡◌, sym, ap, ◌∙◌, inl, inr, false, some, List,
  ◌++◌, append-nil, ok, ◌==◌, ltb, leb, length, take, drop, arith, i64_bound, add_u64,
  add_u64-eq_of_lt, take-append, take-take, take-append-drop, drop_of_length-le, Bool-cases, ltb→lt,
  lt→ltb,
}
use arfw.Disk.Api.{Win32, IsDisk}
use arfw.Disk.Reader.{DiskReader, read_at_absolute}
use arfw.Disk.Sector.{slice, filled}
use arfw.Disk.Read.{read_at_absolute_lem}
use arfw.Driver.Extents.{ExtentEntry, logical_to_physical, extent_remaining}
use arfw.Driver.Locate.{Contiguous, content, length-slice, Contiguous-lt, locate}
use arfw.Driver.Read.{FileContext, read_loop, read, replace}
use arfw.Driver.Rounds.{replace-grows, slices_join, read_loop_done, read_loop_step}

module _ (api : Win32) (raw_disk : DiskReader api) (bytes : List ℕ) (position : api.World → ℕ)
    (disk : IsDisk api raw_disk.handle bytes position) (small : length bytes < i64_bound)
    (partition_offset : ℕ) (extent_map : List ExtentEntry)
    (contiguous : Contiguous bytes partition_offset 0 extent_map) where
  read_full :
      (start n : ℕ) (buf : List ℕ) (w : api.World)
      → length buf ≡ n
      → 0 < n
      → start + n ≤ length bytes
      → n < 2 ^ 31
      → (w' : api.World) × (read_at_absolute api raw_disk start buf w
          ≡ (ok (n, slice bytes start n), w'))
  read_full start n buf w e pos h l =
      let s = slice bytes start (length buf) in
      let (w', r) =
        read_at_absolute_lem api raw_disk bytes position disk start buf w (omega arith)
          (omega arith) in
      let same : s ≡ slice bytes start n = ap (slice bytes start) e in
      let full : length s ≡ n = ap length same ∙ length-slice bytes start n h in
      let whole : filled s buf ≡ slice bytes start n =
        ap (λ k. s ++ k) (drop_of_length-le (length s) buf (omega arith)) ∙ append-nil s ∙ same in
      (w', r ∙ λ i. (ok (full i, whole i), w'))

  -- One round: where it reads, and what it puts into the buffer.
  pub round :
      (offset total to_read : ℕ) (buffer : List ℕ) (w : api.World)
      → total < to_read
      → to_read ≤ length buffer
      → length buffer < 2 ^ 31
      → offset + total < length (content bytes partition_offset extent_map)
      → (c : ℕ) × (w' : api.World) × let piece =
            slice (content bytes partition_offset extent_map) (offset + total) c in
          record {
            some_bytes : 0 < c;
            in_range : total + c ≤ to_read;
            length_of : length piece ≡ c;
            step :
                (fuel : ℕ)
                → read_loop api raw_disk partition_offset
                    (suc fuel)
                    extent_map
                    offset
                    to_read
                    total
                    buffer
                    w
                  ≡ read_loop api raw_disk partition_offset fuel extent_map offset to_read
                      (total + c)
                      (replace buffer total c piece)
                      w';
          }
  round offset total to_read buffer w more fits h inside =
      let file = content bytes partition_offset extent_map in
      let bound = Contiguous-lt bytes partition_offset small 0 extent_map contiguous in
      let at =
        locate bytes partition_offset small 0 (offset + total) extent_map contiguous
          (omega arith) in
      let here : add_u64 offset total ≡ 0 + (offset + total) =
        add_u64-eq_of_lt offset total (omega arith) ∙ omega arith in
      let found : logical_to_physical extent_map (add_u64 offset total) ≡ some at.phys =
        rw here at.found in
      let remains : extent_remaining extent_map (add_u64 offset total) ≡ at.avail =
        rw here at.remains in
      let c = min (to_read - total) at.avail in
      let start = partition_offset + at.phys in
      let piece = slice bytes start c in
      let full : length piece ≡ c = length-slice bytes start c (omega (arith, at.on_disk)) in
      let room : length (slice buffer total c) ≡ c = length-slice buffer total c (omega arith) in
      let same : slice file (offset + total) c ≡ piece =
        ap (take c) at.data_there
        ∙ take-append c (slice bytes start at.avail) at.rest
            (omega (arith, length-slice bytes start at.avail at.on_disk))
        ∙ take-take c at.avail (drop start bytes) (omega arith) in
      let some_bytes : 0 < c = omega (arith, at.positive) in
      let nonzero : (c == 0) ≡ false = ground arith in
      let (w', r) =
        read_full start c (slice buffer total c) w room some_bytes (omega (arith, at.on_disk))
          (omega arith) in
      let did : read_at_absolute api raw_disk (add_u64 partition_offset at.phys)
            (slice buffer total c) w
          ≡ (ok (c, slice file (offset + total) c), w') =
        ap (λ k. read_at_absolute api raw_disk k (slice buffer total c) w)
          (add_u64-eq_of_lt partition_offset at.phys (omega (arith, at.on_disk, at.positive)))
        ∙ r
        ∙ λ i. (ok (c, sym same i), w') in
      (
        c,
        w',
        record {
          some_bytes = some_bytes;
          in_range = omega arith;
          length_of = ap length same ∙ full;
          step = λ fuel.
              read_loop_step api raw_disk partition_offset extent_map fuel offset total to_read
                at.phys at.avail c buffer (slice file (offset + total) c) w w'
                (lt→ltb total to_read more) found remains (ground (arith, at.positive)) did nonzero;
        },
      )

  read_loop-content :
      (fuel offset total to_read : ℕ) (buffer : List ℕ) (w : api.World)
      → to_read - total < fuel
      → total ≤ to_read
      → to_read ≤ length buffer
      → length buffer < 2 ^ 31
      → offset + to_read ≤ length (content bytes partition_offset extent_map)
      → (w' : api.World) × (read_loop api raw_disk partition_offset fuel extent_map offset to_read
            total buffer w
          ≡ (
            ok (
              to_read,
              take total buffer
                  ++ (slice
                        (content bytes partition_offset extent_map)
                        (offset + total)
                        (to_read - total)
                      ++ drop to_read buffer),
            ),
            w',
          ))
  read_loop-content zero offset total to_read buffer w f le fits h inside = absurd (omega arith)
  read_loop-content (suc fuel) offset total to_read buffer w f le fits h inside =
      let file = content bytes partition_offset extent_map in
      elim (Bool-cases (ltb total to_read)) [
        | inl more ↦
            let (c, w₁, r) =
              round offset total to_read buffer w (ltb→lt total to_read more) fits h
                (omega (arith, ltb→lt total to_read more)) in
            let piece = slice file (offset + total) c in
            let (grown, kept, len) =
              replace-grows buffer piece total c r.length_of (omega (arith, r.in_range)) in
            let buffer' = replace buffer total c piece in
            let (w', s) =
              read_loop-content fuel offset (total + c) to_read buffer' w₁
                (omega (arith, r.some_bytes)) r.in_range (omega arith) (omega arith) inside in
            let joined : take (total + c) buffer'
                  ++ (slice file (offset + (total + c)) (to_read - (total + c))
                      ++ drop to_read buffer')
                ≡ take total buffer
                  ++ (slice file (offset + total) (to_read - total) ++ drop to_read buffer) =
              rw (grown, kept to_read r.in_range)
                (slices_join file (take total buffer) (drop to_read buffer) offset total c to_read
                  r.in_range) in
            (w', r.step fuel ∙ s ∙ λ i. (ok (to_read, joined i), w'))
        | inr finished ↦
            let e : to_read ≡ total = ground arith in
            let whole : take total buffer
                  ++ (slice file (offset + total) (to_read - total) ++ drop to_read buffer)
                ≡ buffer =
              rw (e, sub_self) (take-append-drop total buffer) in
            (
              w,
              read_loop_done api raw_disk partition_offset extent_map fuel offset total to_read
                    buffer w finished
                  ∙ λ i. (ok (sym e i, sym whole i), w),
            )
      ]

  -- Over a disk with the documented behaviour, whose partition's extents follow one another from the
  -- start of the file and lie on the disk below 2^63, a read of an open file whose extents hold at
  -- least the file's size, into a buffer shorter than 2^31 bytes, returns the bytes of the file at the
  -- offset: as many as fit the buffer and lie before the file's end. They stand at the front of the
  -- buffer, and no other byte of it changes.
  pub read-content :
      (context : FileContext) (buffer : List ℕ) (offset : ℕ) (w : api.World)
      → context.extent_map ≡ extent_map
      → context.file_size ≤ length (content bytes partition_offset extent_map)
      → length buffer < 2 ^ 31
      → let n = min (length buffer) (context.file_size - offset) in
        (w' : api.World) × (read api raw_disk partition_offset context buffer offset w ≡ (
          ok (n, slice (content bytes partition_offset extent_map) offset n ++ drop n buffer),
          w',
        ))
  unfolding read
  read-content context buffer offset w same enough h =
      let file = content bytes partition_offset extent_map in
      let n = min (length buffer) (context.file_size - offset) in
      elim (Bool-cases (leb context.file_size offset)) [
        | inl past ↦ let none_left : n ≡ 0 = ground arith in (w, rw (past, none_left))
        | inr before ↦ elim (Bool-cases (n == 0)) [
          | inl nothing ↦
              let none_left : n ≡ 0 = ground arith in (w, rw (before, nothing, none_left))
          | inr something ↦
              let inside : offset + n ≤ length file = ground arith in
              let (w', r) =
                read_loop-content (suc n) offset 0 n buffer w (omega arith) (omega arith)
                  (omega arith) h inside in
              let e : n % 2 ^ 32 ≡ n = omega arith in
              let e₁ : offset + 0 ≡ offset = omega arith in
              let e₂ : n - 0 ≡ n = omega arith in (w', rw (before, something, same, r, e, e₁, e₂))
        ]
      ]
