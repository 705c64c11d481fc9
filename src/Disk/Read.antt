-- ===== src/Disk/Read.antt =====
-- The reads and seeks of src/disk.rs, over a disk with the documented behaviour.
use arfw.Base.{
  ℕ, zero, suc, ◌+◌, ◌-◌, ◌*◌, ◌%◌, ◌^◌, ◌≤◌, ◌<◌, ◌≡◌, refl, ap, ◌∙◌, inl, inr, List, [], ◌∷◌,
  append-nil, ◌==◌, false, Bool-cases, length, take, drop, ok, err, arith, i64_bound,
  add_u64-eq_of_lt, mul_u64, mul_u64-eq_of_lt, length-take, length-drop, drop-append_exact,
  take-append_exact, drop_of_length-le,
}
use arfw.Base.Int.{to_u64, to_i64-eq_of_lt}
use arfw.Error.{unexpected_eof}
use arfw.Disk.Api.{Win32, IsDisk}
use arfw.Disk.Reader.{
  DiskReader, start, sector_offset, aligned_len, copy_out, read_at_absolute, read_at, read, seek,
  read_exact, read_exact_loop, read_block, apfs_block_size,
}
use arfw.Disk.Sector.{slice, filled, aligned_len_bounds, copy_out-widened}

module _ (api : Win32) (self : DiskReader api) (bytes : List ℕ) (position : api.World → ℕ)
    (disk : IsDisk api self.handle bytes position) where
  -- A seek to the start of the sector and a read of whole sectors.
  pub widened :
      (absolute : ℕ) (buf : List ℕ) (w w₀ : api.World)
      → position w₀ ≡ absolute - sector_offset absolute
      → length buf < 2 ^ 31
      → let s = slice bytes absolute (length buf) in
        let len = aligned_len (sector_offset absolute) (length buf) in
        (got : List ℕ) × (w' : api.World) × (api.read_file self.handle len w₀ ≡ (ok got, w'))
        × (copy_out got len (sector_offset absolute) buf ≡ (length s, filled s buf))
  unfolding sector_offset
  widened absolute buf w w₀ at h =
      let skipped = absolute % 512 in
      let len = aligned_len skipped (length buf) in
      let (whole, covers, small) = aligned_len_bounds skipped (length buf) (omega arith) h in
      let (w', r) = disk.read_sectors w₀ len (omega arith) whole small in
      let e : absolute - skipped + skipped ≡ absolute = omega arith in
      (
        take len (drop (position w₀) bytes),
        w',
        r,
        rw at (rw (copy_out-widened bytes (absolute - skipped) skipped len buf covers) (rw e refl)),
      )

  -- Over a disk with the documented behaviour, a positioned read at any offset below 2^63, into any
  -- buffer shorter than 2^31 bytes, returns the bytes of the disk there, as many as there are, and
  -- leaves the rest of the buffer as it was.
  pub read_at_absolute_lem :
      (absolute : ℕ) (buf : List ℕ) (w : api.World)
      → absolute < i64_bound
      → length buf < 2 ^ 31
      → let s = slice bytes absolute (length buf) in
        (w' : api.World) × (read_at_absolute api self absolute buf w
          ≡ (ok (length s, filled s buf), w'))
  unfolding read_at_absolute
  read_at_absolute_lem absolute [] w a h = (w, refl)
  read_at_absolute_lem absolute (b ∷ bs) w a h =
      let (w₀, sought, at) = disk.seek_begin w (absolute - sector_offset absolute) (omega arith) in
      let (got, w', r, copied) = widened absolute (b ∷ bs) w w₀ at h in
      (
        w',
        rw (to_i64-eq_of_lt (absolute - sector_offset absolute) (omega arith), sought, r, copied),
      )

  -- A read at an offset of the partition is the read at that offset behind the partition's start.
  pub read_at_lem :
      (physical : ℕ) (buf : List ℕ) (w : api.World)
      → self.offset + physical < i64_bound
      → length buf < 2 ^ 31
      → let s = slice bytes (self.offset + physical) (length buf) in
        (w' : api.World) × (read_at api self physical buf w ≡ (ok (length s, filled s buf), w'))
  unfolding read_at
  read_at_lem physical buf w a h =
      rw (add_u64-eq_of_lt self.offset physical (omega arith))
        (read_at_absolute_lem (self.offset + physical) buf w a h)

  -- Over a disk with the documented behaviour, which reads whole sectors only, `Read::read` is a read
  -- of a plain stream of bytes, for a buffer shorter than 2^31 bytes that ends below 2^63: it returns
  -- the bytes at the file pointer, aligned or not, as many as there are, leaves the rest of the buffer,
  -- and moves the pointer behind them.
  pub read_lem :
      (buf : List ℕ) (w : api.World)
      → position w + length buf < i64_bound
      → length buf < 2 ^ 31
      → let s = slice bytes (position w) (length buf) in
        (w' : api.World) × (read api self buf w ≡ (ok (length s, filled s buf), w'))
        × (position w' ≡ position w + length s)
  unfolding read to_u64
  read_lem [] w a h = (w, refl, omega arith)
  read_lem (b ∷ bs) w a h =
      let p = position w in
      let s = slice bytes p (length (b ∷ bs)) in
      let short : length s ≤ length (b ∷ bs) =
        omega (arith, length-take (length (b ∷ bs)) (drop p bytes)) in
      let (w₁, told, at₁) = disk.seek_current w in
      let (w₂, sought, at₂) = disk.seek_begin w₁ (p - sector_offset p) (omega arith) in
      let (got, w₃, r, copied) = widened p (b ∷ bs) w₁ w₂ at₂ h in
      let (w₄, restored, at₄) = disk.seek_begin w₃ (p + length s) (omega arith) in
      (
        w₄,
        rw (
          told,
          to_i64-eq_of_lt (p - sector_offset p) (omega arith),
          sought,
          r,
          copied,
          add_u64-eq_of_lt p (length s) (omega arith),
          to_i64-eq_of_lt (p + length s) (omega arith),
          restored,
        ),
        at₄,
      )

  -- Over a disk with the documented behaviour, a seek from the start to an offset of the partition that
  -- lies below 2^63 on the disk goes there, and returns the offset.
  pub seek_start :
      (n : ℕ) (w : api.World)
      → self.offset + n < i64_bound
      → (w' : api.World) × (seek api self (start n) w ≡ (ok n, w'))
        × (position w' ≡ self.offset + n)
  unfolding seek to_u64
  seek_start n w h =
      let (w', sought, at) = disk.seek_begin w (self.offset + n) h in
      let e : self.offset + n - self.offset ≡ n = omega arith in
      (
        w',
        rw (
          add_u64-eq_of_lt self.offset n (omega arith),
          to_i64-eq_of_lt (self.offset + n) h,
          sought,
          e,
        ),
        at,
      )

  filled_full :
      (s buf : List ℕ)
      → length s ≡ length buf
      → (drop (length s) (filled s buf) ≡ []) × (take (length s) (filled s buf) ≡ s)
  filled_full s buf h = (
    drop-append_exact (length s) s (drop (length s) buf) refl
        ∙ drop_of_length-le (length s) buf (omega arith),
    take-append_exact (length s) s (drop (length s) buf) refl,
  )

  read_exact_loop-full :
      (fuel : ℕ) (buf : List ℕ) (w : api.World)
      → length buf < fuel
      → position w + length buf ≤ length bytes
      → length bytes < i64_bound
      → length buf < 2 ^ 31
      → (w' : api.World) × (read_exact_loop api self fuel buf w
          ≡ (ok (slice bytes (position w) (length buf)), w'))
        × (position w' ≡ position w + length buf)
  unfolding read_exact_loop
  read_exact_loop-full zero buf w f a l h = absurd (omega arith)
  read_exact_loop-full (suc fuel) [] w f a l h = (w, refl, omega arith)
  read_exact_loop-full (suc zero) (b ∷ bs) w f a l h = absurd (omega arith)
  read_exact_loop-full (suc (suc fuel)) (b ∷ bs) w f a l h =
      let buf = b ∷ bs in
      let s = slice bytes (position w) (length buf) in
      let (w', r, at) = read_lem buf w (omega arith) h in
      let full : length s ≡ length buf = omega (
        arith,
        length-take (length buf) (drop (position w) bytes),
        length-drop (position w) bytes,
      ) in
      let (rest, got) = filled_full s buf full in
      let some_read : (length s == 0) ≡ false = rw full (ground arith) in
      (w', rw (r, some_read, rest, got, append-nil), omega arith)

  -- Over a disk with the documented behaviour that holds so many bytes behind the file pointer, and
  -- fewer than 2^63 in all, `read_exact` fills a buffer shorter than 2^31 bytes with the bytes there,
  -- and moves the pointer behind them.
  pub read_exact_lem :
      (buf : List ℕ) (w : api.World)
      → position w + length buf ≤ length bytes
      → length bytes < i64_bound
      → length buf < 2 ^ 31
      → (w' : api.World) × (read_exact api self buf w
          ≡ (ok (slice bytes (position w) (length buf)), w'))
        × (position w' ≡ position w + length buf)
  unfolding read_exact
  read_exact_lem buf w a l h = read_exact_loop-full (suc (length buf)) buf w (omega arith) a l h

  read_exact_loop-eof :
      (fuel : ℕ) (buf : List ℕ) (w : api.World)
      → length bytes < position w + length buf
      → position w ≤ length bytes
      → length bytes + length buf < i64_bound
      → length buf < 2 ^ 31
      → (w' : api.World) × (read_exact_loop api self fuel buf w ≡ (err unexpected_eof, w'))
  unfolding read_exact_loop
  read_exact_loop-eof zero buf w a p l h = (w, refl)
  read_exact_loop-eof (suc fuel) [] w a p l h = absurd (omega arith)
  read_exact_loop-eof (suc fuel) (b ∷ bs) w a p l h =
      let buf = b ∷ bs in
      let s = slice bytes (position w) (length buf) in
      let (w', r, at) = read_lem buf w (omega arith) h in
      let got : length s ≡ length bytes - position w = omega (
        arith,
        length-take (length buf) (drop (position w) bytes),
        length-drop (position w) bytes,
      ) in
      let left : length (drop (length s) (filled s buf)) ≡ length buf - length s =
        ap length (drop-append_exact (length s) s (drop (length s) buf) refl)
        ∙ length-drop (length s) buf in
      elim (Bool-cases (length s == 0)) [
        | inl none_read ↦ (w', rw (r, none_read))
        | inr some_read ↦
            let (w'', failed) =
              read_exact_loop-eof fuel (drop (length s) (filled s buf)) w' (omega arith)
                (omega arith) (omega arith) (omega arith) in
            (w'', rw (r, some_read, failed))
      ]

  -- Over a disk with the documented behaviour, if the file pointer stands on the disk or at its end,
  -- and the disk ends within the buffer, which is shorter than 2^31 bytes and with the disk shorter
  -- than 2^63, then `read_exact` reports an end of file, and no data.
  pub read_exact_eof :
      (buf : List ℕ) (w : api.World)
      → length bytes < position w + length buf
      → position w ≤ length bytes
      → length bytes + length buf < i64_bound
      → length buf < 2 ^ 31
      → (w' : api.World) × (read_exact api self buf w ≡ (err unexpected_eof, w'))
  unfolding read_exact
  read_exact_eof buf = read_exact_loop-eof (suc (length buf)) buf

  -- Over a disk with the documented behaviour, `read_block` reads the block of that number, counted
  -- from the partition's start, into a buffer shorter than 2^31 bytes that ends below 2^63.
  read_block_lem :
      (block_num : ℕ) (buffer : List ℕ) (w : api.World)
      → self.offset + block_num * apfs_block_size + length buffer < i64_bound
      → length buffer < 2 ^ 31
      → let s = slice bytes (self.offset + block_num * apfs_block_size) (length buffer) in
        (w' : api.World) × (read_block api self block_num buffer w
          ≡ (ok (length s, filled s buffer), w'))
  unfolding read_block
  read_block_lem block_num buffer w a h =
      let (w₁, sought, at) = seek_start (block_num * apfs_block_size) w (omega arith) in
      let (w₂, r, _) = read_lem buffer w₁ (omega arith) h in
      let product : mul_u64 block_num apfs_block_size ≡ block_num * apfs_block_size =
        mul_u64-eq_of_lt block_num apfs_block_size (omega arith) in
      (w₂, rw (product, sought) (rw (← at) (rw r)))
