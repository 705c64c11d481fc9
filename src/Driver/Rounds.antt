-- ===== src/Driver/Rounds.antt =====
-- The rounds of the read loop of src/driver.rs, and the pieces of a buffer that they fill.
use arfw.Base.{
  ℕ, suc, ◌+◌, ◌-◌, ◌≤◌, min, ◌≡◌, sym, ap, ◌∙◌, true, false, some, List, ◌++◌, append_assoc, ok,
  and_then, ◌==◌, ltb, length, take, drop, arith, add_u64, length-take, length-drop, length-append,
  take-append_exact, drop-append_exact, drop-drop, take-add,
}
use arfw.Disk.Api.{Win32}
use arfw.Disk.Reader.{DiskReader, read_at_absolute}
use arfw.Disk.Sector.{slice}
use arfw.Driver.Extents.{ExtentEntry, logical_to_physical, extent_remaining}
use arfw.Driver.Read.{read_loop, replace}

-- The bytes that a round reads, put at the end of what was read before.
pub replace-grows :
    (buffer piece : List ℕ) (total c : ℕ)
    → length piece ≡ c
    → total + c ≤ length buffer
    → (take (total + c) (replace buffer total c piece) ≡ take total buffer ++ piece)
      × ((k : ℕ) → total + c ≤ k → drop k (replace buffer total c piece) ≡ drop k buffer)
      × (length (replace buffer total c piece) ≡ length buffer)
replace-grows buffer piece total c full fits =
    let front = take total buffer in
    let back = drop (total + c) buffer in
    let front_length : length front ≡ total = omega (arith, length-take total buffer) in
    let both : length (front ++ piece) ≡ total + c = omega (arith, length-append front piece) in
    let grouped : replace buffer total c piece ≡ (front ++ piece) ++ back =
      sym (append_assoc front piece back) in
    (
      ap (take (total + c)) grouped
          ∙ take-append_exact (total + c) (front ++ piece) back (sym both),
      λ k le.
          let e : (total + c) + (k - (total + c)) ≡ k = omega arith in
          ap (drop k) grouped
          ∙ ap (λ m. drop m ((front ++ piece) ++ back)) (sym e)
          ∙ sym (drop-drop (k - (total + c)) (total + c) ((front ++ piece) ++ back))
          ∙ ap (drop (k - (total + c)))
              (drop-append_exact (total + c) (front ++ piece) back (sym both))
          ∙ drop-drop (k - (total + c)) (total + c) buffer
          ∙ ap (λ m. drop m buffer) e,
      ap length grouped
          ∙ length-append (front ++ piece) back
          ∙ omega (arith, length-drop (total + c) buffer),
    )

pub slices_join :
    (file front back : List ℕ) (offset total c to_read : ℕ)
    → total + c ≤ to_read
    → (front ++ slice file (offset + total) c)
        ++ (slice file (offset + (total + c)) (to_read - (total + c)) ++ back)
      ≡ front ++ (slice file (offset + total) (to_read - total) ++ back)
slices_join file front back offset total c to_read h =
    let e : to_read - total ≡ c + (to_read - (total + c)) = omega arith in
    let e' : offset + (total + c) ≡ offset + total + c = omega arith in
    rw (e, e', ← drop-drop c (offset + total) file, take-add) (simp append_assoc)

module _ (api : Win32) (raw_disk : DiskReader api) (partition_offset : ℕ) where
  pub read_loop_done :
      (extent_map : List ExtentEntry) (fuel offset total to_read : ℕ) (buffer : List ℕ)
      (w : api.World)
      → ltb total to_read ≡ false
      → read_loop api raw_disk partition_offset (suc fuel) extent_map offset to_read total buffer w
        ≡ (ok (total, buffer), w)
  unfolding read_loop
  read_loop_done extent_map fuel offset total to_read buffer w h = rw (h, read_loop)

  -- A round that reads some bytes goes on behind them.
  pub read_loop_step :
      (extent_map : List ExtentEntry) (fuel offset total to_read phys avail n : ℕ)
      (buffer piece : List ℕ) (w w' : api.World)
      → ltb total to_read ≡ true
      → logical_to_physical extent_map (add_u64 offset total) ≡ some phys
      → extent_remaining extent_map (add_u64 offset total) ≡ avail
      → (avail == 0) ≡ false
      → read_at_absolute api raw_disk
          (add_u64 partition_offset phys)
          (slice buffer total (min (to_read - total) avail))
          w
        ≡ (ok (n, piece), w')
      → (n == 0) ≡ false
      → read_loop api raw_disk partition_offset (suc fuel) extent_map offset to_read total buffer w
        ≡ read_loop api raw_disk partition_offset fuel extent_map offset to_read
            (total + n)
            (replace buffer total (min (to_read - total) avail) piece)
            w'
  unfolding read_loop
  read_loop_step extent_map fuel offset total to_read phys avail n buffer piece w w' more found
        remains some_left did some_read =
      rw (← remains) (
        let left : (extent_remaining extent_map (add_u64 offset total) == 0) ≡ false =
          rw remains some_left in
        let r : read_at_absolute api raw_disk (add_u64 partition_offset phys)
              (slice buffer total
                (min (to_read - total) (extent_remaining extent_map (add_u64 offset total))))
              w
            ≡ (ok (n, piece), w') =
          rw remains did in
        rw (more, read_loop) (rw found (rw left (rw r (rw (some_read, and_then))))))
