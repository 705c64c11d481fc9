-- ===== src/Driver/Read.antt =====
-- src/driver.rs: `ApfsDriver::read`, a read of an open file through its extent map.
use arfw.Base.{
  ℕ, zero, suc, ◌+◌, ◌-◌, ◌%◌, ◌^◌, min, true, false, Option, none, some, List, ◌++◌, ok, Io, ◌>>=◌,
  pure, throw, map_err, if◌then◌else◌, ltb, leb, ◌==◌, length, take, drop, add_u64,
}
use arfw.Disk.Api.{Win32}
use arfw.Disk.Reader.{DiskReader, read_at_absolute}
use arfw.Disk.Sector.{slice}
use arfw.Driver.Extents.{ExtentEntry, logical_to_physical, extent_remaining}

-- `FspError::NTSTATUS`, with the status as the source writes it, an unsigned number.
pub data FspError : Type 0 where
  ntstatus : ℕ → FspError

-- STATUS_END_OF_FILE
abbrev pub status_end_of_file : FspError
status_end_of_file = ntstatus 0xC0000011

-- `ApfsFileContext`, without the buffer that belongs to WinFsp.
pub record FileContext : Type 0 where
  pub path : List ℕ
  pub extent_map : List ExtentEntry
  pub file_size : ℕ

-- `ok_or`
abbrev pub ok_or : {W A : Type 0} → FspError → Option A → Io W FspError A
ok_or e none = throw e
ok_or e (some a) = pure a

-- `&mut buffer[start..start + n]` with other bytes in it.
abbrev pub replace : List ℕ → ℕ → ℕ → List ℕ → List ℕ
replace buffer start n piece = take start buffer ++ (piece ++ drop (start + n) buffer)

module _ (api : Win32) (raw_disk : DiskReader api) (partition_offset : ℕ) where
  -- The loop, with fuel for its rounds: the bytes read so far, and the buffer.
  unfoldable pub read_loop :
      ℕ → List ExtentEntry → ℕ → ℕ → ℕ → List ℕ → Io api.World FspError (ℕ × List ℕ)
  read_loop zero extent_map offset to_read total_read buffer = pure (total_read, buffer)
  read_loop (suc fuel) extent_map offset to_read total_read buffer =
      let logical_pos = add_u64 offset total_read in
      let avail = extent_remaining extent_map logical_pos in
      let chunk_size = min (to_read - total_read) avail in
      let round : Io api.World FspError (ℕ × List ℕ) = do
        physical_pos ← ok_or status_end_of_file (logical_to_physical extent_map logical_pos)
        λ w. elim (avail == 0) [
          | true ↦ (ok (total_read, buffer), w)
          | false ↦
              ◌>>=◌
                (map_err (λ _. status_end_of_file)
                  (read_at_absolute api raw_disk (add_u64 partition_offset physical_pos)
                    (slice buffer total_read chunk_size)))
                (λ (bytes, piece) w'. elim (bytes == 0) [
                  | true ↦ (ok (total_read, replace buffer total_read chunk_size piece), w')
                  | false ↦
                      read_loop fuel extent_map offset to_read (total_read + bytes)
                        (replace buffer total_read chunk_size piece) w'
                ])
                w
        ]
      in elim (ltb total_read to_read) [ true ↦ round | false ↦ pure (total_read, buffer) ]

  -- A round reads at least one byte or ends the loop, so `to_read` rounds and a last test are enough.
  unfoldable pub read : FileContext → List ℕ → ℕ → Io api.World FspError (ℕ × List ℕ)
  unfolding read_loop
  read context buffer offset =
      let remaining = context.file_size - offset in
      let to_read = min (length buffer) remaining in
      if leb context.file_size offset
      then pure (0, buffer)
      else if to_read == 0
      then pure (0, buffer)
      else (do
        (total_read, buffer') ← read_loop (suc to_read) context.extent_map offset to_read 0 buffer
        pure (total_read % 2 ^ 32, buffer'))
