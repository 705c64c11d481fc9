-- ===== src/Disk/Reader.antt =====
-- src/disk.rs: `DiskReader`, and the implementations of `Read`, `Seek` and `Drop`. A method that fills
-- a buffer takes its contents, and returns the new contents beside the count.
use arfw.Base.{
  ℕ, zero, suc, ◌-◌, ◌*◌, ◌/◌, ◌%◌, min, true, false, List, [], ◌∷◌, ◌++◌, ok, err, Result, Io,
  ◌>>=◌, pure, throw, map_err, if◌then◌else◌, ◌==◌, length, take, drop, replicate, add_u64, mul_u64,
}
use arfw.Base.Int.{ℤ, pos, negsuc, to_i64, to_u64}
use arfw.Error.{Error, IoError, last_os, other_windows, other_text, unexpected_eof, io, windows}
use arfw.Disk.Api.{Win32, MoveMethod, file_begin, file_current, file_end}

abbrev pub sector_size : ℕ
sector_size = 512

abbrev pub apfs_block_size : ℕ
apfs_block_size = 4096

pub record DiskReader (api : Win32) : Type 0 where
  pub handle : api.Handle
  pub size : ℕ
  pub offset : ℕ
  pub device_path : List ℕ

pub data SeekFrom : Type 0 where
  start : ℕ → SeekFrom
  current : ℤ → SeekFrom
  end : ℤ → SeekFrom

unfoldable pub sector_offset : ℕ → ℕ
sector_offset position = position % sector_size

-- The length of a read from the sector's start that covers `n` bytes behind its first `skipped`.
unfoldable pub aligned_len : ℕ → ℕ → ℕ
unfolding add_u64
aligned_len skipped n =
    let total_needed = add_u64 skipped n in
    (add_u64 total_needed sector_size - 1) / sector_size * sector_size

-- `tmp`, a buffer of `len` zeros whose first bytes the read has overwritten.
unfoldable pub overwrite : List ℕ → ℕ → List ℕ
overwrite got len = got ++ drop (length got) (replicate len 0)

-- The copy out of `tmp` that both reads end with.
unfoldable pub copy_out : List ℕ → ℕ → ℕ → List ℕ → ℕ × List ℕ
unfolding overwrite
copy_out got len skipped buf =
    let available = length got - skipped in
    let to_copy = min available (length buf) in
    (to_copy, take to_copy (drop skipped (overwrite got len)) ++ drop to_copy buf)

module _ (api : Win32) where
  open api use {
    World, Handle, create_file, is_invalid, last_os_error, set_file_pointer_ex, read_file,
    disk_geometry, close_handle,
  }

  unfoldable pub get_disk_size : Handle → Io World Error ℕ
  get_disk_size handle w =
      let (result, w') = disk_geometry handle w in
      elim result [
        | err _ ↦ (err (io (last_os (last_os_error w'))), w')
        | ok (disk_size, bytes_returned) ↦
            if bytes_returned == 0 then (err (io (last_os (last_os_error w'))), w') else (
              elim disk_size [
                | negsuc _ ↦
                    err (
                      io
                        (other_text "IOCTL_DISK_GET_DRIVE_GEOMETRY_EX returned negative disk size"))
                | pos n ↦ ok n
              ],
              w',
            )
      ]

  -- `unwrap_or(0)`
  abbrev ok_or_zero : Result Error ℕ → ℕ
  ok_or_zero (ok n) = n
  ok_or_zero (err _) = 0

  unfoldable pub open_with_offset : List ℕ → ℕ → Io World Error (DiskReader api)
  unfolding get_disk_size
  open_with_offset path offset = do
    handle ← map_err windows (create_file (path ++ (0 ∷ [])))
    λ w.
        if is_invalid handle
        then (err (io (last_os (last_os_error w))), w)
        else let (size, w') = get_disk_size handle w in
          (
            ok (record {
              handle = handle;
              size = ok_or_zero size;
              offset = offset;
              device_path = path;
            }),
            w',
          )

  unfoldable pub open_disk : List ℕ → Io World Error (DiskReader api)
  unfolding open_with_offset
  open_disk path = open_with_offset path 0

  unfoldable pub reopen_raw : DiskReader api → Io World Error (DiskReader api)
  unfolding open_with_offset
  reopen_raw self = open_with_offset self.device_path 0

  unfoldable pub reopen : DiskReader api → Io World Error (DiskReader api)
  unfolding open_with_offset
  reopen self = open_with_offset self.device_path self.offset

  unfoldable pub partition_offset : DiskReader api → ℕ
  partition_offset self = self.offset

  unfoldable pub drop_reader : DiskReader api → World → World
  drop_reader self = close_handle self.handle

  module _ (self : DiskReader api) where
    unfoldable pub read_at_absolute : ℕ → List ℕ → Io World Error (ℕ × List ℕ)
    read_at_absolute absolute_offset [] = pure (0, [])
    read_at_absolute absolute_offset (b ∷ bs) =
        let skipped = sector_offset absolute_offset in
        let aligned_offset = absolute_offset - skipped in
        let len = aligned_len skipped (length (b ∷ bs)) in
        do
          _ ←
              map_err (λ e. io (other_windows e))
                (set_file_pointer_ex self.handle (to_i64 aligned_offset) file_begin)
          got ← map_err (λ e. io (other_windows e)) (read_file self.handle len)
          pure (copy_out got len skipped (b ∷ bs))

    unfoldable pub read_at : ℕ → List ℕ → Io World Error (ℕ × List ℕ)
    unfolding read_at_absolute
    read_at physical_offset = read_at_absolute (add_u64 self.offset physical_offset)

    -- `Read::read`
    unfoldable pub read : List ℕ → Io World IoError (ℕ × List ℕ)
    read [] = pure (0, [])
    read (b ∷ bs) = do
      current_pos ← map_err other_windows (set_file_pointer_ex self.handle (pos 0) file_current)
      let position = to_u64 current_pos
      let skipped = sector_offset position
      let len = aligned_len skipped (length (b ∷ bs))
      _ ←
          map_err other_windows
            (set_file_pointer_ex self.handle (to_i64 (position - skipped)) file_begin)
      got ← map_err other_windows (read_file self.handle len)
      let (to_copy, buf) = copy_out got len skipped (b ∷ bs)
      _ ←
          map_err other_windows
            (set_file_pointer_ex self.handle (to_i64 (add_u64 position to_copy)) file_begin)
      pure (to_copy, buf)

    -- The arguments of the call that a seek makes.
    unfoldable pub seek_target : SeekFrom → ℤ × MoveMethod
    seek_target (start n) = (to_i64 (add_u64 self.offset n), file_begin)
    seek_target (current n) = (n, file_current)
    seek_target (end n) = (n, file_end)

    -- `Seek::seek`
    unfoldable pub seek : SeekFrom → Io World IoError ℕ
    unfolding seek_target
    seek from = do
      new_pos ←
          map_err other_windows
            (set_file_pointer_ex self.handle (seek_target from).0 (seek_target from).1)
      pure (to_u64 new_pos - self.offset)

    -- The standard library's `Read::read_exact`: it reads until the buffer is full. One more round
    -- than the buffer has bytes is enough, since a round reads at least one byte or ends the loop.
    unfoldable pub read_exact_loop : ℕ → List ℕ → Io World IoError (List ℕ)
    read_exact_loop zero buf = throw unexpected_eof
    read_exact_loop (suc fuel) [] = pure []
    read_exact_loop (suc fuel) (b ∷ bs) = do
      (n, buf) ← read (b ∷ bs)
      rest ← (λ w. elim (n == 0) [
        | true ↦ (err unexpected_eof, w)
        | false ↦ read_exact_loop fuel (drop n buf) w
      ])
      pure (take n buf ++ rest)

    unfoldable pub read_exact : List ℕ → Io World IoError (List ℕ)
    unfolding read_exact_loop
    read_exact buf = read_exact_loop (suc (length buf)) buf

    unfoldable pub read_block : ℕ → List ℕ → Io World Error (ℕ × List ℕ)
    read_block block_num buffer = do
      _ ← map_err io (seek (start (mul_u64 block_num apfs_block_size)))
      map_err io (read buffer)
