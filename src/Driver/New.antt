-- ===== src/Driver/New.antt =====
-- src/driver.rs: `ApfsDriver::new`. A reader that goes out of scope closes its handle.
use arfw.Base.{ℕ, ok, err, Result, Io}
use arfw.Error.{Error, apfs}
use arfw.Disk.Api.{Win32}
use arfw.Disk.Reader.{DiskReader, partition_offset, reopen_raw, reopen, drop_reader}
use arfw.Disk.Superblock.{read_apfs_container_size}
use arfw.Driver.Apfs.{ApfsApi}

-- `ApfsDriver`; the cache of metadata, which begins empty, is kept beside it.
pub record ApfsDriver (api : Win32) (crate : ApfsApi api) : Type 0 where
  pub volume : crate.Volume
  pub raw_disk : DiskReader api
  pub partition_offset : ℕ
  pub disk_size : ℕ

-- `unwrap_or_else(|_| disk.size())`
abbrev size_or : ℕ → Result Error ℕ → ℕ
size_or size (ok n) = n
size_or size (err _) = size

module _ (api : Win32) (crate : ApfsApi api) where
  unfoldable pub new : DiskReader api → Io api.World Error (ApfsDriver api crate)
  new disk w =
      let (raw, w₁) = reopen_raw api disk w in
      elim raw [
        | err e ↦ (err e, drop_reader api disk w₁)
        | ok raw_disk ↦
            let (meta, w₂) = reopen api disk w₁ in
            elim meta [
              | err e ↦ (err e, drop_reader api disk (drop_reader api raw_disk w₂))
              | ok meta_disk ↦
                  let (size, w₃) = read_apfs_container_size api meta_disk w₂ in
                  let (opened, w₄) = crate.open_volume disk w₃ in
                  elim opened [
                    | err e ↦ (
                      err (apfs (crate.to_string e)),
                      drop_reader api raw_disk (drop_reader api meta_disk w₄),
                    )
                    | ok volume ↦ (
                      ok (record {
                        volume = volume;
                        raw_disk = raw_disk;
                        partition_offset = partition_offset api disk;
                        disk_size = size_or disk.size size;
                      }),
                      drop_reader api meta_disk w₄,
                    )
                  ]
            ]
      ]
