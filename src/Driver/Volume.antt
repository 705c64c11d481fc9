-- ===== src/Driver/Volume.antt =====
-- src/driver.rs: `get_volume_info`, and what a driver that `ApfsDriver::new` makes has.
use arfw.Base.{
  ℕ, ◌≡◌, refl, false, List, [], ◌∷◌, ◌++◌, ok, err, Result, Result-cases, inl, inr, Bool-cases,
}
use arfw.Error.{Error}
use arfw.Disk.Api.{Win32}
use arfw.Disk.Reader.{DiskReader, open_with_offset, reopen, reopen_raw, partition_offset}
use arfw.Disk.Superblock.{read_apfs_container_size}
use arfw.Driver.Apfs.{ApfsApi}
use arfw.Driver.New.{ApfsDriver, new}

-- The fields of WinFsp's `VolumeInfo` that the driver sets.
pub record VolumeInfo : Type 0 where
  pub total_size : ℕ
  pub free_size : ℕ
  pub volume_label : List ℕ

module _ (api : Win32) (crate : ApfsApi api) where
  unfoldable pub get_volume_info : ApfsDriver api crate → VolumeInfo
  get_volume_info self = record {
    total_size = self.disk_size;
    free_size = 0;
    volume_label = crate.volume_name self.volume;
  }

  -- What a reader is made of: the valid handle that the system gave for the path, null at its end, and the path
  -- and the offset themselves.
  pub record OpensAt (path : List ℕ) (offset : ℕ) (w : api.World) (reader : DiskReader api)
      : Type 0 where
    pub opened : (api.create_file (path ++ (0 ∷ [])) w).0 ≡ ok reader.handle
    pub valid : api.is_invalid reader.handle ≡ false
    pub path_kept : reader.device_path ≡ path
    pub offset_kept : reader.offset ≡ offset

  -- What the driver reads from: for the contents of files the whole device, opened when the driver is made, with
  -- the offset of the partition beside it; for the rest the volume that was opened with the given reader.
  pub record ReadsFrom (disk : DiskReader api) (w : api.World) (driver : ApfsDriver api crate)
      : Type 0 where
    pub raw : OpensAt disk.device_path 0 w driver.raw_disk
    pub same_partition : driver.partition_offset ≡ disk.offset
    pub its_volume : (w' : api.World) × ((crate.open_volume disk w').0 ≡ ok driver.volume)

  abbrev pub IfOpened : DiskReader api → api.World → Result Error (ApfsDriver api crate) → Type 0
  IfOpened disk w (err e) = Unit {0}
  IfOpened disk w (ok driver) = ReadsFrom disk w driver

  abbrev IfReader : List ℕ → ℕ → api.World → Result Error (DiskReader api) → Type 0
  IfReader path offset w (err e) = Unit {0}
  IfReader path offset w (ok reader) = OpensAt path offset w reader

  reopen_raw-OpensAt :
      (disk : DiskReader api) (w : api.World)
      → IfReader disk.device_path 0 w (reopen_raw api disk w).0
  unfolding reopen_raw open_with_offset
  reopen_raw-OpensAt disk w =
      let opened = api.create_file (disk.device_path ++ (0 ∷ [])) w in
      elim (Result-cases opened.0) [
        | inl (e, refused) ↦ rw (refused, open_with_offset) (tt {0})
        | inr (handle, made) ↦ elim (Bool-cases (api.is_invalid handle)) [
          | inl invalid ↦ rw (made, open_with_offset) (rw invalid (tt {0}))
          | inr valid ↦
              rw (made, open_with_offset)
                (rw valid
                  (record { opened = made; valid = valid; path_kept = refl; offset_kept = refl }))
        ]
      ]

  -- A driver that is made reads the contents of files by a valid handle that the system gave for the path of the
  -- given reader's device, opened when the driver is made; that reader of its own has no offset, and the driver
  -- keeps the given reader's beside it. Its volume is the one that was opened with the given reader.
  pub new-ReadsFrom :
      (disk : DiskReader api) (w : api.World) → IfOpened disk w (new api crate disk w).0
  unfolding new partition_offset
  new-ReadsFrom disk w = elim (Result-cases (reopen_raw api disk w).0) [
    | inl (e, refused) ↦ rw (refused, new) (tt {0})
    | inr (raw_disk, raw) ↦
        let w₁ = (reopen_raw api disk w).1 in
        let at : OpensAt disk.device_path 0 w raw_disk = rw raw at (reopen_raw-OpensAt disk w) in
        elim (Result-cases (reopen api disk w₁).0) [
          | inl (e, refused) ↦ rw (raw, new) (rw refused (tt {0}))
          | inr (meta_disk, meta) ↦
              let w₃ = (read_apfs_container_size api meta_disk (reopen api disk w₁).1).1 in
              elim (Result-cases (crate.open_volume disk w₃).0) [
                | inl (e, refused) ↦ rw (raw, new) (rw meta (rw refused (tt {0})))
                | inr (volume, opened) ↦
                    rw (raw, new)
                      (rw meta (
                        rw opened
                          (record { raw = at; same_partition = refl; its_volume = (w₃, opened) })))
              ]
        ]
  ]
