-- ===== src/Driver/Apfs.antt =====
-- The `apfs` and `lru` crates, as parameters of the driver.
use Prim.Native.String.{String}
use arfw.Base.{ℕ, List, Io}
use arfw.Base.Int.{ℤ}
use arfw.Disk.Api.{Win32}
use arfw.Disk.Reader.{DiskReader}
use arfw.Driver.Extents.{ExtentEntry}

pub data EntryKind : Type 0 where
  file directory symlink : EntryKind

pub record FileStat : Type 0 where
  pub oid : ℕ
  pub kind : EntryKind
  pub size : ℕ
  pub create_time : ℤ
  pub modify_time : ℤ
  pub uid : ℕ
  pub gid : ℕ
  pub mode : ℕ
  pub nlink : ℕ

pub record DirEntry : Type 0 where
  pub name : List ℕ
  pub oid : ℕ
  pub kind : EntryKind
  pub size : ℕ
  pub create_time : ℤ
  pub modify_time : ℤ

-- `ApfsVolume<DiskReader>`: its methods read the disk, and may fail with an error of the crate.
pub record ApfsApi (api : Win32) : Type 1 where
  pub Volume : Type 0
  pub ApfsError : Type 0
  pub to_string : ApfsError → String
  pub open_volume : DiskReader api → Io api.World ApfsError Volume
  pub stat_and_extents : Volume → List ℕ → Io api.World ApfsError (FileStat × List ExtentEntry × ℕ)
  pub stat : Volume → List ℕ → Io api.World ApfsError FileStat
  pub list_directory : Volume → List ℕ → Io api.World ApfsError (List DirEntry)
  pub volume_name : Volume → List ℕ
