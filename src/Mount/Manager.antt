-- ===== src/Mount/Manager.antt =====
-- src/mount_manager.rs: `MountManager`. The hash map is a list of keys and volumes.
use arfw.Base.{
  ℕ, Bool, true, false, Option, none, some, List, [], ◌∷◌, ◌++◌, ok, err, Result, Io, map,
  if◌then◌else◌,
}
use arfw.Base.Text.{codes, text_eq, decimal}
use arfw.Error.{Error}
use arfw.Disk.Api.{Win32}
use arfw.Disk.Reader.{open_with_offset}
use arfw.Driver.Apfs.{ApfsApi}
use arfw.Driver.New.{ApfsDriver, new}
use arfw.Monitor.Scan.{ApfsPartition}

-- The host of the `winfsp` crate. A host that goes out of scope unmounts its drive.
pub record HostApi (api : Win32) (crate : ApfsApi api) : Type 1 where
  pub Host : Type 0
  pub WinFspError : Type 0
  pub new_host : ApfsDriver api crate → Io api.World WinFspError Host
  pub mount : Host → List ℕ → Io api.World WinFspError (Unit {0})
  pub start : Host → Io api.World WinFspError (Unit {0})
  pub drop_host : Host → api.World → api.World

unfoldable pub key : ℕ → ℕ → List ℕ
key disk_number partition_number = decimal disk_number ++ (b':' ∷ decimal partition_number)

-- `\\.\X:`
unfoldable pub mount_point : ℕ → List ℕ
mount_point drive_letter = codes "\\\\.\\" ++ (drive_letter ∷ b':' ∷ [])

module _ {V : Type 0} where
  unfoldable pub get : List ℕ → List (List ℕ × V) → Option V
  get k [] = none
  get k ((j, v) ∷ entries) = if text_eq j k then some v else get k entries

  unfoldable pub remove : List ℕ → List (List ℕ × V) → List (List ℕ × V)
  remove k [] = []
  remove k ((j, v) ∷ entries) =
      let rest = remove k entries in if text_eq j k then rest else (j, v) ∷ rest

  unfoldable pub insert : List ℕ → V → List (List ℕ × V) → List (List ℕ × V)
  unfolding remove
  insert k v entries = (k, v) ∷ remove k entries

  abbrev pub is_some : Option V → Bool
  is_some none = false
  is_some (some v) = true

module _ (api : Win32) (crate : ApfsApi api) (winfsp : HostApi api crate) where
  -- `anyhow::Error`, by its source
  pub data MountError : Type 0 where
    disk_error : Error → MountError
    host_error : winfsp.WinFspError → MountError

  pub record MountedVolume : Type 0 where
    pub partition : ApfsPartition
    pub drive_letter : ℕ
    pub host : winfsp.Host

  abbrev pub Mounts : Type 0
  Mounts = List (List ℕ × MountedVolume)

  -- The steps of a mount that may fail, up to the running host.
  unfoldable pub open_host : ApfsPartition → ℕ → Io api.World MountError winfsp.Host
  open_host partition drive_letter w =
      let (opened, w₁) = open_with_offset api partition.device_path partition.offset w in
      elim opened [
        | err e ↦ (err (disk_error e), w₁)
        | ok disk ↦
            let (built, w₂) = new api crate disk w₁ in
            elim built [
              | err e ↦ (err (disk_error e), w₂)
              | ok driver ↦
                  let (made, w₃) = winfsp.new_host driver w₂ in
                  elim made [
                    | err e ↦ (err (host_error e), w₃)
                    | ok host ↦
                        let (mounted, w₄) = winfsp.mount host (mount_point drive_letter) w₃ in
                        elim mounted [
                          | err e ↦ (err (host_error e), winfsp.drop_host host w₄)
                          | ok _ ↦
                              let (started, w₅) = winfsp.start host w₄ in
                              elim started [
                                | err e ↦ (err (host_error e), winfsp.drop_host host w₅)
                                | ok _ ↦ (ok host, w₅)
                              ]
                        ]
                  ]
            ]
      ]

  -- The host of a volume that the map no longer holds is dropped.
  abbrev pub drop_old : Option MountedVolume → api.World → api.World
  drop_old none w = w
  drop_old (some volume) w = winfsp.drop_host volume.host w

  unfoldable pub mount_partition :
      Mounts → ApfsPartition → ℕ → api.World → Result MountError (Unit {0}) × Mounts × api.World
  unfolding get insert
  mount_partition mounts partition drive_letter w =
      let k = key partition.disk_number partition.partition_number in
      let (opened, w') = open_host partition drive_letter w in
      elim opened [
        | err e ↦ (err e, mounts, w')
        | ok host ↦
            let volume : MountedVolume = record {
              partition = partition;
              drive_letter = drive_letter;
              host = host;
            } in
            (ok tt, insert k volume mounts, drop_old (get k mounts) w')
      ]

  unfoldable pub unmount_partition : Mounts → ℕ → ℕ → api.World → Mounts × api.World
  unfolding get remove
  unmount_partition mounts disk_num partition_num w =
      let k = key disk_num partition_num in (remove k mounts, drop_old (get k mounts) w)

  unfoldable pub is_mounted : Mounts → ℕ → ℕ → Bool
  unfolding get
  is_mounted mounts disk_num partition_num = is_some (get (key disk_num partition_num) mounts)

  unfoldable pub get_mounted_disks : Mounts → List ℕ
  get_mounted_disks mounts = map (λ (_, volume). volume.partition.disk_number) mounts
