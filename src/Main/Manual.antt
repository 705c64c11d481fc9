-- ===== src/Main/Manual.antt =====
-- src/main.rs: `run_manual_mount`. Log lines are left out.
use arfw.Base.{
  ℕ, ◌+◌, ◌≡◌, refl, Bool, false, ◌&&◌, Option, none, some, List, [], ◌∷◌, ◌++◌, ok, err, Io,
  if◌then◌else◌, ◌==◌, ltb, arith,
}
use arfw.Base.Text.{codes}
use arfw.Error.{Error}
use arfw.Disk.Api.{Win32}
use arfw.Disk.Reader.{open_with_offset}
use arfw.Driver.Apfs.{ApfsApi}
use arfw.Driver.New.{ApfsDriver, new}
use arfw.Mount.Manager.{HostApi, mount_point}

-- The bytes of a character in UTF-8, in which a `String` has its length.
abbrev pub utf8_size : ℕ → ℕ
utf8_size c = if ltb c 0x80 then 1 else if ltb c 0x800 then 2 else if ltb c 0x10000 then 3 else 4

abbrev pub utf8_length : List ℕ → ℕ
utf8_length [] = 0
utf8_length (c ∷ text) = utf8_size c + utf8_length text

abbrev pub ends_with : List ℕ → ℕ → Bool
ends_with [] d = false
ends_with (c ∷ []) d = c == d
ends_with (c ∷ c' ∷ text) d = ends_with (c' ∷ text) d

-- The mount point that is passed on: a drive's is made global.
unfoldable pub global_mount_point : List ℕ → List ℕ
global_mount_point point =
    if utf8_length point == 2 && ends_with point b':' then codes "\\\\.\\" ++ point else point

abbrev pub manual_partition_offset : ℕ
manual_partition_offset = 1048576

-- The crate `ctrlc` and the channel that its handler writes to.
pub record SignalApi (World : Type 0) : Type 1 where
  pub SignalError : Type 0
  pub set_handler : Io World SignalError (Unit {0})
  pub recv : Io World SignalError (Unit {0})

module _ (api : Win32) (crate : ApfsApi api) (winfsp : HostApi api crate)
    (signal : SignalApi api.World) where
  -- `anyhow::Error`, by its source
  pub data ManualError : Type 0 where
    disk_error : Error → ManualError
    host_error : winfsp.WinFspError → ManualError
    signal_error : signal.SignalError → ManualError

  -- What follows the start of the host, which goes out of scope at every end.
  unfoldable pub run_until_signal : winfsp.Host → Io api.World ManualError (Unit {0})
  run_until_signal host w =
      let (handled, w₁) = signal.set_handler w in
      elim handled [
        | err e ↦ (err (signal_error e), winfsp.drop_host host w₁)
        | ok _ ↦
            let (received, w₂) = signal.recv w₁ in
            elim received [
              | err e ↦ (err (signal_error e), winfsp.drop_host host w₂)
              | ok _ ↦ (ok tt, winfsp.drop_host host w₂)
            ]
      ]

  -- What follows the making of the driver.
  unfoldable pub mount_driver : ApfsDriver api crate → List ℕ → Io api.World ManualError (Unit {0})
  unfolding run_until_signal global_mount_point
  mount_driver driver point w =
      let (made, w₁) = winfsp.new_host driver w in
      elim made [
        | err e ↦ (err (host_error e), w₁)
        | ok host ↦
            let (mounted, w₂) = winfsp.mount host (global_mount_point point) w₁ in
            elim mounted [
              | err e ↦ (err (host_error e), winfsp.drop_host host w₂)
              | ok _ ↦
                  let (started, w₃) = winfsp.start host w₂ in
                  elim started [
                    | err e ↦ (err (host_error e), winfsp.drop_host host w₃)
                    | ok _ ↦ run_until_signal host w₃
                  ]
            ]
      ]

  unfoldable pub run_manual_mount : List ℕ → List ℕ → Io api.World ManualError (Unit {0})
  unfolding mount_driver
  run_manual_mount device point w =
      let (disk_opened, w₁) = open_with_offset api device manual_partition_offset w in
      elim disk_opened [
        | err e ↦ (err (disk_error e), w₁)
        | ok disk ↦
            let (built, w₂) = new api crate disk w₁ in
            elim built [
              | err e ↦ (err (disk_error e), w₂)
              | ok driver ↦ mount_driver driver point w₂
            ]
      ]

-- The drive that a mount point names: one ASCII character before a colon.
abbrev pub drive_of : List ℕ → Option ℕ
drive_of (c ∷ d ∷ []) = if ltb c 0x80 && d == b':' then some c else none
drive_of _ = none

-- A drive given on the command line is mounted where the daemon would mount it, and any other mount point
-- is taken as it is.
pub global_mount_point-drive_of :
    (point : List ℕ)
    → global_mount_point point
      ≡ elim (drive_of point) [ some letter ↦ mount_point letter | none ↦ point ]
unfolding global_mount_point mount_point
global_mount_point-drive_of [] = refl
global_mount_point-drive_of (c ∷ []) = ground arith
global_mount_point-drive_of (c ∷ d ∷ []) = ground arith
global_mount_point-drive_of (c ∷ d ∷ e ∷ rest) = ground arith
