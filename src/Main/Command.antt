-- ===== src/Main/Command.antt =====
-- src/main.rs: the command line, `run_daemon` and `main`. The set-up of the log is left out.
use arfw.Base.{ℕ, Bool, true, false, Option, none, some, List, ok, err, Result, Io}
use arfw.Disk.Api.{Win32}
use arfw.Driver.Apfs.{ApfsApi}
use arfw.Mount.Manager.{HostApi}
use arfw.Daemon.Loop.{Turn, WatcherApi, Run, run_daemon_internal}
use arfw.Watcher.Watch.{WatchApi}
use arfw.Watcher.Interface.{watcher_api}
use arfw.Service.Run.{ServiceApi, service_main}
use arfw.Service.Daemon.{with_daemon}
use arfw.Service.Install.{
  ManagerApi, InstallError, install_service, uninstall_service, run_service_dispatcher,
}
use arfw.Main.Setup.{SetupApi, SetupError, setup_winfsp_dll_path}
use arfw.Main.Manual.{SignalApi, ManualError, run_manual_mount}

pub data Command : Type 0 where
  -- the device, the mount point, the volume's index, and whether to log for debugging
  mount : List ℕ → List ℕ → ℕ → Bool → Command
  daemon : Bool → Command
  install uninstall service : Command

-- The crates `clap`, which ends the process on a command line that it cannot parse, and `winfsp`, which
-- ends it if WinFsp is not there.
pub record ProcessApi (World : Type 0) : Type 0 where
  pub parse : World → Option (Option Command) × World
  pub winfsp_init_or_die : World → Bool × World

-- Everything outside the program that `main` reaches, on one state.
pub record Outside : Type 1 where
  pub win32 : Win32
  pub crate : ApfsApi win32
  pub winfsp : HostApi win32 crate
  pub notifications : WatchApi win32.World
  pub device_tx : notifications.Sender
  pub signal : SignalApi win32.World
  pub manager : ManagerApi win32.World
  pub setup : SetupApi win32.World
  pub process : ProcessApi win32.World
  pub thread : ServiceApi win32.World
  pub from : ℕ → thread.Error

-- The watcher that the daemon makes.
abbrev pub watch_of : (outside : Outside) → WatcherApi outside.win32
watch_of outside = watcher_api outside.win32 outside.notifications outside.device_tx

module _ (outside : Outside) where
  open outside use {win32, crate, winfsp, signal, manager, setup, process, thread, from}

  abbrev watch : WatcherApi win32
  watch = watch_of outside

  -- The service, whose thread runs the daemon; `from` is the conversion of an error of the watcher.
  abbrev pub service_of : List Turn → ServiceApi win32.World
  service_of turns = with_daemon win32 crate winfsp watch thread from turns

  -- The daemon on the command line, by the turns that its loop meets.
  unfoldable pub run_daemon :
      Bool → List Turn → Io win32.World signal.SignalError (Run win32 crate winfsp watch)
  run_daemon debug turns w =
      let (handled, w₁) = signal.set_handler w in
      elim handled [
        | err e ↦ (err e, w₁)
        | ok _ ↦
            let (run, w₂) = run_daemon_internal win32 crate winfsp watch turns w₁ in (ok run, w₂)
      ]

  -- How the process ends: in one of the three steps before the command, or as the command does.
  pub data Ended : Type 0 where
    no_setup : SetupError setup → Ended
    no_command : Ended
    no_winfsp : Ended
    mounted : Result (ManualError win32 crate winfsp signal) (Unit {0}) → Ended
    ran : Result signal.SignalError (Run win32 crate winfsp watch) → Ended
    installed uninstalled dispatched : Result (InstallError manager) (Unit {0}) → Ended

  abbrev after : {A : Type 0} → (A → Ended) → A × win32.World → Ended × win32.World
  after f (a, w) = (f a, w)

  -- The command's arm of the second `match`.
  unfoldable pub dispatch : Option Command → List Turn → win32.World → Ended × win32.World
  unfolding run_daemon
  dispatch (some (mount device mount_point volume_index debug)) turns w =
      after mounted (run_manual_mount win32 crate winfsp signal device mount_point w)
  dispatch (some (daemon debug)) turns w = after ran (run_daemon debug turns w)
  dispatch (some install) turns w = after installed (install_service manager w)
  dispatch (some uninstall) turns w = after uninstalled (uninstall_service manager w)
  dispatch (some service) turns w =
      after dispatched (run_service_dispatcher manager (service_main (service_of turns)) w)
  dispatch none turns w = after ran (run_daemon false turns w)

  -- The first `match`: the service starts WinFsp itself, when it can.
  abbrev pub init_for : Option Command → win32.World → Bool × win32.World
  init_for (some service) w = (true, w)
  init_for _ w = process.winfsp_init_or_die w

  unfoldable pub main : List Turn → win32.World → Ended × win32.World
  unfolding dispatch
  main turns w =
      let (set, w₁) = setup_winfsp_dll_path setup w in
      elim set [
        | err e ↦ (no_setup e, w₁)
        | ok _ ↦
            let (parsed, w₂) = process.parse w₁ in
            elim parsed [
              | none ↦ (no_command, w₂)
              | some command ↦
                  let (alive, w₃) = init_for command w₂ in
                  elim alive [ false ↦ (no_winfsp, w₃) | true ↦ dispatch command turns w₃ ]
            ]
      ]
