-- ===== src/Service/Install.antt =====
-- src/service.rs: `install_service`, `uninstall_service` and `run_service_dispatcher`. Handles of the service manager are closed when
-- they go out of scope, which changes nothing that they read; the lines that they print are left out.
use Prim.Native.String.{String}
use arfw.Base.{ℕ, Bool, true, false, List, [], ◌∷◌, ok, err, Io, ◌>>=◌, map_err}
use arfw.Service.Run.{ServiceState, stopped, start_pending, running}

pub data Access : Type 0 where
  create_access connect query_status stop delete change_config start : Access

-- What is set of a service; its type, its automatic start and its error control are fixed.
pub record ServiceInfo (ExePath : Type 0) : Type 0 where
  pub name : String
  pub display_name : String
  pub executable_path : ExePath
  pub launch_arguments : List String
  pub dependencies : List String

-- The crate `windows-service`, and the standard library's path of the program.
pub record ManagerApi (World : Type 0) : Type 1 where
  pub Error : Type 0
  pub ExePath : Type 0
  pub Manager : Type 0
  pub Service : Type 0
  pub local_computer : List Access → Io World Error Manager
  pub current_exe : Io World Error ExePath
  pub create_service : Manager → ServiceInfo ExePath → List Access → Io World Error Service
  pub open_service : Manager → String → List Access → Io World Error Service
  pub set_description : Service → String → Io World Error (Unit {0})
  pub start_service : Service → Io World Error (Unit {0})
  pub query_state : Service → Io World Error ServiceState
  pub stop_service : Service → Io World Error (Unit {0})
  pub delete_service : Service → Io World Error (Unit {0})
  pub sleep : ℕ → World → World
  pub start_dispatcher : String → (World → World) → Io World Error (Unit {0})

abbrev pub service_name : String
service_name = "ARFW"

abbrev pub service_display_name : String
service_display_name = "APFS Read-only File System for Windows"

abbrev pub service_description : String
service_description = "Automatically mounts APFS partitions as read-only drives"

abbrev pub winfsp_launcher_service : String
winfsp_launcher_service = "WinFsp.Launcher"

abbrev pub is_stopped_state : ServiceState → Bool
is_stopped_state stopped = true
is_stopped_state start_pending = false
is_stopped_state running = false

module _ {World : Type 0} (api : ManagerApi World) where
  -- `anyhow::Error`: as it is, or with a context
  pub data InstallError : Type 0 where
    plain : api.Error → InstallError
    with_context : String → api.Error → InstallError

  -- The service that is created: it starts after WinFsp's launcher.
  abbrev pub service_info : api.ExePath → ServiceInfo api.ExePath
  service_info exe_path = record {
    name = service_name;
    display_name = service_display_name;
    executable_path = exe_path;
    launch_arguments = "service" ∷ [];
    dependencies = winfsp_launcher_service ∷ [];
  }

  unfoldable pub install_service : Io World InstallError (Unit {0})
  install_service = do
    manager ← map_err plain (api.local_computer (create_access ∷ []))
    exe_path ← map_err plain api.current_exe
    service ←
        map_err (with_context "Failed to create service")
          (api.create_service manager (service_info exe_path) (change_config ∷ start ∷ []))
    _ ←
        map_err (with_context "Failed to set service description")
          (api.set_description service service_description)
    map_err (with_context "Failed to start service") (api.start_service service)

  -- The stop of a service that is not stopped, and the two seconds after it.
  unfoldable pub stop_if_needed : api.Service → ServiceState → Io World InstallError (Unit {0})
  stop_if_needed service state w = elim (is_stopped_state state) [
    | true ↦ (ok tt, w)
    | false ↦
        let (result, w') =
          map_err (with_context "Failed to stop service") (api.stop_service service) w in
        elim result [ err e ↦ (err e, w') | ok _ ↦ (ok tt, api.sleep 2000 w') ]
  ]

  unfoldable pub uninstall_service : Io World InstallError (Unit {0})
  unfolding stop_if_needed
  uninstall_service = do
    manager ← map_err plain (api.local_computer (connect ∷ []))
    service ←
        map_err (with_context "Failed to open service")
          (api.open_service manager service_name (query_status ∷ stop ∷ delete ∷ []))
    state ← map_err plain (api.query_state service)
    _ ← stop_if_needed service state
    map_err (with_context "Failed to delete service") (api.delete_service service)

  -- The crate hands the program's `service_main` to the service manager, which runs it on a thread of its own, and
  -- returns when the service has ended.
  unfoldable pub run_service_dispatcher : (World → World) → Io World InstallError (Unit {0})
  run_service_dispatcher service_main =
      map_err (with_context "Failed to start service dispatcher")
        (api.start_dispatcher service_name service_main)
