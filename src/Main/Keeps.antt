-- ===== src/Main/Keeps.antt =====
-- What the commands of src/main.rs do to handles of files by the service manager and the registry: nothing.
use Prim.Native.String.{String}
use arfw.Base.{ℕ, ◌≡◌, refl, ◌∙◌, List, [], ◌∷◌, Io, map_err, Result-cases, Bool-cases, inl, inr}
use arfw.Disk.Handles.{Keeps, Keeps-bind, Keeps-map_err, keeps_rules}
use arfw.Service.Run.{ServiceState}
use arfw.Service.Install.{
  Access, ServiceInfo, is_stopped_state, create_access, plain, install_service, stop_if_needed,
  service_name, uninstall_service, run_service_dispatcher,
}
use arfw.Main.Setup.{setup_winfsp_dll_path}
use arfw.Main.Command.{Outside}

module _ (outside : Outside) (open_handles : outside.win32.World → ℕ) where
  open outside use {win32, manager, setup, process}

  abbrev Still : {E A : Type 0} → Io win32.World E A → Type 0
  Still m = Keeps win32 open_handles m

  -- The service manager, the registry and the process have no handle of a file. The dispatcher runs the function
  -- that it is given, so it keeps what that function keeps.
  pub record KeepsOthers : Type 0 where
    pub local_computer : (access : List Access) → Still (manager.local_computer access)
    pub current_exe : Still manager.current_exe
    pub create_service :
        (m : manager.Manager) (info : ServiceInfo manager.ExePath) (access : List Access)
        → Still (manager.create_service m info access)
    pub open_service :
        (m : manager.Manager) (name : String) (access : List Access)
        → Still (manager.open_service m name access)
    pub set_description :
        (s : manager.Service) (text : String) → Still (manager.set_description s text)
    pub start_service : (s : manager.Service) → Still (manager.start_service s)
    pub query_state : (s : manager.Service) → Still (manager.query_state s)
    pub stop_service : (s : manager.Service) → Still (manager.stop_service s)
    pub delete_service : (s : manager.Service) → Still (manager.delete_service s)
    pub slept : (n : ℕ) (w : win32.World) → open_handles (manager.sleep n w) ≡ open_handles w
    pub start_dispatcher :
        (name : String) (body : win32.World → win32.World)
        → ((w : win32.World) → open_handles (body w) ≡ open_handles w)
        → Still (manager.start_dispatcher name body)
    pub reg_get_value : (n : ℕ) → Still (setup.reg_get_value n)
    pub set_dll_directory : (path : List ℕ) → Still (setup.set_dll_directory path)
    pub parsed : (w : win32.World) → open_handles (process.parse w).1 ≡ open_handles w
    pub init : (w : win32.World) → open_handles (process.winfsp_init_or_die w).1 ≡ open_handles w

  module _ (others : KeepsOthers) where
    open others use {
      local_computer, current_exe, create_service, open_service, set_description, start_service,
      query_state, stop_service, delete_service, slept, start_dispatcher, reg_get_value,
      set_dll_directory,
    }

    pub setup-Keeps : Still (setup_winfsp_dll_path setup)
    unfolding setup_winfsp_dll_path
    setup-Keeps = search (keeps_rules, reg_get_value, set_dll_directory) depth 8

    pub install_service-Keeps : Still (install_service manager)
    unfolding install_service
    install_service-Keeps =
        Keeps-bind win32 open_handles (map_err plain (manager.local_computer (create_access ∷ [])))
          _ (search (keeps_rules, local_computer))
          λ m.
            Keeps-bind win32 open_handles (map_err plain manager.current_exe) _
              (Keeps-map_err win32 open_handles plain manager.current_exe current_exe)
              λ path. search (keeps_rules, create_service, set_description, start_service) depth 12

    stop_if_needed-Keeps :
        (s : manager.Service) (state : ServiceState) → Still (stop_if_needed manager s state)
    unfolding stop_if_needed
    stop_if_needed-Keeps s state = record {
      at = λ w. elim (Bool-cases (is_stopped_state state)) [
        | inl stopped ↦ rw (stopped, stop_if_needed) refl
        | inr runs ↦
            let w' = (manager.stop_service s w).1 in
            let same : open_handles w' ≡ open_handles w = (stop_service s).at w in
            elim (Result-cases (manager.stop_service s w).0) [
              | inl (e, failed) ↦ rw (runs, stop_if_needed) (rw failed same)
              | inr (_, done) ↦ rw (runs, stop_if_needed) (rw done (slept 2000 w' ∙ same))
            ]
      ];
    }

    pub uninstall_service-Keeps : Still (uninstall_service manager)
    unfolding uninstall_service
    uninstall_service-Keeps =
        search
          (
            keeps_rules, local_computer, open_service, query_state, stop_if_needed-Keeps,
            delete_service,
          )
          depth 14

    pub run_service_dispatcher-Keeps :
        (body : win32.World → win32.World)
        → ((w : win32.World) → open_handles (body w) ≡ open_handles w)
        → Still (run_service_dispatcher manager body)
    unfolding run_service_dispatcher
    run_service_dispatcher-Keeps body same =
        Keeps-map_err win32 open_handles _ _ (start_dispatcher service_name body same)
