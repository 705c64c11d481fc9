-- ===== src/Daemon/Loop.antt =====
-- src/main.rs: `run_daemon_internal`. What the loop's `select!` meets is a list of its turns.
use arfw.Base.{◌≡◌, refl, Bool, true, false, List, [], ◌∷◌, ok, err, Result}
use arfw.Disk.Api.{Win32}
use arfw.Driver.Apfs.{ApfsApi}
use arfw.Mount.Manager.{HostApi, Mounts}
use arfw.Daemon.Update.{Daemon, scan_and_update}

pub data DeviceEvent : Type 0 where
  added removed : DeviceEvent

-- One turn of the loop: an event, the end of the events' channel, or 100 ms with neither, after which a
-- shutdown request is there or not.
pub data Turn : Type 0 where
  event : DeviceEvent → Turn
  disconnected : Turn
  timeout : Bool → Turn

-- The registration with the device manager, in src/device_watcher.rs.
pub record WatcherApi (api : Win32) : Type 1 where
  pub Watcher : Type 0
  pub WatcherError : Type 0
  pub new_watcher : api.World → Result WatcherError Watcher × api.World
  pub drop_watcher : Watcher → api.World → api.World

module _ (api : Win32) (crate : ApfsApi api) (winfsp : HostApi api crate) where
  -- Whether the loop has ended, and the state.
  unfoldable pub run_loop :
      List Turn → Daemon api crate winfsp → api.World → Bool × Daemon api crate winfsp × api.World
  run_loop [] s w = (false, s, w)
  run_loop (event added ∷ turns) s w =
      let (s', w') = scan_and_update api crate winfsp s w in run_loop turns s' w'
  run_loop (event removed ∷ turns) s w =
      let (s', w') = scan_and_update api crate winfsp s w in run_loop turns s' w'
  run_loop (disconnected ∷ turns) s w = (true, s, w)
  run_loop (timeout true ∷ turns) s w = (true, s, w)
  run_loop (timeout false ∷ turns) s w = run_loop turns s w

  -- The manager goes out of scope, and with it the hosts of all mounts.
  unfoldable pub drop_manager : Mounts api crate winfsp → api.World → api.World
  drop_manager [] w = w
  drop_manager ((_, volume) ∷ mounts) w = drop_manager mounts (winfsp.drop_host volume.host w)

  abbrev pub initial : Daemon api crate winfsp
  initial = record { mounts = []; known_partitions = [] }

  -- How far a run has got: no watcher, waiting for more turns, or at its end.
  pub data Run (watch : WatcherApi api) : Type 0 where
    no_watcher : watch.WatcherError → Run watch
    waiting : Daemon api crate winfsp → Run watch
    finished : Daemon api crate winfsp → Run watch

  unfoldable pub run_daemon_internal :
      (watch : WatcherApi api) → List Turn → api.World → Run watch × api.World
  unfolding run_loop drop_manager
  run_daemon_internal watch turns w =
      let (registered, w₁) = watch.new_watcher w in
      elim registered [
        | err e ↦ (no_watcher e, w₁)
        | ok watcher ↦
            let (s, w₂) = scan_and_update api crate winfsp initial w₁ in
            let (ended, s', w₃) = run_loop turns s w₂ in
            elim ended [
              | false ↦ (waiting s', w₃)
              | true ↦ (finished s', drop_manager s'.mounts (watch.drop_watcher watcher w₃))
            ]
      ]

  -- A turn that ends the loop.
  abbrev pub ends : Turn → Bool
  ends (event e) = false
  ends disconnected = true
  ends (timeout shutdown) = shutdown

  abbrev pub any_ends : List Turn → Bool
  any_ends [] = false
  any_ends (turn ∷ turns) = elim (ends turn) [ true ↦ true | false ↦ any_ends turns ]

  -- The loop ends if one of its turns does.
  pub run_loop-any_ends :
      (turns : List Turn) (s : Daemon api crate winfsp) (w : api.World)
      → (run_loop turns s w).0 ≡ any_ends turns
  unfolding run_loop
  run_loop-any_ends [] s w = refl
  run_loop-any_ends (event added ∷ turns) s w = run_loop-any_ends turns _ _
  run_loop-any_ends (event removed ∷ turns) s w = run_loop-any_ends turns _ _
  run_loop-any_ends (disconnected ∷ turns) s w = refl
  run_loop-any_ends (timeout true ∷ turns) s w = refl
  run_loop-any_ends (timeout false ∷ turns) s w = run_loop-any_ends turns s w
