-- ===== src/Service/Whole.antt =====
-- src/service.rs over the daemon of src/main.rs: a run of the service's thread with its disks and mounts.
use arfw.Base.{◌≡◌, ◌≢◌, ◌⊎◌, refl, ◌∙◌, true, false, List, [], ◌∷◌, ◌++◌, Result-cases, inl, inr}
use arfw.Disk.Api.{Win32}
use arfw.Disk.Handles.{CountsHandles}
use arfw.Driver.Apfs.{ApfsApi}
use arfw.Driver.Handles.{CountsVolumes}
use arfw.Mount.Manager.{HostApi}
use arfw.Monitor.Handles.{Same}
use arfw.Mount.Owned.{CountsHosts}
use arfw.Daemon.Update.{Daemon, scan_and_update}
use arfw.Daemon.Loop.{
  initial, Turn, event, disconnected, timeout, WatcherApi, Run, no_watcher, waiting, finished,
  run_loop, any_ends, run_daemon_internal, run_loop-any_ends,
}
use arfw.Daemon.Owned.{KeepsHandles, Leaves, run_daemon_internal-Leaves}
use arfw.Service.Run.{ServiceApi, service_main}
use arfw.Service.Daemon.{with_daemon}
use arfw.Service.Handles.{KeepsService, run_service-keeps}

module _ (api : Win32) (crate : ApfsApi api) (winfsp : HostApi api crate) (watch : WatcherApi api)
    (service : ServiceApi api.World) (from : watch.WatcherError → service.Error) where
  -- A run that meets a shutdown request does not wait.
  any_ends-shutdown :
      (turns : List Turn) → any_ends api crate winfsp (turns ++ (timeout true ∷ [])) ≡ true
  any_ends-shutdown [] = refl
  any_ends-shutdown (event e ∷ turns) = any_ends-shutdown turns
  any_ends-shutdown (disconnected ∷ turns) = refl
  any_ends-shutdown (timeout true ∷ turns) = refl
  any_ends-shutdown (timeout false ∷ turns) = any_ends-shutdown turns

  ended-waiting :
      (turns : List Turn) (w : api.World) (s : Daemon api crate winfsp)
      → any_ends api crate winfsp turns ≡ true
      → (run_daemon_internal api crate winfsp watch turns w).0 ≢ waiting s
  unfolding run_daemon_internal
  ended-waiting turns w s ends is_waiting =
      let w₁ = (watch.new_watcher w).1 in
      let (s₁, w₂) = scan_and_update api crate winfsp (initial api crate winfsp) w₁ in
      let over : (run_loop api crate winfsp turns s₁ w₂).0 ≡ true =
        run_loop-any_ends api crate winfsp turns s₁ w₂ ∙ ends in
      elim (Result-cases (watch.new_watcher w).0) [
        | inl (e, failed) ↦ absurd (let h = rw (failed, run_daemon_internal) at is_waiting in cc)
        | inr (watcher, made) ↦
            absurd
              (let h = rw (made, run_daemon_internal) at is_waiting in let h' = rw over at h in cc)
      ]

  module _ (counts : CountsHandles api) (volumes : CountsVolumes crate counts)
      (hosts : CountsHosts winfsp volumes) where
    -- A run waits, or what it leaves is nothing.
    Run-cases :
        (run : Run api crate winfsp watch)
        → ((s : Daemon api crate winfsp) × (run ≡ waiting s))
          ⊎ ((w w' : api.World)
              → Leaves api crate winfsp counts volumes hosts watch w run w'
              → Same api counts w w')
    Run-cases (no_watcher e) = inr (λ w w' h. h)
    Run-cases (waiting s) = inl (s, refl)
    Run-cases (finished s) = inr (λ w w' h. h)

    module _
        (watcher : (x : api.Handle) → KeepsHandles api crate winfsp (λ w. counts.opens x w) watch)
        (keeps : (x : api.Handle) → KeepsService service (λ w. counts.opens x w))
        (turns : List Turn) where
      abbrev ended_service : ServiceApi api.World
      ended_service = with_daemon api crate winfsp watch service from turns

      daemon-closes : (w : api.World) → Same api counts w (ended_service.run_daemon_internal w).1
      unfolding run_daemon_internal
      daemon-closes w =
          let all = turns ++ (timeout true ∷ []) in
          let (run, w') = run_daemon_internal api crate winfsp watch all w in
          let leaves =
            run_daemon_internal-Leaves api crate winfsp counts volumes hosts watch watcher all w in
          elim (Run-cases run) [
            | inl (s, waits) ↦ absurd (ended-waiting all w s (any_ends-shutdown turns) waits)
            | inr ends ↦ ends w w' leaves
          ]

      kept : (x : api.Handle) → KeepsService ended_service (λ w. counts.opens x w)
      kept x = record {
        registered = (keeps x).registered;
        reported = (keeps x).reported;
        init = (keeps x).init;
        init_or_die = (keeps x).init_or_die;
        slept = (keeps x).slept;
      }

      -- Where handles live as documented, where a driver, a host and the watcher drop what they own, and where the
      -- service manager, the clock and WinFsp's library have none, every handle is as often open when the thread of
      -- the service returns as when it starts: whether WinFsp comes or not, whichever report is refused, and
      -- whatever turns the daemon meets before the shutdown request.
      pub service_main-closes : (w : api.World) → Same api counts w (service_main ended_service w)
      unfolding service_main
      service_main-closes w x =
          run_service-keeps ended_service (λ w'. counts.opens x w') (kept x)
            (λ w'. daemon-closes w' x) w
