-- ===== src/Service/Daemon.antt =====
-- src/service.rs over the daemon of src/main.rs: the service whose `run_daemon_internal` is the daemon.
use arfw.Base.{true, List, [], ◌∷◌, ◌++◌, ok, err, Result}
use arfw.Disk.Api.{Win32}
use arfw.Driver.Apfs.{ApfsApi}
use arfw.Mount.Manager.{HostApi}
use arfw.Daemon.Loop.{
  Turn, timeout, WatcherApi, Run, no_watcher, waiting, finished, run_daemon_internal,
}
use arfw.Service.Run.{ServiceApi}

module _ (api : Win32) (crate : ApfsApi api) (winfsp : HostApi api crate) (watch : WatcherApi api)
    (service : ServiceApi api.World) (from : watch.WatcherError → service.Error) where
  -- How the daemon returns to the service; `from` is the conversion that `?` makes. A run that waits has not
  -- returned; with the turns below none does.
  abbrev pub returned : Run api crate winfsp watch → Result service.Error (Unit {0})
  returned (no_watcher e) = err (from e)
  returned (waiting s) = ok tt
  returned (finished s) = ok tt

  -- The service with the daemon, whose loop meets these turns and then a shutdown request.
  abbrev pub with_daemon : List Turn → ServiceApi api.World
  with_daemon turns = record service {
    run_daemon_internal = λ w.
        let (run, w') =
          run_daemon_internal api crate winfsp watch (turns ++ (timeout true ∷ [])) w in
        (returned run, w');
  }
