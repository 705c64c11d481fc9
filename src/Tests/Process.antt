-- ===== src/Tests/Process.antt =====
-- The theorems about the handles of the process and of the service's thread at concrete data.
use arfw.Base.{[], ◌∷◌, refl, true, some, ok}
use arfw.Base.Text.{codes}
use arfw.Monitor.Handles.{Same}
use arfw.Watcher.Watch.{WatchApi}
use arfw.Watcher.Interface.{KeepsWatch}
use arfw.Service.Install.{ManagerApi}
use arfw.Service.Run.{running, ServiceApi, service_main}
use arfw.Service.Handles.{KeepsService}
use arfw.Service.Daemon.{with_daemon}
use arfw.Service.Whole.{service_main-closes}
use arfw.Main.Setup.{SetupApi}
use arfw.Main.Manual.{SignalApi}
use arfw.Main.Owned.{KeepsSignal}
use arfw.Main.Command.{daemon, ProcessApi, Outside, main}
use arfw.Main.Keeps.{KeepsOthers}
use arfw.Main.Leaves.{Closes, main-Closes}
use arfw.Tests.Owned.{
  Handle, Handles, counter, number, crate, winfsp, turns, handle_counts, volume_counts, host_counts,
  watch, watch-KeepsHandles,
}

abbrev signal : SignalApi Handles
signal = record { SignalError = Unit {0}; set_handler = λ w. (ok tt, w); recv = λ w. (ok tt, w) }

abbrev manager : ManagerApi Handles
manager = record {
  Error = Unit {0};
  ExePath = Unit {0};
  Manager = Unit {0};
  Service = Unit {0};
  local_computer = λ access w. (ok tt, w);
  current_exe = λ w. (ok tt, w);
  create_service = λ m info access w. (ok tt, w);
  open_service = λ m name access w. (ok tt, w);
  set_description = λ s text w. (ok tt, w);
  start_service = λ s w. (ok tt, w);
  query_state = λ s w. (ok running, w);
  stop_service = λ s w. (ok tt, w);
  delete_service = λ s w. (ok tt, w);
  sleep = λ n w. w;
  start_dispatcher = λ name body w. (ok tt, body w);
}

abbrev setup : SetupApi Handles
setup = record {
  WindowsError = Unit {0};
  reg_get_value = λ n w. (ok (codes "C:\\WinFsp"), w);
  set_dll_directory = λ path w. (ok tt, w);
}

abbrev process : ProcessApi Handles
process = record {
  parse = λ w. (some (some (daemon true)), w);
  winfsp_init_or_die = λ w. (true, w);
}

abbrev notifications : WatchApi Handles
notifications = record {
  Sender = Unit {0};
  Pointer = Unit {0};
  Notification = Unit {0};
  into_raw = λ sender w. (tt, w);
  drop_box = λ p w. w;
  deref = λ p w. tt;
  send = λ sender event w. w;
  register = λ p w. (ok tt, w);
  unregister = λ handle w. w;
}

abbrev service : ServiceApi Handles
service = record {
  Error = Unit {0};
  register = λ w. (ok tt, w);
  set_service_status = λ status w. (ok tt, w);
  winfsp_init = λ w. (true, w);
  winfsp_init_or_die = λ w. (true, w);
  now = λ w. 0;
  sleep = λ n w. w;
  run_daemon_internal = λ w. (ok tt, w);
}

abbrev outside : Outside
outside = record {
  win32 = counter;
  crate = crate;
  winfsp = winfsp;
  notifications = notifications;
  device_tx = tt;
  signal = signal;
  manager = manager;
  setup = setup;
  process = process;
  thread = service;
  from = λ e. tt;
}

notifications-KeepsWatch : (x : Handle) → KeepsWatch counter notifications (λ w. number x w.1)
notifications-KeepsWatch x = record {
  boxed = λ sender w. refl;
  freed = λ p w. refl;
  registered = λ p w. refl;
  unregistered = λ handle w. refl;
}

signal-KeepsSignal : (x : Handle) → KeepsSignal counter crate winfsp (λ w. number x w.1) signal
signal-KeepsSignal x = record { handled = λ w. refl; received = λ w. refl }

outside-KeepsOthers : (x : Handle) → KeepsOthers outside (λ w. number x w.1)
outside-KeepsOthers x = record {
  local_computer = λ access. record { at = λ w. refl };
  current_exe = record { at = λ w. refl };
  create_service = λ m info access. record { at = λ w. refl };
  open_service = λ m name access. record { at = λ w. refl };
  set_description = λ s text. record { at = λ w. refl };
  start_service = λ s. record { at = λ w. refl };
  query_state = λ s. record { at = λ w. refl };
  stop_service = λ s. record { at = λ w. refl };
  delete_service = λ s. record { at = λ w. refl };
  slept = λ n w. refl;
  start_dispatcher = λ name body same. record { at = same };
  reg_get_value = λ n. record { at = λ w. refl };
  set_dll_directory = λ path. record { at = λ w. refl };
  parsed = λ w. refl;
  init = λ w. refl;
}

service-KeepsService : (x : Handle) → KeepsService service (λ w. number x w.1)
service-KeepsService x = record {
  registered = λ w. refl;
  reported = λ status w. refl;
  init = λ w. refl;
  init_or_die = λ w. refl;
  slept = λ n w. refl;
}

-- One handle that is not the program's is open.
abbrev begun : Handles
begun = (1, (0, []) ∷ [])

main-Closes_example :
    let (ended, w') = main outside turns begun in
    Closes outside handle_counts volume_counts host_counts begun ended w'
main-Closes_example =
    main-Closes outside handle_counts volume_counts host_counts notifications-KeepsWatch
      signal-KeepsSignal service-KeepsService outside-KeepsOthers turns begun

service_main-closes_example :
    Same counter handle_counts begun
      (service_main (with_daemon counter crate winfsp watch service (λ e. e) turns) begun)
service_main-closes_example =
    service_main-closes counter crate winfsp watch service (λ e. e) handle_counts volume_counts
      host_counts watch-KeepsHandles service-KeepsService turns begun
