-- ===== src/Main/Leaves.antt =====
-- The handles that the process of src/main.rs opens and closes, whatever its command.
use arfw.Base.{
  refl, ◌∙◌, Bool, false, Option, none, some, List, ok, err, Result-cases, Bool-cases, Option-cases,
  inl, inr, arith,
}
use arfw.Disk.Handles.{CountsHandles}
use arfw.Driver.Handles.{CountsVolumes}
use arfw.Monitor.Handles.{Same}
use arfw.Mount.Owned.{CountsHosts}
use arfw.Daemon.Loop.{Turn, WatcherApi, Run, no_watcher, waiting, finished, run_daemon_internal}
use arfw.Watcher.Interface.{KeepsWatch, watcher_api-KeepsHandles}
use arfw.Daemon.Owned.{KeepsHandles, Leaves, run_daemon_internal-Leaves}
use arfw.Service.Run.{service_main}
use arfw.Service.Handles.{KeepsService}
use arfw.Service.Whole.{service_main-closes}
use arfw.Main.Setup.{setup_winfsp_dll_path}
use arfw.Main.Owned.{KeepsSignal, run_manual_mount-closes}
use arfw.Main.Command.{
  Command, mount, daemon, install, uninstall, service, Outside, watch_of, service_of, run_daemon,
  Ended, no_setup, no_command, no_winfsp, mounted, ran, installed, uninstalled, dispatched,
  dispatch, init_for, main,
}
use arfw.Main.Keeps.{
  KeepsOthers, setup-Keeps, install_service-Keeps, uninstall_service-Keeps,
  run_service_dispatcher-Keeps,
}

module _ (outside : Outside) (counts : CountsHandles outside.win32)
    (volumes : CountsVolumes outside.crate counts)
    (hosts : CountsHosts outside.winfsp volumes) where
  open outside use {
    win32, crate, winfsp, notifications, device_tx, signal, manager, setup, process, thread, from,
  }

  abbrev watch : WatcherApi win32
  watch = watch_of outside

  abbrev Left : win32.World → Run win32 crate winfsp watch → win32.World → Type 0
  Left = Leaves win32 crate winfsp counts volumes hosts watch

  -- What the process leaves open, by how it ends: the daemon's part while its loop waits for turns, and
  -- as much as before otherwise.
  abbrev pub Closes : win32.World → Ended outside → win32.World → Type 0
  Closes w (no_setup e) w' = Same win32 counts w w'
  Closes w no_command w' = Same win32 counts w w'
  Closes w no_winfsp w' = Same win32 counts w w'
  Closes w (mounted r) w' = Same win32 counts w w'
  Closes w (ran (err e)) w' = Same win32 counts w w'
  Closes w (ran (ok run)) w' = Left w run w'
  Closes w (installed r) w' = Same win32 counts w w'
  Closes w (uninstalled r) w' = Same win32 counts w w'
  Closes w (dispatched r) w' = Same win32 counts w w'

  -- The account may begin at any state with the same open handles.
  Leaves-Same :
      (w w₀ w' : win32.World) (run : Run win32 crate winfsp watch)
      → Same win32 counts w₀ w
      → Left w run w'
      → Left w₀ run w'
  Leaves-Same w w₀ w' (no_watcher e) same h = λ x. h x ∙ same x
  Leaves-Same w w₀ w' (waiting s) same h = λ x. omega (arith, same x, h x)
  Leaves-Same w w₀ w' (finished s) same h = λ x. h x ∙ same x

  Closes-Same :
      (w w₀ w' : win32.World) (ended : Ended outside)
      → Same win32 counts w₀ w
      → Closes w ended w'
      → Closes w₀ ended w'
  Closes-Same w w₀ w' (no_setup e) same h = λ x. h x ∙ same x
  Closes-Same w w₀ w' no_command same h = λ x. h x ∙ same x
  Closes-Same w w₀ w' no_winfsp same h = λ x. h x ∙ same x
  Closes-Same w w₀ w' (mounted r) same h = λ x. h x ∙ same x
  Closes-Same w w₀ w' (ran (err e)) same h = λ x. h x ∙ same x
  Closes-Same w w₀ w' (ran (ok run)) same h = Leaves-Same w w₀ w' run same h
  Closes-Same w w₀ w' (installed r) same h = λ x. h x ∙ same x
  Closes-Same w w₀ w' (uninstalled r) same h = λ x. h x ∙ same x
  Closes-Same w w₀ w' (dispatched r) same h = λ x. h x ∙ same x

  module _ (watcher : (x : win32.Handle) → KeepsWatch win32 notifications (λ w. counts.opens x w))
      (signals : (x : win32.Handle) → KeepsSignal win32 crate winfsp (λ w. counts.opens x w) signal)
      (services : (x : win32.Handle) → KeepsService thread (λ w. counts.opens x w))
      (others : (x : win32.Handle) → KeepsOthers outside (λ w. counts.opens x w)) where
    watches : (x : win32.Handle) → KeepsHandles win32 crate winfsp (λ w. counts.opens x w) watch
    watches x =
        watcher_api-KeepsHandles win32 crate winfsp notifications (λ w. counts.opens x w)
          (watcher x) device_tx

    run_daemon-Closes :
        (debug : Bool) (turns : List Turn) (w : win32.World)
        → let (r, w') = run_daemon outside debug turns w in Closes w (ran r) w'
    unfolding run_daemon
    run_daemon-Closes debug turns w =
        let w₁ = (signal.set_handler w).1 in
        let handled : Same win32 counts w w₁ = λ x. (signals x).handled w in
        elim (Result-cases (signal.set_handler w).0) [
          | inl (e, failed) ↦ rw (failed, run_daemon) handled
          | inr (_, set) ↦
              let (run, w₂) = run_daemon_internal win32 crate winfsp watch turns w₁ in
              let leaves =
                run_daemon_internal-Leaves win32 crate winfsp counts volumes hosts watch watches
                  turns w₁ in
              rw (set, run_daemon) (Leaves-Same w₁ w w₂ run handled leaves)
        ]

    dispatch-Closes :
        (command : Option Command) (turns : List Turn) (w : win32.World)
        → let (ended, w') = dispatch outside command turns w in Closes w ended w'
    unfolding dispatch
    dispatch-Closes (some (mount device point volume_index debug)) turns w =
        run_manual_mount-closes win32 crate winfsp counts volumes hosts signal signals device point
          w
    dispatch-Closes (some (daemon debug)) turns w = run_daemon-Closes debug turns w
    dispatch-Closes (some install) turns w = λ x. (install_service-Keeps outside _ (others x)).at w
    dispatch-Closes (some uninstall) turns w =
        λ x. (uninstall_service-Keeps outside _ (others x)).at w
    dispatch-Closes (some service) turns w = λ x.
        (run_service_dispatcher-Keeps outside (λ w'. counts.opens x w') (others x)
            (service_main (service_of outside turns))
            λ w'.
              service_main-closes win32 crate winfsp watch thread from counts volumes hosts watches
                services turns w' x).at
          w
    dispatch-Closes none turns w = run_daemon-Closes false turns w

    init_for-keeps :
        (command : Option Command) (w : win32.World)
        → Same win32 counts w (init_for outside command w).1
    init_for-keeps (some (mount device point volume_index debug)) w = λ x. (others x).init w
    init_for-keeps (some (daemon debug)) w = λ x. (others x).init w
    init_for-keeps (some install) w = λ x. (others x).init w
    init_for-keeps (some uninstall) w = λ x. (others x).init w
    init_for-keeps (some service) w = λ x. refl
    init_for-keeps none w = λ x. (others x).init w

    -- Where handles live as documented, where a driver and a host drop what they own, and where the heap, the
    -- notifications, the registry, the command line's parser and the service manager have none, every handle is as
    -- often open when `main` returns as when it starts, whatever the command is and whichever step fails. While
    -- the daemon waits, the two handles of each mount are open beside these.
    pub main-Closes :
        (turns : List Turn) (w : win32.World)
        → let (ended, w') = main outside turns w in Closes w ended w'
    unfolding main
    main-Closes turns w =
        let w₁ = (setup_winfsp_dll_path setup w).1 in
        let same₁ : Same win32 counts w w₁ = λ x. (setup-Keeps outside _ (others x)).at w in
        elim (Result-cases (setup_winfsp_dll_path setup w).0) [
          | inl (e, failed) ↦ rw (failed, main) same₁
          | inr (_, set) ↦
              let w₂ = (process.parse w₁).1 in
              let same₂ : Same win32 counts w w₂ = λ x. (others x).parsed w₁ ∙ same₁ x in
              elim (Option-cases (process.parse w₁).0) [
                | inl usage ↦ rw (set, main) (rw usage same₂)
                | inr (command, parsed) ↦
                    let (alive, w₃) = init_for outside command w₂ in
                    let same₃ : Same win32 counts w w₃ =
                      λ x. init_for-keeps command w₂ x ∙ same₂ x in
                    elim (Bool-cases alive) [
                      | inr dead ↦ rw (set, main) (rw parsed (rw dead same₃))
                      | inl lives ↦
                          let (ended, w₄) = dispatch outside command turns w₃ in
                          rw (set, main)
                            (rw parsed (
                              rw lives (
                                Closes-Same w₃ w w₄ ended same₃
                                  (dispatch-Closes command turns w₃))))
                    ]
              ]
        ]
