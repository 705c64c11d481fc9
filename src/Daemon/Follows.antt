-- ===== src/Daemon/Follows.antt =====
-- The loop of the daemon in src/main.rs after its last event.
use arfw.Base.{ℕ, ◌≡◌, refl, Bool, true, false, List, [], ◌∷◌, ◌++◌, ok}
use arfw.Disk.Api.{Win32}
use arfw.Driver.Apfs.{ApfsApi}
use arfw.Monitor.Scan.{ApfsPartition, scan_apfs_partitions}
use arfw.Mount.Manager.{HostApi, is_mounted}
use arfw.Daemon.KeySet.{contains}
use arfw.Daemon.Update.{Daemon, scan_and_update}
use arfw.Daemon.Agree.{Agrees, scan_and_update-Agrees}
use arfw.Daemon.Sync.{keys, scan_and_update-current}
use arfw.Daemon.Loop.{
  DeviceEvent, Turn, event, disconnected, timeout, added, removed, run_loop, any_ends,
}

-- Turns without an event.
abbrev pub no_event : List Turn → Bool
no_event [] = true
no_event (event e ∷ turns) = false
no_event (disconnected ∷ turns) = no_event turns
no_event (timeout shutdown ∷ turns) = no_event turns

module _ (api : Win32) (crate : ApfsApi api) (winfsp : HostApi api crate) where
  -- Turns without an event leave what is mounted.
  run_loop-no_event :
      (turns : List Turn) (s : Daemon api crate winfsp) (w : api.World)
      → no_event turns ≡ true
      → (run_loop api crate winfsp turns s w).1 ≡ s
  unfolding run_loop
  run_loop-no_event [] s w h = refl
  run_loop-no_event (event e ∷ turns) s w h = absurd (cc)
  run_loop-no_event (disconnected ∷ turns) s w h = refl
  run_loop-no_event (timeout true ∷ turns) s w h = refl
  run_loop-no_event (timeout false ∷ turns) s w h = run_loop-no_event turns s w h

  -- After the last event of the turns, none before it having ended the loop, only partitions are mounted that the
  -- scan made for that event has found, whether the event is an arrival or a removal, and whether the loop ends
  -- later or waits. The known partitions are the mounted ones at the start.
  pub run_loop-current :
      (earlier later : List Turn) (e : DeviceEvent) (s : Daemon api crate winfsp) (w : api.World)
      (partitions : List ApfsPartition) (d p : ℕ)
      → Agrees api crate winfsp s
      → any_ends api crate winfsp earlier ≡ false
      → no_event later ≡ true
      → (scan_apfs_partitions api (run_loop api crate winfsp earlier s w).2).0 ≡ ok partitions
      → is_mounted api crate winfsp
          (run_loop api crate winfsp (earlier ++ (event e ∷ later)) s w).1.mounts
          d
          p
        ≡ true
      → contains (d, p) (keys partitions) ≡ true
  unfolding run_loop
  run_loop-current [] later added s w partitions d p agrees goes quiet found h =
      let (s', w') = scan_and_update api crate winfsp s w in
      scan_and_update-current api crate winfsp s w partitions d p agrees found
        (rw (run_loop-no_event later s' w' quiet) at h)
  run_loop-current [] later removed s w partitions d p agrees goes quiet found h =
      let (s', w') = scan_and_update api crate winfsp s w in
      scan_and_update-current api crate winfsp s w partitions d p agrees found
        (rw (run_loop-no_event later s' w' quiet) at h)
  run_loop-current (event added ∷ earlier) later e s w partitions d p agrees goes quiet found h =
      run_loop-current earlier later e _ _ partitions d p
        (scan_and_update-Agrees api crate winfsp s w agrees) goes quiet found h
  run_loop-current (event removed ∷ earlier) later e s w partitions d p agrees goes quiet found h =
      run_loop-current earlier later e _ _ partitions d p
        (scan_and_update-Agrees api crate winfsp s w agrees) goes quiet found h
  run_loop-current (disconnected ∷ earlier) later e s w partitions d p agrees goes quiet found h =
      absurd (cc)
  run_loop-current (timeout true ∷ earlier) later e s w partitions d p agrees goes quiet found h =
      absurd (cc)
  run_loop-current (timeout false ∷ earlier) later e s w partitions d p agrees goes quiet found h =
      run_loop-current earlier later e s w partitions d p agrees goes quiet found h
