-- ===== src/Daemon/Owned.antt =====
-- The handles that the daemon of src/main.rs owns, over a whole run.
use arfw.Base.{
  ℕ, ◌+◌, ◌≤◌, ◌≡◌, ◌∙◌, true, false, List, [], ◌∷◌, ok, map, Bool-cases, Option-cases,
  Result-cases, inl, inr, arith,
}
use arfw.Disk.Api.{Win32}
use arfw.Disk.Handles.{CountsHandles}
use arfw.Driver.Apfs.{ApfsApi}
use arfw.Driver.Handles.{CountsVolumes}
use arfw.Monitor.Scan.{ApfsPartition, scan_apfs_partitions, find_available_drive_letters}
use arfw.Monitor.Letters.{first}
use arfw.Monitor.Handles.{Same, scan_apfs_partitions_lem}
use arfw.Mount.Manager.{HostApi, Mounts, mount_partition}
use arfw.Mount.Owned.{CountsHosts, Owns, held_all, mount_partition-Owns, unmount_partition-Owns}
use arfw.Daemon.KeySet.{Key, contains, difference}
use arfw.Daemon.Update.{
  Daemon, partition_key, mount_if_new, mount_new, unmount_removed, update, scan_and_update,
}
use arfw.Daemon.Loop.{
  Turn, event, disconnected, timeout, added, removed, WatcherApi, run_loop, drop_manager, initial,
  Run, no_watcher, waiting, finished, run_daemon_internal,
}

module _ (api : Win32) (crate : ApfsApi api) (winfsp : HostApi api crate)
    (open_handles : api.World → ℕ) where
  -- A watcher has no handle of a file.
  pub record KeepsHandles (watch : WatcherApi api) : Type 0 where
    pub made : (w : api.World) → open_handles (watch.new_watcher w).1 ≡ open_handles w
    pub dropped :
        (watcher : watch.Watcher) (w : api.World)
        → open_handles (watch.drop_watcher watcher w) ≡ open_handles w

module _ (api : Win32) (crate : ApfsApi api) (winfsp : HostApi api crate)
    (counts : CountsHandles api) (volumes : CountsVolumes crate counts)
    (hosts : CountsHosts winfsp volumes) where
  module _ (others : api.Handle → ℕ) where
    mount_if_new-Owns :
        (partition : ApfsPartition) (s : Daemon api crate winfsp) (w : api.World)
        → Owns api crate winfsp counts volumes hosts others s.mounts w
        → let (s', w') = mount_if_new api crate winfsp partition s w in
          Owns api crate winfsp counts volumes hosts others s'.mounts w'
    unfolding mount_if_new
    mount_if_new-Owns partition s w owns =
        elim (Bool-cases (contains (partition_key partition) s.known_partitions)) [
          | inl old ↦ rw (old, mount_if_new) owns
          | inr new ↦ elim (Option-cases (first (find_available_drive_letters api w))) [
            | inl none_free ↦ rw (new, mount_if_new) (rw none_free owns)
            | inr (letter, free) ↦
                let kept =
                  mount_partition-Owns api crate winfsp counts volumes hosts others s.mounts
                    partition letter w owns in
                elim (Result-cases
                  (mount_partition api crate winfsp s.mounts partition letter w).0) [
                    | inl (e, refused) ↦ rw (new, mount_if_new) (rw free (rw refused kept))
                    | inr (_, mounted) ↦ rw (new, mount_if_new) (rw free (rw mounted kept))
                  ]
          ]
        ]

    mount_new-Owns :
        (partitions : List ApfsPartition) (s : Daemon api crate winfsp) (w : api.World)
        → Owns api crate winfsp counts volumes hosts others s.mounts w
        → let (s', w') = mount_new api crate winfsp partitions s w in
          Owns api crate winfsp counts volumes hosts others s'.mounts w'
    unfolding mount_new
    mount_new-Owns [] s w owns = owns
    mount_new-Owns (partition ∷ rest) s w owns =
        let (s', w') = mount_if_new api crate winfsp partition s w in
        mount_new-Owns rest s' w' (mount_if_new-Owns partition s w owns)

    unmount_removed-Owns :
        (removed_keys : List Key) (s : Daemon api crate winfsp) (w : api.World)
        → Owns api crate winfsp counts volumes hosts others s.mounts w
        → let (s', w') = unmount_removed api crate winfsp removed_keys s w in
          Owns api crate winfsp counts volumes hosts others s'.mounts w'
    unfolding unmount_removed
    unmount_removed-Owns [] s w owns = owns
    unmount_removed-Owns ((d, p) ∷ rest) s w owns =
        unmount_removed-Owns rest _ _
          (unmount_partition-Owns api crate winfsp counts volumes hosts others s.mounts d p w owns)

    scan_and_update-Owns :
        (s : Daemon api crate winfsp) (w : api.World)
        → Owns api crate winfsp counts volumes hosts others s.mounts w
        → let (s', w') = scan_and_update api crate winfsp s w in
          Owns api crate winfsp counts volumes hosts others s'.mounts w'
    unfolding scan_and_update update
    scan_and_update-Owns s w owns =
        let (found, w', scanned, kept, _) = scan_apfs_partitions_lem api counts w in
        let w₁ = (scan_apfs_partitions api w).1 in
        let answer : (scan_apfs_partitions api w).0 ≡ ok found = λ i. (scanned i).0 in
        let same : (x : api.Handle) → counts.opens x w₁ ≡ counts.opens x w =
          λ x. (λ i. counts.opens x (scanned i).1) ∙ kept x in
        let owns₁ : Owns api crate winfsp counts volumes hosts others s.mounts w₁ = record {
          distinct = owns.distinct;
          counted = λ x. same x ∙ owns.counted x;
        } in
        let (s', w₂) = mount_new api crate winfsp found s w₁ in
        let gone = difference s'.known_partitions (map partition_key found) in
        rw (answer, scan_and_update)
          (unmount_removed-Owns gone s' w₂ (mount_new-Owns found s w₁ owns₁))

    run_loop-Owns :
        (turns : List Turn) (s : Daemon api crate winfsp) (w : api.World)
        → Owns api crate winfsp counts volumes hosts others s.mounts w
        → let (ended, s', w') = run_loop api crate winfsp turns s w in
          Owns api crate winfsp counts volumes hosts others s'.mounts w'
    unfolding run_loop
    run_loop-Owns [] s w owns = owns
    run_loop-Owns (event added ∷ turns) s w owns =
        let (s', w') = scan_and_update api crate winfsp s w in
        run_loop-Owns turns s' w' (scan_and_update-Owns s w owns)
    run_loop-Owns (event removed ∷ turns) s w owns =
        let (s', w') = scan_and_update api crate winfsp s w in
        run_loop-Owns turns s' w' (scan_and_update-Owns s w owns)
    run_loop-Owns (disconnected ∷ turns) s w owns = owns
    run_loop-Owns (timeout true ∷ turns) s w owns = owns
    run_loop-Owns (timeout false ∷ turns) s w owns = run_loop-Owns turns s w owns

    -- What the mounts have is open.
    abbrev Has : Mounts api crate winfsp → api.World → Type 0
    Has mounts w =
        (x : api.Handle)
        → held_all api crate winfsp counts volumes hosts x mounts ≤ counts.opens x w

    drop_manager-closes :
        (mounts : Mounts api crate winfsp) (w : api.World)
        → Has mounts w
        → (x : api.Handle)
        → counts.opens x (drop_manager api crate winfsp mounts w)
            + held_all api crate winfsp counts volumes hosts x mounts
          ≡ counts.opens x w
    unfolding drop_manager
    drop_manager-closes [] w has x = omega arith
    drop_manager-closes ((k, volume) ∷ mounts) w has x =
        let w' = winfsp.drop_host volume.host w in
        let dropped = hosts.dropped volume.host w (λ y. omega (arith, has y)) in
        let rest = drop_manager-closes mounts w' (λ y. omega (arith, has y, dropped y)) x in
        omega (arith, dropped x, rest)

  -- What a run leaves open: while it waits, what was open and the handles of its mounts, and at its end what was
  -- open. This is said of every handle.
  abbrev pub Leaves :
      (watch : WatcherApi api) → api.World → Run api crate winfsp watch → api.World → Type 0
  Leaves watch w (no_watcher e) w' = Same api counts w w'
  Leaves watch w (waiting s) w' =
      (x : api.Handle)
      → counts.opens x w'
        ≡ counts.opens x w + held_all api crate winfsp counts volumes hosts x s.mounts
  Leaves watch w (finished s) w' = Same api counts w w'

  module _ (watch : WatcherApi api)
      (keeps : (x : api.Handle) → KeepsHandles api crate winfsp (λ w. counts.opens x w) watch) where
    -- A run of the daemon closes each handle that it opens, by its identity.
    pub run_daemon_internal-Leaves :
        (turns : List Turn) (w : api.World)
        → let (run, w') = run_daemon_internal api crate winfsp watch turns w in
          Leaves watch w run w'
    unfolding run_daemon_internal
    run_daemon_internal-Leaves turns w =
        let (registered, w₁) = watch.new_watcher w in
        let others : api.Handle → ℕ = λ x. counts.opens x w in
        elim (Result-cases registered) [
          | inl (e, failed) ↦ rw (failed, run_daemon_internal) (λ x. (keeps x).made w)
          | inr (watcher, made) ↦
              let start : Owns api crate winfsp counts volumes hosts others [] w₁ = record {
                distinct = tt;
                counted = λ x. omega (arith, (keeps x).made w);
              } in
              let (s, w₂) = scan_and_update api crate winfsp (initial api crate winfsp) w₁ in
              let scanned = scan_and_update-Owns others (initial api crate winfsp) w₁ start in
              let (ended, s', w₃) = run_loop api crate winfsp turns s w₂ in
              let looped = run_loop-Owns others turns s w₂ scanned in
              let w₄ = watch.drop_watcher watcher w₃ in
              elim (Bool-cases ended) [
                | inr more ↦ rw (made, run_daemon_internal) (rw more looped.counted)
                | inl over ↦
                    let dropped =
                      drop_manager-closes others s'.mounts w₄
                        (λ y. omega (arith, looped.counted y, (keeps y).dropped watcher w₃)) in
                    rw (made, run_daemon_internal)
                      (rw over λ x.
                        omega (arith, looped.counted x, (keeps x).dropped watcher w₃, dropped x))
              ]
        ]
