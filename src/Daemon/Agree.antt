-- ===== src/Daemon/Agree.antt =====
-- The daemon's set of known partitions, the manager's mounts and the partitions of the last scan.
use arfw.Base.{
  ℕ, ◌≡◌, refl, sym, ap, ◌∙◌, true, false, not, ◌&&◌, ◌||◌, none, List, [], ◌∷◌, ok, err, map,
  Bool-cases, Option-cases, Result-cases, inl, inr,
}
use arfw.Disk.Api.{Win32}
use arfw.Driver.Apfs.{ApfsApi}
use arfw.Monitor.Scan.{ApfsPartition, scan_apfs_partitions, find_available_drive_letters}
use arfw.Monitor.Letters.{first}
use arfw.Mount.Manager.{HostApi, MountError, mount_partition, is_mounted}
use arfw.Mount.Keys.{is_mounted-mount_partition, is_mounted-unmount_partition}
use arfw.Daemon.KeySet.{Key, key_eq, contains, insert, difference, contains-insert, contains-remove}
use arfw.Daemon.Update.{
  Daemon, partition_key, mount_if_new, mount_new, unmount_removed, update, scan_and_update,
}

module _ (api : Win32) (crate : ApfsApi api) (winfsp : HostApi api crate) where
  -- The partitions that the daemon knows are the ones that the manager has mounted.
  abbrev pub Agrees : Daemon api crate winfsp → Type 0
  Agrees s =
      (d p : ℕ) → contains (d, p) s.known_partitions ≡ is_mounted api crate winfsp s.mounts d p

  -- How the loop's body can go for a partition, and the state that it leaves.
  pub data Mounting (partition : ApfsPartition) (s : Daemon api crate winfsp) (w : api.World)
      (s' : Daemon api crate winfsp) : Type 0 where
    known :
        contains (partition_key partition) s.known_partitions ≡ true
        → s' ≡ s
        → Mounting partition s w s'
    no_letter :
        contains (partition_key partition) s.known_partitions ≡ false
        → first (find_available_drive_letters api w) ≡ none
        → s' ≡ s
        → Mounting partition s w s'
    failed :
        contains (partition_key partition) s.known_partitions ≡ false
        → (letter : ℕ) (e : MountError api crate winfsp)
        → (mount_partition api crate winfsp s.mounts partition letter w).0 ≡ err e
        → s'
          ≡ record s { mounts = (mount_partition api crate winfsp s.mounts partition letter w).1 }
        → Mounting partition s w s'
    mounted :
        contains (partition_key partition) s.known_partitions ≡ false
        → (letter : ℕ) → (mount_partition api crate winfsp s.mounts partition letter w).0 ≡ ok tt
        → s' ≡ record {
          mounts = (mount_partition api crate winfsp s.mounts partition letter w).1;
          known_partitions = insert (partition_key partition) s.known_partitions;
        }
        → Mounting partition s w s'

  pub mount_if_new-Mounting :
      (partition : ApfsPartition) (s : Daemon api crate winfsp) (w : api.World)
      → Mounting partition s w (mount_if_new api crate winfsp partition s w).0
  unfolding mount_if_new
  mount_if_new-Mounting partition s w =
      elim (Bool-cases (contains (partition_key partition) s.known_partitions)) [
        | inl old ↦ known old (rw (old, mount_if_new))
        | inr new ↦ elim (Option-cases (first (find_available_drive_letters api w))) [
          | inl none_free ↦ no_letter new none_free (rw (new, mount_if_new) (rw none_free))
          | inr (letter, free) ↦
              elim (Result-cases (mount_partition api crate winfsp s.mounts partition letter w).0) [
                | inl (e, refused) ↦
                    failed new letter e refused (rw (new, mount_if_new) (rw (free) (rw (refused))))
                | inr (_, done) ↦
                    mounted new letter done (rw (new, mount_if_new) (rw (free) (rw (done))))
              ]
        ]
      ]

  Mounting-Agrees :
      (partition : ApfsPartition) (s s' : Daemon api crate winfsp) (w : api.World)
      → Mounting partition s w s'
      → Agrees s
      → Agrees s'
  Mounting-Agrees partition s s' w (known old e) agrees = rw e agrees
  Mounting-Agrees partition s s' w (no_letter new free e) agrees = rw e agrees
  Mounting-Agrees partition s s' w (failed new letter x refused e) agrees = rw e (λ d p.
      let step = is_mounted-mount_partition api crate winfsp s.mounts partition letter w d p in
      agrees d p ∙ sym (step ∙ rw refused refl))
  Mounting-Agrees partition s s' w (mounted new letter done e) agrees = rw e (λ d p.
      let step = is_mounted-mount_partition api crate winfsp s.mounts partition letter w d p in
      contains-insert (d, p) (partition_key partition) s.known_partitions
      ∙ ap (λ b. key_eq (partition_key partition) (d, p) || b) (agrees d p)
      ∙ sym (step ∙ rw done refl))

  mount_new-Agrees :
      (partitions : List ApfsPartition) (s : Daemon api crate winfsp) (w : api.World)
      → Agrees s
      → Agrees (mount_new api crate winfsp partitions s w).0
  unfolding mount_new
  mount_new-Agrees [] s w agrees = agrees
  mount_new-Agrees (partition ∷ rest) s w agrees =
      mount_new-Agrees rest _ _
        (Mounting-Agrees partition s _ w (mount_if_new-Mounting partition s w) agrees)

  unmount_removed-Agrees :
      (removed : List Key) (s : Daemon api crate winfsp) (w : api.World)
      → Agrees s
      → Agrees (unmount_removed api crate winfsp removed s w).0
  unfolding unmount_removed
  unmount_removed-Agrees [] s w agrees = agrees
  unmount_removed-Agrees ((disk_num, partition_num) ∷ rest) s w agrees =
      unmount_removed-Agrees rest _ _ λ d p.
        contains-remove (d, p) (disk_num, partition_num) s.known_partitions
        ∙ ap (λ b. not (key_eq (disk_num, partition_num) (d, p)) && b) (agrees d p)
        ∙ sym (is_mounted-unmount_partition api crate winfsp s.mounts disk_num partition_num w d p)

  update-Agrees :
      (partitions : List ApfsPartition) (s : Daemon api crate winfsp) (w : api.World)
      → Agrees s
      → Agrees (update api crate winfsp partitions s w).0
  unfolding update
  update-Agrees partitions s w agrees =
      let (s', w') = mount_new api crate winfsp partitions s w in
      unmount_removed-Agrees (difference s'.known_partitions (map partition_key partitions)) s' w'
        (mount_new-Agrees partitions s w agrees)

  -- If the daemon's known partitions are those that the manager has mounted, they are so after a scan
  -- too, whatever the disks, the drive letters and the mounts do.
  pub scan_and_update-Agrees :
      (s : Daemon api crate winfsp) (w : api.World)
      → Agrees s
      → Agrees (scan_and_update api crate winfsp s w).0
  unfolding scan_and_update
  scan_and_update-Agrees s w agrees = elim (Result-cases (scan_apfs_partitions api w).0) [
    | inl (e, refused) ↦ rw (refused, scan_and_update) agrees
    | inr (partitions, found) ↦
        rw (found, scan_and_update)
          (update-Agrees partitions s (scan_apfs_partitions api w).1 agrees)
  ]
