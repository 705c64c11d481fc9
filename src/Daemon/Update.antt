-- ===== src/Daemon/Update.antt =====
-- src/main.rs: `scan_and_update`.
use arfw.Base.{none, some, List, [], ◌∷◌, ok, err, map, if◌then◌else◌}
use arfw.Disk.Api.{Win32}
use arfw.Driver.Apfs.{ApfsApi}
use arfw.Monitor.Scan.{ApfsPartition, scan_apfs_partitions, find_available_drive_letters}
use arfw.Monitor.Letters.{first}
use arfw.Mount.Manager.{HostApi, Mounts, mount_partition, unmount_partition}
use arfw.Daemon.KeySet.{Key, contains, insert, remove, difference}

abbrev pub partition_key : ApfsPartition → Key
partition_key partition = (partition.disk_number, partition.partition_number)

module _ (api : Win32) (crate : ApfsApi api) (winfsp : HostApi api crate) where
  pub record Daemon : Type 0 where
    pub mounts : Mounts api crate winfsp
    pub known_partitions : List Key

  -- The body of the loop that mounts.
  unfoldable pub mount_if_new : ApfsPartition → Daemon → api.World → Daemon × api.World
  mount_if_new partition s w =
      if contains (partition_key partition) s.known_partitions
      then (s, w)
      else (elim (first (find_available_drive_letters api w)) [
        | none ↦ (s, w)
        | some drive_letter ↦
            let (result, mounts', w') =
              mount_partition api crate winfsp s.mounts partition drive_letter w in
            elim result [
              | ok _ ↦ (
                record {
                  mounts = mounts';
                  known_partitions = insert (partition_key partition) s.known_partitions;
                },
                w',
              )
              | err _ ↦ (record s { mounts = mounts' }, w')
            ]
      ])

  unfoldable pub mount_new : List ApfsPartition → Daemon → api.World → Daemon × api.World
  unfolding mount_if_new
  mount_new [] s w = (s, w)
  mount_new (partition ∷ rest) s w =
      let (s', w') = mount_if_new partition s w in mount_new rest s' w'

  unfoldable pub unmount_removed : List Key → Daemon → api.World → Daemon × api.World
  unmount_removed [] s w = (s, w)
  unmount_removed ((disk_num, partition_num) ∷ rest) s w =
      let (mounts', w') = unmount_partition api crate winfsp s.mounts disk_num partition_num w in
      let s' : Daemon = record {
        mounts = mounts';
        known_partitions = remove (disk_num, partition_num) s.known_partitions;
      } in
      unmount_removed rest s' w'

  -- What follows a scan that found `partitions`.
  unfoldable pub update : List ApfsPartition → Daemon → api.World → Daemon × api.World
  unfolding mount_new unmount_removed
  update partitions s w =
      let current_partitions = map partition_key partitions in
      let (s', w') = mount_new partitions s w in
      let removed = difference s'.known_partitions current_partitions in
      unmount_removed removed s' w'

  unfoldable pub scan_and_update : Daemon → api.World → Daemon × api.World
  unfolding update
  scan_and_update s w =
      let (result, w') = scan_apfs_partitions api w in
      elim result [ ok partitions ↦ update partitions s w' | err _ ↦ (s, w') ]
