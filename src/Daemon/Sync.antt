-- ===== src/Daemon/Sync.antt =====
-- What is mounted after a scan, against what the scan found.
use arfw.Base.{
  ℕ, ◌≡◌, ◌≢◌, refl, sym, ap, ◌∙◌, Bool, true, false, not, ◌&&◌, none, List, [], ◌∷◌, ok, map,
  arith, Bool-cases, inl, inr,
}
use arfw.Disk.Api.{Win32}
use arfw.Driver.Apfs.{ApfsApi}
use arfw.Monitor.Scan.{ApfsPartition, scan_apfs_partitions, find_available_drive_letters}
use arfw.Monitor.Letters.{first}
use arfw.Mount.Manager.{HostApi, key, get, Mounts, mount_partition, is_mounted}
use arfw.Mount.Keys.{get-mount_partition, get-unmount_partition}
use arfw.Daemon.KeySet.{
  Key, key_eq, contains, contains_same, difference, contains-insert, contains-remove,
  contains-difference,
}
use arfw.Daemon.Update.{
  Daemon, partition_key, mount_if_new, mount_new, unmount_removed, update, scan_and_update,
}
use arfw.Daemon.Agree.{
  Agrees, scan_and_update-Agrees, Mounting, known, no_letter, failed, mounted,
  mount_if_new-Mounting,
}

abbrev pub keys : List ApfsPartition → List Key
keys = map partition_key

only_second : {a b : Bool} → (b ≡ true → a ≡ true) → (a && b) ≡ b
only_second {a} {b = true} h = rw (h refl)
only_second {a} {b = false} h = ground arith

module _ (api : Win32) (crate : ApfsApi api) (winfsp : HostApi api crate) where
  contains-unmount_removed :
      (j : Key) (removed : List Key) (s : Daemon api crate winfsp) (w : api.World)
      → contains j (unmount_removed api crate winfsp removed s w).0.known_partitions
        ≡ (contains j s.known_partitions && not (contains j removed))
  unfolding unmount_removed contains
  contains-unmount_removed j [] s w = ground arith
  contains-unmount_removed j (k ∷ rest) s w =
      contains-unmount_removed j rest _ _ ∙ ground (arith, contains-remove j k s.known_partitions)

  get-unmount_removed :
      (d p : ℕ) (removed : List Key) (s : Daemon api crate winfsp) (w : api.World)
      → contains (d, p) removed ≡ false
      → get (key d p) (unmount_removed api crate winfsp removed s w).0.mounts
        ≡ get (key d p) s.mounts
  unfolding unmount_removed contains
  get-unmount_removed d p [] s w h = refl
  get-unmount_removed d p ((e, q) ∷ rest) s w h =
      get-unmount_removed d p rest _ _ (ground arith)
      ∙ get-unmount_partition api crate winfsp s.mounts e q w d p (ground arith)

  -- A partition that is not known is another one.
  known_differs :
      (d p : ℕ) (partition : ApfsPartition) (s : Daemon api crate winfsp)
      → contains (d, p) s.known_partitions ≡ true
      → contains (partition_key partition) s.known_partitions ≡ false
      → key_eq (partition_key partition) (d, p) ≡ false
  known_differs d p partition s h new =
      elim (Bool-cases (key_eq (partition_key partition) (d, p))) [
        | inr other ↦ other
        | inl same ↦
            let e = contains_same (d, p) (partition_key partition) s.known_partitions same in
            absurd (cc)
      ]

  -- A known partition stays known, and its entry stays the same, while new ones are mounted.
  mount_if_new-known :
      (d p : ℕ) (partition : ApfsPartition) (s s' : Daemon api crate winfsp) (w : api.World)
      → Mounting api crate winfsp partition s w s'
      → contains (d, p) s.known_partitions ≡ true
      → (contains (d, p) s'.known_partitions ≡ true)
        × (get (key d p) s'.mounts ≡ get (key d p) s.mounts)
  mount_if_new-known d p partition s s' w (known old e) h = rw e (h, refl)
  mount_if_new-known d p partition s s' w (no_letter new free e) h = rw e (h, refl)
  mount_if_new-known d p partition s s' w (failed new letter x refused e) h = rw e (
    h,
    get-mount_partition api crate winfsp s.mounts partition letter w d p
        (known_differs d p partition s h new),
  )
  mount_if_new-known d p partition s s' w (mounted new letter done e) h = rw e (
    contains-insert (d, p) (partition_key partition) s.known_partitions ∙ ground arith,
    get-mount_partition api crate winfsp s.mounts partition letter w d p
        (known_differs d p partition s h new),
  )

  mount_new-known :
      (d p : ℕ) (partitions : List ApfsPartition) (s : Daemon api crate winfsp) (w : api.World)
      → contains (d, p) s.known_partitions ≡ true
      → let (s', w') = mount_new api crate winfsp partitions s w in
        (contains (d, p) s'.known_partitions ≡ true)
        × (get (key d p) s'.mounts ≡ get (key d p) s.mounts)
  unfolding mount_new
  mount_new-known d p [] s w h = (h, refl)
  mount_new-known d p (partition ∷ rest) s w h =
      let (s', w') = mount_if_new api crate winfsp partition s w in
      let (still, same) =
        mount_if_new-known d p partition s s' w
          (mount_if_new-Mounting api crate winfsp partition s w) h in
      let (still', same') = mount_new-known d p rest s' w' still in (still', same' ∙ same)

  -- If the known partitions are the mounted ones, a mounted partition that a scan finds again keeps its
  -- mount: the same volume, drive letter and host.
  pub update-undisturbed :
      (d p : ℕ) (partitions : List ApfsPartition) (s : Daemon api crate winfsp) (w : api.World)
      → Agrees api crate winfsp s
      → is_mounted api crate winfsp s.mounts d p ≡ true
      → contains (d, p) (keys partitions) ≡ true
      → get (key d p) (update api crate winfsp partitions s w).0.mounts ≡ get (key d p) s.mounts
  unfolding update
  update-undisturbed d p partitions s w agrees h present =
      let (s', w') = mount_new api crate winfsp partitions s w in
      let (still, same) = mount_new-known d p partitions s w (agrees d p ∙ h) in
      let removed = difference s'.known_partitions (keys partitions) in
      let kept : contains (d, p) removed ≡ false =
        contains-difference (d, p) s'.known_partitions (keys partitions) ∙ ground arith in
      get-unmount_removed d p removed s' w' kept ∙ same

  contains-update :
      (j : Key) (partitions : List ApfsPartition) (s : Daemon api crate winfsp) (w : api.World)
      → contains j (update api crate winfsp partitions s w).0.known_partitions ≡ (
          contains j (mount_new api crate winfsp partitions s w).0.known_partitions
          && contains j (keys partitions))
  unfolding update
  contains-update j partitions s w =
      let (s', w') = mount_new api crate winfsp partitions s w in
      contains-unmount_removed j (difference s'.known_partitions (keys partitions)) s' w'
      ∙ ground (arith, contains-difference j s'.known_partitions (keys partitions))

  -- If the known partitions are the mounted ones, then after a scan that finds some partitions only
  -- these are mounted: the drives of all others are gone.
  pub scan_and_update-current :
      (s : Daemon api crate winfsp) (w : api.World) (partitions : List ApfsPartition) (d p : ℕ)
      → Agrees api crate winfsp s
      → (scan_apfs_partitions api w).0 ≡ ok partitions
      → is_mounted api crate winfsp (scan_and_update api crate winfsp s w).0.mounts d p ≡ true
      → contains (d, p) (keys partitions) ≡ true
  unfolding scan_and_update
  scan_and_update-current s w partitions d p agrees found h =
      let w' = (scan_apfs_partitions api w).1 in
      let step : (scan_and_update api crate winfsp s w).0
          ≡ (update api crate winfsp partitions s w').0 =
        rw (found, scan_and_update) in
      let known_after : contains (d, p) (update api crate winfsp partitions s w').0.known_partitions
          ≡ true =
        ap (λ (t : Daemon api crate winfsp). contains (d, p) t.known_partitions) (sym step)
        ∙ scan_and_update-Agrees api crate winfsp s w agrees d p
        ∙ h in
      ground (arith, contains-update (d, p) partitions s w')

  -- Drive letters do not run out and mounts succeed.
  pub record IsHealthy : Type 0 where
    pub letter_free : (w : api.World) → first (find_available_drive_letters api w) ≢ none
    pub mount_ok :
        (mounts : Mounts api crate winfsp) (partition : ApfsPartition) (letter : ℕ) (w : api.World)
        → (mount_partition api crate winfsp mounts partition letter w).0 ≡ ok tt

  mount_if_new-healthy :
      IsHealthy
      → (partition : ApfsPartition) (s s' : Daemon api crate winfsp) (w : api.World)
      → Mounting api crate winfsp partition s w s'
      → contains (partition_key partition) s'.known_partitions ≡ true
  mount_if_new-healthy healthy partition s s' w (known old e) = rw e old
  mount_if_new-healthy healthy partition s s' w (no_letter new free e) =
      absurd (healthy.letter_free w free)
  mount_if_new-healthy healthy partition s s' w (failed new letter x refused e) =
      let done = healthy.mount_ok s.mounts partition letter w in absurd (cc)
  mount_if_new-healthy healthy partition s s' w (mounted new letter done e) = rw e (
      contains-insert (partition_key partition) (partition_key partition) s.known_partitions
      ∙ ground arith)

  mount_new-healthy :
      IsHealthy
      → (j : Key) (partitions : List ApfsPartition) (s : Daemon api crate winfsp) (w : api.World)
      → contains j (keys partitions) ≡ true
      → contains j (mount_new api crate winfsp partitions s w).0.known_partitions ≡ true
  unfolding mount_new contains
  mount_new-healthy healthy j [] s w h = absurd (cc)
  mount_new-healthy healthy (d, p) (partition ∷ rest) s w h =
      let (s', w') = mount_if_new api crate winfsp partition s w in
      elim (Bool-cases (key_eq (partition_key partition) (d, p))) [
        | inl here ↦
            let there =
              mount_if_new-healthy healthy partition s s' w
                (mount_if_new-Mounting api crate winfsp partition s w) in
            let same = contains_same (d, p) (partition_key partition) s'.known_partitions here in
            (mount_new-known d p rest s' w' (sym same ∙ there)).0
        | inr later ↦ mount_new-healthy healthy (d, p) rest s' w' (ground arith)
      ]

  -- If drive letters do not run out, mounts succeed, and the known partitions are the mounted ones,
  -- then a scan that finds some partitions leaves exactly these mounted: new ones are mounted, and
  -- removed ones are unmounted.
  pub scan_and_update-healthy :
      IsHealthy
      → (s : Daemon api crate winfsp) (w : api.World) (partitions : List ApfsPartition) (d p : ℕ)
      → Agrees api crate winfsp s
      → (scan_apfs_partitions api w).0 ≡ ok partitions
      → is_mounted api crate winfsp (scan_and_update api crate winfsp s w).0.mounts d p
        ≡ contains (d, p) (keys partitions)
  unfolding scan_and_update
  scan_and_update-healthy healthy s w partitions d p agrees found =
      let w' = (scan_apfs_partitions api w).1 in
      let step : (scan_and_update api crate winfsp s w).0
          ≡ (update api crate winfsp partitions s w').0 =
        rw (found, scan_and_update) in
      sym (scan_and_update-Agrees api crate winfsp s w agrees d p)
      ∙ ap (λ (t : Daemon api crate winfsp). contains (d, p) t.known_partitions) step
      ∙ contains-update (d, p) partitions s w'
      ∙ only_second (mount_new-healthy healthy (d, p) partitions s w')
