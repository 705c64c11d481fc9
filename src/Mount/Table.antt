-- ===== src/Mount/Table.antt =====
-- The table of src/mount_manager.rs over any calls of `MountManager`, and the disks that it lists.
use arfw.Base.{
  ℕ, ◌≡◌, refl, ap, ◌∙◌, sym, Bool, true, false, ◌||◌, List, [], ◌∷◌, ◌==◌, ==_iff, Bool-cases,
  Result-cases, inl, inr, arith,
}
use arfw.Base.Text.{text_eq, text_eq_iff, text_eq→eq}
use arfw.Disk.Api.{Win32}
use arfw.Driver.Apfs.{ApfsApi}
use arfw.Monitor.Scan.{ApfsPartition}
use arfw.Mount.Manager.{
  HostApi, key, get, remove, insert, Mounts, open_host, mount_partition, unmount_partition,
  is_mounted, get_mounted_disks,
}
use arfw.Mount.Keys.{key-injective}

abbrev pub mem : ℕ → List ℕ → Bool
mem d [] = false
mem d (x ∷ xs) = x == d || mem d xs

-- A call of the manager that changes the table.
pub data Call : Type 0 where
  mounting : ApfsPartition → ℕ → Call
  unmounting : ℕ → ℕ → Call

module _ (api : Win32) (crate : ApfsApi api) (winfsp : HostApi api crate) where
  -- The table and the world after the calls, in their order.
  abbrev pub calls :
      List Call → Mounts api crate winfsp → api.World → Mounts api crate winfsp × api.World
  calls [] mounts w = (mounts, w)
  calls (mounting partition letter ∷ rest) mounts w =
      let (_, mounts', w') = mount_partition api crate winfsp mounts partition letter w in
      calls rest mounts' w'
  calls (unmounting disk_num partition_num ∷ rest) mounts w =
      let (mounts', w') = unmount_partition api crate winfsp mounts disk_num partition_num w in
      calls rest mounts' w'

  -- Each volume stands under the key of its partition.
  abbrev Keyed : Mounts api crate winfsp → Type 0
  Keyed [] = Unit {0}
  Keyed ((k, volume) ∷ mounts) =
      (k ≡ key volume.partition.disk_number volume.partition.partition_number) × Keyed mounts

  Keyed-remove :
      (k : List ℕ) (mounts : Mounts api crate winfsp) → Keyed mounts → Keyed (remove k mounts)
  unfolding remove
  Keyed-remove k [] keyed = tt
  Keyed-remove k ((j, volume) ∷ mounts) (at, keyed) = elim (Bool-cases (text_eq j k)) [
    | inl same ↦ rw same (Keyed-remove k mounts keyed)
    | inr other ↦ rw other (at, Keyed-remove k mounts keyed)
  ]

  mount_partition-Keyed :
      (mounts : Mounts api crate winfsp) (partition : ApfsPartition) (letter : ℕ) (w : api.World)
      → Keyed mounts
      → Keyed (mount_partition api crate winfsp mounts partition letter w).1
  unfolding mount_partition insert
  mount_partition-Keyed mounts partition letter w keyed =
      elim (Result-cases (open_host api crate winfsp partition letter w).0) [
        | inl (e, failed) ↦ rw (failed, mount_partition) keyed
        | inr (host, opened) ↦ rw (opened, mount_partition) (refl, Keyed-remove _ mounts keyed)
      ]

  calls-Keyed :
      (all : List Call) (mounts : Mounts api crate winfsp) (w : api.World)
      → Keyed mounts
      → Keyed (calls all mounts w).0
  unfolding unmount_partition
  calls-Keyed [] mounts w keyed = keyed
  calls-Keyed (mounting partition letter ∷ rest) mounts w keyed =
      calls-Keyed rest _ _ (mount_partition-Keyed mounts partition letter w keyed)
  calls-Keyed (unmounting disk_num partition_num ∷ rest) mounts w keyed =
      calls-Keyed rest _ _ (Keyed-remove (key disk_num partition_num) mounts keyed)

  get_mounted_disks-mounted :
      (mounts : Mounts api crate winfsp) (d : ℕ)
      → Keyed mounts
      → mem d (get_mounted_disks api crate winfsp mounts) ≡ true
      → (p : ℕ) × (is_mounted api crate winfsp mounts d p ≡ true)
  unfolding get_mounted_disks is_mounted get
  get_mounted_disks-mounted [] d keyed h = absurd (cc)
  get_mounted_disks-mounted ((k, volume) ∷ mounts) d (at, keyed) h =
      elim (Bool-cases (volume.partition.disk_number == d)) [
        | inl here ↦
            let p = volume.partition.partition_number in
            let same : text_eq k (key d p) ≡ true =
              (text_eq_iff k (key d p)).1 (at ∙ ap (λ n. key n p) ((==_iff _ d).0 here)) in
            (p, rw (same, is_mounted) refl)
        | inr elsewhere ↦
            let (p, there) =
              get_mounted_disks-mounted mounts d keyed (ground (arith, h, elsewhere)) in
            (
              p,
              elim (Bool-cases (text_eq k (key d p))) [
                | inl same ↦ rw (same, is_mounted) refl
                | inr other ↦ rw (other, is_mounted) there
              ],
            )
      ]

  mounted-get_mounted_disks :
      (mounts : Mounts api crate winfsp) (d p : ℕ)
      → Keyed mounts
      → is_mounted api crate winfsp mounts d p ≡ true
      → mem d (get_mounted_disks api crate winfsp mounts) ≡ true
  unfolding get_mounted_disks is_mounted get
  mounted-get_mounted_disks [] d p keyed h = absurd (cc)
  mounted-get_mounted_disks ((k, volume) ∷ mounts) d p (at, keyed) h =
      elim (Bool-cases (text_eq k (key d p))) [
        | inl same ↦
            let (disk, _) =
              key-injective volume.partition.disk_number d volume.partition.partition_number p
                (sym at ∙ text_eq→eq k (key d p) same) in
            ground (arith, disk)
        | inr other ↦
            let rest = mounted-get_mounted_disks mounts d p keyed (rw other at h) in
            ground (arith, rest)
      ]

  -- After any calls of `mount_partition` and `unmount_partition` from an empty table, whichever of them fail,
  -- `get_mounted_disks` lists a disk exactly if `is_mounted` holds of one of its partitions.
  pub get_mounted_disks_iff :
      (all : List Call) (w : api.World) (d : ℕ)
      → let (mounts, _) = calls all [] w in
        ((mem d (get_mounted_disks api crate winfsp mounts) ≡ true)
          → (p : ℕ) × (is_mounted api crate winfsp mounts d p ≡ true))
        × ((p : ℕ)
            → is_mounted api crate winfsp mounts d p ≡ true
            → mem d (get_mounted_disks api crate winfsp mounts) ≡ true)
  get_mounted_disks_iff all w d =
      let (mounts, w') = calls all [] w in
      let keyed = calls-Keyed all [] w (tt {0}) in
      (get_mounted_disks-mounted mounts d keyed, λ p. mounted-get_mounted_disks mounts d p keyed)
