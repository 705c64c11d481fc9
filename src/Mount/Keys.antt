-- ===== src/Mount/Keys.antt =====
-- The keys of src/mount_manager.rs, and what a mount and an unmount change.
use arfw.Base.{
  ℕ, false, ◌≡◌, ◌∙◌, sym, ◌&&◌, ◌||◌, not, Result-cases, none, some, List, [], ◌∷◌, ok, err,
  Result, refl, if◌then◌else◌, ◌==◌, arith, Bool-cases, inl, inr,
}
use arfw.Base.Text.{text_eq, text_eq_iff, text_eq→eq, decimal-injective, decimal-Lacks, cut_unique}
use arfw.Disk.Api.{Win32}
use arfw.Driver.Apfs.{ApfsApi}
use arfw.Monitor.Scan.{ApfsPartition}
use arfw.Mount.Manager.{
  HostApi, MountError, key, get, remove, insert, Mounts, mount_partition, unmount_partition,
  is_mounted, open_host,
}

-- Different partitions have different keys.
pub key-injective : (d d' p p' : ℕ) → key d p ≡ key d' p' → (d ≡ d') × (p ≡ p')
unfolding key
key-injective d d' p p' e =
    let (front, back) = cut_unique b':' _ _ _ _ (decimal-Lacks d) (decimal-Lacks d') e in
    (decimal-injective d d' front, decimal-injective p p' back)

module _ {V : Type 0} where
  pub get-remove :
      (k j : List ℕ) (entries : List (List ℕ × V))
      → get j (remove k entries) ≡ (if text_eq k j then none else get j entries)
  unfolding get remove
  get-remove k j [] = ground arith
  get-remove k j ((i, v) ∷ entries) =
      ground (arith, get-remove k j entries, text_eq_iff i k, text_eq_iff i j, text_eq_iff k j)

  pub get-insert :
      (k j : List ℕ) (v : V) (entries : List (List ℕ × V))
      → get j (insert k v entries) ≡ (if text_eq k j then some v else get j entries)
  unfolding get insert
  get-insert k j v entries = ground (arith, get-remove k j entries)

-- Two keys are equal exactly if both numbers are.
text_eq-key : (d d' p p' : ℕ) → text_eq (key d p) (key d' p') ≡ (d == d' && p == p')
text_eq-key d d' p p' = elim (Bool-cases (d == d' && p == p')) [
  | inl same ↦
      let e₁ : d ≡ d' = ground arith in
      let e₂ : p ≡ p' = ground arith in (text_eq_iff _ _).1 (λ i. key (e₁ i) (e₂ i)) ∙ sym same
  | inr other ↦ elim (Bool-cases (text_eq (key d p) (key d' p'))) [
    | inr differ ↦ differ ∙ sym other
    | inl equal ↦
        let (e₁, e₂) = key-injective d d' p p' (text_eq→eq _ _ equal) in absurd (ground arith)
  ]
]

module _ (api : Win32) (crate : ApfsApi api) (winfsp : HostApi api crate) where
  -- Which partitions are mounted after a mount.
  pub is_mounted-mount_partition :
      (mounts : Mounts api crate winfsp) (partition : ApfsPartition) (letter : ℕ) (w : api.World)
      (d p : ℕ)
      → let (result, mounts', w') = mount_partition api crate winfsp mounts partition letter w in
        is_mounted api crate winfsp mounts' d p ≡ elim result [
          | ok _ ↦
              partition.disk_number == d && partition.partition_number == p
              || is_mounted api crate winfsp mounts d p
          | err _ ↦ is_mounted api crate winfsp mounts d p
        ]
  unfolding mount_partition is_mounted
  is_mounted-mount_partition mounts partition letter w d p =
      elim (Result-cases (open_host api crate winfsp partition letter w).0) [
        | inl (e, failed) ↦ rw (failed, mount_partition, is_mounted)
        | inr (host, opened) ↦
            rw (opened, mount_partition, is_mounted) (rw (get-insert, text_eq-key) (ground arith))
      ]

  -- An unmount removes its partition from the mounted ones, and changes no other.
  pub is_mounted-unmount_partition :
      (mounts : Mounts api crate winfsp) (disk_num partition_num : ℕ) (w : api.World) (d p : ℕ)
      → is_mounted api crate winfsp
          (unmount_partition api crate winfsp mounts disk_num partition_num w).0
          d
          p
        ≡ (not (disk_num == d && partition_num == p) && is_mounted api crate winfsp mounts d p)
  unfolding unmount_partition is_mounted
  is_mounted-unmount_partition mounts disk_num partition_num w d p =
      rw (get-remove, text_eq-key) (ground arith)

  -- The entry of another partition is the same after a mount, with its host.
  pub get-mount_partition :
      (mounts : Mounts api crate winfsp) (partition : ApfsPartition) (letter : ℕ) (w : api.World)
      (d p : ℕ)
      → (partition.disk_number == d && partition.partition_number == p) ≡ false
      → get (key d p) (mount_partition api crate winfsp mounts partition letter w).1
        ≡ get (key d p) mounts
  unfolding mount_partition
  get-mount_partition mounts partition letter w d p other =
      elim (Result-cases (open_host api crate winfsp partition letter w).0) [
        | inl (e, failed) ↦ rw (failed, mount_partition)
        | inr (host, opened) ↦ rw (opened, mount_partition) (rw (get-insert, text_eq-key, other))
      ]

  pub get-unmount_partition :
      (mounts : Mounts api crate winfsp) (disk_num partition_num : ℕ) (w : api.World) (d p : ℕ)
      → (disk_num == d && partition_num == p) ≡ false
      → get (key d p) (unmount_partition api crate winfsp mounts disk_num partition_num w).0
        ≡ get (key d p) mounts
  unfolding unmount_partition
  get-unmount_partition mounts disk_num partition_num w d p other =
      rw (get-remove, text_eq-key, other)

  -- What a mount does to the table: the entry of the partition is the new one, with its letter and the host that
  -- was opened, and every other entry is as it was; a failure leaves the table.
  abbrev pub MountsOne :
      Mounts api crate winfsp
      → ApfsPartition
      → ℕ
      → Result (MountError api crate winfsp) winfsp.Host
      → Result (MountError api crate winfsp) (Unit {0})
      → Mounts api crate winfsp
      → Type 0
  MountsOne mounts partition letter opened (err e) mounts' = (opened ≡ err e) × (mounts' ≡ mounts)
  MountsOne mounts partition letter opened (ok _) mounts' =
      (host : winfsp.Host) × (opened ≡ ok host)
      × ((d p : ℕ)
          → get (key d p) mounts' ≡ (
              if partition.disk_number == d && partition.partition_number == p
              then some (record { partition = partition; drive_letter = letter; host = host })
              else get (key d p) mounts))

  -- A mount that succeeds gives its partition the entry with the partition, the letter and the host that runs,
  -- and changes the entry of no other partition. It fails exactly with the error of the host's start, and then
  -- the whole table is as it was.
  pub mount_partition_lem :
      (mounts : Mounts api crate winfsp) (partition : ApfsPartition) (letter : ℕ) (w : api.World)
      → let (result, mounts', w') = mount_partition api crate winfsp mounts partition letter w in
        MountsOne mounts partition letter
          (open_host api crate winfsp partition letter w).0
          result
          mounts'
  unfolding mount_partition
  mount_partition_lem mounts partition letter w =
      elim (Result-cases (open_host api crate winfsp partition letter w).0) [
        | inl (e, failed) ↦ rw (failed, mount_partition) (refl, refl)
        | inr (host, opened) ↦
            rw (opened, mount_partition) (host, refl, λ d p. rw (get-insert, text_eq-key) refl)
      ]
