-- ===== src/Monitor/Finds.antt =====
-- What the scan of src/device_monitor.rs finds on drives that do not change.
use arfw.Base.{
  ℕ, zero, suc, ◌+◌, ◌≤◌, ◌<◌, min, ◌≡◌, ◌⊎◌, refl, ap, ◌∙◌, ◌==◌, ==_iff, sym, true, false, Option,
  none, some, List, [], ◌∷◌, ◌++◌, append-nil, append_assoc, ok, err, take, Bool-cases,
  Option-cases, inl, inr, arith, map_err,
}
use arfw.Base.Text.{text_eq, text_eq_iff, text_eq→eq}
use arfw.Disk.Api.{Win32, DriveLayout, PartitionInformation}
use arfw.Monitor.Scan.{
  ApfsPartition, drive_path, is_apfs, apfs_partition_guid, apfs_partition, collect, open_disk,
  read_gpt_partitions, scan_disk_for_apfs, or_skip, scan_loop, scan_apfs_partitions,
}

abbrev pub Among : {A : Type 0} → A → List A → Type 0
Among a [] = ⊥
Among a (x ∷ xs) = (a ≡ x) ⊎ Among a xs

module _ {A : Type 0} where
  Among-left : (a : A) (xs ys : List A) → Among a xs → Among a (xs ++ ys)
  Among-left a [] ys h = elim h [ ]
  Among-left a (x ∷ xs) ys (inl here) = inl here
  Among-left a (x ∷ xs) ys (inr there) = inr (Among-left a xs ys there)

  Among-right : (a : A) (xs ys : List A) → Among a ys → Among a (xs ++ ys)
  Among-right a [] ys h = h
  Among-right a (x ∷ xs) ys h = inr (Among-right a xs ys h)

  Among-append : (a : A) (xs ys : List A) → Among a (xs ++ ys) → Among a xs ⊎ Among a ys
  Among-append a [] ys h = inr h
  Among-append a (x ∷ xs) ys (inl here) = inl (inl here)
  Among-append a (x ∷ xs) ys (inr there) = elim (Among-append a xs ys there) [
    | inl left ↦ inl (inr left)
    | inr right ↦ inr right
  ]

-- Drives whose layouts do not change: one that is there can be opened and tells its layout, and another cannot be
-- opened.
pub record HasDrives (api : Win32) (layout_of : ℕ → Option DriveLayout) : Type 0 where
  pub present :
      (d : ℕ) (layout : DriveLayout) (w : api.World)
      → layout_of d ≡ some layout
      → (handle : api.Handle) × (w' : api.World) × (api.create_file (drive_path d ++ (0 ∷ [])) w
          ≡ (ok handle, w'))
        × (api.is_invalid handle ≡ false)
        × ((api.drive_layout handle w').0 ≡ ok layout)
  pub absent :
      (d : ℕ) (w : api.World)
      → layout_of d ≡ none
      → (e : ℕ) × ((api.create_file (drive_path d ++ (0 ∷ [])) w).0 ≡ err e)

-- The entries that a layout has: as many as it says, and no more than 128.
abbrev pub entries_of : DriveLayout → List PartitionInformation
entries_of layout = take (min layout.partition_count 128) layout.partition_entry

-- A partition of a drive: a GPT entry of its layout with the type of APFS.
pub record IsApfsOf (layout_of : ℕ → Option DriveLayout) (d : ℕ) (partition : ApfsPartition)
    : Type 0 where
  pub layout : DriveLayout
  pub entry : PartitionInformation
  pub has : layout_of d ≡ some layout
  pub listed : Among entry (entries_of layout)
  pub gpt : entry.partition_style ≡ 1
  pub of_type : entry.gpt_partition_type ≡ apfs_partition_guid
  pub same : partition ≡ apfs_partition d entry

is_apfs-parts :
    (entry : PartitionInformation)
    → is_apfs entry ≡ true
    → (entry.partition_style ≡ 1) × (entry.gpt_partition_type ≡ apfs_partition_guid)
unfolding is_apfs
is_apfs-parts entry h =
    let type : text_eq entry.gpt_partition_type apfs_partition_guid ≡ true = ground (arith, h) in
    (ground (arith, h), text_eq→eq entry.gpt_partition_type apfs_partition_guid type)

is_apfs_of_parts :
    (entry : PartitionInformation)
    → entry.partition_style ≡ 1
    → entry.gpt_partition_type ≡ apfs_partition_guid
    → is_apfs entry ≡ true
unfolding is_apfs
is_apfs_of_parts entry gpt type =
    let same = (text_eq_iff entry.gpt_partition_type apfs_partition_guid).1 type in
    ground (arith, gpt, same)

collect-Among :
    (d : ℕ) (entries : List PartitionInformation) (p : ApfsPartition)
    → Among p (collect d entries)
    → (entry : PartitionInformation) × Among entry entries
      × (is_apfs entry ≡ true)
      × (p ≡ apfs_partition d entry)
unfolding collect
collect-Among d [] p h = elim h [ ]
collect-Among d (x ∷ entries) p h = elim (Bool-cases (is_apfs x)) [
  | inl apfs ↦ elim (rw apfs at h) [
    | inl here ↦ (x, inl refl, apfs, here)
    | inr later ↦
        let (entry, listed, type, same) = collect-Among d entries p later in
        (entry, inr listed, type, same)
  ]
  | inr other ↦
      let (entry, listed, type, same) = collect-Among d entries p (rw other at h) in
      (entry, inr listed, type, same)
]

Among-collect :
    (d : ℕ) (entries : List PartitionInformation) (entry : PartitionInformation)
    → Among entry entries
    → is_apfs entry ≡ true
    → Among (apfs_partition d entry) (collect d entries)
unfolding collect
Among-collect d [] entry listed type = elim listed [ ]
Among-collect d (x ∷ entries) entry (inl here) type =
    let apfs : is_apfs x ≡ true = rw here at type in rw apfs (inl (ap (apfs_partition d) here))
Among-collect d (x ∷ entries) entry (inr later) type = elim (Bool-cases (is_apfs x)) [
  | inl apfs ↦ rw apfs (inr (Among-collect d entries entry later type))
  | inr other ↦ rw other (Among-collect d entries entry later type)
]

module _ (api : Win32) (layout_of : ℕ → Option DriveLayout) (drives : HasDrives api layout_of) where
  abbrev of_drive : ℕ → List ApfsPartition
  of_drive d = elim (layout_of d) [ none ↦ [] | some layout ↦ collect d (entries_of layout) ]

  scan_disk-finds :
      (d : ℕ) (w : api.World)
      → or_skip api (scan_disk_for_apfs api (drive_path d) d w).0 ≡ of_drive d
  unfolding scan_disk_for_apfs open_disk read_gpt_partitions
  scan_disk-finds d w = elim (Option-cases (layout_of d)) [
    | inl gone ↦
        let (e, failed) = drives.absent d w gone in rw (gone, of_drive) (rw (failed, map_err) refl)
    | inr (layout, there) ↦
        let (handle, w', opened, valid, told) = drives.present d layout w there in
        rw (there, of_drive) (rw opened (rw valid (rw (told, read_gpt_partitions) refl)))
  ]

  -- The partitions of so many drives from one on.
  abbrev of_drives : ℕ → ℕ → List ApfsPartition
  of_drives zero d = []
  of_drives (suc rounds) d = of_drive d ++ of_drives rounds (d + 1)

  scan_loop-finds :
      (rounds d : ℕ) (before : List ApfsPartition) (w : api.World)
      → (scan_loop api rounds d before w).0 ≡ ok (before ++ of_drives rounds d)
  unfolding scan_loop
  scan_loop-finds zero d before w = ap ok (sym (append-nil before))
  scan_loop-finds (suc rounds) d before w =
      let (result, w') = scan_disk_for_apfs api (drive_path d) d w in
      scan_loop-finds rounds (d + 1) (before ++ or_skip api result) w'
      ∙ ap (λ found. ok ((before ++ found) ++ of_drives rounds (d + 1))) (scan_disk-finds d w)
      ∙ ap ok (append_assoc before (of_drive d) (of_drives rounds (d + 1)))

  of_drive-IsApfsOf : (d : ℕ) (p : ApfsPartition) → Among p (of_drive d) → IsApfsOf layout_of d p
  of_drive-IsApfsOf d p h = elim (Option-cases (layout_of d)) [
    | inl gone ↦ elim (rw (gone, of_drive) at h) [ ]
    | inr (layout, there) ↦
        let (entry, listed, type, same) =
          collect-Among d (entries_of layout) p (rw (there, of_drive) at h) in
        let (gpt, of_type) = is_apfs-parts entry type in
        record {
          layout = layout;
          entry = entry;
          has = there;
          listed = listed;
          gpt = gpt;
          of_type = of_type;
          same = same;
        }
  ]

  IsApfsOf-of_drive : (d : ℕ) (p : ApfsPartition) → IsApfsOf layout_of d p → Among p (of_drive d)
  IsApfsOf-of_drive d p is =
      rw (is.has, of_drive)
        (rw (is.same) (
          Among-collect d (entries_of is.layout) is.entry is.listed
            (is_apfs_of_parts is.entry is.gpt is.of_type)))

  of_drives-IsApfsOf :
      (rounds d : ℕ) (p : ApfsPartition)
      → Among p (of_drives rounds d)
      → (n : ℕ) × (d ≤ n) × (n < d + rounds) × IsApfsOf layout_of n p
  of_drives-IsApfsOf zero d p h = elim h [ ]
  of_drives-IsApfsOf (suc rounds) d p h =
      elim (Among-append p (of_drive d) (of_drives rounds (d + 1)) h) [
        | inl here ↦ (d, omega arith, omega arith, of_drive-IsApfsOf d p here)
        | inr later ↦
            let (n, low, high, is) = of_drives-IsApfsOf rounds (d + 1) p later in
            (n, omega arith, omega arith, is)
      ]

  IsApfsOf-of_drives :
      (rounds d n : ℕ) (p : ApfsPartition)
      → d ≤ n
      → n < d + rounds
      → IsApfsOf layout_of n p
      → Among p (of_drives rounds d)
  IsApfsOf-of_drives zero d n p low high is = absurd (omega arith)
  IsApfsOf-of_drives (suc rounds) d n p low high is = elim (Bool-cases (n == d)) [
    | inl here ↦
        let at : n ≡ d = (==_iff n d).0 here in
        Among-left p (of_drive d) (of_drives rounds (d + 1)) (IsApfsOf-of_drive d p (rw at at is))
    | inr other ↦
        Among-right p (of_drive d) (of_drives rounds (d + 1))
          (IsApfsOf-of_drives rounds (d + 1) n p (ground (arith, other, low)) (omega arith) is)
  ]

  -- If the drives do not change and those that are there can be opened and tell their layouts, a scan finds
  -- exactly the APFS partitions of the drives 0 to 99: for each GPT entry with the type of APFS among the first 128
  -- that a layout counts, the partition with the drive's number and path and the entry's number, offset and size.
  pub scan_apfs_partitions-IsApfsOf :
      (w : api.World)
      → (found : List ApfsPartition) × ((scan_apfs_partitions api w).0 ≡ ok found)
        × ((p : ApfsPartition) → Among p found → (n : ℕ) × (n < 100) × IsApfsOf layout_of n p)
        × ((p : ApfsPartition) (n : ℕ) → n < 100 → IsApfsOf layout_of n p → Among p found)
  unfolding scan_apfs_partitions
  scan_apfs_partitions-IsApfsOf w = (
    of_drives 100 0,
    scan_loop-finds 100 0 [] w,
    λ p h. let (n, low, high, is) = of_drives-IsApfsOf 100 0 p h in (n, high, is),
    λ p n high is. IsApfsOf-of_drives 100 0 n p (omega arith) high is,
  )
