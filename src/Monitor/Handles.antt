-- ===== src/Monitor/Handles.antt =====
-- The scan of src/device_monitor.rs: what it returns, and the handles that it opens.
use arfw.Base.{
  ℕ, zero, suc, ◌+◌, ◌≤◌, ◌<◌, ◌≡◌, refl, ◌∙◌, List, [], ◌∷◌, ◌++◌, ok, err, Result, and_then,
  arith, take, min, Bool-cases, Result-cases, inl, inr,
}
use arfw.Error.{Error}
use arfw.Disk.Api.{Win32, PartitionInformation}
use arfw.Disk.Handles.{CountsHandles}
use arfw.Monitor.Scan.{
  ApfsPartition, drive_path, is_apfs, collect, read_gpt_partitions, scan_disk_for_apfs, or_skip,
  scan_loop, scan_apfs_partitions,
}

-- A property of every item.
abbrev pub All {ℓ} : {A : Type ℓ} → (A → Type 0) → List A → Type 0
All P [] = Unit {0}
All P (x ∷ xs) = P x × All P xs

pub All-append {ℓ} :
    {A : Type ℓ} (P : A → Type 0) (xs ys : List A) → All P xs → All P ys → All P (xs ++ ys)
All-append P [] ys p q = q
All-append P (x ∷ xs) ys p q = (p.0, All-append P xs ys p.1 q)

-- A partition that a scan of the first hundred disks can report.
abbrev pub IsOnDrive : ApfsPartition → Type 0
IsOnDrive p = (p.disk_number < 100) × (p.device_path ≡ drive_path p.disk_number)

collect-IsOnDrive :
    (disk_num : ℕ) (entries : List PartitionInformation)
    → disk_num < 100
    → All IsOnDrive (collect disk_num entries)
unfolding collect
collect-IsOnDrive disk_num [] h = tt
collect-IsOnDrive disk_num (e ∷ entries) h = elim (Bool-cases (is_apfs e)) [
  | inl found ↦ rw found ((h, refl), collect-IsOnDrive disk_num entries h)
  | inr other ↦ rw other (collect-IsOnDrive disk_num entries h)
]

module _ (api : Win32) (counts : CountsHandles api) where
  -- The same handles are open, each as often.
  abbrev pub Same : api.World → api.World → Type 0
  Same w w' = (x : api.Handle) → counts.opens x w' ≡ counts.opens x w

  -- What holds of one disk's part of the scan.
  abbrev Tidy : api.World → Result Error (List ApfsPartition) × api.World → Type 0
  Tidy w (result, w') = Same w w' × All IsOnDrive (or_skip api result)

  -- The scan of one disk, by what the system answers to the attempt to open it.
  scan_disk-Tidy :
      (disk_num : ℕ) (w w' : api.World) (opened : Result ℕ api.Handle)
      → disk_num < 100
      → api.create_file (drive_path disk_num ++ (0 ∷ [])) w ≡ (opened, w')
      → Tidy w (scan_disk_for_apfs api (drive_path disk_num) disk_num w)
  unfolding scan_disk_for_apfs
  scan_disk-Tidy disk_num w w' (err e) h r = rw r ((λ x. counts.failed x _ w w' e r), tt)
  scan_disk-Tidy disk_num w w' (ok handle) h r = elim (Bool-cases (api.is_invalid handle)) [
    | inl invalid ↦
        rw (r, and_then) (rw invalid ((λ x. counts.opened x _ w w' handle r ∙ rw invalid), tt))
    | inr valid ↦
        let w₁ = (api.drive_layout handle w').1 in
        let count : (x : api.Handle) → counts.opens x w₁ ≡ counts.opens x w + counts.same x handle =
          λ x. counts.queried x handle w' ∙ (counts.opened x _ w w' handle r ∙ rw valid) in
        let after : Same w (api.close_handle handle w₁) = λ x. omega (
          arith,
          count x,
          counts.closed x handle w₁ (omega (arith, count handle, counts.same_self handle)),
        ) in
        elim (Result-cases (api.drive_layout handle w').0) [
          | inl (e, refused) ↦
              rw (r, and_then)
                (rw (valid, and_then) (rw (refused, read_gpt_partitions) (after, tt)))
          | inr (layout, told) ↦
              rw (r, and_then)
                (rw (valid, and_then)
                  (rw (told, read_gpt_partitions)
                    (
                      after,
                      collect-IsOnDrive disk_num
                          (take (min layout.partition_count 128) layout.partition_entry) h,
                    )))
        ]
  ]

  scan_loop-Tidy :
      (rounds disk_num : ℕ) (partitions : List ApfsPartition) (w : api.World)
      → disk_num + rounds ≤ 100
      → All IsOnDrive partitions
      → (found : List ApfsPartition) × (w' : api.World) × (scan_loop api rounds disk_num partitions
            w
          ≡ (ok found, w'))
        × Same w w'
        × All IsOnDrive found
  unfolding scan_loop
  scan_loop-Tidy zero disk_num partitions w h good = (partitions, w, refl, (λ x. refl), good)
  scan_loop-Tidy (suc rounds) disk_num partitions w h good =
      let opened = api.create_file (drive_path disk_num ++ (0 ∷ [])) w in
      let (same, more) = scan_disk-Tidy disk_num w opened.1 opened.0 (omega arith) refl in
      let scanned = scan_disk_for_apfs api (drive_path disk_num) disk_num w in
      let (found, w', r, kept, all) =
        scan_loop-Tidy rounds (disk_num + 1) (partitions ++ or_skip api scanned.0) scanned.1
          (omega arith) (All-append IsOnDrive partitions _ good more) in
      (found, w', r, (λ x. kept x ∙ same x), all)

  -- A scan never fails, whatever the system answers: a disk that cannot be opened or read adds nothing. It
  -- closes every handle that it opens, and each partition that it reports is on one of the drives 0 to
  -- 99, with the path of that drive.
  pub scan_apfs_partitions_lem :
      (w : api.World)
      → (found : List ApfsPartition) × (w' : api.World) × (scan_apfs_partitions api w
          ≡ (ok found, w'))
        × Same w w'
        × All IsOnDrive found
  unfolding scan_apfs_partitions
  scan_apfs_partitions_lem w = scan_loop-Tidy 100 0 [] w (omega arith) tt
