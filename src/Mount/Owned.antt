-- ===== src/Mount/Owned.antt =====
-- The handles that the mounts of src/mount_manager.rs own: those of their drivers.
use arfw.Base.{
  ℕ, ◌+◌, ◌≤◌, ◌≡◌, ◌∙◌, Option, none, some, List, ok, err, Result, Result-cases, inl, inr, arith,
}
use arfw.Disk.Api.{Win32}
use arfw.Disk.Reader.{open_with_offset}
use arfw.Disk.Handles.{CountsHandles, open_with_offset-Opens}
use arfw.Driver.Apfs.{ApfsApi}
use arfw.Driver.New.{ApfsDriver, new}
use arfw.Driver.Handles.{CountsVolumes, held, new-Adds}
use arfw.Monitor.Scan.{ApfsPartition}
use arfw.Mount.Manager.{
  HostApi, key, mount_point, get, remove, insert, MountError, MountedVolume, Mounts, open_host,
  drop_old, mount_partition, unmount_partition,
}
use arfw.Mount.Weights.{
  Distinct, weight, weight_if, weight-remove, Distinct-remove, Distinct-insert,
}

-- A host has the driver that it is made from, and drops it when it is dropped, and with it the two handles, if they
-- are open. One that cannot be made drops the driver.
pub record CountsHosts {api : Win32} {crate : ApfsApi api} (winfsp : HostApi api crate)
    {counts : CountsHandles api} (volumes : CountsVolumes crate counts) : Type 0 where
  pub driver_of : winfsp.Host → ApfsDriver api crate
  pub made :
      (driver : ApfsDriver api crate) (w w' : api.World) (host : winfsp.Host)
      → winfsp.new_host driver w ≡ (ok host, w')
      → (driver_of host ≡ driver) × ((x : api.Handle) → counts.opens x w' ≡ counts.opens x w)
  pub refused :
      (driver : ApfsDriver api crate) (w w' : api.World) (e : winfsp.WinFspError)
      → winfsp.new_host driver w ≡ (err e, w')
      → ((x : api.Handle) → held volumes x driver ≤ counts.opens x w)
      → (x : api.Handle) → counts.opens x w' + held volumes x driver ≡ counts.opens x w
  pub mounted :
      (x : api.Handle) (host : winfsp.Host) (point : List ℕ) (w : api.World)
      → counts.opens x (winfsp.mount host point w).1 ≡ counts.opens x w
  pub started :
      (x : api.Handle) (host : winfsp.Host) (w : api.World)
      → counts.opens x (winfsp.start host w).1 ≡ counts.opens x w
  pub dropped :
      (host : winfsp.Host) (w : api.World)
      → ((x : api.Handle) → held volumes x (driver_of host) ≤ counts.opens x w)
      → (x : api.Handle)
      → counts.opens x (winfsp.drop_host host w) + held volumes x (driver_of host)
        ≡ counts.opens x w

module _ (api : Win32) (crate : ApfsApi api) (winfsp : HostApi api crate)
    (counts : CountsHandles api) (volumes : CountsVolumes crate counts)
    (hosts : CountsHosts winfsp volumes) where
  -- How often a handle is one of the two of a mount, and how often of the mounts.
  abbrev pub held_by : api.Handle → MountedVolume api crate winfsp → ℕ
  held_by x volume = held volumes x (hosts.driver_of volume.host)

  abbrev pub held_all : api.Handle → Mounts api crate winfsp → ℕ
  held_all x mounts = weight (held_by x) mounts

  -- Beside `others`, exactly the handles of the mounts are open.
  pub record Owns (others : api.Handle → ℕ) (mounts : Mounts api crate winfsp) (w : api.World)
      : Type 0 where
    pub distinct : Distinct mounts
    pub counted : (x : api.Handle) → counts.opens x w ≡ others x + held_all x mounts

  -- A host that runs has its driver's handles, and a failure leaves none.
  abbrev Starts : api.World → Result (MountError api crate winfsp) winfsp.Host → api.World → Type 0
  Starts w (err e) w' = (x : api.Handle) → counts.opens x w' ≡ counts.opens x w
  Starts w (ok host) w' =
      (x : api.Handle)
      → counts.opens x w' ≡ counts.opens x w + held volumes x (hosts.driver_of host)

  -- A host that is dropped gives back the handles that it had.
  pub drop_host-closes :
      (host : winfsp.Host) (w w' : api.World)
      → ((x : api.Handle)
          → counts.opens x w' ≡ counts.opens x w + held volumes x (hosts.driver_of host))
      → (x : api.Handle) → counts.opens x (winfsp.drop_host host w') ≡ counts.opens x w
  drop_host-closes host w w' runs x =
      omega (arith, runs x, hosts.dropped host w' (λ y. omega (arith, runs y)) x)

  open_host-Starts :
      (partition : ApfsPartition) (letter : ℕ) (w : api.World)
      → let (result, w') = open_host api crate winfsp partition letter w in Starts w result w'
  unfolding open_host
  open_host-Starts partition letter w =
      let (opened, w₁) = open_with_offset api partition.device_path partition.offset w in
      elim (Result-cases opened) [
        | inl (e, failed) ↦
            rw (failed, open_host)
              λ x.
                rw failed at
                  (open_with_offset-Opens api counts x partition.device_path partition.offset w)
        | inr (disk, ready) ↦
            let (built, w₂) = new api crate disk w₁ in
            let adds =
              new-Adds api crate counts volumes partition.device_path partition.offset w disk
                ready in
            elim (Result-cases built) [
              | inl (e, failed) ↦ rw (ready, open_host) (rw failed λ x. rw failed at (adds x))
              | inr (driver, made) ↦
                  let two : (x : api.Handle)
                      → counts.opens x w₂ ≡ counts.opens x w + held volumes x driver =
                    λ x. rw made at (adds x) in
                  let (hosting, w₃) = winfsp.new_host driver w₂ in
                  elim (Result-cases hosting) [
                    | inl (e, failed) ↦
                        rw (ready, open_host)
                          (rw made (
                            rw failed λ x. omega (
                              arith,
                              two x,
                              hosts.refused driver w₂ w₃ e (λ i. (failed i, w₃))
                                  (λ y. omega (arith, two y)) x,
                            )))
                    | inr (host, hosted) ↦
                        let (its, kept) = hosts.made driver w₂ w₃ host (λ i. (hosted i, w₃)) in
                        let runs : (x : api.Handle)
                            → counts.opens x w₃
                              ≡ counts.opens x w + held volumes x (hosts.driver_of host) =
                          λ x. rw its (omega (arith, two x, kept x)) in
                        let (mounting, w₄) = winfsp.mount host (mount_point letter) w₃ in
                        let runs' : (x : api.Handle)
                            → counts.opens x w₄
                              ≡ counts.opens x w + held volumes x (hosts.driver_of host) =
                          λ x. hosts.mounted x host (mount_point letter) w₃ ∙ runs x in
                        elim (Result-cases mounting) [
                          | inl (e, failed) ↦
                              rw (ready, open_host)
                                (rw made (rw hosted (rw failed (drop_host-closes host w w₄ runs'))))
                          | inr (_, mounted) ↦
                              let (starting, w₅) = winfsp.start host w₄ in
                              let runs'' : (x : api.Handle)
                                  → counts.opens x w₅
                                    ≡ counts.opens x w + held volumes x (hosts.driver_of host) =
                                λ x. hosts.started x host w₄ ∙ runs' x in
                              elim (Result-cases starting) [
                                | inl (e, failed) ↦
                                    rw (ready, open_host)
                                      (rw made (
                                        rw hosted (
                                          rw mounted
                                            (rw failed (drop_host-closes host w w₅ runs'')))))
                                | inr (_, started) ↦
                                    rw (ready, open_host)
                                      (rw made (rw hosted (rw mounted (rw started runs''))))
                              ]
                        ]
                  ]
            ]
      ]

  drop_old-closes :
      (o : Option (MountedVolume api crate winfsp)) (w : api.World)
      → ((x : api.Handle) → weight_if (held_by x) o ≤ counts.opens x w)
      → (x : api.Handle)
      → counts.opens x (drop_old api crate winfsp o w) + weight_if (held_by x) o ≡ counts.opens x w
  drop_old-closes none w has x = omega arith
  drop_old-closes (some volume) w has x = hosts.dropped volume.host w has x

  -- A mount and an unmount keep the account, whether they succeed or not.
  pub mount_partition-Owns :
      (others : api.Handle → ℕ) (mounts : Mounts api crate winfsp) (partition : ApfsPartition)
      (letter : ℕ) (w : api.World)
      → Owns others mounts w
      → let (result, mounts', w') = mount_partition api crate winfsp mounts partition letter w in
        Owns others mounts' w'
  unfolding mount_partition insert
  mount_partition-Owns others mounts partition letter w owns =
      let k = key partition.disk_number partition.partition_number in
      let (opened, w₁) = open_host api crate winfsp partition letter w in
      let starts = open_host-Starts partition letter w in
      elim (Result-cases opened) [
        | inl (e, failed) ↦
            let same : (x : api.Handle) → counts.opens x w₁ ≡ counts.opens x w =
              rw failed at starts in
            rw (failed, mount_partition)
              (record { distinct = owns.distinct; counted = λ x. same x ∙ owns.counted x })
        | inr (host, started) ↦
            let two : (x : api.Handle)
                → counts.opens x w₁ ≡ counts.opens x w + held volumes x (hosts.driver_of host) =
              rw started at starts in
            let volume : MountedVolume api crate winfsp = record {
              partition = partition;
              drive_letter = letter;
              host = host;
            } in
            let split : (x : api.Handle)
                → held_all x (remove k mounts) + weight_if (held_by x) (get k mounts)
                  ≡ held_all x mounts =
              λ x. weight-remove (held_by x) k mounts owns.distinct in
            rw (started, mount_partition)
              (record {
                distinct = Distinct-insert k volume mounts owns.distinct;
                counted = λ x. omega (
                  arith,
                  two x,
                  owns.counted x,
                  split x,
                  drop_old-closes (get k mounts) w₁
                      (λ y. omega (arith, two y, owns.counted y, split y)) x,
                );
              })
      ]

  pub unmount_partition-Owns :
      (others : api.Handle → ℕ) (mounts : Mounts api crate winfsp) (disk_num partition_num : ℕ)
      (w : api.World)
      → Owns others mounts w
      → let (mounts', w') = unmount_partition api crate winfsp mounts disk_num partition_num w in
        Owns others mounts' w'
  unfolding unmount_partition
  unmount_partition-Owns others mounts disk_num partition_num w owns =
      let k = key disk_num partition_num in
      let split : (x : api.Handle)
          → held_all x (remove k mounts) + weight_if (held_by x) (get k mounts)
            ≡ held_all x mounts =
        λ x. weight-remove (held_by x) k mounts owns.distinct in
      record {
        distinct = Distinct-remove k mounts owns.distinct;
        counted = λ x. omega (
          arith,
          owns.counted x,
          split x,
          drop_old-closes (get k mounts) w (λ y. omega (arith, owns.counted y, split y)) x,
        );
      }
