-- ===== src/Main/Owned.antt =====
-- The handles that `run_manual_mount` of src/main.rs opens and closes.
use arfw.Base.{ℕ, ◌+◌, ◌≡◌, ◌∙◌, List, Result-cases, inl, inr, arith}
use arfw.Disk.Api.{Win32}
use arfw.Disk.Reader.{open_with_offset}
use arfw.Disk.Handles.{CountsHandles, open_with_offset-Opens}
use arfw.Driver.Apfs.{ApfsApi}
use arfw.Driver.New.{ApfsDriver, new}
use arfw.Driver.Handles.{CountsVolumes, held, new-Adds}
use arfw.Mount.Manager.{HostApi}
use arfw.Monitor.Handles.{Same}
use arfw.Mount.Owned.{CountsHosts, drop_host-closes}
use arfw.Main.Manual.{
  SignalApi, run_until_signal, mount_driver, manual_partition_offset, global_mount_point,
  run_manual_mount,
}

module _ (api : Win32) (crate : ApfsApi api) (winfsp : HostApi api crate)
    (open_handles : api.World → ℕ) where
  -- A signal's handler and the channel have no handle of a file.
  pub record KeepsSignal (signal : SignalApi api.World) : Type 0 where
    pub handled : (w : api.World) → open_handles (signal.set_handler w).1 ≡ open_handles w
    pub received : (w : api.World) → open_handles (signal.recv w).1 ≡ open_handles w

module _ (api : Win32) (crate : ApfsApi api) (winfsp : HostApi api crate)
    (counts : CountsHandles api) (volumes : CountsVolumes crate counts)
    (hosts : CountsHosts winfsp volumes) (signal : SignalApi api.World)
    (keeps : (x : api.Handle) → KeepsSignal api crate winfsp (λ w. counts.opens x w) signal) where
  run_until_signal-closes :
      (host : winfsp.Host) (w w₁ : api.World)
      → ((x : api.Handle)
          → counts.opens x w₁ ≡ counts.opens x w + held volumes x (hosts.driver_of host))
      → Same api counts w (run_until_signal api crate winfsp signal host w₁).1
  unfolding run_until_signal
  run_until_signal-closes host w w₁ runs =
      let closes = drop_host-closes api crate winfsp counts volumes hosts host w in
      let w₂ = (signal.set_handler w₁).1 in
      let w₃ = (signal.recv w₂).1 in
      let runs' : (x : api.Handle)
          → counts.opens x w₂ ≡ counts.opens x w + held volumes x (hosts.driver_of host) =
        λ x. (keeps x).handled w₁ ∙ runs x in
      let runs'' : (x : api.Handle)
          → counts.opens x w₃ ≡ counts.opens x w + held volumes x (hosts.driver_of host) =
        λ x. (keeps x).received w₂ ∙ runs' x in
      elim (Result-cases (signal.set_handler w₁).0) [
        | inl (e, failed) ↦ rw (failed, run_until_signal) (closes w₂ runs')
        | inr (_, set) ↦ elim (Result-cases (signal.recv w₂).0) [
          | inl (e, failed) ↦ rw (set, run_until_signal) (rw failed (closes w₃ runs''))
          | inr (_, got) ↦ rw (set, run_until_signal) (rw got (closes w₃ runs''))
        ]
      ]

  mount_driver-closes :
      (driver : ApfsDriver api crate) (point : List ℕ) (w w₁ : api.World)
      → ((x : api.Handle) → counts.opens x w₁ ≡ counts.opens x w + held volumes x driver)
      → Same api counts w (mount_driver api crate winfsp signal driver point w₁).1
  unfolding mount_driver
  mount_driver-closes driver point w w₁ two =
      let (made, w₂) = winfsp.new_host driver w₁ in
      elim (Result-cases made) [
        | inl (e, failed) ↦
            rw (failed, mount_driver)
              λ x. omega (
                arith,
                two x,
                hosts.refused driver w₁ w₂ e (λ i. (failed i, w₂)) (λ y. omega (arith, two y)) x,
              )
        | inr (host, hosted) ↦
            let (its, kept) = hosts.made driver w₁ w₂ host (λ i. (hosted i, w₂)) in
            let closes = drop_host-closes api crate winfsp counts volumes hosts host w in
            let runs : (x : api.Handle)
                → counts.opens x w₂ ≡ counts.opens x w + held volumes x (hosts.driver_of host) =
              λ x. rw its (omega (arith, two x, kept x)) in
            let (mounted, w₃) = winfsp.mount host (global_mount_point point) w₂ in
            let runs' : (x : api.Handle)
                → counts.opens x w₃ ≡ counts.opens x w + held volumes x (hosts.driver_of host) =
              λ x. hosts.mounted x host (global_mount_point point) w₂ ∙ runs x in
            elim (Result-cases mounted) [
              | inl (e, failed) ↦ rw (hosted, mount_driver) (rw failed (closes w₃ runs'))
              | inr (_, done) ↦
                  let (started, w₄) = winfsp.start host w₃ in
                  let runs'' : (x : api.Handle)
                      → counts.opens x w₄
                        ≡ counts.opens x w + held volumes x (hosts.driver_of host) =
                    λ x. hosts.started x host w₃ ∙ runs' x in
                  elim (Result-cases started) [
                    | inl (e, failed) ↦
                        rw (hosted, mount_driver) (rw done (rw failed (closes w₄ runs'')))
                    | inr (_, begun) ↦
                        rw (hosted, mount_driver)
                          (rw done (rw begun (run_until_signal-closes host w w₄ runs'')))
                  ]
            ]
      ]

  -- Each handle is as often open when `run_manual_mount` returns as when it starts, whether it was ended by a
  -- signal or failed in a step.
  pub run_manual_mount-closes :
      (device point : List ℕ) (w : api.World)
      → Same api counts w (run_manual_mount api crate winfsp signal device point w).1
  unfolding run_manual_mount
  run_manual_mount-closes device point w =
      let (opened, w₁) = open_with_offset api device manual_partition_offset w in
      elim (Result-cases opened) [
        | inl (e, failed) ↦
            rw (failed, run_manual_mount)
              λ x.
                rw failed at (open_with_offset-Opens api counts x device manual_partition_offset w)
        | inr (disk, ready) ↦
            let (built, w₂) = new api crate disk w₁ in
            let adds =
              new-Adds api crate counts volumes device manual_partition_offset w disk ready in
            elim (Result-cases built) [
              | inl (e, failed) ↦
                  rw (ready, run_manual_mount) (rw failed λ x. rw failed at (adds x))
              | inr (driver, made) ↦
                  rw (ready, run_manual_mount)
                    (rw made (mount_driver-closes driver point w w₂ λ x. rw made at (adds x)))
            ]
      ]
