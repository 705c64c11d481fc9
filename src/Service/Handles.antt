-- ===== src/Service/Handles.antt =====
-- A count of something, such as open handles, over a run of the service's thread in src/service.rs.
use arfw.Base.{ℕ, zero, suc, ◌+◌, ◌≡◌, refl, ◌∙◌, leb, Bool-cases, Result-cases, inl, inr}
use arfw.Service.Run.{
  ServiceApi, ServiceStatus, not_available, pending, is_running, is_stopped, Outcome, finished,
  unavailable, wait_loop, report-after, run_and_stop, serve, run_service, winfsp_poll_interval,
  winfsp_wait_timeout,
}

-- The service manager, the clock and WinFsp's library do not change the count.
pub record KeepsService {World : Type 0} (service : ServiceApi World) (count : World → ℕ)
    : Type 0 where
  pub registered : (w : World) → count (service.register w).1 ≡ count w
  pub reported :
      (status : ServiceStatus) (w : World) → count (service.set_service_status status w).1 ≡ count w
  pub init : (w : World) → count (service.winfsp_init w).1 ≡ count w
  pub init_or_die : (w : World) → count (service.winfsp_init_or_die w).1 ≡ count w
  pub slept : (n : ℕ) (w : World) → count (service.sleep n w) ≡ count w

module _ {World : Type 0} (service : ServiceApi World) (count : World → ℕ)
    (keeps : KeepsService service count)
    (daemon : (w : World) → count (service.run_daemon_internal w).1 ≡ count w) where
  -- As many open handles at the end as at a state.
  abbrev Same : World → Outcome service × World → Type 0
  Same w (outcome, w') = count w' ≡ count w

  run_and_stop-keeps : (w : World) → Same w (run_and_stop service w)
  run_and_stop-keeps w =
      let w' = (service.run_daemon_internal w).1 in
      elim (Result-cases (service.run_daemon_internal w).0) [
        | inl (e, broke) ↦ rw (broke, run_and_stop) (daemon w)
        | inr (_, done) ↦
            let same = keeps.reported is_stopped w' ∙ daemon w in
            rw (done, run_and_stop)
              (report-after service (Same w) is_stopped (λ w₁. (finished, w₁)) w' (λ e. same) same)
      ]

  serve-keeps : (w : World) → Same w (serve service w)
  unfolding serve
  serve-keeps w =
      let w₁ = (service.winfsp_init_or_die w).1 in
      let w₂ = (service.set_service_status is_running w₁).1 in
      let same = keeps.reported is_running w₁ ∙ keeps.init_or_die w in
      elim (Bool-cases (service.winfsp_init_or_die w).0) [
        | inr dead ↦ rw (dead, serve) (keeps.init_or_die w)
        | inl lives ↦
            rw (lives, serve)
              (report-after service (Same w) is_running (run_and_stop service) w₁ (λ e. same)
                (run_and_stop-keeps w₂ ∙ same))
      ]

  wait_loop-keeps :
      (fuel deadline checkpoint : ℕ) (w : World)
      → Same w (wait_loop service fuel deadline checkpoint (serve service) w)
  unfolding wait_loop
  wait_loop-keeps zero deadline checkpoint w = refl
  wait_loop-keeps (suc fuel) deadline checkpoint w =
      let w₁ = (service.winfsp_init w).1 in
      elim (Bool-cases (service.winfsp_init w).0) [
        | inl ready ↦ rw (ready, wait_loop) (serve-keeps w₁ ∙ keeps.init w)
        | inr missing ↦ elim (Bool-cases (leb deadline (service.now w₁))) [
          | inl late ↦
              let same = keeps.reported not_available w₁ ∙ keeps.init w in
              rw (missing, wait_loop)
                (rw late (
                  report-after service (Same w) not_available (λ w₂. (unavailable, w₂)) w₁
                    (λ e. same) same))
          | inr early ↦
              let status = pending (checkpoint + 1) in
              let w₂ = (service.set_service_status status w₁).1 in
              let w₃ = service.sleep winfsp_poll_interval w₂ in
              let same = keeps.reported status w₁ ∙ keeps.init w in
              rw (missing, wait_loop)
                (rw early (
                  report-after service (Same w) status
                    (λ w'.
                      wait_loop service fuel deadline (checkpoint + 1) (serve service)
                        (service.sleep winfsp_poll_interval w'))
                    w₁ (λ e. same)
                    (wait_loop-keeps fuel deadline (checkpoint + 1) w₃
                      ∙ keeps.slept winfsp_poll_interval w₂
                      ∙ same)))
        ]
      ]

  pub run_service-keeps : (w : World) → count (run_service service w).1 ≡ count w
  unfolding run_service
  run_service-keeps w =
      let w₁ = (service.register w).1 in
      elim (Result-cases (service.register w).0) [
        | inl (e, refused) ↦ rw (refused, run_service) (keeps.registered w)
        | inr (_, done) ↦
            rw (done, run_service)
              (wait_loop-keeps 121 (service.now w₁ + winfsp_wait_timeout) 0 w₁ ∙ keeps.registered w)
      ]
