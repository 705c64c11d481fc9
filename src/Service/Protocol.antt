-- ===== src/Service/Protocol.antt =====
-- The statuses that `run_service` of src/service.rs reports, one after the other.
use arfw.Base.{
  ℕ, zero, suc, ◌+◌, ◌≡◌, ◌≢◌, refl, ◌∙◌, sym, List, [], ◌∷◌, ◌++◌, append_assoc, append-nil, leb,
  Bool-cases, Result-cases, inl, inr,
}
use arfw.Service.Ends.{IsClock, run_service-ends}
use arfw.Service.Run.{
  ServiceApi, ServiceStatus, not_available, pending, is_running, is_stopped, Outcome, finished,
  unavailable, died, failed, out_of_fuel, wait_loop, run_and_stop, serve, run_service,
  winfsp_poll_interval, report-after, winfsp_wait_timeout,
}

-- The same service manager with a log of the reports.
abbrev pub logged : {World : Type 0} → ServiceApi World → ServiceApi (World × List ServiceStatus)
logged api = record {
  Error = api.Error;
  register = λ (w, log). let (r, w') = api.register w in (r, (w', log));
  set_service_status = λ status (w, log).
      let (r, w') = api.set_service_status status w in (r, (w', log ++ (status ∷ [])));
  winfsp_init = λ (w, log). let (ready, w') = api.winfsp_init w in (ready, (w', log));
  winfsp_init_or_die = λ (w, log). let (alive, w') = api.winfsp_init_or_die w in (alive, (w', log));
  now = λ (w, log). api.now w;
  sleep = λ n (w, log). (api.sleep n w, log);
  run_daemon_internal = λ (w, log). let (r, w') = api.run_daemon_internal w in (r, (w', log));
}

module _ {World : Type 0} (api : ServiceApi World) where
  -- The reports from a checkpoint on, and the end that they lead to.
  pub data Protocol : ℕ → List ServiceStatus → Outcome (logged api) → Type 0 where
    not_registered : (e : api.Error) → Protocol 0 [] (failed e)
    dies : (c : ℕ) → Protocol c [] died
    waits :
        (c : ℕ) (reports : List ServiceStatus) (o : Outcome (logged api))
        → Protocol (c + 1) reports o
        → Protocol c (pending (c + 1) ∷ reports) o
    wait_refused : (c : ℕ) (e : api.Error) → Protocol c (pending (c + 1) ∷ []) (failed e)
    gives_up : (c : ℕ) → Protocol c (not_available ∷ []) unavailable
    give_up_refused : (c : ℕ) (e : api.Error) → Protocol c (not_available ∷ []) (failed e)
    run_fails : (c : ℕ) (e : api.Error) → Protocol c (is_running ∷ []) (failed e)
    finishes : (c : ℕ) → Protocol c (is_running ∷ is_stopped ∷ []) finished
    stop_refused : (c : ℕ) (e : api.Error) → Protocol c (is_running ∷ is_stopped ∷ []) (failed e)

  -- What a part of the run adds to the log.
  abbrev Adds : ℕ → List ServiceStatus → Outcome (logged api) → World × List ServiceStatus → Type 0
  Adds c log o (w, log') =
      (reports : List ServiceStatus) × (log' ≡ log ++ reports) × Protocol c reports o

  logged-IsClock : IsClock api → IsClock (logged api)
  logged-IsClock clock = record {
    status_later = λ status w. clock.status_later status w.0;
    init_later = λ w. clock.init_later w.0;
    slept = λ n w. clock.slept n w.0;
  }

  run_and_stop-Adds :
      (c : ℕ) (w : World) (log : List ServiceStatus)
      → let (o, end) = run_and_stop (logged api) (w, log ++ (is_running ∷ [])) in Adds c log o end
  run_and_stop-Adds c w log =
      let (ran, w') = api.run_daemon_internal w in
      let twice : (log ++ (is_running ∷ [])) ++ (is_stopped ∷ [])
          ≡ log ++ (is_running ∷ is_stopped ∷ []) =
        append_assoc log (is_running ∷ []) (is_stopped ∷ []) in
      elim (Result-cases ran) [
        | inl (e, broke) ↦ rw (broke, run_and_stop) (is_running ∷ [], refl, run_fails c e)
        | inr (_, done) ↦
            rw (done, run_and_stop)
              (report-after (logged api) (λ (o, end). Adds c log o end) is_stopped
                (λ w₁. (finished, w₁)) (w', log ++ (is_running ∷ []))
                (λ e. (is_running ∷ is_stopped ∷ [], twice, stop_refused c e))
                (is_running ∷ is_stopped ∷ [], twice, finishes c))
      ]

  serve-Adds :
      (c : ℕ) (w : World) (log : List ServiceStatus)
      → let (o, end) = serve (logged api) (w, log) in Adds c log o end
  unfolding serve
  serve-Adds c w log =
      let (alive, w₁) = api.winfsp_init_or_die w in
      elim (Bool-cases alive) [
        | inr dead ↦ rw (dead, serve) ([], sym (append-nil log), dies c)
        | inl lives ↦
            rw (lives, serve)
              (report-after (logged api) (λ (o, end). Adds c log o end) is_running
                (run_and_stop (logged api)) (w₁, log) (λ e. (is_running ∷ [], refl, run_fails c e))
                (run_and_stop-Adds c (api.set_service_status is_running w₁).1 log))
      ]

  -- A pending report in front of what comes after it.
  Adds-waits :
      (c : ℕ) (log : List ServiceStatus) (o : Outcome (logged api))
      (end : World × List ServiceStatus)
      → Adds (c + 1) (log ++ (pending (c + 1) ∷ [])) o end
      → Adds c log o end
  Adds-waits c log o end (reports, same, protocol) = (
    pending (c + 1) ∷ reports,
    same ∙ append_assoc log (pending (c + 1) ∷ []) reports,
    waits c reports o protocol,
  )

  wait_loop-Adds :
      (fuel deadline c : ℕ) (w : World) (log : List ServiceStatus)
      → let (o, end) = wait_loop (logged api) fuel deadline c (serve (logged api)) (w, log) in
        o ≢ out_of_fuel → Adds c log o end
  unfolding wait_loop
  wait_loop-Adds zero deadline c w log = λ real. absurd (real refl)
  wait_loop-Adds (suc fuel) deadline c w log =
      let (ready, w₁) = api.winfsp_init w in
      let Shows = λ (end : Outcome (logged api) × (World × List ServiceStatus)).
        end.0 ≢ out_of_fuel → Adds c log end.0 end.1 in
      elim (Bool-cases ready) [
        | inl there ↦ rw (there, wait_loop) (λ real. serve-Adds c w₁ log)
        | inr missing ↦ elim (Bool-cases (leb deadline (api.now w₁))) [
          | inl late ↦
              rw (missing, wait_loop)
                (rw late (
                  report-after (logged api) Shows not_available (λ w₂. (unavailable, w₂)) (w₁, log)
                    (λ e real. (not_available ∷ [], refl, give_up_refused c e))
                    (λ real. (not_available ∷ [], refl, gives_up c))))
          | inr early ↦
              let status = pending (c + 1) in
              let w₂ = (api.set_service_status status w₁).1 in
              let w₃ = api.sleep winfsp_poll_interval w₂ in
              let (o, end) =
                wait_loop (logged api) fuel deadline (c + 1) (serve (logged api))
                  (w₃, log ++ (status ∷ [])) in
              rw (missing, wait_loop)
                (rw early (
                  report-after (logged api) Shows status
                    (λ w'.
                      wait_loop (logged api) fuel deadline (c + 1) (serve (logged api))
                        ((logged api).sleep winfsp_poll_interval w'))
                    (w₁, log) (λ e real. (status ∷ [], refl, wait_refused c e))
                    (λ real.
                      Adds-waits c log o end
                        (wait_loop-Adds fuel deadline (c + 1) w₃ (log ++ (status ∷ [])) real))))
        ]
      ]

  -- If time does not go back and a sleep lasts as long as it is asked to, then what the service reports
  -- follows the protocol, whatever the service manager, WinFsp and the daemon answer: pending statuses
  -- with checkpoints 1, 2, 3 and so on while WinFsp is missing, and then either the stop with the service's
  -- own error code, or the running status and, if the daemon ends well, the stop. A report that is refused
  -- is the last. No report comes if the service cannot be registered, and none after the pending ones if
  -- WinFsp ends the process.
  pub run_service-Protocol :
      IsClock api
      → (w : World)
      → let (o, (w', reports)) = run_service (logged api) (w, []) in Protocol 0 reports o
  unfolding run_service
  run_service-Protocol clock w =
      let (registered, w₁) = api.register w in
      let ends = run_service-ends (logged api) (logged-IsClock clock) (w, []) in
      elim (Result-cases registered) [
        | inl (e, refused) ↦ rw (refused, run_service) (not_registered e)
        | inr (_, done) ↦
            let real = rw (done, run_service) at ends in
            let (reports, same, protocol) =
              wait_loop-Adds 121 (api.now w₁ + winfsp_wait_timeout) 0 w₁ [] real in
            rw (done, run_service) (rw same protocol)
      ]
