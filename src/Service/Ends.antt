-- ===== src/Service/Ends.antt =====
-- The wait of `run_service` in src/service.rs, by the clock.
use arfw.Base.{
  ℕ, zero, suc, ◌+◌, ◌*◌, ◌≤◌, ◌≡◌, ◌≢◌, false, leb, arith, Bool-cases, Result-cases, inl, inr,
}
use arfw.Service.Run.{
  ServiceApi, ServiceStatus, not_available, pending, is_running, is_stopped, winfsp_wait_timeout,
  winfsp_poll_interval, Outcome, finished, unavailable, died, failed, out_of_fuel, report,
  report-after, run_and_stop, serve, wait_loop, run_service,
}

module _ {World : Type 0} (api : ServiceApi World) where
  open api use {
    Error, register, set_service_status, winfsp_init, winfsp_init_or_die, now, sleep,
    run_daemon_internal,
  }

  -- Time does not go back, and a sleep lasts as long as it is asked to.
  pub record IsClock : Type 0 where
    pub status_later :
        (status : ServiceStatus) (w : World) → now w ≤ now (set_service_status status w).1
    pub init_later : (w : World) → now w ≤ now (winfsp_init w).1
    pub slept : (n : ℕ) (w : World) → now w + n ≤ now (sleep n w)

  -- An outcome of the program.
  abbrev IsReal : Outcome api → Type 0
  IsReal finished = Unit {0}
  IsReal unavailable = Unit {0}
  IsReal died = Unit {0}
  IsReal (failed e) = Unit {0}
  IsReal out_of_fuel = ⊥

  report-IsReal :
      (status : ServiceStatus) (k : World → Outcome api × World) (w : World)
      → IsReal (k (set_service_status status w).1).0
      → IsReal (report api status k w).0
  report-IsReal status k w h = report-after api (λ (o, _). IsReal o) status k w (λ e. tt {0}) h

  run_and_stop-IsReal : (w : World) → IsReal (run_and_stop api w).0
  run_and_stop-IsReal w =
      let w' = (run_daemon_internal w).1 in
      elim (Result-cases (run_daemon_internal w).0) [
        | inl (e, broken) ↦ rw (broken, run_and_stop) (tt {0})
        | inr (_, done) ↦
            rw (done, run_and_stop) (report-IsReal is_stopped (λ w₁. (finished, w₁)) w' (tt {0}))
      ]

  serve-IsReal : (w : World) → IsReal (serve api w).0
  unfolding serve
  serve-IsReal w =
      let w₁ = (winfsp_init_or_die w).1 in
      elim (Bool-cases (winfsp_init_or_die w).0) [
        | inr dead ↦ rw (dead, serve) (tt {0})
        | inl alive ↦
            rw (alive, serve)
              (report-IsReal is_running (run_and_stop api) w₁
                (run_and_stop-IsReal (set_service_status is_running w₁).1))
      ]

  -- A round of the wait: what it does when WinFsp is missing before the deadline is given.
  round-IsReal :
      (fuel deadline checkpoint : ℕ) (next : World → Outcome api × World) (w : World)
      → ((w' : World) → IsReal (next w').0)
      → (leb deadline (now (winfsp_init w).1) ≡ false
          → IsReal
              (wait_loop api fuel deadline (checkpoint + 1) next (
                sleep winfsp_poll_interval
                  (set_service_status (pending (checkpoint + 1)) (winfsp_init w).1).1)).0)
      → IsReal (wait_loop api (suc fuel) deadline checkpoint next w).0
  unfolding wait_loop
  round-IsReal fuel deadline checkpoint next w real more =
      let w₁ = (winfsp_init w).1 in
      elim (Bool-cases (winfsp_init w).0) [
        | inl ready ↦ rw (ready, IsReal) (real w₁)
        | inr waits ↦ elim (Bool-cases (leb deadline (now w₁))) [
          | inl late ↦
              rw (waits, IsReal)
                (rw (late, IsReal)
                  (report-IsReal not_available (λ w₂. (unavailable, w₂)) w₁ (tt {0})))
          | inr early ↦
              rw (waits, IsReal)
                (rw (early, IsReal)
                  (report-IsReal (pending (checkpoint + 1))
                    (λ w₂.
                      wait_loop api fuel deadline (checkpoint + 1) next
                        (sleep winfsp_poll_interval w₂))
                    w₁ (more early)))
        ]
      ]

  wait_loop-IsReal :
      IsClock
      → (fuel deadline checkpoint : ℕ) (next : World → Outcome api × World) (w : World)
      → deadline ≤ now w + 500 * fuel
      → ((w' : World) → IsReal (next w').0)
      → IsReal (wait_loop api (suc fuel) deadline checkpoint next w).0
  wait_loop-IsReal clock zero deadline checkpoint next w h real =
      round-IsReal zero deadline checkpoint next w real
        λ early. absurd (grind (arith, h, early, clock.init_later w))
  wait_loop-IsReal clock (suc fuel) deadline checkpoint next w h real =
      round-IsReal (suc fuel) deadline checkpoint next w real λ early.
        let w₁ = (winfsp_init w).1 in
        let w₂ = (set_service_status (pending (checkpoint + 1)) w₁).1 in
        wait_loop-IsReal clock fuel deadline (checkpoint + 1) next (sleep winfsp_poll_interval w₂)
          (omega (
            arith,
            h,
            clock.init_later w,
            clock.status_later (pending (checkpoint + 1)) w₁,
            clock.slept winfsp_poll_interval w₂,
          ))
          real

  run_service-IsReal : IsClock → (w : World) → IsReal (run_service api w).0
  unfolding run_service
  run_service-IsReal clock w =
      let w₁ = (register w).1 in
      elim (Result-cases (register w).0) [
        | inl (e, refused) ↦ rw (refused, IsReal) (tt {0})
        | inr (_, registered) ↦
            rw (registered, IsReal)
              (wait_loop-IsReal clock 120 (now w₁ + winfsp_wait_timeout) 0 (serve api) w₁
                (omega arith) serve-IsReal)
      ]

  -- If time does not go back and a sleep lasts as long as it is asked to, the service's wait for WinFsp
  -- ends within 121 rounds: WinFsp is there, the time is over, or a status report fails.
  pub run_service-ends : IsClock → (w : World) → (run_service api w).0 ≢ out_of_fuel
  run_service-ends clock w e = rw e at (run_service-IsReal clock w)
