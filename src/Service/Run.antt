-- ===== src/Service/Run.antt =====
-- src/service.rs: `run_service`, over the calls that it makes. Times are in milliseconds.
use arfw.Base.{ℕ, zero, suc, ◌+◌, Bool, true, false, ok, err, Result, leb, Result-cases, inl, inr}

pub data ServiceState : Type 0 where
  stopped start_pending running : ServiceState

pub data ExitCode : Type 0 where
  win32 : ℕ → ExitCode
  service_specific : ℕ → ExitCode

pub record ServiceStatus : Type 0 where
  pub current_state : ServiceState
  pub accepts_stop : Bool
  pub exit_code : ExitCode
  pub checkpoint : ℕ
  pub wait_hint : ℕ

pub data ServiceControl : Type 0 where
  stop interrogate other : ServiceControl

pub data HandlerResult : Type 0 where
  no_error not_implemented : HandlerResult

-- Whether the handler sends a shutdown request, and its answer.
unfoldable pub event_handler : ServiceControl → Bool × HandlerResult
event_handler stop = (true, no_error)
event_handler interrogate = (true, no_error)
event_handler other = (false, not_implemented)

-- The service control manager, the clock, WinFsp and the daemon. WinFsp's second start says whether the
-- process lives on.
pub record ServiceApi (World : Type 0) : Type 1 where
  pub Error : Type 0
  pub register : World → Result Error (Unit {0}) × World
  pub set_service_status : ServiceStatus → World → Result Error (Unit {0}) × World
  pub winfsp_init : World → Bool × World
  pub winfsp_init_or_die : World → Bool × World
  pub now : World → ℕ
  pub sleep : ℕ → World → World
  pub run_daemon_internal : World → Result Error (Unit {0}) × World

abbrev pub winfsp_wait_timeout : ℕ
winfsp_wait_timeout = 60000

abbrev pub winfsp_poll_interval : ℕ
winfsp_poll_interval = 500

abbrev pub not_available : ServiceStatus
not_available = record {
  current_state = stopped;
  accepts_stop = false;
  exit_code = service_specific 1;
  checkpoint = 0;
  wait_hint = 0;
}

abbrev pub pending : ℕ → ServiceStatus
pending checkpoint = record {
  current_state = start_pending;
  accepts_stop = false;
  exit_code = win32 0;
  checkpoint = checkpoint;
  wait_hint = winfsp_wait_timeout;
}

abbrev pub is_running : ServiceStatus
is_running = record {
  current_state = running;
  accepts_stop = true;
  exit_code = win32 0;
  checkpoint = 0;
  wait_hint = 0;
}

abbrev pub is_stopped : ServiceStatus
is_stopped = record {
  current_state = stopped;
  accepts_stop = false;
  exit_code = win32 0;
  checkpoint = 0;
  wait_hint = 0;
}

module _ {World : Type 0} (api : ServiceApi World) where
  open api use {
    Error, register, set_service_status, winfsp_init, winfsp_init_or_die, now, sleep,
    run_daemon_internal,
  }

  -- How the service can end. `out_of_fuel` is no behaviour of the program.
  pub data Outcome : Type 0 where
    finished : Outcome
    unavailable : Outcome
    died : Outcome
    failed : Error → Outcome
    out_of_fuel : Outcome

  -- `?` on a status report, before what comes after it.
  abbrev pub report : ServiceStatus → (World → Outcome × World) → World → Outcome × World
  report status k w =
      let (r, w') = set_service_status status w in elim r [ err e ↦ (failed e, w') | ok _ ↦ k w' ]

  -- The loop that waits for WinFsp, with fuel for its rounds, before what comes after it.
  unfoldable pub wait_loop : ℕ → ℕ → ℕ → (World → Outcome × World) → World → Outcome × World
  wait_loop zero deadline checkpoint next w = (out_of_fuel, w)
  wait_loop (suc fuel) deadline checkpoint next w =
      let (ready, w₁) = winfsp_init w in
      elim ready [
        | true ↦ next w₁
        | false ↦ elim (leb deadline (now w₁)) [
          | true ↦ report not_available (λ w₂. (unavailable, w₂)) w₁
          | false ↦
              report (pending (checkpoint + 1))
                (λ w₂.
                  wait_loop fuel deadline (checkpoint + 1) next (sleep winfsp_poll_interval w₂))
                w₁
        ]
      ]

  -- The daemon's run and the last report.
  abbrev pub run_and_stop : World → Outcome × World
  run_and_stop w =
      let (r, w') = run_daemon_internal w in
      elim r [ err e ↦ (failed e, w') | ok _ ↦ report is_stopped (λ w₁. (finished, w₁)) w' ]

  -- What follows the wait.
  unfoldable pub serve : World → Outcome × World
  serve w =
      let (alive, w') = winfsp_init_or_die w in
      elim alive [ false ↦ (died, w') | true ↦ report is_running run_and_stop w' ]

  -- A round takes at least 500 ms of the 60 s, so 121 rounds are enough.
  unfoldable pub run_service : World → Outcome × World
  unfolding wait_loop serve
  run_service w =
      let (r, w₁) = register w in
      elim r [
        | err e ↦ (failed e, w₁)
        | ok _ ↦ wait_loop 121 (now w₁ + winfsp_wait_timeout) 0 serve w₁
      ]

  -- The body of the service's thread; an error is only logged.
  unfoldable pub service_main : World → World
  service_main w = (run_service w).1

  -- What holds after a report, by whether it is taken.
  pub report-after :
      (P : Outcome × World → Type 0) (status : ServiceStatus) (k : World → Outcome × World)
      (w : World)
      → let w' = (set_service_status status w).1 in
        ((e : Error) → P (failed e, w')) → P (k w') → P (report status k w)
  report-after P status k w refused taken = elim (Result-cases (set_service_status status w).0) [
    | inl (e, r) ↦ rw (r, report) (refused e)
    | inr (_, r) ↦ rw (r, report) taken
  ]
