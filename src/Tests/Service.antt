-- ===== src/Tests/Service.antt =====
-- The theorems about src/service.rs at two clocks: WinFsp is never there, or at once.
use arfw.Base.{ℕ, ◌+◌, ◌≢◌, true, false, ok, [], ◌∷◌}
use arfw.Service.Ends.{IsClock, run_service-ends}
use arfw.Service.Run.{ServiceApi, out_of_fuel, finished, is_running, is_stopped, run_service}
use arfw.Service.Protocol.{Protocol, run_service-Protocol}
use native.Mathlib.Nat.{le_refl}

abbrev clock : ServiceApi ℕ
clock = record {
  Error = Unit {0};
  register = λ w. (ok tt, w);
  set_service_status = λ status w. (ok tt, w);
  winfsp_init = λ w. (false, w);
  winfsp_init_or_die = λ w. (false, w);
  now = λ w. w;
  sleep = λ n w. w + n;
  run_daemon_internal = λ w. (ok tt, w);
}

clock-IsClock : IsClock clock
clock-IsClock = record {
  status_later = λ status w. le_refl w;
  init_later = λ w. le_refl w;
  slept = λ n w. le_refl (w + n);
}

run_service-ends_example : (run_service clock 3).0 ≢ out_of_fuel
run_service-ends_example = run_service-ends clock clock-IsClock 3

-- WinFsp is there at once, and the daemon ends well.
abbrev ready : ServiceApi ℕ
ready = record clock { winfsp_init = λ w. (true, w); winfsp_init_or_die = λ w. (true, w) }

ready-IsClock : IsClock ready
ready-IsClock = record {
  status_later = λ status w. le_refl w;
  init_later = λ w. le_refl w;
  slept = λ n w. le_refl (w + n);
}

run_service-Protocol_example : Protocol ready 0 (is_running ∷ is_stopped ∷ []) finished
unfolding run_service
run_service-Protocol_example = run_service-Protocol ready ready-IsClock 3
