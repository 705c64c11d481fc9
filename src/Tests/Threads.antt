-- ===== src/Tests/Threads.antt =====
-- The theorems about interleaved threads at concrete runs.
use arfw.Base.{refl, false, [], ◌∷◌}
use arfw.Daemon.Loop.{added}
use arfw.Watcher.Watch.{device_interface_arrival}
use arfw.Watcher.Threads.{
  over, Shared, deliver, boxes, registers, succeeds, unregisters, frees, starts, calls, Reach,
  start, next, IsSafe, Reach-IsSafe,
}

-- A watcher is made, one callback runs, and the watcher is dropped.
abbrev released : Shared
released = record {
  owner = over;
  live = false;
  registered = false;
  in_flight = [];
  sent = added ∷ [];
  fault = false;
  not_ended = false;
}

one_callback : Reach released
unfolding deliver
one_callback =
    let watching = next (next (next start (boxes refl)) (registers refl)) (succeeds refl refl) in
    let running = next watching (starts device_interface_arrival refl) in
    let sent = next running (calls device_interface_arrival [] [] refl) in
    next (next sent (unregisters refl refl)) (frees refl)

Reach-IsSafe_example : IsSafe released
Reach-IsSafe_example = Reach-IsSafe one_callback refl
