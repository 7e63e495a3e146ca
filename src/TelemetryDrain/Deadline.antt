-- ===== src/TelemetryDrain/Deadline.antt =====
-- When onboard/src/telemetry_drain.cpp stops its replay.
use coatheal_flight_software.Prelude.{ℕ, ◌+◌, ◌*◌, ◌/◌, ◌≤◌, ◌≡◌, arith}
use coatheal_flight_software.TelemetryDrain.{replay_deadline}

-- At 1 Hz the replay starts in the first 150 ms of a tick; with a period that is shorter by 150 ms or
-- more it does not start at all. The clock has run for a second at least.
pub replay_deadline_lem :
    (second tick_start period : ℕ)
    → second ≤ tick_start
    → period + second * 150 / 1000 ≤ second
    → (replay_deadline second tick_start second ≡ tick_start + second * 150 / 1000)
      × (replay_deadline second tick_start period ≤ tick_start)
unfolding replay_deadline
replay_deadline_lem second tick_start period h k = ground (arith, h, k)
