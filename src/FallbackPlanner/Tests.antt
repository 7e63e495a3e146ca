-- ===== src/FallbackPlanner/Tests.antt =====
-- A plan of onboard/src/fallback_planner.cpp with two motors, of which the first is done.
use coatheal_flight_software.Prelude.{
  ℕ, zero, ◌≤◌, true, false, some, [], ◌∷◌, ◌≡◌, refl, String, arith,
}
use coatheal_flight_software.Prelude.Int.{ℤ, pos, negsuc, ◌-ℤ◌}
use coatheal_flight_software.Double.{int_double}
use coatheal_flight_software.Phase.{float}
use coatheal_flight_software.FallbackPlanner.{
  armed, running, MotorState, pending, motor_done, MotorInput, TickInput, Action, Slot, Planner,
  is_armed,
}
use coatheal_flight_software.FallbackPlanner.Tick.{
  tick, complete_plan, complete_all, complete, decide, choose, open_window, deadline_passed,
  window_phase,
}
use coatheal_flight_software.FallbackPlanner.Bends.{ticks, count_running, run, run-count_running}
use coatheal_flight_software.FallbackPlanner.Start.{IsStart, tick_starts}

abbrev bend : MotorState → Slot ℤ
bend s = record {
  plan = record {
    configured = true;
    target_usteps = pos 800;
    hold_s = pos 5;
    speed_hz = pos 0;
    state = s;
  };
  ticks_since_start = 0;
}

abbrev planner : Planner ℤ
planner = record {
  cfg = record { bend_min_c = negsuc 39; bend_max_c = pos 40; bend_deadline_s = pos 1800 };
  slots = bend motor_done ∷ bend pending ∷ [];
  state = armed;
  deadline_started = false;
  deadline_start = 0;
  last_error = "";
  dirty = false;
}

abbrev cold : MotorInput ℤ
cold = record {
  enabled = true;
  zeroed = true;
  healthy = true;
  moving_or_holding = false;
  aborted = false;
  abort_reason = "";
  group_temp_c = some (negsuc 9);
}

abbrev floating : TickInput ℤ
floating = record { fallback_active = true; phase = float; now = 7; motors = cold ∷ cold ∷ [] }

-- `std::to_string`, on the numbers of the two motors.
abbrev number : ℕ → String
number zero = "0"
number _ = "1"

abbrev second_bend : Action ℤ
second_bend = record { motor_id = 1; target_usteps = pos 800; hold_s = pos 5; speed_hz = pos 0 }

second_starts : (tick number floating planner).1 ≡ some second_bend
unfolding tick complete_plan complete_all complete decide choose open_window deadline_passed
    int_double ◌-ℤ◌
second_starts = refl

tick_starts_example :
    let p₁ = complete_plan number floating.motors planner in
    (is_armed planner.state ≡ true)
    × (window_phase floating ≡ true)
    × (count_running p₁.slots ≡ 0)
    × ((tick number floating planner).0.state ≡ running)
    × IsStart p₁.cfg
        (deadline_passed floating.now (open_window floating p₁))
        0
        floating.motors
        p₁.slots
        (tick number floating planner).0.slots
        second_bend
        1
tick_starts_example = tick_starts number floating planner second_bend second_starts

run-count_running_example :
    count_running (run number (ticks floating ∷ ticks floating ∷ []) planner).slots ≤ 1
run-count_running_example =
    run-count_running number (ticks floating ∷ ticks floating ∷ []) planner (omega arith)
