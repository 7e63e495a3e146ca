-- ===== src/ThermalController/Tests.antt =====
-- Calls of the thermal controller of onboard/src/thermal_controller.cpp on whole numbers.
use coatheal_flight_software.Prelude.{
  ◌≡◌, refl, true, false, none, some, [], ◌∷◌, All, length, get_or,
}
use coatheal_flight_software.Prelude.Int.{ℤ, pos, ◌+ℤ◌, ◌-ℤ◌, ◌*ℤ◌}
use coatheal_flight_software.Double.{int_double, whole-IsTotal, nought}
use coatheal_flight_software.Phase.{float}
use coatheal_flight_software.PidController.{update}
use coatheal_flight_software.PidController.Bounds.{IsBetween}
use coatheal_flight_software.ThermalController.{
  compute_requested_duty, observe, control_all, init, run, compute,
}
use coatheal_flight_software.ThermalController.Types.{
  ThermalConfig, Call, ControlOverrides, should_heat_phase,
}
use coatheal_flight_software.ThermalController.Monitor.{is_overtemp, temp_valid_for, latch_from}
use coatheal_flight_software.ThermalController.Loops.{
  control, control_from, hold_floor, direct_overrides, enforce,
}
use coatheal_flight_software.ThermalController.Rated.{IsCeiling}
use coatheal_flight_software.ThermalController.Duty.{run-IsBetween}
use coatheal_flight_software.ThermalController.Feedback.{compute_invalid}

-- Two heaters, on samples 1 and 0.
abbrev oven : ThermalConfig ℤ
oven = record {
  heater_count = 2;
  pid = record { kp = pos 1; ki = pos 0; kd = pos 0 };
  max_duty = pos 1;
  temperature_channels = 1 ∷ 0 ∷ [];
  max_sample_temp_c = pos 85;
  uniformity_tolerance_c = pos 5;
  sample_floor_c = pos 10;
}

abbrev no_overrides : ControlOverrides ℤ
no_overrides = record {
  heaters_off = false;
  floor_control_enabled = true;
  single_heater_override = none;
  all_heaters_override = none;
  heater_duty_overrides = [];
  temp_targets_c = [];
  pid_overrides = [];
  pid_override = none;
  bench_open_loop_heaters = false;
}

-- Sample 1 is too hot.
abbrev hot : Call ℤ
hot = record {
  phase = float;
  sensors = record { sample_temps_c = pos 5 ∷ pos 90 ∷ []; sample_temp_valid = true ∷ true ∷ [] };
  dt = pos 1;
  overrides = record no_overrides { all_heaters_override = some (pos 1) };
}

-- The same when it has cooled down.
abbrev cool : Call ℤ
cool = record hot {
  sensors = record { sample_temps_c = pos 5 ∷ pos 20 ∷ []; sample_temp_valid = true ∷ true ∷ [] };
}

-- Heater 0 measures sample 1.
hot_duties : (compute_requested_duty (init oven) hot).1 ≡ pos 0 ∷ pos 1 ∷ []
unfolding compute_requested_duty observe control_all latch_from is_overtemp temp_valid_for
    control_from control hold_floor direct_overrides enforce should_heat_phase update int_double
    ◌+ℤ◌ ◌*ℤ◌ ◌-ℤ◌
hot_duties = refl

ceiling : int_double.lt oven.max_duty nought ≡ false
unfolding int_double
ceiling = refl

oven-IsCeiling : IsCeiling oven.max_duty
unfolding int_double
oven-IsCeiling = record {
  nought_self = refl;
  max_self = refl;
  above_nought = refl;
  one_above_nought = refl;
  one_self = refl;
}

run-IsBetween_example :
    let duties = (compute_requested_duty (run (init oven) (compute hot ∷ [])) cool).1 in
    (length duties ≡ 2) × All (IsBetween nought oven.max_duty) duties
run-IsBetween_example = run-IsBetween oven (compute hot ∷ []) cool whole-IsTotal oven-IsCeiling

-- No sample is measured.
abbrev blind : Call ℤ
blind = record hot { sensors = record { sample_temps_c = []; sample_temp_valid = [] } }

unmeasured : temp_valid_for oven blind.sensors 0 ≡ false
unfolding temp_valid_for
unmeasured = refl

compute_invalid_example : get_or (compute_requested_duty (init oven) blind).1 0 nought ≡ nought
compute_invalid_example = compute_invalid (init oven) blind 0 ceiling refl unmeasured
