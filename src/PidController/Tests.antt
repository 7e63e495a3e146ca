-- ===== src/PidController/Tests.antt =====
-- The controller of onboard/src/pid_controller.cpp on whole numbers.
use coatheal_flight_software.Prelude.{◌≡◌, refl, true, [], ◌∷◌}
use coatheal_flight_software.Prelude.Int.{ℤ, pos, negsuc, ◌+ℤ◌, ◌-ℤ◌, ◌*ℤ◌}
use coatheal_flight_software.Double.{int_double, whole-IsTotal}
use coatheal_flight_software.PidController.{PidController, init, update}
use coatheal_flight_software.PidController.Bounds.{IsLimited, IsBetween, updates, updates-IsLimited}

abbrev heater : PidController ℤ
heater =
    init (record { kp = pos 2; ki = pos 1; kd = pos 0 }) (pos 0) (pos 10) (negsuc 999) (pos 1000)

-- 5 short of the target for 2 s: the terms are above the limit.
saturated :
    update heater (pos 45) (pos 40) (pos 2)
    ≡ (record heater { prev_error = pos 5; has_prev = true }, pos 10)
unfolding update int_double ◌+ℤ◌ ◌*ℤ◌ ◌-ℤ◌
saturated = refl

heater-IsLimited : IsLimited heater
unfolding int_double
heater-IsLimited = record {
  output_order = refl;
  output_low = refl;
  output_high = refl;
  integral_order = refl;
  integral_low = refl;
  integral_high = refl;
  integral_between = record { above = refl; below = refl };
}

updates-IsLimited_example :
    let t = updates heater ((pos 45, pos 44, pos 1) ∷ []) in
    let r = update t (pos 45) (pos 40) (pos 2) in
    IsBetween t.output_min t.output_max r.1
    × IsBetween t.integral_min t.integral_max t.integral
    × IsBetween t.integral_min t.integral_max r.0.integral
updates-IsLimited_example =
    updates-IsLimited heater ((pos 45, pos 44, pos 1) ∷ []) (pos 45) (pos 40) (pos 2) whole-IsTotal
      heater-IsLimited
