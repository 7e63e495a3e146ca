-- ===== src/HeaterScheduler/Tests.antt =====
-- Calls of the scheduler of onboard/src/heater_scheduler.cpp on whole numbers.
use coatheal_flight_software.Prelude.{ℕ, ◌≤◌, ◌≡◌, refl, true, false, some, List, [], ◌∷◌, length}
use coatheal_flight_software.Prelude.Int.{ℤ, pos, negsuc, ◌+ℤ◌, ◌*ℤ◌, ◌-ℤ◌}
use coatheal_flight_software.Double.{int_double}
use coatheal_flight_software.HeaterScheduler.{
  HeaterScheduler, Call, motion_active, no_heater, serve,
}
use coatheal_flight_software.HeaterScheduler.Limits.{ℤ-IsFinite, count_on, serve_limits}

abbrev two_heaters : HeaterScheduler ℤ
two_heaters = record {
  power = record {
    max_active_heaters = 1;
    heater_nominal_w = pos 3;
    max_thermal_w = pos 6;
    energy_budget_wh = pos 9;
  };
  electronics_heater_index = no_heater;
  energy_consumed_wh = pos 0;
  budget_exhausted = false;
  last_inhibited = false;
}

-- An hour of two heaters; motor 1 holds the lock.
abbrev inhibited : Call ℤ
inhibited = record {
  lock = some (record { holder = pos 1 });
  requested = pos 1 ∷ pos 1 ∷ [];
  deprioritize = false;
  dt = pos 3600;
}

-- The same with a free lock.
abbrev hour : Call ℤ
hour = record inhibited { lock = some (record { holder = negsuc 0 }) }

abbrev as_ranked : List (ℕ × ℤ) → List (ℕ × ℤ)
as_ranked ranked = ranked

-- The first heater runs for the hour.
hour_runs :
    serve as_ranked two_heaters hour
    ≡ (record two_heaters { energy_consumed_wh = pos 3 }, pos 1 ∷ pos 0 ∷ [])
unfolding serve int_double ◌+ℤ◌ ◌*ℤ◌ ◌-ℤ◌ motion_active
hour_runs = refl

serve_limits_example :
    (length (serve as_ranked two_heaters hour).1 ≡ 2)
    × (count_on (serve as_ranked two_heaters hour).1 ≤ 1)
    × ((serve as_ranked two_heaters hour).0.budget_exhausted ≡ true
        → count_on (serve as_ranked two_heaters hour).1 ≡ 0)
serve_limits_example = serve_limits as_ranked ℤ-IsFinite two_heaters hour
