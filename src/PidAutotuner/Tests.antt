-- ===== src/PidAutotuner/Tests.antt =====
-- A tune of onboard/src/pid_autotuner.cpp on whole numbers.
use coatheal_flight_software.Prelude.{◌≡◌, refl, true, false, List, [], ◌∷◌, arith}
use coatheal_flight_software.Prelude.Int.{ℤ, pos, negsuc, ◌+ℤ◌, ◌-ℤ◌, ◌*ℤ◌}
use coatheal_flight_software.Double.{int_double}
use coatheal_flight_software.PidAutotuner.{
  PidAutotuner, Config, idle, done, start, tick, advance, switch_on, switch_off, finish, no_result,
  results, is_running,
}
use coatheal_flight_software.PidAutotuner.Cycles.{
  IsOrderly, Request, starting, ticking, run, serve, run-IsOrderly,
}

abbrev around_40 : Config ℤ
around_40 = record {
  setpoint_c = pos 40;
  relay_duty = pos 2;
  hysteresis_c = pos 2;
  cycles = pos 1;
  timeout_s = pos 900;
  abort_ceiling_c = pos 80;
}

abbrev most : ℤ
most = pos 1000

abbrev least : ℤ
least = negsuc 999

abbrev new_tuner : PidAutotuner ℤ
new_tuner = record {
  state = idle;
  cfg = around_40;
  result = no_result;
  error = "";
  start_s = pos 0;
  relay_on = true;
  first_on_phase = true;
  have_on_switch = false;
  last_on_switch_s = pos 0;
  trough_c = pos 0;
  peak_c = pos 0;
  peaks_c = [];
  troughs_c = [];
  periods_s = [];
}

-- Up, down, up and down: one period of 200 s.
abbrev one_cycle : List (Request ℤ)
one_cycle =
    starting around_40 (pos 0)
    ∷ ticking true (pos 43) (pos 100)
    ∷ ticking true (pos 37) (pos 200)
    ∷ ticking true (pos 43) (pos 300)
    ∷ ticking true (pos 37) (pos 400)
    ∷ []

one_cycle_done : (run most least new_tuner one_cycle).state ≡ done
unfolding run serve start tick advance switch_on switch_off finish results is_running int_double
    ◌+ℤ◌ ◌-ℤ◌ ◌*ℤ◌
one_cycle_done = refl

new_tuner-IsOrderly : IsOrderly new_tuner
unfolding is_running
new_tuner-IsOrderly = record { counted = λ h. ground arith; measured = λ h. ground arith }

run-IsOrderly_example : IsOrderly (run most least new_tuner one_cycle)
run-IsOrderly_example = run-IsOrderly most least new_tuner one_cycle new_tuner-IsOrderly
