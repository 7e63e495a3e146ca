-- ===== src/StepperDriver/Simulated.antt =====
-- onboard/src/hal/simulated_stepper_driver.cpp, with the defaults of `StepperDriver` for what it does
-- not override.
use coatheal_flight_software.Prelude.{
  ℕ, ◌+◌, ◌%◌, ◌^◌, Bool, true, false, Option, none, some, if◌then◌else◌, String,
}
use coatheal_flight_software.Prelude.Int.{ℤ, pos, ltb_ℤ}
use coatheal_flight_software.Double.{Double, nought}
use coatheal_flight_software.StepperDriver.{StepperDriver}

pub record Simulated (W : Type 0) : Type 0 where
  pub is_enabled : Bool
  pub last_dir : Bool
  pub microstep : ℤ
  pub run_current_a_rms : W
  pub pulses : ℕ

module _ {W : Type 0} ⦃d : Double W⦄ where
  open d use {le}

  unfoldable pub init : Simulated W
  init = record {
    is_enabled = false;
    last_dir = true;
    microstep = pos 1;
    run_current_a_rms = nought;
    pulses = 0;
  }

  unfoldable pub step : Bool → Simulated W → Bool × Simulated W
  step forward s =
      if s.is_enabled
      then (true, record s { last_dir = forward; pulses = (s.pulses + 1) % 2 ^ 64 })
      else (false, s)

  unfoldable pub set_microstep : ℤ → Simulated W → Simulated W
  set_microstep divisor s = if ltb_ℤ (pos 0) divisor then record s { microstep = divisor } else s

  unfoldable pub set_run_current : W → Simulated W → Option String × Simulated W
  set_run_current a_rms s =
      if le a_rms nought
      then (some "run current must be > 0", s)
      else (none, record s { run_current_a_rms = a_rms })

  -- The overridden methods above, and the defaults of the base class.
  unfoldable pub simulated : StepperDriver (Simulated W) W
  unfolding step set_microstep set_run_current
  simulated = record {
    enable = λ on s. (true, record s { is_enabled = on });
    step = step;
    set_microstep = set_microstep;
    healthy = λ s. true;
    active_check = λ s. (true, s);
    set_run_current = set_run_current;
    thermal_state = λ s. 0;
    last_error = λ s. "";
    poll = λ s. s;
    step_loss_events = λ s. 0;
    step_loss_reason = λ s. "";
    take_step_loss_stop = λ s. (false, s);
    confirm_target = λ s. s;
    note_step_rate = λ hz steady s. s;
  }
