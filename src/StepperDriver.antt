-- ===== src/StepperDriver.antt =====
-- onboard/include/coatheal/hal/stepper_driver.hpp: the interface between a channel and its driver, as
-- functions of the driver's state, with those methods whose results a channel acts on. Results that
-- the channel ignores are left out.
pub mod Simulated
use coatheal_flight_software.Prelude.{ℕ, Bool, String, Option}
use coatheal_flight_software.Prelude.Int.{ℤ}

pub record StepperDriver (D W : Type 0) : Type 0 where
  pub enable : Bool → D → Bool × D
  pub step : Bool → D → Bool × D
  pub set_microstep : ℤ → D → D
  pub healthy : D → Bool
  pub active_check : D → Bool × D
  -- The error text, or `none` if the current was applied.
  pub set_run_current : W → D → Option String × D
  pub thermal_state : D → ℕ
  pub last_error : D → String
  pub poll : D → D
  pub step_loss_events : D → ℕ
  pub step_loss_reason : D → String
  pub take_step_loss_stop : D → Bool × D
  pub confirm_target : D → D
  pub note_step_rate : W → Bool → D → D
