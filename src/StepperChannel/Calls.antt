-- ===== src/StepperChannel/Calls.antt =====
-- The calls that change a channel of onboard/src/stepper_channel.cpp, as data. `ArmPullCycle` is two of
-- them, since other calls may come between its two sections.
use coatheal_flight_software.Prelude.{ℕ, Bool}
use coatheal_flight_software.Prelude.Int.{ℤ}
use coatheal_flight_software.Double.{Double}
use coatheal_flight_software.StepperDriver.{StepperDriver}
use coatheal_flight_software.StepperChannel.{Channel, acknowledge_step_loss}
use coatheal_flight_software.StepperChannel.Tick.{tick, pulse_round}
use coatheal_flight_software.StepperChannel.Commands.{
  move_steps, move_to_steps, move_millimeters, move_to_millimeters, rotate, home, set_position_zero,
  stop,
}
use coatheal_flight_software.StepperChannel.Setup.{
  set_speed, set_accel, set_run_current, set_microstep, set_enabled, active_check,
}
use coatheal_flight_software.StepperChannel.Pull.{acquire_pull, arm_acquired}

pub data Call (W : Type 0) : Type 0 where
  ticks : ℕ → W → Call W
  pulse_rounds : W → Call W
  moves : ℤ → Call W
  bends : ℤ → W → Call W
  moves_mm : W → Call W
  bends_mm : W → W → Call W
  rotates : W → Call W
  homes : Call W
  zeroes : Call W
  acknowledges : Call W
  stops : Call W
  sets_speed : W → Call W
  sets_accel : W → Call W
  sets_current : W → Call W
  sets_microstep : ℤ → Call W
  enables : Bool → Call W
  checks : Call W
  acquires_pull : Call W
  arms_pull : Call W

module _ {D W : Type 0} ⦃d : Double W⦄ (v : StepperDriver D W) where
  -- The channel after the call.
  unfoldable pub serve : Call W → Channel D W → Channel D W
  serve (ticks now dt) c = tick v now dt c
  serve (pulse_rounds dt) c = pulse_round v dt c
  serve (moves delta) c = (move_steps delta c).0
  serve (bends target hold) c = (move_to_steps target hold c).0
  serve (moves_mm mm) c = (move_millimeters mm c).0
  serve (bends_mm mm hold) c = (move_to_millimeters mm hold c).0
  serve (rotates revolutions) c = (rotate revolutions c).0
  serve homes c = (home c).0
  serve zeroes c = set_position_zero c
  serve acknowledges c = acknowledge_step_loss c
  serve stops c = stop c
  serve (sets_speed hz) c = (set_speed hz c).0
  serve (sets_accel accel) c = (set_accel accel c).0
  serve (sets_current amps) c = (set_run_current v amps c).0
  serve (sets_microstep divisor) c = (set_microstep v divisor c).0
  serve (enables on) c = (set_enabled v on c).0
  serve checks c = active_check v c
  serve acquires_pull c = acquire_pull c
  serve arms_pull c = arm_acquired c
