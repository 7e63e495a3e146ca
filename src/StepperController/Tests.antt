-- ===== src/StepperController/Tests.antt =====
-- The controller of onboard/src/stepper_controller.cpp with two simulated motors.
use coatheal_flight_software.Prelude.{
  ℕ, true, false, Option, some, List, [], ◌∷◌, ◌≡◌, refl, get_elem?, replicate,
}
use coatheal_flight_software.Prelude.Int.{ℤ, pos, ◌+ℤ◌}
use coatheal_flight_software.Double.{int_double, nought}
use coatheal_flight_software.MotionLock.{free}
use coatheal_flight_software.HeaterScheduler
use coatheal_flight_software.HeaterScheduler.{HeaterScheduler}
use coatheal_flight_software.StepperDriver.Simulated
use coatheal_flight_software.StepperDriver.Simulated.{Simulated, simulated}
use coatheal_flight_software.StepperChannel.{Channel, Config, is_idle, is_supported_microstep}
use coatheal_flight_software.StepperChannel.Tests.{motor_config}
use coatheal_flight_software.StepperChannel.Setup
use coatheal_flight_software.StepperChannel.Commands.{move_steps}
use coatheal_flight_software.StepperChannel.Calls.{moves, serve}
use coatheal_flight_software.StepperController.{
  Event, commands, handle, run, build, init, dispatch, apply, seen,
}
use coatheal_flight_software.StepperController.Safety.{IsNamed, one_in_motion, no_heat_in_motion}

abbrev two_motors : List (Config ℤ × Option (Simulated ℤ))
two_motors = (motor_config 0, some Simulated.init) ∷ (motor_config 1, some Simulated.init) ∷ []

two_motors-IsNamed : IsNamed {D = Simulated ℤ} two_motors
two_motors-IsNamed = (((refl, tt), (tt, tt)), (refl, (refl, tt)))

abbrev one_move : List (Event ℤ)
one_move = commands (pos 0) (moves (pos 5)) ∷ []

-- Motor 0 after the command.
abbrev mover : Channel (Simulated ℤ) ℤ
mover =
    serve simulated (moves (pos 5))
      (seen free (Setup.init simulated (motor_config 0) (some Simulated.init) (some free)))

mover_at : get_elem? (run simulated one_move (init simulated two_motors)).channels 0 ≡ some mover
unfolding run handle dispatch init build apply Setup.init
mover_at = refl

mover_moves : is_idle mover.mode ≡ false
unfolding serve Setup.init move_steps is_supported_microstep simulated ◌+ℤ◌
mover_moves = refl

abbrev two_heaters : HeaterScheduler ℤ
two_heaters =
    HeaterScheduler.init
      (record {
        max_active_heaters = 2;
        heater_nominal_w = pos 3;
        max_thermal_w = pos 6;
        energy_budget_wh = pos 9;
      })
      HeaterScheduler.no_heater

abbrev request : HeaterScheduler.Call ℤ
request = record {
  lock = some (run simulated one_move (init simulated two_motors)).lock;
  requested = pos 1 ∷ pos 1 ∷ [];
  deprioritize = false;
  dt = pos 1;
}

no_heat_in_motion_example :
    let r = HeaterScheduler.serve (λ ranked. ranked) two_heaters request in
    (r.1 ≡ replicate 2 nought)
    × (r.0.last_inhibited ≡ true)
    × (r.0.energy_consumed_wh ≡ two_heaters.energy_consumed_wh)
no_heat_in_motion_example =
    no_heat_in_motion simulated (λ ranked. ranked) two_heaters request two_motors one_move 0 mover
      two_motors-IsNamed refl mover_at mover_moves

one_in_motion_example :
    ((run simulated one_move (init simulated two_motors)).lock.holder ≡ mover.cfg.channel_id)
    × (is_idle mover.mode ≡ false → ◌≡◌ {A = ℕ} 0 0)
one_in_motion_example =
    one_in_motion simulated two_motors one_move 0 0 mover mover two_motors-IsNamed mover_at mover_at
      mover_moves
