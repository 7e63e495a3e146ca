-- ===== src/ControlTick/Tests.antt =====
-- Rounds of `Run` of onboard/src/system_controller.cpp on whole numbers.
use coatheal_flight_software.Prelude.{
  ℕ, ◌≡◌, refl, true, false, not, ◌&&◌, Option, none, some, List, [], ◌∷◌, length, replicate,
  get_elem?, arith,
}
use coatheal_flight_software.Prelude.Int.{ℤ, pos, ◌+ℤ◌}
use coatheal_flight_software.Double.{int_double, nought, one}
use coatheal_flight_software.Phase.{float}
use coatheal_flight_software.MotionLock as Lock
use coatheal_flight_software.HeaterScheduler as Scheduler
use coatheal_flight_software.HeaterScheduler.{no_heater}
use coatheal_flight_software.HeaterScheduler.Limits.{ℤ-IsFinite}
use coatheal_flight_software.HeaterScheduler.Zero.{is_off}
use coatheal_flight_software.StepperDriver.Simulated
use coatheal_flight_software.StepperDriver.Simulated.{Simulated, simulated}
use coatheal_flight_software.StepperChannel.{Channel, Config, is_idle, is_supported_microstep}
use coatheal_flight_software.StepperChannel.Tests.{motor_config}
use coatheal_flight_software.StepperChannel.Setup
use coatheal_flight_software.StepperChannel.Commands.{move_steps}
use coatheal_flight_software.StepperChannel.Calls
use coatheal_flight_software.StepperChannel.Calls.{moves}
use coatheal_flight_software.StepperController as Motors
use coatheal_flight_software.StepperController.{Event, commands}
use coatheal_flight_software.ThermalController as Thermal
use coatheal_flight_software.ThermalController.Types.{ThermalConfig}
use coatheal_flight_software.ThermalController.Monitor.{is_overtemp, temp_valid_for}
use coatheal_flight_software.PidAutotuner as Tuner
use coatheal_flight_software.PidAutotuner.{no_result}
use coatheal_flight_software.ControlTick.{Heating, TickInput, heat, tested, run, reset_control}
use coatheal_flight_software.ControlTick.Budget.{is_open_loop, run-heat_exhausted, heat_in_motion}
use coatheal_flight_software.ControlTick.Link.{SystemMode, ManualConfig, LinkInput, is_run, watch}
use coatheal_flight_software.ControlTick.Outage.{after, in_fallback, outage, watch-in_fallback}
use coatheal_flight_software.ControlTick.Safe.{heat_mode}
use coatheal_flight_software.ControlTick.Latched.{run-heat_latched}

abbrev one_heater : ThermalConfig ℤ
one_heater = record {
  heater_count = 1;
  pid = record { kp = pos 1; ki = pos 0; kd = pos 0 };
  max_duty = pos 1;
  temperature_channels = [];
  max_sample_temp_c = pos 85;
  uniformity_tolerance_c = pos 5;
  sample_floor_c = pos 10;
}

-- A tune of heater 0 runs.
abbrev heating : Heating ℤ
heating = record {
  thermal = Thermal.init one_heater;
  tuner = record {
    state = Tuner.running;
    cfg = record {
      setpoint_c = pos 40;
      relay_duty = pos 1;
      hysteresis_c = pos 2;
      cycles = pos 1;
      timeout_s = pos 900;
      abort_ceiling_c = pos 80;
    };
    result = no_result;
    error = "";
    start_s = pos 0;
    relay_on = true;
    first_on_phase = true;
    have_on_switch = false;
    last_on_switch_s = pos 0;
    trough_c = pos 0;
    peak_c = pos 0;
    peaks_c = [];
    troughs_c = [];
    periods_s = [];
  };
  tune_channel = pos 0;
  tune_commanded_duty = pos 0;
  test = record { active = false; heater_index = 0; duty = pos 0; until = pos 0 };
  scheduler =
      Scheduler.init
        (record {
          max_active_heaters = 1;
          heater_nominal_w = pos 3;
          max_thermal_w = pos 6;
          energy_budget_wh = pos 0;
        })
        no_heater;
  last_heater_duty = [];
}

-- RUN mode in the float phase with the sample at 90 °C, and all heaters commanded on.
abbrev hot : TickInput ℤ
hot = record {
  overrides = record {
    heaters_off = false;
    floor_control_enabled = false;
    single_heater_override = none;
    all_heaters_override = some (pos 1);
    heater_duty_overrides = [];
    temp_targets_c = [];
    pid_overrides = [];
    pid_override = none;
    bench_open_loop_heaters = true;
  };
  mode = SystemMode.run;
  fallback = false;
  phase = float;
  sensors = record { sample_temps_c = pos 90 ∷ []; sample_temp_valid = [] };
  tick_s = pos 1;
  now_s = pos 10;
  bench_mode = true;
  armed_at_test = true;
  lock_at_test = some Lock.free;
  clock_at_test = pos 0;
  armed_at_power = true;
  lock_at_power = some Lock.free;
}

abbrev cool : TickInput ℤ
cool = record hot { sensors = record { sample_temps_c = pos 20 ∷ []; sample_temp_valid = [] } }

abbrev as_ranked : List (ℕ × ℤ) → List (ℕ × ℤ)
as_ranked ranked = ranked

in_order : int_double.lt one nought ≡ false
unfolding int_double
in_order = refl

ceiling : int_double.lt one_heater.max_duty nought ≡ false
unfolding int_double
ceiling = refl

too_hot : is_overtemp one_heater hot.sensors 0 ≡ true
unfolding is_overtemp temp_valid_for int_double
too_hot = refl

safe_mode : is_run SystemMode.safe ≡ false
unfolding is_run
safe_mode = refl

heat_mode_example :
    is_off (heat as_ranked heating (record cool { mode = SystemMode.safe })).1 0 ≡ true
heat_mode_example =
    heat_mode ℤ-IsFinite in_order as_ranked heating (record cool { mode = SystemMode.safe }) 0
      safe_mode

run-heat_latched_example :
    (is_off (heat as_ranked heating hot).1 0 ≡ true)
    × (is_off (heat as_ranked (run as_ranked heating (hot ∷ cool ∷ [])) cool).1 0 ≡ true)
run-heat_latched_example =
    run-heat_latched ℤ-IsFinite in_order as_ranked heating hot (cool ∷ []) cool 0
      (record { latched = refl }) ceiling (omega arith) refl too_hot

abbrev manual : ManualConfig ℤ
manual = record {
  manual_first = true;
  link_loss_fallback_enabled = true;
  link_loss_fallback_s = pos 2;
}

abbrev up : LinkInput ℤ
up = record { mode = SystemMode.run; transmit_enabled = true; link_ok = true; tick_s = pos 1 }

abbrev down : LinkInput ℤ
down = record up { link_ok = false }

falls_back : in_fallback manual (down ∷ down ∷ up ∷ []) ≡ true
unfolding in_fallback outage is_run int_double ◌+ℤ◌
falls_back = refl

watch-in_fallback_example :
    ((watch manual (after manual (down ∷ up ∷ [])) down).0.fallback_active
      ≡ in_fallback manual (down ∷ down ∷ up ∷ []))
    × ((watch manual (after manual (down ∷ up ∷ [])) down).1
        ≡ (in_fallback manual (down ∷ down ∷ up ∷ []) && not (in_fallback manual (down ∷ up ∷ []))))
watch-in_fallback_example = watch-in_fallback manual down (down ∷ up ∷ [])

-- The budget is exhausted.
abbrev spent : Heating ℤ
spent = record heating {
  scheduler = record heating.scheduler { energy_consumed_wh = pos 9; budget_exhausted = true };
}

-- The open loop of the bench is not commanded.
abbrev closed : TickInput ℤ
closed = record cool { overrides = record cool.overrides { bench_open_loop_heaters = false } }

run-heat_exhausted_example :
    let r = run as_ranked spent (hot ∷ cool ∷ []) in
    let (after_tick, outputs) = heat as_ranked r closed in
    (is_open_loop closed ≡ false → outputs ≡ replicate (length (tested r closed).requested) nought)
    × (after_tick.scheduler.budget_exhausted ≡ true)
    × (after_tick.scheduler.energy_consumed_wh ≡ pos 9)
    × ((reset_control after_tick).scheduler.budget_exhausted ≡ false)
    × ((reset_control after_tick).scheduler.energy_consumed_wh ≡ nought)
run-heat_exhausted_example = run-heat_exhausted as_ranked spent (hot ∷ cool ∷ []) closed refl

abbrev one_motor : List (Config ℤ × Option (Simulated ℤ))
one_motor = (motor_config 0, some Simulated.init) ∷ []

abbrev one_move : List (Event ℤ)
one_move = commands (pos 0) (moves (pos 5)) ∷ []

-- The motor after the command.
abbrev mover : Channel (Simulated ℤ) ℤ
mover = Calls.serve simulated (moves (pos 5)) (
    Motors.seen Lock.free
      (Setup.init simulated (motor_config 0) (some Simulated.init) (some Lock.free)))

mover_at :
    get_elem? (Motors.run simulated one_move (Motors.init simulated one_motor)).channels 0
    ≡ some mover
unfolding Motors.run Motors.handle Motors.dispatch Motors.init Motors.build Motors.apply Setup.init
mover_at = refl

mover_moves : is_idle mover.mode ≡ false
unfolding Calls.serve Setup.init move_steps is_supported_microstep simulated ◌+ℤ◌
mover_moves = refl

-- The scheduler sees the lock of the motors.
abbrev moving_tick : TickInput ℤ
moving_tick = record closed {
  lock_at_power = some (Motors.run simulated one_move (Motors.init simulated one_motor)).lock;
}

heat_in_motion_example :
    ((heat as_ranked heating moving_tick).1
      ≡ replicate (length (tested heating moving_tick).requested) nought)
    × ((heat as_ranked heating moving_tick).0.scheduler.energy_consumed_wh
        ≡ heating.scheduler.energy_consumed_wh)
heat_in_motion_example =
    heat_in_motion as_ranked simulated heating moving_tick one_motor one_move 0 mover
      (((tt, tt)), (refl, tt)) refl mover_at mover_moves refl
