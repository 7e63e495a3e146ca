-- ===== src/StepperChannel/Tests.antt =====
-- A motor of onboard/src/stepper_channel.cpp on the simulated driver.
use coatheal_flight_software.Prelude.{ℕ, ◌≤◌, true, false, none, some, [], ◌∷◌, ◌≡◌, refl, arith}
use coatheal_flight_software.Prelude.Int.{ℤ, pos, negsuc, abs, ◌+ℤ◌, ◌-ℤ◌, ◌*ℤ◌, ◌==ℤ◌}
use coatheal_flight_software.Double.{int_double}
use coatheal_flight_software.MotionLock.{free, try_acquire}
use coatheal_flight_software.StepperDriver.Simulated
use coatheal_flight_software.StepperDriver.Simulated.{Simulated, simulated}
use coatheal_flight_software.StepperChannel.{
  Channel, Config, moving, is_supported_microstep, release_lock_if_held,
}
use coatheal_flight_software.StepperChannel.Setup.{set_enabled}
use coatheal_flight_software.StepperChannel.Pull.{acquire_pull, arm_acquired, arm_locked}
use coatheal_flight_software.StepperChannel.Setup
use coatheal_flight_software.StepperChannel.Commands.{move_steps}
use coatheal_flight_software.StepperChannel.Leak.{IsLeaked, ticks, move_steps_leak}
use coatheal_flight_software.StepperChannel.Calls.{moves, enables, acquires_pull, arms_pull, serve}
use coatheal_flight_software.StepperChannel.Interlock.{Frame, IsInterlocked}
use coatheal_flight_software.StepperChannel.Reached.{serve-IsInterlocked, init-IsInterlocked}
use coatheal_flight_software.StepperChannel.Pulses.{issue_pulses}
use coatheal_flight_software.StepperChannel.Travel.{
  IsReliable, IsReady, Travels, issue_pulses_travel, issue_pulses_all,
}

abbrev pub motor_config : ℕ → Config ℤ
motor_config id = record {
  channel_id = pos id;
  full_steps_per_rev = pos 200;
  max_step_hz = pos 400;
  default_step_hz = pos 200;
  accel_steps_per_s2 = pos 1000;
  max_accel_steps_per_s2 = pos 5000;
  lead_mm_per_rev = pos 1;
  microstep = pos 4;
  max_position_steps = 1000;
  samples = [];
  pull_travel_full_steps = pos 10;
  pull_hold_s = pos 2;
  enable_on_boot = true;
  use_pulse_thread = false;
  driver_retry_ms = 5000;
}

-- An enabled motor as the controller builds it.
abbrev pub motor : ℕ → Channel (Simulated ℤ) ℤ
motor id = Setup.init simulated (motor_config id) (some Simulated.init) (some free)

-- Motor 0 on its way from 0 to 5.
abbrev mover : Channel (Simulated ℤ) ℤ
mover = record (motor 0) { mode = moving; target = pos 5; enabled = true }

abbrev frame_zero : Frame
frame_zero = record { id = pos 0; has_lock = true; holder = free.holder }

motor-IsInterlocked : IsInterlocked frame_zero (motor 0)
motor-IsInterlocked =
    (init-IsInterlocked simulated {f = frame_zero} (motor_config 0) (some Simulated.init)
      (some free) refl refl refl refl).0

serve-IsInterlocked_example : IsInterlocked frame_zero (serve simulated (moves (pos 5)) (motor 0))
serve-IsInterlocked_example =
    serve-IsInterlocked simulated {f = frame_zero} (moves (pos 5)) (motor 0) motor-IsInterlocked

issue_pulses_travel_example : Travels 3 mover (issue_pulses simulated 3 mover)
issue_pulses_travel_example = issue_pulses_travel simulated 3 mover

-- The simulated driver takes every step while it is enabled.
abbrev IsOn : Simulated ℤ → Type 0
IsOn s = s.is_enabled ≡ true

simulated-IsReliable : IsReliable simulated IsOn
unfolding simulated Simulated.step
simulated-IsReliable = record {
  steps = λ forward s h. ground (arith, h);
  steps_on = λ forward s h. ground (arith, h);
  runs = λ s h. refl;
  runs_on = λ s h. h;
}

mover-IsReady : IsReady IsOn mover
unfolding Setup.init simulated
mover-IsReady =
    (record (Simulated.init {W = ℤ}) { is_enabled = true; microstep = pos 4 }, refl, refl)

issue_pulses_all_example : (issue_pulses simulated 3 mover).1 ≡ 3
unfolding Setup.init is_supported_microstep ◌-ℤ◌
issue_pulses_all_example =
    issue_pulses_all simulated IsOn simulated-IsReliable 3 mover mover-IsReady refl

-- Motor 0 holds the lock and is on its way from 0 to 5, and is told to go back by 5.
abbrev holder : Channel (Simulated ℤ) ℤ
holder = record mover { lock = some (record { holder = pos 0 }); lock_held = true }

holder_here : (holder.target +ℤ negsuc 4) ==ℤ holder.position ≡ true
unfolding Setup.init is_supported_microstep ◌+ℤ◌
holder_here = refl

holder_limit : abs (holder.target +ℤ negsuc 4) ≤ holder.cfg.max_position_steps
unfolding Setup.init is_supported_microstep ◌+ℤ◌
holder_limit = omega arith

move_steps_leak_example :
    ((move_steps (negsuc 4) holder).1 ≡ none)
    × IsLeaked
        (record { holder = pos 0 })
        (ticks ((10, pos 1) ∷ []) (move_steps (negsuc 4) holder).0)
move_steps_leak_example =
    move_steps_leak (negsuc 4) ((10, pos 1) ∷ []) (record { holder = pos 0 }) holder refl refl refl
      holder_here holder_limit

-- A disable between the two steps of `ArmPullCycle`: the motor is disabled, moving and holds the lock.
late_disable :
    let c =
      serve simulated arms_pull
        (serve simulated (enables false) (serve simulated acquires_pull (motor 0))) in
    (c.mode ≡ moving) × (c.enabled ≡ false) × (c.lock_held ≡ true)
unfolding serve Setup.init set_enabled acquire_pull arm_acquired arm_locked simulated try_acquire
    is_supported_microstep release_lock_if_held ◌*ℤ◌
late_disable = (refl, refl, refl)
