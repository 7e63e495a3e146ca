-- ===== src/StepperChannel.antt =====
-- onboard/src/stepper_channel.cpp: one motor. `D` is the state of its driver and `W` the type of
-- `double` values. The methods run under the channel's mutex, so each is one step. `lock_` points to
-- the lock of the controller: a channel holds its value, which the controller puts there before a call
-- and takes back after it. A time is a number of milliseconds; 0 is a time that was never set.
pub mod Pulses
pub mod Tick
pub mod Commands
pub mod Setup
pub mod Pull
pub mod Interlock
pub mod Calls
pub mod Reached
mod Armed
pub mod Travel
pub mod Leak
pub mod Tests
use Prim.Native.String.{◌++◌}
use coatheal_flight_software.Prelude.{
  ℕ, ◌+◌, ◌-◌, ◌%◌, ◌^◌, Bool, true, false, not, ◌&&◌, ◌||◌, Option, none, some, String, ◌==◌, List,
  if◌then◌else◌,
}
use coatheal_flight_software.Prelude.Int.{ℤ, pos, ◌==ℤ◌, ltb_ℤ}
use coatheal_flight_software.Double.{Double, nought, min_of, max_of}
use coatheal_flight_software.StepperDriver.{StepperDriver}
use coatheal_flight_software.MotionLock.{MotionLock, try_acquire, release}

pub record Config (W : Type 0) : Type 0 where
  pub channel_id : ℤ
  pub full_steps_per_rev : ℤ
  pub max_step_hz : W
  pub default_step_hz : W
  pub accel_steps_per_s2 : W
  pub max_accel_steps_per_s2 : W
  pub lead_mm_per_rev : W
  pub microstep : ℤ
  pub max_position_steps : ℕ
  pub samples : List ℕ
  pub pull_travel_full_steps : ℤ
  pub pull_hold_s : W
  pub enable_on_boot : Bool
  pub use_pulse_thread : Bool
  pub driver_retry_ms : ℕ

pub data Mode : Type 0 where
  idle moving holding retracting : Mode

pub record Channel (D W : Type 0) : Type 0 where
  pub cfg : Config W
  pub driver : Option D
  pub lock : Option MotionLock
  pub position : ℤ
  pub target : ℤ
  pub step_hz : W
  pub current_step_hz : W
  pub microstep : ℤ
  pub enabled : Bool
  pub is_moving : Bool
  pub hold_remaining_s : W
  pub last_source : String
  pub mode : Mode
  pub lock_held : Bool
  pub retract_target : ℤ
  pub retract_after_hold : Bool
  pub fractional_steps : W
  pub last_driver_retry : ℕ
  pub driver_loss_seen : ℕ
  pub step_loss_events : ℕ
  pub position_uncertain : Bool
  pub step_loss_reason : String

abbrev pub is_holding : Mode → Bool
is_holding holding = true
is_holding _ = false

abbrev pub is_idle : Mode → Bool
is_idle idle = true
is_idle _ = false

-- `kMoving` or `kRetracting`.
abbrev pub in_leg : Mode → Bool
in_leg moving = true
in_leg retracting = true
in_leg _ = false

unfoldable pub is_supported_microstep : ℤ → Bool
is_supported_microstep n =
    n ==ℤ pos 1
    || n ==ℤ pos 2
    || n ==ℤ pos 4
    || n ==ℤ pos 8
    || n ==ℤ pos 16
    || n ==ℤ pos 32
    || n ==ℤ pos 64
    || n ==ℤ pos 128
    || n ==ℤ pos 256

module _ {D W : Type 0} where
  -- The state of the channel.
  unfoldable pub release_lock_if_held : Channel D W → Channel D W
  unfolding release
  release_lock_if_held c = elim c.lock [
    | none ↦ c
    | some l ↦
        if c.lock_held
        then record c { lock = some (release c.cfg.channel_id l); lock_held = false }
        else c
  ]

  -- `none` is success, and `some` the error text.
  unfoldable pub acquire_lock_for_motion : Channel D W → Channel D W × Option String
  unfolding try_acquire
  acquire_lock_for_motion c = elim c.lock [
    | none ↦ (c, none)
    | some l ↦
        if c.lock_held
        then (c, none)
        else (let (done, l') = try_acquire c.cfg.channel_id l in
            if done
            then (record c { lock = some l'; lock_held = true }, none)
            else (c, some "motion lock held by another motor"))
  ]

  unfoldable pub latch_step_loss : String → Channel D W → Channel D W
  latch_step_loss reason c = record c {
    step_loss_events = (c.step_loss_events + 1) % 2 ^ 64;
    position_uncertain = true;
    step_loss_reason = reason;
  }

  unfoldable pub acknowledge_step_loss : Channel D W → Channel D W
  acknowledge_step_loss c = record c { position_uncertain = false; step_loss_reason = "" }

module _ {W : Type 0} ⦃d : Double W⦄ where
  open d use {lt, add, sub}

  unfoldable pub clamp_hz : Config W → W → W
  clamp_hz cfg hz =
      let hz₁ = if lt hz nought then nought else hz in
      if lt cfg.max_step_hz hz₁ then cfg.max_step_hz else hz₁

  -- One change of the rate by the acceleration, cut off at the goal.
  unfoldable pub ramp : W → W → W → W
  ramp goal change hz =
      if lt hz goal
      then min_of (add hz change) goal
      else if lt goal hz
      then max_of (sub hz change) goal
      else hz

module _ {D W : Type 0} ⦃d : Double W⦄ where
  open d use {of_int, le, mul, div, sqrt}

  unfoldable pub abort_move_for_step_loss : Channel D W → Channel D W
  unfolding release_lock_if_held
  abort_move_for_step_loss c = release_lock_if_held (record c {
    target = c.position;
    retract_target = c.position;
    is_moving = false;
    mode = idle;
    hold_remaining_s = nought;
    retract_after_hold = false;
    current_step_hz = nought;
    fractional_steps = nought;
    last_source = "safety:STEPLOSS";
  })

  -- The rate towards which the ramp goes: the commanded one, or less to be able to brake in time.
  unfoldable pub cruise_or_brake : Channel D W → ℤ → W
  cruise_or_brake c remaining =
      let divisor = if ltb_ℤ (pos 1) c.microstep then c.microstep else pos 1 in
      let room = div (of_int remaining) (of_int divisor) in
      min_of c.step_hz
        (sqrt (max_of nought (mul (mul (of_int (pos 2)) c.cfg.accel_steps_per_s2) room)))

  unfoldable pub update_ramp_speed : W → ℤ → Channel D W → Channel D W
  unfolding clamp_hz cruise_or_brake ramp
  update_ramp_speed dt remaining c =
      if le dt nought
      then c
      else if in_leg c.mode
      then (let hz =
            ramp (cruise_or_brake c remaining) (mul c.cfg.accel_steps_per_s2 dt)
              c.current_step_hz in
          record c { current_step_hz = clamp_hz c.cfg hz })
      else record c { current_step_hz = nought }
