-- ===== src/StepperChannel/Setup.antt =====
-- The settings and the constructor of onboard/src/stepper_channel.cpp. `none` is success, `some` the
-- error text.
use coatheal_flight_software.Prelude.{
  Bool, true, false, not, ◌&&◌, ◌||◌, Option, none, some, String, if◌then◌else◌,
}
use coatheal_flight_software.Prelude.Int.{ℤ, pos, ◌==ℤ◌, ltb_ℤ}
use coatheal_flight_software.Double.{Double, nought}
use coatheal_flight_software.MotionLock.{MotionLock}
use coatheal_flight_software.StepperDriver.{StepperDriver}
use coatheal_flight_software.StepperChannel.{
  Channel, Config, idle, in_leg, is_supported_microstep, release_lock_if_held, latch_step_loss,
  clamp_hz,
}

module _ {D W : Type 0} ⦃d : Double W⦄ where
  open d use {of_int, lt, le, mul, div, is_finite, llround}

  unfoldable pub set_speed : W → Channel D W → Channel D W × Option String
  unfolding clamp_hz
  set_speed hz c =
      if le hz nought
      then (c, some "step_hz must be > 0")
      else (record c { step_hz = clamp_hz c.cfg hz }, none)

  -- The source appends the ceiling to its second error text.
  unfoldable pub set_accel : W → Channel D W → Channel D W × Option String
  set_accel accel c =
      if not (is_finite accel) || le accel nought
      then (c, some "accel must be > 0 full-steps/s^2")
      else if lt c.cfg.max_accel_steps_per_s2 accel
      then (c, some "accel exceeds stepper.max_accel_steps_per_s2")
      else (record c { cfg = record c.cfg { accel_steps_per_s2 = accel } }, none)

  module _ (v : StepperDriver D W) where
    unfoldable pub set_run_current : W → Channel D W → Channel D W × Option String
    set_run_current amps c = elim c.driver [
      | none ↦ (c, some "no driver")
      | some drv ↦
          (let (refused, drv₁) = v.set_run_current amps drv in
            (record c { driver = some drv₁ }, refused))
    ]

    -- `ActiveCheck`, with its result left out.
    unfoldable pub active_check : Channel D W → Channel D W
    active_check c = elim c.driver [
      | none ↦ c
      | some drv ↦ record c { driver = some (v.active_check drv).1 }
    ]

    -- The rescaling of the positions at the end of `SetMicrostep`.
    unfoldable pub rescale : ℤ → Channel D W → Channel D W
    rescale divisor c =
        let scale = div (of_int divisor) (of_int c.microstep) in
        let scaled = λ (p : ℤ). llround (mul (of_int p) scale) in
        if not (c.microstep ==ℤ divisor) && ltb_ℤ (pos 0) c.microstep
        then record c {
          position = scaled c.position;
          target = scaled c.target;
          retract_target = scaled c.retract_target;
          microstep = divisor;
        }
        else record c { microstep = divisor }

    unfoldable pub set_microstep : ℤ → Channel D W → Channel D W × Option String
    unfolding is_supported_microstep
    set_microstep divisor c =
        if not (is_supported_microstep divisor)
        then (c, some "microstep must be 1, 2, 4, 8, 16, 32, 64, 128, or 256")
        else elim c.driver [
          | none ↦ (rescale divisor c, none)
          | some drv ↦
              (let drv₁ = v.set_microstep divisor drv in
                let c₁ = record c { driver = some drv₁ } in
                if v.healthy drv₁
                then (rescale divisor c₁, none)
                else (c₁, some "driver microstep configuration failed"))
        ]

    -- The new state and the driver's verdict.
    unfoldable pub set_enabled : Bool → Channel D W → Channel D W × Bool
    unfolding latch_step_loss release_lock_if_held
    set_enabled on c = elim c.driver [
      | none ↦ (c, false)
      | some drv ↦
          (let (driver_ok, drv₁) = v.enable on drv in
            let c₁ = record c { driver = some drv₁ } in
            let c₂ =
              if in_leg c.mode then latch_step_loss "motor disabled while moving" c₁ else c₁ in
            let off = record c₂ {
              enabled = false;
              is_moving = false;
              mode = idle;
              current_step_hz = nought;
            } in
            if not on
            then (release_lock_if_held off, driver_ok)
            else if not driver_ok
            then (c₁, false)
            else (record c₁ { enabled = true }, true))
    ]

    -- The constructor, on a configuration and a lock pointer; the pulse thread is not started here.
    unfoldable pub init : Config W → Option D → Option MotionLock → Channel D W
    unfolding is_supported_microstep
    init cfg₀ driver lock =
        let hz =
          if lt cfg₀.max_step_hz cfg₀.default_step_hz
          then cfg₀.max_step_hz
          else cfg₀.default_step_hz in
        let default_hz = if le hz nought then cfg₀.max_step_hz else hz in
        let cfg = record cfg₀ { default_step_hz = default_hz } in
        let divisor = if is_supported_microstep cfg.microstep then cfg.microstep else pos 4 in
        let fresh : Channel D W = record {
          cfg = cfg;
          driver = driver;
          lock = lock;
          position = pos 0;
          target = pos 0;
          step_hz = default_hz;
          current_step_hz = nought;
          microstep = divisor;
          enabled = false;
          is_moving = false;
          hold_remaining_s = nought;
          last_source = "init";
          mode = idle;
          lock_held = false;
          retract_target = pos 0;
          retract_after_hold = false;
          fractional_steps = nought;
          last_driver_retry = 0;
          driver_loss_seen = 0;
          step_loss_events = 0;
          position_uncertain = false;
          step_loss_reason = "";
        } in
        elim driver [
          | none ↦ fresh
          | some drv ↦
              (let drv₁ = v.set_microstep divisor drv in
                let (on, drv₂) = v.enable true drv₁ in
                if cfg.enable_on_boot
                then record fresh { driver = some drv₂; enabled = on }
                else record fresh { driver = some drv₁ })
        ]
