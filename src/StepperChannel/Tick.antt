-- ===== src/StepperChannel/Tick.antt =====
-- `Tick` and one round of `PulseThreadBody` of onboard/src/stepper_channel.cpp.
use coatheal_flight_software.Prelude.{
  ℕ, ◌-◌, Bool, true, false, not, ◌&&◌, ◌||◌, Option, none, some, leb, ◌==◌, if◌then◌else◌,
}
use coatheal_flight_software.Prelude.Int.{pos, pos_part, ◌==ℤ◌}
use coatheal_flight_software.Double.{Double, nought, one, max_of}
use coatheal_flight_software.StepperDriver.{StepperDriver}
use coatheal_flight_software.StepperChannel.{
  Channel, idle, moving, holding, retracting, is_holding, is_idle, in_leg, release_lock_if_held,
  latch_step_loss, abort_move_for_step_loss, update_ramp_speed,
}
use coatheal_flight_software.StepperChannel.Pulses.{
  absorb_driver_step_loss, issue_pulses, report_step_rate, remaining,
}

module _ {D W : Type 0} ⦃d : Double W⦄ (v : StepperDriver D W) where
  open d use {of_int, lt, le, add, sub, mul, div, trunc}

  -- The retry of an unhealthy driver at time `now`.
  unfoldable pub retry_driver : ℕ → D → Channel D W → Channel D W
  retry_driver now drv c =
      if c.last_driver_retry == 0 || leb c.cfg.driver_retry_ms (now - c.last_driver_retry)
      then (let (answers, drv₁) = v.active_check drv in
          let drv₂ = if answers then v.set_microstep c.microstep drv₁ else drv₁ in
          let (on, drv₃) = v.enable true drv₂ in
          let c₁ =
            if answers && c.enabled
            then record c { driver = some drv₃; enabled = on; last_driver_retry = now }
            else record c { driver = some drv₂; last_driver_retry = now } in
          (absorb_driver_step_loss v c₁).0)
      else c

  -- The first part of `Tick`; `true` if it ended the tick.
  unfoldable pub check_driver : ℕ → Channel D W → Channel D W × Bool
  check_driver now c = elim c.driver [
    | none ↦ (c, false)
    | some drv ↦
        if not (v.healthy drv) && is_idle c.mode
        then (retry_driver now drv c, false)
        else if c.enabled && not (in_leg c.mode)
        then (let drv₁ = v.poll (v.note_step_rate nought false drv) in
            let (c₁, stop) = absorb_driver_step_loss v (record c { driver = some drv₁ }) in
            if stop && is_holding c₁.mode then (abort_move_for_step_loss c₁, true) else (c₁, false))
        else (c, false)
  ]

  -- The driver, if the channel is enabled and its chip has shut down.
  abbrev pub overheated : Channel D W → Option D
  overheated c = elim c.driver [
    | none ↦ none
    | some drv ↦ if c.enabled && leb 2 (v.thermal_state drv) then some drv else none
  ]

  unfoldable pub shut_down : D → Channel D W → Channel D W
  unfolding latch_step_loss release_lock_if_held
  shut_down drv c =
      let c₁ = latch_step_loss "driver over-temperature shutdown: the chip cut its power stage" c in
      release_lock_if_held (record c₁ {
        driver = some (v.enable false drv).1;
        enabled = false;
        target = c.position;
        retract_target = c.position;
        is_moving = false;
        mode = idle;
        hold_remaining_s = nought;
        retract_after_hold = false;
        current_step_hz = nought;
        fractional_steps = nought;
        last_source = "safety:OVERTEMP";
      })

  -- The countdown of a hold, and what follows it.
  unfoldable pub hold_tick : W → Channel D W → Channel D W
  unfolding release_lock_if_held
  hold_tick dt c =
      let left = max_of nought (sub c.hold_remaining_s dt) in
      let c₁ = record c { hold_remaining_s = left } in
      let rest = record c₁ { fractional_steps = nought; current_step_hz = nought } in
      if not (le left nought)
      then c₁
      else if not c.retract_after_hold
      then release_lock_if_held (record rest { mode = idle; is_moving = false })
      else if c.position ==ℤ c.retract_target
      then release_lock_if_held (record rest {
        target = c.retract_target;
        mode = idle;
        is_moving = false;
        retract_after_hold = false;
      })
      else record rest { target = c.retract_target; mode = retracting; is_moving = true }

  -- What follows a leg that has reached its target.
  unfoldable pub finish_leg : Channel D W → Channel D W
  unfolding release_lock_if_held
  finish_leg c =
      let rest = record c { is_moving = false; current_step_hz = nought } in
      elim c.mode [
        | moving ↦
            if lt nought c.hold_remaining_s
            then record rest { mode = holding }
            else release_lock_if_held (record rest { mode = idle })
        | retracting ↦
            release_lock_if_held (record rest { mode = idle; retract_after_hold = false })
        | _ ↦ release_lock_if_held (record rest { mode = idle })
      ]

  -- The end of `Tick`: the pulses of this tick.
  unfoldable pub move_tick : W → Channel D W → Channel D W
  move_tick dt c =
      let c₁ = report_step_rate v (update_ramp_speed dt (pos (remaining c)) c) in
      let due = add c₁.fractional_steps (mul (mul c₁.current_step_hz (of_int c₁.microstep)) dt) in
      let count = pos_part (trunc due) in
      let c₂ = record c₁ { fractional_steps = sub due (of_int (pos count)) } in
      let (c₃, issued) = issue_pulses v count c₂ in
      if c₃.position ==ℤ c₃.target
      then finish_leg (record c₃ { fractional_steps = nought })
      else record c₃ { is_moving = true }

  -- The part of `Tick` after the thermal check.
  unfoldable pub motion_tick : W → Channel D W → Channel D W
  motion_tick dt c = elim c.mode [
    | holding ↦ hold_tick dt c
    | idle ↦ record c { is_moving = false; current_step_hz = nought }
    | _ ↦
        if c.position ==ℤ c.target
        then finish_leg c
        else if c.cfg.use_pulse_thread
        then record c { is_moving = true }
        else move_tick dt c
  ]

  unfoldable pub tick : ℕ → W → Channel D W → Channel D W
  tick now dt c =
      if le dt nought
      then c
      else (let (c₁, ended) = check_driver now c in
          if ended
          then c₁
          else elim (overheated c₁) [ some drv ↦ shut_down drv c₁ | none ↦ motion_tick dt c₁ ])

  -- One round of the pulse thread that finds a leg to run, `dt` seconds after the last ramp update.
  unfoldable pub pulse_round : W → Channel D W → Channel D W
  pulse_round dt c =
      if in_leg c.mode && not (c.position ==ℤ c.target)
      then (let dt₁ = if lt dt nought then nought else dt in
          let most = div (of_int (pos 1)) (of_int (pos 20)) in
          let dt₂ = if lt most dt₁ then most else dt₁ in
          let c₁ = update_ramp_speed dt₂ (pos (remaining c)) c in
          if lt (mul c₁.current_step_hz (of_int c₁.microstep)) one
          then c₁
          else (issue_pulses v 1 (report_step_rate v c₁)).0)
      else c
