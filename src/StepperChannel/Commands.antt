-- ===== src/StepperChannel/Commands.antt =====
-- The command surface of onboard/src/stepper_channel.cpp. Positions are exact integers: the sums that
-- the code forms on `std::int64_t` are taken not to overflow. `none` is success, `some` the error text.
use coatheal_flight_software.Prelude.{
  Bool, false, not, ◌||◌, Option, none, some, String, ltb, if◌then◌else◌,
}
use coatheal_flight_software.Prelude.Int.{ℤ, pos, abs, ◌==ℤ◌, leb_ℤ, ◌+ℤ◌}
use coatheal_flight_software.Double.{Double, nought, fabs}
use coatheal_flight_software.StepperChannel.{
  Channel, idle, moving, holding, release_lock_if_held, acquire_lock_for_motion,
}

-- The limit of the guard against an overflow of `llround`.
abbrev pub most_usteps : {W : Type 0} ⦃d : Double W⦄ → W
most_usteps ⦃d⦄ = d.of_int (pos 9_000_000_000_000_000)

module _ {D W : Type 0} ⦃d : Double W⦄ where
  open d use {of_int, lt, le, mul, div, is_finite, llround}

  -- The lock is taken only if `needed`.
  abbrev pub acquire_if : Bool → Channel D W → Channel D W × Option String
  acquire_if needed c = if needed then acquire_lock_for_motion c else (c, none)

  -- `MoveSteps`, after the lock is taken.
  abbrev pub start_move : ℤ → Channel D W → Channel D W
  start_move target c =
      let here = c.position ==ℤ target in
      record c {
        target = target;
        hold_remaining_s = nought;
        retract_target = c.position;
        retract_after_hold = false;
        mode = if here then idle else moving;
        is_moving = not here;
        last_source = "cmd:MOVE";
      }

  unfoldable pub move_steps : ℤ → Channel D W → Channel D W × Option String
  unfolding acquire_lock_for_motion
  move_steps delta c =
      let target = c.target +ℤ delta in
      let (c₁, refused) = acquire_if (not (target ==ℤ c.position)) c in
      if not c.enabled
      then (c, some "channel disabled")
      else if ltb c.cfg.max_position_steps (abs target)
      then (c, some "target exceeds max_position_steps")
      else elim refused [ some e ↦ (c₁, some e) | none ↦ (start_move target c₁, none) ]

  -- `MoveToSteps`, after the lock is taken.
  abbrev pub start_bend : ℤ → W → Channel D W → Channel D W
  start_bend target hold c =
      let here = c.position ==ℤ target in
      record c {
        target = target;
        hold_remaining_s = hold;
        retract_target = c.position;
        retract_after_hold = false;
        mode = if not here then moving else if lt nought hold then holding else idle;
        is_moving = not here;
        last_source = "cmd:BEND";
      }

  unfoldable pub move_to_steps : ℤ → W → Channel D W → Channel D W × Option String
  unfolding acquire_lock_for_motion
  move_to_steps target hold c =
      let (c₁, refused) = acquire_if (not (c.position ==ℤ target) || lt nought hold) c in
      if not c.enabled
      then (c, some "channel disabled")
      else if ltb c.cfg.max_position_steps (abs target)
      then (c, some "target exceeds max_position_steps")
      else if lt hold nought
      then (c, some "hold must be >= 0")
      else elim refused [ some e ↦ (c₁, some e) | none ↦ (start_bend target hold c₁, none) ]

  abbrev pub usteps_per_mm : Channel D W → W
  usteps_per_mm c =
      div (mul (of_int c.cfg.full_steps_per_rev) (of_int c.microstep)) c.cfg.lead_mm_per_rev

  unfoldable pub move_millimeters : W → Channel D W → Channel D W × Option String
  move_millimeters mm c =
      let usteps = mul mm (usteps_per_mm c) in
      if not (is_finite mm)
      then (c, some "distance must be finite")
      else if lt most_usteps (fabs usteps)
      then (c, some "distance too large")
      else (let (c₁, refused) = move_steps (llround usteps) c in
          elim refused [
            | some e ↦ (c₁, some e)
            | none ↦ (record c₁ { last_source = "cmd:MOVE_MM" }, none)
          ])

  unfoldable pub move_to_millimeters : W → W → Channel D W → Channel D W × Option String
  move_to_millimeters mm hold c =
      let usteps = mul mm (usteps_per_mm c) in
      if not (is_finite mm)
      then (c, some "distance must be finite")
      else if lt most_usteps (fabs usteps)
      then (c, some "distance too large")
      else (let (c₁, refused) = move_to_steps (llround usteps) hold c in
          elim refused [
            | some e ↦ (c₁, some e)
            | none ↦ (record c₁ { last_source = "cmd:BEND_MM" }, none)
          ])

  unfoldable pub rotate : W → Channel D W → Channel D W × Option String
  rotate revolutions c =
      if leb_ℤ c.cfg.full_steps_per_rev (pos 0)
      then (c, some "full_steps_per_rev invalid")
      else move_steps
          (llround (mul (mul revolutions (of_int c.cfg.full_steps_per_rev)) (of_int c.microstep))) c

  unfoldable pub home : Channel D W → Channel D W × Option String
  unfolding acquire_lock_for_motion
  home c =
      let here = c.position ==ℤ pos 0 in
      let (c₁, refused) = acquire_if (not here) c in
      if not c.enabled then (c, some "channel disabled") else elim refused [
        | some e ↦ (c₁, some e)
        | none ↦ (
          record c₁ {
            target = pos 0;
            hold_remaining_s = nought;
            retract_target = pos 0;
            retract_after_hold = false;
            mode = if here then idle else moving;
            is_moving = not here;
            last_source = "cmd:HOME";
          },
          none,
        )
      ]

  unfoldable pub set_position_zero : Channel D W → Channel D W
  unfolding release_lock_if_held
  set_position_zero c = release_lock_if_held (record c {
    position = pos 0;
    target = pos 0;
    retract_target = pos 0;
    hold_remaining_s = nought;
    fractional_steps = nought;
    current_step_hz = nought;
    is_moving = false;
    mode = idle;
    retract_after_hold = false;
    last_source = "cmd:ZERO";
    position_uncertain = false;
    step_loss_reason = "";
  })

  unfoldable pub stop : Channel D W → Channel D W
  unfolding release_lock_if_held
  stop c = release_lock_if_held (record c {
    target = c.position;
    retract_target = c.position;
    hold_remaining_s = nought;
    is_moving = false;
    fractional_steps = nought;
    current_step_hz = nought;
    mode = idle;
    retract_after_hold = false;
    last_source = "cmd:STOP";
  })
