-- ===== src/StepperChannel/Pulses.antt =====
-- The pulse loop of onboard/src/stepper_channel.cpp and its step-loss protection.
use Prim.Native.String.{◌++◌}
use coatheal_flight_software.Prelude.{
  ℕ, zero, suc, ◌+◌, ◌-◌, ◌%◌, ◌^◌, min, Bool, true, false, not, ◌&&◌, ◌||◌, none, some, ◌==◌, ltb,
  if◌then◌else◌,
}
use coatheal_flight_software.Prelude.Int.{ℤ, pos, negsuc, abs, ◌==ℤ◌, ltb_ℤ, ◌+ℤ◌, ◌-ℤ◌}
use coatheal_flight_software.Double.{Double, nought, one, fabs, max_of}
use coatheal_flight_software.StepperDriver.{StepperDriver}
use coatheal_flight_software.StepperChannel.{
  Channel, idle, release_lock_if_held, latch_step_loss, abort_move_for_step_loss,
}
use text.Mathlib.Text.{◌==◌ as str_eq}

abbrev pub stepped_position : Bool → ℤ → ℤ
stepped_position forward p = if forward then p +ℤ pos 1 else p +ℤ negsuc 0

module _ {D W : Type 0} where
  abbrev pub remaining : Channel D W → ℕ
  remaining c = abs (c.target -ℤ c.position)

  abbrev pub has_driver : Channel D W → Bool
  has_driver c = elim c.driver [ none ↦ false | some drv ↦ true ]

module _ {D W : Type 0} ⦃d : Double W⦄ (v : StepperDriver D W) where
  open d use {of_int, lt, le, sub, mul, div}

  -- The new state, and whether the driver asks for the move to be stopped.
  unfoldable pub absorb_driver_step_loss : Channel D W → Channel D W × Bool
  absorb_driver_step_loss c = elim c.driver [
    | none ↦ (c, false)
    | some drv ↦
        let events = v.step_loss_events drv in
        let seen = record c {
          step_loss_events =
              (c.step_loss_events + (events + 2 ^ 64 - c.driver_loss_seen) % 2 ^ 64) % 2 ^ 64;
          driver_loss_seen = events;
          position_uncertain = true;
          step_loss_reason = v.step_loss_reason drv;
        } in
        let c₁ = if events == c.driver_loss_seen then c else seen in
        let (stop, drv₁) = v.take_step_loss_stop drv in (record c₁ { driver = some drv₁ }, stop)
  ]

  -- The teardown after the driver `drv` refused a step; `events` is the event count before the step.
  unfoldable pub refuse_step : ℕ → D → Channel D W → Channel D W
  unfolding latch_step_loss release_lock_if_held
  refuse_step events drv c =
      let why = v.last_error drv in
      let reason =
        "motor disabled mid-move: "
        ++ (if str_eq why "" then "the driver refused a step" else why) in
      let c₁ = if c.step_loss_events == events then latch_step_loss reason c else c in
      release_lock_if_held (record c₁ {
        driver = some (v.enable false drv).1;
        enabled = false;
        target = c.position;
        is_moving = false;
        mode = idle;
        hold_remaining_s = nought;
        retract_after_hold = false;
        last_source = "safety:STEPLOSS";
      })

  -- One round of the loop: the new state, whether a step was taken, and whether to go on.
  unfoldable pub pulse : Bool → Channel D W → Channel D W × Bool × Bool
  pulse forward c = elim c.driver [
    | none ↦ (c, false, false)
    | some drv ↦
        let (stepped, drv₁) = v.step forward drv in
        let (c₁, stop) = absorb_driver_step_loss (record c { driver = some drv₁ }) in
        let c₂ =
          if stepped then record c₁ { position = stepped_position forward c₁.position } else c₁ in
        if stop
        then (abort_move_for_step_loss c₂, stepped, false)
        else if stepped
        then (c₂, true, true)
        else elim c₂.driver [
          | none ↦ (c₂, false, false)
          | some drv₂ ↦ (refuse_step c.step_loss_events drv₂ c₂, false, false)
        ]
  ]

  -- The loop: the new state, and the number of steps taken.
  unfoldable pub pulses : ℕ → Bool → Channel D W → Channel D W × ℕ
  pulses zero forward c = (c, 0)
  pulses (suc n) forward c =
      let (c₁, stepped, more) = pulse forward c in
      let issued : ℕ = if stepped then 1 else 0 in
      let rest = pulses n forward c₁ in if more then (rest.0, issued + rest.1) else (c₁, issued)

  -- After the loop: the end of the leg is confirmed.
  unfoldable pub confirm_leg : ℕ → Channel D W → Channel D W
  confirm_leg issued c =
      if ltb 0 issued && c.enabled && c.position ==ℤ c.target
      then elim c.driver [
        | none ↦ c
        | some drv ↦ (absorb_driver_step_loss (record c { driver = some (v.confirm_target drv) })).0
      ]
      else c

  unfoldable pub issue_pulses : ℕ → Channel D W → Channel D W × ℕ
  issue_pulses allowed c =
      if not (has_driver c) || not c.enabled || allowed == 0
      then (c, 0)
      else if c.position ==ℤ c.target
      then (c, 0)
      else (let (c₁, issued) = pulses (min allowed (remaining c)) (ltb_ℤ c.position c.target) c in
          (confirm_leg issued c₁, issued))

  unfoldable pub report_step_rate : Channel D W → Channel D W
  report_step_rate c = elim c.driver [
    | none ↦ c
    | some drv ↦
        let small = mul (div one (of_int (pos 1_000_000_000))) (max_of one c.step_hz) in
        let steady =
          lt nought c.current_step_hz && le (fabs (sub c.current_step_hz c.step_hz)) small in
        record c { driver = some (v.note_step_rate c.current_step_hz steady drv) }
  ]
