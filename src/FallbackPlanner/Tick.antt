-- ===== src/FallbackPlanner/Tick.antt =====
-- `Tick` of onboard/src/fallback_planner.cpp: the bend to start now, if any.
use Prim.Native.String.{◌++◌}
use text.Mathlib.Text.{◌==◌ as str_eq}
use coatheal_flight_software.Prelude.{
  ℕ, ◌+◌, Bool, true, false, not, ◌&&◌, ◌||◌, Option, none, some, List, [], ◌∷◌, String, leb, any,
  get_elem?, if◌then◌else◌,
}
use coatheal_flight_software.Prelude.Int.{pos, ◌-ℤ◌}
use coatheal_flight_software.Double.{Double}
use coatheal_flight_software.Phase.{pre_float, float}
use coatheal_flight_software.FallbackPlanner.{
  running, done, failed, motor_running, motor_done, motor_failed, skipped, PlannerConfig,
  MotorInput, TickInput, Action, Slot, Planner, is_running, is_pending, is_armed, with_state,
  all_settled, any_failed,
}

-- `MotorInput` as it is by default.
abbrev pub no_input : {W : Type 0} → MotorInput W
no_input = record {
  enabled = false;
  zeroed = false;
  healthy = false;
  moving_or_holding = false;
  aborted = false;
  abort_reason = "";
  group_temp_c = none;
}

abbrev pub input_at : {W : Type 0} → List (MotorInput W) → ℕ → MotorInput W
input_at inputs i = elim (get_elem? inputs i) [ none ↦ no_input | some input ↦ input ]

module _ {W : Type 0} where
  -- The plan is over when every configured motor is settled.
  abbrev pub settle : Planner W → Planner W
  settle p =
      if all_settled p.slots
      then record p { state = if any_failed p.slots then failed else done; dirty = true }
      else p

  abbrev pub window_phase : TickInput W → Bool
  window_phase input =
      let is_window : Bool = elim input.phase [ pre_float ↦ true | float ↦ true | _ ↦ false ] in
      input.fallback_active && is_window

-- `number` is `std::to_string`.
module _ {W : Type 0} (number : ℕ → String) where
  -- The round of the first loop for motor `i`: its slot, and the new error and flag.
  unfoldable pub complete : ℕ → MotorInput W → Slot W → String → Bool → Slot W × String × Bool
  complete i input slot error dirty =
      let n = slot.ticks_since_start + 1 in
      let counted = record slot { ticks_since_start = n } in
      let why = if str_eq input.abort_reason "" then "" else ": " ++ input.abort_reason in
      if not (is_running slot.plan.state)
      then (slot, error, dirty)
      else if leb 1 n && not input.moving_or_holding
      then (if input.aborted
          then (with_state motor_failed counted, "M" ++ number i ++ " bend aborted" ++ why, true)
          else (with_state motor_done counted, error, true))
      else (counted, error, dirty)

  -- The first loop, from motor `i` on.
  unfoldable pub complete_all :
      ℕ → List (MotorInput W) → List (Slot W) → String → Bool → List (Slot W) × String × Bool
  complete_all i inputs [] error dirty = ([], error, dirty)
  complete_all i inputs (slot ∷ slots) error dirty =
      let (slot', error₁, dirty₁) = complete i (input_at inputs i) slot error dirty in
      let (slots', error₂, dirty₂) = complete_all (i + 1) inputs slots error₁ dirty₁ in
      (slot' ∷ slots', error₂, dirty₂)

  -- The part of `Tick` before the first return.
  unfoldable pub complete_plan : List (MotorInput W) → Planner W → Planner W
  complete_plan inputs p =
      let (slots, error, dirty) = complete_all 0 inputs p.slots p.last_error p.dirty in
      let p₁ = record p { slots = slots; last_error = error; dirty = dirty } in
      elim p.state [ running ↦ settle p₁ | _ ↦ p₁ ]

-- What the last loop of `Tick` comes to: a bend to start, a motor to wait for, or no motor left.
pub data Choice (W : Type 0) : Type 0 where
  starts : Action W → Choice W
  waits : Choice W
  passes : Choice W

module _ {W : Type 0} ⦃d : Double W⦄ where
  open d use {of_int, le, div}

  abbrev pub is_ready : MotorInput W → Bool
  is_ready input = input.enabled && input.zeroed && input.healthy

  abbrev pub window_ok : PlannerConfig W → MotorInput W → Bool
  window_ok cfg input = elim input.group_temp_c [
    | none ↦ false
    | some t ↦ le cfg.bend_min_c t && le t cfg.bend_max_c
  ]

  abbrev pub action_of : ℕ → Slot W → Action W
  action_of i slot = record {
    motor_id = i;
    target_usteps = slot.plan.target_usteps;
    hold_s = slot.plan.hold_s;
    speed_hz = slot.plan.speed_hz;
  }

  -- The last loop, from motor `i` on: the slots, and whether one of them was skipped.
  unfoldable pub choose :
      PlannerConfig W
      → Bool
      → ℕ
      → List (MotorInput W)
      → List (Slot W)
      → List (Slot W) × Choice W × Bool
  choose cfg deadline i inputs [] = ([], passes, false)
  choose cfg deadline i inputs (slot ∷ slots) =
      let (rest, choice, changed) = choose cfg deadline (i + 1) inputs slots in
      let input = input_at inputs i in
      let started : Slot W = record (with_state motor_running slot) { ticks_since_start = 0 } in
      if not slot.plan.configured || not (is_pending slot.plan.state)
      then (slot ∷ rest, choice, changed)
      else if is_ready input && (window_ok cfg input || deadline)
      then (started ∷ slots, starts (action_of i slot), true)
      else if not (is_ready input) && deadline
      then (with_state skipped slot ∷ rest, choice, true)
      else (slot ∷ slots, waits, false)

  unfoldable pub deadline_passed : ℕ → Planner W → Bool
  deadline_passed now p =
      p.deadline_started
      && le p.cfg.bend_deadline_s
          (div (of_int (pos now -ℤ pos p.deadline_start)) (of_int (pos 1_000_000_000)))

  -- The end of `Tick`, after the loop.
  abbrev pub conclude : Planner W → List (Slot W) × Choice W × Bool → Planner W × Option (Action W)
  conclude p (slots, starts action, changed) =
      (record p { slots = slots; state = running; dirty = true }, some action)
  conclude p (slots, waits, changed) =
      (record p { slots = slots; dirty = p.dirty || changed }, none)
  conclude p (slots, passes, changed) =
      (settle (record p { slots = slots; dirty = p.dirty || changed }), none)

  -- The deadline runs from the first tick in the window.
  unfoldable pub open_window : TickInput W → Planner W → Planner W
  open_window input p =
      if window_phase input && not p.deadline_started
      then record p { deadline_started = true; deadline_start = input.now }
      else p

  -- The part of `Tick` after the check of the plan's state.
  unfoldable pub decide : TickInput W → Planner W → Planner W × Option (Action W)
  decide input p =
      let p₁ = open_window input p in
      if not (window_phase input)
      then (p₁, none)
      else if any (λ (slot : Slot W). is_running slot.plan.state) p₁.slots
      then (p₁, none)
      else conclude p₁ (choose p₁.cfg (deadline_passed input.now p₁) 0 input.motors p₁.slots)

  unfoldable pub tick : (ℕ → String) → TickInput W → Planner W → Planner W × Option (Action W)
  tick number input p =
      let p₁ = complete_plan number input.motors p in
      if not (is_armed p₁.state) then (p₁, none) else decide input p₁
