-- ===== src/FallbackPlanner.antt =====
-- onboard/src/fallback_planner.cpp: the bends to run when the link to the ground is lost. `W` is the
-- type of `double` values; a time is a number of nanoseconds of the steady clock. A slot is an element
-- of `motors_` with that of `ticks_since_start_`, two vectors of the same length. The text and file
-- forms of the plan are left out.
pub mod Tick
pub mod Bends
pub mod Start
pub mod Names
mod Tests
use Prim.Native.String.{◌++◌}
use text.Mathlib.Text.{◌==◌ as str_eq}
use coatheal_flight_software.Prelude.{
  ℕ, zero, suc, ◌+◌, ◌^◌, Bool, true, false, not, ◌&&◌, ◌||◌, Option, none, some, List, [], ◌∷◌,
  map, String, leb, any, all, length, get_elem?, if◌then◌else◌,
}
use coatheal_flight_software.Prelude.Int.{ℤ, pos, pos_part, ltb_ℤ, ◌-ℤ◌}
use coatheal_flight_software.Double.{Double, nought}
use coatheal_flight_software.Phase.{MissionPhase, pre_float, float}

pub data PlanState : Type 0 where
  no_plan armed running done failed : PlanState

pub data MotorState : Type 0 where
  unconfigured pending motor_running motor_done skipped motor_failed : MotorState

unfoldable pub plan_to_string : PlanState → String
plan_to_string no_plan = "none"
plan_to_string armed = "armed"
plan_to_string running = "running"
plan_to_string done = "done"
plan_to_string failed = "failed"

unfoldable pub motor_to_string : MotorState → String
motor_to_string unconfigured = "unconfigured"
motor_to_string pending = "pending"
motor_to_string motor_running = "running"
motor_to_string motor_done = "done"
motor_to_string skipped = "skipped"
motor_to_string motor_failed = "failed"

-- The loop that looks a name up among the names of the states.
unfoldable pub find_name {ℓ} : {A : Type ℓ} → (A → String) → List A → String → Option A
find_name name [] text = none
find_name name (x ∷ xs) text = if str_eq text (name x) then some x else find_name name xs text

unfoldable pub parse_plan_state : String → Option PlanState
unfolding find_name
parse_plan_state = find_name plan_to_string (no_plan ∷ armed ∷ running ∷ done ∷ failed ∷ [])

unfoldable pub parse_motor_state : String → Option MotorState
unfolding find_name
parse_motor_state =
    find_name motor_to_string
      (unconfigured ∷ pending ∷ motor_running ∷ motor_done ∷ skipped ∷ motor_failed ∷ [])

pub record PlannerConfig (W : Type 0) : Type 0 where
  pub bend_min_c : W
  pub bend_max_c : W
  pub bend_deadline_s : W

pub record MotorPlan (W : Type 0) : Type 0 where
  pub configured : Bool
  pub target_usteps : ℤ
  pub hold_s : W
  pub speed_hz : W
  pub state : MotorState

pub record MotorInput (W : Type 0) : Type 0 where
  pub enabled : Bool
  pub zeroed : Bool
  pub healthy : Bool
  pub moving_or_holding : Bool
  pub aborted : Bool
  pub abort_reason : String
  pub group_temp_c : Option W

pub record TickInput (W : Type 0) : Type 0 where
  pub fallback_active : Bool
  pub phase : MissionPhase
  pub now : ℕ
  pub motors : List (MotorInput W)

pub record Action (W : Type 0) : Type 0 where
  pub motor_id : ℕ
  pub target_usteps : ℤ
  pub hold_s : W
  pub speed_hz : W

pub record Slot (W : Type 0) : Type 0 where
  pub plan : MotorPlan W
  pub ticks_since_start : ℕ

pub record Planner (W : Type 0) : Type 0 where
  pub cfg : PlannerConfig W
  pub slots : List (Slot W)
  pub state : PlanState
  pub deadline_started : Bool
  pub deadline_start : ℕ
  pub last_error : String
  pub dirty : Bool

abbrev pub is_running : MotorState → Bool
is_running motor_running = true
is_running _ = false

abbrev pub is_pending : MotorState → Bool
is_pending pending = true
is_pending _ = false

abbrev pub is_done : MotorState → Bool
is_done motor_done = true
is_done _ = false

abbrev pub is_failed : MotorState → Bool
is_failed motor_failed = true
is_failed _ = false

abbrev pub is_settled : MotorState → Bool
is_settled motor_done = true
is_settled skipped = true
is_settled motor_failed = true
is_settled _ = false

-- `armed()`.
abbrev pub is_armed : PlanState → Bool
is_armed armed = true
is_armed running = true
is_armed _ = false

abbrev pub has_finished : PlanState → Bool
has_finished done = true
has_finished failed = true
has_finished _ = false

-- No motor has the id.
abbrev pub is_out_of_range {ℓ} : {A : Type ℓ} → ℤ → List A → Bool
is_out_of_range id xs = ltb_ℤ id (pos 0) || leb (length xs) (pos_part id)

-- A change of one element.
unfoldable pub update_at {ℓ} : {A : Type ℓ} → ℕ → (A → A) → List A → List A
update_at i f [] = []
update_at zero f (x ∷ xs) = f x ∷ xs
update_at (suc i) f (x ∷ xs) = x ∷ update_at i f xs

module _ {W : Type 0} where
  abbrev pub with_state : MotorState → Slot W → Slot W
  with_state s slot = record slot { plan = record slot.plan { state = s } }

  unfoldable pub any_configured : List (Slot W) → Bool
  any_configured = any λ slot. slot.plan.configured

  unfoldable pub all_settled : List (Slot W) → Bool
  all_settled = all λ slot. not slot.plan.configured || is_settled slot.plan.state

  unfoldable pub any_failed : List (Slot W) → Bool
  any_failed = any λ slot. slot.plan.configured && is_failed slot.plan.state

  unfoldable pub reset_slot : Slot W → Slot W
  reset_slot slot =
      let s = if slot.plan.configured then pending else unconfigured in
      record (with_state s slot) { ticks_since_start = 0 }

  unfoldable pub reset_to_none : Planner W → Planner W
  unfolding reset_slot
  reset_to_none p = record p {
    state = no_plan;
    deadline_started = false;
    last_error = "";
    slots = map reset_slot p.slots;
  }

  unfoldable pub disarm : Planner W → Planner W
  unfolding reset_to_none
  disarm p = record (reset_to_none p) { dirty = true }

  abbrev pub load_plan : ℤ → W → W → Slot W → Slot W
  load_plan target hold speed slot = record slot {
    plan = record {
      configured = true;
      target_usteps = target;
      hold_s = hold;
      speed_hz = speed;
      state = pending;
    };
    ticks_since_start = 0;
  }

  unfoldable pub set_motor_plan : ℤ → ℤ → W → W → Planner W → Planner W × Option String
  unfolding reset_to_none update_at
  set_motor_plan id target hold speed p =
      let p₁ = if has_finished p.state then reset_to_none p else p in
      if is_out_of_range id p.slots then (p, some "invalid motor id") else elim p.state [
        | running ↦ (p, some "plan running")
        | _ ↦ (
          record p₁ {
            slots = update_at (pos_part id) (load_plan target hold speed) p₁.slots;
            dirty = true;
          },
          none,
        )
      ]

  unfoldable pub arm : Planner W → Planner W × Option String
  unfolding any_configured
  arm p =
      let finished = "plan already " ++ plan_to_string p.state ++ " (FALLBACK_DISARM to clear)" in
      if not (any_configured p.slots) then (p, some "no plan loaded") else elim p.state [
        | running ↦ (p, some "plan running")
        | done ↦ (p, some finished)
        | failed ↦ (p, some finished)
        | _ ↦ (record p { state = armed; last_error = ""; dirty = true }, none)
      ]

  abbrev pub wait_again : Slot W → Slot W
  wait_again slot = record (with_state pending slot) { ticks_since_start = 0 }

  unfoldable pub report_start_result : ℤ → Bool → Bool → String → Planner W → Planner W
  unfolding update_at
  report_start_result id accepted retry_later error p =
      let waiting = update_at (pos_part id) wait_again p.slots in
      let any_done = any (λ (slot : Slot W). is_done slot.plan.state) waiting in
      if is_out_of_range id p.slots || accepted
      then p
      else if retry_later
      then record p { slots = waiting; state = if any_done then running else armed; dirty = true }
      else record p {
        slots = update_at (pos_part id) (with_state motor_failed) p.slots;
        state = failed;
        last_error = if str_eq error "" then "start refused" else error;
        dirty = true;
      }

  -- The old flag.
  unfoldable pub take_dirty : Planner W → Planner W × Bool
  take_dirty p = (record p { dirty = false }, p.dirty)
