-- ===== src/FallbackPlanner/Names.antt =====
-- The names of the states in onboard/src/fallback_planner.cpp are read back, and only they are.
use text.Mathlib.TextEquality.{eq_iff}
use coatheal_flight_software.Prelude.{◌≡◌, refl, String, ◌↔◌, some, arith}
use coatheal_flight_software.FallbackPlanner.{
  PlanState, no_plan, armed, running, done, failed, MotorState, unconfigured, pending,
  motor_running, motor_done, skipped, motor_failed, plan_to_string, motor_to_string, find_name,
  parse_plan_state, parse_motor_state,
}

parse_plan_state_sound :
    (text : String) (s : PlanState) → parse_plan_state text ≡ some s → text ≡ plan_to_string s
unfolding parse_plan_state plan_to_string find_name
parse_plan_state_sound text s h = ground (
  arith,
  eq_iff text "none",
  eq_iff text "armed",
  eq_iff text "running",
  eq_iff text "done",
  eq_iff text "failed",
)

parse_plan_state-plan_to_string : (s : PlanState) → parse_plan_state (plan_to_string s) ≡ some s
unfolding parse_plan_state plan_to_string find_name
parse_plan_state-plan_to_string no_plan = refl
parse_plan_state-plan_to_string armed = refl
parse_plan_state-plan_to_string running = refl
parse_plan_state-plan_to_string done = refl
parse_plan_state-plan_to_string failed = refl

-- `ParseFallbackPlanState` accepts a text as a state of the plan exactly when it is that state's name.
pub parse_plan_state_iff :
    (text : String) (s : PlanState) → (parse_plan_state text ≡ some s) ↔ (text ≡ plan_to_string s)
parse_plan_state_iff text s =
    (parse_plan_state_sound text s, λ e. rw e (parse_plan_state-plan_to_string s))

parse_motor_state_sound :
    (text : String) (s : MotorState) → parse_motor_state text ≡ some s → text ≡ motor_to_string s
unfolding parse_motor_state motor_to_string find_name
parse_motor_state_sound text s h = ground (
  arith,
  eq_iff text "unconfigured",
  eq_iff text "pending",
  eq_iff text "running",
  eq_iff text "done",
  eq_iff text "skipped",
  eq_iff text "failed",
)

parse_motor_state-motor_to_string :
    (s : MotorState) → parse_motor_state (motor_to_string s) ≡ some s
unfolding parse_motor_state motor_to_string find_name
parse_motor_state-motor_to_string unconfigured = refl
parse_motor_state-motor_to_string pending = refl
parse_motor_state-motor_to_string motor_running = refl
parse_motor_state-motor_to_string motor_done = refl
parse_motor_state-motor_to_string skipped = refl
parse_motor_state-motor_to_string motor_failed = refl

-- `ParseFallbackMotorState` accepts a text as a state of a motor exactly when it is that state's name.
pub parse_motor_state_iff :
    (text : String) (s : MotorState)
    → (parse_motor_state text ≡ some s) ↔ (text ≡ motor_to_string s)
parse_motor_state_iff text s =
    (parse_motor_state_sound text s, λ e. rw e (parse_motor_state-motor_to_string s))
