-- ===== src/Phase/Names.antt =====
-- The names of onboard/include/coatheal/phase.hpp are read back, and only they are.
use text.Mathlib.TextEquality.{eq_iff}
use coatheal_flight_software.Prelude.{◌≡◌, refl, String, ◌↔◌, some, arith}
use coatheal_flight_software.Phase.{
  MissionPhase, boot, ascent, pre_float, float, descent, landed, stopped, to_string,
  parse_mission_phase,
}

parse_mission_phase_sound :
    (text : String) (p : MissionPhase) → parse_mission_phase text ≡ some p → text ≡ to_string p
unfolding parse_mission_phase to_string
parse_mission_phase_sound text p h = ground (
  arith,
  eq_iff text "BOOT",
  eq_iff text "ASCENT",
  eq_iff text "PRE_FLOAT",
  eq_iff text "FLOAT",
  eq_iff text "DESCENT",
  eq_iff text "LANDED",
  eq_iff text "STOPPED",
)

parse_mission_phase-to_string : (p : MissionPhase) → parse_mission_phase (to_string p) ≡ some p
unfolding parse_mission_phase to_string
parse_mission_phase-to_string boot = refl
parse_mission_phase-to_string ascent = refl
parse_mission_phase-to_string pre_float = refl
parse_mission_phase-to_string float = refl
parse_mission_phase-to_string descent = refl
parse_mission_phase-to_string landed = refl
parse_mission_phase-to_string stopped = refl

-- `ParseMissionPhase` accepts a text as a phase exactly when it is that phase's name: every name is
-- read back, and no other text is accepted.
pub parse_mission_phase_iff :
    (text : String) (p : MissionPhase) → (parse_mission_phase text ≡ some p) ↔ (text ≡ to_string p)
parse_mission_phase_iff text p =
    (parse_mission_phase_sound text p, λ e. rw e (parse_mission_phase-to_string p))
