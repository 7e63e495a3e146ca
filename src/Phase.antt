-- ===== src/Phase.antt =====
-- onboard/include/coatheal/phase.hpp: the mission phases and their names.
pub mod Names
mod Tests
use text.Mathlib.Text.{◌==◌ as str_eq}
use coatheal_flight_software.Prelude.{String, Option, none, some, if◌then◌else◌}

pub data MissionPhase : Type 0 where
  boot ascent pre_float float descent landed stopped : MissionPhase

unfoldable pub to_string : MissionPhase → String
to_string boot = "BOOT"
to_string ascent = "ASCENT"
to_string pre_float = "PRE_FLOAT"
to_string float = "FLOAT"
to_string descent = "DESCENT"
to_string landed = "LANDED"
to_string stopped = "STOPPED"

-- `none` is the result `false`, with `*phase` left alone.
unfoldable pub parse_mission_phase : String → Option MissionPhase
parse_mission_phase text =
    if str_eq text "BOOT"
    then some boot
    else if str_eq text "ASCENT"
    then some ascent
    else if str_eq text "PRE_FLOAT"
    then some pre_float
    else if str_eq text "FLOAT"
    then some float
    else if str_eq text "DESCENT"
    then some descent
    else if str_eq text "LANDED"
    then some landed
    else if str_eq text "STOPPED"
    then some stopped
    else none
