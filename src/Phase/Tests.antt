-- ===== src/Phase/Tests.antt =====
-- A name of onboard/include/coatheal/phase.hpp.
use coatheal_flight_software.Prelude.{◌≡◌, ◌↔◌, some}
use coatheal_flight_software.Phase.{pre_float, to_string, parse_mission_phase}
use coatheal_flight_software.Phase.Names.{parse_mission_phase_iff}

parse_mission_phase_iff_example :
    (parse_mission_phase "PRE_FLOAT" ≡ some pre_float) ↔ ("PRE_FLOAT" ≡ to_string pre_float)
parse_mission_phase_iff_example = parse_mission_phase_iff "PRE_FLOAT" pre_float
