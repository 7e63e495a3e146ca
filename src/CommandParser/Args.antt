-- ===== src/CommandParser/Args.antt =====
-- The arguments of a command in onboard/src/command_parser.cpp.
pub mod Arity
pub mod Reading
pub mod Verdict
use coatheal_flight_software.Prelude.{
  codes, same_text, ℕ, suc, ◌+◌, ◌*◌, ◌-◌, Bool, not, ◌&&◌, List, [], ◌∷◌, ◌++◌, map, length, all,
  ltb, leb, ◌==◌, if◌then◌else◌,
}
use coatheal_flight_software.Command.{
  Command, CommandParseResult, failed, parsed, CommandType, ping, status, force_start, force_stop,
  heaters_off, reset_ctrl, shutdown_safe, check, components, arm, disarm, enter_safe, exit_safe,
  arm_debug, disarm_debug, set_heater_duty, set_all_duty, heater_test, set_pid, pid_tune_start,
  pid_tune_abort, pid_tune_status, set_temp_target, set_all_temp_targets, clear_temp_target,
  clear_temp_targets, get_thermal, get_layout, clear_overrides, set_bench_mode, set_tick_hz,
  radio_silence, radio_resume, set_phase, stepper_move, stepper_move_to, stepper_move_mm,
  stepper_move_to_mm, stepper_rotate, stepper_home, stepper_stop, stepper_set_speed,
  stepper_set_accel, stepper_set_current, stepper_set_microstep, stepper_enable, stepper_disable,
  stepper_bend, set_position_zero, step_loss_ack, bend_seq_load, bend_seq_run, bend_seq_pause,
  bend_seq_resume, bend_seq_stop, bend_seq_status, bend_seq_clear, pull_arm, pull_execute,
  fallback_plan, fallback_arm, fallback_disarm, fallback_status, motor_debug, unknown,
}
use coatheal_flight_software.CommandParser.Tokens.{to_upper}
use coatheal_flight_software.CommandParser.Names.{join_words}

abbrev pub is_digit : ℕ → Bool
is_digit c = leb b'0' c && leb c b'9'

-- `std::stoi` of a text of digits.
unfoldable pub stoi : ℕ → List ℕ → ℕ
stoi value [] = value
stoi value (c ∷ cs) = stoi (value * 10 + (c - b'0')) cs

unfoldable pub is_plausible_motor_id : ℕ → List ℕ → Bool
unfolding stoi
is_plausible_motor_id motor_count tok =
    not (length tok == 0) && leb (length tok) 9 && all is_digit tok && ltb (stoi 0 tok) motor_count

unfoldable pub maybe_extract_id : ℕ → ℕ → ℕ → Command → Command
unfolding is_plausible_motor_id stoi
maybe_extract_id motor_count legacy_min legacy_max command = elim command.args [
  | [] ↦ command
  | tok ∷ rest ↦
      let n = suc (length rest) in
      if leb (legacy_min + 1) n && leb n (legacy_max + 1) && is_plausible_motor_id motor_count tok
      then record command { motor_id = stoi 0 tok; args = rest }
      else command
]

-- The number of arguments is at least `lo` and at most `hi`.
unfoldable pub require_between : ℕ → ℕ → Command → CommandParseResult
require_between lo hi command =
    if leb lo (length command.args) && leb (length command.args) hi
    then parsed command
    else failed (codes "invalid argument count for " ++ command.name)

unfoldable pub require_least : ℕ → Command → CommandParseResult
require_least lo command =
    if leb lo (length command.args)
    then parsed command
    else failed (codes "invalid argument count for " ++ command.name)

abbrev pub require_args : ℕ → Command → CommandParseResult
require_args expected command = require_between expected expected command

abbrev pub upper_first : List (List ℕ) → List (List ℕ)
upper_first [] = []
upper_first (a ∷ args) = map to_upper a ∷ args

-- `CHECK`: a component of several words is one argument.
abbrev pub component : List (List ℕ) → List (List ℕ)
component [] = []
component (w ∷ ws) = join_words (w ∷ ws) ∷ []

-- The switch on the type; the arguments of a command are put in order if their number is right.
abbrev pub then_args : (List (List ℕ) → List (List ℕ)) → CommandParseResult → CommandParseResult
then_args f (failed error) = failed error
then_args f (parsed command) = parsed (record command { args = f command.args })

abbrev pub all_first : List (List ℕ) → List (List ℕ)
all_first [] = []
all_first (a ∷ args) =
    if same_text (map to_upper a) (codes "ALL") then codes "ALL" ∷ args else a ∷ args

unfoldable pub check_args : ℕ → CommandType → Command → CommandParseResult
unfolding maybe_extract_id require_between require_least
check_args motor_count ping command = require_args 0 command
check_args motor_count status command = require_args 0 command
check_args motor_count force_start command = require_args 0 command
check_args motor_count force_stop command = require_args 0 command
check_args motor_count heaters_off command = require_args 0 command
check_args motor_count reset_ctrl command = require_args 0 command
check_args motor_count shutdown_safe command = require_args 0 command
check_args motor_count arm command = require_args 0 command
check_args motor_count disarm command = require_args 0 command
check_args motor_count enter_safe command = require_args 0 command
check_args motor_count exit_safe command = require_args 0 command
check_args motor_count disarm_debug command = require_args 0 command
check_args motor_count clear_overrides command = require_args 0 command
check_args motor_count clear_temp_targets command = require_args 0 command
check_args motor_count get_thermal command = require_args 0 command
check_args motor_count get_layout command = require_args 0 command
check_args motor_count radio_silence command = require_args 0 command
check_args motor_count radio_resume command = require_args 0 command
check_args motor_count fallback_arm command = require_args 0 command
check_args motor_count fallback_disarm command = require_args 0 command
check_args motor_count fallback_status command = require_args 0 command
check_args motor_count pid_tune_abort command = require_args 0 command
check_args motor_count pid_tune_status command = require_args 0 command
check_args motor_count pid_tune_start command = require_between 2 4 command
check_args motor_count fallback_plan command = require_between 3 4 command
check_args motor_count set_position_zero command = require_args 1 command
check_args motor_count step_loss_ack command = require_args 1 command
check_args motor_count bend_seq_pause command = require_args 1 command
check_args motor_count bend_seq_resume command = require_args 1 command
check_args motor_count bend_seq_stop command = require_args 1 command
check_args motor_count bend_seq_status command = require_args 1 command
check_args motor_count motor_debug command = require_args 1 command
check_args motor_count components command = require_args 0 command
check_args motor_count check command = parsed (record command { args = component command.args })
check_args motor_count bend_seq_run command = require_args 2 command
check_args motor_count bend_seq_load command = require_least 3 command
check_args motor_count bend_seq_clear command = require_between 1 2 command
check_args motor_count set_phase command = then_args upper_first (require_args 1 command)
check_args motor_count stepper_home command =
    require_args 0 (maybe_extract_id motor_count 0 0 command)
check_args motor_count stepper_stop command =
    require_args 0 (maybe_extract_id motor_count 0 0 command)
check_args motor_count stepper_enable command =
    require_args 0 (maybe_extract_id motor_count 0 0 command)
check_args motor_count stepper_disable command =
    require_args 0 (maybe_extract_id motor_count 0 0 command)
check_args motor_count pull_arm command = require_args 0 (maybe_extract_id motor_count 0 0 command)
check_args motor_count pull_execute command =
    require_args 0 (maybe_extract_id motor_count 0 0 command)
check_args motor_count stepper_move command =
    require_args 1 (maybe_extract_id motor_count 1 1 command)
check_args motor_count stepper_move_mm command =
    require_args 1 (maybe_extract_id motor_count 1 1 command)
check_args motor_count stepper_rotate command =
    require_args 1 (maybe_extract_id motor_count 1 1 command)
check_args motor_count stepper_set_speed command =
    require_args 1 (maybe_extract_id motor_count 1 1 command)
check_args motor_count stepper_set_accel command =
    require_args 1 (maybe_extract_id motor_count 1 1 command)
check_args motor_count stepper_set_current command =
    require_args 1 (maybe_extract_id motor_count 1 1 command)
check_args motor_count stepper_set_microstep command =
    require_args 1 (maybe_extract_id motor_count 1 1 command)
check_args motor_count stepper_move_to command =
    require_between 1 2 (maybe_extract_id motor_count 1 2 command)
check_args motor_count stepper_move_to_mm command =
    require_between 1 2 (maybe_extract_id motor_count 1 2 command)
check_args motor_count stepper_bend command =
    require_between 1 2 (maybe_extract_id motor_count 1 2 command)
check_args motor_count arm_debug command = require_args 1 command
check_args motor_count set_heater_duty command = require_args 2 command
check_args motor_count set_all_duty command = require_args 1 command
check_args motor_count heater_test command = require_args 3 command
check_args motor_count set_pid command = then_args all_first (require_args 4 command)
check_args motor_count set_temp_target command = require_args 2 command
check_args motor_count set_all_temp_targets command = require_args 1 command
check_args motor_count clear_temp_target command = require_args 1 command
check_args motor_count set_bench_mode command = require_args 1 command
check_args motor_count set_tick_hz command = require_args 1 command
check_args motor_count unknown command = failed (codes "unknown command")
