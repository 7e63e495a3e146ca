-- ===== src/CommandParser.antt =====
-- onboard/src/command_parser.cpp: a line of the ground station as a command. A text is the list of its
-- bytes; `std::isspace`, `std::isdigit` and `std::toupper` are those of the "C" locale.
pub mod Tokens
pub mod Names
pub mod Args
pub mod Lines
pub mod Valid
pub mod Tests
use coatheal_flight_software.Prelude.{
  codes, ℕ, zero, suc, ◌+◌, ◌*◌, ◌-◌, min, Bool, true, false, not, ◌&&◌, ◌||◌, Option, none, some,
  List, [], ◌∷◌, ◌++◌, map, String, length, all, take, drop, ltb, leb, ◌==◌, if◌then◌else◌,
}
use coatheal_flight_software.Command.{
  Command, CommandParseResult, failed, parsed, to_string, is_extended_command, CommandType, ping,
  status, force_start, force_stop, heaters_off, reset_ctrl, shutdown_safe, check, components, arm,
  disarm, enter_safe, exit_safe, arm_debug, disarm_debug, set_heater_duty, set_all_duty,
  heater_test, set_pid, pid_tune_start, pid_tune_abort, pid_tune_status, set_temp_target,
  set_all_temp_targets, clear_temp_target, clear_temp_targets, get_thermal, get_layout,
  clear_overrides, set_bench_mode, set_tick_hz, radio_silence, radio_resume, set_phase,
  stepper_move, stepper_move_to, stepper_move_mm, stepper_move_to_mm, stepper_rotate, stepper_home,
  stepper_stop, stepper_set_speed, stepper_set_accel, stepper_set_current, stepper_set_microstep,
  stepper_enable, stepper_disable, stepper_bend, set_position_zero, step_loss_ack, bend_seq_load,
  bend_seq_run, bend_seq_pause, bend_seq_resume, bend_seq_stop, bend_seq_status, bend_seq_clear,
  pull_arm, pull_execute, fallback_plan, fallback_arm, fallback_disarm, fallback_status,
  motor_debug, unknown,
}
use coatheal_flight_software.CommandParser.Tokens.{trim, commas_to_blanks, tokens_of, to_upper}
use coatheal_flight_software.CommandParser.Names.{command_map, lookup, join_words, longest_key}
use coatheal_flight_software.CommandParser.Args.{check_args}

unfoldable pub new_command : CommandType → List (List ℕ) → Command
new_command type args = record {
  type = type;
  name = codes (to_string type);
  args = args;
  is_extended = is_extended_command type;
  motor_id = 0;
}

-- `ParseLine` from the tokens on.
unfoldable pub parse_tokens : ℕ → List (List ℕ) → CommandParseResult
unfolding longest_key check_args new_command
parse_tokens motor_count [] = failed (codes "empty command")
parse_tokens motor_count (front ∷ more) =
    elim (longest_key (min 4 (length (front ∷ more))) (front ∷ more)) [
      | none ↦ failed (codes "unknown command: " ++ map to_upper front)
      | some (cmd, consumed_tokens) ↦ elim (lookup cmd command_map) [
        | none ↦ failed (codes "unknown command: " ++ cmd)
        | some type ↦
            check_args motor_count type (new_command type (drop consumed_tokens (front ∷ more)))
      ]
    ]

-- `ParseLine`.
unfoldable pub parse_line : ℕ → List ℕ → CommandParseResult
unfolding trim tokens_of parse_tokens
parse_line motor_count line = elim (trim line) [
  | [] ↦ failed (codes "empty command")
  | c ∷ cs ↦ parse_tokens motor_count (tokens_of (commas_to_blanks (c ∷ cs)))
]
