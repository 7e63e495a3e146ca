-- ===== src/CommandParser/Names.antt =====
-- How onboard/src/command_parser.cpp finds the command that a line names.
pub mod Lookup
pub mod Prefix
use coatheal_flight_software.Prelude.{
  codes, same_text, ℕ, zero, suc, Bool, true, false, ◌&&◌, Option, none, some, List, [], ◌∷◌, ◌++◌,
  map, String, take, ◌==◌, if◌then◌else◌,
}
use coatheal_flight_software.Command.{
  CommandType, ping, status, force_start, force_stop, heaters_off, reset_ctrl, shutdown_safe, check,
  components, arm, disarm, enter_safe, exit_safe, arm_debug, disarm_debug, set_heater_duty,
  set_all_duty, heater_test, set_pid, pid_tune_start, pid_tune_abort, pid_tune_status,
  set_temp_target, set_all_temp_targets, clear_temp_target, clear_temp_targets, get_thermal,
  get_layout, clear_overrides, set_bench_mode, set_tick_hz, radio_silence, radio_resume, set_phase,
  stepper_move, stepper_move_to, stepper_move_mm, stepper_move_to_mm, stepper_rotate, stepper_home,
  stepper_stop, stepper_set_speed, stepper_set_accel, stepper_set_current, stepper_set_microstep,
  stepper_enable, stepper_disable, stepper_bend, set_position_zero, step_loss_ack, bend_seq_load,
  bend_seq_run, bend_seq_pause, bend_seq_resume, bend_seq_stop, bend_seq_status, bend_seq_clear,
  pull_arm, pull_execute, fallback_plan, fallback_arm, fallback_disarm, fallback_status,
  motor_debug,
}
use coatheal_flight_software.CommandParser.Tokens.{to_upper}

unfoldable pub command_map : List (String × CommandType)
command_map =
    ("PING", ping)
    ∷ ("STATUS", status)
    ∷ ("FORCE_START", force_start)
    ∷ ("ON", force_start)
    ∷ ("FORCE_STOP", force_stop)
    ∷ ("OFF", force_stop)
    ∷ ("HEATERS_OFF", heaters_off)
    ∷ ("RESET_CTRL", reset_ctrl)
    ∷ ("RESET", reset_ctrl)
    ∷ ("SHUTDOWN_SAFE", shutdown_safe)
    ∷ ("CHECK", check)
    ∷ ("COMPONENTS", components)
    ∷ ("ARM", arm)
    ∷ ("DISARM", disarm)
    ∷ ("ENTER_SAFE", enter_safe)
    ∷ ("EXIT_SAFE", exit_safe)
    ∷ ("ARM_DEBUG", arm_debug)
    ∷ ("DISARM_DEBUG", disarm_debug)
    ∷ ("SET_HEATER_DUTY", set_heater_duty)
    ∷ ("SET_ALL_DUTY", set_all_duty)
    ∷ ("HEATER_TEST", heater_test)
    ∷ ("SET_PID", set_pid)
    ∷ ("PID_TUNE_START", pid_tune_start)
    ∷ ("PID_TUNE_ABORT", pid_tune_abort)
    ∷ ("PID_TUNE_STATUS", pid_tune_status)
    ∷ ("SET_TEMP_TARGET", set_temp_target)
    ∷ ("SET_ALL_TEMP_TARGETS", set_all_temp_targets)
    ∷ ("CLEAR_TEMP_TARGET", clear_temp_target)
    ∷ ("CLEAR_TEMP_TARGETS", clear_temp_targets)
    ∷ ("GET_THERMAL", get_thermal)
    ∷ ("GET_LAYOUT", get_layout)
    ∷ ("CLEAR_OVERRIDES", clear_overrides)
    ∷ ("SET_BENCH_MODE", set_bench_mode)
    ∷ ("SET_TICK_HZ", set_tick_hz)
    ∷ ("RADIO_SILENCE", radio_silence)
    ∷ ("RADIO_RESUME", radio_resume)
    ∷ ("SET_PHASE", set_phase)
    ∷ ("STEPPER_MOVE", stepper_move)
    ∷ ("STEPPER_MOVETO", stepper_move_to)
    ∷ ("STEPPER_MOVE_MM", stepper_move_mm)
    ∷ ("STEPPER_MOVETO_MM", stepper_move_to_mm)
    ∷ ("STEPPER_ROTATE", stepper_rotate)
    ∷ ("STEPPER_HOME", stepper_home)
    ∷ ("STEPPER_STOP", stepper_stop)
    ∷ ("STEPPER_SET_SPEED", stepper_set_speed)
    ∷ ("STEPPER_SET_ACCEL", stepper_set_accel)
    ∷ ("STEPPER_SET_CURRENT", stepper_set_current)
    ∷ ("STEPPER_SET_MICROSTEP", stepper_set_microstep)
    ∷ ("STEPPER_ENABLE", stepper_enable)
    ∷ ("STEPPER_DISABLE", stepper_disable)
    ∷ ("STEPPER_BEND", stepper_bend)
    ∷ ("SET_POSITION_ZERO", set_position_zero)
    ∷ ("STEPLOSS_ACK", step_loss_ack)
    ∷ ("BENDSEQ_LOAD", bend_seq_load)
    ∷ ("BENDSEQ_RUN", bend_seq_run)
    ∷ ("BENDSEQ_PAUSE", bend_seq_pause)
    ∷ ("BENDSEQ_RESUME", bend_seq_resume)
    ∷ ("BENDSEQ_STOP", bend_seq_stop)
    ∷ ("BENDSEQ_STATUS", bend_seq_status)
    ∷ ("BENDSEQ_CLEAR", bend_seq_clear)
    ∷ ("PULL_ARM", pull_arm)
    ∷ ("PULL_EXECUTE", pull_execute)
    ∷ ("FALLBACK_PLAN", fallback_plan)
    ∷ ("FALLBACK_ARM", fallback_arm)
    ∷ ("FALLBACK_DISARM", fallback_disarm)
    ∷ ("FALLBACK_STATUS", fallback_status)
    ∷ ("MOTOR_DEBUG", motor_debug)
    ∷ []

abbrev pub lookup : List ℕ → List (String × CommandType) → Option CommandType
lookup key [] = none
lookup key ((name, type) ∷ m) = if same_text (codes name) key then some type else lookup key m

-- The words in capitals, joined by `_`.
abbrev pub join_words : List (List ℕ) → List ℕ
join_words [] = []
join_words (w ∷ []) = map to_upper w
join_words (w ∷ v ∷ ws) = map to_upper w ++ b'_' ∷ join_words (v ∷ ws)

-- The longest of the first `words` prefixes of the tokens that is a key, with the number of its words.
unfoldable pub longest_key : ℕ → List (List ℕ) → Option (List ℕ × ℕ)
longest_key zero tokens = none
longest_key (suc words) tokens =
    let key = join_words (take (suc words) tokens) in
    elim (lookup key command_map) [
      | some type ↦ some (key, suc words)
      | none ↦ longest_key words tokens
    ]
