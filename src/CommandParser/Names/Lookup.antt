-- ===== src/CommandParser/Names/Lookup.antt =====
-- The names of the commands of onboard/src/command_parser.cpp.
use coatheal_flight_software.Prelude.{
  codes, same_text, ℕ, ◌≡◌, refl, ◌≢◌, true, some, List, [], ◌∷◌, arith,
}
use coatheal_flight_software.Command.{
  to_string, CommandType, ping, status, force_start, force_stop, heaters_off, reset_ctrl,
  shutdown_safe, check, components, arm, disarm, enter_safe, exit_safe, arm_debug, disarm_debug,
  set_heater_duty, set_all_duty, heater_test, set_pid, pid_tune_start, pid_tune_abort,
  pid_tune_status, set_temp_target, set_all_temp_targets, clear_temp_target, clear_temp_targets,
  get_thermal, get_layout, clear_overrides, set_bench_mode, set_tick_hz, radio_silence,
  radio_resume, set_phase, stepper_move, stepper_move_to, stepper_move_mm, stepper_move_to_mm,
  stepper_rotate, stepper_home, stepper_stop, stepper_set_speed, stepper_set_accel,
  stepper_set_current, stepper_set_microstep, stepper_enable, stepper_disable, stepper_bend,
  set_position_zero, step_loss_ack, bend_seq_load, bend_seq_run, bend_seq_pause, bend_seq_resume,
  bend_seq_stop, bend_seq_status, bend_seq_clear, pull_arm, pull_execute, fallback_plan,
  fallback_arm, fallback_disarm, fallback_status, motor_debug, unknown,
}
use coatheal_flight_software.CommandParser.Tokens.Words.{is_word}
use coatheal_flight_software.CommandParser.Names.{command_map, lookup, join_words}

pub same_text_iff : (cs ds : List ℕ) → same_text cs ds ≡ true → cs ≡ ds
same_text_iff [] [] h = refl
same_text_iff (c ∷ cs) (d ∷ ds) h = ground (arith, h, same_text_iff cs ds)
same_text_iff [] (d ∷ ds) h = ground (arith, h)
same_text_iff (c ∷ cs) [] h = ground (arith, h)

-- The name of each command but `unknown` is its key in the map of the parser.
pub lookup-to_string :
    (t : CommandType)
    → t ≢ unknown
    → lookup (join_words (codes (to_string t) ∷ [])) command_map ≡ some t
unfolding command_map
lookup-to_string ping h = refl
lookup-to_string status h = refl
lookup-to_string force_start h = refl
lookup-to_string force_stop h = refl
lookup-to_string heaters_off h = refl
lookup-to_string reset_ctrl h = refl
lookup-to_string shutdown_safe h = refl
lookup-to_string check h = refl
lookup-to_string components h = refl
lookup-to_string arm h = refl
lookup-to_string disarm h = refl
lookup-to_string enter_safe h = refl
lookup-to_string exit_safe h = refl
lookup-to_string arm_debug h = refl
lookup-to_string disarm_debug h = refl
lookup-to_string set_heater_duty h = refl
lookup-to_string set_all_duty h = refl
lookup-to_string heater_test h = refl
lookup-to_string set_pid h = refl
lookup-to_string pid_tune_start h = refl
lookup-to_string pid_tune_abort h = refl
lookup-to_string pid_tune_status h = refl
lookup-to_string set_temp_target h = refl
lookup-to_string set_all_temp_targets h = refl
lookup-to_string clear_temp_target h = refl
lookup-to_string clear_temp_targets h = refl
lookup-to_string get_thermal h = refl
lookup-to_string get_layout h = refl
lookup-to_string clear_overrides h = refl
lookup-to_string set_bench_mode h = refl
lookup-to_string set_tick_hz h = refl
lookup-to_string radio_silence h = refl
lookup-to_string radio_resume h = refl
lookup-to_string set_phase h = refl
lookup-to_string stepper_move h = refl
lookup-to_string stepper_move_to h = refl
lookup-to_string stepper_move_mm h = refl
lookup-to_string stepper_move_to_mm h = refl
lookup-to_string stepper_rotate h = refl
lookup-to_string stepper_home h = refl
lookup-to_string stepper_stop h = refl
lookup-to_string stepper_set_speed h = refl
lookup-to_string stepper_set_accel h = refl
lookup-to_string stepper_set_current h = refl
lookup-to_string stepper_set_microstep h = refl
lookup-to_string stepper_enable h = refl
lookup-to_string stepper_disable h = refl
lookup-to_string stepper_bend h = refl
lookup-to_string set_position_zero h = refl
lookup-to_string step_loss_ack h = refl
lookup-to_string bend_seq_load h = refl
lookup-to_string bend_seq_run h = refl
lookup-to_string bend_seq_pause h = refl
lookup-to_string bend_seq_resume h = refl
lookup-to_string bend_seq_stop h = refl
lookup-to_string bend_seq_status h = refl
lookup-to_string bend_seq_clear h = refl
lookup-to_string pull_arm h = refl
lookup-to_string pull_execute h = refl
lookup-to_string fallback_plan h = refl
lookup-to_string fallback_arm h = refl
lookup-to_string fallback_disarm h = refl
lookup-to_string fallback_status h = refl
lookup-to_string motor_debug h = refl
lookup-to_string unknown h = absurd (h refl)

-- The name of a command is one word.
pub to_string-is_word : (t : CommandType) → is_word (codes (to_string t)) ≡ true
to_string-is_word ping = refl
to_string-is_word status = refl
to_string-is_word force_start = refl
to_string-is_word force_stop = refl
to_string-is_word heaters_off = refl
to_string-is_word reset_ctrl = refl
to_string-is_word shutdown_safe = refl
to_string-is_word check = refl
to_string-is_word components = refl
to_string-is_word arm = refl
to_string-is_word disarm = refl
to_string-is_word enter_safe = refl
to_string-is_word exit_safe = refl
to_string-is_word arm_debug = refl
to_string-is_word disarm_debug = refl
to_string-is_word set_heater_duty = refl
to_string-is_word set_all_duty = refl
to_string-is_word heater_test = refl
to_string-is_word set_pid = refl
to_string-is_word pid_tune_start = refl
to_string-is_word pid_tune_abort = refl
to_string-is_word pid_tune_status = refl
to_string-is_word set_temp_target = refl
to_string-is_word set_all_temp_targets = refl
to_string-is_word clear_temp_target = refl
to_string-is_word clear_temp_targets = refl
to_string-is_word get_thermal = refl
to_string-is_word get_layout = refl
to_string-is_word clear_overrides = refl
to_string-is_word set_bench_mode = refl
to_string-is_word set_tick_hz = refl
to_string-is_word radio_silence = refl
to_string-is_word radio_resume = refl
to_string-is_word set_phase = refl
to_string-is_word stepper_move = refl
to_string-is_word stepper_move_to = refl
to_string-is_word stepper_move_mm = refl
to_string-is_word stepper_move_to_mm = refl
to_string-is_word stepper_rotate = refl
to_string-is_word stepper_home = refl
to_string-is_word stepper_stop = refl
to_string-is_word stepper_set_speed = refl
to_string-is_word stepper_set_accel = refl
to_string-is_word stepper_set_current = refl
to_string-is_word stepper_set_microstep = refl
to_string-is_word stepper_enable = refl
to_string-is_word stepper_disable = refl
to_string-is_word stepper_bend = refl
to_string-is_word set_position_zero = refl
to_string-is_word step_loss_ack = refl
to_string-is_word bend_seq_load = refl
to_string-is_word bend_seq_run = refl
to_string-is_word bend_seq_pause = refl
to_string-is_word bend_seq_resume = refl
to_string-is_word bend_seq_stop = refl
to_string-is_word bend_seq_status = refl
to_string-is_word bend_seq_clear = refl
to_string-is_word pull_arm = refl
to_string-is_word pull_execute = refl
to_string-is_word fallback_plan = refl
to_string-is_word fallback_arm = refl
to_string-is_word fallback_disarm = refl
to_string-is_word fallback_status = refl
to_string-is_word motor_debug = refl
to_string-is_word unknown = refl
