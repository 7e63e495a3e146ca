-- ===== src/CommandParser/Args/Arity.antt =====
-- How many arguments each command of onboard/src/command_parser.cpp takes, as a table.
use coatheal_flight_software.Prelude.{
  ℕ, Bool, true, false, ◌&&◌, ◌||◌, Option, none, some, List, [], ◌∷◌, all, length, leb, ltb,
}
use coatheal_flight_software.Command.{
  CommandType, check, arm_debug, set_heater_duty, set_all_duty, heater_test, set_pid,
  pid_tune_start, set_temp_target, set_all_temp_targets, clear_temp_target, set_bench_mode,
  set_tick_hz, set_phase, stepper_move, stepper_move_to, stepper_move_mm, stepper_move_to_mm,
  stepper_rotate, stepper_home, stepper_stop, stepper_set_speed, stepper_set_accel,
  stepper_set_current, stepper_set_microstep, stepper_enable, stepper_disable, stepper_bend,
  set_position_zero, step_loss_ack, bend_seq_load, bend_seq_run, bend_seq_pause, bend_seq_resume,
  bend_seq_stop, bend_seq_status, bend_seq_clear, pull_arm, pull_execute, fallback_plan,
  motor_debug,
}
use coatheal_flight_software.CommandParser.Args.{is_digit, stoi}

-- The least number of arguments, without the number of a motor.
abbrev pub least : CommandType → ℕ
least arm_debug = 1
least set_heater_duty = 2
least set_all_duty = 1
least heater_test = 3
least set_pid = 4
least pid_tune_start = 2
least set_temp_target = 2
least set_all_temp_targets = 1
least clear_temp_target = 1
least set_bench_mode = 1
least set_tick_hz = 1
least set_phase = 1
least stepper_move = 1
least stepper_move_to = 1
least stepper_move_mm = 1
least stepper_move_to_mm = 1
least stepper_rotate = 1
least stepper_set_speed = 1
least stepper_set_accel = 1
least stepper_set_current = 1
least stepper_set_microstep = 1
least stepper_bend = 1
least set_position_zero = 1
least step_loss_ack = 1
least bend_seq_load = 3
least bend_seq_run = 2
least bend_seq_pause = 1
least bend_seq_resume = 1
least bend_seq_stop = 1
least bend_seq_status = 1
least bend_seq_clear = 1
least fallback_plan = 3
least motor_debug = 1
least _ = 0

-- The greatest, if there is one.
abbrev pub most : CommandType → Option ℕ
most check = none
most arm_debug = some 1
most set_heater_duty = some 2
most set_all_duty = some 1
most heater_test = some 3
most set_pid = some 4
most pid_tune_start = some 4
most set_temp_target = some 2
most set_all_temp_targets = some 1
most clear_temp_target = some 1
most set_bench_mode = some 1
most set_tick_hz = some 1
most set_phase = some 1
most stepper_move = some 1
most stepper_move_to = some 2
most stepper_move_mm = some 1
most stepper_move_to_mm = some 2
most stepper_rotate = some 1
most stepper_set_speed = some 1
most stepper_set_accel = some 1
most stepper_set_current = some 1
most stepper_set_microstep = some 1
most stepper_bend = some 2
most set_position_zero = some 1
most step_loss_ack = some 1
most bend_seq_load = none
most bend_seq_run = some 2
most bend_seq_pause = some 1
most bend_seq_resume = some 1
most bend_seq_stop = some 1
most bend_seq_status = some 1
most bend_seq_clear = some 2
most fallback_plan = some 4
most motor_debug = some 1
most _ = some 0

-- The number of a motor may come first.
abbrev pub takes_id : CommandType → Bool
takes_id stepper_move = true
takes_id stepper_move_to = true
takes_id stepper_move_mm = true
takes_id stepper_move_to_mm = true
takes_id stepper_rotate = true
takes_id stepper_home = true
takes_id stepper_stop = true
takes_id stepper_set_speed = true
takes_id stepper_set_accel = true
takes_id stepper_set_current = true
takes_id stepper_set_microstep = true
takes_id stepper_enable = true
takes_id stepper_disable = true
takes_id stepper_bend = true
takes_id pull_arm = true
takes_id pull_execute = true
takes_id _ = false

abbrev pub within : ℕ → Option ℕ → ℕ → Bool
within lo none n = leb lo n
within lo (some hi) n = leb lo n && leb n hi

-- The number of one of the motors, in at most 9 digits.
abbrev pub is_motor_number : ℕ → List ℕ → Bool
is_motor_number motor_count tok =
    leb 1 (length tok) && leb (length tok) 9 && all is_digit tok && ltb (stoi 0 tok) motor_count

-- The first argument is the number of a motor, and there is a right number of arguments after it.
abbrev pub names_motor : ℕ → Option ℕ → Bool → ℕ → List (List ℕ) → Bool
names_motor lo hi id motor_count [] = false
names_motor lo hi id motor_count (tok ∷ rest) =
    id && is_motor_number motor_count tok && within lo hi (length rest)

-- Right arguments: a right number of them, or the number of a motor and a right number after it.
abbrev pub accepts : ℕ → Option ℕ → Bool → ℕ → List (List ℕ) → Bool
accepts lo hi id motor_count args =
    within lo hi (length args) || names_motor lo hi id motor_count args
