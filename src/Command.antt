-- ===== src/Command.antt =====
-- onboard/include/coatheal/command.hpp, and the names of the commands in
-- onboard/src/command_parser.cpp. A text is the list of its bytes.
use coatheal_flight_software.Prelude.{ℕ, Bool, true, false, List, String}

pub data CommandType : Type 0 where
  ping status force_start force_stop heaters_off reset_ctrl shutdown_safe check components arm
        disarm enter_safe exit_safe arm_debug disarm_debug set_heater_duty set_all_duty heater_test
        set_pid pid_tune_start pid_tune_abort pid_tune_status set_temp_target set_all_temp_targets
        clear_temp_target clear_temp_targets get_thermal get_layout clear_overrides set_bench_mode
        set_tick_hz radio_silence radio_resume set_phase stepper_move stepper_move_to
        stepper_move_mm stepper_move_to_mm stepper_rotate stepper_home stepper_stop
        stepper_set_speed stepper_set_accel stepper_set_current stepper_set_microstep stepper_enable
        stepper_disable stepper_bend set_position_zero step_loss_ack bend_seq_load bend_seq_run
        bend_seq_pause bend_seq_resume bend_seq_stop bend_seq_status bend_seq_clear pull_arm
        pull_execute fallback_plan fallback_arm fallback_disarm fallback_status motor_debug
        unknown :
      CommandType

pub record Command : Type 0 where
  pub type : CommandType
  pub name : List ℕ
  pub args : List (List ℕ)
  pub is_extended : Bool
  pub motor_id : ℕ

-- `CommandParseResult`: `failed` with the error if `ok` is false.
pub data CommandParseResult : Type 0 where
  failed : List ℕ → CommandParseResult
  parsed : Command → CommandParseResult

abbrev pub to_string : CommandType → String
to_string ping = "PING"
to_string status = "STATUS"
to_string force_start = "FORCE_START"
to_string force_stop = "FORCE_STOP"
to_string heaters_off = "HEATERS_OFF"
to_string reset_ctrl = "RESET_CTRL"
to_string shutdown_safe = "SHUTDOWN_SAFE"
to_string check = "CHECK"
to_string components = "COMPONENTS"
to_string arm = "ARM"
to_string disarm = "DISARM"
to_string enter_safe = "ENTER_SAFE"
to_string exit_safe = "EXIT_SAFE"
to_string arm_debug = "ARM_DEBUG"
to_string disarm_debug = "DISARM_DEBUG"
to_string set_heater_duty = "SET_HEATER_DUTY"
to_string set_all_duty = "SET_ALL_DUTY"
to_string heater_test = "HEATER_TEST"
to_string set_pid = "SET_PID"
to_string pid_tune_start = "PID_TUNE_START"
to_string pid_tune_abort = "PID_TUNE_ABORT"
to_string pid_tune_status = "PID_TUNE_STATUS"
to_string set_temp_target = "SET_TEMP_TARGET"
to_string set_all_temp_targets = "SET_ALL_TEMP_TARGETS"
to_string clear_temp_target = "CLEAR_TEMP_TARGET"
to_string clear_temp_targets = "CLEAR_TEMP_TARGETS"
to_string get_thermal = "GET_THERMAL"
to_string get_layout = "GET_LAYOUT"
to_string clear_overrides = "CLEAR_OVERRIDES"
to_string set_bench_mode = "SET_BENCH_MODE"
to_string set_tick_hz = "SET_TICK_HZ"
to_string radio_silence = "RADIO_SILENCE"
to_string radio_resume = "RADIO_RESUME"
to_string set_phase = "SET_PHASE"
to_string stepper_move = "STEPPER_MOVE"
to_string stepper_move_to = "STEPPER_MOVETO"
to_string stepper_move_mm = "STEPPER_MOVE_MM"
to_string stepper_move_to_mm = "STEPPER_MOVETO_MM"
to_string stepper_rotate = "STEPPER_ROTATE"
to_string stepper_home = "STEPPER_HOME"
to_string stepper_stop = "STEPPER_STOP"
to_string stepper_set_speed = "STEPPER_SET_SPEED"
to_string stepper_set_accel = "STEPPER_SET_ACCEL"
to_string stepper_set_current = "STEPPER_SET_CURRENT"
to_string stepper_set_microstep = "STEPPER_SET_MICROSTEP"
to_string stepper_enable = "STEPPER_ENABLE"
to_string stepper_disable = "STEPPER_DISABLE"
to_string stepper_bend = "STEPPER_BEND"
to_string set_position_zero = "SET_POSITION_ZERO"
to_string step_loss_ack = "STEPLOSS_ACK"
to_string bend_seq_load = "BENDSEQ_LOAD"
to_string bend_seq_run = "BENDSEQ_RUN"
to_string bend_seq_pause = "BENDSEQ_PAUSE"
to_string bend_seq_resume = "BENDSEQ_RESUME"
to_string bend_seq_stop = "BENDSEQ_STOP"
to_string bend_seq_status = "BENDSEQ_STATUS"
to_string bend_seq_clear = "BENDSEQ_CLEAR"
to_string pull_arm = "PULL_ARM"
to_string pull_execute = "PULL_EXECUTE"
to_string fallback_plan = "FALLBACK_PLAN"
to_string fallback_arm = "FALLBACK_ARM"
to_string fallback_disarm = "FALLBACK_DISARM"
to_string fallback_status = "FALLBACK_STATUS"
to_string motor_debug = "MOTOR_DEBUG"
to_string unknown = "UNKNOWN"

abbrev pub is_extended_command : CommandType → Bool
is_extended_command set_bench_mode = true
is_extended_command disarm_debug = true
is_extended_command _ = false
