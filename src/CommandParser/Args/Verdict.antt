-- ===== src/CommandParser/Args/Verdict.antt =====
-- The verdict of onboard/src/command_parser.cpp on the arguments of a command.
use coatheal_flight_software.Prelude.{
  codes, ℕ, suc, ◌+◌, ◌≡◌, ◌≢◌, refl, ◌∙◌, inl, inr, Bool, true, false, ◌&&◌, Option, none, some,
  List, [], ◌∷◌, ◌++◌, length, leb, arith, if_cases,
}
use coatheal_flight_software.Command.{
  Command, CommandParseResult, failed, parsed, CommandType, ping, status, force_start, force_stop,
  heaters_off, reset_ctrl, shutdown_safe, check, components, arm, disarm, enter_safe, exit_safe,
  arm_debug, disarm_debug, set_heater_duty, set_all_duty, heater_test, set_pid, pid_tune_start,
  pid_tune_abort, pid_tune_status, set_temp_target, set_all_temp_targets, clear_temp_target,
  clear_temp_targets, get_thermal, get_layout, clear_overrides, set_bench_mode, set_tick_hz,
  radio_silence, radio_resume, set_phase, stepper_move, stepper_move_to, stepper_move_mm,
  stepper_move_to_mm, stepper_rotate, stepper_home, stepper_stop, stepper_set_speed,
  stepper_set_accel, stepper_set_current, stepper_set_microstep, stepper_enable, stepper_disable,
  stepper_bend, set_position_zero, step_loss_ack, bend_seq_load, bend_seq_run, bend_seq_pause,
  bend_seq_resume, bend_seq_stop, bend_seq_status, bend_seq_clear, pull_arm, pull_execute,
  fallback_plan, fallback_arm, fallback_disarm, fallback_status, motor_debug, unknown,
}
use coatheal_flight_software.CommandParser.Args.{
  stoi, is_plausible_motor_id, maybe_extract_id, require_between, require_least, require_args,
  upper_first, component, then_args, all_first, check_args,
}
use coatheal_flight_software.CommandParser.Args.Arity.{
  least, most, takes_id, within, accepts, names_motor, is_motor_number,
}
use coatheal_flight_software.CommandParser.Args.Reading.{
  IsReading, joined, capitals, capital_all, arranged,
}

-- The arguments are right and read, or they are not and the error says so.
abbrev pub IsVerdict :
    ℕ
    → Option ℕ
    → Bool
    → (List (List ℕ) → List (List ℕ))
    → ℕ
    → Command
    → CommandParseResult
    → Type 0
IsVerdict lo hi id f motor_count c (failed error) =
    (accepts lo hi id motor_count c.args ≡ false)
    × (error ≡ codes "invalid argument count for " ++ c.name)
IsVerdict lo hi id f motor_count c (parsed c') =
    (accepts lo hi id motor_count c.args ≡ true) × IsReading lo hi id f motor_count c c'

-- Of a command that takes no motor and whose arguments stay.
abbrev IsPlain : ℕ → Option ℕ → ℕ → Command → CommandParseResult → Type 0
IsPlain lo hi = IsVerdict lo hi false (λ args. args)

names_motor_plain :
    (lo : ℕ) (hi : Option ℕ) (motor_count : ℕ) (args : List (List ℕ))
    → names_motor lo hi false motor_count args ≡ false
names_motor_plain lo hi motor_count [] = refl
names_motor_plain lo hi motor_count (a ∷ args) = refl

accepts_plain :
    (lo : ℕ) (hi : Option ℕ) (motor_count : ℕ) (args : List (List ℕ))
    → accepts lo hi false motor_count args ≡ within lo hi (length args)
accepts_plain lo hi motor_count args = ground (arith, names_motor_plain lo hi motor_count args)

-- The first argument is not the number of a motor.
kept-IsReading :
    (lo : ℕ) (hi : Option ℕ) (id : Bool) (f : List (List ℕ) → List (List ℕ)) (motor_count : ℕ)
    (c : Command) (args : List (List ℕ))
    → names_motor lo hi id motor_count c.args ≡ false
    → args ≡ f c.args
    → IsReading lo hi id f motor_count c (record c { args = args })
kept-IsReading lo hi id f motor_count c args n e = record {
  type_eq = refl;
  name_eq = refl;
  is_extended_eq = refl;
  args_eq = inl (n, refl, e);
}

between-IsVerdict :
    (lo hi motor_count : ℕ) (c : Command)
    → IsPlain lo (some hi) motor_count c (require_between lo hi c)
unfolding require_between
between-IsVerdict lo hi motor_count c =
    let plain = names_motor_plain lo (some hi) motor_count c.args in
    if_cases (IsPlain lo (some hi) motor_count c) (leb lo (length c.args) && leb (length c.args) hi)
      (λ fits. (
        accepts_plain lo (some hi) motor_count c.args ∙ fits,
        kept-IsReading lo (some hi) false (λ args. args) motor_count c c.args plain refl,
      ))
      (λ fails. (accepts_plain lo (some hi) motor_count c.args ∙ fails, refl))

least-IsVerdict :
    (lo motor_count : ℕ) (c : Command) → IsPlain lo none motor_count c (require_least lo c)
unfolding require_least
least-IsVerdict lo motor_count c =
    let plain = names_motor_plain lo none motor_count c.args in
    if_cases (IsPlain lo none motor_count c) (leb lo (length c.args))
      (λ fits. (
        accepts_plain lo none motor_count c.args ∙ fits,
        kept-IsReading lo none false (λ args. args) motor_count c c.args plain refl,
      ))
      (λ fails. (accepts_plain lo none motor_count c.args ∙ fails, refl))

then-IsVerdict :
    (f g : List (List ℕ) → List (List ℕ))
    → ((args : List (List ℕ)) → f args ≡ g args)
    → (n motor_count : ℕ) (c : Command)
    → IsVerdict n (some n) false g motor_count c (then_args f (require_args n c))
unfolding require_between
then-IsVerdict f g same n motor_count c =
    let plain = names_motor_plain n (some n) motor_count c.args in
    if_cases (λ r. IsVerdict n (some n) false g motor_count c (then_args f r))
      (leb n (length c.args) && leb (length c.args) n)
      (λ fits. (
        accepts_plain n (some n) motor_count c.args ∙ fits,
        kept-IsReading n (some n) false g motor_count c (f c.args) plain (same c.args),
      ))
      (λ fails. (accepts_plain n (some n) motor_count c.args ∙ fails, refl))

upper_first-capitals : (args : List (List ℕ)) → upper_first args ≡ capitals args
upper_first-capitals [] = refl
upper_first-capitals (a ∷ args) = refl

all_first-capital_all : (args : List (List ℕ)) → all_first args ≡ capital_all args
all_first-capital_all [] = refl
all_first-capital_all (a ∷ args) = ground arith

component-joined : (args : List (List ℕ)) → component args ≡ joined args
component-joined [] = refl
component-joined (w ∷ ws) = refl

component-IsVerdict :
    (motor_count : ℕ) (c : Command)
    → IsVerdict 0 none false joined motor_count c (parsed (record c { args = component c.args }))
component-IsVerdict motor_count c = (
  accepts_plain 0 none motor_count c.args ∙ ground arith,
  kept-IsReading 0 none false joined motor_count c (component c.args)
      (names_motor_plain 0 none motor_count c.args) (component-joined c.args),
)

plausible_number :
    (motor_count : ℕ) (tok : List ℕ)
    → is_plausible_motor_id motor_count tok ≡ is_motor_number motor_count tok
unfolding is_plausible_motor_id
plausible_number motor_count tok = ground arith

-- The first argument is taken as the number of a motor.
extracted-IsReading :
    (lo hi motor_count : ℕ) (c : Command) (tok : List ℕ) (rest : List (List ℕ))
    → is_motor_number motor_count tok ≡ true
    → names_motor lo (some hi) true motor_count (tok ∷ rest) ≡ true
    → IsReading lo
        (some hi)
        true
        (λ args. args)
        motor_count
        (record c { args = tok ∷ rest })
        (record c { motor_id = stoi 0 tok; args = rest })
extracted-IsReading lo hi motor_count c tok rest h n = record {
  type_eq = refl;
  name_eq = refl;
  is_extended_eq = refl;
  args_eq = inr (tok, n, refl, ground (arith, h), refl, ground (arith, h));
}

-- Of a command that may have the number of a motor in front.
abbrev IsNumbered : ℕ → ℕ → ℕ → Command → CommandParseResult → Type 0
IsNumbered lo hi = IsVerdict lo (some hi) true (λ args. args)

id-IsVerdict_args :
    (lo hi motor_count : ℕ) (c : Command) (args : List (List ℕ))
    → let c' = record c { args = args } in
      IsNumbered lo hi motor_count c'
        (require_between lo hi (maybe_extract_id motor_count lo hi c'))
unfolding maybe_extract_id require_between
id-IsVerdict_args lo hi motor_count c [] =
    let c₁ : Command = record c { args = [] } in
    if_cases (IsNumbered lo hi motor_count c₁) (leb lo 0 && leb 0 hi)
      (λ fits. (
        ground (arith, fits),
        kept-IsReading lo (some hi) true (λ args. args) motor_count c₁ [] refl refl,
      ))
      (λ fails. (ground (arith, fails), refl))
id-IsVerdict_args lo hi motor_count c (tok ∷ rest) =
    let c₁ : Command = record c { args = tok ∷ rest } in
    let P = IsNumbered lo hi motor_count c₁ in
    let n = suc (length rest) in
    let number = plausible_number motor_count tok in
    if_cases (λ x. P (require_between lo hi x))
      (leb (lo + 1) n && leb n (hi + 1) && is_plausible_motor_id motor_count tok)
      (λ id.
        let named : is_motor_number motor_count tok ≡ true = ground (arith, id, number) in
        let fits : leb lo (length rest) && leb (length rest) hi ≡ true = ground (arith, id) in
        let both : names_motor lo (some hi) true motor_count (tok ∷ rest) ≡ true =
          rw (named, fits) refl in
        rw fits
          (rw both (ground arith), extracted-IsReading lo hi motor_count c tok rest named both))
      (λ plain.
        let unnamed : names_motor lo (some hi) true motor_count (tok ∷ rest) ≡ false =
          ground (arith, plain, number) in
        if_cases P (leb lo n && leb n hi)
          (λ fits. (
            rw fits refl,
            kept-IsReading lo (some hi) true (λ args. args) motor_count c₁ (tok ∷ rest) unnamed
                refl,
          ))
          (λ fails. (rw (fails, unnamed) refl, refl)))

id-IsVerdict :
    (lo hi motor_count : ℕ) (c : Command)
    → IsNumbered lo hi motor_count c (require_between lo hi (maybe_extract_id motor_count lo hi c))
id-IsVerdict lo hi motor_count c = id-IsVerdict_args lo hi motor_count c c.args

-- The verdict on the arguments of each command is that of the table. A command is read exactly if its
-- arguments are as many as the table says, or it is one of those that take a motor and has that many
-- after the number of one of the motors; otherwise the error names the command. The command read has
-- the same type and name. If the number of a motor comes first, with a right number of arguments after
-- it, the motor is that one and these are the arguments; if not, the motor stays as it was and the
-- arguments are those given, but that the words of a component are joined by `_` in capitals, and a
-- phase and the `ALL` of SET_PID are in capitals.
pub check_args-IsVerdict :
    (motor_count : ℕ) (t : CommandType) (command : Command)
    → t ≢ unknown
    → IsVerdict
        (least t)
        (most t)
        (takes_id t)
        (arranged t)
        motor_count
        command
        (check_args motor_count t command)
unfolding check_args
check_args-IsVerdict motor_count ping command known = between-IsVerdict 0 0 motor_count command
check_args-IsVerdict motor_count status command known = between-IsVerdict 0 0 motor_count command
check_args-IsVerdict motor_count force_start command known =
    between-IsVerdict 0 0 motor_count command
check_args-IsVerdict motor_count force_stop command known =
    between-IsVerdict 0 0 motor_count command
check_args-IsVerdict motor_count heaters_off command known =
    between-IsVerdict 0 0 motor_count command
check_args-IsVerdict motor_count reset_ctrl command known =
    between-IsVerdict 0 0 motor_count command
check_args-IsVerdict motor_count shutdown_safe command known =
    between-IsVerdict 0 0 motor_count command
check_args-IsVerdict motor_count check command known = component-IsVerdict motor_count command
check_args-IsVerdict motor_count components command known =
    between-IsVerdict 0 0 motor_count command
check_args-IsVerdict motor_count arm command known = between-IsVerdict 0 0 motor_count command
check_args-IsVerdict motor_count disarm command known = between-IsVerdict 0 0 motor_count command
check_args-IsVerdict motor_count enter_safe command known =
    between-IsVerdict 0 0 motor_count command
check_args-IsVerdict motor_count exit_safe command known = between-IsVerdict 0 0 motor_count command
check_args-IsVerdict motor_count arm_debug command known = between-IsVerdict 1 1 motor_count command
check_args-IsVerdict motor_count disarm_debug command known =
    between-IsVerdict 0 0 motor_count command
check_args-IsVerdict motor_count set_heater_duty command known =
    between-IsVerdict 2 2 motor_count command
check_args-IsVerdict motor_count set_all_duty command known =
    between-IsVerdict 1 1 motor_count command
check_args-IsVerdict motor_count heater_test command known =
    between-IsVerdict 3 3 motor_count command
check_args-IsVerdict motor_count set_pid command known =
    then-IsVerdict all_first capital_all all_first-capital_all 4 motor_count command
check_args-IsVerdict motor_count pid_tune_start command known =
    between-IsVerdict 2 4 motor_count command
check_args-IsVerdict motor_count pid_tune_abort command known =
    between-IsVerdict 0 0 motor_count command
check_args-IsVerdict motor_count pid_tune_status command known =
    between-IsVerdict 0 0 motor_count command
check_args-IsVerdict motor_count set_temp_target command known =
    between-IsVerdict 2 2 motor_count command
check_args-IsVerdict motor_count set_all_temp_targets command known =
    between-IsVerdict 1 1 motor_count command
check_args-IsVerdict motor_count clear_temp_target command known =
    between-IsVerdict 1 1 motor_count command
check_args-IsVerdict motor_count clear_temp_targets command known =
    between-IsVerdict 0 0 motor_count command
check_args-IsVerdict motor_count get_thermal command known =
    between-IsVerdict 0 0 motor_count command
check_args-IsVerdict motor_count get_layout command known =
    between-IsVerdict 0 0 motor_count command
check_args-IsVerdict motor_count clear_overrides command known =
    between-IsVerdict 0 0 motor_count command
check_args-IsVerdict motor_count set_bench_mode command known =
    between-IsVerdict 1 1 motor_count command
check_args-IsVerdict motor_count set_tick_hz command known =
    between-IsVerdict 1 1 motor_count command
check_args-IsVerdict motor_count radio_silence command known =
    between-IsVerdict 0 0 motor_count command
check_args-IsVerdict motor_count radio_resume command known =
    between-IsVerdict 0 0 motor_count command
check_args-IsVerdict motor_count set_phase command known =
    then-IsVerdict upper_first capitals upper_first-capitals 1 motor_count command
check_args-IsVerdict motor_count stepper_move command known = id-IsVerdict 1 1 motor_count command
check_args-IsVerdict motor_count stepper_move_to command known =
    id-IsVerdict 1 2 motor_count command
check_args-IsVerdict motor_count stepper_move_mm command known =
    id-IsVerdict 1 1 motor_count command
check_args-IsVerdict motor_count stepper_move_to_mm command known =
    id-IsVerdict 1 2 motor_count command
check_args-IsVerdict motor_count stepper_rotate command known = id-IsVerdict 1 1 motor_count command
check_args-IsVerdict motor_count stepper_home command known = id-IsVerdict 0 0 motor_count command
check_args-IsVerdict motor_count stepper_stop command known = id-IsVerdict 0 0 motor_count command
check_args-IsVerdict motor_count stepper_set_speed command known =
    id-IsVerdict 1 1 motor_count command
check_args-IsVerdict motor_count stepper_set_accel command known =
    id-IsVerdict 1 1 motor_count command
check_args-IsVerdict motor_count stepper_set_current command known =
    id-IsVerdict 1 1 motor_count command
check_args-IsVerdict motor_count stepper_set_microstep command known =
    id-IsVerdict 1 1 motor_count command
check_args-IsVerdict motor_count stepper_enable command known = id-IsVerdict 0 0 motor_count command
check_args-IsVerdict motor_count stepper_disable command known =
    id-IsVerdict 0 0 motor_count command
check_args-IsVerdict motor_count stepper_bend command known = id-IsVerdict 1 2 motor_count command
check_args-IsVerdict motor_count set_position_zero command known =
    between-IsVerdict 1 1 motor_count command
check_args-IsVerdict motor_count step_loss_ack command known =
    between-IsVerdict 1 1 motor_count command
check_args-IsVerdict motor_count bend_seq_load command known = least-IsVerdict 3 motor_count command
check_args-IsVerdict motor_count bend_seq_run command known =
    between-IsVerdict 2 2 motor_count command
check_args-IsVerdict motor_count bend_seq_pause command known =
    between-IsVerdict 1 1 motor_count command
check_args-IsVerdict motor_count bend_seq_resume command known =
    between-IsVerdict 1 1 motor_count command
check_args-IsVerdict motor_count bend_seq_stop command known =
    between-IsVerdict 1 1 motor_count command
check_args-IsVerdict motor_count bend_seq_status command known =
    between-IsVerdict 1 1 motor_count command
check_args-IsVerdict motor_count bend_seq_clear command known =
    between-IsVerdict 1 2 motor_count command
check_args-IsVerdict motor_count pull_arm command known = id-IsVerdict 0 0 motor_count command
check_args-IsVerdict motor_count pull_execute command known = id-IsVerdict 0 0 motor_count command
check_args-IsVerdict motor_count fallback_plan command known =
    between-IsVerdict 3 4 motor_count command
check_args-IsVerdict motor_count fallback_arm command known =
    between-IsVerdict 0 0 motor_count command
check_args-IsVerdict motor_count fallback_disarm command known =
    between-IsVerdict 0 0 motor_count command
check_args-IsVerdict motor_count fallback_status command known =
    between-IsVerdict 0 0 motor_count command
check_args-IsVerdict motor_count motor_debug command known =
    between-IsVerdict 1 1 motor_count command
check_args-IsVerdict motor_count unknown command known = absurd (known refl)
