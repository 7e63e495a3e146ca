-- ===== src/CommandParser/Tests.antt =====
-- Lines of the ground station through onboard/src/command_parser.cpp.
use coatheal_flight_software.Prelude.{codes, ◌≡◌, refl, ◌≢◌, [], ◌∷◌, some, true, false, arith}
use coatheal_flight_software.Command.{
  to_string, Command, failed, parsed, stepper_move, stepper_move_to, unknown,
}
use coatheal_flight_software.CommandParser.{new_command, parse_tokens, parse_line}
use coatheal_flight_software.CommandParser.Tokens.{trim, commas_to_blanks, tokens_of}
use coatheal_flight_software.CommandParser.Tokens.Words.{join_blank}
use coatheal_flight_software.CommandParser.Lines.{parse_line-parse_tokens, parse_line-join_blank}
use coatheal_flight_software.CommandParser.Valid.{IsValid, parse_line-IsValid}
use coatheal_flight_software.CommandParser.Names.{command_map, longest_key}
use coatheal_flight_software.CommandParser.Args.{
  check_args, maybe_extract_id, is_plausible_motor_id, stoi, require_between,
}
use coatheal_flight_software.CommandParser.Args.Verdict.{IsVerdict, check_args-IsVerdict}

-- Motor 1 moves to 800 microsteps.
abbrev moved : Command
moved = record {
  type = stepper_move_to;
  name = codes "STEPPER_MOVETO";
  args = codes "800" ∷ [];
  is_extended = false;
  motor_id = 1;
}

reads_move : parse_line 2 (codes "  stepper moveto,1 800 ") ≡ parsed moved
unfolding parse_line parse_tokens trim commas_to_blanks tokens_of longest_key command_map check_args
    maybe_extract_id is_plausible_motor_id stoi require_between new_command
reads_move = refl

reads_steps :
    parse_line 2 (codes "STEPPER_MOVETO 500 2")
    ≡ parsed (record moved { args = codes "500" ∷ codes "2" ∷ []; motor_id = 0 })
unfolding parse_line parse_tokens trim commas_to_blanks tokens_of longest_key command_map check_args
    maybe_extract_id is_plausible_motor_id stoi require_between new_command
reads_steps = refl

no_such_command : parse_line 2 (codes "fly home") ≡ failed (codes "unknown command: FLY")
unfolding parse_line parse_tokens trim commas_to_blanks tokens_of longest_key command_map
no_such_command = refl

too_many : parse_line 2 (codes "PING 1") ≡ failed (codes "invalid argument count for PING")
unfolding parse_line parse_tokens trim commas_to_blanks tokens_of longest_key command_map check_args
    require_between new_command
too_many = refl

stepper_move_known : stepper_move ≢ unknown
stepper_move_known = ground arith

parse_line-parse_tokens_example :
    parse_line 2 (codes " ping,") ≡ parse_tokens 2 (tokens_of (commas_to_blanks (codes " ping,")))
parse_line-parse_tokens_example = parse_line-parse_tokens 2 (codes " ping,")

parse_line-join_blank_example :
    parse_line 2 (join_blank (codes (to_string stepper_move) ∷ codes "1" ∷ codes "-400" ∷ []))
    ≡ check_args 2 stepper_move (new_command stepper_move (codes "1" ∷ codes "-400" ∷ []))
parse_line-join_blank_example =
    parse_line-join_blank 2 stepper_move (codes "1" ∷ codes "-400" ∷ []) stepper_move_known refl
      refl

check_args-IsVerdict_example :
    IsVerdict 1
      (some 1)
      true
      (λ args. args)
      2
      (new_command stepper_move (codes "1" ∷ codes "9" ∷ []))
      (check_args 2 stepper_move (new_command stepper_move (codes "1" ∷ codes "9" ∷ [])))
check_args-IsVerdict_example =
    check_args-IsVerdict 2 stepper_move (new_command stepper_move (codes "1" ∷ codes "9" ∷ []))
      stepper_move_known

parse_line-IsValid_example : IsValid 2 moved
parse_line-IsValid_example = parse_line-IsValid 2 (codes "  stepper moveto,1 800 ") moved reads_move
