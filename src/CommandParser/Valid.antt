-- ===== src/CommandParser/Valid.antt =====
-- What holds of every command that onboard/src/command_parser.cpp reads.
use coatheal_flight_software.Prelude.{
  codes, same_text, ℕ, ◌<◌, min, ◌≡◌, refl, sym, ◌∙◌, ◌≢◌, ◌⊎◌, inl, inr, subst, Bool, true, false,
  some, some_inj, List, [], ◌∷◌, all, length, drop, String, arith, Bool-cases, Option-cases,
  option_both,
}
use coatheal_flight_software.Command.{
  to_string, is_extended_command, Command, CommandType, unknown, CommandParseResult, failed, parsed,
}
use coatheal_flight_software.CommandParser.{new_command, parse_tokens, parse_line}
use coatheal_flight_software.CommandParser.Tokens.{commas_to_blanks, tokens_of}
use coatheal_flight_software.CommandParser.Lines.{parse_line-parse_tokens}
use coatheal_flight_software.CommandParser.Names.{command_map, lookup, longest_key}
use coatheal_flight_software.CommandParser.Args.{check_args}
use coatheal_flight_software.CommandParser.Args.Arity.{least, most, takes_id}
use coatheal_flight_software.CommandParser.Args.Reading.{IsReading, arranged}
use coatheal_flight_software.CommandParser.Args.Verdict.{IsVerdict, check_args-IsVerdict}

abbrev is_known : CommandType → Bool
is_known unknown = false
is_known _ = true

lookup_known_in :
    (key : List ℕ) (t : CommandType) (m : List (String × CommandType))
    → all (λ (entry : String × CommandType). is_known entry.1) m ≡ true
    → lookup key m ≡ some t
    → is_known t ≡ true
lookup_known_in key t [] h e = ground (arith, e)
lookup_known_in key t ((name, type) ∷ m) h e = elim (Bool-cases (same_text (codes name) key)) [
  | inl same ↦ subst (λ t. is_known t ≡ true) (some_inj (rw same at e)) (ground (arith, h))
  | inr other ↦ lookup_known_in key t m (ground (arith, h)) (rw other at e)
]

map_known : all (λ (entry : String × CommandType). is_known entry.1) command_map ≡ true
unfolding command_map
map_known = refl

lookup_known : (key : List ℕ) (t : CommandType) → lookup key command_map ≡ some t → t ≢ unknown
lookup_known key t e u =
    let known : is_known t ≡ true = lookup_known_in key t command_map map_known e in
    ground (arith, subst (λ t. is_known t ≡ true) u known)

-- A command that is what its type says, and is for one of the motors that are there, or for none.
pub record IsValid (motor_count : ℕ) (c : Command) : Type 0 where
  pub known : c.type ≢ unknown
  pub name_eq : c.name ≡ codes (to_string c.type)
  pub is_extended_eq : c.is_extended ≡ is_extended_command c.type
  pub motor_id_lt : (c.motor_id ≡ 0) ⊎ (c.motor_id < motor_count)

abbrev AllValid : ℕ → CommandParseResult → Type 0
AllValid motor_count (failed error) = Unit
AllValid motor_count (parsed c) = IsValid motor_count c

reading-IsValid :
    (motor_count : ℕ) (t : CommandType) (args : List (List ℕ)) (c : Command)
    → t ≢ unknown
    → IsReading (least t) (most t) (takes_id t) (arranged t) motor_count (new_command t args) c
    → IsValid motor_count c
unfolding new_command
reading-IsValid motor_count t args c known r = record {
  known = rw r.type_eq known;
  name_eq = rw r.type_eq r.name_eq;
  is_extended_eq = rw r.type_eq r.is_extended_eq;
  motor_id_lt = elim r.args_eq [ inl (_, same, _) ↦ inl same | inr (tok, _, _, _, _, lt) ↦ inr lt ];
}

verdict-AllValid :
    (motor_count : ℕ) (t : CommandType) (args : List (List ℕ)) (r : CommandParseResult)
    → t ≢ unknown
    → IsVerdict (least t) (most t) (takes_id t) (arranged t) motor_count (new_command t args) r
    → AllValid motor_count r
verdict-AllValid motor_count t args (failed error) known v = tt
verdict-AllValid motor_count t args (parsed c) known v =
    reading-IsValid motor_count t args c known v.1

parse_tokens-AllValid :
    (motor_count : ℕ) (tokens : List (List ℕ))
    → AllValid motor_count (parse_tokens motor_count tokens)
unfolding parse_tokens
parse_tokens-AllValid motor_count [] = tt
parse_tokens-AllValid motor_count (front ∷ more) =
    option_both (AllValid motor_count) (longest_key (min 4 (length (front ∷ more))) (front ∷ more))
      tt
      (λ (r : List ℕ × ℕ). elim (Option-cases (lookup r.0 command_map)) [
        | inl e ↦ rw e tt
        | inr (t, e) ↦
            let args = drop r.1 (front ∷ more) in
            let known = lookup_known r.0 t e in
            rw e (
              verdict-AllValid motor_count t args (check_args motor_count t (new_command t args))
                known (check_args-IsVerdict motor_count t (new_command t args) known))
      ])

-- A line that is read gives a command of a known type, with the name and the privilege of that type;
-- its motor is one of those that are there, or 0 when the line does not name one.
pub parse_line-IsValid :
    (motor_count : ℕ) (line : List ℕ) (c : Command)
    → parse_line motor_count line ≡ parsed c
    → IsValid motor_count c
parse_line-IsValid motor_count line c e =
    subst (AllValid motor_count) (sym (parse_line-parse_tokens motor_count line) ∙ e)
      (parse_tokens-AllValid motor_count (tokens_of (commas_to_blanks line)))
