-- ===== src/CommandParser/Args/Reading.antt =====
-- What onboard/src/command_parser.cpp reads of the arguments of a command.
use coatheal_flight_software.Prelude.{
  codes, same_text, ℕ, ◌<◌, ◌≡◌, ◌⊎◌, Bool, true, false, Option, List, [], ◌∷◌, map, all,
  if◌then◌else◌,
}
use coatheal_flight_software.Command.{Command, CommandType, check, set_phase, set_pid}
use coatheal_flight_software.CommandParser.Tokens.{to_upper}
use coatheal_flight_software.CommandParser.Names.{join_words}
use coatheal_flight_software.CommandParser.Args.{is_digit, stoi}
use coatheal_flight_software.CommandParser.Args.Arity.{names_motor}

-- The words of a component, if there are any, are one word.
abbrev pub joined : List (List ℕ) → List (List ℕ)
joined [] = []
joined (w ∷ ws) = join_words (w ∷ ws) ∷ []

-- The first argument is in capitals.
abbrev pub capitals : List (List ℕ) → List (List ℕ)
capitals [] = []
capitals (a ∷ args) = map to_upper a ∷ args

-- The first argument is `ALL` if it is that in any letter case.
abbrev pub capital_all : List (List ℕ) → List (List ℕ)
capital_all [] = []
capital_all (a ∷ args) =
    (if same_text (map to_upper a) (codes "ALL") then codes "ALL" else a) ∷ args

-- The arguments that a command reads: for most commands, those that it is given.
abbrev pub arranged : CommandType → List (List ℕ) → List (List ℕ)
arranged check = joined
arranged set_phase = capitals
arranged set_pid = capital_all
arranged _ = λ args. args

-- `c'` is the command `c` with its arguments read. Either the first one is not the number of a motor, and
-- the arguments are those of `f`; or it is, and the motor has this number and the arguments are the rest.
pub record IsReading (lo : ℕ) (hi : Option ℕ) (id : Bool) (f : List (List ℕ) → List (List ℕ))
    (motor_count : ℕ) (c c' : Command) : Type 0 where
  pub type_eq : c'.type ≡ c.type
  pub name_eq : c'.name ≡ c.name
  pub is_extended_eq : c'.is_extended ≡ c.is_extended
  pub args_eq :
      ((names_motor lo hi id motor_count c.args ≡ false)
        × (c'.motor_id ≡ c.motor_id)
        × (c'.args ≡ f c.args))
      ⊎ ((tok : List ℕ) × (names_motor lo hi id motor_count c.args ≡ true)
          × (c.args ≡ tok ∷ c'.args)
          × (all is_digit tok ≡ true)
          × (c'.motor_id ≡ stoi 0 tok)
          × (c'.motor_id < motor_count))
