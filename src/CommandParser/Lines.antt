-- ===== src/CommandParser/Lines.antt =====
-- Whole lines through onboard/src/command_parser.cpp.
use coatheal_flight_software.Prelude.{
  codes, ℕ, suc, min, ◌≡◌, refl, ap, ◌∙◌, ◌≢◌, true, not, some, List, [], ◌∷◌, all, length, ◌==◌,
  arith, List-cases, inl, inr,
}
use coatheal_flight_software.Command.{to_string, CommandType, unknown}
use coatheal_flight_software.CommandParser.{new_command, parse_tokens, parse_line}
use coatheal_flight_software.CommandParser.Tokens.{trim, commas_to_blanks, tokens_of}
use coatheal_flight_software.CommandParser.Tokens.Words.{
  is_word, join_blank, tokens-trim, tokens-join_blank,
}
use coatheal_flight_software.CommandParser.Names.{command_map, join_words, lookup, longest_key}
use coatheal_flight_software.CommandParser.Names.Lookup.{lookup-to_string, to_string-is_word}
use coatheal_flight_software.CommandParser.Names.Prefix.{begins_apart, longest_key_apart}
use coatheal_flight_software.CommandParser.Args.{check_args}

-- A line means what its tokens mean: two lines with the same words, whatever blanks and commas stand
-- around them, have the same result.
pub parse_line-parse_tokens :
    (motor_count : ℕ) (line : List ℕ)
    → parse_line motor_count line ≡ parse_tokens motor_count (tokens_of (commas_to_blanks line))
unfolding parse_line parse_tokens commas_to_blanks tokens_of
parse_line-parse_tokens motor_count line = elim (List-cases (trim line)) [
  | inl e ↦
      let none_left : [] ≡ tokens_of (commas_to_blanks line) = rw e at (tokens-trim line) in
      rw (e, parse_line, ← none_left) refl
  | inr (c, cs, e) ↦ let same = rw e at (tokens-trim line) in rw (e, parse_line, same) refl
]

is_word_filled :
    (ws : List (List ℕ)) → all is_word ws ≡ true → all (λ w. not (length w == 0)) ws ≡ true
is_word_filled [] h = refl
is_word_filled ([] ∷ ws) h = ground (arith, h)
is_word_filled ((c ∷ cs) ∷ ws) h = ground (arith, h, is_word_filled ws)

-- A command of one name as the first word.
pub parse_tokens_named :
    (motor_count : ℕ) (name : List ℕ) (t : CommandType) (args : List (List ℕ))
    → lookup (join_words (name ∷ [])) command_map ≡ some t
    → begins_apart args ≡ true
    → all is_word args ≡ true
    → parse_tokens motor_count (name ∷ args) ≡ check_args motor_count t (new_command t args)
unfolding parse_tokens
parse_tokens_named motor_count name t args e h w =
    let n = min 3 (length args) in
    let words : min 4 (suc (length args)) ≡ suc n = omega arith in
    let found : longest_key (min 4 (suc (length args))) (name ∷ args)
        ≡ some (join_words (name ∷ []), 1) =
      rw words (longest_key_apart n name args t (omega arith) h (is_word_filled args w) e) in
    rw (found, e, parse_tokens) refl

-- A line in which the name of a command stands first, in capitals, and then its arguments: it is read
-- as that command with those arguments, which are then checked. An argument is a word without blanks
-- and commas, and the first one does not begin with a letter.
pub parse_line-join_blank :
    (motor_count : ℕ) (t : CommandType) (args : List (List ℕ))
    → t ≢ unknown
    → all is_word args ≡ true
    → begins_apart args ≡ true
    → parse_line motor_count (join_blank (codes (to_string t) ∷ args))
      ≡ check_args motor_count t (new_command t args)
parse_line-join_blank motor_count t args known w h =
    let tokens =
      tokens-join_blank (codes (to_string t) ∷ args) (ground (arith, to_string-is_word t, w)) in
    parse_line-parse_tokens motor_count (join_blank (codes (to_string t) ∷ args))
    ∙ ap (parse_tokens motor_count) tokens
    ∙ parse_tokens_named motor_count (codes (to_string t)) t args (lookup-to_string t known) h w
