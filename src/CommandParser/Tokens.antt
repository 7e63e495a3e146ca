-- ===== src/CommandParser/Tokens.antt =====
-- How onboard/src/command_parser.cpp cuts a line into tokens.
pub mod Words
use coatheal_flight_software.Prelude.{
  ℕ, ◌-◌, Bool, ◌&&◌, ◌||◌, List, [], ◌∷◌, map, leb, ◌==◌, if◌then◌else◌,
}

-- A blank, or one of \t \n \v \f \r.
abbrev pub is_space : ℕ → Bool
is_space c = c == b' ' || (leb 9 c && leb c 13)

abbrev pub to_upper : ℕ → ℕ
to_upper c = if leb b'a' c && leb c b'z' then c - 32 else c

abbrev pub trim_start : List ℕ → List ℕ
trim_start [] = []
trim_start (c ∷ cs) = let rest = trim_start cs in if is_space c then rest else c ∷ cs

abbrev pub trim_end : List ℕ → List ℕ
trim_end [] = []
trim_end (c ∷ cs) = elim (trim_end cs) [
  | [] ↦ if is_space c then [] else c ∷ []
  | d ∷ ds ↦ c ∷ d ∷ ds
]

unfoldable pub trim : List ℕ → List ℕ
trim input = trim_end (trim_start input)

unfoldable pub commas_to_blanks : List ℕ → List ℕ
commas_to_blanks = map (λ c. if c == b',' then b' ' else c)

-- A word that has begun, before the words after it.
abbrev pub with_word : List ℕ → List (List ℕ) → List (List ℕ)
with_word [] ws = ws
with_word (c ∷ cs) ws = (c ∷ cs) ∷ ws

-- `iss >> token`: the characters up to the first space, and the words after it.
abbrev pub split : List ℕ → List ℕ × List (List ℕ)
split [] = ([], [])
split (c ∷ cs) = let r = split cs in if is_space c then ([], with_word r.0 r.1) else (c ∷ r.0, r.1)

unfoldable pub tokens_of : List ℕ → List (List ℕ)
tokens_of line = let r = split line in with_word r.0 r.1
