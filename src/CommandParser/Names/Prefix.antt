-- ===== src/CommandParser/Names/Prefix.antt =====
-- Which words of a line of onboard/src/command_parser.cpp belong to the name of the command.
use coatheal_flight_software.Prelude.{
  codes, same_text, ℕ, zero, suc, ◌≤◌, ◌≡◌, refl, inl, inr, Bool, true, false, not, ◌&&◌, ◌||◌,
  none, some, List, [], ◌∷◌, ◌++◌, map, all, length, take, String, subst, ◌==◌, arith, leb,
  Bool-cases, Option-cases,
}
use coatheal_flight_software.Command.{CommandType}
use coatheal_flight_software.CommandParser.Tokens.{to_upper}
use coatheal_flight_software.CommandParser.Names.{command_map, lookup, join_words, longest_key}
use coatheal_flight_software.CommandParser.Names.Lookup.{same_text_iff}

abbrev pub is_capital : ℕ → Bool
is_capital c = leb b'A' c && leb c b'Z'

-- A letter follows each `_`.
abbrev is_tidy : List ℕ → Bool
is_tidy [] = true
is_tidy (c ∷ []) = true
is_tidy (c ∷ d ∷ ds) = (not (c == b'_') || is_capital d) && is_tidy (d ∷ ds)

keys_tidy : all (λ (entry : String × CommandType). is_tidy (codes entry.0)) command_map ≡ true
unfolding command_map
keys_tidy = refl

lookup_tidy :
    (key : List ℕ) (t : CommandType) (m : List (String × CommandType))
    → all (λ (entry : String × CommandType). is_tidy (codes entry.0)) m ≡ true
    → lookup key m ≡ some t
    → is_tidy key ≡ true
lookup_tidy key t [] h e = ground (arith, e)
lookup_tidy key t ((name, type) ∷ m) h e = elim (Bool-cases (same_text (codes name) key)) [
  | inl same ↦
      subst (λ k. is_tidy k ≡ true) (same_text_iff (codes name) key same) (ground (arith, h))
  | inr other ↦ lookup_tidy key t m (ground (arith, h)) (rw other at e)
]

tidy_after :
    (a : List ℕ) (d : ℕ) (ds : List ℕ) → is_tidy (a ++ b'_' ∷ d ∷ ds) ≡ true → is_capital d ≡ true
tidy_after [] d ds h = ground (arith, h)
tidy_after (c ∷ []) d ds h = ground (arith, h)
tidy_after (c ∷ c' ∷ a) d ds h = tidy_after (c' ∷ a) d ds (ground (arith, h))

-- The words do not begin with a letter.
abbrev pub begins_apart : List (List ℕ) → Bool
begins_apart ((c ∷ cs) ∷ ws) = not (is_capital (to_upper c))
begins_apart _ = true

join_words_first :
    (d : ℕ) (ds : List ℕ) (ws : List (List ℕ))
    → (rest : List ℕ) × (join_words ((d ∷ ds) ∷ ws) ≡ to_upper d ∷ rest)
join_words_first d ds [] = (map to_upper ds, refl)
join_words_first d ds (w ∷ ws) = (map to_upper ds ++ b'_' ∷ join_words (w ∷ ws), refl)

-- No key has a word that does not begin with a letter after its first one.
pub lookup_apart :
    (name : List ℕ) (d : ℕ) (ds : List ℕ) (ws : List (List ℕ))
    → is_capital (to_upper d) ≡ false
    → lookup (join_words (name ∷ (d ∷ ds) ∷ ws)) command_map ≡ none
lookup_apart name d ds ws h =
    let key = join_words (name ∷ (d ∷ ds) ∷ ws) in
    elim (Option-cases (lookup key command_map)) [
      | inl e ↦ e
      | inr (t, e) ↦
          let tidy : is_tidy key ≡ true = lookup_tidy key t command_map keys_tidy e in
          let (rest, f) = join_words_first d ds ws in
          let capital = tidy_after (map to_upper name) (to_upper d) rest (rw f at tidy) in
          ground (arith, h, capital)
    ]

-- Then the longest key is the first word.
pub longest_key_apart :
    (n : ℕ) (name : List ℕ) (ws : List (List ℕ)) (t : CommandType)
    → n ≤ length ws
    → begins_apart ws ≡ true
    → all (λ w. not (length w == 0)) ws ≡ true
    → lookup (join_words (name ∷ [])) command_map ≡ some t
    → longest_key (suc n) (name ∷ ws) ≡ some (join_words (name ∷ []), 1)
unfolding longest_key
longest_key_apart zero name ws t l h p e = rw (e, longest_key) refl
longest_key_apart (suc n) name [] t l h p e = ground (arith, l)
longest_key_apart (suc n) name ([] ∷ ws) t l h p e = ground (arith, p)
longest_key_apart (suc n) name ((d ∷ ds) ∷ ws) t l h p e =
    rw (lookup_apart name d ds (take n ws) (ground (arith, h)), longest_key)
      (longest_key_apart n name ((d ∷ ds) ∷ ws) t (omega (arith, l)) h p e)
