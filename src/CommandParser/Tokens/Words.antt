-- ===== src/CommandParser/Tokens/Words.antt =====
-- Words through the tokens of onboard/src/command_parser.cpp: blanks at the ends do not matter, and
-- words joined by blanks are read back.
use coatheal_flight_software.Prelude.{
  ℕ, Bool, true, false, not, ◌||◌, List, [], ◌∷◌, ◌++◌, all, ◌≡◌, refl, ap, ◌∙◌, arith, ◌==◌,
  Bool-cases, List-cases, inl, inr,
}
use mathlib.Core.List.{append-nil}
use coatheal_flight_software.CommandParser.Tokens.{
  is_space, trim_start, trim_end, trim, commas_to_blanks, with_word, split, tokens_of,
}

-- The first word of a text, and the words after it, with commas as blanks.
abbrev pub cut : List ℕ → List ℕ × List (List ℕ)
cut s = split (commas_to_blanks s)

cut_space :
    (c : ℕ) (cs : List ℕ) → is_space c ≡ true → cut (c ∷ cs) ≡ ([], with_word (cut cs).0 (cut cs).1)
unfolding commas_to_blanks
cut_space c cs h = ground (arith, h)

cut_letter :
    (c : ℕ) (cs : List ℕ)
    → is_space c || c == b',' ≡ false
    → cut (c ∷ cs) ≡ (c ∷ (cut cs).0, (cut cs).1)
unfolding commas_to_blanks
cut_letter c cs h = ground (arith, h)

-- The head of a word does not change what is cut from a text behind it.
cut_cons : (c : ℕ) (s t : List ℕ) → cut s ≡ cut t → cut (c ∷ s) ≡ cut (c ∷ t)
unfolding commas_to_blanks
cut_cons c s t e = ground (arith, e)

cut-trim_end : (s : List ℕ) → cut (trim_end s) ≡ cut s
unfolding commas_to_blanks
cut-trim_end [] = refl
cut-trim_end (c ∷ cs) = elim (List-cases (trim_end cs)) [
  | inl e ↦
      let ih : cut [] ≡ cut cs = rw e at (cut-trim_end cs) in
      elim (Bool-cases (is_space c)) [
        | inl blank ↦ rw (e, blank) (ground (arith, cut_space c cs blank, ih))
        | inr other ↦ rw (e, other) (cut_cons c [] cs ih)
      ]
  | inr (d, ds, e) ↦
      let ih : cut (d ∷ ds) ≡ cut cs = rw e at (cut-trim_end cs) in rw e (cut_cons c (d ∷ ds) cs ih)
]

tokens-trim_start :
    (s : List ℕ) → tokens_of (commas_to_blanks (trim_start s)) ≡ tokens_of (commas_to_blanks s)
unfolding tokens_of commas_to_blanks
tokens-trim_start [] = refl
tokens-trim_start (c ∷ cs) = elim (Bool-cases (is_space c)) [
  | inl blank ↦ rw blank (ground (arith, cut_space c cs blank, tokens-trim_start cs))
  | inr other ↦ rw other refl
]

pub tokens-trim :
    (s : List ℕ) → tokens_of (commas_to_blanks (trim s)) ≡ tokens_of (commas_to_blanks s)
unfolding trim tokens_of
tokens-trim s = ap (λ r. with_word r.0 r.1) (cut-trim_end (trim_start s)) ∙ tokens-trim_start s

-- A word is not empty, and has neither a blank nor a comma.
abbrev pub is_word : List ℕ → Bool
is_word [] = false
is_word (c ∷ cs) = all (λ c. not (is_space c || c == b',')) (c ∷ cs)

abbrev pub join_blank : List (List ℕ) → List ℕ
join_blank [] = []
join_blank (w ∷ []) = w
join_blank (w ∷ v ∷ ws) = w ++ b' ' ∷ join_blank (v ∷ ws)

cut-append :
    (w rest : List ℕ)
    → all (λ c. not (is_space c || c == b',')) w ≡ true
    → cut (w ++ rest) ≡ (w ++ (cut rest).0, (cut rest).1)
cut-append [] rest h = refl
cut-append (c ∷ cs) rest h = ground (arith, h, cut_letter c (cs ++ rest), cut-append cs rest)

cut_word : (w : List ℕ) → is_word w ≡ true → cut w ≡ (w, [])
unfolding commas_to_blanks
cut_word [] h = ground (arith, h)
cut_word (c ∷ []) h = ground (arith, h, cut_letter c [])
cut_word (c ∷ d ∷ ds) h = ground (arith, h, cut_letter c (d ∷ ds), cut_word (d ∷ ds))

with_word_lem : (w : List ℕ) (ws : List (List ℕ)) → is_word w ≡ true → with_word w ws ≡ w ∷ ws
with_word_lem [] ws h = ground (arith, h)
with_word_lem (c ∷ cs) ws h = refl

-- A word before other words.
tokens_cons :
    (w rest : List ℕ) (ws : List (List ℕ))
    → is_word w ≡ true
    → cut rest ≡ ([], ws)
    → tokens_of (commas_to_blanks (w ++ rest)) ≡ w ∷ ws
unfolding tokens_of
tokens_cons [] rest ws h e = ground (arith, h)
tokens_cons (c ∷ cs) rest ws h e = ground (arith, h, e, cut-append (c ∷ cs) rest, append-nil cs)

pub tokens-join_blank :
    (ws : List (List ℕ)) → all is_word ws ≡ true → tokens_of (commas_to_blanks (join_blank ws)) ≡ ws
unfolding tokens_of commas_to_blanks
tokens-join_blank [] h = refl
tokens-join_blank (w ∷ []) h =
    let one : is_word w ≡ true = ground (arith, h) in rw (cut_word w one) (with_word_lem w [] one)
tokens-join_blank (w ∷ v ∷ ws) h =
    let rest = tokens-join_blank (v ∷ ws) (ground (arith, h)) in
    tokens_cons w (b' ' ∷ join_blank (v ∷ ws)) (v ∷ ws) (ground (arith, h)) (rw rest refl)
