-- ===== src/TelemetryQueue/Lines/Parse.antt =====
-- `ParseLine` of onboard/src/telemetry_queue.cpp. `std::stoll` and `std::stoull` skip blanks, take a
-- sign and the digits behind it, and throw (`none`) without a digit or out of range.
use coatheal_flight_software.Prelude.{
  ℕ, zero, suc, ◌+◌, ◌-◌, ◌*◌, ◌/◌, ◌%◌, ◌^◌, ◌<◌, ◌≡◌, refl, ◌∙◌, Bool, true, false, not, ◌&&◌,
  ◌||◌, Option, none, some, List, [], ◌∷◌, ◌++◌, all, ltb, leb, ◌==◌, if◌then◌else◌, arith,
  Bool-cases, inl, inr,
}
use coatheal_flight_software.Prelude.Int.{ℤ, pos, negsuc}
use coatheal_flight_software.TelemetryQueue.Lines.{Frame, digits, print_ℤ, format_line}

abbrev pub is_blank : ℕ → Bool
is_blank c = c == b' ' || (leb 9 c && leb c 13)

abbrev pub is_digit : ℕ → Bool
is_digit c = leb b'0' c && leb c b'9'

-- The digits in front.
abbrev pub digits_value : ℕ → List ℕ → ℕ
digits_value v [] = v
digits_value v (c ∷ cs) =
    let rest = digits_value (v * 10 + (c - b'0')) cs in if is_digit c then rest else v

abbrev pub magnitude : List ℕ → Option ℕ
magnitude [] = none
magnitude (c ∷ cs) = if is_digit c then some (digits_value 0 (c ∷ cs)) else none

abbrev pub skip_blanks : List ℕ → List ℕ
skip_blanks [] = []
skip_blanks (c ∷ cs) = let rest = skip_blanks cs in if is_blank c then rest else c ∷ cs

-- Whether there is a minus sign, and the text behind the sign.
abbrev pub take_sign : List ℕ → Bool × List ℕ
take_sign [] = (false, [])
take_sign (c ∷ cs) =
    if c == b'-' then (true, cs) else if c == b'+' then (false, cs) else (false, c ∷ cs)

abbrev pub negative : ℕ → ℤ
negative zero = pos 0
negative (suc n) = negsuc n

unfoldable pub stoll : List ℕ → Option ℤ
stoll text =
    let (minus, rest) = take_sign (skip_blanks text) in
    elim (magnitude rest) [
      | none ↦ none
      | some n ↦
          if minus
          then (if leb n (2 ^ 63) then some (negative n) else none)
          else if ltb n (2 ^ 63)
          then some (pos n)
          else none
    ]

-- A number behind a minus sign wraps around.
unfoldable pub stoull : List ℕ → Option ℕ
stoull text =
    let (minus, rest) = take_sign (skip_blanks text) in
    elim (magnitude rest) [
      | none ↦ none
      | some n ↦ if ltb n (2 ^ 64) then some (if minus then (2 ^ 64 - n) % 2 ^ 64 else n) else none
    ]

-- The texts before and behind the first separator.
abbrev pub at_separator : List ℕ → Option (List ℕ × List ℕ)
at_separator [] = none
at_separator (c ∷ cs) =
    let rest = at_separator cs in
    if c == 9 then some ([], cs) else elim rest [ none ↦ none | some (a, b) ↦ some (c ∷ a, b) ]

abbrev pub is_empty : List ℕ → Bool
is_empty [] = true
is_empty (c ∷ cs) = false

infixl 10 ◌>>=◌
abbrev pub ◌>>=◌ {ℓ κ} : {A : Type ℓ} {B : Type κ} → Option A → (A → Option B) → Option B
none >>= f = none
some a >>= f = f a

-- A frame of the four texts of a line, if it has a session and a text; its index is set when it is
-- inserted.
abbrev pub filled : ℤ → List ℕ → ℕ → List ℕ → Option Frame
filled queued_epoch_s session_id seq frame =
    if is_empty session_id || is_empty frame
    then none
    else some (record {
      queued_epoch_s = queued_epoch_s;
      session_id = session_id;
      seq = seq;
      frame = frame;
      index = 0;
    })

unfoldable pub parse_line : List ℕ → Option Frame
unfolding stoll stoull
parse_line line = do
  first ← at_separator line
  second ← at_separator first.1
  third ← at_separator second.1
  queued_epoch_s ← stoll first.0
  seq ← stoull third.0
  filled queued_epoch_s second.0 seq third.1

-- The number fits into 64 bits with a sign.
abbrev pub fits : ℤ → Bool
fits (pos n) = ltb n (2 ^ 63)
fits (negsuc n) = ltb n (2 ^ 63)

abbrev pub pow10 : ℕ → ℕ
pow10 zero = 1
pow10 (suc k) = 10 * pow10 k

separator_found :
    (a b : List ℕ) → all (λ c. not (c == 9)) a ≡ true → at_separator (a ++ 9 ∷ b) ≡ some (a, b)
separator_found [] b h = refl
separator_found (c ∷ cs) b h = ground (arith, h, separator_found cs b)

digits_value-append :
    (v : ℕ) (a b : List ℕ)
    → all is_digit a ≡ true
    → digits_value v (a ++ b) ≡ digits_value (digits_value v a) b
digits_value-append v [] b h = refl
digits_value-append v (c ∷ cs) b h =
    ground (arith, h, digits_value-append (v * 10 + (c - b'0')) cs b)

all-append : (p : ℕ → Bool) (a b : List ℕ) → all p a ≡ true → all p b ≡ true → all p (a ++ b) ≡ true
all-append p [] b h k = k
all-append p (c ∷ cs) b h k = ground (arith, h, k, all-append p cs b)

digits-digits : (k n : ℕ) → all is_digit (digits k n) ≡ true
unfolding digits
digits-digits zero n = refl
digits-digits (suc k) n = elim (Bool-cases (ltb n 10)) [
  | inl small ↦ rw (small, digits) (ground (arith, small))
  | inr large ↦
      rw (large, digits)
        (all-append is_digit (digits k (n / 10)) ((b'0' + n % 10) ∷ []) (digits-digits k (n / 10))
          (ground arith))
]

value-digits : (k n : ℕ) → n < pow10 k → 0 < k → digits_value 0 (digits k n) ≡ n
unfolding digits
value-digits zero n h p = omega (arith, p)
value-digits (suc zero) n h p =
    let small : ltb n 10 ≡ true = ground (arith, h) in rw (small, digits) (ground (arith, small))
value-digits (suc (suc k)) n h p = elim (Bool-cases (ltb n 10)) [
  | inl small ↦ rw (small, digits) (ground (arith, small))
  | inr large ↦
      let ds = digits (suc k) (n / 10) in
      let ih : digits_value 0 ds ≡ n / 10 =
        value-digits (suc k) (n / 10) (omega (arith, h)) (omega arith) in
      let last = digits_value-append 0 ds ((b'0' + n % 10) ∷ []) (digits-digits (suc k) (n / 10)) in
      rw (large, digits) (last ∙ rw ih (ground arith))
]

abbrev starts_digit : List ℕ → Bool
starts_digit [] = false
starts_digit (c ∷ cs) = is_digit c

starts_digit-append : (a b : List ℕ) → starts_digit a ≡ true → starts_digit (a ++ b) ≡ true
starts_digit-append [] b h = ground (arith, h)
starts_digit-append (c ∷ cs) b h = h

starts_digit-digits : (k n : ℕ) → starts_digit (digits (suc k) n) ≡ true
unfolding digits
starts_digit-digits zero n = elim (Bool-cases (ltb n 10)) [
  | inl small ↦ rw (small, digits) (ground (arith, small))
  | inr large ↦ rw (large, digits) (ground arith)
]
starts_digit-digits (suc k) n = elim (Bool-cases (ltb n 10)) [
  | inl small ↦ rw (small, digits) (ground (arith, small))
  | inr large ↦
      rw (large, digits)
        (starts_digit-append (digits (suc k) (n / 10)) ((b'0' + n % 10) ∷ [])
          (starts_digit-digits k (n / 10)))
]

magnitude_lem : (ds : List ℕ) → starts_digit ds ≡ true → magnitude ds ≡ some (digits_value 0 ds)
magnitude_lem [] h = ground (arith, h)
magnitude_lem (c ∷ cs) h = rw h refl

sign_lem : (ds : List ℕ) → starts_digit ds ≡ true → take_sign (skip_blanks ds) ≡ (false, ds)
sign_lem [] h = ground (arith, h)
sign_lem (c ∷ cs) h = ground (arith, h)

stoull-digits : (n : ℕ) → n < 2 ^ 64 → stoull (digits 20 n) ≡ some n
unfolding stoull
stoull-digits n h =
    let ds = digits 20 n in
    let first = starts_digit-digits 19 n in
    let value = value-digits 20 n (omega (arith, h)) (omega arith) in
    rw (sign_lem ds first, stoull, magnitude_lem ds first, value) (ground (arith, h))

stoll-print : (n : ℤ) → fits n ≡ true → stoll (print_ℤ n) ≡ some n
unfolding stoll
stoll-print (pos n) h =
    let ds = digits 20 n in
    let first = starts_digit-digits 19 n in
    let value = value-digits 20 n (ground (arith, h)) (omega arith) in
    rw (sign_lem ds first, stoll, magnitude_lem ds first, value) (ground (arith, h))
stoll-print (negsuc n) h =
    let ds = digits 20 (suc n) in
    let first = starts_digit-digits 19 (suc n) in
    let value = value-digits 20 (suc n) (ground (arith, h)) (omega arith) in
    rw (magnitude_lem ds first, stoll, value) (ground (arith, h))

no_tab-digits : (ds : List ℕ) → all is_digit ds ≡ true → all (λ c. not (c == 9)) ds ≡ true
no_tab-digits [] h = refl
no_tab-digits (c ∷ cs) h = ground (arith, h, no_tab-digits cs)

no_tab-print : (n : ℤ) → all (λ c. not (c == 9)) (print_ℤ n) ≡ true
no_tab-print (pos n) = no_tab-digits (digits 20 n) (digits-digits 20 n)
no_tab-print (negsuc n) = no_tab-digits (digits 20 (suc n)) (digits-digits 20 (suc n))

parse_line_fields :
    (line a rest₁ b rest₂ c d : List ℕ) (q : ℤ) (s : ℕ)
    → at_separator line ≡ some (a, rest₁)
    → at_separator rest₁ ≡ some (b, rest₂)
    → at_separator rest₂ ≡ some (c, d)
    → stoll a ≡ some q
    → stoull c ≡ some s
    → parse_line line ≡ filled q b s d
unfolding parse_line
parse_line_fields line a rest₁ b rest₂ c d q s e f g h k = rw (e, f, g, h, k, parse_line) refl

-- A frame is read back from its line, but for its index, which is set anew: if its numbers are in the
-- range of their types, its session is not empty and without a tab, and its text is not empty.
pub parse-format_line :
    (f : Frame)
    → fits f.queued_epoch_s ≡ true
    → f.seq < 2 ^ 64
    → is_empty f.session_id ≡ false
    → all (λ c. not (c == 9)) f.session_id ≡ true
    → is_empty f.frame ≡ false
    → parse_line (format_line f) ≡ some (record f { index = 0 })
unfolding format_line
parse-format_line f q s session tabs text =
    let rest₂ = digits 20 f.seq ++ 9 ∷ f.frame in
    let rest₁ = f.session_id ++ 9 ∷ rest₂ in
    let first = separator_found (print_ℤ f.queued_epoch_s) rest₁ (no_tab-print f.queued_epoch_s) in
    let second = separator_found f.session_id rest₂ tabs in
    let third =
      separator_found (digits 20 f.seq) f.frame
        (no_tab-digits (digits 20 f.seq) (digits-digits 20 f.seq)) in
    parse_line_fields (format_line f) (print_ℤ f.queued_epoch_s) rest₁ f.session_id rest₂
      (digits 20 f.seq) f.frame f.queued_epoch_s f.seq first second third
      (stoll-print f.queued_epoch_s q) (stoull-digits f.seq s)
    ∙ rw (session, text) refl
