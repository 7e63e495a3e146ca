-- ===== src/TelemetryQueue/Lines.antt =====
-- The frames of onboard/src/telemetry_queue.cpp and their lines in its file.
pub mod Parse
use coatheal_flight_software.Prelude.{
  ℕ, zero, suc, ◌+◌, ◌/◌, ◌%◌, Bool, true, false, ◌&&◌, List, [], ◌∷◌, ◌++◌, length, codes, ltb,
  ◌==◌,
}
use coatheal_flight_software.Prelude.Int.{ℤ, pos, negsuc}

pub record Frame : Type 0 where
  pub queued_epoch_s : ℤ
  pub session_id : List ℕ
  pub seq : ℕ
  pub frame : List ℕ
  pub index : ℕ

abbrev pub starts_with : List ℕ → List ℕ → Bool
starts_with [] text = true
starts_with (p ∷ ps) [] = false
starts_with (p ∷ ps) (c ∷ cs) = p == c && starts_with ps cs

abbrev pub is_event_frame : Frame → Bool
is_event_frame f = starts_with (codes "EVT,") f.frame

-- The decimal digits of a number below 10^`fuel`.
unfoldable pub digits : ℕ → ℕ → List ℕ
digits zero n = []
digits (suc fuel) n = elim (ltb n 10) [
  | true ↦ (b'0' + n) ∷ []
  | false ↦ digits fuel (n / 10) ++ (b'0' + n % 10) ∷ []
]

-- A number of 64 bits has at most 20 digits.
abbrev pub print_ℤ : ℤ → List ℕ
print_ℤ (pos n) = digits 20 n
print_ℤ (negsuc n) = b'-' ∷ digits 20 (suc n)

unfoldable pub format_line : Frame → List ℕ
unfolding digits
format_line f =
    print_ℤ f.queued_epoch_s ++ 9 ∷ (f.session_id ++ 9 ∷ (digits 20 f.seq ++ 9 ∷ f.frame))

unfoldable pub line_bytes : Frame → ℕ
unfolding format_line
line_bytes f = length (format_line f) + 1
