-- ===== src/TelemetryQueue/Maps.antt =====
-- The maps of onboard/src/telemetry_queue.cpp: frames by index, indices by session and sequence number,
-- and the indices of the events.
use coatheal_flight_software.Prelude.{
  ℕ, Bool, ◌&&◌, Option, none, some, List, [], ◌∷◌, same_text, ltb, ◌==◌, if◌then◌else◌,
}
use coatheal_flight_software.TelemetryQueue.Lines.{Frame}

abbrev pub same_key : List ℕ × ℕ → List ℕ × ℕ → Bool
same_key k l = same_text k.0 l.0 && k.1 == l.1

abbrev pub find_key : List ℕ × ℕ → List ((List ℕ × ℕ) × ℕ) → Option ℕ
find_key k [] = none
find_key k ((l, i) ∷ m) = if same_key k l then some i else find_key k m

abbrev pub set_key : List ℕ × ℕ → ℕ → List ((List ℕ × ℕ) × ℕ) → List ((List ℕ × ℕ) × ℕ)
set_key k i [] = (k, i) ∷ []
set_key k i ((l, j) ∷ m) = if same_key k l then (l, i) ∷ m else (l, j) ∷ set_key k i m

abbrev pub erase_key : List ℕ × ℕ → List ((List ℕ × ℕ) × ℕ) → List ((List ℕ × ℕ) × ℕ)
erase_key k [] = []
erase_key k ((l, j) ∷ m) = if same_key k l then m else (l, j) ∷ erase_key k m

abbrev pub insert_index : ℕ → List ℕ → List ℕ
insert_index i [] = i ∷ []
insert_index i (j ∷ js) =
    if ltb i j then i ∷ j ∷ js else if i == j then j ∷ js else j ∷ insert_index i js

abbrev pub erase_index : ℕ → List ℕ → List ℕ
erase_index i [] = []
erase_index i (j ∷ js) = if i == j then js else j ∷ erase_index i js

-- `frames_.find`, `frames_.emplace` and `frames_.erase`.
abbrev pub find_frame : ℕ → List Frame → Option Frame
find_frame i [] = none
find_frame i (f ∷ fs) = if i == f.index then some f else find_frame i fs

abbrev pub emplace : Frame → List Frame → List Frame
emplace f [] = f ∷ []
emplace f (g ∷ fs) =
    if ltb f.index g.index
    then f ∷ g ∷ fs
    else if f.index == g.index
    then g ∷ fs
    else g ∷ emplace f fs

abbrev pub erase_frame : ℕ → List Frame → List Frame
erase_frame i [] = []
erase_frame i (f ∷ fs) = if i == f.index then fs else f ∷ erase_frame i fs
