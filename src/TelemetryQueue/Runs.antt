-- ===== src/TelemetryQueue/Runs.antt =====
-- The runs of consecutive pending indices in onboard/src/telemetry_queue.cpp. A `std::map` or a
-- `std::set` is the list of its entries in their order.
pub mod Cover
pub mod Lengths
pub mod Replay
use coatheal_flight_software.Prelude.{
  ℕ, ◌+◌, ◌-◌, ◌%◌, ◌^◌, ◌/◌, Bool, ◌&&◌, ◌||◌, Option, none, some, List, [], ◌∷◌, ltb, leb, ◌==◌,
  if◌then◌else◌,
}

-- `runs_` from the first to the last index of a run, and `runs_by_length_`.
pub record RunSet : Type 0 where
  pub ranges : List (ℕ × ℕ)
  pub by_length : List (ℕ × ℕ)

-- `runs_[start] = end`.
abbrev pub set_range : ℕ → ℕ → List (ℕ × ℕ) → List (ℕ × ℕ)
set_range start end [] = (start, end) ∷ []
set_range start end ((a, b) ∷ rs) =
    if start == a
    then (start, end) ∷ rs
    else if ltb start a
    then (start, end) ∷ (a, b) ∷ rs
    else (a, b) ∷ set_range start end rs

abbrev pub erase_range : ℕ → List (ℕ × ℕ) → List (ℕ × ℕ)
erase_range start [] = []
erase_range start ((a, b) ∷ rs) = if start == a then rs else (a, b) ∷ erase_range start rs

-- The order of pairs.
abbrev pub pair_less : ℕ × ℕ → ℕ × ℕ → Bool
pair_less p q = ltb p.0 q.0 || (p.0 == q.0 && ltb p.1 q.1)

abbrev pub same_pair : ℕ × ℕ → ℕ × ℕ → Bool
same_pair p q = p.0 == q.0 && p.1 == q.1

abbrev pub insert_pair : ℕ × ℕ → List (ℕ × ℕ) → List (ℕ × ℕ)
insert_pair p [] = p ∷ []
insert_pair p (q ∷ qs) =
    if pair_less p q then p ∷ q ∷ qs else if pair_less q p then q ∷ insert_pair p qs else q ∷ qs

abbrev pub erase_pair : ℕ × ℕ → List (ℕ × ℕ) → List (ℕ × ℕ)
erase_pair p [] = []
erase_pair p (q ∷ qs) = if same_pair p q then qs else q ∷ erase_pair p qs

-- The key of a run in `runs_by_length_`: the longest run has the least.
abbrev pub length_key : ℕ → ℕ → ℕ
length_key start end = 2 ^ 64 - 1 - (end - start + 1)

unfoldable pub add_run : ℕ → ℕ → RunSet → RunSet
add_run start end r = record {
  ranges = set_range start end r.ranges;
  by_length = insert_pair (length_key start end, start) r.by_length;
}

unfoldable pub erase_run : ℕ × ℕ → RunSet → RunSet
erase_run run r = record {
  ranges = erase_range run.0 r.ranges;
  by_length = erase_pair (length_key run.0 run.1, run.0) r.by_length;
}

abbrev pub last_run : List (ℕ × ℕ) → Option (ℕ × ℕ)
last_run [] = none
last_run (r ∷ []) = some r
last_run (r ∷ s ∷ rs) = last_run (s ∷ rs)

-- The last run that does not start behind `index`.
abbrev pub run_before : ℕ → List (ℕ × ℕ) → Option (ℕ × ℕ)
run_before index [] = none
run_before index (r ∷ rs) =
    let rest = run_before index rs in
    if leb r.0 index then elim rest [ none ↦ some r | some s ↦ some s ] else none

-- The end of the run that starts at `start`.
abbrev pub find_range : ℕ → List (ℕ × ℕ) → Option ℕ
find_range start [] = none
find_range start ((a, b) ∷ rs) = if start == a then some b else find_range start rs

-- The runs after `InsertLocked`.
unfoldable pub extend_runs : ℕ → RunSet → RunSet
unfolding add_run erase_run
extend_runs index r = elim (last_run r.ranges) [
  | none ↦ add_run index index r
  | some last ↦
      if (last.1 + 1) % 2 ^ 64 == index
      then add_run last.0 index (erase_run last r)
      else add_run index index r
]

-- A run without one of its indices.
unfoldable pub part_run : ℕ × ℕ → ℕ → RunSet → RunSet
unfolding add_run erase_run
part_run run index r =
    let r₁ = erase_run run r in
    let r₂ = if ltb run.0 index then add_run run.0 (index - 1) r₁ else r₁ in
    if ltb index run.1 then add_run (index + 1) run.1 r₂ else r₂

-- The runs after `RemoveLocked`.
unfoldable pub split_runs : ℕ → RunSet → RunSet
unfolding part_run
split_runs index r = elim (run_before index r.ranges) [
  | none ↦ r
  | some run ↦ if ltb run.1 index then r else part_run run index r
]

-- The frame to replay next: the middle of the first run of `runs_by_length_`.
unfoldable pub replay_index : RunSet → Option ℕ
replay_index r = elim r.by_length [
  | [] ↦ none
  | first ∷ _ ↦ elim (find_range first.1 r.ranges) [
    | none ↦ none
    | some end ↦ some (first.1 + (end - first.1) / 2)
  ]
]
