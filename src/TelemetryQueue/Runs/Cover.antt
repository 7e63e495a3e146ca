-- ===== src/TelemetryQueue/Runs/Cover.antt =====
-- The runs of onboard/src/telemetry_queue.cpp cover the pending indices and no others.
use coatheal_flight_software.Prelude.{
  ℕ, ◌+◌, ◌-◌, ◌≤◌, ◌<◌, ◌≡◌, refl, Bool, true, false, not, ◌&&◌, ◌||◌, some, List, [], ◌∷◌, arith,
  ltb, leb, ◌==◌, if◌then◌else◌, Bool-cases, Option-cases, inl, inr,
}
use coatheal_flight_software.TelemetryQueue.Runs.{set_range, erase_range, last_run, run_before}

-- The index is in one of the runs.
abbrev pub in_runs : ℕ → List (ℕ × ℕ) → Bool
in_runs i [] = false
in_runs i ((a, b) ∷ rs) = (leb a i && leb i b) || in_runs i rs

-- The runs are in order from `lo` to below `hi`, and an index that is not pending stands between two of them.
abbrev pub Apart : ℕ → ℕ → List (ℕ × ℕ) → Type 0
Apart lo hi [] = Unit
Apart lo hi ((a, b) ∷ rs) = (lo ≤ a) × (a ≤ b) × (b < hi) × Apart (b + 2) hi rs

pub set_range_front :
    (start end lo hi : ℕ) (rs : List (ℕ × ℕ))
    → start < lo
    → Apart lo hi rs
    → set_range start end rs ≡ (start, end) ∷ rs
set_range_front start end lo hi [] h a = refl
set_range_front start end lo hi ((s, e) ∷ rs) h a = ground (arith, h, a)

in_runs_below : (i lo hi : ℕ) (rs : List (ℕ × ℕ)) → i < lo → Apart lo hi rs → in_runs i rs ≡ false
in_runs_below i lo hi [] h a = refl
in_runs_below i lo hi ((s, e) ∷ rs) h a = ground (arith, h, a, in_runs_below i (e + 2) hi rs)

pub Apart-wider :
    (lo lo' hi hi' : ℕ) (rs : List (ℕ × ℕ))
    → lo' ≤ lo
    → hi ≤ hi'
    → Apart lo hi rs
    → Apart lo' hi' rs
Apart-wider lo lo' hi hi' [] h k a = tt
Apart-wider lo lo' hi hi' ((s, e) ∷ rs) h k a = (
  omega (arith, h, a.0),
  a.1,
  omega (arith, k, a.2),
  Apart-wider (e + 2) (e + 2) hi hi' rs (omega arith) k a.3,
)

set_range_after :
    (start end a b : ℕ) (rs : List (ℕ × ℕ))
    → a < start
    → set_range start end ((a, b) ∷ rs) ≡ (a, b) ∷ set_range start end rs
set_range_after start end a b rs h = ground (arith, h)

erase_range_after :
    (start a b : ℕ) (rs : List (ℕ × ℕ))
    → a < start
    → erase_range start ((a, b) ∷ rs) ≡ (a, b) ∷ erase_range start rs
erase_range_after start a b rs h = ground (arith, h)

pub last_run_ge :
    (lo hi : ℕ) (rs : List (ℕ × ℕ)) (r : ℕ × ℕ)
    → Apart lo hi rs
    → last_run rs ≡ some r
    → (lo ≤ r.0) × (r.0 ≤ r.1) × (r.1 < hi)
last_run_ge lo hi [] r a e = ground (arith, e)
last_run_ge lo hi ((s, e) ∷ []) r a f = ground (arith, f, a)
last_run_ge lo hi ((s, e) ∷ t ∷ rs) r a f =
    let (x, y, z) = last_run_ge (e + 2) hi (t ∷ rs) r a.3 f in (omega (arith, x, a), y, z)

-- If the last run does not end just below `n`, all runs end below n - 1.
pub last_gap :
    (lo n : ℕ) (rs : List (ℕ × ℕ))
    → Apart lo n rs
    → ((r : ℕ × ℕ) → last_run rs ≡ some r → r.1 + 1 == n ≡ false)
    → Apart lo (n - 1) rs
last_gap lo n [] a g = tt
last_gap lo n ((s, e) ∷ []) a g = (a.0, a.1, ground (arith, a.2, g (s, e) refl), tt)
last_gap lo n ((s, e) ∷ (s', e') ∷ rs) a g =
    (a.0, a.1, omega (arith, a), last_gap (e + 2) n ((s', e') ∷ rs) a.3 g)

-- A frame behind the last run.
pub appended :
    (lo n : ℕ) (rs : List (ℕ × ℕ))
    → lo ≤ n
    → Apart lo (n - 1) rs
    → Apart lo (n + 1) (set_range n n rs)
      × ((j : ℕ) → in_runs j (set_range n n rs) ≡ (in_runs j rs || j == n))
appended lo n [] h a = ((h, omega arith, omega arith, tt), λ j. ground arith)
appended lo n ((s, e) ∷ rs) h a =
    let (apart, cover) = appended (e + 2) n rs (omega (arith, a)) a.3 in
    rw (set_range_after n n s e rs (omega (arith, a)))
      ((a.0, a.1, omega (arith, a), apart), λ j. ground (arith, cover j))

-- A frame that extends the last run.
pub extended :
    (lo n : ℕ) (s e : ℕ) (rs : List (ℕ × ℕ))
    → last_run rs ≡ some (s, e)
    → e + 1 ≡ n
    → Apart lo n rs
    → Apart lo (n + 1) (set_range s n (erase_range s rs))
      × ((j : ℕ) → in_runs j (set_range s n (erase_range s rs)) ≡ (in_runs j rs || j == n))
extended lo n s e [] f h a = ground (arith, f)
extended lo n s e ((c, d) ∷ []) f h a =
    let same_start : c ≡ s = ground (arith, f) in
    let same_end : d ≡ e = ground (arith, f) in
    let gone : erase_range s ((c, d) ∷ []) ≡ [] = ground (arith, same_start) in
    rw gone (
      (omega (arith, a, same_start), omega (arith, h, a, same_start, same_end), omega arith, tt),
      λ j. ground (arith, h, a, same_start, same_end),
    )
extended lo n s e ((c, d) ∷ r ∷ rs) f h a =
    let (apart, cover) = extended (d + 2) n s e (r ∷ rs) f h a.3 in
    let (ge, _, _) = last_run_ge (d + 2) n (r ∷ rs) (s, e) a.3 f in
    rw
      (
        erase_range_after s c d (r ∷ rs) (omega (arith, ge, a)),
        set_range_after s n c d (erase_range s (r ∷ rs)) (omega (arith, ge, a)),
      )
      ((a.0, a.1, omega (arith, a), apart), λ j. ground (arith, cover j))

-- The run from `s` to `e` without the index `i`.
abbrev pub cut_range : ℕ → ℕ → ℕ → List (ℕ × ℕ) → List (ℕ × ℕ)
cut_range s e i rs =
    let rs₁ = erase_range s rs in
    let rs₂ = if ltb s i then set_range s (i - 1) rs₁ else rs₁ in
    if ltb i e then set_range (i + 1) e rs₂ else rs₂

cut_range_after :
    (s e i a b : ℕ) (rs : List (ℕ × ℕ))
    → a < s
    → s ≤ i
    → cut_range s e i ((a, b) ∷ rs) ≡ (a, b) ∷ cut_range s e i rs
cut_range_after s e i a b rs h k =
    let rs₁ = erase_range s rs in
    rw (erase_range_after s a b rs h) (
      ground (
        arith,
        h,
        k,
        set_range_after s (i - 1) a b rs₁,
        set_range_after (i + 1) e a b rs₁,
        set_range_after (i + 1) e a b (set_range s (i - 1) rs₁),
      ))

cut_range_front :
    (s e i hi : ℕ) (rs : List (ℕ × ℕ))
    → s ≤ i
    → i ≤ e
    → Apart (e + 2) hi rs
    → cut_range s e i ((s, e) ∷ rs) ≡ (
        let rs₁ = if ltb i e then (i + 1, e) ∷ rs else rs in
        if ltb s i then (s, i - 1) ∷ rs₁ else rs₁)
cut_range_front s e i hi rs h k a =
    let gone : erase_range s ((s, e) ∷ rs) ≡ rs = ground arith in
    rw gone (
      ground (
        arith,
        h,
        k,
        set_range_front s (i - 1) (e + 2) hi rs,
        set_range_front (i + 1) e (e + 2) hi rs,
        set_range_after (i + 1) e s (i - 1) rs,
      ))

pub run_before_ge :
    (lo hi i : ℕ) (rs : List (ℕ × ℕ)) (r : ℕ × ℕ)
    → Apart lo hi rs
    → run_before i rs ≡ some r
    → (lo ≤ r.0) × (r.0 ≤ i) × (r.1 < hi)
run_before_ge lo hi i [] r a f = ground (arith, f)
run_before_ge lo hi i ((s, e) ∷ rs) r a f = elim (Option-cases (run_before i rs)) [
  | inl last ↦ ground (arith, f, a, last)
  | inr (t, found) ↦
      let (x, y, z) = run_before_ge (e + 2) hi i rs t a.3 found in
      ground (arith, f, found, x, y, z, a)
]

-- The index is in the first run.
removed_first :
    (lo hi i : ℕ) (s e : ℕ) (rs : List (ℕ × ℕ))
    → s ≤ i
    → i ≤ e
    → Apart lo hi ((s, e) ∷ rs)
    → Apart lo hi (cut_range s e i ((s, e) ∷ rs))
      × ((j : ℕ)
          → in_runs j (cut_range s e i ((s, e) ∷ rs)) ≡ (in_runs j ((s, e) ∷ rs) && not (j == i)))
removed_first lo hi i s e rs h k a =
    let below = λ (j : ℕ). in_runs_below j (e + 2) hi rs in
    let wider = Apart-wider (e + 2) lo hi hi rs (omega (arith, a)) (omega arith) a.3 in
    rw (cut_range_front s e i hi rs h k a.3) (elim (Bool-cases (ltb s i)) [
      | inl left ↦ elim (Bool-cases (ltb i e)) [
        | inl right ↦
            rw (left, right)
              (ground (arith, a, left, right), λ j. ground (arith, h, k, a, left, right, below j))
        | inr end ↦
            let rest =
              Apart-wider (e + 2) (i - 1 + 2) hi hi rs (omega (arith, k)) (omega arith) a.3 in
            rw (left, end)
              (ground (arith, k, a, left, rest), λ j. ground (arith, h, k, a, left, end, below j))
      ]
      | inr start ↦ elim (Bool-cases (ltb i e)) [
        | inl right ↦
            rw (start, right)
              (ground (arith, h, a, right), λ j. ground (arith, h, k, a, start, right, below j))
        | inr end ↦ rw (start, end) (wider, λ j. ground (arith, h, k, a, start, end, below j))
      ]
    ])

-- A frame is taken out of its run.
pub removed :
    (lo hi i : ℕ) (s e : ℕ) (rs : List (ℕ × ℕ))
    → run_before i rs ≡ some (s, e)
    → i ≤ e
    → Apart lo hi rs
    → Apart lo hi (cut_range s e i rs)
      × ((j : ℕ) → in_runs j (cut_range s e i rs) ≡ (in_runs j rs && not (j == i)))
removed lo hi i s e [] f h a = ground (arith, f)
removed lo hi i s e ((c, d) ∷ rs) f h a = elim (Option-cases (run_before i rs)) [
  | inl last ↦
      let same_start : c ≡ s = ground (arith, f, last) in
      let same_end : d ≡ e = ground (arith, f, last) in
      let before : c ≤ i = ground (arith, f) in
      let a' : Apart lo hi ((s, e) ∷ rs) = rw (← same_start, ← same_end) a in
      rw (same_start, same_end)
        (removed_first lo hi i s e rs (omega (arith, before, same_start)) h a')
  | inr (t, found) ↦
      let found' : run_before i rs ≡ some (s, e) = ground (arith, f, found) in
      let (apart, cover) = removed (d + 2) hi i s e rs found' h a.3 in
      let (ge, before, _) = run_before_ge (d + 2) hi i rs (s, e) a.3 found' in
      rw (cut_range_after s e i c d rs (omega (arith, ge, a)) before)
        ((a.0, a.1, a.2, apart), λ j. ground (arith, cover j, ge, before, h, a))
]

-- The run of an index that is in one.
pub run_before_found :
    (lo hi i : ℕ) (rs : List (ℕ × ℕ))
    → Apart lo hi rs
    → in_runs i rs ≡ true
    → (s : ℕ) × (e : ℕ) × (run_before i rs ≡ some (s, e)) × (s ≤ i) × (i ≤ e)
run_before_found lo hi i [] a f = ground (arith, f)
run_before_found lo hi i ((c, d) ∷ rs) a f = elim (Bool-cases (in_runs i rs)) [
  | inl later ↦
      let (s, e, found, before, after) = run_before_found (d + 2) hi i rs a.3 later in
      let (ge, _, _) = run_before_ge (d + 2) hi i rs (s, e) a.3 found in
      (s, e, ground (arith, found, ge, before, a), before, after)
  | inr none_later ↦ elim (Option-cases (run_before i rs)) [
    | inl last ↦ (
      c,
      d,
      ground (arith, f, none_later, last),
      ground (arith, f, none_later),
      ground (arith, f, none_later),
    )
    | inr (t, found) ↦
        let (ge, _, _) = run_before_ge (d + 2) hi i rs t a.3 found in
        let within : (leb c i && leb i d) ≡ true = ground (arith, f, none_later) in
        let (_, before, _) = run_before_ge (d + 2) hi i rs t a.3 found in
        ground (arith, within, ge, before)
  ]
]
