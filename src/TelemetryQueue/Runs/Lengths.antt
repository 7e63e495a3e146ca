-- ===== src/TelemetryQueue/Runs/Lengths.antt =====
-- The runs of onboard/src/telemetry_queue.cpp in the order of their lengths.
use coatheal_flight_software.Prelude.{
  ℕ, ◌+◌, ◌≤◌, ◌<◌, ◌≡◌, refl, Bool, true, false, not, ◌&&◌, ◌||◌, none, some, List, [], ◌∷◌, arith,
  ◌==◌, if◌then◌else◌, Option-cases, inl, inr,
}
use coatheal_flight_software.TelemetryQueue.Runs.{
  set_range, erase_range, last_run, run_before, find_range, pair_less, same_pair, insert_pair,
  erase_pair, length_key,
}
use coatheal_flight_software.TelemetryQueue.Runs.Cover.{Apart}

abbrev pub has : ℕ × ℕ → List (ℕ × ℕ) → Bool
has p [] = false
has p (q ∷ qs) = same_pair p q || has p qs

abbrev pub IsAbove : ℕ × ℕ → List (ℕ × ℕ) → Type 0
IsAbove p [] = Unit
IsAbove p (q ∷ qs) = (pair_less p q ≡ true) × IsAbove p qs

abbrev pub IsSorted : List (ℕ × ℕ) → Type 0
IsSorted [] = Unit
IsSorted (q ∷ qs) = IsAbove q qs × IsSorted qs

pub IsAbove-has :
    (p x : ℕ × ℕ) (qs : List (ℕ × ℕ)) → IsAbove p qs → has x qs ≡ true → pair_less p x ≡ true
IsAbove-has p x [] a h = ground (arith, h)
IsAbove-has p x (q ∷ qs) a h = ground (arith, h, a, IsAbove-has p x qs)

IsAbove-trans :
    (p q : ℕ × ℕ) (qs : List (ℕ × ℕ)) → pair_less p q ≡ true → IsAbove q qs → IsAbove p qs
IsAbove-trans p q [] h a = tt
IsAbove-trans p q (r ∷ qs) h a = (ground (arith, h, a), IsAbove-trans p q qs h a.1)

IsAbove-insert_pair :
    (p q : ℕ × ℕ) (qs : List (ℕ × ℕ))
    → pair_less p q ≡ true
    → IsAbove p qs
    → IsAbove p (insert_pair q qs)
IsAbove-insert_pair p q [] h a = (h, tt)
IsAbove-insert_pair p q (r ∷ qs) h a = ground (arith, h, a, IsAbove-insert_pair p q qs)

pub insert_pair-IsSorted :
    (p : ℕ × ℕ) (qs : List (ℕ × ℕ)) → IsSorted qs → IsSorted (insert_pair p qs)
insert_pair-IsSorted p [] s = (tt, tt)
insert_pair-IsSorted p (q ∷ qs) s =
    ground (arith, s, insert_pair-IsSorted p qs, IsAbove-insert_pair q p qs, IsAbove-trans p q qs)

pub has-insert_pair :
    (x p : ℕ × ℕ) (qs : List (ℕ × ℕ)) → has x (insert_pair p qs) ≡ (has x qs || same_pair x p)
has-insert_pair x p [] = ground arith
has-insert_pair x p (q ∷ qs) = ground (arith, has-insert_pair x p qs)

IsAbove-erase_pair : (p q : ℕ × ℕ) (qs : List (ℕ × ℕ)) → IsAbove p qs → IsAbove p (erase_pair q qs)
IsAbove-erase_pair p q [] a = tt
IsAbove-erase_pair p q (r ∷ qs) a = ground (arith, a, IsAbove-erase_pair p q qs)

pub erase_pair-IsSorted : (p : ℕ × ℕ) (qs : List (ℕ × ℕ)) → IsSorted qs → IsSorted (erase_pair p qs)
erase_pair-IsSorted p [] s = tt
erase_pair-IsSorted p (q ∷ qs) s =
    ground (arith, s, erase_pair-IsSorted p qs, IsAbove-erase_pair q p qs)

pub has-erase_pair :
    (x p : ℕ × ℕ) (qs : List (ℕ × ℕ))
    → IsSorted qs
    → has x (erase_pair p qs) ≡ (has x qs && not (same_pair x p))
has-erase_pair x p [] s = refl
has-erase_pair x p (q ∷ qs) s = ground (arith, s, has-erase_pair x p qs, IsAbove-has q x qs)

-- The run that starts at `s` has the key `k`.
abbrev pub key_at : ℕ → ℕ → List (ℕ × ℕ) → Bool
key_at k s rs = elim (find_range s rs) [ none ↦ false | some e ↦ length_key s e == k ]

pub find-set_range :
    (x s e : ℕ) (rs : List (ℕ × ℕ))
    → find_range x (set_range s e rs) ≡ (if x == s then some e else find_range x rs)
find-set_range x s e [] = ground arith
find-set_range x s e ((a, b) ∷ rs) = ground (arith, find-set_range x s e rs)

pub find_range_below :
    (x lo hi : ℕ) (rs : List (ℕ × ℕ)) → x < lo → Apart lo hi rs → find_range x rs ≡ none
find_range_below x lo hi [] h a = refl
find_range_below x lo hi ((s, e) ∷ rs) h a = ground (arith, h, a, find_range_below x (e + 2) hi rs)

pub find-erase_range :
    (x s lo hi : ℕ) (rs : List (ℕ × ℕ))
    → Apart lo hi rs
    → find_range x (erase_range s rs) ≡ (if x == s then none else find_range x rs)
find-erase_range x s lo hi [] a = ground arith
find-erase_range x s lo hi ((c, d) ∷ rs) a =
    ground (arith, a, find-erase_range x s (d + 2) hi rs a.3, find_range_below x (d + 2) hi rs)

pub find_range_ge :
    (s e lo hi : ℕ) (rs : List (ℕ × ℕ))
    → Apart lo hi rs
    → find_range s rs ≡ some e
    → (lo ≤ s) × (s ≤ e) × (e < hi)
find_range_ge s e lo hi [] a f = ground (arith, f)
find_range_ge s e lo hi ((c, d) ∷ rs) a f =
    ground (arith, f, a, find_range_ge s e (d + 2) hi rs a.3)

-- No run starts inside another one.
pub find_range_inside :
    (s e x lo hi : ℕ) (rs : List (ℕ × ℕ))
    → Apart lo hi rs
    → find_range s rs ≡ some e
    → s < x
    → x ≤ e
    → find_range x rs ≡ none
find_range_inside s e x lo hi [] a f h k = refl
find_range_inside s e x lo hi ((c, d) ∷ rs) a f h k = ground (
  arith,
  a,
  f,
  h,
  k,
  find_range_inside s e x (d + 2) hi rs a.3,
  find_range_below x (d + 2) hi rs,
  find_range_ge s e (d + 2) hi rs a.3,
)

pub find-last_run :
    (s e lo hi : ℕ) (rs : List (ℕ × ℕ))
    → Apart lo hi rs
    → last_run rs ≡ some (s, e)
    → find_range s rs ≡ some e
find-last_run s e lo hi [] a f = ground (arith, f)
find-last_run s e lo hi ((c, d) ∷ []) a f = ground (arith, f)
find-last_run s e lo hi ((c, d) ∷ r ∷ rs) a f =
    let found = find-last_run s e (d + 2) hi (r ∷ rs) a.3 f in
    let (ge, _, _) = find_range_ge s e (d + 2) hi (r ∷ rs) a.3 found in ground (arith, found, ge, a)

pub find-run_before :
    (s e i lo hi : ℕ) (rs : List (ℕ × ℕ))
    → Apart lo hi rs
    → run_before i rs ≡ some (s, e)
    → find_range s rs ≡ some e
find-run_before s e i lo hi [] a f = ground (arith, f)
find-run_before s e i lo hi ((c, d) ∷ rs) a f = elim (Option-cases (run_before i rs)) [
  | inl last ↦ ground (arith, f, last)
  | inr (t, at) ↦
      let found = find-run_before s e i (d + 2) hi rs a.3 (ground (arith, f, at)) in
      let (ge, _, _) = find_range_ge s e (d + 2) hi rs a.3 found in ground (arith, found, ge, a)
]
