-- ===== src/TelemetryQueue/Pending.antt =====
-- The frames of onboard/src/telemetry_queue.cpp and their runs, over all calls.
use coatheal_flight_software.Prelude.{
  ℕ, ◌+◌, ◌-◌, ◌%◌, ◌^◌, ◌≤◌, ◌<◌, ◌≡◌, refl, sym, ◌∙◌, inl, inr, Bool, true, false, not, ◌&&◌,
  ◌||◌, some, List, [], ◌∷◌, arith, ◌==◌, if_cases, Bool-cases, Option-cases,
}
use coatheal_flight_software.TelemetryQueue.{
  Frame, Queue, emplace, erase_frame, find_frame, insert_locked, remove_locked,
}
use coatheal_flight_software.TelemetryQueue.Runs.{RunSet, extend_runs, split_runs}
use coatheal_flight_software.TelemetryQueue.Runs.Replay.{
  IsRunsOf, extend_runs-IsRunsOf, split_runs-IsRunsOf,
}

abbrev pub is_pending : ℕ → List Frame → Bool
is_pending i [] = false
is_pending i (f ∷ fs) = i == f.index || is_pending i fs

abbrev pub Ascending : ℕ → List Frame → Type 0
Ascending lo [] = Unit
Ascending lo (f ∷ fs) = (lo ≤ f.index) × Ascending (f.index + 1) fs

is_pending_below : (i lo : ℕ) (fs : List Frame) → i < lo → Ascending lo fs → is_pending i fs ≡ false
is_pending_below i lo [] h a = refl
is_pending_below i lo (f ∷ fs) h a = ground (arith, h, a, is_pending_below i (f.index + 1) fs)

pending-emplace :
    (j : ℕ) (f : Frame) (fs : List Frame)
    → is_pending j (emplace f fs) ≡ (is_pending j fs || j == f.index)
pending-emplace j f [] = ground arith
pending-emplace j f (g ∷ fs) = ground (arith, pending-emplace j f fs)

emplace-Ascending :
    (lo : ℕ) (f : Frame) (fs : List Frame)
    → lo ≤ f.index
    → Ascending lo fs
    → Ascending lo (emplace f fs)
emplace-Ascending lo f [] h a = (h, tt)
emplace-Ascending lo f (g ∷ fs) h a = ground (arith, h, a, emplace-Ascending (g.index + 1) f fs)

Ascending-lower : (lo lo' : ℕ) (fs : List Frame) → lo' ≤ lo → Ascending lo fs → Ascending lo' fs
Ascending-lower lo lo' [] h a = tt
Ascending-lower lo lo' (f ∷ fs) h a = (omega (arith, h, a.0), a.1)

erase-Ascending : (i lo : ℕ) (fs : List Frame) → Ascending lo fs → Ascending lo (erase_frame i fs)
erase-Ascending i lo [] a = tt
erase-Ascending i lo (f ∷ fs) a =
    if_cases (Ascending lo) (i == f.index)
      (λ _. Ascending-lower (f.index + 1) lo fs (omega (arith, a.0)) a.1)
      (λ _. (a.0, erase-Ascending i (f.index + 1) fs a.1))

pending-erase :
    (j i lo : ℕ) (fs : List Frame)
    → Ascending lo fs
    → is_pending j (erase_frame i fs) ≡ (is_pending j fs && not (j == i))
pending-erase j i lo [] a = refl
pending-erase j i lo (f ∷ fs) a =
    ground (arith, a, pending-erase j i (f.index + 1) fs, is_pending_below j (f.index + 1) fs)

pub find_frame_pending :
    (i : ℕ) (f : Frame) (fs : List Frame)
    → find_frame i fs ≡ some f
    → (is_pending i fs ≡ true) × (f.index ≡ i)
find_frame_pending i f [] e = ground (arith, e)
find_frame_pending i f (g ∷ fs) e = ground (arith, e, find_frame_pending i f fs)

pub pending_found :
    (i : ℕ) (fs : List Frame) → is_pending i fs ≡ true → (f : Frame) × (find_frame i fs ≡ some f)
pending_found i [] h = ground (arith, h)
pending_found i (g ∷ fs) h = elim (Bool-cases (i == g.index)) [
  | inl here ↦ (g, rw here refl)
  | inr there ↦ let (f, e) = pending_found i fs (rw there at h) in (f, rw there e)
]

-- The frames stand in the order of their indices, and the runs are those of the frames.
pub record IsSound (n : ℕ) (q : Queue) : Type 0 where
  pub next_le : q.next_index ≤ n
  pub ascending : Ascending 0 q.frames
  pub runs_of : IsRunsOf q.next_index (λ j. is_pending j q.frames) q.runs

IsRunsOf-same :
    (n : ℕ) (p p' : ℕ → Bool) (r : RunSet)
    → ((j : ℕ) → p j ≡ p' j)
    → IsRunsOf n p r
    → IsRunsOf n p' r
IsRunsOf-same n p p' r e i = record {
  apart = i.apart;
  cover = λ j. i.cover j ∙ e j;
  indexed = i.indexed;
}

pub insert-IsSound :
    (n : ℕ) (f : Frame) (q : Queue)
    → n < 2 ^ 64 - 1
    → IsSound n q
    → IsSound (n + 1) (insert_locked f q)
unfolding insert_locked
insert-IsSound n f q h i =
    let g : Frame = record f { index = q.next_index } in
    let next : (q.next_index + 1) % 2 ^ 64 ≡ q.next_index + 1 = omega (arith, h, i.next_le) in
    let runs =
      extend_runs-IsRunsOf q.next_index (λ j. is_pending j q.frames) q.runs
        (omega (arith, h, i.next_le)) i.runs_of in
    record {
      next_le = omega (arith, h, i.next_le);
      ascending = emplace-Ascending 0 g q.frames (omega arith) i.ascending;
      runs_of = rw next (
          IsRunsOf-same (q.next_index + 1) _ (λ j. is_pending j (emplace g q.frames))
            (extend_runs q.next_index q.runs) (λ j. sym (pending-emplace j g q.frames)) runs);
    }

pub remove-IsSound : (n i : ℕ) (q : Queue) → IsSound n q → IsSound n (remove_locked i q)
unfolding remove_locked
remove-IsSound n i q o = elim (Option-cases (find_frame i q.frames)) [
  | inl e ↦ rw (e, remove_locked) o
  | inr (f, e) ↦
      let (pending, _) = find_frame_pending i f q.frames e in
      let runs =
        split_runs-IsRunsOf q.next_index i (λ j. is_pending j q.frames) q.runs pending o.runs_of in
      rw (e, remove_locked)
        (record {
          next_le = o.next_le;
          ascending = erase-Ascending i 0 q.frames o.ascending;
          runs_of =
              IsRunsOf-same q.next_index _ (λ j. is_pending j (erase_frame i q.frames))
                (split_runs i q.runs) (λ j. sym (pending-erase j i 0 q.frames o.ascending)) runs;
        })
]
