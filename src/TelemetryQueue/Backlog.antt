-- ===== src/TelemetryQueue/Backlog.antt =====
-- Sequences of calls of onboard/src/telemetry_queue.cpp.
use coatheal_flight_software.Prelude.{
  ℕ, zero, suc, ◌+◌, ◌-◌, ◌^◌, ◌≤◌, ◌<◌, ◌≡◌, refl, inl, inr, Bool, false, not, Option, none, some,
  List, [], ◌∷◌, length, arith, ltb, ◌==◌, if◌then◌else◌, if_both, Bool-cases, Option-cases,
  List-cases,
}
use coatheal_flight_software.Prelude.Int.{ℤ, pos, ltb_ℤ, ◌-ℤ◌}
use coatheal_flight_software.TelemetryQueue.{
  Frame, Disk, Queue, find_frame, insert_locked, remove_locked, prune_while, prune_locked,
  maybe_compact_locked, retry_persistence_locked, enqueue, acked, remove_all, after_removal,
  acknowledge, exact_index, acknowledge_exact, next_replay, init, Call, enqueues, acknowledges,
  acknowledges_exactly, serve, run,
}
use coatheal_flight_software.TelemetryQueue.Runs.{replay_index}
use coatheal_flight_software.TelemetryQueue.Runs.Replay.{
  IsNext, replay_index-IsNext, replay_index-none,
}
use coatheal_flight_software.TelemetryQueue.Runs.Cover.{in_runs}
use coatheal_flight_software.TelemetryQueue.Pending.{
  is_pending, find_frame_pending, pending_found, IsSound, insert-IsSound, remove-IsSound,
}

pub same-IsSound :
    (n : ℕ) (q q' : Queue)
    → q'.frames ≡ q.frames
    → q'.runs ≡ q.runs
    → q'.next_index ≡ q.next_index
    → IsSound n q
    → IsSound n q'
same-IsSound n q q' f r x i = record {
  next_le = rw x i.next_le;
  ascending = rw f i.ascending;
  runs_of = rw (f, r, x) i.runs_of;
}

pub later-IsSound : (n m : ℕ) (q : Queue) → n ≤ m → IsSound n q → IsSound m q
later-IsSound n m q h i = record {
  next_le = omega (arith, h, i.next_le);
  ascending = i.ascending;
  runs_of = i.runs_of;
}

pub maybe_compact_keeps :
    (disk : Disk) (q : Queue)
    → let q' = maybe_compact_locked disk q in
      (q'.frames ≡ q.frames) × (q'.runs ≡ q.runs) × (q'.next_index ≡ q.next_index)
unfolding maybe_compact_locked
maybe_compact_keeps disk q = ground arith

pub retry_persistence_keeps :
    (tick : ℕ) (disk : Disk) (q : Queue)
    → let q' = retry_persistence_locked tick disk q in
      (q'.frames ≡ q.frames) × (q'.runs ≡ q.runs) × (q'.next_index ≡ q.next_index)
unfolding retry_persistence_locked
retry_persistence_keeps tick disk q = ground arith

after_removal-IsSound :
    (n tick : ℕ) (disk : Disk) (q : Queue) → IsSound n q → IsSound n (after_removal tick disk q)
after_removal-IsSound n tick disk q i =
    let q₁ = retry_persistence_locked tick disk q in
    let (f, r, x) = retry_persistence_keeps tick disk q in
    let (f', r', x') = maybe_compact_keeps disk q₁ in
    same-IsSound n q₁ (after_removal tick disk q) f' r' x' (same-IsSound n q q₁ f r x i)

prune_while-IsSound :
    (n : ℕ) (old : Frame → Queue → Bool) (fuel : ℕ) (q : Queue)
    → IsSound n q
    → IsSound n (prune_while old fuel q)
unfolding prune_while
prune_while-IsSound n old zero q i = i
prune_while-IsSound n old (suc fuel) q i = elim (List-cases q.frames) [
  | inl e ↦ rw (e, prune_while) i
  | inr (f, fs, e) ↦ elim (Bool-cases (old f q)) [
    | inl stale ↦
        rw (e, prune_while, stale)
          (prune_while-IsSound n old fuel (remove_locked f.index q) (remove-IsSound n f.index q i))
    | inr fresh ↦ rw (e, prune_while, fresh) i
  ]
]

prune-IsSound : (n : ℕ) (now : ℤ) (q : Queue) → IsSound n q → IsSound n (prune_locked now q)
unfolding prune_locked
prune-IsSound n now q i =
    let first = λ (f : Frame) (q : Queue). ltb_ℤ q.retention_s (now -ℤ f.queued_epoch_s) in
    let q₁ : Queue =
      if ltb_ℤ (pos 0) q.retention_s then prune_while first (length q.frames) q else q in
    let i₁ : IsSound n q₁ =
      if_both (IsSound n) (ltb_ℤ (pos 0) q.retention_s)
        (prune_while-IsSound n first (length q.frames) q i) i in
    if_both (IsSound n) (q.max_bytes == 0) i₁
      (prune_while-IsSound n (λ f q. ltb q.max_bytes q.live_bytes) (length q₁.frames) q₁ i₁)

remove_all-IsSound : (n : ℕ) (is : List ℕ) (q : Queue) → IsSound n q → IsSound n (remove_all is q)
unfolding remove_all
remove_all-IsSound n [] q i = i
remove_all-IsSound n (j ∷ js) q i =
    remove_all-IsSound n js (remove_locked j q) (remove-IsSound n j q i)

enqueue-IsSound :
    (n tick : ℕ) (now : ℤ) (disk : Disk) (f : Frame) (q : Queue)
    → n < 2 ^ 64 - 1
    → IsSound n q
    → IsSound (n + 1) (enqueue tick now disk f q)
unfolding enqueue
enqueue-IsSound n tick now disk f q h i =
    let q₀ = prune_locked now (insert_locked f q) in
    let q₁ = retry_persistence_locked tick disk q₀ in
    let i₀ = prune-IsSound (n + 1) now (insert_locked f q) (insert-IsSound n f q h i) in
    let (e, r, x) = retry_persistence_keeps tick disk q₀ in
    let i₁ = same-IsSound (n + 1) q₀ q₁ e r x i₀ in
    let (e', r', x') = maybe_compact_keeps disk q₁ in
    if_both (IsSound (n + 1)) (not q₁.persistence_enabled) i₁ (
      if_both (IsSound (n + 1)) (not disk.appends)
        (same-IsSound (n + 1) q₁ (record q₁ { persistence_enabled = false }) refl refl refl i₁)
        (same-IsSound (n + 1) q₁ (maybe_compact_locked disk q₁) e' r' x' i₁))

-- Every call keeps the frames in order and the runs those of the frames.
serve-IsSound :
    (n tick : ℕ) (disk : Disk) (k : Call) (q : Queue)
    → n < 2 ^ 64 - 1
    → IsSound n q
    → IsSound (n + 1) (serve tick (disk, k) q)
unfolding serve acknowledge acknowledge_exact
serve-IsSound n tick disk (enqueues now f) q h i = enqueue-IsSound n tick now disk f q h i
serve-IsSound n tick disk (acknowledges session_id seq) q h i =
    later-IsSound n (n + 1) (acknowledge tick disk session_id seq q) (omega arith)
      (elim (List-cases (acked session_id seq q.frames)) [
        | inl e ↦ rw (e, acknowledge) i
        | inr (j, js, e) ↦
            rw (e, acknowledge)
              (after_removal-IsSound n tick disk (remove_all (j ∷ js) q)
                (remove_all-IsSound n (j ∷ js) q i))
      ])
serve-IsSound n tick disk (acknowledges_exactly f) q h i =
    later-IsSound n (n + 1) (acknowledge_exact tick disk f q) (omega arith)
      (elim (Option-cases (exact_index f q)) [
        | inl e ↦ rw (e, acknowledge_exact) i
        | inr (j, e) ↦
            rw (e, acknowledge_exact)
              (after_removal-IsSound n tick disk (remove_locked j q) (remove-IsSound n j q i))
      ])

pub run-IsSound :
    (n tick : ℕ) (ks : List (Disk × Call)) (q : Queue)
    → n + length ks < 2 ^ 64
    → IsSound n q
    → IsSound (n + length ks) (run tick ks q)
unfolding run
run-IsSound n tick [] q h i = later-IsSound n (n + 0) q (omega arith) i
run-IsSound n tick ((disk, k) ∷ ks) q h i =
    later-IsSound (n + 1 + length ks) (n + length ((disk, k) ∷ ks))
      (run tick ks (serve tick (disk, k) q)) (omega arith)
      (run-IsSound (n + 1) tick ks (serve tick (disk, k) q) (omega (arith, h))
        (serve-IsSound n tick disk k q (omega (arith, h)) i))

-- The runs are those of the pending frames, and the frame to replay is pending and the one in the
-- middle of the longest run, if there is a frame at all.
abbrev pub IsReplay : Queue → Option Frame → Type 0
IsReplay q none = q.frames ≡ []
IsReplay q (some f) =
    IsNext q.runs f.index
    × (find_frame f.index q.frames ≡ some f)
    × ((j : ℕ) → in_runs j q.runs.ranges ≡ is_pending j q.frames)

none_pending : (fs : List Frame) → ((j : ℕ) → is_pending j fs ≡ false) → fs ≡ []
none_pending [] h = refl
none_pending (f ∷ fs) h = ground (arith, h f.index)

pub next_replay-IsReplay :
    (n : ℕ) (q : Queue)
    → n < 2 ^ 64
    → IsSound n q
    → q.next_index < 2 ^ 64 - 1
    → IsReplay q (next_replay q)
unfolding next_replay
next_replay-IsReplay n q h i k = elim (Option-cases (replay_index q.runs)) [
  | inl e ↦
      rw (e, next_replay)
        (none_pending q.frames
          (replay_index-none q.next_index (λ j. is_pending j q.frames) q.runs i.runs_of e))
  | inr (m, e) ↦
      let (next, pending) =
        replay_index-IsNext q.next_index m (λ j. is_pending j q.frames) q.runs k i.runs_of e in
      let (f, found) = pending_found m q.frames pending in
      let (_, at) = find_frame_pending m f q.frames found in
      rw (e, next_replay, found) (rw at next, rw at found, i.runs_of.cover)
]

pub init-IsSound : (retention_s : ℤ) (a b c d : ℕ) → IsSound 0 (init retention_s a b c d)
unfolding init
init-IsSound retention_s a b c d = record {
  next_le = omega arith;
  ascending = tt;
  runs_of = record {
    apart = tt;
    cover = λ j. refl;
    indexed = record { sorted = tt; keys = λ k s. refl };
  };
}

-- After any calls on a new queue, fewer than 2^64 - 1, whatever the outcomes of the file system: the
-- runs of the queue cover the pending frames and no others, and `NextReplay` gives the pending frame
-- in the middle of the longest run, of the oldest one if several are as long; it gives none only when
-- no frame is pending.
pub next_replay-run :
    (tick : ℕ) (retention_s : ℤ) (max_bytes min_dead max_live cheap_live : ℕ)
    (ks : List (Disk × Call))
    → length ks < 2 ^ 64 - 1
    → let q = run tick ks (init retention_s max_bytes min_dead max_live cheap_live) in
      IsReplay q (next_replay q)
next_replay-run tick retention_s max_bytes min_dead max_live cheap_live ks h =
    let q = init retention_s max_bytes min_dead max_live cheap_live in
    let sound =
      run-IsSound 0 tick ks q (omega (arith, h))
        (init-IsSound retention_s max_bytes min_dead max_live cheap_live) in
    next_replay-IsReplay (0 + length ks) (run tick ks q) (omega (arith, h)) sound
      (omega (arith, h, sound.next_le))
