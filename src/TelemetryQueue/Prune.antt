-- ===== src/TelemetryQueue/Prune.antt =====
-- The limits of onboard/src/telemetry_queue.cpp on its size and on the age of its frames.
use coatheal_flight_software.Prelude.{
  ℕ, zero, suc, ◌≤◌, ◌<◌, ◌≡◌, ◌∙◌, refl, sym, subst, if_both, if_cases, ◌⊎◌, inl, inr, Bool, false,
  some, List, [], ◌∷◌, length, arith, ltb, ◌==◌, if◌then◌else◌, List-cases, Bool-cases,
}
use coatheal_flight_software.Prelude.Int.{ℤ, pos, ltb_ℤ, ◌-ℤ◌}
use coatheal_flight_software.TelemetryQueue.{
  Frame, Queue, find_frame, erase_frame, remove_locked, prune_while, prune_locked,
}

-- The loop is at its end: there is no frame, or the first one is not `old`.
abbrev IsEnd : (Frame → Queue → Bool) → Queue → List Frame → Type 0
IsEnd old q [] = Unit
IsEnd old q (f ∷ fs) = old f q ≡ false

remove_first :
    (q : Queue) (f : Frame) (fs : List Frame)
    → q.frames ≡ f ∷ fs
    → let q' = remove_locked f.index q in
      (q'.frames ≡ fs) × (q'.max_bytes ≡ q.max_bytes) × (q'.retention_s ≡ q.retention_s)
unfolding remove_locked
remove_first q f fs e =
    let found : find_frame f.index q.frames ≡ some f = rw e (ground arith) in
    let gone : erase_frame f.index q.frames ≡ fs = rw e (ground arith) in
    rw (found, remove_locked) (gone, refl, refl)

-- The queue at the end of the loop.
abbrev IsPruned : (Frame → Queue → Bool) → Queue → Queue → Type 0
IsPruned old q q' =
    IsEnd old q' q'.frames × (q'.max_bytes ≡ q.max_bytes) × (q'.retention_s ≡ q.retention_s)

prune_while_end :
    (old : Frame → Queue → Bool) (fuel : ℕ) (q : Queue)
    → length q.frames ≤ fuel
    → IsPruned old q (prune_while old fuel q)
unfolding prune_while
prune_while_end old zero q h = elim (List-cases q.frames) [
  | inl e ↦ (rw e tt, refl, refl)
  | inr (f, fs, e) ↦ ground (arith, h, e)
]
prune_while_end old (suc fuel) q h = elim (List-cases q.frames) [
  | inl e ↦ rw (e, prune_while) (rw e tt, refl, refl)
  | inr (f, fs, e) ↦ elim (Bool-cases (old f q)) [
    | inl stale ↦
        let (rest, m, r) = remove_first q f fs e in
        let (done, m', r') =
          prune_while_end old fuel (remove_locked f.index q) (ground (arith, h, e, rest)) in
        rw (e, prune_while, stale) (done, m' ∙ m, r' ∙ r)
    | inr fresh ↦ rw (e, prune_while, fresh) (subst (IsEnd old q) (sym e) fresh, refl, refl)
  ]
]

large_end :
    (q : Queue)
    → IsEnd (λ f q. ltb q.max_bytes q.live_bytes) q q.frames
    → (q.frames ≡ []) ⊎ (q.live_bytes ≤ q.max_bytes)
large_end q h = elim (List-cases q.frames) [
  | inl e ↦ inl e
  | inr (f, fs, e) ↦
      let small : ltb q.max_bytes q.live_bytes ≡ false =
        subst (IsEnd (λ f q. ltb q.max_bytes q.live_bytes) q) e h in
      inr (ground (arith, small))
]

-- The loop of `PruneLocked` for the size comes to its end, and then, with a limit on the size, the
-- queue is empty or its live bytes are within the limit.
pub prune_locked_size :
    (now : ℤ) (q : Queue)
    → 0 < q.max_bytes
    → ((prune_locked now q).frames ≡ []) ⊎ ((prune_locked now q).live_bytes ≤ q.max_bytes)
unfolding prune_locked
prune_locked_size now q h =
    let old = λ (f : Frame) (q : Queue). ltb_ℤ q.retention_s (now -ℤ f.queued_epoch_s) in
    let q₁ : Queue =
      if ltb_ℤ (pos 0) q.retention_s then prune_while old (length q.frames) q else q in
    let limit : q₁.max_bytes ≡ q.max_bytes =
      if_both (λ (r : Queue). r.max_bytes ≡ q.max_bytes) (ltb_ℤ (pos 0) q.retention_s)
        (prune_while_end old (length q.frames) q (omega arith)).1 refl in
    let q₂ = prune_while (λ f q. ltb q.max_bytes q.live_bytes) (length q₁.frames) q₁ in
    let (done, limit', _) =
      prune_while_end (λ f q. ltb q.max_bytes q.live_bytes) (length q₁.frames) q₁ (omega arith) in
    let end : (q₂.frames ≡ []) ⊎ (q₂.live_bytes ≤ q.max_bytes) =
      rw (limit' ∙ limit) at (large_end q₂ done) in
    if_cases (λ (r : Queue). (r.frames ≡ []) ⊎ (r.live_bytes ≤ q.max_bytes)) (q.max_bytes == 0)
      (λ zero. ground (arith, h, zero)) (λ _. end)
