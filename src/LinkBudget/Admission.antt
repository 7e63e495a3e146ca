-- ===== src/LinkBudget/Admission.antt =====
-- What `AdmitLocked` of onboard/src/link_budget.cpp does to the ledger.
use coatheal_flight_software.Prelude.{
  ℕ, ◌+◌, ◌-◌, ◌^◌, ◌≤◌, ◌<◌, min, Bool, true, not, ◌&&◌, Option, none, some, [], ◌∷◌, ◌++◌, ◌≡◌,
  refl, arith, ltb, if◌then◌else◌, if_cases,
}
use coatheal_flight_software.Double.{Double}
use coatheal_flight_software.LinkBudget.{
  LinkBudget, LinkPriority, prune, sum_bytes, more_urgent_waiting, refill_egress, admit_egress,
  admit,
}

module _ {W : Type 0} ⦃d : Double W⦄ (seconds : ℕ → W) where
  pub refill_egress_keeps :
      (now : ℕ) (b : LinkBudget W)
      → let b' = refill_egress seconds now b in
        (b'.entries ≡ b.entries)
        × (b'.share ≡ b.share)
        × (b'.window ≡ b.window)
        × (b'.next_id ≡ b.next_id)
  unfolding refill_egress
  refill_egress_keeps now b = ground arith

  admit_egress_keeps :
      (now tx : ℕ) (b : LinkBudget W)
      → let b' = (admit_egress seconds now tx b).0 in
        (b'.entries ≡ b.entries)
        × (b'.share ≡ b.share)
        × (b'.window ≡ b.window)
        × (b'.next_id ≡ b.next_id)
  unfolding admit_egress
  admit_egress_keeps now tx b = ground (arith, refill_egress_keeps now b)

module _ {W : Type 0} where
  -- The admission comes to look at the ledger.
  abbrev pub prunes : ℕ → LinkPriority → LinkBudget W → Bool
  prunes bytes p b = not (ltb b.share bytes) && not (more_urgent_waiting p b)

  -- What an admission does to the ledger.
  abbrev pub Admits :
      ℕ → LinkPriority → ℕ → Option ℕ → LinkBudget W → LinkBudget W × Option ℕ → Type 0
  Admits bytes p now end b r = (r.0.share ≡ b.share) × (r.0.window ≡ b.window) × elim r.1 [
    | none ↦ r.0.entries ≡ (if prunes bytes p b then prune b.window now b.entries else b.entries)
    | some id ↦
        (prunes bytes p b ≡ true)
        × (r.0.entries
            ≡ prune b.window now b.entries ++ record { id = id; end = end; bytes = bytes } ∷ [])
        × (sum_bytes (prune b.window now b.entries) + bytes ≤ b.share)
  ]

module _ {W : Type 0} ⦃d : Double W⦄ (seconds : ℕ → W) where
  pub admit-Admits :
      (bytes : ℕ) (p : LinkPriority) (now : ℕ) (open' : Bool) (tx : ℕ) (b : LinkBudget W)
      → b.share < 2 ^ 32 - 1
      → Admits bytes p now
          (if open' then none else some now)
          b
          (admit seconds bytes p now open' tx b)
  unfolding admit
  admit-Admits bytes p now open' tx b h =
      let P = Admits bytes p now (if open' then none else some now) b in
      let b₁ = record b { entries = prune b.window now b.entries } in
      let (e, s, w, _) = admit_egress_keeps seconds now tx b₁ in
      if_cases P (ltb b.share bytes) (λ q. (refl, refl, ground (arith, q)))
        (λ fits.
          if_cases P (more_urgent_waiting p b) (λ q. (refl, refl, ground (arith, q)))
            (λ first.
              let looks : prunes bytes p b ≡ true = ground (arith, fits, first) in
              if_cases P (ltb b.share (min (sum_bytes b₁.entries) (2 ^ 32 - 1) + bytes))
                (λ _. (refl, refl, rw looks refl))
                (λ room.
                  if_cases P (not (admit_egress seconds now tx b₁).1) (λ _. (s, w, rw looks e))
                    (λ _. (s, w, (looks, rw e refl, ground (arith, room)))))))
