-- ===== src/LinkBudget/Calls.antt =====
-- Sequences of calls of onboard/src/link_budget.cpp, with the log of all charges they admit.
use coatheal_flight_software.Prelude.{
  ℕ, ◌-◌, ◌≤◌, min, true, false, Option, none, some, List, [], ◌∷◌, ◌++◌, ◌≡◌, if◌then◌else◌,
}
use coatheal_flight_software.Double.{Double}
use coatheal_flight_software.LinkBudget.{
  LinkBudget, LinkPriority, Entry, find_entry, in_window, release_at, release_part, refund,
  set_egress_shaper, debit_egress, refund_egress, admit, try_charge, try_hold, leave_queue,
  wait_begin, wait_round,
}
use coatheal_flight_software.LinkBudget.Ledger.{Charge, amend, find_charge}
use coatheal_flight_software.LinkBudget.Admission.{prunes}

-- The log of all charges, and the time when the ledger was last pruned.
pub record Log : Type 0 where
  pub clock : ℕ
  pub charges : List Charge

-- The calls that change the ledger; a round of `WaitHold` is a call of its own.
pub data Call : Type 0 where
  charges : ℕ → LinkPriority → ℕ → Call
  holds : ℕ → LinkPriority → ℕ → Call
  begins_wait : ℕ → LinkPriority → Call
  waits : ℕ → LinkPriority → ℕ → ℕ → Call
  releases : ℕ → ℕ → Call
  releases_part : ℕ → ℕ → ℕ → Call
  refunds : ℕ → ℕ → Call
  looks : Call
  shapes : ℕ → ℕ → Call
  debits : ℕ → Call
  refunds_egress : ℕ → Call

module _ {W : Type 0} where
  -- The log after an admission.
  unfoldable pub note : ℕ → LinkPriority → ℕ → Option ℕ → LinkBudget W → Option ℕ → Log → Log
  note bytes p now end b ticket g = elim ticket [
    | none ↦ record g { clock = if prunes bytes p b then now else g.clock }
    | some id ↦ record {
      clock = now;
      charges = g.charges ++ record { id = id; placed = now; end = end; bytes = bytes } ∷ [];
    }
  ]

  unfoldable pub amend_log : ℕ → (Charge → Charge) → LinkBudget W → Log → Log
  amend_log id f b g = record g { charges = amend b.window g.clock id f g.charges }

  -- A part is closed: the rest of the charge stays, and the part is a charge from the same time on.
  unfoldable pub split_log : ℕ → ℕ → ℕ → LinkBudget W → Log → Log
  split_log id bytes when b g = elim (find_charge b.window g.clock id g.charges) [
    | none ↦ g
    | some c ↦
        let part = min bytes c.bytes in
        let rest = λ (c : Charge). record c { bytes = c.bytes - part } in
        record g {
          charges =
              amend b.window g.clock id rest g.charges
              ++ record { id = b.next_id; placed = c.placed; end = some when; bytes = part } ∷ [];
        }
  ]

module _ {W : Type 0} ⦃d : Double W⦄ (seconds : ℕ → W) where
  -- A call at time `now`.
  unfoldable pub serve : ℕ → Call → LinkBudget W → LinkBudget W
  serve now (charges bytes p tx) b = (try_charge seconds bytes p now tx b).0
  serve now (holds bytes p tx) b = (try_hold seconds bytes p now tx b).0
  serve now (begins_wait bytes p) b = (wait_begin seconds bytes p b).0
  serve now (waits bytes p deadline tx) b = (wait_round seconds bytes p deadline now tx b).0
  serve now (releases id when) b = release_at id when b
  serve now (releases_part id bytes when) b = release_part id bytes when b
  serve now (refunds id bytes) b = refund id bytes b
  serve now looks b = (in_window now b).0
  serve now (shapes burst rate) b = set_egress_shaper now burst rate b
  serve now (debits bytes) b = debit_egress seconds now bytes b
  serve now (refunds_egress bytes) b = refund_egress seconds now bytes b

  -- The log after a call.
  unfoldable pub record_call : ℕ → Call → LinkBudget W → Log → Log
  unfolding note amend_log split_log
  record_call now (charges bytes p tx) b g =
      note bytes p now (some now) b (admit seconds bytes p now false tx b).1 g
  record_call now (holds bytes p tx) b g =
      note bytes p now none b (admit seconds bytes p now true tx b).1 g
  record_call now (begins_wait bytes p) b g = g
  record_call now (waits bytes p deadline tx) b g =
      let b₁ = leave_queue p b in
      note bytes p now none b₁ (admit seconds bytes p now true tx b₁).1 g
  record_call now (releases id when) b g = amend_log id (λ c. record c { end = some when }) b g
  record_call now (releases_part id bytes when) b g = split_log id bytes when b g
  record_call now (refunds id bytes) b g =
      amend_log id (λ c. record c { bytes = c.bytes - min bytes c.bytes }) b g
  record_call now looks b g = record g { clock = now }
  record_call now (shapes burst rate) b g = g
  record_call now (debits bytes) b g = g
  record_call now (refunds_egress bytes) b g = g

-- A charge is closed once, if it is still in the ledger.
abbrev pub IsOpenEntry : Option Entry → Type 0
IsOpenEntry none = Unit
IsOpenEntry (some e) = e.end ≡ none

abbrev pub IsOpen : ℕ → List Entry → Type 0
IsOpen id es = IsOpenEntry (find_entry id es)

module _ {W : Type 0} where
  -- A close is for an open charge, and not in the past.
  abbrev pub IsAllowed : ℕ → Call → LinkBudget W → Type 0
  IsAllowed now (releases id when) b = IsOpen id b.entries × (now ≤ when)
  IsAllowed now (releases_part id bytes when) b = IsOpen id b.entries × (now ≤ when)
  IsAllowed now _ b = Unit

module _ {W : Type 0} ⦃d : Double W⦄ (seconds : ℕ → W) where
  -- Calls at times that do not go back, each of them allowed when it is made.
  unfoldable pub AllAllowed : ℕ → List (ℕ × Call) → LinkBudget W → Type 0
  AllAllowed before [] b = Unit
  AllAllowed before ((now, k) ∷ ks) b =
      (before ≤ now) × IsAllowed now k b × AllAllowed now ks (serve seconds now k b)

  unfoldable pub run : List (ℕ × Call) → LinkBudget W → Log → LinkBudget W × Log
  run [] b l = (b, l)
  run ((now, k) ∷ ks) b l = run ks (serve seconds now k b) (record_call seconds now k b l)

  -- The time of the last call.
  abbrev pub last : ℕ → List (ℕ × Call) → ℕ
  last before [] = before
  last before ((now, k) ∷ ks) = last now ks

abbrev pub no_charges : Log
no_charges = record { clock = 0; charges = [] }
