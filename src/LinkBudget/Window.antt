-- ===== src/LinkBudget/Window.antt =====
-- No window on the link carries more than the share of onboard/src/link_budget.cpp.
use coatheal_flight_software.Prelude.{
  ℕ, ◌-◌, ◌^◌, ◌≤◌, ◌<◌, min, true, false, none, some, List, [], ◌∷◌, ◌≡◌, refl, ◌∙◌, arith,
}
use coatheal_flight_software.Double.{Double}
use coatheal_flight_software.LinkBudget.{
  LinkBudget, LinkPriority, in_window, release_at, release_part, refund, init, set_egress_shaper,
  debit_egress, refund_egress, admit, try_charge, try_hold, leave_queue, wait_begin, wait_round,
}
use coatheal_flight_software.LinkBudget.Ledger.{wire, counted, done, Keeps-prune, Keeps-sum_bytes}
use coatheal_flight_software.LinkBudget.Admission.{admit-Admits, refill_egress_keeps}
use coatheal_flight_software.LinkBudget.Calls.{
  Log, Call, charges, holds, begins_wait, waits, releases, releases_part, refunds, looks, shapes,
  debits, refunds_egress, serve, record_call, IsAllowed, AllAllowed, run, last, no_charges,
}
use coatheal_flight_software.LinkBudget.Sound.{
  IsSound, pruned-IsSound, same-IsSound, note-IsSound, release-IsSound, refund-IsSound,
  split-IsSound,
}

module _ {W : Type 0} ⦃d : Double W⦄ (seconds : ℕ → W) where
  wait_round_keeps :
      (bytes : ℕ) (p : LinkPriority) (deadline now tx : ℕ) (b : LinkBudget W)
      → let b' = (wait_round seconds bytes p deadline now tx b).0 in
        let r = admit seconds bytes p now true tx (leave_queue p b) in
        (b'.entries ≡ r.0.entries) × (b'.share ≡ r.0.share) × (b'.window ≡ r.0.window)
  unfolding wait_round
  wait_round_keeps bytes p deadline now tx b = ground arith

  -- Every allowed call keeps the ledger sound.
  serve-IsSound :
      (before now : ℕ) (k : Call) (b : LinkBudget W) (l : Log)
      → before ≤ now
      → IsAllowed now k b
      → IsSound before b l
      → IsSound now (serve seconds now k b) (record_call seconds now k b l)
  unfolding serve record_call
  serve-IsSound before now (charges bytes p tx) b l h a i =
      unfold try_charge in
      note-IsSound before now bytes p (some now) b l (admit seconds bytes p now false tx b) h i
        (ground (arith, i.window_pos)) (admit-Admits seconds bytes p now false tx b i.share_lt)
  serve-IsSound before now (holds bytes p tx) b l h a i =
      unfold try_hold in
      note-IsSound before now bytes p none b l (admit seconds bytes p now true tx b) h i refl
        (admit-Admits seconds bytes p now true tx b i.share_lt)
  serve-IsSound before now (begins_wait bytes p) b l h a i =
      same-IsSound before now b _ l h i (unfold wait_begin in ground arith)
        (unfold wait_begin in ground arith) (unfold wait_begin in ground arith)
  serve-IsSound before now (waits bytes p deadline tx) b l h a i =
      let b₁ = leave_queue p b in
      let i₁ = same-IsSound before before b b₁ l (omega arith) i refl refl refl in
      let kept =
        note-IsSound before now bytes p none b₁ l (admit seconds bytes p now true tx b₁) h i₁ refl
          (admit-Admits seconds bytes p now true tx b₁ i.share_lt) in
      let (e, s, w) = wait_round_keeps bytes p deadline now tx b in
      same-IsSound now now (admit seconds bytes p now true tx b₁).0 _ _ (omega arith) kept e s w
  serve-IsSound before now (releases id when) b l h a i =
      release-IsSound before now id when b l h i a.0 a.1
  serve-IsSound before now (releases_part id bytes when) b l h a i =
      split-IsSound before now id bytes when b l h i a.0 a.1
  serve-IsSound before now (refunds id bytes) b l h a i = refund-IsSound before now id bytes b l h i
  serve-IsSound before now looks b l h a i =
      unfold in_window in pruned-IsSound before now b _ l h i refl refl refl
  serve-IsSound before now (shapes burst rate) b l h a i =
      unfold set_egress_shaper in same-IsSound before now b _ l h i refl refl refl
  serve-IsSound before now (debits bytes) b l h a i =
      let keeps = refill_egress_keeps seconds now b in
      same-IsSound before now b _ l h i (unfold debit_egress in ground (arith, keeps))
        (unfold debit_egress in ground (arith, keeps))
        (unfold debit_egress in ground (arith, keeps))
  serve-IsSound before now (refunds_egress bytes) b l h a i =
      let keeps = refill_egress_keeps seconds now b in
      same-IsSound before now b _ l h i (unfold refund_egress in ground (arith, keeps))
        (unfold refund_egress in ground (arith, keeps))
        (unfold refund_egress in ground (arith, keeps))

  serve_keeps :
      (now : ℕ) (k : Call) (b : LinkBudget W)
      → b.share < 2 ^ 32 - 1
      → ((serve seconds now k b).share ≡ b.share) × ((serve seconds now k b).window ≡ b.window)
  unfolding serve
  serve_keeps now (charges bytes p tx) b h =
      let r = admit-Admits seconds bytes p now false tx b h in unfold try_charge in (r.0, r.1)
  serve_keeps now (holds bytes p tx) b h =
      let r = admit-Admits seconds bytes p now true tx b h in unfold try_hold in (r.0, r.1)
  serve_keeps now (begins_wait bytes p) b h = unfold wait_begin in ground arith
  serve_keeps now (waits bytes p deadline tx) b h =
      let r = admit-Admits seconds bytes p now true tx (leave_queue p b) h in
      let (_, s, w) = wait_round_keeps bytes p deadline now tx b in (s ∙ r.0, w ∙ r.1)
  serve_keeps now (releases id when) b h = unfold release_at in (refl, refl)
  serve_keeps now (releases_part id bytes when) b h = unfold release_part in ground arith
  serve_keeps now (refunds id bytes) b h = unfold refund in (refl, refl)
  serve_keeps now looks b h = unfold in_window in (refl, refl)
  serve_keeps now (shapes burst rate) b h = unfold set_egress_shaper in (refl, refl)
  serve_keeps now (debits bytes) b h =
      unfold debit_egress in ground (arith, refill_egress_keeps seconds now b)
  serve_keeps now (refunds_egress bytes) b h =
      unfold refund_egress in ground (arith, refill_egress_keeps seconds now b)

  run-IsSound :
      (before : ℕ) (ks : List (ℕ × Call)) (b : LinkBudget W) (l : Log)
      → AllAllowed seconds before ks b
      → IsSound before b l
      → let r = run seconds ks b l in
        IsSound (last seconds before ks) r.0 r.1 × (r.0.share ≡ b.share) × (r.0.window ≡ b.window)
  unfolding run AllAllowed
  run-IsSound before [] b l a i = (i, refl, refl)
  run-IsSound before ((now, k) ∷ ks) b l a i =
      let next = serve-IsSound before now k b l a.0 a.1 i in
      let (sound, s, w) =
        run-IsSound now ks (serve seconds now k b) (record_call seconds now k b l) a.2 next in
      let (s', w') = serve_keeps now k b i.share_lt in (sound, s ∙ s', w ∙ w')

module _ {W : Type 0} where
  IsSound-wire :
      (before share window t : ℕ) (b : LinkBudget W) (l : Log)
      → IsSound before b l
      → b.share ≡ share
      → b.window ≡ window
      → wire window t l.charges ≤ share
  IsSound-wire before share window t b l i s w = rw (← s, ← w) (i.wire_le t)

  IsSound-in_window :
      (before now window : ℕ) (b : LinkBudget W) (l : Log)
      → before ≤ now
      → IsSound before b l
      → b.window ≡ window
      → (in_window now b).1 ≡ min (counted window now l.charges) (2 ^ 32 - 1)
  unfolding in_window
  IsSound-in_window before now window b l h i w =
      let bytes = Keeps-sum_bytes (Keeps-prune now (omega (arith, i.clock_le, h)) i.kept) in
      rw (bytes, w) refl

module _ {W : Type 0} ⦃d : Double W⦄ (seconds : ℕ → W) where
  init-IsSound :
      (share window : ℕ)
      → share < 2 ^ 32 - 1
      → 0 < window
      → IsSound 0 (init {W = W} share window) no_charges
  unfolding init
  init-IsSound share window h p = record {
    kept = done;
    clock_le = omega arith;
    wire_le = λ t. omega arith;
    share_lt = h;
    window_pos = p;
  }

  init_fields :
      (share window : ℕ)
      → ((init {W = W} share window).share ≡ share) × ((init {W = W} share window).window ≡ window)
  unfolding init
  init_fields share window = (refl, refl)

  -- However charges, holds, waits, closes and refunds follow each other, at times that do not go back,
  -- and if each close is for an open charge and not in the past: in every window of time the charges
  -- that may be on the wire in it, from their placement to their end, have at most `share` bytes. The
  -- share is below 2^32 - 1 and the window not empty.
  pub wire-run :
      (share window : ℕ) (ks : List (ℕ × Call))
      → share < 2 ^ 32 - 1
      → 0 < window
      → AllAllowed seconds 0 ks (init share window)
      → (t : ℕ) → wire window t (run seconds ks (init share window) no_charges).1.charges ≤ share
  wire-run share window ks h p a t =
      let (sound, s, w) =
        run-IsSound seconds 0 ks (init share window) no_charges a (init-IsSound share window h p) in
      let (s', w') = init_fields share window in
      IsSound-wire _ share window t _ _ sound (s ∙ s') (w ∙ w')

  -- Under the same conditions, at any time from the last call on, `InWindow` is the number of bytes
  -- that count in the log of all charges: dropping the expired entries loses nothing.
  pub in_window-run :
      (share window : ℕ) (ks : List (ℕ × Call)) (now : ℕ)
      → share < 2 ^ 32 - 1
      → 0 < window
      → AllAllowed seconds 0 ks (init share window)
      → last seconds 0 ks ≤ now
      → (in_window now (run seconds ks (init share window) no_charges).0).1
        ≡ min
            (counted window now (run seconds ks (init share window) no_charges).1.charges)
            (2 ^ 32 - 1)
  in_window-run share window ks now h p a later =
      let (sound, s, w) =
        run-IsSound seconds 0 ks (init share window) no_charges a (init-IsSound share window h p) in
      let (s', w') = init_fields share window in
      IsSound-in_window _ now window _ _ later sound (w ∙ w')
