-- ===== src/HeaterScheduler/Interlock.antt =====
-- When onboard/src/heater_scheduler.cpp turns every heater off.
use coatheal_flight_software.Prelude.{ℕ, ◌≡◌, true, false, List, length, replicate, arith}
use coatheal_flight_software.Double.{Double, nought}
use coatheal_flight_software.HeaterScheduler.{
  HeaterScheduler, Call, motion_active, account, limit_power, select, serve,
}

module _ {W : Type 0} ⦃d : Double W⦄ (sort : List (ℕ × W) → List (ℕ × W)) where
  account-last_inhibited :
      (s : HeaterScheduler W) (xs : List W) (w t : W)
      → (account s xs w t).0.last_inhibited ≡ s.last_inhibited
  unfolding account
  account-last_inhibited s xs w t = ground arith

  -- After each call `last_inhibited` says whether a motor held the lock, and while one did every duty
  -- is 0.0 and neither the energy count nor the budget latch changed.
  pub serve_interlock :
      (s : HeaterScheduler W) (k : Call W)
      → ((serve sort s k).0.last_inhibited ≡ motion_active k.lock)
        × (motion_active k.lock ≡ true
            → ((serve sort s k).1 ≡ replicate (length k.requested) nought)
              × ((serve sort s k).0.energy_consumed_wh ≡ s.energy_consumed_wh)
              × ((serve sort s k).0.budget_exhausted ≡ s.budget_exhausted))
  unfolding serve
  serve_interlock s k =
      let s₁ : HeaterScheduler W = record s { last_inhibited = false } in
      let (kept, watts) = limit_power s.power (select sort s₁ k.requested k.deprioritize) in
      ground (arith, account-last_inhibited s₁ kept watts k.dt)

  -- A call with the budget exhausted.
  pub serve_exhausted :
      (s : HeaterScheduler W) (k : Call W)
      → s.budget_exhausted ≡ true
      → ((serve sort s k).0.budget_exhausted ≡ true)
        × ((serve sort s k).0.energy_consumed_wh ≡ s.energy_consumed_wh)
        × ((serve sort s k).1 ≡ replicate (length k.requested) nought)
  unfolding serve
  serve_exhausted s k h = ground arith
