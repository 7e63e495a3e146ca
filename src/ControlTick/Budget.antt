-- ===== src/ControlTick/Budget.antt =====
-- When the scheduler turns every heater off in the rounds of `Run` of
-- onboard/src/system_controller.cpp: an exhausted energy budget, and a motor in motion.
use coatheal_flight_software.Prelude.{
  ℕ, ◌≡◌, refl, ap, ◌∙◌, Bool, true, false, not, ◌&&◌, ◌||◌, some, Option, List, [], ◌∷◌, length,
  replicate, get_elem?, if_cases, arith,
}
use coatheal_flight_software.Double.{Double, nought}
use coatheal_flight_software.HeaterScheduler as Scheduler
use coatheal_flight_software.HeaterScheduler.{HeaterScheduler}
use coatheal_flight_software.HeaterScheduler.Interlock.{serve_exhausted}
use coatheal_flight_software.StepperDriver.{StepperDriver}
use coatheal_flight_software.StepperChannel.{Channel, Config, is_idle}
use coatheal_flight_software.StepperController as Motors
use coatheal_flight_software.StepperController.{Event}
use coatheal_flight_software.StepperController.Safety.{IsNamed, no_heat_in_motion}
use coatheal_flight_software.ThermalController.Types.{should_heat_phase}
use coatheal_flight_software.ControlTick.Link.{is_run}
use coatheal_flight_software.ControlTick.{
  Heating, TickInput, heat, tested, power, run, reset_control, manual_heat_requested,
}

-- The open loop of the bench is armed and commanded.
abbrev pub is_open_loop : {W : Type 0} → TickInput W → Bool
is_open_loop k = k.bench_mode && k.armed_at_power && k.overrides.bench_open_loop_heaters

module _ {W : Type 0} ⦃d : Double W⦄ (sort : List (ℕ × W) → List (ℕ × W)) where
  -- Without the open loop of the bench a tick asks the scheduler.
  power_scheduled :
      (h : Heating W) (k : TickInput W) (tune_active heats : Bool) (vs : List W)
      → is_open_loop k ≡ false
      → (c : Scheduler.Call W) × (c.requested ≡ vs)
        × (c.lock ≡ k.lock_at_power)
        × (power sort h k tune_active heats vs ≡ Scheduler.serve sort h.scheduler c)
  unfolding power
  power_scheduled h k tune_active heats vs e = (
    record {
      lock = k.lock_at_power;
      requested = vs;
      deprioritize =
          is_run k.mode
          && (should_heat_phase k.phase
              || (manual_heat_requested k.overrides || heats || tune_active));
      dt = k.tick_s;
    },
    refl,
    refl,
    ground (arith, e),
  )

  -- The latch of the budget and the energy count, while the latch is set.
  record IsExhausted (e : W) (s : HeaterScheduler W) : Type 0 where
    latched : s.budget_exhausted ≡ true
    same_energy : s.energy_consumed_wh ≡ e

  -- What a round does to an exhausted scheduler.
  abbrev StaysOff : W → Bool → List W → HeaterScheduler W × List W → Type 0
  StaysOff e open_loop vs r =
      IsExhausted e r.0 × (open_loop ≡ false → r.1 ≡ replicate (length vs) nought)

  power_exhausted :
      (h : Heating W) (k : TickInput W) (tune_active heats : Bool) (vs : List W) (e : W)
      → IsExhausted e h.scheduler
      → StaysOff e (is_open_loop k) vs (power sort h k tune_active heats vs)
  unfolding power
  power_exhausted h k tune_active heats vs e v =
      let c : Scheduler.Call W = record {
        lock = k.lock_at_power;
        requested = vs;
        deprioritize =
            is_run k.mode
            && (should_heat_phase k.phase
                || (manual_heat_requested k.overrides || heats || tune_active));
        dt = k.tick_s;
      } in
      let (latched, same, off) = serve_exhausted sort h.scheduler c v.latched in
      let bypassed =
        (is_run k.mode && k.bench_mode && k.armed_at_power && k.overrides.bench_open_loop_heaters)
        && not tune_active in
      if_cases (StaysOff e (is_open_loop k) vs) bypassed
        (λ bench. (v, λ no. ground (arith, bench, no)))
        (λ _. (record { latched = latched; same_energy = same ∙ v.same_energy }, λ _. off))

  run-IsExhausted :
      (h : Heating W) (ks : List (TickInput W)) (e : W)
      → IsExhausted e h.scheduler
      → IsExhausted e (run sort h ks).scheduler
  unfolding run heat
  run-IsExhausted h [] e v = v
  run-IsExhausted h (k ∷ ks) e v =
      run-IsExhausted (heat sort h k).0 ks e (power_exhausted h k _ _ (tested h k).requested e v).0

  -- Once the energy budget is exhausted, a tick after any ticks turns every heater off, unless the open
  -- loop of the bench is armed and commanded in that tick; the latch stays set and the energy count as it
  -- was, whatever the ticks do, and the next RESET_CTRL clears the latch and the count.
  pub run-heat_exhausted :
      (h : Heating W) (ks : List (TickInput W)) (k : TickInput W)
      → h.scheduler.budget_exhausted ≡ true
      → let r = run sort h ks in
        let (after, outputs) = heat sort r k in
        (is_open_loop k ≡ false → outputs ≡ replicate (length (tested r k).requested) nought)
        × (after.scheduler.budget_exhausted ≡ true)
        × (after.scheduler.energy_consumed_wh ≡ h.scheduler.energy_consumed_wh)
        × ((reset_control after).scheduler.budget_exhausted ≡ false)
        × ((reset_control after).scheduler.energy_consumed_wh ≡ nought)
  unfolding heat reset_control Scheduler.reset
  run-heat_exhausted h ks k b =
      let e = h.scheduler.energy_consumed_wh in
      let r = run sort h ks in
      let kept = run-IsExhausted h ks e (record { latched = b; same_energy = refl }) in
      let (on, off) = power_exhausted r k _ _ (tested r k).requested e kept in
      (off, on.latched, on.same_energy, rw on.latched refl, rw on.latched refl)

module _ {D W : Type 0} ⦃d : Double W⦄ (sort : List (ℕ × W) → List (ℕ × W))
    (v : StepperDriver D W) where
  -- While any channel is not idle, a tick that reads its lock for the scheduler turns every heater off,
  -- unless the open loop of the bench is armed and commanded; this is so after any commands and ticks of
  -- the motors, for channels with different ids other than -1.
  pub heat_in_motion :
      (h : Heating W) (k : TickInput W) (parts : List (Config W × Option D)) (es : List (Event W))
      (i : ℕ) (c : Channel D W)
      → IsNamed parts
      → k.lock_at_power ≡ some (Motors.run v es (Motors.init v parts)).lock
      → get_elem? (Motors.run v es (Motors.init v parts)).channels i ≡ some c
      → is_idle c.mode ≡ false
      → is_open_loop k ≡ false
      → ((heat sort h k).1 ≡ replicate (length (tested h k).requested) nought)
        × ((heat sort h k).0.scheduler.energy_consumed_wh ≡ h.scheduler.energy_consumed_wh)
  unfolding heat
  heat_in_motion h k parts es i c n shared at moves e =
      let (call, asked, lock, same) = power_scheduled sort h k _ _ (tested h k).requested e in
      let (off, _, energy) =
        no_heat_in_motion v sort h.scheduler call parts es i c n (lock ∙ shared) at moves in
      (
        ap (λ r. r.1) same ∙ off ∙ ap (λ xs. replicate (length xs) nought) asked,
        ap (λ r. HeaterScheduler.energy_consumed_wh r.0) same ∙ energy,
      )
