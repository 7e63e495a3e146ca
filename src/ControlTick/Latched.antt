-- ===== src/ControlTick/Latched.antt =====
-- The over-temperature latch over the rounds of `Run` in onboard/src/system_controller.cpp.
use coatheal_flight_software.Prelude.{
  ℕ, ◌<◌, ◌≡◌, refl, sym, ap, subst, ◌∙◌, true, false, ◌||◌, List, [], ◌∷◌, get_or, arith,
}
use coatheal_flight_software.Double.{Double, nought, one}
use coatheal_flight_software.HeaterScheduler.Limits.{IsFinite}
use coatheal_flight_software.HeaterScheduler.Zero.{is_off}
use coatheal_flight_software.ThermalController.{compute_requested_duty, compute, serve}
use coatheal_flight_software.ThermalController.Types.{Call, ThermalConfig, ThermalController}
use coatheal_flight_software.ThermalController.Monitor.{is_overtemp}
use coatheal_flight_software.ThermalController.Latch.{
  IsSized, IsHeld, is_latched, compute-IsHeld, compute-latched, serve-IsHeld, compute-duty,
}
use coatheal_flight_software.ControlTick.{Heating, TickInput, thermal_call, heat, tested, run}
use coatheal_flight_software.ControlTick.Tune.{heater_test}
use coatheal_flight_software.ControlTick.Safe.{heat-off}

module _ {W : Type 0} ⦃d : Double W⦄ where
  open d use {lt}

  -- Heater `i` is latched, and no heater test runs.
  record IsCold (c : ThermalConfig W) (i : ℕ) (h : Heating W) : Type 0 where
    held : IsHeld c i h.thermal
    no_test : h.test.active ≡ false

  step-IsHeld :
      (c : ThermalConfig W) (t : ThermalController W) (k : Call W) (i : ℕ)
      → i < c.heater_count
      → IsHeld c i t
      → IsHeld c i (compute_requested_duty t k).0
  unfolding serve
  step-IsHeld c t k i b v = serve-IsHeld c t (compute k) i b v

  module _ (l : IsFinite W) (o : lt one nought ≡ false) (sort : List (ℕ × W) → List (ℕ × W)) where
    heat-test :
        (h : Heating W) (k : TickInput W)
        → h.test.active ≡ false
        → (heat sort h k).0.test.active ≡ false
    unfolding heat tested heater_test
    heat-test h k e = ground arith

    heat-thermal :
        (h : Heating W) (k : TickInput W)
        → (heat sort h k).0.thermal ≡ (compute_requested_duty h.thermal (thermal_call k)).0
    unfolding heat
    heat-thermal h k = refl

    heat-IsCold :
        (c : ThermalConfig W) (h : Heating W) (k : TickInput W) (i : ℕ)
        → i < c.heater_count
        → IsCold c i h
        → IsCold c i (heat sort h k).0
    heat-IsCold c h k i b v = record {
      held =
          subst (IsHeld c i) (sym (heat-thermal h k))
            (step-IsHeld c h.thermal (thermal_call k) i b v.held);
      no_test = heat-test h k v.no_test;
    }

    run-IsCold :
        (c : ThermalConfig W) (h : Heating W) (ks : List (TickInput W)) (i : ℕ)
        → i < c.heater_count
        → IsCold c i h
        → IsCold c i (run sort h ks)
    unfolding run
    run-IsCold c h [] i b v = v
    run-IsCold c h (k ∷ ks) i b v = run-IsCold c (heat sort h k).0 ks i b (heat-IsCold c h k i b v)

    -- A tick that leaves heater `i` latched turns it off.
    heat-latched :
        (h : Heating W) (k : TickInput W) (i : ℕ)
        → lt h.thermal.config.max_duty nought ≡ false
        → h.test.active ≡ false
        → is_latched (compute_requested_duty h.thermal (thermal_call k)).0 i ≡ true
        → is_off (heat sort h k).1 i ≡ true
    heat-latched h k i m e v =
        heat-off l o sort h k i
          (compute-duty h.thermal (thermal_call k) i m
            (ap (λ ls. get_or ls i false) (sym (compute-latched h.thermal (thermal_call k))) ∙ v))
          (ground (arith, v)) (ground (arith, e))

    -- From the tick that reads a valid temperature of heater `i` above the limit, the heater is off in
    -- every tick up to the next RESET_CTRL, whatever the overrides, the tune, the bench switches and the
    -- scheduler. At the start no heater test runs and there is a latch for each heater; the ceiling and
    -- 1.0 are not below 0.0, and the values are finite.
    pub run-heat_latched :
        (h : Heating W) (hot : TickInput W) (ks : List (TickInput W)) (k : TickInput W) (i : ℕ)
        → IsSized h.thermal
        → lt h.thermal.config.max_duty nought ≡ false
        → i < h.thermal.config.heater_count
        → h.test.active ≡ false
        → is_overtemp h.thermal.config hot.sensors i ≡ true
        → (is_off (heat sort h hot).1 i ≡ true)
          × (is_off (heat sort (run sort h (hot ∷ ks)) k).1 i ≡ true)
    unfolding run
    run-heat_latched h hot ks k i v m b e x =
        let c = h.thermal.config in
        let now : (is_latched h.thermal i || is_overtemp c hot.sensors i) ≡ true = ground arith in
        let first = compute-IsHeld h.thermal (thermal_call hot) i v b now in
        let cold : IsCold c i (heat sort h hot).0 = record {
          held = subst (IsHeld c i) (sym (heat-thermal h hot)) first;
          no_test = heat-test h hot e;
        } in
        let later = run-IsCold c (heat sort h hot).0 ks i b cold in
        let r = run sort (heat sort h hot).0 ks in
        let next = step-IsHeld c r.thermal (thermal_call k) i b later.held in
        (
          heat-latched h hot i m e first.latched,
          heat-latched r k i
              (subst (λ y. lt (ThermalConfig.max_duty y) nought ≡ false)
                (sym later.held.same_config) m)
              later.no_test next.latched,
        )
