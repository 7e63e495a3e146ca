-- ===== src/ThermalController/Feedback.antt =====
-- What onboard/src/thermal_controller.cpp asks for without a valid temperature.
use coatheal_flight_software.Prelude.{
  ℕ, zero, suc, ◌+◌, ◌≡◌, refl, ap, subst, sym, ◌∙◌, Bool, false, List, [], ◌∷◌, length, get_or,
  get_or-replicate, arith,
}
use coatheal_flight_software.Double.{Double, nought}
use coatheal_flight_software.ThermalController.Types.{
  ThermalConfig, SensorSnapshot, ThermalController, Call,
}
use coatheal_flight_software.ThermalController.Monitor.{temp_valid_for}
use coatheal_flight_software.ThermalController.Loops.{enforce, direct_overrides, all_gains}
use coatheal_flight_software.ThermalController.{compute_requested_duty, observe, control_all}
use coatheal_flight_software.ThermalController.Latch.{observe-IsSized}
use coatheal_flight_software.ThermalController.Lengths.{length-control_all, length-direct_overrides}

module _ {W : Type 0} ⦃d : Double W⦄ where
  open d use {lt}

  enforce_invalid :
      (c : ThermalConfig W) (s : SensorSnapshot W) (i j : ℕ) (ls : List Bool) (vs : List W)
      → lt c.max_duty nought ≡ false
      → length ls ≡ length vs
      → temp_valid_for c s (i + j) ≡ false
      → get_or (enforce c s false i ls vs) j nought ≡ nought
  unfolding enforce
  enforce_invalid c s i j ls [] m h e = refl
  enforce_invalid c s i j [] (v ∷ vs) m h e = absurd (omega arith)
  enforce_invalid c s i zero (l ∷ ls) (v ∷ vs) m h e =
      let same : i + 0 ≡ i = omega arith in ground (arith, ap (temp_valid_for c s) same)
  enforce_invalid c s i (suc j) (l ∷ ls) (v ∷ vs) m h e =
      let same : i + suc j ≡ i + 1 + j = omega arith in
      enforce_invalid c s (i + 1) j ls vs m (omega (arith, h))
        (sym (ap (temp_valid_for c s) same) ∙ e)

  -- Without the open loop of the bench, a call gives a heater whose temperature is not valid 0.0,
  -- whatever the state and the overrides. The ceiling is not below 0.0.
  pub compute_invalid :
      (t : ThermalController W) (k : Call W) (i : ℕ)
      → lt t.config.max_duty nought ≡ false
      → k.overrides.bench_open_loop_heaters ≡ false
      → temp_valid_for t.config k.sensors i ≡ false
      → get_or (compute_requested_duty t k).1 i nought ≡ nought
  unfolding compute_requested_duty observe
  compute_invalid t k i m b e =
      let o = k.overrides in
      let ot = observe t k in
      let cs = control_all ot k (all_gains o ot.sample_pids) in
      let sizes =
        (observe-IsSized t k).latched
        ∙ sym (length-direct_overrides o cs.duties ∙ length-control_all t k _) in
      let made =
        enforce_invalid t.config k.sensors 0 i ot.channel_latched (direct_overrides o cs.duties) m
          sizes (subst (λ n. temp_valid_for t.config k.sensors n ≡ false) (omega arith) e) in
      ground (arith, get_or-replicate t.config.heater_count i (nought {W = W}), made)
