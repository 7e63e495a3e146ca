-- ===== src/ThermalController/Lengths.antt =====
-- The number of duties in onboard/src/thermal_controller.cpp.
use coatheal_flight_software.Prelude.{
  ℕ, suc, ◌+◌, ◌≡◌, refl, ap, ◌∙◌, Bool, false, Option, none, some, List, [], ◌∷◌, length,
  option_both, if_both, length-map, length-set, length-replicate, arith,
}
use coatheal_flight_software.Double.{Double, nought}
use coatheal_flight_software.PidController.{PidController}
use coatheal_flight_software.ThermalController.Types.{
  ThermalConfig, SensorSnapshot, ControlOverrides, ThermalController, Call, Channels,
}
use coatheal_flight_software.ThermalController.Loops.{
  enforce, control_from, direct_overrides, override_duties, all_gains,
}
use coatheal_flight_software.ThermalController.{
  compute_requested_duty, observe, control_all, wants_control,
}
use coatheal_flight_software.ThermalController.Latch.{length-sized}

module _ {W : Type 0} ⦃d : Double W⦄ where
  open d use {lt}

  -- The lengths of what the loops make.
  length-control_from :
      (c : ThermalConfig W) (k : Call W) (i : ℕ) (ps : List (PidController W)) (hs : List Bool)
      → length (control_from c k i ps hs).duties ≡ length hs
  unfolding control_from
  length-control_from c k i ps [] = refl
  length-control_from c k i [] (h ∷ hs) = ap suc (length-map (λ v. nought) hs)
  length-control_from c k i (p ∷ ps) (h ∷ hs) = ap suc (length-control_from c k (i + 1) ps hs)

  pub length-control_all :
      (t : ThermalController W) (k : Call W) (ps : List (PidController W))
      → length (control_all (observe t k) k ps).duties ≡ t.config.heater_count
  unfolding control_all observe
  length-control_all t k ps =
      let n = t.config.heater_count in
      if_both (λ (cs : Channels W). length cs.duties ≡ n) (wants_control k)
        (length-control_from t.config k 0 ps _ ∙ length-sized n false t.sample_heating)
        (length-replicate n nought)

  length-override_duties :
      (vs : List W) (os : List (Option W)) → length (override_duties vs os) ≡ length vs
  length-override_duties [] os = refl
  length-override_duties (v ∷ vs) [] = refl
  length-override_duties (v ∷ vs) (none ∷ os) = ap suc (length-override_duties vs os)
  length-override_duties (v ∷ vs) (some x ∷ os) = ap suc (length-override_duties vs os)

  pub length-direct_overrides :
      (o : ControlOverrides W) (vs : List W) → length (direct_overrides o vs) ≡ length vs
  unfolding direct_overrides
  length-direct_overrides o vs =
      let P : List W → Type 0 = λ xs. length xs ≡ length vs in
      let all_set = option_both P o.all_heaters_override refl λ v. length-map _ vs in
      length-override_duties _ o.heater_duty_overrides
      ∙ option_both P o.single_heater_override all_set λ v. length-set _ v.0 _ ∙ all_set

  length-enforce :
      (c : ThermalConfig W) (s : SensorSnapshot W) (b : Bool) (i : ℕ) (ls : List Bool) (vs : List W)
      → length (enforce c s b i ls vs) ≡ length vs
  unfolding enforce
  length-enforce c s b i ls [] = refl
  length-enforce c s b i [] (v ∷ vs) = refl
  length-enforce c s b i (l ∷ ls) (v ∷ vs) = ap suc (length-enforce c s b (i + 1) ls vs)

  -- `ComputeRequestedDuty` returns one duty for each heater.
  pub length-compute :
      (t : ThermalController W) (k : Call W)
      → length (compute_requested_duty t k).1 ≡ t.config.heater_count
  unfolding compute_requested_duty observe
  length-compute t k =
      let n = t.config.heater_count in
      let pids = all_gains k.overrides (observe t k).sample_pids in
      let made =
        length-enforce t.config k.sensors k.overrides.bench_open_loop_heaters 0
          (observe t k).channel_latched _
        ∙ length-direct_overrides k.overrides (control_all (observe t k) k pids).duties
        ∙ length-control_all t k pids in
      ground (arith, length-replicate n (nought {W = W}), made)
