-- ===== src/ThermalController/Duty.antt =====
-- The bounds of the duties that onboard/src/thermal_controller.cpp asks for.
use coatheal_flight_software.Prelude.{
  ℕ, zero, suc, ◌≡◌, refl, ap, subst, sym, ◌∙◌, not, ◌&&◌, Option, none, some, List, [], ◌∷◌,
  length, replicate, All, option_both, if_both, All-map, All-replicate,
}
use coatheal_flight_software.Double.{Double, IsTotal, nought}
use coatheal_flight_software.PidController as Pid
use coatheal_flight_software.PidController.{PidGains, PidController}
use coatheal_flight_software.PidController.Bounds.{IsClamped, IsBetween, clamped-IsBetween}
use coatheal_flight_software.ThermalController.Types.{
  ThermalConfig, ControlOverrides, ThermalController, Call,
}
use coatheal_flight_software.ThermalController.Loops.{direct_overrides, override_gains, all_gains}
use coatheal_flight_software.ThermalController.{
  compute_requested_duty, observe, control_all, update_pid, update_pid_at, set_gains_at, Request,
  compute, new_gains, new_gains_at, serve, run, init, wants_control, has_direct_override,
}
use coatheal_flight_software.ThermalController.Latch.{observe-IsSized, compute-config}
use coatheal_flight_software.ThermalController.Rated.{
  IsCeiling, IsRated, IsPositive, AreGood, control_from-AreGood, direct_overrides-IsPositive,
  enforce-IsClamped, set_gains-IsRated,
}
use coatheal_flight_software.ThermalController.Lengths.{
  length-control_all, length-direct_overrides, length-compute,
}

module _ {W : Type 0} ⦃d : Double W⦄ where
  open d use {lt}

  override_gains-IsRated :
      (m : W) (l : IsCeiling m) (ps : List (PidController W)) (gs : List (Option (PidGains W)))
      → All (IsRated m) ps
      → All (IsRated m) (override_gains ps gs)
  override_gains-IsRated m l [] gs a = tt
  override_gains-IsRated m l (p ∷ ps) [] a = a
  override_gains-IsRated m l (p ∷ ps) (none ∷ gs) a = (a.0, override_gains-IsRated m l ps gs a.1)
  override_gains-IsRated m l (p ∷ ps) (some g ∷ gs) a =
      (set_gains-IsRated m l g p a.0, override_gains-IsRated m l ps gs a.1)

  all_gains-IsRated :
      (m : W) (l : IsCeiling m) (o : ControlOverrides W) (ps : List (PidController W))
      → All (IsRated m) ps
      → All (IsRated m) (all_gains o ps)
  all_gains-IsRated m l o ps a = override_gains-IsRated m l _ o.pid_overrides (
      option_both (All (IsRated m)) o.pid_override a
        λ g. All-map (IsRated m) (IsRated m) (Pid.set_gains g) (set_gains-IsRated m l g) ps a)

  -- Each controller puts out what is between 0.0 and the ceiling of the configuration.
  pub record AreRated (t : ThermalController W) : Type 0 where
    pub rated : All (IsRated t.config.max_duty) t.sample_pids

  pub init-AreRated : (c : ThermalConfig W) → AreRated (init c)
  init-AreRated c = record {
    rated = All-replicate (IsRated c.max_duty) c.heater_count (record { low = refl; high = refl });
  }

  -- What the control loops leave of a rated controller.
  control_all-AreGood :
      (t : ThermalController W) (k : Call W) (l : IsCeiling t.config.max_duty)
      → AreRated t
      → AreGood t.config.max_duty l
          (control_all (observe t k) k (all_gains k.overrides (observe t k).sample_pids))
  unfolding control_all observe
  control_all-AreGood t k l v =
      let m = t.config.max_duty in
      let pids = all_gains-IsRated m l k.overrides t.sample_pids v.rated in
      if_both (AreGood m l) (wants_control k) (control_from-AreGood m l t.config k 0 _ _ pids)
        (pids, All-replicate IsPositive t.config.heater_count l.nought_self)

  All-zeros : (m : W) (l : IsCeiling m) (n : ℕ) → All (IsClamped nought m) (replicate n nought)
  All-zeros m l n =
      All-replicate (IsClamped nought m) n
        (record { above = l.nought_self; below = l.above_nought })

  compute-IsClamped :
      (t : ThermalController W) (k : Call W)
      → IsCeiling t.config.max_duty
      → AreRated t
      → All (IsClamped nought t.config.max_duty) (compute_requested_duty t k).1
  unfolding compute_requested_duty observe
  compute-IsClamped t k l v =
      let m = t.config.max_duty in
      let n = t.config.heater_count in
      let P = All (IsClamped nought m) in
      let o = k.overrides in
      let ot = observe t k in
      let cs = control_all ot k (all_gains o ot.sample_pids) in
      let duties = direct_overrides o cs.duties in
      let sizes =
        (observe-IsSized t k).latched
        ∙ sym (length-direct_overrides o cs.duties ∙ length-control_all t k _) in
      let made =
        enforce-IsClamped m l t.config k.sensors o.bench_open_loop_heaters 0 ot.channel_latched
          duties refl sizes
          (direct_overrides-IsPositive m l o cs.duties (control_all-AreGood t k l v).1) in
      let Q : ThermalController W × List W → Type 0 = λ r. P r.1 in
      if_both Q o.heaters_off (All-zeros m l n)
        (if_both Q (not (wants_control k) && not (has_direct_override o)) (All-zeros m l n) made)

  compute-AreRated :
      (t : ThermalController W) (k : Call W)
      → IsCeiling t.config.max_duty
      → AreRated t
      → AreRated (compute_requested_duty t k).0
  unfolding compute_requested_duty observe
  compute-AreRated t k l v =
      let o = k.overrides in
      let Q : ThermalController W × List W → Type 0 = λ r. AreRated r.0 in
      let good = control_all-AreGood t k l v in
      if_both Q o.heaters_off (record { rated = v.rated })
        (if_both Q (not (wants_control k) && not (has_direct_override o))
          (record { rated = good.0 }) (record { rated = good.0 }))

  set_gains_at-IsRated :
      (m : W) (l : IsCeiling m) (ps : List (PidController W)) (i : ℕ) (g : PidGains W)
      → All (IsRated m) ps
      → All (IsRated m) (set_gains_at ps i g)
  set_gains_at-IsRated m l [] i g a = tt
  set_gains_at-IsRated m l (p ∷ ps) zero g a = (set_gains-IsRated m l g p a.0, a.1)
  set_gains_at-IsRated m l (p ∷ ps) (suc i) g a = (a.0, set_gains_at-IsRated m l ps i g a.1)

  -- A rated controller of the configuration `c`.
  record IsSafe (c : ThermalConfig W) (t : ThermalController W) : Type 0 where
    same_config : t.config ≡ c
    all_rated : AreRated t

  serve-IsSafe :
      (c : ThermalConfig W) (t : ThermalController W) (r : Request W)
      → IsCeiling c.max_duty
      → IsSafe c t
      → IsSafe c (serve t r)
  unfolding serve update_pid update_pid_at
  serve-IsSafe c t (compute k) l v = record {
    same_config = compute-config t k ∙ v.same_config;
    all_rated =
        compute-AreRated t k
          (subst (λ x. IsCeiling (ThermalConfig.max_duty x)) (sym v.same_config) l) v.all_rated;
  }
  serve-IsSafe c t (new_gains g) l v =
      let m = t.config.max_duty in
      let lₜ = subst (λ x. IsCeiling (ThermalConfig.max_duty x)) (sym v.same_config) l in
      record {
        same_config = v.same_config;
        all_rated = record {
          rated =
              All-map (IsRated m) (IsRated m) (Pid.set_gains g) (set_gains-IsRated m lₜ g)
                t.sample_pids v.all_rated.rated;
        };
      }
  serve-IsSafe c t (new_gains_at i g) l v =
      let m = t.config.max_duty in
      let lₜ = subst (λ x. IsCeiling (ThermalConfig.max_duty x)) (sym v.same_config) l in
      record {
        same_config = v.same_config;
        all_rated = record {
          rated = set_gains_at-IsRated m lₜ t.sample_pids i g v.all_rated.rated;
        };
      }

  run-IsSafe :
      (c : ThermalConfig W) (t : ThermalController W) (rs : List (Request W))
      → IsCeiling c.max_duty
      → IsSafe c t
      → IsSafe c (run t rs)
  unfolding run
  run-IsSafe c t [] l v = v
  run-IsSafe c t (r ∷ rs) l v = run-IsSafe c (serve t r) rs l (serve-IsSafe c t r l v)

  clamped-AllBetween :
      IsTotal d → (lo hi : W) (vs : List W) → All (IsClamped lo hi) vs → All (IsBetween lo hi) vs
  clamped-AllBetween n lo hi [] a = tt
  clamped-AllBetween n lo hi (v ∷ vs) a =
      (clamped-IsBetween n lo hi v a.0, clamped-AllBetween n lo hi vs a.1)

  -- Where there is no NaN: after any calls of a new controller, a call returns one duty for each heater,
  -- and each is between 0.0 and the ceiling, whatever the overrides. The ceiling is between 0.0 and 1.0.
  pub run-IsBetween :
      (c : ThermalConfig W) (rs : List (Request W)) (k : Call W)
      → IsTotal d
      → IsCeiling c.max_duty
      → let duties = (compute_requested_duty (run (init c) rs) k).1 in
        (length duties ≡ c.heater_count) × All (IsBetween nought c.max_duty) duties
  run-IsBetween c rs k n l =
      let t = run (init c) rs in
      let v =
        run-IsSafe c (init c) rs l (record { same_config = refl; all_rated = init-AreRated c }) in
      let lₜ = subst (λ x. IsCeiling (ThermalConfig.max_duty x)) (sym v.same_config) l in
      let Within : ThermalConfig W → Type 0 =
        λ x. All (IsBetween nought (ThermalConfig.max_duty x)) (compute_requested_duty t k).1 in
      (
        length-compute t k ∙ ap ThermalConfig.heater_count v.same_config,
        subst Within v.same_config (
            clamped-AllBetween n nought t.config.max_duty _ (compute-IsClamped t k lₜ v.all_rated)),
      )
