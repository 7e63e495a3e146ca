-- ===== src/ControlTick/Safe.antt =====
-- When a round of `Run` in onboard/src/system_controller.cpp turns a heater off.
use coatheal_flight_software.Prelude.{
  ℕ, zero, suc, ◌≡◌, refl, sym, ap, subst, ◌∙◌, String, Bool, true, false, not, ◌&&◌, ◌||◌, Option,
  none, some, List, [], ◌∷◌, if◌then◌else◌, ◌==◌, get_or, set, replicate, get_or-replicate,
  Bool-cases, Option-cases, inl, inr, if_both, arith,
}
use coatheal_flight_software.Prelude.Int.{ℤ, pos, negsuc}
use coatheal_flight_software.Double.{Double, nought, one}
use coatheal_flight_software.HeaterScheduler.{HeaterScheduler}
use coatheal_flight_software.HeaterScheduler.Limits.{IsFinite}
use coatheal_flight_software.HeaterScheduler.Zero.{is_off, serve-off, clamp_all-off}
use coatheal_flight_software.ThermalController.{compute_requested_duty, observe}
use coatheal_flight_software.ThermalController.Types.{
  ThermalConfig, SensorSnapshot, ThermalController, Call,
}
use coatheal_flight_software.ThermalController.Monitor.{is_valid_sample}
use coatheal_flight_software.PidAutotuner.{PidAutotuner, is_active, is_running, abort, tick}
use coatheal_flight_software.ControlTick.{
  Heating, TickInput, thermal_call, tuned, tested, power, heat, still_allowed,
}
use coatheal_flight_software.ControlTick.Link.{is_run}
use coatheal_flight_software.ControlTick.Tune.{
  HeaterTestRuntime, Tuned, abort_reason, latch_of, tune, heater_test, all_off, put_at, sample_of,
}

get_or-set :
    {A : Type 0} (xs : List A) (i j : ℕ) (v z : A)
    → (j == i) ≡ false
    → get_or (set xs j v) i z ≡ get_or xs i z
get_or-set [] i j v z h = refl
get_or-set (x ∷ xs) zero zero v z h = ground arith
get_or-set (x ∷ xs) zero (suc j) v z h = refl
get_or-set (x ∷ xs) (suc i) zero v z h = refl
get_or-set (x ∷ xs) (suc i) (suc j) v z h = get_or-set xs i j v z (ground arith)

apart :
    (ls : List Bool) (n i : ℕ)
    → get_or ls n false ≡ false
    → get_or ls i false ≡ true
    → (n == i) ≡ false
apart ls n i a b = elim (Bool-cases (n == i)) [
  | inl e ↦ let same : n ≡ i = ground arith in ground (arith, ap (λ j. get_or ls j false) same)
  | inr e ↦ e
]

apart_channel :
    (ls : List Bool) (ch : ℤ) (i : ℕ)
    → latch_of ls ch ≡ false
    → get_or ls i false ≡ true
    → (n : ℕ) → ch ≡ pos n
    → (n == i) ≡ false
apart_channel ls ch i a b n e = apart ls n i (subst (λ c. latch_of ls c ≡ false) e a) b

module _ {W : Type 0} ⦃d : Double W⦄ where
  open d use {lt}

  all_off-nought : (xs : List W) (i : ℕ) → get_or (all_off xs) i nought ≡ nought
  all_off-nought [] i = refl
  all_off-nought (x ∷ xs) zero = refl
  all_off-nought (x ∷ xs) (suc i) = all_off-nought xs i

  -- An aborted tune does not tick.
  aborted_tick :
      (reason : String) (t : PidAutotuner W) (valid : Bool) (temp now : W)
      → is_active (tick (abort reason t) valid temp now).0 ≡ false
  unfolding tick abort is_running
  aborted_tick reason t valid temp now = ground arith

  tune-aborted :
      (c : ThermalConfig W) (s : SensorSnapshot W) (reason : String) (ch : ℤ) (now : W)
      (t : PidAutotuner W) (vs : List W)
      → let r = tune c s (some reason) ch now t vs in
        (r.requested ≡ vs) × (r.commanded ≡ none) × (is_active r.tuner ≡ false)
  unfolding tune
  tune-aborted c s reason ch now t vs =
      let sample = sample_of c ch in
      let valid = is_valid_sample s sample in
      let temp = if valid then get_or s.sample_temps_c sample nought else nought in
      ground (arith, aborted_tick reason t valid temp now)

  put_at-other :
      (vs : List W) (ch : ℤ) (v : W) (i : ℕ)
      → ((n : ℕ) → ch ≡ pos n → (n == i) ≡ false)
      → get_or (put_at (all_off vs) ch v) i nought ≡ nought
  put_at-other vs (pos n) v i other =
      get_or-set (all_off vs) i n v nought (other n refl) ∙ all_off-nought vs i
  put_at-other vs (negsuc n) v i other = all_off-nought vs i

  -- A tune leaves another heater off.
  tune-other :
      (c : ThermalConfig W) (s : SensorSnapshot W) (reason : Option String) (ch : ℤ) (now : W)
      (t : PidAutotuner W) (vs : List W) (i : ℕ)
      → get_or vs i nought ≡ nought
      → ((n : ℕ) → ch ≡ pos n → (n == i) ≡ false)
      → get_or (tune c s reason ch now t vs).requested i nought ≡ nought
  unfolding tune
  tune-other c s reason ch now t vs i h other =
      let P : Tuned W → Type 0 = λ r. get_or r.requested i nought ≡ nought in
      if_both P (not (is_active t)) h (if_both P _ (put_at-other vs ch _ i other) h)

  compute_off :
      (t : ThermalController W) (k : Call W)
      → k.overrides.heaters_off ≡ true
      → (compute_requested_duty t k).1 ≡ replicate t.config.heater_count nought
  unfolding compute_requested_duty observe
  compute_off t k h = ground arith

  no_reason :
      (k : TickInput W) (latched : Bool)
      → abort_reason k.mode k.fallback k.overrides.heaters_off latched ≡ none
      → (is_run k.mode ≡ true) × (latched ≡ false)
  unfolding abort_reason
  no_reason k latched h = ground arith

  -- The tune gives heater `i` nothing, if the thermal controller gave it nothing and it is latched or the
  -- mode is not RUN.
  tuned-off :
      (h : Heating W) (k : TickInput W) (i : ℕ)
      → let (t, duties) = compute_requested_duty h.thermal (thermal_call k) in
        get_or duties i nought ≡ nought
        → (not (is_run k.mode) || get_or t.channel_latched i false) ≡ true
        → get_or (tuned h k).requested i nought ≡ nought
  unfolding tuned
  tuned-off h k i z b =
      let (t, duties) = compute_requested_duty h.thermal (thermal_call k) in
      let ls = t.channel_latched in
      let c = h.thermal.config in
      let latched = latch_of ls h.tune_channel in
      let reason = abort_reason k.mode k.fallback k.overrides.heaters_off latched in
      let other = tune-other c k.sensors reason h.tune_channel k.now_s h.tuner duties i z in
      elim (Option-cases reason) [
        | inl e ↦
            let (on_run, open_latch) = no_reason k latched e in
            other (apart_channel ls h.tune_channel i open_latch (ground arith))
        | inr (r, e) ↦
            subst
              (λ x.
                get_or (tune c k.sensors x h.tune_channel k.now_s h.tuner duties).requested i nought
                ≡ nought)
              (sym e)
              (ap (λ xs. get_or xs i nought)
                  (tune-aborted c k.sensors r h.tune_channel k.now_s h.tuner duties).0
                ∙ z)
      ]

  -- Nor does a heater test that is not active or not allowed.
  heater_test-same :
      (allowed : Bool) (t : HeaterTestRuntime W) (vs : List W)
      → (t.active && allowed) ≡ false
      → (heater_test allowed t vs).requested ≡ vs
  unfolding heater_test
  heater_test-same allowed t vs h = ground arith

  tested-off :
      (h : Heating W) (k : TickInput W) (i : ℕ)
      → (h.test.active && still_allowed h.test k) ≡ false
      → get_or (tuned h k).requested i nought ≡ nought
      → get_or (tested h k).requested i nought ≡ nought
  unfolding tested
  tested-off h k i e z =
      ap (λ xs. get_or xs i nought)
        (heater_test-same (still_allowed h.test k) h.test (tuned h k).requested e)
      ∙ z

  module _ (l : IsFinite W) (o : lt one nought ≡ false) (sort : List (ℕ × W) → List (ℕ × W)) where
    power-off :
        (h : Heating W) (k : TickInput W) (a b : Bool) (vs : List W) (i : ℕ)
        → get_or vs i nought ≡ nought
        → is_off (power sort h k a b vs).1 i ≡ true
    unfolding power
    power-off h k a b vs i z =
        if_both (λ (r : HeaterScheduler W × List W). is_off r.1 i ≡ true) _
          (clamp_all-off l vs i o z) (serve-off l sort h.scheduler _ i o z)

    pub heat-off :
        (h : Heating W) (k : TickInput W) (i : ℕ)
        → let (t, duties) = compute_requested_duty h.thermal (thermal_call k) in
          get_or duties i nought ≡ nought
          → (not (is_run k.mode) || get_or t.channel_latched i false) ≡ true
          → (h.test.active && still_allowed h.test k) ≡ false
          → is_off (heat sort h k).1 i ≡ true
    unfolding heat
    heat-off h k i z b e =
        power-off h k _ _ (tested h k).requested i (tested-off h k i e (tuned-off h k i z b))

    -- A tick outside RUN mode turns every heater off, whatever the overrides, the tune, the heater test
    -- and the bench switches, however `std::sort` breaks ties; 1.0 is not below 0.0, and the values are
    -- finite.
    pub heat_mode :
        (h : Heating W) (k : TickInput W) (i : ℕ)
        → is_run k.mode ≡ false
        → is_off (heat sort h k).1 i ≡ true
    heat_mode h k i m =
        heat-off h k i
          (ap (λ xs. get_or xs i nought) (compute_off h.thermal (thermal_call k) (ground arith))
            ∙ get_or-replicate h.thermal.config.heater_count i nought)
          (ground arith) (ground arith)
