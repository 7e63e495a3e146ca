-- ===== src/ThermalController/Latch.antt =====
-- The over-temperature latch of onboard/src/thermal_controller.cpp.
use coatheal_flight_software.Prelude.{
  ℕ, zero, suc, ◌+◌, ◌≡◌, ◌<◌, refl, ap, subst, sym, ◌∙◌, Bool, true, false, ◌||◌, List, [], ◌∷◌,
  length, get_or, length-replicate, get_or-replicate, arith,
}
use coatheal_flight_software.Double.{Double, nought}
use coatheal_flight_software.ThermalController.Types.{
  ThermalConfig, SensorSnapshot, ThermalController, Call, sized,
}
use coatheal_flight_software.ThermalController.Monitor.{is_overtemp, latch_from}
use coatheal_flight_software.ThermalController.Loops.{enforce, direct_overrides, all_gains}
use coatheal_flight_software.ThermalController.{
  compute_requested_duty, observe, control_all, update_pid, update_pid_at, Request, compute,
  new_gains, new_gains_at, serve, run,
}

pub length-sized : {A : Type 0} (n : ℕ) (a : A) (xs : List A) → length (sized n a xs) ≡ n
length-sized n a xs = ground (arith, length-replicate n a)

sized_self : {A : Type 0} (n : ℕ) (a : A) (xs : List A) → length xs ≡ n → sized n a xs ≡ xs
sized_self n a xs h = ground arith

-- There is one latch for each heater.
pub record IsSized {W : Type 0} (t : ThermalController W) : Type 0 where
  pub latched : length t.channel_latched ≡ t.config.heater_count

-- A heater is latched.
abbrev pub is_latched : {W : Type 0} → ThermalController W → ℕ → Bool
is_latched t i = get_or t.channel_latched i false

module _ {W : Type 0} ⦃d : Double W⦄ where
  open d use {lt}

  pub length-latch_from :
      (c : ThermalConfig W) (s : SensorSnapshot W) (i : ℕ) (ls : List Bool)
      → length (latch_from c s i ls) ≡ length ls
  unfolding latch_from
  length-latch_from c s i [] = refl
  length-latch_from c s i (l ∷ ls) = ap suc (length-latch_from c s (i + 1) ls)

  -- A latch that is set stays so, and one that sees an excess is set.
  get_or-latch_from :
      (c : ThermalConfig W) (s : SensorSnapshot W) (i j : ℕ) (ls : List Bool)
      → j < length ls
      → (get_or ls j false || is_overtemp c s (i + j)) ≡ true
      → get_or (latch_from c s i ls) j false ≡ true
  unfolding latch_from
  get_or-latch_from c s i j [] k h = absurd (omega arith)
  get_or-latch_from c s i zero (l ∷ ls) k h =
      let e : i + 0 ≡ i = omega arith in ground (arith, ap (is_overtemp c s) e)
  get_or-latch_from c s i (suc j) (l ∷ ls) k h =
      let e : i + suc j ≡ i + 1 + j = omega arith in
      get_or-latch_from c s (i + 1) j ls (omega arith)
        (subst (λ n. (get_or ls j false || is_overtemp c s n) ≡ true) e h)

  enforce-latched :
      (c : ThermalConfig W) (s : SensorSnapshot W) (b : Bool) (i j : ℕ) (ls : List Bool)
      (vs : List W)
      → lt c.max_duty nought ≡ false
      → get_or ls j false ≡ true
      → get_or (enforce c s b i ls vs) j nought ≡ nought
  unfolding enforce
  enforce-latched c s b i j ls [] m h = refl
  enforce-latched c s b i j [] (v ∷ vs) m h = ground arith
  enforce-latched c s b i zero (l ∷ ls) (v ∷ vs) m h = ground arith
  enforce-latched c s b i (suc j) (l ∷ ls) (v ∷ vs) m h = enforce-latched c s b (i + 1) j ls vs m h

  pub compute-latched :
      (t : ThermalController W) (k : Call W)
      → (compute_requested_duty t k).0.channel_latched ≡ (observe t k).channel_latched
  unfolding compute_requested_duty
  compute-latched t k = ground arith

  pub compute-config :
      (t : ThermalController W) (k : Call W) → (compute_requested_duty t k).0.config ≡ t.config
  unfolding compute_requested_duty observe
  compute-config t k = ground arith

  -- The latches that a call leaves.
  pub observe-latched :
      (t : ThermalController W) (k : Call W) (i : ℕ)
      → IsSized t
      → i < t.config.heater_count
      → (is_latched t i || is_overtemp t.config k.sensors i) ≡ true
      → is_latched (observe t k) i ≡ true
  unfolding observe
  observe-latched t k i v h e =
      let ls = sized t.config.heater_count false t.channel_latched in
      let same = sized_self t.config.heater_count false t.channel_latched v.latched in
      get_or-latch_from t.config k.sensors 0 i ls (omega (arith, ap length same, v.latched)) (
        subst (λ ks. (get_or ks i false || is_overtemp t.config k.sensors (0 + i)) ≡ true)
          (sym same)
          (subst (λ n. (is_latched t i || is_overtemp t.config k.sensors n) ≡ true) (omega arith)
            e))

  pub observe-IsSized : (t : ThermalController W) (k : Call W) → IsSized (observe t k)
  unfolding observe
  observe-IsSized t k =
      let n = t.config.heater_count in
      record {
        latched =
            length-latch_from t.config k.sensors 0 (sized n false t.channel_latched)
            ∙ length-sized n false t.channel_latched;
      }

  pub observe-config : (t : ThermalController W) (k : Call W) → (observe t k).config ≡ t.config
  unfolding observe
  observe-config t k = refl

  -- A latched heater gets nothing in the call, and is latched after it.
  pub compute-duty :
      (t : ThermalController W) (k : Call W) (i : ℕ)
      → lt t.config.max_duty nought ≡ false
      → is_latched (observe t k) i ≡ true
      → get_or (compute_requested_duty t k).1 i nought ≡ nought
  unfolding compute_requested_duty observe
  compute-duty t k i m h = ground (
    arith,
    get_or-replicate t.config.heater_count i (nought {W = W}),
    enforce-latched t.config k.sensors k.overrides.bench_open_loop_heaters 0 i
        (observe t k).channel_latched
        (direct_overrides k.overrides
          (control_all (observe t k) k (all_gains k.overrides t.sample_pids)).duties)
        m h,
  )

  -- What holds of heater `i` from the call that latches it on.
  pub record IsHeld (c : ThermalConfig W) (i : ℕ) (t : ThermalController W) : Type 0 where
    pub sized_latches : IsSized t
    pub same_config : t.config ≡ c
    pub latched : is_latched t i ≡ true

  pub compute-IsHeld :
      (t : ThermalController W) (k : Call W) (i : ℕ)
      → IsSized t
      → i < t.config.heater_count
      → (is_latched t i || is_overtemp t.config k.sensors i) ≡ true
      → IsHeld t.config i (compute_requested_duty t k).0
  compute-IsHeld t k i v h e =
      let same = compute-latched t k in
      record {
        sized_latches = record {
          latched =
              ap length same
              ∙ (observe-IsSized t k).latched
              ∙ ap ThermalConfig.heater_count (observe-config t k)
              ∙ ap ThermalConfig.heater_count (sym (compute-config t k));
        };
        same_config = compute-config t k;
        latched = ap (λ ls. get_or ls i false) same ∙ observe-latched t k i v h e;
      }

  pub serve-IsHeld :
      (c : ThermalConfig W) (t : ThermalController W) (r : Request W) (i : ℕ)
      → i < c.heater_count
      → IsHeld c i t
      → IsHeld c i (serve t r)
  unfolding serve update_pid update_pid_at
  serve-IsHeld c t (compute k) i h v =
      let below = subst (λ x. i < ThermalConfig.heater_count x) (sym v.same_config) h in
      let latched : (is_latched t i || is_overtemp t.config k.sensors i) ≡ true =
        ground (arith, v.latched) in
      subst (λ x. IsHeld x i (compute_requested_duty t k).0) v.same_config
        (compute-IsHeld t k i v.sized_latches below latched)
  serve-IsHeld c t (new_gains g) i h v = record {
    sized_latches = record { latched = v.sized_latches.latched };
    same_config = v.same_config;
    latched = v.latched;
  }
  serve-IsHeld c t (new_gains_at n g) i h v = record {
    sized_latches = record { latched = v.sized_latches.latched };
    same_config = v.same_config;
    latched = v.latched;
  }

  run-IsHeld :
      (c : ThermalConfig W) (t : ThermalController W) (rs : List (Request W)) (i : ℕ)
      → i < c.heater_count
      → IsHeld c i t
      → IsHeld c i (run t rs)
  unfolding run
  run-IsHeld c t [] i h v = v
  run-IsHeld c t (r ∷ rs) i h v = run-IsHeld c (serve t r) rs i h (serve-IsHeld c t r i h v)

  -- Once a valid temperature of a heater is above the limit, the heater is latched over any calls up to
  -- the next `Reset`, changes of gains among them, and each later call gives it 0.0, whatever the
  -- overrides. The ceiling is not below 0.0.
  pub run-latched :
      (t : ThermalController W) (hot : Call W) (rs : List (Request W)) (k : Call W) (i : ℕ)
      → IsSized t
      → lt t.config.max_duty nought ≡ false
      → i < t.config.heater_count
      → is_overtemp t.config hot.sensors i ≡ true
      → let now = compute_requested_duty (run t (compute hot ∷ rs)) k in
        (get_or (compute_requested_duty t hot).1 i nought ≡ nought)
        × (is_latched now.0 i ≡ true)
        × (get_or now.1 i nought ≡ nought)
  unfolding run serve
  run-latched t hot rs k i v m h e =
      let now : (is_latched t i || is_overtemp t.config hot.sensors i) ≡ true = ground arith in
      let r = run (compute_requested_duty t hot).0 rs in
      let first = compute-IsHeld t hot i v h now in
      let held = run-IsHeld t.config (compute_requested_duty t hot).0 rs i h first in
      let next = serve-IsHeld t.config r (compute k) i h held in
      (
        compute-duty t hot i m (observe-latched t hot i v h now),
        next.latched,
        compute-duty r k i
            (subst (λ c. lt (ThermalConfig.max_duty c) nought ≡ false) (sym held.same_config) m)
            (ap (λ ls. get_or ls i false) (sym (compute-latched r k)) ∙ next.latched),
      )
