-- ===== src/ThermalController/Rated.antt =====
-- The bounds of what the loops of onboard/src/thermal_controller.cpp put out.
use coatheal_flight_software.Prelude.{
  ℕ, zero, suc, ◌+◌, ◌≡◌, subst, sym, Bool, false, not, ◌&&◌, ◌||◌, Option, none, some, List, [],
  ◌∷◌, map, length, set, All, option_both, if_both, arith,
}
use coatheal_flight_software.Double.{Double, nought, one, clamp, min_of}
use coatheal_flight_software.PidController as Pid
use coatheal_flight_software.PidController.{PidGains, PidController}
use coatheal_flight_software.PidController.Bounds.{IsClamped, clamp-IsClamped}
use coatheal_flight_software.ThermalController.Types.{
  ThermalConfig, SensorSnapshot, ControlOverrides, Call, Channels, Channel, value_at,
  should_heat_phase,
}
use coatheal_flight_software.ThermalController.Monitor.{temp_valid_for, measured_at}
use coatheal_flight_software.ThermalController.Loops.{
  enforce, control, control_from, follow_target, hold_floor, direct_overrides, override_duties,
}

-- 0.0, the ceiling and 1.0 are in order: `max_duty` is between 0.0 and 1.0.
pub record IsCeiling {W : Type 0} ⦃d : Double W⦄ (m : W) : Type 0 where
  pub nought_self : d.lt nought nought ≡ false
  pub max_self : d.lt m m ≡ false
  pub above_nought : d.lt m nought ≡ false
  pub one_above_nought : d.lt one nought ≡ false
  pub one_self : d.lt one (one {W = W}) ≡ false

module _ {W : Type 0} ⦃d : Double W⦄ where
  open d use {lt, le}

  -- A controller puts out what is between 0.0 and `m`.
  pub record IsRated (m : W) (p : PidController W) : Type 0 where
    pub low : p.output_min ≡ nought
    pub high : p.output_max ≡ m

  -- No duty is below 0.0.
  abbrev pub IsPositive : W → Type 0
  IsPositive v = lt v nought ≡ false

  module _ (m : W) (l : IsCeiling m) where
    clamp-limits : (v lo hi : W) → lo ≡ nought → hi ≡ m → IsPositive (clamp v lo hi)
    clamp-limits v lo hi a b =
        subst (λ x. IsPositive (clamp v x hi)) (sym a)
          (subst (λ x. IsPositive (clamp v nought x)) (sym b)
            (clamp-IsClamped nought m v l.above_nought l.nought_self l.max_self).above)

    min_of-IsClamped : (v x : W) → x ≡ m → IsPositive v → IsClamped nought m (min_of v x)
    min_of-IsClamped v x e h =
        subst (λ y. IsClamped nought m (min_of v y)) (sym e)
          (record { above = ground (arith, l.above_nought); below = ground (arith, l.max_self) })

    update-IsRated :
        (p : PidController W) (a b c : W)
        → IsRated m p
        → IsRated m (Pid.update p a b c).0 × IsPositive (Pid.update p a b c).1
    unfolding Pid.update
    update-IsRated p a b c v = (
      record { low = v.low; high = v.high },
      clamp-limits _ p.output_min p.output_max v.low v.high,
    )

    pub set_gains-IsRated :
        (g : PidGains W) (p : PidController W) → IsRated m p → IsRated m (Pid.set_gains g p)
    unfolding Pid.set_gains
    set_gains-IsRated g p v = record { low = v.low; high = v.high }

    pub reset-IsRated : (p : PidController W) → IsRated m p → IsRated m (Pid.reset p)
    unfolding Pid.reset
    reset-IsRated p v = record { low = v.low; high = v.high }

    -- What is true of a channel after the body of the loop.
    abbrev IsGood : Channel W → Type 0
    IsGood c = IsRated m c.pid × IsPositive c.duty

    control-IsGood :
        (c : ThermalConfig W) (k : Call W) (i : ℕ) (p : PidController W) (h : Bool)
        → IsRated m p
        → IsGood (control c k i p h)
    unfolding control follow_target hold_floor
    control-IsGood c k i p h v =
        let x = measured_at c k.sensors i in
        let idle : IsRated m (Pid.reset p) × IsPositive nought =
          (reset-IsRated p v, l.nought_self) in
        let off : IsRated m p × IsPositive nought = (v, l.nought_self) in
        if_both IsGood (not (temp_valid_for c k.sensors i)) idle (
          option_both IsGood (value_at k.overrides.temp_targets_c i)
            (if_both IsGood
              (not k.overrides.floor_control_enabled || not (should_heat_phase k.phase)) off
              (if_both IsGood h
                (if_both IsGood (le c.sample_floor_c x) idle
                  (update-IsRated p c.sample_floor_c x k.dt v))
                (if_both IsGood _ (update-IsRated p c.sample_floor_c x k.dt v) off)))
            (λ target. update-IsRated p target x k.dt v))

    All-any :
        {A B : Type 0} (Q : B → Type 0) (b : B) → Q b → (xs : List A) → All Q (map (λ x. b) xs)
    All-any Q b q [] = tt
    All-any Q b q (x ∷ xs) = (q, All-any Q b q xs)

    abbrev pub AreGood : Channels W → Type 0
    AreGood cs = All (IsRated m) cs.pids × All IsPositive cs.duties

    pub control_from-AreGood :
        (c : ThermalConfig W) (k : Call W) (i : ℕ) (ps : List (PidController W)) (hs : List Bool)
        → All (IsRated m) ps
        → AreGood (control_from c k i ps hs)
    unfolding control_from
    control_from-AreGood c k i ps [] v = (v, tt)
    control_from-AreGood c k i [] (h ∷ hs) v =
        (tt, All-any IsPositive nought l.nought_self (h ∷ hs))
    control_from-AreGood c k i (p ∷ ps) (h ∷ hs) v =
        let one_good = control-IsGood c k i p h v.0 in
        let rest = control_from-AreGood c k (i + 1) ps hs v.1 in
        ((one_good.0, rest.0), (one_good.1, rest.1))

    clamp-IsPositive : (v : W) → IsPositive (clamp v nought one)
    clamp-IsPositive v =
        (clamp-IsClamped nought one v l.one_above_nought l.nought_self l.one_self).above

    set-IsPositive :
        (vs : List W) (i : ℕ) (v : W)
        → IsPositive v
        → All IsPositive vs
        → All IsPositive (set vs i v)
    set-IsPositive [] i v h a = tt
    set-IsPositive (x ∷ xs) zero v h a = (h, a.1)
    set-IsPositive (x ∷ xs) (suc i) v h a = (a.0, set-IsPositive xs i v h a.1)

    override_duties-IsPositive :
        (vs : List W) (os : List (Option W))
        → All IsPositive vs
        → All IsPositive (override_duties vs os)
    override_duties-IsPositive [] os a = tt
    override_duties-IsPositive (v ∷ vs) [] a = a
    override_duties-IsPositive (v ∷ vs) (none ∷ os) a = (a.0, override_duties-IsPositive vs os a.1)
    override_duties-IsPositive (v ∷ vs) (some x ∷ os) a =
        (clamp-IsPositive x, override_duties-IsPositive vs os a.1)

    pub direct_overrides-IsPositive :
        (o : ControlOverrides W) (vs : List W)
        → All IsPositive vs
        → All IsPositive (direct_overrides o vs)
    unfolding direct_overrides
    direct_overrides-IsPositive o vs a =
        let P = All IsPositive in
        override_duties-IsPositive _ o.heater_duty_overrides (
          option_both P o.single_heater_override
            (option_both P o.all_heaters_override a
              λ v. All-any IsPositive _ (clamp-IsPositive v) vs)
            λ v. set-IsPositive _ v.0 _ (clamp-IsPositive v.1) (
              option_both P o.all_heaters_override a
                λ v. All-any IsPositive _ (clamp-IsPositive v) vs))

    pub enforce-IsClamped :
        (c : ThermalConfig W) (s : SensorSnapshot W) (b : Bool) (i : ℕ) (ls : List Bool)
        (vs : List W)
        → c.max_duty ≡ m
        → length ls ≡ length vs
        → All IsPositive vs
        → All (IsClamped nought m) (enforce c s b i ls vs)
    unfolding enforce
    enforce-IsClamped c s b i ls [] e h a = tt
    enforce-IsClamped c s b i [] (v ∷ vs) e h a = absurd (omega arith)
    enforce-IsClamped c s b i (x ∷ ls) (v ∷ vs) e h a =
        let chosen =
          if_both IsPositive (not (temp_valid_for c s i) && not b || x) l.nought_self a.0 in
        (
          min_of-IsClamped _ c.max_duty e chosen,
          enforce-IsClamped c s b (i + 1) ls vs e (omega (arith, h)) a.1,
        )
