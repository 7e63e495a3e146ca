-- ===== src/HeaterScheduler.antt =====
-- onboard/src/heater_scheduler.cpp: `HeaterScheduler`. `W` is the type of `double` values. The lock
-- that the scheduler points to is an argument of each call, since the motors change it in between;
-- `none` is the null pointer. The scratch vectors hold nothing from one call to the next.
pub mod Interlock
pub mod Limits
pub mod Zero
mod Tests
use coatheal_flight_software.Prelude.{
  ℕ, ◌+◌, ◌-◌, ◌^◌, Bool, true, false, not, ◌&&◌, Option, none, some, List, [], ◌∷◌, map, leb, ◌==◌,
  if◌then◌else◌, length, get_or, set, replicate,
}
use coatheal_flight_software.Prelude.Int.{pos}
use coatheal_flight_software.Double.{Double, nought, one, clamp}
use coatheal_flight_software.MotionLock.{MotionLock, is_active}

pub record PowerConfig (W : Type 0) : Type 0 where
  pub max_active_heaters : ℕ
  pub heater_nominal_w : W
  pub max_thermal_w : W
  pub energy_budget_wh : W

pub record HeaterScheduler (W : Type 0) : Type 0 where
  pub power : PowerConfig W
  pub electronics_heater_index : ℕ
  pub energy_consumed_wh : W
  pub budget_exhausted : Bool
  pub last_inhibited : Bool

-- `static_cast<std::size_t>(-1)`.
abbrev pub no_heater : ℕ
no_heater = 2 ^ 64 - 1

-- The lock is configured and a motor holds it.
unfoldable pub motion_active : Option MotionLock → Bool
unfolding is_active
motion_active none = false
motion_active (some l) = is_active l

-- What one call of `Schedule` is given.
pub record Call (W : Type 0) : Type 0 where
  pub lock : Option MotionLock
  pub requested : List W
  pub deprioritize : Bool
  pub dt : W

module _ {W : Type 0} ⦃d : Double W⦄ where
  open d use {of_int, lt, le, add, mul, div}

  pub init : PowerConfig W → ℕ → HeaterScheduler W
  init power index = record {
    power = power;
    electronics_heater_index = index;
    energy_consumed_wh = nought;
    budget_exhausted = false;
    last_inhibited = false;
  }

  unfoldable pub reset : HeaterScheduler W → HeaterScheduler W
  reset s = record s {
    energy_consumed_wh = nought;
    budget_exhausted = false;
    last_inhibited = false;
  }

  abbrev pub clamp_all : List W → List W
  clamp_all = map λ v. clamp v nought one

  -- The electronics heater, if there is one and it is to go last.
  abbrev pub is_lowered : HeaterScheduler W → Bool → ℕ → Bool
  is_lowered s deprioritize i =
      deprioritize
      && not (s.electronics_heater_index == no_heater)
      && i == s.electronics_heater_index

  -- Index and score of each heater, from index `i` on; the electronics heater counts a tenth.
  pub rank_from : ℕ → (ℕ → Bool) → List W → List (ℕ × W)
  rank_from i lowered [] = []
  rank_from i lowered (duty ∷ duties) =
      (i, if lowered i then mul duty (div (of_int (pos 1)) (of_int (pos 10))) else duty)
      ∷ rank_from (i + 1) lowered duties

  -- The loop that enables heaters in the order of their scores.
  pub enable_ranked : ℕ → List W → List (ℕ × W) → ℕ → List W → List W
  enable_ranked limit clamped [] enabled scheduled = scheduled
  enable_ranked limit clamped ((i, score) ∷ ranked) enabled scheduled =
      let duty = get_or clamped i nought in
      let skip = enable_ranked limit clamped ranked enabled scheduled in
      let take = enable_ranked limit clamped ranked (enabled + 1) (set scheduled i duty) in
      if leb limit enabled then scheduled else if le duty nought then skip else take

  pub thermal_power : W → W → List W → W
  thermal_power nominal sum [] = sum
  thermal_power nominal sum (duty ∷ duties) =
      thermal_power nominal (add sum (mul duty nominal)) duties

  -- The duties after the thermal limit, and their power.
  pub limit_power : PowerConfig W → List W → List W × W
  unfolding thermal_power
  limit_power power scheduled =
      let watts = thermal_power power.heater_nominal_w nought scheduled in
      if lt power.max_thermal_w watts
        && lt (div (of_int (pos 1)) (of_int (pos 1_000_000_000))) watts
      then (let scale = div power.max_thermal_w watts in
          (map (λ duty. mul duty scale) scheduled, power.max_thermal_w))
      else (scheduled, watts)

  -- The energy accounting at the end of `Schedule`.
  pub account : HeaterScheduler W → List W → W → W → HeaterScheduler W × List W
  account s scheduled watts dt =
      if lt nought s.power.energy_budget_wh && lt nought dt
      then (let consumed = add s.energy_consumed_wh (mul watts (div dt (of_int (pos 3600)))) in
          if le s.power.energy_budget_wh consumed
          then (
            record s { energy_consumed_wh = consumed; budget_exhausted = true },
            map (λ duty. nought) scheduled,
          )
          else (record s { energy_consumed_wh = consumed }, scheduled))
      else (s, scheduled)

  -- `sort` is the call of `std::sort`, with the greatest score first.
  module _ (sort : List (ℕ × W) → List (ℕ × W)) where
    -- The duties before the thermal limit.
    pub select : HeaterScheduler W → List W → Bool → List W
    unfolding rank_from enable_ranked
    select s requested deprioritize =
        let clamped = clamp_all requested in
        let ranked = sort (rank_from 0 (is_lowered s deprioritize) clamped) in
        let off = replicate (length clamped) nought in
        enable_ranked s.power.max_active_heaters clamped ranked 0 off

    -- `Schedule`; the entry point without `dt_seconds` passes 0.0.
    pub schedule :
        Option MotionLock → HeaterScheduler W → List W → Bool → W → HeaterScheduler W × List W
    unfolding select limit_power account
    schedule lock s requested deprioritize dt =
        let zeros = replicate (length requested) nought in
        let s₁ = record s { last_inhibited = false } in
        if motion_active lock
        then (record s { last_inhibited = true }, zeros)
        else if s.budget_exhausted
        then (s₁, zeros)
        else (let (scheduled, watts) = limit_power s.power (select s₁ requested deprioritize) in
            account s₁ scheduled watts dt)

    pub serve : HeaterScheduler W → Call W → HeaterScheduler W × List W
    unfolding schedule
    serve s k = schedule k.lock s k.requested k.deprioritize k.dt

    pub run : HeaterScheduler W → List (Call W) → HeaterScheduler W
    run s [] = s
    run s (k ∷ ks) = run (serve s k).0 ks
