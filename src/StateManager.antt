-- ===== src/StateManager.antt =====
-- onboard/src/state_manager.cpp: pressure-driven phase tracking with debounce counters.
-- `W` is the type of `double` pressures. The sample temperatures and the time that `Update` takes are
-- unnamed parameters of the source and do not occur.
pub mod Debounce
mod Tests
use coatheal_flight_software.Prelude.{ℕ, ◌+◌, max, Bool, true, false, ◌&&◌, leb, if◌then◌else◌}
use coatheal_flight_software.Prelude.Int.{ℤ, pos_part}
use coatheal_flight_software.Double.{Double}
use coatheal_flight_software.Phase.{
  MissionPhase, boot, ascent, pre_float, float, descent, landed, stopped,
}

pub record StateOverrides : Type 0 where
  pub force_start : Bool
  pub force_stop : Bool
  pub reset_control : Bool
  pub shutdown_safe : Bool

-- The fields of `config_.transition` that `Update` reads.
pub record TransitionConfig (W : Type 0) : Type 0 where
  pub pre_float_mbar : W
  pub ascent_to_float_mbar : W
  pub float_to_descent_mbar : W
  pub descent_to_landed_mbar : W
  pub debounce_samples : ℤ

pub record StateManager : Type 0 where
  pub phase : MissionPhase
  pub debounce_pre_float : ℕ
  pub debounce_float : ℕ
  pub debounce_descent : ℕ
  pub debounce_landed : ℕ

abbrev pub required : {W : Type 0} → TransitionConfig W → ℕ
required c = max 1 (pos_part c.debounce_samples)

pub init : StateManager
init = record {
  phase = boot;
  debounce_pre_float = 0;
  debounce_float = 0;
  debounce_descent = 0;
  debounce_landed = 0;
}

abbrev reset_debounce : StateManager → StateManager
reset_debounce m = record m {
  debounce_pre_float = 0;
  debounce_float = 0;
  debounce_descent = 0;
  debounce_landed = 0;
}

pub reset : StateManager → StateManager
reset m = reset_debounce (record m { phase = boot })

pub set_phase : StateManager → MissionPhase → StateManager
set_phase m p = reset_debounce (record m { phase = p })

-- The first statement of `Update`.
pub apply_reset : StateOverrides → StateManager → StateManager
unfolding reset
apply_reset o m = if o.reset_control then reset m else m

-- The statement of `Update` before its `switch`.
pub apply_start : StateOverrides → StateManager → StateManager
apply_start o m =
    if o.force_start then elim m.phase [ boot ↦ record m { phase = ascent } | _ ↦ m ] else m

module _ {W : Type 0} ⦃d : Double W⦄ (c : TransitionConfig W) where
  open d use {le}

  pub ascent_step : StateManager → W → StateManager
  ascent_step m pressure =
      if le pressure c.pre_float_mbar
      then (let n = m.debounce_pre_float + 1 in
          if leb (required c) n
          then record m { phase = pre_float; debounce_pre_float = 0 }
          else record m { debounce_pre_float = n })
      else record m { debounce_pre_float = 0 }

  pub pre_float_step : StateManager → W → StateManager
  pre_float_step m pressure =
      if le c.float_to_descent_mbar pressure
      then (let n = m.debounce_descent + 1 in
          if leb (required c) n
          then record m { phase = descent; debounce_descent = 0; debounce_float = 0 }
          else record m { debounce_descent = n })
      else if le pressure c.ascent_to_float_mbar
      then (let n = m.debounce_float + 1 in
          if leb (required c) n
          then record m { debounce_descent = 0; phase = float; debounce_float = 0 }
          else record m { debounce_descent = 0; debounce_float = n })
      else record m { debounce_descent = 0; debounce_float = 0 }

  pub float_step : StateManager → W → StateManager
  float_step m pressure =
      if le c.float_to_descent_mbar pressure
      then (let n = m.debounce_descent + 1 in
          if leb (required c) n
          then record m { phase = descent; debounce_descent = 0 }
          else record m { debounce_descent = n })
      else record m { debounce_descent = 0 }

  pub descent_step : StateManager → W → StateManager
  descent_step m pressure =
      if le c.descent_to_landed_mbar pressure
      then (let n = m.debounce_landed + 1 in
          if leb (required c) n
          then record m { phase = landed; debounce_landed = 0 }
          else record m { debounce_landed = n })
      else record m { debounce_landed = 0 }

  -- The `switch` of `Update`.
  pub phase_step : MissionPhase → StateManager → W → StateManager
  unfolding ascent_step pre_float_step float_step descent_step
  phase_step boot m pressure = record m { phase = ascent }
  phase_step ascent m pressure = ascent_step m pressure
  phase_step pre_float m pressure = pre_float_step m pressure
  phase_step float m pressure = float_step m pressure
  phase_step descent m pressure = descent_step m pressure
  phase_step landed m pressure = m
  phase_step stopped m pressure = m

  -- `Update`; the phase that it returns is that of the new state.
  pub update : StateManager → W → StateOverrides → StateManager
  update m pressure o =
      let m₁ = apply_reset o m in
      if o.shutdown_safe
      then record m₁ { phase = stopped }
      else if o.force_stop
      then record m₁ { phase = descent; debounce_pre_float = 0; debounce_descent = 0 }
      else (let m₂ = apply_start o m₁ in phase_step m₂.phase m₂ pressure)
