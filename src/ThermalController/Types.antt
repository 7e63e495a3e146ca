-- ===== src/ThermalController/Types.antt =====
-- The data of onboard/src/thermal_controller.cpp. Of `OnboardConfig` and `SensorSnapshot` the records
-- hold the fields that the controller reads.
use coatheal_flight_software.Prelude.{
  ℕ, Bool, true, false, Option, none, some, List, [], ◌∷◌, if◌then◌else◌, ◌==◌, length, get_or,
  replicate,
}
use coatheal_flight_software.Phase.{
  MissionPhase, boot, ascent, pre_float, float, descent, landed, stopped,
}
use coatheal_flight_software.PidController.{PidGains, PidController}

pub record ControlOverrides (W : Type 0) : Type 0 where
  pub heaters_off : Bool
  pub floor_control_enabled : Bool
  pub single_heater_override : Option (ℕ × W)
  pub all_heaters_override : Option W
  pub heater_duty_overrides : List (Option W)
  pub temp_targets_c : List (Option W)
  pub pid_overrides : List (Option (PidGains W))
  pub pid_override : Option (PidGains W)
  pub bench_open_loop_heaters : Bool

pub record SensorSnapshot (W : Type 0) : Type 0 where
  pub sample_temps_c : List W
  pub sample_temp_valid : List Bool

pub record ThermalConfig (W : Type 0) : Type 0 where
  pub heater_count : ℕ
  pub pid : PidGains W
  pub max_duty : W
  pub temperature_channels : List ℕ
  pub max_sample_temp_c : W
  pub uniformity_tolerance_c : W
  pub sample_floor_c : W

pub record ThermalController (W : Type 0) : Type 0 where
  pub config : ThermalConfig W
  pub sample_pids : List (PidController W)
  pub channel_latched : List Bool
  pub sample_heating : List Bool
  pub active_targets_c : List (Option W)
  pub overtemp_latched : Bool
  pub uniformity_ok : Bool

-- What one call of `ComputeRequestedDuty` is given.
pub record Call (W : Type 0) : Type 0 where
  pub phase : MissionPhase
  pub sensors : SensorSnapshot W
  pub dt : W
  pub overrides : ControlOverrides W

abbrev pub has_value : {A : Type 0} → Option A → Bool
has_value none = false
has_value (some a) = true

-- The element at an index, with `none` past the end.
abbrev pub value_at : {A : Type 0} → List (Option A) → ℕ → Option A
value_at xs i = get_or xs i none

-- `if (xs.size() != n) xs.assign(n, a)`.
abbrev pub sized : {A : Type 0} → ℕ → A → List A → List A
sized n a xs = if length xs == n then xs else replicate n a

abbrev pub is_empty : {A : Type 0} → List A → Bool
is_empty [] = true
is_empty (x ∷ xs) = false

-- What the control loop leaves at one index: the controller, the flag of the heater, its target and
-- its duty.
pub record Channel (W : Type 0) : Type 0 where
  pub pid : PidController W
  pub heating : Bool
  pub target : Option W
  pub duty : W

-- The same at every index.
pub record Channels (W : Type 0) : Type 0 where
  pub pids : List (PidController W)
  pub heating : List Bool
  pub targets : List (Option W)
  pub duties : List W

abbrev pub put : {W : Type 0} → Channel W → Channels W → Channels W
put c cs = record {
  pids = c.pid ∷ cs.pids;
  heating = c.heating ∷ cs.heating;
  targets = c.target ∷ cs.targets;
  duties = c.duty ∷ cs.duties;
}

unfoldable pub should_heat_phase : MissionPhase → Bool
should_heat_phase ascent = true
should_heat_phase pre_float = true
should_heat_phase float = true
should_heat_phase descent = true
should_heat_phase boot = false
should_heat_phase landed = false
should_heat_phase stopped = false
