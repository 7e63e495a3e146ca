-- ===== src/ThermalController/Monitor.antt =====
-- What onboard/src/thermal_controller.cpp reads off the temperatures: their validity, the latches and
-- the spread.
use coatheal_flight_software.Prelude.{
  ℕ, zero, suc, ◌+◌, Bool, true, false, not, ◌&&◌, ◌||◌, List, [], ◌∷◌, if◌then◌else◌, ltb, length,
  get_or,
}
use coatheal_flight_software.Double.{Double, nought}
use coatheal_flight_software.Phase.{MissionPhase}
use coatheal_flight_software.ThermalController.Types.{
  ThermalConfig, SensorSnapshot, is_empty, should_heat_phase,
}

abbrev pub sensor_channel : {W : Type 0} → ThermalConfig W → ℕ → ℕ
sensor_channel c heater =
    if ltb heater (length c.temperature_channels)
    then get_or c.temperature_channels heater 0
    else heater

-- There is a temperature of the sample, and no flag against it.
abbrev pub is_valid_sample : {W : Type 0} → SensorSnapshot W → ℕ → Bool
is_valid_sample sensors sample =
    ltb sample (length sensors.sample_temps_c)
    && (is_empty sensors.sample_temp_valid
        || ltb sample (length sensors.sample_temp_valid)
          && get_or sensors.sample_temp_valid sample false)

module _ {W : Type 0} ⦃d : Double W⦄ where
  open d use {lt, sub}

  unfoldable pub temp_valid_for : ThermalConfig W → SensorSnapshot W → ℕ → Bool
  temp_valid_for c sensors heater = is_valid_sample sensors (sensor_channel c heater)

  -- `sensors.sample_temps_c[sensor_channel(heater)]`, read only where it is valid.
  abbrev pub measured_at : ThermalConfig W → SensorSnapshot W → ℕ → W
  measured_at c sensors heater = get_or sensors.sample_temps_c (sensor_channel c heater) nought

  unfoldable pub is_overtemp : ThermalConfig W → SensorSnapshot W → ℕ → Bool
  is_overtemp c sensors i =
      temp_valid_for c sensors i && lt c.max_sample_temp_c (measured_at c sensors i)

  -- The loop of the over-temperature latch, from index `i` on.
  unfoldable pub latch_from : ThermalConfig W → SensorSnapshot W → ℕ → List Bool → List Bool
  latch_from c sensors i [] = []
  latch_from c sensors i (latched ∷ rest) =
      (if is_overtemp c sensors i then true else latched) ∷ latch_from c sensors (i + 1) rest

  -- The valid temperatures of the heaters from index `i` on, `n` of them.
  unfoldable pub valid_temperatures : ThermalConfig W → SensorSnapshot W → ℕ → ℕ → List W
  valid_temperatures c sensors zero i = []
  valid_temperatures c sensors (suc n) i =
      let rest = valid_temperatures c sensors n (i + 1) in
      if temp_valid_for c sensors i then measured_at c sensors i ∷ rest else rest

  -- `std::minmax_element`: the least and the greatest of `lo`, `hi` and the list.
  abbrev pub minmax : W → W → List W → W × W
  minmax lo hi [] = (lo, hi)
  minmax lo hi (x ∷ xs) = minmax (if lt x lo then x else lo) (if lt x hi then hi else x) xs

  -- More than one value, and they are spread more than the tolerance.
  unfoldable pub is_spread : W → List W → Bool
  is_spread tolerance [] = false
  is_spread tolerance (x ∷ []) = false
  is_spread tolerance (x ∷ y ∷ ys) = let (lo, hi) = minmax x x (y ∷ ys) in lt tolerance (sub hi lo)

  unfoldable pub is_uniform : ThermalConfig W → MissionPhase → SensorSnapshot W → Bool
  is_uniform c phase sensors = not (
      should_heat_phase phase
      && not (is_empty sensors.sample_temps_c)
      && ltb 0 c.heater_count
      && is_spread c.uniformity_tolerance_c (valid_temperatures c sensors c.heater_count 0))
