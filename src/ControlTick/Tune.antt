-- ===== src/ControlTick/Tune.antt =====
-- The heaters under a tune or a test in `Run` of onboard/src/system_controller.cpp.
use coatheal_flight_software.Prelude.{
  ℕ, suc, ◌-◌, ◌^◌, String, Bool, false, not, ◌&&◌, Option, none, some, List, map, if◌then◌else◌,
  ltb, length, get_or, set,
}
use coatheal_flight_software.Prelude.Int.{ℤ, pos, negsuc}
use coatheal_flight_software.Double.{Double, nought}
use coatheal_flight_software.ThermalController.Types.{ThermalConfig, SensorSnapshot}
use coatheal_flight_software.ThermalController.Monitor.{sensor_channel, is_valid_sample}
use coatheal_flight_software.PidAutotuner as Tuner
use coatheal_flight_software.PidAutotuner.{PidAutotuner, is_active, abort}
use coatheal_flight_software.ControlTick.Link.{SystemMode, is_run}

pub record HeaterTestRuntime (W : Type 0) : Type 0 where
  pub active : Bool
  pub heater_index : ℕ
  pub duty : W
  pub until : ℤ

-- The sample of a heater that an `int` names; a negative one converts to a large index.
abbrev pub sample_of : {W : Type 0} → ThermalConfig W → ℤ → ℕ
sample_of c (pos n) = sensor_channel c n
sample_of c (negsuc n) = 2 ^ 64 - suc n

-- The latch of the channel, false out of range.
abbrev pub latch_of : List Bool → ℤ → Bool
latch_of latched (pos n) = get_or latched n false
latch_of latched (negsuc n) = false

-- A write at an `int` index that is in range.
abbrev pub put_at : {W : Type 0} → List W → ℤ → W → List W
put_at xs (pos n) v = set xs n v
put_at xs (negsuc n) v = xs

-- Why a tune is aborted: outside RUN mode, in the fallback, with the heaters off, or by the latch.
unfoldable pub abort_reason : SystemMode → Bool → Bool → Bool → Option String
abort_reason mode fallback heaters_off latched =
    if not (is_run mode)
    then some "left RUN mode"
    else if fallback
    then some "link-loss fallback engaged"
    else if heaters_off
    then some "heaters commanded off"
    else if latched
    then some "overtemp latch tripped"
    else none

abbrev pub abort_for : {W : Type 0} → Option String → PidAutotuner W → PidAutotuner W
abort_for none t = t
abort_for (some reason) t = abort reason t

-- What a tick makes of the tune: the tuner, the duties, and the duty of the tune while it runs.
pub record Tuned (W : Type 0) : Type 0 where
  pub tuner : PidAutotuner W
  pub requested : List W
  pub commanded : Option W

-- The same of a test, and whether it heats.
pub record Tested (W : Type 0) : Type 0 where
  pub test : HeaterTestRuntime W
  pub requested : List W
  pub heats : Bool

module _ {W : Type 0} ⦃d : Double W⦄ where
  open d use {lt}

  abbrev pub all_off : List W → List W
  all_off = map λ v. nought

  -- A tick of the tune of heater `ch` at the time `now`, for the duties of the thermal controller;
  -- `reason` is why it is to be aborted.
  unfoldable pub tune :
      ThermalConfig W → SensorSnapshot W → Option String → ℤ → W → PidAutotuner W → List W → Tuned W
  tune c sensors reason ch now tuner requested =
      let sample = sample_of c ch in
      let valid = is_valid_sample sensors sample in
      let temp = if valid then get_or sensors.sample_temps_c sample nought else nought in
      let (ticked, duty) = Tuner.tick (abort_for reason tuner) valid temp now in
      if not (is_active tuner)
      then record { tuner = tuner; requested = requested; commanded = none }
      else if is_active ticked
      then record {
        tuner = ticked;
        requested = put_at (all_off requested) ch duty;
        commanded = some duty;
      }
      else record { tuner = ticked; requested = requested; commanded = none }

  -- A tick of the heater test; `allowed` is `still_allowed`.
  unfoldable pub heater_test : Bool → HeaterTestRuntime W → List W → Tested W
  heater_test allowed t requested =
      if not t.active
      then record { test = t; requested = requested; heats = false }
      else if not allowed
      then record { test = record t { active = false }; requested = requested; heats = false }
      else record {
        test = t;
        requested = set (all_off requested) t.heater_index t.duty;
        heats = ltb t.heater_index (length requested) && lt nought t.duty;
      }
