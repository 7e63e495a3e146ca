-- ===== src/ThermalController.antt =====
-- onboard/src/thermal_controller.cpp: `ThermalController`. `W` is the type of `double` values.
pub mod Types
pub mod Monitor
pub mod Loops
pub mod Latch
pub mod Rated
pub mod Lengths
pub mod Duty
pub mod Feedback
-- pub mod Scheduled
mod Tests
use coatheal_flight_software.Prelude.{
  ℕ, zero, suc, Bool, true, false, not, ◌&&◌, ◌||◌, Option, none, some, List, [], ◌∷◌, map,
  if◌then◌else◌, replicate, any,
}
use coatheal_flight_software.Prelude.Int.{pos, negsuc}
use coatheal_flight_software.Double.{Double, nought}
use coatheal_flight_software.PidController as Pid
use coatheal_flight_software.PidController.{PidGains, PidController}
use coatheal_flight_software.ThermalController.Types.{
  ControlOverrides, ThermalConfig, ThermalController, Call, Channels, has_value, sized,
  should_heat_phase,
}
use coatheal_flight_software.ThermalController.Monitor.{latch_from, is_uniform}
use coatheal_flight_software.ThermalController.Loops.{
  all_gains, control_from, direct_overrides, enforce,
}

-- A call of a method between two calls of `Reset`.
pub data Request (W : Type 0) : Type 0 where
  compute : Call W → Request W
  new_gains : PidGains W → Request W
  new_gains_at : ℕ → PidGains W → Request W

module _ {W : Type 0} ⦃d : Double W⦄ where
  open d use {of_int}

  -- The constructor.
  abbrev pub init : ThermalConfig W → ThermalController W
  init config =
      let n = config.heater_count in
      record {
        config = config;
        sample_pids =
            replicate n (
              Pid.init config.pid nought config.max_duty (of_int (negsuc 999)) (of_int (pos 1000)));
        channel_latched = replicate n false;
        sample_heating = replicate n false;
        active_targets_c = replicate n none;
        overtemp_latched = false;
        uniformity_ok = true;
      }

  unfoldable pub reset : ThermalController W → ThermalController W
  reset t = record t {
    sample_pids = map Pid.reset t.sample_pids;
    channel_latched = map (λ v. false) t.channel_latched;
    sample_heating = map (λ v. false) t.sample_heating;
    active_targets_c = map (λ v. none) t.active_targets_c;
    overtemp_latched = false;
    uniformity_ok = true;
  }

  unfoldable pub update_pid : PidGains W → ThermalController W → ThermalController W
  update_pid gains t = record t { sample_pids = map (Pid.set_gains gains) t.sample_pids }

  -- A change of the element at an index, if it is there.
  abbrev pub set_gains_at : List (PidController W) → ℕ → PidGains W → List (PidController W)
  set_gains_at [] i gains = []
  set_gains_at (p ∷ ps) zero gains = Pid.set_gains gains p ∷ ps
  set_gains_at (p ∷ ps) (suc i) gains = p ∷ set_gains_at ps i gains

  unfoldable pub update_pid_at : ℕ → PidGains W → ThermalController W → ThermalController W
  update_pid_at channel gains t = record t {
    sample_pids = set_gains_at t.sample_pids channel gains;
  }

  abbrev pub has_direct_override : ControlOverrides W → Bool
  has_direct_override o =
      has_value o.all_heaters_override
      || has_value o.single_heater_override
      || any has_value o.heater_duty_overrides

  abbrev pub wants_control : Call W → Bool
  wants_control k =
      any has_value k.overrides.temp_targets_c
      || k.overrides.floor_control_enabled && should_heat_phase k.phase

  -- The start of `ComputeRequestedDuty`: the sizes, the latches and the two flags.
  unfoldable pub observe : ThermalController W → Call W → ThermalController W
  observe t k =
      let c = t.config in
      let latched = latch_from c k.sensors 0 (sized c.heater_count false t.channel_latched) in
      record t {
        channel_latched = latched;
        sample_heating = sized c.heater_count false t.sample_heating;
        active_targets_c = sized c.heater_count none t.active_targets_c;
        overtemp_latched = any (λ v. v) latched;
        uniformity_ok = is_uniform c k.phase k.sensors;
      }

  -- What the control loop leaves, or with no control all heaters off.
  unfoldable pub control_all : ThermalController W → Call W → List (PidController W) → Channels W
  control_all t k pids =
      if wants_control k then control_from t.config k 0 pids t.sample_heating else record {
        pids = pids;
        heating = map (λ v. false) t.sample_heating;
        targets = replicate t.config.heater_count none;
        duties = replicate t.config.heater_count nought;
      }

  unfoldable pub compute_requested_duty :
      ThermalController W → Call W → ThermalController W × List W
  compute_requested_duty t₀ k =
      let o = k.overrides in
      let t = observe t₀ k in
      let n = t.config.heater_count in
      let zeros = replicate n nought in
      let cs = control_all t k (all_gains o t.sample_pids) in
      let t₁ : ThermalController W = record t {
        sample_pids = cs.pids;
        sample_heating = cs.heating;
        active_targets_c = cs.targets;
      } in
      if o.heaters_off
      then (
        record t {
          sample_heating = map (λ v. false) t.sample_heating;
          active_targets_c = map (λ v. none) t.active_targets_c;
        },
        zeros,
      )
      else if not (wants_control k) && not (has_direct_override o)
      then (t₁, zeros)
      else (
        t₁,
        enforce t.config k.sensors o.bench_open_loop_heaters 0 t.channel_latched
            (direct_overrides o cs.duties),
      )

  unfoldable pub serve : ThermalController W → Request W → ThermalController W
  serve t (compute k) = (compute_requested_duty t k).0
  serve t (new_gains g) = update_pid g t
  serve t (new_gains_at i g) = update_pid_at i g t

  unfoldable pub run : ThermalController W → List (Request W) → ThermalController W
  run t [] = t
  run t (r ∷ rs) = run (serve t r) rs
