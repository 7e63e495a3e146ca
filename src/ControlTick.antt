-- ===== src/ControlTick.antt =====
-- The heaters in one round of `Run` of onboard/src/system_controller.cpp: the thermal controller, the
-- tune, the heater test and the scheduler, in that order. `W` is the type of `double` values.
pub mod Link
pub mod Outage
pub mod Tune
pub mod Safe
pub mod Latched
mod Budget
mod Tests
use coatheal_flight_software.Prelude.{
  ℕ, ◌^◌, Bool, true, false, not, ◌&&◌, ◌||◌, Option, none, some, List, [], ◌∷◌, map, if◌then◌else◌,
  ltb, length, get_elem?, any,
}
use coatheal_flight_software.Prelude.Int.{ℤ, pos, negsuc, ltb_ℤ}
use coatheal_flight_software.Double.{Double, nought, one, clamp}
use coatheal_flight_software.Phase.{MissionPhase}
use coatheal_flight_software.MotionLock.{MotionLock}
use coatheal_flight_software.HeaterScheduler as Scheduler
use coatheal_flight_software.HeaterScheduler.{HeaterScheduler, motion_active}
use coatheal_flight_software.ThermalController as Thermal
use coatheal_flight_software.ThermalController.{compute_requested_duty, has_direct_override}
use coatheal_flight_software.ThermalController.Types.{
  ControlOverrides, SensorSnapshot, ThermalController, Call, has_value, should_heat_phase,
}
use coatheal_flight_software.PidAutotuner.{PidAutotuner, abort}
use coatheal_flight_software.ControlTick.Link.{SystemMode, is_run}
use coatheal_flight_software.ControlTick.Tune.{
  HeaterTestRuntime, abort_reason, latch_of, tune, heater_test, Tuned, Tested,
}

-- The part of `SystemController` that heats.
pub record Heating (W : Type 0) : Type 0 where
  pub thermal : ThermalController W
  pub tuner : PidAutotuner W
  pub tune_channel : ℤ
  pub tune_commanded_duty : W
  pub test : HeaterTestRuntime W
  pub scheduler : HeaterScheduler W
  pub last_heater_duty : List W

-- What a tick reads. `debug_armed_`, the clock and the lock are shared with other threads, so each
-- read is a field of its own.
pub record TickInput (W : Type 0) : Type 0 where
  pub overrides : ControlOverrides W
  pub mode : SystemMode
  pub fallback : Bool
  pub phase : MissionPhase
  pub sensors : SensorSnapshot W
  pub tick_s : W
  pub now_s : W
  pub bench_mode : Bool
  pub armed_at_test : Bool
  pub lock_at_test : Option MotionLock
  pub clock_at_test : ℤ
  pub armed_at_power : Bool
  pub lock_at_power : Option MotionLock

-- The duty that the scheduler gave the heater of a tune, if there is one.
abbrev pub duty_at : {W : Type 0} → List W → ℤ → Option W
duty_at xs (pos n) = get_elem? xs n
duty_at xs (negsuc n) = none

module _ {W : Type 0} ⦃d : Double W⦄ where
  open d use {of_int, lt, add, div}

  -- `effective_control`, as the thermal controller is called.
  abbrev pub thermal_call : TickInput W → Call W
  thermal_call k = record {
    phase = k.phase;
    sensors = k.sensors;
    dt = k.tick_s;
    overrides = record k.overrides {
      floor_control_enabled = k.fallback;
      heaters_off = if is_run k.mode then k.overrides.heaters_off else true;
    };
  }

  abbrev pub still_allowed : HeaterTestRuntime W → TickInput W → Bool
  still_allowed t k =
      k.bench_mode
      && k.armed_at_test
      && is_run k.mode
      && not (motion_active k.lock_at_test)
      && ltb_ℤ k.clock_at_test t.until

  abbrev pub manual_heat_requested : ControlOverrides W → Bool
  manual_heat_requested o = has_direct_override o || any has_value o.temp_targets_c

  -- The scheduler gave the heater of the tune less than the tune wants.
  abbrev pub is_clamped : List W → ℤ → Option W → Bool
  is_clamped scheduled ch none = false
  is_clamped scheduled ch (some duty) = elim (duty_at scheduled ch) [
    | none ↦ false
    | some given ↦ lt (add given (div one (of_int (pos 1_000_000_000)))) duty
  ]

  -- The thermal controller and the tune.
  unfoldable pub tuned : Heating W → TickInput W → Tuned W
  tuned h k =
      let (thermal, requested) = compute_requested_duty h.thermal (thermal_call k) in
      let latched = latch_of thermal.channel_latched h.tune_channel in
      let reason = abort_reason k.mode k.fallback k.overrides.heaters_off latched in
      tune h.thermal.config k.sensors reason h.tune_channel k.now_s h.tuner requested

  unfoldable pub tested : Heating W → TickInput W → Tested W
  tested h k = heater_test (still_allowed h.test k) h.test (tuned h k).requested

  -- `sort` is the call of `std::sort` in the scheduler.
  module _ (sort : List (ℕ × W) → List (ℕ × W)) where
    -- The scheduler, or the open loop of the bench.
    unfoldable pub power :
        Heating W → TickInput W → Bool → Bool → List W → HeaterScheduler W × List W
    power h k tune_active heats requested =
        let open_loop =
          is_run k.mode
          && k.bench_mode
          && k.armed_at_power
          && k.overrides.bench_open_loop_heaters in
        let wanted =
          is_run k.mode
          && (should_heat_phase k.phase
              || (manual_heat_requested k.overrides || heats || tune_active)) in
        if open_loop && not tune_active
        then (h.scheduler, map (λ v. clamp v nought one) requested)
        else Scheduler.serve sort h.scheduler (record {
          lock = k.lock_at_power;
          requested = requested;
          deprioritize = wanted;
          dt = k.tick_s;
        })

    -- The heaters in a tick; the list is what the PWM outputs are set to.
    unfoldable pub heat : Heating W → TickInput W → Heating W × List W
    heat h k =
        let tu = tuned h k in
        let te = tested h k in
        let (scheduler, scheduled) = power h k (has_value tu.commanded) te.heats te.requested in
        (
          record {
            thermal = (compute_requested_duty h.thermal (thermal_call k)).0;
            tuner =
                if is_clamped scheduled h.tune_channel tu.commanded
                then abort "scheduler clamped the tune duty (motion inhibit or power budget)"
                    tu.tuner
                else tu.tuner;
            tune_channel = h.tune_channel;
            tune_commanded_duty = elim tu.commanded [
              | none ↦ h.tune_commanded_duty
              | some duty ↦ duty
            ];
            test = te.test;
            scheduler = scheduler;
            last_heater_duty = scheduled;
          },
          scheduled,
        )

    unfoldable pub run : Heating W → List (TickInput W) → Heating W
    run h [] = h
    run h (k ∷ ks) = run (heat h k).0 ks

  -- RESET_CTRL.
  unfoldable pub reset_control : Heating W → Heating W
  reset_control h = record h {
    thermal = Thermal.reset h.thermal;
    scheduler = if h.scheduler.budget_exhausted then Scheduler.reset h.scheduler else h.scheduler;
  }
