-- ===== src/ThermalController/Loops.antt =====
-- The loops of onboard/src/thermal_controller.cpp over the heaters.
use coatheal_flight_software.Prelude.{
  ℕ, ◌+◌, Bool, true, false, not, ◌&&◌, ◌||◌, Option, none, some, List, [], ◌∷◌, map, if◌then◌else◌,
  set,
}
use coatheal_flight_software.Prelude.Int.{pos}
use coatheal_flight_software.Double.{Double, nought, one, clamp, min_of}
use coatheal_flight_software.PidController as Pid
use coatheal_flight_software.PidController.{PidGains, PidController}
use coatheal_flight_software.ThermalController.Types.{
  ControlOverrides, SensorSnapshot, ThermalConfig, Call, Channel, Channels, put, value_at,
  should_heat_phase,
}
use coatheal_flight_software.ThermalController.Monitor.{temp_valid_for, measured_at}

module _ {W : Type 0} ⦃d : Double W⦄ where
  open d use {of_int, lt, le, sub, div}

  -- 0.5.
  abbrev pub floor_hysteresis_c : W
  floor_hysteresis_c = div one (of_int (pos 2))

  -- The gains of `pid_overrides`, one for each controller.
  abbrev pub override_gains :
      List (PidController W) → List (Option (PidGains W)) → List (PidController W)
  override_gains [] gains = []
  override_gains (p ∷ ps) [] = p ∷ ps
  override_gains (p ∷ ps) (none ∷ gains) = p ∷ override_gains ps gains
  override_gains (p ∷ ps) (some g ∷ gains) = Pid.set_gains g p ∷ override_gains ps gains

  abbrev pub all_gains : ControlOverrides W → List (PidController W) → List (PidController W)
  all_gains o pids =
      override_gains (elim o.pid_override [ none ↦ pids | some g ↦ map (Pid.set_gains g) pids ])
        o.pid_overrides

  -- Heating towards a target that an operator set.
  unfoldable pub follow_target : W → W → W → PidController W → Channel W
  follow_target target measured dt pid =
      let (next, duty) = Pid.update pid target measured dt in
      record { pid = next; heating = lt nought duty; target = some target; duty = duty }

  -- Heating towards the floor, with its hysteresis.
  unfoldable pub hold_floor : W → W → W → PidController W → Bool → Channel W
  hold_floor target measured dt pid heating =
      let (next, duty) = Pid.update pid target measured dt in
      let on : Channel W = record {
        pid = next;
        heating = true;
        target = some target;
        duty = duty;
      } in
      let off : Channel W = record {
        pid = pid;
        heating = false;
        target = some target;
        duty = nought;
      } in
      if heating
      then (if le target measured then record off { pid = Pid.reset pid } else on)
      else if lt measured (sub target floor_hysteresis_c)
      then on
      else off

  -- The body of the control loop at index `i`.
  unfoldable pub control : ThermalConfig W → Call W → ℕ → PidController W → Bool → Channel W
  control c k i pid heating =
      let o = k.overrides in
      let off : Channel W = record { pid = pid; heating = false; target = none; duty = nought } in
      let measured = measured_at c k.sensors i in
      if not (temp_valid_for c k.sensors i)
      then record off { pid = Pid.reset pid }
      else elim (value_at o.temp_targets_c i) [
        | some target ↦ follow_target target measured k.dt pid
        | none ↦
            if not o.floor_control_enabled || not (should_heat_phase k.phase)
            then off
            else hold_floor c.sample_floor_c measured k.dt pid heating
      ]

  -- The control loop from index `i` on: it ends with the controllers or with the heaters.
  unfoldable pub control_from :
      ThermalConfig W → Call W → ℕ → List (PidController W) → List Bool → Channels W
  control_from c k i pids [] = record { pids = pids; heating = []; targets = []; duties = [] }
  control_from c k i [] (h ∷ hs) = record {
    pids = [];
    heating = h ∷ hs;
    targets = map (λ v. none) (h ∷ hs);
    duties = map (λ v. nought) (h ∷ hs);
  }
  control_from c k i (p ∷ ps) (h ∷ hs) = put (control c k i p h) (control_from c k (i + 1) ps hs)

  -- The loop over `heater_duty_overrides`.
  abbrev pub override_duties : List W → List (Option W) → List W
  override_duties [] os = []
  override_duties (v ∷ vs) [] = v ∷ vs
  override_duties (v ∷ vs) (none ∷ os) = v ∷ override_duties vs os
  override_duties (v ∷ vs) (some x ∷ os) = clamp x nought one ∷ override_duties vs os

  -- The overrides for all heaters, for one and for each.
  unfoldable pub direct_overrides : ControlOverrides W → List W → List W
  direct_overrides o duties =
      let filled : List W = elim o.all_heaters_override [
        | none ↦ duties
        | some v ↦ map (λ old. clamp v nought one) duties
      ] in
      let single : List W = elim o.single_heater_override [
        | none ↦ filled
        | some v ↦ set filled v.0 (clamp v.1 nought one)
      ] in
      override_duties single o.heater_duty_overrides

  -- The loop at the end, from index `i` on: the latch, the feedback and the ceiling.
  unfoldable pub enforce :
      ThermalConfig W → SensorSnapshot W → Bool → ℕ → List Bool → List W → List W
  enforce c sensors bench i latched [] = []
  enforce c sensors bench i [] (v ∷ vs) = v ∷ vs
  enforce c sensors bench i (l ∷ ls) (v ∷ vs) =
      min_of (if not (temp_valid_for c sensors i) && not bench || l then nought else v) c.max_duty
      ∷ enforce c sensors bench (i + 1) ls vs
