-- ===== src/PidAutotuner/Relay.antt =====
-- The relay of onboard/src/pid_autotuner.cpp: when it heats, and when a tune stops.
use coatheal_flight_software.Prelude.{◌≡◌, Bool, true, false, ◌&&◌, if◌then◌else◌, not, arith}
use coatheal_flight_software.Double.{Double, nought, max_of}
use coatheal_flight_software.PidAutotuner.{
  failed, PidAutotuner, is_active, is_running, finish, advance, tick, switch_off, switch_on,
}

module _ {W : Type 0} ⦃d : Double W⦄ where
  open d use {lt, le, add, sub}

  -- The input of a tick is in order: a valid temperature under the ceiling, in time.
  abbrev pub is_in_order : PidAutotuner W → Bool → W → W → Bool
  is_in_order t temp_valid temp now =
      temp_valid
      && not (le t.cfg.abort_ceiling_c temp)
      && not (lt t.cfg.timeout_s (sub now t.start_s))

  -- The relay after a tick: it switches at the edges of the band.
  abbrev pub relay_after : PidAutotuner W → W → Bool
  relay_after t temp =
      if t.relay_on
      then not (le (add t.cfg.setpoint_c t.cfg.hysteresis_c) temp)
      else le temp (sub t.cfg.setpoint_c t.cfg.hysteresis_c)

  finish-stopped : (t : PidAutotuner W) → is_active (finish t) ≡ false
  unfolding finish is_running
  finish-stopped t = ground arith

  -- After a tick of a running tune, the tune runs only if the input was in order; while it runs, the
  -- relay has switched at the edges of the band, and the duty is that of the relay; when it stops, the
  -- duty is 0.0.
  pub record IsRelayed (t : PidAutotuner W) (temp_valid : Bool) (temp now : W) : Type 0 where
    pub in_order :
        is_active (tick t temp_valid temp now).0 ≡ true → is_in_order t temp_valid temp now ≡ true
    pub stopped :
        is_in_order t temp_valid temp now ≡ false → (tick t temp_valid temp now).0.state ≡ failed
    pub relay :
        is_active (tick t temp_valid temp now).0 ≡ true
        → (tick t temp_valid temp now).0.relay_on ≡ relay_after t temp
    pub duty : (tick t temp_valid temp now).1 ≡ (
        if is_active (tick t temp_valid temp now).0
        then (if relay_after t temp then t.cfg.relay_duty else nought)
        else nought)

  -- A tick of a running tune: the tune goes on only with a valid temperature under the ceiling and in
  -- time, and fails otherwise; while it goes on, the relay switches at the edges of the band, and the
  -- duty is that of the relay; when it stops, the duty is 0.0.
  pub tick-IsRelayed :
      (t : PidAutotuner W) (temp_valid : Bool) (temp now : W)
      → is_active t ≡ true
      → IsRelayed t temp_valid temp now
  unfolding tick advance switch_off switch_on is_running
  tick-IsRelayed t temp_valid temp now a =
      let off : PidAutotuner W = record t { peak_c = max_of t.peak_c temp } in
      let f = finish-stopped (switch_on off temp now) in
      record {
        in_order = λ h. ground (arith, f);
        stopped = λ h. ground (arith, f);
        relay = λ h. ground (arith, f);
        duty = ground (arith, f);
      }
