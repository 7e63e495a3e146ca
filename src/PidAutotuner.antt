-- ===== src/PidAutotuner.antt =====
-- onboard/src/pid_autotuner.cpp: `PidAutoTuner`. `W` is the type of `double` values; `most` and
-- `least` are `std::numeric_limits<double>`'s `max()` and `lowest()`. The lists of measurements hold
-- the newest first, and their sizes fit an `int`.
pub mod Cycles
pub mod Relay
mod Tests
use coatheal_flight_software.Prelude.{
  ℕ, ◌+◌, ◌^◌, String, Bool, true, false, not, ◌&&◌, List, [], ◌∷◌, if◌then◌else◌, length,
}
use coatheal_flight_software.Prelude.Int.{ℤ, pos, leb_ℤ, ltb_ℤ}
use coatheal_flight_software.Double.{Double, nought, min_of, max_of}

pub data State : Type 0 where
  idle running done failed : State

pub record Config (W : Type 0) : Type 0 where
  pub setpoint_c : W
  pub relay_duty : W
  pub hysteresis_c : W
  pub cycles : ℤ
  pub timeout_s : W
  pub abort_ceiling_c : W

pub record Result (W : Type 0) : Type 0 where
  pub ku : W
  pub tu_s : W
  pub amplitude_c : W
  pub cycles_used : ℕ
  pub kp : W
  pub ki : W
  pub kd : W
  pub zn_kp : W
  pub zn_ki : W
  pub zn_kd : W

pub record PidAutotuner (W : Type 0) : Type 0 where
  pub state : State
  pub cfg : Config W
  pub result : Result W
  pub error : String
  pub start_s : W
  pub relay_on : Bool
  pub first_on_phase : Bool
  pub have_on_switch : Bool
  pub last_on_switch_s : W
  pub trough_c : W
  pub peak_c : W
  pub peaks_c : List W
  pub troughs_c : List W
  pub periods_s : List W

unfoldable pub is_running : State → Bool
is_running running = true
is_running idle = false
is_running done = false
is_running failed = false

-- `state == State::kRunning`.
abbrev pub is_active : {W : Type 0} → PidAutotuner W → Bool
is_active t = is_running t.state

-- `std::max(1, cfg_.cycles)`.
abbrev pub need : {W : Type 0} → Config W → ℤ
need c = if ltb_ℤ (pos 1) c.cycles then c.cycles else pos 1

abbrev pub fail : {W : Type 0} → String → PidAutotuner W → PidAutotuner W
fail reason t = record t { state = failed; error = reason }

unfoldable pub abort : {W : Type 0} → String → PidAutotuner W → PidAutotuner W
abort reason t = if is_active t then fail reason t else t

module _ {W : Type 0} ⦃d : Double W⦄ where
  open d use {of_int, lt, le, add, sub, mul, div}

  -- The quotient of two literals, for a literal with a decimal point.
  abbrev pub ratio : ℕ → ℕ → W
  ratio a b = div (of_int (pos a)) (of_int (pos b))

  abbrev pub k_pi : W
  k_pi = ratio 314_159_265_358_979_323_846 (10 ^ 20)

  -- `std::accumulate` from 0.0, the newest last.
  abbrev pub sum : List W → W
  sum [] = nought
  sum (x ∷ xs) = add (sum xs) x

  abbrev pub mean : List W → W
  mean [] = nought
  mean (x ∷ xs) = div (sum (x ∷ xs)) (of_int (pos (length (x ∷ xs))))

  abbrev pub no_result : Result W
  no_result = record {
    ku = nought;
    tu_s = nought;
    amplitude_c = nought;
    cycles_used = 0;
    kp = nought;
    ki = nought;
    kd = nought;
    zn_kp = nought;
    zn_ki = nought;
    zn_kd = nought;
  }

  unfoldable pub results : W → W → W → ℕ → Result W
  results relay_duty amplitude tu used =
      let swing = div relay_duty (of_int (pos 2)) in
      let ku = div (mul (of_int (pos 4)) swing) (mul k_pi amplitude) in
      let kp = div ku (ratio 32 10) in
      let zn_kp = mul (ratio 6 10) ku in
      record {
        ku = ku;
        tu_s = tu;
        amplitude_c = amplitude;
        cycles_used = used;
        kp = kp;
        ki = div kp (mul (ratio 22 10) tu);
        kd = mul kp (div tu (ratio 63 10));
        zn_kp = zn_kp;
        zn_ki = div zn_kp (div tu (of_int (pos 2)));
        zn_kd = mul zn_kp (div tu (of_int (pos 8)));
      }

  unfoldable pub finish : PidAutotuner W → PidAutotuner W
  finish t =
      let amplitude = div (sub (mean t.peaks_c) (mean t.troughs_c)) (of_int (pos 2)) in
      let tu = mean t.periods_s in
      if lt amplitude (ratio 5 100)
      then fail "oscillation amplitude too small to measure (< 0.05 C)" t
      else if lt tu (of_int (pos 5))
      then fail "oscillation period too short for the control rate" t
      else record t {
        result = results t.cfg.relay_duty amplitude tu (length t.periods_s);
        state = done;
      }

  -- The relay switches off.
  unfoldable pub switch_off : PidAutotuner W → W → PidAutotuner W
  switch_off t temp = record t {
    troughs_c = if t.first_on_phase then t.troughs_c else t.trough_c ∷ t.troughs_c;
    first_on_phase = false;
    relay_on = false;
    peak_c = temp;
  }

  -- The relay switches on: a period ends.
  unfoldable pub switch_on : PidAutotuner W → W → W → PidAutotuner W
  switch_on t temp now = record t {
    peaks_c = t.peak_c ∷ t.peaks_c;
    periods_s = if t.have_on_switch then sub now t.last_on_switch_s ∷ t.periods_s else t.periods_s;
    have_on_switch = true;
    last_on_switch_s = now;
    relay_on = true;
    trough_c = temp;
  }

  -- There are as many periods, troughs and peaks as it takes.
  abbrev pub has_enough : PidAutotuner W → Bool
  has_enough t =
      leb_ℤ (need t.cfg) (pos (length t.periods_s))
      && leb_ℤ (need t.cfg) (pos (length t.troughs_c))
      && leb_ℤ (need t.cfg) (pos (length t.peaks_c))

  abbrev pub relay_duty : PidAutotuner W → W
  relay_duty t = if t.relay_on then t.cfg.relay_duty else nought

  -- A tick of a tune whose input is in order.
  unfoldable pub advance : PidAutotuner W → W → W → PidAutotuner W × W
  advance t temp now =
      let on : PidAutotuner W = record t { trough_c = min_of t.trough_c temp } in
      let off : PidAutotuner W = record t { peak_c = max_of t.peak_c temp } in
      let switched = switch_off on temp in
      let closed = switch_on off temp now in
      if t.relay_on
      then if le (add t.cfg.setpoint_c t.cfg.hysteresis_c) temp
        then (switched, relay_duty switched)
        else (on, relay_duty on)
      else if le temp (sub t.cfg.setpoint_c t.cfg.hysteresis_c)
      then if has_enough closed then (finish closed, nought) else (closed, relay_duty closed)
      else (off, relay_duty off)

  unfoldable pub tick : PidAutotuner W → Bool → W → W → PidAutotuner W × W
  tick t temp_valid temp now =
      if not (is_active t)
      then (t, nought)
      else if not temp_valid
      then (fail "temperature reading became invalid" t, nought)
      else if le t.cfg.abort_ceiling_c temp
      then (fail "temperature exceeded the tune ceiling" t, nought)
      else if lt t.cfg.timeout_s (sub now t.start_s)
      then (fail "timed out before the oscillation settled" t, nought)
      else advance t temp now

  -- `most` and `least` are `max()` and `lowest()` of `std::numeric_limits<double>`.
  module _ (most least : W) where
    unfoldable pub start : Config W → W → PidAutotuner W → PidAutotuner W
    start cfg now t = record t {
      cfg = cfg;
      result = no_result;
      error = "";
      start_s = now;
      relay_on = true;
      first_on_phase = true;
      have_on_switch = false;
      last_on_switch_s = nought;
      trough_c = most;
      peak_c = least;
      peaks_c = [];
      troughs_c = [];
      periods_s = [];
      state = running;
    }
