-- ===== src/PidController.antt =====
-- onboard/src/pid_controller.cpp: `PidController`. `W` is the type of `double` values.
pub mod Bounds
mod Tests
use coatheal_flight_software.Prelude.{Bool, true, false, not, ◌&&◌, if◌then◌else◌}
use coatheal_flight_software.Prelude.Int.{pos, negsuc}
use coatheal_flight_software.Double.{Double, nought, one, clamp}

pub record PidGains (W : Type 0) : Type 0 where
  pub kp : W
  pub ki : W
  pub kd : W

pub record PidController (W : Type 0) : Type 0 where
  pub gains : PidGains W
  pub output_min : W
  pub output_max : W
  pub integral_min : W
  pub integral_max : W
  pub integral : W
  pub prev_error : W
  pub has_prev : Bool

module _ {W : Type 0} ⦃d : Double W⦄ where
  open d use {of_int, lt, le, add, sub, mul, div}

  -- The constructor; `integral_`, `prev_error_` and `has_prev_` start as the class sets them.
  abbrev pub init : PidGains W → W → W → W → W → PidController W
  init gains output_min output_max integral_min integral_max = record {
    gains = gains;
    output_min = output_min;
    output_max = output_max;
    integral_min = integral_min;
    integral_max = integral_max;
    integral = nought;
    prev_error = nought;
    has_prev = false;
  }

  unfoldable pub set_gains : PidGains W → PidController W → PidController W
  set_gains gains s = record s { gains = gains }

  unfoldable pub reset : PidController W → PidController W
  reset s = record s { integral = nought; prev_error = nought; has_prev = false }

  -- `dt_seconds <= 1e-6 ? 1e-3 : dt_seconds`.
  abbrev pub safe_dt : W → W
  safe_dt dt = if le dt (div one (of_int (pos 1_000_000))) then div one (of_int (pos 1000)) else dt

  abbrev pub derivative : PidController W → W → W → W
  derivative s error dt = if s.has_prev then div (sub error s.prev_error) dt else nought

  -- The three terms, for an integral `i`.
  abbrev pub terms : PidGains W → W → W → W → W
  terms g error i slope = add (add (mul g.kp error) (mul g.ki i)) (mul g.kd slope)

  abbrev pub saturating_high : PidController W → W → W → Bool
  saturating_high s error tentative = lt s.output_max tentative && lt nought error

  abbrev pub saturating_low : PidController W → W → W → Bool
  saturating_low s error tentative = lt tentative s.output_min && lt error nought

  unfoldable pub update : PidController W → W → W → W → PidController W × W
  update s setpoint measured dt_seconds =
      let dt = safe_dt dt_seconds in
      let error = sub setpoint measured in
      let slope = derivative s error dt in
      let next = add s.integral (mul error dt) in
      let tentative = terms s.gains error next slope in
      let integral =
        if not (saturating_high s error tentative) && not (saturating_low s error tentative)
        then clamp next s.integral_min s.integral_max
        else s.integral in
      (
        record s { integral = integral; prev_error = error; has_prev = true },
        clamp (terms s.gains error integral slope) s.output_min s.output_max,
      )
