-- ===== src/PidController/Bounds.antt =====
-- What the limits of onboard/src/pid_controller.cpp guarantee of its output and its integral.
use coatheal_flight_software.Prelude.{◌≡◌, true, false, List, [], ◌∷◌, arith}
use coatheal_flight_software.Double.{Double, IsTotal, clamp}
use coatheal_flight_software.PidController.{PidController, update, safe_dt}

-- `lo <= v && v <= hi`: a NaN is not between any bounds.
pub record IsBetween {W : Type 0} ⦃d : Double W⦄ (lo hi v : W) : Type 0 where
  pub above : d.le lo v ≡ true
  pub below : d.le v hi ≡ true

-- `!(v < lo) && !(hi < v)`, which `std::clamp` guarantees. A NaN satisfies it.
pub record IsClamped {W : Type 0} ⦃d : Double W⦄ (lo hi v : W) : Type 0 where
  pub above : d.lt v lo ≡ false
  pub below : d.lt hi v ≡ false

pub clamped-IsBetween :
    {W : Type 0} ⦃d : Double W⦄ → IsTotal d → (lo hi v : W) → IsClamped lo hi v → IsBetween lo hi v
clamped-IsBetween n lo hi v c = record {
  above = n.le_unless v lo c.above;
  below = n.le_unless hi v c.below;
}

module _ {W : Type 0} ⦃d : Double W⦄ where
  open d use {lt, sub}

  pub clamp-IsClamped :
      (lo hi v : W)
      → lt hi lo ≡ false
      → lt lo lo ≡ false
      → lt hi hi ≡ false
      → IsClamped lo hi (clamp v lo hi)
  clamp-IsClamped lo hi v h a b = record { above = ground arith; below = ground arith }

  -- The limits are in order, and the integral is within its own.
  pub record IsLimited (s : PidController W) : Type 0 where
    pub output_order : lt s.output_max s.output_min ≡ false
    pub output_low : lt s.output_min s.output_min ≡ false
    pub output_high : lt s.output_max s.output_max ≡ false
    pub integral_order : lt s.integral_max s.integral_min ≡ false
    pub integral_low : lt s.integral_min s.integral_min ≡ false
    pub integral_high : lt s.integral_max s.integral_max ≡ false
    pub integral_between : IsClamped s.integral_min s.integral_max s.integral

  unfoldable pub updates : PidController W → List (W × W × W) → PidController W
  updates s [] = s
  updates s ((setpoint, measured, dt) ∷ inputs) = updates (update s setpoint measured dt).0 inputs

  update-IsLimited :
      (s : PidController W) (setpoint measured dt : W)
      → IsLimited s
      → IsLimited (update s setpoint measured dt).0
  unfolding update
  update-IsLimited s setpoint measured dt v =
      let next = d.add s.integral (d.mul (sub setpoint measured) (safe_dt dt)) in
      let c =
        clamp-IsClamped s.integral_min s.integral_max next v.integral_order v.integral_low
          v.integral_high in
      record {
        output_order = v.output_order;
        output_low = v.output_low;
        output_high = v.output_high;
        integral_order = v.integral_order;
        integral_low = v.integral_low;
        integral_high = v.integral_high;
        integral_between = record {
          above = ground (arith, v.integral_between.above, c.above);
          below = ground (arith, v.integral_between.below, c.below);
        };
      }

  -- Where there is no NaN: over any updates of a controller whose limits are in order and whose integral
  -- is within its limits, the next output is within the output limits, and the integral is within its
  -- own before and after.
  pub updates-IsLimited :
      (s : PidController W) (inputs : List (W × W × W)) (setpoint measured dt : W)
      → IsTotal d
      → IsLimited s
      → let t = updates s inputs in
        let r = update t setpoint measured dt in
        IsBetween t.output_min t.output_max r.1
        × IsBetween t.integral_min t.integral_max t.integral
        × IsBetween t.integral_min t.integral_max r.0.integral
  unfolding updates update
  updates-IsLimited s [] setpoint measured dt n v =
      let kept = (update-IsLimited s setpoint measured dt v).integral_between in
      (
        clamped-IsBetween n _ _ _
            (clamp-IsClamped s.output_min s.output_max _ v.output_order v.output_low v.output_high),
        clamped-IsBetween n _ _ _ v.integral_between,
        clamped-IsBetween n _ _ _ kept,
      )
  updates-IsLimited s ((a, b, c) ∷ inputs) setpoint measured dt n v =
      updates-IsLimited (update s a b c).0 inputs setpoint measured dt n
        (update-IsLimited s a b c v)
