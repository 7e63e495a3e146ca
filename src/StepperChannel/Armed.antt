-- ===== src/StepperChannel/Armed.antt =====
-- `ArmPullCycle` of onboard/src/stepper_channel.cpp as one call and as its two steps.
use coatheal_flight_software.Prelude.{Bool, true, none, some}
use coatheal_flight_software.Prelude.Int.{◌==ℤ◌}
use coatheal_flight_software.Double.{Double}
use coatheal_flight_software.MotionLock.{nobody}
use coatheal_flight_software.StepperChannel.{Channel}

-- There is no lock, or nobody holds it.
abbrev pub is_free : {D W : Type 0} → Channel D W → Bool
is_free c = elim c.lock [ none ↦ true | some l ↦ l.holder ==ℤ nobody ]
