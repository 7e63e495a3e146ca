-- ===== src/StepperController.antt =====
-- onboard/src/stepper_controller.cpp: the channels and the motion lock that they share. Every call for
-- a motor looks up its channel by id and passes the call on; the channel works on the shared lock.
pub mod Exclusion
pub mod Safety
mod Tests
use coatheal_flight_software.Prelude.{
  ℕ, Bool, true, not, ◌||◌, Option, none, some, List, [], ◌∷◌, if◌then◌else◌,
}
use coatheal_flight_software.Prelude.Int.{ℤ, ◌==ℤ◌}
use coatheal_flight_software.Double.{Double}
use coatheal_flight_software.MotionLock.{MotionLock, free}
use coatheal_flight_software.StepperDriver.{StepperDriver}
use coatheal_flight_software.StepperChannel.{Channel, Config, is_holding}
use coatheal_flight_software.StepperChannel.Setup
use coatheal_flight_software.StepperChannel.Calls.{Call, ticks, zeroes, checks, serve}

pub record Controller (D W : Type 0) : Type 0 where
  pub lock : MotionLock
  pub channels : List (Channel D W)

pub data Event (W : Type 0) : Type 0 where
  commands : ℤ → Call W → Event W
  ticks_all : ℕ → W → Event W

module _ {D W : Type 0} where
  -- The channel with the shared lock in its place.
  abbrev pub seen : MotionLock → Channel D W → Channel D W
  seen l c = record c { lock = some l }

  -- The shared lock after a call of the channel.
  abbrev pub lock_after : MotionLock → Channel D W → MotionLock
  lock_after l c = elim c.lock [ none ↦ l | some l' ↦ l' ]

  -- The controller zeroes and checks a motor only if it neither moves nor holds.
  abbrev pub admits : Call W → Channel D W → Bool
  admits zeroes c = not (c.is_moving || is_holding c.mode)
  admits checks c = not (c.is_moving || is_holding c.mode)
  admits _ c = true

module _ {D W : Type 0} ⦃d : Double W⦄ (v : StepperDriver D W) where
  -- The call on a channel.
  unfoldable pub apply : Call W → MotionLock → Channel D W → Channel D W
  apply k l c = if admits k c then serve v k (seen l c) else seen l c

  -- The call of the first channel with the id; `none` is the error "unknown motor id".
  unfoldable pub dispatch :
      ℤ → Call W → MotionLock → List (Channel D W) → Option (MotionLock × List (Channel D W))
  dispatch id k l [] = none
  dispatch id k l (c ∷ cs) =
      let c' = apply k l c in
      let rest = dispatch id k l cs in
      if c.cfg.channel_id ==ℤ id
      then some (lock_after l c', c' ∷ cs)
      else elim rest [ none ↦ none | some (l', cs') ↦ some (l', c ∷ cs') ]

  -- The channels tick in turn.
  unfoldable pub tick_all :
      ℕ → W → MotionLock → List (Channel D W) → MotionLock × List (Channel D W)
  tick_all now dt l [] = (l, [])
  tick_all now dt l (c ∷ cs) =
      let c' = apply (ticks now dt) l c in
      let (l', cs') = tick_all now dt (lock_after l c') cs in (l', c' ∷ cs')

  unfoldable pub handle : Event W → Controller D W → Controller D W
  unfolding dispatch tick_all
  handle (commands id k) m = elim (dispatch id k m.lock m.channels) [
    | none ↦ m
    | some (l, cs) ↦ record { lock = l; channels = cs }
  ]
  handle (ticks_all now dt) m =
      let (l, cs) = tick_all now dt m.lock m.channels in record { lock = l; channels = cs }

  unfoldable pub run : List (Event W) → Controller D W → Controller D W
  run [] m = m
  run (e ∷ es) m = run es (handle e m)

  -- The channels of the constructor, for each configuration and driver.
  unfoldable pub build : List (Config W × Option D) → List (Channel D W)
  build [] = []
  build ((cfg, driver) ∷ rest) = Setup.init v cfg driver (some free) ∷ build rest

  unfoldable pub init : List (Config W × Option D) → Controller D W
  unfolding build
  init parts = record { lock = free; channels = build parts }
