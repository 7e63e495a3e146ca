-- ===== src/StepperChannel/Pull.antt =====
-- The pull cycle of onboard/src/stepper_channel.cpp. `none` is success, `some` the error text.
-- `ArmPullCycle` drops the channel's mutex after its look at `enabled_`, takes the motion lock without
-- the mutex, and takes the mutex again. `arm_pull_cycle` is that in a row, as one thread runs it.
-- `acquire_pull` and `arm_acquired` are its two steps where other calls come in between.
use coatheal_flight_software.Prelude.{
  ℕ, zero, suc, Bool, true, false, not, Option, none, some, String, ltb, ◌&&◌, if◌then◌else◌,
}
use coatheal_flight_software.Prelude.Int.{pos, abs, ◌==ℤ◌, ◌*ℤ◌}
use coatheal_flight_software.Double.{Double}
use coatheal_flight_software.MotionLock.{try_acquire}
use coatheal_flight_software.StepperDriver.{StepperDriver}
use coatheal_flight_software.StepperChannel.{
  Channel, moving, holding, is_idle, release_lock_if_held,
}
use coatheal_flight_software.StepperChannel.Tick.{tick}

module _ {D W : Type 0} ⦃d : Double W⦄ where
  open d use {of_int, lt, le, mul, div, is_finite, llround}

  -- `ArmPullCycle`, after the lock is taken.
  unfoldable pub arm_locked : Channel D W → Channel D W × Option String
  unfolding release_lock_if_held
  arm_locked c =
      let travel = c.cfg.pull_travel_full_steps *ℤ c.microstep in
      let held : Bool = elim c.lock [ none ↦ false | some l ↦ true ] in
      let c₁ = record c { lock_held = held; retract_target = pos 0; retract_after_hold = true } in
      let here = c.position ==ℤ travel in
      if ltb c.cfg.max_position_steps (abs travel)
      then (release_lock_if_held c₁, some "pull target exceeds max_position_steps")
      else (
        record c₁ {
          target = travel;
          hold_remaining_s = c.cfg.pull_hold_s;
          mode = if here then holding else moving;
          is_moving = not here;
          step_hz = c.cfg.max_step_hz;
          last_source = "cmd:PULL";
        },
        none,
      )

  unfoldable pub arm_pull_cycle : Channel D W → Channel D W × Option String
  unfolding try_acquire
  arm_pull_cycle c = if not c.enabled then (c, some "channel disabled") else elim c.lock [
    | none ↦ arm_locked c
    | some l ↦
        (let (done, l') = try_acquire c.cfg.channel_id l in
          if done
          then arm_locked (record c { lock = some l' })
          else (c, some "motion lock held by another motor"))
  ]

  -- The first step of `ArmPullCycle` after its look at `enabled_`: `TryAcquire`. The flag may have
  -- changed since it was read, so nothing is known of it.
  unfoldable pub acquire_pull : Channel D W → Channel D W
  unfolding try_acquire
  acquire_pull c = elim c.lock [
    | none ↦ c
    | some l ↦ record c { lock = some (try_acquire c.cfg.channel_id l).1 }
  ]

  -- `TryAcquire` has given the motor the lock, if there is one, and `lock_held_` does not say it yet.
  abbrev pub is_acquired : Channel D W → Bool
  is_acquired c = elim c.lock [
    | none ↦ true
    | some l ↦ l.holder ==ℤ c.cfg.channel_id && not c.lock_held
  ]

  -- The second step, under the mutex: it is run only after the lock was taken.
  unfoldable pub arm_acquired : Channel D W → Channel D W
  unfolding arm_locked
  arm_acquired c = if is_acquired c then (arm_locked c).0 else c

  module _ (v : StepperDriver D W) where
    -- At most `n` ticks of `dt` seconds, until the channel is idle; `clock` gives their times.
    pub pump : ℕ → (ℕ → ℕ) → W → Channel D W → Channel D W
    pump zero clock dt c = c
    pump (suc n) clock dt c =
        let c₁ = tick v (clock n) dt c in
        let rest = pump n clock dt c₁ in if is_idle c₁.mode then c₁ else rest

    pub execute_pull_cycle : (ℕ → ℕ) → Channel D W → Channel D W × Option String
    execute_pull_cycle clock c =
        let (c₁, refused) = arm_pull_cycle c in
        elim refused [
          | some e ↦ (c₁, some e)
          | none ↦ (pump 60_000 clock (div (of_int (pos 1)) (of_int (pos 1000))) c₁, none)
        ]
