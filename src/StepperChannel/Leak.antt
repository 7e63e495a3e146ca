-- ===== src/StepperChannel/Leak.antt =====
-- A move of onboard/src/stepper_channel.cpp to where the motor already is.
use coatheal_flight_software.Prelude.{ℕ, ◌≤◌, true, none, some, ◌≡◌, arith, List, [], ◌∷◌}
use coatheal_flight_software.Prelude.Int.{ℤ, abs, ◌==ℤ◌, ◌+ℤ◌}
use coatheal_flight_software.Double.{Double}
use coatheal_flight_software.MotionLock.{MotionLock}
use coatheal_flight_software.StepperDriver.Simulated.{Simulated, simulated}
use coatheal_flight_software.StepperChannel.{Channel, idle}
use coatheal_flight_software.StepperChannel.Pulses.{absorb_driver_step_loss}
use coatheal_flight_software.StepperChannel.Tick.{check_driver, motion_tick, tick}
use coatheal_flight_software.StepperChannel.Commands.{move_steps}

module _ {W : Type 0} ⦃d : Double W⦄ where
  -- Idle, with the lock still held.
  abbrev pub IsLeaked : MotionLock → Channel (Simulated W) W → Type 0
  IsLeaked l c = (c.mode ≡ idle) × (c.lock_held ≡ true) × (c.lock ≡ some l)

  tick-IsLeaked :
      (now : ℕ) (dt : W) (l : MotionLock) (c : Channel (Simulated W) W)
      → IsLeaked l c
      → IsLeaked l (tick simulated now dt c)
  unfolding tick check_driver absorb_driver_step_loss motion_tick simulated
  tick-IsLeaked now dt l c (m, h, e) = ground arith

  -- Ticks at the times and with the steps of the list.
  pub ticks : List (ℕ × W) → Channel (Simulated W) W → Channel (Simulated W) W
  ticks [] c = c
  ticks ((now, dt) ∷ rest) c = ticks rest (tick simulated now dt c)

  ticks-IsLeaked :
      (steps : List (ℕ × W)) (l : MotionLock) (c : Channel (Simulated W) W)
      → IsLeaked l c
      → IsLeaked l (ticks steps c)
  unfolding ticks
  ticks-IsLeaked [] l c h = h
  ticks-IsLeaked ((now, dt) ∷ rest) l c h =
      ticks-IsLeaked rest l (tick simulated now dt c) (tick-IsLeaked now dt l c h)

  move_steps-IsLeaked :
      (delta : ℤ) (l : MotionLock) (c : Channel (Simulated W) W)
      → c.enabled ≡ true
      → c.lock_held ≡ true
      → c.lock ≡ some l
      → (c.target +ℤ delta) ==ℤ c.position ≡ true
      → abs (c.target +ℤ delta) ≤ c.cfg.max_position_steps
      → ((move_steps delta c).1 ≡ none)
        × IsLeaked l (move_steps delta c).0
        × ((move_steps delta c).0.cfg.channel_id ≡ c.cfg.channel_id)
  unfolding move_steps
  move_steps-IsLeaked delta l c e h s here limit = ground arith

  -- `MoveSteps` of an enabled motor that holds the lock, to the position where it is, is accepted and
  -- leaves the motor idle with the lock held; however many ticks follow on the simulated driver, it
  -- stays so.
  pub move_steps_leak :
      (delta : ℤ) (steps : List (ℕ × W)) (l : MotionLock) (c : Channel (Simulated W) W)
      → c.enabled ≡ true
      → c.lock_held ≡ true
      → c.lock ≡ some l
      → (c.target +ℤ delta) ==ℤ c.position ≡ true
      → abs (c.target +ℤ delta) ≤ c.cfg.max_position_steps
      → ((move_steps delta c).1 ≡ none) × IsLeaked l (ticks steps (move_steps delta c).0)
  move_steps_leak delta steps l c e h s here limit =
      let (accepted, leaked, _) = move_steps-IsLeaked delta l c e h s here limit in
      (accepted, ticks-IsLeaked steps l (move_steps delta c).0 leaked)
