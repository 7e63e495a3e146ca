-- ===== src/StepperChannel/Reached.antt =====
-- The interlock of onboard/src/stepper_channel.cpp over any call.
use coatheal_flight_software.Prelude.{
  Bool, true, false, not, ◌||◌, Option, none, some, ◌≡◌, String, arith, if_both, if_cases,
  option_both,
}
use coatheal_flight_software.Prelude.Int.{ℤ, ◌==ℤ◌}
use coatheal_flight_software.Double.{Double}
use coatheal_flight_software.MotionLock.{MotionLock, try_acquire, nobody}
use coatheal_flight_software.StepperDriver.{StepperDriver}
use coatheal_flight_software.StepperChannel.{Channel, Config, is_idle, acknowledge_step_loss}
use coatheal_flight_software.StepperChannel.Setup
use coatheal_flight_software.StepperChannel.Commands.{
  usteps_per_mm, move_steps, move_to_steps, move_millimeters, move_to_millimeters, rotate, home,
  set_position_zero, stop,
}
use coatheal_flight_software.StepperChannel.Setup.{
  set_speed, set_accel, set_run_current, rescale, set_microstep, set_enabled, active_check,
}
use coatheal_flight_software.StepperChannel.Pull.{
  arm_locked, is_acquired, acquire_pull, arm_acquired,
}
use coatheal_flight_software.StepperChannel.Calls.{
  Call, ticks, pulse_rounds, moves, bends, moves_mm, bends_mm, rotates, homes, zeroes, acknowledges,
  stops, sets_speed, sets_accel, sets_current, sets_microstep, enables, checks, acquires_pull,
  arms_pull, serve,
}
use coatheal_flight_software.StepperChannel.Interlock.{
  Frame, is_foreign, implies, has_lock, is_holder, IsInterlocked, tick-IsInterlocked,
  pulse_round-IsInterlocked,
}

abbrev KeepsCommand : {D W : Type 0} → Frame → Channel D W × Option String → Type 0
KeepsCommand f r = IsInterlocked f r.0

abbrev KeepsVerdict : {D W : Type 0} → Frame → Channel D W × Bool → Type 0
KeepsVerdict f r = IsInterlocked f r.0

module _ {D W : Type 0} ⦃d : Double W⦄ {f : Frame} where
  move_steps-Keeps :
      (delta : ℤ) (c : Channel D W) → IsInterlocked f c → KeepsCommand f (move_steps delta c)
  unfolding move_steps
  move_steps-Keeps delta c i = ground arith

  move_to_steps-Keeps :
      (target : ℤ) (hold : W) (c : Channel D W)
      → IsInterlocked f c
      → KeepsCommand f (move_to_steps target hold c)
  unfolding move_to_steps
  move_to_steps-Keeps target hold c i = ground arith

  home-Keeps : (c : Channel D W) → IsInterlocked f c → KeepsCommand f (home c)
  unfolding home
  home-Keeps c i = ground arith

  set_position_zero-IsInterlocked :
      (c : Channel D W) → IsInterlocked f c → IsInterlocked f (set_position_zero c)
  unfolding set_position_zero
  set_position_zero-IsInterlocked c i = ground arith

  stop-IsInterlocked : (c : Channel D W) → IsInterlocked f c → IsInterlocked f (stop c)
  unfolding stop
  stop-IsInterlocked c i = ground arith

  arm_locked-Keeps :
      (c : Channel D W)
      → not (has_lock c) || is_holder f.id c ≡ true
      → implies (is_foreign f) (not (has_lock c) || is_holder f.holder c) ≡ true
      → c.cfg.channel_id ≡ f.id
      → has_lock c ≡ f.has_lock
      → f.id ==ℤ nobody ≡ false
      → is_idle c.mode || not (has_lock c) ≡ true
      → KeepsCommand f (arm_locked c)
  unfolding arm_locked
  arm_locked-Keeps c h o n l r m = ground arith

  acquire_pull-IsInterlocked :
      (c : Channel D W) → IsInterlocked f c → IsInterlocked f (acquire_pull c)
  unfolding acquire_pull try_acquire
  acquire_pull-IsInterlocked c i = ground arith

  arm_acquired-IsInterlocked :
      (c : Channel D W) → IsInterlocked f c → IsInterlocked f (arm_acquired c)
  unfolding arm_acquired
  arm_acquired-IsInterlocked c i =
      if_cases (IsInterlocked f) (is_acquired c)
        (λ h.
          arm_locked-Keeps c (ground arith) i.foreign_ok i.id_ok i.has_ok i.motor_ok (ground arith))
        (λ _. i)

  move_millimeters-Keeps :
      (mm : W) (c : Channel D W) → IsInterlocked f c → KeepsCommand f (move_millimeters mm c)
  unfolding move_millimeters
  move_millimeters-Keeps mm c i =
      let usteps = d.llround (d.mul mm (usteps_per_mm c)) in
      ground (arith, move_steps-Keeps usteps c i)

  move_to_millimeters-Keeps :
      (mm hold : W) (c : Channel D W)
      → IsInterlocked f c
      → KeepsCommand f (move_to_millimeters mm hold c)
  unfolding move_to_millimeters
  move_to_millimeters-Keeps mm hold c i =
      let usteps = d.llround (d.mul mm (usteps_per_mm c)) in
      ground (arith, move_to_steps-Keeps usteps hold c i)

  rotate-Keeps : (r : W) (c : Channel D W) → IsInterlocked f c → KeepsCommand f (rotate r c)
  unfolding rotate
  rotate-Keeps r c i = if_both (KeepsCommand f) _ i (move_steps-Keeps _ c i)

  set_speed-Keeps : (hz : W) (c : Channel D W) → IsInterlocked f c → KeepsCommand f (set_speed hz c)
  unfolding set_speed
  set_speed-Keeps hz c i = ground arith

  set_accel-Keeps : (a : W) (c : Channel D W) → IsInterlocked f c → KeepsCommand f (set_accel a c)
  unfolding set_accel
  set_accel-Keeps a c i = ground arith

module _ {D W : Type 0} ⦃d : Double W⦄ (v : StepperDriver D W) {f : Frame} where
  set_run_current-Keeps :
      (amps : W) (c : Channel D W) → IsInterlocked f c → KeepsCommand f (set_run_current v amps c)
  unfolding set_run_current
  set_run_current-Keeps amps c i = ground arith

  rescale-IsInterlocked :
      (n : ℤ) (c : Channel D W) → IsInterlocked f c → IsInterlocked f (rescale v n c)
  unfolding rescale
  rescale-IsInterlocked n c i = ground arith

  set_microstep-Keeps :
      (n : ℤ) (c : Channel D W) → IsInterlocked f c → KeepsCommand f (set_microstep v n c)
  unfolding set_microstep
  set_microstep-Keeps n c i = if_both (KeepsCommand f) _ i (
      option_both (KeepsCommand f) c.driver (rescale-IsInterlocked n c i) λ drv.
        let c₁ : Channel D W = record c { driver = some (v.set_microstep n drv) } in
        let i₁ : IsInterlocked f c₁ = ground arith in
        if_both (KeepsCommand f) _ (rescale-IsInterlocked n c₁ i₁) i₁)

  set_enabled-Keeps :
      (on : Bool) (c : Channel D W) → IsInterlocked f c → KeepsVerdict f (set_enabled v on c)
  unfolding set_enabled
  set_enabled-Keeps on c i = ground arith

  -- Every call, and either step of `ArmPullCycle`, keeps a channel interlocked: unless it is idle, it
  -- holds the lock, if it has one at all; and a lock that another motor holds it leaves alone.
  pub serve-IsInterlocked :
      (k : Call W) (c : Channel D W) → IsInterlocked f c → IsInterlocked f (serve v k c)
  unfolding serve
  serve-IsInterlocked (ticks now dt) c i = tick-IsInterlocked v now dt c i
  serve-IsInterlocked (pulse_rounds dt) c i = pulse_round-IsInterlocked v dt c i
  serve-IsInterlocked (moves delta) c i = move_steps-Keeps delta c i
  serve-IsInterlocked (bends target hold) c i = move_to_steps-Keeps target hold c i
  serve-IsInterlocked (moves_mm mm) c i = move_millimeters-Keeps mm c i
  serve-IsInterlocked (bends_mm mm hold) c i = move_to_millimeters-Keeps mm hold c i
  serve-IsInterlocked (rotates revolutions) c i = rotate-Keeps revolutions c i
  serve-IsInterlocked homes c i = home-Keeps c i
  serve-IsInterlocked zeroes c i = set_position_zero-IsInterlocked c i
  serve-IsInterlocked acknowledges c i = unfold acknowledge_step_loss in ground arith
  serve-IsInterlocked stops c i = stop-IsInterlocked c i
  serve-IsInterlocked (sets_speed hz) c i = set_speed-Keeps hz c i
  serve-IsInterlocked (sets_accel accel) c i = set_accel-Keeps accel c i
  serve-IsInterlocked (sets_current amps) c i = set_run_current-Keeps amps c i
  serve-IsInterlocked (sets_microstep divisor) c i = set_microstep-Keeps divisor c i
  serve-IsInterlocked (enables on) c i = set_enabled-Keeps on c i
  serve-IsInterlocked checks c i = unfold active_check in ground arith
  serve-IsInterlocked acquires_pull c i = acquire_pull-IsInterlocked c i
  serve-IsInterlocked arms_pull c i = arm_acquired-IsInterlocked c i

  -- A new channel is idle and has not acquired the lock that it is given.
  pub init-IsInterlocked :
      (cfg : Config W) (driver : Option D) (lock : Option MotionLock)
      → cfg.channel_id ≡ f.id
      → elim lock [ none ↦ false | some l ↦ true ] ≡ f.has_lock
      → f.id ==ℤ nobody ≡ false
      → elim lock [ none ↦ true | some l ↦ l.holder ==ℤ f.holder ] ≡ true
      → let c = Setup.init v cfg driver lock in
        IsInterlocked f c × (c.cfg.channel_id ≡ cfg.channel_id) × (c.lock ≡ lock)
  unfolding Setup.init
  init-IsInterlocked cfg driver lock e h n a = ground arith
