-- ===== src/StepperChannel/Interlock.antt =====
-- The interlock of a channel of onboard/src/stepper_channel.cpp with the motion lock, over its ticks and
-- the rounds of its pulse thread.
use coatheal_flight_software.Prelude.{
  ℕ, zero, suc, min, Bool, true, false, not, ◌&&◌, ◌||◌, none, some, ◌≡◌, arith, if◌then◌else◌,
  if_both, if_cases, option_both,
}
use coatheal_flight_software.Prelude.Int.{ℤ, pos, ◌==ℤ◌, ltb_ℤ}
use coatheal_flight_software.Double.{Double, nought}
use coatheal_flight_software.MotionLock.{nobody}
use coatheal_flight_software.StepperDriver.{StepperDriver}
use coatheal_flight_software.StepperChannel.{
  Channel, holding, is_idle, is_holding, abort_move_for_step_loss, update_ramp_speed,
}
use coatheal_flight_software.StepperChannel.Pulses.{
  absorb_driver_step_loss, refuse_step, pulse, pulses, confirm_leg, issue_pulses, report_step_rate,
  remaining, stepped_position,
}
use coatheal_flight_software.StepperChannel.Tick.{
  retry_driver, check_driver, shut_down, hold_tick, finish_leg, move_tick, motion_tick, tick,
  pulse_round, overheated,
}

abbrev pub implies : Bool → Bool → Bool
implies a b = not a || b

-- What no call of the channel changes: its id, whether it has a lock, and the holder of the lock
-- (before the call) as long as that is another motor.
pub record Frame : Type 0 where
  pub id : ℤ
  pub has_lock : Bool
  pub holder : ℤ

-- The holder is a motor other than `id`.
abbrev pub is_foreign : Frame → Bool
is_foreign f = not (f.holder ==ℤ nobody) && not (f.holder ==ℤ f.id)

module _ {D W : Type 0} where
  abbrev pub has_lock : Channel D W → Bool
  has_lock c = elim c.lock [ none ↦ false | some l ↦ true ]

  -- The lock names the motor.
  abbrev pub is_holder : ℤ → Channel D W → Bool
  is_holder motor c = elim c.lock [ none ↦ false | some l ↦ l.holder ==ℤ motor ]

  pub record IsInterlocked (f : Frame) (c : Channel D W) : Type 0 where
    pub locked_ok : implies (not (is_idle c.mode)) (not (has_lock c) || c.lock_held) ≡ true
    pub held_ok : implies c.lock_held (is_holder f.id c) ≡ true
    pub foreign_ok : implies (is_foreign f) (not (has_lock c) || is_holder f.holder c) ≡ true
    pub id_ok : c.cfg.channel_id ≡ f.id
    pub has_ok : has_lock c ≡ f.has_lock
    pub motor_ok : f.id ==ℤ nobody ≡ false

module _ {D W : Type 0} (f : Frame) where
  -- Of a channel with a result.
  abbrev pub Keeps : {B : Type 0} → Channel D W × B → Type 0
  Keeps r = IsInterlocked f r.0

  abbrev KeepsPulse : Channel D W × Bool × Bool → Type 0
  KeepsPulse r = IsInterlocked f r.0

module _ {D W : Type 0} ⦃d : Double W⦄ {f : Frame} where
  abort-IsInterlocked :
      (c : Channel D W) → IsInterlocked f c → IsInterlocked f (abort_move_for_step_loss c)
  unfolding abort_move_for_step_loss
  abort-IsInterlocked c i = ground arith

  update_ramp_speed-IsInterlocked :
      (dt : W) (n : ℤ) (c : Channel D W)
      → IsInterlocked f c
      → IsInterlocked f (update_ramp_speed dt n c)
  unfolding update_ramp_speed
  update_ramp_speed-IsInterlocked dt n c i = ground arith

module _ {D W : Type 0} ⦃d : Double W⦄ (v : StepperDriver D W) {f : Frame} where
  absorb-IsInterlocked :
      (c : Channel D W) → IsInterlocked f c → IsInterlocked f (absorb_driver_step_loss v c).0
  unfolding absorb_driver_step_loss
  absorb-IsInterlocked c i = ground arith

  finish_leg-IsInterlocked :
      (c : Channel D W) → IsInterlocked f c → IsInterlocked f (finish_leg v c)
  unfolding finish_leg
  finish_leg-IsInterlocked c i = ground arith

  refuse_step-IsInterlocked :
      (n : ℕ) (drv : D) (c : Channel D W)
      → IsInterlocked f c
      → IsInterlocked f (refuse_step v n drv c)
  unfolding refuse_step
  refuse_step-IsInterlocked n drv c i = ground arith

  hold_tick-IsInterlocked :
      (dt : W) (c : Channel D W)
      → c.mode ≡ holding
      → IsInterlocked f c
      → IsInterlocked f (hold_tick v dt c)
  unfolding hold_tick
  hold_tick-IsInterlocked dt c h i = ground arith

  pulse-IsInterlocked :
      (forward : Bool) (c : Channel D W) → IsInterlocked f c → IsInterlocked f (pulse v forward c).0
  unfolding pulse
  pulse-IsInterlocked forward c i = option_both (KeepsPulse f) c.driver i λ drv.
      let (stepped, drv₁) = v.step forward drv in
      let (c₁, stop) = absorb_driver_step_loss v (record c { driver = some drv₁ }) in
      let i₁ = absorb-IsInterlocked (record c { driver = some drv₁ }) (ground arith) in
      let c₂ =
        if stepped then record c₁ { position = stepped_position forward c₁.position } else c₁ in
      let i₂ : IsInterlocked f c₂ = ground (arith, i₁) in
      if_both (KeepsPulse f) stop (abort-IsInterlocked c₂ i₂) (
        if_both (KeepsPulse f) stepped i₂ (
          option_both (KeepsPulse f) c₂.driver i₂
            (λ drv₂. refuse_step-IsInterlocked c.step_loss_events drv₂ c₂ i₂)))

  pulses-IsInterlocked :
      (n : ℕ) (forward : Bool) (c : Channel D W)
      → IsInterlocked f c
      → IsInterlocked f (pulses v n forward c).0
  unfolding pulses
  pulses-IsInterlocked zero forward c i = i
  pulses-IsInterlocked (suc n) forward c i =
      let i₁ = pulse-IsInterlocked forward c i in
      ground (arith, i₁, pulses-IsInterlocked n forward (pulse v forward c).0 i₁)

  confirm_leg-IsInterlocked :
      (n : ℕ) (c : Channel D W) → IsInterlocked f c → IsInterlocked f (confirm_leg v n c)
  unfolding confirm_leg
  confirm_leg-IsInterlocked n c i =
      if_both (IsInterlocked f) _
        (option_both (IsInterlocked f) c.driver i λ drv.
          absorb-IsInterlocked (record c { driver = some (v.confirm_target drv) }) (ground arith))
        i

  issue_pulses-IsInterlocked :
      (n : ℕ) (c : Channel D W) → IsInterlocked f c → IsInterlocked f (issue_pulses v n c).0
  unfolding issue_pulses
  issue_pulses-IsInterlocked n c i =
      let many = min n (remaining c) in
      let forward = ltb_ℤ c.position c.target in
      let run = pulses v many forward c in
      ground (arith, confirm_leg-IsInterlocked run.1 run.0 (pulses-IsInterlocked many forward c i))

  report-IsInterlocked :
      (c : Channel D W) → IsInterlocked f c → IsInterlocked f (report_step_rate v c)
  unfolding report_step_rate
  report-IsInterlocked c i = ground arith

  retry_driver-IsInterlocked :
      (now : ℕ) (drv : D) (c : Channel D W)
      → is_idle c.mode ≡ true
      → IsInterlocked f c
      → IsInterlocked f (retry_driver v now drv c)
  unfolding retry_driver
  retry_driver-IsInterlocked now drv c h i =
      let (answers, drv₁) = v.active_check drv in
      let drv₂ = if answers then v.set_microstep c.microstep drv₁ else drv₁ in
      let (on, drv₃) = v.enable true drv₂ in
      let c₁ : Channel D W =
        if answers && c.enabled
        then record c { driver = some drv₃; enabled = on; last_driver_retry = now }
        else record c { driver = some drv₂; last_driver_retry = now } in
      let i₁ : IsInterlocked f c₁ =
        if_both (IsInterlocked f) (answers && c.enabled) (ground arith) (ground arith) in
      if_both (IsInterlocked f) _ (absorb-IsInterlocked c₁ i₁) i

  check_driver-IsInterlocked :
      (now : ℕ) (c : Channel D W) → IsInterlocked f c → IsInterlocked f (check_driver v now c).0
  unfolding check_driver
  check_driver-IsInterlocked now c i = option_both (Keeps f {B = Bool}) c.driver i λ drv.
      let polled : Channel D W = record c {
        driver = some (v.poll (v.note_step_rate nought false drv));
      } in
      let (c₁, stop) = absorb_driver_step_loss v polled in
      let i₁ = absorb-IsInterlocked polled (ground arith) in
      let retry = λ (h : not (v.healthy drv) && is_idle c.mode ≡ true).
        retry_driver-IsInterlocked now drv c (ground arith) i in
      if_cases (Keeps f {B = Bool}) _ retry λ _.
        if_both (Keeps f {B = Bool}) _
          (if_both (Keeps f {B = Bool}) (stop && is_holding c₁.mode) (abort-IsInterlocked c₁ i₁) i₁)
          i

  shut_down-IsInterlocked :
      (drv : D) (c : Channel D W) → IsInterlocked f c → IsInterlocked f (shut_down v drv c)
  unfolding shut_down
  shut_down-IsInterlocked drv c i = ground arith

  fraction-IsInterlocked :
      (x : W) (c : Channel D W)
      → IsInterlocked f c
      → IsInterlocked f (record c { fractional_steps = x })
  fraction-IsInterlocked x c i = ground arith

  started-IsInterlocked :
      (c : Channel D W) → IsInterlocked f c → IsInterlocked f (record c { is_moving = true })
  started-IsInterlocked c i = ground arith

  move_tick-IsInterlocked :
      (dt : W) (c : Channel D W) → IsInterlocked f c → IsInterlocked f (move_tick v dt c)
  unfolding move_tick
  move_tick-IsInterlocked dt c i =
      let i₁ =
        report-IsInterlocked _ (update_ramp_speed-IsInterlocked dt (pos (remaining c)) c i) in
      let i₃ = issue_pulses-IsInterlocked _ _ (fraction-IsInterlocked _ _ i₁) in
      if_both (IsInterlocked f) _ (finish_leg-IsInterlocked _ (fraction-IsInterlocked _ _ i₃))
        (started-IsInterlocked _ i₃)

  motion_tick-IsInterlocked :
      (dt : W) (c : Channel D W) → IsInterlocked f c → IsInterlocked f (motion_tick v dt c)
  unfolding motion_tick
  motion_tick-IsInterlocked dt c i = ground (
    arith,
    hold_tick-IsInterlocked dt c,
    finish_leg-IsInterlocked c i,
    move_tick-IsInterlocked dt c i,
  )

  pub tick-IsInterlocked :
      (now : ℕ) (dt : W) (c : Channel D W) → IsInterlocked f c → IsInterlocked f (tick v now dt c)
  unfolding tick
  tick-IsInterlocked now dt c i =
      let c₁ = (check_driver v now c).0 in
      let i₁ = check_driver-IsInterlocked now c i in
      if_both (IsInterlocked f) (d.le dt nought) i (
        if_both (IsInterlocked f) _ i₁ (
          option_both (IsInterlocked f) (overheated v c₁) (motion_tick-IsInterlocked dt c₁ i₁)
            (λ drv. shut_down-IsInterlocked drv c₁ i₁)))

  pub pulse_round-IsInterlocked :
      (dt : W) (c : Channel D W) → IsInterlocked f c → IsInterlocked f (pulse_round v dt c)
  unfolding pulse_round
  pulse_round-IsInterlocked dt c i =
      let ramped = λ (t : W). update_ramp_speed-IsInterlocked t (pos (remaining c)) c i in
      if_both (IsInterlocked f) _
        (if_both (IsInterlocked f) _ (ramped _)
          (issue_pulses-IsInterlocked 1 _ (report-IsInterlocked _ (ramped _))))
        i
