-- ===== src/StepperChannel/Travel.antt =====
-- What the pulse loop of onboard/src/stepper_channel.cpp does to the position.
use coatheal_flight_software.Prelude.{
  ℕ, zero, suc, ◌+◌, ◌≤◌, min, Bool, true, false, not, ◌||◌, ◌==◌, some, ◌≡◌, refl, subst, arith,
  if◌then◌else◌, if_cases, if_both, option_both,
}
use coatheal_flight_software.Prelude.Int.{ℤ, pos_part, neg_part, ◌==ℤ◌, ltb_ℤ, ◌+ℤ◌, ◌-ℤ◌}
use coatheal_flight_software.Double.{Double}
use coatheal_flight_software.StepperDriver.{StepperDriver}
use coatheal_flight_software.StepperChannel.{Channel, abort_move_for_step_loss}
use coatheal_flight_software.StepperChannel.Pulses.{
  absorb_driver_step_loss, refuse_step, pulse, pulses, confirm_leg, issue_pulses, remaining,
  stepped_position, has_driver,
}

-- `q` is `n` steps ahead of `p` in the direction.
abbrev pub IsAhead : Bool → ℕ → ℤ → ℤ → Type 0
IsAhead true n p q = pos_part q + neg_part p ≡ pos_part p + neg_part q + n
IsAhead false n p q = pos_part q + neg_part p + n ≡ pos_part p + neg_part q

IsAhead-step : (forward : Bool) (p : ℤ) → IsAhead forward 1 p (stepped_position forward p)
unfolding ◌+ℤ◌
IsAhead-step true p = ground arith
IsAhead-step false p = ground arith

IsAhead-trans :
    (forward : Bool) (m n : ℕ) (p q r : ℤ)
    → IsAhead forward m p q
    → IsAhead forward n q r
    → IsAhead forward (m + n) p r
IsAhead-trans true m n p q r a b = omega (arith, a, b)
IsAhead-trans false m n p q r a b = omega (arith, a, b)

IsAhead-refl : (forward : Bool) (p : ℤ) → IsAhead forward 0 p p
IsAhead-refl true p = omega arith
IsAhead-refl false p = omega arith

module _ {D W : Type 0} where
  -- The end of a leg may have moved: an abort makes the target the position.
  abbrev pub HasTarget : ℤ → Channel D W → Type 0
  HasTarget t c = (c.target ==ℤ t || c.target ==ℤ c.position) ≡ true

  abbrev Moves : Bool → Channel D W → Channel D W × Bool × Bool → Type 0
  Moves forward c r =
      (r.0.position ≡ (if r.1 then stepped_position forward c.position else c.position))
      × (r.2 ≡ true → r.1 ≡ true)
      × (r.2 ≡ true → r.0.target ≡ c.target)
      × HasTarget c.target r.0

  -- What `issue_pulses` promises of its result.
  abbrev pub Travels : ℕ → Channel D W → Channel D W × ℕ → Type 0
  Travels allowed c r =
      (r.1 ≤ allowed)
      × (r.1 ≤ remaining c)
      × IsAhead (ltb_ℤ c.position c.target) r.1 c.position r.0.position
      × HasTarget c.target r.0

module _ {D W : Type 0} ⦃d : Double W⦄ (v : StepperDriver D W) where
  absorb_position :
      (c : Channel D W)
      → ((absorb_driver_step_loss v c).0.position ≡ c.position)
        × ((absorb_driver_step_loss v c).0.target ≡ c.target)
  unfolding absorb_driver_step_loss
  absorb_position c = ground arith

  refuse_position :
      (n : ℕ) (drv : D) (c : Channel D W)
      → ((refuse_step v n drv c).position ≡ c.position)
        × ((refuse_step v n drv c).target ≡ c.position)
  unfolding refuse_step
  refuse_position n drv c = ground arith

  abort_position :
      (c : Channel D W)
      → ((abort_move_for_step_loss c).position ≡ c.position)
        × ((abort_move_for_step_loss c).target ≡ c.position)
  unfolding abort_move_for_step_loss
  abort_position c = ground arith

  pulse-Moves : (forward : Bool) (c : Channel D W) → Moves forward c (pulse v forward c)
  unfolding pulse
  pulse-Moves forward c = option_both (Moves forward c) c.driver (ground arith) λ drv.
      let (stepped, drv₁) = v.step forward drv in
      let (c₁, stop) = absorb_driver_step_loss v (record c { driver = some drv₁ }) in
      let (p_eq, t_eq) = absorb_position (record c { driver = some drv₁ }) in
      let c₂ =
        if stepped then record c₁ { position = stepped_position forward c₁.position } else c₁ in
      if_both (Moves forward c) stop (ground (arith, p_eq, t_eq, abort_position c₂)) (
        if_cases (Moves forward c) stepped (λ h. ground (arith, p_eq, t_eq))
          (λ h.
            option_both (Moves forward c) c₂.driver (ground (arith, p_eq, t_eq))
              (λ drv₂. ground (arith, p_eq, t_eq, refuse_position c.step_loss_events drv₂ c₂))))

  pulse-IsAhead :
      (forward : Bool) (c : Channel D W) (r : Channel D W × Bool × Bool)
      → Moves forward c r
      → IsAhead forward (if r.1 then 1 else 0) c.position r.0.position
  pulse-IsAhead forward c (c₁, true, more) m = rw m.0 (IsAhead-step forward c.position)
  pulse-IsAhead forward c (c₁, false, more) m = rw m.0 (IsAhead-refl forward c.position)

  pulses_moves :
      (n : ℕ) (forward : Bool) (c : Channel D W)
      → let r = pulses v n forward c in
        (r.1 ≤ n) × IsAhead forward r.1 c.position r.0.position × HasTarget c.target r.0
  unfolding pulses
  pulses_moves zero forward c = (omega arith, IsAhead-refl forward c.position, ground arith)
  pulses_moves (suc n) forward c =
      let r = pulse v forward c in
      let steps : ℕ = if r.1 then 1 else 0 in
      let rest = pulses v n forward r.0 in
      let m = pulse-Moves forward c in
      let ahead = pulse-IsAhead forward c r m in
      let (few, there, aim) = pulses_moves n forward r.0 in
      if_cases
        (λ (q : Channel D W × ℕ).
          (q.1 ≤ suc n) × IsAhead forward q.1 c.position q.0.position × HasTarget c.target q.0)
        r.2
        (λ more. (
          ground (arith, few),
          IsAhead-trans forward steps rest.1 c.position r.0.position rest.0.position ahead there,
          subst (λ t. HasTarget t rest.0) (m.2 more) aim,
        ))
        (λ _. (ground arith, ahead, m.3))

  confirm_position :
      (n : ℕ) (c : Channel D W)
      → ((confirm_leg v n c).position ≡ c.position) × ((confirm_leg v n c).target ≡ c.target)
  unfolding confirm_leg
  confirm_position n c =
      if_both (λ (q : Channel D W). (q.position ≡ c.position) × (q.target ≡ c.target)) _
        (option_both (λ (q : Channel D W). (q.position ≡ c.position) × (q.target ≡ c.target))
          c.driver (refl, refl)
          (λ drv. absorb_position (record c { driver = some (v.confirm_target drv) })))
        (refl, refl)

  -- `IssuePulses` moves the position towards the target by exactly the number of steps that it reports,
  -- which is at most the number allowed and at most the distance to the target, so it does not
  -- overshoot; the target stays, or becomes the position where the move ended.
  pub issue_pulses_travel :
      (allowed : ℕ) (c : Channel D W) → Travels allowed c (issue_pulses v allowed c)
  unfolding issue_pulses
  issue_pulses_travel allowed c =
      let forward = ltb_ℤ c.position c.target in
      let run = pulses v (min allowed (remaining c)) forward c in
      let (few, there, aim) = pulses_moves (min allowed (remaining c)) forward c in
      let (p_eq, t_eq) = confirm_position run.1 run.0 in
      let stays : Travels allowed c (c, 0) =
        (omega arith, omega arith, IsAhead-refl forward c.position, ground arith) in
      let goes : Travels allowed c (confirm_leg v run.1 run.0, run.1) =
        (ground (arith, few), ground (arith, few), rw p_eq there, rw (p_eq, t_eq) aim) in
      if_both (Travels allowed c) (not (has_driver c) || not c.enabled || allowed == 0) stays
        (if_both (Travels allowed c) (c.position ==ℤ c.target) stays goes)

-- What `P` says of a driver is enough for it to take a step and to ask for no stop, and goes on to hold.
pub record IsReliable {D W : Type 0} (v : StepperDriver D W) (P : D → Type 0) : Type 0 where
  pub steps : (forward : Bool) (drv : D) → P drv → (v.step forward drv).0 ≡ true
  pub steps_on : (forward : Bool) (drv : D) → P drv → P (v.step forward drv).1
  pub runs : (drv : D) → P drv → (v.take_step_loss_stop drv).0 ≡ false
  pub runs_on : (drv : D) → P drv → P (v.take_step_loss_stop drv).1

-- The channel has a driver of which `P` holds.
abbrev pub IsReady : {D W : Type 0} → (D → Type 0) → Channel D W → Type 0
IsReady {D} P c = (drv : D) × (c.driver ≡ some drv) × P drv

module _ {D W : Type 0} ⦃d : Double W⦄ (v : StepperDriver D W) (P : D → Type 0)
    (l : IsReliable v P) where
  absorb-IsReady :
      (c : Channel D W) (drv : D)
      → P drv
      → let r = absorb_driver_step_loss v (record c { driver = some drv }) in
        (r.1 ≡ false) × IsReady P r.0
  unfolding absorb_driver_step_loss
  absorb-IsReady c drv p = (l.runs drv p, ((v.take_step_loss_stop drv).1, refl, l.runs_on drv p))

  pulse-IsReady :
      (forward : Bool) (c : Channel D W)
      → IsReady P c
      → let r = pulse v forward c in (r.1 ≡ true) × (r.2 ≡ true) × IsReady P r.0
  unfolding pulse
  pulse-IsReady forward c (drv, e, p) =
      let drv₁ = (v.step forward drv).1 in
      let (runs, ready) = absorb-IsReady c drv₁ (l.steps_on forward drv p) in
      rw e (rw (l.steps forward drv p, runs) (refl, refl, ready))

  pulses_reliable :
      (n : ℕ) (forward : Bool) (c : Channel D W) → IsReady P c → (pulses v n forward c).1 ≡ n
  unfolding pulses
  pulses_reliable zero forward c h = refl
  pulses_reliable (suc n) forward c h =
      let (stepped, more, ready) = pulse-IsReady forward c h in
      ground (arith, stepped, more, pulses_reliable n forward (pulse v forward c).0 ready)

  -- With a driver that takes steps and asks for no stop in the states of `P`, which these calls do not
  -- leave, an enabled channel whose driver is in such a state takes all the steps that are allowed, up
  -- to its target.
  pub issue_pulses_all :
      (allowed : ℕ) (c : Channel D W)
      → IsReady P c
      → c.enabled ≡ true
      → (issue_pulses v allowed c).1 ≡ min allowed (remaining c)
  unfolding issue_pulses ◌-ℤ◌
  issue_pulses_all allowed c h e =
      let driven : has_driver c ≡ true = rw h.1 refl in
      ground
        (arith, driven, pulses_reliable (min allowed (remaining c)) (ltb_ℤ c.position c.target) c h)
