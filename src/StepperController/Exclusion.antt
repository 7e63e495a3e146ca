-- ===== src/StepperController/Exclusion.antt =====
-- The lock of onboard/src/stepper_controller.cpp keeps the motors apart.
use coatheal_flight_software.Prelude.{
  ℕ, true, false, Option, none, some, List, [], ◌∷◌, ◌≡◌, refl, ap, ap₂, subst, map, All, if_both,
  if_cases, arith, Bool-cases, inl, inr,
}
use coatheal_flight_software.Prelude.Int.{ℤ, ◌==ℤ◌, ==ℤ_sound}
use coatheal_flight_software.Double.{Double}
use coatheal_flight_software.MotionLock.{MotionLock, nobody}
use coatheal_flight_software.StepperDriver.{StepperDriver}
use coatheal_flight_software.StepperChannel.{Channel}
use coatheal_flight_software.StepperChannel.Calls.{Call, ticks}
use coatheal_flight_software.StepperChannel.Interlock.{Frame, is_foreign, implies, IsInterlocked}
use coatheal_flight_software.StepperChannel.Reached.{serve-IsInterlocked}
use coatheal_flight_software.StepperController.{seen, lock_after, apply, dispatch, tick_all}

abbrev pub frame : ℤ → MotionLock → Frame
frame id l = record { id = id; has_lock = true; holder = l.holder }

-- The new lock has the same holder as the old one, if that was a motor other than `id`.
abbrev pub Respects : ℤ → MotionLock → MotionLock → Type 0
Respects id l l' = implies (is_foreign (frame id l)) (l'.holder ==ℤ l.holder) ≡ true

abbrev pub IsApart : ℤ → List ℤ → Type 0
IsApart id = All (λ other. other ==ℤ id ≡ false)

-- No two ids are the same.
abbrev pub IsDistinct : List ℤ → Type 0
IsDistinct [] = Unit
IsDistinct (id ∷ others) = IsApart id others × IsDistinct others

spared_by :
    (id other : ℤ) (l l' : MotionLock)
    → Respects id l l'
    → other ==ℤ nobody ≡ false
    → l.holder ≡ other
    → id ==ℤ other ≡ false
    → l'.holder ≡ other
spared_by id other l l' r n e a = ==ℤ_sound l'.holder other (ground arith)

module _ {D W : Type 0} where
  -- The channel is interlocked when it looks at the shared lock.
  abbrev pub IsSafe : MotionLock → Channel D W → Type 0
  IsSafe l c = IsInterlocked (frame c.cfg.channel_id l) (seen l c)

  abbrev pub ids : List (Channel D W) → List ℤ
  ids = map λ c. c.cfg.channel_id

  IsSafe-self :
      (id : ℤ) (l : MotionLock) (c : Channel D W)
      → IsInterlocked (frame id l) c
      → (c.cfg.channel_id ≡ id) × IsSafe (lock_after l c) c × Respects id l (lock_after l c)
  IsSafe-self id l c i = ground arith

  IsSafe-other :
      (id : ℤ) (l l' : MotionLock) (c : Channel D W)
      → IsSafe l c
      → c.cfg.channel_id ==ℤ id ≡ false
      → Respects id l l'
      → IsSafe l' c
  IsSafe-other id l l' c i a r = ground arith

  All-IsSafe-other :
      (id : ℤ) (l l' : MotionLock) (cs : List (Channel D W))
      → All (IsSafe l) cs
      → IsApart id (ids cs)
      → Respects id l l'
      → All (IsSafe l') cs
  All-IsSafe-other id l l' [] i a r = tt
  All-IsSafe-other id l l' (c ∷ cs) i a r =
      (IsSafe-other id l l' c i.0 a.0 r, All-IsSafe-other id l l' cs i.1 a.1 r)

  -- What a call leaves: the channels safe, the ids as they were.
  abbrev pub Done :
      ℤ → MotionLock → List (Channel D W) → Option (MotionLock × List (Channel D W)) → Type 0
  Done id l cs none = Unit
  Done id l cs (some (l', cs')) = All (IsSafe l') cs' × Respects id l l' × (ids cs' ≡ ids cs)

  -- The holder is as it was, if it was a motor that none of the channels drives.
  abbrev pub Spares : MotionLock → MotionLock → List (Channel D W) → Type 0
  Spares l l' cs =
      (id : ℤ) → id ==ℤ nobody ≡ false → l.holder ≡ id → IsApart id (ids cs) → l'.holder ≡ id

module _ {D W : Type 0} ⦃d : Double W⦄ (v : StepperDriver D W) where
  apply-IsInterlocked :
      (k : Call W) (l : MotionLock) (c : Channel D W)
      → IsSafe l c
      → IsInterlocked (frame c.cfg.channel_id l) (apply v k l c)
  unfolding apply
  apply-IsInterlocked k l c i =
      if_both (IsInterlocked (frame c.cfg.channel_id l)) _ (serve-IsInterlocked v k (seen l c) i) i

  dispatch_miss :
      (id : ℤ) (l : MotionLock) (c : Channel D W) (cs : List (Channel D W))
      → IsSafe l c
      → c.cfg.channel_id ==ℤ id ≡ false
      → (r : Option (MotionLock × List (Channel D W))) → Done id l cs r
      → Done id l (c ∷ cs) (elim r [ none ↦ none | some (l', cs') ↦ some (l', c ∷ cs') ])
  dispatch_miss id l c cs i miss none h = tt
  dispatch_miss id l c cs i miss (some (l', cs')) h =
      ((IsSafe-other id l l' c i miss h.1, h.0), h.1, ap (λ js. c.cfg.channel_id ∷ js) h.2)

  IsSafe-spared :
      (l l' : MotionLock) (c : Channel D W) (cs : List (Channel D W))
      → IsSafe l c
      → IsApart c.cfg.channel_id (ids cs)
      → Spares l l' cs
      → IsSafe l' c
  IsSafe-spared l l' c cs i a spares = elim (Bool-cases c.lock_held) [
    | inl held ↦
        let was : l.holder ≡ c.cfg.channel_id =
          ==ℤ_sound l.holder c.cfg.channel_id (ground (arith, i.held_ok)) in
        ground (arith, spares c.cfg.channel_id i.motor_ok was a)
    | inr unheld ↦ ground arith
  ]

  pub dispatch-Done :
      (id : ℤ) (k : Call W) (l : MotionLock) (cs : List (Channel D W))
      → All (IsSafe l) cs
      → IsDistinct (ids cs)
      → Done id l cs (dispatch v id k l cs)
  unfolding dispatch
  dispatch-Done id k l [] i a = tt
  dispatch-Done id k l (c ∷ cs) i a =
      let c' = apply v k l c in
      let (id_eq, safe, respects) =
        IsSafe-self c.cfg.channel_id l c' (apply-IsInterlocked k l c i.0) in
      if_cases (Done id l (c ∷ cs)) (c.cfg.channel_id ==ℤ id)
        (λ hit.
          let e : c.cfg.channel_id ≡ id = ==ℤ_sound c.cfg.channel_id id hit in
          (
            (safe, All-IsSafe-other c.cfg.channel_id l (lock_after l c') cs i.1 a.0 respects),
            subst (λ j. Respects j l (lock_after l c')) e respects,
            ap (λ j. j ∷ ids cs) id_eq,
          ))
        (λ miss.
          dispatch_miss id l c cs i.0 miss (dispatch v id k l cs) (dispatch-Done id k l cs i.1 a.1))

  pub tick_all-Done :
      (now : ℕ) (dt : W) (l : MotionLock) (cs : List (Channel D W))
      → All (IsSafe l) cs
      → IsDistinct (ids cs)
      → let (l', cs') = tick_all v now dt l cs in
        All (IsSafe l') cs' × (ids cs' ≡ ids cs) × Spares l l' cs
  unfolding tick_all
  tick_all-Done now dt l [] i a = (tt, refl, λ id h e b. e)
  tick_all-Done now dt l (c ∷ cs) i a =
      let c' = apply v (ticks now dt) l c in
      let l₁ = lock_after l c' in
      let (id_eq, safe, respects) =
        IsSafe-self c.cfg.channel_id l c' (apply-IsInterlocked (ticks now dt) l c i.0) in
      let others = All-IsSafe-other c.cfg.channel_id l l₁ cs i.1 a.0 respects in
      let (safes, ids_eq, spares) = tick_all-Done now dt l₁ cs others a.1 in
      let l₂ = (tick_all v now dt l₁ cs).0 in
      (
        (IsSafe-spared l₁ l₂ c' cs safe (rw id_eq a.0) spares, safes),
        ap₂ (λ j js. j ∷ js) id_eq ids_eq,
        λ id h e b. spares id h (spared_by c.cfg.channel_id id l l₁ respects h e b.0) b.1,
      )
