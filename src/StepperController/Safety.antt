-- ===== src/StepperController/Safety.antt =====
-- What the shared lock of onboard/src/stepper_controller.cpp keeps over any events: one motor at a
-- time, and no heat while one is in motion.
use coatheal_flight_software.Prelude.{
  ℕ, true, false, Option, none, some, List, [], ◌∷◌, ◌≡◌, refl, sym, ◌∙◌, ap, ap₂, subst, All,
  arith, get_elem?, some_inj, length, replicate, zero, suc, map,
}
use coatheal_flight_software.Prelude.Int.{ℤ, ◌==ℤ◌, ==ℤ_sound}
use coatheal_flight_software.Double.{Double, nought}
use coatheal_flight_software.MotionLock.{MotionLock, nobody, free, is_active}
use coatheal_flight_software.HeaterScheduler
use coatheal_flight_software.HeaterScheduler.{HeaterScheduler, motion_active, serve}
use coatheal_flight_software.HeaterScheduler.Interlock.{serve_interlock}
use coatheal_flight_software.StepperDriver.{StepperDriver}
use coatheal_flight_software.StepperChannel.{Channel, Config, is_idle}
use coatheal_flight_software.StepperChannel.Setup
use coatheal_flight_software.StepperChannel.Interlock.{IsInterlocked}
use coatheal_flight_software.StepperChannel.Reached.{init-IsInterlocked}
use coatheal_flight_software.StepperController.{
  Controller, dispatch, Event, commands, ticks_all, handle, run, build, init,
}
use coatheal_flight_software.StepperController.Exclusion.{
  frame, IsSafe, IsApart, IsDistinct, ids, dispatch-Done, tick_all-Done, Done,
}

module _ {D W : Type 0} where
  -- Every channel is interlocked with the shared lock, and no two have the same id.
  abbrev pub IsSafeController : Controller D W → Type 0
  IsSafeController m = All (IsSafe m.lock) m.channels × IsDistinct (ids m.channels)

  abbrev cfg_ids : List (Config W × Option D) → List ℤ
  cfg_ids = map λ part. part.0.channel_id

  -- Ids that differ from each other and from -1.
  abbrev pub IsNamed : List (Config W × Option D) → Type 0
  IsNamed parts = IsDistinct (cfg_ids parts) × IsApart nobody (cfg_ids parts)

  holder_of :
      (l : MotionLock) (c : Channel D W)
      → IsSafe l c
      → is_idle c.mode ≡ false
      → l.holder ≡ c.cfg.channel_id
  holder_of l c i h = ==ℤ_sound l.holder c.cfg.channel_id (ground arith)

  holder_at :
      (l : MotionLock) (cs : List (Channel D W)) (i : ℕ) (c : Channel D W)
      → All (IsSafe l) cs
      → get_elem? cs i ≡ some c
      → is_idle c.mode ≡ false
      → (l.holder ≡ c.cfg.channel_id) × (c.cfg.channel_id ==ℤ nobody ≡ false)
  holder_at l (c₀ ∷ cs) zero c a e h =
      let e' : c₀ ≡ c = some_inj e in
      subst
        (λ c.
          is_idle c.mode ≡ false
          → (l.holder ≡ c.cfg.channel_id) × (c.cfg.channel_id ==ℤ nobody ≡ false))
        e' (λ h. (holder_of l c₀ a.0 h, a.0.motor_ok)) h
  holder_at l (c₀ ∷ cs) (suc i) c a e h = holder_at l cs i c a.1 e h
  holder_at l [] i c a e h = ground (arith, e)

  apart_at :
      (cs : List (Channel D W)) (j : ℕ) (id : ℤ) (b : Channel D W)
      → IsApart id (ids cs)
      → get_elem? cs j ≡ some b
      → b.cfg.channel_id ==ℤ id ≡ false
  apart_at [] j id b a e = ground (arith, e)
  apart_at (c ∷ cs) zero id b a e = subst (λ c. c.cfg.channel_id ==ℤ id ≡ false) (some_inj e) a.0
  apart_at (c ∷ cs) (suc j) id b a e = apart_at cs j id b a.1 e

  IsDistinct-at :
      (cs : List (Channel D W)) (i j : ℕ) (a b : Channel D W)
      → IsDistinct (ids cs)
      → get_elem? cs i ≡ some a
      → get_elem? cs j ≡ some b
      → a.cfg.channel_id ≡ b.cfg.channel_id
      → i ≡ j
  IsDistinct-at [] i j a b n ea eb e = ground (arith, ea)
  IsDistinct-at (c ∷ cs) zero zero a b n ea eb e = refl
  IsDistinct-at (c ∷ cs) zero (suc j) a b n ea eb e =
      let same = ap (λ (c : Channel D W). c.cfg.channel_id) (some_inj ea) in
      ground (arith, apart_at cs j c.cfg.channel_id b n.0 eb, same)
  IsDistinct-at (c ∷ cs) (suc i) zero a b n ea eb e =
      let same = ap (λ (c : Channel D W). c.cfg.channel_id) (some_inj eb) in
      ground (arith, apart_at cs i c.cfg.channel_id a n.0 ea, same)
  IsDistinct-at (c ∷ cs) (suc i) (suc j) a b n ea eb e =
      ap suc (IsDistinct-at cs i j a b n.1 ea eb e)

module _ {D W : Type 0} ⦃d : Double W⦄ (v : StepperDriver D W) where
  -- What `handle` makes of the outcome of `dispatch`.
  outcome-IsSafe :
      (id : ℤ) (m : Controller D W) (r : Option (MotionLock × List (Channel D W)))
      → IsSafeController m
      → Done id m.lock m.channels r
      → IsSafeController (elim r as (λ _. Controller D W) [
        | none ↦ m
        | some (l, cs) ↦ record { lock = l; channels = cs }
      ])
  outcome-IsSafe id m none s kept = s
  outcome-IsSafe id m (some (l, cs)) s kept = (kept.0, rw kept.2 s.1)

  handle-IsSafe :
      (e : Event W) (m : Controller D W) → IsSafeController m → IsSafeController (handle v e m)
  unfolding handle
  handle-IsSafe (commands id k) m s =
      outcome-IsSafe id m (dispatch v id k m.lock m.channels) s
        (dispatch-Done v id k m.lock m.channels s.0 s.1)
  handle-IsSafe (ticks_all now dt) m s =
      let (safe, ids_eq, _) = tick_all-Done v now dt m.lock m.channels s.0 s.1 in
      (safe, rw ids_eq s.1)

  run-IsSafe :
      (es : List (Event W)) (m : Controller D W)
      → IsSafeController m
      → IsSafeController (run v es m)
  unfolding run
  run-IsSafe [] m s = s
  run-IsSafe (e ∷ es) m s = run-IsSafe es (handle v e m) (handle-IsSafe e m s)

  build-IsSafe :
      (parts : List (Config W × Option D))
      → IsApart nobody (cfg_ids parts)
      → All (IsSafe free) (build v parts) × (ids (build v parts) ≡ cfg_ids parts)
  unfolding build
  build-IsSafe [] a = (tt, refl)
  build-IsSafe ((cfg, driver) ∷ parts) a =
      let made = Setup.init v cfg driver (some free) in
      let (inter, id_eq, lock_eq) =
        init-IsInterlocked v {f = frame cfg.channel_id free} cfg driver (some free) refl refl a.0
          refl in
      let safe : IsSafe free made = rw id_eq (
        subst (λ l. IsInterlocked (frame cfg.channel_id free) (record made { lock = l })) lock_eq
          inter) in
      let (safes, ids_eq) = build-IsSafe parts a.1 in
      ((safe, safes), ap₂ (λ j js. j ∷ js) id_eq ids_eq)

  init-IsSafe :
      (parts : List (Config W × Option D)) → IsNamed parts → IsSafeController (init v parts)
  unfolding init
  init-IsSafe parts n = let (safes, ids_eq) = build-IsSafe parts n.1 in (safes, rw ids_eq n.0)

  -- The id of a channel that is not idle names the holder, in any state that the controller reaches.
  reached :
      (parts : List (Config W × Option D)) (es : List (Event W)) (i : ℕ) (c : Channel D W)
      → IsNamed parts
      → get_elem? (run v es (init v parts)).channels i ≡ some c
      → is_idle c.mode ≡ false
      → ((run v es (init v parts)).lock.holder ≡ c.cfg.channel_id)
        × (c.cfg.channel_id ==ℤ nobody ≡ false)
  reached parts es i c n e h =
      let m = run v es (init v parts) in
      holder_at m.lock m.channels i c (run-IsSafe es (init v parts) (init-IsSafe parts n)).0 e h

  -- For channels with different ids, none of them -1, and whatever commands and ticks they were given:
  -- the lock names a channel that is not idle, and no other channel is out of idle. The two steps of
  -- `ArmPullCycle` are separate commands here.
  pub one_in_motion :
      (parts : List (Config W × Option D)) (es : List (Event W)) (i j : ℕ) (a b : Channel D W)
      → IsNamed parts
      → get_elem? (run v es (init v parts)).channels i ≡ some a
      → get_elem? (run v es (init v parts)).channels j ≡ some b
      → is_idle a.mode ≡ false
      → ((run v es (init v parts)).lock.holder ≡ a.cfg.channel_id)
        × (is_idle b.mode ≡ false → i ≡ j)
  one_in_motion parts es i j a b n ea eb h =
      let (held, named) = reached parts es i a n ea h in
      let m = run v es (init v parts) in
      let safe = run-IsSafe es (init v parts) (init-IsSafe parts n) in
      (
        held,
        λ h'.
            let (held', _) = reached parts es j b n eb h' in
            IsDistinct-at m.channels i j a b safe.1 ea eb (sym held ∙ held'),
      )

  -- While any channel is not idle, the heater scheduler that looks at the same lock returns only 0.0,
  -- says that it was inhibited, and keeps its energy count; this is so after any commands and ticks,
  -- for channels with different ids other than -1, and for any sort.
  pub no_heat_in_motion :
      (sort : List (ℕ × W) → List (ℕ × W)) (s : HeaterScheduler W) (k : HeaterScheduler.Call W)
      (parts : List (Config W × Option D)) (es : List (Event W)) (i : ℕ) (c : Channel D W)
      → IsNamed parts
      → k.lock ≡ some (run v es (init v parts)).lock
      → get_elem? (run v es (init v parts)).channels i ≡ some c
      → is_idle c.mode ≡ false
      → ((serve sort s k).1 ≡ replicate (length k.requested) nought)
        × ((serve sort s k).0.last_inhibited ≡ true)
        × ((serve sort s k).0.energy_consumed_wh ≡ s.energy_consumed_wh)
  no_heat_in_motion sort s k parts es i c n shared e h =
      let (held, named) = reached parts es i c n e h in
      let active : motion_active k.lock ≡ true =
        rw shared (unfold motion_active is_active in ground arith) in
      let (inhibited, off) = serve_interlock sort s k in
      ((off active).0, inhibited ∙ active, (off active).1)
