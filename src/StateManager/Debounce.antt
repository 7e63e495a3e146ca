-- ===== src/StateManager/Debounce.antt =====
-- What the debounce counters of onboard/src/state_manager.cpp guarantee.
use coatheal_flight_software.Prelude.{
  ℕ, ◌+◌, ◌≤◌, ◌<◌, ◌≡◌, refl, ap, ◌∙◌, Bool, true, false, List, [], ◌∷◌, length, All, arith,
}
use coatheal_flight_software.Double.{Double}
use coatheal_flight_software.Phase.{
  MissionPhase, boot, ascent, pre_float, float, descent, landed, stopped,
}
use coatheal_flight_software.StateManager.{
  StateManager, StateOverrides, TransitionConfig, required, apply_reset, apply_start, phase_step,
  update,
}

abbrev pub no_overrides : StateOverrides
no_overrides = record {
  force_start = false;
  force_stop = false;
  reset_control = false;
  shutdown_safe = false;
}

-- The phases in mission order.
abbrev pub rank : MissionPhase → ℕ
rank boot = 0
rank ascent = 1
rank pre_float = 2
rank float = 3
rank descent = 4
rank landed = 5
rank stopped = 6

-- The moves that a tick may make with no override: none, to the next phase, or from PRE_FLOAT
-- straight to DESCENT.
abbrev pub can_follow : MissionPhase → MissionPhase → Bool
can_follow boot ascent = true
can_follow ascent ascent = true
can_follow ascent pre_float = true
can_follow pre_float pre_float = true
can_follow pre_float float = true
can_follow pre_float descent = true
can_follow float float = true
can_follow float descent = true
can_follow descent descent = true
can_follow descent landed = true
can_follow landed landed = true
can_follow stopped stopped = true
can_follow _ _ = false

-- The counters are below the number of samples that a transition needs.
pub record IsDebounced (n : ℕ) (m : StateManager) : Type 0 where
  pub pre_float_lt : m.debounce_pre_float < n
  pub float_lt : m.debounce_float < n
  pub descent_lt : m.debounce_descent < n
  pub landed_lt : m.debounce_landed < n

apply_reset-IsDebounced :
    (n : ℕ) (o : StateOverrides) (m : StateManager)
    → 0 < n
    → IsDebounced n m
    → IsDebounced n (apply_reset o m)
unfolding apply_reset
apply_reset-IsDebounced n o m h v = ground arith

apply_start-IsDebounced :
    (n : ℕ) (o : StateOverrides) (m : StateManager)
    → IsDebounced n m
    → IsDebounced n (apply_start o m)
unfolding apply_start
apply_start-IsDebounced n o m v = ground arith

module _ {W : Type 0} ⦃d : Double W⦄ (c : TransitionConfig W) where
  open d use {le}

  phase_step-IsDebounced :
      (p : MissionPhase) (m : StateManager) (pressure : W)
      → IsDebounced (required c) m
      → IsDebounced (required c) (phase_step c p m pressure)
  unfolding phase_step
  phase_step-IsDebounced boot m pressure v = ground arith
  phase_step-IsDebounced _ m pressure v = ground arith

  -- Whatever the overrides and the pressure, an update keeps every debounce counter below
  -- `max(1, debounce_samples)`, so the `int` counters cannot overflow.
  pub update-IsDebounced :
      (m : StateManager) (pressure : W) (o : StateOverrides)
      → IsDebounced (required c) m
      → IsDebounced (required c) (update c m pressure o)
  unfolding update
  update-IsDebounced m pressure o v =
      let m₁ = apply_reset o m in
      let v₁ = apply_reset-IsDebounced (required c) o m (omega arith) v in
      let m₂ = apply_start o m₁ in
      let v₂ = apply_start-IsDebounced (required c) o m₁ v₁ in
      ground (arith, v₁, phase_step-IsDebounced m₂.phase m₂ pressure v₂)

  phase_step_follows :
      (p : MissionPhase) (m : StateManager) (pressure : W)
      → m.phase ≡ p
      → can_follow p (phase_step c p m pressure).phase ≡ true
  unfolding phase_step
  phase_step_follows boot m pressure e = refl
  phase_step_follows _ m pressure e = ground arith

  phase_step-rank :
      (p : MissionPhase) (m : StateManager) (pressure : W)
      → m.phase ≡ p
      → rank p ≤ rank (phase_step c p m pressure).phase
  unfolding phase_step
  phase_step-rank boot m pressure e = ground arith
  phase_step-rank _ m pressure e = ground arith

  -- With no override, a tick leaves the phase alone, or moves it to the next phase, or from PRE_FLOAT
  -- to DESCENT; from BOOT it always moves to ASCENT.
  pub update_follows :
      (m : StateManager) (pressure : W)
      → can_follow m.phase (update c m pressure no_overrides).phase ≡ true
  unfolding update apply_reset apply_start
  update_follows m pressure = phase_step_follows m.phase m pressure refl

  phase_step_landed :
      (m : StateManager) (pressure : W) → m.phase ≡ landed → phase_step c m.phase m pressure ≡ m
  unfolding phase_step
  phase_step_landed m pressure e = ap (λ p. phase_step c p m pressure) e

  -- Unless RESET_CTRL or FORCE_STOP is given, no tick goes back to an earlier phase. SHUTDOWN_SAFE
  -- always ends in STOPPED, and LANDED is left only by an override.
  pub update-rank :
      (m : StateManager) (pressure : W) (o : StateOverrides)
      → o.reset_control ≡ false
      → o.force_stop ≡ false
      → (rank m.phase ≤ rank (update c m pressure o).phase)
        × (o.shutdown_safe ≡ true → (update c m pressure o).phase ≡ stopped)
        × (o.shutdown_safe ≡ false → m.phase ≡ landed → (update c m pressure o).phase ≡ landed)
  unfolding update apply_reset apply_start
  update-rank m pressure o hr hf =
      let m₂ = apply_start o m in
      ground (
        arith,
        phase_step-rank m.phase m pressure refl,
        phase_step-rank ascent (record m { phase = ascent }) pressure refl,
        phase_step_landed m pressure,
      )

  -- Ticks with no override.
  pub run : StateManager → List W → StateManager
  run m [] = m
  run m (p ∷ ps) = run (update c m p no_overrides) ps

  update_at :
      (m : StateManager) (pressure : W) {p : MissionPhase}
      → m.phase ≡ p
      → update c m pressure no_overrides ≡ phase_step c p m pressure
  unfolding update apply_reset apply_start
  update_at m pressure e = ap (λ p. phase_step c p m pressure) e

  abbrev pub IsBelow : List W → Type 0
  IsBelow = All (λ p. le p c.pre_float_mbar ≡ true)

  -- A sample below the threshold is counted, and one above it clears the counter.
  run_counted :
      (m : StateManager) (p : W) (ps : List W)
      → m.phase ≡ ascent
      → le p c.pre_float_mbar ≡ true
      → m.debounce_pre_float + 1 < required c
      → run m (p ∷ ps) ≡ run (record m { debounce_pre_float = m.debounce_pre_float + 1 }) ps
  unfolding run phase_step
  run_counted m p ps e b h = ap (λ m'. run m' ps) (update_at m p e ∙ ground arith)

  run_cleared :
      (m : StateManager) (p : W) (ps : List W)
      → m.phase ≡ ascent
      → le p c.pre_float_mbar ≡ false
      → run m (p ∷ ps) ≡ run (record m { debounce_pre_float = 0 }) ps
  unfolding run phase_step
  run_cleared m p ps e b = ap (λ m'. run m' ps) (update_at m p e ∙ ground arith)

  run_nil : (m : StateManager) → run m [] ≡ m
  unfolding run
  run_nil m = refl

  run_last :
      (m : StateManager) (p : W)
      → m.phase ≡ ascent
      → le p c.pre_float_mbar ≡ true
      → m.debounce_pre_float + 1 ≡ required c
      → (run m (p ∷ [])).phase ≡ pre_float
  unfolding run phase_step
  run_last m p e b h = ap (λ (m' : StateManager). m'.phase) (update_at m p e) ∙ ground arith

  ascent_below :
      (m : StateManager) (ps : List W)
      → m.phase ≡ ascent
      → IsBelow ps
      → m.debounce_pre_float < required c
      → (m.debounce_pre_float + length ps < required c → (run m ps).phase ≡ ascent)
        × (m.debounce_pre_float + length ps ≡ required c → (run m ps).phase ≡ pre_float)
  ascent_below m [] e b h = unfold run in ground arith
  ascent_below m (p ∷ []) e b h = ground (
    arith,
    run_counted m p [] e b.0,
    run_last m p e b.0,
    run_nil (record m { debounce_pre_float = m.debounce_pre_float + 1 }),
  )
  ascent_below m (p ∷ q ∷ ps) e b h =
      let counted : StateManager = record m { debounce_pre_float = m.debounce_pre_float + 1 } in
      ground (arith, run_counted m p (q ∷ ps) e b.0, ascent_below counted (q ∷ ps) e b.1)

  -- In ASCENT, after a sample above `pre_float_mbar` the phase stays ASCENT for as long as fewer than
  -- `max(1, debounce_samples)` samples at or below the threshold follow, and it is PRE_FLOAT when
  -- exactly that many have followed.
  pub ascent_debounce :
      (m : StateManager) (p : W) (ps : List W)
      → m.phase ≡ ascent
      → le p c.pre_float_mbar ≡ false
      → IsBelow ps
      → (length ps < required c → (run m (p ∷ ps)).phase ≡ ascent)
        × (length ps ≡ required c → (run m (p ∷ ps)).phase ≡ pre_float)
  ascent_debounce m p ps e above b =
      let cleared : StateManager = record m { debounce_pre_float = 0 } in
      ground (arith, run_cleared m p ps e above, ascent_below cleared ps e b)

  -- In PRE_FLOAT a sample at or above `float_to_descent_mbar` does not clear the FLOAT counter: one
  -- short of the required count, such a sample and then one at or below `ascent_to_float_mbar` move
  -- the phase to FLOAT, although the samples that were counted are not consecutive.
  pub pre_float_interrupted :
      (m : StateManager) (high low : W)
      → m.phase ≡ pre_float
      → m.debounce_float + 1 ≡ required c
      → m.debounce_descent + 1 < required c
      → le c.float_to_descent_mbar high ≡ true
      → le c.float_to_descent_mbar low ≡ false
      → le low c.ascent_to_float_mbar ≡ true
      → (run m (high ∷ low ∷ [])).phase ≡ float
  unfolding run phase_step
  pre_float_interrupted m high low e f d h l b =
      let m₁ = record m { debounce_descent = m.debounce_descent + 1 } in
      let e₁ : update c m high no_overrides ≡ m₁ = update_at m high e ∙ ground arith in
      rw (e₁, update_at m₁ low e) (ground arith)
