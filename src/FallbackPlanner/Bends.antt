-- ===== src/FallbackPlanner/Bends.antt =====
-- onboard/src/fallback_planner.cpp runs one bend at a time, in the order of the motors' ids.
use coatheal_flight_software.Prelude.{
  ℕ, zero, suc, ◌+◌, ◌≤◌, Bool, true, false, not, Option, none, List, [], ◌∷◌, map, ◌≡◌, refl,
  String, any, arith, if◌then◌else◌, if_both, if_cases,
}
use coatheal_flight_software.Prelude.Int.{ℤ, pos_part}
use coatheal_flight_software.Double.{Double}
use coatheal_flight_software.FallbackPlanner.{
  PlannerConfig, MotorInput, TickInput, Action, Slot, Planner, is_running, is_armed, with_state,
  motor_failed, load_plan, wait_again, update_at, reset_slot, reset_to_none, disarm, set_motor_plan,
  arm, report_start_result, take_dirty,
}
use coatheal_flight_software.FallbackPlanner.Tick.{
  input_at, complete, complete_all, complete_plan, window_phase, Choice, starts, waits, passes,
  choose, deadline_passed, conclude, open_window, decide, tick,
}

module _ {W : Type 0} where
  -- How many motors run their bend.
  abbrev pub count_running : List (Slot W) → ℕ
  count_running [] = 0
  count_running (slot ∷ slots) = (if is_running slot.plan.state then 1 else 0) + count_running slots

  count_running-update_at :
      (i : ℕ) (f : Slot W → Slot W) (slots : List (Slot W))
      → ((slot : Slot W) → is_running (f slot).plan.state ≡ false)
      → count_running (update_at i f slots) ≤ count_running slots
  unfolding update_at
  count_running-update_at i f [] h = omega arith
  count_running-update_at zero f (slot ∷ slots) h = ground (arith, h slot)
  count_running-update_at (suc i) f (slot ∷ slots) h =
      omega (arith, count_running-update_at i f slots h)

  count_running-reset : (slots : List (Slot W)) → count_running (map reset_slot slots) ≡ 0
  unfolding reset_slot
  count_running-reset [] = refl
  count_running-reset (slot ∷ slots) = ground (arith, count_running-reset slots)

  pub count_running-any :
      (slots : List (Slot W))
      → any (λ (slot : Slot W). is_running slot.plan.state) slots ≡ false
      → count_running slots ≡ 0
  count_running-any [] h = refl
  count_running-any (slot ∷ slots) h = ground (arith, count_running-any slots)

module _ {W : Type 0} (number : ℕ → String) where
  complete_running :
      (i : ℕ) (input : MotorInput W) (slot : Slot W) (error : String) (dirty : Bool)
      → let slot' = (complete number i input slot error dirty).0 in
        (if is_running slot'.plan.state then 1 else 0)
        ≤ (if is_running slot.plan.state then 1 else 0)
  unfolding complete
  complete_running i input slot error dirty = ground arith

  count_running-complete_all :
      (i : ℕ) (inputs : List (MotorInput W)) (slots : List (Slot W)) (error : String) (dirty : Bool)
      → count_running (complete_all number i inputs slots error dirty).0 ≤ count_running slots
  unfolding complete_all
  count_running-complete_all i inputs [] error dirty = omega arith
  count_running-complete_all i inputs (slot ∷ slots) error dirty =
      let r = complete number i (input_at inputs i) slot error dirty in
      omega (
        arith,
        complete_running i (input_at inputs i) slot error dirty,
        count_running-complete_all (i + 1) inputs slots r.1 r.2,
      )

  -- The plan's state may only end in this step, and never begin.
  pub complete_plan_keeps :
      (inputs : List (MotorInput W)) (p : Planner W)
      → (count_running (complete_plan number inputs p).slots ≤ count_running p.slots)
        × (is_armed (complete_plan number inputs p).state ≡ true → is_armed p.state ≡ true)
        × ((complete_plan number inputs p).cfg ≡ p.cfg)
  unfolding complete_plan
  complete_plan_keeps inputs p =
      ground (arith, count_running-complete_all 0 inputs p.slots p.last_error p.dirty)

module _ {W : Type 0} ⦃d : Double W⦄ where
  abbrev is_start : Choice W → Bool
  is_start (starts a) = true
  is_start _ = false

  count_running-choose :
      (cfg : PlannerConfig W) (deadline : Bool) (i : ℕ) (inputs : List (MotorInput W))
      (slots : List (Slot W))
      → count_running slots ≡ 0
      → let r = choose cfg deadline i inputs slots in
        count_running r.0 ≡ (if is_start r.1 then 1 else 0)
  unfolding choose
  count_running-choose cfg deadline i inputs [] h = refl
  count_running-choose cfg deadline i inputs (slot ∷ slots) h =
      ground (arith, count_running-choose cfg deadline (i + 1) inputs slots)

  conclude-count_running :
      (p : Planner W) (r : List (Slot W) × Choice W × Bool)
      → count_running (conclude p r).0.slots ≡ count_running r.0
  conclude-count_running p (slots, starts a, changed) = refl
  conclude-count_running p (slots, waits, changed) = refl
  conclude-count_running p (slots, passes, changed) = ground arith

  pub open_window_keeps :
      (input : TickInput W) (p : Planner W)
      → ((open_window input p).slots ≡ p.slots) × ((open_window input p).cfg ≡ p.cfg)
  unfolding open_window
  open_window_keeps input p = ground arith

  abbrev pub AtMostOne : Planner W × Option (Action W) → Type 0
  AtMostOne r = count_running r.0.slots ≤ 1

  decide-count_running :
      (input : TickInput W) (p : Planner W) → count_running p.slots ≤ 1 → AtMostOne (decide input p)
  unfolding decide
  decide-count_running input p h =
      let p₁ = open_window input p in
      let same : AtMostOne (p₁, none) = rw (open_window_keeps input p).0 h in
      let running = any (λ (slot : Slot W). is_running slot.plan.state) p₁.slots in
      let choice = choose p₁.cfg (deadline_passed input.now p₁) 0 input.motors p₁.slots in
      if_both AtMostOne (not (window_phase input)) same (
        if_cases AtMostOne running (λ _. same)
          (λ e. ground (
            arith,
            conclude-count_running p₁ choice,
            count_running-choose p₁.cfg (deadline_passed input.now p₁) 0 input.motors p₁.slots
                (count_running-any p₁.slots e),
          )))

  tick-count_running :
      (number : ℕ → String) (input : TickInput W) (p : Planner W)
      → count_running p.slots ≤ 1
      → AtMostOne (tick number input p)
  unfolding tick
  tick-count_running number input p h =
      let p₁ = complete_plan number input.motors p in
      let h₁ : count_running p₁.slots ≤ 1 =
        omega (arith, (complete_plan_keeps number input.motors p).0) in
      if_both AtMostOne (not (is_armed p₁.state)) h₁ (decide-count_running input p₁ h₁)

-- The calls that change the planner.
pub data Call (W : Type 0) : Type 0 where
  ticks : TickInput W → Call W
  loads : ℤ → ℤ → W → W → Call W
  arms : Call W
  disarms : Call W
  reports : ℤ → Bool → Bool → String → Call W
  takes_dirty : Call W

module _ {W : Type 0} ⦃d : Double W⦄ (number : ℕ → String) where
  pub serve : Call W → Planner W → Planner W
  serve (ticks input) p = (tick number input p).0
  serve (loads id target hold speed) p = (set_motor_plan id target hold speed p).0
  serve arms p = (arm p).0
  serve disarms p = disarm p
  serve (reports id accepted retry_later error) p =
      report_start_result id accepted retry_later error p
  serve takes_dirty p = (take_dirty p).0

  pub run : List (Call W) → Planner W → Planner W
  run [] p = p
  run (k ∷ ks) p = run ks (serve k p)

  serve-count_running :
      (k : Call W) (p : Planner W) → count_running p.slots ≤ 1 → count_running (serve k p).slots ≤ 1
  unfolding serve
  serve-count_running (ticks input) p h = tick-count_running number input p h
  serve-count_running (loads id target hold speed) p h =
      unfold set_motor_plan reset_to_none in
      ground (
        arith,
        count_running-reset p.slots,
        count_running-update_at (pos_part id) (load_plan target hold speed) p.slots (λ slot. refl),
        count_running-update_at (pos_part id) (load_plan target hold speed) (map reset_slot p.slots)
            (λ slot. refl),
      )
  serve-count_running arms p h = unfold arm in ground arith
  serve-count_running disarms p h =
      unfold disarm reset_to_none in omega (arith, count_running-reset p.slots)
  serve-count_running (reports id accepted retry_later error) p h =
      unfold report_start_result in
      ground (
        arith,
        count_running-update_at (pos_part id) wait_again p.slots (λ slot. refl),
        count_running-update_at (pos_part id) (with_state motor_failed) p.slots (λ slot. refl),
      )
  serve-count_running takes_dirty p h = unfold take_dirty in h

  -- Whatever is called in whatever order, if at most one motor runs its bend, then at most one does so
  -- afterwards.
  pub run-count_running :
      (ks : List (Call W)) (p : Planner W)
      → count_running p.slots ≤ 1
      → count_running (run ks p).slots ≤ 1
  unfolding run
  run-count_running [] p h = h
  run-count_running (k ∷ ks) p h = run-count_running ks (serve k p) (serve-count_running k p h)
