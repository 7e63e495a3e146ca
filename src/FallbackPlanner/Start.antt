-- ===== src/FallbackPlanner/Start.antt =====
-- When `Tick` of onboard/src/fallback_planner.cpp starts a bend, and which one.
use coatheal_flight_software.Prelude.{
  ℕ, zero, suc, ◌+◌, Bool, true, false, not, ◌&&◌, ◌||◌, Option, none, some, List, [], ◌∷◌, ◌≡◌,
  refl, sym, ap, subst, some_inj, String, any, get_elem?, arith, if_both, if_cases,
}
use coatheal_flight_software.Prelude.Int.{ℤ}
use coatheal_flight_software.Double.{Double}
use coatheal_flight_software.FallbackPlanner.{
  running, PlannerConfig, MotorInput, TickInput, Action, Slot, Planner, motor_running, skipped,
  is_running, is_pending, is_armed, with_state,
}
use coatheal_flight_software.FallbackPlanner.Tick.{
  input_at, complete_plan, window_phase, Choice, starts, waits, passes, is_ready, window_ok, choose,
  action_of, deadline_passed, conclude, open_window, decide, tick,
}
use coatheal_flight_software.FallbackPlanner.Bends.{
  count_running, count_running-any, complete_plan_keeps, open_window_keeps,
}

module _ {W : Type 0} where
  -- A configured motor that is pending.
  abbrev pub is_waiting : Slot W → Bool
  is_waiting slot = slot.plan.configured && is_pending slot.plan.state

  -- A motor among the first `n` is waiting.
  abbrev pub waits_before : ℕ → List (Slot W) → Bool
  waits_before zero slots = false
  waits_before (suc n) [] = false
  waits_before (suc n) (slot ∷ slots) = is_waiting slot || waits_before n slots

  -- The motor of that index is waiting with that target, or runs its bend.
  abbrev pub WaitsFor : ℤ → Option (Slot W) → Type 0
  WaitsFor target none = (true ≡ false)
  WaitsFor target (some slot) = (is_waiting slot ≡ true) × (slot.plan.target_usteps ≡ target)

  abbrev pub runs : Option (Slot W) → Bool
  runs none = false
  runs (some slot) = is_running slot.plan.state

module _ {W : Type 0} ⦃d : Double W⦄ where
  -- The bend `a` of motor `i + k`: `slots` before and `after` it starts.
  pub record IsStart (cfg : PlannerConfig W) (deadline : Bool) (i : ℕ)
      (inputs : List (MotorInput W)) (slots after : List (Slot W)) (a : Action W) (k : ℕ)
      : Type 0 where
    pub id_ok : a.motor_id ≡ i + k
    pub ready_ok : is_ready (input_at inputs a.motor_id) ≡ true
    pub warm_ok : window_ok cfg (input_at inputs a.motor_id) || deadline ≡ true
    pub was_ok : WaitsFor a.target_usteps (get_elem? slots k)
    pub order_ok : waits_before k after ≡ false
    pub runs_ok : runs (get_elem? after k) ≡ true

  abbrev Starts :
      PlannerConfig W
      → Bool
      → ℕ
      → List (MotorInput W)
      → List (Slot W)
      → Action W
      → List (Slot W) × Choice W × Bool
      → Type 0
  Starts cfg deadline i inputs slots a r =
      r.1 ≡ starts a → (k : ℕ) × IsStart cfg deadline i inputs slots r.0 a k

  IsStart-suc :
      (cfg : PlannerConfig W) (deadline : Bool) (i : ℕ) (inputs : List (MotorInput W))
      (slots after : List (Slot W)) (a : Action W) (k : ℕ) (slot slot' : Slot W)
      → is_waiting slot' ≡ false
      → IsStart cfg deadline (i + 1) inputs slots after a k
      → IsStart cfg deadline i inputs (slot ∷ slots) (slot' ∷ after) a (suc k)
  IsStart-suc cfg deadline i inputs slots after a k slot slot' w s = record {
    id_ok = omega (arith, s.id_ok);
    ready_ok = s.ready_ok;
    warm_ok = s.warm_ok;
    was_ok = s.was_ok;
    order_ok = ground (arith, s.order_ok);
    runs_ok = s.runs_ok;
  }

  starts_inj : {a b : Action W} → starts a ≡ starts b → a ≡ b
  starts_inj {a = a} e = ap (λ c. elim c [ starts b ↦ b | _ ↦ a ]) e

  -- The first motor starts.
  starts_here :
      (cfg : PlannerConfig W) (deadline : Bool) (i : ℕ) (inputs : List (MotorInput W))
      (slot : Slot W) (slots : List (Slot W))
      → is_waiting slot ≡ true
      → is_ready (input_at inputs i) ≡ true
      → window_ok cfg (input_at inputs i) || deadline ≡ true
      → IsStart cfg deadline i inputs
          (slot ∷ slots)
          (record (with_state motor_running slot) { ticks_since_start = 0 } ∷ slots)
          (action_of i slot)
          0
  starts_here cfg deadline i inputs slot slots w ready warm = record {
    id_ok = omega arith;
    ready_ok = ready;
    warm_ok = warm;
    was_ok = (w, refl);
    order_ok = refl;
    runs_ok = refl;
  }

  choose-Starts :
      (cfg : PlannerConfig W) (deadline : Bool) (i : ℕ) (inputs : List (MotorInput W))
      (slots : List (Slot W)) (a : Action W)
      → Starts cfg deadline i inputs slots a (choose cfg deadline i inputs slots)
  unfolding choose
  choose-Starts cfg deadline i inputs [] a = λ e. ground (arith, e)
  choose-Starts cfg deadline i inputs (slot ∷ slots) a =
      let next = choose-Starts cfg deadline (i + 1) inputs slots a in
      let input = input_at inputs i in
      let rest = (choose cfg deadline (i + 1) inputs slots).0 in
      let P = Starts cfg deadline i inputs (slot ∷ slots) a in
      if_cases P (not slot.plan.configured || not (is_pending slot.plan.state))
        (λ settled e.
          let (k, s) = next e in
          (suc k, IsStart-suc cfg deadline i inputs slots rest a k slot slot (ground arith) s))
        (λ waiting.
          if_cases P (is_ready input && (window_ok cfg input || deadline))
            (λ go e. (
              0,
              subst
                  (λ b.
                    IsStart cfg deadline i inputs (slot ∷ slots)
                      (record (with_state motor_running slot) { ticks_since_start = 0 } ∷ slots) b
                      0)
                  (starts_inj e)
                  (starts_here cfg deadline i inputs slot slots (ground arith) (ground arith)
                    (ground arith)),
            ))
            (λ _.
              if_both P (not (is_ready input) && deadline)
                (λ e.
                  let (k, s) = next e in
                  (
                    suc k,
                    IsStart-suc cfg deadline i inputs slots rest a k slot (with_state skipped slot)
                        (ground arith) s,
                  ))
                (λ e. ground (arith, e))))

  -- What a bend that `decide` starts means.
  abbrev Decides : TickInput W → Planner W → Action W → Planner W × Option (Action W) → Type 0
  Decides input p a r =
      r.1 ≡ some a
      → (window_phase input ≡ true)
        × (count_running p.slots ≡ 0)
        × (r.0.state ≡ running)
        × IsStart p.cfg (deadline_passed input.now (open_window input p)) 0 input.motors p.slots
            r.0.slots a a.motor_id

  conclude-Decides :
      (input : TickInput W) (p : Planner W) (a : Action W)
      → window_phase input ≡ true
      → count_running p.slots ≡ 0
      → let late = deadline_passed input.now (open_window input p) in
        (r : List (Slot W) × Choice W × Bool)
        → Starts p.cfg late 0 input.motors p.slots a r
        → Decides input p a (conclude (open_window input p) r)
  conclude-Decides input p a w n (slots, starts b, changed) s e =
      let (k, started) = s (ap starts (some_inj e)) in
      let at : k ≡ a.motor_id = omega (arith, started.id_ok) in
      (
        w,
        n,
        refl,
        subst
            (λ j.
              IsStart p.cfg (deadline_passed input.now (open_window input p)) 0 input.motors p.slots
                slots a j)
            at started,
      )
  conclude-Decides input p a w n (slots, waits, changed) s e = ground (arith, e)
  conclude-Decides input p a w n (slots, passes, changed) s e = ground (arith, e)

  decide-Decides :
      (input : TickInput W) (p : Planner W) (a : Action W) → Decides input p a (decide input p)
  unfolding decide open_window
  decide-Decides input p a =
      let p₁ = open_window input p in
      let (slots_eq, cfg_eq) = open_window_keeps input p in
      let late = deadline_passed input.now p₁ in
      let P = Decides input p a in
      if_cases P (not (window_phase input)) (λ _ e. ground (arith, e))
        (λ w.
          if_cases P (any (λ (slot : Slot W). is_running slot.plan.state) p₁.slots)
            (λ _ e. ground (arith, e))
            (λ n.
              conclude-Decides input p a (ground arith)
                (rw (sym slots_eq) (count_running-any p₁.slots n))
                (choose p₁.cfg late 0 input.motors p₁.slots)
                (rw (slots_eq, cfg_eq) (choose-Starts p.cfg late 0 input.motors p.slots a))))

  -- A tick starts a bend only of an armed or running plan, in PRE_FLOAT or FLOAT with the link lost,
  -- and while no motor runs its bend. It is the bend of a waiting motor, to its planned target; the
  -- motor is enabled, zeroed and healthy, and warm enough unless the deadline has passed; it runs
  -- afterwards, and no motor with a lower id is waiting.
  pub tick_starts :
      (number : ℕ → String) (input : TickInput W) (p : Planner W) (a : Action W)
      → (tick number input p).1 ≡ some a
      → let p₁ = complete_plan number input.motors p in
        (is_armed p.state ≡ true)
        × (window_phase input ≡ true)
        × (count_running p₁.slots ≡ 0)
        × ((tick number input p).0.state ≡ running)
        × IsStart p₁.cfg
            (deadline_passed input.now (open_window input p₁))
            0
            input.motors
            p₁.slots
            (tick number input p).0.slots
            a
            a.motor_id
  unfolding tick
  tick_starts number input p a =
      let p₁ = complete_plan number input.motors p in
      let (_, armed_ok, _) = complete_plan_keeps number input.motors p in
      let P : Planner W × Option (Action W) → Type 0 = λ r.
        r.1 ≡ some a
        → (is_armed p.state ≡ true)
          × (window_phase input ≡ true)
          × (count_running p₁.slots ≡ 0)
          × (r.0.state ≡ running)
          × IsStart p₁.cfg (deadline_passed input.now (open_window input p₁)) 0 input.motors
              p₁.slots r.0.slots a a.motor_id in
      if_cases P (not (is_armed p₁.state)) (λ _ e. ground (arith, e))
        (λ on e.
          let (w, n, run, started) = decide-Decides input p₁ a e in
          (armed_ok (ground arith), w, n, run, started))
