-- ===== src/HeaterScheduler/Limits.antt =====
-- The limits that onboard/src/heater_scheduler.cpp keeps: how many heaters, and how much energy.
use coatheal_flight_software.Prelude.{
  ℕ, zero, suc, ◌+◌, ◌≤◌, ◌≡◌, refl, ◌∙◌, Bool, true, false, ◌&&◌, List, [], ◌∷◌, map,
  if◌then◌else◌, length, get_or, set, replicate, length-map, length-replicate, length-set, arith,
}
use coatheal_flight_software.Prelude.Int.{ℤ, pos, negsuc, ◌*ℤ◌}
use coatheal_flight_software.Double.{Double, int_double, nought, one, clamp}
use coatheal_flight_software.HeaterScheduler.{
  HeaterScheduler, PowerConfig, Call, clamp_all, is_lowered, serve, select, limit_power, account,
  enable_ranked, thermal_power, rank_from,
}

-- `x == 0.0`.
abbrev pub is_zero : {W : Type 0} ⦃d : Double W⦄ → W → Bool
is_zero ⦃d⦄ x = d.le x nought && d.le nought x

-- The heaters that are on.
abbrev pub count_on : {W : Type 0} ⦃d : Double W⦄ → List W → ℕ
count_on [] = 0
count_on (x ∷ xs) = (if is_zero x then 0 else 1) + count_on xs

-- Zero is equal to itself, and its products are zero: `W` has no infinity and no NaN.
pub record IsFinite (W : Type 0) ⦃d : Double W⦄ : Type 0 where
  pub nought_zero : is_zero (nought {W = W}) ≡ true
  pub zero_mul : (x y : W) → is_zero x ≡ true → is_zero (d.mul x y) ≡ true

-- Whole numbers are finite.
zero_product : (x y : ℤ) → is_zero x ≡ true → is_zero (int_double.mul x y) ≡ true
unfolding int_double ◌*ℤ◌
zero_product (pos zero) y h = ground arith
zero_product (pos (suc n)) y h = ground arith
zero_product (negsuc n) y h = ground arith

pub ℤ-IsFinite : IsFinite ℤ
unfolding int_double
ℤ-IsFinite = record { nought_zero = refl; zero_mul = zero_product }

module _ {W : Type 0} ⦃d : Double W⦄ where
  open d use {le, lt, mul, div}

  count_on-set : (xs : List W) (i : ℕ) (v : W) → count_on (set xs i v) ≤ count_on xs + 1
  count_on-set [] i v = omega arith
  count_on-set (x ∷ xs) zero v = ground arith
  count_on-set (x ∷ xs) (suc i) v = omega (arith, count_on-set xs i v)

  count_on-zeros :
      {A : Type 0} (l : IsFinite W) (xs : List A) → count_on {W = W} (map (λ x. nought) xs) ≡ 0
  count_on-zeros l [] = refl
  count_on-zeros l (x ∷ xs) = ground (arith, l.nought_zero, count_on-zeros l xs)

  count_on-replicate : (l : IsFinite W) (n : ℕ) → count_on {W = W} (replicate n nought) ≡ 0
  count_on-replicate l zero = refl
  count_on-replicate l (suc n) = ground (arith, l.nought_zero, count_on-replicate l n)

  count_on-scale :
      (l : IsFinite W) (y : W) (xs : List W) → count_on (map (λ x. mul x y) xs) ≤ count_on xs
  count_on-scale l y [] = omega arith
  count_on-scale l y (x ∷ xs) = ground (arith, l.zero_mul x y, count_on-scale l y xs)

  count_on-enable_ranked :
      (limit : ℕ) (clamped : List W) (ranked : List (ℕ × W)) (n : ℕ) (xs : List W)
      → n ≤ limit
      → count_on xs ≤ n
      → count_on (enable_ranked limit clamped ranked n xs) ≤ limit
  unfolding enable_ranked
  count_on-enable_ranked limit clamped [] n xs h k = omega arith
  count_on-enable_ranked limit clamped ((i, score) ∷ ranked) n xs h k =
      let v = get_or clamped i nought in
      ground (
        arith,
        count_on-set xs i v,
        count_on-enable_ranked limit clamped ranked n xs h k,
        count_on-enable_ranked limit clamped ranked (n + 1) (set xs i v),
      )

  length-enable_ranked :
      (limit : ℕ) (clamped : List W) (ranked : List (ℕ × W)) (n : ℕ) (xs : List W)
      → length (enable_ranked limit clamped ranked n xs) ≡ length xs
  unfolding enable_ranked
  length-enable_ranked limit clamped [] n xs = refl
  length-enable_ranked limit clamped ((i, score) ∷ ranked) n xs =
      let v = get_or clamped i nought in
      ground (
        arith,
        length-set xs i v,
        length-enable_ranked limit clamped ranked n xs,
        length-enable_ranked limit clamped ranked (n + 1) (set xs i v),
      )

  limit_power-count :
      (l : IsFinite W) (p : PowerConfig W) (xs : List W)
      → count_on (limit_power p xs).0 ≤ count_on xs
  unfolding limit_power
  limit_power-count l p xs =
      let scale = div p.max_thermal_w (thermal_power p.heater_nominal_w nought xs) in
      ground (arith, count_on-scale l scale xs)

  limit_power-length : (p : PowerConfig W) (xs : List W) → length (limit_power p xs).0 ≡ length xs
  unfolding limit_power
  limit_power-length p xs =
      let scale = div p.max_thermal_w (thermal_power p.heater_nominal_w nought xs) in
      ground (arith, length-map (λ x. mul x scale) xs)

  account-count :
      (l : IsFinite W) (s : HeaterScheduler W) (xs : List W) (w t : W)
      → count_on (account s xs w t).1 ≤ count_on xs
  unfolding account
  account-count l s xs w t = ground (arith, count_on-zeros l xs)

  account-length :
      (s : HeaterScheduler W) (xs : List W) (w t : W) → length (account s xs w t).1 ≡ length xs
  unfolding account
  account-length s xs w t = ground (arith, length-map {B = W} (λ x. nought) xs)

  -- The budget latch is set as soon as the energy count reaches the budget, if there is a budget.
  pub record IsWithinBudget (s : HeaterScheduler W) : Type 0 where
    pub below :
        s.budget_exhausted ≡ false
        → lt nought s.power.energy_budget_wh ≡ true
        → le s.power.energy_budget_wh s.energy_consumed_wh ≡ false

  account_exhausted :
      (l : IsFinite W) (s : HeaterScheduler W) (xs : List W) (w t : W)
      → s.budget_exhausted ≡ false
      → (account s xs w t).0.budget_exhausted ≡ true
      → count_on (account s xs w t).1 ≡ 0
  unfolding account
  account_exhausted l s xs w t h e = ground (arith, count_on-zeros l xs)

  module _ (sort : List (ℕ × W) → List (ℕ × W)) where
    select-count :
        (l : IsFinite W) (s : HeaterScheduler W) (requested : List W) (b : Bool)
        → count_on (select sort s requested b) ≤ s.power.max_active_heaters
    unfolding select
    select-count l s requested b =
        let clamped = clamp_all requested in
        count_on-enable_ranked s.power.max_active_heaters clamped
          (sort (rank_from 0 (is_lowered s b) clamped)) 0 (replicate (length clamped) nought)
          (omega arith) (omega (arith, count_on-replicate l (length clamped)))

    select-length :
        (s : HeaterScheduler W) (requested : List W) (b : Bool)
        → length (select sort s requested b) ≡ length requested
    unfolding select
    select-length s requested b =
        let clamped = clamp_all requested in
        length-enable_ranked s.power.max_active_heaters clamped
          (sort (rank_from 0 (is_lowered s b) clamped)) 0 (replicate (length clamped) nought)
        ∙ length-replicate (length clamped) (nought {W = W})
        ∙ length-map (λ v. clamp v nought one) requested

    -- Each call returns a duty for every request, and on finite values at most `max_active_heaters`
    -- of them are not 0.0, however `std::sort` breaks ties; in a call that leaves the budget
    -- exhausted all of them are 0.0.
    pub serve_limits :
        (l : IsFinite W) (s : HeaterScheduler W) (k : Call W)
        → (length (serve sort s k).1 ≡ length k.requested)
          × (count_on (serve sort s k).1 ≤ s.power.max_active_heaters)
          × ((serve sort s k).0.budget_exhausted ≡ true → count_on (serve sort s k).1 ≡ 0)
    unfolding serve
    serve_limits l s k =
        let s₁ : HeaterScheduler W = record s { last_inhibited = false } in
        let picked = select sort s₁ k.requested k.deprioritize in
        let (kept, watts) = limit_power s.power picked in
        ground (
          arith,
          length-replicate (length k.requested) (nought {W = W}),
          count_on-replicate l (length k.requested),
          select-length s₁ k.requested k.deprioritize,
          select-count l s₁ k.requested k.deprioritize,
          limit_power-length s.power picked,
          limit_power-count l s.power picked,
          account-length s₁ kept watts k.dt,
          account-count l s₁ kept watts k.dt,
          account_exhausted l s₁ kept watts k.dt,
        )
