-- ===== src/HeaterScheduler/Zero.antt =====
-- A heater that is not asked for stays off in onboard/src/heater_scheduler.cpp.
use coatheal_flight_software.Prelude.{
  ℕ, zero, suc, ◌+◌, ◌≡◌, sym, subst, Bool, true, false, List, [], ◌∷◌, map, leb, length, get_or,
  set, replicate, get_or-replicate, if_both, arith,
}
use coatheal_flight_software.Double.{Double, nought, one, clamp}
use coatheal_flight_software.HeaterScheduler.{
  HeaterScheduler, PowerConfig, Call, clamp_all, is_lowered, serve, select, limit_power, account,
  enable_ranked, rank_from, thermal_power,
}
use coatheal_flight_software.HeaterScheduler.Limits.{IsFinite, is_zero}

module _ {W : Type 0} ⦃d : Double W⦄ where
  open d use {lt, le, mul, div}

  -- Element `i` is 0.0.
  abbrev pub is_off : List W → ℕ → Bool
  is_off xs i = is_zero (get_or xs i nought)

  set-off :
      (f : ℕ → W) (xs : List W) (i j : ℕ)
      → is_zero (f i) ≡ true
      → is_off xs i ≡ true
      → is_off (set xs j (f j)) i ≡ true
  set-off f [] i j a b = b
  set-off f (x ∷ xs) zero zero a b = a
  set-off f (x ∷ xs) zero (suc j) a b = b
  set-off f (x ∷ xs) (suc i) zero a b = b
  set-off f (x ∷ xs) (suc i) (suc j) a b = set-off (λ n. f (suc n)) xs i j a b

  enable_ranked-off :
      (limit : ℕ) (clamped : List W) (ranked : List (ℕ × W)) (n : ℕ) (xs : List W) (i : ℕ)
      → is_off clamped i ≡ true
      → is_off xs i ≡ true
      → is_off (enable_ranked limit clamped ranked n xs) i ≡ true
  unfolding enable_ranked
  enable_ranked-off limit clamped [] n xs i c h = h
  enable_ranked-off limit clamped ((j, score) ∷ ranked) n xs i c h =
      let P : List W → Type 0 = λ ys. is_off ys i ≡ true in
      if_both P (leb limit n) h (
        if_both P (le (get_or clamped j nought) nought)
          (enable_ranked-off limit clamped ranked n xs i c h)
          (enable_ranked-off limit clamped ranked (n + 1) (set xs j (get_or clamped j nought)) i c
            (set-off (λ k. get_or clamped k nought) xs i j c h)))

  module _ (l : IsFinite W) where
    map_mul-off :
        (y : W) (xs : List W) (i : ℕ) → is_off xs i ≡ true → is_off (map (λ x. mul x y) xs) i ≡ true
    map_mul-off y [] i h = h
    map_mul-off y (x ∷ xs) zero h = l.zero_mul x y h
    map_mul-off y (x ∷ xs) (suc i) h = map_mul-off y xs i h

    pub map-nought-off : (xs : List W) (i : ℕ) → is_off (map (λ x. nought) xs) i ≡ true
    map-nought-off [] i = l.nought_zero
    map-nought-off (x ∷ xs) zero = l.nought_zero
    map-nought-off (x ∷ xs) (suc i) = map-nought-off xs i

    replicate-off : (n i : ℕ) → is_off (replicate n nought) i ≡ true
    replicate-off n i = ground (arith, get_or-replicate n i (nought {W = W}), l.nought_zero)

    clamp-nought : lt one nought ≡ false → is_zero {W = W} (clamp nought nought one) ≡ true
    clamp-nought o = ground (arith, l.nought_zero)

    pub clamp_all-off :
        (xs : List W) (i : ℕ)
        → lt one nought ≡ false
        → get_or xs i nought ≡ nought
        → is_off (clamp_all xs) i ≡ true
    clamp_all-off [] i o h = l.nought_zero
    clamp_all-off (x ∷ xs) zero o h =
        subst (λ y. is_zero (clamp y nought one) ≡ true) (sym h) (clamp-nought o)
    clamp_all-off (x ∷ xs) (suc i) o h = clamp_all-off xs i o h

    limit_power-off :
        (p : PowerConfig W) (xs : List W) (i : ℕ)
        → is_off xs i ≡ true
        → is_off (limit_power p xs).0 i ≡ true
    unfolding limit_power
    limit_power-off p xs i h =
        let scale = div p.max_thermal_w (thermal_power p.heater_nominal_w nought xs) in
        ground (arith, map_mul-off scale xs i h)

    account-off :
        (s : HeaterScheduler W) (xs : List W) (w t : W) (i : ℕ)
        → is_off xs i ≡ true
        → is_off (account s xs w t).1 i ≡ true
    unfolding account
    account-off s xs w t i h = ground (arith, map-nought-off xs i)

    -- A heater whose requested duty is 0.0 is off after a call, however `std::sort` breaks ties and
    -- whatever the state of the scheduler.
    pub serve-off :
        (sort : List (ℕ × W) → List (ℕ × W)) (s : HeaterScheduler W) (k : Call W) (i : ℕ)
        → lt one nought ≡ false
        → get_or k.requested i nought ≡ nought
        → is_off (serve sort s k).1 i ≡ true
    unfolding serve select
    serve-off sort s k i o h =
        let s₁ : HeaterScheduler W = record s { last_inhibited = false } in
        let clamped = clamp_all k.requested in
        let ranked = sort (rank_from 0 (is_lowered s₁ k.deprioritize) clamped) in
        let picked =
          enable_ranked s.power.max_active_heaters clamped ranked 0
            (replicate (length clamped) nought) in
        let (kept, watts) = limit_power s.power picked in
        let off_picked =
          enable_ranked-off s.power.max_active_heaters clamped ranked 0
            (replicate (length clamped) nought) i (clamp_all-off k.requested i o h)
            (replicate-off (length clamped) i) in
        ground (
          arith,
          replicate-off (length k.requested) i,
          account-off s₁ kept watts k.dt i (limit_power-off s.power picked i off_picked),
        )
