-- ===== src/PidAutotuner/Cycles.antt =====
-- The measurements that onboard/src/pid_autotuner.cpp counts in its lists.
use coatheal_flight_software.Prelude.{
  ℕ, ◌+◌, ◌≤◌, ◌≡◌, refl, String, Bool, true, false, List, [], ◌∷◌, if◌then◌else◌, length, if_both,
  if_cases, not, arith,
}
use coatheal_flight_software.Prelude.Int.{pos, pos_part, leb_ℤ}
use coatheal_flight_software.Double.{Double, min_of, max_of}
use coatheal_flight_software.PidAutotuner.{
  running, done, Config, PidAutotuner, is_running, is_active, need, fail, abort, mean, ratio,
  finish, switch_off, switch_on, has_enough, advance, tick, start, results,
}

abbrev pub is_done : {W : Type 0} → PidAutotuner W → Bool
is_done t = elim t.state [ done ↦ true | _ ↦ false ]

abbrev pub one_if : Bool → ℕ
one_if b = if b then 1 else 0

-- While a tune runs: the lists count the switches of the relay, and there are too few periods.
pub record IsCounted {W : Type 0} (t : PidAutotuner W) : Type 0 where
  pub peaks : length t.peaks_c ≡ length t.periods_s + one_if t.have_on_switch
  pub first_on : t.first_on_phase ≡ true → t.relay_on ≡ true
  pub first_peaks : t.first_on_phase ≡ true → length t.peaks_c ≡ 0
  pub first_troughs : t.first_on_phase ≡ true → length t.troughs_c ≡ 0
  pub no_switch : t.have_on_switch ≡ false → length t.periods_s ≡ 0
  pub troughs : t.first_on_phase ≡ false → length t.troughs_c + one_if t.relay_on ≡ length t.peaks_c
  pub below : leb_ℤ (need t.cfg) (pos (length t.periods_s)) ≡ false

-- What a tune that is done has measured: as many periods as were asked for, one at least, as many
-- troughs, and one more peak; the amplitude and the period are not too small.
pub record IsMeasured {W : Type 0} ⦃d : Double W⦄ (t : PidAutotuner W) : Type 0 where
  pub used : t.result.cycles_used ≡ pos_part (need t.cfg)
  pub periods : length t.periods_s ≡ t.result.cycles_used
  pub troughs : length t.troughs_c ≡ t.result.cycles_used
  pub peaks : length t.peaks_c ≡ t.result.cycles_used + 1
  pub amplitude : d.lt t.result.amplitude_c (ratio 5 100) ≡ false
  pub period : d.lt t.result.tu_s (d.of_int (pos 5)) ≡ false

pub record IsOrderly {W : Type 0} ⦃d : Double W⦄ (t : PidAutotuner W) : Type 0 where
  pub counted : is_active t ≡ true → IsCounted t
  pub measured : is_done t ≡ true → IsMeasured t

-- A call of a public method that changes the state.
pub data Request (W : Type 0) : Type 0 where
  starting : Config W → W → Request W
  aborting : String → Request W
  ticking : Bool → W → W → Request W

module _ {W : Type 0} ⦃d : Double W⦄ where
  fail-IsOrderly : (reason : String) (t : PidAutotuner W) → IsOrderly (fail reason t)
  unfolding is_running
  fail-IsOrderly reason t = record { counted = λ h. ground arith; measured = λ h. ground arith }

  -- What the extremes of a phase do not change.
  extremes-IsCounted :
      (t : PidAutotuner W) (lo hi : W)
      → IsCounted t
      → IsCounted (record t { trough_c = lo; peak_c = hi })
  extremes-IsCounted t lo hi v = record {
    peaks = v.peaks;
    first_on = v.first_on;
    first_peaks = v.first_peaks;
    first_troughs = v.first_troughs;
    no_switch = v.no_switch;
    troughs = v.troughs;
    below = v.below;
  }

  switch_off-IsCounted :
      (t : PidAutotuner W) (temp : W)
      → t.relay_on ≡ true
      → IsCounted t
      → IsCounted (switch_off t temp)
  unfolding switch_off
  switch_off-IsCounted t temp r v = record {
    peaks = v.peaks;
    first_on = λ h. ground arith;
    first_peaks = λ h. ground arith;
    first_troughs = λ h. ground arith;
    no_switch = v.no_switch;
    troughs = λ h. ground (arith, v.troughs, v.first_peaks, v.first_troughs);
    below = v.below;
  }

  -- The counts after the relay switched on.
  record IsClosed (t : PidAutotuner W) : Type 0 where
    closed_troughs : length t.troughs_c ≡ length t.periods_s
    closed_peaks : length t.peaks_c ≡ length t.periods_s + 1
    switched : t.have_on_switch ≡ true
    not_first : t.first_on_phase ≡ false
    is_on : t.relay_on ≡ true

  switch_on-IsClosed :
      (t : PidAutotuner W) (temp now : W)
      → t.relay_on ≡ false
      → IsCounted t
      → IsClosed (switch_on t temp now)
  unfolding switch_on
  switch_on-IsClosed t temp now r v = record {
    closed_troughs = ground (arith, v.peaks, v.first_on, v.troughs, v.no_switch);
    closed_peaks = ground (arith, v.peaks, v.no_switch);
    switched = refl;
    not_first = ground (arith, v.first_on);
    is_on = refl;
  }

  IsClosed-IsCounted : (t : PidAutotuner W) → has_enough t ≡ false → IsClosed t → IsCounted t
  IsClosed-IsCounted t e v = record {
    peaks = ground (arith, v.closed_peaks, v.switched);
    first_on = λ h. v.is_on;
    first_peaks = λ h. ground (arith, v.not_first);
    first_troughs = λ h. ground (arith, v.not_first);
    no_switch = λ h. ground (arith, v.switched);
    troughs = λ h. ground (arith, v.closed_troughs, v.closed_peaks, v.is_on);
    below = ground (arith, v.closed_troughs, v.closed_peaks);
  }

  -- The last period was the first that is enough.
  need_met :
      (c : Config W) (m n : ℕ)
      → leb_ℤ (need c) (pos m) ≡ false
      → n ≤ m + 1
      → leb_ℤ (need c) (pos n) ≡ true
      → n ≡ pos_part (need c)
  need_met c m n a b h = ground arith

  switch_on-periods :
      (t : PidAutotuner W) (temp now : W)
      → length (switch_on t temp now).periods_s ≤ length t.periods_s + 1
  unfolding switch_on
  switch_on-periods t temp now = ground arith

  finish-IsOrderly :
      (t : PidAutotuner W)
      → IsClosed t
      → length t.periods_s ≡ pos_part (need t.cfg)
      → IsOrderly (finish t)
  unfolding finish results is_running
  finish-IsOrderly t v n =
      let amplitude = d.div (d.sub (mean t.peaks_c) (mean t.troughs_c)) (d.of_int (pos 2)) in
      let tu = mean t.periods_s in
      let finished : PidAutotuner W = record t {
        result = results t.cfg.relay_duty amplitude tu (length t.periods_s);
        state = done;
      } in
      if_cases IsOrderly (d.lt amplitude (ratio 5 100)) (λ e. fail-IsOrderly _ t)
        λ a.
          if_cases IsOrderly (d.lt tu (d.of_int (pos 5))) {y = finished} (λ e. fail-IsOrderly _ t)
            λ b. record {
              counted = λ h. ground (arith, h);
              measured = λ h. record {
                used = n;
                periods = refl;
                troughs = v.closed_troughs;
                peaks = v.closed_peaks;
                amplitude = a;
                period = b;
              };
            }

  -- A running tune whose counts are right is orderly.
  counted-IsOrderly : (t : PidAutotuner W) → t.state ≡ running → IsCounted t → IsOrderly t
  counted-IsOrderly t e v = record { counted = λ h. v; measured = λ h. ground (arith, e) }

  advance-IsOrderly :
      (t : PidAutotuner W) (temp now : W)
      → t.state ≡ running
      → IsCounted t
      → IsOrderly (advance t temp now).0
  unfolding advance switch_off switch_on
  advance-IsOrderly t temp now e v =
      let P : PidAutotuner W × W → Type 0 = λ r. IsOrderly r.0 in
      let on : PidAutotuner W = record t { trough_c = min_of t.trough_c temp } in
      let off : PidAutotuner W = record t { peak_c = max_of t.peak_c temp } in
      let closed = switch_on off temp now in
      let on_v : IsCounted on = extremes-IsCounted t (min_of t.trough_c temp) t.peak_c v in
      let off_v : IsCounted off = extremes-IsCounted t t.trough_c (max_of t.peak_c temp) v in
      if_cases P t.relay_on
        (λ r.
          if_both P _
            (counted-IsOrderly (switch_off on temp) e (switch_off-IsCounted on temp r on_v))
            (counted-IsOrderly on e on_v))
        λ r.
          let c = switch_on-IsClosed off temp now r off_v in
          if_both P _
            (if_cases P (has_enough closed)
              (λ h. finish-IsOrderly closed c (
                need_met t.cfg (length t.periods_s) (length closed.periods_s) v.below
                  (switch_on-periods off temp now) (ground (arith, h))))
              λ h. counted-IsOrderly closed e (IsClosed-IsCounted closed h c))
            (counted-IsOrderly off e off_v)

  active_state : (t : PidAutotuner W) → is_active t ≡ true → t.state ≡ running
  unfolding is_running
  active_state t h = ground arith

  need_positive : (c : Config W) → leb_ℤ (need c) (pos 0) ≡ false
  need_positive c = ground arith

  tick-IsOrderly :
      (t : PidAutotuner W) (valid : Bool) (temp now : W)
      → IsOrderly t
      → IsOrderly (tick t valid temp now).0
  unfolding tick
  tick-IsOrderly t valid temp now v =
      let P : PidAutotuner W × W → Type 0 = λ r. IsOrderly r.0 in
      if_cases P (not (is_active t)) (λ h. v)
        λ h. if_both P (not valid) (fail-IsOrderly _ t) (
          if_both P (d.le t.cfg.abort_ceiling_c temp) (fail-IsOrderly _ t) (
            if_both P (d.lt t.cfg.timeout_s (d.sub now t.start_s)) (fail-IsOrderly _ t) (
              advance-IsOrderly t temp now (active_state t (ground (arith, h)))
                (v.counted (ground (arith, h))))))

  -- `most` and `least` are `max()` and `lowest()` of `std::numeric_limits<double>`.
  module _ (most least : W) where
    start-IsOrderly :
        (c : Config W) (now : W) (t : PidAutotuner W) → IsOrderly (start most least c now t)
    unfolding start is_running
    start-IsOrderly c now t = record {
      counted = λ h. record {
        peaks = refl;
        first_on = λ h. refl;
        first_peaks = λ h. refl;
        first_troughs = λ h. refl;
        no_switch = λ h. refl;
        troughs = λ h. ground arith;
        below = need_positive c;
      };
      measured = λ h. ground arith;
    }

    unfoldable pub serve : PidAutotuner W → Request W → PidAutotuner W
    serve t (starting c now) = start most least c now t
    serve t (aborting reason) = abort reason t
    serve t (ticking valid temp now) = (tick t valid temp now).0

    unfoldable pub run : PidAutotuner W → List (Request W) → PidAutotuner W
    run t [] = t
    run t (r ∷ rs) = run (serve t r) rs

    serve-IsOrderly : (t : PidAutotuner W) (r : Request W) → IsOrderly t → IsOrderly (serve t r)
    unfolding serve abort
    serve-IsOrderly t (starting c now) v = start-IsOrderly c now t
    serve-IsOrderly t (aborting reason) v =
        if_both IsOrderly (is_active t) (fail-IsOrderly reason t) v
    serve-IsOrderly t (ticking valid temp now) v = tick-IsOrderly t valid temp now v

    -- Over any calls, while a tune runs the lists count the switches of its relay, and when one is done,
    -- it has measured exactly as many periods as were asked for, one at least, as many troughs and one
    -- more peak, and neither its amplitude nor its period is too small.
    pub run-IsOrderly :
        (t : PidAutotuner W) (rs : List (Request W)) → IsOrderly t → IsOrderly (run t rs)
    unfolding run
    run-IsOrderly t [] v = v
    run-IsOrderly t (r ∷ rs) v = run-IsOrderly (serve t r) rs (serve-IsOrderly t r v)
