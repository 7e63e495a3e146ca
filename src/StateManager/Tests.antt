-- ===== src/StateManager/Tests.antt =====
-- Ticks of onboard/src/state_manager.cpp on whole pressures.
use coatheal_flight_software.Prelude.{◌≤◌, ◌<◌, ◌≡◌, refl, true, false, [], ◌∷◌, length, arith}
use coatheal_flight_software.Prelude.Int.{ℤ, pos}
use coatheal_flight_software.Double.{int_double}
use coatheal_flight_software.Phase.{MissionPhase, ascent, pre_float, float, stopped}
use coatheal_flight_software.StateManager.{
  StateManager, StateOverrides, TransitionConfig, required, update,
}
use coatheal_flight_software.StateManager.Debounce.{
  IsDebounced, rank, can_follow, no_overrides, run, update-IsDebounced, update_follows, update-rank,
  ascent_debounce, pre_float_interrupted,
}

abbrev flight : TransitionConfig ℤ
flight = record {
  pre_float_mbar = pos 100;
  ascent_to_float_mbar = pos 60;
  float_to_descent_mbar = pos 120;
  descent_to_landed_mbar = pos 900;
  debounce_samples = pos 3;
}

abbrev climbing : StateManager
climbing = record {
  phase = ascent;
  debounce_pre_float = 2;
  debounce_float = 0;
  debounce_descent = 0;
  debounce_landed = 0;
}

climbing-IsDebounced : IsDebounced (required flight) climbing
climbing-IsDebounced = record {
  pre_float_lt = omega arith;
  float_lt = omega arith;
  descent_lt = omega arith;
  landed_lt = omega arith;
}

update-IsDebounced_example :
    IsDebounced (required flight) (update flight climbing (pos 90) no_overrides)
update-IsDebounced_example =
    update-IsDebounced flight climbing (pos 90) no_overrides climbing-IsDebounced

update_follows_example :
    can_follow ascent (update flight climbing (pos 90) no_overrides).phase ≡ true
update_follows_example = update_follows flight climbing (pos 90)

abbrev shutdown : StateOverrides
shutdown = record no_overrides { shutdown_safe = true }

update-rank_example :
    let m = update flight climbing (pos 90) shutdown in
    (rank ascent ≤ rank m.phase)
    × (true ≡ true → m.phase ≡ stopped)
    × (true ≡ false → climbing.phase ≡ MissionPhase.landed → m.phase ≡ MissionPhase.landed)
update-rank_example = update-rank flight climbing (pos 90) shutdown refl refl

ascent_debounce_example :
    let samples = pos 90 ∷ pos 100 ∷ pos 80 ∷ [] in
    (length samples < required flight → (run flight climbing (pos 101 ∷ samples)).phase ≡ ascent)
    × (length samples ≡ required flight
        → (run flight climbing (pos 101 ∷ samples)).phase ≡ pre_float)
unfolding int_double
ascent_debounce_example =
    ascent_debounce flight climbing (pos 101) (pos 90 ∷ pos 100 ∷ pos 80 ∷ []) refl refl
      (refl, (refl, (refl, tt)))

abbrev settling : StateManager
settling = record climbing { phase = pre_float; debounce_pre_float = 0; debounce_float = 2 }

pre_float_interrupted_example : (run flight settling (pos 130 ∷ pos 50 ∷ [])).phase ≡ float
unfolding int_double
pre_float_interrupted_example =
    pre_float_interrupted flight settling (pos 130) (pos 50) refl refl (omega arith) refl refl refl
