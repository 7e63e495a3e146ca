-- ===== src/LinkBudget/Tests.antt =====
-- Calls of the ledger of onboard/src/link_budget.cpp on whole numbers.
use coatheal_flight_software.Prelude.{
  ℕ, ◌≤◌, ◌≡◌, ◌+◌, ◌*◌, ◌-◌, ◌^◌, ◌<◌, List, [], ◌∷◌, min, arith,
}
use coatheal_flight_software.Prelude.Int.{ℤ, pos}
use coatheal_flight_software.Double.{int_double}
use coatheal_flight_software.LinkBudget.{
  live, replay, init, in_window, try_charge, try_hold, admit, admit_egress, refill_egress,
  more_urgent_waiting, release_at,
}
use coatheal_flight_software.LinkBudget.Ledger.{wire, counted}
use coatheal_flight_software.LinkBudget.Calls.{
  Call, charges, holds, releases, AllAllowed, serve, run, no_charges,
}
use coatheal_flight_software.LinkBudget.Window.{wire-run, in_window-run}
use coatheal_flight_software.LinkBudget.Wire.{
  tcp_segment_count, tcp_bytes, mss, tcp_segment_count_least,
}

-- A charge, a hold, its close, and a hold that fits no more.
abbrev beacons : List (ℕ × Call)
beacons =
    (0, charges 700 live 0)
    ∷ (1, holds 600 replay 0)
    ∷ (5, releases 2 6)
    ∷ (7, holds 500 live 0)
    ∷ []

beacons-AllAllowed : AllAllowed {W = ℤ} pos 0 beacons (init 1600 10)
unfolding AllAllowed serve init try_charge try_hold admit admit_egress refill_egress in_window
    more_urgent_waiting release_at int_double
beacons-AllAllowed = ground arith

wire-run_example : wire 10 9 (run {W = ℤ} pos beacons (init 1600 10) no_charges).1.charges ≤ 1600
wire-run_example =
    wire-run {W = ℤ} pos 1600 10 beacons (omega arith) (omega arith) beacons-AllAllowed 9

in_window-run_example :
    (in_window 12 (run {W = ℤ} pos beacons (init 1600 10) no_charges).0).1
    ≡ min (counted 10 12 (run {W = ℤ} pos beacons (init 1600 10) no_charges).1.charges) (2 ^ 32 - 1)
in_window-run_example =
    in_window-run {W = ℤ} pos 1600 10 beacons 12 (omega arith) (omega arith) beacons-AllAllowed
      (omega arith)

tcp_segment_count_least_example :
    (1 ≤ tcp_segment_count 600)
    × (600 ≤ tcp_segment_count 600 * mss)
    × (1 < tcp_segment_count 600 → (tcp_segment_count 600 - 1) * mss < 600)
    × (tcp_bytes 600 ≡ tcp_segment_count 600 * 90 + 600)
tcp_segment_count_least_example = tcp_segment_count_least 600 (omega arith)
