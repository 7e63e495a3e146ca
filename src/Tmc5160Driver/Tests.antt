-- ===== src/Tmc5160Driver/Tests.antt =====
-- The registers of onboard/src/tmc5160_driver.cpp at concrete values.
use coatheal_flight_software.Prelude.{◌≡◌, refl, true, some}
use coatheal_flight_software.Prelude.Int.{ℤ, pos, ltb_ℤ, leb_ℤ, ◌+ℤ◌, ◌-ℤ◌, ◌*ℤ◌}
use coatheal_flight_software.Double.{Double, quot, root}
use coatheal_flight_software.Tmc5160Driver.Registers.{
  Currents, calculate_current, choose_scale, to_u32,
}
use coatheal_flight_software.Tmc5160Driver.Fields.{IsFitting, calculate_current-IsFitting}

-- Thousandths; roots are cut off at 2.000.
instance unfoldable milli_double : Double ℤ
unfolding ◌+ℤ◌ ◌-ℤ◌ ◌*ℤ◌
milli_double = record {
  of_int = λ n. n *ℤ pos 1000;
  lt = ltb_ℤ;
  le = leb_ℤ;
  add = ◌+ℤ◌;
  sub = ◌-ℤ◌;
  mul = λ a b. quot (a *ℤ b) (pos 1000);
  div = λ a b. quot (a *ℤ pos 1000) b;
  sqrt = λ n. root 2000 (n *ℤ pos 1000);
  is_finite = λ n. true;
  trunc = λ n. quot n (pos 1000);
  llround = λ n. quot (n +ℤ pos 500) (pos 1000);
}

-- 1 A over 0.1 ohm, held at a half.
abbrev one_ampere : Currents
one_ampere = record { globalscaler = 111; irun = 31; ihold = 15 }

one_ampere_calculated :
    calculate_current ⦃d = milli_double⦄ (pos 1000) (pos 100) (pos 500) ≡ some one_ampere
unfolding calculate_current choose_scale milli_double ◌+ℤ◌ ◌-ℤ◌ ◌*ℤ◌ to_u32
one_ampere_calculated = refl

calculate_current-IsFitting_example : IsFitting one_ampere
calculate_current-IsFitting_example =
    calculate_current-IsFitting ⦃d = milli_double⦄ (pos 1000) (pos 100) (pos 500) one_ampere
      one_ampere_calculated
