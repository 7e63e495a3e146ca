-- ===== src/Tmc5160Driver/Fields.antt =====
-- What fits the registers of onboard/src/tmc5160_driver.cpp.
use coatheal_flight_software.Prelude.{
  ℕ, ◌-◌, ◌^◌, ◌≤◌, ◌<◌, ◌≡◌, ap, ◌∙◌, false, not, ◌||◌, Option, none, some, subst, option_both,
  if_both, arith,
}
use coatheal_flight_software.Prelude.Int.{ℤ, pos, negsuc, pos_part, ltb_ℤ, ◌+ℤ◌, ◌-ℤ◌}
use coatheal_flight_software.Double.{Double, nought, one}
use coatheal_flight_software.Tmc5160Driver.Registers.{
  Currents, to_i32, to_u32, clamp_int, calculate_current, k_vfs, rounded,
}
use coatheal_flight_software.Tmc5160Driver.Chip.{value_of, write_datagram}

-- Every field is in the range of its register.
pub record IsFitting (c : Currents) : Type 0 where
  pub scale_low : 32 ≤ c.globalscaler
  pub scale_high : c.globalscaler ≤ 256
  pub run : c.irun ≤ 31
  pub hold : c.ihold ≤ c.irun

-- The currents, if there are any, fit.
FitsIfAny : Option Currents → Type 0
FitsIfAny none = Unit
FitsIfAny (some c) = IsFitting c

no_currents : FitsIfAny none
unfolding FitsIfAny
no_currents = tt

some_currents : (c : Currents) → IsFitting c → FitsIfAny (some c)
unfolding FitsIfAny
some_currents c h = h

clamp_int-low : (v : ℤ) (n : ℕ) → pos_part (clamp_int v (pos 0) (pos n)) ≤ n
clamp_int-low v n = ground arith

clamp_int-below :
    (v w : ℤ) (n : ℕ)
    → pos_part (clamp_int v (pos 0) (clamp_int w (pos 0) (pos n)))
      ≤ pos_part (clamp_int w (pos 0) (pos n))
clamp_int-below v w n = ground arith

module _ {W : Type 0} ⦃d : Double W⦄ where
  rounded-IsFitting : (hold : W) (chosen : ℤ) (raw : W) → IsFitting (rounded hold (chosen, raw))
  rounded-IsFitting hold chosen raw = record {
    scale_low = ground arith;
    scale_high = ground arith;
    run = clamp_int-low chosen 31;
    hold =
        clamp_int-below
          (d.llround (d.mul (d.of_int (clamp_int chosen (pos 0) (pos 31) +ℤ pos 1)) hold) -ℤ pos 1)
          chosen 31;
  }

  calculate_current-FitsIfAny :
      (a_rms sense_ohm hold_frac : W) → FitsIfAny (calculate_current a_rms sense_ohm hold_frac)
  unfolding calculate_current
  calculate_current-FitsIfAny a_rms sense_ohm hold_frac =
      if_both FitsIfAny
        (not (d.is_finite a_rms) || not (d.is_finite sense_ohm) || not (d.is_finite hold_frac))
        no_currents
        (if_both FitsIfAny
          (d.le a_rms nought
            || d.le sense_ohm nought
            || d.lt hold_frac nought
            || d.lt one hold_frac)
          no_currents
          (if_both FitsIfAny
            (d.lt (d.div k_vfs sense_ohm) (d.mul a_rms (d.sqrt (d.of_int (pos 2))))) no_currents
            (option_both FitsIfAny _ no_currents λ (c : ℤ × W).
              some_currents (rounded hold_frac c) (rounded-IsFitting hold_frac c.0 c.1))))

  -- Whatever the rounding of `double`, the currents that are calculated fit their register fields, and
  -- the hold current is not above the run current.
  pub calculate_current-IsFitting :
      (a_rms sense_ohm hold_frac : W) (c : Currents)
      → calculate_current a_rms sense_ohm hold_frac ≡ some c
      → IsFitting c
  unfolding FitsIfAny
  calculate_current-IsFitting a_rms sense_ohm hold_frac c e =
      subst FitsIfAny e (calculate_current-FitsIfAny a_rms sense_ohm hold_frac)

to_i32-to_u32_pos : (n : ℕ) → n < 2 ^ 31 → to_i32 (to_u32 (pos n)) ≡ pos n
unfolding to_i32 to_u32
to_i32-to_u32_pos n h = ground arith

to_i32-to_u32_negsuc : (n : ℕ) → n < 2 ^ 31 → to_i32 (to_u32 (negsuc n)) ≡ negsuc n
unfolding to_i32 to_u32
to_i32-to_u32_negsuc n h = ground arith

-- `z` is in the range of `std::int32_t`.
pub record IsInt32 (z : ℤ) : Type 0 where
  pub above : pos_part z < 2 ^ 31
  pub below : ltb_ℤ z (negsuc (2 ^ 31 - 1)) ≡ false

to_i32-to_u32 : (z : ℤ) → IsInt32 z → to_i32 (to_u32 z) ≡ z
to_i32-to_u32 (pos n) h = to_i32-to_u32_pos n h.above
to_i32-to_u32 (negsuc n) h = to_i32-to_u32_negsuc n (ground (arith, h.below))

value_of-write_datagram :
    (address value : ℕ) → value < 2 ^ 32 → value_of (write_datagram address value) ≡ value
unfolding value_of write_datagram
value_of-write_datagram address value h = omega arith

to_u32-below : (z : ℤ) → to_u32 z < 2 ^ 32
unfolding to_u32
to_u32-below (pos n) = omega arith
to_u32-below (negsuc n) = omega arith

-- A target within 32 bits is read back from the four bytes of the datagram that writes it.
pub target-write_datagram :
    (address : ℕ) (target : ℤ)
    → IsInt32 target
    → to_i32 (value_of (write_datagram address (to_u32 target))) ≡ target
target-write_datagram address target h =
    ap to_i32 (value_of-write_datagram address (to_u32 target) (to_u32-below target))
    ∙ to_i32-to_u32 target h
