-- ===== src/Tmc5160Driver/Registers.antt =====
-- The register fields of onboard/src/tmc5160_driver.cpp, and the currents that they stand for.
use coatheal_flight_software.Prelude.{
  ℕ, ◌+◌, ◌-◌, ◌*◌, ◌/◌, ◌%◌, ◌^◌, Bool, not, ◌||◌, Option, none, some, if◌then◌else◌, ltb, leb,
  ◌==◌,
}
use coatheal_flight_software.Prelude.Int.{ℤ, pos, negsuc, ◌-ℤ◌, ◌+ℤ◌, ltb_ℤ, pos_part}
use coatheal_flight_software.Double.{Double, nought, one}

-- `std::uint32_t` and `std::int32_t`.
abbrev pub u32 : ℕ → ℕ
u32 n = n % 2 ^ 32

unfoldable pub to_i32 : ℕ → ℤ
to_i32 n = if ltb (u32 n) (2 ^ 31) then pos (u32 n) else negsuc (2 ^ 32 - 1 - u32 n)

unfoldable pub to_u32 : ℤ → ℕ
to_u32 (pos n) = u32 n
to_u32 (negsuc n) = 2 ^ 32 - 1 - n % 2 ^ 32

-- `(value & (1 << k)) != 0`.
unfoldable pub bit : ℕ → ℕ → Bool
bit k value = value / 2 ^ k % 2 == 1

abbrev pub invalid_mres : ℕ
invalid_mres = 255

unfoldable pub encode_mres : ℤ → ℕ
encode_mres (negsuc n) = invalid_mres
encode_mres (pos n) =
    if n == 256
    then 0
    else if n == 128
    then 1
    else if n == 64
    then 2
    else if n == 32
    then 3
    else if n == 16
    then 4
    else if n == 8
    then 5
    else if n == 4
    then 6
    else if n == 2
    then 7
    else if n == 1
    then 8
    else invalid_mres

unfoldable pub is_supported_microstep : ℤ → Bool
is_supported_microstep divisor = not (encode_mres divisor == invalid_mres)

unfoldable pub delta_xtarget : ℤ → ℕ
delta_xtarget (negsuc n) = 0
delta_xtarget (pos n) = if is_supported_microstep (pos n) then 256 / n else 0

unfoldable pub ioin_step_dir_mode : ℕ → Bool
ioin_step_dir_mode ioin = bit 6 ioin

unfoldable pub ioin_driver_disabled : ℕ → Bool
ioin_driver_disabled ioin = bit 4 ioin

-- `std::clamp` of an `int`.
abbrev pub clamp_int : ℤ → ℤ → ℤ → ℤ
clamp_int v lo hi = if ltb_ℤ v lo then lo else if ltb_ℤ hi v then hi else v

-- The filter bit and the 7 bits of the threshold.
unfoldable pub encode_coolconf : ℤ → ℕ
encode_coolconf sgt = 2 ^ 24 + to_u32 (clamp_int sgt (negsuc 63) (pos 63)) % 128 * 2 ^ 16

unfoldable pub encode_chopconf : ℕ → ℕ
encode_chopconf toff = 2 * 2 ^ 15 + 4 * 2 ^ 4 + toff % 16

pub data StallDetect : Type 0 where
  off monitor stop : StallDetect

-- The current scale and the run and hold fields.
pub record Currents : Type 0 where
  pub globalscaler : ℕ
  pub irun : ℕ
  pub ihold : ℕ

-- `gs_reg`: 0 stands for 256.
unfoldable pub gs_reg : Currents → ℕ
gs_reg c = if leb 256 c.globalscaler then 0 else c.globalscaler

unfoldable pub ihold_irun : Currents → ℕ
ihold_irun c = c.ihold % 32 + c.irun % 32 * 2 ^ 8 + 6 * 2 ^ 16

module _ {W : Type 0} ⦃d : Double W⦄ where
  open d use {of_int, lt, le, mul, div, sqrt, is_finite, llround}

  abbrev pub num : ℕ → W
  num n = of_int (pos n)

  -- 0.325.
  abbrev pub k_vfs : W
  k_vfs = div (num 325) (num 1000)

  -- `irun` and the scale before it is rounded, or `none` if the least current is too high.
  unfoldable pub choose_scale : W → W → W → Option (ℤ × W)
  choose_scale i_peak sense_ohm fraction =
      let top = div k_vfs sense_ohm in
      let raw = mul (num 256) fraction in
      let low =
        clamp_int (llround (div (mul (mul (num 256) i_peak) sense_ohm) k_vfs) -ℤ pos 1) (pos 0)
          (pos 31) in
      let delivered =
        mul (mul (div (num 32) (num 256)) (div (of_int (low +ℤ pos 1)) (num 32))) top in
      if le fraction (div one (num 2))
      then if lt raw (num 32)
        then if lt (mul i_peak (div (num 110) (num 100))) delivered
          then none
          else some (low, num 32)
        else some (pos 31, raw)
      else some (llround (mul (num 32) fraction) -ℤ pos 1, num 256)

  abbrev pub rounded : W → ℤ × W → Currents
  rounded hold_frac (chosen, raw) =
      let irun = clamp_int chosen (pos 0) (pos 31) in
      let scale = to_u32 (llround raw) in
      record {
        globalscaler = if ltb scale 32 then 32 else if ltb 256 scale then 256 else scale;
        irun = pos_part irun;
        ihold =
            pos_part
              (clamp_int (llround (mul (of_int (irun +ℤ pos 1)) hold_frac) -ℤ pos 1) (pos 0) irun);
      }

  unfoldable pub calculate_current : W → W → W → Option Currents
  calculate_current a_rms sense_ohm hold_frac =
      let i_peak = mul a_rms (sqrt (num 2)) in
      let i_peak_max = div k_vfs sense_ohm in
      let chosen = choose_scale i_peak sense_ohm (div i_peak i_peak_max) in
      if not (is_finite a_rms) || not (is_finite sense_ohm) || not (is_finite hold_frac)
      then none
      else if le a_rms nought || le sense_ohm nought || lt hold_frac nought || lt one hold_frac
      then none
      else if lt i_peak_max i_peak
      then none
      else elim chosen [ none ↦ none | some c ↦ some (rounded hold_frac c) ]
