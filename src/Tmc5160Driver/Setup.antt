-- ===== src/Tmc5160Driver/Setup.antt =====
-- How onboard/src/tmc5160_driver.cpp configures the chip, and finds that the chip has lost it.
use coatheal_flight_software.Prelude.{
  ℕ, ◌+◌, ◌*◌, ◌/◌, ◌%◌, ◌^◌, String, Bool, true, false, not, ◌&&◌, ◌||◌, Option, none, some, List,
  [], ◌∷◌, if◌then◌else◌, ◌==◌,
}
use coatheal_flight_software.Prelude.Int.{pos}
use coatheal_flight_software.Double.{Double}
use coatheal_flight_software.Tmc5160Driver.Registers.{
  Currents, bit, is_supported_microstep, ioin_step_dir_mode, encode_coolconf, encode_chopconf,
  gs_reg, ihold_irun, calculate_current,
}
use coatheal_flight_software.Tmc5160Driver.Chip.{
  Bus, Tmc5160Config, open_spi, open_gpio, close_gpio,
}
use coatheal_flight_software.Tmc5160Driver.State.{
  Tmc5160Driver, read, write, unhealthy, record_step_loss, undervoltage, chip_reset, inc_32,
  k_reg_gconf, k_reg_gstat, k_reg_ioin, k_reg_xactual, k_reg_xtarget, k_reg_chopconf,
}

-- The next step, if the one before succeeded.
abbrev pub and_then : {T : Type 0} → Bool × T → (T → Bool × T) → Bool × T
and_then (false, t) f = (false, t)
and_then (true, t) f = f t

abbrev pub toff_of : Bool → ℕ
toff_of enabled = if enabled then 3 else 0

-- kGconfEnPwmMode.
abbrev pub gconf_of : {W : Type 0} → Tmc5160Config W → ℕ
gconf_of c = if c.stealth_chop then 4 else 0

-- The registers that `ReinitializeUnlocked` writes, in order.
unfoldable pub settings : {W : Type 0} → Tmc5160Config W → Bool → Currents → List (ℕ × ℕ)
settings c enabled currents =
    (k_reg_gconf, gconf_of c)
    ∷ (k_reg_chopconf, encode_chopconf (toff_of enabled))
    ∷ (109, encode_coolconf c.stallguard_sgt)
    ∷ (11, gs_reg currents)
    ∷ (16, ihold_irun currents)
    ∷ (17, 10)
    ∷ (32, 0)
    ∷ (35, 0)
    ∷ (43, 10)
    ∷ (36, 65535)
    ∷ (38, 65535)
    ∷ (37, 0)
    ∷ (42, 65535)
    ∷ (40, 65535)
    ∷ (39, 4 * 100 * 256)
    ∷ (k_reg_xactual, 0)
    ∷ (k_reg_xtarget, 0)
    ∷ []

-- The version in IOIN is 0x30, and the chip is not strapped for STEP/DIR.
abbrev pub is_good_ioin : ℕ → Bool
is_good_ioin ioin = ioin / 2 ^ 24 % 256 == 48 && not (ioin_step_dir_mode ioin)

abbrev pub currents_of : {W : Type 0} ⦃d : Double W⦄ → Tmc5160Config W → Option Currents
currents_of c = calculate_current c.run_current_a_rms c.sense_resistor_ohm c.hold_current_frac

module _ {B W : Type 0} ⦃b : Bus B⦄ where
  unfoldable pub write_all : List (ℕ × ℕ) → Tmc5160Driver B W → Bool × Tmc5160Driver B W
  write_all [] t = (true, t)
  write_all ((address, value) ∷ rest) t = and_then (write address value t) (write_all rest)

  -- A read whose value must pass a test.
  unfoldable pub expect : ℕ → (ℕ → Bool) → Tmc5160Driver B W → Bool × Tmc5160Driver B W
  expect address test t =
      let (value, t₁) = read address t in elim value [ none ↦ (false, t₁) | some v ↦ (test v, t₁) ]

  -- The GPIO lines and the bus are opened again if they are not open.
  unfoldable pub open_lines : Tmc5160Driver B W → Bool × Tmc5160Driver B W
  open_lines t =
      let (gpio_ok, l₁) =
        if t.cfg.use_gpio && not t.link.gpio_healthy
        then open_gpio t.cfg (close_gpio t.cfg t.link)
        else (true, t.link) in
      let (spi_ok, l₂) = if l₁.spi_open then (true, l₁) else open_spi t.cfg l₁ in
      if not gpio_ok then (false, record t { link = l₁ }) else (spi_ok, record t { link = l₂ })

  unfoldable pub apply_settings : Currents → Tmc5160Driver B W → Bool × Tmc5160Driver B W
  apply_settings currents t =
      let chopconf = encode_chopconf (toff_of t.enabled) in
      and_then (write_all (settings t.cfg t.enabled currents) t) λ t₁.
        and_then (expect k_reg_gconf (λ v. v == gconf_of t.cfg) (record t₁ { target = pos 0 }))
          λ t₂. and_then (expect k_reg_chopconf (λ v. v == chopconf) t₂) (write k_reg_gstat 7)

  module _ ⦃d : Double W⦄ where
    -- The steps of `ReinitializeUnlocked`.
    unfoldable pub configure : Tmc5160Driver B W → Bool × Tmc5160Driver B W
    configure t =
        if not t.cfg.has_bus
        then (false, t)
        else and_then (open_lines t) λ t₁.
          if not (is_supported_microstep t₁.microstep)
          then (false, t₁)
          else and_then (expect k_reg_ioin is_good_ioin t₁) λ t₂. elim (currents_of t₂.cfg) [
            | none ↦ (false, t₂)
            | some currents ↦ apply_settings currents t₂
          ]

    unfoldable pub reinitialize : Tmc5160Driver B W → Bool × Tmc5160Driver B W
    reinitialize t =
        let (ok, t₁) = configure t in
        if ok
        then (
          true,
          record t₁ {
            healthy = true;
            uv_cp_active = false;
            drv_err_active = false;
            drv_err_unexplained = false;
            position_mismatch_polls = 0;
          },
        )
        else (false, unhealthy t₁)

    -- The flags of GSTAT when the chip has not been reset.
    unfoldable pub note_gstat : ℕ → Tmc5160Driver B W → Bool × Tmc5160Driver B W
    note_gstat gstat t =
        let uv_cp = bit 2 gstat in
        let drv_err = bit 1 gstat in
        let rising = uv_cp && not t.uv_cp_active in
        let counted : Tmc5160Driver B W =
          if rising then record t { uv_cp_events = inc_32 t.uv_cp_events } else t in
        let lost : Tmc5160Driver B W =
          if rising && t.enabled then record_step_loss undervoltage false counted else counted in
        let noted : Tmc5160Driver B W = record lost {
          uv_cp_active = uv_cp;
          drv_err_unexplained = drv_err && not t.drv_err_active || t.drv_err_unexplained;
          drv_err_active = drv_err;
        } in
        let (ok, t₁) =
          write k_reg_gstat ((if uv_cp then 4 else 0) + (if drv_err then 2 else 0)) noted in
        if not (uv_cp || drv_err)
        then (true, noted)
        else if ok
        then (true, t₁)
        else (false, unhealthy t₁)

    -- A chip that was reset is configured again.
    unfoldable pub restore : String → Tmc5160Driver B W → Bool × Tmc5160Driver B W
    restore where_found t =
        let (ok, t₁) = reinitialize (record t { reset_count = inc_32 t.reset_count }) in
        let zeroed : Tmc5160Driver B W = record t₁ { target = pos 0 } in
        if not ok
        then (false, unhealthy t₁)
        else if t.enabled
        then (true, record_step_loss (chip_reset where_found) false zeroed)
        else (true, zeroed)

    -- `RecoverFromChipResetUnlocked`.
    unfoldable pub recover_from_chip_reset : String → Tmc5160Driver B W → Bool × Tmc5160Driver B W
    recover_from_chip_reset where_found t =
        let (value, t₁) = read k_reg_gstat t in
        elim value [
          | none ↦ (false, unhealthy t₁)
          | some gstat ↦ if bit 0 gstat then restore where_found t₁ else note_gstat gstat t₁
        ]
