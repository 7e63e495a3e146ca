-- ===== src/Tmc5160Driver/Power.antt =====
-- How onboard/src/tmc5160_driver.cpp turns the power stage on and off.
use coatheal_flight_software.Prelude.{Bool, true, false, not, ◌&&◌, none, some, if◌then◌else◌}
use coatheal_flight_software.Double.{Double}
use coatheal_flight_software.Tmc5160Driver.Registers.{to_i32, ioin_driver_disabled, encode_chopconf}
use coatheal_flight_software.Tmc5160Driver.Chip.{Bus}
use coatheal_flight_software.Tmc5160Driver.State.{
  Tmc5160Driver, read, write, unhealthy, check_driver_status, k_reg_ioin, k_reg_xactual,
  k_reg_xtarget, k_reg_chopconf,
}
use coatheal_flight_software.Tmc5160Driver.Setup.{
  and_then, expect, recover_from_chip_reset, reinitialize,
}

module _ {B W : Type 0} ⦃b : Bus B⦄ ⦃d : Double W⦄ where
  -- The enable line, which is left alone without GPIO.
  unfoldable pub drive_enable : Bool → Tmc5160Driver B W → Bool × Tmc5160Driver B W
  drive_enable level t =
      let (ok, bus) = b.set_enable_line level t.link.bus in
      if not (t.cfg.use_gpio && t.link.has_handles)
      then (true, t)
      else if ok
      then (true, record t { link = record t.link { bus = bus } })
      else (
        false,
        record t { link = record t.link { bus = bus; gpio_healthy = false }; healthy = false },
      )

  -- XTARGET becomes the position at which the motor is, and the chopper stops.
  unfoldable pub freeze : Tmc5160Driver B W → Bool × Tmc5160Driver B W
  freeze t =
      let (value, t₁) = read k_reg_xactual t in
      elim value [
        | none ↦ (false, unhealthy t₁)
        | some xactual ↦
            let (moved, t₂) = write k_reg_xtarget xactual t₁ in
            let (cut, t₃) =
              write k_reg_chopconf (encode_chopconf 0) (record t₂ { target = to_i32 xactual }) in
            if not moved
            then (false, unhealthy t₂)
            else if cut
            then (true, t₃)
            else (false, unhealthy t₃)
      ]

  -- Whether the enable line reaches the chip, after it was driven to disable it.
  unfoldable pub verify_disabled : Tmc5160Driver B W → Bool × Tmc5160Driver B W
  verify_disabled t =
      let (value, t₁) = read k_reg_ioin t in
      elim value [
        | none ↦ (false, unhealthy t₁)
        | some ioin ↦ (
          true,
          record t₁ {
            enable_line_effective = ioin_driver_disabled ioin;
            enable_warning_logged = not (ioin_driver_disabled ioin);
          },
        )
      ]

  -- `Enable(false)`.
  unfoldable pub disable : Tmc5160Driver B W → Bool × Tmc5160Driver B W
  disable t =
      let (frozen, t₁) = freeze t in
      let (driven, t₂) = drive_enable t.cfg.enable_active_low t₁ in
      let cut : Tmc5160Driver B W = record t₂ { enabled = false } in
      if not t.cfg.has_bus
      then (false, t)
      else if frozen && driven && t.verify_enable_line
      then verify_disabled cut
      else (frozen && driven, cut)

  abbrev pub fail_unhealthy : Bool × Tmc5160Driver B W → Bool × Tmc5160Driver B W
  fail_unhealthy (true, t) = (true, t)
  fail_unhealthy (false, t) = (false, unhealthy t)

  -- The end of `Enable(true)`: the latches are released, and the chip's flags read again.
  unfoldable pub release : Tmc5160Driver B W → Bool × Tmc5160Driver B W
  release t = (
    true,
    (check_driver_status false false (record t {
      enabled = true;
      ot_latched = false;
      otpw_now = false;
      short_active = false;
      open_load_active = false;
      open_load_logged = false;
      position_mismatch_polls = 0;
    })).1,
  )

  -- The enable line must have reached the chip.
  unfoldable pub verify_enabled : Tmc5160Driver B W → Bool × Tmc5160Driver B W
  verify_enabled t =
      if t.verify_enable_line
      then fail_unhealthy (expect k_reg_ioin (λ ioin. not (ioin_driver_disabled ioin)) t)
      else (true, t)

  -- `Enable(true)`.
  unfoldable pub enable_on : Tmc5160Driver B W → Bool × Tmc5160Driver B W
  enable_on t =
      if not t.cfg.has_bus
      then (false, t)
      else and_then (drive_enable (not t.cfg.enable_active_low) t) λ t₁.
        and_then (if t₁.healthy then (true, t₁) else reinitialize t₁) λ t₂.
          and_then (recover_from_chip_reset "enable" t₂) λ t₃.
            and_then (verify_enabled (record t₃ { steps_since_reset_check = 0 }))
              λ t₄. and_then (fail_unhealthy (write k_reg_chopconf (encode_chopconf 3) t₄)) release

  unfoldable pub enable : Bool → Tmc5160Driver B W → Bool × Tmc5160Driver B W
  enable on t = if on then enable_on t else disable t
