-- ===== src/Tmc5160Driver/State.antt =====
-- The state of the driver of onboard/src/tmc5160_driver.cpp and its supervision of the chip. The texts of
-- the reported errors are left out.
use coatheal_flight_software.Prelude.{
  ℕ, ◌+◌, ◌-◌, ◌%◌, ◌^◌, String, Bool, true, false, not, ◌&&◌, ◌||◌, Option, none, some,
  if◌then◌else◌, ltb, ◌==◌,
}
use coatheal_flight_software.Prelude.Int.{ℤ, pos, leb_ℤ, ◌==ℤ◌}
use coatheal_flight_software.Tmc5160Driver.Registers.{StallDetect, off, monitor, stop, bit, to_i32}
use coatheal_flight_software.Tmc5160Driver.Chip.{
  Bus, Link, Tmc5160Config, read_register, write_register,
}

-- What a recorded step loss was; the source writes the texts.
pub data LossReason : Type 0 where
  short_circuit : ℕ → LossReason
  driver_error : LossReason
  undervoltage : LossReason
  chip_reset : String → LossReason
  stall : ℕ → LossReason
  position : ℤ → ℤ → LossReason

pub record Tmc5160Driver (B W : Type 0) : Type 0 where
  pub cfg : Tmc5160Config W
  pub link : Link B
  pub healthy : Bool
  pub enabled : Bool
  pub microstep : ℤ
  pub target : ℤ
  pub pulses : ℕ
  pub verify_enable_line : Bool
  pub enable_line_effective : Bool
  pub enable_warning_logged : Bool
  pub reset_count : ℕ
  pub steps_since_reset_check : ℕ
  pub otpw_now : Bool
  pub ot_latched : Bool
  pub otpw_events : ℕ
  pub step_loss_count : ℕ
  pub step_loss_reason : Option LossReason
  pub step_loss_stop : Bool
  pub status_holdoff_steps : ℕ
  pub uv_cp_active : Bool
  pub drv_err_active : Bool
  pub drv_err_unexplained : Bool
  pub short_active : Bool
  pub open_load_active : Bool
  pub open_load_logged : Bool
  pub uv_cp_events : ℕ
  pub short_events : ℕ
  pub open_load_events : ℕ
  pub xtarget_repairs : ℕ
  pub position_mismatch_polls : ℕ
  pub step_rate_hz : W
  pub step_rate_steady : Bool
  pub move_open : Bool
  pub steps_since_sg_sample : ℕ
  pub sg_settle_samples : ℕ
  pub sg_low_run : ℕ
  pub sg_samples : ℕ
  pub sg_last : ℕ
  pub sg_min : ℕ
  pub stall_verdicts : ℕ
  pub stall_logged_this_move : Bool

abbrev pub k_reg_gconf : ℕ
k_reg_gconf = 0

abbrev pub k_reg_gstat : ℕ
k_reg_gstat = 1

abbrev pub k_reg_ioin : ℕ
k_reg_ioin = 4

abbrev pub k_reg_xactual : ℕ
k_reg_xactual = 33

abbrev pub k_reg_xtarget : ℕ
k_reg_xtarget = 45

abbrev pub k_reg_chopconf : ℕ
k_reg_chopconf = 108

abbrev pub k_reg_drv_status : ℕ
k_reg_drv_status = 111

-- Any of the four flags of `kDrvShortMask`.
unfoldable pub is_short : ℕ → Bool
is_short drv = bit 12 drv || bit 13 drv || bit 27 drv || bit 28 drv

-- A counter of 32 or 64 bits goes up; the latter starts again after 2 ^ 64.
abbrev pub inc_32 : ℕ → ℕ
inc_32 n = (n + 1) % 2 ^ 32

abbrev pub inc_64 : ℕ → ℕ
inc_64 n = (n + 1) % 2 ^ 64

abbrev pub is_stop : StallDetect → Bool
is_stop stop = true
is_stop off = false
is_stop monitor = false

module _ {B W : Type 0} where
  abbrev pub unhealthy : Tmc5160Driver B W → Tmc5160Driver B W
  unhealthy t = record t { healthy = false }

  -- `RecordStepLossUnlocked`.
  unfoldable pub record_step_loss : LossReason → Bool → Tmc5160Driver B W → Tmc5160Driver B W
  record_step_loss reason stops t = record t {
    step_loss_count = inc_64 t.step_loss_count;
    step_loss_reason = some reason;
    step_loss_stop = t.step_loss_stop || stops;
  }

  unfoldable pub take_step_loss_stop : Tmc5160Driver B W → Bool × Tmc5160Driver B W
  take_step_loss_stop t = (t.step_loss_stop, record t { step_loss_stop = false })

  -- The parts of `CheckDriverStatusUnlocked`, for the value of DRV_STATUS.
  unfoldable pub note_thermal : ℕ → Tmc5160Driver B W → Tmc5160Driver B W
  note_thermal drv t = record t {
    otpw_events = if bit 26 drv && not t.otpw_now then inc_32 t.otpw_events else t.otpw_events;
    otpw_now = bit 26 drv;
    ot_latched = bit 25 drv || t.ot_latched;
  }

  unfoldable pub note_short : ℕ → Bool → Tmc5160Driver B W → Tmc5160Driver B W
  note_short drv stepping t =
      let seen : Tmc5160Driver B W = record t {
        short_events = inc_32 t.short_events;
        short_active = true;
      } in
      if not (is_short drv) || t.short_active
      then t
      else if t.enabled
      then record_step_loss (short_circuit drv) (not stepping) seen
      else seen

  unfoldable pub note_driver_error : ℕ → Tmc5160Driver B W → Tmc5160Driver B W
  note_driver_error drv t =
      let known : Tmc5160Driver B W = record t { drv_err_unexplained = false } in
      if not t.drv_err_unexplained
      then t
      else if not (is_short drv) && not (bit 25 drv) && not t.ot_latched && t.enabled
      then record_step_loss driver_error false known
      else known

  unfoldable pub note_open_load : ℕ → Tmc5160Driver B W → Tmc5160Driver B W
  note_open_load drv t =
      let open_load = bit 29 drv || bit 30 drv in
      let rising = open_load && not t.open_load_active in
      record t {
        open_load_events = if rising then inc_32 t.open_load_events else t.open_load_events;
        open_load_logged = rising || t.open_load_logged;
        open_load_active = open_load;
      }

  -- One sample of StallGuard; the result is whether the move goes on.
  unfoldable pub sample_stallguard : ℕ → Tmc5160Driver B W → Bool × Tmc5160Driver B W
  sample_stallguard drv t =
      let sg = drv % 1024 in
      let low_run = if leb_ℤ (pos sg) t.cfg.stall_sg_min then t.sg_low_run + 1 else 0 in
      let sampled : Tmc5160Driver B W = record t {
        sg_last = sg;
        sg_min = if t.sg_samples == 0 || ltb sg t.sg_min then sg else t.sg_min;
        sg_samples = inc_32 t.sg_samples;
        sg_low_run = low_run;
      } in
      let verdict : Tmc5160Driver B W = record sampled {
        stall_verdicts = inc_32 t.stall_verdicts;
      } in
      if ltb 0 t.sg_settle_samples
      then (true, record t { sg_settle_samples = t.sg_settle_samples - 1 })
      else if not (pos low_run ==ℤ t.cfg.stall_confirm_samples)
      then (true, sampled)
      else if is_stop t.cfg.stall_detect
      then (false, record_step_loss (stall sg) true (record verdict { sg_low_run = 0 }))
      else (true, record verdict { stall_logged_this_move = true })

  -- What the value of DRV_STATUS does; the result is whether the move goes on.
  unfoldable pub note_status : ℕ → Bool → Bool → Tmc5160Driver B W → Bool × Tmc5160Driver B W
  note_status drv stepping samples t =
      let t₁ = note_driver_error drv (note_short drv stepping (note_thermal drv t)) in
      let t₂ = if stepping then note_open_load drv t₁ else t₁ in
      if is_short drv && stepping
      then (false, t₂)
      else if samples
      then sample_stallguard drv t₂
      else (true, t₂)

  module _ ⦃b : Bus B⦄ where
    unfoldable pub write : ℕ → ℕ → Tmc5160Driver B W → Bool × Tmc5160Driver B W
    write address value t =
        let (ok, l) = write_register t.cfg address value t.link in (ok, record t { link = l })

    unfoldable pub read : ℕ → Tmc5160Driver B W → Option ℕ × Tmc5160Driver B W
    read address t =
        let (value, l) = read_register t.cfg address t.link in (value, record t { link = l })

    -- `CheckDriverStatusUnlocked`; without an answer the move goes on.
    unfoldable pub check_driver_status : Bool → Bool → Tmc5160Driver B W → Bool × Tmc5160Driver B W
    check_driver_status stepping samples t =
        let (value, t₁) = read k_reg_drv_status t in
        elim value [ none ↦ (true, t₁) | some drv ↦ note_status drv stepping samples t₁ ]

    -- `CheckPositionUnlocked`.
    unfoldable pub check_position : Tmc5160Driver B W → Tmc5160Driver B W
    check_position t =
        let (value, t₁) = read k_reg_xactual t in
        elim value [
          | none ↦ t₁
          | some xactual ↦
              let clear : Tmc5160Driver B W = record t₁ { position_mismatch_polls = 0 } in
              if to_i32 xactual ==ℤ t.target
              then clear
              else if ltb (t.position_mismatch_polls + 1) 2
              then record t₁ { position_mismatch_polls = t.position_mismatch_polls + 1 }
              else unhealthy (record_step_loss (position (to_i32 xactual) t.target) true clear)
        ]
