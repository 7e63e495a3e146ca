-- ===== src/Tmc5160Driver.antt =====
-- onboard/src/tmc5160_driver.cpp: `Tmc5160Driver`, over any bus and any chip. Every method runs under the
-- mutex, so each is one step. The texts of errors and warnings are left out.
pub mod Registers
pub mod Chip
pub mod State
pub mod Setup
pub mod Power
pub mod Fields
mod Tests
use coatheal_flight_software.Prelude.{
  ℕ, ◌+◌, ◌*◌, ◌-◌, ◌%◌, ◌^◌, String, Bool, true, false, not, ◌&&◌, ◌||◌, Option, none, some,
  if◌then◌else◌, ltb, leb, ◌==◌,
}
use coatheal_flight_software.Prelude.Int.{ℤ, pos, ◌+ℤ◌, ◌-ℤ◌, ◌==ℤ◌, pos_part}
use coatheal_flight_software.Double.{Double, nought}
use coatheal_flight_software.Tmc5160Driver.Registers.{
  StallDetect, off, monitor, stop, bit, to_i32, to_u32, is_supported_microstep, delta_xtarget,
  ioin_driver_disabled, encode_chopconf, gs_reg, ihold_irun, Currents, calculate_current,
}
use coatheal_flight_software.Tmc5160Driver.Chip.{Bus}
use coatheal_flight_software.Tmc5160Driver.State.{
  Tmc5160Driver, read, write, unhealthy, inc_32, inc_64, check_driver_status, check_position,
  k_reg_gstat, k_reg_ioin, k_reg_xactual, k_reg_xtarget, k_reg_chopconf,
}
use coatheal_flight_software.Tmc5160Driver.Setup.{
  and_then, expect, toff_of, recover_from_chip_reset, reinitialize,
}
use coatheal_flight_software.Tmc5160Driver.Power.{fail_unhealthy}

abbrev pub is_off : StallDetect → Bool
is_off off = true
is_off monitor = false
is_off stop = false

-- `physical_forward`.
abbrev pub moves_forward : Bool → Bool → Bool
moves_forward forward invert = if invert then not forward else forward

-- The next value of XTARGET, as an `std::int32_t`.
unfoldable pub next_target : ℤ → ℤ → Bool → ℤ
next_target target microstep forward =
    let delta = pos (delta_xtarget microstep) in
    to_i32 (to_u32 (if forward then target +ℤ delta else target -ℤ delta))

module _ {B W : Type 0} ⦃b : Bus B⦄ ⦃d : Double W⦄ where
  open d use {lt, le}

  -- The driver has a bus that is open, works and is enabled.
  abbrev pub is_live : Tmc5160Driver B W → Bool
  is_live t = t.cfg.has_bus && t.link.spi_open && t.healthy && t.enabled

  unfoldable pub poll : Tmc5160Driver B W → Bool × Tmc5160Driver B W
  poll t =
      let (kept, t₁) = recover_from_chip_reset "idle" t in
      let t₂ = check_position (check_driver_status false false t₁).1 in
      if not (is_live t) then (t.healthy, t) else if not kept then (false, t₁) else (t₂.healthy, t₂)

  unfoldable pub confirm_target : Tmc5160Driver B W → Bool × Tmc5160Driver B W
  confirm_target t =
      let (value, t₁) = read k_reg_xtarget t in
      let (written, t₂) =
        write k_reg_xtarget (to_u32 t.target)
          (record t₁ { xtarget_repairs = inc_32 t.xtarget_repairs }) in
      if not (is_live t) then (t.healthy, t) else elim value [
        | none ↦ (false, unhealthy t₁)
        | some xtarget ↦
            if to_i32 xtarget ==ℤ t.target
            then (true, t₁)
            else if not written
            then (false, unhealthy t₂)
            else fail_unhealthy (expect k_reg_xtarget (λ v. to_i32 v ==ℤ t.target) t₂)
      ]

  -- `StallSamplingActiveUnlocked`.
  abbrev pub is_sampling : Tmc5160Driver B W → Bool
  is_sampling t =
      not (is_off t.cfg.stall_detect)
      && not t.cfg.stealth_chop
      && t.step_rate_steady
      && le t.cfg.stall_min_step_hz t.step_rate_hz

  unfoldable pub note_step_rate : W → Bool → Tmc5160Driver B W → Tmc5160Driver B W
  note_step_rate full_step_hz steady t =
      let opened : Tmc5160Driver B W = if t.move_open then t else record t {
        move_open = true;
        sg_samples = 0;
        sg_last = 0;
        sg_min = 0;
        sg_low_run = 0;
        steps_since_sg_sample = 0;
        stall_logged_this_move = false;
      } in
      let rated : Tmc5160Driver B W = record opened {
        step_rate_hz = full_step_hz;
        step_rate_steady = steady;
      } in
      if not (lt nought full_step_hz)
      then record t {
        step_rate_hz = nought;
        step_rate_steady = false;
        move_open = false;
        sg_low_run = 0;
      }
      else if is_sampling rated && not (is_sampling opened)
      then record rated { steps_since_sg_sample = 0; sg_settle_samples = 1; sg_low_run = 0 }
      else if not (is_sampling rated)
      then record rated { sg_low_run = 0 }
      else rated

  -- Whether this step takes a sample, and the count of steps since the last.
  abbrev pub sample_due : Tmc5160Driver B W → Bool
  sample_due t = is_sampling t && leb (4 * pos_part t.microstep) (inc_32 t.steps_since_sg_sample)

  abbrev pub supervise_due : Tmc5160Driver B W → Bool
  supervise_due t = leb 64 (inc_32 t.steps_since_reset_check)

  -- The counters at the start of `Step`.
  abbrev pub count_step : Tmc5160Driver B W → Tmc5160Driver B W
  count_step t = record t {
    position_mismatch_polls = 0;
    steps_since_sg_sample =
        if is_sampling t && not (sample_due t) then inc_32 t.steps_since_sg_sample else 0;
    steps_since_reset_check = if supervise_due t then 0 else inc_32 t.steps_since_reset_check;
  }

  -- The write of the new target.
  unfoldable pub advance : Bool → Tmc5160Driver B W → Bool × Tmc5160Driver B W
  advance forward t =
      let next = next_target t.target t.microstep (moves_forward forward t.cfg.invert_direction) in
      let (ok, t₁) = write k_reg_xtarget (to_u32 next) t in
      if ok
      then (true, record t₁ { target = next; pulses = inc_64 t.pulses })
      else (false, unhealthy t₁)

  -- What the status byte of that write calls for.
  unfoldable pub check_reply : Tmc5160Driver B W → Bool × Tmc5160Driver B W
  check_reply t =
      if ltb 0 t.status_holdoff_steps
      then (true, record t { status_holdoff_steps = t.status_holdoff_steps - 1 })
      else if bit 0 t.link.last_spi_status || bit 1 t.link.last_spi_status
      then and_then
          (recover_from_chip_reset "step"
            (record t { status_holdoff_steps = 8; steps_since_reset_check = 0 }))
          (check_driver_status true false)
      else (true, t)

  -- The checks before a step.
  unfoldable pub supervise : Tmc5160Driver B W → Bool × Tmc5160Driver B W
  supervise t =
      let counted = count_step t in
      and_then (if supervise_due t then recover_from_chip_reset "step" counted else (true, counted))
        λ t₁.
          if supervise_due t || sample_due t
          then check_driver_status true (sample_due t) t₁
          else (true, t₁)

  unfoldable pub step : Bool → Tmc5160Driver B W → Bool × Tmc5160Driver B W
  step forward t =
      if not t.healthy || not t.enabled || t.short_active
      then (false, t)
      else and_then (supervise t) λ t₁. and_then (advance forward t₁) check_reply

  unfoldable pub set_microstep : ℤ → Tmc5160Driver B W → Tmc5160Driver B W
  set_microstep divisor t =
      let chopconf = encode_chopconf (toff_of t.enabled) in
      let set : Tmc5160Driver B W = record t { microstep = divisor } in
      if not (is_supported_microstep divisor)
      then unhealthy t
      else if not t.healthy
      then set
      else (fail_unhealthy (
          and_then (write k_reg_chopconf chopconf set)
            (expect k_reg_chopconf λ v. v == chopconf))).1

  unfoldable pub set_run_current : W → Tmc5160Driver B W → Bool × Tmc5160Driver B W
  set_run_current a_rms t =
      let stored : Tmc5160Driver B W → Bool × Tmc5160Driver B W =
        λ u. (true, record u { cfg = record u.cfg { run_current_a_rms = a_rms } }) in
      elim (calculate_current a_rms t.cfg.sense_resistor_ohm t.cfg.hold_current_frac) [
        | none ↦ (false, t)
        | some c ↦
            if not t.healthy
            then (false, t)
            else and_then
                (fail_unhealthy (and_then (write 11 (gs_reg c) t) (write 16 (ihold_irun c)))) stored
      ]
