-- ===== src/ControlTick/Link.antt =====
-- The watch on the link in `Run` of onboard/src/system_controller.cpp.
use coatheal_flight_software.Prelude.{Bool, true, false, not, ◌&&◌, if◌then◌else◌}
use coatheal_flight_software.Double.{Double, nought}

-- onboard/include/coatheal/system_mode.hpp.
pub data SystemMode : Type 0 where
  standby run safe : SystemMode

unfoldable pub is_run : SystemMode → Bool
is_run run = true
is_run standby = false
is_run safe = false

pub record ManualConfig (W : Type 0) : Type 0 where
  pub manual_first : Bool
  pub link_loss_fallback_enabled : Bool
  pub link_loss_fallback_s : W

pub record LinkWatch (W : Type 0) : Type 0 where
  pub link_seen : Bool
  pub link_loss_s : W
  pub fallback_active : Bool
  pub was_active : Bool

-- What a tick reads: the mode, whether the radio may transmit, whether the link was up, and the
-- length of a tick.
pub record LinkInput (W : Type 0) : Type 0 where
  pub mode : SystemMode
  pub transmit_enabled : Bool
  pub link_ok : Bool
  pub tick_s : W

module _ {W : Type 0} ⦃d : Double W⦄ where
  open d use {le, add}

  -- The time without a link.
  unfoldable pub count_loss : LinkWatch W → LinkInput W → LinkWatch W
  count_loss w k =
      if not k.transmit_enabled
      then record w { link_loss_s = nought }
      else if k.link_ok
      then record w { link_seen = true; link_loss_s = nought }
      else if w.link_seen
      then record w { link_loss_s = add w.link_loss_s k.tick_s }
      else w

  -- The new state, and whether `StopNonSequenceMotionOnFallback` is called.
  unfoldable pub watch : ManualConfig W → LinkWatch W → LinkInput W → LinkWatch W × Bool
  watch c w₀ k =
      let w = count_loss w₀ k in
      let active =
        c.manual_first
        && c.link_loss_fallback_enabled
        && is_run k.mode
        && k.transmit_enabled
        && w.link_seen
        && not k.link_ok
        && le c.link_loss_fallback_s w.link_loss_s in
      (record w { fallback_active = active; was_active = active }, active && not w.was_active)
