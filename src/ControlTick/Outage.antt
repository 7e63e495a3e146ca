-- ===== src/ControlTick/Outage.antt =====
-- What the watch on the link in onboard/src/system_controller.cpp knows of the past.
use coatheal_flight_software.Prelude.{
  ◌≡◌, refl, ap, ap₂, sym, ◌∙◌, Bool, false, not, ◌&&◌, ◌||◌, List, [], ◌∷◌, if◌then◌else◌, any,
  arith,
}
use coatheal_flight_software.Double.{Double, nought}
use coatheal_flight_software.ControlTick.Link.{
  ManualConfig, LinkWatch, LinkInput, watch, count_loss, is_run,
}

-- The radio may transmit, and the link was up, or down.
abbrev pub is_up : {W : Type 0} → LinkInput W → Bool
is_up k = k.transmit_enabled && k.link_ok

abbrev pub is_down : {W : Type 0} → LinkInput W → Bool
is_down k = k.transmit_enabled && not k.link_ok

module _ {W : Type 0} ⦃d : Double W⦄ where
  open d use {le, add}

  abbrev pub new_watch : LinkWatch W
  new_watch = record {
    link_seen = false;
    link_loss_s = nought;
    fallback_active = false;
    was_active = false;
  }

  -- The watch after some ticks, the newest first.
  unfoldable pub after : ManualConfig W → List (LinkInput W) → LinkWatch W
  after c [] = new_watch
  after c (k ∷ older) = (watch c (after c older) k).0

  -- The time since the link was last up or the radio silent.
  unfoldable pub outage : List (LinkInput W) → W
  outage [] = nought
  outage (k ∷ older) = if is_down k then add (outage older) k.tick_s else nought

  -- The fallback by its description: in RUN mode, after the link has been up once, while it is down
  -- for as long as is configured, and the radio not silent.
  unfoldable pub in_fallback : ManualConfig W → List (LinkInput W) → Bool
  in_fallback c [] = false
  in_fallback c (k ∷ older) =
      c.manual_first
      && c.link_loss_fallback_enabled
      && is_run k.mode
      && is_down k
      && any is_up older
      && le c.link_loss_fallback_s (outage (k ∷ older))

  count_loss-seen :
      (w : LinkWatch W) (k : LinkInput W) → (count_loss w k).link_seen ≡ (is_up k || w.link_seen)
  unfolding count_loss
  count_loss-seen w k = ground arith

  count_loss-loss :
      (w : LinkWatch W) (k : LinkInput W) (time : W)
      → w.link_loss_s ≡ (if w.link_seen then time else nought)
      → (count_loss w k).link_loss_s ≡ (
          if is_up k || w.link_seen
          then (if is_down k then add time k.tick_s else nought)
          else nought)
  unfolding count_loss
  count_loss-loss w k time h = ground (arith, h)

  count_loss-was_active :
      (w : LinkWatch W) (k : LinkInput W) → (count_loss w k).was_active ≡ w.was_active
  unfolding count_loss
  count_loss-was_active w k = ground arith

  after-seen :
      (c : ManualConfig W) (log : List (LinkInput W)) → (after c log).link_seen ≡ any is_up log
  unfolding after watch
  after-seen c [] = refl
  after-seen c (k ∷ older) =
      count_loss-seen (after c older) k ∙ ap (λ b. is_up k || b) (after-seen c older)

  after-loss :
      (c : ManualConfig W) (log : List (LinkInput W))
      → (after c log).link_loss_s ≡ (if any is_up log then outage log else nought)
  unfolding after watch outage
  after-loss c [] = refl
  after-loss c (k ∷ older) =
      let same = after-seen c older in
      count_loss-loss (after c older) k (outage older)
        (after-loss c older ∙ ap (λ b. if b then outage older else nought) (sym same))
      ∙ ap
          (λ b.
            if is_up k || b
            then (if is_down k then add (outage older) k.tick_s else nought)
            else nought)
          same

  -- The test of `watch`, on what the watch knows.
  conditions :
      (c : ManualConfig W) (k : LinkInput W) (seen : Bool) (time : W)
      → (c.manual_first
          && c.link_loss_fallback_enabled
          && is_run k.mode
          && k.transmit_enabled
          && (is_up k || seen)
          && not k.link_ok
          && le c.link_loss_fallback_s (if is_up k || seen then time else nought))
        ≡ (c.manual_first
            && c.link_loss_fallback_enabled
            && is_run k.mode
            && is_down k
            && seen
            && le c.link_loss_fallback_s time)
  conditions c k seen time = ground arith

  after-active :
      (c : ManualConfig W) (log : List (LinkInput W))
      → (after c log).fallback_active ≡ in_fallback c log
  unfolding after watch in_fallback
  after-active c [] = refl
  after-active c (k ∷ older) =
      ap₂
        (λ (b : Bool) (t : W).
          c.manual_first
          && c.link_loss_fallback_enabled
          && is_run k.mode
          && k.transmit_enabled
          && b
          && not k.link_ok
          && le c.link_loss_fallback_s t)
        (after-seen c (k ∷ older)) (after-loss c (k ∷ older))
      ∙ conditions c k (any is_up older) (outage (k ∷ older))

  after-was_active :
      (c : ManualConfig W) (log : List (LinkInput W)) → (after c log).was_active ≡ in_fallback c log
  unfolding after watch in_fallback
  after-was_active c [] = refl
  after-was_active c (k ∷ older) = after-active c (k ∷ older)

  -- After any ticks the fallback is active exactly in RUN mode, while the radio may transmit and the link
  -- is down, after it has been up once, and has been down for at least the configured time since it was
  -- last up or the radio silent; motion is stopped in exactly the ticks where the fallback begins.
  pub watch-in_fallback :
      (c : ManualConfig W) (k : LinkInput W) (older : List (LinkInput W))
      → ((watch c (after c older) k).0.fallback_active ≡ in_fallback c (k ∷ older))
        × ((watch c (after c older) k).1 ≡ (in_fallback c (k ∷ older) && not (in_fallback c older)))
  unfolding after watch
  watch-in_fallback c k older = (
    after-active c (k ∷ older),
    ap₂ (λ b e. b && not e) (after-active c (k ∷ older))
        (count_loss-was_active _ k ∙ after-was_active c older),
  )
