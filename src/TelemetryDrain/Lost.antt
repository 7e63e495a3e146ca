-- ===== src/TelemetryDrain/Lost.antt =====
-- What a tick of onboard/src/telemetry_drain.cpp takes out of the queue.
use coatheal_flight_software.Prelude.{ℕ, ◌+◌, ◌≡◌, if◌then◌else◌}
use coatheal_flight_software.Prelude.Int.{ℤ}
use coatheal_flight_software.LinkBudget.{LinkPriority}
use coatheal_flight_software.TelemetryQueue.{Frame, Queue, acknowledge_exact, is_event_frame}
use coatheal_flight_software.TelemetryDrain.{
  FrameSender, TelemetryAck, SendStatus, sent, Drain, tag_frame_for_transmit,
}

-- The answer to a frame confirms it: it was sent, and the acknowledgement names its session and its
-- number, which is 0 for an event.
pub record IsConfirmed (f : Frame) (answer : SendStatus × TelemetryAck) : Type 0 where
  pub is_sent : answer.0 ≡ sent
  pub same_session : answer.1.session_id ≡ f.session_id
  pub same_seq : answer.1.seq ≡ (if is_event_frame f then 0 else f.seq)

-- From the queue `q₀` and the sender `s₀`: frames are offered to the sender, and a frame is taken out of
-- the queue when the answer confirms it, and only then. The number is that of the confirmed frames.
pub data Exchanges {S : Type 0} (sender : FrameSender S) (second : ℕ) (now_epoch_s : ℤ) (q₀ : Queue)
    (s₀ : S) : ℕ → Queue → S → Type 0 where
  start : Exchanges sender second now_epoch_s q₀ s₀ 0 q₀ s₀
  unconfirmed :
      {n : ℕ} {q : Queue} {s : S} (f : Frame) (p : LinkPriority) (deadline : ℕ)
      → Exchanges sender second now_epoch_s q₀ s₀ n q s
      → Exchanges sender second now_epoch_s q₀ s₀ n q
          (sender.send_frame (tag_frame_for_transmit f now_epoch_s) p deadline s).1
  confirmed :
      {n : ℕ} {q : Queue} {s : S} (f : Frame) (p : LinkPriority) (deadline : ℕ)
      → IsConfirmed f (sender.send_frame (tag_frame_for_transmit f now_epoch_s) p deadline s).0
      → Exchanges sender second now_epoch_s q₀ s₀ n q s
      → Exchanges sender second now_epoch_s q₀ s₀
          (n + 1)
          (acknowledge_exact second
            (sender.disk (sender.send_frame (tag_frame_for_transmit f now_epoch_s) p deadline s).1)
            f
            q)
          (sender.send_frame (tag_frame_for_transmit f now_epoch_s) p deadline s).1

module _ {S : Type 0} (sender : FrameSender S) (second : ℕ) (now_epoch_s : ℤ) (q₀ : Queue)
    (s₀ : S) where
  -- The state of a tick is that after exchanges, and the count of the result is their number.
  abbrev Exchanged : Drain S → Type 0
  Exchanged d = Exchanges sender second now_epoch_s q₀ s₀ d.result.sent_frames d.queue d.sender
