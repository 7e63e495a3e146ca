-- ===== src/TelemetryDrain.antt =====
-- onboard/src/telemetry_drain.cpp: one tick of telemetry delivery. The sender is an implementation of
-- `FrameSender`, as functions on its state `S`; the clock and the outcomes of the file system for the
-- queue are read from the same state.
pub mod Lost
pub mod Deadline
pub mod Tests
use coatheal_flight_software.Prelude.{
  ℕ, zero, suc, ◌+◌, ◌-◌, ◌*◌, ◌/◌, ◌^◌, min, Bool, true, false, not, ◌&&◌, ◌||◌, Option, none,
  some, List, [], ◌∷◌, ◌++◌, codes, same_text, ltb, ◌==◌, if◌then◌else◌,
}
use coatheal_flight_software.Prelude.Int.{ℤ, pos, ltb_ℤ, ◌-ℤ◌}
use coatheal_flight_software.LinkBudget.{LinkPriority, live, replay}
use coatheal_flight_software.TelemetryQueue.{
  Frame, Disk, Queue, starts_with, is_event_frame, print_ℤ, frame_at, pending_events, next_replay,
  acknowledge_exact,
}

pub record TelemetryAck : Type 0 where
  pub session_id : List ℕ
  pub seq : ℕ

pub data SendStatus : Type 0 where
  sent no_budget not_connected silent failed : SendStatus

pub record FrameSender (S : Type 0) : Type 0 where
  pub send_frame : List ℕ → LinkPriority → ℕ → S → (SendStatus × TelemetryAck) × S
  pub is_connected : S → Bool
  pub now : S → ℕ
  pub disk : S → Disk

pub record DrainResult : Type 0 where
  pub link_ok : Bool
  pub error : Bool
  pub error_text : List ℕ
  pub sent_frames : ℕ
  pub replayed : ℕ

-- The queue, the sender and the result so far.
pub record Drain (S : Type 0) : Type 0 where
  pub queue : Queue
  pub sender : S
  pub result : DrainResult

-- `ReplayDeadline`; `second` is the number of ticks of a second, and the slack is 150 ms.
unfoldable pub replay_deadline : ℕ → ℕ → ℕ → ℕ
replay_deadline second tick_start period =
    min (tick_start + period * 7 / 10) (tick_start + period - second + second * 150 / 1000)

abbrev pub tag_frame_for_transmit : Frame → ℤ → List ℕ
tag_frame_for_transmit f now_epoch_s =
    let age =
      if ltb_ℤ f.queued_epoch_s now_epoch_s then now_epoch_s -ℤ f.queued_epoch_s else pos 0 in
    if starts_with (codes "DATA,") f.frame then f.frame ++ codes ",TX=" ++ print_ℤ age else f.frame

-- The answer is for another frame.
abbrev pub is_mismatched : Frame → TelemetryAck → Bool
is_mismatched f ack =
    not (same_text ack.session_id f.session_id)
    || not (ack.seq == (if is_event_frame f then 0 else f.seq))

module _ {S : Type 0} (sender : FrameSender S) (second : ℕ) (now_epoch_s : ℤ) where
  -- `SendOne`: its status and the new state.
  unfoldable pub send_one : Frame → LinkPriority → ℕ → Drain S → SendStatus × Drain S
  unfolding acknowledge_exact
  send_one f priority budget_deadline d =
      let ((status, ack), s) =
        sender.send_frame (tag_frame_for_transmit f now_epoch_s) priority budget_deadline
          d.sender in
      let d₁ = record d { sender = s } in
      elim status [
        | sent ↦
            if is_mismatched f ack
            then (
              failed,
              record d₁ {
                result = record d.result {
                  error = true;
                  error_text = codes "received mismatched telemetry ACK";
                };
              },
            )
            else (
              sent,
              record d₁ {
                queue = acknowledge_exact second (sender.disk s) f d.queue;
                result = record d.result { link_ok = true; sent_frames = d.result.sent_frames + 1 };
              },
            )
        | other ↦ (other, d₁)
      ]

  -- The lambda `finish` of `Drain`.
  unfoldable pub finish : SendStatus → Drain S → Drain S
  finish no_budget d = record d {
    result = record d.result { link_ok = d.result.link_ok || sender.is_connected d.sender };
  }
  finish not_connected d = record d {
    result = record d.result { error = true; error_text = codes "no ground station connection" };
  }
  finish failed d = record d {
    result = record d.result {
      error = true;
      error_text = elim d.result.error_text [
        | [] ↦ codes "failed to send telemetry frame"
        | c ∷ cs ↦ c ∷ cs
      ];
    };
  }
  finish silent d = d
  finish sent d = d

  -- A frame and then the rest: the call ends with `true` if the frame is not sent.
  unfoldable pub send_or_finish : Frame → LinkPriority → ℕ → Drain S → Bool × Drain S
  unfolding send_one finish
  send_or_finish f priority budget_deadline d =
      let (status, d₁) = send_one f priority budget_deadline d in
      elim status [ sent ↦ (false, d₁) | other ↦ (true, finish other d₁) ]

  unfoldable pub send_live : ℕ → ℕ → Drain S → Bool × Drain S
  unfolding send_or_finish
  send_live live_index live_deadline d = elim (frame_at live_index d.queue) [
    | none ↦ (false, d)
    | some f ↦
        if live_index == 2 ^ 64 - 1 then (false, d) else send_or_finish f live live_deadline d
  ]

  unfoldable pub send_events : List Frame → ℕ → Drain S → Bool × Drain S
  unfolding send_or_finish
  send_events [] live_deadline d = (false, d)
  send_events (f ∷ fs) live_deadline d =
      let (ended, d₁) = send_or_finish f live live_deadline d in
      elim ended [ true ↦ (true, d₁) | false ↦ send_events fs live_deadline d₁ ]

  -- The loop of the replay, for at most `rounds` rounds.
  unfoldable pub replay_frames : ℕ → ℕ → Drain S → Bool × Drain S
  unfolding send_or_finish next_replay
  replay_frames zero deadline d = (false, d)
  replay_frames (suc rounds) deadline d = elim (next_replay d.queue) [
    | none ↦ (false, d)
    | some f ↦ elim (ltb (sender.now d.sender) deadline) [
      | false ↦ (false, d)
      | true ↦
          let (ended, d₁) = send_or_finish f replay deadline d in
          elim ended [
            | true ↦ (true, d₁)
            | false ↦
                replay_frames rounds deadline
                  (record d₁ { result = record d₁.result { replayed = d₁.result.replayed + 1 } })
          ]
    ]
  ]

  -- The end of `Drain`.
  abbrev pub conclude : Drain S → Drain S
  conclude d =
      if d.result.sent_frames == 0
      then record d { result = record d.result { link_ok = sender.is_connected d.sender } }
      else d

  abbrev pub no_result : DrainResult
  no_result = record {
    link_ok = false;
    error = false;
    error_text = [];
    sent_frames = 0;
    replayed = 0;
  }

  -- `Drain`. At most 8 events go in a tick; that one of them is not pending cannot be.
  unfoldable pub drain : ℕ → ℕ → ℕ → ℕ → Queue → S → Drain S
  unfolding send_live send_events replay_frames
  drain rounds live_index live_deadline deadline q s =
      let (ended, d₁) =
        send_live live_index live_deadline (record { queue = q; sender = s; result = no_result }) in
      elim ended [
        | true ↦ d₁
        | false ↦ elim (pending_events 8 d₁.queue) [
          | none ↦ d₁
          | some events ↦
              let (ended₂, d₂) = send_events events live_deadline d₁ in
              elim ended₂ [
                | true ↦ d₂
                | false ↦
                    let (ended₃, d₃) = replay_frames rounds deadline d₂ in
                    elim ended₃ [ true ↦ d₃ | false ↦ conclude d₃ ]
              ]
        ]
      ]
