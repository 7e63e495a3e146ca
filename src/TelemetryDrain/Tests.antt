-- ===== src/TelemetryDrain/Tests.antt =====
-- A tick of onboard/src/telemetry_drain.cpp with a scripted sender.
use coatheal_flight_software.Prelude.{
  ℕ, ◌≤◌, ◌≡◌, ◌^◌, ◌-◌, ◌+◌, ◌*◌, ◌/◌, arith, refl, true, false, List, [], ◌∷◌, none, codes,
}
use coatheal_flight_software.Prelude.Int.{pos, ◌-ℤ◌}
use coatheal_flight_software.TelemetryQueue.{
  Frame, Queue, acknowledge_exact, remove_locked, retry_persistence_locked, maybe_compact_locked,
  line_bytes, format_line, digits, next_replay,
}
use coatheal_flight_software.TelemetryQueue.Runs.{
  split_runs, part_run, add_run, erase_run, replay_index,
}
use coatheal_flight_software.TelemetryDrain.{
  FrameSender, SendStatus, sent, not_connected, TelemetryAck, drain, send_live, send_events,
  replay_frames, send_or_finish, send_one, finish, replay_deadline,
}
use coatheal_flight_software.TelemetryDrain.Deadline.{replay_deadline_lem}

abbrev no_ack : TelemetryAck
no_ack = record { session_id = []; seq = 0 }

-- The answers of the ground station, in order; then the connection is gone.
abbrev answers : FrameSender (List (SendStatus × TelemetryAck))
answers = record {
  send_frame = λ line priority deadline s. elim s [
    | [] ↦ ((not_connected, no_ack), [])
    | a ∷ rest ↦ (a, rest)
  ];
  is_connected = λ s. elim s [ [] ↦ false | a ∷ rest ↦ true ];
  now = λ s. 0;
  disk = λ s. record { appends = true; compacts = true; creates = true; now = 0 };
}

abbrev frame_of : ℕ → Frame
frame_of n = record {
  queued_epoch_s = pos 100;
  session_id = codes "s";
  seq = n;
  frame = codes "DATA,1";
  index = n;
}

-- Two frames are pending.
abbrev two : Queue
two = record {
  retention_s = pos 3600;
  max_bytes = 1000;
  compact_min_dead_bytes = 0;
  compact_max_live_bytes = 0;
  compact_cheap_live_bytes = 1000;
  frames = frame_of 0 ∷ frame_of 1 ∷ [];
  by_key = ((codes "s", 0), 0) ∷ ((codes "s", 1), 1) ∷ [];
  events = [];
  runs = record { ranges = (0, 1) ∷ []; by_length = (2 ^ 64 - 3, 0) ∷ [] };
  next_index = 2;
  live_bytes = 26;
  dead_bytes = 0;
  persistence_enabled = true;
  next_persistence_retry = none;
}

-- The live frame is acknowledged, and the other one is kept when the connection is gone.
abbrev script : List (SendStatus × TelemetryAck)
script = (sent, record { session_id = codes "s"; seq = 1 }) ∷ []

keeps_unsent : (drain answers 1000 (pos 101) 5 1 150 150 two script).queue.frames ≡ frame_of 0 ∷ []
unfolding drain send_live send_events replay_frames send_or_finish send_one finish acknowledge_exact
    remove_locked retry_persistence_locked maybe_compact_locked line_bytes format_line digits
    next_replay split_runs part_run add_run erase_run replay_index ◌-ℤ◌
keeps_unsent = refl

replay_deadline_lem_example :
    (replay_deadline 1000 5000 1000 ≡ 5000 + 1000 * 150 / 1000)
    × (replay_deadline 1000 5000 500 ≤ 5000)
replay_deadline_lem_example = replay_deadline_lem 1000 5000 500 (omega arith) (omega arith)
