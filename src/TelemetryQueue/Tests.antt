-- ===== src/TelemetryQueue/Tests.antt =====
-- Calls of the queue of onboard/src/telemetry_queue.cpp.
use coatheal_flight_software.Prelude.{
  ℕ, ◌≤◌, ◌≡◌, ◌^◌, ◌-◌, refl, ◌⊎◌, true, List, [], ◌∷◌, none, some, codes, arith,
}
use coatheal_flight_software.Prelude.Int.{pos, ◌-ℤ◌}
use coatheal_flight_software.TelemetryQueue.{
  Frame, Disk, Queue, Call, initialize, parse_line, enqueues, acknowledges_exactly, init, run,
  serve, enqueue, insert_locked, line_bytes, format_line, digits, prune_locked, prune_while,
  remove_locked, acknowledge_exact, retry_persistence_locked, maybe_compact_locked, next_replay,
}
use coatheal_flight_software.TelemetryQueue.Runs.{
  extend_runs, split_runs, part_run, add_run, erase_run, replay_index,
}
use coatheal_flight_software.TelemetryQueue.Backlog.{IsReplay, next_replay-run}
use coatheal_flight_software.TelemetryQueue.Restart.{next_replay-initialize}
use coatheal_flight_software.TelemetryQueue.Lines.Parse.{parse-format_line}
use coatheal_flight_software.TelemetryQueue.Prune.{prune_locked_size}

abbrev disk : Disk
disk = record { appends = true; compacts = true; creates = true; now = 0 }

abbrev frame_of : ℕ → Frame
frame_of n = record {
  queued_epoch_s = pos 100;
  session_id = codes "s";
  seq = n;
  frame = codes "DATA,1";
  index = 0;
}

abbrev enqueued : ℕ → Disk × Call
enqueued n = (disk, enqueues (pos 100) (frame_of n))

abbrev acked : ℕ → Disk × Call
acked n = (disk, acknowledges_exactly (frame_of n))

-- Five frames, the first of which is acknowledged.
abbrev five : List (Disk × Call)
five = enqueued 0 ∷ enqueued 1 ∷ enqueued 2 ∷ enqueued 3 ∷ enqueued 4 ∷ acked 0 ∷ []

abbrev new : Queue
new = init (pos 3600) 1000 0 0 1000

line_of_frame : format_line (frame_of 12) ≡ codes "100\ts\t12\tDATA,1"
unfolding format_line digits
line_of_frame = refl

-- The run from 1 to 4 is left, and its middle is 2.
replays_middle : next_replay (run 1 five new) ≡ some (record (frame_of 2) { index = 2 })
unfolding next_replay run serve init enqueue insert_locked line_bytes format_line digits
    prune_locked prune_while remove_locked acknowledge_exact retry_persistence_locked
    maybe_compact_locked extend_runs split_runs part_run add_run erase_run replay_index ◌-ℤ◌
replays_middle = refl

next_replay-run_example : IsReplay (run 1 five new) (next_replay (run 1 five new))
next_replay-run_example = next_replay-run 1 (pos 3600) 1000 0 0 1000 five (omega arith)

-- One frame that is too large for the limit.
abbrev full : Queue
full = record {
  retention_s = pos 3600;
  max_bytes = 10;
  compact_min_dead_bytes = 0;
  compact_max_live_bytes = 0;
  compact_cheap_live_bytes = 1000;
  frames = frame_of 0 ∷ [];
  by_key = ((codes "s", 0), 0) ∷ [];
  events = [];
  runs = record { ranges = (0, 0) ∷ []; by_length = (2 ^ 64 - 2, 0) ∷ [] };
  next_index = 1;
  live_bytes = 15;
  dead_bytes = 0;
  persistence_enabled = true;
  next_persistence_retry = none;
}

prune_locked_size_example :
    ((prune_locked (pos 200) full).frames ≡ []) ⊎ ((prune_locked (pos 200) full).live_bytes ≤ 10)
prune_locked_size_example = prune_locked_size (pos 200) full (omega arith)

-- A file with a frame and a torn line.
abbrev torn : List (List ℕ)
torn = codes "100\ts\t7\tDATA,1" ∷ codes "100\ts" ∷ []

next_replay-initialize_example :
    IsReplay
      (run 1 five (initialize (pos 200) disk (some torn) (init (pos 3600) 1000 0 0 1000)).0)
      (next_replay
        (run 1 five (initialize (pos 200) disk (some torn) (init (pos 3600) 1000 0 0 1000)).0))
next_replay-initialize_example =
    next_replay-initialize 1 (pos 200) (pos 3600) 1000 0 0 1000 disk torn five (omega arith)

parse-format_line_example :
    parse_line (format_line (frame_of 12)) ≡ some (record (frame_of 12) { index = 0 })
parse-format_line_example =
    parse-format_line (frame_of 12) (ground arith) (omega arith) refl refl refl
