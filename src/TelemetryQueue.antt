-- ===== src/TelemetryQueue.antt =====
-- onboard/src/telemetry_queue.cpp: the telemetry frames that are not acknowledged yet. A `std::map` is
-- the list of its entries in the order of their keys, a text the list of its bytes. Every method runs
-- under the mutex and is one step. The file system is not modelled: a call of it has its outcome from
-- the argument `Disk`, the lines of the file are an argument of `initialize`, and of the file only the
-- count of the dead bytes is kept. The texts of the reported errors are left out.
pub mod Lines
pub mod Maps
pub mod Runs
pub use Lines.{Frame, starts_with, is_event_frame, print_ℤ}
unfoldable pub use Lines.Parse.{parse_line}
unfoldable pub use Lines.{digits, format_line, line_bytes}
pub use Maps.{
  find_key, set_key, erase_key, insert_index, erase_index, find_frame, emplace, erase_frame,
}
pub mod Pending
pub mod Backlog
pub mod Prune
pub mod Restart
pub mod Tests
use coatheal_flight_software.Prelude.{
  ℕ, zero, suc, ◌+◌, ◌-◌, ◌*◌, ◌/◌, ◌%◌, ◌^◌, Bool, true, false, not, ◌&&◌, ◌||◌, Option, none,
  some, List, [], ◌∷◌, ◌++◌, map, length, take, codes, same_text, ltb, leb, ◌==◌, if◌then◌else◌,
}
use coatheal_flight_software.Prelude.Int.{ℤ, pos, negsuc, ◌-ℤ◌, ltb_ℤ}
use coatheal_flight_software.TelemetryQueue.Runs.{RunSet, extend_runs, split_runs, replay_index}

-- The outcomes of the file system, and the steady clock, for a call.
pub record Disk : Type 0 where
  pub appends : Bool
  pub compacts : Bool
  pub creates : Bool
  pub now : ℕ

-- `retention_s` is the number of whole seconds in the retention time. A frame of `frames` stands under
-- its own index.
pub record Queue : Type 0 where
  pub retention_s : ℤ
  pub max_bytes : ℕ
  pub compact_min_dead_bytes : ℕ
  pub compact_max_live_bytes : ℕ
  pub compact_cheap_live_bytes : ℕ
  pub frames : List Frame
  pub by_key : List ((List ℕ × ℕ) × ℕ)
  pub events : List ℕ
  pub runs : RunSet
  pub next_index : ℕ
  pub live_bytes : ℕ
  pub dead_bytes : ℕ
  pub persistence_enabled : Bool
  pub next_persistence_retry : Option ℕ

unfoldable pub insert_locked : Frame → Queue → Queue
unfolding line_bytes extend_runs
insert_locked frame q =
    let index = q.next_index in
    let f : Frame = record frame { index = index } in
    record q {
      next_index = (index + 1) % 2 ^ 64;
      live_bytes = (q.live_bytes + line_bytes f) % 2 ^ 64;
      by_key = set_key (f.session_id, f.seq) index q.by_key;
      events = if is_event_frame f then insert_index index q.events else q.events;
      runs = extend_runs index q.runs;
      frames = emplace f q.frames;
    }

-- `live_bytes_ -= bytes`, with the wrap-around of 64 bits.
abbrev pub sub_64 : ℕ → ℕ → ℕ
sub_64 a b = (a + (2 ^ 64 - b % 2 ^ 64)) % 2 ^ 64

unfoldable pub remove_locked : ℕ → Queue → Queue
unfolding line_bytes split_runs
remove_locked index q = elim (find_frame index q.frames) [
  | none ↦ q
  | some f ↦
      let key : List ℕ × ℕ = (f.session_id, f.seq) in
      record q {
        live_bytes = sub_64 q.live_bytes (line_bytes f);
        dead_bytes = (q.dead_bytes + line_bytes f) % 2 ^ 64;
        by_key = elim (find_key key q.by_key) [
          | none ↦ q.by_key
          | some i ↦ if i == index then erase_key key q.by_key else q.by_key
        ];
        events = erase_index index q.events;
        frames = erase_frame index q.frames;
        runs = split_runs index q.runs;
      }
]

-- The loop of `PruneLocked` over the oldest frames while `old` holds of the first one, for at most
-- `fuel` rounds.
unfoldable pub prune_while : (Frame → Queue → Bool) → ℕ → Queue → Queue
unfolding remove_locked
prune_while old zero q = q
prune_while old (suc fuel) q = elim q.frames [
  | [] ↦ q
  | f ∷ fs ↦ elim (old f q) [ true ↦ prune_while old fuel (remove_locked f.index q) | false ↦ q ]
]

-- Each round removes a frame.
unfoldable pub prune_locked : ℤ → Queue → Queue
unfolding prune_while
prune_locked now q =
    let q₁ =
      if ltb_ℤ (pos 0) q.retention_s
      then prune_while (λ f q. ltb_ℤ q.retention_s (now -ℤ f.queued_epoch_s)) (length q.frames) q
      else q in
    if q.max_bytes == 0
    then q₁
    else prune_while (λ f q. ltb q.max_bytes q.live_bytes) (length q₁.frames) q₁

-- `CompactLocked`, with its outcome.
abbrev pub compact_locked : Disk → Queue → Queue × Bool
compact_locked disk q = if disk.compacts then (record q { dead_bytes = 0 }, true) else (q, false)

unfoldable pub maybe_compact_locked : Disk → Queue → Queue
maybe_compact_locked disk q =
    let rewrite_is_cheap = leb q.live_bytes q.compact_cheap_live_bytes in
    let dead_weight_worth_dropping =
      leb q.compact_min_dead_bytes q.dead_bytes && leb q.live_bytes q.compact_max_live_bytes in
    let (q₁, done) = compact_locked disk q in
    if not q.persistence_enabled || q.dead_bytes == 0
    then q
    else if not rewrite_is_cheap && not dead_weight_worth_dropping
    then q
    else if done
    then q₁
    else record q₁ { persistence_enabled = false }

-- A retry is at least 5 seconds after the one before; `tick` is the number of ticks of a second.
unfoldable pub retry_persistence_locked : ℕ → Disk → Queue → Queue
retry_persistence_locked tick disk q =
    let early : Bool = elim q.next_persistence_retry [ none ↦ false | some at ↦ ltb disk.now at ] in
    let q₁ = record q { next_persistence_retry = some (disk.now + 5 * tick) } in
    let (q₂, done) = compact_locked disk (record q₁ { persistence_enabled = true }) in
    if q.persistence_enabled || early
    then q
    else if not disk.creates
    then q₁
    else if done
    then q₂
    else record q₂ { persistence_enabled = false }

unfoldable pub enqueue : ℕ → ℤ → Disk → Frame → Queue → Queue
unfolding insert_locked prune_locked retry_persistence_locked maybe_compact_locked
enqueue tick now disk frame q =
    let q₁ = retry_persistence_locked tick disk (prune_locked now (insert_locked frame q)) in
    if not q₁.persistence_enabled
    then q₁
    else if not disk.appends
    then record q₁ { persistence_enabled = false }
    else maybe_compact_locked disk q₁

-- The indices of the frames up to a sequence number of a session.
abbrev pub acked : List ℕ → ℕ → List Frame → List ℕ
acked session_id seq [] = []
acked session_id seq (f ∷ fs) =
    let rest = acked session_id seq fs in
    if same_text f.session_id session_id && leb f.seq seq then f.index ∷ rest else rest

unfoldable pub remove_all : List ℕ → Queue → Queue
unfolding remove_locked
remove_all [] q = q
remove_all (i ∷ is) q = remove_all is (remove_locked i q)

abbrev pub after_removal : ℕ → Disk → Queue → Queue
after_removal tick disk q = maybe_compact_locked disk (retry_persistence_locked tick disk q)

unfoldable pub acknowledge : ℕ → Disk → List ℕ → ℕ → Queue → Queue
unfolding remove_all
acknowledge tick disk session_id seq q = elim (acked session_id seq q.frames) [
  | [] ↦ q
  | i ∷ is ↦ after_removal tick disk (remove_all (i ∷ is) q)
]

-- The index that `AcknowledgeExact` removes.
abbrev pub exact_index : Frame → Queue → Option ℕ
exact_index frame q = elim (find_key (frame.session_id, frame.seq) q.by_key) [
  | none ↦ none
  | some i ↦ elim (find_frame i q.frames) [
    | none ↦ none
    | some f ↦ if same_text f.frame frame.frame then some i else none
  ]
]

unfoldable pub acknowledge_exact : ℕ → Disk → Frame → Queue → Queue
unfolding remove_locked
acknowledge_exact tick disk frame q = elim (exact_index frame q) [
  | none ↦ q
  | some i ↦ after_removal tick disk (remove_locked i q)
]

abbrev pub pending_frames : ℕ → Queue → List Frame
pending_frames max_frames q = take max_frames q.frames

abbrev pub frame_at : ℕ → Queue → Option Frame
frame_at index q = find_frame index q.frames

-- The frames of the oldest events; `none` if `frames_.at` fails.
abbrev pub frames_of : List ℕ → List Frame → Option (List Frame)
frames_of [] fs = some []
frames_of (i ∷ is) fs = elim (find_frame i fs) [
  | none ↦ none
  | some f ↦ elim (frames_of is fs) [ none ↦ none | some gs ↦ some (f ∷ gs) ]
]

abbrev pub pending_events : ℕ → Queue → Option (List Frame)
pending_events max_frames q = frames_of (take max_frames q.events) q.frames

unfoldable pub next_replay : Queue → Option Frame
unfolding replay_index
next_replay q = elim (replay_index q.runs) [
  | none ↦ none
  | some middle ↦ find_frame middle q.frames
]

unfoldable pub init : ℤ → ℕ → ℕ → ℕ → ℕ → Queue
init retention_s max_bytes compact_min_dead_bytes compact_max_live_bytes compact_cheap_live_bytes =
    record {
      retention_s = retention_s;
      max_bytes = max_bytes;
      compact_min_dead_bytes = compact_min_dead_bytes;
      compact_max_live_bytes = compact_max_live_bytes;
      compact_cheap_live_bytes = compact_cheap_live_bytes;
      frames = [];
      by_key = [];
      events = [];
      runs = record { ranges = []; by_length = [] };
      next_index = 0;
      live_bytes = 0;
      dead_bytes = 0;
      persistence_enabled = true;
      next_persistence_retry = none;
    }

abbrev pub cleared : Queue → Queue
cleared q = record q {
  frames = [];
  by_key = [];
  events = [];
  runs = record { ranges = []; by_length = [] };
  next_index = 0;
  live_bytes = 0;
  dead_bytes = 0;
}

-- The lines that parse and are not too old.
unfoldable pub load_lines : ℤ → List (List ℕ) → Queue → Queue
unfolding insert_locked parse_line
load_lines now [] q = q
load_lines now (line ∷ lines) q = elim (parse_line line) [
  | none ↦ load_lines now lines q
  | some f ↦
      let expired = ltb_ℤ (pos 0) q.retention_s && ltb_ℤ q.retention_s (now -ℤ f.queued_epoch_s) in
      load_lines now lines (if expired then q else insert_locked f q)
]

-- `Initialize`, with its outcome; `file` has the lines of the file, if it can be opened.
unfoldable pub initialize : ℤ → Disk → Option (List (List ℕ)) → Queue → Queue × Bool
unfolding load_lines
initialize now disk file q =
    if not disk.creates then (record q { persistence_enabled = false }, false) else elim file [
      | none ↦
          if disk.appends
          then (cleared q, true)
          else (record (cleared q) { persistence_enabled = false }, false)
      | some lines ↦
          let q₁ = load_lines now lines (cleared q) in
          if disk.compacts
          then ((compact_locked disk q₁).0, true)
          else (record q₁ { persistence_enabled = false }, false)
    ]

-- The calls that change the queue.
pub data Call : Type 0 where
  enqueues : ℤ → Frame → Call
  acknowledges : List ℕ → ℕ → Call
  acknowledges_exactly : Frame → Call

unfoldable pub serve : ℕ → Disk × Call → Queue → Queue
unfolding enqueue acknowledge acknowledge_exact
serve tick (disk, enqueues now frame) q = enqueue tick now disk frame q
serve tick (disk, acknowledges session_id seq) q = acknowledge tick disk session_id seq q
serve tick (disk, acknowledges_exactly frame) q = acknowledge_exact tick disk frame q

unfoldable pub run : ℕ → List (Disk × Call) → Queue → Queue
unfolding serve
run tick [] q = q
run tick (k ∷ ks) q = run tick ks (serve tick k q)
