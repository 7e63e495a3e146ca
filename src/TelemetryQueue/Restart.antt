-- ===== src/TelemetryQueue/Restart.antt =====
-- A queue that is read back from its file in onboard/src/telemetry_queue.cpp.
use coatheal_flight_software.Prelude.{
  ℕ, ◌+◌, ◌-◌, ◌^◌, ◌<◌, refl, Bool, false, not, ◌&&◌, some, List, [], ◌∷◌, length, arith, if_both,
  option_both,
}
use coatheal_flight_software.Prelude.Int.{ℤ, pos, ltb_ℤ, ◌-ℤ◌}
use coatheal_flight_software.TelemetryQueue.{
  Disk, Queue, Call, parse_line, load_lines, initialize, compact_locked, cleared, init, run,
  next_replay,
}
use coatheal_flight_software.TelemetryQueue.Pending.{IsSound, insert-IsSound}
use coatheal_flight_software.TelemetryQueue.Backlog.{
  IsReplay, same-IsSound, later-IsSound, init-IsSound, run-IsSound, next_replay-IsReplay,
}

load_lines-IsSound :
    (n : ℕ) (now : ℤ) (lines : List (List ℕ)) (q : Queue)
    → n + length lines < 2 ^ 64
    → IsSound n q
    → IsSound (n + length lines) (load_lines now lines q)
unfolding load_lines
load_lines-IsSound n now [] q h i = later-IsSound n (n + 0) q (omega arith) i
load_lines-IsSound n now (line ∷ lines) q h i =
    let more = λ (q' : Queue) (i' : IsSound (n + 1) q').
      later-IsSound (n + 1 + length lines) (n + length (line ∷ lines)) (load_lines now lines q')
        (omega arith) (load_lines-IsSound (n + 1) now lines q' (omega (arith, h)) i') in
    let still = later-IsSound n (n + 1) q (omega arith) i in
    option_both (IsSound (n + length (line ∷ lines))) (parse_line line) (more q still) (λ f.
      let expired = ltb_ℤ (pos 0) q.retention_s && ltb_ℤ q.retention_s (now -ℤ f.queued_epoch_s) in
      more _ (if_both (IsSound (n + 1)) expired still (insert-IsSound n f q (omega (arith, h)) i)))

cleared-IsSound : (q : Queue) → IsSound 0 (cleared q)
cleared-IsSound q = record {
  next_le = omega arith;
  ascending = tt;
  runs_of = record {
    apart = tt;
    cover = λ j. refl;
    indexed = record { sorted = tt; keys = λ k s. refl };
  };
}

initialize-IsSound :
    (now : ℤ) (disk : Disk) (lines : List (List ℕ)) (q : Queue)
    → length lines < 2 ^ 64
    → IsSound 0 q
    → IsSound (0 + length lines) (initialize now disk (some lines) q).0
unfolding initialize
initialize-IsSound now disk lines q h i =
    let n = 0 + length lines in
    let P = λ (r : Queue × Bool). IsSound n r.0 in
    let q₁ = load_lines now lines (cleared q) in
    let loaded =
      load_lines-IsSound 0 now lines (cleared q) (omega (arith, h)) (cleared-IsSound q) in
    if_both P (not disk.creates)
      (same-IsSound n q (record q { persistence_enabled = false }) refl refl refl
        (later-IsSound 0 n q (omega arith) i))
      (if_both P disk.compacts
        (same-IsSound n q₁ (compact_locked disk q₁).0 (ground arith) (ground arith) (ground arith)
          loaded)
        (same-IsSound n q₁ (record q₁ { persistence_enabled = false }) refl refl refl loaded))

-- After a restart with a file of any lines, whatever the outcomes of the file system, and after any
-- further calls: the runs of the queue cover the pending frames and no others, and `NextReplay` gives
-- the pending frame in the middle of the longest run, of the oldest one if several are as long; it
-- gives none only when no frame is pending. Lines and calls are fewer than 2^64 - 1 together.
pub next_replay-initialize :
    (tick : ℕ) (now retention_s : ℤ) (max_bytes min_dead max_live cheap_live : ℕ) (disk : Disk)
    (lines : List (List ℕ)) (ks : List (Disk × Call))
    → length lines + length ks < 2 ^ 64 - 1
    → let new = init retention_s max_bytes min_dead max_live cheap_live in
      let q = run tick ks (initialize now disk (some lines) new).0 in IsReplay q (next_replay q)
next_replay-initialize tick now retention_s max_bytes min_dead max_live cheap_live disk lines ks h =
    let new = init retention_s max_bytes min_dead max_live cheap_live in
    let fresh = init-IsSound retention_s max_bytes min_dead max_live cheap_live in
    let q = (initialize now disk (some lines) new).0 in
    let loaded = initialize-IsSound now disk lines new (omega (arith, h)) fresh in
    let sound = run-IsSound (0 + length lines) tick ks q (omega (arith, h)) loaded in
    next_replay-IsReplay (0 + length lines + length ks) (run tick ks q) (omega (arith, h)) sound
      (omega (arith, h, sound.next_le))
