-- ===== src/LinkBudget.antt =====
-- onboard/src/link_budget.cpp: the ledger of bytes that the onboard side may put on the link in any
-- window. A time is a number of ticks of the steady clock; `end` is `none` for
-- `Clock::time_point::max()`, an open charge. Every method runs under the mutex and reads the clock
-- `now` once, so each is one step. `W` is the type of `double` values of the shaper's model.
pub mod Wire
pub mod Ledger
pub mod Admission
pub mod Calls
pub mod Sound
pub mod Window
pub mod Tests
use coatheal_flight_software.Prelude.{
  ℕ, ◌+◌, ◌-◌, ◌%◌, ◌^◌, min, Bool, true, false, not, ◌&&◌, Option, none, some, List, [], ◌∷◌, ◌++◌,
  any, ltb, leb, ◌==◌, if◌then◌else◌,
}
use coatheal_flight_software.Prelude.Int.{pos}
use coatheal_flight_software.Double.{Double, nought, min_of, max_of}

pub data LinkPriority : Type 0 where
  command_reply live discovery replay : LinkPriority

-- The number of a priority; lower is more urgent.
abbrev pub urgency : LinkPriority → ℕ
urgency command_reply = 0
urgency live = 1
urgency discovery = 2
urgency replay = 3

pub record Entry : Type 0 where
  pub id : ℕ
  pub end : Option ℕ
  pub bytes : ℕ

pub record LinkBudget (W : Type 0) : Type 0 where
  pub share : ℕ
  pub window : ℕ
  pub entries : List Entry
  pub waiting : List ℕ
  pub next_id : ℕ
  pub egress_burst : W
  pub egress_rate : W
  pub egress_tokens : W
  pub egress_stamp : ℕ

-- The entry still counts at `now`.
abbrev pub counts : ℕ → ℕ → Option ℕ → Bool
counts window now none = true
counts window now (some end) = ltb now (end + window)

abbrev pub prune : ℕ → ℕ → List Entry → List Entry
prune window now [] = []
prune window now (e ∷ es) =
    let rest = prune window now es in if counts window now e.end then e ∷ rest else rest

abbrev pub sum_bytes : List Entry → ℕ
sum_bytes [] = 0
sum_bytes (e ∷ es) = e.bytes + sum_bytes es

-- A change of the first entry with the id.
abbrev pub change : ℕ → (Entry → Entry) → List Entry → List Entry
change id f [] = []
change id f (e ∷ es) = if e.id == id then f e ∷ es else e ∷ change id f es

-- The first entry with the id.
abbrev pub find_entry : ℕ → List Entry → Option Entry
find_entry id [] = none
find_entry id (e ∷ es) = if e.id == id then some e else find_entry id es

-- The first occurrence is erased.
abbrev pub erase : ℕ → List ℕ → List ℕ
erase p [] = []
erase p (q ∷ qs) = if q == p then qs else q ∷ erase p qs

module _ {W : Type 0} where
  -- `InWindowLocked`: the ledger without the entries that have expired, and the bytes left.
  unfoldable pub in_window : ℕ → LinkBudget W → LinkBudget W × ℕ
  in_window now b =
      let kept = prune b.window now b.entries in
      (record b { entries = kept }, min (sum_bytes kept) (2 ^ 32 - 1))

  unfoldable pub more_urgent_waiting : LinkPriority → LinkBudget W → Bool
  more_urgent_waiting p b = any (λ waiter. ltb waiter (urgency p)) b.waiting

  -- The caller leaves the list of waiters for its own check.
  abbrev pub leave_queue : LinkPriority → LinkBudget W → LinkBudget W
  leave_queue p b = record b { waiting = erase (urgency p) b.waiting }

  unfoldable pub release_at : ℕ → ℕ → LinkBudget W → LinkBudget W
  release_at ticket when b = record b {
    entries = change ticket (λ e. record e { end = some when }) b.entries;
  }

  -- The part is a new entry at the end of the list.
  unfoldable pub release_part : ℕ → ℕ → ℕ → LinkBudget W → LinkBudget W
  release_part ticket bytes when b = elim (find_entry ticket b.entries) [
    | none ↦ b
    | some e ↦
        let part = min bytes e.bytes in
        let closed : Entry = record { id = b.next_id; end = some when; bytes = part } in
        record b {
          entries =
              change ticket (λ e. record e { bytes = e.bytes - part }) b.entries ++ closed ∷ [];
          next_id = (b.next_id + 1) % 2 ^ 64;
        }
  ]

  unfoldable pub refund : ℕ → ℕ → LinkBudget W → LinkBudget W
  refund ticket bytes b = record b {
    entries = change ticket (λ e. record e { bytes = e.bytes - min bytes e.bytes }) b.entries;
  }

module _ {W : Type 0} ⦃d : Double W⦄ where
  open d use {of_int, lt, le, add, sub, mul, div}

  -- Nothing is modelled of the shaper before `set_egress_shaper`.
  pub init : ℕ → ℕ → LinkBudget W
  init share window = record {
    share = share;
    window = window;
    entries = [];
    waiting = [];
    next_id = 1;
    egress_burst = nought;
    egress_rate = nought;
    egress_tokens = nought;
    egress_stamp = 0;
  }

  unfoldable pub set_egress_shaper : ℕ → ℕ → ℕ → LinkBudget W → LinkBudget W
  set_egress_shaper now burst rate b = record b {
    egress_burst = of_int (pos burst);
    egress_rate = of_int (pos rate);
    egress_tokens = of_int (pos burst);
    egress_stamp = now;
  }

  -- `seconds` is the number of seconds in a duration.
  module _ (seconds : ℕ → W) where
    unfoldable pub refill_egress : ℕ → LinkBudget W → LinkBudget W
    refill_egress now b =
        if ltb b.egress_stamp now
        then record b {
          egress_tokens =
              min_of b.egress_burst
                (add b.egress_tokens (mul b.egress_rate (seconds (now - b.egress_stamp))));
          egress_stamp = now;
        }
        else b

    unfoldable pub debit_egress : ℕ → ℕ → LinkBudget W → LinkBudget W
    unfolding refill_egress
    debit_egress now bytes b =
        let b₁ = refill_egress now b in
        if le b.egress_burst nought then b else record b₁ {
          egress_tokens =
              max_of (sub b₁.egress_tokens (of_int (pos bytes))) (sub nought b₁.egress_burst);
        }

    unfoldable pub refund_egress : ℕ → ℕ → LinkBudget W → LinkBudget W
    unfolding refill_egress
    refund_egress now bytes b =
        let b₁ = refill_egress now b in
        if le b.egress_burst nought then b else record b₁ {
          egress_tokens = min_of b₁.egress_burst (add b₁.egress_tokens (of_int (pos bytes)));
        }

    -- The part of `AdmitLocked` for the shaper: the new ledger, and whether the bucket holds the bytes.
    unfoldable pub admit_egress : ℕ → ℕ → LinkBudget W → LinkBudget W × Bool
    unfolding refill_egress
    admit_egress now tx_bytes b =
        let b₁ = refill_egress now b in
        let tx = of_int (pos tx_bytes) in
        if lt nought b.egress_burst && ltb 0 tx_bytes
        then (if lt b₁.egress_tokens (min_of tx b₁.egress_burst)
            then (b₁, false)
            else (record b₁ { egress_tokens = sub b₁.egress_tokens tx }, true))
        else (b, true)

    -- `AdmitLocked`: the new ledger, and the ticket if the charge is admitted.
    unfoldable pub admit : ℕ → LinkPriority → ℕ → Bool → ℕ → LinkBudget W → LinkBudget W × Option ℕ
    unfolding in_window more_urgent_waiting
    admit bytes priority now open' tx_bytes b =
        let (b₁, used) = in_window now b in
        let (b₂, passes) = admit_egress now tx_bytes b₁ in
        let entry : Entry = record {
          id = b₂.next_id;
          end = if open' then none else some now;
          bytes = bytes;
        } in
        if ltb b.share bytes
        then (b, none)
        else if more_urgent_waiting priority b
        then (b, none)
        else if ltb b.share (used + bytes)
        then (b₁, none)
        else if not passes
        then (b₂, none)
        else (
          record b₂ { entries = b₂.entries ++ entry ∷ []; next_id = (b₂.next_id + 1) % 2 ^ 64 },
          some b₂.next_id,
        )

    unfoldable pub try_charge : ℕ → LinkPriority → ℕ → ℕ → LinkBudget W → LinkBudget W × Bool
    try_charge bytes priority now tx_bytes b =
        let (b₁, ticket) = admit bytes priority now false tx_bytes b in
        (b₁, elim ticket [ none ↦ false | some t ↦ true ])

    unfoldable pub try_hold : ℕ → LinkPriority → ℕ → ℕ → LinkBudget W → LinkBudget W × Option ℕ
    try_hold bytes priority now tx_bytes b = admit bytes priority now true tx_bytes b

    -- `WaitHold` up to its loop: `true` if it waits, and `false` if it gives up at once.
    unfoldable pub wait_begin : ℕ → LinkPriority → LinkBudget W → LinkBudget W × Bool
    wait_begin bytes priority b =
        if ltb b.share bytes
        then (b, false)
        else (record b { waiting = b.waiting ++ urgency priority ∷ [] }, true)

    -- One round of its loop: `some` with the outcome of the call, or `none` if it waits on.
    unfoldable pub wait_round :
        ℕ → LinkPriority → ℕ → ℕ → ℕ → LinkBudget W → LinkBudget W × Option (Option ℕ)
    wait_round bytes priority deadline now tx_bytes b =
        let b₁ = leave_queue priority b in
        let (b₂, ticket) = admit bytes priority now true tx_bytes b₁ in
        elim ticket [
          | some t ↦ (b₂, some (some t))
          | none ↦
              if leb deadline now
              then (b₂, some none)
              else (record b₂ { waiting = b₂.waiting ++ urgency priority ∷ [] }, none)
        ]
