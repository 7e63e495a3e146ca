-- ===== src/LinkBudget/Sound.antt =====
-- The ledger of onboard/src/link_budget.cpp keeps what counts of the log, call by call.
use coatheal_flight_software.Prelude.{
  ℕ, ◌+◌, ◌-◌, ◌%◌, ◌^◌, ◌≤◌, ◌<◌, min, true, Option, none, some, List, [], ◌∷◌, ◌++◌, ◌≡◌, refl,
  arith, Bool-cases, Option-cases, subst, inl, inr,
}
use coatheal_flight_software.LinkBudget.{
  LinkBudget, LinkPriority, Entry, counts, prune, sum_bytes, change, find_entry, release_at,
  release_part, refund,
}
use coatheal_flight_software.LinkBudget.Ledger.{
  Charge, wire, Matches, Keeps, amend, find_charge, Keeps-prune, Keeps-sum_bytes, Keeps-append,
  Keeps-change, Keeps-find, wire-le-counted, wire-amend-le, wire-append, wire-amend,
  Keeps-find_charge,
}
use coatheal_flight_software.LinkBudget.Admission.{prunes, Admits}
use coatheal_flight_software.LinkBudget.Calls.{Log, note, amend_log, split_log, IsOpenEntry, IsOpen}

open_charge :
    (window clock id : ℕ) (c : Charge) {cs : List Charge} {es : List Entry}
    → Keeps window clock cs es
    → IsOpen id es
    → find_charge window clock id cs ≡ some c
    → c.end ≡ none
open_charge window clock id c k o found =
    let (e, at, m) = Keeps-find_charge id c k found in ground (arith, m.1, subst IsOpenEntry at o)

module _ {W : Type 0} where
  -- The ledger keeps what counts of the log, and no window carries more than the share.
  pub record IsSound (now : ℕ) (b : LinkBudget W) (g : Log) : Type 0 where
    pub kept : Keeps b.window g.clock g.charges b.entries
    pub clock_le : g.clock ≤ now
    pub wire_le : (t : ℕ) → wire b.window t g.charges ≤ b.share
    pub share_lt : b.share < 2 ^ 32 - 1
    pub window_pos : 0 < b.window

  pub pruned-IsSound :
      (before now : ℕ) (b b' : LinkBudget W) (g : Log)
      → before ≤ now
      → IsSound before b g
      → b'.entries ≡ prune b.window now b.entries
      → b'.share ≡ b.share
      → b'.window ≡ b.window
      → IsSound now b' (record g { clock = now })
  pruned-IsSound before now b b' g h i e s w = record {
    kept = rw (e, w) (Keeps-prune now (omega (arith, i.clock_le)) i.kept);
    clock_le = omega arith;
    wire_le = λ t. rw (s, w) (i.wire_le t);
    share_lt = rw s i.share_lt;
    window_pos = rw w i.window_pos;
  }

  pub same-IsSound :
      (before now : ℕ) (b b' : LinkBudget W) (g : Log)
      → before ≤ now
      → IsSound before b g
      → b'.entries ≡ b.entries
      → b'.share ≡ b.share
      → b'.window ≡ b.window
      → IsSound now b' g
  same-IsSound before now b b' g h i e s w = record {
    kept = rw (e, w) i.kept;
    clock_le = omega (arith, i.clock_le);
    wire_le = λ t. rw (s, w) (i.wire_le t);
    share_lt = rw s i.share_lt;
    window_pos = rw w i.window_pos;
  }

  -- An admitted charge: what counts now and the charge fit into the share.
  admitted-IsSound :
      (before now id bytes : ℕ) (end : Option ℕ) (b b' : LinkBudget W) (g : Log)
      → before ≤ now
      → IsSound before b g
      → counts b.window now end ≡ true
      → b'.entries
        ≡ prune b.window now b.entries ++ record { id = id; end = end; bytes = bytes } ∷ []
      → sum_bytes (prune b.window now b.entries) + bytes ≤ b.share
      → b'.share ≡ b.share
      → b'.window ≡ b.window
      → IsSound now b' (record {
        clock = now;
        charges = g.charges ++ record { id = id; placed = now; end = end; bytes = bytes } ∷ [];
      })
  admitted-IsSound before now id bytes end b b' g h i alive e room s w =
      let c : Charge = record { id = id; placed = now; end = end; bytes = bytes } in
      let pruned = Keeps-prune now (omega (arith, i.clock_le)) i.kept in
      record {
        kept =
            rw (e, w)
              (Keeps-append c (record { id = id; end = end; bytes = bytes }) alive
                (refl, refl, refl) pruned);
        clock_le = omega arith;
        wire_le = λ t.
            rw (s, w)
              (ground (
                arith,
                wire-append b.window t g.charges (c ∷ []),
                wire-le-counted b.window now t g.charges,
                Keeps-sum_bytes pruned,
                i.wire_le t,
              ));
        share_lt = rw s i.share_lt;
        window_pos = rw w i.window_pos;
      }

  pub note-IsSound :
      (before now bytes : ℕ) (p : LinkPriority) (end : Option ℕ) (b : LinkBudget W) (g : Log)
      (r : LinkBudget W × Option ℕ)
      → before ≤ now
      → IsSound before b g
      → counts b.window now end ≡ true
      → Admits bytes p now end b r
      → IsSound now r.0 (note bytes p now end b r.1 g)
  unfolding note
  note-IsSound before now bytes p end b g (b', some id) h i alive (s, w, (_, e, room)) =
      admitted-IsSound before now id bytes end b b' g h i alive e room s w
  note-IsSound before now bytes p end b g (b', none) h i alive (s, w, e) =
      elim (Bool-cases (prunes bytes p b)) [
        | inl looked ↦ rw looked (pruned-IsSound before now b b' g h i (rw looked at e) s w)
        | inr turned ↦ rw turned (same-IsSound before now b b' g h i (rw turned at e) s w)
      ]

  amend-IsSound :
      (before now id : ℕ) (f : Charge → Charge) (g : Entry → Entry) (b : LinkBudget W) (l : Log)
      → before ≤ now
      → IsSound before b l
      → ((c : Charge) (e : Entry)
          → Matches c e
          → counts b.window l.clock c.end ≡ true
          → Matches (f c) (g e) × (counts b.window l.clock (f c).end ≡ true))
      → ((t : ℕ) (c : Charge)
          → find_charge b.window l.clock id l.charges ≡ some c
          → wire b.window t (f c ∷ []) ≤ wire b.window t (c ∷ []))
      → IsSound now (record b { entries = change id g b.entries }) (amend_log id f b l)
  unfolding amend_log
  amend-IsSound before now id f g b l h i same less = record {
    kept = Keeps-change id f g same i.kept;
    clock_le = omega (arith, i.clock_le);
    wire_le =
        λ t. omega (arith, wire-amend-le b.window l.clock id t f l.charges (less t), i.wire_le t);
    share_lt = i.share_lt;
    window_pos = i.window_pos;
  }

  pub release-IsSound :
      (before now id when : ℕ) (b : LinkBudget W) (l : Log)
      → before ≤ now
      → IsSound before b l
      → IsOpen id b.entries
      → now ≤ when
      → IsSound now (release_at id when b) (amend_log id (λ c. record c { end = some when }) b l)
  unfolding release_at
  release-IsSound before now id when b l h i o w =
      amend-IsSound before now id _ _ b l h i
        (λ c e m a. ((m.0, refl, m.2), ground (arith, i.clock_le, i.window_pos)))
        (λ t c found. ground (arith, open_charge b.window l.clock id c i.kept o found))

  pub refund-IsSound :
      (before now id bytes : ℕ) (b : LinkBudget W) (l : Log)
      → before ≤ now
      → IsSound before b l
      → IsSound now
          (refund id bytes b)
          (amend_log id (λ c. record c { bytes = c.bytes - min bytes c.bytes }) b l)
  unfolding refund
  refund-IsSound before now id bytes b l h i =
      amend-IsSound before now id _ _ b l h i (λ c e m a. ((m.0, m.1, ground (arith, m.2)), a))
        (λ t c found. ground arith)

  -- An open charge `c` is split into `part`, which ends at `when`, and the rest.
  parted-IsSound :
      (before now id part when next : ℕ) (c : Charge) (b : LinkBudget W) (l : Log)
      → before ≤ now
      → IsSound before b l
      → now ≤ when
      → find_charge b.window l.clock id l.charges ≡ some c
      → c.end ≡ none
      → part ≤ c.bytes
      → IsSound now
          (record b {
            entries =
                change id (λ e. record e { bytes = e.bytes - part }) b.entries
                ++ record { id = b.next_id; end = some when; bytes = part } ∷ [];
            next_id = next;
          })
          (record l {
            charges =
                amend b.window l.clock id (λ c. record c { bytes = c.bytes - part }) l.charges
                ++ record { id = b.next_id; placed = c.placed; end = some when; bytes = part } ∷ [];
          })
  parted-IsSound before now id part when next c b l h i w found o le =
      let rest = λ (c : Charge). record c { bytes = c.bytes - part } in
      let closed : Charge = record {
        id = b.next_id;
        placed = c.placed;
        end = some when;
        bytes = part;
      } in
      record {
        kept =
            Keeps-append closed (record { id = b.next_id; end = some when; bytes = part })
              (ground (arith, i.clock_le, i.window_pos)) (refl, refl, refl)
              (Keeps-change id rest (λ e. record e { bytes = e.bytes - part })
                (λ c e m a. ((m.0, m.1, ground (arith, m.2)), a)) i.kept);
        clock_le = omega (arith, i.clock_le);
        wire_le = λ t. ground (
          arith,
          o,
          wire-append b.window t (amend b.window l.clock id rest l.charges) (closed ∷ []),
          wire-amend b.window l.clock id t rest c l.charges found,
          i.wire_le t,
        );
        share_lt = i.share_lt;
        window_pos = i.window_pos;
      }

  pub split-IsSound :
      (before now id bytes when : ℕ) (b : LinkBudget W) (l : Log)
      → before ≤ now
      → IsSound before b l
      → IsOpen id b.entries
      → now ≤ when
      → IsSound now (release_part id bytes when b) (split_log id bytes when b l)
  unfolding release_part split_log
  split-IsSound before now id bytes when b l h i o w =
      elim (Option-cases (find_charge b.window l.clock id l.charges)) [
        | inl gone ↦ elim (Option-cases (find_entry id b.entries)) [
          | inl absent ↦
              rw (absent, release_part, gone, split_log)
                (same-IsSound before now b b l h i refl refl refl)
          | inr (e, at) ↦
              let (c, found, _) = Keeps-find id e i.kept at in ground (arith, gone, found)
        ]
        | inr (c, found) ↦
            let (e, at, m) = Keeps-find_charge id c i.kept found in
            let shut = open_charge b.window l.clock id c i.kept o found in
            rw (at, release_part, found, split_log, m.2)
              (parted-IsSound before now id (min bytes c.bytes) when ((b.next_id + 1) % 2 ^ 64) c b
                l h i w found shut (omega arith))
      ]
