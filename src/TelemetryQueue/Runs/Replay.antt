-- ===== src/TelemetryQueue/Runs/Replay.antt =====
-- Which frame onboard/src/telemetry_queue.cpp replays next.
use coatheal_flight_software.Prelude.{
  ℕ, ◌+◌, ◌-◌, ◌/◌, ◌%◌, ◌^◌, ◌≤◌, ◌<◌, ◌≡◌, refl, sym, subst, ◌∙◌, Bool, true, false, not, ◌&&◌,
  ◌||◌, none, some, some_inj, List, [], ◌∷◌, arith, ltb, ◌==◌, if◌then◌else◌, if_cases, Bool-cases,
  Option-cases, List-cases, inl, inr,
}
use coatheal_flight_software.TelemetryQueue.Runs.{
  RunSet, erase_range, last_run, find_range, pair_less, length_key, add_run, erase_run, extend_runs,
  split_runs, part_run, replay_index,
}
use coatheal_flight_software.TelemetryQueue.Runs.Cover.{
  in_runs, Apart, cut_range, last_gap, appended, extended, removed, last_run_ge, run_before_found,
}
use coatheal_flight_software.TelemetryQueue.Runs.Lengths.{
  has, IsSorted, IsAbove-has, insert_pair-IsSorted, has-insert_pair, erase_pair-IsSorted,
  has-erase_pair, key_at, find-set_range, find-erase_range, find_range_ge, find_range_inside,
  find-last_run, find-run_before,
}

-- `runs_by_length_` has the runs of `runs_`, each with its key, in order.
pub record IsIndexed (r : RunSet) : Type 0 where
  pub sorted : IsSorted r.by_length
  pub keys : (k s : ℕ) → has (k, s) r.by_length ≡ key_at k s r.ranges

add_run-IsIndexed :
    (s e : ℕ) (r : RunSet) → find_range s r.ranges ≡ none → IsIndexed r → IsIndexed (add_run s e r)
unfolding add_run
add_run-IsIndexed s e r f i = record {
  sorted = insert_pair-IsSorted (length_key s e, s) r.by_length i.sorted;
  keys = λ k x. ground (
    arith,
    f,
    has-insert_pair (k, x) (length_key s e, s) r.by_length,
    find-set_range x s e r.ranges,
    i.keys k x,
  );
}

erase_run-IsIndexed :
    (s e lo hi : ℕ) (r : RunSet)
    → Apart lo hi r.ranges
    → find_range s r.ranges ≡ some e
    → IsIndexed r
    → IsIndexed (erase_run (s, e) r)
unfolding erase_run
erase_run-IsIndexed s e lo hi r a f i = record {
  sorted = erase_pair-IsSorted (length_key s e, s) r.by_length i.sorted;
  keys = λ k x. ground (
    arith,
    f,
    has-erase_pair (k, x) (length_key s e, s) r.by_length i.sorted,
    find-erase_range x s lo hi r.ranges a,
    i.keys k x,
  );
}

-- The runs are those of the pending indices, all below `n`.
pub record IsRunsOf (n : ℕ) (pending : ℕ → Bool) (r : RunSet) : Type 0 where
  pub apart : Apart 0 n r.ranges
  pub cover : (j : ℕ) → in_runs j r.ranges ≡ pending j
  pub indexed : IsIndexed r

find_range_above :
    (x lo hi : ℕ) (rs : List (ℕ × ℕ)) → hi ≤ x → Apart lo hi rs → find_range x rs ≡ none
find_range_above x lo hi [] h a = refl
find_range_above x lo hi ((s, e) ∷ rs) h a = ground (arith, h, a, find_range_above x (e + 2) hi rs)

-- A run of one frame.
alone-IsRunsOf :
    (n : ℕ) (pending : ℕ → Bool) (r : RunSet)
    → Apart 0 (n - 1) r.ranges
    → IsRunsOf n pending r
    → IsRunsOf (n + 1) (λ j. pending j || j == n) (add_run n n r)
unfolding add_run
alone-IsRunsOf n pending r a i =
    let (apart, cover) = appended 0 n r.ranges (omega arith) a in
    record {
      apart = apart;
      cover = λ j. ground (arith, cover j, i.cover j);
      indexed =
          add_run-IsIndexed n n r (find_range_above n 0 n r.ranges (omega arith) i.apart) i.indexed;
    }

pub extend_runs-IsRunsOf :
    (n : ℕ) (pending : ℕ → Bool) (r : RunSet)
    → n < 2 ^ 64 - 1
    → IsRunsOf n pending r
    → IsRunsOf (n + 1) (λ j. pending j || j == n) (extend_runs n r)
unfolding extend_runs add_run erase_run
extend_runs-IsRunsOf n pending r h i = elim (Option-cases (last_run r.ranges)) [
  | inl e ↦
      let apart = last_gap 0 n r.ranges i.apart (λ t at. ground (arith, e, at)) in
      rw (e, extend_runs) (alone-IsRunsOf n pending r apart i)
  | inr ((s, e), at) ↦
      let found = find-last_run s e 0 n r.ranges i.apart at in
      let (_, _, below) = last_run_ge 0 n r.ranges (s, e) i.apart at in
      elim (Bool-cases ((e + 1) % 2 ^ 64 == n)) [
        | inl meets ↦
            let (apart, cover) =
              extended 0 n s e r.ranges at (ground (arith, meets, below, h)) i.apart in
            let erased = erase_run-IsIndexed s e 0 n r i.apart found i.indexed in
            let fresh : find_range s (erase_range s r.ranges) ≡ none =
              ground (arith, find-erase_range s s 0 n r.ranges i.apart) in
            rw (at, extend_runs, meets)
              (record {
                apart = apart;
                cover = λ j. ground (arith, cover j, i.cover j);
                indexed = add_run-IsIndexed s n (erase_run (s, e) r) fresh erased;
              })
        | inr gap ↦
            let gaps : (t : ℕ × ℕ) → last_run r.ranges ≡ some t → t.1 + 1 == n ≡ false =
              λ t last. ground (arith, at, last, gap, below, h) in
            rw (at, extend_runs, gap)
              (alone-IsRunsOf n pending r (last_gap 0 n r.ranges i.apart gaps) i)
      ]
]

part_run-ranges : (s e i : ℕ) (r : RunSet) → (part_run (s, e) i r).ranges ≡ cut_range s e i r.ranges
unfolding part_run add_run erase_run
part_run-ranges s e i r = ground arith

part_run-IsIndexed :
    (n s e i : ℕ) (r : RunSet)
    → Apart 0 n r.ranges
    → find_range s r.ranges ≡ some e
    → s ≤ i
    → IsIndexed r
    → IsIndexed (part_run (s, e) i r)
unfolding part_run
part_run-IsIndexed n s e i r a found before o =
    let r₁ = erase_run (s, e) r in
    let i₁ = erase_run-IsIndexed s e 0 n r a found o in
    let r₂ : RunSet = if ltb s i then add_run s (i - 1) r₁ else r₁ in
    let fresh : find_range s r₁.ranges ≡ none =
      unfold erase_run in ground (arith, find-erase_range s s 0 n r.ranges a) in
    let i₂ : IsIndexed r₂ =
      if_cases IsIndexed (ltb s i) (λ _. add_run-IsIndexed s (i - 1) r₁ fresh i₁) (λ _. i₁) in
    if_cases IsIndexed (ltb i e)
      (λ after.
        let free : find_range (i + 1) r₂.ranges ≡ none =
          unfold erase_run add_run in
          ground (
            arith,
            before,
            after,
            find-set_range (i + 1) s (i - 1) (erase_range s r.ranges),
            find-erase_range (i + 1) s 0 n r.ranges a,
            find_range_inside s e (i + 1) 0 n r.ranges a found,
          ) in
        add_run-IsIndexed (i + 1) e r₂ free i₂)
      (λ _. i₂)

pub split_runs-IsRunsOf :
    (n i : ℕ) (pending : ℕ → Bool) (r : RunSet)
    → pending i ≡ true
    → IsRunsOf n pending r
    → IsRunsOf n (λ j. pending j && not (j == i)) (split_runs i r)
unfolding split_runs
split_runs-IsRunsOf n i pending r h o =
    let (s, e, at, before, after) = run_before_found 0 n i r.ranges o.apart (o.cover i ∙ h) in
    let found = find-run_before s e i 0 n r.ranges o.apart at in
    let (apart, cover) = removed 0 n i s e r.ranges at after o.apart in
    let inside : ltb e i ≡ false = ground (arith, after) in
    let ranges = part_run-ranges s e i r in
    rw (at, split_runs, inside)
      (record {
        apart = rw ranges apart;
        cover = λ j. rw ranges (ground (arith, cover j, o.cover j));
        indexed = part_run-IsIndexed n s e i r o.apart found before o.indexed;
      })

-- The run to replay: it is the first of the longest ones.
pub record IsNext (r : RunSet) (m : ℕ) : Type 0 where
  pub start : ℕ
  pub end : ℕ
  pub found : find_range start r.ranges ≡ some end
  pub middle : m ≡ start + (end - start) / 2
  pub longest : (s e : ℕ) → find_range s r.ranges ≡ some e → e - s ≤ end - start
  pub first : (s e : ℕ) → find_range s r.ranges ≡ some e → e - s ≡ end - start → start ≤ s

found_in_runs :
    (s e m : ℕ) (rs : List (ℕ × ℕ)) → find_range s rs ≡ some e → s ≤ m → m ≤ e → in_runs m rs ≡ true
found_in_runs s e m [] f h k = ground (arith, f)
found_in_runs s e m ((c, d) ∷ rs) f h k = ground (arith, f, h, k, found_in_runs s e m rs)

-- The first of `runs_by_length_` has the least key.
least_key :
    (k s : ℕ) (ps : List (ℕ × ℕ)) (r : RunSet)
    → IsIndexed r
    → r.by_length ≡ (k, s) ∷ ps
    → (s' e' : ℕ) → find_range s' r.ranges ≡ some e'
    → pair_less (length_key s' e', s') (k, s) ≡ false
least_key k s ps r i e s' e' found =
    let k' = length_key s' e' in
    let in_all : has (k', s') r.by_length ≡ true = ground (arith, i.keys k' s', found) in
    let in_list : has (k', s') ((k, s) ∷ ps) ≡ true = rw e at in_all in
    let sorted : IsSorted ((k, s) ∷ ps) = subst IsSorted e i.sorted in
    ground (arith, in_list, IsAbove-has (k, s) (k', s') ps sorted.0)

-- It is a run.
first_found :
    (k s : ℕ) (ps : List (ℕ × ℕ)) (r : RunSet)
    → IsIndexed r
    → r.by_length ≡ (k, s) ∷ ps
    → (e : ℕ) × (find_range s r.ranges ≡ some e) × (length_key s e ≡ k)
first_found k s ps r i b =
    let in_list : has (k, s) ((k, s) ∷ ps) ≡ true = ground arith in
    let in_all : has (k, s) r.by_length ≡ true = rw b in_list in
    elim (Option-cases (find_range s r.ranges)) [
      | inl gone ↦ ground (arith, i.keys k s, in_all, gone)
      | inr (e, found) ↦ (e, found, ground (arith, i.keys k s, in_all, found))
    ]

-- The frame to replay is the one in the middle of the longest run of pending frames, of the oldest if
-- several are as long, and it is pending.
pub replay_index-IsNext :
    (n m : ℕ) (pending : ℕ → Bool) (r : RunSet)
    → n < 2 ^ 64 - 1
    → IsRunsOf n pending r
    → replay_index r ≡ some m
    → IsNext r m × (pending m ≡ true)
unfolding replay_index
replay_index-IsNext n m pending r h o f = elim (List-cases r.by_length) [
  | inl e ↦ ground (arith, f, e)
  | inr ((k, s), ps, b) ↦
      let (e, found, key) = first_found k s ps r o.indexed b in
      let least = least_key k s ps r o.indexed b in
      let middle : m ≡ s + (e - s) / 2 = some_inj (ground (arith, f, b, found)) in
      let (_, order, below) = find_range_ge s e 0 n r.ranges o.apart found in
      (
        record {
          start = s;
          end = e;
          found = found;
          middle = middle;
          longest = λ s' e' found'. ground (
            arith,
            h,
            key,
            order,
            below,
            least s' e' found',
            find_range_ge s' e' 0 n r.ranges o.apart found',
          );
          first = λ s' e' found' same. ground (
            arith,
            h,
            key,
            order,
            below,
            same,
            least s' e' found',
            find_range_ge s' e' 0 n r.ranges o.apart found',
          );
        },
        sym (o.cover m)
            ∙ found_in_runs s e m r.ranges found (omega (arith, middle))
                (omega (arith, middle, order)),
      )
]

-- If there is no frame to replay, none is pending.
pub replay_index-none :
    (n : ℕ) (pending : ℕ → Bool) (r : RunSet)
    → IsRunsOf n pending r
    → replay_index r ≡ none
    → (j : ℕ) → pending j ≡ false
unfolding replay_index
replay_index-none n pending r o f j = elim (List-cases r.by_length) [
  | inr ((k, s), ps, b) ↦
      let (e, found, key) = first_found k s ps r o.indexed b in ground (arith, f, b, found)
  | inl b ↦ elim (List-cases r.ranges) [
    | inl none_left ↦ sym (o.cover j) ∙ rw none_left refl
    | inr ((c, d), rs, e) ↦
        let found : find_range c r.ranges ≡ some d = rw e (ground arith) in
        ground (arith, b, found, o.indexed.keys (length_key c d) c)
  ]
]
