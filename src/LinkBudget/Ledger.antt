-- ===== src/LinkBudget/Ledger.antt =====
-- The ledger of onboard/src/link_budget.cpp against the log of all charges ever made: what it keeps is
-- what still counts.
use coatheal_flight_software.Prelude.{
  ℕ, ◌+◌, ◌≤◌, true, false, ◌&&◌, Option, none, some, List, [], ◌∷◌, ◌++◌, ◌≡◌, refl, subst,
  some_inj, arith, leb, ◌==◌, if◌then◌else◌, if_cases, Bool-cases, inl, inr,
}
use coatheal_flight_software.LinkBudget.{Entry, counts, prune, sum_bytes, change, find_entry}

-- A charge: its bytes may be on the wire from `placed` to `end`.
pub record Charge : Type 0 where
  pub id : ℕ
  pub placed : ℕ
  pub end : Option ℕ
  pub bytes : ℕ

-- The bytes of all charges that may be on the wire in the window that ends at `t`.
abbrev pub wire : ℕ → ℕ → List Charge → ℕ
wire window t [] = 0
wire window t (c ∷ cs) =
    (if leb c.placed t && counts window t c.end then c.bytes else 0) + wire window t cs

-- The bytes of the charges that count at `now`.
abbrev pub counted : ℕ → ℕ → List Charge → ℕ
counted window now [] = 0
counted window now (c ∷ cs) =
    (if counts window now c.end then c.bytes else 0) + counted window now cs

abbrev pub Matches : Charge → Entry → Type 0
Matches c e = (e.id ≡ c.id) × (e.end ≡ c.end) × (e.bytes ≡ c.bytes)

-- The entries are the charges that count at `clock`, in their order.
pub data Keeps (window clock : ℕ) : List Charge → List Entry → Type 0 where
  done : Keeps window clock [] []
  skip :
      (c : Charge) {cs : List Charge} {es : List Entry}
      → counts window clock c.end ≡ false
      → Keeps window clock cs es
      → Keeps window clock (c ∷ cs) es
  keep :
      (c : Charge) (e : Entry) {cs : List Charge} {es : List Entry}
      → counts window clock c.end ≡ true
      → Matches c e
      → Keeps window clock cs es
      → Keeps window clock (c ∷ cs) (e ∷ es)

-- A change of the first charge with the id that counts at `clock`.
abbrev pub amend : ℕ → ℕ → ℕ → (Charge → Charge) → List Charge → List Charge
amend window clock id f [] = []
amend window clock id f (c ∷ cs) =
    if c.id == id && counts window clock c.end then f c ∷ cs else c ∷ amend window clock id f cs

abbrev pub find_charge : ℕ → ℕ → ℕ → List Charge → Option Charge
find_charge window clock id [] = none
find_charge window clock id (c ∷ cs) =
    if c.id == id && counts window clock c.end then some c else find_charge window clock id cs

counts_later :
    (window s t : ℕ) (end : Option ℕ)
    → s ≤ t
    → counts window s end ≡ false
    → counts window t end ≡ false
counts_later window s t none h e = e
counts_later window s t (some end) h e = ground arith

-- No window that ends later carries more than what counts now.
pub wire-le-counted :
    (window now t : ℕ) (cs : List Charge) → now ≤ t → wire window t cs ≤ counted window now cs
wire-le-counted window now t [] h = omega arith
wire-le-counted window now t (c ∷ cs) h =
    ground (arith, counts_later window now t c.end, wire-le-counted window now t cs h)

module _ {window clock : ℕ} where
  pub Keeps-prune :
      {cs : List Charge} {es : List Entry} (now : ℕ)
      → clock ≤ now
      → Keeps window clock cs es
      → Keeps window now cs (prune window now es)
  Keeps-prune now h done = done
  Keeps-prune now h (skip c d k) =
      skip c (counts_later window clock now c.end h d) (Keeps-prune now h k)
  Keeps-prune now h (keep c e a m k) = elim (Bool-cases (counts window now e.end)) [
    | inl alive ↦ rw alive (keep c e (rw (← m.1) alive) m (Keeps-prune now h k))
    | inr dead ↦ rw dead (skip c (rw (← m.1) dead) (Keeps-prune now h k))
  ]

  pub Keeps-sum_bytes :
      {cs : List Charge} {es : List Entry}
      → Keeps window clock cs es
      → sum_bytes es ≡ counted window clock cs
  Keeps-sum_bytes done = refl
  Keeps-sum_bytes (skip c d k) = ground (arith, Keeps-sum_bytes k)
  Keeps-sum_bytes (keep c e a m k) = ground (arith, Keeps-sum_bytes k)

  pub Keeps-append :
      (c : Charge) (e : Entry) {cs : List Charge} {es : List Entry}
      → counts window clock c.end ≡ true
      → Matches c e
      → Keeps window clock cs es
      → Keeps window clock (cs ++ c ∷ []) (es ++ e ∷ [])
  Keeps-append c e a m done = keep c e a m done
  Keeps-append c e a m (skip c₀ d k) = skip c₀ d (Keeps-append c e a m k)
  Keeps-append c e a m (keep c₀ e₀ a₀ m₀ k) = keep c₀ e₀ a₀ m₀ (Keeps-append c e a m k)

  -- The same change on both sides.
  pub Keeps-change :
      (id : ℕ) (f : Charge → Charge) (g : Entry → Entry)
      → ((c : Charge) (e : Entry)
          → Matches c e
          → counts window clock c.end ≡ true
          → Matches (f c) (g e) × (counts window clock (f c).end ≡ true))
      → {cs : List Charge} {es : List Entry} → Keeps window clock cs es
      → Keeps window clock (amend window clock id f cs) (change id g es)
  Keeps-change id f g same done = done
  Keeps-change id f g same {cs = c ∷ cs} {es = es} (skip _ d k) =
      if_cases (λ (q : List Charge). Keeps window clock q (change id g es))
        (c.id == id && counts window clock c.end) (λ hit. ground (arith, d))
        (λ _. skip c d (Keeps-change id f g same k))
  Keeps-change id f g same {cs = c ∷ cs} {es = e ∷ es} (keep _ _ a m k) =
      elim (Bool-cases (e.id == id)) [
        | inl hit ↦
            let hit' : c.id == id && counts window clock c.end ≡ true = ground (arith, m.0) in
            let (m', a') = same c e m a in rw (hit, hit') (keep (f c) (g e) a' m' k)
        | inr miss ↦
            let miss' : c.id == id && counts window clock c.end ≡ false = ground (arith, m.0) in
            rw (miss, miss') (keep c e a m (Keeps-change id f g same k))
      ]

  -- The charge of an entry that is found.
  pub Keeps-find :
      (id : ℕ) (e : Entry) {cs : List Charge} {es : List Entry}
      → Keeps window clock cs es
      → find_entry id es ≡ some e
      → (c : Charge) × (find_charge window clock id cs ≡ some c) × Matches c e
  Keeps-find id e done h = ground (arith, h)
  Keeps-find id e {cs = c ∷ cs} (skip _ d k) h =
      let (c', found, m) = Keeps-find id e k h in (c', ground (arith, d), m)
  Keeps-find id e {cs = c ∷ cs} {es = e₀ ∷ es} (keep _ _ a m k) h =
      elim (Bool-cases (e₀.id == id)) [
        | inl hit ↦
            let same : e₀ ≡ e = some_inj (ground (arith, h)) in
            (c, ground (arith, m.0), subst (Matches c) same m)
        | inr miss ↦
            let (c', found, m') = Keeps-find id e k (ground (arith, h)) in
            (c', ground (arith, m.0), m')
      ]

module _ {window clock : ℕ} where
  -- The entry of a charge that is found.
  pub Keeps-find_charge :
      (id : ℕ) (c : Charge) {cs : List Charge} {es : List Entry}
      → Keeps window clock cs es
      → find_charge window clock id cs ≡ some c
      → (e : Entry) × (find_entry id es ≡ some e) × Matches c e
  Keeps-find_charge id c done h = ground (arith, h)
  Keeps-find_charge id c {cs = c₀ ∷ cs} (skip _ d k) h =
      Keeps-find_charge id c k (ground (arith, h))
  Keeps-find_charge id c {cs = c₀ ∷ cs} {es = e₀ ∷ es} (keep _ _ a m k) h =
      elim (Bool-cases (e₀.id == id)) [
        | inl hit ↦
            let same : c₀ ≡ c = some_inj (ground (arith, h, m.0)) in
            (e₀, ground arith, subst (λ c. Matches c e₀) same m)
        | inr miss ↦
            let (e, found, m') = Keeps-find_charge id c k (ground (arith, h, m.0)) in
            (e, ground arith, m')
      ]

module _ (window : ℕ) where
  -- A change that takes no bytes off the wire later than the charge had them adds none.
  pub wire-amend-le :
      (clock id t : ℕ) (f : Charge → Charge) (cs : List Charge)
      → ((c : Charge)
          → find_charge window clock id cs ≡ some c
          → wire window t (f c ∷ []) ≤ wire window t (c ∷ []))
      → wire window t (amend window clock id f cs) ≤ wire window t cs
  wire-amend-le clock id t f [] h = omega arith
  wire-amend-le clock id t f (c ∷ cs) h =
      elim (Bool-cases (c.id == id && counts window clock c.end)) [
        | inl hit ↦ let le = h c (rw hit refl) in rw hit (omega (arith, le))
        | inr miss ↦
            let le = wire-amend-le clock id t f cs (λ c' e. h c' (rw miss e)) in
            rw miss (omega (arith, le))
      ]

  -- The bytes of the charge that is changed make the difference.
  pub wire-amend :
      (clock id t : ℕ) (f : Charge → Charge) (c : Charge) (cs : List Charge)
      → find_charge window clock id cs ≡ some c
      → wire window t (amend window clock id f cs) + wire window t (c ∷ [])
        ≡ wire window t cs + wire window t (f c ∷ [])
  wire-amend clock id t f c [] h = ground (arith, h)
  wire-amend clock id t f c (c₀ ∷ cs) h =
      elim (Bool-cases (c₀.id == id && counts window clock c₀.end)) [
        | inl hit ↦
            let same : c₀ ≡ c = some_inj (rw hit at h) in
            rw hit (
              subst
                (λ c.
                  wire window t (f c₀ ∷ cs) + wire window t (c ∷ [])
                  ≡ wire window t (c₀ ∷ cs) + wire window t (f c ∷ []))
                same (omega arith))
        | inr miss ↦ rw miss (omega (arith, wire-amend clock id t f c cs (rw miss at h)))
      ]

  pub wire-append :
      (t : ℕ) (cs ds : List Charge) → wire window t (cs ++ ds) ≡ wire window t cs + wire window t ds
  wire-append t [] ds = omega arith
  wire-append t (c ∷ cs) ds = omega (arith, wire-append t cs ds)
