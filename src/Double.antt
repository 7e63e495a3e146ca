-- ===== src/Double.antt =====
-- Floating-point numbers are not modelled by a fixed format: a component takes the type of its
-- `double` values, with the operations that it uses, as an instance of this record. `lt x y` is
-- `x < y`, and also `y > x`; `le x y` is `x <= y`, and also `y >= x`. `trunc` is the conversion to
-- `std::int64_t`, and `llround` is `std::llround`.
use coatheal_flight_software.Prelude.{
  ℕ, ◌/◌, zero, suc, Bool, true, false, ◌≡◌, arith, if◌then◌else◌,
}
use coatheal_flight_software.Prelude.Int.{ℤ, pos, negsuc, pos_part, ltb_ℤ, leb_ℤ, ◌+ℤ◌, ◌-ℤ◌, ◌*ℤ◌}

pub record Double (W : Type 0) : Type 0 where
  pub of_int : ℤ → W
  pub lt : W → W → Bool
  pub le : W → W → Bool
  pub add : W → W → W
  pub sub : W → W → W
  pub mul : W → W → W
  pub div : W → W → W
  pub sqrt : W → W
  pub is_finite : W → Bool
  pub trunc : W → ℤ
  pub llround : W → ℤ

module _ {W : Type 0} ⦃d : Double W⦄ where
  open d use {of_int, lt}

  -- 0.0 and 1.0.
  abbrev pub nought : W
  nought = of_int (pos 0)

  abbrev pub one : W
  one = of_int (pos 1)

  -- `std::clamp`, `std::min`, `std::max` and `std::fabs`, as the library defines them by `<`.
  abbrev pub clamp : W → W → W → W
  clamp v lo hi = if lt v lo then lo else if lt hi v then hi else v

  abbrev pub min_of : W → W → W
  min_of a b = if lt b a then b else a

  abbrev pub max_of : W → W → W
  max_of a b = if lt a b then b else a

  abbrev pub fabs : W → W
  fabs a = if lt a nought then d.sub nought a else a

-- Any two values are comparable: there is no NaN among the values of `W`.
pub record IsTotal {W : Type 0} (d : Double W) : Type 0 where
  pub le_unless : (x y : W) → d.lt x y ≡ false → d.le y x ≡ true

-- Whole numbers, with quotients and roots cut off: an instance to run the components on.
abbrev pub quot : ℤ → ℤ → ℤ
quot a (pos zero) = pos 0
quot (pos a) (pos (suc b)) = pos (a / suc b)
quot (negsuc a) (pos (suc b)) = pos 0 -ℤ pos (suc a / suc b)
quot a (negsuc b) = pos 0

-- The largest r ≤ k with r * r ≤ n.
abbrev pub root : ℕ → ℤ → ℤ
root zero n = pos 0
root (suc k) n = if leb_ℤ (pos (suc k) *ℤ pos (suc k)) n then pos (suc k) else root k n

instance unfoldable pub int_double : Double ℤ
unfolding ◌+ℤ◌ ◌-ℤ◌ ◌*ℤ◌
int_double = record {
  of_int = λ n. n;
  lt = ltb_ℤ;
  le = leb_ℤ;
  add = ◌+ℤ◌;
  sub = ◌-ℤ◌;
  mul = ◌*ℤ◌;
  div = quot;
  sqrt = λ n. root (pos_part n) n;
  is_finite = λ n. true;
  trunc = λ n. n;
  llround = λ n. n;
}

-- Whole numbers are comparable.
pub whole-IsTotal : IsTotal int_double
unfolding int_double
whole-IsTotal = record { le_unless = λ x y h. ground (arith, h) }
