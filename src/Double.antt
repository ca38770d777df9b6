-- ===== src/Double.antt =====
-- What the program does with a `double`: literals, comparisons, arithmetic, and conversions. The
-- rounding is left open, so a theorem holds for IEEE arithmetic as for any other; the laws that a
-- theorem needs are its hypotheses.
use intrinsic_moveit.Prelude.{
  Option, none, some, negsuc, ◌&&◌, ℕ, ◌*◌, ◌/◌, ℤ, pos, Bool, true, false, ◌≡◌, arith, ltb_ℤ,
  leb_ℤ, ◌+ℤ◌, ◌-ℤ◌, ◌*ℤ◌, ◌/ℤ◌, if◌then◌else◌,
}

pub record Double (W : Type 0) : Type 0 where
  -- The literal n / d.
  pub ratio : ℕ → ℕ → W
  pub of_int : ℤ → W
  pub lt : W → W → Bool
  pub le : W → W → Bool
  pub is_finite : W → Bool
  pub add : W → W → W
  pub sub : W → W → W
  pub mul : W → W → W
  pub div : W → W → W
  pub ceil : W → W
  -- The truncating `static_cast` to a 64-bit integer.
  pub to_int : W → ℤ
  -- The truncating `static_cast` to a 32-bit integer. It is undefined behaviour (`none`) for NaN and
  -- for a value that does not fit.
  pub to_int32 : W → Option ℤ
  -- static_cast<float>, as the double that it stands for.
  pub to_float : W → W

module _ {W : Type 0} ⦃d : Double W⦄ where
  abbrev pub nought : W
  nought = d.ratio 0 1

  -- x > 0.0
  abbrev pub is_pos : W → Bool
  is_pos x = d.lt nought x

  -- std::min and std::max
  abbrev pub min_double : W → W → W
  min_double x y = if d.lt y x then y else x

  abbrev pub max_double : W → W → W
  max_double x y = if d.lt x y then y else x

  -- std::chrono::milliseconds(static_cast<long long>(seconds * 1000.0))
  abbrev pub milliseconds : W → ℤ
  milliseconds x = d.to_int (d.mul x (d.ratio 1000 1))

-- NaN is the value that is not `<=` itself. IEEE's `<` has these laws; the second needs a number in
-- the middle.
pub record IsOrdered (W : Type 0) ⦃d : Double W⦄ : Type 0 where
  pub lt_asym : (x y : W) → d.lt x y ≡ true → d.lt y x ≡ false
  pub not_lt_trans :
      (x y z : W) → d.le y y ≡ true → d.lt x y ≡ false → d.lt y z ≡ false → d.lt x z ≡ false

-- The interface at concrete numbers, for tests: thousandths, rounded towards zero.
instance abbrev pub milli_double : Double ℤ
milli_double = record {
  ratio = λ n k. pos (n * 1000 / k);
  of_int = λ n. n *ℤ pos 1000;
  lt = ltb_ℤ;
  le = leb_ℤ;
  is_finite = λ x. true;
  add = λ x y. x +ℤ y;
  sub = λ x y. x -ℤ y;
  mul = λ x y. (x *ℤ y) /ℤ pos 1000;
  div = λ x y. (x *ℤ pos 1000) /ℤ y;
  ceil = λ x. ((x +ℤ pos 999) /ℤ pos 1000) *ℤ pos 1000;
  to_int = λ x. x /ℤ pos 1000;
  to_int32 = λ x.
      if leb_ℤ (x /ℤ pos 1000) (pos 2147483647) && leb_ℤ (negsuc 2147483647) (x /ℤ pos 1000)
      then some (x /ℤ pos 1000)
      else none;
  to_float = λ x. x;
}

pub milli-IsOrdered : IsOrdered ℤ
milli-IsOrdered = record {
  lt_asym = λ x y h. ground arith;
  not_lt_trans = λ x y z n h k. ground arith;
}

-- The functions of <cmath> that the program calls.
pub record Cmath (W : Type 0) : Type 0 where
  pub sqrt : W → W
  pub abs : W → W
  pub acos : W → W
