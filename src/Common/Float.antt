-- ===== src/Common/Float.antt =====
-- What the services do with a `float`, as an interface: the constants 0 and 0.00001f, the
-- comparisons, the subtraction and absolute value, and the conversion to `int` that truncates towards zero.
use bas_dev.Common.Int.{ℤ, ◌≤ℤ◌}
use mathlib.Core.Path.{◌≡◌}
use mathlib.Core.Logic.{◌⊎◌}
use mathlib.Core.Bool.{Bool, true, not, ◌&&◌}

pub record Float (W : Type 0) : Type 0 where
  pub nought : W
  pub currency_epsilon : W
  pub le : W → W → Bool
  pub gt : W → W → Bool
  pub eq : W → W → Bool
  pub minus : W → W → W
  pub fabsf : W → W
  pub to_int : W → ℤ

-- A NaN is the value that is not `<=` itself; every other value is a number.
abbrev pub IsNumber : {W : Type 0} ⦃f : Float W⦄ → W → Type 0
IsNumber ⦃f⦄ x = f.le x x ≡ true

-- The order of IEEE 754: total on the numbers, with `>` and `==` given by `<=` there, and the
-- conversion to `int` monotone.
pub record IsOrdered (W : Type 0) ⦃f : Float W⦄ : Type 0 where
  pub nought-IsNumber : IsNumber f.nought
  pub le_trans : (x y z : W) → f.le x y ≡ true → f.le y z ≡ true → f.le x z ≡ true
  pub le_total : (x y : W) → IsNumber x → IsNumber y → (f.le x y ≡ true) ⊎ (f.le y x ≡ true)
  pub gt-eq-not_le : (x y : W) → IsNumber x → IsNumber y → f.gt x y ≡ not (f.le x y)
  pub eq-eq-le_both : (x y : W) → f.eq x y ≡ (f.le x y && f.le y x)
  pub to_int_mono : (x y : W) → f.le x y ≡ true → f.to_int x ≤ℤ f.to_int y
