-- ===== src/Platform/Float.antt =====
-- Go's `float64`: what the services do with it, behind an interface, since its values are not
-- modelled. The laws are those of IEEE 754 comparisons; a NaN is a value that is not `<=` itself.
use momotaro.Prelude.{ℕ, ◌<◌, ◌≤◌, ◌≡◌, ◌⊎◌, Bool, true, false, not}
use momotaro.Prelude.Int.{ℤ, pos}

pub record Float (F : Type 0) : Type 0 where
  pub of_int : ℤ → F  -- float64(x)
  pub trunc : F → ℤ  -- int64(x)
  pub sub : F → F → F
  pub mul : F → F → F
  pub div : F → F → F
  pub le : F → F → Bool
  pub lt : F → F → Bool
  pub eq : F → F → Bool

abbrev pub IsNumber : {F : Type 0} ⦃fl : Float F⦄ → F → Type 0
IsNumber ⦃fl⦄ x = fl.le x x ≡ true

infix 4 ◌≼◌
abbrev pub ◌≼◌ : {F : Type 0} ⦃fl : Float F⦄ → F → F → Type 0
◌≼◌ ⦃fl⦄ x y = fl.le x y ≡ true

pub record IsOrdered (F : Type 0) ⦃fl : Float F⦄ : Type 0 where
  pub le_trans : (x y z : F) → x ≼ y → y ≼ z → x ≼ z
  pub le_total : (x y : F) → IsNumber x → IsNumber y → (x ≼ y) ⊎ (y ≼ x)
  pub lt-eq-not-le : (x y : F) → IsNumber x → IsNumber y → fl.lt x y ≡ not (fl.le y x)
  pub of_int_number : (z : ℤ) → IsNumber (fl.of_int z)

-- The quotient of two integers that lies between 0 and 1 is rounded to a number between 0 and 1.
pub record HasUnitQuotients (F : Type 0) ⦃fl : Float F⦄ : Type 0 where
  pub not_below_zero :
      (a b : ℕ)
      → 0 < b
      → fl.lt (fl.div (fl.of_int (pos a)) (fl.of_int (pos b))) (fl.of_int (pos 0)) ≡ false
  pub not_above_one :
      (a b : ℕ)
      → a ≤ b
      → 0 < b
      → fl.lt (fl.of_int (pos 1)) (fl.div (fl.of_int (pos a)) (fl.of_int (pos b))) ≡ false
