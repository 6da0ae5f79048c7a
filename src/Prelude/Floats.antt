-- ===== src/Prelude/Floats.antt =====
-- Python's floats, which are IEEE doubles: the operations that the program uses, as a parameter, and
-- what the theorems take of their order. A comparison with NaN is false, so `leb` is not the negation
-- of `ltb`.
use Prim.Native.String.{String}
use mathlib.Core.Path.{◌≡◌}
use mathlib.Core.Logic.{inl, inr}
use mathlib.Core.Bool.{Bool, true}
use mathlib.Core.List.{List, []}
use macbastion.Prelude.Tests.{if◌then◌else◌, Bool-cases}
use macbastion.Prelude.Int.{ℤ}

pub record FloatOps (F : Type 0) : Type 0 where
  -- the float that a literal stands for, `float(n)`, and `str(x)`
  pub of_text : String → F
  pub of_ℤ : ℤ → F
  pub to_text : F → String
  pub add : F → F → F
  pub sub : F → F → F
  pub mul : F → F → F
  -- by a divisor that is not zero
  pub div : F → F → F
  -- `x // y`, by a divisor that is not zero
  pub floor_div : F → F → F
  -- the built-in `sum`
  pub total : List F → F
  -- `<`, `<=`, `==`, `math.isfinite`, `math.isclose(a, b, abs_tol=1e-9)`
  pub ltb : F → F → Bool
  pub leb : F → F → Bool
  pub eqb : F → F → Bool
  pub is_finite : F → Bool
  pub is_close : F → F → Bool

module _ {F : Type 0} (ops : FloatOps F) where
  open ops use {of_text, total, ltb, leb, eqb}

  abbrev pub zero_float : F
  zero_float = of_text "0.0"

  abbrev pub one_float : F
  one_float = of_text "1.0"

  -- `max(0.0, min(1.0, x))`: of equals, and of what does not compare, Python keeps the first
  unfoldable pub clamp01 : F → F
  clamp01 x =
      let y = if ltb x one_float then x else one_float in if ltb zero_float y then y else zero_float

  -- what IEEE 754 says of the order, and of the sum of no floats
  pub record FloatLaws : Type 0 where
    pub leb_of_ltb : (a b : F) → ltb a b ≡ true → leb a b ≡ true
    pub ltb_of_leb_ltb : (a b c : F) → leb a b ≡ true → ltb b c ≡ true → ltb a c ≡ true
    pub leb_zero : leb zero_float zero_float ≡ true
    pub leb_one : leb one_float one_float ≡ true
    pub leb_zero_one : leb zero_float one_float ≡ true
    pub total_nil : eqb (total []) zero_float ≡ true

  -- a clamped float lies between 0 and 1, whatever it was, NaN included
  pub clamp01_bounds :
      FloatLaws → (x : F) → (leb zero_float (clamp01 x) ≡ true) × (leb (clamp01 x) one_float ≡ true)
  unfolding clamp01
  clamp01_bounds laws x = elim (Bool-cases (ltb x one_float)) [
    | inl low ↦ rw low (elim (Bool-cases (ltb zero_float x)) [
      | inl high ↦ rw high (laws.leb_of_ltb _ _ high, laws.leb_of_ltb _ _ low)
      | inr small ↦ rw small (laws.leb_zero, laws.leb_zero_one)
    ])
    | inr big ↦ rw big (elim (Bool-cases (ltb zero_float one_float)) [
      | inl high ↦ rw high (laws.leb_zero_one, laws.leb_one)
      | inr small ↦ rw small (laws.leb_zero, laws.leb_zero_one)
    ])
  ]
