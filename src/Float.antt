-- ===== src/Float.antt =====
-- `float64`: a type with the operations of Go and of package math that the program uses. There is
-- no model of floating point behind it; a theorem that needs a law of a comparison names it.
use map_router.Base.{ℕ, Bool, ℤ}

pub record Float : Type 1 where
  pub F : Type 0
  -- The literal `p / q`, as in `1.609344` for `of_ratio 1609344 1000000`.
  pub of_ratio : ℕ → ℕ → F
  pub neg : F → F
  pub add : F → F → F
  pub sub : F → F → F
  pub mul : F → F → F
  pub div : F → F → F
  -- The tests `x < y`, `x <= y` and `x == y`, false at NaN.
  pub lt : F → F → Bool
  pub le : F → F → Bool
  pub eq : F → F → Bool
  -- `float64(w)` of a `uint32`, and `uint32(math.Round(x))`.
  pub of_u32 : ℕ → F
  pub round_u32 : F → ℕ
  -- `int32(math.Floor(x))`, and the conversion `int32(x)`, which cuts the fraction off.
  pub floor_i32 : F → ℤ
  pub trunc_i32 : F → ℤ
  pub abs : F → F
  pub min : F → F → F
  pub max : F → F → F
  -- `math.Inf(1)`
  pub inf : F
  pub pi : F
  pub sin : F → F
  pub cos : F → F
  pub sqrt : F → F
  pub atan2 : F → F → F
  pub is_nan : F → Bool
  pub is_inf : F → Bool
