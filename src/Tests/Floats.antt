-- ===== src/Tests/Floats.antt =====
-- A stand-in for `float64`: the natural numbers, with division rounded down. It serves to run the
-- definitions and to show that the hypotheses on the order can hold.
use map_router.Base.{
  ℕ, ◌+◌, ◌-◌, ◌*◌, ◌/◌, ◌%◌, ◌≡◌, refl, false, ltb, leb, ◌==◌, pos, if◌then◌else◌,
}
use map_router.Float.{Float}
use map_router.Geo.{point_to_segment_dist, IsOrdered01, point_to_segment_dist-ratio}

abbrev pub nat_float : Float
nat_float = record {
  F = ℕ;
  of_ratio = λ p q. p / q;
  neg = λ x. 0;
  add = λ x y. x + y;
  sub = λ x y. x - y;
  mul = λ x y. x * y;
  div = λ x y. x / y;
  lt = λ x y. ltb x y;
  le = λ x y. leb x y;
  eq = λ x y. x == y;
  of_u32 = λ w. w;
  round_u32 = λ x. x % 4294967296;
  floor_i32 = λ x. pos x;
  trunc_i32 = λ x. pos x;
  abs = λ x. x;
  min = λ x y. if ltb x y then x else y;
  max = λ x y. if ltb x y then y else x;
  inf = 4294967296;
  pi = 3;
  sin = λ x. x;
  cos = λ x. 1;
  sqrt = λ x. x;
  atan2 = λ y x. y;
  is_nan = λ x. false;
  is_inf = λ x. false;
}

nat-IsOrdered01 : IsOrdered01 nat_float
nat-IsOrdered01 = record { zero_zero = refl; one_one = refl; one_zero = refl }

point_to_segment_dist-ratio_example :
    (ltb (point_to_segment_dist nat_float 5 5 1 1 3 3).1 0 ≡ false)
    × (ltb 1 (point_to_segment_dist nat_float 5 5 1 1 3 3).1 ≡ false)
point_to_segment_dist-ratio_example =
    point_to_segment_dist-ratio nat_float nat-IsOrdered01 5 5 1 1 3 3
