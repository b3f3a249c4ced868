-- ===== src/Geo.antt =====
-- pkg/geo/haversine.go: distances on the sphere and in the equirectangular projection.
use map_router.Base.{ℕ, ◌≡◌, false, ◌&&◌, if◌then◌else◌, arith}
use map_router.Float.{Float}

module _ (f : Float) where
  open f use {F, of_ratio, add, sub, mul, div, lt, eq, pi, sin, cos, sqrt, atan2}

  abbrev whole : ℕ → F
  whole n = of_ratio n 1

  abbrev earth_radius_meters : F
  earth_radius_meters = whole 6371000

  -- `x * math.Pi / 180`
  abbrev radians : F → F
  radians x = div (mul x pi) (whole 180)

  unfoldable pub haversine : F → F → F → F → F
  haversine lat1 lon1 lat2 lon2 =
      let lat1r = radians lat1 in
      let lat2r = radians lat2 in
      let d_lat = radians (sub lat2 lat1) in
      let d_lon = radians (sub lon2 lon1) in
      let half_lat = sin (div d_lat (whole 2)) in
      let half_lon = sin (div d_lon (whole 2)) in
      let a =
        add (mul half_lat half_lat) (mul (mul (mul (cos lat1r) (cos lat2r)) half_lon) half_lon) in
      let c = mul (whole 2) (atan2 (sqrt a) (sqrt (sub (whole 1) a))) in mul earth_radius_meters c

  pub equirectangular_dist : F → F → F → F → F
  equirectangular_dist lat1 lon1 lat2 lon2 =
      let mid = radians (div (add lat1 lat2) (whole 2)) in
      let x = div (mul (mul (sub lon2 lon1) (cos mid)) pi) (whole 180) in
      let y = radians (sub lat2 lat1) in mul (sqrt (add (mul x x) (mul y y))) earth_radius_meters

  abbrev deg_to_meters : F
  deg_to_meters = mul (div pi (whole 180)) earth_radius_meters

  -- `if t < 0 { t = 0 } else if t > 1 { t = 1 }`
  clamp_ratio : F → F
  clamp_ratio t = if lt t (whole 0) then whole 0 else if lt (whole 1) t then whole 1 else t

  -- The distance in metres, and the ratio along AB.
  unfoldable pub point_to_segment_dist : F → F → F → F → F → F → F × F
  unfolding clamp_ratio
  point_to_segment_dist p_lat p_lon a_lat a_lon b_lat b_lon =
      let cos_lat = cos (radians (div (add a_lat b_lat) (whole 2))) in
      let ax = mul a_lon cos_lat in
      let ay = a_lat in
      let bx = mul b_lon cos_lat in
      let by = b_lat in
      let px = mul p_lon cos_lat in
      let py = p_lat in
      let gap = λ (ex : F) (ey : F). mul (sqrt (add (mul ex ex) (mul ey ey))) deg_to_meters in
      let dx = sub bx ax in
      let dy = sub by ay in
      let len_sq = add (mul dx dx) (mul dy dy) in
      let along = div (add (mul (sub px ax) dx) (mul (sub py ay) dy)) len_sq in
      let t = if lt (whole 0) len_sq then clamp_ratio along else whole 0 in
      if eq a_lat b_lat && eq a_lon b_lon
      then (gap (sub px ax) (sub py ay), whole 0)
      else (gap (sub px (add ax (mul t dx))) (sub py (add ay (mul t dy))), t)

  -- What is used of the order of `float64`: it is irreflexive at 0 and 1, and 1 is not below 0.
  pub record IsOrdered01 : Type 0 where
    pub zero_zero : lt (whole 0) (whole 0) ≡ false
    pub one_one : lt (whole 1) (whole 1) ≡ false
    pub one_zero : lt (whole 1) (whole 0) ≡ false

  -- The ratio is never below 0 nor above 1, also where the segment is degenerate or the
  -- projection is NaN.
  pub point_to_segment_dist-ratio :
      IsOrdered01
      → (p_lat p_lon a_lat a_lon b_lat b_lon : F)
      → (lt (point_to_segment_dist p_lat p_lon a_lat a_lon b_lat b_lon).1 (whole 0) ≡ false)
        × (lt (whole 1) (point_to_segment_dist p_lat p_lon a_lat a_lon b_lat b_lon).1 ≡ false)
  unfolding point_to_segment_dist clamp_ratio
  point_to_segment_dist-ratio o p_lat p_lon a_lat a_lon b_lat b_lon = ground arith
