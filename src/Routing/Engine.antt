-- ===== src/Routing/Engine.antt =====
-- pkg/routing/engine.go: `Route` and `RouteBetweenSnaps`, from the snapped candidates to the
-- result. The snapper is an argument, the function `SnapCandidates`. A query takes the state that
-- `qsPool` hands out and returns the one that is put back. `trace_fuel` bounds the two loops of
-- `reconstructOverlayPath`, and `fuel` the search.
pub mod Trace
pub mod Query
pub mod Errors
use mathlib.Core.List.{reverse}
use map_router.Base.{
  ℕ, zero, suc, ◌+◌, ◌-◌, ◌%◌, Bool, true, false, not, ◌&&◌, ◌||◌, List, [], ◌∷◌, ◌++◌, Option,
  none, some, ltb, leb, ◌==◌, if◌then◌else◌, length,
}
use map_router.Run.{Run, ok, panic, out_of_fuel, ◌>>=◌}
use map_router.Array.{at}
use map_router.Word.{u32_mod}
use map_router.Float.{Float}
use map_router.Geo.{haversine}
use map_router.Graph.{Graph, ChGraph}
use map_router.Api.Handlers.{LatLng, Segment, RouteResult, RouteError, Routed, found, failed}
use map_router.Routing.MinHeap.{max_u32}
use map_router.Routing.QueryState.{QueryState, no_node, reset}
use map_router.Routing.Search.{Search, run_ch_dijkstra}
use map_router.Routing.Unpack.{find_edge, unpack_overlay_path}
use map_router.Routing.Snap.{SnapResult}
use map_router.Routing.Seed.{
  seed_all_forward, seed_all_backward, seed_forward_penalty, seed_backward_penalty,
}

-- `ErrPointTooFar`, `ErrNoRoute`
abbrev pub err_point_too_far : RouteError
err_point_too_far = record {
  is_point_too_far = true;
  is_no_route = false;
  is_canceled = false;
  is_deadline_exceeded = false;
}

abbrev pub err_no_route : RouteError
err_no_route = record {
  is_point_too_far = false;
  is_no_route = true;
  is_canceled = false;
  is_deadline_exceeded = false;
}

-- The two loops of `reconstructOverlayPath`: the nodes from `node` along the predecessors, `node`
-- included for the forward one and left out for the backward one.
pub trace_forward : ℕ → List ℕ → ℕ → List ℕ → Run (List ℕ)
trace_forward zero pred_fwd node path = out_of_fuel
trace_forward (suc fuel) pred_fwd node path = at pred_fwd node >>= λ pred.
    if pred == no_node
    then ok (path ++ node ∷ [])
    else trace_forward fuel pred_fwd pred (path ++ node ∷ [])

pub trace_backward : ℕ → List ℕ → ℕ → List ℕ → Run (List ℕ)
trace_backward zero pred_bwd node path = out_of_fuel
trace_backward (suc fuel) pred_bwd node path = at pred_bwd node >>= λ pred.
    if pred == no_node then ok path else trace_backward fuel pred_bwd pred (path ++ pred ∷ [])

unfoldable pub reconstruct_overlay_path : ℕ → ℕ → List ℕ → List ℕ → Run (List ℕ)
unfolding trace_forward trace_backward
reconstruct_overlay_path fuel meet_node pred_fwd pred_bwd =
    trace_forward fuel pred_fwd meet_node [] >>= λ path.
    trace_backward fuel pred_bwd meet_node (reverse path)

module _ (f : Float) where
  open f use {F, of_ratio, add, sub, mul, div, lt, eq, of_u32, round_u32, abs}

  abbrev pub Point : Type 0
  Point = LatLng f

  -- The snap search schedule: at most `snap_k` candidates within each radius in turn.
  abbrev pub snap_k : ℕ
  snap_k = 8

  abbrev pub snap_radii_meters : List F
  snap_radii_meters = of_ratio 500 1 ∷ of_ratio 1500 1 ∷ of_ratio 5000 1 ∷ []

  pub record Engine : Type 0 where
    pub chg : ChGraph F
    pub orig_graph : Graph F
    pub snap_candidates : F → F → ℕ → F → Run (List (SnapResult f))

  pub snap_loop : Engine → F → F → List F → Run (List (SnapResult f))
  snap_loop e lat lng [] = ok []
  snap_loop e lat lng (r ∷ radii) =
      let rest = snap_loop e lat lng radii in
      e.snap_candidates lat lng snap_k r >>= λ cands.
      if ltb 0 (length cands) then ok cands else rest

  unfoldable pub snap_with_fallback : Engine → F → F → Run (List (SnapResult f))
  unfolding snap_loop
  snap_with_fallback e lat lng = snap_loop e lat lng snap_radii_meters

  -- The loop over the shape points from `k` on.
  pub shape_points : ℕ → Graph F → ℕ → List Point → Run (List Point)
  shape_points zero g k geom = ok geom
  shape_points (suc count) g k geom = do
    lat ← at g.geo_shape_lat k
    lng ← at g.geo_shape_lon k
    shape_points count g (k + 1) (geom ++ record { lat = lat; lng = lng } ∷ [])

  -- The shape of the edge from `u` to `v`, if there is one.
  pub edge_shape : Graph F → ℕ → ℕ → List Point → Run (List Point)
  edge_shape g u v geom =
      let shaped : Run (List Point) = do
        edge_idx ← find_edge g.first_out g.head u v
        let points : Run (List Point) = do
          geo_start ← at g.geo_first_out edge_idx
          geo_end ← at g.geo_first_out (edge_idx + 1)
          shape_points (geo_end - geo_start) g geo_start geom
        if not (edge_idx == no_node) && ltb edge_idx ((length g.geo_first_out - 1) % u32_mod)
            then points
            else ok geom
      in if length g.geo_first_out == 0 then ok geom else shaped

  pub node_point : Graph F → ℕ → Run Point
  node_point g v = do
    lat ← at g.node_lat v
    lng ← at g.node_lon v
    ok (record { lat = lat; lng = lng })

  -- The loop over consecutive nodes, behind node `u`.
  pub geometry_loop : Graph F → ℕ → List ℕ → List Point → Run (List Point)
  geometry_loop g u [] geom = ok geom
  geometry_loop g u (v ∷ nodes) geom = do
    shaped ← edge_shape g u v geom
    p ← node_point g v
    geometry_loop g v nodes (shaped ++ p ∷ [])

  unfoldable pub build_geometry : Graph F → List ℕ → Run (List Point)
  unfolding geometry_loop node_point edge_shape shape_points
  build_geometry g [] = ok []
  build_geometry g (u ∷ nodes) = node_point g u >>= λ p. geometry_loop g u nodes (p ∷ [])

  unfoldable pub snap_lat_lng : Graph F → SnapResult f → Run Point
  snap_lat_lng g s = do
    lat_u ← at g.node_lat s.node_u
    lat_v ← at g.node_lat s.node_v
    lon_u ← at g.node_lon s.node_u
    lon_v ← at g.node_lon s.node_v
    ok (record {
      lat = add lat_u (mul s.ratio (sub lat_v lat_u));
      lng = add lon_u (mul s.ratio (sub lon_v lon_u));
    })

  -- The loop over the candidates: the nearest one so far that has `node` as an end.
  abbrev is_nearer : SnapResult f → Option (SnapResult f) → Bool
  is_nearer c none = true
  is_nearer c (some b) = lt c.dist b.dist

  pub nearest_at : ℕ → List (SnapResult f) → Option (SnapResult f) → Option (SnapResult f)
  nearest_at node [] best = best
  nearest_at node (c ∷ cands) best =
      nearest_at node cands
        (if (c.node_u == node || c.node_v == node) && is_nearer c best then some c else best)

  unfoldable pub snap_point_for_candidates : Graph F → List (SnapResult f) → ℕ → Run (Option Point)
  unfolding nearest_at
  snap_point_for_candidates g cands node = elim (nearest_at node cands none) [
    | none ↦ ok none
    | some best ↦ snap_lat_lng g best >>= λ p. ok (some p)
  ]

  -- `polylineLengthMeters`, over the points behind `p`.
  pub polyline_loop : F → Point → List Point → F
  polyline_loop total p [] = total
  polyline_loop total p (q ∷ geom) =
      polyline_loop (add total (haversine f p.lat p.lng q.lat q.lng)) q geom

  unfoldable pub polyline_length_meters : List Point → F
  unfolding polyline_loop
  polyline_length_meters [] = of_ratio 0 1
  polyline_length_meters (p ∷ geom) = polyline_loop (of_ratio 0 1) p geom

  unfoldable pub route_result : List Point → ℕ → RouteResult f
  route_result geometry mu = record {
    total_distance_meters = polyline_length_meters geometry;
    duration_seconds = div (of_u32 mu) (of_ratio 1000 1);
    segments =
        record { distance_meters = polyline_length_meters geometry; geometry = geometry } ∷ [];
  }

  -- `Route` puts the snap points in front of the geometry and behind it.
  abbrev pub prepend : Option Point → List Point → List Point
  prepend none geom = geom
  prepend (some p) geom = p ∷ geom

  abbrev pub append : List Point → Option Point → List Point
  append geom none = geom
  append geom (some p) = geom ++ p ∷ []

  pub anchor_candidates :
      Graph F → List (SnapResult f) → List (SnapResult f) → List ℕ → List Point → Run (List Point)
  anchor_candidates g starts ends [] geometry = ok geometry
  anchor_candidates g starts ends (first ∷ nodes) geometry = do
    p ← snap_point_for_candidates g starts first
    last ← at (first ∷ nodes) (length nodes)
    q ← snap_point_for_candidates g ends last
    ok (append (prepend p geometry) q)

  -- `RouteBetweenSnaps` does so unless they are there already.
  abbrev pub same_point : Point → Point → Bool
  same_point p q = eq p.lat q.lat && eq p.lng q.lng

  abbrev pub starts_at : Point → List Point → Bool
  starts_at p [] = false
  starts_at p (q ∷ geom) = same_point q p

  pub anchor_snaps : Graph F → SnapResult f → SnapResult f → List ℕ → List Point → Run (List Point)
  anchor_snaps g start end nodes geometry = do
    s ← snap_lat_lng g start
    e ← snap_lat_lng g end
    let opened = if starts_at s geometry then geometry else s ∷ geometry
    last ← at opened (length opened - 1)
    ok (if same_point last e then opened else opened ++ e ∷ [])

  -- From the end of the search to the result.
  pub finish_query : ℕ → Engine → (List ℕ → List Point → Run (List Point)) → Search → Run (Routed f)
  finish_query trace_fuel e anchor r =
      let routed : Run (Routed f) = do
        overlay_nodes ← reconstruct_overlay_path trace_fuel r.best.node r.qs.fwd.pred r.qs.bwd.pred
        orig_nodes ← unpack_overlay_path e.chg overlay_nodes
        geometry ← build_geometry e.orig_graph orig_nodes
        anchored ← anchor orig_nodes geometry
        ok (found (route_result anchored r.best.mu))
      in if r.best.node == no_node || r.best.mu == max_u32 then ok (failed err_no_route) else routed

  -- The search from a seeded state, its result, and the state that goes back to the pool.
  pub query :
      ℕ
      → ℕ
      → Engine
      → (ℕ → Bool)
      → (List ℕ → List Point → Run (List Point))
      → QueryState
      → Run (Routed f × QueryState)
  query fuel trace_fuel e cancelled anchor seeded = do
    r ← run_ch_dijkstra fuel e.chg cancelled seeded
    answer ← finish_query trace_fuel e anchor r
    clean ← reset r.qs
    ok (answer, clean)

  -- The two loops of `Route` that seed the state.
  unfoldable pub seed_query :
      Engine → List (SnapResult f) → List (SnapResult f) → QueryState → Run QueryState
  seed_query e starts ends qs =
      seed_all_forward f e.orig_graph starts qs >>= λ a. seed_all_backward f e.orig_graph ends a

  -- The part of `Route` behind the snapping.
  pub route_candidates :
      ℕ
      → ℕ
      → Engine
      → (ℕ → Bool)
      → List (SnapResult f)
      → List (SnapResult f)
      → QueryState
      → Run (Routed f × QueryState)
  route_candidates fuel trace_fuel e cancelled starts ends qs =
      seed_query e starts ends qs >>= λ seeded.
      query fuel trace_fuel e cancelled (anchor_candidates e.orig_graph starts ends) seeded

  unfoldable pub route :
      ℕ → ℕ → Engine → (ℕ → Bool) → Point → Point → QueryState → Run (Routed f × QueryState)
  unfolding route_candidates query finish_query anchor_candidates
  route fuel trace_fuel e cancelled start end qs = do
    starts ← snap_with_fallback e start.lat start.lng
    let onward : Run (Routed f × QueryState) = do
      ends ← snap_with_fallback e end.lat end.lng
      if length ends == 0
          then ok (failed err_point_too_far, qs)
          else route_candidates fuel trace_fuel e cancelled starts ends qs
    if length starts == 0 then ok (failed err_point_too_far, qs) else onward

  -- `sameSegment`: the end's ratio along the start's edge.
  unfoldable pub same_segment : SnapResult f → SnapResult f → Option F
  same_segment start end =
      if start.edge_idx == end.edge_idx
      then some end.ratio
      else if start.node_u == end.node_v && start.node_v == end.node_u
      then some (sub (of_ratio 1 1) end.ratio)
      else none

  pub route_along_edge : Engine → SnapResult f → SnapResult f → F → Run (Option (RouteResult f))
  route_along_edge e start end end_ratio =
      let g = e.orig_graph in
      let along : Run (Option (RouteResult f)) = do
        s ← snap_lat_lng g start
        t ← snap_lat_lng g end
        weight ← at g.weight start.edge_idx
        ok (
            some (
              route_result (s ∷ t ∷ [])
                (round_u32 (mul (of_u32 weight) (abs (sub end_ratio start.ratio))))))
      in let against : Run (Option (RouteResult f)) = do
        back ← find_edge g.first_out g.head start.node_v start.node_u
        if back == no_node then ok none else along
        in if lt end_ratio start.ratio then against else along

  -- The part of `RouteBetweenSnaps` that searches.
  pub route_search :
      ℕ
      → ℕ
      → Engine
      → (ℕ → Bool)
      → SnapResult f
      → SnapResult f
      → QueryState
      → Run (Routed f × QueryState)
  route_search fuel trace_fuel e cancelled start end qs = do
    a ← seed_forward_penalty f e.orig_graph start 0 qs
    b ← seed_backward_penalty f e.orig_graph end 0 a
    query fuel trace_fuel e cancelled (anchor_snaps e.orig_graph start end) b

  abbrev one_segment :
      Engine → SnapResult f → SnapResult f → Option F → Run (Option (RouteResult f))
  one_segment e start end none = ok none
  one_segment e start end (some end_ratio) = route_along_edge e start end end_ratio

  unfoldable pub route_between_snaps :
      ℕ
      → ℕ
      → Engine
      → (ℕ → Bool)
      → SnapResult f
      → SnapResult f
      → QueryState
      → Run (Routed f × QueryState)
  unfolding route_search query finish_query anchor_snaps route_along_edge
  route_between_snaps fuel trace_fuel e cancelled start end qs =
      let g = e.orig_graph in
      let onward : Run (Routed f × QueryState) = do
        short ← one_segment e start end (same_segment start end)
        elim short [
          | some result ↦ ok (found result, qs)
          | none ↦ route_search fuel trace_fuel e cancelled start end qs
        ]
      in if leb (length g.weight) start.edge_idx || leb (length g.weight) end.edge_idx
        then ok (failed err_point_too_far, qs)
        else onward
