-- ===== src/Routing/Seed.antt =====
-- pkg/routing/engine.go: the seeds that a query's candidates put into the search state.
pub mod Step
pub mod Seeded
pub mod Candidates
use map_router.Base.{ℕ, ◌+◌, Bool, List, [], ◌∷◌, ◌==◌, if◌then◌else◌}
use map_router.Run.{Run, ok, ◌>>=◌}
use map_router.Array.{at}
use map_router.Word.{add32}
use map_router.Float.{Float}
use map_router.Geo.{haversine}
use map_router.Graph.{Graph}
use map_router.Routing.QueryState.{QueryState, no_node, seed_fwd_min, seed_bwd_min}
use map_router.Routing.Snap.{SnapResult}
use map_router.Routing.Unpack.{find_edge}

module _ (f : Float) where
  open f use {F, of_ratio, sub, mul, div, le, of_u32, round_u32}

  abbrev access_penalty_mult : F
  access_penalty_mult = of_ratio 4 1

  unfoldable pub access_penalty : Graph F → SnapResult f → Run ℕ
  access_penalty g snap = do
    lat_u ← at g.node_lat snap.node_u
    lon_u ← at g.node_lon snap.node_u
    lat_v ← at g.node_lat snap.node_v
    lon_v ← at g.node_lon snap.node_v
    let len_m = haversine f lat_u lon_u lat_v lon_v
    let priced : Run ℕ = do
      weight ← at g.weight snap.edge_idx
      ok (round_u32 (mul (mul access_penalty_mult snap.dist) (div (of_u32 weight) len_m)))
    if le len_m (of_ratio 0 1) then ok 0 else priced

  -- `uint32(math.Round(float64(weight)*(1-snap.Ratio)))`, and the same for `snap.Ratio`.
  abbrev pub cost_to_v : ℕ → SnapResult f → ℕ
  cost_to_v weight snap = round_u32 (mul (of_u32 weight) (sub (of_ratio 1 1) snap.ratio))

  abbrev pub cost_to_u : ℕ → SnapResult f → ℕ
  cost_to_u weight snap = round_u32 (mul (of_u32 weight) snap.ratio)

  unfoldable pub seed_forward_penalty : Graph F → SnapResult f → ℕ → QueryState → Run QueryState
  seed_forward_penalty g snap pen qs = do
    weight ← at g.weight snap.edge_idx
    ahead ← seed_fwd_min qs snap.node_v (add32 (cost_to_v weight snap) pen)
    back ← find_edge g.first_out g.head snap.node_v snap.node_u
    if back == no_node
        then ok ahead
        else seed_fwd_min ahead snap.node_u (add32 (cost_to_u weight snap) pen)

  unfoldable pub seed_backward_penalty : Graph F → SnapResult f → ℕ → QueryState → Run QueryState
  seed_backward_penalty g snap pen qs = do
    weight ← at g.weight snap.edge_idx
    ahead ← seed_bwd_min qs snap.node_u (add32 (cost_to_u weight snap) pen)
    back ← find_edge g.first_out g.head snap.node_v snap.node_u
    if back == no_node
        then ok ahead
        else seed_bwd_min ahead snap.node_v (add32 (cost_to_v weight snap) pen)

  pub seed_forward : Graph F → SnapResult f → QueryState → Run QueryState
  seed_forward g snap qs = access_penalty g snap >>= λ pen. seed_forward_penalty g snap pen qs

  pub seed_backward : Graph F → SnapResult f → QueryState → Run QueryState
  seed_backward g snap qs = access_penalty g snap >>= λ pen. seed_backward_penalty g snap pen qs

  -- The loops of `Route` over the candidates.
  unfoldable pub seed_all_forward : Graph F → List (SnapResult f) → QueryState → Run QueryState
  seed_all_forward g [] qs = ok qs
  seed_all_forward g (c ∷ cs) qs = seed_forward g c qs >>= λ seeded. seed_all_forward g cs seeded

  unfoldable pub seed_all_backward : Graph F → List (SnapResult f) → QueryState → Run QueryState
  seed_all_backward g [] qs = ok qs
  seed_all_backward g (c ∷ cs) qs = seed_backward g c qs >>= λ seeded. seed_all_backward g cs seeded
