-- ===== src/Tests/Queries.antt =====
-- A query between the two ends of a road that leads both ways.
use map_router.Base.{
  ℕ, zero, suc, ◌+◌, ◌≤◌, ◌<◌, ◌≡◌, ◌⊎◌, ◌↔◌, ◌++◌, ◌≢◌, inl, inr, refl, false, List, [], ◌∷◌,
  arith, negsuc,
}
use mathlib.Core.List.{reverse}
use map_router.Api.Handlers.{Routed}
use map_router.Run.{ok, Ensures}
use map_router.Array.{Zeroed-ℕ, get!, at}
use map_router.Word.{add32}
use map_router.Geo.{haversine}
use map_router.Graph.{ChGraph}
use map_router.Graph.Csr.Valid.{IsCsr}
use map_router.Routing.QueryState.{QueryState, new_query_state}
use map_router.Routing.Search.{Upward, start_search, run_ch_dijkstra}
use map_router.Routing.Search.Edges.{IsUpward, IsEdge, half_range}
use map_router.Routing.Search.Walks.{IsShortest}
use map_router.Routing.Search.Loop.{total_work}
use map_router.Routing.Snap.{SnapResult}
use map_router.Routing.Seed.{access_penalty}
use map_router.Routing.Seed.Candidates.{IsCandidate, ForwardSeeds, BackwardSeeds}
use map_router.Routing.Engine.{
  Engine, seed_query, route, reconstruct_overlay_path, snap_radii_meters,
}
use map_router.Routing.Engine.Query.{StartWalk, EndWalk, Walk-short, query-IsShortest}
use map_router.Routing.Engine.Errors.{IsTooFar, IsRemote, route-IsTooFar}
use map_router.Routing.Engine.Trace.{Chain, IsDescending, reconstruct_overlay_path-Chain}
use map_router.Tests.Floats.{nat_float}
use map_router.Tests.Routes.{two_way}

-- The contracted graph: node 0 has the lower rank, so both of its edges lead up to node 1.
abbrev contracted : ChGraph ℕ
contracted = record {
  num_nodes = 2;
  node_lat = 1 ∷ 2 ∷ [];
  node_lon = 1 ∷ 1 ∷ [];
  rank = 0 ∷ 1 ∷ [];
  fwd_first_out = 0 ∷ 1 ∷ 1 ∷ [];
  fwd_head = 1 ∷ [];
  fwd_weight = 4 ∷ [];
  fwd_middle = negsuc 0 ∷ [];
  bwd_first_out = 0 ∷ 1 ∷ 1 ∷ [];
  bwd_head = 1 ∷ [];
  bwd_weight = 4 ∷ [];
  bwd_middle = negsuc 0 ∷ [];
  orig_first_out = 0 ∷ 1 ∷ 2 ∷ [];
  orig_head = 1 ∷ 0 ∷ [];
  orig_weight = 4 ∷ 4 ∷ [];
  geo_first_out = 0 ∷ 0 ∷ 0 ∷ [];
  geo_shape_lat = [];
  geo_shape_lon = [];
}

abbrev at_first : SnapResult nat_float
at_first = record { edge_idx = 0; node_u = 0; node_v = 1; ratio = 0; dist = 0 }

abbrev at_second : SnapResult nat_float
at_second = record { edge_idx = 1; node_u = 1; node_v = 0; ratio = 0; dist = 0 }

abbrev engine : Engine nat_float
engine = record {
  chg = contracted;
  orig_graph = two_way;
  snap_candidates = λ lat lng k r. ok (at_first ∷ []);
}

two_way-IsCsr : IsCsr two_way.first_out two_way.head 2
unfolding get!
two_way-IsCsr = record {
  firsts = refl;
  last = refl;
  ordered = λ i p. rises i p;
  heads = λ e p. inside e p;
}
  where
    rises : (i : ℕ) → i < 2 → get! two_way.first_out i ≤ get! two_way.first_out (i + 1)
    rises zero p = omega arith
    rises (suc zero) p = omega arith
    rises (suc (suc i)) p = absurd (omega arith)

    inside : (e : ℕ) → e < 2 → get! two_way.head e < 2
    inside zero p = omega arith
    inside (suc zero) p = omega arith
    inside (suc (suc e)) p = absurd (omega arith)

abbrev up : Upward
up = record { first_out = 0 ∷ 1 ∷ 1 ∷ []; head = 1 ∷ []; weight = 4 ∷ [] }

up-IsUpward : IsUpward 2 up
unfolding get!
up-IsUpward = record {
  firsts = refl;
  weights = refl;
  ordered = λ u p. rises u p;
  ranges = λ u p. within u p;
  heads = λ e p. inside e p;
}
  where
    rises : (u : ℕ) → u < 2 → get! up.first_out u ≤ get! up.first_out (u + 1)
    rises zero p = omega arith
    rises (suc zero) p = omega arith
    rises (suc (suc u)) p = absurd (omega arith)

    within : (u : ℕ) → u < 2 → get! up.first_out (u + 1) ≤ 1
    within zero p = omega arith
    within (suc zero) p = omega arith
    within (suc (suc u)) p = absurd (omega arith)

    inside : (e : ℕ) → e < 1 → get! up.head e < 2
    inside zero p = omega arith
    inside (suc e) p = absurd (omega arith)

first-IsCandidate : IsCandidate nat_float 2 two_way at_first
unfolding get! access_penalty at haversine add32
first-IsCandidate = record {
  edge = omega arith;
  node_u = omega arith;
  node_v = omega arith;
  penalty = 0;
  priced = refl;
  finite_v = omega arith;
  finite_u = omega arith;
}

second-IsCandidate : IsCandidate nat_float 2 two_way at_second
unfolding get! access_penalty at haversine add32
second-IsCandidate = record {
  edge = omega arith;
  node_u = omega arith;
  node_v = omega arith;
  penalty = 0;
  priced = refl;
  finite_v = omega arith;
  finite_u = omega arith;
}

abbrev starts : List (SnapResult nat_float)
starts = at_first ∷ []

abbrev ends : List (SnapResult nat_float)
ends = at_second ∷ []

-- Heights for the walks: from `low` at node 0, and 4 more at node 1.
height : ℕ → ℕ → ℕ
height low zero = low
height low (suc v) = low + 4

height-up :
    (low u e : ℕ)
    → u < 2
    → IsEdge up u e
    → height low u + get! up.weight e ≤ height low (get! up.head e)
unfolding height get!
height-up low zero zero p edge = omega arith
height-up low zero (suc e) p (from, to) = absurd (omega arith)
height-up low (suc zero) e p (from, to) = absurd (omega arith)
height-up low (suc (suc u)) e p edge = absurd (omega arith)

height-small : (low v : ℕ) → low < 100 → height low v < half_range
unfolding height
height-small low zero p = omega arith
height-small low (suc v) p = omega arith

starts-short :
    (v d : ℕ)
    → StartWalk nat_float 2 engine two_way-IsCsr
        (omega arith)
        up-IsUpward
        up-IsUpward
        starts
        (first-IsCandidate, tt)
        ends
        (second-IsCandidate, tt)
        v
        d
    → d < half_range
unfolding height first-IsCandidate get! add32
starts-short =
    Walk-short up (ForwardSeeds nat_float 2 two_way starts (first-IsCandidate, tt)) 2 (height 0)
      base (height-up 0) (λ v. height-small 0 v (omega arith))
  where
    base :
        (v d : ℕ)
        → ForwardSeeds nat_float 2 two_way starts (first-IsCandidate, tt) v d
        → d ≤ height 0 v
    base zero d (inl (inl (node, cost))) = absurd (omega arith)
    base zero d (inl (inr ((node, cost), edge))) = omega arith
    base (suc v) d (inl (inl (node, cost))) = omega arith
    base (suc v) d (inl (inr ((node, cost), edge))) = absurd (omega arith)
    base v d (inr none) = absurd none

ends-short :
    (v d : ℕ)
    → EndWalk nat_float 2 engine two_way-IsCsr
        (omega arith)
        up-IsUpward
        up-IsUpward
        starts
        (first-IsCandidate, tt)
        ends
        (second-IsCandidate, tt)
        v
        d
    → d < half_range
unfolding height second-IsCandidate get! add32
ends-short =
    Walk-short up (BackwardSeeds nat_float 2 two_way ends (second-IsCandidate, tt)) 2 (height 4)
      base (height-up 4) (λ v. height-small 4 v (omega arith))
  where
    base :
        (v d : ℕ)
        → BackwardSeeds nat_float 2 two_way ends (second-IsCandidate, tt) v d
        → d ≤ height 4 v
    base zero d (inl (inl (node, cost))) = absurd (omega arith)
    base zero d (inl (inr ((node, cost), edge))) = omega arith
    base (suc v) d (inl (inl (node, cost))) = omega arith
    base (suc v) d (inl (inr ((node, cost), edge))) = absurd (omega arith)
    base v d (inr none) = absurd none

query-IsShortest_example :
    (b : QueryState) × (seed_query nat_float engine starts ends (new_query_state 2) ≡ ok b)
    × ((fuel : ℕ)
        → total_work (start_search b) < fuel
        → Ensures
            (IsShortest
              (StartWalk nat_float 2 engine two_way-IsCsr
                (omega arith)
                up-IsUpward
                up-IsUpward
                starts
                (first-IsCandidate, tt)
                ends
                (second-IsCandidate, tt))
              (EndWalk nat_float 2 engine two_way-IsCsr
                (omega arith)
                up-IsUpward
                up-IsUpward
                starts
                (first-IsCandidate, tt)
                ends
                (second-IsCandidate, tt)))
            (run_ch_dijkstra fuel contracted (λ _. false) b))
query-IsShortest_example =
    query-IsShortest nat_float 2 engine two_way-IsCsr (omega arith) up-IsUpward up-IsUpward starts
      (first-IsCandidate, tt) ends (second-IsCandidate, tt) starts-short ends-short

route-IsTooFar_example :
    ((r : Routed nat_float × QueryState) × (route nat_float 100 3 engine
          (λ _. false)
          (record { lat = 1; lng = 1 })
          (record { lat = 2; lng = 1 })
          (new_query_state 2)
        ≡ ok r)
      × IsTooFar nat_float r)
    ↔ (IsRemote nat_float engine
          (λ lat lng k r. starts)
          (λ lat lng k r. refl)
          (record { lat = 1; lng = 1 })
          (snap_radii_meters nat_float)
        ⊎ IsRemote nat_float engine
            (λ lat lng k r. starts)
            (λ lat lng k r. refl)
            (record { lat = 2; lng = 1 })
            (snap_radii_meters nat_float))
route-IsTooFar_example =
    route-IsTooFar nat_float engine (λ lat lng k r. starts) (λ lat lng k r. refl) 100 3 (λ _. false)
      (record { lat = 1; lng = 1 }) (record { lat = 2; lng = 1 }) (new_query_state 2)

-- Node 1 was reached from node 0 in the forward direction.
abbrev preds : List ℕ
preds = 4294967295 ∷ 0 ∷ []

preds-IsDescending : IsDescending 2 preds (height 0)
unfolding height get!
preds-IsDescending = record {
  size = refl;
  inside = λ v p some. inside v p some;
  down = λ v p some. down v p some;
}
  where
    inside : (v : ℕ) → v < 2 → get! preds v ≢ 4294967295 → get! preds v < 2
    inside zero p some = absurd (some refl)
    inside (suc zero) p some = omega arith
    inside (suc (suc v)) p some = absurd (omega arith)

    down : (v : ℕ) → v < 2 → get! preds v ≢ 4294967295 → height 0 (get! preds v) < height 0 v
    down zero p some = absurd (some refl)
    down (suc zero) p some = omega arith
    down (suc (suc v)) p some = absurd (omega arith)

reconstruct_overlay_path-Chain_example :
    Ensures
      (λ path.
        (front : List ℕ) × (behind : List ℕ) × Chain preds 1 front
        × Chain preds 1 (1 ∷ behind)
        × (path ≡ reverse front ++ behind))
      (reconstruct_overlay_path 10 1 preds preds)
unfolding height
reconstruct_overlay_path-Chain_example =
    reconstruct_overlay_path-Chain 2 preds preds (height 0) (height 0) preds-IsDescending
      preds-IsDescending 10 1 (omega arith) (omega arith) (omega arith)
