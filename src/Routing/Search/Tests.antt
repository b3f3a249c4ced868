-- ===== src/Routing/Search/Tests.antt =====
-- A road from node 0 up to node 2 and one from node 2 down to node 1: the search runs on it, and
-- the theorems about it apply to it.
use map_router.Base.{
  ℕ, suc, zero, ◌+◌, ◌≤◌, ◌<◌, ◌≡◌, refl, true, List, [], ◌∷◌, false, arith, negsuc, ◌==◌,
  if◌then◌else◌,
}
use map_router.Run.{Run, ok, Ensures, ◌>>=◌}
use map_router.Array.{Zeroed-ℕ, get!, put, at}
use map_router.Heap
use map_router.Graph.{ChGraph}
use map_router.Word.{add32}
use map_router.Routing.MinHeap.{max_u32, peek_dist, push, pop}
use map_router.Routing.QueryState.{
  Half, QueryState, no_node, new_query_state, touch, seed_fwd_min, seed_bwd_min, reset,
}
use map_router.Routing.Search.{Search, fwd_graph, bwd_graph, run_ch_dijkstra}
use map_router.Routing.Search.Relax.{sum, label}
use map_router.Routing.Search.Edges.{IsUpward, IsEdge}
use map_router.Routing.QueryState.Reset.{IsClean, IsUntouched, contains}
use map_router.Routing.MinHeap.Entries.{has}
use map_router.Routing.Search.Walks.{
  Reach, IsShort, IsSeeded, IsShort-of_heights, IsShortest, IsQuery,
}
use map_router.Routing.Search.Correct.{run_ch_dijkstra-IsShortest, run_ch_dijkstra-reset}

abbrev roads : ChGraph ℕ
roads = record {
  num_nodes = 3;
  node_lat = [];
  node_lon = [];
  rank = 0 ∷ 1 ∷ 2 ∷ [];
  fwd_first_out = 0 ∷ 1 ∷ 1 ∷ 1 ∷ [];
  fwd_head = 2 ∷ [];
  fwd_weight = 5 ∷ [];
  fwd_middle = negsuc 0 ∷ [];
  bwd_first_out = 0 ∷ 0 ∷ 1 ∷ 1 ∷ [];
  bwd_head = 2 ∷ [];
  bwd_weight = 7 ∷ [];
  bwd_middle = negsuc 0 ∷ [];
  orig_first_out = 0 ∷ 1 ∷ 1 ∷ 2 ∷ [];
  orig_head = 2 ∷ 1 ∷ [];
  orig_weight = 5 ∷ 7 ∷ [];
  geo_first_out = [];
  geo_shape_lat = [];
  geo_shape_lon = [];
}

abbrev half_at : ℕ → List ℕ → Half
half_at v labels = record {
  dist = labels;
  pred = no_node ∷ no_node ∷ no_node ∷ [];
  pq = record { items = record { node = v; dist = 0 } ∷ [] };
}

-- From node 0 to node 1, both seeded at distance 0.
abbrev seeded : QueryState
seeded = record {
  fwd = half_at 0 (0 ∷ max_u32 ∷ max_u32 ∷ []);
  bwd = half_at 1 (max_u32 ∷ 0 ∷ max_u32 ∷ []);
  touched = 0 ∷ 1 ∷ [];
}

seeds_run : (seed_fwd_min (new_query_state 3) 0 0 >>= λ a. seed_bwd_min a 1 0) ≡ ok seeded
unfolding seed_fwd_min seed_bwd_min new_query_state push Heap.push put at
seeds_run = refl

abbrev found : Run Search → Run (ℕ × ℕ)
found r = r >>= λ s. ok (s.best.mu, s.best.node)

search_runs : found (run_ch_dijkstra 99999999999 roads (λ _. false) seeded) ≡ ok (12, 2)
unfolding run_ch_dijkstra push pop peek_dist Heap.push Heap.pop put at add32 touch
search_runs = refl

-- A statement about the three nodes, node by node.
each_node : (P : ℕ → Type 0) → P 0 → P 1 → P 2 → (v : ℕ) → v < 3 → P v
each_node P a b c zero h = a
each_node P a b c (suc zero) h = b
each_node P a b c (suc (suc zero)) h = c
each_node P a b c (suc (suc (suc v))) h = absurd (omega arith)

abbrev heights : ℕ → ℕ
heights v = if v == 2 then 7 else 0

fwd-IsShort : IsShort (fwd_graph roads) seeded.fwd 3
unfolding get!
fwd-IsShort =
    IsShort-of_heights (fwd_graph roads) seeded.fwd 3 heights
      (each_node (λ v. label seeded.fwd v < max_u32 → label seeded.fwd v ≤ heights v)
        (λ f. omega arith) (λ f. omega arith) (λ f. omega arith))
      (λ u e h i.
        each_node
          (λ v.
            IsEdge (fwd_graph roads) v e
            → heights v + get! (fwd_graph roads).weight e ≤ heights (get! (fwd_graph roads).head e))
          (λ k. let first : e ≡ 0 = omega arith in rw first (omega arith))
          (λ k. absurd (omega arith)) (λ k. absurd (omega arith)) u h i)
      (λ v. ground arith)

bwd-IsShort : IsShort (bwd_graph roads) seeded.bwd 3
unfolding get!
bwd-IsShort =
    IsShort-of_heights (bwd_graph roads) seeded.bwd 3 heights
      (each_node (λ v. label seeded.bwd v < max_u32 → label seeded.bwd v ≤ heights v)
        (λ f. omega arith) (λ f. omega arith) (λ f. omega arith))
      (λ u e h i.
        each_node
          (λ v.
            IsEdge (bwd_graph roads) v e
            → heights v + get! (bwd_graph roads).weight e ≤ heights (get! (bwd_graph roads).head e))
          (λ k. absurd (omega arith))
          (λ k. let first : e ≡ 0 = omega arith in rw first (omega arith))
          (λ k. absurd (omega arith)) u h i)
      (λ v. ground arith)

fwd_IsUpward : IsUpward 3 (fwd_graph roads)
unfolding get!
fwd_IsUpward = record {
  firsts = refl;
  weights = refl;
  ordered = λ u h.
      each_node (λ u. get! (fwd_graph roads).first_out u ≤ get! (fwd_graph roads).first_out (u + 1))
        (omega arith) (omega arith) (omega arith) u h;
  ranges = λ u h.
      each_node (λ u. get! (fwd_graph roads).first_out (u + 1) ≤ 1) (omega arith) (omega arith)
        (omega arith) u h;
  heads = λ e h. let first : e ≡ 0 = omega arith in rw first (omega arith);
}

bwd_IsUpward : IsUpward 3 (bwd_graph roads)
unfolding get!
bwd_IsUpward = record {
  firsts = refl;
  weights = refl;
  ordered = λ u h.
      each_node (λ u. get! (bwd_graph roads).first_out u ≤ get! (bwd_graph roads).first_out (u + 1))
        (omega arith) (omega arith) (omega arith) u h;
  ranges = λ u h.
      each_node (λ u. get! (bwd_graph roads).first_out (u + 1) ≤ 1) (omega arith) (omega arith)
        (omega arith) u h;
  heads = λ e h. let first : e ≡ 0 = omega arith in rw first (omega arith);
}

seeded-IsClean : IsClean 3 seeded
unfolding get!
seeded-IsClean = record {
  sized_fwd = record { dists = refl; preds = refl };
  sized_bwd = record { dists = refl; preds = refl };
  tracked = record {
    inside = λ v m. ground arith;
    fresh_own =
        each_node (λ v. contains v seeded.touched ≡ false → IsUntouched seeded.fwd v) (λ m. cc)
          (λ m. cc) (λ m. record { dist = refl; pred = refl });
    fresh_other =
        each_node (λ v. contains v seeded.touched ≡ false → IsUntouched seeded.bwd v) (λ m. cc)
          (λ m. cc) (λ m. record { dist = refl; pred = refl });
  };
}

fwd-IsSeeded : IsSeeded 3 seeded.fwd
unfolding get!
fwd-IsSeeded = record {
  heap = λ c p q. absurd (omega arith);
  queued =
      each_node
        (λ v. label seeded.fwd v < max_u32 → has v (label seeded.fwd v) seeded.fwd.pq.items ≡ true)
        (λ f. refl) (λ f. absurd (omega arith)) (λ f. absurd (omega arith));
  entries = λ v d m.
      let node : v ≡ 0 = ground arith in
      let dist : d ≡ 0 = ground arith in rw (node, dist) (omega arith, omega arith, omega arith);
}

bwd-IsSeeded : IsSeeded 3 seeded.bwd
unfolding get!
bwd-IsSeeded = record {
  heap = λ c p q. absurd (omega arith);
  queued =
      each_node
        (λ v. label seeded.bwd v < max_u32 → has v (label seeded.bwd v) seeded.bwd.pq.items ≡ true)
        (λ f. absurd (omega arith)) (λ f. refl) (λ f. absurd (omega arith));
  entries = λ v d m.
      let node : v ≡ 1 = ground arith in
      let dist : d ≡ 0 = ground arith in rw (node, dist) (omega arith, omega arith, omega arith);
}

seeded-IsQuery : IsQuery roads 3 seeded
seeded-IsQuery = record {
  fwd_up = fwd_IsUpward;
  bwd_up = bwd_IsUpward;
  fwd_short = fwd-IsShort;
  bwd_short = bwd-IsShort;
  clean = seeded-IsClean;
  fwd_seeded = fwd-IsSeeded;
  bwd_seeded = bwd-IsSeeded;
}

run_ch_dijkstra-IsShortest_example :
    Ensures
      (IsShortest (Reach (fwd_graph roads) seeded.fwd 3) (Reach (bwd_graph roads) seeded.bwd 3))
      (run_ch_dijkstra 99999999999 roads (λ _. false) seeded)
unfolding sum
run_ch_dijkstra-IsShortest_example =
    run_ch_dijkstra-IsShortest roads 3 seeded 99999999999 seeded-IsQuery (omega arith)

run_ch_dijkstra-reset_example :
    Ensures
      (λ r. reset r.qs ≡ ok (new_query_state 3))
      (run_ch_dijkstra 99999999999 roads (λ i. i == 256) seeded)
unfolding sum
run_ch_dijkstra-reset_example =
    run_ch_dijkstra-reset roads 3 seeded 99999999999 (λ i. i == 256) seeded-IsQuery (omega arith)
