-- ===== src/Tests/Components.antt =====
-- `compute_scc` on a cycle of three nodes with one node behind it.
use map_router.Base.{ℕ, ◌≡◌, refl, [], ◌∷◌}
use map_router.Run.{ok}
use map_router.Array.{at, put}
use map_router.Word.{add32}
use map_router.Graph.{Graph}
use map_router.Graph.Rows.{count_rows}
use map_router.Graph.Components.{compute_scc, largest_component, large_components}

-- The edges are 0 → 1, 1 → 2, 2 → 0 and 2 → 3.
abbrev roads : Graph ℕ
roads = record {
  num_nodes = 4;
  num_edges = 4;
  first_out = 0 ∷ 1 ∷ 2 ∷ 4 ∷ 4 ∷ [];
  head = 1 ∷ 2 ∷ 0 ∷ 3 ∷ [];
  weight = 1 ∷ 1 ∷ 1 ∷ 1 ∷ [];
  edge_restricted = [];
  node_lat = [];
  node_lon = [];
  geo_first_out = [];
  geo_shape_lat = [];
  geo_shape_lon = [];
}

roads_components : compute_scc 20 roads ≡ ok (0 ∷ 0 ∷ 0 ∷ 1 ∷ [], 3 ∷ 1 ∷ [])
unfolding compute_scc count_rows at add32 put
roads_components = refl

roads_largest : largest_component 20 roads ≡ ok (0 ∷ 1 ∷ 2 ∷ [])
unfolding largest_component compute_scc count_rows at add32 put
roads_largest = refl

roads_kept : large_components 20 roads 1 ≡ ok (0 ∷ 1 ∷ 2 ∷ 3 ∷ [])
unfolding large_components compute_scc count_rows at add32 put
roads_kept = refl
