-- ===== src/Tests/Paths.antt =====
-- A shortcut from node 0 over node 1 to node 2, unpacked.
use map_router.Base.{ℕ, ◌+◌, ◌≡◌, refl, false, arith, ℤ, List, [], ◌∷◌, pos, negsuc}
use map_router.Run.{ok, Ensures}
use map_router.Array.{at, Zeroed}
use map_router.Graph.{ChGraph}
use map_router.Routing.Unpack.{unpack_overlay_path, find_middle, scan_edges, Best}
use map_router.Routing.Unpack.Cheapest.{IsBest, scan_edges-IsBest}
use map_router.Routing.Unpack.Expand.{expand_path, unpack_overlay_path-expand_path}

-- The edge 0→1 is a backward edge of node 1, as node 1 has the least rank.
abbrev shortcut : ChGraph ℕ
shortcut = record {
  num_nodes = 3;
  node_lat = [];
  node_lon = [];
  rank = 1 ∷ 0 ∷ 2 ∷ [];
  fwd_first_out = 0 ∷ 1 ∷ 2 ∷ 2 ∷ [];
  fwd_head = 2 ∷ 2 ∷ [];
  fwd_weight = 9 ∷ 5 ∷ [];
  fwd_middle = pos 1 ∷ negsuc 0 ∷ [];
  bwd_first_out = 0 ∷ 0 ∷ 1 ∷ 1 ∷ [];
  bwd_head = 0 ∷ [];
  bwd_weight = 4 ∷ [];
  bwd_middle = negsuc 0 ∷ [];
  orig_first_out = [];
  orig_head = [];
  orig_weight = [];
  geo_first_out = [];
  geo_shape_lat = [];
  geo_shape_lon = [];
}

middle_runs : find_middle shortcut 0 2 ≡ ok (pos 1)
unfolding find_middle at
middle_runs = refl

unpack_runs : unpack_overlay_path shortcut (0 ∷ 2 ∷ []) ≡ ok (0 ∷ 1 ∷ 2 ∷ [])
unfolding unpack_overlay_path find_middle at
unpack_runs = refl

unpack_overlay_path-expand_path_example :
    unpack_overlay_path shortcut (0 ∷ 2 ∷ []) ≡ expand_path shortcut (0 ∷ 2 ∷ [])
unpack_overlay_path-expand_path_example = unpack_overlay_path-expand_path shortcut (0 ∷ 2 ∷ [])

instance abbrev Zeroed-ℤ : Zeroed ℤ
Zeroed-ℤ = record { zero_value = pos 0 }

abbrev heads : List ℕ
heads = 2 ∷ 2 ∷ []

abbrev weights : List ℕ
weights = 9 ∷ 5 ∷ []

abbrev middles : List ℤ
middles = pos 1 ∷ negsuc 0 ∷ []

abbrev none_yet : Best
none_yet = record { weight = 4294967295; middle = negsuc 0; found = false }

scan_edges-IsBest_example :
    Ensures
      (IsBest heads weights middles 2 none_yet 0 (0 + 2))
      (scan_edges 2 heads weights middles 2 0 none_yet)
scan_edges-IsBest_example =
    scan_edges-IsBest heads weights middles 2 2 0 none_yet (omega arith) refl refl
