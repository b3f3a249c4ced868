-- ===== src/Graph/Build.antt =====
-- `Build` of pkg/graph/builder.go: from the parsed edges to the road graph. `sort.Slice` is a
-- parameter, by what it promises; so is the order in which `range nodeSet` visits the map.
pub mod Nodes
pub mod Named
pub mod Fill
pub mod Compact
pub mod Coordinates
pub mod Correct
use map_router.Base.{
  ℕ, zero, suc, ◌+◌, ◌%◌, Bool, true, false, not, List, [], ◌∷◌, ◌++◌, Option, none, some, map, ltb,
  ◌==◌, if◌then◌else◌, length, replicate,
}
use map_router.Run.{Run, ok, ◌>>=◌}
use map_router.Array.{put}
use map_router.Word.{u32_mod, add32}
use map_router.Sort.{SortSlice}
use map_router.Float.{Float}
use map_router.Osm.Parse.{RawEdge, NodeMap, ParseResult, locate}
use map_router.Graph.{Graph}
use map_router.Graph.Rows.{count_rows}

-- The map `nodeSet`, an entry per key with the newest first, and the slice `nodeIDs`.
pub record Numbering : Type 0 where
  pub node_set : List (ℕ × ℕ)
  pub node_ids : List ℕ

unfoldable pub find_node : ℕ → List (ℕ × ℕ) → Option ℕ
find_node id [] = none
find_node id ((k, idx) ∷ node_set) = if k == id then some idx else find_node id node_set

add_if : Option ℕ → ℕ → Numbering → Numbering
add_if (some idx) id s = s
add_if none id s = record {
  node_set = (id, length s.node_ids % u32_mod) ∷ s.node_set;
  node_ids = s.node_ids ++ id ∷ [];
}

-- `addNode`, whose result the code does not use.
unfoldable pub add_node : ℕ → Numbering → Numbering
unfolding find_node add_if
add_node id s = add_if (find_node id s.node_set) id s

-- `nodeSet[id]`, which is 0 for a missing key.
unfoldable pub node_index : ℕ → List (ℕ × ℕ) → ℕ
unfolding find_node
node_index id node_set = elim (find_node id node_set) [ some idx ↦ idx | none ↦ 0 ]

module _ (f : Float) where
  open f use {F, of_ratio}

  -- The loop that numbers the nodes of all edges.
  unfoldable pub number_nodes : List (RawEdge f) → Numbering → Numbering
  unfolding add_node
  number_nodes [] s = s
  number_nodes (e ∷ es) s = number_nodes es (add_node e.to_node_id (add_node e.from_node_id s))

  pub record CompactEdge : Type 0 where
    pub from : ℕ
    pub to : ℕ
    pub weight : ℕ
    pub restricted : Bool
    pub shape_lats : List F
    pub shape_lons : List F

  unfoldable pub compact_edge : List (ℕ × ℕ) → RawEdge f → CompactEdge
  unfolding node_index
  compact_edge node_set e = record {
    from = node_index e.from_node_id node_set;
    to = node_index e.to_node_id node_set;
    weight = e.weight;
    restricted = e.restricted;
    shape_lats = e.shape_lats;
    shape_lons = e.shape_lons;
  }

  -- The order that `sort.Slice` is given.
  unfoldable pub compact_less : CompactEdge → CompactEdge → Bool
  compact_less a b = if not (a.from == b.from) then ltb a.from b.from else ltb a.to b.to

  -- The arrays that the loop over the sorted edges fills.
  pub record EdgeArrays : Type 0 where
    pub head : List ℕ
    pub weight : List ℕ
    pub edge_restricted : List Bool
    pub geo_first_out : List ℕ
    pub geo_shape_lat : List F
    pub geo_shape_lon : List F

  -- The loop over the sorted edges, from index `i` on.
  pub fill_edges : ℕ → List CompactEdge → EdgeArrays → Run EdgeArrays
  fill_edges i [] a = ok a
  fill_edges i (e ∷ es) a = do
    heads ← put a.head i e.to
    weights ← put a.weight i e.weight
    flags ← put a.edge_restricted i e.restricted
    geo ← put a.geo_first_out i (length a.geo_shape_lat % u32_mod)
    fill_edges (i + 1) es (record {
      head = heads;
      weight = weights;
      edge_restricted = flags;
      geo_first_out = geo;
      geo_shape_lat = a.geo_shape_lat ++ e.shape_lats;
      geo_shape_lon = a.geo_shape_lon ++ e.shape_lons;
    })

  -- `result.NodeLat[id]` and `result.NodeLon[id]`, which are 0 for a missing key.
  pub coordinates_of : NodeMap f → ℕ → F × F
  coordinates_of nodes id = elim (locate f id nodes) [
    | some p ↦ p
    | none ↦ (of_ratio 0 1, of_ratio 0 1)
  ]

  -- The loop over the entries of `nodeSet`, in the order in which `range` visits them.
  pub fill_coordinates : NodeMap f → List (ℕ × ℕ) → List F × List F → Run (List F × List F)
  fill_coordinates nodes [] (lats, lons) = ok (lats, lons)
  fill_coordinates nodes ((id, idx) ∷ visits) (lats, lons) = do
    lats2 ← put lats idx ((coordinates_of nodes id).0)
    lons2 ← put lons idx ((coordinates_of nodes id).1)
    fill_coordinates nodes visits (lats2, lons2)

  abbrev pub empty_graph : Graph F
  empty_graph = record {
    num_nodes = 0;
    num_edges = 0;
    first_out = [];
    head = [];
    weight = [];
    edge_restricted = [];
    node_lat = [];
    node_lon = [];
    geo_first_out = [];
    geo_shape_lat = [];
    geo_shape_lon = [];
  }

  module _ (sort_slice : SortSlice compact_less) (visit : List (ℕ × ℕ) → List (ℕ × ℕ)) where
    -- The body of `Build` behind the test of `len(edges)`, from the numbered nodes on.
    pub assemble : ParseResult f → Numbering → Run (Graph F)
    unfolding compact_edge
    assemble result s =
        let num_nodes = length s.node_ids % u32_mod in
        let compact = sort_slice.sort (map (compact_edge s.node_set) result.edges) in
        let num_edges = length compact % u32_mod in
        do
          a ← fill_edges 0 compact (record {
            head = replicate num_edges 0;
            weight = replicate num_edges 0;
            edge_restricted = replicate num_edges false;
            geo_first_out = replicate (add32 num_edges 1) 0;
            geo_shape_lat = [];
            geo_shape_lon = [];
          })
          geo ← put a.geo_first_out num_edges (length a.geo_shape_lat % u32_mod)
          first_out ← count_rows num_nodes (map (λ e. e.from) compact)
          (lats, lons) ←
              fill_coordinates result.nodes (visit s.node_set)
                (replicate num_nodes (of_ratio 0 1), replicate num_nodes (of_ratio 0 1))
          ok (record {
            num_nodes = num_nodes;
            num_edges = num_edges;
            first_out = first_out;
            head = a.head;
            weight = a.weight;
            edge_restricted = a.edge_restricted;
            node_lat = lats;
            node_lon = lons;
            geo_first_out = geo;
            geo_shape_lat = a.geo_shape_lat;
            geo_shape_lon = a.geo_shape_lon;
          })

    unfoldable pub build : ParseResult f → Run (Graph F)
    unfolding assemble number_nodes
    build result =
        if length result.edges == 0
        then ok empty_graph
        else assemble result (number_nodes result.edges (record { node_set = []; node_ids = [] }))
