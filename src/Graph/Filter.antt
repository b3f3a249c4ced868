-- ===== src/Graph/Filter.antt =====
-- `FilterToComponent` of pkg/graph/component.go: the graph over some of the nodes, renumbered. The
-- map `oldToNew` is a list of its entries, the newest first.
use map_router.Base.{
  ℕ, zero, suc, ◌+◌, ◌-◌, ◌%◌, ◌&&◌, List, [], ◌∷◌, ◌++◌, Option, none, some, map, ltb, leb, ◌==◌,
  if◌then◌else◌, length, replicate, take, drop,
}
use map_router.Run.{Run, ok, panic, ◌>>=◌}
use map_router.Array.{at, put}
use map_router.Word.{u32_mod, add32}
use map_router.Float.{Float}
use map_router.Graph.{Graph, edges_from}
use map_router.Graph.Rows.{count_rows}
use map_router.Graph.Build.{find_node, node_index, empty_graph}

-- The loop over the old nodes, from the new index `i` on.
pub renumber : ℕ → List ℕ → List (ℕ × ℕ) → List (ℕ × ℕ)
renumber i [] old_to_new = old_to_new
renumber i (old ∷ nodes) old_to_new = renumber (i + 1) nodes ((old, i % u32_mod) ∷ old_to_new)

module _ (f : Float) where
  open f use {F, of_ratio}

  pub record KeptEdge : Type 0 where
    pub from : ℕ
    pub to : ℕ
    pub weight : ℕ
    pub shape_lats : List F
    pub shape_lons : List F

  -- `a[start:end]` of a slice that has no room behind its end.
  slice : List F → ℕ → ℕ → Run (List F)
  slice row start end =
      if leb start end && leb end (length row)
      then ok (take (end - start) (drop start row))
      else panic

  -- The shape of edge `e`, if the graph has shapes; an empty list stands for `nil`.
  pub edge_shapes : Graph F → ℕ → Run (List F × List F)
  edge_shapes g e =
      let shaped : Run (List F × List F) = do
        geo_start ← at g.geo_first_out e
        geo_end ← at g.geo_first_out (e + 1)
        let copied : Run (List F × List F) = do
          lats ← slice g.geo_shape_lat geo_start geo_end
          lons ← slice g.geo_shape_lon geo_start geo_end
          ok (lats, lons)
        if ltb geo_start geo_end then copied else ok ([], [])
      in if length g.geo_first_out == 0 then ok ([], []) else shaped

  -- The edge behind the lookup of its head.
  keep_edge : Graph F → ℕ → ℕ → Option ℕ → List KeptEdge → Run (List KeptEdge)
  keep_edge g from e none edges = ok edges
  keep_edge g from e (some new_v) edges = do
    (lats, lons) ← edge_shapes g e
    weight ← at g.weight e
    ok (
        edges
        ++ record { from = from; to = new_v; weight = weight; shape_lats = lats; shape_lons = lons }
          ∷ [])

  -- The loop over the `k` edges from `e` on of an old node, and the loop over the old nodes.
  pub keep_row : ℕ → Graph F → List (ℕ × ℕ) → ℕ → ℕ → List KeptEdge → Run (List KeptEdge)
  keep_row zero g old_to_new from e edges = ok edges
  keep_row (suc k) g old_to_new from e edges = do
    old_v ← at g.head e
    more ← keep_edge g from e (find_node old_v old_to_new) edges
    keep_row k g old_to_new from (e + 1) more

  pub keep_rows : Graph F → List (ℕ × ℕ) → List ℕ → List KeptEdge → Run (List KeptEdge)
  keep_rows g old_to_new [] edges = ok edges
  keep_rows g old_to_new (old_u ∷ nodes) edges = do
    (start, stop) ← edges_from g old_u
    more ← keep_row (stop - start) g old_to_new (node_index old_u old_to_new) start edges
    keep_rows g old_to_new nodes more

  -- The arrays that the placing loop fills.
  pub record KeptArrays : Type 0 where
    pub next : List ℕ
    pub head : List ℕ
    pub weight : List ℕ
    pub geo_first_out : List ℕ
    pub geo_shape_lat : List F
    pub geo_shape_lon : List F

  pub place_kept : List KeptEdge → KeptArrays → Run KeptArrays
  place_kept [] a = ok a
  place_kept (e ∷ edges) a = do
    idx ← at a.next e.from
    heads ← put a.head idx e.to
    weights ← put a.weight idx e.weight
    geo ← put a.geo_first_out idx (length a.geo_shape_lat % u32_mod)
    moved ← put a.next e.from (add32 idx 1)
    place_kept edges (record {
      next = moved;
      head = heads;
      weight = weights;
      geo_first_out = geo;
      geo_shape_lat = a.geo_shape_lat ++ e.shape_lats;
      geo_shape_lon = a.geo_shape_lon ++ e.shape_lons;
    })

  -- The loop that copies the coordinates of the old nodes.
  pub copy_coordinates : Graph F → List ℕ → Run (List F × List F)
  copy_coordinates g [] = ok ([], [])
  copy_coordinates g (old ∷ nodes) = do
    lat ← at g.node_lat old
    lon ← at g.node_lon old
    (lats, lons) ← copy_coordinates g nodes
    ok (lat ∷ lats, lon ∷ lons)

  unfoldable pub filter_to_component : Graph F → List ℕ → Run (Graph F)
  unfolding renumber keep_rows keep_row keep_edge edge_shapes slice place_kept copy_coordinates
  filter_to_component g nodes =
      let old_to_new = renumber 0 nodes [] in
      let num_nodes = length nodes % u32_mod in
      let filtered : Run (Graph F) = do
        edges ← keep_rows g old_to_new nodes []
        let num_edges = length edges % u32_mod
        first_out ← count_rows num_nodes (map (λ e. e.from) edges)
        a ← place_kept edges (record {
          next = take num_nodes first_out;
          head = replicate num_edges 0;
          weight = replicate num_edges 0;
          geo_first_out = replicate (add32 num_edges 1) 0;
          geo_shape_lat = [];
          geo_shape_lon = [];
        })
        geo ← put a.geo_first_out num_edges (length a.geo_shape_lat % u32_mod)
        (lats, lons) ← copy_coordinates g nodes
        ok (record {
          num_nodes = num_nodes;
          num_edges = num_edges;
          first_out = first_out;
          head = a.head;
          weight = a.weight;
          edge_restricted = [];
          node_lat = lats;
          node_lon = lons;
          geo_first_out = geo;
          geo_shape_lat = a.geo_shape_lat;
          geo_shape_lon = a.geo_shape_lon;
        })
      in if length nodes == 0 then ok (empty_graph f) else filtered
