-- ===== src/Graph.antt =====
-- pkg/graph/graph.go: the road graph in CSR form, and the contracted graph. Coordinates are of a
-- type `F` that stands for `float64`. A nil slice is the empty list: the code tests `GeoFirstOut`
-- and `EdgeRestricted` for nil only where a present slice has an entry.
pub mod Csr
pub mod Bytes
pub mod Binary
pub mod Split
pub mod Rows
pub mod Build
pub mod UnionFind
pub mod Components
pub mod Filter
use map_router.Base.{ℕ, ◌+◌, ◌%◌, Bool, List, [], length, ℤ}
use map_router.Run.{Run, ok, ◌>>=◌}
use map_router.Array.{at}
use map_router.Word.{u32_mod}

pub record Graph (F : Type 0) : Type 0 where
  pub num_nodes : ℕ
  pub num_edges : ℕ
  pub first_out : List ℕ
  pub head : List ℕ
  pub weight : List ℕ
  pub edge_restricted : List Bool
  pub node_lat : List F
  pub node_lon : List F
  pub geo_first_out : List ℕ
  pub geo_shape_lat : List F
  pub geo_shape_lon : List F

pub record ChGraph (F : Type 0) : Type 0 where
  pub num_nodes : ℕ
  pub node_lat : List F
  pub node_lon : List F
  pub rank : List ℕ
  pub fwd_first_out : List ℕ
  pub fwd_head : List ℕ
  pub fwd_weight : List ℕ
  pub fwd_middle : List ℤ
  pub bwd_first_out : List ℕ
  pub bwd_head : List ℕ
  pub bwd_weight : List ℕ
  pub bwd_middle : List ℤ
  pub orig_first_out : List ℕ
  pub orig_head : List ℕ
  pub orig_weight : List ℕ
  pub geo_first_out : List ℕ
  pub geo_shape_lat : List F
  pub geo_shape_lon : List F

pub record BaseGraph (F : Type 0) : Type 0 where
  pub num_nodes : ℕ
  pub node_lat : List F
  pub node_lon : List F
  pub orig_first_out : List ℕ
  pub orig_head : List ℕ
  pub geo_first_out : List ℕ
  pub geo_shape_lat : List F
  pub geo_shape_lon : List F
  pub identity : ℕ

module _ {F : Type 0} where
  -- `(b *BaseGraph) Graph(origWeight)`
  unfoldable pub graph_view : BaseGraph F → List ℕ → Graph F
  graph_view b orig_weight = record {
    num_nodes = b.num_nodes;
    num_edges = length b.orig_head % u32_mod;
    first_out = b.orig_first_out;
    head = b.orig_head;
    weight = orig_weight;
    edge_restricted = [];
    node_lat = b.node_lat;
    node_lon = b.node_lon;
    geo_first_out = b.geo_first_out;
    geo_shape_lat = b.geo_shape_lat;
    geo_shape_lon = b.geo_shape_lon;
  }

  -- `EdgesFrom`
  unfoldable pub edges_from : Graph F → ℕ → Run (ℕ × ℕ)
  edges_from g u = do start ← at g.first_out u; stop ← at g.first_out (u + 1); ok (start, stop)
