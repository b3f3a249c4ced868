-- ===== src/Ch/Overlay.antt =====
-- `buildOverlay` of pkg/ch/contractor.go: the upward edges of both directions in CSR form.
pub mod Placed
pub mod Build
use map_router.Base.{
  ℕ, zero, suc, ◌+◌, ◌%◌, ltb, List, [], ◌∷◌, ◌++◌, if◌then◌else◌, length, replicate, take, map, ℤ,
  pos,
}
use map_router.Run.{Run, ok, ◌>>=◌}
use map_router.Array.{at, put}
use map_router.Word.{u32_mod, add32}
use map_router.Graph.{Graph, ChGraph}
use map_router.Graph.Rows.{count_rows}
use map_router.Ch.Witness.{AdjEntry, Adjacency}

pub record CsrEdge : Type 0 where
  pub from : ℕ
  pub to : ℕ
  pub weight : ℕ
  pub middle : ℤ

-- The loop over the entries of node `u`, for those whose node has a higher rank.
pub upward_entries : List ℕ → ℕ → List AdjEntry → Run (List CsrEdge)
upward_entries rank u [] = ok []
upward_entries rank u (e ∷ edges) = do
  own ← at rank u
  theirs ← at rank e.to
  rest ← upward_entries rank u edges
  ok (
      if ltb own theirs
      then record { from = u; to = e.to; weight = e.weight; middle = e.middle } ∷ rest
      else rest)

-- The loop over the nodes, for one of the two lists.
pub upward_edges : ℕ → Adjacency → List ℕ → ℕ → Run (List CsrEdge)
upward_edges zero adj rank u = ok []
upward_edges (suc k) adj rank u = do
  entries ← at adj u
  here ← upward_entries rank u entries
  rest ← upward_edges k adj rank (u + 1)
  ok (here ++ rest)

-- The arrays that the placing loop fills.
pub record Csr : Type 0 where
  pub head : List ℕ
  pub weight : List ℕ
  pub middle : List ℤ

-- The loop that places the edges; `pos` holds the next free index of every row.
pub place_edges : List CsrEdge → List ℕ → Csr → Run Csr
place_edges [] next a = ok a
place_edges (e ∷ edges) next a = do
  idx ← at next e.from
  heads ← put a.head idx e.to
  weights ← put a.weight idx e.weight
  middles ← put a.middle idx e.middle
  moved ← put next e.from (add32 idx 1)
  place_edges edges moved (record { head = heads; weight = weights; middle = middles })

-- `buildCSR`: `firstOut` and the edge arrays.
unfoldable pub build_csr : ℕ → List CsrEdge → Run (List ℕ × Csr)
unfolding place_edges
build_csr n edges =
    let num_edges = length edges % u32_mod in
    count_rows n (map (λ e. e.from) edges) >>= λ first_out.
    place_edges edges (take n first_out) (record {
      head = replicate num_edges 0;
      weight = replicate num_edges 0;
      middle = replicate num_edges (pos 0);
    })
    >>= λ a. ok (first_out, a)

module _ {F : Type 0} where
  abbrev pub empty_ch_graph : ChGraph F
  empty_ch_graph = record {
    num_nodes = 0;
    node_lat = [];
    node_lon = [];
    rank = [];
    fwd_first_out = [];
    fwd_head = [];
    fwd_weight = [];
    fwd_middle = [];
    bwd_first_out = [];
    bwd_head = [];
    bwd_weight = [];
    bwd_middle = [];
    orig_first_out = [];
    orig_head = [];
    orig_weight = [];
    geo_first_out = [];
    geo_shape_lat = [];
    geo_shape_lon = [];
  }

  unfoldable pub build_overlay : Graph F → Adjacency → Adjacency → List ℕ → Run (ChGraph F)
  unfolding upward_edges upward_entries
  build_overlay orig out_adj in_adj rank = do
    fwd_edges ← upward_edges orig.num_nodes out_adj rank 0
    bwd_edges ← upward_edges orig.num_nodes in_adj rank 0
    (fwd_first_out, fwd) ← build_csr orig.num_nodes fwd_edges
    (bwd_first_out, bwd) ← build_csr orig.num_nodes bwd_edges
    ok (record {
      num_nodes = orig.num_nodes;
      node_lat = orig.node_lat;
      node_lon = orig.node_lon;
      rank = rank;
      fwd_first_out = fwd_first_out;
      fwd_head = fwd.head;
      fwd_weight = fwd.weight;
      fwd_middle = fwd.middle;
      bwd_first_out = bwd_first_out;
      bwd_head = bwd.head;
      bwd_weight = bwd.weight;
      bwd_middle = bwd.middle;
      orig_first_out = orig.first_out;
      orig_head = orig.head;
      orig_weight = orig.weight;
      geo_first_out = orig.geo_first_out;
      geo_shape_lat = orig.geo_shape_lat;
      geo_shape_lon = orig.geo_shape_lon;
    })
