-- ===== src/Routing/Snap/Grid.antt =====
-- The grid index of `Snapper`: its construction, and the lookup of a cell. `sort.Search` is a
-- parameter, by what its documentation says. The count of the entries, which only sizes the slice
-- ahead, is left out.
pub mod Range
use map_router.Base.{
  ℕ, zero, suc, ◌+◌, ◌-◌, ◌*◌, ◌≤◌, ◌<◌, ◌≡◌, Bool, true, false, not, ◌||◌, List, [], ◌∷◌, ◌++◌,
  ltb, leb, ◌==◌, if◌then◌else◌, length, take, drop, ℤ, pos, ◌+ℤ◌, sub_ℕ, pos_part, neg_part,
}
use map_router.Run.{Run, ok, ◌>>=◌}
use map_router.Array.{Zeroed, get!, at}
use map_router.Word.{u32_mod, u32_of_i32}
use map_router.Float.{Float}
use map_router.Sort.{SortSlice}
use map_router.Graph.{Graph, edges_from}

-- `sort.Search(n, test)`: the least index below `n` that passes, if none after it fails, or `n`.
pub record SearchSlice : Type 0 where
  pub search : ℕ → (ℕ → Bool) → ℕ
  pub least :
      (n : ℕ) (test : ℕ → Bool)
      → ((i j : ℕ) → i ≤ j → j < n → test i ≡ true → test j ≡ true)
      → (search n test ≤ n)
        × ((i : ℕ) → i < search n test → test i ≡ false)
        × (search n test < n → test (search n test) ≡ true)

-- `cellKey`
unfoldable pub cell_key : ℤ → ℤ → ℕ
cell_key lat_idx lon_idx = u32_of_i32 lat_idx * u32_mod + u32_of_i32 lon_idx

pub record CellEdge : Type 0 where
  pub key : ℕ
  pub edge_idx : ℕ
  pub source : ℕ

instance abbrev pub Zeroed-CellEdge : Zeroed CellEdge
Zeroed-CellEdge = record { zero_value = record { key = 0; edge_idx = 0; source = 0 } }

-- The order of `sort.Slice`.
abbrev pub key_less : CellEdge → CellEdge → Bool
key_less a b = ltb a.key b.key

-- How often a loop from `lo` up to `hi`, `hi` included, runs.
abbrev pub rounds : ℤ → ℤ → ℕ
rounds lo hi = pos_part hi + neg_part lo + 1 - (pos_part lo + neg_part hi)

-- The loops over the cells of an edge's box.
pub lon_loop : ℕ → ℤ → ℤ → ℕ → ℕ → List CellEdge
lon_loop zero la lo e u = []
lon_loop (suc count) la lo e u =
    record { key = cell_key la lo; edge_idx = e; source = u } ∷ lon_loop count la (lo +ℤ pos 1) e u

pub lat_loop : ℕ → ℤ → ℤ → ℤ → ℕ → ℕ → List CellEdge
lat_loop zero la lon_lo lon_hi e u = []
lat_loop (suc count) la lon_lo lon_hi e u =
    lon_loop (rounds lon_lo lon_hi) la lon_lo e u ++ lat_loop count (la +ℤ pos 1) lon_lo lon_hi e u

module _ (f : Float) where
  open f use {F, of_ratio, div, floor_i32, min, max}

  abbrev pub grid_cell_size : F
  grid_cell_size = of_ratio 1 100

  -- `gridCell`, for one coordinate.
  unfoldable pub grid_cell : F → ℤ
  grid_cell x = floor_i32 (div x grid_cell_size)

  -- The entries of edge `e` of node `u`.
  pub edge_cells : Graph F → ℕ → ℕ → Run (List CellEdge)
  edge_cells g u e = do
    v ← at g.head e
    u_lat ← at g.node_lat u
    u_lon ← at g.node_lon u
    v_lat ← at g.node_lat v
    v_lon ← at g.node_lon v
    let lat_lo = grid_cell (min u_lat v_lat)
    let lat_hi = grid_cell (max u_lat v_lat)
    ok (
        lat_loop (rounds lat_lo lat_hi) lat_lo (grid_cell (min u_lon v_lon))
          (grid_cell (max u_lon v_lon)) e u)

  pub row_cells : ℕ → Graph F → ℕ → ℕ → List CellEdge → Run (List CellEdge)
  row_cells zero g u e edges = ok edges
  row_cells (suc k) g u e edges =
      edge_cells g u e >>= λ cells. row_cells k g u (e + 1) (edges ++ cells)

  pub all_cells : ℕ → Graph F → ℕ → List CellEdge → Run (List CellEdge)
  all_cells zero g u edges = ok edges
  all_cells (suc k) g u edges = do
    (start, stop) ← edges_from g u
    more ← row_cells (stop - start) g u start edges
    all_cells k g (u + 1) more

  pub record Snapper : Type 0 where
    pub edges : List CellEdge
    pub g : Graph F

  unfoldable pub new_snapper : SortSlice key_less → Graph F → Run Snapper
  unfolding all_cells row_cells edge_cells grid_cell lat_loop lon_loop
  new_snapper sort_slice g = do
    edges ← all_cells g.num_nodes g 0 []
    ok (record { edges = sort_slice.sort edges; g = g })

-- `cellRange`; the tests of `sort.Search` read entries in range only.
unfoldable pub cell_range : SearchSlice → List CellEdge → ℕ → List CellEdge
cell_range find edges key =
    let lo = find.search (length edges) (λ i. leb key (get! edges i).key) in
    let hi = find.search (length edges) (λ i. ltb key (get! edges i).key) in
    if leb (length edges) lo || not ((get! edges lo).key == key)
    then []
    else take (hi - lo) (drop lo edges)
