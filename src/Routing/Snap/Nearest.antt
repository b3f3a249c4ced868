-- ===== src/Routing/Snap/Nearest.antt =====
-- `SnapCandidates` and `Snap`: the roads near a point. `sort.Search` and `sort.Slice` are parameters.
pub mod Distinct
pub mod Ring
pub mod Reach
pub mod Result
use map_router.Base.{
  ℕ, zero, suc, ◌+◌, ◌*◌, Bool, true, false, ◌||◌, List, [], ◌∷◌, ◌++◌, Option, none, some, ltb,
  leb, ◌==◌, if◌then◌else◌, length, ℤ, pos, negsuc, ◌+ℤ◌, sub_ℕ, pos_part, neg_part,
}
use map_router.Run.{Run, ok, ◌>>=◌}
use map_router.Array.{at}
use map_router.Word.{u32_mod}
use map_router.Float.{Float}
use map_router.Geo.{point_to_segment_dist}
use map_router.Sort.{SortSlice}
use map_router.Routing.Snap.{SnapResult}
use map_router.Routing.Snap.Grid.{
  SearchSlice, CellEdge, Snapper, cell_key, cell_range, grid_cell, grid_cell_size, rounds,
}

abbrev pub neg_ℤ : ℤ → ℤ
neg_ℤ a = sub_ℕ (neg_part a) (pos_part a)

-- The keys of the cells around a centre, `span` rings wide, in the order of the two loops.
pub ring_row : ℕ → ℤ → ℤ → ℤ → List ℕ
ring_row zero la center_lon d_lon = []
ring_row (suc count) la center_lon d_lon =
    cell_key la (center_lon +ℤ d_lon) ∷ ring_row count la center_lon (d_lon +ℤ pos 1)

pub ring_loop : ℕ → ℤ → ℤ → ℤ → ℤ → List ℕ
ring_loop zero center_lat center_lon span d_lat = []
ring_loop (suc count) center_lat center_lon span d_lat =
    ring_row (rounds (neg_ℤ span) span) (center_lat +ℤ d_lat) center_lon (neg_ℤ span)
    ++ ring_loop count center_lat center_lon span (d_lat +ℤ pos 1)

unfoldable pub ring_keys : ℤ → ℤ → ℤ → List ℕ
unfolding ring_loop ring_row
ring_keys center_lat center_lon span =
    ring_loop (rounds (neg_ℤ span) span) center_lat center_lon span (neg_ℤ span)

module _ (f : Float) where
  open f use {F, of_ratio, mul, div, lt, le, trunc_i32, inf}

  -- The exact position of a point against the edge of an entry.
  pub snap_to : Snapper f → F → F → CellEdge → Run (SnapResult f)
  snap_to s lat lng ce = do
    v ← at s.g.head ce.edge_idx
    u_lat ← at s.g.node_lat ce.source
    u_lon ← at s.g.node_lon ce.source
    v_lat ← at s.g.node_lat v
    v_lon ← at s.g.node_lon v
    let (exact_dist, ratio) = point_to_segment_dist f lat lng u_lat u_lon v_lat v_lon
    ok (record {
      edge_idx = ce.edge_idx;
      node_u = ce.source;
      node_v = v;
      ratio = ratio;
      dist = exact_dist;
    })

  -- The loop over the entries of one cell, and the loops over the cells.
  pub collect_cell :
      Snapper f → F → F → F → List CellEdge → List (SnapResult f) → Run (List (SnapResult f))
  collect_cell s lat lng radius [] all = ok all
  collect_cell s lat lng radius (ce ∷ cells) all = snap_to s lat lng ce >>= λ r.
      collect_cell s lat lng radius cells (if le r.dist radius then all ++ r ∷ [] else all)

  pub collect :
      SearchSlice → Snapper f → F → F → F → List ℕ → List (SnapResult f) → Run (List (SnapResult f))
  collect find s lat lng radius [] all = ok all
  collect find s lat lng radius (key ∷ keys) all =
      collect_cell s lat lng radius (cell_range find s.edges key) all >>= λ more.
      collect find s lat lng radius keys more

  -- `pairKey`: one number for the two directions of a road.
  abbrev pub pair_key : SnapResult f → ℕ
  pair_key r =
      if ltb r.node_v r.node_u then r.node_v * u32_mod + r.node_u else r.node_u * u32_mod + r.node_v

  abbrev pub is_seen : ℕ → List ℕ → Bool
  is_seen key [] = false
  is_seen key (x ∷ seen) = x == key || is_seen key seen

  -- The loop that keeps the first candidate of each node pair, up to `k` of them.
  pub keep_distinct : ℕ → List ℕ → List (SnapResult f) → List (SnapResult f) → List (SnapResult f)
  keep_distinct k seen [] out = out
  keep_distinct k seen (r ∷ rest) out =
      let skipped = keep_distinct k seen rest out in
      let kept = keep_distinct k (pair_key r ∷ seen) rest (out ++ r ∷ []) in
      if is_seen (pair_key r) seen
      then skipped
      else if leb k (length out + 1)
      then out ++ r ∷ []
      else kept

  abbrev pub dist_less : SnapResult f → SnapResult f → Bool
  dist_less a b = lt a.dist b.dist

  abbrev pub ring_span : F → ℤ
  ring_span radius = trunc_i32 (div radius (mul (grid_cell_size f) (of_ratio 111000 1))) +ℤ pos 1

  unfoldable pub snap_candidates :
      SearchSlice → SortSlice dist_less → Snapper f → F → F → ℕ → F → Run (List (SnapResult f))
  unfolding collect collect_cell snap_to keep_distinct
  snap_candidates find sort_slice s lat lng k radius =
      let keys = ring_keys (grid_cell f lat) (grid_cell f lng) (ring_span radius) in
      let search : Run (List (SnapResult f)) = do
        all ← collect find s lat lng radius keys []
        ok (keep_distinct k [] (sort_slice.sort all) [])
      in if k == 0 then ok [] else search

  abbrev is_closer : SnapResult f → Option (SnapResult f) → Bool
  is_closer r none = lt r.dist inf
  is_closer r (some best) = lt r.dist best.dist

  -- `Snap`: the loops that keep the closest entry, `none` before the first one.
  pub closest_cell :
      Snapper f → F → F → List CellEdge → Option (SnapResult f) → Run (Option (SnapResult f))
  closest_cell s lat lng [] best = ok best
  closest_cell s lat lng (ce ∷ cells) best = snap_to s lat lng ce >>= λ r.
      closest_cell s lat lng cells (if is_closer r best then some r else best)

  pub closest :
      SearchSlice → Snapper f → F → F → List ℕ → Option (SnapResult f) → Run (Option (SnapResult f))
  closest find s lat lng [] best = ok best
  closest find s lat lng (key ∷ keys) best =
      closest_cell s lat lng (cell_range find s.edges key) best >>= λ better.
      closest find s lat lng keys better

  -- `none` is `ErrPointTooFar`.
  abbrev near_enough : Option (SnapResult f) → Option (SnapResult f)
  near_enough none = none
  near_enough (some r) = if lt (of_ratio 500 1) r.dist then none else some r

  unfoldable pub snap : SearchSlice → Snapper f → F → F → Run (Option (SnapResult f))
  unfolding closest closest_cell
  snap find s lat lng = do
    best ← closest find s lat lng (ring_keys (grid_cell f lat) (grid_cell f lng) (pos 1)) none
    ok (near_enough best)
