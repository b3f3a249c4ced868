-- ===== src/Routing/Snap.antt =====
-- pkg/routing/snap.go: snapping a point to the nearest roads.
pub mod Grid
pub mod Nearest
use map_router.Base.{ℕ}
use map_router.Float.{Float}

module _ (f : Float) where
  open f use {F}

  -- A point on the edge `edge_idx`, at `ratio` of the way from `node_u` to `node_v`.
  pub record SnapResult : Type 0 where
    pub edge_idx : ℕ
    pub node_u : ℕ
    pub node_v : ℕ
    pub ratio : F
    pub dist : F
