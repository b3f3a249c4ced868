-- ===== src/Routing/QueryState.antt =====
-- `QueryState` of pkg/routing/dijkstra.go. `Half` groups the arrays of one search direction:
-- `DistFwd`, `PredFwd`, `FwdPQ` are `fwd.dist`, `fwd.pred`, `fwd.pq`, and so backward. The code
-- writes each operation out for both directions; here one function takes the half it changes and
-- the other one. `NewQueryState` gives all four arrays one length, so the order in which the code
-- reads `DistFwd` and `DistBwd` does not show.
pub mod Reset
use map_router.Base.{
  ℕ, zero, suc, ◌≡◌, Bool, true, false, ◌&&◌, not, List, [], ◌∷◌, ◌++◌, leb, ◌==◌, if◌then◌else◌,
  replicate,
}
use map_router.Run.{Run, ok, ◌>>=◌}
use map_router.Array.{at, put}
use map_router.Routing.MinHeap
use map_router.Routing.MinHeap.{MinHeap, max_u32}

-- `noNode`
abbrev pub no_node : ℕ
no_node = max_u32

pub record Half : Type 0 where
  pub dist : List ℕ
  pub pred : List ℕ
  pub pq : MinHeap

pub record QueryState : Type 0 where
  pub fwd : Half
  pub bwd : Half
  pub touched : List ℕ

abbrev pub new_half : ℕ → Half
new_half n = record {
  dist = replicate n max_u32;
  pred = replicate n no_node;
  pq = record { items = [] };
}

unfoldable pub new_query_state : ℕ → QueryState
new_query_state n = record { fwd = new_half n; bwd = new_half n; touched = [] }

-- One direction's arrays and the list of touched nodes, which the directions share.
pub record Side : Type 0 where
  pub own : Half
  pub touched : List ℕ

-- `touchFwd`, `touchBwd`
unfoldable pub touch : Half → Side → ℕ → ℕ → Run Side
touch other s node d = do
  label ← at s.own.dist node
  other_label ← at other.dist node
  labels ← put s.own.dist node d
  ok (record {
    own = record (s.own) { dist = labels };
    touched =
        if label == max_u32 && other_label == max_u32 then s.touched ++ node ∷ [] else s.touched;
  })

-- `seedFwdMin`, `seedBwdMin`
unfoldable pub seed_min : Half → Side → ℕ → ℕ → Run Side
unfolding touch
seed_min other s node d =
    let seed : Run Side = do
      t ← touch other s node d
      q ← MinHeap.push t.own.pq node d
      ok (record t { own = record (t.own) { pq = q } })
    in do label ← at s.own.dist node; if not (label == max_u32) && leb label d then ok s else seed

unfoldable pub touch_fwd : QueryState → ℕ → ℕ → Run QueryState
unfolding touch
touch_fwd qs node d = do
  s ← touch qs.bwd (record { own = qs.fwd; touched = qs.touched }) node d
  ok (record qs { fwd = s.own; touched = s.touched })

unfoldable pub touch_bwd : QueryState → ℕ → ℕ → Run QueryState
unfolding touch
touch_bwd qs node d = do
  s ← touch qs.fwd (record { own = qs.bwd; touched = qs.touched }) node d
  ok (record qs { bwd = s.own; touched = s.touched })

unfoldable pub seed_fwd_min : QueryState → ℕ → ℕ → Run QueryState
unfolding seed_min
seed_fwd_min qs node d = do
  s ← seed_min qs.bwd (record { own = qs.fwd; touched = qs.touched }) node d
  ok (record qs { fwd = s.own; touched = s.touched })

unfoldable pub seed_bwd_min : QueryState → ℕ → ℕ → Run QueryState
unfolding seed_min
seed_bwd_min qs node d = do
  s ← seed_min qs.fwd (record { own = qs.bwd; touched = qs.touched }) node d
  ok (record qs { bwd = s.own; touched = s.touched })

-- The loop of `Reset`, over the touched nodes.
clear : List ℕ → QueryState → Run QueryState
clear [] qs = ok qs
clear (node ∷ rest) qs = do
  df ← put qs.fwd.dist node max_u32
  db ← put qs.bwd.dist node max_u32
  pf ← put qs.fwd.pred node no_node
  pb ← put qs.bwd.pred node no_node
  clear rest (record qs {
    fwd = record (qs.fwd) { dist = df; pred = pf };
    bwd = record (qs.bwd) { dist = db; pred = pb };
  })

unfoldable pub reset : QueryState → Run QueryState
unfolding clear
reset qs = do
  cleared ← clear qs.touched qs
  ok (record {
    fwd = record (cleared.fwd) { pq = MinHeap.reset cleared.fwd.pq };
    bwd = record (cleared.bwd) { pq = MinHeap.reset cleared.bwd.pq };
    touched = [];
  })
