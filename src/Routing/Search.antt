-- ===== src/Routing/Search.antt =====
-- `runCHDijkstra` of pkg/routing/engine.go: the bidirectional search over the two upward graphs.
-- The code writes the forward and the backward step out; both are `step` here, at the half that it
-- changes and the other one. `cancelled i` is `ctx.Err() != nil` when iteration `i` asks for it.
pub mod Relax
pub mod Edges
pub mod Round
pub mod Settle
pub mod Loop
pub mod Walks
pub mod Correct
pub mod Tests
use map_router.Base.{ℕ, zero, suc, ◌+◌, ◌-◌, ◌%◌, Bool, ◌&&◌, List, ltb, leb, ◌==◌, if◌then◌else◌}
use map_router.Run.{Run, ok, out_of_fuel, ◌>>=◌}
use map_router.Array.{at, put}
use map_router.Word.{u32_mod, add32}
use map_router.Graph.{ChGraph}
use map_router.Routing.MinHeap
use map_router.Routing.MinHeap.{max_u32}
use map_router.Routing.QueryState.{Half, QueryState, Side, no_node, touch}

-- The upward graph of one direction: `FwdFirstOut`, `FwdHead`, `FwdWeight`, or the backward ones.
pub record Upward : Type 0 where
  pub first_out : List ℕ
  pub head : List ℕ
  pub weight : List ℕ

module _ {F : Type 0} where
  abbrev pub fwd_graph : ChGraph F → Upward
  fwd_graph c = record { first_out = c.fwd_first_out; head = c.fwd_head; weight = c.fwd_weight }

  abbrev pub bwd_graph : ChGraph F → Upward
  bwd_graph c = record { first_out = c.bwd_first_out; head = c.bwd_head; weight = c.bwd_weight }

-- The body of `if newDist < qs.DistFwd[v]`.
pub improve : Half → Side → ℕ → ℕ → ℕ → Run Side
improve other s u v new_dist = do
  t ← touch other s v new_dist
  q ← MinHeap.push t.own.pq v new_dist
  p ← put t.own.pred v u
  ok (record t { own = record (t.own) { pred = p; pq = q } })

pub relax_edge : Upward → Half → ℕ → ℕ → ℕ → Side → Run Side
relax_edge g other u d ei s = do
  v ← at g.head ei
  w ← at g.weight ei
  label ← at s.own.dist v
  if ltb (add32 d w) label then improve other s u v (add32 d w) else ok s

-- The loop over the `k` edges from `ei` on.
pub relax_loop : ℕ → Upward → Half → ℕ → ℕ → ℕ → Side → Run Side
relax_loop zero g other u d ei s = ok s
relax_loop (suc k) g other u d ei s =
    relax_edge g other u d ei s >>= λ t. relax_loop k g other u d (ei + 1) t

-- The best meeting so far: `mu` and `meetNode`.
pub record Meeting : Type 0 where
  pub mu : ℕ
  pub node : ℕ

unfoldable pub meet : ℕ → ℕ → ℕ → Meeting → Meeting
meet u d other_label best =
    if ltb other_label max_u32 && ltb (add32 d other_label) best.mu
    then record { mu = add32 d other_label; node = u }
    else best

-- Both halves of the loop's body: pop an entry, and unless it is stale check the meeting and relax.
pub step : Upward → Half → Side → Meeting → Run (Side × Meeting)
step g other s best = do
  (item, q) ← MinHeap.pop s.own.pq
  let popped = record s { own = record (s.own) { pq = q } }
  label ← at popped.own.dist item.node
  let settle : Run (Side × Meeting) = do
    other_label ← at other.dist item.node
    start ← at g.first_out item.node
    stop ← at g.first_out (item.node + 1)
    t ← relax_loop (stop - start) g other item.node item.dist start popped
    ok (t, meet item.node item.dist other_label best)
  if leb item.dist label then settle else ok (popped, best)

-- The state of the search between iterations.
pub record Search : Type 0 where
  pub qs : QueryState
  pub best : Meeting

abbrev fwd_side : QueryState → Side
fwd_side qs = record { own = qs.fwd; touched = qs.touched }

abbrev bwd_side : QueryState → Side
bwd_side qs = record { own = qs.bwd; touched = qs.touched }

pub fwd_step : Upward → Search → Run Search
fwd_step g s =
    let go : Run Search = do
      (t, best) ← step g s.qs.bwd (fwd_side s.qs) s.best
      ok (record { qs = record (s.qs) { fwd = t.own; touched = t.touched }; best = best })
    in if ltb (MinHeap.peek_dist s.qs.fwd.pq) s.best.mu then go else ok s

pub bwd_step : Upward → Search → Run Search
bwd_step g s =
    let go : Run Search = do
      (t, best) ← step g s.qs.fwd (bwd_side s.qs) s.best
      ok (record { qs = record (s.qs) { bwd = t.own; touched = t.touched }; best = best })
    in if ltb (MinHeap.peek_dist s.qs.bwd.pq) s.best.mu then go else ok s

abbrev pub is_over : Search → Bool
is_over s =
    leb s.best.mu (MinHeap.peek_dist s.qs.fwd.pq) && leb s.best.mu (MinHeap.peek_dist s.qs.bwd.pq)

pub search_loop : ℕ → Upward → Upward → (ℕ → Bool) → ℕ → Search → Run Search
search_loop zero fg bg cancelled iterations s = out_of_fuel
search_loop (suc fuel) fg bg cancelled iterations s =
    let i = (iterations + 1) % u32_mod in
    let next : Run Search = do
      a ← fwd_step fg s
      b ← bwd_step bg a
      search_loop fuel fg bg cancelled i b
    in if is_over s then ok s else if i % 256 == 0 && cancelled i then ok s else next

abbrev pub start_search : QueryState → Search
start_search qs = record { qs = qs; best = record { mu = max_u32; node = no_node } }

-- `runCHDijkstra`, with the iterations that it may take.
unfoldable pub run_ch_dijkstra : {F : Type 0} → ℕ → ChGraph F → (ℕ → Bool) → QueryState → Run Search
unfolding search_loop fwd_step bwd_step step relax_loop relax_edge improve meet
run_ch_dijkstra fuel chg cancelled qs =
    search_loop fuel (fwd_graph chg) (bwd_graph chg) cancelled 0 (start_search qs)
