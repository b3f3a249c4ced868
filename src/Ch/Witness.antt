-- ===== src/Ch/Witness.antt =====
-- `witnessState` and `batchWitnessSearch` of pkg/ch/witness.go: the bounded search for ways around a
-- node. The buffers that `findShortcuts` keeps in the state are local lists there.
pub mod Paths
pub mod Found
use map_router.Base.{
  ℕ, zero, suc, ◌+◌, Bool, true, false, ◌||◌, List, [], ◌∷◌, ◌++◌, ltb, leb, ◌==◌, if◌then◌else◌,
  length, replicate, ℤ,
}
use map_router.Run.{Run, ok, out_of_fuel, ◌>>=◌}
use map_router.Array.{at, put}
use map_router.Word.{add32}
use map_router.Routing.MinHeap.{max_u32}
use map_router.Ch.WitnessHeap
use map_router.Ch.WitnessHeap.{WitnessHeap, WitnessHeapItem}

abbrev pub max_settled : ℕ
max_settled = 500

abbrev pub max_hops : ℕ
max_hops = 5

-- An edge of the mutable adjacency lists; `middle` is -1 for an original edge.
pub record AdjEntry : Type 0 where
  pub to : ℕ
  pub weight : ℕ
  pub middle : ℤ

abbrev pub Adjacency : Type 0
Adjacency = List (List AdjEntry)

pub record WitnessState : Type 0 where
  pub dist : List ℕ
  pub touched : List ℕ
  pub heap : WitnessHeap

unfoldable pub new_witness_state : ℕ → WitnessState
new_witness_state n = record {
  dist = replicate n max_u32;
  touched = [];
  heap = record { items = [] };
}

-- The loop of `reset`, over the touched nodes.
unfoldable pub clear_dist : List ℕ → List ℕ → Run (List ℕ)
clear_dist [] dist = ok dist
clear_dist (n ∷ touched) dist = put dist n max_u32 >>= λ cleared. clear_dist touched cleared

unfoldable pub reset_state : WitnessState → Run WitnessState
unfolding clear_dist
reset_state ws = do
  dist ← clear_dist ws.touched ws.dist
  ok (record { dist = dist; touched = []; heap = WitnessHeap.reset ws.heap })

-- The body of `if newDist < ws.dist[e.to]`.
pub improve_label : ℕ → ℕ → ℕ → WitnessState → Run WitnessState
improve_label v new_dist hops ws = do
  old ← at ws.dist v
  dist ← put ws.dist v new_dist
  heap ← WitnessHeap.push ws.heap v new_dist hops
  ok (record {
    dist = dist;
    touched = if old == max_u32 then ws.touched ++ v ∷ [] else ws.touched;
    heap = heap;
  })

-- One edge behind the tests on its head.
pub relax_to : ℕ → WitnessHeapItem → AdjEntry → WitnessState → Run WitnessState
relax_to max_weight cur e ws =
    let new_dist = add32 cur.dist e.weight in
    let relaxed : Run WitnessState = do
      label ← at ws.dist e.to
      if ltb new_dist label then improve_label e.to new_dist (cur.hops + 1) ws else ok ws
    in if ltb max_weight new_dist then ok ws else relaxed

-- The loop over the outgoing edges.
pub relax_neighbors :
    ℕ → ℕ → List Bool → WitnessHeapItem → List AdjEntry → WitnessState → Run WitnessState
relax_neighbors max_weight excluded contracted cur [] ws = ok ws
relax_neighbors max_weight excluded contracted cur (e ∷ edges) ws =
    let onward : Run WitnessState = do
      gone ← at contracted e.to
      if gone then ok ws else relax_to max_weight cur e ws
    in (if e.to == excluded then ok ws else onward) >>= λ next.
    relax_neighbors max_weight excluded contracted cur edges next

-- The loop over the queue.
pub witness_loop : ℕ → Adjacency → ℕ → ℕ → List Bool → ℕ → WitnessState → Run WitnessState
witness_loop zero out_adj excluded max_weight contracted settled ws = out_of_fuel
witness_loop (suc fuel) out_adj excluded max_weight contracted settled ws =
    let round : Run WitnessState = do
      (cur, heap) ← WitnessHeap.pop ws.heap
      let popped = record ws { heap = heap }
      label ← at ws.dist cur.node
      let expand : Run WitnessState = do
        edges ← at out_adj cur.node
        next ← relax_neighbors max_weight excluded contracted cur edges popped
        witness_loop fuel out_adj excluded max_weight contracted (settled + 1) next
      let skip = witness_loop fuel out_adj excluded max_weight contracted settled popped
      let settle = witness_loop fuel out_adj excluded max_weight contracted (settled + 1) popped
      if ltb label cur.dist
          then skip
          else if leb max_settled (settled + 1)
          then ok popped
          else if ltb max_weight cur.dist || leb max_hops cur.hops
          then settle
          else expand
    in if WitnessHeap.len ws.heap == 0 then ok ws else round

unfoldable pub batch_witness_search :
    ℕ → WitnessState → Adjacency → ℕ → ℕ → ℕ → List Bool → Run WitnessState
unfolding reset_state clear_dist witness_loop relax_neighbors relax_to improve_label
batch_witness_search fuel ws out_adj source excluded max_weight contracted = do
  fresh ← reset_state ws
  dist ← put fresh.dist source 0
  heap ← WitnessHeap.push fresh.heap source 0 0
  witness_loop fuel out_adj excluded max_weight contracted 0
      (record { dist = dist; touched = fresh.touched ++ source ∷ []; heap = heap })
