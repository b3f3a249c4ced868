-- ===== src/Ch/Contractor.antt =====
-- `Contract` of pkg/ch/contractor.go: from the road graph to the contracted graph. `fuel` bounds each
-- witness search, and `rounds` the main loop, which a lazy update of the queue can prolong. What only
-- feeds the log is left out.
use map_router.Base.{
  ℕ, zero, suc, ◌+◌, ◌-◌, Bool, true, false, ◌&&◌, List, [], ◌∷◌, ◌++◌, ltb, ◌==◌, if◌then◌else◌,
  length, replicate, ℤ, pos, negsuc, ltb_ℤ,
}
use map_router.Run.{Run, ok, out_of_fuel, ◌>>=◌}
use map_router.Array.{at, put}
use map_router.Word.{u32_mod, add32}
use map_router.Graph.{Graph, ChGraph, edges_from}
use map_router.Ch.ContractionPq
use map_router.Ch.ContractionPq.{ContractionPq, new_contraction_pq}
use map_router.Ch.Witness.{AdjEntry, Adjacency, WitnessState, new_witness_state}
use map_router.Ch.Shortcuts.{Shortcut, find_shortcuts, compute_priority}
use map_router.Ch.Overlay.{build_overlay, empty_ch_graph}

abbrev pub max_shortcuts_per_node : ℕ
max_shortcuts_per_node = 1000

-- `int32(node)`
i32_of_u32 : ℕ → ℤ
i32_of_u32 n = if ltb n 2147483648 then pos n else negsuc (u32_mod - n - 1)

-- `adj[u] = append(adj[u], e)`
pub append_entry : Adjacency → ℕ → AdjEntry → Run Adjacency
append_entry adj u e = at adj u >>= λ entries. put adj u (entries ++ e ∷ [])

-- `outAdj` and `inAdj`
pub record Lists : Type 0 where
  pub out_adj : Adjacency
  pub in_adj : Adjacency

pub add_edge : Lists → ℕ → ℕ → ℕ → ℤ → Run Lists
add_edge l u v w middle = do
  outs ← append_entry l.out_adj u (record { to = v; weight = w; middle = middle })
  ins ← append_entry l.in_adj v (record { to = u; weight = w; middle = middle })
  ok (record { out_adj = outs; in_adj = ins })

-- The main loop's variables.
pub record Contraction : Type 0 where
  pub lists : Lists
  pub contracted : List Bool
  pub rank : List ℕ
  pub contracted_neighbors : List ℕ
  pub level : List ℕ
  pub pq : ContractionPq
  pub ws : WitnessState
  pub order : ℕ

-- The loop that adds the shortcuts around `node`.
pub add_shortcuts : ℕ → List Shortcut → Lists → Run Lists
add_shortcuts node [] l = ok l
add_shortcuts node (sc ∷ shortcuts) l =
    add_edge l sc.from sc.to sc.weight (i32_of_u32 node) >>= λ more.
    add_shortcuts node shortcuts more

-- The body of the two loops over the neighbours of `node`, and the loops.
pub touch_neighbor : ℕ → AdjEntry → Contraction → Run Contraction
touch_neighbor node e c =
    let touched : Run Contraction = do
      n ← at c.contracted_neighbors e.to
      counts ← put c.contracted_neighbors e.to (n + 1)
      own ← at c.level node
      theirs ← at c.level e.to
      levels ← if ltb theirs (own + 1) then put c.level e.to (own + 1) else ok c.level
      ok (record c { contracted_neighbors = counts; level = levels })
    in at c.contracted e.to >>= λ gone. if gone then ok c else touched

pub touch_neighbors : ℕ → List AdjEntry → Contraction → Run Contraction
touch_neighbors node [] c = ok c
touch_neighbors node (e ∷ edges) c =
    touch_neighbor node e c >>= λ next. touch_neighbors node edges next

pub priority_of : Contraction → ℕ → Run ℤ
priority_of c node = do
  n ← at c.contracted_neighbors node
  l ← at c.level node
  compute_priority c.lists.out_adj c.lists.in_adj node c.contracted n l

-- `Contract this node` and what follows it.
pub contract_node : Contraction → ℕ → List Shortcut → Run Contraction
contract_node c node shortcuts = do
  gone ← put c.contracted node true
  ranks ← put c.rank node c.order
  lists ← add_shortcuts node shortcuts c.lists
  outs ← at lists.out_adj node
  let marked = record c { contracted = gone; rank = ranks; order = add32 c.order 1; lists = lists }
  after_outs ← touch_neighbors node outs marked
  ins ← at after_outs.lists.in_adj node
  touch_neighbors node ins after_outs

-- The main loop.
pub contract_loop : ℕ → ℕ → Contraction → Run Contraction
contract_loop zero fuel c = out_of_fuel
contract_loop (suc rounds) fuel c =
    let round : Run Contraction = do
      (entry, pq) ← ContractionPq.pop c.pq
      let node = entry.node
      let popped = record c { pq = pq }
      gone ← at c.contracted node
      let contract : Run Contraction = do
        (shortcuts, ws) ← find_shortcuts fuel c.ws c.lists.out_adj c.lists.in_adj node c.contracted
        let searched = record popped { ws = ws }
        let go_on : Run Contraction = do
          next ← contract_node searched node shortcuts
          contract_loop rounds fuel next
        if ltb max_shortcuts_per_node (length shortcuts) then ok searched else go_on
      let again : ℤ → Run Contraction = λ p. do
        pushed ← ContractionPq.push pq node p
        contract_loop rounds fuel (record popped { pq = pushed })
      let update : Run Contraction = do
        p ← priority_of popped node
        let compare_next : Run Contraction = do
          next ← ContractionPq.peek_priority pq
          if ltb_ℤ next p then again p else contract
        if ltb_ℤ entry.priority p && ltb 0 (ContractionPq.len pq) then compare_next else contract
      let skip = contract_loop rounds fuel popped
      if gone then skip else update
    in if ContractionPq.len c.pq == 0 then ok c else round

-- The loop that ranks the core, over `k` nodes from `i` on.
pub rank_core : ℕ → ℕ → Contraction → Run Contraction
rank_core zero i c = ok c
rank_core (suc k) i c =
    let ranked : Run Contraction = do
      gone ← put c.contracted i true
      ranks ← put c.rank i c.order
      ok (record c { contracted = gone; rank = ranks; order = add32 c.order 1 })
    in at c.contracted i >>= λ gone.
    (if gone then ok c else ranked) >>= λ next. rank_core k (i + 1) next

-- The loop that fills the queue.
pub push_all : ℕ → ℕ → Contraction → Run Contraction
push_all zero i c = ok c
push_all (suc k) i c = do
  p ← priority_of c i
  pq ← ContractionPq.push c.pq i p
  push_all k (i + 1) (record c { pq = pq })

abbrev start_contraction : ℕ → Lists → Contraction
start_contraction n l = record {
  lists = l;
  contracted = replicate n false;
  rank = replicate n 0;
  contracted_neighbors = replicate n 0;
  level = replicate n 0;
  pq = new_contraction_pq;
  ws = new_witness_state n;
  order = 0;
}

module _ {F : Type 0} where
  -- The loops that build the adjacency lists: over the edges of node `u`, and over the nodes.
  pub copy_row : ℕ → Graph F → ℕ → ℕ → Lists → Run Lists
  copy_row zero g u e l = ok l
  copy_row (suc k) g u e l = do
    v ← at g.head e
    w ← at g.weight e
    more ← add_edge l u v w (negsuc 0)
    copy_row k g u (e + 1) more

  pub copy_rows : ℕ → Graph F → ℕ → Lists → Run Lists
  copy_rows zero g u l = ok l
  copy_rows (suc k) g u l = do
    (start, stop) ← edges_from g u
    more ← copy_row (stop - start) g u start l
    copy_rows k g (u + 1) more

  unfoldable pub contract : ℕ → ℕ → Graph F → Run (ChGraph F)
  unfolding contract_loop rank_core push_all copy_rows copy_row add_edge append_entry contract_node
      touch_neighbors touch_neighbor priority_of add_shortcuts i32_of_u32
  contract rounds fuel g =
      let n = g.num_nodes in
      let contracted : Run (ChGraph F) = do
        l ← copy_rows n g 0 (record { out_adj = replicate n []; in_adj = replicate n [] })
        queued ← push_all n 0 (start_contraction n l)
        done ← contract_loop rounds fuel queued
        ranked ← rank_core n 0 done
        build_overlay g ranked.lists.out_adj ranked.lists.in_adj ranked.rank
      in if n == 0 then ok empty_ch_graph else contracted
