-- ===== src/Graph/Components.antt =====
-- pkg/graph/component.go: strongly connected components, and the graph of some of them. `fuel` bounds
-- the inner loops of the two searches. A stack is a list with its top first; the map `oldToNew` is a
-- list of its entries, the newest first.
use map_router.Base.{
  ℕ, zero, suc, ◌+◌, ◌-◌, ◌%◌, Bool, true, false, List, [], ◌∷◌, ◌++◌, map, ltb, leb, ◌==◌,
  if◌then◌else◌, length, replicate, take,
}
use map_router.Run.{Run, ok, out_of_fuel, ◌>>=◌}
use map_router.Array.{at, put}
use map_router.Word.{u32_mod, add32}
use map_router.Graph.{Graph}
use map_router.Graph.Rows.{count_rows}

-- `^uint32(0)`
abbrev pub unassigned : ℕ
unassigned = 4294967295

-- The arrays of the transpose: `revFirstOut` and `revHead`.
pub record Transpose : Type 0 where
  pub first_out : List ℕ
  pub head : List ℕ

-- The loop over the edges of `u` that places it in the rows of its heads.
pub reverse_row : ℕ → List ℕ → ℕ → ℕ → List ℕ × List ℕ → Run (List ℕ × List ℕ)
reverse_row zero head u e (fill_pos, rev_head) = ok (fill_pos, rev_head)
reverse_row (suc k) head u e (fill_pos, rev_head) = do
  v ← at head e
  slot ← at fill_pos v
  placed ← put rev_head slot u
  moved ← put fill_pos v (add32 slot 1)
  reverse_row k head u (e + 1) (moved, placed)

pub reverse_rows : ℕ → List ℕ → List ℕ → ℕ → List ℕ × List ℕ → Run (List ℕ × List ℕ)
reverse_rows zero first_out head u arrays = ok arrays
reverse_rows (suc k) first_out head u arrays = do
  start ← at first_out u
  stop ← at first_out (u + 1)
  more ← reverse_row (stop - start) head u start arrays
  reverse_rows k first_out head (u + 1) more

pub transpose : ℕ → List ℕ → List ℕ → Run Transpose
transpose n first_out head = do
  rev_first_out ← count_rows n head
  (_, rev_head) ← reverse_rows n first_out head 0 (take n rev_first_out, replicate (length head) 0)
  ok (record { first_out = rev_first_out; head = rev_head })

-- A frame of the first search: a node and its next edge.
pub record Frame : Type 0 where
  pub node : ℕ
  pub edge : ℕ

-- The first search: what it has visited and the order in which it has finished nodes.
pub record FinishOrder : Type 0 where
  pub visited : List Bool
  pub order : List ℕ

pub finish_loop : ℕ → List ℕ → List ℕ → List Frame → FinishOrder → Run FinishOrder
finish_loop zero first_out head stack s = out_of_fuel
finish_loop (suc fuel) first_out head [] s = ok s
finish_loop (suc fuel) first_out head (top ∷ stack) s = do
  stop ← at first_out (top.node + 1)
  let advance : Run FinishOrder = do
    v ← at head top.edge
    seen ← at s.visited v
    let moved : Frame = record top { edge = top.edge + 1 }
    let enter : Run FinishOrder = do
      visited ← put s.visited v true
      first ← at first_out v
      finish_loop fuel first_out head (record { node = v; edge = first } ∷ moved ∷ stack)
          (record s { visited = visited })
    let stay = finish_loop fuel first_out head (moved ∷ stack) s
    if seen then stay else enter
  let leave = finish_loop fuel first_out head stack (record s { order = s.order ++ top.node ∷ [] })
  if ltb top.edge stop then advance else leave

-- The loop over the start nodes.
pub finish_all : ℕ → ℕ → List ℕ → List ℕ → ℕ → FinishOrder → Run FinishOrder
finish_all zero fuel first_out head start s = ok s
finish_all (suc k) fuel first_out head start s =
    let search : Run FinishOrder = do
      visited ← put s.visited start true
      first ← at first_out start
      finish_loop fuel first_out head (record { node = start; edge = first } ∷ [])
          (record s { visited = visited })
    in at s.visited start >>= λ seen.
    (if seen then ok s else search) >>= λ next. finish_all k fuel first_out head (start + 1) next

-- The second search: the loop over the transposed edges of a node, which labels their heads and
-- stacks them.
pub label_row : ℕ → List ℕ → ℕ → ℕ → List ℕ × List ℕ → Run (List ℕ × List ℕ)
label_row zero rev_head id e (comp, dfs) = ok (comp, dfs)
label_row (suc k) rev_head id e (comp, dfs) = do
  w ← at rev_head e
  label ← at comp w
  let fresh : Run (List ℕ × List ℕ) = do labels ← put comp w id; ok (labels, w ∷ dfs)
  next ← if label == unassigned then fresh else ok (comp, dfs)
  label_row k rev_head id (e + 1) next

pub label_loop : ℕ → Transpose → ℕ → List ℕ × List ℕ → Run (List ℕ)
label_loop zero rev id state = out_of_fuel
label_loop (suc fuel) rev id (comp, []) = ok comp
label_loop (suc fuel) rev id (comp, u ∷ dfs) = do
  start ← at rev.first_out u
  stop ← at rev.first_out (u + 1)
  next ← label_row (stop - start) rev.head id start (comp, dfs)
  label_loop fuel rev id next

-- The loop over the finish order, last node first; `num_comps` is the next id.
pub label_all : ℕ → Transpose → List ℕ → List ℕ → ℕ → Run (List ℕ × ℕ)
label_all fuel rev [] comp num_comps = ok (comp, num_comps)
label_all fuel rev (root ∷ roots) comp num_comps =
    let skip = label_all fuel rev roots comp num_comps in
    let search : Run (List ℕ × ℕ) = do
      started ← put comp root num_comps
      labelled ← label_loop fuel rev num_comps (started, root ∷ [])
      label_all fuel rev roots labelled (add32 num_comps 1)
    in at comp root >>= λ label. if label == unassigned then search else skip

-- `sizes[c]++`
pub count_sizes : List ℕ → List ℕ → Run (List ℕ)
count_sizes [] sizes = ok sizes
count_sizes (c ∷ comp) sizes = do
  n ← at sizes c
  counted ← put sizes c (add32 n 1)
  count_sizes comp counted

reversed : List ℕ → List ℕ → List ℕ
reversed [] acc = acc
reversed (x ∷ xs) acc = reversed xs (x ∷ acc)

-- The best component so far, among `k` from `c` on.
pub largest : ℕ → List ℕ → ℕ → ℕ → Run ℕ
largest zero sizes c best = ok best
largest (suc k) sizes c best = do
  here ← at sizes c
  most ← at sizes best
  largest k sizes (c + 1) (if ltb most here then c else best)

-- The nodes whose component is kept, from node `i` on.
pub kept_nodes : (ℕ → Bool) → List ℕ → ℕ → List ℕ
kept_nodes keep [] i = []
kept_nodes keep (c ∷ comp) i =
    let rest = kept_nodes keep comp (i + 1) in if keep c then i ∷ rest else rest

-- The same with the flags `keep`.
pub flagged_nodes : List Bool → List ℕ → ℕ → Run (List ℕ)
flagged_nodes keep [] i = ok []
flagged_nodes keep (c ∷ comp) i = do
  kept ← at keep c
  rest ← flagged_nodes keep comp (i + 1)
  ok (if kept then i ∷ rest else rest)

module _ {F : Type 0} where
  -- `computeSCC`: the component of every node, and their sizes.
  unfoldable pub compute_scc : ℕ → Graph F → Run (List ℕ × List ℕ)
  unfolding finish_all finish_loop label_all label_loop label_row count_sizes reversed reverse_rows
      reverse_row transpose
  compute_scc fuel g =
      let n = g.num_nodes in
      transpose n g.first_out g.head >>= λ rev.
      finish_all n fuel g.first_out g.head 0 (record { visited = replicate n false; order = [] })
      >>= λ s.
          label_all fuel rev (reversed s.order []) (replicate n unassigned) 0
          >>= λ (comp, num_comps).
              count_sizes comp (replicate num_comps 0) >>= λ sizes. ok (comp, sizes)

  unfoldable pub largest_component : ℕ → Graph F → Run (List ℕ)
  unfolding largest kept_nodes
  largest_component fuel g =
      let search : Run (List ℕ) = do
        (comp, sizes) ← compute_scc fuel g
        best ← largest (length sizes % u32_mod - 1) sizes 1 0
        ok (kept_nodes (λ c. c == best) comp 0)
      in if g.num_nodes == 0 then ok [] else search

  unfoldable pub large_components : ℕ → Graph F → ℕ → Run (List ℕ)
  unfolding flagged_nodes
  large_components fuel g min_nodes =
      let search : Run (List ℕ) = do
        (comp, sizes) ← compute_scc fuel g
        flagged_nodes (map (λ size. leb min_nodes size) sizes) comp 0
      in if g.num_nodes == 0 then ok [] else search
