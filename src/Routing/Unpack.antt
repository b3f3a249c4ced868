-- ===== src/Routing/Unpack.antt =====
-- pkg/routing/unpack.go: from the nodes of an overlay path to the nodes of the original graph.
pub mod Expand
pub mod Cheapest
pub mod Find
use map_router.Base.{
  ℕ, zero, suc, ◌+◌, ◌-◌, ◌≡◌, Bool, true, false, not, ◌||◌, List, [], ◌∷◌, ◌++◌, ltb, ◌==◌,
  if◌then◌else◌, length, ℤ, pos, negsuc,
}
use map_router.Run.{Run, ok, out_of_fuel, ◌>>=◌}
use map_router.Array.{at}
use map_router.Graph.{ChGraph}
use map_router.Routing.MinHeap.{max_u32}
use map_router.Routing.QueryState.{no_node}

abbrev pub max_unpack_depth : ℕ
max_unpack_depth = 200

-- `bestWeight`, `bestMiddle`, `found`
pub record Best : Type 0 where
  pub weight : ℕ
  pub middle : ℤ
  pub found : Bool

-- The loop over the `k` overlay edges from `i` on, for those whose head is `target`.
pub scan_edges : ℕ → List ℕ → List ℕ → List ℤ → ℕ → ℕ → Best → Run Best
scan_edges zero head weight middle target i best = ok best
scan_edges (suc k) head weight middle target i best = do
  v ← at head i
  let better : Run Best = do
    w ← at weight i
    let take_it : Run Best = do
      m ← at middle i
      ok (record { weight = w; middle = m; found = true })
    if not best.found || ltb w best.weight then take_it else ok best
  next ← if v == target then better else ok best
  scan_edges k head weight middle target (i + 1) next

-- `findEdge`
find_edge_loop : ℕ → List ℕ → ℕ → ℕ → Run ℕ
find_edge_loop zero head target i = ok no_node
find_edge_loop (suc k) head target i =
    let rest = find_edge_loop k head target (i + 1) in
    at head i >>= λ v. if v == target then ok i else rest

unfoldable pub find_edge : List ℕ → List ℕ → ℕ → ℕ → Run ℕ
unfolding find_edge_loop
find_edge first_out head source target = do
  start ← at first_out source
  stop ← at first_out (source + 1)
  find_edge_loop (stop - start) head target start

-- `result`, after an original edge.
pub append_edge : List ℕ → ℕ → ℕ → Run (List ℕ)
append_edge result from_node to_node = do
  last ← at result (length result - 1)
  ok ((if last == from_node then result else result ++ from_node ∷ []) ++ to_node ∷ [])

pub record StackItem : Type 0 where
  pub from_node : ℕ
  pub to_node : ℕ
  pub depth : ℕ

-- The iterations that an item may take that has `r` levels left.
pub hop_fuel : ℕ → ℕ
hop_fuel zero = 1
hop_fuel (suc r) = let half = hop_fuel r in 1 + (half + half)

-- `if middle < 0`: the original edge, or the shortcut over a node.
abbrev pub by_middle {ℓ} : {A : Type ℓ} → ℤ → (ℕ → A) → A → A
by_middle (pos m) shortcut original = shortcut m
by_middle (negsuc m) shortcut original = original

module _ {F : Type 0} (chg : ChGraph F) where
  unfoldable pub find_middle : ℕ → ℕ → Run ℤ
  unfolding scan_edges
  find_middle from_node to_node = do
    fwd_start ← at chg.fwd_first_out from_node
    fwd_stop ← at chg.fwd_first_out (from_node + 1)
    fwd ←
        scan_edges (fwd_stop - fwd_start) chg.fwd_head chg.fwd_weight chg.fwd_middle to_node
          fwd_start (record { weight = max_u32; middle = negsuc 0; found = false })
    bwd_start ← at chg.bwd_first_out to_node
    bwd_stop ← at chg.bwd_first_out (to_node + 1)
    best ←
        scan_edges (bwd_stop - bwd_start) chg.bwd_head chg.bwd_weight chg.bwd_middle from_node
          bwd_start fwd
    ok (if best.found then best.middle else negsuc 0)

  -- The inner loop of `unpackOverlayPath`: the stack, whose top comes first, and `result`.
  pub unpack_loop : ℕ → List StackItem → List ℕ → Run (List ℕ)
  unpack_loop zero stack result = out_of_fuel
  unpack_loop (suc fuel) [] result = ok result
  unpack_loop (suc fuel) (it ∷ stack) result =
      let skip = unpack_loop fuel stack result in
      let original =
        append_edge result it.from_node it.to_node >>= λ longer. unpack_loop fuel stack longer in
      let halves : ℕ → Run (List ℕ) = λ m.
        unpack_loop fuel
          (record { from_node = it.from_node; to_node = m; depth = it.depth + 1 }
            ∷ record { from_node = m; to_node = it.to_node; depth = it.depth + 1 }
            ∷ stack)
          result in
      if ltb max_unpack_depth it.depth
      then skip
      else find_middle it.from_node it.to_node >>= λ middle. by_middle middle halves original

  -- The loop over the hops.
  pub unpack_hops : List ℕ → List ℕ → Run (List ℕ)
  unpack_hops [] result = ok result
  unpack_hops (a ∷ []) result = ok result
  unpack_hops (a ∷ b ∷ rest) result =
      unpack_loop (hop_fuel 201 + 1) (record { from_node = a; to_node = b; depth = 0 } ∷ []) result
      >>= λ longer. unpack_hops (b ∷ rest) longer

  unfoldable pub unpack_overlay_path : List ℕ → Run (List ℕ)
  unfolding unpack_hops unpack_loop append_edge hop_fuel
  unpack_overlay_path [] = ok []
  unpack_overlay_path (a ∷ []) = ok (a ∷ [])
  unpack_overlay_path (a ∷ b ∷ rest) = unpack_hops (a ∷ b ∷ rest) (a ∷ [])
