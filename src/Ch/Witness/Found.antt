-- ===== src/Ch/Witness/Found.antt =====
-- A whole witness search.
use map_router.Base.{
  ℕ, zero, suc, ◌+◌, ◌*◌, ◌≤◌, ◌<◌, ◌≡◌, ◌∙◌, Bool, false, ◌||◌, List, [], ◌∷◌, arith, ltb, leb,
  ◌==◌, length, length-set, length-replicate, set, replicate, any_of-perm, ℕ_discrete, Perm,
}
use map_router.Run.{ok, Ensures, ensures, Ensures-bind, Ensures-if}
use map_router.Array.{Zeroed-ℕ, get!, at-ok, put-ok, get!-set, get!-replicate, length-perm}
use map_router.Heap.Order.{IsHeap}
use map_router.Heap.Queue.{pop-Popped}
use map_router.Routing.MinHeap.{max_u32}
use map_router.Routing.Search.Relax.{sum, sum-set}
use map_router.Ch.WitnessHeap
use map_router.Ch.WitnessHeap.{
  WitnessHeap, WitnessHeapItem, WitnessHeapItem-Zeroed, WitnessHeapItem-Keyed,
}
use map_router.Ch.Witness.{
  Adjacency, WitnessState, max_settled, max_hops, witness_loop, reset_state, new_witness_state,
  batch_witness_search,
}
use map_router.Ch.Witness.Paths.{
  Zeroed-entries, Way, here, is_odd, IsWitness, work, push-pushed, IsAdjacency,
  relax_neighbors-Next,
}

pop-popped :
    (h : WitnessHeap)
    → IsHeap h.items
    → 0 < length h.items
    → Ensures (λ (x, q). IsHeap q.items × Perm (x ∷ q.items) h.items) (WitnessHeap.pop h)
unfolding WitnessHeap.pop
pop-popped h s pos = Ensures-bind (pop-Popped h.items s pos) λ (x, a) p. ensures (p.heap, p.same)

sum-replicate : (n : ℕ) → sum (replicate n max_u32) ≡ n * max_u32
unfolding sum
sum-replicate zero = omega arith
sum-replicate (suc n) = omega (arith, sum-replicate n)

module _ (out_adj : Adjacency) (source excluded : ℕ) (contracted : List Bool) (n max_weight : ℕ)
    (few : max_weight < max_u32)
    (adj : IsAdjacency out_adj source excluded contracted n max_weight few) where
  abbrev pub IsFound : WitnessState → Type 0
  IsFound = IsWitness out_adj source excluded contracted n max_weight few

  abbrev effort : WitnessState → ℕ
  effort = work out_adj source excluded contracted n max_weight few

  abbrev odd : List ℕ → WitnessHeapItem → Bool
  odd = is_odd out_adj source excluded contracted n max_weight few

  -- An entry of the queue that is not stale is the end of a way.
  popped-Way :
      (ws : WitnessState) (x : WitnessHeapItem)
      → IsFound ws
      → odd ws.dist x ≡ false
      → ltb (get! ws.dist x.node) x.dist ≡ false
      → Way out_adj source excluded contracted x.node x.dist
  popped-Way ws x w fine fresh =
      let inside : x.node < n = ground arith in
      let same : get! ws.dist x.node ≡ x.dist = ground arith in
      let finite : get! ws.dist x.node < max_u32 = ground arith in
      rw same at (w.ways x.node inside finite)

  witness_loop-IsFound :
      (fuel settled : ℕ) (ws : WitnessState)
      → IsFound ws
      → effort ws < fuel
      → Ensures IsFound (witness_loop fuel out_adj excluded max_weight contracted settled ws)
  unfolding witness_loop WitnessHeap.len
  witness_loop-IsFound zero settled ws w enough = absurd (omega arith)
  witness_loop-IsFound (suc fuel) settled ws w enough =
      Ensures-if (length ws.heap.items == 0) (λ over. ensures w)
        λ more. Ensures-bind (pop-popped ws.heap w.heap (ground arith)) λ (x, q) (order, same).
          let size = length-perm same in
          let (fine, rest) = split (odd ws.dist x) _ (any_of-perm (odd ws.dist) same ∙ w.odd) in
          let v : IsFound (record ws { heap = q }) = record {
            size = w.size;
            heap = order;
            odd = rest;
            ways = w.ways;
          } in
          let inside : x.node < n = ground arith in
          rw (at-ok ws.dist x.node (omega (arith, w.size))) (
            Ensures-if (ltb (get! ws.dist x.node) x.dist)
              (λ stale. witness_loop-IsFound fuel settled _ v (omega arith))
              λ fresh.
                Ensures-if (leb max_settled (settled + 1)) (λ enough_settled. ensures v)
                  λ _.
                    Ensures-if (ltb max_weight x.dist || leb max_hops x.hops)
                      (λ far. witness_loop-IsFound fuel (settled + 1) _ v (omega arith))
                      λ near. rw (at-ok out_adj x.node (omega (arith, adj.size))) (
                        Ensures-bind
                          (relax_neighbors-Next out_adj source excluded contracted n max_weight few
                            adj x (get! out_adj x.node) _ v (ground arith)
                            (popped-Way ws x w fine fresh) (λ i e h. (i, h)))
                          λ next (u, le).
                            witness_loop-IsFound fuel (settled + 1) next u (omega arith)))
    where
      split : (a b : Bool) → a || b ≡ false → (a ≡ false) × (b ≡ false)
      split a b h = ground arith

  start-IsFound :
      (q : WitnessHeap) (touched : List ℕ)
      → source < n
      → IsHeap q.items × Perm q.items (record { node = source; dist = 0; hops = 0 } ∷ [])
      → IsFound (record { dist = set (replicate n max_u32) source 0; touched = touched; heap = q })
        × (effort
              (record { dist = set (replicate n max_u32) source 0; touched = touched; heap = q })
            ≤ n * max_u32)
  start-IsFound q touched inside (order, same) =
      let blank = replicate n max_u32 in
      let room : source < length blank = omega (arith, length-replicate n max_u32) in
      let entry = λ (v : ℕ). get!-set blank source v 0 room in
      let total = sum-set blank source 0 room in
      let start = get!-replicate n source max_u32 inside in
      let size = length-perm same in
      (
        record {
          size = rw length-set (length-replicate n max_u32);
          heap = order;
          odd = any_of-perm (odd (set blank source 0)) same ∙ ground (arith, entry source);
          ways = λ v h k. elim (ℕ_discrete source v) [
            | yes hit ↦
                let low : get! (set blank source 0) source ≡ 0 = ground (arith, entry source) in
                rw (← hit, low) here
            | no apart ↦
                let kept : get! (set blank source 0) v ≡ max_u32 =
                  ground (arith, entry v, get!-replicate n v max_u32 h) in
                absurd (omega arith)
          ];
        },
        omega (arith, sum-replicate n),
      )

  -- From a state that `reset` clears, a witness search ends, with any fuel above 2^32 per node, and
  -- without a panic. Then every finite label is the length of a way from the source that avoids
  -- the excluded node and the contracted ones.
  pub batch_witness_search-IsFound :
      (fuel : ℕ) (ws : WitnessState)
      → reset_state ws ≡ ok (new_witness_state n)
      → source < n
      → n * max_u32 < fuel
      → Ensures IsFound (batch_witness_search fuel ws out_adj source excluded max_weight contracted)
  unfolding batch_witness_search new_witness_state
  batch_witness_search-IsFound fuel ws clean inside enough =
      rw (clean, put-ok (replicate n max_u32) source 0 (omega (arith, length-replicate n max_u32)))
        (Ensures-bind
          (push-pushed out_adj source excluded contracted n max_weight few (record { items = [] })
            (record { node = source; dist = 0; hops = 0 }) (λ c p q. absurd (omega arith)))
          λ q p.
            let (found, small) = start-IsFound q _ inside p in
            witness_loop-IsFound fuel 0 _ found (omega arith))
