-- ===== src/Ch/Witness/Paths.antt =====
-- What a witness search finds: every label is the length of a way around the excluded node and the
-- contracted ones.
use map_router.Base.{
  ℕ, suc, ◌+◌, ◌≤◌, ◌<◌, ◌≡◌, ◌≢◌, refl, ◌∙◌, Bool, false, not, ◌&&◌, List, [], ◌∷◌, some, arith,
  ltb, leb, ◌==◌, length, length-set, set, get_elem?, any_of, any_of-perm, ℕ_discrete, Perm,
}
use map_router.Run.{Ensures, ensures, Ensures-bind, Ensures-mono, Ensures-if}
use map_router.Array.{Zeroed, Zeroed-ℕ, get!, at-ok, put-ok, get!-set, length-perm}
use map_router.Word.{u32_mod, add32, add32-eq}
use map_router.Heap.Order.{IsHeap}
use map_router.Heap.Queue.{push-IsHeap}
use map_router.Graph.Build.Fill.{Zeroed-Bool}
use map_router.Routing.MinHeap.{max_u32}
use map_router.Routing.Search.Relax.{sum, sum-set}
use map_router.Ch.WitnessHeap
use map_router.Ch.WitnessHeap.{
  WitnessHeap, WitnessHeapItem, WitnessHeapItem-Zeroed, WitnessHeapItem-Keyed,
}
use map_router.Ch.Witness.{
  AdjEntry, Adjacency, WitnessState, improve_label, relax_to, relax_neighbors,
}

instance abbrev pub Zeroed-entries : Zeroed (List AdjEntry)
Zeroed-entries = record { zero_value = [] }

module _ (out_adj : Adjacency) (source excluded : ℕ) (contracted : List Bool) where
  -- The ways from `source` with their lengths.
  pub data Way : ℕ → ℕ → Type 0 where
    here : Way source 0
    step :
        {u d v d' : ℕ} (i : ℕ) (e : AdjEntry)
        → Way u d
        → get_elem? (get! out_adj u) i ≡ some e
        → e.to ≢ excluded
        → get! contracted e.to ≡ false
        → v ≡ e.to
        → d' ≡ d + e.weight
        → Way v d'

  module _ (n max_weight : ℕ) (few : max_weight < max_u32) where
    -- An entry of the queue whose node does not exist, or whose distance is below its label or not
    -- finite.
    abbrev pub is_odd : List ℕ → WitnessHeapItem → Bool
    is_odd dist x = not (ltb x.node n && (leb (get! dist x.node) x.dist && ltb x.dist max_u32))

    -- The state of the search.
    pub record IsWitness (ws : WitnessState) : Type 0 where
      pub size : length ws.dist ≡ n
      pub heap : IsHeap ws.heap.items
      pub odd : any_of (is_odd ws.dist) ws.heap.items ≡ false
      pub ways : (v : ℕ) → v < n → get! ws.dist v < max_u32 → Way v (get! ws.dist v)

    -- Each new entry pays for itself by a smaller label.
    abbrev pub work : WitnessState → ℕ
    work ws = sum ws.dist + length ws.heap.items

    is_odd-lower :
        (dist : List ℕ) (v d : ℕ) (items : List WitnessHeapItem)
        → v < length dist
        → d ≤ get! dist v
        → any_of (is_odd dist) items ≡ false
        → any_of (is_odd (set dist v d)) items ≡ false
    is_odd-lower dist v d [] p q h = refl
    is_odd-lower dist v d (x ∷ items) p q h =
        ground (arith, is_odd-lower dist v d items p q, get!-set dist v x.node d p)

    -- What one relaxation does.
    abbrev pub Next : WitnessState → WitnessState → Type 0
    Next ws r = IsWitness r × (work r ≤ work ws)

    pub push-pushed :
        (h : WitnessHeap) (x : WitnessHeapItem)
        → IsHeap h.items
        → Ensures
            (λ q. IsHeap q.items × Perm q.items (x ∷ h.items))
            (WitnessHeap.push h x.node x.dist x.hops)
    unfolding WitnessHeap.push
    push-pushed h x s = Ensures-bind (push-IsHeap h.items x s) λ a p. ensures p

    improved-Next :
        (v d hops : ℕ) (ws : WitnessState) (touched : List ℕ) (q : WitnessHeap)
        → IsWitness ws
        → v < n
        → d < get! ws.dist v
        → d < max_u32
        → Way v d
        → IsHeap q.items × Perm q.items (record { node = v; dist = d; hops = hops } ∷ ws.heap.items)
        → Next ws (record { dist = set ws.dist v d; touched = touched; heap = q })
    improved-Next v d hops ws touched q w inside less finite way (order, same) =
        let room : v < length ws.dist = omega (arith, w.size) in
        let entry = λ (u : ℕ). get!-set ws.dist v u d room in
        let old = is_odd-lower ws.dist v d ws.heap.items room (omega arith) w.odd in
        let total = sum-set ws.dist v d room in
        let size = length-perm same in
        (
          record {
            size = rw length-set w.size;
            heap = order;
            odd = any_of-perm (is_odd (set ws.dist v d)) same ∙ ground (arith, entry v);
            ways = λ u h k. elim (ℕ_discrete v u) [
              | yes hit ↦
                  let low : get! (set ws.dist v d) v ≡ d = ground (arith, entry v) in
                  rw (← hit, low) way
              | no apart ↦
                  let kept : get! (set ws.dist v d) u ≡ get! ws.dist u = ground (arith, entry u) in
                  rw kept (w.ways u h (rw kept at k))
            ];
          },
          omega arith,
        )

    improve_label-Next :
        (v d hops : ℕ) (ws : WitnessState)
        → IsWitness ws
        → v < n
        → d < get! ws.dist v
        → d < max_u32
        → Way v d
        → Ensures (Next ws) (improve_label v d hops ws)
    unfolding improve_label
    improve_label-Next v d hops ws w inside less finite way =
        rw (at-ok ws.dist v (omega (arith, w.size)), put-ok ws.dist v d (omega (arith, w.size)))
          (Ensures-bind (push-pushed ws.heap (record { node = v; dist = d; hops = hops }) w.heap)
            (λ q p. ensures (improved-Next v d hops ws _ q w inside less finite way p)))

    -- Heads are nodes, and no sum of a distance in reach and a weight wraps around.
    pub record IsAdjacency : Type 0 where
      pub size : length out_adj ≡ n
      pub marks : length contracted ≡ n
      pub heads : (u i : ℕ) (e : AdjEntry) → get_elem? (get! out_adj u) i ≡ some e → e.to < n
      pub no_wrap :
          (u i : ℕ) (e : AdjEntry)
          → get_elem? (get! out_adj u) i ≡ some e
          → max_weight + e.weight < u32_mod

    module _ (adj : IsAdjacency) where
      relax_to-Next :
          (cur : WitnessHeapItem) (i : ℕ) (e : AdjEntry) (ws : WitnessState)
          → IsWitness ws
          → cur.dist ≤ max_weight
          → Way cur.node cur.dist
          → get_elem? (get! out_adj cur.node) i ≡ some e
          → e.to ≢ excluded
          → get! contracted e.to ≡ false
          → Ensures (Next ws) (relax_to max_weight cur e ws)
      unfolding relax_to
      relax_to-Next cur i e ws w near way there other active =
          let sum_ok : add32 cur.dist e.weight ≡ cur.dist + e.weight =
            add32-eq cur.dist e.weight (omega (arith, adj.no_wrap cur.node i e there)) in
          let inside = adj.heads cur.node i e there in
          rw (sum_ok, at-ok ws.dist e.to (omega (arith, w.size)))
            (Ensures-if (ltb max_weight (cur.dist + e.weight)) (λ far. ensures (w, omega arith))
              (λ reach.
                Ensures-if (ltb (cur.dist + e.weight) (get! ws.dist e.to))
                  (λ less.
                    improve_label-Next e.to (cur.dist + e.weight) (cur.hops + 1) ws w inside
                      (ground arith) (ground arith) (step i e way there other active refl refl))
                  (λ more. ensures (w, omega arith))))

      pub relax_neighbors-Next :
          (cur : WitnessHeapItem) (edges : List AdjEntry) (ws : WitnessState)
          → IsWitness ws
          → cur.dist ≤ max_weight
          → Way cur.node cur.dist
          → ((i : ℕ) (e : AdjEntry)
              → get_elem? edges i ≡ some e
              → (j : ℕ) × (get_elem? (get! out_adj cur.node) j ≡ some e))
          → Ensures (Next ws) (relax_neighbors max_weight excluded contracted cur edges ws)
      unfolding relax_neighbors
      relax_neighbors-Next cur [] ws w near way there = ensures (w, omega arith)
      relax_neighbors-Next cur (e ∷ edges) ws w near way there =
          let (i, listed) = there 0 e refl in
          let inside = adj.heads cur.node i e listed in
          Ensures-bind {P = Next ws}
            (Ensures-if (e.to == excluded) (λ same. ensures (w, omega arith))
              (λ other. rw (at-ok contracted e.to (omega (arith, adj.marks))) (
                Ensures-if (get! contracted e.to) (λ gone. ensures (w, omega arith))
                  (λ active.
                    relax_to-Next cur i e ws w near way listed (λ same. absurd (ground arith))
                      active))))
            (λ next (v, le).
              Ensures-mono (λ r (x, le2). (x, omega arith))
                (relax_neighbors-Next cur edges next v near way (λ j d h. there (suc j) d h)))
