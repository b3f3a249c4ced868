-- ===== src/Routing/Seed/Candidates.antt =====
-- The seeds of a query's candidates, and the search that starts from them.
use map_router.Base.{ℕ, ◌≤◌, ◌<◌, ◌≡◌, ◌⊎◌, inl, inr, List, [], ◌∷◌, length}
use map_router.Run.{ok, Ensures, ensures, Ensures-bind, Ensures-mono}
use map_router.Array.{Zeroed-ℕ, get!, at-ok}
use map_router.Word.{add32}
use map_router.Float.{Float}
use map_router.Graph.{Graph}
use map_router.Graph.Csr.Valid.{IsCsr}
use map_router.Routing.MinHeap.{max_u32}
use map_router.Routing.QueryState.{QueryState, no_node}
use map_router.Routing.QueryState.Reset.{IsClean}
use map_router.Routing.Search.Walks.{IsSeeded}
use map_router.Routing.Snap.{SnapResult}
use map_router.Routing.Seed.{
  access_penalty, cost_to_u, cost_to_v, seed_forward, seed_backward, seed_forward_penalty,
  seed_backward_penalty, seed_all_forward, seed_all_backward,
}
use map_router.Routing.Seed.Step.{forward, backward, forward-IsSeeding, backward-IsSeeding}
use map_router.Routing.Seed.Seeded.{
  TakesIn, TakesIn-none, TakesIn-then, HasEdge, PairSeed, pair-TakesIn,
}

module _ (f : Float) (n : ℕ) (g : Graph f.F) where
  -- The costs of a candidate at its two ends, with an access penalty.
  abbrev pub at_v : SnapResult f → ℕ → ℕ
  at_v c pen = add32 (cost_to_v f (get! g.weight c.edge_idx) c) pen

  abbrev pub at_u : SnapResult f → ℕ → ℕ
  at_u c pen = add32 (cost_to_u f (get! g.weight c.edge_idx) c) pen

  -- A candidate on an edge of the graph, whose costs `uint32` holds.
  pub record IsCandidate (c : SnapResult f) : Type 0 where
    pub edge : c.edge_idx < length g.weight
    pub node_u : c.node_u < n
    pub node_v : c.node_v < n
    pub penalty : ℕ
    pub priced : access_penalty f g c ≡ ok penalty
    pub finite_v : at_v c penalty < max_u32
    pub finite_u : at_u c penalty < max_u32

  abbrev pub AllCandidates : List (SnapResult f) → Type 0
  AllCandidates [] = Unit
  AllCandidates (c ∷ cs) = IsCandidate c × AllCandidates cs

  -- The seeds of one candidate with a penalty: from the start, the road leads on to `node_v`, and
  -- back to `node_u` if it has a reverse edge; to the end, it comes from `node_u`, or from `node_v`.
  abbrev pub ForwardSeed : SnapResult f → ℕ → ℕ → ℕ → Type 0
  ForwardSeed c pen =
      PairSeed (HasEdge g.first_out g.head c.node_v c.node_u) c.node_v (at_v c pen) c.node_u
        (at_u c pen)

  abbrev pub BackwardSeed : SnapResult f → ℕ → ℕ → ℕ → Type 0
  BackwardSeed c pen =
      PairSeed (HasEdge g.first_out g.head c.node_v c.node_u) c.node_u (at_u c pen) c.node_v
        (at_v c pen)

  -- The seeds of all candidates, each with its access penalty.
  abbrev pub ForwardSeeds : (cs : List (SnapResult f)) → AllCandidates cs → ℕ → ℕ → Type 0
  ForwardSeeds [] k v d = ⊥
  ForwardSeeds (c ∷ cs) (k, ks) v d = ForwardSeed c k.penalty v d ⊎ ForwardSeeds cs ks v d

  abbrev pub BackwardSeeds : (cs : List (SnapResult f)) → AllCandidates cs → ℕ → ℕ → Type 0
  BackwardSeeds [] k v d = ⊥
  BackwardSeeds (c ∷ cs) (k, ks) v d = BackwardSeed c k.penalty v d ⊎ BackwardSeeds cs ks v d

  module _ (csr : IsCsr g.first_out g.head n) (small : length g.head ≤ no_node) where
    pub seed_forward_penalty-TakesIn :
        (c : SnapResult f) (pen : ℕ) (qs : QueryState)
        → c.edge_idx < length g.weight
        → c.node_u < n
        → c.node_v < n
        → at_v c pen < max_u32
        → at_u c pen < max_u32
        → IsClean n qs
        → IsSeeded n qs.fwd
        → Ensures (TakesIn forward n qs (ForwardSeed c pen)) (seed_forward_penalty f g c pen qs)
    unfolding seed_forward_penalty
    seed_forward_penalty-TakesIn c pen qs he hu hv fv fu clean seeded =
        rw (at-ok g.weight c.edge_idx he) (
          pair-TakesIn forward forward-IsSeeding n csr small qs c.node_v (at_v c pen) c.node_u
            (at_u c pen) c.node_v c.node_u clean seeded (hv, fv) (hu, fu) hv)

    pub seed_backward_penalty-TakesIn :
        (c : SnapResult f) (pen : ℕ) (qs : QueryState)
        → c.edge_idx < length g.weight
        → c.node_u < n
        → c.node_v < n
        → at_v c pen < max_u32
        → at_u c pen < max_u32
        → IsClean n qs
        → IsSeeded n qs.bwd
        → Ensures (TakesIn backward n qs (BackwardSeed c pen)) (seed_backward_penalty f g c pen qs)
    unfolding seed_backward_penalty
    seed_backward_penalty-TakesIn c pen qs he hu hv fv fu clean seeded =
        rw (at-ok g.weight c.edge_idx he) (
          pair-TakesIn backward backward-IsSeeding n csr small qs c.node_u (at_u c pen) c.node_v
            (at_v c pen) c.node_v c.node_u clean seeded (hu, fu) (hv, fv) hv)

    -- Seeding the start's candidates makes every forward label the least of what it was and the
    -- seeds of the candidates at that node, and leaves the backward half alone.
    pub seed_all_forward-TakesIn :
        (cs : List (SnapResult f)) (k : AllCandidates cs) (qs : QueryState)
        → IsClean n qs
        → IsSeeded n qs.fwd
        → Ensures (TakesIn forward n qs (ForwardSeeds cs k)) (seed_all_forward f g cs qs)
    unfolding seed_all_forward seed_forward
    seed_all_forward-TakesIn [] k qs clean seeded =
        ensures (TakesIn-none forward n qs _ clean seeded λ v d h. h)
    seed_all_forward-TakesIn (c ∷ cs) (k, ks) qs clean seeded = rw k.priced (
        Ensures-bind
          (seed_forward_penalty-TakesIn c k.penalty qs k.edge k.node_u k.node_v k.finite_v
            k.finite_u clean seeded)
          (λ a p.
            Ensures-mono
              (λ r q. TakesIn-then forward n (λ v d h. inl h) (λ v d h. inr h) (λ v d h. h) p q)
              (seed_all_forward-TakesIn cs ks a p.clean p.seeded)))

    -- The same of the end's candidates and the backward half.
    pub seed_all_backward-TakesIn :
        (cs : List (SnapResult f)) (k : AllCandidates cs) (qs : QueryState)
        → IsClean n qs
        → IsSeeded n qs.bwd
        → Ensures (TakesIn backward n qs (BackwardSeeds cs k)) (seed_all_backward f g cs qs)
    unfolding seed_all_backward seed_backward
    seed_all_backward-TakesIn [] k qs clean seeded =
        ensures (TakesIn-none backward n qs _ clean seeded λ v d h. h)
    seed_all_backward-TakesIn (c ∷ cs) (k, ks) qs clean seeded = rw k.priced (
        Ensures-bind
          (seed_backward_penalty-TakesIn c k.penalty qs k.edge k.node_u k.node_v k.finite_v
            k.finite_u clean seeded)
          (λ a p.
            Ensures-mono
              (λ r q. TakesIn-then backward n (λ v d h. inl h) (λ v d h. inr h) (λ v d h. h) p q)
              (seed_all_backward-TakesIn cs ks a p.clean p.seeded)))
