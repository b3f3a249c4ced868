-- ===== src/Routing/Engine/Query.antt =====
-- A query as a whole: the candidates seed a fresh state, and the search from it finds the cheapest
-- way from a start candidate to an end candidate over the contracted graph.
use map_router.Base.{
  ℕ, ◌+◌, ◌≤◌, ◌<◌, ◌≡◌, ◌⊎◌, inl, inr, refl, false, List, length, arith, length-replicate,
}
use map_router.Run.{ok, Ensures, Ensures-bind, Ensures-mono, Ensures-value}
use map_router.Array.{Zeroed-ℕ, get!, get!-replicate}
use map_router.Float.{Float}
use map_router.Graph.Csr.Valid.{IsCsr}
use map_router.Routing.MinHeap.{max_u32}
use map_router.Routing.QueryState.{Half, QueryState, no_node, new_half, new_query_state}
use map_router.Routing.QueryState.Reset.{IsClean, IsSized, IsUntouched}
use map_router.Routing.Search.{Upward, Search, fwd_graph, bwd_graph, start_search, run_ch_dijkstra}
use map_router.Routing.Search.Relax.{label}
use map_router.Routing.Search.Edges.{IsUpward, IsEdge, half_range}
use map_router.Routing.Search.Walks.{Reach, seed, walk, IsSeeded, IsShortest, apart, joined}
use map_router.Routing.Search.Loop.{total_work}
use map_router.Routing.Search.Correct.{run_ch_dijkstra-IsShortest}
use map_router.Routing.Snap.{SnapResult}
use map_router.Routing.Seed.Candidates.{
  AllCandidates, ForwardSeeds, BackwardSeeds, seed_all_forward-TakesIn, seed_all_backward-TakesIn,
}
use map_router.Routing.Engine.{Engine, seed_query}

-- The walks in `g` that begin with a seed of the family `S`, with their lengths.
pub data Walk (g : Upward) (S : ℕ → ℕ → Type 0) (n : ℕ) : ℕ → ℕ → Type 0 where
  begin : {v d : ℕ} → v < n → S v d → Walk g S n v d
  go_on :
      {u d v d' : ℕ} (e : ℕ)
      → Walk g S n u d
      → u < n
      → IsEdge g u e
      → v ≡ get! g.head e
      → d' ≡ d + get! g.weight e
      → Walk g S n v d'

-- Walks are short under heights that bound the seeds and that every edge raises by its weight.
pub Walk-short :
    (g : Upward) (S : ℕ → ℕ → Type 0) (n : ℕ) (height : ℕ → ℕ)
    → ((v d : ℕ) → S v d → d ≤ height v)
    → ((u e : ℕ) → u < n → IsEdge g u e → height u + get! g.weight e ≤ height (get! g.head e))
    → ((v : ℕ) → height v < half_range)
    → (v d : ℕ) → Walk g S n v d
    → d < half_range
Walk-short g S n height base up top v d w = omega (arith, top v, low w)
  where
    low : {v d : ℕ} → Walk g S n v d → d ≤ height v
    low (begin {v} {d} hv s) = base v d s
    low (go_on {u} e w hu edge ev ed) = rw ev (omega (arith, low w, up u e hu edge))

new_query_state-IsClean : (n : ℕ) → IsClean n (new_query_state n)
unfolding new_query_state
new_query_state-IsClean n =
    let sized : IsSized n (new_half n) = record {
      dists = length-replicate n max_u32;
      preds = length-replicate n no_node;
    } in
    let fresh : (v : ℕ) → v < n → IsUntouched (new_half n) v =
      λ v h. record { dist = get!-replicate n v max_u32 h; pred = get!-replicate n v no_node h } in
    record {
      sized_fwd = sized;
      sized_bwd = sized;
      tracked = record {
        inside = λ v h. cc;
        fresh_own = λ v h k. fresh v h;
        fresh_other = λ v h k. fresh v h;
      };
    }

new_half-IsSeeded : (n : ℕ) → IsSeeded n (new_half n)
new_half-IsSeeded n = record {
  heap = λ c p q. absurd (omega arith);
  queued = λ v h k. absurd (omega (arith, get!-replicate n v max_u32 h));
  entries = λ v d h. cc;
}

-- A finite label that was infinite before is a seed.
from_blank :
    (n v l : ℕ) (S : ℕ → ℕ → Type 0)
    → v < n
    → l < max_u32
    → (l ≡ label (new_half n) v) ⊎ S v l
    → S v l
from_blank n v l S h k (inl same) = absurd (omega (arith, get!-replicate n v max_u32 h))
from_blank n v l S h k (inr s) = s

-- The state `b` holds the seeds of the families `S` and `T`.
pub record HoldsSeeds (n : ℕ) (S T : ℕ → ℕ → Type 0) (b : QueryState) : Type 0 where
  pub clean : IsClean n b
  pub fwd_seeded : IsSeeded n b.fwd
  pub bwd_seeded : IsSeeded n b.bwd
  pub fwd_least : (v d : ℕ) → S v d → label b.fwd v ≤ d
  pub fwd_from : (v : ℕ) → v < n → label b.fwd v < max_u32 → S v (label b.fwd v)
  pub bwd_least : (v d : ℕ) → T v d → label b.bwd v ≤ d
  pub bwd_from : (v : ℕ) → v < n → label b.bwd v < max_u32 → T v (label b.bwd v)

module _ (f : Float) (n : ℕ) (e : Engine f) (csr : IsCsr e.orig_graph.first_out e.orig_graph.head n)
    (small : length e.orig_graph.head ≤ no_node) (starts : List (SnapResult f))
    (start_ok : AllCandidates f n e.orig_graph starts) (ends : List (SnapResult f))
    (end_ok : AllCandidates f n e.orig_graph ends) where
  abbrev pub Starts : ℕ → ℕ → Type 0
  Starts = ForwardSeeds f n e.orig_graph starts start_ok

  abbrev pub Ends : ℕ → ℕ → Type 0
  Ends = BackwardSeeds f n e.orig_graph ends end_ok

  pub seed_query-HoldsSeeds :
      Ensures (HoldsSeeds n Starts Ends) (seed_query f e starts ends (new_query_state n))
  unfolding seed_query new_query_state
  seed_query-HoldsSeeds =
      Ensures-bind
        (seed_all_forward-TakesIn f n e.orig_graph csr small starts start_ok _
          (new_query_state-IsClean n) (new_half-IsSeeded n))
        (λ a p.
          Ensures-mono
            (λ b q. record {
              clean = q.clean;
              fwd_seeded = rw q.other_kept p.seeded;
              bwd_seeded = q.seeded;
              fwd_least = λ v d h. rw q.other_kept (p.least v d h);
              fwd_from = λ v h k. from_blank n v _ Starts h k (rw q.other_kept (p.from v));
              bwd_least = q.least;
              bwd_from = λ v h k. from_blank n v _ Ends h k (rw p.other_kept at (q.from v));
            })
            (seed_all_backward-TakesIn f n e.orig_graph csr small ends end_ok a p.clean
              (rw p.other_kept (new_half-IsSeeded n))))

module _ (n : ℕ) (g : Upward) (up : IsUpward n g) (S : ℕ → ℕ → Type 0) (h : Half)
    (least : (v d : ℕ) → S v d → label h v ≤ d)
    (from : (v : ℕ) → v < n → label h v < max_u32 → S v (label h v)) where
  Reach-Walk : {v d : ℕ} → Reach g h n v d → Walk g S n v d
  Reach-Walk (seed {v} {d} hv same k) = begin hv (rw same at (from v hv (rw same k)))
  Reach-Walk (walk e r hu edge ev ed) = go_on e (Reach-Walk r) hu edge ev ed

  -- The state holds a walk that is no longer.
  Walk-Reach :
      ((v d : ℕ) → Walk g S n v d → d < half_range)
      → {v d : ℕ} → Walk g S n v d
      → (d' : ℕ) × Reach g h n v d' × (d' ≤ d)
  Walk-Reach short (begin {v} {d} hv s) =
      let low = least v d s in
      (label h v, seed hv refl (omega (arith, short v d (begin hv s))), low)
  Walk-Reach short (go_on e w hu edge ev ed) =
      let (d', r, low) = Walk-Reach short w in
      (d' + get! g.weight e, walk e r hu edge ev refl, omega arith)

module _ (n : ℕ) (fg bg : Upward) (fup : IsUpward n fg) (bup : IsUpward n bg) (S T : ℕ → ℕ → Type 0)
    (b : QueryState) (holds : HoldsSeeds n S T b)
    (fwd_short : (v d : ℕ) → Walk fg S n v d → d < half_range)
    (bwd_short : (v d : ℕ) → Walk bg T n v d → d < half_range) where
  Walk-IsShortest :
      (r : Search)
      → IsShortest (Reach fg b.fwd n) (Reach bg b.bwd n) r
      → IsShortest (Walk fg S n) (Walk bg T n) r
  Walk-IsShortest r (apart none_yet no_node none) = apart none_yet no_node λ v c d x y.
      let (c', x', _) = Walk-Reach n fg fup S b.fwd holds.fwd_least holds.fwd_from fwd_short x in
      let (d', y', _) = Walk-Reach n bg bup T b.bwd holds.bwd_least holds.bwd_from bwd_short y in
      none v c' d' x' y'
  Walk-IsShortest r (joined a a' x y e low) =
      joined a a' (Reach-Walk n fg fup S b.fwd holds.fwd_least holds.fwd_from x)
        (Reach-Walk n bg bup T b.bwd holds.bwd_least holds.bwd_from y) e
        λ v c d x y.
          let (c', x', cl) =
            Walk-Reach n fg fup S b.fwd holds.fwd_least holds.fwd_from fwd_short x in
          let (d', y', dl) =
            Walk-Reach n bg bup T b.bwd holds.bwd_least holds.bwd_from bwd_short y in
          omega (arith, low v c' d' x' y')

module _ (f : Float) (n : ℕ) (e : Engine f) (csr : IsCsr e.orig_graph.first_out e.orig_graph.head n)
    (small : length e.orig_graph.head ≤ no_node) (fup : IsUpward n (fwd_graph e.chg))
    (bup : IsUpward n (bwd_graph e.chg)) (starts : List (SnapResult f))
    (start_ok : AllCandidates f n e.orig_graph starts) (ends : List (SnapResult f))
    (end_ok : AllCandidates f n e.orig_graph ends) where
  abbrev pub StartWalk : ℕ → ℕ → Type 0
  StartWalk = Walk (fwd_graph e.chg) (ForwardSeeds f n e.orig_graph starts start_ok) n

  abbrev pub EndWalk : ℕ → ℕ → Type 0
  EndWalk = Walk (bwd_graph e.chg) (BackwardSeeds f n e.orig_graph ends end_ok) n

  -- On valid graphs, for candidates on the graph's edges and walks that are short of 2^31, seeding
  -- a fresh state ends, and the search from it, if nobody cancels it and with any fuel above its
  -- work, ends with the least sum of two walks that meet: one in the forward graph from a start candidate, one in the
  -- backward graph from an end candidate, each with its candidate's partial edge and access
  -- penalty. If no walks meet, it ends without a meeting node.
  pub query-IsShortest :
      ((v d : ℕ) → StartWalk v d → d < half_range)
      → ((v d : ℕ) → EndWalk v d → d < half_range)
      → (b : QueryState) × (seed_query f e starts ends (new_query_state n) ≡ ok b)
        × ((fuel : ℕ)
            → total_work (start_search b) < fuel
            → Ensures (IsShortest StartWalk EndWalk) (run_ch_dijkstra fuel e.chg (λ _. false) b))
  query-IsShortest fwd_short bwd_short =
      let fg = fwd_graph e.chg in
      let bg = bwd_graph e.chg in
      let (b, ended, holds) =
        Ensures-value (seed_query-HoldsSeeds f n e csr small starts start_ok ends end_ok) in
      (
        b,
        ended,
        λ fuel enough.
            Ensures-mono (Walk-IsShortest n fg bg fup bup _ _ b holds fwd_short bwd_short) (
              run_ch_dijkstra-IsShortest e.chg n b fuel
                (record {
                  fwd_up = fup;
                  bwd_up = bup;
                  fwd_short = λ v d r.
                      fwd_short v d (Reach-Walk n fg fup _ b.fwd holds.fwd_least holds.fwd_from r);
                  bwd_short = λ v d r.
                      bwd_short v d (Reach-Walk n bg bup _ b.bwd holds.bwd_least holds.bwd_from r);
                  clean = holds.clean;
                  fwd_seeded = holds.fwd_seeded;
                  bwd_seeded = holds.bwd_seeded;
                })
                enough),
      )
