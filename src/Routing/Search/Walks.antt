-- ===== src/Routing/Search/Walks.antt =====
-- The walks that a search explores, and what a query asks of the graphs and of the seeded state.
use map_router.Base.{ℕ, ◌+◌, ◌≤◌, ◌<◌, ◌≡◌, true, arith}
use map_router.Array.{Zeroed-ℕ, get! }
use map_router.Graph.{ChGraph}
use map_router.Heap.Order.{IsHeap}
use map_router.Routing.MinHeap.{PqItem-Zeroed, PqItem-Keyed, max_u32}
use map_router.Routing.MinHeap.Entries.{has}
use map_router.Routing.QueryState.{Half, QueryState, no_node}
use map_router.Routing.QueryState.Reset.{IsClean}
use map_router.Routing.Search.{Upward, Search, fwd_graph, bwd_graph}
use map_router.Routing.Search.Relax.{label}
use map_router.Routing.Search.Edges.{IsUpward, IsEdge, half_range}

-- The walks in `g` from the nodes seeded in `h`, with their lengths as natural numbers.
pub data Reach (g : Upward) (h : Half) (n : ℕ) : ℕ → ℕ → Type 0 where
  seed : {v d : ℕ} → v < n → label h v ≡ d → d < max_u32 → Reach g h n v d
  walk :
      {u d v d' : ℕ} (e : ℕ)
      → Reach g h n u d
      → u < n
      → IsEdge g u e
      → v ≡ get! g.head e
      → d' ≡ d + get! g.weight e
      → Reach g h n v d'

-- Every seeded label is queued, and every queued entry is a finite distance of a node.
pub record IsSeeded (n : ℕ) (h : Half) : Type 0 where
  pub heap : IsHeap h.pq.items
  pub queued : (v : ℕ) → v < n → label h v < max_u32 → has v (label h v) h.pq.items ≡ true
  pub entries : (v d : ℕ) → has v d h.pq.items ≡ true → (v < n) × (d < max_u32) × (label h v ≤ d)

-- No walk is as long as half of what `uint32` holds, so no sum in the search wraps around.
abbrev pub IsShort : Upward → Half → ℕ → Type 0
IsShort g h n = (v d : ℕ) → Reach g h n v d → d < half_range

-- The result of the search over the walks `F` from the start and `B` from the end.
pub data IsShortest (F B : ℕ → ℕ → Type 0) (r : Search) : Type 0 where
  apart :
      r.best.mu ≡ max_u32
      → r.best.node ≡ no_node
      → ((v a b : ℕ) → F v a → ¬ B v b)
      → IsShortest F B r
  joined :
      (a b : ℕ)
      → F r.best.node a
      → B r.best.node b
      → r.best.mu ≡ a + b
      → ((v a' b' : ℕ) → F v a' → B v b' → r.best.mu ≤ a' + b')
      → IsShortest F B r

-- A certificate that walks are short: heights that every edge raises by at least its weight.
pub IsShort-of_heights :
    (g : Upward) (h : Half) (n : ℕ) (height : ℕ → ℕ)
    → ((v : ℕ) → v < n → label h v < max_u32 → label h v ≤ height v)
    → ((u e : ℕ) → u < n → IsEdge g u e → height u + get! g.weight e ≤ height (get! g.head e))
    → ((v : ℕ) → height v < half_range)
    → IsShort g h n
IsShort-of_heights g h n height base up top v d r = omega (arith, top v, below r)
  where
    below : {v d : ℕ} → Reach g h n v d → d ≤ height v
    below (seed {v} hv e f) = omega (arith, base v hv (omega arith))
    below (walk {u} e r hu edge ev ed) = rw ev (omega (arith, below r, up u e hu edge))

module _ {C : Type 0} (chg : ChGraph C) (n : ℕ) (qs : QueryState) where
  -- What a query needs: valid upward graphs, short walks, and a state seeded for the graph's size.
  pub record IsQuery : Type 0 where
    pub fwd_up : IsUpward n (fwd_graph chg)
    pub bwd_up : IsUpward n (bwd_graph chg)
    pub fwd_short : IsShort (fwd_graph chg) qs.fwd n
    pub bwd_short : IsShort (bwd_graph chg) qs.bwd n
    pub clean : IsClean n qs
    pub fwd_seeded : IsSeeded n qs.fwd
    pub bwd_seeded : IsSeeded n qs.bwd
