-- ===== src/Routing/Search/Round.antt =====
-- One half-iteration of the search: what popping an entry and settling its node keeps.
use map_router.Base.{ℕ, ◌+◌, ◌≤◌, ◌<◌, ◌≡◌, ◌⊎◌, inl, inr, true, arith, ltb, Bool-cases}
use map_router.Array.{Zeroed-ℕ, get! }
use map_router.Word.{u32_mod, add32, add32-eq}
use map_router.Routing.MinHeap.{PqItem-Zeroed, PqItem-Keyed, max_u32}
use map_router.Routing.MinHeap.Entries.{has}
use map_router.Routing.QueryState.{Half, no_node}
use map_router.Routing.Search.{Upward, Meeting, meet}
use map_router.Routing.Search.Relax.{label}
use map_router.Routing.Search.Edges.{IsEdge}

-- The edges of `v` do not improve any label.
abbrev pub IsExpanded : Upward → Half → ℕ → Type 0
IsExpanded g h v = (e : ℕ) → IsEdge g v e → label h (get! g.head e) ≤ label h v + get! g.weight e

-- Every reached node is still queued at its label, or its edges have been relaxed from it.
abbrev pub IsPending : ℕ → Upward → Half → Type 0
IsPending n g h =
    (v : ℕ) → v < n → label h v < max_u32 → (has v (label h v) h.pq.items ≡ true) ⊎ IsExpanded g h v

-- Every node reached from both ends is still queued in one direction, or `mu` accounts for it.
abbrev pub IsMet : ℕ → Half → Half → ℕ → Type 0
IsMet n own other mu =
    (v : ℕ)
    → v < n
    → label own v < max_u32
    → label other v < max_u32
    → (has v (label own v) own.pq.items ≡ true)
      ⊎ (has v (label other v) other.pq.items ≡ true)
      ⊎ (mu ≤ label own v + label other v)

-- `mu` is the length of a walk from both ends to the meeting node, unless there is none yet.
abbrev pub IsMeeting : (ℕ → ℕ → Type 0) → (ℕ → ℕ → Type 0) → ℕ → Meeting → Type 0
IsMeeting R R' n best =
    (best.mu ≡ max_u32) × (best.node ≡ no_node)
    ⊎ (best.node < n)
      × (best.mu < max_u32)
      × ((a : ℕ) × (b : ℕ) × R best.node a × R' best.node b × (best.mu ≡ a + b))

pub meet-le : (u d l : ℕ) (best : Meeting) → (meet u d l best).mu ≤ best.mu
unfolding meet
meet-le u d l best = ground arith

pub meet-le_sum :
    (u d l : ℕ) (best : Meeting) → l < max_u32 → d + l < u32_mod → (meet u d l best).mu ≤ d + l
unfolding meet
meet-le_sum u d l best h f = ground (arith, add32-eq d l f)

pub meet-IsMeeting :
    (R R' : ℕ → ℕ → Type 0) (n u d l : ℕ) (best : Meeting)
    → u < n
    → R u d
    → (l < max_u32 → R' u l × (d + l < u32_mod))
    → best.mu ≤ max_u32
    → IsMeeting R R' n best
    → IsMeeting R R' n (meet u d l best)
unfolding meet
meet-IsMeeting R R' n u d l best hu r r' le m = elim (Bool-cases (ltb l max_u32)) [
  | inr out ↦ rw out m
  | inl there ↦
      let (r'', f) = r' (ground arith) in
      elim (Bool-cases (ltb (add32 d l) best.mu)) [
        | inr worse ↦ rw (there, worse) m
        | inl better ↦ rw (there, better) (inr (hu, ground arith, (d, l, r, r'', add32-eq d l f)))
      ]
]
