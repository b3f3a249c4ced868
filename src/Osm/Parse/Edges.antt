-- ===== src/Osm/Parse/Edges.antt =====
-- What every edge that the edge loop of `Parse` builds satisfies.
use map_router.Base.{
  ℕ, ◌<◌, ◌≡◌, inl, inr, refl, Bool, true, false, not, ◌&&◌, ◌||◌, List, [], ◌∷◌, ◌++◌, Option,
  none, some, arith, if◌then◌else◌, Bool-cases,
}
use map_router.Float.{Float}
use map_router.Osm.Parse.{
  RawEdge, WayInfo, Scene, is_member, is_zero, box_contains, locate, compute_weight_ms,
  compute_weight_distance_cm, pair_edges, located_edges, both, edges_if, segment_edges, way_edges,
  build_edges,
}

abbrev pub All {ℓ κ} : {A : Type ℓ} → (A → Type κ) → List A → Type κ
All P [] = Unit
All P (x ∷ xs) = P x × All P xs

pub All-append {ℓ κ} :
    {A : Type ℓ} (P : A → Type κ) (xs ys : List A) → All P xs → All P ys → All P (xs ++ ys)
All-append P [] ys h k = k
All-append P (x ∷ xs) ys (p, h) k = (p, All-append P xs ys h k)

module _ (f : Float) (s : Scene f) (known : ℕ → Bool) where
  -- The end of an edge has coordinates, and they lie in the box if one is set.
  abbrev pub IsInside : ℕ → Type 0
  IsInside id =
      (lat : f.F) × (lon : f.F) × (locate f id s.nodes ≡ some (lat, lon))
      × (is_zero f s.opts.bbox || box_contains f s.opts.bbox lat lon ≡ true)

  pub record IsPlaced (e : RawEdge f) : Type 0 where
    pub from_inside : IsInside e.from_node_id
    pub to_inside : IsInside e.to_node_id
    pub from_known : known e.from_node_id ≡ true
    pub to_known : known e.to_node_id ≡ true
    pub weight_pos : 0 < e.weight
    pub barrier :
        is_member e.from_node_id s.barrier_nodes || is_member e.to_node_id s.barrier_nodes ≡ true
        → e.restricted ≡ true

  compute_weight_ms_pos : (m k : f.F) → 0 < compute_weight_ms f m k
  unfolding compute_weight_ms
  compute_weight_ms_pos m k = ground arith

  compute_weight_distance_cm_pos : (m : f.F) → 0 < compute_weight_distance_cm f m
  unfolding compute_weight_distance_cm
  compute_weight_distance_cm_pos m = ground arith

  All-if :
      (b : Bool) (xs : List (RawEdge f)) → All IsPlaced xs → All IsPlaced (if b then xs else [])
  All-if true xs h = h
  All-if false xs h = tt

  pair_edges-IsPlaced :
      (w : WayInfo f) (a b weight : ℕ) (restricted : Bool)
      → IsInside a
      → IsInside b
      → known a ≡ true
      → known b ≡ true
      → 0 < weight
      → (is_member a s.barrier_nodes || is_member b s.barrier_nodes ≡ true → restricted ≡ true)
      → All IsPlaced (pair_edges f w a b weight restricted)
  unfolding pair_edges
  pair_edges-IsPlaced w a b weight restricted ia ib ka kb pos bar =
      All-append IsPlaced _ _
        (All-if w.forward _ (
          record {
            from_inside = ia;
            to_inside = ib;
            from_known = ka;
            to_known = kb;
            weight_pos = pos;
            barrier = bar;
          },
          tt,
        ))
        (All-if w.backward _ (
          record {
            from_inside = ib;
            to_inside = ia;
            from_known = kb;
            to_known = ka;
            weight_pos = pos;
            barrier = λ m. bar (ground arith);
          },
          tt,
        ))

  weight_pos :
      (d : Bool) (m k : f.F)
      → 0 < (if d then compute_weight_distance_cm f m else compute_weight_ms f m k)
  weight_pos true m k = compute_weight_distance_cm_pos m
  weight_pos false m k = compute_weight_ms_pos m k

  located_edges-IsPlaced :
      (w : WayInfo f) (a b : ℕ) (p q : f.F × f.F)
      → locate f a s.nodes ≡ some p
      → locate f b s.nodes ≡ some q
      → known a ≡ true
      → known b ≡ true
      → All IsPlaced (located_edges f s w a b p q)
  unfolding located_edges
  located_edges-IsPlaced w a b (p, p') (q, q') ea eb ka kb =
      elim (Bool-cases (
        not (is_zero f s.opts.bbox)
        && (not (box_contains f s.opts.bbox p p') || not (box_contains f s.opts.bbox q q')))) [
          | inl out ↦ rw out tt
          | inr kept ↦ rw kept (
              pair_edges-IsPlaced w a b _ _ (p, p', ea, ground arith) (q, q', eb, ground arith) ka
                kb (weight_pos s.opts.distance _ w.speed_kmh) (λ m. ground arith))
        ]

  segment_edges-IsPlaced :
      (w : WayInfo f) (a b : ℕ)
      → known a ≡ true
      → known b ≡ true
      → All IsPlaced (segment_edges f s w a b)
  unfolding segment_edges both edges_if
  segment_edges-IsPlaced w a b ka kb = by_ends (locate f a s.nodes) (locate f b s.nodes) refl refl
    where
      by_ends :
          (p q : Option (f.F × f.F))
          → locate f a s.nodes ≡ p
          → locate f b s.nodes ≡ q
          → All IsPlaced (edges_if f s w a b (both f p q))
      by_ends none q ep eq = tt
      by_ends (some p) none ep eq = tt
      by_ends (some p) (some q) ep eq = located_edges-IsPlaced w a b p q ep eq ka kb

  abbrev pub AllKnown : List ℕ → Type 0
  AllKnown ids = All (λ id. known id ≡ true) ids

  way_edges-IsPlaced :
      (w : WayInfo f) (ids : List ℕ) → AllKnown ids → All IsPlaced (way_edges f s w ids)
  unfolding way_edges
  way_edges-IsPlaced w [] k = tt
  way_edges-IsPlaced w (a ∷ []) k = tt
  way_edges-IsPlaced w (a ∷ b ∷ rest) (ka, (kb, k)) =
      All-append IsPlaced _ _ (segment_edges-IsPlaced w a b ka kb)
        (way_edges-IsPlaced w (b ∷ rest) (kb, k))

  -- Every edge that the loop builds joins two located nodes inside the box, weighs at least 1, and
  -- is restricted if one of its ends is a barrier.
  pub build_edges-IsPlaced :
      (ws : List (WayInfo f))
      → All (λ w. AllKnown w.node_ids) ws
      → All IsPlaced (build_edges f s ws)
  unfolding build_edges
  build_edges-IsPlaced [] k = tt
  build_edges-IsPlaced (w ∷ ws) (kw, k) =
      All-append IsPlaced _ _ (way_edges-IsPlaced w w.node_ids kw) (build_edges-IsPlaced ws k)
