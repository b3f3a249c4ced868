-- ===== src/Graph/Build/Compact.antt =====
-- The compact edges of `Build`: they are the parsed edges under the numbering, and sorting them
-- makes their sources ascend.
use map_router.Base.{
  ℕ, zero, suc, ◌<◌, ◌≤◌, ◌≡◌, refl, ap, Bool, false, not, ◌&&◌, ◌||◌, List, [], ◌∷◌, some, map,
  arith, ltb, ◌==◌, if◌then◌else◌, length, get_elem?, any_of,
}
use map_router.Array.{Zeroed-ℕ, get! }
use map_router.Float.{Float}
use map_router.Sort.{IsOrdered}
use map_router.Osm.Parse.{RawEdge}
use map_router.Graph.Rows.Count.{AllBelow}
use map_router.Graph.Rows.Sorted.{IsAscending}
use map_router.Graph.Build.{Numbering, CompactEdge, compact_edge, compact_less}
use map_router.Graph.Build.Nodes.{IsNumbered, IsKnown-index, AllKnown}

module _ {ℓ} {A : Type ℓ} where
  pub get_elem?-any_of :
      (test : A → Bool) (xs : List A) (i : ℕ) (x : A)
      → any_of test xs ≡ false
      → get_elem? xs i ≡ some x
      → test x ≡ false
  get_elem?-any_of test [] i x h e = cc
  get_elem?-any_of test (y ∷ xs) zero x h e =
      let same : y ≡ x = cc in rw (← same) (left (test y) (any_of test xs) h)
    where
      left : (a b : Bool) → a || b ≡ false → a ≡ false
      left a b h = ground arith
  get_elem?-any_of test (y ∷ xs) (suc i) x h e = get_elem?-any_of test xs i x (ground arith) e

  pub get_elem?-some : (xs : List A) (i : ℕ) → i < length xs → (x : A) × (get_elem? xs i ≡ some x)
  get_elem?-some [] i p = absurd (omega arith)
  get_elem?-some (x ∷ xs) zero p = (x, refl)
  get_elem?-some (x ∷ xs) (suc i) p = get_elem?-some xs i (omega arith)

  pub get_elem?-lt : (xs : List A) (i : ℕ) (x : A) → get_elem? xs i ≡ some x → i < length xs
  get_elem?-lt [] i x e = cc
  get_elem?-lt (y ∷ xs) zero x e = omega arith
  get_elem?-lt (y ∷ xs) (suc i) x e = omega (arith, get_elem?-lt xs i x e)

  pub length-map {κ} : {B : Type κ} (h : A → B) (xs : List A) → length (map h xs) ≡ length xs
  length-map h [] = refl
  length-map h (x ∷ xs) = ap suc (length-map h xs)

  pub get!-map :
      (h : A → ℕ) (xs : List A) (i : ℕ) (x : A) → get_elem? xs i ≡ some x → get! (map h xs) i ≡ h x
  unfolding get!
  get!-map h [] i x e = cc
  get!-map h (y ∷ xs) zero x e = let same : y ≡ x = cc in ap h same
  get!-map h (y ∷ xs) (suc i) x e = get!-map h xs i x e

module _ (f : Float) where
  -- An edge that names a node which does not exist.
  abbrev pub is_outside : ℕ → CompactEdge f → Bool
  is_outside n c = not (ltb c.from n && ltb c.to n)

  abbrev pub sources : List (CompactEdge f) → List ℕ
  sources cs = map (λ c. c.from) cs

  pub sources-AllBelow :
      (n : ℕ) (cs : List (CompactEdge f))
      → any_of (is_outside n) cs ≡ false
      → AllBelow n (sources cs)
  sources-AllBelow n [] h = tt
  sources-AllBelow n (c ∷ cs) h =
      let (here, rest) = parts c.from c.to (any_of (is_outside n) cs) h in
      (here, sources-AllBelow n cs rest)
    where
      parts : (a b : ℕ) (r : Bool) → not (ltb a n && ltb b n) || r ≡ false → (a < n) × (r ≡ false)
      parts a b r h = ground arith

  pub sources-IsAscending :
      (cs : List (CompactEdge f)) → IsOrdered (compact_less f) cs → IsAscending (sources cs)
  unfolding compact_less
  sources-IsAscending [] o = tt
  sources-IsAscending (c ∷ []) o = tt
  sources-IsAscending (c ∷ d ∷ rest) (o, os) =
      (ascends c.from c.to d.from d.to o, sources-IsAscending (d ∷ rest) os)
    where
      ascends : (a b a2 b2 : ℕ) → (if not (a2 == a) then ltb a2 a else ltb b2 b) ≡ false → a ≤ a2
      ascends a b a2 b2 h = ground arith

  -- The edge in terms of node ids that a compact edge stands for.
  abbrev pub named : List ℕ → CompactEdge f → RawEdge f
  named ids c = record {
    from_node_id = get! ids c.from;
    to_node_id = get! ids c.to;
    weight = c.weight;
    shape_lats = c.shape_lats;
    shape_lons = c.shape_lons;
    restricted = c.restricted;
  }

  module _ (s : Numbering) (n : IsNumbered s) where
    pub compact_edge-named :
        (es : List (RawEdge f))
        → AllKnown f s es
        → map (named s.node_ids) (map (compact_edge f s.node_set) es) ≡ es
    unfolding compact_edge
    compact_edge-named [] k = refl
    compact_edge-named (e ∷ es) (from_known, to_known, ks) =
        let (_, from_named) = IsKnown-index n from_known in
        let (_, to_named) = IsKnown-index n to_known in
        rw (from_named, to_named, compact_edge-named es ks)

    pub compact_edge-inside :
        (es : List (RawEdge f))
        → AllKnown f s es
        → any_of (is_outside (length s.node_ids)) (map (compact_edge f s.node_set) es) ≡ false
    unfolding compact_edge
    compact_edge-inside [] k = refl
    compact_edge-inside (e ∷ es) (from_known, to_known, ks) =
        let (from_in, _) = IsKnown-index n from_known in
        let (to_in, _) = IsKnown-index n to_known in ground (arith, compact_edge-inside es ks)
