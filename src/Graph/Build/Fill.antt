-- ===== src/Graph/Build/Fill.antt =====
-- The loop of `Build` over the sorted edges: entry `i` of every array belongs to edge `i`.
use map_router.Base.{
  ℕ, zero, suc, ◌+◌, ◌%◌, ◌<◌, ◌≡◌, refl, sym, ◌∙◌, Bool, false, List, [], ◌∷◌, ◌++◌, some, arith,
  length, length-append, length-set, get_elem?, take, set,
}
use mathlib.Core.List.{append_assoc, append-nil}
use map_router.Run.{Ensures, ensures, Ensures-mono}
use map_router.Array.{Zeroed, Zeroed-ℕ, get!, get!-set, put-ok}
use map_router.Word.{u32_mod}
use map_router.Float.{Float}
use map_router.Graph.Build.{CompactEdge, EdgeArrays, fill_edges}

instance abbrev pub Zeroed-Bool : Zeroed Bool
Zeroed-Bool = record { zero_value = false }

module _ (f : Float) where
  abbrev pub all_lats : List (CompactEdge f) → List f.F
  all_lats [] = []
  all_lats (c ∷ cs) = c.shape_lats ++ all_lats cs

  abbrev pub all_lons : List (CompactEdge f) → List f.F
  all_lons [] = []
  all_lons (c ∷ cs) = c.shape_lons ++ all_lons cs

  -- The entries at `k` are those of an edge whose shape begins at `start`.
  pub record IsEntry (a : EdgeArrays f) (k : ℕ) (c : CompactEdge f) (start : ℕ) : Type 0 where
    pub head : get! a.head k ≡ c.to
    pub weight : get! a.weight k ≡ c.weight
    pub restricted : get! a.edge_restricted k ≡ c.restricted
    pub shape : get! a.geo_first_out k ≡ start

  record IsKept (a b : EdgeArrays f) (k : ℕ) : Type 0 where
    head : get! b.head k ≡ get! a.head k
    weight : get! b.weight k ≡ get! a.weight k
    restricted : get! b.edge_restricted k ≡ get! a.edge_restricted k
    shape : get! b.geo_first_out k ≡ get! a.geo_first_out k

  -- The arrays have room for `n` edges.
  pub record HasRoom (n : ℕ) (a : EdgeArrays f) : Type 0 where
    pub heads : length a.head ≡ n
    pub weights : length a.weight ≡ n
    pub flags : length a.edge_restricted ≡ n
    pub shapes : length a.geo_first_out ≡ n + 1

  pub record IsFilled (n i : ℕ) (es : List (CompactEdge f)) (a b : EdgeArrays f) : Type 0 where
    pub room : HasRoom n b
    pub lats : b.geo_shape_lat ≡ a.geo_shape_lat ++ all_lats es
    pub lons : b.geo_shape_lon ≡ a.geo_shape_lon ++ all_lons es
    pub entries :
        (j : ℕ) (c : CompactEdge f)
        → get_elem? es j ≡ some c
        → IsEntry b (i + j) c (length a.geo_shape_lat + length (all_lats (take j es)))
    kept : (k : ℕ) → k < i → IsKept a b k

  abbrev written : ℕ → CompactEdge f → EdgeArrays f → EdgeArrays f
  written i c a = record {
    head = set a.head i c.to;
    weight = set a.weight i c.weight;
    edge_restricted = set a.edge_restricted i c.restricted;
    geo_first_out = set a.geo_first_out i (length a.geo_shape_lat);
    geo_shape_lat = a.geo_shape_lat ++ c.shape_lats;
    geo_shape_lon = a.geo_shape_lon ++ c.shape_lons;
  }

  written-HasRoom :
      (n i : ℕ) (c : CompactEdge f) (a : EdgeArrays f) → HasRoom n a → HasRoom n (written i c a)
  written-HasRoom n i c a h = record {
    heads = rw length-set h.heads;
    weights = rw length-set h.weights;
    flags = rw length-set h.flags;
    shapes = rw length-set h.shapes;
  }

  written-IsEntry :
      (n i : ℕ) (c : CompactEdge f) (a : EdgeArrays f)
      → HasRoom n a
      → i < n
      → IsEntry (written i c a) i c (length a.geo_shape_lat)
  written-IsEntry n i c a h p = record {
    head = ground (arith, get!-set a.head i i c.to (omega (arith, h.heads)));
    weight = ground (arith, get!-set a.weight i i c.weight (omega (arith, h.weights)));
    restricted =
        ground (arith, get!-set a.edge_restricted i i c.restricted (omega (arith, h.flags)));
    shape =
        ground
          (arith, get!-set a.geo_first_out i i (length a.geo_shape_lat) (omega (arith, h.shapes)));
  }

  written-IsKept :
      (n i : ℕ) (c : CompactEdge f) (a : EdgeArrays f)
      → HasRoom n a
      → i < n
      → (k : ℕ) → k < i
      → IsKept a (written i c a) k
  written-IsKept n i c a h p k q = record {
    head = ground (arith, get!-set a.head i k c.to (omega (arith, h.heads)));
    weight = ground (arith, get!-set a.weight i k c.weight (omega (arith, h.weights)));
    restricted =
        ground (arith, get!-set a.edge_restricted i k c.restricted (omega (arith, h.flags)));
    shape =
        ground
          (arith, get!-set a.geo_first_out i k (length a.geo_shape_lat) (omega (arith, h.shapes)));
  }

  IsEntry-kept :
      {a b : EdgeArrays f} {k : ℕ} {c : CompactEdge f} {start : ℕ}
      → IsKept a b k
      → IsEntry a k c start
      → IsEntry b k c start
  IsEntry-kept h e = record {
    head = h.head ∙ e.head;
    weight = h.weight ∙ e.weight;
    restricted = h.restricted ∙ e.restricted;
    shape = h.shape ∙ e.shape;
  }

  IsKept-trans : {a b c : EdgeArrays f} {k : ℕ} → IsKept a b k → IsKept b c k → IsKept a c k
  IsKept-trans p q = record {
    head = q.head ∙ p.head;
    weight = q.weight ∙ p.weight;
    restricted = q.restricted ∙ p.restricted;
    shape = q.shape ∙ p.shape;
  }

  IsFilled-step :
      (n i : ℕ) (c : CompactEdge f) (es : List (CompactEdge f)) (a b : EdgeArrays f)
      → HasRoom n a
      → i < n
      → IsFilled n (i + 1) es (written i c a) b
      → IsFilled n i (c ∷ es) a b
  IsFilled-step n i c es a b h p r = record {
    room = r.room;
    lats = r.lats ∙ append_assoc a.geo_shape_lat c.shape_lats (all_lats es);
    lons = r.lons ∙ append_assoc a.geo_shape_lon c.shape_lons (all_lons es);
    entries = entries;
    kept = λ k q. IsKept-trans (written-IsKept n i c a h p k q) (r.kept k (omega arith));
  }
    where
      entries :
          (j : ℕ) (d : CompactEdge f)
          → get_elem? (c ∷ es) j ≡ some d
          → IsEntry b (i + j) d (length a.geo_shape_lat + length (all_lats (take j (c ∷ es))))
      entries zero d e =
          let same : c ≡ d = cc in
          let at_i : i + 0 ≡ i = omega arith in
          let at_start : length a.geo_shape_lat + 0 ≡ length a.geo_shape_lat = omega arith in
          rw (at_i, at_start, ← same)
            (IsEntry-kept (r.kept i (omega arith)) (written-IsEntry n i c a h p))
      entries (suc j) d e =
          let at_i : i + suc j ≡ i + 1 + j = omega arith in
          let at_start : length a.geo_shape_lat + length (c.shape_lats ++ all_lats (take j es))
              ≡ length (a.geo_shape_lat ++ c.shape_lats) + length (all_lats (take j es)) =
            omega (
              arith,
              length-append a.geo_shape_lat c.shape_lats,
              length-append c.shape_lats (all_lats (take j es)),
            ) in
          rw (at_i, at_start) (r.entries j d e)

  pub fill_edges-IsFilled :
      (n i : ℕ) (es : List (CompactEdge f)) (a : EdgeArrays f)
      → HasRoom n a
      → i + length es ≡ n
      → length (a.geo_shape_lat ++ all_lats es) < u32_mod
      → Ensures (IsFilled n i es a) (fill_edges f i es a)
  unfolding fill_edges
  fill_edges-IsFilled n i [] a h e small = ensures (record {
    room = h;
    lats = sym (append-nil a.geo_shape_lat);
    lons = sym (append-nil a.geo_shape_lon);
    entries = λ j c q. cc;
    kept = λ k q. record { head = refl; weight = refl; restricted = refl; shape = refl };
  })
  fill_edges-IsFilled n i (c ∷ es) a h e small =
      let start : length a.geo_shape_lat % u32_mod ≡ length a.geo_shape_lat =
        omega (arith, length-append a.geo_shape_lat (c.shape_lats ++ all_lats es)) in
      let fits : i < n = omega arith in
      rw
        (
          put-ok a.head i c.to (omega (arith, h.heads)),
          put-ok a.weight i c.weight (omega (arith, h.weights)),
          put-ok a.edge_restricted i c.restricted (omega (arith, h.flags)),
          start,
          put-ok a.geo_first_out i (length a.geo_shape_lat) (omega (arith, h.shapes)),
        )
        (Ensures-mono (λ b r. IsFilled-step n i c es a b h fits r)
          (fill_edges-IsFilled n (i + 1) es (written i c a) (written-HasRoom n i c a h)
            (omega arith) (rw (append_assoc a.geo_shape_lat c.shape_lats (all_lats es)) small)))
