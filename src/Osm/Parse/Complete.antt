-- ===== src/Osm/Parse/Complete.antt =====
-- That `Parse` builds an edge for every segment that can be driven.
use Prim.Native.String.{String}
use map_router.Base.{
  ℕ, ◌≡◌, refl, ◌∙◌, Bool, true, false, not, ◌&&◌, ◌||◌, List, [], ◌∷◌, ◌++◌, some, arith,
  if◌then◌else◌, ◌==◌, ==-refl, In, here, there, In-left, In-right,
}
use map_router.Float.{Float}
use map_router.Osm.Access.{direction_flags}
use map_router.Osm.Speeds.{SpeedTable, Texts}
use map_router.Osm.Parse.{
  RawEdge, WayInfo, Scene, is_member, is_zero, box_contains, locate, pair_edges, located_edges,
  both, edges_if, segment_edges, way_edges, build_edges, ParseOptions, Scan, Object, way, node,
  other, ParseResult, done, scan_ways, is_referenced, keeps_way, way_info, parse,
}
use map_router.Osm.Parse.Sound.{
  last_position, kept_ways, scene_of, scan_nodes-last_position, with_speeds-bbox,
}

-- `b` comes right behind `a` in a list.
pub data IsNext (a b : ℕ) : List ℕ → Type 0 where
  first : {rest : List ℕ} → IsNext a b (a ∷ b ∷ rest)
  later : {x : ℕ} {xs : List ℕ} → IsNext a b xs → IsNext a b (x ∷ xs)

or_right : (b : Bool) {c : Bool} → c ≡ true → b || c ≡ true
or_right b e = ground arith

IsNext-members :
    {a b : ℕ} {ids : List ℕ} → IsNext a b ids → (is_member a ids ≡ true) × (is_member b ids ≡ true)
IsNext-members {a} {b} first = (rw (==-refl a) refl, rw (==-refl b) (or_right (a == b) refl))
IsNext-members {a} {b} (later {x} p) =
    let (ka, kb) = IsNext-members p in (or_right (x == a) ka, or_right (x == b) kb)

module _ (f : Float) where
  -- An edge from `a` to `b`.
  pub record HasEdge (a b : ℕ) (es : List (RawEdge f)) : Type 0 where
    pub edge : RawEdge f
    pub listed : In edge es
    pub from : edge.from_node_id ≡ a
    pub to : edge.to_node_id ≡ b

  HasEdge-left :
      {a b : ℕ} {es : List (RawEdge f)} (more : List (RawEdge f))
      → HasEdge a b es
      → HasEdge a b (es ++ more)
  HasEdge-left more h = record {
    edge = h.edge;
    listed = In-left more h.listed;
    from = h.from;
    to = h.to;
  }

  HasEdge-right :
      {a b : ℕ} (before : List (RawEdge f)) {es : List (RawEdge f)}
      → HasEdge a b es
      → HasEdge a b (before ++ es)
  HasEdge-right before h = record {
    edge = h.edge;
    listed = In-right before h.listed;
    from = h.from;
    to = h.to;
  }

  -- The edges of a segment, in the directions of the way.
  pub record HasEdges (w : WayInfo f) (a b : ℕ) (es : List (RawEdge f)) : Type 0 where
    pub forward : w.forward ≡ true → HasEdge a b es
    pub backward : w.backward ≡ true → HasEdge b a es

  HasEdges-left :
      {w : WayInfo f} {a b : ℕ} {es : List (RawEdge f)} (more : List (RawEdge f))
      → HasEdges w a b es
      → HasEdges w a b (es ++ more)
  HasEdges-left more h = record {
    forward = λ e. HasEdge-left more (h.forward e);
    backward = λ e. HasEdge-left more (h.backward e);
  }

  HasEdges-right :
      {w : WayInfo f} {a b : ℕ} (before : List (RawEdge f)) {es : List (RawEdge f)}
      → HasEdges w a b es
      → HasEdges w a b (before ++ es)
  HasEdges-right before h = record {
    forward = λ e. HasEdge-right before (h.forward e);
    backward = λ e. HasEdge-right before (h.backward e);
  }

  pair_edges-HasEdges :
      (w : WayInfo f) (a b weight : ℕ) (restricted : Bool)
      → HasEdges w a b (pair_edges f w a b weight restricted)
  unfolding pair_edges
  pair_edges-HasEdges w a b weight restricted = record {
    forward = λ e. rw e (record { edge = _; listed = here; from = refl; to = refl });
    backward =
        λ e. rw e (HasEdge-right _ (record { edge = _; listed = here; from = refl; to = refl }));
  }

  -- The segment lies in the box, if one is set.
  abbrev pub in_box : Scene f → f.F × f.F → f.F × f.F → Bool
  in_box s (p, p') (q, q') =
      is_zero f s.opts.bbox || box_contains f s.opts.bbox p p' && box_contains f s.opts.bbox q q'

  module _ (s : Scene f) (w : WayInfo f) (a b : ℕ) (p q : f.F × f.F)
      (ea : locate f a s.nodes ≡ some p) (eb : locate f b s.nodes ≡ some q)
      (box : in_box s p q ≡ true) where
    segment_edges-HasEdges : HasEdges w a b (segment_edges f s w a b)
    unfolding segment_edges both edges_if located_edges
    segment_edges-HasEdges =
        let kept : not (is_zero f s.opts.bbox)
              && (not (box_contains f s.opts.bbox p.0 p.1)
                  || not (box_contains f s.opts.bbox q.0 q.1))
            ≡ false =
          ground arith in
        rw (ea, eb, kept) (pair_edges-HasEdges w a b _ _)

    way_edges-HasEdges : (ids : List ℕ) → IsNext a b ids → HasEdges w a b (way_edges f s w ids)
    unfolding way_edges
    way_edges-HasEdges [] n = elim n [ ]
    way_edges-HasEdges (x ∷ []) (later n) = elim n [ ]
    way_edges-HasEdges (x ∷ y ∷ rest) first = HasEdges-left _ segment_edges-HasEdges
    way_edges-HasEdges (x ∷ y ∷ rest) (later n) = HasEdges-right _ (way_edges-HasEdges (y ∷ rest) n)

    build_edges-HasEdges :
        (ws : List (WayInfo f))
        → In w ws
        → IsNext a b w.node_ids
        → HasEdges w a b (build_edges f s ws)
    unfolding build_edges
    build_edges-HasEdges [] l n = elim l [ ]
    build_edges-HasEdges (w2 ∷ ws) here n = HasEdges-left _ (way_edges-HasEdges w.node_ids n)
    build_edges-HasEdges (w2 ∷ ws) (there l) n = HasEdges-right _ (build_edges-HasEdges ws l n)

module _ (f : Float) (t : Texts f.F) {Tags : Type 0} (find : Tags → String → String) where
  -- A way of the file that is kept is among the kept ways.
  scan_ways-In :
      (speeds : SpeedTable f) (tags : Tags) (ids : List ℕ) (os : List (Object f t find))
      → In (way tags ids) os
      → keeps_way f t find tags ids ≡ true
      → In (way_info f t find speeds tags ids) (scan_ways f t find speeds os)
  unfolding scan_ways
  scan_ways-In speeds tags ids [] l k = elim l [ ]
  scan_ways-In speeds tags ids (way _ _ ∷ os) here k = rw k here
  scan_ways-In speeds tags ids (way tags2 ids2 ∷ os) (there l) k =
      skipped (keeps_way f t find tags2 ids2) _ _ (scan_ways-In speeds tags ids os l k)
    where
      skipped :
          (b : Bool) (w w2 : WayInfo f) {ws : List (WayInfo f)}
          → In w ws
          → In w (if b then w2 ∷ ws else ws)
      skipped true w w2 l = there l
      skipped false w w2 l = l
  scan_ways-In speeds tags ids (node i lat lon tags2 ∷ os) (there l) k =
      scan_ways-In speeds tags ids os l k
  scan_ways-In speeds tags ids (other ∷ os) (there l) k = scan_ways-In speeds tags ids os l k

  is_referenced-In :
      (id : ℕ) (w : WayInfo f) (ws : List (WayInfo f))
      → In w ws
      → is_member id w.node_ids ≡ true
      → is_referenced f t find id ws ≡ true
  unfolding is_referenced
  is_referenced-In id w [] l k = elim l [ ]
  is_referenced-In id w (_ ∷ ws) here k = rw k refl
  is_referenced-In id w (w2 ∷ ws) (there l) k =
      or_right (is_member id w2.node_ids) (is_referenced-In id w ws l k)

  -- The segment from `a` to `b` of a kept way, with both nodes in the file and in the box.
  pub record IsSegment (o : ParseOptions f) (ways nodes : List (Object f t find)) (tags : Tags)
      (a b : ℕ) : Type 0 where
    pub ids : List ℕ
    pub listed : In (way tags ids) ways
    pub kept : keeps_way f t find tags ids ≡ true
    pub next : IsNext a b ids
    pub from_at : f.F × f.F
    pub to_at : f.F × f.F
    pub from_found : last_position f t find a nodes ≡ some from_at
    pub to_found : last_position f t find b nodes ≡ some to_at
    pub in_box :
        is_zero f o.bbox
          || box_contains f o.bbox from_at.0 from_at.1 && box_contains f o.bbox to_at.0 to_at.1
        ≡ true

  -- Where `Parse` returns no error, a segment of a way that pass 1 keeps, whose two nodes the file
  -- has, inside the box if one is set, has an edge in each direction that the tags allow.
  pub parse-HasEdge :
      (o : ParseOptions f) (ways nodes : Scan f t find) (seek_err : Bool) (r : ParseResult f)
      (tags : Tags) (a b : ℕ)
      → parse f t find o ways seek_err nodes ≡ done r
      → IsSegment o ways.objects nodes.objects tags a b
      → ((direction_flags find tags).forward ≡ true → HasEdge f a b r.edges)
        × ((direction_flags find tags).backward ≡ true → HasEdge f b a r.edges)
  unfolding parse way_info
  parse-HasEdge o ways nodes seek_err r tags a b e g =
      let scene = scene_of f t find o ways nodes in
      let ws = kept_ways f t find o ways in
      let edges : r.edges ≡ build_edges f scene ws = ground arith in
      let w = way_info f t find scene.opts.speeds tags g.ids in
      let listed = scan_ways-In scene.opts.speeds tags g.ids ways.objects g.listed g.kept in
      let (ka, kb) = IsNext-members g.next in
      let box : in_box f scene g.from_at g.to_at ≡ true =
        rw (with_speeds-bbox f t find o) g.in_box in
      let has =
        build_edges-HasEdges f scene w a b g.from_at g.to_at
          (located a (is_referenced-In a w ws listed ka) g.from_at g.from_found)
          (located b (is_referenced-In b w ws listed kb) g.to_at g.to_found) box ws listed g.next in
      (λ h. rw edges (has.forward h), λ h. rw edges (has.backward h))
    where
      located :
          (id : ℕ)
          → is_referenced f t find id (kept_ways f t find o ways) ≡ true
          → (p : f.F × f.F) → last_position f t find id nodes.objects ≡ some p
          → locate f id (scene_of f t find o ways nodes).nodes ≡ some p
      located id k p found =
          scan_nodes-last_position f t find (kept_ways f t find o ways) id [] nodes.objects k
          ∙ rw found refl
