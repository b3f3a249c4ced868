-- ===== src/Osm/Parse/Sound.antt =====
-- What the edges of `Parse` are, by the objects of the file.
use map_router.Base.{
  ◌∙◌, ◌==◌, ==-refl, ℕ_discrete, ℕ, ◌<◌, ◌≡◌, refl, sym, subst, Bool, true, false, ◌&&◌, ◌||◌,
  List, [], ◌∷◌, Option, none, some, arith, if◌then◌else◌,
}
use map_router.Float.{Float}
use map_router.Osm.Access.{node_barrier_restricts}
use map_router.Osm.Parse.{
  NodeMap, RawEdge, WayInfo, Scene, is_member, is_zero, box_contains, locate, build_edges,
  ParseOptions, Scan, Object, way, node, other, ParseResult, done, scan_ways, scan_nodes,
  scan_barriers, is_referenced, with_speeds, parse,
}
use Prim.Native.String.{String}
use map_router.Osm.Speeds.{Texts}
use map_router.Osm.Parse.Edges.{All, IsInside, IsPlaced, build_edges-IsPlaced}

module _ (f : Float) (t : Texts f.F) {Tags : Type 0} (find : Tags → String → String) where
  -- The position of the last node of an id in the file.
  abbrev pub later_or : Option (f.F × f.F) → Option (f.F × f.F) → Option (f.F × f.F)
  later_or none q = q
  later_or (some p) q = some p

  abbrev pub last_position : ℕ → List (Object f t find) → Option (f.F × f.F)
  last_position id [] = none
  last_position id (node i lat lon tags ∷ os) =
      later_or (last_position id os) (if i == id then some (lat, lon) else none)
  last_position id (way tags ids ∷ os) = last_position id os
  last_position id (other ∷ os) = last_position id os

  -- Whether the file has a node of the id that is a restrictive barrier.
  abbrev pub is_barrier : ℕ → List (Object f t find) → Bool
  is_barrier id [] = false
  is_barrier id (node i lat lon tags ∷ os) =
      i == id && node_barrier_restricts find tags || is_barrier id os
  is_barrier id (way tags ids ∷ os) = is_barrier id os
  is_barrier id (other ∷ os) = is_barrier id os

  scan_barriers-is_barrier :
      (ws : List (WayInfo f)) (id : ℕ) (os : List (Object f t find))
      → is_referenced f t find id ws ≡ true
      → is_member id (scan_barriers f t find ws os) ≡ is_barrier id os
  unfolding scan_barriers
  scan_barriers-is_barrier ws id [] h = refl
  scan_barriers-is_barrier ws id (node i lat lon tags ∷ os) h =
      let ih = scan_barriers-is_barrier ws id os h in
      elim (ℕ_discrete i id) [
        | yes same ↦ rw (same, h, ==-refl id) (by_tags (node_barrier_restricts find tags) _ _ ih)
        | no apart ↦
            let differs : (i == id) ≡ false = ground arith in
            rw differs (
              by_test (is_referenced f t find i ws && node_barrier_restricts find tags) _ _ differs
                ih)
      ]
    where
      by_tags :
          (b : Bool) (ids : List ℕ) (c : Bool)
          → is_member id ids ≡ c
          → is_member id (if b then id ∷ ids else ids) ≡ b || c
      by_tags true ids c e = rw (==-refl id) refl
      by_tags false ids c e = e

      by_test :
          (b : Bool) (ids : List ℕ) (c : Bool)
          → (i == id) ≡ false
          → is_member id ids ≡ c
          → is_member id (if b then i ∷ ids else ids) ≡ c
      by_test true ids c d e = rw d e
      by_test false ids c d e = e
  scan_barriers-is_barrier ws id (way tags ids ∷ os) h = scan_barriers-is_barrier ws id os h
  scan_barriers-is_barrier ws id (other ∷ os) h = scan_barriers-is_barrier ws id os h

  pub scan_nodes-last_position :
      (ws : List (WayInfo f)) (id : ℕ) (m : NodeMap f) (os : List (Object f t find))
      → is_referenced f t find id ws ≡ true
      → locate f id (scan_nodes f t find ws m os) ≡ later_or (last_position id os) (locate f id m)
  unfolding scan_nodes locate
  scan_nodes-last_position ws id m [] h = refl
  scan_nodes-last_position ws id m (node i lat lon tags ∷ os) h =
      scan_nodes-last_position ws id (if is_referenced f t find i ws then (i, lat, lon) ∷ m else m)
        os h
      ∙ elim (ℕ_discrete i id) [
        | yes same ↦
            rw (same, h, ==-refl id) (found (last_position id os) (some (lat, lon)) (locate f id m))
        | no apart ↦
            let differs : (i == id) ≡ false = ground arith in
            rw differs (missed (is_referenced f t find i ws) (last_position id os) differs)
      ]
    where
      found : (o p q : Option (f.F × f.F)) → later_or o (later_or p q) ≡ later_or (later_or o p) q
      found none p q = refl
      found (some x) p q = refl

      missed :
          (b : Bool) (o : Option (f.F × f.F))
          → (i == id) ≡ false
          → later_or o (locate f id (if b then (i, lat, lon) ∷ m else m))
            ≡ later_or (later_or o none) (locate f id m)
      missed true none d = rw d refl
      missed true (some x) d = refl
      missed false none d = refl
      missed false (some x) d = refl
  scan_nodes-last_position ws id m (way tags ids ∷ os) h = scan_nodes-last_position ws id m os h
  scan_nodes-last_position ws id m (other ∷ os) h = scan_nodes-last_position ws id m os h

  or_right : (b : Bool) → b || true ≡ true
  or_right b = ground arith

  -- Every node of a way that is kept is referenced.
  members :
      (ids rest : List ℕ)
      → ((id : ℕ) → is_member id rest ≡ true → is_member id ids ≡ true)
      → All (λ id. is_member id ids ≡ true) rest
  members ids [] h = tt
  members ids (i ∷ rest) h =
      (h i (rw (==-refl i) refl), members ids rest (λ id k. h id (rw k (or_right (i == id)))))

  All-mono :
      {A : Type 0} {P Q : A → Type 0} (xs : List A) → ((x : A) → P x → Q x) → All P xs → All Q xs
  All-mono [] f h = tt
  All-mono (x ∷ xs) f (p, h) = (f x p, All-mono xs f h)

  abbrev AllReferenced : List (WayInfo f) → WayInfo f → Type 0
  AllReferenced ws w = All (λ id. is_referenced f t find id ws ≡ true) w.node_ids

  ways-AllReferenced :
      (ws rest : List (WayInfo f))
      → ((id : ℕ) → is_referenced f t find id rest ≡ true → is_referenced f t find id ws ≡ true)
      → All (AllReferenced ws) rest
  unfolding is_referenced
  ways-AllReferenced ws [] h = tt
  ways-AllReferenced ws (w ∷ rest) h = (
    All-mono w.node_ids (λ id k. h id (rw k refl)) (members w.node_ids w.node_ids (λ id k. k)),
    ways-AllReferenced ws rest (λ id k. h id (rw k (or_right (is_member id w.node_ids)))),
  )

  pub with_speeds-bbox : (o : ParseOptions f) → (with_speeds f t find o).bbox ≡ o.bbox
  unfolding with_speeds
  with_speeds-bbox o = ground arith

  -- What an edge of the result is, by the options and the objects of the second pass.
  module _ (o : ParseOptions f) (objects : List (Object f t find)) (r : ParseResult f) where
    -- The end of an edge is a node of the file, where it stands last, and it lies in the box if one
    -- is set; the result has its coordinates.
    pub record IsEnd (id : ℕ) : Type 0 where
      pub lat : f.F
      pub lon : f.F
      pub in_file : last_position id objects ≡ some (lat, lon)
      pub in_result : locate f id r.nodes ≡ some (lat, lon)
      pub in_box : is_zero f o.bbox || box_contains f o.bbox lat lon ≡ true

    pub record IsSound (e : RawEdge f) : Type 0 where
      pub from_end : IsEnd e.from_node_id
      pub to_end : IsEnd e.to_node_id
      pub weight_pos : 0 < e.weight
      pub barrier :
          is_barrier e.from_node_id objects || is_barrier e.to_node_id objects ≡ true
          → e.restricted ≡ true

  -- What the edge loop of `parse` reads.
  abbrev pub kept_ways : ParseOptions f → Scan f t find → List (WayInfo f)
  kept_ways o ways = scan_ways f t find (with_speeds f t find o).speeds ways.objects

  abbrev pub scene_of : ParseOptions f → Scan f t find → Scan f t find → Scene f
  scene_of o ways nodes = record {
    opts = with_speeds f t find o;
    nodes = scan_nodes f t find (kept_ways o ways) [] nodes.objects;
    barrier_nodes = scan_barriers f t find (kept_ways o ways) nodes.objects;
  }

  module _ (o : ParseOptions f) (ways nodes : Scan f t find) (r : ParseResult f)
      (same : r.nodes ≡ (scene_of o ways nodes).nodes) where
    abbrev referenced : ℕ → Bool
    referenced id = is_referenced f t find id (kept_ways o ways)

    IsInside-IsEnd :
        (id : ℕ)
        → referenced id ≡ true
        → IsInside f (scene_of o ways nodes) referenced id
        → IsEnd o nodes.objects r id
    unfolding locate
    IsInside-IsEnd id known (lat, lon, there, inside) = record {
      lat = lat;
      lon = lon;
      in_file =
          sym (or_none (last_position id nodes.objects))
          ∙ sym (scan_nodes-last_position (kept_ways o ways) id [] nodes.objects known)
          ∙ there;
      in_result = rw same there;
      in_box = rw with_speeds-bbox at inside;
    }
      where
        or_none : (p : Option (f.F × f.F)) → later_or p none ≡ p
        or_none none = refl
        or_none (some p) = refl

    edge-IsSound :
        (e : RawEdge f)
        → IsPlaced f (scene_of o ways nodes) referenced e
        → IsSound o nodes.objects r e
    edge-IsSound e p = record {
      from_end = IsInside-IsEnd e.from_node_id p.from_known p.from_inside;
      to_end = IsInside-IsEnd e.to_node_id p.to_known p.to_inside;
      weight_pos = p.weight_pos;
      barrier = λ stands. p.barrier (
          let a =
            scan_barriers-is_barrier (kept_ways o ways) e.from_node_id nodes.objects p.from_known in
          let b =
            scan_barriers-is_barrier (kept_ways o ways) e.to_node_id nodes.objects p.to_known in
          rw (a, b) stands);
    }

  -- Where `Parse` returns no error, both ends of every edge are nodes of the file, with the
  -- coordinates of the last node of their id, inside the box if one is set; the edge weighs at least
  -- 1, and it is restricted if the file has a restrictive barrier at one of its ends.
  pub parse-IsSound :
      (o : ParseOptions f) (ways nodes : Scan f t find) (seek_err : Bool) (r : ParseResult f)
      → parse f t find o ways seek_err nodes ≡ done r
      → All (IsSound o nodes.objects r) r.edges
  unfolding parse
  parse-IsSound o ways nodes seek_err r e =
      let scene = scene_of o ways nodes in
      let ws = kept_ways o ways in
      let (edges, same) : (r.edges ≡ build_edges f scene ws) × (r.nodes ≡ scene.nodes) =
        ground arith in
      subst (All (IsSound o nodes.objects r)) (sym edges) (
        All-mono (build_edges f scene ws) (edge-IsSound o ways nodes r same) (
          build_edges-IsPlaced f scene (λ id. is_referenced f t find id ws) ws
            (ways-AllReferenced ws ws (λ id k. k))))
