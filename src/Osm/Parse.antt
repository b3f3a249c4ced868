-- ===== src/Osm/Parse.antt =====
-- `Parse` of pkg/osm/parser.go: from the objects of the two scans to directed edges. What
-- `osmpbf.Scanner` yields in a pass is a parameter, the list of its objects and whether
-- `scanner.Err()` reports an error; so is whether `rs.Seek` fails. A node id is a number that the
-- code only compares. The counters that only feed the log are left out.
pub mod Edges
pub mod Sound
pub mod Complete
use Prim.Native.String.{String}
use map_router.Base.{
  ℕ, zero, suc, Bool, true, false, not, ◌&&◌, ◌||◌, List, [], ◌∷◌, ◌++◌, Option, none, some, map,
  ltb, ◌==◌, if◌then◌else◌, length,
}
use map_router.Float.{Float}
use map_router.Geo.{haversine}
use map_router.Osm.Access.{
  Access, Directions, classify_access, direction_flags, node_barrier_restricts,
}
use map_router.Osm.Speeds.{SpeedTable, Texts, default_speed_table, speed_kmh}

abbrev pub is_member : ℕ → List ℕ → Bool
is_member x [] = false
is_member x (y ∷ ys) = y == x || is_member x ys

module _ (f : Float) where
  open f use {F, of_ratio, mul, div, lt, le, eq, round_u32}

  abbrev zero_f : F
  zero_f = of_ratio 0 1

  at_least_one : ℕ → ℕ
  at_least_one w = if w == 0 then 1 else w

  unfoldable pub compute_weight_ms : F → F → ℕ
  unfolding at_least_one
  compute_weight_ms length_meters kmh =
      let speed = if le kmh zero_f then of_ratio 1 1 else kmh in
      at_least_one
        (round_u32 (mul (div length_meters (div speed (of_ratio 36 10))) (of_ratio 1000 1)))

  unfoldable pub compute_weight_distance_cm : F → ℕ
  unfolding at_least_one
  compute_weight_distance_cm length_meters =
      at_least_one (round_u32 (mul length_meters (of_ratio 100 1)))

  pub record BBox : Type 0 where
    pub min_lat : F
    pub max_lat : F
    pub min_lng : F
    pub max_lng : F

  unfoldable pub is_zero : BBox → Bool
  is_zero b =
      eq b.min_lat zero_f && eq b.max_lat zero_f && eq b.min_lng zero_f && eq b.max_lng zero_f

  -- `lat >= b.MinLat && …`
  pub box_contains : BBox → F → F → Bool
  box_contains b lat lng =
      le b.min_lat lat && le lat b.max_lat && le b.min_lng lng && le lng b.max_lng

  pub record RawEdge : Type 0 where
    pub from_node_id : ℕ
    pub to_node_id : ℕ
    pub weight : ℕ
    pub shape_lats : List F
    pub shape_lons : List F
    pub restricted : Bool

  pub record WayInfo : Type 0 where
    pub node_ids : List ℕ
    pub forward : Bool
    pub backward : Bool
    pub speed_kmh : F
    pub restricted : Bool

  pub record ParseOptions : Type 0 where
    pub bbox : BBox
    pub speeds : SpeedTable f
    pub distance : Bool

  -- The maps `nodeLat` and `nodeLon`, which have the same keys.
  abbrev pub NodeMap : Type 0
  NodeMap = List (ℕ × F × F)

  pub locate : ℕ → NodeMap → Option (F × F)
  locate id [] = none
  locate id ((k, lat, lon) ∷ m) = if k == id then some (lat, lon) else locate id m

  -- What the edge loop reads besides the ways.
  pub record Scene : Type 0 where
    pub opts : ParseOptions
    pub nodes : NodeMap
    pub barrier_nodes : List ℕ

  -- The two edges of a node pair, in the order in which they are appended.
  pub pair_edges : WayInfo → ℕ → ℕ → ℕ → Bool → List RawEdge
  pair_edges w from_id to_id weight restricted =
      let edge = λ (a : ℕ) (b : ℕ).
        let e : RawEdge = record {
          from_node_id = a;
          to_node_id = b;
          weight = weight;
          shape_lats = [];
          shape_lons = [];
          restricted = restricted;
        } in
        e in
      (if w.forward then edge from_id to_id ∷ [] else [])
      ++ (if w.backward then edge to_id from_id ∷ [] else [])

  -- The body of the edge loop behind the lookups of both coordinates.
  pub located_edges : Scene → WayInfo → ℕ → ℕ → F × F → F × F → List RawEdge
  located_edges s w from_id to_id (from_lat, from_lon) (to_lat, to_lon) =
      let use_bbox = not (is_zero s.opts.bbox) in
      let outside =
        not (box_contains s.opts.bbox from_lat from_lon)
        || not (box_contains s.opts.bbox to_lat to_lon) in
      let dist = haversine f from_lat from_lon to_lat to_lon in
      let weight =
        if s.opts.distance
        then compute_weight_distance_cm dist
        else compute_weight_ms dist w.speed_kmh in
      let restricted =
        w.restricted || (is_member from_id s.barrier_nodes || is_member to_id s.barrier_nodes) in
      if use_bbox && outside then [] else pair_edges w from_id to_id weight restricted

  both : Option (F × F) → Option (F × F) → Option ((F × F) × (F × F))
  both none q = none
  both (some p) none = none
  both (some p) (some q) = some (p, q)

  edges_if : Scene → WayInfo → ℕ → ℕ → Option ((F × F) × (F × F)) → List RawEdge
  edges_if s w from_id to_id none = []
  edges_if s w from_id to_id (some (p, q)) = located_edges s w from_id to_id p q

  -- The body of the edge loop.
  pub segment_edges : Scene → WayInfo → ℕ → ℕ → List RawEdge
  segment_edges s w from_id to_id =
      edges_if s w from_id to_id (both (locate from_id s.nodes) (locate to_id s.nodes))

  -- The loop over a way's consecutive nodes.
  pub way_edges : Scene → WayInfo → List ℕ → List RawEdge
  way_edges s w [] = []
  way_edges s w (a ∷ []) = []
  way_edges s w (a ∷ b ∷ rest) = segment_edges s w a b ++ way_edges s w (b ∷ rest)

  pub build_edges : Scene → List WayInfo → List RawEdge
  build_edges s [] = []
  build_edges s (w ∷ ws) = way_edges s w w.node_ids ++ build_edges s ws

  -- What `Parse` returns: the edges and the coordinates.
  pub record ParseResult : Type 0 where
    pub edges : List (RawEdge)
    pub nodes : NodeMap

-- A failed pass: `Parse` returns its error.
pub data ParseError : Type 0 where
  ways_failed seek_failed nodes_failed : ParseError

pub data Parsed (A : Type 0) : Type 0 where
  done : A → Parsed A
  failed : ParseError → Parsed A

module _ (f : Float) (t : Texts f.F) {Tags : Type 0} (find : Tags → String → String) where
  open f use {F}

  -- An object of the file: `*osm.Way`, `*osm.Node`, or another.
  pub data Object : Type 0 where
    way : Tags → List ℕ → Object
    node : ℕ → F → F → Tags → Object
    other : Object

  -- What a scanner yields, and whether it ends with an error.
  pub record Scan : Type 0 where
    pub objects : List Object
    pub err : Bool

  way_info : SpeedTable f → Tags → List ℕ → WayInfo f
  way_info speeds tags ids = record {
    node_ids = ids;
    forward = (direction_flags find tags).forward;
    backward = (direction_flags find tags).backward;
    speed_kmh = speed_kmh f t find speeds tags;
    restricted = (classify_access find tags).restricted;
  }

  -- Whether pass 1 keeps a way.
  unfoldable pub keeps_way : Tags → List ℕ → Bool
  keeps_way tags ids =
      (classify_access find tags).keep
      && not (ltb (length ids) 2)
      && ((direction_flags find tags).forward || (direction_flags find tags).backward)

  -- Pass 1: the ways.
  pub scan_ways : SpeedTable f → List Object → List (WayInfo f)
  scan_ways speeds [] = []
  scan_ways speeds (way tags ids ∷ os) =
      let rest = scan_ways speeds os in
      if keeps_way tags ids then way_info speeds tags ids ∷ rest else rest
  scan_ways speeds (node id lat lon tags ∷ os) = scan_ways speeds os
  scan_ways speeds (other ∷ os) = scan_ways speeds os

  -- `referencedNodes`
  pub is_referenced : ℕ → List (WayInfo f) → Bool
  is_referenced id [] = false
  is_referenced id (w ∷ ws) = is_member id w.node_ids || is_referenced id ws

  -- Pass 2: the coordinates of the referenced nodes, a later node over an earlier one of its id.
  pub scan_nodes : List (WayInfo f) → NodeMap f → List Object → NodeMap f
  scan_nodes ws m [] = m
  scan_nodes ws m (node id lat lon tags ∷ os) =
      scan_nodes ws (if is_referenced id ws then (id, lat, lon) ∷ m else m) os
  scan_nodes ws m (way tags ids ∷ os) = scan_nodes ws m os
  scan_nodes ws m (other ∷ os) = scan_nodes ws m os

  -- Pass 2: the barrier nodes among them.
  pub scan_barriers : List (WayInfo f) → List Object → List ℕ
  scan_barriers ws [] = []
  scan_barriers ws (node id lat lon tags ∷ os) =
      let rest = scan_barriers ws os in
      if is_referenced id ws && node_barrier_restricts find tags then id ∷ rest else rest
  scan_barriers ws (way tags ids ∷ os) = scan_barriers ws os
  scan_barriers ws (other ∷ os) = scan_barriers ws os

  -- `if opt.Speeds.ClassKmh == nil { opt.Speeds = DefaultSpeedTable() }`
  pub with_speeds : ParseOptions f → ParseOptions f
  with_speeds o = elim o.speeds.class_kmh [
    | none ↦ record o { speeds = default_speed_table f }
    | some _ ↦ o
  ]

  unfoldable pub parse : ParseOptions f → Scan → Bool → Scan → Parsed (ParseResult f)
  parse options ways_scan seek_err nodes_scan =
      let opts = with_speeds options in
      let ws = scan_ways opts.speeds ways_scan.objects in
      let nodes = scan_nodes ws [] nodes_scan.objects in
      let barriers = scan_barriers ws nodes_scan.objects in
      let scene : Scene f = record { opts = opts; nodes = nodes; barrier_nodes = barriers } in
      if ways_scan.err
      then failed ways_failed
      else if seek_err
      then failed seek_failed
      else if nodes_scan.err
      then failed nodes_failed
      else done (record { edges = build_edges f scene ws; nodes = nodes })
