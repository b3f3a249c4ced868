-- ===== src/Tests/Ways.antt =====
-- A private road with a gate at one end, from tags to edges.
use Prim.Native.String.{String}
use text.Mathlib.Text.{◌==◌ as str_eq}
use map_router.Base.{
  here, ℕ, ◌≡◌, refl, true, false, not, ◌&&◌, ◌||◌, List, [], ◌∷◌, none, some, if◌then◌else◌, ltb,
  arith,
}
use map_router.Osm.Access.{
  one_of, car_highways, physical_barriers, gate_barriers, gated, open_access, classify_access,
  node_barrier_restricts, direction_flags,
}
use map_router.Osm.Access.Rules.{
  classify_access-keep, node_barrier_restricts_lem, direction_flags-forward,
  direction_flags-backward,
}
use map_router.Osm.Speeds.{SpeedTable, Texts, default_speed_table, speed_kmh, class_bound, lookup}
use map_router.Osm.Speeds.Bounds.{speed_kmh-cap, speed_kmh-floor}
use map_router.Osm.Parse.{
  ParseOptions, Scan, way, node, ParseResult, Parsed, done, failed, keeps_way, is_zero, parse,
}
use map_router.Osm.Parse.Edges.{All}
use map_router.Osm.Parse.Sound.{IsSound, parse-IsSound}
use map_router.Osm.Parse.Complete.{IsSegment, first, HasEdge, parse-HasEdge}
use map_router.Tests.Floats.{nat_float}

abbrev Tags : Type 0
Tags = List (String × String)

find : Tags → String → String
find [] k = ""
find ((j, v) ∷ m) k = if str_eq j k then v else find m k

abbrev private_road : Tags
private_road = ("highway", "residential") ∷ ("access", "private") ∷ ("oneway", "yes") ∷ []

abbrev gate : Tags
gate = ("barrier", "gate") ∷ ("locked", "yes") ∷ []

-- Texts without suffixes, spaces and numbers.
abbrev plain_texts : Texts ℕ
plain_texts = record {
  has_suffix = λ s e. false;
  trim_suffix = λ s e. s;
  trim_space = λ s. s;
  fields = λ s. s ∷ [];
  to_lower = λ s. s;
  parse_float = λ s. none;
}

classify_access-keep_example : (classify_access find private_road).keep ≡ (
    one_of car_highways (find private_road "highway")
    && not (str_eq (find private_road "area") "yes")
    && not (str_eq (find private_road "access") "no")
    && (one_of gated (find private_road "access")
        || not (str_eq (find private_road "motor_vehicle") "no")))
classify_access-keep_example = classify_access-keep find private_road

node_barrier_restricts_lem_example : node_barrier_restricts find gate ≡ (
    not (str_eq (find gate "barrier") "")
    && (one_of physical_barriers (find gate "barrier")
        || one_of gate_barriers (find gate "barrier"))
    && not (one_of open_access (find gate "motor_vehicle"))
    && not (one_of open_access (find gate "access"))
    && (one_of physical_barriers (find gate "barrier")
        || str_eq (find gate "locked") "yes"
        || one_of ("no" ∷ gated) (find gate "access")
        || one_of ("no" ∷ "private" ∷ []) (find gate "motor_vehicle")))
node_barrier_restricts_lem_example = node_barrier_restricts_lem find gate

direction_flags-forward_example :
    (direction_flags find private_road).forward
    ≡ not (one_of ("-1" ∷ "reverse" ∷ "reversible" ∷ []) (find private_road "oneway"))
direction_flags-forward_example = direction_flags-forward find private_road

direction_flags-backward_example : (direction_flags find private_road).backward ≡ (
    one_of ("-1" ∷ "reverse" ∷ "no" ∷ []) (find private_road "oneway")
    || (not (one_of ("yes" ∷ "true" ∷ "1" ∷ "reversible" ∷ []) (find private_road "oneway"))
        && not (
            str_eq (find private_road "highway") "motorway"
            || str_eq (find private_road "highway") "motorway_link"
            || str_eq (find private_road "junction") "roundabout")))
direction_flags-backward_example = direction_flags-backward find private_road

-- Residential roads are driven at 40 at least, and at 20 at most on the service roads.
abbrev table : SpeedTable nat_float
table = record (default_speed_table nat_float) {
  floor_class_kmh = some (("residential", 40) ∷ []);
  cap_class_kmh = some (("service", 20) ∷ []);
}

abbrev service_road : Tags
service_road = ("highway", "service") ∷ []

ltb-irreflexive : (x : ℕ) → ltb x x ≡ false
ltb-irreflexive x = ground arith

speed_kmh-cap_example :
    ltb
      (class_bound nat_float plain_texts table false 20)
      (speed_kmh nat_float plain_texts find table service_road)
    ≡ false
unfolding lookup find
speed_kmh-cap_example =
    speed_kmh-cap nat_float ltb-irreflexive plain_texts find table service_road 20 refl

speed_kmh-floor_example :
    ltb
      (speed_kmh nat_float plain_texts find table private_road)
      (class_bound nat_float plain_texts table false 40)
    ≡ false
unfolding lookup find
speed_kmh-floor_example =
    speed_kmh-floor nat_float ltb-irreflexive plain_texts find table private_road 40 refl refl

abbrev options : ParseOptions nat_float
options = record {
  bbox = record { min_lat = 0; max_lat = 0; min_lng = 0; max_lng = 0 };
  speeds = table;
  distance = true;
}

abbrev ways : Scan nat_float plain_texts find
ways = record { objects = way private_road (1 ∷ 2 ∷ []) ∷ []; err = false }

abbrev nodes : Scan nat_float plain_texts find
nodes = record { objects = node 1 10 10 [] ∷ node 2 10 11 gate ∷ []; err = false }

abbrev result_of : Parsed (ParseResult nat_float) → ParseResult nat_float
result_of (done r) = r
result_of (failed e) = record { edges = []; nodes = [] }

abbrev parsed : ParseResult nat_float
parsed = result_of (parse nat_float plain_texts find options ways false nodes)

parse_runs : parse nat_float plain_texts find options ways false nodes ≡ done parsed
unfolding parse
parse_runs = refl

parse-IsSound_example :
    All (IsSound nat_float plain_texts find options nodes.objects parsed) parsed.edges
parse-IsSound_example =
    parse-IsSound nat_float plain_texts find options ways nodes false parsed parse_runs

private_road-IsSegment :
    IsSegment nat_float plain_texts find options ways.objects nodes.objects private_road 1 2
unfolding keeps_way is_zero classify_access direction_flags find one_of
private_road-IsSegment = record {
  ids = 1 ∷ 2 ∷ [];
  listed = here;
  kept = refl;
  next = first;
  from_at = (10, 10);
  to_at = (10, 11);
  from_found = refl;
  to_found = refl;
  in_box = refl;
}

parse-HasEdge_example :
    ((direction_flags find private_road).forward ≡ true → HasEdge nat_float 1 2 parsed.edges)
    × ((direction_flags find private_road).backward ≡ true → HasEdge nat_float 2 1 parsed.edges)
parse-HasEdge_example =
    parse-HasEdge nat_float plain_texts find options ways nodes false parsed private_road 1 2
      parse_runs private_road-IsSegment
