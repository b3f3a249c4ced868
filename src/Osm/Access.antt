-- ===== src/Osm/Access.antt =====
-- The tag rules of pkg/osm/parser.go. `find` is `osm.Tags.Find` of github.com/paulmach/osm: the
-- value of a key, the empty text where the key is missing.
pub mod Rules
use Prim.Native.String.{String}
use text.Mathlib.Text.{◌==◌ as str_eq}
use map_router.Base.{◌≡◌, refl, Bool, true, false, not, ◌&&◌, ◌||◌, List, [], ◌∷◌, if◌then◌else◌}

-- `case "a", "b", …` of a switch, and the lookup in a `map[string]bool` of such values.
unfoldable pub one_of : List String → String → Bool
one_of [] s = false
one_of (x ∷ xs) s = str_eq s x || one_of xs s

abbrev pub car_highways : List String
car_highways =
    "motorway" ∷ "motorway_link" ∷ "trunk" ∷ "trunk_link" ∷ "primary" ∷ "primary_link" ∷ "secondary"
    ∷ "secondary_link" ∷ "tertiary" ∷ "tertiary_link" ∷ "unclassified" ∷ "residential"
    ∷ "living_street" ∷ "service" ∷ []

abbrev pub physical_barriers : List String
physical_barriers =
    "bollard" ∷ "block" ∷ "chain" ∷ "cycle_barrier" ∷ "motorcycle_barrier" ∷ "turnstile"
    ∷ "kissing_gate" ∷ "stile" ∷ "log" ∷ "debris" ∷ "barrier_board" ∷ "full-height_turnstile"
    ∷ "jersey_barrier" ∷ "sump_buster" ∷ "planter" ∷ "rope" ∷ []

abbrev pub gate_barriers : List String
gate_barriers =
    "gate" ∷ "lift_gate" ∷ "swing_gate" ∷ "sliding_gate" ∷ "wicket_gate" ∷ "hampshire_gate" ∷ []

abbrev pub gated : List String
gated = "private" ∷ "permit" ∷ "residents" ∷ []

abbrev pub gated_motor : List String
gated_motor = "private" ∷ "destination" ∷ "customers" ∷ []

abbrev pub open_access : List String
open_access = "yes" ∷ "permissive" ∷ "designated" ∷ []

pub record Access : Type 0 where
  pub keep : Bool
  pub restricted : Bool

-- What `directionFlags` returns.
pub record Directions : Type 0 where
  pub forward : Bool
  pub backward : Bool

abbrev drop_way : Access
drop_way = record { keep = false; restricted = false }

module _ {Tags : Type 0} (find : Tags → String → String) where
  unfoldable pub classify_access : Tags → Access
  classify_access tags =
      let hw = find tags "highway" in
      let access = find tags "access" in
      let motor = find tags "motor_vehicle" in
      if not (one_of car_highways hw) || str_eq (find tags "area") "yes"
      then drop_way
      else if str_eq access "no"
      then drop_way
      else if one_of gated access
      then record { keep = true; restricted = true }
      else if str_eq motor "no"
      then drop_way
      else if one_of gated_motor motor
      then record { keep = true; restricted = true }
      else record { keep = true; restricted = false }

  pub is_car_accessible : Tags → Bool
  is_car_accessible tags = (classify_access tags).keep

  pub node_barrier_restricts : Tags → Bool
  node_barrier_restricts tags =
      let b = find tags "barrier" in
      let access = find tags "access" in
      let motor = find tags "motor_vehicle" in
      if str_eq b "" || (not (one_of physical_barriers b) && not (one_of gate_barriers b))
      then false
      else if one_of open_access motor
      then false
      else if one_of open_access access
      then false
      else if one_of physical_barriers b
      then true
      else if str_eq (find tags "locked") "yes"
      then true
      else if one_of ("no" ∷ gated) access
      then true
      else one_of ("no" ∷ "private" ∷ []) motor

  unfoldable pub direction_flags : Tags → Directions
  direction_flags tags =
      let hw = find tags "highway" in
      let implied =
        str_eq hw "motorway"
        || str_eq hw "motorway_link"
        || str_eq (find tags "junction") "roundabout" in
      let oneway = find tags "oneway" in
      if one_of ("yes" ∷ "true" ∷ "1" ∷ []) oneway
      then record { forward = true; backward = false }
      else if one_of ("-1" ∷ "reverse" ∷ []) oneway
      then record { forward = false; backward = true }
      else if str_eq oneway "no"
      then record { forward = true; backward = true }
      else if str_eq oneway "reversible"
      then record { forward = false; backward = false }
      else record { forward = true; backward = not implied }
