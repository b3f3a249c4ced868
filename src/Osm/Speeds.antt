-- ===== src/Osm/Speeds.antt =====
-- pkg/osm/speeds.go: free-flow speeds. The functions of packages strings and strconv that it calls
-- are the record `Texts`.
pub mod Bounds
use Prim.Native.String.{String}
use text.Mathlib.Text.{◌==◌ as str_eq}
use map_router.Base.{
  ℕ, Bool, true, false, not, ◌&&◌, ◌||◌, List, [], ◌∷◌, Option, none, some, if◌then◌else◌,
}
use map_router.Float.{Float}
use map_router.Osm.Access.{one_of}

-- A Go map from texts; a nil map is `none`.
abbrev pub StringMap : Type 0 → Type 0
StringMap V = Option (List (String × V))

module _ {V : Type 0} where
  lookup_in : String → List (String × V) → Option V
  lookup_in k [] = none
  lookup_in k ((j, v) ∷ m) = if str_eq k j then some v else lookup_in k m

  -- `v, ok := m[k]`
  unfoldable pub lookup : String → StringMap V → Option V
  unfolding lookup_in
  lookup k none = none
  lookup k (some m) = lookup_in k m

  -- `if raw != nil { def = raw }`
  unfoldable pub or_map : StringMap V → StringMap V → StringMap V
  or_map none old = old
  or_map (some m) old = some m

pub record Texts (F : Type 0) : Type 0 where
  pub has_suffix : String → String → Bool
  pub trim_suffix : String → String → String
  pub trim_space : String → String
  pub fields : String → List String
  pub to_lower : String → String
  pub parse_float : String → Option F

module _ (f : Float) where
  open f use {F, of_ratio, neg, mul, lt, le}

  pub record SpeedTable : Type 0 where
    pub class_kmh : StringMap F
    pub zone_kmh : StringMap F
    pub link_factor : F
    pub fallback : F
    pub maxspeed_factor : F
    pub floor_class_kmh : StringMap F
    pub cap_class_kmh : StringMap F

  abbrev whole : ℕ → F
  whole n = of_ratio n 1

  abbrev pub default_speed_table : SpeedTable
  default_speed_table = record {
    class_kmh = some (
        ("motorway", whole 90)
        ∷ ("trunk", whole 70)
        ∷ ("primary", whole 55)
        ∷ ("secondary", whole 45)
        ∷ ("tertiary", whole 38)
        ∷ ("unclassified", whole 35)
        ∷ ("residential", whole 25)
        ∷ ("living_street", whole 12)
        ∷ ("service", whole 15)
        ∷ []);
    zone_kmh = some (
        ("MY:urban", whole 60)
        ∷ ("MY:rural", whole 90)
        ∷ ("MY:expressway", whole 110)
        ∷ ("RM:urban", whole 60)
        ∷ ("RM:rural", whole 90)
        ∷ []);
    link_factor = of_ratio 7 10;
    fallback = whole 30;
    maxspeed_factor = whole 1;
    floor_class_kmh = none;
    cap_class_kmh = none;
  }

  -- `ParseSpeedTable`, from the table that the JSON text decodes to (absent fields are zero), or
  -- `none` where it does not decode.
  unfoldable pub parse_speed_table : Option SpeedTable → Option SpeedTable
  unfolding or_map
  parse_speed_table none = none
  parse_speed_table (some raw) =
      let positive = λ (new : F) (old : F). if lt (whole 0) new then new else old in
      some (record {
        class_kmh = or_map raw.class_kmh default_speed_table.class_kmh;
        zone_kmh = or_map raw.zone_kmh default_speed_table.zone_kmh;
        link_factor = positive raw.link_factor default_speed_table.link_factor;
        fallback = positive raw.fallback default_speed_table.fallback;
        maxspeed_factor = positive raw.maxspeed_factor default_speed_table.maxspeed_factor;
        floor_class_kmh = or_map raw.floor_class_kmh default_speed_table.floor_class_kmh;
        cap_class_kmh = or_map raw.cap_class_kmh default_speed_table.cap_class_kmh;
      })

  value_or : Option F → F → F
  value_or none d = d
  value_or (some v) d = v

  unfoldable pub class_speed : SpeedTable → String → F
  unfolding lookup value_or
  class_speed s hw = value_or (lookup hw s.class_kmh) s.fallback

  module _ (t : Texts F) where
    -- The switch on the unit, at `n` and the factor `fac`.
    with_unit : F → F → List String → Option F
    with_unit n fac [] = some (mul n fac)
    with_unit n fac (u ∷ us) =
        let unit = t.to_lower u in
        if str_eq unit "mph"
        then some (mul (mul n (of_ratio 1609344 1000000)) fac)
        else if one_of ("km/h" ∷ "kmh" ∷ "kph" ∷ []) unit
        then some (mul n fac)
        else none

    -- From the decoded first field on.
    numeric_speed : SpeedTable → Option F → List String → Option F
    numeric_speed s none rest = none
    numeric_speed s (some n) rest =
        if le n (whole 0)
        then none
        else with_unit n (if le s.maxspeed_factor (whole 0) then whole 1 else s.maxspeed_factor)
            rest

    fields_speed : SpeedTable → List String → Option F
    fields_speed s [] = none
    fields_speed s (x ∷ rest) = numeric_speed s (t.parse_float x) rest

    zone_or : Option F → Option F → Option F
    zone_or (some v) other = some v
    zone_or none other = other

    unfoldable pub parse_maxspeed : SpeedTable → String → Option F
    unfolding with_unit numeric_speed fields_speed zone_or
    parse_maxspeed s ms = zone_or (lookup ms s.zone_kmh) (fields_speed s (t.fields ms))

    -- A class's floor or cap, scaled for a link.
    pub class_bound : SpeedTable → Bool → F → F
    class_bound s is_link b = if is_link then mul b s.link_factor else b

    at_least : SpeedTable → Bool → Option F → F → F
    at_least s is_link none v = v
    at_least s is_link (some b) v =
        if lt v (class_bound s is_link b) then class_bound s is_link b else v

    at_most : SpeedTable → Bool → Option F → F → F
    at_most s is_link none v = v
    at_most s is_link (some b) v =
        if lt (class_bound s is_link b) v then class_bound s is_link b else v

    module _ {Tags : Type 0} (find : Tags → String → String) where
      -- The speed before the floor and the cap.
      pub base_speed : SpeedTable → Tags → F
      base_speed s tags =
          let hw = find tags "highway" in
          let base = t.trim_suffix hw "_link" in
          let ms = t.trim_space (find tags "maxspeed") in
          let tagged =
            if str_eq ms ""
            then neg (whole 1)
            else value_or (parse_maxspeed s ms) (neg (whole 1)) in
          let class =
            if t.has_suffix hw "_link"
            then mul s.link_factor (class_speed s base)
            else class_speed s base in
          if lt tagged (whole 0) then class else tagged

      pub speed_kmh : SpeedTable → Tags → F
      speed_kmh s tags =
          let hw = find tags "highway" in
          let is_link = t.has_suffix hw "_link" in
          let base = t.trim_suffix hw "_link" in
          at_most s is_link (lookup base s.cap_class_kmh)
            (at_least s is_link (lookup base s.floor_class_kmh) (base_speed s tags))
