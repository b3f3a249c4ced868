-- ===== src/Osm/Speeds/Bounds.antt =====
-- The floor and the cap of a class bound the speed of its ways.
use Prim.Native.String.{String}
use map_router.Base.{◌≡◌, false, none, some, arith}
use map_router.Float.{Float}
use map_router.Osm.Speeds.{Texts, SpeedTable, lookup, class_bound, at_least, at_most, speed_kmh}

module _ (f : Float) (irreflexive : (x : f.F) → f.lt x x ≡ false) (t : Texts f.F) {Tags : Type 0}
    (find : Tags → String → String) (s : SpeedTable f) (tags : Tags) where
  -- The speed is never above the cap of the way's class.
  pub speed_kmh-cap :
      (c : f.F)
      → lookup (t.trim_suffix (find tags "highway") "_link") s.cap_class_kmh ≡ some c
      → f.lt
          (class_bound f t s (t.has_suffix (find tags "highway") "_link") c)
          (speed_kmh f t find s tags)
        ≡ false
  unfolding speed_kmh at_most
  speed_kmh-cap c e = rw e (
      ground
        (arith, irreflexive (class_bound f t s (t.has_suffix (find tags "highway") "_link") c)))

  -- The speed is never below the floor of the way's class, unless the class has a cap.
  pub speed_kmh-floor :
      (c : f.F)
      → lookup (t.trim_suffix (find tags "highway") "_link") s.floor_class_kmh ≡ some c
      → lookup (t.trim_suffix (find tags "highway") "_link") s.cap_class_kmh ≡ none
      → f.lt
          (speed_kmh f t find s tags)
          (class_bound f t s (t.has_suffix (find tags "highway") "_link") c)
        ≡ false
  unfolding speed_kmh at_most at_least
  speed_kmh-floor c e e' =
      rw (e', e)
        (ground
          (arith, irreflexive (class_bound f t s (t.has_suffix (find tags "highway") "_link") c)))
