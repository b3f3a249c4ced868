-- ===== src/Tests/Build.antt =====
-- A graph built from the three edges of two roads.
use mathlib.Core.List.Perm
use map_router.Base.{ℕ, ◌≡◌, true, false, List, [], ◌∷◌, arith, not, ltb, ◌==◌, if◌then◌else◌}
use map_router.Run.{Ensures}
use map_router.Sort.{SortSlice, insertion_sort}
use map_router.Osm.Parse.{RawEdge, ParseResult}
use map_router.Graph.Build.{CompactEdge, compact_less, compact_edge, number_nodes, build}
use map_router.Graph.Build.Correct.{IsGraphOf, compacted, build-IsGraphOf}
use map_router.Tests.Floats.{nat_float}

compact_less_asym :
    (a b : CompactEdge nat_float)
    → compact_less nat_float a b ≡ true
    → compact_less nat_float b a ≡ false
unfolding compact_less
compact_less_asym a b h = asym a.from a.to b.from b.to h
  where
    asym :
        (a a2 b b2 : ℕ)
        → (if not (a == b) then ltb a b else ltb a2 b2) ≡ true
        → (if not (b == a) then ltb b a else ltb b2 a2) ≡ false
    asym a a2 b b2 h = ground arith

abbrev compact_sort : SortSlice (compact_less nat_float)
compact_sort = insertion_sort (compact_less nat_float) compact_less_asym

abbrev road : ℕ → ℕ → ℕ → List ℕ → RawEdge nat_float
road from to weight shape = record {
  from_node_id = from;
  to_node_id = to;
  weight = weight;
  shape_lats = shape;
  shape_lons = shape;
  restricted = false;
}

abbrev roads : ParseResult nat_float
roads = record {
  edges = road 70 50 4 [] ∷ road 50 90 6 (8 ∷ []) ∷ road 50 70 4 [] ∷ [];
  nodes = (50, 5, 1) ∷ (70, 7, 2) ∷ (90, 9, 3) ∷ [];
}

build-IsGraphOf_example :
    Ensures
      (IsGraphOf nat_float roads (70 ∷ 50 ∷ 90 ∷ []) (compacted nat_float compact_sort roads))
      (build nat_float compact_sort (λ node_set. node_set) roads)
unfolding number_nodes compact_edge insertion_sort compact_less
build-IsGraphOf_example =
    build-IsGraphOf nat_float compact_sort (λ node_set. node_set) (λ node_set. Perm.refl node_set)
      roads (omega arith) (omega arith) (omega arith) (omega arith)
