-- ===== src/Tests/Routes.antt =====
-- A road with two nodes: its index, the candidates near a point, and a query between two points.
use map_router.Base.{
  ◌+ℤ◌, ℕ, ◌+◌, ◌≤◌, ◌<◌, ◌≡◌, refl, Bool, true, false, List, [], ◌∷◌, ltb, arith, if◌then◌else◌,
  zero, suc, Bool-cases, inl, inr, ℕ_discrete,
}
use map_router.Run.{ok, Ensures}
use map_router.Array.{Zeroed-ℕ, get!, at}
use map_router.Geo.{point_to_segment_dist}
use map_router.Word.{u32_of_i32}
use map_router.Sort.{SortSlice, insertion_sort}
use map_router.Graph.{Graph}
use map_router.Routing.Snap.Grid.{
  SearchSlice, CellEdge, Snapper, key_less, cell_range, cell_key, grid_cell,
}
use map_router.Routing.Snap.Grid.Range.{with_key, cell_range-with_key}
use map_router.Routing.Snap.Nearest.{ring_keys, dist_less, snap_candidates}
use map_router.Routing.Snap.Nearest.Result.{IsIndex, IsNearest, snap_candidates-IsNearest}
use map_router.Tests.Floats.{nat_float}

-- A linear search, which finds what `sort.Search` promises to find.
linear : ℕ → ℕ → (ℕ → Bool) → ℕ
linear zero i test = i
linear (suc k) i test = let rest = linear k (i + 1) test in if test i then i else rest

abbrev pub two_way : Graph ℕ
two_way = record {
  num_nodes = 2;
  num_edges = 2;
  first_out = 0 ∷ 1 ∷ 2 ∷ [];
  head = 1 ∷ 0 ∷ [];
  weight = 4 ∷ 4 ∷ [];
  edge_restricted = [];
  node_lat = 1 ∷ 2 ∷ [];
  node_lon = 1 ∷ 1 ∷ [];
  geo_first_out = 0 ∷ 0 ∷ 0 ∷ [];
  geo_shape_lat = [];
  geo_shape_lon = [];
}

linear-least :
    (k i : ℕ) (test : ℕ → Bool)
    → ((a b : ℕ) → a ≤ b → b < i + k → test a ≡ true → test b ≡ true)
    → (linear k i test ≤ i + k)
      × ((j : ℕ) → i ≤ j → j < linear k i test → test j ≡ false)
      × (linear k i test < i + k → test (linear k i test) ≡ true)
unfolding linear
linear-least zero i test mono =
    (omega arith, λ j p q. absurd (omega arith), λ q. absurd (omega arith))
linear-least (suc k) i test mono =
    let (le, fails, passes) =
      linear-least k (i + 1) test (λ a b p q t. mono a b p (omega arith) t) in
    elim (Bool-cases (test i)) [
      | inl here ↦ rw here (omega arith, λ j p q. absurd (omega arith), λ q. here)
      | inr gone ↦ rw gone (
        omega arith,
        λ j p q. elim (ℕ_discrete j i) [
          | yes same ↦ rw same gone
          | no later ↦ fails j (omega arith) q
        ],
        λ q. passes (omega arith),
      )
    ]

abbrev linear_search : SearchSlice
linear_search = record {
  search = λ n test. linear n 0 test;
  least = λ n test mono.
      let zero_n : 0 + n ≡ n = omega arith in
      let (le, fails, passes) = linear-least n 0 test (λ a b p q t. mono a b p (omega arith) t) in
      (omega arith, λ i q. fails i (omega arith) q, λ q. passes (omega arith));
}

key_sort : SortSlice key_less
key_sort = insertion_sort key_less (λ a b h. asym a.key b.key h)
  where
    asym : (a b : ℕ) → ltb a b ≡ true → ltb b a ≡ false
    asym a b h = ground arith

dist_sort : SortSlice (dist_less nat_float)
dist_sort = insertion_sort (dist_less nat_float) (λ a b h. asym a.dist b.dist h)
  where
    asym : (a b : ℕ) → ltb a b ≡ true → ltb b a ≡ false
    asym a b h = ground arith

abbrev cells : List CellEdge
cells =
    record { key = 3; edge_idx = 0; source = 0 }
    ∷ record { key = 4; edge_idx = 0; source = 0 }
    ∷ record { key = 4; edge_idx = 1; source = 1 }
    ∷ record { key = 7; edge_idx = 1; source = 1 }
    ∷ []

cell_range-with_key_example : cell_range linear_search cells 4 ≡ with_key 4 cells
cell_range-with_key_example = cell_range-with_key linear_search cells 4 (refl, (refl, (refl, tt)))

-- Two of the cells are next to the point.
abbrev near_cells : List CellEdge
near_cells =
    record { key = 0; edge_idx = 0; source = 0 }
    ∷ record { key = 1; edge_idx = 1; source = 1 }
    ∷ record { key = 7; edge_idx = 1; source = 1 }
    ∷ []

abbrev index : Snapper nat_float
index = record { edges = near_cells; g = two_way }

index-IsIndex : IsIndex nat_float 2 index
unfolding get!
index-IsIndex = record {
  ordered = (refl, (refl, tt));
  stray = refl;
  lats = refl;
  lons = refl;
  heads = λ e p. two e p;
}
  where
    two : (e : ℕ) → e < 2 → get! (1 ∷ 0 ∷ []) e < 2
    two zero p = omega arith
    two (suc zero) p = omega arith
    two (suc (suc e)) p = absurd (omega arith)

snap_candidates-IsNearest_example :
    Ensures
      (IsNearest nat_float 2 index index-IsIndex 1 1 500 8 dist_sort.sort)
      (snap_candidates nat_float linear_search dist_sort index 1 1 8 500)
snap_candidates-IsNearest_example =
    snap_candidates-IsNearest nat_float 2 index index-IsIndex 1 1 500 linear_search dist_sort 8

snap_runs :
    snap_candidates nat_float linear_search dist_sort index 1 1 8 500
    ≡ ok (record { edge_idx = 0; node_u = 0; node_v = 1; ratio = 0; dist = 0 } ∷ [])
unfolding snap_candidates ring_keys grid_cell cell_key cell_range dist_sort linear at ◌+ℤ◌
    insertion_sort point_to_segment_dist u32_of_i32 get!
snap_runs = refl
