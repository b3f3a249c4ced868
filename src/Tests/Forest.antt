-- ===== src/Tests/Forest.antt =====
-- `Find` and `Union` in a forest of a chain of three elements and one alone.
use map_router.Base.{ℕ, zero, suc, ◌<◌, ◌≢◌, refl, List, [], ◌∷◌, arith}
use map_router.Run.{Ensures}
use map_router.Array.{Zeroed-ℕ, get! }
use map_router.Graph.UnionFind.{UnionFind, new_union_find, find_loop, union}
use map_router.Graph.UnionFind.Roots.{Root, top, up, IsForest, SameRoots, find_loop-Root}
use map_router.Graph.UnionFind.Joined.{IsSets}
use map_router.Graph.UnionFind.United.{IsUnion, union-IsUnion, new_union_find-IsSets}

abbrev parents : List ℕ
parents = 1 ∷ 2 ∷ 2 ∷ 3 ∷ []

height : ℕ → ℕ
height zero = 0
height (suc zero) = 1
height (suc (suc x)) = 2

parents-IsForest : IsForest 4 4 height parents
unfolding get! height
parents-IsForest = record {
  size = refl;
  inside = λ x h. inside x h;
  rises = λ x h moves. rises x h moves;
  bound = λ x h. bound x h;
}
  where
    inside : (x : ℕ) → x < 4 → get! parents x < 4
    inside zero h = omega arith
    inside (suc zero) h = omega arith
    inside (suc (suc zero)) h = omega arith
    inside (suc (suc (suc zero))) h = omega arith
    inside (suc (suc (suc (suc x)))) h = absurd (omega arith)

    rises : (x : ℕ) → x < 4 → get! parents x ≢ x → height x < height (get! parents x)
    rises zero h moves = omega arith
    rises (suc zero) h moves = omega arith
    rises (suc (suc zero)) h moves = absurd (moves refl)
    rises (suc (suc (suc zero))) h moves = absurd (moves refl)
    rises (suc (suc (suc (suc x)))) h moves = absurd (omega arith)

    bound : (x : ℕ) → x < 4 → height x < 4
    bound zero h = omega arith
    bound (suc zero) h = omega arith
    bound (suc (suc x)) h = omega arith

find_loop-Root_example :
    Ensures
      (λ (r, after). Root parents 0 r × IsForest 4 4 height after × SameRoots 4 parents after)
      (find_loop 5 parents 0)
find_loop-Root_example =
    find_loop-Root 4 4 height 5 parents 0 parents-IsForest (omega arith) (omega arith)

abbrev sets : UnionFind
sets = record { parent = parents; rank = 0 ∷ 0 ∷ 1 ∷ 0 ∷ []; size = 1 ∷ 2 ∷ 3 ∷ 1 ∷ [] }

root_two : Root parents 0 2
unfolding get!
root_two = up (λ e. absurd (omega (arith, e))) (up (λ e. absurd (omega (arith, e))) (top refl))

root_three : Root parents 3 3
unfolding get!
root_three = top refl

sets-IsSets : IsSets 4 4 sets
sets-IsSets = record {
  height = height;
  forest = parents-IsForest;
  rank_size = refl;
  size_size = refl;
}

union-IsUnion_example :
    Ensures (λ (answer, after). IsUnion 4 4 parents 2 3 answer after) (union 5 sets 0 3)
union-IsUnion_example =
    union-IsUnion 4 4 5 sets 0 3 2 3 sets-IsSets (omega arith) (omega arith) (omega arith) root_two
      root_three

new_union_find-IsSets_example :
    IsSets 3 1 (new_union_find 3) × ((x : ℕ) → x < 3 → Root (new_union_find 3).parent x x)
new_union_find-IsSets_example = new_union_find-IsSets 3
