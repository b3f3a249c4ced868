-- ===== src/Graph/UnionFind.antt =====
-- `UnionFind` of pkg/graph/component.go. `fuel` bounds the loop of `Find`.
pub mod Roots
pub mod Joined
pub mod United
use map_router.Base.{
  ℕ, zero, suc, ◌+◌, ◌%◌, Bool, true, false, List, [], ◌∷◌, ltb, ◌==◌, if◌then◌else◌, replicate,
}
use map_router.Run.{Run, ok, out_of_fuel, ◌>>=◌}
use map_router.Array.{at, put}
use map_router.Word.{add32}

pub record UnionFind : Type 0 where
  pub parent : List ℕ
  pub rank : List ℕ
  pub size : List ℕ

-- The numbers from `i` on, `k` of them.
abbrev pub from_on : ℕ → ℕ → List ℕ
from_on zero i = []
from_on (suc k) i = i ∷ from_on k (i + 1)

unfoldable pub new_union_find : ℕ → UnionFind
new_union_find n = record { parent = from_on n 0; rank = replicate n 0; size = replicate n 1 }

-- `Find`, on the parents: the representative, and the parents after path halving.
unfoldable pub find_loop : ℕ → List ℕ → ℕ → Run (ℕ × List ℕ)
find_loop zero parent x = out_of_fuel
find_loop (suc fuel) parent x =
    let halve : Run (ℕ × List ℕ) = do
      p ← at parent x
      above ← at parent p
      halved ← put parent x above
      find_loop fuel halved above
    in at parent x >>= λ p. if p == x then ok (x, parent) else halve

-- The body of `Union` behind the test, with the ranks of the two representatives: `ry` comes under
-- `rx`.
unfoldable pub link : UnionFind → ℕ → ℕ → ℕ → ℕ → Run UnionFind
link uf rx ry rank_x rank_y = do
  parents ← put uf.parent ry rx
  size_x ← at uf.size rx
  size_y ← at uf.size ry
  sizes ← put uf.size rx (add32 size_x size_y)
  ranks ← if rank_x == rank_y then put uf.rank rx ((rank_x + 1) % 256) else ok uf.rank
  ok (record { parent = parents; rank = ranks; size = sizes })

unfoldable pub union : ℕ → UnionFind → ℕ → ℕ → Run (Bool × UnionFind)
union fuel uf x y = do
  (rx, first) ← find_loop fuel uf.parent x
  (ry, second) ← find_loop fuel first y
  let found = record uf { parent = second }
  let join : Run (Bool × UnionFind) = do
    rank_x ← at uf.rank rx
    rank_y ← at uf.rank ry
    joined ←
        if ltb rank_x rank_y then link found ry rx rank_y rank_x else link found rx ry rank_x rank_y
    ok (true, joined)
  if rx == ry then ok (false, found) else join
