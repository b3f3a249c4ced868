-- ===== src/Graph/Rows.antt =====
-- The counting that turns edges into CSR rows. The code writes it out three times: in `Build` of
-- pkg/graph/builder.go, in `FilterToComponent` of pkg/graph/component.go and in `buildCSR` of
-- `buildOverlay` in pkg/ch/contractor.go. It is given the edges' sources, in order.
pub mod Count
pub mod Sorted
use map_router.Base.{ℕ, zero, suc, ◌+◌, ◌-◌, List, [], ◌∷◌, replicate}
use map_router.Run.{Run, ok, ◌>>=◌}
use map_router.Array.{at, put}
use map_router.Word.{add32}

-- `firstOut[e.from+1]++`
pub count_loop : List ℕ → List ℕ → Run (List ℕ)
count_loop [] first_out = ok first_out
count_loop (u ∷ us) first_out = do
  n ← at first_out (add32 u 1)
  counted ← put first_out (add32 u 1) (add32 n 1)
  count_loop us counted

-- `firstOut[i] += firstOut[i-1]`, over `k` indices from `i` on.
pub prefix_loop : ℕ → ℕ → List ℕ → Run (List ℕ)
prefix_loop zero i first_out = ok first_out
prefix_loop (suc k) i first_out = do
  here ← at first_out i
  before ← at first_out (i - 1)
  summed ← put first_out i (add32 here before)
  prefix_loop k (i + 1) summed

-- The array `firstOut` over `n` nodes.
unfoldable pub count_rows : ℕ → List ℕ → Run (List ℕ)
unfolding count_loop prefix_loop
count_rows n sources = do
  counted ← count_loop sources (replicate (add32 n 1) 0)
  prefix_loop n 1 counted
