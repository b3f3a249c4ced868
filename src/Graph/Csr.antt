-- ===== src/Graph/Csr.antt =====
-- `validateCSR` of pkg/graph/binary.go.
pub mod Valid
use map_router.Base.{
  ℕ, zero, suc, ◌+◌, ◌-◌, ◌%◌, Bool, true, false, List, [], ◌∷◌, ltb, leb, ◌==◌, if◌then◌else◌,
  length,
}
use map_router.Word.{u32_mod, add32}
use map_router.Load.{
  Load, loaded, failed, panic, ◌>>=◌, ◌>>◌, require, first_out_length, head_length, not_monotonic,
  head_out_of_range,
}

-- `a[i]`
pub fetch : List ℕ → ℕ → Load ℕ
fetch [] i = panic
fetch (x ∷ a) zero = loaded x
fetch (x ∷ a) (suc i) = fetch a i

-- The loop over `k` indices from `i` on that compares `FirstOut[i]` with `FirstOut[i-1]`.
monotonic : ℕ → List ℕ → ℕ → Load (Unit {0})
monotonic zero first_out i = loaded tt
monotonic (suc k) first_out i =
    let rest = monotonic k first_out (i + 1) in
    fetch first_out i >>= λ here.
    fetch first_out (i - 1) >>= λ before. if ltb here before then failed (not_monotonic i) else rest

-- The loop over the heads, from index `i` on.
heads_in_range : ℕ → List ℕ → ℕ → Load (Unit {0})
heads_in_range i [] num_nodes = loaded tt
heads_in_range i (h ∷ hs) num_nodes =
    let rest = heads_in_range (i + 1) hs num_nodes in
    if leb num_nodes h then failed (head_out_of_range i) else rest

unfoldable pub validate_csr : List ℕ → List ℕ → ℕ → Load (Unit {0})
unfolding monotonic heads_in_range fetch
validate_csr first_out head num_nodes = do
  require (length first_out % u32_mod == add32 num_nodes 1) first_out_length
  num_edges ← fetch first_out num_nodes
  require (length head % u32_mod == num_edges) head_length
  monotonic num_nodes first_out 1
  heads_in_range 0 head num_nodes
