-- ===== src/Routing/Unpack/Find.antt =====
-- `findEdge`: the first edge of a node to a target.
use map_router.Base.{
  ℕ, zero, suc, ◌+◌, ◌-◌, ◌≤◌, ◌<◌, ◌≡◌, ◌≢◌, refl, List, arith, ◌==◌, length, ℕ_discrete,
}
use map_router.Run.{Ensures, ensures, Ensures-mono, Ensures-if}
use map_router.Array.{Zeroed-ℕ, get!, at-ok}
use map_router.Graph.Csr.Valid.{IsCsr}
use map_router.Routing.QueryState.{no_node}
use map_router.Routing.Unpack.{find_edge, find_edge_loop}

-- The answer `e` of a search for `target` among the edges from `lo` up to `hi`.
pub data IsFound (head : List ℕ) (target lo hi : ℕ) (e : ℕ) : Type 0 where
  absent :
      e ≡ no_node → ((i : ℕ) → lo ≤ i → i < hi → get! head i ≢ target) → IsFound head target lo hi e
  present : e ≢ no_node → lo ≤ e → e < hi → get! head e ≡ target → IsFound head target lo hi e

IsFound-back :
    (head : List ℕ) (target lo hi e : ℕ)
    → get! head lo ≢ target
    → IsFound head target (lo + 1) hi e
    → IsFound head target lo hi e
IsFound-back head target lo hi e miss (absent none h) =
    absent none
      λ i p q. elim (ℕ_discrete i lo) [ yes same ↦ rw same miss | no later ↦ h i (omega arith) q ]
IsFound-back head target lo hi e miss (present some p q h) = present some (omega arith) q h

find_edge_loop-IsFound :
    (k : ℕ) (head : List ℕ) (target i hi : ℕ)
    → i + k ≡ hi
    → hi ≤ length head
    → length head ≤ no_node
    → Ensures (IsFound head target i hi) (find_edge_loop k head target i)
unfolding find_edge_loop
find_edge_loop-IsFound zero head target i hi e fits small =
    ensures (absent refl λ j p q. absurd (omega arith))
find_edge_loop-IsFound (suc k) head target i hi e fits small =
    let rest = find_edge_loop-IsFound k head target (i + 1) hi (omega arith) fits small in
    rw (at-ok head i (omega arith)) (
      Ensures-if (get! head i == target)
        (λ hit. ensures (present (omega arith) (omega arith) (omega arith) (ground arith)))
        (λ miss.
          let differs : get! head i ≢ target = λ same. absurd (ground arith) in
          Ensures-mono (λ e f. IsFound-back head target i hi e differs f) rest))

module _ {first_out head : List ℕ} {n : ℕ} (csr : IsCsr first_out head n) where
  IsCsr-upto : (k i : ℕ) → i + k ≡ n → get! first_out i ≤ length head
  IsCsr-upto zero i e = let same : i ≡ n = omega arith in omega (arith, rw (← same) at csr.last)
  IsCsr-upto (suc k) i e =
      omega (arith, csr.ordered i (omega arith), IsCsr-upto k (i + 1) (omega arith))

  -- The rows of a CSR graph lie in its edge arrays.
  pub IsCsr-ranges : (u : ℕ) → u ≤ n → get! first_out u ≤ length head
  IsCsr-ranges u p = IsCsr-upto (n - u) u (omega arith)

  -- `findEdge` ends, with the first edge of the node's row to the target, or with `noNode`.
  pub find_edge-IsFound :
      (source target : ℕ)
      → source < n
      → length head ≤ no_node
      → Ensures
          (IsFound head target (get! first_out source) (get! first_out (source + 1)))
          (find_edge first_out head source target)
  unfolding find_edge
  find_edge-IsFound source target inside small =
      rw
        (
          at-ok first_out source (omega (arith, csr.firsts)),
          at-ok first_out (source + 1) (omega (arith, csr.firsts)),
        )
        (find_edge_loop-IsFound _ head target (get! first_out source) (get! first_out (source + 1))
          (omega (arith, csr.ordered source inside)) (IsCsr-ranges (source + 1) (omega arith))
          small)
