-- ===== src/Tests/Contraction.antt =====
-- A witness search around node 1, and the upward edges of a small graph in CSR form.
use map_router.Base.{
  ℕ, zero, suc, ◌+◌, ◌<◌, ◌≡◌, refl, false, List, [], ◌∷◌, some, arith, negsuc, get_elem?,
}
use map_router.Run.{Ensures}
use map_router.Array.{get! }
use map_router.Ch.Witness.{
  AdjEntry, Adjacency, new_witness_state, reset_state, batch_witness_search,
}
use map_router.Ch.Witness.Paths.{Zeroed-entries, IsAdjacency}
use map_router.Ch.Witness.Found.{IsFound, batch_witness_search-IsFound}
use map_router.Ch.WitnessHeap
use map_router.Ch.Overlay.{CsrEdge, build_csr}
use map_router.Ch.Overlay.Build.{IsBuilt, build_csr-IsBuilt}
use map_router.Word.{u32_mod}

abbrev entry : ℕ → ℕ → AdjEntry
entry to weight = record { to = to; weight = weight; middle = negsuc 0 }

abbrev out_adj : Adjacency
out_adj = (entry 1 2 ∷ entry 2 9 ∷ []) ∷ [] ∷ [] ∷ []

entries-small :
    (u i : ℕ) (e : AdjEntry)
    → get_elem? (get! out_adj u) i ≡ some e
    → (e.to < 3) × (10 + e.weight < u32_mod)
unfolding get!
entries-small zero zero e h =
    let same : entry 1 2 ≡ e = cc in rw (← same) (omega arith, omega arith)
entries-small zero (suc zero) e h =
    let same : entry 2 9 ≡ e = cc in rw (← same) (omega arith, omega arith)
entries-small zero (suc (suc i)) e h = cc
entries-small (suc zero) i e h = cc
entries-small (suc (suc zero)) i e h = cc
entries-small (suc (suc (suc u))) i e h = cc

out_adj-IsAdjacency : IsAdjacency out_adj 0 1 (false ∷ false ∷ false ∷ []) 3 10 (omega arith)
out_adj-IsAdjacency = record {
  size = refl;
  marks = refl;
  heads = λ u i e h. (entries-small u i e h).0;
  no_wrap = λ u i e h. (entries-small u i e h).1;
}

batch_witness_search-IsFound_example :
    Ensures
      (IsFound out_adj 0 1 (false ∷ false ∷ false ∷ []) 3 10 (omega arith) out_adj-IsAdjacency)
      (batch_witness_search 99_999_999_999
        (new_witness_state 3)
        out_adj
        0
        1
        10
        (false ∷ false ∷ false ∷ []))
unfolding new_witness_state reset_state WitnessHeap.reset
batch_witness_search-IsFound_example =
    batch_witness_search-IsFound out_adj 0 1 (false ∷ false ∷ false ∷ []) 3 10 (omega arith)
      out_adj-IsAdjacency 99_999_999_999 (new_witness_state 3) refl (omega arith) (omega arith)

abbrev upward : List CsrEdge
upward =
    record { from = 1; to = 2; weight = 5; middle = negsuc 0 }
    ∷ record { from = 0; to = 2; weight = 9; middle = negsuc 0 }
    ∷ record { from = 0; to = 1; weight = 4; middle = negsuc 0 }
    ∷ []

build_csr-IsBuilt_example :
    Ensures (λ (first_out, a). IsBuilt 3 upward first_out a) (build_csr 3 upward)
build_csr-IsBuilt_example =
    build_csr-IsBuilt 3 upward (omega arith) (omega arith)
      ((omega arith, omega arith), ((omega arith, omega arith), ((omega arith, omega arith), tt)))
