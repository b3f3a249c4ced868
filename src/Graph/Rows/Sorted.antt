-- ===== src/Graph/Rows/Sorted.antt =====
-- Where the sources ascend, the edge at an index lies in the row of its source.
use map_router.Base.{ℕ, zero, suc, ◌+◌, ◌≤◌, ◌<◌, ◌≡◌, List, [], ◌∷◌, arith, length}
use map_router.Array.{Zeroed-ℕ, get! }
use map_router.Graph.Rows.Count.{below}

abbrev pub IsAscending : List ℕ → Type 0
IsAscending [] = Unit
IsAscending (u ∷ []) = Unit
IsAscending (u ∷ v ∷ rest) = (u ≤ v) × IsAscending (v ∷ rest)

module _ (u : ℕ) where
  pub IsAscending-rest : (us : List ℕ) → IsAscending (u ∷ us) → IsAscending us
  IsAscending-rest [] a = tt
  IsAscending-rest (v ∷ rest) a = a.1

ascending-le : (u : ℕ) (us : List ℕ) (e : ℕ) → IsAscending (u ∷ us) → e < length us → u ≤ get! us e
unfolding get!
ascending-le u [] e a p = absurd (omega arith)
ascending-le u (v ∷ rest) zero (le, a) p = le
ascending-le u (v ∷ rest) (suc e) (le, a) p = omega (arith, ascending-le v rest e a (omega arith))

pub below-none : (i u : ℕ) (us : List ℕ) → IsAscending (u ∷ us) → i ≤ u → below i (u ∷ us) ≡ 0
below-none i u [] a h = ground arith
below-none i u (v ∷ rest) (le, a) h = ground (arith, below-none i v rest a (omega arith))

pub below-upto :
    (i : ℕ) (us : List ℕ) (e : ℕ) → IsAscending us → e < length us → i ≤ get! us e → below i us ≤ e
unfolding get!
below-upto i [] e a p h = absurd (omega arith)
below-upto i (u ∷ us) zero a p h = omega (arith, below-none i u us a h)
below-upto i (u ∷ us) (suc e) a p h =
    ground (arith, below-upto i us e (IsAscending-rest u us a) (omega arith) h)

pub below-past :
    (i : ℕ) (us : List ℕ) (e : ℕ) → IsAscending us → e < length us → get! us e < i → e < below i us
unfolding get!
below-past i [] e a p h = absurd (omega arith)
below-past i (u ∷ us) zero a p h = ground arith
below-past i (u ∷ us) (suc e) a p h =
    let le = ascending-le u us e a (omega arith) in
    ground (arith, below-past i us e (IsAscending-rest u us a) (omega arith) h)

pub ascending-row :
    (us : List ℕ) (e : ℕ)
    → IsAscending us
    → e < length us
    → (below (get! us e) us ≤ e) × (e < below (get! us e + 1) us)
ascending-row us e a p = (
  below-upto (get! us e) us e a p (omega arith),
  below-past (get! us e + 1) us e a p (omega arith),
)
