-- ===== src/Heap/Order.antt =====
-- The heap order, and the entries that it puts first.
use map_router.Base.{ℕ, zero, suc, ◌<◌, ◌≡◌, List, arith, length, ◌≤ℤ◌}
use map_router.Array.{Zeroed, get! }
use map_router.Heap.{Keyed, parent}

module _ {A : Type 0} ⦃z : Zeroed A⦄ ⦃k : Keyed A⦄ where
  -- The edge from the parent of `c` to `c` is in order.
  abbrev pub IsInOrder : List A → ℕ → Type 0
  IsInOrder a c = k.key (get! a (parent c)) ≤ℤ k.key (get! a c)

  -- No entry has a key below its parent's.
  abbrev pub IsHeap : List A → Type 0
  IsHeap a = (c : ℕ) → 0 < c → c < length a → IsInOrder a c

  -- The edges from the parent of `i` past `i` to the children of `i` are in order.
  abbrev pub IsBridged : List A → ℕ → Type 0
  IsBridged a i =
      (c : ℕ)
      → 0 < c
      → c < length a
      → parent c ≡ i
      → 0 < i
      → k.key (get! a (parent i)) ≤ℤ k.key (get! a c)

  root_least_below :
      (n : ℕ) (a : List A) (i : ℕ)
      → IsHeap a
      → i < n
      → i < length a
      → k.key (get! a 0) ≤ℤ k.key (get! a i)
  root_least_below zero a i h f p = absurd (omega arith)
  root_least_below (suc n) a i h f p = ground (arith, h i, root_least_below n a (parent i) h)

  -- The first entry of a heap has the least key.
  pub root_least :
      (a : List A) (i : ℕ) → IsHeap a → i < length a → k.key (get! a 0) ≤ℤ k.key (get! a i)
  root_least a i h p = root_least_below (suc i) a i h (omega arith) p
