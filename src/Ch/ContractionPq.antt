-- ===== src/Ch/ContractionPq.antt =====
-- `contractionPQ` of pkg/ch/contractor.go: the queue of nodes to contract, the heap of `Heap` on
-- the priority, an `int` that may be negative.
use map_router.Base.{ℕ, List, [], length, ℤ, pos}
use map_router.Run.{Run, ok, ◌>>=◌}
use map_router.Array.{Zeroed, at}
use map_router.Heap
use map_router.Heap.{Keyed}

pub record PqItem : Type 0 where
  pub node : ℕ
  pub priority : ℤ

instance abbrev pub PqItem-Zeroed : Zeroed PqItem
PqItem-Zeroed = record { zero_value = record { node = 0; priority = pos 0 } }

instance abbrev pub PqItem-Keyed : Keyed PqItem
PqItem-Keyed = record { key = λ x. x.priority }

pub record ContractionPq : Type 0 where
  pub items : List PqItem

unfoldable pub new_contraction_pq : ContractionPq
new_contraction_pq = record { items = [] }

unfoldable pub len : ContractionPq → ℕ
len q = length q.items

-- An empty queue panics.
unfoldable pub peek_priority : ContractionPq → Run ℤ
peek_priority q = do x ← at q.items 0; ok x.priority

unfoldable pub sift_up : ContractionPq → ℕ → Run ContractionPq
sift_up q i = do a ← Heap.sift_up q.items i; ok (record { items = a })

unfoldable pub sift_down : ContractionPq → ℕ → Run ContractionPq
sift_down q i = do a ← Heap.sift_down q.items i; ok (record { items = a })

unfoldable pub push : ContractionPq → ℕ → ℤ → Run ContractionPq
push q node priority = do
  a ← Heap.push q.items (record { node = node; priority = priority })
  ok (record { items = a })

unfoldable pub pop : ContractionPq → Run (PqItem × ContractionPq)
pop q = do (x, a) ← Heap.pop q.items; ok (x, record { items = a })
