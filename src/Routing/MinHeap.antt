-- ===== src/Routing/MinHeap.antt =====
-- `MinHeap` of pkg/routing/dijkstra.go: the priority queue of one search direction. Its sifts are
-- those of `Heap`, at `Dist`.
pub mod Entries
use map_router.Base.{ℕ, List, [], ◌∷◌, length, pos}
use map_router.Run.{Run, ok, ◌>>=◌}
use map_router.Array.{Zeroed}
use map_router.Heap
use map_router.Heap.{Keyed}

-- `math.MaxUint32`, the label of a node that is not reached; also `noNode`.
abbrev pub max_u32 : ℕ
max_u32 = 4294967295

pub record PqItem : Type 0 where
  pub node : ℕ
  pub dist : ℕ

instance abbrev pub PqItem-Zeroed : Zeroed PqItem
PqItem-Zeroed = record { zero_value = record { node = 0; dist = 0 } }

instance abbrev pub PqItem-Keyed : Keyed PqItem
PqItem-Keyed = record { key = λ x. pos x.dist }

pub record MinHeap : Type 0 where
  pub items : List PqItem

pub len : MinHeap → ℕ
len h = length h.items

unfoldable pub sift_up : MinHeap → ℕ → Run MinHeap
sift_up h i = do a ← Heap.sift_up h.items i; ok (record { items = a })

unfoldable pub sift_down : MinHeap → ℕ → Run MinHeap
sift_down h i = do a ← Heap.sift_down h.items i; ok (record { items = a })

unfoldable pub push : MinHeap → ℕ → ℕ → Run MinHeap
push h node dist = do
  a ← Heap.push h.items (record { node = node; dist = dist })
  ok (record { items = a })

unfoldable pub pop : MinHeap → Run (PqItem × MinHeap)
pop h = do (x, a) ← Heap.pop h.items; ok (x, record { items = a })

peek_items : List PqItem → ℕ
peek_items [] = max_u32
peek_items (x ∷ a) = x.dist

unfoldable pub peek_dist : MinHeap → ℕ
unfolding peek_items
peek_dist h = peek_items h.items

unfoldable pub reset : MinHeap → MinHeap
reset h = record { items = [] }
