-- ===== src/Ch/WitnessHeap.antt =====
-- `witnessHeap` of pkg/ch/witness.go: the priority queue of a witness search, the heap of `Heap` on
-- the distance.
use map_router.Base.{ℕ, List, [], length, pos}
use map_router.Run.{Run, ok, ◌>>=◌}
use map_router.Array.{Zeroed}
use map_router.Heap
use map_router.Heap.{Keyed}

pub record WitnessHeapItem : Type 0 where
  pub node : ℕ
  pub dist : ℕ
  pub hops : ℕ

instance abbrev pub WitnessHeapItem-Zeroed : Zeroed WitnessHeapItem
WitnessHeapItem-Zeroed = record { zero_value = record { node = 0; dist = 0; hops = 0 } }

instance abbrev pub WitnessHeapItem-Keyed : Keyed WitnessHeapItem
WitnessHeapItem-Keyed = record { key = λ x. pos x.dist }

pub record WitnessHeap : Type 0 where
  pub items : List WitnessHeapItem

unfoldable pub len : WitnessHeap → ℕ
len h = length h.items

unfoldable pub sift_up : WitnessHeap → ℕ → Run WitnessHeap
sift_up h i = do a ← Heap.sift_up h.items i; ok (record { items = a })

unfoldable pub sift_down : WitnessHeap → ℕ → Run WitnessHeap
sift_down h i = do a ← Heap.sift_down h.items i; ok (record { items = a })

unfoldable pub push : WitnessHeap → ℕ → ℕ → ℕ → Run WitnessHeap
push h node dist hops = do
  a ← Heap.push h.items (record { node = node; dist = dist; hops = hops })
  ok (record { items = a })

unfoldable pub pop : WitnessHeap → Run (WitnessHeapItem × WitnessHeap)
pop h = do (x, a) ← Heap.pop h.items; ok (x, record { items = a })

unfoldable pub reset : WitnessHeap → WitnessHeap
reset h = record { items = [] }
