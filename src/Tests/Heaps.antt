-- ===== src/Tests/Heaps.antt =====
-- Two entries of the routing heap.
use map_router.Base.{ℕ, ◌≡◌, refl, List, [], ◌∷◌, Perm, arith}
use map_router.Run.{Ensures, ok}
use map_router.Array.{at, put, get! }
use map_router.Heap.{push, pop}
use map_router.Heap.Order.{IsHeap}
use map_router.Heap.Queue.{Popped, push-IsHeap, pop-Popped}
use map_router.Routing.MinHeap.{PqItem, PqItem-Zeroed, PqItem-Keyed}

abbrev entry : ℕ → ℕ → PqItem
entry v d = record { node = v; dist = d }

abbrev two_entries : List PqItem
two_entries = entry 7 3 ∷ entry 8 5 ∷ []

two_entries-IsHeap : IsHeap two_entries
unfolding get!
two_entries-IsHeap c p q = let one : c ≡ 1 = omega arith in rw one (omega arith)

push-IsHeap_example :
    Ensures (λ b. IsHeap b × Perm b (entry 9 1 ∷ two_entries)) (push two_entries (entry 9 1))
push-IsHeap_example = push-IsHeap two_entries (entry 9 1) two_entries-IsHeap

pop-Popped_example : Ensures (Popped two_entries) (pop two_entries)
pop-Popped_example = pop-Popped two_entries two_entries-IsHeap (omega arith)

push_runs : push two_entries (entry 9 1) ≡ ok (entry 9 1 ∷ entry 8 5 ∷ entry 7 3 ∷ [])
unfolding push at put
push_runs = refl
