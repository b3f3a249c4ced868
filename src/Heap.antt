-- ===== src/Heap.antt =====
-- The binary min-heap that the program writes out once for each item type: `MinHeap`
-- (pkg/routing/dijkstra.go), `witnessHeap` (pkg/ch/witness.go) and `contractionPQ`
-- (pkg/ch/contractor.go). The three differ in the item's fields and in its key only, so the model
-- is generic in them. A slice index stays below twice the length plus two, so `int` holds it.
pub mod Order
pub mod Up
pub mod Down
pub mod Queue
use map_router.Base.{
  ℕ, zero, suc, ◌+◌, ◌-◌, ◌*◌, ◌/◌, ◌<◌, List, [], ◌∷◌, ◌++◌, ltb, leb, if◌then◌else◌, length, take,
  ℤ, ltb_ℤ, leb_ℤ,
}
use map_router.Run.{Run, ok, panic, out_of_fuel, ◌>>=◌}
use map_router.Array.{Zeroed, at, put, get! }

-- The field by which a heap is ordered.
pub record Keyed (A : Type 0) : Type 0 where
  pub key : A → ℤ

abbrev pub parent : ℕ → ℕ
parent i = (i - 1) / 2

module _ {A : Type 0} ⦃k : Keyed A⦄ where
  -- The loop of `siftUp`: the entry at `i` is the hole. Ends with the items and the hole's place.
  sift_up_loop : ℕ → List A → ℕ → A → Run (List A × ℕ)
  sift_up_loop zero items i item = out_of_fuel
  sift_up_loop (suc fuel) items i item =
      let climb : Run (List A × ℕ) = do
        above ← at items (parent i)
        let rise = put items i above >>= λ moved. sift_up_loop fuel moved (parent i) item
        if leb_ℤ (k.key above) (k.key item) then ok (items, i) else rise
      in if ltb 0 i then climb else ok (items, i)

  pub sift_up : List A → ℕ → Run (List A)
  sift_up items i = do
    item ← at items i
    (moved, hole) ← sift_up_loop (i + 1) items i item
    put moved hole item

  -- `if right := child + 1; right < n && … { child = right }`
  smaller_child : List A → ℕ → ℕ → Run ℕ
  smaller_child items n child =
      let both : Run ℕ = do
        r ← at items (child + 1)
        l ← at items child
        if ltb_ℤ (k.key r) (k.key l) then ok (child + 1) else ok child
      in if ltb (child + 1) n then both else ok child

  -- The loop of `siftDown`.
  sift_down_loop : ℕ → List A → ℕ → ℕ → A → Run (List A × ℕ)
  sift_down_loop zero items n i item = out_of_fuel
  sift_down_loop (suc fuel) items n i item =
      let descend : Run (List A × ℕ) = do
        child ← smaller_child items n (2 * i + 1)
        below ← at items child
        let sink = put items i below >>= λ moved. sift_down_loop fuel moved n child item
        if leb_ℤ (k.key item) (k.key below) then ok (items, i) else sink
      in if leb n (2 * i + 1) then ok (items, i) else descend

  pub sift_down : List A → ℕ → Run (List A)
  sift_down items i = do
    item ← at items i
    (moved, hole) ← sift_down_loop (length items + 1) items (length items) i item
    put moved hole item

  unfoldable pub push : List A → A → Run (List A)
  unfolding sift_up sift_up_loop
  push items x = let grown = items ++ x ∷ [] in sift_up grown (length grown - 1)

  -- An empty heap panics at the read of `items[0]`.
  unfoldable pub pop : List A → Run (A × List A)
  unfolding sift_down sift_down_loop smaller_child
  pop items = do
    top ← at items 0
    last ← at items (length items - 1)
    moved ← put items 0 last
    let cut = take (length items - 1) moved
    rest ← if ltb 0 (length cut) then sift_down cut 0 else ok cut
    ok (top, rest)
