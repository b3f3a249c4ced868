-- ===== src/Routing/MinHeap/Entries.antt =====
-- `Push`, `Pop` and `PeekDist` of `MinHeap` as operations on the collection of entries.
use mathlib.Core.List.{Permᴰ}
use mathlib.Core.Logic.{∥∥₁_elim}
use map_router.Base.{
  ℕ, suc, ◌≤◌, ◌<◌, ◌≡◌, refl, ap, sym, ◌∙◌, Bool, true, false, ◌&&◌, ◌||◌, List, [], ◌∷◌, Perm,
  arith, ◌==◌, length,
}
use map_router.Run.{Ensures, ensures, Ensures-bind}
use map_router.Array.{get!, length-perm}
use map_router.Heap.Order.{IsHeap, root_least}
use map_router.Heap.Queue.{push-IsHeap, pop-Popped}
use map_router.Routing.MinHeap.{
  PqItem, PqItem-Zeroed, PqItem-Keyed, MinHeap, push, pop, peek_items, peek_dist, max_u32,
}

abbrev pub is_entry : ℕ → ℕ → PqItem → Bool
is_entry v d x = x.node == v && x.dist == d

-- Some entry is for node `v` at distance `d`.
abbrev pub has : ℕ → ℕ → List PqItem → Bool
has v d [] = false
has v d (x ∷ a) = is_entry v d x || has v d a

Bool-set : (b c : Bool) (p q : b ≡ c) → p ≡ q
Bool-set = hlevel

has-permᴰ : (v d : ℕ) {a b : List PqItem} → Permᴰ a b → has v d a ≡ has v d b
has-permᴰ v d Permᴰ.nil = refl
has-permᴰ v d (Permᴰ.cons e p) = rw (e, has-permᴰ v d p)
has-permᴰ v d (Permᴰ.swap x y) = ground arith
has-permᴰ v d (Permᴰ.trans p q) = has-permᴰ v d p ∙ has-permᴰ v d q

has-perm : (v d : ℕ) {a b : List PqItem} → Perm a b → has v d a ≡ has v d b
has-perm v d p = ∥∥₁_elim p (Bool-set _ _) (has-permᴰ v d)

pub record Pushed (h : MinHeap) (node dist : ℕ) (q : MinHeap) : Type 0 where
  pub heap : IsHeap q.items
  pub entries : (v d : ℕ) → has v d q.items ≡ ((node == v && dist == d) || has v d h.items)
  pub size : length q.items ≡ suc (length h.items)

pub push-Pushed :
    (h : MinHeap) (node dist : ℕ) → IsHeap h.items → Ensures (Pushed h node dist) (push h node dist)
unfolding push
push-Pushed h node dist s =
    Ensures-bind (push-IsHeap h.items (record { node = node; dist = dist }) s) λ a (heap, same).
      ensures (record { heap = heap; entries = λ v d. has-perm v d same; size = length-perm same })

pub record Taken (h : MinHeap) (r : PqItem × MinHeap) : Type 0 where
  pub heap : IsHeap r.1.items
  pub entries : (v d : ℕ) → has v d h.items ≡ (is_entry v d r.0 || has v d r.1.items)
  pub size : length h.items ≡ suc (length r.1.items)
  pub least : r.0.dist ≡ peek_dist h

first_dist : (a : List PqItem) → 0 < length a → (get! a 0).dist ≡ peek_items a
unfolding get! peek_items
first_dist [] p = absurd (omega arith)
first_dist (x ∷ a) p = refl

pub pop-Taken : (h : MinHeap) → IsHeap h.items → 0 < length h.items → Ensures (Taken h) (pop h)
unfolding pop peek_dist
pop-Taken h s pos = Ensures-bind (pop-Popped h.items s pos) λ (x, a) p. ensures (record {
  heap = p.heap;
  entries = λ v d. sym (has-perm v d p.same);
  size = sym (length-perm p.same);
  least = ap (λ (y : PqItem). y.dist) p.first ∙ first_dist h.items pos;
})

le_of_has :
    (a : List PqItem) (b v d : ℕ)
    → ((i : ℕ) → i < length a → b ≤ (get! a i).dist)
    → has v d a ≡ true
    → b ≤ d
unfolding get!
le_of_has [] b v d low h = cc
le_of_has (x ∷ a) b v d low h =
    ground (arith, low 0, le_of_has a b v d (λ i p. low (suc i) (omega arith)))

-- `PeekDist` is a lower bound of the entries.
pub peek_dist-le :
    (h : MinHeap) (v d : ℕ) → IsHeap h.items → has v d h.items ≡ true → peek_dist h ≤ d
unfolding peek_dist peek_items
peek_dist-le h v d s m =
    le_of_has h.items (peek_dist h) v d
      (λ i p.
        let first = first_dist h.items (omega arith) in
        omega (arith, first, root_least h.items i s p))
      m

-- A finite `PeekDist` comes from an entry.
pub pos_of_peek_dist : (h : MinHeap) → peek_dist h < max_u32 → 0 < length h.items
unfolding peek_dist peek_items
pos_of_peek_dist h p = pos h.items p
  where
    pos : (a : List PqItem) → peek_items a < max_u32 → 0 < length a
    pos [] q = absurd (omega arith)
    pos (x ∷ a) q = omega arith
