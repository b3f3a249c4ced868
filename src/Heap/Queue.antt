-- ===== src/Heap/Queue.antt =====
-- `Push` and `Pop` on a heap: the order is kept, no entry is lost, and `Pop` gives a least entry.
use mathlib.Core.List.Perm
use map_router.Base.{
  ℕ, suc, ◌-◌, ◌<◌, ◌≡◌, refl, ◌∙◌, List, [], ◌∷◌, ◌++◌, Perm, arith, ltb, length, set, take,
  length-set, length-append, length-take, ◌≤ℤ◌,
}
use map_router.Run.{panic, Ensures, ensures, Ensures-if, Ensures-mono, Ensures-bind}
use map_router.Array.{
  Zeroed, at, get!, at-ok, put-ok, get!-set, get!-append, get!-take, set-perm,
  append-singleton-perm, take-append-last,
}
use map_router.Heap.{Keyed, parent, push, pop}
use map_router.Heap.Order.{IsHeap, root_least}
use map_router.Heap.Up.{sift_up-IsHeap}
use map_router.Heap.Down.{DownInv, sift_down-IsHeap}

module _ {A : Type 0} ⦃z : Zeroed A⦄ ⦃k : Keyed A⦄ where
  -- `Push` makes a heap of the old entries and the new one.
  pub push-IsHeap :
      (a : List A) (x : A) → IsHeap a → Ensures (λ b. IsHeap b × Perm b (x ∷ a)) (push a x)
  unfolding push
  push-IsHeap a x h =
      let size = length-append a (x ∷ []) in
      Ensures-mono (λ b s. (s.0, Perm.trans s.1 (append-singleton-perm a x)))
        (sift_up-IsHeap (a ++ x ∷ []) (length (a ++ x ∷ []) - 1) (record {
          inside = omega (arith, size);
          edges = λ c p q r.
              ground
                (arith, size, h c, get!-append a (x ∷ []) c, get!-append a (x ∷ []) (parent c));
          bridged = λ c p q r s. absurd (omega (arith, size));
        }))

  -- What `Pop` ends with: a least entry, and a heap of the others.
  pub record Popped (a : List A) (r : A × List A) : Type 0 where
    pub first : r.0 ≡ get! a 0
    pub least : (i : ℕ) → i < length a → k.key r.0 ≤ℤ k.key (get! a i)
    pub heap : IsHeap r.1
    pub same : Perm (r.0 ∷ r.1) a

  module _ (a : List A) (n : ℕ) (size : length a ≡ suc n) where
    -- The slice that is left when the last entry has replaced the first.
    abbrev cut : List A
    cut = take n (set a 0 (get! a n))

    length-cut : length cut ≡ n
    length-cut = length-take n (set a 0 (get! a n)) (omega (arith, length-set a 0 (get! a n)))

    get!-cut : (i : ℕ) → 0 < i → i < n → get! cut i ≡ get! a i
    get!-cut i p q = ground (arith, get!-take n (set a 0 (get! a n)) i, get!-set a 0 i (get! a n))

    cut-perm : Perm (get! a 0 ∷ cut) a
    cut-perm =
        let b = set a 0 (get! a n) in
        let last : get! b n ≡ get! a n = ground (arith, get!-set a 0 n (get! a n)) in
        let whole : cut ++ get! a n ∷ [] ≡ b =
          rw last at (take-append-last n b (length-set a 0 (get! a n) ∙ size)) in
        let refilled = rw whole at (append-singleton-perm cut (get! a n)) in
        Perm.cons_inv (
          Perm.trans (Perm.swap (get! a 0) (get! a n) cut) (
            Perm.trans (Perm.cons (get! a 0) (Perm.symm refilled))
              (set-perm a 0 (get! a n) (omega arith))))

    cut-DownInv : IsHeap a → DownInv cut 0
    cut-DownInv h = record {
      edges = λ c p q r. ground (arith, length-cut, h c, get!-cut c, get!-cut (parent c));
      bridged = λ c p q r s. absurd (omega arith);
    }

  -- `Pop` on a heap with an entry ends with a least entry and a heap of the others.
  pub pop-Popped : (a : List A) → IsHeap a → 0 < length a → Ensures (Popped a) (pop a)
  unfolding pop
  pop-Popped a h pos =
      let n = length a - 1 in
      let size : length a ≡ suc n = omega arith in
      let gone = length-cut a n size in
      rw (at-ok a 0 pos, at-ok a n (omega arith), put-ok a 0 (get! a n) pos)
        (Ensures-bind
          (Ensures-if {P = λ b. IsHeap b × Perm b (cut a n size)} (ltb 0 (length (cut a n size)))
            (λ more. sift_down-IsHeap (cut a n size) 0 (ground arith) (cut-DownInv a n size h))
            (λ none_left. ensures ((λ c p q. absurd (ground arith)), Perm.rfl)))
          λ b s. ensures (record {
            first = refl;
            least = λ i. root_least a i h;
            heap = s.0;
            same = Perm.trans (Perm.cons (get! a 0) s.1) (cut-perm a n size);
          }))

  -- `Pop` on an empty heap panics.
  pub pop-empty : pop {A = A} [] ≡ panic
  unfolding pop at
  pop-empty = refl
