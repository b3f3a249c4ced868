-- ===== src/Heap/Up.antt =====
-- `siftUp` restores the heap order above one entry.
use mathlib.Core.List.Perm
use map_router.Base.{
  ℕ, zero, suc, ◌+◌, ◌<◌, ◌≡◌, ◌≢◌, false, List, Perm, arith, ltb, length, set, length-set, ◌≤ℤ◌,
  leb_ℤ,
}
use map_router.Run.{Ensures, ensures, Ensures-if, Ensures-mono, Ensures-bind}
use map_router.Array.{Zeroed, get!, at-ok, put-ok, get!-set, set-get!, hole-perm}
use map_router.Heap.{Keyed, parent, sift_up_loop, sift_up}
use map_router.Heap.Order.{IsInOrder, IsHeap, IsBridged}

module _ {A : Type 0} ⦃z : Zeroed A⦄ ⦃k : Keyed A⦄ where
  -- Only the edge above `i` may be out of order.
  pub record UpInv (a : List A) (i : ℕ) : Type 0 where
    pub inside : i < length a
    pub edges : (low : ℕ) → 0 < low → low < length a → low ≢ i → IsInOrder a low
    pub bridged : IsBridged a i

  -- A sift ends with a hole that, filled with the item, gives a heap of the same entries.
  pub record Filled (a : List A) (item : A) (r : List A × ℕ) : Type 0 where
    pub inside : r.1 < length r.0
    pub heap : IsHeap (set r.0 r.1 item)
    pub same : Perm (set r.0 r.1 item) a

  climb-UpInv :
      (a : List A) (i : ℕ) (item : A)
      → i < length a
      → 0 < i
      → UpInv (set a i item) i
      → leb_ℤ (k.key (get! a (parent i))) (k.key item) ≡ false
      → UpInv (set (set a i (get! a (parent i))) (parent i) item) (parent i)
  climb-UpInv a i item hi pos v test =
      let b = set a i (get! a (parent i)) in
      let at_new = λ (c : ℕ). get!-set b (parent i) c item (rw length-set (omega arith)) in
      let at_mid = λ (c : ℕ). get!-set a i c (get! a (parent i)) hi in
      let at_old = λ (c : ℕ). get!-set a i c item hi in
      let size = length-set b (parent i) item in
      let size_mid = length-set a i (get! a (parent i)) in
      let size_old = length-set a i item in
      record {
        inside = omega (arith, size, size_mid);
        edges = λ c p q r. ground (
          arith,
          size,
          size_mid,
          size_old,
          at_new c,
          at_new (parent c),
          at_mid c,
          at_mid (parent c),
          at_old c,
          at_old (parent c),
          at_old (parent i),
          v.edges c,
          v.bridged c,
        );
        bridged = λ c p q r s. ground (
          arith,
          size,
          size_mid,
          size_old,
          at_new c,
          at_new (parent (parent i)),
          at_mid c,
          at_mid (parent (parent i)),
          at_old c,
          at_old (parent i),
          at_old (parent (parent i)),
          v.edges c,
          v.edges (parent i),
        );
      }

  settled-up :
      (a : List A) (i : ℕ) (item : A)
      → i < length a
      → UpInv (set a i item) i
      → (0 < i → k.key (get! a (parent i)) ≤ℤ k.key item)
      → Filled (set a i item) item (a, i)
  settled-up a i item hi v above =
      let at_old = λ (c : ℕ). get!-set a i c item hi in
      record {
        inside = hi;
        heap = λ c p q. ground (arith, v.edges c, at_old c, at_old (parent c));
        same = Perm.rfl;
      }

  sift_up_loop-Filled :
      (n : ℕ) (a : List A) (i : ℕ) (item : A)
      → i < n
      → i < length a
      → UpInv (set a i item) i
      → Ensures (Filled (set a i item) item) (sift_up_loop n a i item)
  unfolding sift_up_loop
  sift_up_loop-Filled zero a i item f hi v = absurd (omega arith)
  sift_up_loop-Filled (suc n) a i item f hi v =
      let above : parent i < length a = omega arith in
      rw (at-ok a (parent i) above, put-ok a i (get! a (parent i)) hi)
        (Ensures-if (ltb 0 i)
          (λ pos.
            Ensures-if (leb_ℤ (k.key (get! a (parent i))) (k.key item))
              (λ stop. ensures (settled-up a i item hi v (λ _. ground arith)))
              (λ go.
                Ensures-mono
                  (λ r g. record {
                    inside = g.inside;
                    heap = g.heap;
                    same =
                        Perm.trans g.same (hole-perm a i (parent i) item hi above (ground arith));
                  })
                  (sift_up_loop-Filled n (set a i (get! a (parent i))) (parent i) item
                    (ground arith) (omega (arith, length-set a i (get! a (parent i))))
                    (climb-UpInv a i item hi (ground arith) v go))))
          (λ root. ensures (settled-up a i item hi v (λ pos. absurd (ground arith)))))

  -- From one entry whose key may be too low, `sift_up` makes a heap of the same entries.
  pub sift_up-IsHeap :
      (a : List A) (i : ℕ) → UpInv a i → Ensures (λ b. IsHeap b × Perm b a) (sift_up a i)
  unfolding sift_up
  sift_up-IsHeap a i v = rw (at-ok a i v.inside) (
      Ensures-bind
        (rw (set-get! a i) at
          (sift_up_loop-Filled (i + 1) a i (get! a i) (omega arith) v.inside (rw set-get! v)))
        λ r g. rw (put-ok r.0 r.1 (get! a i) g.inside) (ensures (g.heap, g.same)))
