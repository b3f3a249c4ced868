-- ===== src/Heap/Down.antt =====
-- `siftDown` restores the heap order below one entry.
use mathlib.Core.List.Perm
use map_router.Base.{
  ℕ, zero, suc, ◌+◌, ◌-◌, ◌*◌, ◌<◌, ◌≡◌, ◌≢◌, ◌⊎◌, inl, inr, refl, ◌∙◌, false, List, Perm, arith,
  ltb, leb, length, set, length-set, ◌≤ℤ◌, leb_ℤ, ltb_ℤ,
}
use map_router.Run.{Ensures, ensures, Ensures-if, Ensures-mono, Ensures-bind}
use map_router.Array.{Zeroed, get!, at-ok, put-ok, get!-set, set-get!, hole-perm}
use map_router.Heap.{Keyed, parent, smaller_child, sift_down_loop, sift_down}
use map_router.Heap.Order.{IsInOrder, IsHeap, IsBridged}
use map_router.Heap.Up.{Filled}

child-cases : (i c : ℕ) → 0 < c → parent c ≡ i → (c ≡ 2 * i + 1) ⊎ (c ≡ 2 * i + 1 + 1)
child-cases i c p r = omega arith

module _ {A : Type 0} ⦃z : Zeroed A⦄ ⦃k : Keyed A⦄ where
  -- Only the edges below `i` may be out of order.
  pub record DownInv (a : List A) (i : ℕ) : Type 0 where
    pub edges : (low : ℕ) → 0 < low → low < length a → parent low ≢ i → IsInOrder a low
    pub bridged : IsBridged a i

  -- `m` is a child of `i`, and no child of `i` has a smaller key.
  record IsLeastChild (a : List A) (i m : ℕ) : Type 0 where
    least :
        (sibling : ℕ)
        → 0 < sibling
        → sibling < length a
        → parent sibling ≡ i
        → k.key (get! a m) ≤ℤ k.key (get! a sibling)
    child : (m ≡ 1 + 2 * i) ⊎ (m ≡ 2 + 2 * i)
    inside : m < length a

  smaller_child-IsLeastChild :
      (a : List A) (i : ℕ)
      → 2 * i + 1 < length a
      → Ensures (IsLeastChild a i) (smaller_child a (length a) (2 * i + 1))
  unfolding smaller_child
  smaller_child-IsLeastChild a i h =
      Ensures-if (ltb (2 * i + 1 + 1) (length a))
        (λ two.
          let right : 2 * i + 1 + 1 < length a = ground arith in
          rw (at-ok a (2 * i + 1 + 1) right, at-ok a (2 * i + 1) h)
            (Ensures-if (ltb_ℤ (k.key (get! a (2 * i + 1 + 1))) (k.key (get! a (2 * i + 1))))
              (λ less. ensures (record {
                inside = right;
                child = omega arith;
                least = λ c p q r. elim (child-cases i c p r) [
                  | inl e ↦ rw e (ground arith)
                  | inr e ↦ rw (e) (omega arith)
                ];
              }))
              (λ more. ensures (record {
                inside = h;
                child = omega arith;
                least = λ c p q r. elim (child-cases i c p r) [
                  | inl e ↦ rw e (omega arith)
                  | inr e ↦ rw e (ground arith)
                ];
              }))))
        (λ one. ensures (record {
          inside = h;
          child = omega arith;
          least = λ c p q r. let e : c ≡ 2 * i + 1 = ground arith in rw e (omega arith);
        }))

  sink-DownInv :
      (a : List A) (i m : ℕ) (item : A)
      → i < length a
      → DownInv (set a i item) i
      → IsLeastChild (set a i item) i m
      → leb_ℤ (k.key item) (k.key (get! a m)) ≡ false
      → DownInv (set (set a i (get! a m)) m item) m
  sink-DownInv a i m item hi v s test =
      let size = length-set (set a i (get! a m)) m item in
      let size_mid = length-set a i (get! a m) in
      let size_old = length-set a i item in
      let hm : m < length a = omega (arith, s.inside) in
      let at_new = λ (c : ℕ). get!-set (set a i (get! a m)) m c item (rw length-set hm) in
      let at_mid = λ (c : ℕ). get!-set a i c (get! a m) hi in
      let at_old = λ (c : ℕ). get!-set a i c item hi in
      record {
        edges = λ c p q r. ground (
          arith,
          size,
          size_mid,
          size_old,
          s.child,
          at_new c,
          at_new (parent c),
          at_mid c,
          at_mid (parent c),
          at_old c,
          at_old (parent c),
          at_old m,
          v.edges c,
          v.bridged m,
          s.least c,
        );
        bridged = λ c p q r t. ground (
          arith,
          size,
          size_mid,
          size_old,
          s.child,
          at_new c,
          at_new (parent m),
          at_mid c,
          at_mid (parent m),
          at_old c,
          at_old m,
          v.edges c,
        );
      }

  settled-down :
      (a : List A) (i : ℕ) (item : A)
      → i < length a
      → DownInv (set a i item) i
      → ((c : ℕ)
          → 0 < c
          → c < length a
          → parent c ≡ i
          → k.key item ≤ℤ k.key (get! (set a i item) c))
      → Filled (set a i item) item (a, i)
  settled-down a i item hi v below =
      let at_old = λ (c : ℕ). get!-set a i c item hi in
      record {
        inside = hi;
        heap = λ c p q.
            ground (arith, length-set a i item, v.edges c, at_old c, at_old (parent c), below c);
        same = Perm.rfl;
      }

  -- The child that the loop picks, read off the items before the hole is filled.
  least_child :
      (n : ℕ) (a : List A) (i : ℕ) (item : A)
      → 2 * i + 1 < n
      → length a ≡ n
      → Ensures (IsLeastChild (set a i item) i) (smaller_child a n (2 * i + 1))
  least_child n a i item h e =
      let old = length-set a i item in
      let hi : i < length a = omega arith in
      rw (← e) (
        Ensures-mono
          (λ m s. record {
            inside = omega (arith, s.inside);
            child = s.child;
            least = λ c p q r.
                ground (arith, s.child, s.least c, get!-set a i c item hi, get!-set a i m item hi);
          })
          (smaller_child-IsLeastChild a i (rw e h)))

  sift_down_loop-Filled :
      (f n : ℕ) (a : List A) (i : ℕ) (item : A)
      → n - i < f
      → i < n
      → length a ≡ n
      → DownInv (set a i item) i
      → Ensures (Filled (set a i item) item) (sift_down_loop f a n i item)
  unfolding sift_down_loop
  sift_down_loop-Filled zero n a i item f hi e v = absurd (omega arith)
  sift_down_loop-Filled (suc f) n a i item h hi e v =
      let inside : i < length a = omega arith in
      let old = length-set a i item in
      Ensures-if (leb n (2 * i + 1))
        (λ leaf. ensures (settled-down a i item inside v (λ c p q r. absurd (ground arith))))
        (λ inner. Ensures-bind (least_child n a i item (ground arith) e) λ m s.
          let hm : m < length a = omega (arith, s.inside) in
          let kept = get!-set a i m item inside in
          let below : get! (set a i item) m ≡ get! a m = ground (arith, s.child) in
          rw (at-ok a m hm, put-ok a i (get! a m) inside)
            (Ensures-if (leb_ℤ (k.key item) (k.key (get! a m)))
              (λ stop.
                ensures (settled-down a i item inside v (λ c p q r. ground (arith, s.least c))))
              (λ go.
                Ensures-mono
                  (λ r g. record {
                    inside = g.inside;
                    heap = g.heap;
                    same =
                        Perm.trans g.same
                          (hole-perm a i m item inside hm (ground (arith, s.child)));
                  })
                  (sift_down_loop-Filled f n (set a i (get! a m)) m item (ground (arith, s.child))
                    (ground arith) (length-set a i (get! a m) ∙ e)
                    (sink-DownInv a i m item inside v s go)))))

  -- From one entry whose key may be too high, `sift_down` makes a heap of the same entries.
  pub sift_down-IsHeap :
      (a : List A) (i : ℕ)
      → i < length a
      → DownInv a i
      → Ensures (λ b. IsHeap b × Perm b a) (sift_down a i)
  unfolding sift_down
  sift_down-IsHeap a i hi v = rw (at-ok a i hi) (
      Ensures-bind
        (rw (set-get! a i) at (
          sift_down_loop-Filled (length a + 1) (length a) a i (get! a i) (omega arith) hi refl
            (rw set-get! v)))
        λ r g. rw (put-ok r.0 r.1 (get! a i) g.inside) (ensures (g.heap, g.same)))
