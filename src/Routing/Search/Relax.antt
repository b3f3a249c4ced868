-- ===== src/Routing/Search/Relax.antt =====
-- What relaxing edges does to one direction's labels, queue and touched nodes.
use map_router.Base.{
  ℕ, zero, suc, ◌+◌, ◌≤◌, ◌<◌, ◌≡◌, ◌≢◌, refl, true, ◌&&◌, ◌||◌, List, [], ◌∷◌, ◌++◌, ℕ_discrete,
  arith, ◌==◌, if◌then◌else◌, length, length-set, set,
}
use map_router.Run.{ok, Ensures, ensures, Ensures-bind}
use map_router.Array.{Zeroed-ℕ, get!, at-ok, put-ok, get!-set}
use map_router.Heap.Order.{IsHeap}
use map_router.Routing.MinHeap.{MinHeap, PqItem-Zeroed, PqItem-Keyed, max_u32}
use map_router.Routing.MinHeap.Entries.{has, Pushed, push-Pushed}
use map_router.Routing.QueryState.{Half, Side, touch}
use map_router.Routing.QueryState.Reset.{contains-concat, IsSized, IsTracked}
use map_router.Routing.Search.{improve}

abbrev pub label : Half → ℕ → ℕ
label h v = get! h.dist v

unfoldable pub sum : List ℕ → ℕ
sum [] = 0
sum (x ∷ xs) = x + sum xs

pub sum-set : (a : List ℕ) (i v : ℕ) → i < length a → sum (set a i v) + get! a i ≡ sum a + v
unfolding sum get!
sum-set [] i v h = absurd (omega arith)
sum-set (x ∷ a) zero v h = omega arith
sum-set (x ∷ a) (suc i) v h = omega (arith, sum-set a i v (omega arith))

-- The work that a half can still cause: each new entry pays for itself by a smaller label.
abbrev pub work : Half → ℕ
work h = sum h.dist + length h.pq.items

-- `touch` writes the label, and records a node that had none.
pub touch-ok :
    (n : ℕ) (other : Half) (s : Side) (v d : ℕ)
    → IsSized n s.own
    → IsSized n other
    → v < n
    → touch other s v d
      ≡ ok (record {
        own = record (s.own) { dist = set s.own.dist v d };
        touched =
            if label s.own v == max_u32 && label other v == max_u32
            then s.touched ++ v ∷ []
            else s.touched;
      })
unfolding touch
touch-ok n other s v d o t h = rw (
  at-ok s.own.dist v (omega (arith, o.dists)),
  at-ok other.dist v (omega (arith, t.dists)),
  put-ok s.own.dist v d (omega (arith, o.dists)),
)

-- How a half grows from `h` to `h'` while the labels fall: every changed label has an entry.
pub record Grows (n : ℕ) (h h' : Half) : Type 0 where
  pub sized : IsSized n h'
  pub heap : IsHeap h'.pq.items
  pub lower : (v : ℕ) → v < n → label h' v ≤ label h v
  pub fresh : (v : ℕ) → v < n → label h' v ≢ label h v → has v (label h' v) h'.pq.items ≡ true
  pub kept : (v d : ℕ) → has v d h.pq.items ≡ true → has v d h'.pq.items ≡ true
  pub work_le : work h' ≤ work h

pub Grows-refl : {n : ℕ} {h : Half} → IsSized n h → IsHeap h.pq.items → Grows n h h
Grows-refl s p = record {
  sized = s;
  heap = p;
  lower = λ v q. omega arith;
  fresh = λ v q e. absurd (e refl);
  kept = λ v d q. q;
  work_le = omega arith;
}

pub Grows-trans : {n : ℕ} {a b c : Half} → Grows n a b → Grows n b c → Grows n a c
Grows-trans {n} {a} {b} {c} g h = record {
  sized = h.sized;
  heap = h.heap;
  lower = λ v q. omega (arith, g.lower v q, h.lower v q);
  fresh = λ v q e.
      ground
        (arith, g.fresh v q, h.fresh v q, h.kept v (label b v), ℕ_discrete (label c v) (label b v));
  kept = λ v d q. h.kept v d (g.kept v d q);
  work_le = omega (arith, g.work_le, h.work_le);
}

-- Every finite label is a distance that `R` admits, and entries are finite and no smaller than the
-- labels.
pub record IsSound (R : ℕ → ℕ → Type 0) (n : ℕ) (h : Half) : Type 0 where
  pub labels : (v : ℕ) → v < n → label h v < max_u32 → R v (label h v)
  pub entries : (v d : ℕ) → has v d h.pq.items ≡ true → (v < n) × (d < max_u32) × (label h v ≤ d)

-- What a write of one label, with its entry and predecessor, does.
module _ (n : ℕ) (other : Half) (s : Side) (v d : ℕ) (o : IsSized n s.own) (t : IsSized n other)
    (inside : v < n) where
  pub record Improved (r : Side) : Type 1 where
    pub grows : d < label s.own v → Grows n s.own r.own
    pub label_new : (w : ℕ) → label r.own w ≡ (if v == w then d else label s.own w)
    pub entries :
        (w e : ℕ) → has w e r.own.pq.items ≡ ((v == w && d == e) || has w e s.own.pq.items)
    pub tracked : IsTracked n s.own other s.touched → IsTracked n r.own other r.touched
    pub sound :
        (R : ℕ → ℕ → Type 0)
        → d < label s.own v
        → d < max_u32
        → R v d
        → IsSound R n s.own
        → IsSound R n r.own

  -- The half after the write, at any new queue that holds one more entry.
  abbrev pub written : ℕ → MinHeap → Half
  written u q = record { dist = set s.own.dist v d; pred = set s.own.pred v u; pq = q }

  pub label-written :
      (u w : ℕ) (q : MinHeap) → label (written u q) w ≡ (if v == w then d else label s.own w)
  label-written u w q = get!-set s.own.dist v w d (omega (arith, o.dists))

  written-Grows :
      (u : ℕ) (q : MinHeap)
      → Pushed s.own.pq v d q
      → d < label s.own v
      → Grows n s.own (written u q)
  written-Grows u q p h = record {
    sized = omega (arith, o, length-set s.own.dist v d, length-set s.own.pred v u);
    heap = p.heap;
    lower = λ w r. ground (arith, label-written u w q);
    fresh = λ w r e. ground (arith, label-written u w q, p.entries w (label (written u q) w));
    kept = λ w e r. ground (arith, p.entries w e);
    work_le = omega (arith, p.size, sum-set s.own.dist v d (omega (arith, o.dists)));
  }

  pub written-IsSound :
      (R : ℕ → ℕ → Type 0) (u : ℕ) (q : MinHeap)
      → Pushed s.own.pq v d q
      → d < label s.own v
      → d < max_u32
      → R v d
      → IsSound R n s.own
      → IsSound R n (written u q)
  written-IsSound R u q p h f r k = record {
    labels = λ w i f. ground (arith, label-written u w q, k.labels w i);
    entries = λ w e i. ground (arith, label-written u w q, p.entries w e, k.entries w e);
  }

  pub written-IsTracked :
      (u : ℕ) (q : MinHeap)
      → IsTracked n s.own other s.touched
      → IsTracked n (written u q) other (
          if label s.own v == max_u32 && label other v == max_u32
          then s.touched ++ v ∷ []
          else s.touched)
  written-IsTracked u q k = record {
    inside = λ w r. ground (arith, contains-concat w v s.touched, k.inside w);
    fresh_own = λ w r m. ground (
      arith,
      contains-concat w v s.touched,
      k.fresh_own w r,
      k.fresh_other w r,
      label-written u w q,
      get!-set s.own.pred v w u (omega (arith, o.preds)),
    );
    fresh_other = λ w r m. ground (arith, contains-concat w v s.touched, k.fresh_other w r);
  }

  pub improve-Improved : (u : ℕ) → IsHeap s.own.pq.items → Ensures Improved (improve other s u v d)
  unfolding improve
  improve-Improved u h = rw (touch-ok n other s v d o t inside) (
      Ensures-bind (push-Pushed s.own.pq v d h) λ q p.
        rw (put-ok s.own.pred v u (omega (arith, o.preds))) (
          ensures (record {
            grows = written-Grows u q p;
            label_new = λ w. label-written u w q;
            entries = p.entries;
            tracked = written-IsTracked u q;
            sound = λ R. written-IsSound R u q p;
          })))
