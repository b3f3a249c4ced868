-- ===== src/Routing/Search/Edges.antt =====
-- The relaxation loop over the edges of one node.
use map_router.Base.{ℕ, zero, suc, ◌+◌, ◌≤◌, ◌<◌, ◌≡◌, arith, ltb, length}
use map_router.Run.{Ensures, ensures, Ensures-bind, Ensures-mono, Ensures-if}
use map_router.Array.{Zeroed-ℕ, get!, at-ok}
use map_router.Word.{add32-eq}
use map_router.Heap.Order.{IsHeap}
use map_router.Routing.MinHeap.{PqItem-Zeroed, PqItem-Keyed}
use map_router.Routing.QueryState.{Half, Side}
use map_router.Routing.QueryState.Reset.{IsSized, IsTracked}
use map_router.Routing.Search.{Upward, relax_edge, relax_loop}
use map_router.Routing.Search.Relax.{
  label, Grows, Grows-refl, Grows-trans, IsSound, improve-Improved,
}

-- A CSR over `n` nodes: edge ranges lie in the edge arrays, heads are nodes.
pub record IsUpward (n : ℕ) (g : Upward) : Type 0 where
  pub firsts : length g.first_out ≡ n + 1
  pub weights : length g.weight ≡ length g.head
  pub ordered : (u : ℕ) → u < n → get! g.first_out u ≤ get! g.first_out (u + 1)
  pub ranges : (u : ℕ) → u < n → get! g.first_out (u + 1) ≤ length g.head
  pub heads : (e : ℕ) → e < length g.head → get! g.head e < n

-- Edge `e` leaves node `u`.
abbrev pub IsEdge : Upward → ℕ → ℕ → Type 0
IsEdge g u e = (get! g.first_out u ≤ e) × (e < get! g.first_out (u + 1))

-- Two lengths below this bound have a sum that `uint32` holds.
abbrev pub half_range : ℕ
half_range = 2147483648

-- `R v d`: some walk in `g` ends at `v` with length `d`. Lengths stay in half of `uint32`'s range.
pub record IsDistance (R : ℕ → ℕ → Type 0) (n : ℕ) (g : Upward) : Type 0 where
  pub step : (u d e : ℕ) → u < n → R u d → IsEdge g u e → R (get! g.head e) (d + get! g.weight e)
  pub bound : (v d : ℕ) → R v d → d < half_range

-- What relaxing the edges from `lo` up to `hi` does.
pub record Relaxed (R : ℕ → ℕ → Type 0) (n : ℕ) (g : Upward) (other : Half) (d lo hi : ℕ)
    (s r : Side) : Type 0 where
  pub grows : Grows n s.own r.own
  pub tracked : IsTracked n r.own other r.touched
  pub sound : IsSound R n r.own
  pub done : (e : ℕ) → lo ≤ e → e < hi → label r.own (get! g.head e) ≤ d + get! g.weight e

-- What the loop needs of the half that it changes.
pub record IsReady (R : ℕ → ℕ → Type 0) (n : ℕ) (other : Half) (s : Side) : Type 0 where
  pub sized_own : IsSized n s.own
  pub heap : IsHeap s.own.pq.items
  pub tracked : IsTracked n s.own other s.touched
  pub sound : IsSound R n s.own

module _ (R : ℕ → ℕ → Type 0) (n : ℕ) (g : Upward) (up : IsUpward n g) (dist : IsDistance R n g)
    (other : Half) (sized : IsSized n other) (u d : ℕ) (hu : u < n) (reached : R u d) where
  Relaxed-IsReady : {lo hi : ℕ} {s r : Side} → Relaxed R n g other d lo hi s r → IsReady R n other r
  Relaxed-IsReady x = record {
    sized_own = x.grows.sized;
    heap = x.grows.heap;
    tracked = x.tracked;
    sound = x.sound;
  }

  relax_edge-Relaxed :
      (e : ℕ) (s : Side)
      → IsEdge g u e
      → IsReady R n other s
      → Ensures (Relaxed R n g other d e (suc e) s) (relax_edge g other u d e s)
  unfolding relax_edge
  relax_edge-Relaxed e s edge ready =
      let he : e < length g.head = omega (arith, up.ranges u hu) in
      let v = get! g.head e in
      let hv : v < n = up.heads e he in
      let there = dist.step u d e hu reached edge in
      let fits = add32-eq d (get! g.weight e) (omega (arith, dist.bound _ _ there)) in
      rw
        (
          at-ok g.head e he,
          at-ok g.weight e (omega (arith, up.weights)),
          at-ok s.own.dist v (omega (arith, ready.sized_own.dists)),
          fits,
        )
        (Ensures-if (ltb (d + get! g.weight e) (label s.own v))
          (λ better.
            Ensures-mono
              (λ r i. record {
                grows = i.grows (ground arith);
                tracked = i.tracked ready.tracked;
                sound =
                    i.sound R (ground arith) (omega (arith, dist.bound _ _ there)) there
                      ready.sound;
                done = λ e' p q.
                    let same : e' ≡ e = omega arith in rw same (ground (arith, i.label_new v));
              })
              (improve-Improved n other s v (d + get! g.weight e) ready.sized_own sized hv u
                ready.heap))
          (λ worse. ensures (record {
            grows = Grows-refl ready.sized_own ready.heap;
            tracked = ready.tracked;
            sound = ready.sound;
            done = λ e' p q. let same : e' ≡ e = omega arith in rw same (ground arith);
          })))

  pub relax_loop-Relaxed :
      (k lo hi : ℕ) (s : Side)
      → get! g.first_out u ≤ lo
      → hi ≡ lo + k
      → hi ≤ get! g.first_out (u + 1)
      → IsReady R n other s
      → Ensures (Relaxed R n g other d lo hi s) (relax_loop k g other u d lo s)
  unfolding relax_loop
  relax_loop-Relaxed zero lo hi s low sum high ready = ensures (record {
    grows = Grows-refl ready.sized_own ready.heap;
    tracked = ready.tracked;
    sound = ready.sound;
    done = λ e p q. absurd (omega arith);
  })
  relax_loop-Relaxed (suc k) lo hi s low sum high ready =
      Ensures-bind (relax_edge-Relaxed lo s (low, omega arith) ready) λ t x.
        Ensures-mono
          (λ r y. record {
            grows = Grows-trans x.grows y.grows;
            tracked = y.tracked;
            sound = y.sound;
            done = λ e p q. ground (
              arith,
              x.done e,
              y.done e,
              y.grows.lower (get! g.head e) (up.heads e (omega (arith, up.ranges u hu))),
            );
          })
          (relax_loop-Relaxed k (lo + 1) hi t (omega arith) (omega arith) high (Relaxed-IsReady x))
