-- ===== src/Routing/Search/Settle.antt =====
-- `step`: the invariants of the search over one pop, stale or settled.
use map_router.Base.{
  ℕ, ◌+◌, ◌-◌, ◌≤◌, ◌<◌, ◌≡◌, ◌⊎◌, inl, inr, sym, ◌∙◌, true, List, arith, leb, ℕ_discrete,
}
use map_router.Run.{Ensures, ensures, Ensures-bind, Ensures-if}
use map_router.Array.{Zeroed-ℕ, get!, at-ok}
use map_router.Heap.Order.{IsHeap}
use map_router.Routing.MinHeap.{MinHeap, PqItem, PqItem-Zeroed, PqItem-Keyed, max_u32, peek_dist}
use map_router.Routing.MinHeap.Entries.{has, Taken, pop-Taken, pos_of_peek_dist}
use map_router.Routing.QueryState.{Half, Side}
use map_router.Routing.QueryState.Reset.{IsSized, IsTracked}
use map_router.Routing.Search.{Upward, Meeting, meet, step}
use map_router.Routing.Search.Relax.{label, work, Grows, Grows-refl, IsSound}
use map_router.Routing.Search.Edges.{IsUpward, IsDistance, Relaxed, relax_loop-Relaxed, half_range}
use map_router.Routing.Search.Round.{
  IsExpanded, IsPending, IsMet, IsMeeting, meet-le, meet-le_sum, meet-IsMeeting,
}

-- What the search knows of one direction.
pub record IsHalf (R : ℕ → ℕ → Type 0) (n : ℕ) (g : Upward) (h : Half) : Type 0 where
  pub sized : IsSized n h
  pub heap : IsHeap h.pq.items
  pub sound : IsSound R n h
  pub pending : IsPending n g h

-- What it knows of the two directions together.
pub record IsPair (R R' : ℕ → ℕ → Type 0) (n : ℕ) (own other : Half) (touched : List ℕ)
    (best : Meeting) : Type 0 where
  pub tracked : IsTracked n own other touched
  pub met : IsMet n own other best.mu
  pub meeting : IsMeeting R R' n best
  pub mu_le : best.mu ≤ max_u32

-- The half without the entry that was popped.
abbrev popped : Half → MinHeap → Half
popped h q = record h { pq = q }

module _ (n : ℕ) (g : Upward) (h : Half) (x : PqItem) (q : MinHeap) (t : Taken h.pq (x, q)) where
  -- The entries of `h` other than the popped one are still queued.
  still_queued :
      (v d : ℕ) → has v d h.pq.items ≡ true → (x.node ≡ v) × (x.dist ≡ d) ⊎ (has v d q.items ≡ true)
  still_queued v d m = ground (arith, t.entries v d)

  popped-IsSound : (R : ℕ → ℕ → Type 0) → IsSound R n h → IsSound R n (popped h q)
  popped-IsSound R s = record {
    labels = s.labels;
    entries = λ v d m. s.entries v d (ground (arith, t.entries v d));
  }

  module _ (r : Half) (grows : Grows n (popped h q) r) where
    -- A queued label stays queued or is the popped entry; a new label is queued.
    queued_after :
        (v : ℕ)
        → v < n
        → label h v < max_u32
        → has v (label h v) h.pq.items ≡ true
        → (has v (label r v) r.pq.items ≡ true)
          ⊎ (x.node ≡ v) × (x.dist ≡ label h v) × (label r v ≡ label h v)
    queued_after v hv f m = elim (ℕ_discrete (label r v) (label h v)) [
      | no changed ↦ inl (grows.fresh v hv changed)
      | yes same ↦ elim (still_queued v (label h v) m) [
        | inl (node, dist) ↦ inr (node, dist, same)
        | inr there ↦ inl (rw same (grows.kept v (label h v) there))
      ]
    ]

    -- An expanded node stays expanded, or its label is new and queued.
    IsExpanded-after :
        (up : IsUpward n g) (v : ℕ)
        → v < n
        → IsExpanded g h v
        → (has v (label r v) r.pq.items ≡ true) ⊎ IsExpanded g r v
    IsExpanded-after up v hv x = elim (ℕ_discrete (label r v) (label h v)) [
      | no changed ↦ inl (grows.fresh v hv changed)
      | yes same ↦ inr (λ e i.
          let head = up.heads e (omega (arith, up.ranges v hv)) in
          omega (arith, x e i, grows.lower (get! g.head e) head))
    ]

    -- `done`: the popped entry's node, if that entry was its label, has been expanded.
    IsPending-after :
        (up : IsUpward n g)
        → IsPending n g h
        → (label r x.node ≡ x.dist → IsExpanded g r x.node)
        → IsPending n g r
    IsPending-after up p done v hv f = elim (ℕ_discrete (label r v) (label h v)) [
      | no changed ↦ inl (grows.fresh v hv changed)
      | yes same ↦ elim (p v hv (rw same at f)) [
        | inr old ↦ IsExpanded-after up v hv old
        | inl m ↦ elim (queued_after v hv (rw same at f) m) [
          | inl there ↦ inl there
          | inr (node, dist, e) ↦ inr (rw node at (done (rw node (e ∙ sym dist))))
        ]
      ]
    ]

    IsMet-after :
        (other : Half) (mu mu' : ℕ)
        → mu' ≤ mu
        → (label r x.node ≡ x.dist
            → label other x.node < max_u32
            → mu' ≤ x.dist + label other x.node)
        → IsMet n h other mu
        → IsMet n r other mu'
    IsMet-after other mu mu' le done m v hv f f' = elim (ℕ_discrete (label r v) (label h v)) [
      | no changed ↦ inl (grows.fresh v hv changed)
      | yes same ↦ elim (m v hv (rw same at f) f') [
        | inl there ↦ elim (queued_after v hv (rw same at f) there) [
          | inl still ↦ inl still
          | inr (node, dist, e) ↦
              inr (inr (rw (e, ← dist, ← node) (done (rw node (e ∙ sym dist)) (rw node f'))))
        ]
        | inr (inl there) ↦ inr (inl there)
        | inr (inr low) ↦ inr (inr (omega arith))
      ]
    ]

-- What one call of `step` leaves: both invariants, no larger label or `mu`, and less work.
pub record Stepped (R R' : ℕ → ℕ → Type 0) (n : ℕ) (g : Upward) (other : Half) (s : Side)
    (best : Meeting) (r : Side × Meeting) : Type 0 where
  pub half : IsHalf R n g r.0.own
  pub pair : IsPair R R' n r.0.own other r.0.touched r.1
  pub mu_falls : r.1.mu ≤ best.mu
  pub lower : (v : ℕ) → v < n → label r.0.own v ≤ label s.own v
  pub less_work : work r.0.own < work s.own

module _ (R R' : ℕ → ℕ → Type 0) (n : ℕ) (g : Upward) (up : IsUpward n g) (dist : IsDistance R n g)
    (bound' : (v d : ℕ) → R' v d → d < half_range) (other : Half) (sized : IsSized n other)
    (sound' : IsSound R' n other) (s : Side) (best : Meeting) (own : IsHalf R n g s.own)
    (pair : IsPair R R' n s.own other s.touched best) where
  popped-IsTracked : (q : MinHeap) → IsTracked n (popped s.own q) other s.touched
  popped-IsTracked q = record {
    inside = pair.tracked.inside;
    fresh_own =
        λ v i m. let f = pair.tracked.fresh_own v i m in record { dist = f.dist; pred = f.pred };
    fresh_other = pair.tracked.fresh_other;
  }

  -- The popped entry is stale: its node has a smaller label.
  stale :
      (x : PqItem) (q : MinHeap) (t : Taken s.own.pq (x, q))
      → label s.own x.node < x.dist
      → Stepped R R' n g other s best (record s { own = popped s.own q }, best)
  stale x q t less =
      let grows : Grows n (popped s.own q) (popped s.own q) =
        Grows-refl (record { dists = own.sized.dists; preds = own.sized.preds }) t.heap in
      record {
        half = record {
          sized = record { dists = own.sized.dists; preds = own.sized.preds };
          heap = t.heap;
          sound = popped-IsSound n g s.own x q t R own.sound;
          pending =
              IsPending-after n g s.own x q t _ grows up own.pending (λ e. absurd (omega arith));
        };
        pair = record {
          tracked = popped-IsTracked q;
          met =
              IsMet-after n g s.own x q t _ grows other best.mu best.mu (omega arith)
                (λ e. absurd (omega arith)) pair.met;
          meeting = pair.meeting;
          mu_le = pair.mu_le;
        };
        mu_falls = omega arith;
        lower = λ v i. omega arith;
        less_work = omega (arith, t.size);
      }

  -- The popped entry is its node's label: the node is settled.
  settled :
      (x : PqItem) (q : MinHeap) (t : Taken s.own.pq (x, q)) (r : Side)
      → x.node < n
      → R x.node x.dist
      → label s.own x.node ≡ x.dist
      → Relaxed R n g other x.dist
          (get! g.first_out x.node)
          (get! g.first_out (x.node + 1))
          (record s { own = popped s.own q })
          r
      → Stepped R R' n g other s best (r, meet x.node x.dist (label other x.node) best)
  settled x q t r hx reached now y =
      let grows = y.grows in
      let l = label other x.node in
      let small = dist.bound x.node x.dist reached in
      let fits = λ (f : l < max_u32). bound' x.node l (sound'.labels x.node hx f) in
      record {
        half = record {
          sized = y.grows.sized;
          heap = y.grows.heap;
          sound = y.sound;
          pending =
              IsPending-after n g s.own x q t r.own grows up own.pending
                (λ e k i. rw e (y.done k i.0 i.1));
        };
        pair = record {
          tracked = y.tracked;
          met =
              IsMet-after n g s.own x q t r.own grows other best.mu _ (meet-le x.node x.dist l best)
                (λ e f. meet-le_sum x.node x.dist l best f (omega (arith, small, fits f))) pair.met;
          meeting =
              meet-IsMeeting R R' n x.node x.dist l best hx reached
                (λ f. (sound'.labels x.node hx f, omega (arith, small, fits f))) pair.mu_le
                pair.meeting;
          mu_le = omega (arith, meet-le x.node x.dist l best, pair.mu_le);
        };
        mu_falls = meet-le x.node x.dist l best;
        lower = λ v i. y.grows.lower v i;
        less_work = omega (arith, t.size, y.grows.work_le);
      }

  -- One call of `step` in a direction whose queue is not empty.
  pub step-Stepped :
      peek_dist s.own.pq < max_u32 → Ensures (Stepped R R' n g other s best) (step g other s best)
  unfolding step
  step-Stepped some_entry =
      Ensures-bind (pop-Taken s.own.pq own.heap (pos_of_peek_dist s.own.pq some_entry)) λ (x, q) t.
        let (hx, finite, low) =
          own.sound.entries x.node x.dist (ground (arith, t.entries x.node x.dist)) in
        rw
          (
            at-ok s.own.dist x.node (omega (arith, own.sized.dists)),
            at-ok other.dist x.node (omega (arith, sized.dists)),
            at-ok g.first_out x.node (omega (arith, up.firsts)),
            at-ok g.first_out (x.node + 1) (omega (arith, up.firsts)),
          )
          (Ensures-if (leb x.dist (label s.own x.node))
            (λ live.
              let now : label s.own x.node ≡ x.dist = ground arith in
              let reached = rw now at (own.sound.labels x.node hx (omega arith)) in
              Ensures-bind
                (relax_loop-Relaxed R n g up dist other sized x.node x.dist hx reached
                  (get! g.first_out (x.node + 1) - get! g.first_out x.node)
                  (get! g.first_out x.node) (get! g.first_out (x.node + 1))
                  (record s { own = popped s.own q }) (omega arith)
                  (omega (arith, up.ordered x.node hx)) (omega arith)
                  (record {
                    sized_own = record { dists = own.sized.dists; preds = own.sized.preds };
                    heap = t.heap;
                    tracked = popped-IsTracked q;
                    sound = popped-IsSound n g s.own x q t R own.sound;
                  }))
                λ r y. ensures (settled x q t r hx reached now y))
            (λ dead. ensures (stale x q t (ground arith))))
