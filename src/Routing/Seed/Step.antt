-- ===== src/Routing/Seed/Step.antt =====
-- `seedFwdMin` and `seedBwdMin`: one label becomes the lesser of itself and the seed.
use map_router.Base.{
  ℕ, ◌≤◌, ◌<◌, ◌≡◌, refl, ◌&&◌, not, arith, ltb, leb, ◌==◌, if◌then◌else◌, length-set, ◌∷◌, [],
  ◌++◌,
}
use map_router.Run.{Run, Ensures, ensures, Ensures-bind, Ensures-if}
use map_router.Array.{Zeroed-ℕ, get!, at-ok, put-ok, set-get! }
use map_router.Routing.MinHeap.{MinHeap, PqItem-Zeroed, PqItem-Keyed, max_u32}
use map_router.Routing.MinHeap.Entries.{Pushed, push-Pushed}
use map_router.Routing.QueryState.{Half, Side, QueryState, seed_min, seed_fwd_min, seed_bwd_min}
use map_router.Routing.QueryState.Reset.{IsSized, IsTracked, IsTracked-sym, IsClean}
use map_router.Routing.Search.Relax.{
  label, written, label-written, written-IsSound, written-IsTracked, IsSound,
}
use map_router.Routing.Search.Walks.{IsSeeded}

-- The lesser label.
abbrev pub lowered : Half → ℕ → ℕ → ℕ → ℕ
lowered h v d w = if v == w && ltb d (label h v) then d else label h w

record IsSeededSide (n : ℕ) (other : Half) (s : Side) (v d : ℕ) (r : Side) : Type 0 where
  sized : IsSized n r.own
  tracked : IsTracked n r.own other r.touched
  seeded : IsSeeded n r.own
  labels : (w : ℕ) → label r.own w ≡ lowered s.own v d w

module _ (n : ℕ) (other : Half) (s : Side) (v d : ℕ) (sized : IsSized n s.own)
    (sized_other : IsSized n other) (tracked : IsTracked n s.own other s.touched)
    (seeded : IsSeeded n s.own) (inside : v < n) (finite : d < max_u32) where
  -- The entries are finite and no smaller than the labels, whatever the walks are.
  any-IsSound : IsSound (λ _ _. Unit) n s.own
  any-IsSound = record { labels = λ w h k. tt; entries = seeded.entries }

  kept-IsSeededSide : (label s.own v ≤ d) → IsSeededSide n other s v d s
  kept-IsSeededSide le = record {
    sized = sized;
    tracked = tracked;
    seeded = seeded;
    labels = λ w. ground arith;
  }

  Pushed-IsSeededSide :
      (q : MinHeap)
      → Pushed s.own.pq v d q
      → d < label s.own v
      → IsSeededSide n other s v d (record {
        own = written n other s v d sized sized_other inside (get! s.own.pred v) q;
        touched =
            if label s.own v == max_u32 && label other v == max_u32
            then s.touched ++ v ∷ []
            else s.touched;
      })
  Pushed-IsSeededSide q p less =
      let u = get! s.own.pred v in
      let news = label-written n other s v d sized sized_other inside u in
      record {
        sized = omega (arith, sized, length-set s.own.dist v d, length-set s.own.pred v u);
        tracked = written-IsTracked n other s v d sized sized_other inside u q tracked;
        seeded = record {
          heap = p.heap;
          queued = λ w h k.
              ground
                (arith, news w q, p.entries w (label s.own w), p.entries w d, seeded.queued w h);
          entries = IsSound.entries (
              written-IsSound n other s v d sized sized_other inside (λ _ _. Unit) u q p less finite
                tt any-IsSound);
        };
        labels = λ w. ground (arith, news w q);
      }

  seed_min-IsSeededSide : Ensures (IsSeededSide n other s v d) (seed_min other s v d)
  unfolding seed_min
  seed_min-IsSeededSide = rw (at-ok s.own.dist v (omega (arith, sized.dists))) (
      Ensures-if (not (label s.own v == max_u32) && leb (label s.own v) d)
        (λ keep. ensures (kept-IsSeededSide (ground arith)))
        (λ lower.
          let less : d < label s.own v = ground arith in
          rw
            (
              at-ok other.dist v (omega (arith, sized_other.dists)),
              put-ok s.own.dist v d (omega (arith, sized.dists)),
            )
            (Ensures-bind (push-Pushed s.own.pq v d seeded.heap)
              λ q p. ensures (rw set-get! at (Pushed-IsSeededSide q p less)))))

-- A seeding operation of one direction, whose half is `own`: what the two directions share.
pub record Seeding : Type 0 where
  pub seed : QueryState → ℕ → ℕ → Run QueryState
  pub own : QueryState → Half
  pub other : QueryState → Half

abbrev pub forward : Seeding
forward = record { seed = seed_fwd_min; own = λ qs. qs.fwd; other = λ qs. qs.bwd }

abbrev pub backward : Seeding
backward = record { seed = seed_bwd_min; own = λ qs. qs.bwd; other = λ qs. qs.fwd }

-- The state `r` is `qs` with the label of `v` lowered to `d`.
pub record IsLowered (x : Seeding) (n : ℕ) (qs : QueryState) (v d : ℕ) (r : QueryState)
    : Type 0 where
  pub clean : IsClean n r
  pub seeded : IsSeeded n (x.own r)
  pub other_kept : x.other r ≡ x.other qs
  pub labels : (w : ℕ) → label (x.own r) w ≡ lowered (x.own qs) v d w

-- What is promised of a seeding operation.
abbrev pub IsSeeding : Seeding → Type 0
IsSeeding x =
    (n : ℕ) (qs : QueryState) (v d : ℕ)
    → IsClean n qs
    → IsSeeded n (x.own qs)
    → v < n
    → d < max_u32
    → Ensures (IsLowered x n qs v d) (x.seed qs v d)

pub forward-IsSeeding : IsSeeding forward
unfolding seed_fwd_min
forward-IsSeeding n qs v d c s inside finite =
    Ensures-bind
      (seed_min-IsSeededSide n qs.bwd (record { own = qs.fwd; touched = qs.touched }) v d
        c.sized_fwd c.sized_bwd c.tracked s inside finite)
      (λ t r. ensures (record {
        clean = record { sized_fwd = r.sized; sized_bwd = c.sized_bwd; tracked = r.tracked };
        seeded = r.seeded;
        other_kept = refl;
        labels = r.labels;
      }))

pub backward-IsSeeding : IsSeeding backward
unfolding seed_bwd_min
backward-IsSeeding n qs v d c s inside finite =
    Ensures-bind
      (seed_min-IsSeededSide n qs.fwd (record { own = qs.bwd; touched = qs.touched }) v d
        c.sized_bwd c.sized_fwd (IsTracked-sym c.tracked) s inside finite)
      (λ t r. ensures (record {
        clean = record {
          sized_fwd = c.sized_fwd;
          sized_bwd = r.sized;
          tracked = IsTracked-sym r.tracked;
        };
        seeded = r.seeded;
        other_kept = refl;
        labels = r.labels;
      }))
