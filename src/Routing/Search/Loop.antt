-- ===== src/Routing/Search/Loop.antt =====
-- The loop of the search: it ends within the work at hand, and keeps the invariants.
use map_router.Base.{
  ℕ, zero, suc, ◌+◌, ◌%◌, ◌≤◌, ◌<◌, ◌≡◌, ◌⊎◌, inl, inr, refl, Bool, true, false, ◌&&◌, arith, ltb,
  ◌==◌, List, Bool-cases, lt_of_ltb,
}
use map_router.Run.{Ensures, ensures, Ensures-bind, Ensures-if}
use map_router.Word.{u32_mod}
use map_router.Routing.MinHeap.{peek_dist}
use map_router.Routing.QueryState.{Half, QueryState}
use map_router.Routing.QueryState.Reset.{IsTracked-sym}
use map_router.Routing.Search.{Upward, Meeting, Search, fwd_step, bwd_step, is_over, search_loop}
use map_router.Routing.Search.Relax.{label, work}
use map_router.Routing.Search.Edges.{IsUpward, IsDistance}
use map_router.Routing.Search.Settle.{IsHalf, IsPair, step-Stepped}

-- The two directions exchanged.
IsPair-sym :
    (R R' : ℕ → ℕ → Type 0) (n : ℕ) (own other : Half) (touched : List ℕ) (best : Meeting)
    → IsPair R R' n own other touched best
    → IsPair R' R n other own touched best
IsPair-sym R R' n own other touched best p = record {
  tracked = IsTracked-sym p.tracked;
  met = λ v h f f'. elim (p.met v h f' f) [
    | inl there ↦ inr (inl there)
    | inr (inl there) ↦ inl there
    | inr (inr low) ↦ inr (inr (omega arith))
  ];
  meeting = elim p.meeting [
    | inl unmet ↦ inl unmet
    | inr (h, f, (a, b, r, r', e)) ↦ inr (h, f, (b, a, r', r, omega arith))
  ];
  mu_le = p.mu_le;
}

abbrev pub total_work : Search → ℕ
total_work s = work s.qs.fwd + work s.qs.bwd

module _ (F B : ℕ → ℕ → Type 0) (n : ℕ) (fg bg : Upward) (fup : IsUpward n fg) (bup : IsUpward n bg)
    (fdist : IsDistance F n fg) (bdist : IsDistance B n bg) (qs0 : QueryState) where
  -- The invariant of the search that started from `qs0`.
  pub record IsSearch (s : Search) : Type 0 where
    pub fwd : IsHalf F n fg s.qs.fwd
    pub bwd : IsHalf B n bg s.qs.bwd
    pub pair : IsPair F B n s.qs.fwd s.qs.bwd s.qs.touched s.best
    pub lower_fwd : (v : ℕ) → v < n → label s.qs.fwd v ≤ label qs0.fwd v
    pub lower_bwd : (v : ℕ) → v < n → label s.qs.bwd v ≤ label qs0.bwd v

  -- What one direction's part of an iteration leaves; `ran` says whether it popped an entry.
  record Advanced (ran : Bool) (s r : Search) : Type 0 where
    inv : IsSearch r
    mu_falls : r.best.mu ≤ s.best.mu
    less_work : total_work r ≤ total_work s
    popped : ran ≡ true → total_work r < total_work s
    idle : ran ≡ false → r ≡ s

  fwd_step-Advanced :
      (s : Search)
      → IsSearch s
      → Ensures (Advanced (ltb (peek_dist s.qs.fwd.pq) s.best.mu) s) (fwd_step fg s)
  unfolding fwd_step
  fwd_step-Advanced s i = elim (Bool-cases (ltb (peek_dist s.qs.fwd.pq) s.best.mu)) [
    | inl go ↦ rw go (
        Ensures-bind
          (step-Stepped F B n fg fup fdist bdist.bound s.qs.bwd i.bwd.sized i.bwd.sound
            (record { own = s.qs.fwd; touched = s.qs.touched }) s.best i.fwd i.pair
            (omega (arith, lt_of_ltb _ _ go, i.pair.mu_le)))
          λ r t. ensures (record {
            inv = record {
              fwd = t.half;
              bwd = i.bwd;
              pair = t.pair;
              lower_fwd = λ v h. omega (arith, t.lower v h, i.lower_fwd v h);
              lower_bwd = i.lower_bwd;
            };
            mu_falls = t.mu_falls;
            less_work = omega (arith, t.less_work);
            popped = λ e. omega (arith, t.less_work);
            idle = λ e. cc;
          }))
    | inr stay ↦ rw stay (
        ensures (record {
          inv = i;
          mu_falls = omega arith;
          less_work = omega arith;
          popped = λ e. cc;
          idle = λ e. refl;
        }))
  ]

  bwd_step-Advanced :
      (s : Search)
      → IsSearch s
      → Ensures (Advanced (ltb (peek_dist s.qs.bwd.pq) s.best.mu) s) (bwd_step bg s)
  unfolding bwd_step
  bwd_step-Advanced s i = elim (Bool-cases (ltb (peek_dist s.qs.bwd.pq) s.best.mu)) [
    | inl go ↦ rw go (
        Ensures-bind
          (step-Stepped B F n bg bup bdist fdist.bound s.qs.fwd i.fwd.sized i.fwd.sound
            (record { own = s.qs.bwd; touched = s.qs.touched }) s.best i.bwd
            (IsPair-sym F B n s.qs.fwd s.qs.bwd s.qs.touched s.best i.pair)
            (omega (arith, lt_of_ltb _ _ go, i.pair.mu_le)))
          λ (t, best) u. ensures (record {
            inv = record {
              fwd = i.fwd;
              bwd = u.half;
              pair = IsPair-sym B F n t.own s.qs.fwd t.touched best u.pair;
              lower_fwd = i.lower_fwd;
              lower_bwd = λ v h. omega (arith, u.lower v h, i.lower_bwd v h);
            };
            mu_falls = u.mu_falls;
            less_work = omega (arith, u.less_work);
            popped = λ e. omega (arith, u.less_work);
            idle = λ e. cc;
          }))
    | inr stay ↦ rw stay (
        ensures (record {
          inv = i;
          mu_falls = omega arith;
          less_work = omega arith;
          popped = λ e. cc;
          idle = λ e. refl;
        }))
  ]

  -- The search ends, by its own test or because it was cancelled, and keeps its invariant.
  pub search_loop-IsSearch :
      (fuel : ℕ) (cancelled : ℕ → Bool) (i : ℕ) (s : Search)
      → total_work s < fuel
      → IsSearch s
      → Ensures
          (λ r. IsSearch r × ((is_over r ≡ true) ⊎ ((j : ℕ) × (cancelled j ≡ true))))
          (search_loop fuel fg bg cancelled i s)
  unfolding search_loop
  search_loop-IsSearch zero cancelled i s enough inv = absurd (omega arith)
  search_loop-IsSearch (suc fuel) cancelled i s enough inv =
      let j = (i + 1) % u32_mod in
      Ensures-if (is_over s) (λ over. ensures (inv, inl over))
        (λ going.
          Ensures-if (j % 256 == 0 && cancelled j) (λ stop. ensures (inv, inr (j, ground arith)))
            (λ on. Ensures-bind (fwd_step-Advanced s inv) λ a x.
              Ensures-bind (bwd_step-Advanced a x.inv)
                λ b y. search_loop-IsSearch fuel cancelled j b (less s a b going x y enough) y.inv))
    where
      less :
          (s a b : Search)
          → is_over s ≡ false
          → Advanced (ltb (peek_dist s.qs.fwd.pq) s.best.mu) s a
          → Advanced (ltb (peek_dist a.qs.bwd.pq) a.best.mu) a b
          → total_work s < suc fuel
          → total_work b < fuel
      less s a b going x y enough = elim (Bool-cases (ltb (peek_dist s.qs.fwd.pq) s.best.mu)) [
        | inl ran ↦ omega (arith, x.popped ran, y.less_work)
        | inr idle ↦
            let same = x.idle idle in omega (arith, y.popped (rw same (ground arith)), x.less_work)
      ]
