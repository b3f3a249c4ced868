-- ===== src/Routing/Search/Correct.antt =====
-- What `runCHDijkstra` finds: among the nodes that walks from both ends reach, the least sum.
use map_router.Base.{ℕ, ◌+◌, ◌≤◌, ◌<◌, ◌≡◌, ◌⊎◌, inl, inr, refl, Bool, true, false, arith}
use mathlib.Core.Bool.{false≢true}
use map_router.Run.{ok, Ensures, Ensures-mono}
use map_router.Array.{Zeroed-ℕ}
use map_router.Graph.{ChGraph}
use map_router.Routing.MinHeap.{PqItem-Zeroed, PqItem-Keyed, peek_dist}
use map_router.Routing.MinHeap.Entries.{peek_dist-le}
use map_router.Routing.QueryState.{Half, QueryState, new_query_state, reset}
use map_router.Routing.QueryState.Reset.{IsClean, reset-new}
use map_router.Routing.Search.{
  Upward, Search, fwd_graph, bwd_graph, is_over, start_search, run_ch_dijkstra,
}
use map_router.Routing.Search.Relax.{label}
use map_router.Routing.Search.Edges.{IsUpward, IsDistance}
use map_router.Routing.Search.Settle.{IsHalf}
use map_router.Routing.Search.Walks.{
  Reach, seed, walk, IsSeeded, IsShort, IsShortest, apart, joined, IsQuery,
}
use map_router.Routing.Search.Loop.{IsSearch, search_loop-IsSearch, total_work}

module _ (n : ℕ) (g : Upward) (up : IsUpward n g) (h0 : Half) (short : IsShort g h0 n) where
  Reach-IsDistance : IsDistance (Reach g h0 n) n g
  Reach-IsDistance = record { step = λ u d e hu r i. walk e r hu i refl refl; bound = short }

  -- When no entry below `mu` is left, a walk is no shorter than `mu` or than its end's label.
  Reach-settled :
      (h : Half) (mu : ℕ)
      → IsHalf (Reach g h0 n) n g h
      → ((v : ℕ) → v < n → label h v ≤ label h0 v)
      → mu ≤ peek_dist h.pq
      → {v d : ℕ} → Reach g h0 n v d
      → (mu ≤ d) ⊎ (v < n) × (label h v ≤ d)
  Reach-settled h mu i lower over (seed {v} {d} hv e f) = inr (hv, omega (arith, lower v hv))
  Reach-settled h mu i lower over (walk {u} {d} {v} {d'} e r hu edge ev ed) =
      elim (Reach-settled h mu i lower over r) [
        | inl far ↦ inl (omega arith)
        | inr (_, near) ↦ elim (i.pending u hu (omega (arith, Reach-IsDistance.bound u d r))) [
          | inl there ↦ inl (omega (arith, peek_dist-le h.pq u (label h u) i.heap there))
          | inr done ↦ inr (
            rw ev (up.heads e (omega (arith, up.ranges u hu))),
            rw ev (omega (arith, done e edge)),
          )
        ]
      ]

module _ (n : ℕ) (fg bg : Upward) (fup : IsUpward n fg) (bup : IsUpward n bg) (qs : QueryState)
    (fshort : IsShort fg qs.fwd n) (bshort : IsShort bg qs.bwd n) where
  abbrev pub Fwd : ℕ → ℕ → Type 0
  Fwd = Reach fg qs.fwd n

  abbrev pub Bwd : ℕ → ℕ → Type 0
  Bwd = Reach bg qs.bwd n

  abbrev fdist : IsDistance Fwd n fg
  fdist = Reach-IsDistance n fg fup qs.fwd fshort

  abbrev bdist : IsDistance Bwd n bg
  bdist = Reach-IsDistance n bg bup qs.bwd bshort

  -- `mu` is no more than any sum of a forward and a backward walk that meet.
  mu-le :
      (r : Search)
      → IsSearch Fwd Bwd n fg bg fup bup fdist bdist qs r
      → is_over r ≡ true
      → (v a b : ℕ) → Fwd v a
      → Bwd v b
      → r.best.mu ≤ a + b
  mu-le r i over v a b x y =
      let ends : (r.best.mu ≤ peek_dist r.qs.fwd.pq) × (r.best.mu ≤ peek_dist r.qs.bwd.pq) =
        ground arith in
      let f = Reach-settled n fg fup qs.fwd fshort r.qs.fwd r.best.mu i.fwd i.lower_fwd ends.0 x in
      let g = Reach-settled n bg bup qs.bwd bshort r.qs.bwd r.best.mu i.bwd i.lower_bwd ends.1 y in
      elim f [
        | inl far ↦ omega arith
        | inr (hv, fa) ↦ elim g [
          | inl far ↦ omega arith
          | inr (_, gb) ↦
              elim (i.pair.met v hv (omega (arith, fdist.bound v a x))
                (omega (arith, bdist.bound v b y))) [
                  | inl there ↦ omega (
                    arith,
                    peek_dist-le r.qs.fwd.pq v (label r.qs.fwd v) i.fwd.heap there,
                    ends.0,
                  )
                  | inr (inl there) ↦ omega (
                    arith,
                    peek_dist-le r.qs.bwd.pq v (label r.qs.bwd v) i.bwd.heap there,
                    ends.1,
                  )
                  | inr (inr low) ↦ omega arith
                ]
        ]
      ]

  over-IsShortest :
      (r : Search)
      → IsSearch Fwd Bwd n fg bg fup bup fdist bdist qs r
      → is_over r ≡ true
      → IsShortest Fwd Bwd r
  over-IsShortest r i over = elim i.pair.meeting [
    | inl (none_yet, no_meeting) ↦ apart none_yet no_meeting λ v a b x y.
        absurd (omega (arith, mu-le r i over v a b x y, fdist.bound v a x, bdist.bound v b y))
    | inr (h, f, (a, b, x, y, e)) ↦ joined a b x y e (mu-le r i over)
  ]

  start-IsSearch :
      IsClean n qs
      → IsSeeded n qs.fwd
      → IsSeeded n qs.bwd
      → IsSearch Fwd Bwd n fg bg fup bup fdist bdist qs (start_search qs)
  start-IsSearch c f b = record {
    fwd = record {
      sized = c.sized_fwd;
      heap = f.heap;
      sound = record { labels = λ v h k. seed h refl k; entries = f.entries };
      pending = λ v h k. inl (f.queued v h k);
    };
    bwd = record {
      sized = c.sized_bwd;
      heap = b.heap;
      sound = record { labels = λ v h k. seed h refl k; entries = b.entries };
      pending = λ v h k. inl (b.queued v h k);
    };
    pair = record {
      tracked = c.tracked;
      met = λ v h k k'. inl (f.queued v h k);
      meeting = inl (refl, refl);
      mu_le = omega arith;
    };
    lower_fwd = λ v h. omega arith;
    lower_bwd = λ v h. omega arith;
  }

  IsSearch-IsClean :
      (r : Search) → IsSearch Fwd Bwd n fg bg fup bup fdist bdist qs r → IsClean n r.qs
  IsSearch-IsClean r i = record {
    sized_fwd = i.fwd.sized;
    sized_bwd = i.bwd.sized;
    tracked = i.pair.tracked;
  }

module _ {C : Type 0} (chg : ChGraph C) (n : ℕ) (qs : QueryState) where
  -- A query ends, and unless it was cancelled its result is shortest; the state stays resettable.
  run-Ensures :
      (fuel : ℕ) (cancelled : ℕ → Bool)
      → IsQuery chg n qs
      → total_work (start_search qs) < fuel
      → Ensures
          (λ r.
            IsClean n r.qs
            × (IsShortest (Reach (fwd_graph chg) qs.fwd n) (Reach (bwd_graph chg) qs.bwd n) r
                ⊎ ((j : ℕ) × (cancelled j ≡ true))))
          (run_ch_dijkstra fuel chg cancelled qs)
  unfolding run_ch_dijkstra
  run-Ensures fuel cancelled q enough =
      let fg = fwd_graph chg in
      let bg = bwd_graph chg in
      let fd = fdist n fg bg q.fwd_up q.bwd_up qs q.fwd_short q.bwd_short in
      let bd = bdist n fg bg q.fwd_up q.bwd_up qs q.fwd_short q.bwd_short in
      Ensures-mono
        (λ r (i, ended). (
          IsSearch-IsClean n fg bg q.fwd_up q.bwd_up qs q.fwd_short q.bwd_short r i,
          elim ended [
            | inl over ↦
                inl (over-IsShortest n fg bg q.fwd_up q.bwd_up qs q.fwd_short q.bwd_short r i over)
            | inr stopped ↦ inr stopped
          ],
        ))
        (search_loop-IsSearch _ _ n fg bg q.fwd_up q.bwd_up fd bd qs fuel cancelled 0
          (start_search qs) enough
          (start-IsSearch n fg bg q.fwd_up q.bwd_up qs q.fwd_short q.bwd_short q.clean q.fwd_seeded
            q.bwd_seeded))

  -- With walks that are short of 2^31 and enough fuel, a query that nobody cancels ends with a shortest pair of walks: `mu` is the least sum of a
  -- forward and a backward walk that meet, and it belongs to `meetNode`; or no walks meet.
  pub run_ch_dijkstra-IsShortest :
      (fuel : ℕ)
      → IsQuery chg n qs
      → total_work (start_search qs) < fuel
      → Ensures
          (IsShortest (Reach (fwd_graph chg) qs.fwd n) (Reach (bwd_graph chg) qs.bwd n))
          (run_ch_dijkstra fuel chg (λ _. false) qs)
  run_ch_dijkstra-IsShortest fuel q enough =
      Ensures-mono
        (λ r (_, ended). elim ended [ inl s ↦ s | inr (j, stopped) ↦ absurd (false≢true stopped) ])
        (run-Ensures fuel (λ _. false) q enough)

  -- On overlay graphs in CSR form, from a clean seeded state, with walks that are short of 2^31 and
  -- enough fuel, the search ends, cancelled at any iteration or not, and `Reset` then gives back a
  -- fresh state.
  pub run_ch_dijkstra-reset :
      (fuel : ℕ) (cancelled : ℕ → Bool)
      → IsQuery chg n qs
      → total_work (start_search qs) < fuel
      → Ensures (λ r. reset r.qs ≡ ok (new_query_state n)) (run_ch_dijkstra fuel chg cancelled qs)
  run_ch_dijkstra-reset fuel cancelled q enough =
      Ensures-mono (λ r (clean, _). reset-new n r.qs clean) (run-Ensures fuel cancelled q enough)
