-- ===== src/Ch/Overlay/Build.antt =====
-- The placing loop of `buildCSR`, and the arrays that `buildCSR` returns.
use mathlib.Core.List.{append-nil, append_assoc}
use map_router.Base.{
  ℕ, zero, ◌+◌, ◌-◌, ◌≤◌, ◌<◌, ◌≡◌, ◌≢◌, refl, sym, ◌∙◌, ap, Bool, true, false, List, [], ◌∷◌, ◌++◌,
  some, arith, ◌==◌, if◌then◌else◌, length, get_elem?, set, replicate, take, length-append,
  length-set, length-replicate, length-take, ℕ_discrete, dec_lt, pos, ◌%◌, ==-refl,
}
use map_router.Run.{Ensures, ensures, Ensures-bind}
use map_router.Array.{Zeroed-ℕ, get!, at-ok, put-ok, get!-set, get!-take, get!-replicate}
use map_router.Word.{u32_mod, add32-eq}
use map_router.Graph.Rows.Count.{tally, below, below-suc, below-le, below_mono, count_rows-below}
use map_router.Routing.Search.Edges.{IsUpward}
use map_router.Ch.Overlay.{CsrEdge, Csr, place_edges, build_csr}
use map_router.Ch.Overlay.Placed.{
  Zeroed-ℤ, sources, with_source, AllInside, with_source-append, length-with_source, length-sources,
  AllInside-AllBelow, below-row, get_elem?-concat, get_elem?-last, get_elem?-inside, IsAt,
  IsPlacing, written, written-IsAt, written-kept,
}

length-with_source_concat :
    (u : ℕ) (done : List CsrEdge) (e : CsrEdge)
    → length (with_source u (done ++ e ∷ []))
      ≡ length (with_source u done) + (if e.from == u then 1 else 0)
length-with_source_concat u done e =
    ap length (with_source-append u done (e ∷ []))
    ∙ length-append (with_source u done) (if e.from == u then e ∷ [] else [])
    ∙ ap (◌+◌ (length (with_source u done))) (one (e.from == u))
  where
    one : (b : Bool) → length (if b then e ∷ [] else []) ≡ (if b then 1 else 0)
    one true = refl
    one false = refl

module _ (n : ℕ) (us : List ℕ) (fits : length us < u32_mod) where
  -- The free place of row `u`.
  abbrev slot : ℕ → List CsrEdge → ℕ
  slot u done = below u us + length (with_source u done)

  -- A place in one row is not one in another row.
  rows-apart :
      (u v i j : ℕ)
      → u ≢ v
      → below u us ≤ i
      → i < below (u + 1) us
      → below v us ≤ j
      → j < below (v + 1) us
      → i ≢ j
  rows-apart u v i j apart a b c d same = elim (dec_lt u v) [
    | yes less ↦ absurd (omega (arith, below-row (v - u - 1) u v us (omega arith)))
    | no more ↦ absurd (omega (arith, below-row (u - v - 1) v u us (omega arith)))
  ]

  module _ (done : List CsrEdge) (next : List ℕ) (a : Csr)
      (p : IsPlacing n (length us) us done next a) (e : CsrEdge) (from_in : e.from < n)
      (to_in : e.to < n) (caps : (u : ℕ) → length (with_source u done) ≤ tally u us)
      (room : length (with_source e.from done) < tally e.from us) where
    abbrev idx : ℕ
    idx = slot e.from done

    idx-lt : idx < below (e.from + 1) us
    idx-lt = omega (arith, below-suc e.from us)

    idx-inside : idx < length us
    idx-inside = omega (arith, idx-lt, below-le (e.from + 1) us)

    placed-rows :
        (u r : ℕ) (c : CsrEdge)
        → u < n
        → get_elem? (with_source u (done ++ e ∷ [])) r ≡ some c
        → IsAt (written a idx e) (below u us + r) c
    placed-rows u r c inside h =
        let split = rw (with_source-append u done (e ∷ [])) at h in
        elim (ℕ_discrete e.from u) [
          | yes same ↦
              let own : (e.from == u) ≡ true = ground arith in
              let appended = rw own at split in
              elim (ℕ_discrete r (length (with_source u done))) [
                | yes last ↦
                    let this : e ≡ c =
                      get_elem?-last (with_source u done) e c (rw last at appended) in
                    rw (last, ← same, ← this)
                      (written-IsAt a (length us) idx e p.heads p.weights p.middles idx-inside)
                | no earlier ↦
                    written-kept a (length us) idx e p.heads p.weights p.middles idx-inside _ c
                      (λ clash. earlier (omega (arith, rw same at clash)))
                      (p.rows u r c inside
                        (get_elem?-concat (with_source u done) e r c appended earlier))
              ]
          | no apart ↦
              let foreign : (e.from == u) ≡ false = ground arith in
              let old = rw (append-nil (with_source u done)) at (rw foreign at split) in
              written-kept a (length us) idx e p.heads p.weights p.middles idx-inside _ c
                (rows-apart e.from u idx (below u us + r) apart (omega arith) idx-lt (omega arith)
                  (omega (arith, below-suc u us, caps u, get_elem?-inside _ r c old)))
                (p.rows u r c inside old)
        ]

    IsPlacing-step :
        IsPlacing n (length us) us (done ++ e ∷ []) (set next e.from (idx + 1)) (written a idx e)
    IsPlacing-step = record {
      free = rw length-set p.free;
      heads = rw length-set p.heads;
      weights = rw length-set p.weights;
      middles = rw length-set p.middles;
      inside = λ k h.
          ground
            (arith, get!-set a.head idx k e.to (omega (arith, p.heads, idx-inside)), p.inside k h);
      places = λ u h.
          let entry = get!-set next e.from u (idx + 1) (omega (arith, p.free)) in
          let size = length-with_source_concat u done e in
          elim (ℕ_discrete e.from u) [
            | yes same ↦ rw (← same) (ground (arith, rw (← same) at entry, rw (← same) at size))
            | no apart ↦ ground (arith, entry, size, p.places u h)
          ];
      rows = placed-rows;
    }

  place_edges-IsPlacing :
      (edges done : List CsrEdge) (next : List ℕ) (a : Csr)
      → AllInside n edges
      → ((u : ℕ) → length (with_source u done) + length (with_source u edges) ≡ tally u us)
      → IsPlacing n (length us) us done next a
      → Ensures
          (λ r. (last : List ℕ) × IsPlacing n (length us) us (done ++ edges) last r)
          (place_edges edges next a)
  unfolding place_edges
  place_edges-IsPlacing [] done next a h whole p = ensures (next, rw (append-nil done) p)
  place_edges-IsPlacing (e ∷ edges) done next a ((from_in, to_in), hs) whole p =
      let caps : (u : ℕ) → length (with_source u done) ≤ tally u us = λ u. omega (arith, whole u) in
      let room : length (with_source e.from done) < tally e.from us =
        let own = ==-refl e.from in ground (arith, whole e.from) in
      let k = slot e.from done in
      let inside = idx-inside done next a p e from_in to_in caps room in
      let found : get! next e.from ≡ k = p.places e.from from_in in
      let step = IsPlacing-step done next a p e from_in to_in caps room in
      let rest =
        place_edges-IsPlacing edges (done ++ e ∷ []) (set next e.from (k + 1)) (written a k e) hs
          (λ u. ground (arith, whole u, length-with_source_concat u done e)) step in
      rw
        (
          at-ok next e.from (omega (arith, p.free)),
          found,
          put-ok a.head k e.to (omega (arith, p.heads)),
          put-ok a.weight k e.weight (omega (arith, p.weights)),
          put-ok a.middle k e.middle (omega (arith, p.middles)),
          add32-eq k 1 (omega arith),
          put-ok next e.from (k + 1) (omega (arith, p.free)),
        )
        (rw (append_assoc done (e ∷ []) edges) at rest)

-- The arrays of `buildCSR`: a CSR over `n` nodes whose rows hold the edges of their nodes in order.
pub record IsBuilt (n : ℕ) (edges : List CsrEdge) (first_out : List ℕ) (a : Csr) : Type 0 where
  pub up : IsUpward n (record { first_out = first_out; head = a.head; weight = a.weight })
  pub middles : length a.middle ≡ length a.head
  pub count : length a.head ≡ length edges
  pub sizes :
      (u : ℕ) → u < n → get! first_out (u + 1) ≡ get! first_out u + length (with_source u edges)
  pub rows :
      (u r : ℕ) (c : CsrEdge)
      → u < n
      → get_elem? (with_source u edges) r ≡ some c
      → IsAt a (get! first_out u + r) c

AllInside-pos : (n : ℕ) (edges : List CsrEdge) → AllInside n edges → 0 < length edges → 0 < n
AllInside-pos n [] h p = absurd (omega arith)
AllInside-pos n (e ∷ edges) ((h, k), hs) p = omega arith

module _ (n : ℕ) (edges : List CsrEdge) (inside : AllInside n edges) (first_out : List ℕ)
    (size : length first_out ≡ n + 1)
    (counted : (j : ℕ) → j ≤ n → get! first_out j ≡ below j (sources edges)) where
  abbrev m : ℕ
  m = length (sources edges)

  start-IsPlacing :
      IsPlacing n m
        (sources edges)
        []
        (take n first_out)
        (record { head = replicate m 0; weight = replicate m 0; middle = replicate m (pos 0) })
  start-IsPlacing = record {
    free = length-take n first_out (omega arith);
    heads = length-replicate m 0;
    weights = length-replicate m 0;
    middles = length-replicate m (pos 0);
    inside = λ k h.
        let blank : get! (replicate m zero) k ≡ zero = get!-replicate m k zero h in
        omega (arith, blank, AllInside-pos n edges inside (omega (arith, length-sources edges)));
    places = λ u h. omega (arith, get!-take n first_out u h, counted u (omega arith));
    rows = λ u r c h e. cc;
  }

  placed-IsBuilt :
      (a : Csr) (last : List ℕ)
      → IsPlacing n m (sources edges) edges last a
      → IsBuilt n edges first_out a
  placed-IsBuilt a last p = record {
    up = record {
      firsts = size;
      weights = p.weights ∙ sym p.heads;
      ordered = λ u h. omega (
        arith,
        counted u (omega arith),
        counted (u + 1) (omega arith),
        below_mono u (sources edges),
      );
      ranges = λ u h.
          omega (arith, counted (u + 1) (omega arith), below-le (u + 1) (sources edges), p.heads);
      heads = λ e h. p.inside e (omega (arith, p.heads));
    };
    middles = p.middles ∙ sym p.heads;
    count = p.heads ∙ length-sources edges;
    sizes = λ u h. omega (
      arith,
      counted u (omega arith),
      counted (u + 1) (omega arith),
      below-suc u (sources edges),
      length-with_source u edges,
    );
    rows = λ u r c h e. rw (counted u (omega arith)) (p.rows u r c h e);
  }

-- For edges between nodes, as many as `uint32` counts, `buildCSR` returns, without a panic, arrays
-- over the nodes in which every row holds exactly its node's edges, in their order, with heads,
-- weights and middle nodes.
pub build_csr-IsBuilt :
    (n : ℕ) (edges : List CsrEdge)
    → n + 1 < u32_mod
    → length edges < u32_mod
    → AllInside n edges
    → Ensures (λ (first_out, a). IsBuilt n edges first_out a) (build_csr n edges)
unfolding build_csr
build_csr-IsBuilt n edges small fits inside =
    let size = length-sources edges in
    let count : length edges % u32_mod ≡ length (sources edges) = omega arith in
    Ensures-bind
      (count_rows-below n small (sources edges) (AllInside-AllBelow n edges inside) (omega arith))
      (λ first_out (firsts, counted). rw count (
        Ensures-bind
          (place_edges-IsPlacing n (sources edges) (omega arith) edges [] (take n first_out) _
            inside (λ u. omega (arith, length-with_source u edges))
            (start-IsPlacing n edges inside first_out firsts counted))
          (λ a (last, placed).
            ensures (placed-IsBuilt n edges inside first_out firsts counted a last placed))))
