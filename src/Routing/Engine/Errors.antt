-- ===== src/Routing/Engine/Errors.antt =====
-- When `Route` answers `ErrPointTooFar`.
use mathlib.Core.Bool.{false≢true}
use map_router.Base.{
  ℕ, ◌≡◌, ◌⊎◌, ◌↔◌, inl, inr, refl, ap, Bool, false, ◌||◌, List, [], ◌∷◌, length, arith, ltb, ◌==◌,
  if◌then◌else◌, if-holds, ℕ_discrete,
}
use map_router.Run.{Run, ok, panic, out_of_fuel, ◌>>=◌}
use map_router.Float.{Float}
use map_router.Api.Handlers.{Routed, found, failed}
use map_router.Routing.MinHeap.{max_u32}
use map_router.Routing.QueryState.{QueryState, no_node, reset}
use map_router.Routing.Search.{Search, run_ch_dijkstra}
use map_router.Routing.Unpack.{unpack_overlay_path}
use map_router.Routing.Snap.{SnapResult}
use map_router.Routing.Engine.{
  Engine, Point, snap_k, snap_radii_meters, snap_loop, snap_with_fallback, finish_query, query,
  seed_query, route_candidates, route, err_point_too_far, anchor_candidates,
  reconstruct_overlay_path, build_geometry,
}

-- If there is a value, it is not in `P`.
data Never {ℓ} {A : Type ℓ} (P : A → Type 0) : Run A → Type ℓ where
  value : {a : A} → ¬ P a → Never P (ok a)
  no_value : Never P panic
  no_fuel : Never P out_of_fuel

module _ {ℓ} {A : Type ℓ} {P : A → Type 0} where
  Never-bind {κ} :
      {B : Type κ} (m : Run B) {h : B → Run A} → ((b : B) → Never P (h b)) → Never P (m >>= h)
  Never-bind (ok b) k = k b
  Never-bind panic k = no_value
  Never-bind out_of_fuel k = no_fuel

  Never-then {κ} :
      {B : Type κ} {Q : B → Type 0} {m : Run B} {h : B → Run A}
      → Never Q m
      → ((b : B) → ¬ Q b → Never P (h b))
      → Never P (m >>= h)
  Never-then (value q) k = k _ q
  Never-then no_value k = no_value
  Never-then no_fuel k = no_fuel

  Never-eq : {m : Run A} {a : A} → Never P m → m ≡ ok a → ¬ P a
  Never-eq (value q) e p = q (rw (value_of e) p)
    where
      value_of : {b c : A} → (ok b ≡ ok c) → b ≡ c
      value_of e = cc
  Never-eq no_value e p = cc
  Never-eq no_fuel e p = cc

module _ (f : Float) where
  -- The answer `ErrPointTooFar`, whatever the state.
  abbrev pub IsTooFar : Routed f × QueryState → Type 0
  IsTooFar (answer, qs) = answer ≡ failed err_point_too_far

  too_far : Routed f → Bool
  too_far (found r) = false
  too_far (failed err) = err.is_point_too_far

  finish_query-Never :
      (trace_fuel : ℕ) (e : Engine f) (anchor : List ℕ → List (Point f) → Run (List (Point f)))
      (r : Search)
      → Never (λ answer. answer ≡ failed err_point_too_far) (finish_query f trace_fuel e anchor r)
  unfolding finish_query too_far
  finish_query-Never trace_fuel e anchor r =
      if-holds (Never (λ answer. answer ≡ failed err_point_too_far))
        (r.best.node == no_node || r.best.mu == max_u32)
        (λ _. value λ same. false≢true (ap too_far same))
        (λ _.
          Never-bind (reconstruct_overlay_path trace_fuel r.best.node r.qs.fwd.pred r.qs.bwd.pred)
            λ overlay_nodes. Never-bind (unpack_overlay_path e.chg overlay_nodes) λ orig_nodes.
              Never-bind (build_geometry f e.orig_graph orig_nodes) λ geometry.
                Never-bind (anchor orig_nodes geometry)
                  λ anchored. value λ same. false≢true (ap too_far same))

  route_candidates-Never :
      (fuel trace_fuel : ℕ) (e : Engine f) (cancelled : ℕ → Bool)
      (starts ends : List (SnapResult f)) (qs : QueryState)
      → Never IsTooFar (route_candidates f fuel trace_fuel e cancelled starts ends qs)
  unfolding route_candidates query
  route_candidates-Never fuel trace_fuel e cancelled starts ends qs =
      Never-bind (seed_query f e starts ends qs) λ b.
        Never-bind (run_ch_dijkstra fuel e.chg cancelled b) λ r.
          Never-then
            (finish_query-Never trace_fuel e (anchor_candidates f e.orig_graph starts ends) r)
            λ answer near. Never-bind (reset r.qs) λ clean. value near

  -- `Route` by the numbers of its candidates, with the rest of its work as an argument.
  asked : ℕ → ℕ → Run (Routed f × QueryState) → QueryState → Run (Routed f × QueryState)
  asked a b rest qs =
      if a == 0
      then ok (failed err_point_too_far, qs)
      else if b == 0
      then ok (failed err_point_too_far, qs)
      else rest

  asked-far :
      (a b : ℕ) (rest : Run (Routed f × QueryState)) (qs : QueryState)
      → Never IsTooFar rest
      → (r : Routed f × QueryState) → asked a b rest qs ≡ ok r
      → IsTooFar r
      → (a ≡ 0) ⊎ (b ≡ 0)
  unfolding asked
  asked-far a b rest qs near r ended far = elim (ℕ_discrete a 0) [
    | yes none ↦ inl none
    | no some_a ↦ elim (ℕ_discrete b 0) [
      | yes none ↦ inr none
      | no some_b ↦ let last : rest ≡ ok r = ground arith in absurd (Never-eq near last far)
    ]
  ]

  far-asked :
      (a b : ℕ) (rest : Run (Routed f × QueryState)) (qs : QueryState)
      → (a ≡ 0) ⊎ (b ≡ 0)
      → asked a b rest qs ≡ ok (failed err_point_too_far, qs)
  unfolding asked
  far-asked a b rest qs h = ground arith

  module _ (e : Engine f) (cands : f.F → f.F → ℕ → f.F → List (SnapResult f))
      (total : (lat lng : f.F) (k : ℕ) (r : f.F)
        → e.snap_candidates lat lng k r ≡ ok (cands lat lng k r)) where
    -- The candidates of the first radius that yields any.
    abbrev pub first_candidates : Point f → List f.F → List (SnapResult f)
    first_candidates p [] = []
    first_candidates p (r ∷ radii) =
        let rest = first_candidates p radii in
        if ltb 0 (length (cands p.lat p.lng (snap_k f) r))
        then cands p.lat p.lng (snap_k f) r
        else rest

    -- No radius of the schedule yields a candidate.
    abbrev pub IsRemote : Point f → List f.F → Type 0
    IsRemote p [] = Unit
    IsRemote p (r ∷ radii) = (length (cands p.lat p.lng (snap_k f) r) ≡ 0) × IsRemote p radii

    snap_loop-first :
        (p : Point f) (radii : List f.F)
        → snap_loop f e p.lat p.lng radii ≡ ok (first_candidates p radii)
    unfolding snap_loop
    snap_loop-first p [] = refl
    snap_loop-first p (r ∷ radii) =
        rw (total p.lat p.lng (snap_k f) r)
          (by_length (length (cands p.lat p.lng (snap_k f) r)) _ (snap_loop-first p radii))
      where
        by_length :
            (m : ℕ) (here : List (SnapResult f)) {rest : Run (List (SnapResult f))}
            {found_later : List (SnapResult f)}
            → rest ≡ ok found_later
            → (if ltb 0 m then ok here else rest) ≡ ok (if ltb 0 m then here else found_later)
        by_length m same = ground arith

    first_candidates-IsRemote :
        (p : Point f) (radii : List f.F) → length (first_candidates p radii) ≡ 0 → IsRemote p radii
    first_candidates-IsRemote p [] h = tt
    first_candidates-IsRemote p (r ∷ radii) h = ground (arith, first_candidates-IsRemote p radii)

    IsRemote-first_candidates :
        (p : Point f) (radii : List f.F) → IsRemote p radii → length (first_candidates p radii) ≡ 0
    IsRemote-first_candidates p [] h = refl
    IsRemote-first_candidates p (r ∷ radii) (none, h) =
        ground (arith, IsRemote-first_candidates p radii h)

    -- Where `SnapCandidates` does not panic, `Route` answers `ErrPointTooFar` exactly if one of the
    -- two points has no candidate within any radius of the schedule.
    pub route-IsTooFar :
        (fuel trace_fuel : ℕ) (cancelled : ℕ → Bool) (start end : Point f) (qs : QueryState)
        → ((r : Routed f × QueryState) × (route f fuel trace_fuel e cancelled start end qs ≡ ok r)
            × IsTooFar r)
          ↔ (IsRemote start (snap_radii_meters f) ⊎ IsRemote end (snap_radii_meters f))
    unfolding route snap_with_fallback asked
    route-IsTooFar fuel trace_fuel cancelled start end qs =
        let radii = snap_radii_meters f in
        let starts = first_candidates start radii in
        let ends = first_candidates end radii in
        rw (snap_loop-first start radii, snap_loop-first end radii)
          (
            λ (r, ended, far).
                elim (asked-far (length starts) (length ends) _ qs
                  (route_candidates-Never fuel trace_fuel e cancelled starts ends qs) r ended far) [
                    | inl none ↦ inl (first_candidates-IsRemote start radii none)
                    | inr none ↦ inr (first_candidates-IsRemote end radii none)
                  ],
            λ remote. (
              (failed err_point_too_far, qs),
              far-asked (length starts) (length ends) _ qs (elim remote [
                | inl none ↦ inl (IsRemote-first_candidates start radii none)
                | inr none ↦ inr (IsRemote-first_candidates end radii none)
              ]),
              refl,
            ),
          )
