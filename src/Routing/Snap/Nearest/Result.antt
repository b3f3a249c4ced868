-- ===== src/Routing/Snap/Nearest/Result.antt =====
-- What `SnapCandidates` returns.
use map_router.Base.{
  ℕ, In, ◌↔◌, ◌⊎◌, inl, inr, dec_lt, ==-refl, length-take, zero, suc, ◌≤◌, ◌<◌, ◌≡◌, refl, ◌∙◌,
  Bool, true, false, not, ◌||◌, ◌&&◌, List, [], ◌∷◌, arith, ltb, ◌==◌, if-holds, length, take,
  any_of, any_of-perm,
}
use map_router.Run.{ok, Ensures-value, Ensures, ensures, Ensures-bind}
use map_router.Array.{Zeroed-ℕ, get!, at-ok, at}
use map_router.Float.{Float}
use map_router.Sort.{SortSlice}
use map_router.Routing.Snap.{SnapResult}
use map_router.Routing.Snap.Grid.{SearchSlice, CellEdge, Snapper, key_less, cell_range, grid_cell}
use map_router.Sort.{IsOrdered}
use map_router.Routing.Snap.Grid.Range.{with_key, cell_range-with_key}
use map_router.Routing.Snap.Nearest.{
  pair_key, snap_to, collect_cell, collect, ring_keys, ring_span, dist_less, snap_candidates,
}
use map_router.Routing.Snap.Nearest.Reach.{IsReached, collect-IsReached}
use map_router.Routing.Snap.Nearest.Distinct.{
  first_of_roads, is_on, IsDistinct, keep_distinct-take, first_of_roads-IsDistinct, IsDistinct-take,
  any_of-first_of_roads, any_of-take, any_of-append, length-take_le, take-short, In-any_of,
  first_of_roads-all,
}

module _ (f : Float) where
  -- An entry whose node or edge does not exist.
  abbrev pub is_stray : ℕ → ℕ → CellEdge → Bool
  is_stray n m c = not (ltb c.source n && ltb c.edge_idx m)

  -- An index over a graph with `n` nodes: its entries are in order and exist.
  pub record IsIndex (n : ℕ) (s : Snapper f) : Type 0 where
    pub ordered : IsOrdered key_less s.edges
    pub stray : any_of (is_stray n (length s.g.head)) s.edges ≡ false
    pub lats : length s.g.node_lat ≡ n
    pub lons : length s.g.node_lon ≡ n
    pub heads : (e : ℕ) → e < length s.g.head → get! s.g.head e < n

  -- A candidate beyond the radius, and one that is not on the edge that it names.
  abbrev pub is_beyond : f.F → SnapResult f → Bool
  is_beyond radius r = not (f.le r.dist radius)

  abbrev pub is_off : Snapper f → SnapResult f → Bool
  is_off s r = not (ltb r.edge_idx (length s.g.head) && get! s.g.head r.edge_idx == r.node_v)

  abbrev pub is_bad : Snapper f → f.F → SnapResult f → Bool
  is_bad s radius r = is_beyond radius r || is_off s r

  any_of-with_key :
      (test : CellEdge → Bool) (key : ℕ) (edges : List CellEdge)
      → any_of test edges ≡ false
      → any_of test (with_key key edges) ≡ false
  any_of-with_key test key [] h = refl
  any_of-with_key test key (c ∷ edges) h = ground (arith, any_of-with_key test key edges)

  at-total :
      {A : Type 0} (row : List A) (i : ℕ) → i < length row → Ensures (λ _. Unit {0}) (at row i)
  unfolding at
  at-total [] i p = absurd (omega arith)
  at-total (x ∷ row) zero p = ensures tt
  at-total (x ∷ row) (suc i) p = at-total row i (omega arith)

  module _ (n : ℕ) (s : Snapper f) (index : IsIndex n s) (lat lng : f.F) where
    snap_to-on :
        (ce : CellEdge)
        → is_stray n (length s.g.head) ce ≡ false
        → Ensures (λ r. is_off s r ≡ false) (snap_to f s lat lng ce)
    unfolding snap_to
    snap_to-on ce there =
        let (node, edge) = parts ce.source ce.edge_idx there in
        let head = index.heads ce.edge_idx edge in
        rw (at-ok s.g.head ce.edge_idx edge) (
          Ensures-bind (at-total s.g.node_lat ce.source (omega (arith, index.lats))) λ u_lat _.
            Ensures-bind (at-total s.g.node_lon ce.source (omega (arith, index.lons))) λ u_lon _.
              Ensures-bind
                (at-total s.g.node_lat (get! s.g.head ce.edge_idx) (omega (arith, index.lats)))
                λ v_lat _.
                  Ensures-bind
                    (at-total s.g.node_lon (get! s.g.head ce.edge_idx) (omega (arith, index.lons)))
                    λ v_lon _. ensures (ground arith))
      where
        parts :
            (a e : ℕ)
            → not (ltb a n && ltb e (length s.g.head)) ≡ false
            → (a < n) × (e < length s.g.head)
        parts a e h = ground arith

    module _ (radius : f.F) where
      collect_cell-near :
          (cells : List CellEdge) (all : List (SnapResult f))
          → any_of (is_stray n (length s.g.head)) cells ≡ false
          → any_of (is_bad s radius) all ≡ false
          → Ensures
              (λ r. any_of (is_bad s radius) r ≡ false)
              (collect_cell f s lat lng radius cells all)
      unfolding collect_cell
      collect_cell-near [] all h good = ensures good
      collect_cell-near (ce ∷ cells) all h good =
          Ensures-bind (snap_to-on ce (left (is_stray n (length s.g.head) ce) _ h)) λ r on.
            collect_cell-near cells _ (right (is_stray n (length s.g.head) ce) _ h) (
              if-holds (λ more. any_of (is_bad s radius) more ≡ false) (f.le r.dist radius)
                (λ near. let both = any_of-append (is_bad s radius) all (r ∷ []) in ground arith)
                (λ far. good))
        where
          left : (a b : Bool) → a || b ≡ false → a ≡ false
          left a b h = ground arith

          right : (a b : Bool) → a || b ≡ false → b ≡ false
          right a b h = ground arith

      collect-near :
          (find : SearchSlice) (keys : List ℕ) (all : List (SnapResult f))
          → any_of (is_bad s radius) all ≡ false
          → Ensures
              (λ r. any_of (is_bad s radius) r ≡ false)
              (collect f find s lat lng radius keys all)
      unfolding collect
      collect-near find [] all good = ensures good
      collect-near find (key ∷ keys) all good =
          Ensures-bind
            (collect_cell-near (cell_range find s.edges key) all
              (rw (cell_range-with_key find s.edges key index.ordered)
                (any_of-with_key _ key s.edges index.stray))
              good)
            (λ more near. collect-near find keys more near)

      -- The candidates `out`: `all` are those within the radius that entries of the cells around the
      -- point yield, and their roads come in the order of distance, up to `k`.
      pub record IsNearest (k : ℕ) (less_sort : List (SnapResult f) → List (SnapResult f))
          (out : List (SnapResult f)) : Type 0 where
        pub all : List (SnapResult f)
        pub reached : (r : SnapResult f) → In r all ↔ IsReached f s lat lng radius r
        pub few : length out ≤ k
        pub good : any_of (is_bad s radius) out ≡ false
        pub distinct : IsDistinct f out
        pub first : out ≡ take k (first_of_roads f [] (less_sort all))
        pub roads :
            (key : ℕ)
            → any_of (is_on f key) (first_of_roads f [] (less_sort all)) ≡ any_of (is_on f key) all
        pub complete :
            (r : SnapResult f)
            → IsReached f s lat lng radius r
            → (any_of (is_on f (pair_key f r)) out ≡ true) ⊎ (length out ≡ k)

      -- A road in reach is among the first `k` roads unless `k` others are.
      take_complete :
          (k key : ℕ) (roads : List (SnapResult f))
          → any_of (is_on f key) roads ≡ true
          → (any_of (is_on f key) (take k roads) ≡ true) ⊎ (length (take k roads) ≡ k)
      take_complete k key roads h = elim (dec_lt k (length roads)) [
        | yes more ↦ inr (length-take k roads (omega arith))
        | no fits ↦ inl (rw (take-short k roads (omega arith)) h)
      ]

      first_of_roads-IsNearest :
          (k : ℕ) (sort_slice : SortSlice (dist_less f)) (all : List (SnapResult f))
          → any_of (is_bad s radius) all ≡ false
          → ((r : SnapResult f) → In r all ↔ IsReached f s lat lng radius r)
          → IsNearest k sort_slice.sort (take k (first_of_roads f [] (sort_slice.sort all)))
      first_of_roads-IsNearest k sort_slice all near reached =
          let sorted = sort_slice.sort all in
          let sorted_near = any_of-perm (is_bad s radius) (sort_slice.perm all) ∙ near in
          let roads = first_of_roads f [] sorted in
          let same_roads : (key : ℕ) → any_of (is_on f key) roads ≡ any_of (is_on f key) all =
            λ key. first_of_roads-all f key [] sorted refl ∙ any_of-perm _ (sort_slice.perm all) in
          record {
            all = all;
            reached = reached;
            few = length-take_le k roads;
            good =
                any_of-take (is_bad s radius) k roads
                  (any_of-first_of_roads f (is_bad s radius) [] sorted sorted_near);
            distinct = IsDistinct-take f k roads (first_of_roads-IsDistinct f [] sorted);
            first = refl;
            roads = same_roads;
            complete = λ r i. take_complete k (pair_key f r) roads (
                same_roads (pair_key f r)
                ∙ In-any_of (is_on f (pair_key f r)) r all (==-refl (pair_key f r))
                    ((reached r).1 i));
          }

      -- On an index over a graph, `SnapCandidates` returns, without a panic, at most `k` candidates
      -- on distinct roads, each on its edge and within the radius: of the candidates within the
      -- radius that the entries of the cells around the point yield, the first of each road in the
      -- order of `sort.Slice`, cut off after `k`. A road with such a candidate is left out only if
      -- `k` others are returned.
      pub snap_candidates-IsNearest :
          (find : SearchSlice) (sort_slice : SortSlice (dist_less f)) (k : ℕ)
          → Ensures
              (IsNearest k sort_slice.sort)
              (snap_candidates f find sort_slice s lat lng k radius)
      unfolding snap_candidates
      snap_candidates-IsNearest find sort_slice k =
          let keys = ring_keys (grid_cell f lat) (grid_cell f lng) (ring_span f radius) in
          let (all, ended, near) = Ensures-value (collect-near find keys [] refl) in
          let reached = collect-IsReached f s lat lng radius find index.ordered all ended in
          by_k k all ended near reached
        where
          by_k :
              (k : ℕ) (all : List (SnapResult f))
              → collect f find s lat lng radius
                  (ring_keys (grid_cell f lat) (grid_cell f lng) (ring_span f radius))
                  []
                ≡ ok all
              → any_of (is_bad s radius) all ≡ false
              → ((r : SnapResult f) → In r all ↔ IsReached f s lat lng radius r)
              → Ensures
                  (IsNearest k sort_slice.sort)
                  (snap_candidates f find sort_slice s lat lng k radius)
          by_k zero all ended near reached =
              ensures (first_of_roads-IsNearest 0 sort_slice all near reached)
          by_k (suc k) all ended near reached =
              let some : (suc k == 0) ≡ false = ground arith in
              rw
                (
                  some,
                  ended,
                  keep_distinct-take f (suc k) [] (sort_slice.sort all) [] (omega arith),
                )
                (ensures (first_of_roads-IsNearest (suc k) sort_slice all near reached))
