-- ===== src/Graph/Build/Correct.antt =====
-- What `Build` returns: a graph in CSR form that holds exactly the parsed edges.
use mathlib.Core.List.Perm
use map_router.Base.{
  ℕ, ◌+◌, ◌%◌, ◌<◌, ◌≤◌, ◌≡◌, refl, ◌∙◌, true, false, List, [], some, map, Perm, arith, ◌==◌,
  length, length-replicate, get_elem?, any_of, any_of-perm, take, replicate, set,
}
use map_router.Run.{Ensures, ensures, Ensures-bind}
use map_router.Array.{Zeroed-ℕ, get!, get!-set, put-ok, length-perm}
use map_router.Word.{u32_mod, add32-eq}
use map_router.Float.{Float}
use map_router.Sort.{SortSlice, IsOrdered}
use map_router.Osm.Parse.{ParseResult}
use map_router.Graph.{Graph}
use map_router.Graph.Csr.Valid.{IsCsr}
use map_router.Graph.Rows.Count.{below, below-length, below_mono, count_rows-below}
use map_router.Graph.Rows.Sorted.{ascending-row}
use map_router.Graph.Build.{
  Numbering, CompactEdge, compact_edge, compact_less, coordinates_of, number_nodes, EdgeArrays,
  assemble, build,
}
use map_router.Graph.Build.Nodes.{
  IsNumbered, AllKnown, is_wrong, find_node-any, number_nodes-AllKnown, number_nodes-IsNumbered,
}
use map_router.Graph.Build.Named.{is_named, number_nodes-named}
use map_router.Graph.Build.Fill.{
  Zeroed-Bool, all_lats, all_lons, IsFilled, IsEntry, HasRoom, fill_edges-IsFilled,
}
use map_router.Graph.Build.Coordinates.{Zeroed-F, IsPainted, fill_coordinates-IsPainted}
use map_router.Graph.Build.Compact.{
  named, is_outside, sources, sources-AllBelow, sources-IsAscending, compact_edge-named,
  compact_edge-inside, get_elem?-any_of, get_elem?-some, get_elem?-lt, length-map, get!-map,
}

module _ (f : Float) where
  -- Edge `e` of the graph is the compact edge `c`, the `e`th of `cs`.
  pub record HoldsEdge (g : Graph f.F) (cs : List (CompactEdge f)) (e : ℕ) (c : CompactEdge f)
      : Type 0 where
    pub row_start : get! g.first_out c.from ≤ e
    pub row_end : e < get! g.first_out (c.from + 1)
    pub head : get! g.head e ≡ c.to
    pub weight : get! g.weight e ≡ c.weight
    pub restricted : get! g.edge_restricted e ≡ c.restricted
    pub shape_start : get! g.geo_first_out e ≡ length (all_lats f (take e cs))

  -- Node `i` of the graph has the coordinates that the parser found for its id.
  pub record HoldsNode (result : ParseResult f) (ids : List ℕ) (g : Graph f.F) (i : ℕ)
      : Type 0 where
    pub lat :
        get! ⦃z = Zeroed-F f result.nodes ids⦄ g.node_lat i
        ≡ (coordinates_of f result.nodes (get! ids i)).0
    pub lon :
        get! ⦃z = Zeroed-F f result.nodes ids⦄ g.node_lon i
        ≡ (coordinates_of f result.nodes (get! ids i)).1

  -- A graph over the nodes `ids` and the edges `cs`.
  pub record IsGraphOf (result : ParseResult f) (ids : List ℕ) (cs : List (CompactEdge f))
      (g : Graph f.F) : Type 0 where
    pub num_nodes : g.num_nodes ≡ length ids
    pub num_edges : g.num_edges ≡ length result.edges
    pub csr : IsCsr g.first_out g.head g.num_nodes
    pub distinct : (i j : ℕ) → i < length ids → j < length ids → get! ids i ≡ get! ids j → i ≡ j
    pub ids_named : (id : ℕ) → any_of (λ k. k == id) ids ≡ any_of (is_named f id) result.edges
    pub same_edges : Perm (map (named f ids) cs) result.edges
    pub edges : (e : ℕ) (c : CompactEdge f) → get_elem? cs e ≡ some c → HoldsEdge g cs e c
    pub shape_end : get! g.geo_first_out (length result.edges) ≡ length (all_lats f cs)
    pub lats : g.geo_shape_lat ≡ all_lats f cs
    pub lons : g.geo_shape_lon ≡ all_lons f cs
    pub nodes : (i : ℕ) → i < length ids → HoldsNode result ids g i

  IsNumbered-distinct :
      (s : Numbering)
      → IsNumbered s
      → (i j : ℕ) → i < length s.node_ids
      → j < length s.node_ids
      → get! s.node_ids i ≡ get! s.node_ids j
      → i ≡ j
  IsNumbered-distinct s n i j p q e = cc (n.found i p, n.found j q, e)

  -- Every node is among the entries of `nodeSet`.
  visits-all :
      (s : Numbering) (visits : List (ℕ × ℕ))
      → IsNumbered s
      → Perm visits s.node_set
      → (i : ℕ) → i < length s.node_ids
      → any_of (λ p. p.1 == i) visits ≡ true
  visits-all s visits n q i p =
      any_of-perm (λ p. p.1 == i) q ∙ find_node-any (get! s.node_ids i) s.node_set i (n.found i p)

  module _ (result : ParseResult f) (s : Numbering) (n : IsNumbered s) (cs : List (CompactEdge f))
      (inside : any_of (is_outside f (length s.node_ids)) cs ≡ false)
      (ordered : IsOrdered (compact_less f) cs)
      (listed : (id : ℕ)
        → any_of (λ k. k == id) s.node_ids ≡ any_of (is_named f id) result.edges) where
    abbrev count : ℕ
    count = length cs

    abbrev node_count : ℕ
    node_count = length s.node_ids

    abbrev blank : EdgeArrays f
    blank = record {
      head = replicate count 0;
      weight = replicate count 0;
      edge_restricted = replicate count false;
      geo_first_out = replicate (count + 1) 0;
      geo_shape_lat = [];
      geo_shape_lon = [];
    }

    blank-HasRoom : HasRoom f count blank
    blank-HasRoom = record {
      heads = length-replicate count 0;
      weights = length-replicate count 0;
      flags = length-replicate count false;
      shapes = length-replicate (count + 1) 0;
    }

    -- The rows that the counting yields.
    abbrev IsCounted : List ℕ → Type 0
    IsCounted first_out =
        (length first_out ≡ node_count + 1)
        × ((j : ℕ) → j ≤ node_count → get! first_out j ≡ below j (sources f cs))

    abbrev Painted : List f.F × List f.F → List (ℕ × ℕ) → Type 0
    Painted (lats, lons) visits =
        IsPainted f result.nodes s.node_ids (λ id. (coordinates_of f result.nodes id).0) visits
          (replicate node_count (f.of_ratio 0 1)) lats
        × IsPainted f result.nodes s.node_ids (λ id. (coordinates_of f result.nodes id).1) visits
            (replicate node_count (f.of_ratio 0 1)) lons

    abbrev put_together : EdgeArrays f → List ℕ → List f.F × List f.F → Graph f.F
    put_together a first_out (lats, lons) = record {
      num_nodes = node_count;
      num_edges = count;
      first_out = first_out;
      head = a.head;
      weight = a.weight;
      edge_restricted = a.edge_restricted;
      node_lat = lats;
      node_lon = lons;
      geo_first_out = set a.geo_first_out count (length (all_lats f cs));
      geo_shape_lat = a.geo_shape_lat;
      geo_shape_lon = a.geo_shape_lon;
    }

    module _ (a : EdgeArrays f) (filled : IsFilled f count 0 cs blank a) (first_out : List ℕ)
        (counted : IsCounted first_out) (coords : List f.F × List f.F) where
      from_to :
          (e : ℕ) (c : CompactEdge f)
          → get_elem? cs e ≡ some c
          → (c.from < node_count) × (c.to < node_count)
      from_to e c h =
          let kept = get_elem?-any_of (is_outside f node_count) cs e c inside h in ground arith

      IsEntry-at :
          (e : ℕ) (c : CompactEdge f)
          → get_elem? cs e ≡ some c
          → IsEntry f a e c (length (all_lats f (take e cs)))
      IsEntry-at e c h =
          let at_e : 0 + e ≡ e = omega arith in
          let at_start : 0 + length (all_lats f (take e cs)) ≡ length (all_lats f (take e cs)) =
            omega arith in
          rw (at_e, at_start) at (filled.entries e c h)

      holds-edge :
          (e : ℕ) (c : CompactEdge f)
          → get_elem? cs e ≡ some c
          → HoldsEdge (put_together a first_out coords) cs e c
      holds-edge e c h =
          let (from_in, to_in) = from_to e c h in
          let before = get_elem?-lt cs e c h in
          let source : get! (sources f cs) e ≡ c.from = get!-map (λ c. c.from) cs e c h in
          let (lo, hi) =
            ascending-row (sources f cs) e (sources-IsAscending f cs ordered)
              (rw (length-map (λ c. c.from) cs) before) in
          let entry = IsEntry-at e c h in
          let slot =
            get!-set a.geo_first_out count e (length (all_lats f cs))
              (omega (arith, filled.room.shapes)) in
          record {
            row_start = omega (arith, counted.1 c.from (omega arith), rw source at lo);
            row_end = omega (arith, counted.1 (c.from + 1) (omega arith), rw source at hi);
            head = entry.head;
            weight = entry.weight;
            restricted = entry.restricted;
            shape_start = ground (arith, slot, entry.shape);
          }

      holds-IsCsr : IsCsr first_out a.head node_count
      holds-IsCsr =
          let below_all = sources-AllBelow f node_count cs inside in
          record {
            firsts = counted.0;
            last = omega (
              arith,
              counted.1 node_count (omega arith),
              filled.room.heads,
              below-length node_count (sources f cs) below_all,
              length-map (λ (c : CompactEdge f). c.from) cs,
            );
            ordered = λ i p. omega (
              arith,
              counted.1 i (omega arith),
              counted.1 (i + 1) (omega arith),
              below_mono i (sources f cs),
            );
            heads = λ e p.
                let (c, h) = get_elem?-some cs e (omega (arith, filled.room.heads)) in
                let (_, to_in) = from_to e c h in omega (arith, (IsEntry-at e c h).head);
          }

      graph-of :
          Perm (map (named f s.node_ids) cs) result.edges
          → count ≡ length result.edges
          → (visits : List (ℕ × ℕ)) → Perm visits s.node_set
          → Painted coords visits
          → IsGraphOf result s.node_ids cs (put_together a first_out coords)
      graph-of same_edges same_count visits visited painted = record {
        num_nodes = refl;
        num_edges = same_count;
        csr = holds-IsCsr;
        distinct = IsNumbered-distinct s n;
        ids_named = listed;
        same_edges = same_edges;
        edges = holds-edge;
        shape_end =
            let slot =
              get!-set a.geo_first_out count count (length (all_lats f cs))
                (omega (arith, filled.room.shapes)) in
            rw (← same_count) (ground (arith, slot));
        lats = filled.lats;
        lons = filled.lons;
        nodes = λ i p.
            let hit = visits-all s visits n visited i p in
            record {
              lat = ground (arith, painted.0.painted i p);
              lon = ground (arith, painted.1.painted i p);
            };
      }

    assemble-IsGraphOf :
        (sort_slice : SortSlice (compact_less f)) (visit : List (ℕ × ℕ) → List (ℕ × ℕ))
        → AllKnown f s result.edges
        → sort_slice.sort (map (compact_edge f s.node_set) result.edges) ≡ cs
        → Perm (map (named f s.node_ids) cs) result.edges
        → count ≡ length result.edges
        → Perm (visit s.node_set) s.node_set
        → node_count + 1 < u32_mod
        → count + 1 < u32_mod
        → length (all_lats f cs) < u32_mod
        → Ensures (IsGraphOf result s.node_ids cs) (assemble f sort_slice visit result s)
    unfolding assemble
    assemble-IsGraphOf sort_slice visit known sorted same_edges same_count visited few_nodes
          few_edges few_points =
        let nodes_mod : node_count % u32_mod ≡ node_count = omega arith in
        let edges_mod : count % u32_mod ≡ count = omega arith in
        let points_mod : length (all_lats f cs) % u32_mod ≡ length (all_lats f cs) = omega arith in
        rw (sorted, nodes_mod, edges_mod, add32-eq count 1 few_edges)
          (Ensures-bind
            (fill_edges-IsFilled f count 0 cs blank blank-HasRoom (omega arith) few_points)
            (λ a filled.
              let total : length a.geo_shape_lat % u32_mod ≡ length (all_lats f cs) =
                rw filled.lats points_mod in
              rw
                (
                  total,
                  put-ok a.geo_first_out count (length (all_lats f cs))
                      (omega (arith, filled.room.shapes)),
                )
                (Ensures-bind
                  (count_rows-below node_count few_nodes (sources f cs)
                    (sources-AllBelow f node_count cs inside)
                    (omega (arith, length-map (λ (c : CompactEdge f). c.from) cs)))
                  (λ first_out counted.
                    Ensures-bind
                      (fill_coordinates-IsPainted f result.nodes s.node_ids (visit s.node_set)
                        (replicate node_count (f.of_ratio 0 1))
                        (replicate node_count (f.of_ratio 0 1))
                        (any_of-perm (is_wrong s.node_ids) visited ∙ n.right)
                        (length-replicate node_count _) (length-replicate node_count _))
                      (λ coords painted. ensures (
                        graph-of a filled first_out counted coords same_edges same_count
                          (visit s.node_set) visited painted))))))

  -- The nodes and the edges of a parse, before they are sorted.
  abbrev pub numbered : ParseResult f → Numbering
  numbered result = number_nodes f result.edges (record { node_set = []; node_ids = [] })

  abbrev pub compacted : SortSlice (compact_less f) → ParseResult f → List (CompactEdge f)
  compacted sort_slice result =
      sort_slice.sort (map (compact_edge f (numbered result).node_set) result.edges)

  module _ (sort_slice : SortSlice (compact_less f)) (visit : List (ℕ × ℕ) → List (ℕ × ℕ))
      (visited : (node_set : List (ℕ × ℕ)) → Perm (visit node_set) node_set) where
    -- `Build` of a parse with edges returns, without a panic, a graph in CSR form. Its nodes are
    -- the distinct ids that the edges name, with their coordinates, and its edges, row by row, are
    -- exactly the parsed edges with their weights, flags and shapes, as long as `uint32` counts
    -- the nodes, the edges and the shape points.
    pub build-IsGraphOf :
        (result : ParseResult f)
        → 0 < length result.edges
        → length (numbered result).node_ids + 1 < u32_mod
        → length result.edges + 1 < u32_mod
        → length (all_lats f (compacted sort_slice result)) < u32_mod
        → Ensures
            (IsGraphOf result (numbered result).node_ids (compacted sort_slice result))
            (build f sort_slice visit result)
    unfolding build
    build-IsGraphOf result some_edges few_nodes few_edges few_points =
        let s = numbered result in
        let plain = map (compact_edge f s.node_set) result.edges in
        let known =
          number_nodes-AllKnown f result.edges (record { node_set = []; node_ids = [] }) in
        let n : IsNumbered s =
          number_nodes-IsNumbered f result.edges _ (omega arith)
            (record { right = refl; found = λ i p. absurd (omega arith) }) in
        let sorted = sort_slice.perm plain in
        let same_count : length (sort_slice.sort plain) ≡ length result.edges =
          length-perm sorted ∙ length-map (compact_edge f s.node_set) result.edges in
        let nonempty : (length result.edges == 0) ≡ false = ground arith in
        rw nonempty (
          assemble-IsGraphOf result s n (sort_slice.sort plain)
            (any_of-perm (is_outside f (length s.node_ids)) sorted
              ∙ compact_edge-inside f s n result.edges known)
            (sort_slice.ordered plain) (number_nodes-named f result.edges _ λ id i. cc) sort_slice
            visit known refl
            (rw (compact_edge-named f s n result.edges known) at
              (Perm.map (named f s.node_ids) sorted))
            same_count (visited s.node_set) few_nodes (rw same_count few_edges) few_points)
