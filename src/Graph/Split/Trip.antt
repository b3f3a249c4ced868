-- ===== src/Graph/Split/Trip.antt =====
-- A graph that is written as a base file and an overlay file is read back from the two.
use map_router.Base.{
  ℕ, ◌+◌, ◌%◌, ◌<◌, ◌≡◌, refl, sym, ◌∙◌, List, [], ◌∷◌, ◌++◌, arith, length, ltb_of_le, ==-refl,
}
use mathlib.Core.List.{append_assoc}
use map_router.Word.{u32_mod, add32, add32-eq}
use map_router.Load.{loaded, ◌>>=◌, read_field, read_header}
use map_router.Graph.{ChGraph, BaseGraph}
use map_router.Graph.Csr.Valid.{IsCsr}
use map_router.Graph.Bytes.{Bytes, le_bytes, write_words}
use map_router.Graph.Bytes.RoundTrip.{read_words-write_words}
use map_router.Graph.Binary.{
  max_nodes, max_edges, count_shortcuts, write_arrays, write_middle, write_geometry, check_crc,
  read_binary, write_binary, write_body,
}
use map_router.Graph.Binary.Trip.{
  IsStorable, IsArrays-count, without_ranks, check_crc-le_bytes, read_arrays-write_arrays,
  read_middle-write_middle, read_binary-write_binary, validate_csr-loaded, read_geometry,
}
use map_router.Graph.Split.{
  base_magic, overlay_magic, is_magic-base_magic, is_magic-overlay_magic, split_version,
  write_base_header, write_overlay_header, check_base_header, read_base_header,
  check_overlay_header, read_overlay_header, overlay_body, base_body, topology_identity,
  identity_of, base_header_of, overlay_header_of, write_split_file, write_base, write_overlay,
  read_base, read_overlay,
}

-- The base half of a graph, with its identity.
unfoldable pub base_of : (Bytes → ℕ) → ChGraph ℕ → BaseGraph ℕ
base_of crc chg = record {
  num_nodes = chg.num_nodes;
  node_lat = chg.node_lat;
  node_lon = chg.node_lon;
  orig_first_out = chg.orig_first_out;
  orig_head = chg.orig_head;
  geo_first_out = chg.geo_first_out;
  geo_shape_lat = chg.geo_shape_lat;
  geo_shape_lon = chg.geo_shape_lon;
  identity = identity_of crc chg;
}

module _ (crc : Bytes → ℕ) (chg : ChGraph ℕ) (s : IsStorable chg)
    (bound : (bs : Bytes) → crc bs < 4294967296) where
  check_base_header-loaded :
      check_base_header base_magic
        (split_version ∷ chg.num_nodes ∷ length chg.orig_head ∷ identity_of crc chg ∷ [])
      ≡ loaded record {
        num_nodes = chg.num_nodes;
        num_orig_edges = length chg.orig_head;
        identity = identity_of crc chg;
      }
  unfolding check_base_header
  check_base_header-loaded =
      rw
        (
          is_magic-base_magic,
          ltb_of_le max_nodes chg.num_nodes s.nodes,
          ltb_of_le max_edges (length chg.orig_head) s.orig.few,
        )
        refl

  read_base_header-write_base_header :
      (rest : Bytes)
      → read_base_header (write_base_header (base_header_of crc chg) ++ rest)
        ≡ loaded (base_header_of crc chg, rest)
  unfolding read_base_header write_base_header base_header_of identity_of topology_identity
  read_base_header-write_base_header rest =
      let words : List ℕ =
        split_version ∷ chg.num_nodes ∷ length chg.orig_head ∷ identity_of crc chg ∷ [] in
      let nodes = s.nodes in
      let few = s.orig.few in
      let r1 = read_words-write_words read_header 1 base_magic (write_words 4 words ++ rest) (
        omega arith,
        (
          omega arith,
          (
            omega arith,
            (omega arith, (omega arith, (omega arith, (omega arith, (omega arith, tt))))),
          ),
        ),
      ) in
      let r2 =
        read_words-write_words read_header 4 words rest
          (omega arith, (omega arith, (omega arith, (bound _, tt)))) in
      rw (IsArrays-count s.orig, append_assoc, r1, r2, check_base_header-loaded) refl

  check_overlay_header-loaded :
      check_overlay_header (base_of crc chg) overlay_magic (
        split_version
        ∷ chg.num_nodes
        ∷ length chg.orig_head
        ∷ identity_of crc chg
        ∷ (count_shortcuts chg.fwd_middle + count_shortcuts chg.bwd_middle) % u32_mod
        ∷ length chg.fwd_head
        ∷ length chg.bwd_head
        ∷ [])
      ≡ loaded record {
        num_nodes = chg.num_nodes;
        num_orig_edges = length chg.orig_head;
        base_identity = identity_of crc chg;
        num_shortcuts = (count_shortcuts chg.fwd_middle + count_shortcuts chg.bwd_middle) % u32_mod;
        num_fwd_edges = length chg.fwd_head;
        num_bwd_edges = length chg.bwd_head;
      }
  unfolding check_overlay_header base_of
  check_overlay_header-loaded =
      rw
        (
          is_magic-overlay_magic,
          ==-refl chg.num_nodes,
          ==-refl (length chg.orig_head),
          ==-refl (identity_of crc chg),
          ltb_of_le max_edges (length chg.fwd_head) s.fwd.few,
          ltb_of_le max_edges (length chg.bwd_head) s.bwd.few,
        )
        refl

  read_overlay_header-write_overlay_header :
      (rest : Bytes)
      → read_overlay_header
          (base_of crc chg)
          (write_overlay_header (overlay_header_of crc chg) ++ rest)
        ≡ loaded (overlay_header_of crc chg, rest)
  unfolding read_overlay_header write_overlay_header overlay_header_of identity_of topology_identity
  read_overlay_header-write_overlay_header rest =
      let shortcuts : ℕ =
        (count_shortcuts chg.fwd_middle + count_shortcuts chg.bwd_middle) % u32_mod in
      let words : List ℕ =
        split_version
        ∷ chg.num_nodes
        ∷ length chg.orig_head
        ∷ identity_of crc chg
        ∷ shortcuts
        ∷ length chg.fwd_head
        ∷ length chg.bwd_head
        ∷ [] in
      let nodes = s.nodes in
      let few = s.orig.few in
      let few1 = s.fwd.few in
      let few2 = s.bwd.few in
      let r1 = read_words-write_words read_header 1 overlay_magic (write_words 4 words ++ rest) (
        omega arith,
        (
          omega arith,
          (
            omega arith,
            (omega arith, (omega arith, (omega arith, (omega arith, (omega arith, tt))))),
          ),
        ),
      ) in
      let r2 = read_words-write_words read_header 4 words rest (
        omega arith,
        (omega arith, (omega arith, (bound _, (omega arith, (omega arith, (omega arith, tt)))))),
      ) in
      rw
        (
          IsArrays-count s.orig,
          IsArrays-count s.fwd,
          IsArrays-count s.bwd,
          append_assoc,
          r1,
          r2,
          check_overlay_header-loaded,
        )
        refl

  base_body-eq :
      (rest : Bytes)
      → base_body chg ++ rest
        ≡ write_words 8 chg.node_lat
          ++ (write_words 8 chg.node_lon
              ++ (write_words 4 chg.orig_first_out
                  ++ (write_words 4 chg.orig_head ++ (write_geometry chg ++ rest))))
  unfolding base_body
  base_body-eq rest = rw (append_assoc, append_assoc, append_assoc, append_assoc) refl

  -- Reading a base file `bs` with trailer `t`.
  read_base-parts :
      (bs t : Bytes)
      → IsCsr chg.orig_first_out chg.orig_head chg.num_nodes
      → read_base_header bs ≡ loaded (base_header_of crc chg, base_body chg ++ t)
      → check_crc crc bs t ≡ loaded tt
      → read_base crc bs ≡ loaded (base_of crc chg)
  unfolding read_base base_of base_header_of identity_of
  read_base-parts bs t csr hdr whole =
      let (g1, g2, geo1, geo2, geo3) = read_geometry chg t s in
      let p4 = write_geometry chg ++ t in
      let p3 = write_words 4 chg.orig_head ++ p4 in
      let p2 = write_words 4 chg.orig_first_out ++ p3 in
      let p1 = write_words 8 chg.node_lon ++ p2 in
      let nodes = s.nodes in
      let firsts : add32 chg.num_nodes 1 ≡ length chg.orig_first_out =
        add32-eq chg.num_nodes 1 (omega arith) ∙ sym s.orig.firsts in
      let r1 = rw s.lats at (read_words-write_words read_field 8 chg.node_lat p1 s.lat_words) in
      let r2 = rw s.lons at (read_words-write_words read_field 8 chg.node_lon p2 s.lon_words) in
      let r3 = read_words-write_words read_field 4 chg.orig_first_out p3 s.orig.first_words in
      let r4 = read_words-write_words read_field 4 chg.orig_head p4 s.orig.head_words in
      rw
        (
          hdr,
          base_body-eq t,
          IsArrays-count s.orig,
          r1,
          r2,
          firsts,
          r3,
          r4,
          geo1,
          geo2,
          geo3,
          whole,
          validate_csr-loaded s.nodes s.orig csr,
          ==-refl (identity_of crc chg),
        )
        refl

  read_base-write_base :
      IsCsr chg.orig_first_out chg.orig_head chg.num_nodes
      → read_base crc (write_base crc chg) ≡ loaded (base_of crc chg)
  unfolding write_base write_split_file
  read_base-write_base csr =
      let hdr = write_base_header (base_header_of crc chg) in
      let body = hdr ++ base_body chg in
      let t = le_bytes 4 (crc body) in
      let read =
        rw (← append_assoc hdr (base_body chg) t) at
          (read_base_header-write_base_header (base_body chg ++ t)) in
      read_base-parts (body ++ t) t csr read (check_crc-le_bytes crc body (bound body))

  overlay_body-eq :
      (rest : Bytes)
      → overlay_body chg ++ rest
        ≡ write_words 4 chg.orig_weight
          ++ (write_arrays chg.fwd_first_out chg.fwd_head chg.fwd_weight
              ++ (write_middle chg.fwd_middle
                  ++ (write_arrays chg.bwd_first_out chg.bwd_head chg.bwd_weight
                      ++ (write_middle chg.bwd_middle ++ rest))))
  unfolding overlay_body
  overlay_body-eq rest = rw (append_assoc, append_assoc, append_assoc, append_assoc) refl

  -- Reading an overlay file `bs` with trailer `t`.
  read_overlay-parts :
      (bs t : Bytes)
      → read_overlay_header (base_of crc chg) bs
        ≡ loaded (overlay_header_of crc chg, overlay_body chg ++ t)
      → check_crc crc bs t ≡ loaded tt
      → read_overlay crc bs (base_of crc chg) ≡ loaded (without_ranks chg)
  unfolding read_overlay overlay_header_of base_of without_ranks
  read_overlay-parts bs t hdr whole =
      let p4 = write_middle chg.bwd_middle ++ t in
      let p3 = write_arrays chg.bwd_first_out chg.bwd_head chg.bwd_weight ++ p4 in
      let p2 = write_middle chg.fwd_middle ++ p3 in
      let p1 = write_arrays chg.fwd_first_out chg.fwd_head chg.fwd_weight ++ p2 in
      let weights =
        rw s.orig.weights at
          (read_words-write_words read_field 4 chg.orig_weight p1 s.orig.weight_words) in
      let fwd =
        read_arrays-write_arrays chg.num_nodes chg.fwd_first_out chg.fwd_head chg.fwd_weight p2
          s.nodes s.fwd in
      let fwd_middle =
        read_middle-write_middle (length chg.fwd_head) chg.fwd_middle p3 s.fwd_middles
          s.fwd_range in
      let bwd =
        read_arrays-write_arrays chg.num_nodes chg.bwd_first_out chg.bwd_head chg.bwd_weight p4
          s.nodes s.bwd in
      let bwd_middle =
        read_middle-write_middle (length chg.bwd_head) chg.bwd_middle t s.bwd_middles s.bwd_range in
      rw
        (
          hdr,
          overlay_body-eq t,
          IsArrays-count s.orig,
          IsArrays-count s.fwd,
          IsArrays-count s.bwd,
          weights,
          fwd,
          fwd_middle,
          bwd,
          bwd_middle,
          whole,
          validate_csr-loaded s.nodes s.fwd s.fwd_csr,
          validate_csr-loaded s.nodes s.bwd s.bwd_csr,
        )
        refl

  read_overlay-write_overlay :
      read_overlay crc (write_overlay crc chg) (base_of crc chg) ≡ loaded (without_ranks chg)
  unfolding write_overlay write_split_file
  read_overlay-write_overlay =
      let hdr = write_overlay_header (overlay_header_of crc chg) in
      let body = hdr ++ overlay_body chg in
      let t = le_bytes 4 (crc body) in
      let read =
        rw (← append_assoc hdr (overlay_body chg) t) at
          (read_overlay_header-write_overlay_header (overlay_body chg ++ t)) in
      read_overlay-parts (body ++ t) t read (check_crc-le_bytes crc body (bound body))

  -- For a graph that the format holds, whose original and overlay graphs are CSR arrays, and a
  -- checksum of 32 bits: reading the base file, and then the overlay file onto it, gives the same
  -- graph as reading the combined file.
  pub read_overlay-read_base :
      IsCsr chg.orig_first_out chg.orig_head chg.num_nodes
      → (read_base crc (write_base crc chg) >>= read_overlay crc (write_overlay crc chg))
        ≡ read_binary crc (write_binary crc chg)
  read_overlay-read_base csr =
      rw (read_base-write_base csr, read_binary-write_binary crc chg s (bound (write_body chg)))
        read_overlay-write_overlay
