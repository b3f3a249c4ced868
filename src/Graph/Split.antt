-- ===== src/Graph/Split.antt =====
-- The split format of pkg/graph/binary_split.go: a base file that all metrics share, and an
-- overlay file for each metric, bound to its base by a checksum of the topology.
pub mod Trip
use map_router.Base.{
  ℕ, Bool, true, false, ◌≡◌, refl, not, ◌||◌, List, [], ◌∷◌, ◌++◌, ltb, ◌==◌, length, ◌+◌, ◌%◌,
}
use map_router.Word.{u32_mod, add32}
use map_router.Load.{
  Load, loaded, failed, panic, ◌>>=◌, ◌>>◌, require, read_header, bad_magic, bad_version,
  too_many_nodes, too_many_edges, read_field, nodes_mismatch, edges_mismatch, base_mismatch,
  identity_mismatch,
}
use map_router.Graph.{ChGraph, BaseGraph}
use map_router.Graph.Csr.{validate_csr}
use map_router.Graph.Bytes.{
  Bytes, le_bytes, Reader, write_words, read_words, write_prefixed, read_optional,
}
use map_router.Graph.Binary.{
  max_nodes, max_edges, is_magic, count_shortcuts, write_arrays, write_middle, write_geometry,
  read_arrays, read_middle, check_crc,
}

-- `"MPRBASE1"`
abbrev pub base_magic : Bytes
base_magic = 77 ∷ 80 ∷ 82 ∷ 66 ∷ 65 ∷ 83 ∷ 69 ∷ 49 ∷ []

-- `"MPROVLY1"`
abbrev pub overlay_magic : Bytes
overlay_magic = 77 ∷ 80 ∷ 82 ∷ 79 ∷ 86 ∷ 76 ∷ 89 ∷ 49 ∷ []

pub is_magic-base_magic : is_magic base_magic base_magic ≡ true
unfolding is_magic
is_magic-base_magic = refl

pub is_magic-overlay_magic : is_magic overlay_magic overlay_magic ≡ true
unfolding is_magic
is_magic-overlay_magic = refl

abbrev pub split_version : ℕ
split_version = 1

pub record BaseHeader : Type 0 where
  pub num_nodes : ℕ
  pub num_orig_edges : ℕ
  pub identity : ℕ

pub record OverlayHeader : Type 0 where
  pub num_nodes : ℕ
  pub num_orig_edges : ℕ
  pub base_identity : ℕ
  pub num_shortcuts : ℕ
  pub num_fwd_edges : ℕ
  pub num_bwd_edges : ℕ

unfoldable pub write_base_header : BaseHeader → Bytes
write_base_header hdr =
    write_words 1 base_magic
    ++ write_words 4 (split_version ∷ hdr.num_nodes ∷ hdr.num_orig_edges ∷ hdr.identity ∷ [])

unfoldable pub write_overlay_header : OverlayHeader → Bytes
write_overlay_header hdr =
    write_words 1 overlay_magic
    ++ write_words 4 (
        split_version ∷ hdr.num_nodes ∷ hdr.num_orig_edges ∷ hdr.base_identity ∷ hdr.num_shortcuts
        ∷ hdr.num_fwd_edges ∷ hdr.num_bwd_edges ∷ [])

-- The checks of `ReadBase` on the header.
unfoldable pub check_base_header : Bytes → List ℕ → Load BaseHeader
check_base_header magic (v ∷ nodes ∷ orig ∷ identity ∷ []) = do
  require (is_magic magic base_magic) bad_magic
  require (v == split_version) bad_version
  require (not (ltb max_nodes nodes)) too_many_nodes
  require (not (ltb max_edges orig)) too_many_edges
  loaded record { num_nodes = nodes; num_orig_edges = orig; identity = identity }
check_base_header magic _ = failed read_header

unfoldable pub read_base_header : Reader BaseHeader
read_base_header bs = do
  (magic, r0) ← read_words read_header 1 8 bs
  (words, r) ← read_words read_header 4 4 r0
  hdr ← check_base_header magic words
  loaded (hdr, r)

-- The checks of `ReadOverlay` on the header, against the base.
unfoldable pub check_overlay_header : BaseGraph ℕ → Bytes → List ℕ → Load OverlayHeader
check_overlay_header base magic (v ∷ nodes ∷ orig ∷ identity ∷ shortcuts ∷ fwd ∷ bwd ∷ []) = do
  require (is_magic magic overlay_magic) bad_magic
  require (v == split_version) bad_version
  require (nodes == base.num_nodes) nodes_mismatch
  require (orig == length base.orig_head) edges_mismatch
  require (identity == base.identity) base_mismatch
  require (not (ltb max_edges fwd || ltb max_edges bwd)) too_many_edges
  loaded record {
    num_nodes = nodes;
    num_orig_edges = orig;
    base_identity = identity;
    num_shortcuts = shortcuts;
    num_fwd_edges = fwd;
    num_bwd_edges = bwd;
  }
check_overlay_header base magic _ = failed read_header

unfoldable pub read_overlay_header : BaseGraph ℕ → Reader OverlayHeader
read_overlay_header base bs = do
  (magic, r0) ← read_words read_header 1 8 bs
  (words, r) ← read_words read_header 4 7 r0
  hdr ← check_overlay_header base magic words
  loaded (hdr, r)

-- The weights of the original edges, then the two overlay graphs.
unfoldable pub overlay_body : ChGraph ℕ → Bytes
overlay_body chg =
    write_words 4 chg.orig_weight
    ++ (write_arrays chg.fwd_first_out chg.fwd_head chg.fwd_weight
        ++ (write_middle chg.fwd_middle
            ++ (write_arrays chg.bwd_first_out chg.bwd_head chg.bwd_weight
                ++ write_middle chg.bwd_middle)))

-- The coordinates, the offsets and the heads of the original graph, and the geometry.
unfoldable pub base_body : ChGraph ℕ → Bytes
base_body chg =
    write_words 8 chg.node_lat
    ++ (write_words 8 chg.node_lon
        ++ (write_words 4 chg.orig_first_out
            ++ (write_words 4 chg.orig_head ++ write_geometry chg)))

module _ (crc : Bytes → ℕ) where
  -- `topologyIdentity`
  unfoldable pub topology_identity : ℕ → List ℕ → List ℕ → List ℕ → List ℕ → ℕ
  topology_identity num_nodes node_lat node_lon orig_first_out orig_head = crc (
      le_bytes 4 num_nodes
      ++ (write_words 8 node_lat
          ++ (write_words 8 node_lon ++ (write_words 4 orig_first_out ++ write_words 4 orig_head))))

  unfoldable pub identity_of : ChGraph ℕ → ℕ
  identity_of chg =
      topology_identity chg.num_nodes chg.node_lat chg.node_lon chg.orig_first_out chg.orig_head

  unfoldable pub base_header_of : ChGraph ℕ → BaseHeader
  base_header_of chg = record {
    num_nodes = chg.num_nodes;
    num_orig_edges = length chg.orig_head % u32_mod;
    identity = identity_of chg;
  }

  unfoldable pub overlay_header_of : ChGraph ℕ → OverlayHeader
  overlay_header_of chg = record {
    num_nodes = chg.num_nodes;
    num_orig_edges = length chg.orig_head % u32_mod;
    base_identity = identity_of chg;
    num_shortcuts = (count_shortcuts chg.fwd_middle + count_shortcuts chg.bwd_middle) % u32_mod;
    num_fwd_edges = length chg.fwd_head % u32_mod;
    num_bwd_edges = length chg.bwd_head % u32_mod;
  }

  -- `writeSplitFile`: the body and its checksum.
  unfoldable pub write_split_file : Bytes → Bytes
  write_split_file body = body ++ le_bytes 4 (crc body)

  -- `WriteBase`
  unfoldable pub write_base : ChGraph ℕ → Bytes
  write_base chg = write_split_file (write_base_header (base_header_of chg) ++ base_body chg)

  -- `WriteOverlay`
  unfoldable pub write_overlay : ChGraph ℕ → Bytes
  write_overlay chg =
      write_split_file (write_overlay_header (overlay_header_of chg) ++ overlay_body chg)

  -- `ReadBase`
  unfoldable pub read_base : Bytes → Load (BaseGraph ℕ)
  read_base bs = do
    (hdr, r0) ← read_base_header bs
    (lat, r1) ← read_words read_field 8 hdr.num_nodes r0
    (lon, r2) ← read_words read_field 8 hdr.num_nodes r1
    (orig_first_out, r3) ← read_words read_field 4 (add32 hdr.num_nodes 1) r2
    (orig_head, r4) ← read_words read_field 4 hdr.num_orig_edges r3
    let (geo_first_out, r5) = read_optional 4 r4
    let (geo_shape_lat, r6) = read_optional 8 r5
    let (geo_shape_lon, r7) = read_optional 8 r6
    check_crc crc bs r7
    validate_csr orig_first_out orig_head hdr.num_nodes
    require (topology_identity hdr.num_nodes lat lon orig_first_out orig_head == hdr.identity)
        identity_mismatch
    loaded record {
      num_nodes = hdr.num_nodes;
      node_lat = lat;
      node_lon = lon;
      orig_first_out = orig_first_out;
      orig_head = orig_head;
      geo_first_out = geo_first_out;
      geo_shape_lat = geo_shape_lat;
      geo_shape_lon = geo_shape_lon;
      identity = hdr.identity;
    }

  -- `ReadOverlay`
  unfoldable pub read_overlay : Bytes → BaseGraph ℕ → Load (ChGraph ℕ)
  read_overlay bs base = do
    (hdr, r0) ← read_overlay_header base bs
    (orig_weight, r1) ← read_words read_field 4 hdr.num_orig_edges r0
    ((fwd_first_out, fwd_head, fwd_weight), r2) ← read_arrays hdr.num_nodes hdr.num_fwd_edges r1
    (fwd_middle, r3) ← read_middle hdr.num_fwd_edges r2
    ((bwd_first_out, bwd_head, bwd_weight), r4) ← read_arrays hdr.num_nodes hdr.num_bwd_edges r3
    (bwd_middle, r5) ← read_middle hdr.num_bwd_edges r4
    check_crc crc bs r5
    validate_csr fwd_first_out fwd_head hdr.num_nodes
    validate_csr bwd_first_out bwd_head hdr.num_nodes
    loaded record {
      num_nodes = base.num_nodes;
      node_lat = base.node_lat;
      node_lon = base.node_lon;
      rank = [];
      fwd_first_out = fwd_first_out;
      fwd_head = fwd_head;
      fwd_weight = fwd_weight;
      fwd_middle = fwd_middle;
      bwd_first_out = bwd_first_out;
      bwd_head = bwd_head;
      bwd_weight = bwd_weight;
      bwd_middle = bwd_middle;
      orig_first_out = base.orig_first_out;
      orig_head = base.orig_head;
      orig_weight = orig_weight;
      geo_first_out = base.geo_first_out;
      geo_shape_lat = base.geo_shape_lat;
      geo_shape_lon = base.geo_shape_lon;
    }
