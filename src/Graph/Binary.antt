-- ===== src/Graph/Binary.antt =====
-- The single-file format of pkg/graph/binary.go. The IEEE CRC-32 of `hash/crc32` is the parameter
-- `crc`. A `float64` is its 64-bit word, which is what the file holds of it.
pub mod Trip
pub mod Sound
use map_router.Base.{
  ℕ, ◌+◌, ◌*◌, ◌%◌, Bool, true, false, ◌≡◌, refl, not, ◌&&◌, ◌||◌, List, [], ◌∷◌, ◌++◌, map, ltb,
  ◌==◌, length, take, ◌-◌, ℤ, pos, negsuc, if◌then◌else◌,
}
use map_router.Word.{u32_mod, add32}
use map_router.Load.{
  Load, loaded, failed, panic, ◌>>=◌, ◌>>◌, require, read_header, bad_magic, bad_version,
  too_many_nodes, too_many_edges, read_field, read_crc, crc_mismatch,
}
use map_router.Graph.{ChGraph}
use map_router.Graph.Csr.{validate_csr}
use map_router.Graph.Bytes.{
  Bytes, le_bytes, Reader, split_bytes, read_word, write_words, read_words, int32_word, word_int32,
  write_prefixed, read_optional, skip_bytes,
}

-- `"MPROUTER"`
abbrev pub magic_bytes : Bytes
magic_bytes = 77 ∷ 80 ∷ 82 ∷ 79 ∷ 85 ∷ 84 ∷ 69 ∷ 82 ∷ []

abbrev pub version : ℕ
version = 3

abbrev pub max_nodes : ℕ
max_nodes = 64000000

abbrev pub max_edges : ℕ
max_edges = 256000000

-- `string(hdr.Magic[:]) == magicBytes`
unfoldable pub is_magic : Bytes → Bytes → Bool
is_magic [] [] = true
is_magic (b ∷ bs) (c ∷ cs) = b == c && is_magic bs cs
is_magic _ _ = false

pub is_magic-magic_bytes : is_magic magic_bytes magic_bytes ≡ true
unfolding is_magic
is_magic-magic_bytes = refl

pub record FileHeader : Type 0 where
  pub num_nodes : ℕ
  pub num_orig_edges : ℕ
  pub num_shortcuts : ℕ
  pub num_fwd_edges : ℕ
  pub num_bwd_edges : ℕ

-- The middles that are not negative.
pub count_shortcuts : List ℤ → ℕ
count_shortcuts [] = 0
count_shortcuts (pos m ∷ ms) = 1 + count_shortcuts ms
count_shortcuts (negsuc m ∷ ms) = count_shortcuts ms

unfoldable pub header_of : ChGraph ℕ → FileHeader
header_of chg = record {
  num_nodes = chg.num_nodes;
  num_orig_edges = length chg.orig_head % u32_mod;
  num_shortcuts = (count_shortcuts chg.fwd_middle + count_shortcuts chg.bwd_middle) % u32_mod;
  num_fwd_edges = length chg.fwd_head % u32_mod;
  num_bwd_edges = length chg.bwd_head % u32_mod;
}

unfoldable pub write_header : FileHeader → Bytes
write_header hdr =
    write_words 1 magic_bytes
    ++ write_words 4 (
        version ∷ hdr.num_nodes ∷ hdr.num_orig_edges ∷ hdr.num_shortcuts ∷ hdr.num_fwd_edges
        ∷ hdr.num_bwd_edges ∷ [])

-- The slices that `WriteBinary` writes after the header, in its order.
unfoldable pub write_node_data : ChGraph ℕ → Bytes
write_node_data chg =
    write_words 8 chg.node_lat ++ (write_words 8 chg.node_lon ++ write_words 4 chg.rank)

-- The offsets, and two values for each edge.
unfoldable pub write_arrays : List ℕ → List ℕ → List ℕ → Bytes
write_arrays first_out head weight =
    write_words 4 first_out ++ (write_words 4 head ++ write_words 4 weight)

-- `writeInt32Slice`
unfoldable pub write_middle : List ℤ → Bytes
write_middle middle = write_words 4 (map int32_word middle)

unfoldable pub write_geometry : ChGraph ℕ → Bytes
write_geometry chg =
    write_prefixed 4 chg.geo_first_out
    ++ (write_prefixed 8 chg.geo_shape_lat ++ write_prefixed 8 chg.geo_shape_lon)

-- All that the CRC covers.
unfoldable pub write_body : ChGraph ℕ → Bytes
write_body chg =
    write_header (header_of chg)
    ++ (write_node_data chg
        ++ (write_arrays chg.fwd_first_out chg.fwd_head chg.fwd_weight
            ++ (write_middle chg.fwd_middle
                ++ (write_arrays chg.bwd_first_out chg.bwd_head chg.bwd_weight
                    ++ (write_middle chg.bwd_middle
                        ++ (write_arrays chg.orig_first_out chg.orig_head chg.orig_weight
                            ++ write_geometry chg))))))

-- The checks of `ReadBinary` on the words of the header.
unfoldable pub check_header : Bytes → List ℕ → Load FileHeader
check_header magic (v ∷ nodes ∷ orig ∷ shortcuts ∷ fwd ∷ bwd ∷ []) = do
  require (is_magic magic magic_bytes) bad_magic
  require (v == version) bad_version
  require (not (ltb max_nodes nodes)) too_many_nodes
  require (not (ltb max_edges fwd || ltb max_edges bwd || ltb max_edges orig)) too_many_edges
  loaded record {
    num_nodes = nodes;
    num_orig_edges = orig;
    num_shortcuts = shortcuts;
    num_fwd_edges = fwd;
    num_bwd_edges = bwd;
  }
check_header magic _ = failed read_header

-- `binary.Read` of the header and its checks.
unfoldable pub read_file_header : Reader FileHeader
read_file_header bs = do
  (magic, r0) ← read_words read_header 1 8 bs
  (words, r) ← read_words read_header 4 6 r0
  hdr ← check_header magic words
  loaded (hdr, r)

-- The coordinates; the ranks are skipped.
unfoldable pub read_node_data : ℕ → Reader (List ℕ × List ℕ)
read_node_data n bs = do
  (lat, r1) ← read_words read_field 8 n bs
  (lon, r2) ← read_words read_field 8 n r1
  (_, r3) ← skip_bytes read_field (n * 4) r2
  loaded ((lat, lon), r3)

-- Three arrays of words: the offsets of `n` nodes, and two values for each of `m` edges.
unfoldable pub read_arrays : ℕ → ℕ → Reader (List ℕ × List ℕ × List ℕ)
read_arrays n m bs = do
  (first_out, r1) ← read_words read_field 4 (add32 n 1) bs
  (head, r2) ← read_words read_field 4 m r1
  (weight, r3) ← read_words read_field 4 m r2
  loaded ((first_out, head, weight), r3)

unfoldable pub read_middle : ℕ → Reader (List ℤ)
read_middle m bs = do (words, r) ← read_words read_field 4 m bs; loaded (map word_int32 words, r)

-- The checksum of the bytes that were read is compared with the word that follows them.
unfoldable pub check_crc : (Bytes → ℕ) → Bytes → Bytes → Load (Unit {0})
check_crc crc bs r = do
  (stored, _) ← read_word read_crc 4 r
  require (stored == crc (take (length bs - length r) bs)) crc_mismatch

module _ (crc : Bytes → ℕ) where
  -- `WriteBinary`
  unfoldable pub write_binary : ChGraph ℕ → Bytes
  write_binary chg = write_body chg ++ le_bytes 4 (crc (write_body chg))

  -- `ReadBinary`
  unfoldable pub read_binary : Bytes → Load (ChGraph ℕ)
  read_binary bs = do
    (hdr, r0) ← read_file_header bs
    ((lat, lon), r1) ← read_node_data hdr.num_nodes r0
    ((fwd_first_out, fwd_head, fwd_weight), r2) ← read_arrays hdr.num_nodes hdr.num_fwd_edges r1
    (fwd_middle, r3) ← read_middle hdr.num_fwd_edges r2
    ((bwd_first_out, bwd_head, bwd_weight), r4) ← read_arrays hdr.num_nodes hdr.num_bwd_edges r3
    (bwd_middle, r5) ← read_middle hdr.num_bwd_edges r4
    ((orig_first_out, orig_head, orig_weight), r6) ← read_arrays hdr.num_nodes hdr.num_orig_edges r5
    let (geo_first_out, r7) = read_optional 4 r6
    let (geo_shape_lat, r8) = read_optional 8 r7
    let (geo_shape_lon, r9) = read_optional 8 r8
    check_crc crc bs r9
    validate_csr fwd_first_out fwd_head hdr.num_nodes
    validate_csr bwd_first_out bwd_head hdr.num_nodes
    loaded record {
      num_nodes = hdr.num_nodes;
      node_lat = lat;
      node_lon = lon;
      rank = [];
      fwd_first_out = fwd_first_out;
      fwd_head = fwd_head;
      fwd_weight = fwd_weight;
      fwd_middle = fwd_middle;
      bwd_first_out = bwd_first_out;
      bwd_head = bwd_head;
      bwd_weight = bwd_weight;
      bwd_middle = bwd_middle;
      orig_first_out = orig_first_out;
      orig_head = orig_head;
      orig_weight = orig_weight;
      geo_first_out = geo_first_out;
      geo_shape_lat = geo_shape_lat;
      geo_shape_lon = geo_shape_lon;
    }
