-- ===== src/Graph/Binary/Trip.antt =====
-- A graph that is written to a file is read back from it, but for the ranks, which are skipped.
use map_router.Base.{
  ℕ, suc, ◌+◌, ◌-◌, ◌%◌, ◌^◌, ◌≤◌, ◌<◌, ◌≡◌, ◌∙◌, ap, refl, true, List, [], ◌∷◌, ◌++◌, map, arith,
  length, take, length-append, ℤ, ltb_of_le, ◌==◌,
}
use mathlib.Core.List.{append_assoc, append-nil}
use map_router.Word.{u32_mod, add32, add32-eq}
use map_router.Load.{loaded, read_field, read_header, read_crc}
use map_router.Graph.{ChGraph}
use map_router.Graph.Csr.{validate_csr}
use map_router.Graph.Csr.Valid.{IsCsr, validate_csr-IsCsr}
use map_router.Graph.Bytes.{
  Bytes, le_bytes, write_words, int32_word, word_int32, write_prefixed, read_optional,
}
use map_router.Graph.Bytes.RoundTrip.{
  AllBelow, read_word-le_bytes, read_words-write_words, IsInt32, int32_word-bound,
  word_int32-int32_word, skip_bytes-write_words, read_optional-write_prefixed,
}
use map_router.Graph.Binary.{
  max_nodes, max_edges, version, magic_bytes, is_magic-magic_bytes, FileHeader, header_of,
  write_header, write_node_data, write_arrays, write_middle, write_geometry, write_body,
  check_header, read_file_header, read_node_data, read_arrays, read_middle, check_crc, write_binary,
  read_binary,
}

abbrev pub AllInt32 : List ℤ → Type 0
AllInt32 [] = Unit
AllInt32 (z ∷ zs) = IsInt32 z × AllInt32 zs

length-map : (g : ℤ → ℕ) (zs : List ℤ) → length (map g zs) ≡ length zs
length-map g [] = refl
length-map g (z ∷ zs) = ap suc (length-map g zs)

words-AllInt32 : (zs : List ℤ) → AllInt32 zs → AllBelow (256 ^ 4) (map int32_word zs)
words-AllInt32 [] h = tt
words-AllInt32 (z ∷ zs) (h, hs) = (int32_word-bound z h, words-AllInt32 zs hs)

map-word_int32 : (zs : List ℤ) → AllInt32 zs → map word_int32 (map int32_word zs) ≡ zs
map-word_int32 [] h = refl
map-word_int32 (z ∷ zs) (h, hs) = rw (word_int32-int32_word z h, map-word_int32 zs hs)

-- Arrays of edges that the format holds, for `n` nodes.
pub record IsArrays (n : ℕ) (first_out head weight : List ℕ) : Type 0 where
  pub firsts : length first_out ≡ n + 1
  pub weights : length weight ≡ length head
  pub few : length head ≤ max_edges
  pub first_words : AllBelow (256 ^ 4) first_out
  pub head_words : AllBelow (256 ^ 4) head
  pub weight_words : AllBelow (256 ^ 4) weight

pub read_arrays-write_arrays :
    (n : ℕ) (first_out head weight : List ℕ) (rest : Bytes)
    → n ≤ max_nodes
    → IsArrays n first_out head weight
    → read_arrays n (length head) (write_arrays first_out head weight ++ rest)
      ≡ loaded ((first_out, head, weight), rest)
unfolding read_arrays write_arrays
read_arrays-write_arrays n first_out head weight rest small a =
    let firsts : add32 n 1 ≡ length first_out =
      rw (add32-eq n 1 (omega (arith, small)), a.firsts) refl in
    let r1 =
      read_words-write_words read_field 4 first_out
        (write_words 4 head ++ (write_words 4 weight ++ rest)) a.first_words in
    let r2 = read_words-write_words read_field 4 head (write_words 4 weight ++ rest) a.head_words in
    let r3 = rw a.weights at (read_words-write_words read_field 4 weight rest a.weight_words) in
    rw (append_assoc, append_assoc, firsts, r1, r2, r3)

pub read_middle-write_middle :
    (m : ℕ) (middle : List ℤ) (rest : Bytes)
    → length middle ≡ m
    → AllInt32 middle
    → read_middle m (write_middle middle ++ rest) ≡ loaded (middle, rest)
unfolding read_middle write_middle
read_middle-write_middle m middle rest size h =
    let same : length (map int32_word middle) ≡ m = length-map int32_word middle ∙ size in
    let r1 = rw same at (
      read_words-write_words read_field 4 (map int32_word middle) rest (words-AllInt32 middle h)) in
    rw (r1, map-word_int32 middle h)

length-take_append : (xs ys : Bytes) → take (length (xs ++ ys) - length ys) (xs ++ ys) ≡ xs
length-take_append xs ys =
    let size : length (xs ++ ys) - length ys ≡ length xs = omega (arith, length-append xs ys) in
    rw size (take-append xs)
  where
    take-append : (zs : Bytes) → take (length zs) (zs ++ ys) ≡ zs
    take-append [] = refl
    take-append (z ∷ zs) = ap (λ t. z ∷ t) (take-append zs)

pub check_crc-le_bytes :
    (crc : Bytes → ℕ) (body : Bytes)
    → crc body < 4294967296
    → check_crc crc (body ++ le_bytes 4 (crc body)) (le_bytes 4 (crc body)) ≡ loaded tt
unfolding check_crc
check_crc-le_bytes crc body h =
    let stored = rw append-nil at (read_word-le_bytes read_crc 4 (crc body) [] h) in
    let same : (crc body == crc body) ≡ true = ground arith in
    rw (length-take_append body (le_bytes 4 (crc body)), stored, same)

-- A header that the reader accepts.
pub record IsHeader (hdr : FileHeader) : Type 0 where
  pub nodes : hdr.num_nodes ≤ max_nodes
  pub orig_edges : hdr.num_orig_edges ≤ max_edges
  pub shortcuts : hdr.num_shortcuts < 4294967296
  pub fwd_edges : hdr.num_fwd_edges ≤ max_edges
  pub bwd_edges : hdr.num_bwd_edges ≤ max_edges

check_header-loaded :
    (hdr : FileHeader)
    → IsHeader hdr
    → check_header magic_bytes (
        version ∷ hdr.num_nodes ∷ hdr.num_orig_edges ∷ hdr.num_shortcuts ∷ hdr.num_fwd_edges
        ∷ hdr.num_bwd_edges ∷ [])
      ≡ loaded hdr
unfolding check_header
check_header-loaded hdr a =
    rw
      (
        is_magic-magic_bytes,
        ltb_of_le max_nodes hdr.num_nodes a.nodes,
        ltb_of_le max_edges hdr.num_fwd_edges a.fwd_edges,
        ltb_of_le max_edges hdr.num_bwd_edges a.bwd_edges,
        ltb_of_le max_edges hdr.num_orig_edges a.orig_edges,
      )
      refl

pub read_file_header-write_header :
    (hdr : FileHeader) (rest : Bytes)
    → IsHeader hdr
    → read_file_header (write_header hdr ++ rest) ≡ loaded (hdr, rest)
unfolding read_file_header write_header
read_file_header-write_header hdr rest a =
    let words : List ℕ =
      version ∷ hdr.num_nodes ∷ hdr.num_orig_edges ∷ hdr.num_shortcuts ∷ hdr.num_fwd_edges
      ∷ hdr.num_bwd_edges ∷ [] in
    let r1 = read_words-write_words read_header 1 magic_bytes (write_words 4 words ++ rest) (
      omega arith,
      (
        omega arith,
        (
          omega arith,
          (omega arith, (omega arith, (omega arith, (omega arith, (omega arith, tt))))),
        ),
      ),
    ) in
    let r2 = read_words-write_words read_header 4 words rest (
      omega arith,
      (
        omega (arith, a.nodes),
        (
          omega (arith, a.orig_edges),
          (a.shortcuts, (omega (arith, a.fwd_edges), (omega (arith, a.bwd_edges), tt))),
        ),
      ),
    ) in
    rw (append_assoc, r1, r2, check_header-loaded hdr a)

pub read_node_data-write_node_data :
    (chg : ChGraph ℕ) (rest : Bytes)
    → length chg.node_lat ≡ chg.num_nodes
    → length chg.node_lon ≡ chg.num_nodes
    → length chg.rank ≡ chg.num_nodes
    → AllBelow (256 ^ 8) chg.node_lat
    → AllBelow (256 ^ 8) chg.node_lon
    → read_node_data chg.num_nodes (write_node_data chg ++ rest)
      ≡ loaded ((chg.node_lat, chg.node_lon), rest)
unfolding read_node_data write_node_data
read_node_data-write_node_data chg rest lats lons ranks lat_words lon_words =
    let r1 = rw lats at (
      read_words-write_words read_field 8 chg.node_lat
        (write_words 8 chg.node_lon ++ (write_words 4 chg.rank ++ rest)) lat_words) in
    let r2 = rw lons at (
      read_words-write_words read_field 8 chg.node_lon (write_words 4 chg.rank ++ rest)
        lon_words) in
    let r3 = rw ranks at (skip_bytes-write_words read_field 4 chg.rank rest) in
    rw (append_assoc, append_assoc, r1, r2, r3)

-- A graph that the format holds.
pub record IsStorable (chg : ChGraph ℕ) : Type 0 where
  pub nodes : chg.num_nodes ≤ max_nodes
  pub lats : length chg.node_lat ≡ chg.num_nodes
  pub lons : length chg.node_lon ≡ chg.num_nodes
  pub ranks : length chg.rank ≡ chg.num_nodes
  pub lat_words : AllBelow (256 ^ 8) chg.node_lat
  pub lon_words : AllBelow (256 ^ 8) chg.node_lon
  pub fwd : IsArrays chg.num_nodes chg.fwd_first_out chg.fwd_head chg.fwd_weight
  pub bwd : IsArrays chg.num_nodes chg.bwd_first_out chg.bwd_head chg.bwd_weight
  pub orig : IsArrays chg.num_nodes chg.orig_first_out chg.orig_head chg.orig_weight
  pub fwd_csr : IsCsr chg.fwd_first_out chg.fwd_head chg.num_nodes
  pub bwd_csr : IsCsr chg.bwd_first_out chg.bwd_head chg.num_nodes
  pub fwd_middles : length chg.fwd_middle ≡ length chg.fwd_head
  pub bwd_middles : length chg.bwd_middle ≡ length chg.bwd_head
  pub fwd_range : AllInt32 chg.fwd_middle
  pub bwd_range : AllInt32 chg.bwd_middle
  pub geo_first_words : AllBelow (256 ^ 4) chg.geo_first_out
  pub geo_lat_words : AllBelow (256 ^ 8) chg.geo_shape_lat
  pub geo_lon_words : AllBelow (256 ^ 8) chg.geo_shape_lon
  pub geo_firsts : length chg.geo_first_out ≤ 1073741823
  pub geo_lats : length chg.geo_shape_lat ≤ 536870911
  pub geo_lons : length chg.geo_shape_lon ≤ 536870911

-- What the reader keeps of a graph.
unfoldable pub without_ranks : ChGraph ℕ → ChGraph ℕ
without_ranks chg = record chg { rank = [] }

pub header_of-IsHeader : (chg : ChGraph ℕ) → IsStorable chg → IsHeader (header_of chg)
unfolding header_of
header_of-IsHeader chg s = record {
  nodes = s.nodes;
  orig_edges = let h = s.orig.few in omega arith;
  shortcuts = omega arith;
  fwd_edges = let h = s.fwd.few in omega arith;
  bwd_edges = let h = s.bwd.few in omega arith;
}

-- The sections of the file after the header, and the trailer.
module _ (chg : ChGraph ℕ) (trailer : Bytes) where
  geometry_part : Bytes
  geometry_part = write_geometry chg ++ trailer

  orig_part : Bytes
  orig_part = write_arrays chg.orig_first_out chg.orig_head chg.orig_weight ++ geometry_part

  bwd_part : Bytes
  bwd_part =
      write_arrays chg.bwd_first_out chg.bwd_head chg.bwd_weight
      ++ (write_middle chg.bwd_middle ++ orig_part)

  fwd_part : Bytes
  fwd_part =
      write_arrays chg.fwd_first_out chg.fwd_head chg.fwd_weight
      ++ (write_middle chg.fwd_middle ++ bwd_part)

  sections-eq :
      write_body chg ++ trailer ≡ write_header (header_of chg) ++ (write_node_data chg ++ fwd_part)
  unfolding write_body geometry_part orig_part bwd_part fwd_part
  sections-eq =
      rw
        (
          append_assoc, append_assoc, append_assoc, append_assoc, append_assoc, append_assoc,
          append_assoc,
        )
        refl

-- The two lengths of an edge array that the header holds are the length itself.
pub IsArrays-count :
    {n : ℕ} {first_out head weight : List ℕ}
    → IsArrays n first_out head weight
    → length head % u32_mod ≡ length head
IsArrays-count a = let few = a.few in omega arith

pub validate_csr-loaded :
    {n : ℕ} {first_out head weight : List ℕ}
    → n ≤ max_nodes
    → IsArrays n first_out head weight
    → IsCsr first_out head n
    → validate_csr first_out head n ≡ loaded tt
validate_csr-loaded {n = n} {first_out = f} {head = hd} nodes a c =
    let few = a.few in
    let firsts = a.firsts in
    (validate_csr-IsCsr f hd n (omega arith) (omega arith) (omega arith)).1 c

-- The three optional fields are read one after the other.
pub read_geometry :
    (chg : ChGraph ℕ) (rest : Bytes)
    → IsStorable chg
    → (r1 : Bytes) × (r2 : Bytes) × (read_optional 4 (write_geometry chg ++ rest)
        ≡ (chg.geo_first_out, r1))
      × (read_optional 8 r1 ≡ (chg.geo_shape_lat, r2))
      × (read_optional 8 r2 ≡ (chg.geo_shape_lon, rest))
unfolding write_geometry
read_geometry chg rest s =
    let firsts = s.geo_firsts in
    let lats = s.geo_lats in
    let lons = s.geo_lons in
    let lon_part = write_prefixed 8 chg.geo_shape_lon ++ rest in
    let lat_part = write_prefixed 8 chg.geo_shape_lat ++ lon_part in
    (
      lat_part,
      lon_part,
      rw (append_assoc, append_assoc)
          (read_optional-write_prefixed 4 chg.geo_first_out lat_part s.geo_first_words firsts
            (omega arith)),
      read_optional-write_prefixed 8 chg.geo_shape_lat lon_part s.geo_lat_words lats (omega arith),
      read_optional-write_prefixed 8 chg.geo_shape_lon rest s.geo_lon_words lons (omega arith),
    )

module _ (crc : Bytes → ℕ) (chg : ChGraph ℕ) (s : IsStorable chg)
    (h : crc (write_body chg) < 4294967296) where
  -- A graph within the limits of the format, whose overlay graphs are CSR arrays, is read back from the file that is written of it, but for the ranks, which are skipped.
  pub read_binary-write_binary : read_binary crc (write_binary crc chg) ≡ loaded (without_ranks chg)
  unfolding read_binary write_binary without_ranks header_of geometry_part orig_part bwd_part
      fwd_part write_geometry
  read_binary-write_binary =
      let t = le_bytes 4 (crc (write_body chg)) in
      let flat = sections-eq chg t in
      let whole =
        rw (flat, header_of, IsArrays-count s.fwd, IsArrays-count s.bwd, IsArrays-count s.orig) at
          (check_crc-le_bytes crc (write_body chg) h) in
      let hdr =
        read_file_header-write_header (header_of chg) (write_node_data chg ++ fwd_part chg t)
          (header_of-IsHeader chg s) in
      let nodes =
        read_node_data-write_node_data chg (fwd_part chg t) s.lats s.lons s.ranks s.lat_words
          s.lon_words in
      let fwd_count = IsArrays-count s.fwd in
      let bwd_count = IsArrays-count s.bwd in
      let orig_count = IsArrays-count s.orig in
      let fwd =
        read_arrays-write_arrays chg.num_nodes chg.fwd_first_out chg.fwd_head chg.fwd_weight
          (write_middle chg.fwd_middle ++ bwd_part chg t) s.nodes s.fwd in
      let fwd_middle =
        read_middle-write_middle (length chg.fwd_head) chg.fwd_middle (bwd_part chg t) s.fwd_middles
          s.fwd_range in
      let bwd =
        read_arrays-write_arrays chg.num_nodes chg.bwd_first_out chg.bwd_head chg.bwd_weight
          (write_middle chg.bwd_middle ++ orig_part chg t) s.nodes s.bwd in
      let bwd_middle =
        read_middle-write_middle (length chg.bwd_head) chg.bwd_middle (orig_part chg t)
          s.bwd_middles s.bwd_range in
      let orig =
        read_arrays-write_arrays chg.num_nodes chg.orig_first_out chg.orig_head chg.orig_weight
          (geometry_part chg t) s.nodes s.orig in
      let (g1, g2, geo1, geo2, geo3) = read_geometry chg t s in
      rw
        (
          flat,
          hdr,
          fwd_count,
          bwd_count,
          orig_count,
          nodes,
          fwd,
          fwd_middle,
          bwd,
          bwd_middle,
          orig,
          geo1,
          geo2,
          geo3,
          whole,
          validate_csr-loaded s.nodes s.fwd s.fwd_csr,
          validate_csr-loaded s.nodes s.bwd s.bwd_csr,
        )
        refl
