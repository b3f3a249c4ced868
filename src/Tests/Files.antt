-- ===== src/Tests/Files.antt =====
-- A graph of two nodes and the two directions of a road, written and read.
use map_router.Base.{
  ℕ, ◌+◌, ◌%◌, ◌≤◌, ◌<◌, ◌≡◌, ◌↔◌, refl, [], ◌∷◌, arith, length, zero, suc, negsuc,
}
use map_router.Load.{loaded, ◌>>=◌}
use map_router.Array.{Zeroed-ℕ, get! }
use map_router.Graph.{ChGraph}
use map_router.Graph.Csr.{validate_csr}
use map_router.Graph.Csr.Valid.{IsCsr, validate_csr-IsCsr}
use map_router.Graph.Bytes.{Bytes}
use map_router.Graph.Binary.{read_binary, write_binary, write_body}
use map_router.Graph.Binary.Trip.{IsStorable, IsArrays, without_ranks, read_binary-write_binary}
use map_router.Graph.Binary.Sound.{IsChecked, read_binary-IsChecked}
use map_router.Graph.Split.{read_base, write_base, read_overlay, write_overlay}
use map_router.Graph.Split.Trip.{read_overlay-read_base}

-- A stand-in for the checksum.
abbrev sum_crc : Bytes → ℕ
sum_crc bs = length bs % 4294967296

sum_crc-lt : (bs : Bytes) → sum_crc bs < 4294967296
sum_crc-lt bs = omega arith

abbrev road : ChGraph ℕ
road = record {
  num_nodes = 2;
  node_lat = 10 ∷ 11 ∷ [];
  node_lon = 20 ∷ 21 ∷ [];
  rank = 0 ∷ 1 ∷ [];
  fwd_first_out = 0 ∷ 1 ∷ 1 ∷ [];
  fwd_head = 1 ∷ [];
  fwd_weight = 5 ∷ [];
  fwd_middle = negsuc 0 ∷ [];
  bwd_first_out = 0 ∷ 1 ∷ 1 ∷ [];
  bwd_head = 1 ∷ [];
  bwd_weight = 6 ∷ [];
  bwd_middle = negsuc 0 ∷ [];
  orig_first_out = 0 ∷ 1 ∷ 2 ∷ [];
  orig_head = 1 ∷ 0 ∷ [];
  orig_weight = 5 ∷ 6 ∷ [];
  geo_first_out = [];
  geo_shape_lat = [];
  geo_shape_lon = [];
}

-- A statement about two numbers, one by one.
each_of_two : (P : ℕ → Type 0) → P 0 → P 1 → (i : ℕ) → i < 2 → P i
each_of_two P a b zero h = a
each_of_two P a b (suc zero) h = b
each_of_two P a b (suc (suc i)) h = absurd (omega arith)

orig-IsCsr : IsCsr (0 ∷ 1 ∷ 2 ∷ []) (1 ∷ 0 ∷ []) 2
unfolding get!
orig-IsCsr = record {
  firsts = refl;
  last = refl;
  ordered = λ i p.
      each_of_two (λ j. get! (0 ∷ 1 ∷ 2 ∷ []) j ≤ get! (0 ∷ 1 ∷ 2 ∷ []) (j + 1)) (omega arith)
        (omega arith) i p;
  heads = λ e p. each_of_two (λ j. get! (1 ∷ 0 ∷ []) j < 2) (omega arith) (omega arith) e p;
}

upward-IsCsr : IsCsr (0 ∷ 1 ∷ 1 ∷ []) (1 ∷ []) 2
unfolding get!
upward-IsCsr = record {
  firsts = refl;
  last = refl;
  ordered = λ i p.
      each_of_two (λ j. get! (0 ∷ 1 ∷ 1 ∷ []) j ≤ get! (0 ∷ 1 ∷ 1 ∷ []) (j + 1)) (omega arith)
        (omega arith) i p;
  heads = λ e p. let first : e ≡ 0 = omega arith in rw first (omega arith);
}

upward-IsArrays : (w : ℕ) → w < 4294967296 → IsArrays 2 (0 ∷ 1 ∷ 1 ∷ []) (1 ∷ []) (w ∷ [])
upward-IsArrays w h = record {
  firsts = refl;
  weights = refl;
  few = omega arith;
  first_words = (omega arith, (omega arith, (omega arith, tt)));
  head_words = (omega arith, tt);
  weight_words = (omega arith, tt);
}

road-IsStorable : IsStorable road
road-IsStorable = record {
  nodes = omega arith;
  lats = refl;
  lons = refl;
  ranks = refl;
  lat_words = (omega arith, (omega arith, tt));
  lon_words = (omega arith, (omega arith, tt));
  fwd = upward-IsArrays 5 (omega arith);
  bwd = upward-IsArrays 6 (omega arith);
  orig = record {
    firsts = refl;
    weights = refl;
    few = omega arith;
    first_words = (omega arith, (omega arith, (omega arith, tt)));
    head_words = (omega arith, (omega arith, tt));
    weight_words = (omega arith, (omega arith, tt));
  };
  fwd_csr = upward-IsCsr;
  bwd_csr = upward-IsCsr;
  fwd_middles = refl;
  bwd_middles = refl;
  fwd_range = (omega arith, tt);
  bwd_range = (omega arith, tt);
  geo_first_words = tt;
  geo_lat_words = tt;
  geo_lon_words = tt;
  geo_firsts = omega arith;
  geo_lats = omega arith;
  geo_lons = omega arith;
}

validate_csr-IsCsr_example :
    (validate_csr (0 ∷ 1 ∷ 2 ∷ []) (1 ∷ 0 ∷ []) 2 ≡ loaded tt)
    ↔ IsCsr (0 ∷ 1 ∷ 2 ∷ []) (1 ∷ 0 ∷ []) 2
validate_csr-IsCsr_example =
    validate_csr-IsCsr (0 ∷ 1 ∷ 2 ∷ []) (1 ∷ 0 ∷ []) 2 (omega arith) (omega arith) (omega arith)

read_binary-write_binary_example :
    read_binary sum_crc (write_binary sum_crc road) ≡ loaded (without_ranks road)
read_binary-write_binary_example =
    read_binary-write_binary sum_crc road road-IsStorable (sum_crc-lt (write_body road))

read_binary-IsChecked_example : IsChecked (without_ranks road)
read_binary-IsChecked_example =
    read_binary-IsChecked sum_crc (write_binary sum_crc road) (without_ranks road)
      (read_binary-write_binary sum_crc road road-IsStorable (sum_crc-lt (write_body road)))

read_overlay-read_base_example :
    (read_base sum_crc (write_base sum_crc road)
      >>= read_overlay sum_crc (write_overlay sum_crc road))
    ≡ read_binary sum_crc (write_binary sum_crc road)
read_overlay-read_base_example =
    read_overlay-read_base sum_crc road road-IsStorable sum_crc-lt orig-IsCsr
