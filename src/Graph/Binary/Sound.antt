-- ===== src/Graph/Binary/Sound.antt =====
-- What `ReadBinary` accepts: a graph whose overlay graphs are CSR arrays over its nodes.
use map_router.Base.{ℕ, ◌≤◌, ◌≡◌, not, ◌||◌, List, [], ◌∷◌, arith, length, ltb, ◌==◌}
use map_router.Word.{add32, add32-eq}
use map_router.Load.{
  loaded, require, >>=-eq-loaded, Ensures, Ensures->>=, bad_magic, bad_version, too_many_nodes,
  too_many_edges, read_header, read_field,
}
use map_router.Graph.{ChGraph}
use map_router.Graph.Csr.{validate_csr}
use map_router.Graph.Csr.Valid.{IsCsr, validate_csr-IsCsr, require-eq}
use map_router.Graph.Bytes.{Bytes, read_words}
use map_router.Graph.Bytes.RoundTrip.{read_words-length}
use map_router.Graph.Binary.{
  max_nodes, max_edges, version, magic_bytes, is_magic, FileHeader, check_header, read_file_header,
  read_node_data, read_arrays, read_middle, check_crc, read_binary,
}

-- The bounds that the header checks give.
record IsBounded (hdr : FileHeader) : Type 0 where
  nodes : hdr.num_nodes ≤ max_nodes
  fwd : hdr.num_fwd_edges ≤ max_edges
  bwd : hdr.num_bwd_edges ≤ max_edges

check_header-IsBounded :
    (magic : Bytes) (words : List ℕ) (hdr : FileHeader)
    → check_header magic words ≡ loaded hdr
    → IsBounded hdr
unfolding check_header
check_header-IsBounded magic (v ∷ n ∷ o ∷ s ∷ f ∷ b ∷ []) hdr h =
    let (u1, e1, h1) = >>=-eq-loaded (require (is_magic magic magic_bytes) bad_magic) _ h in
    let (u2, e2, h2) = >>=-eq-loaded (require (v == version) bad_version) _ h1 in
    let (u3, e3, h3) = >>=-eq-loaded (require (not (ltb max_nodes n)) too_many_nodes) _ h2 in
    let (u4, e4, h4) =
      >>=-eq-loaded
        (require (not (ltb max_edges f || ltb max_edges b || ltb max_edges o)) too_many_edges) _
        h3 in
    let nodes = require-eq _ _ e3 in
    let edges = require-eq _ _ e4 in
    let same : hdr ≡ record {
      num_nodes = n;
      num_orig_edges = o;
      num_shortcuts = s;
      num_fwd_edges = f;
      num_bwd_edges = b;
    } =
      cc in
    rw same record { nodes = ground arith; fwd = ground arith; bwd = ground arith }
check_header-IsBounded magic _ hdr h = cc

read_file_header-IsBounded :
    (bs : Bytes) (hdr : FileHeader) (r : Bytes)
    → read_file_header bs ≡ loaded (hdr, r)
    → IsBounded hdr
unfolding read_file_header
read_file_header-IsBounded bs hdr r h =
    let ((magic, r0), e0, h0) = >>=-eq-loaded (read_words read_header 1 8 bs) _ h in
    let ((words, r1), e1, h1) = >>=-eq-loaded (read_words read_header 4 6 r0) _ h0 in
    let (hdr', e2, h2) = >>=-eq-loaded (check_header magic words) _ h1 in
    let same : hdr ≡ hdr' = cc in rw same (check_header-IsBounded magic words hdr' e2)

read_arrays-length :
    (n m : ℕ) (bs : Bytes) (first_out head weight : List ℕ) (r : Bytes)
    → read_arrays n m bs ≡ loaded ((first_out, head, weight), r)
    → (length first_out ≡ add32 n 1) × (length head ≡ m)
unfolding read_arrays
read_arrays-length n m bs first_out head weight r h =
    let ((a1, r1), e1, h1) = >>=-eq-loaded (read_words read_field 4 (add32 n 1) bs) _ h in
    let ((a2, r2), e2, h2) = >>=-eq-loaded (read_words read_field 4 m r1) _ h1 in
    let ((a3, r3), e3, h3) = >>=-eq-loaded (read_words read_field 4 m r2) _ h2 in
    let size1 = read_words-length read_field 4 (add32 n 1) bs a1 r1 e1 in
    let size2 = read_words-length read_field 4 m r1 a2 r2 e2 in
    let same1 : first_out ≡ a1 = cc in
    let same2 : head ≡ a2 = cc in (rw same1 size1, rw same2 size2)

accepted-IsCsr :
    (n m : ℕ) (first_out head : List ℕ)
    → n ≤ max_nodes
    → m ≤ max_edges
    → (length first_out ≡ add32 n 1) × (length head ≡ m)
    → validate_csr first_out head n ≡ loaded tt
    → IsCsr first_out head n
accepted-IsCsr n m first_out head small few (size1, size2) h =
    let next = add32-eq n 1 (omega arith) in
    (validate_csr-IsCsr first_out head n (omega arith) (omega arith) (omega arith)).0 h

-- What the checks of the reader leave to be relied on.
abbrev pub IsChecked : ChGraph ℕ → Type 0
IsChecked chg =
    (chg.num_nodes ≤ max_nodes)
    × IsCsr chg.fwd_first_out chg.fwd_head chg.num_nodes
    × IsCsr chg.bwd_first_out chg.bwd_head chg.num_nodes

read_binary-Ensures : (crc : Bytes → ℕ) (bs : Bytes) → Ensures IsChecked (read_binary crc bs)
unfolding read_binary
read_binary-Ensures crc bs = Ensures->>= IsChecked (read_file_header bs) _ (λ (hdr, r0) e0.
    let b = read_file_header-IsBounded bs hdr r0 e0 in
    Ensures->>= IsChecked (read_node_data hdr.num_nodes r0) _ (λ (coords, r1) e1.
      Ensures->>= IsChecked (read_arrays hdr.num_nodes hdr.num_fwd_edges r1) _
        (λ ((ff, fh, fw), r2) e2.
          Ensures->>= IsChecked (read_middle hdr.num_fwd_edges r2) _ (λ (fm, r3) e3.
            Ensures->>= IsChecked (read_arrays hdr.num_nodes hdr.num_bwd_edges r3) _
              (λ ((bf, bh, bw), r4) e4.
                Ensures->>= IsChecked (read_middle hdr.num_bwd_edges r4) _ (λ (bm, r5) e5.
                  Ensures->>= IsChecked (read_arrays hdr.num_nodes hdr.num_orig_edges r5) _
                    (λ (orig, r6) e6. Ensures->>= IsChecked (check_crc crc bs _) _ (λ u1 e7.
                      Ensures->>= IsChecked (validate_csr ff fh hdr.num_nodes) _ (λ u2 e8.
                        Ensures->>= IsChecked (validate_csr bf bh hdr.num_nodes) _ (λ u3 e9. (
                          b.nodes,
                          accepted-IsCsr hdr.num_nodes hdr.num_fwd_edges ff fh b.nodes b.fwd
                              (read_arrays-length hdr.num_nodes hdr.num_fwd_edges r1 ff fh fw r2 e2)
                              e8,
                          accepted-IsCsr hdr.num_nodes hdr.num_bwd_edges bf bh b.nodes b.bwd
                              (read_arrays-length hdr.num_nodes hdr.num_bwd_edges r3 bf bh bw r4 e4)
                              e9,
                        )))))))))))

-- If a file is accepted, the graph has at most 64,000,000 nodes, and its forward and backward
-- overlay graphs are CSR arrays over its nodes.
pub read_binary-IsChecked :
    (crc : Bytes → ℕ) (bs : Bytes) (chg : ChGraph ℕ)
    → read_binary crc bs ≡ loaded chg
    → IsChecked chg
read_binary-IsChecked crc bs chg h = rw h at (read_binary-Ensures crc bs)
