-- ===== src/Graph/UnionFind/United.antt =====
-- `NewUnionFind` and `Union` against the roots of the elements.
use map_router.Base.{
  length-set, zero, suc, length-replicate, ℕ, ◌+◌, ◌<◌, ◌≡◌, ◌≢◌, refl, sym, ◌∙◌, ap, subst, Bool,
  not, List, arith, ◌==◌, ltb, length, inl, ◌%◌,
}
use map_router.Run.{Ensures, ensures, Ensures-bind, Ensures-mono, Ensures-if}
use map_router.Array.{Zeroed-ℕ, get!, at-ok, put-ok}
use map_router.Word.{add32}
use map_router.Graph.UnionFind.{UnionFind, from_on, new_union_find, link, union}
use map_router.Graph.UnionFind.Roots.{
  Root, top, up, IsForest, SameRoots, find_loop-Root, Root-unique,
}
use map_router.Graph.UnionFind.Joined.{
  IsUnited, IsSets, Root-top, joined-IsUnited, raised, joined-IsForest, IsForest-weaken,
  IsUnited-swap,
}

-- `s` comes under `r`, and everything is still in place.
record IsLinked (n b : ℕ) (before : List ℕ) (r s : ℕ) (after : UnionFind) : Type 0 where
  sets : IsSets n (b + 1) after
  united : IsUnited n before after.parent r s r

link-IsLinked :
    (n b : ℕ) (uf : UnionFind) (r s rank_x rank_y : ℕ)
    → IsSets n b uf
    → r < n
    → s < n
    → r ≢ s
    → get! uf.parent r ≡ r
    → get! uf.parent s ≡ s
    → Ensures (IsLinked n b uf.parent r s) (link uf r s rank_x rank_y)
unfolding link
link-IsLinked n b uf r s rank_x rank_y w hr hs apart root_r root_s =
    let inside : s < length uf.parent = omega (arith, w.forest.size) in
    rw
      (
        put-ok uf.parent s r inside,
        at-ok uf.size r (omega (arith, w.size_size)),
        at-ok uf.size s (omega (arith, w.size_size)),
        put-ok uf.size r (add32 (get! uf.size r) (get! uf.size s)) (omega (arith, w.size_size)),
      )
      (Ensures-bind {P = λ ranks. length ranks ≡ n}
        (Ensures-if (rank_x == rank_y)
          (λ same.
            rw (put-ok uf.rank r ((rank_x + 1) % 256) (omega (arith, w.rank_size)))
              (ensures (rw length-set w.rank_size)))
          (λ other. ensures w.rank_size))
        λ ranks len. ensures (record {
          sets = record {
            height = raised w.height r s;
            forest = joined-IsForest n b w.height uf.parent r s w.forest hr hs apart root_r root_s;
            rank_size = len;
            size_size = rw length-set w.size_size;
          };
          united = joined-IsUnited uf.parent r s inside apart root_r root_s n;
        }))

module _ (n b : ℕ) where
  Root-inside :
      {height : ℕ → ℕ} {parent : List ℕ} {x r : ℕ}
      → IsForest n b height parent
      → x < n
      → Root parent x r
      → r < n
  Root-inside w hx (top root) = hx
  Root-inside {x = x} w hx (up other rest) = Root-inside w (w.inside x hx) rest

  -- What `Find` leaves unites as the parents before it.
  IsUnited-after :
      {before between after : List ℕ} {r s w : ℕ}
      → SameRoots n before between
      → IsUnited n between after r s w
      → IsUnited n before after r s w
  unfolding SameRoots
  IsUnited-after same u = record {
    one_of = u.one_of;
    left = λ z h k. u.left z h (same z _ h k);
    right = λ z h k. u.right z h (same z _ h k);
    rest = λ z t h other other2 k. u.rest z t h other other2 (same z t h k);
  }

  IsUnited-one :
      {before after : List ℕ} {r s : ℕ}
      → SameRoots n before after
      → r ≡ s
      → IsUnited n before after r s r
  unfolding SameRoots
  IsUnited-one {before} {after} {r} {s} same e = record {
    one_of = inl refl;
    left = λ z h k. same z r h k;
    right = λ z h k. subst (Root after z) (sym e) (same z s h k);
    rest = λ z t h other other2 k. same z t h k;
  }

  -- What `Union` does to the state and to the roots.
  pub record IsUnion (before : List ℕ) (r s : ℕ) (answer : Bool) (after : UnionFind) : Type 0 where
    pub answers : answer ≡ not (r == s)
    pub sets : IsSets n (b + 1) after
    pub root : ℕ
    pub united : IsUnited n before after.parent r s root

  -- On a forest, with fuel above its heights, `Union` ends, without a panic; it answers false
  -- exactly if the two elements have one root. After it the parents are a forest again, with heights
  -- that are at most one above; the elements under either of the two roots are under one of them,
  -- and all others are under the root that they had.
  pub union-IsUnion :
      (fuel : ℕ) (uf : UnionFind) (x y r s : ℕ)
      → IsSets n b uf
      → x < n
      → y < n
      → b < fuel
      → Root uf.parent x r
      → Root uf.parent y s
      → Ensures (λ (answer, after). IsUnion uf.parent r s answer after) (union fuel uf x y)
  unfolding union SameRoots
  union-IsUnion fuel uf x y r s w hx hy enough root_x root_y =
      Ensures-bind (find_loop-Root n b w.height fuel uf.parent x w.forest hx enough)
        λ (rx, first) (at_x, w1, same1).
          Ensures-bind (find_loop-Root n b w.height fuel first y w1 hy enough)
            λ (ry, second) (at_y, w2, same2).
              let eq_r : rx ≡ r = Root-unique n b w.height at_x root_x in
              let eq_s : ry ≡ s = Root-unique n b w.height at_y (same1 y s hy root_y) in
              let hr = Root-inside w.forest hx root_x in
              let hs = Root-inside w.forest hy root_y in
              let same : SameRoots n uf.parent second = λ z t h k. same2 z t h (same1 z t h k) in
              let top_r = Root-top (same x r hx root_x) in
              let top_s = Root-top (same y s hy root_y) in
              let found : UnionFind = record uf { parent = second } in
              let kept : IsSets n b found = record {
                height = w.height;
                forest = w2;
                rank_size = w.rank_size;
                size_size = w.size_size;
              } in
              rw (eq_r, eq_s)
                (Ensures-if (r == s)
                  (λ e. ensures (record {
                    answers = ap not (sym e);
                    sets = record {
                      height = w.height;
                      forest = IsForest-weaken w2;
                      rank_size = w.rank_size;
                      size_size = w.size_size;
                    };
                    root = r;
                    united = IsUnited-one same (ground arith);
                  }))
                  λ e.
                    let apart : r ≢ s = λ k. absurd (ground arith) in
                    rw
                      (
                        at-ok uf.rank r (omega (arith, w.rank_size)),
                        at-ok uf.rank s (omega (arith, w.rank_size)),
                      )
                      (Ensures-bind
                        {P = λ after.
                          IsSets n (b + 1) after × ((t : ℕ) × IsUnited n second after.parent r s t)}
                        (Ensures-if (ltb (get! uf.rank r) (get! uf.rank s))
                          (λ low.
                            Ensures-mono (λ after u. (u.sets, (s, IsUnited-swap u.united)))
                              (link-IsLinked n b found s r _ _ kept hs hr (λ k. apart (sym k)) top_s
                                top_r))
                          λ high.
                            Ensures-mono (λ after u. (u.sets, (r, u.united)))
                              (link-IsLinked n b found r s _ _ kept hr hs apart top_r top_s))
                        λ after (sets, (t, u)). ensures (record {
                          answers = ap not (sym e);
                          sets = sets;
                          root = t;
                          united = IsUnited-after same u;
                        })))

length-from_on : (k i : ℕ) → length (from_on k i) ≡ k
length-from_on zero i = refl
length-from_on (suc k) i = ap suc (length-from_on k (i + 1))

get!-from_on : (k i x : ℕ) → x < k → get! (from_on k i) x ≡ i + x
unfolding get!
get!-from_on zero i x h = absurd (omega arith)
get!-from_on (suc k) i zero h = omega arith
get!-from_on (suc k) i (suc x) h = get!-from_on k (i + 1) x (omega arith) ∙ omega arith

-- `NewUnionFind` gives a forest of height 1, in which every element is its own root.
pub new_union_find-IsSets :
    (n : ℕ) → IsSets n 1 (new_union_find n) × ((x : ℕ) → x < n → Root (new_union_find n).parent x x)
unfolding new_union_find
new_union_find-IsSets n =
    let own : (x : ℕ) → x < n → get! (from_on n 0) x ≡ x =
      λ x h. get!-from_on n 0 x h ∙ omega arith in
    (
      record {
        height = λ x. 0;
        forest = record {
          size = length-from_on n 0;
          inside = λ x h. rw (own x h) h;
          rises = λ x h moves. absurd (moves (own x h));
          bound = λ x h. omega arith;
        };
        rank_size = length-replicate n 0;
        size_size = length-replicate n 1;
      },
      λ x h. top (own x h),
    )
