-- ===== src/Graph/UnionFind/Roots.antt =====
-- `Find` against the plain walk up to the root.
use map_router.Base.{
  ℕ, zero, suc, ◌+◌, ◌≤◌, ◌<◌, ◌≡◌, ◌≢◌, refl, sym, ◌∙◌, subst, List, arith, ◌==◌, length,
  length-set, set, ℕ_discrete,
}
use map_router.Run.{Ensures, ensures, Ensures-mono, Ensures-if}
use map_router.Array.{Zeroed-ℕ, get!, at-ok, put-ok, get!-set}
use map_router.Graph.UnionFind.{find_loop}

-- `r` is the root that the parents of `x` lead to.
pub data Root (parent : List ℕ) : ℕ → ℕ → Type 0 where
  top : {x : ℕ} → get! parent x ≡ x → Root parent x x
  up : {x r : ℕ} → get! parent x ≢ x → Root parent (get! parent x) r → Root parent x r

-- A forest over `n` elements: parents are elements, and lead to ever greater heights below `b`.
pub record IsForest (n b : ℕ) (height : ℕ → ℕ) (parent : List ℕ) : Type 0 where
  pub size : length parent ≡ n
  pub inside : (x : ℕ) → x < n → get! parent x < n
  pub rises : (x : ℕ) → x < n → get! parent x ≢ x → height x < height (get! parent x)
  pub bound : (x : ℕ) → x < n → height x < b

-- `after` has the roots of `before`.
unfoldable pub SameRoots : ℕ → List ℕ → List ℕ → Type 0
SameRoots n before after = (x r : ℕ) → x < n → Root before x r → Root after x r

module _ (n b : ℕ) (height : ℕ → ℕ) where
  -- Halving at `x` keeps the forest.
  halved-IsForest :
      (parent : List ℕ) (x : ℕ)
      → IsForest n b height parent
      → x < n
      → get! parent x ≢ x
      → IsForest n b height (set parent x (get! parent (get! parent x)))
  halved-IsForest parent x w hx moves =
      let p = get! parent x in
      let above = get! parent p in
      let entry = λ (y : ℕ). get!-set parent x y above (omega (arith, w.size)) in
      let hp = w.inside x hx in
      record {
        size = rw length-set w.size;
        inside = λ y h. ground (arith, entry y, w.inside y h, w.inside p hp);
        rises = λ y h other. elim (ℕ_discrete x y) [
          | no apart ↦
              let kept : get! (set parent x above) y ≡ get! parent y = ground (arith, entry y) in
              rw kept (w.rises y h (rw kept at other))
          | yes same ↦
              let new : get! (set parent x above) y ≡ above = ground (arith, entry y) in
              rw (new, ← same)
                (elim (ℕ_discrete above p) [
                  | yes root ↦ rw root (w.rises x hx moves)
                  | no climbs ↦ omega (arith, w.rises x hx moves, w.rises p hp climbs)
                ])
        ];
        bound = w.bound;
      }

  module _ (parent : List ℕ) (x : ℕ) (w : IsForest n b height parent) (hx : x < n)
      (moves : get! parent x ≢ x) where
    abbrev halved : List ℕ
    halved = set parent x (get! parent (get! parent x))

    halved-other : (y : ℕ) → x ≢ y → get! halved y ≡ get! parent y
    halved-other y apart =
        let entry = get!-set parent x y (get! parent (get! parent x)) (omega (arith, w.size)) in
        ground arith

    halved-own : get! halved x ≡ get! parent (get! parent x)
    halved-own =
        let entry = get!-set parent x x (get! parent (get! parent x)) (omega (arith, w.size)) in
        ground arith

    -- The grandparent stands higher, so it is not the element itself.
    above-apart : get! parent (get! parent x) ≢ x
    above-apart same = elim (ℕ_discrete (get! parent (get! parent x)) (get! parent x)) [
      | yes root ↦ moves (sym root ∙ same)
      | no climbs ↦ absurd (
          let first = w.rises x hx moves in
          let second = w.rises (get! parent x) (w.inside x hx) climbs in
          omega (arith, rw same at second))
    ]

    own-Root : {r : ℕ} → Root halved (get! parent (get! parent x)) r → Root halved x r
    own-Root r = up (rw halved-own above-apart) (rw halved-own r)

    halved-SameRoots : SameRoots n parent halved
    unfolding SameRoots
    halved-SameRoots y r hy (top root) =
        let apart : x ≢ y = λ same. moves (rw same root) in top (halved-other y apart ∙ root)
    halved-SameRoots y r hy (up other (top root)) = elim (ℕ_discrete x y) [
      | no apart ↦
          let kept = halved-other y apart in
          up (rw kept other)
            (rw kept (halved-SameRoots (get! parent y) r (w.inside y hy) (top root)))
      | yes same ↦
          let rest = halved-SameRoots (get! parent y) r (w.inside y hy) (top root) in
          let here : Root halved (get! parent x) (get! parent x) = rw (← same) at rest in
          let stays : get! parent (get! parent x) ≡ get! parent x = rw (← same) at root in
          rw (← same) (own-Root (subst (λ z. Root halved z (get! parent x)) (sym stays) here))
    ]
    halved-SameRoots y r hy (up other (up climbs rest)) = elim (ℕ_discrete x y) [
      | no apart ↦
          let kept = halved-other y apart in
          up (rw kept other)
            (rw kept (halved-SameRoots (get! parent y) r (w.inside y hy) (up climbs rest)))
      | yes same ↦
          let later =
            halved-SameRoots (get! parent (get! parent y)) r
              (w.inside (get! parent y) (w.inside y hy)) rest in
          rw (← same) (own-Root (rw (← same) at later))
    ]

  pub Root-unique : {parent : List ℕ} {x r s : ℕ} → Root parent x r → Root parent x s → r ≡ s
  Root-unique (top e) (top e2) = refl
  Root-unique (top e) (up other rest) = absurd (other e)
  Root-unique (up other rest) (top e) = absurd (other e)
  Root-unique (up other rest) (up other2 rest2) = Root-unique rest rest2

  Root-above :
      {parent : List ℕ} {x r : ℕ}
      → Root parent x r
      → get! parent x ≢ x
      → Root parent (get! parent x) r
  Root-above (top e) moves = absurd (moves e)
  Root-above (up other rest) moves = rest

  -- Every element has a root.
  Root-exists :
      (parent : List ℕ)
      → IsForest n b height parent
      → (k x : ℕ) → x < n
      → b ≤ height x + k
      → (r : ℕ) × Root parent x r
  Root-exists parent w zero x hx far = absurd (omega (arith, w.bound x hx))
  Root-exists parent w (suc k) x hx far = elim (ℕ_discrete (get! parent x) x) [
    | yes root ↦ (x, top root)
    | no moves ↦
        let (r, rest) =
          Root-exists parent w k (get! parent x) (w.inside x hx)
            (omega (arith, w.rises x hx moves)) in
        (r, up moves rest)
  ]

  -- What `Find` of `x` does to the parents, if the root of `x` is `r`.
  record IsCompressed (parent : List ℕ) (r : ℕ) (found : ℕ × List ℕ) : Type 0 where
    root : found.0 ≡ r
    forest : IsForest n b height found.1
    same : SameRoots n parent found.1

  find_loop-IsCompressed :
      (fuel : ℕ) (parent : List ℕ) (x r : ℕ)
      → IsForest n b height parent
      → x < n
      → Root parent x r
      → b < height x + fuel
      → Ensures (IsCompressed parent r) (find_loop fuel parent x)
  unfolding find_loop SameRoots
  find_loop-IsCompressed zero parent x r w hx root enough = absurd (omega (arith, w.bound x hx))
  find_loop-IsCompressed (suc fuel) parent x r w hx root enough =
      let p = get! parent x in
      let hp = w.inside x hx in
      rw (at-ok parent x (omega (arith, w.size))) (
        Ensures-if (p == x)
          (λ stays. ensures (record {
            root = Root-unique (top (ground arith)) root;
            forest = w;
            same = λ y s hy k. k;
          }))
          λ leaves.
            let moves : p ≢ x = λ same. absurd (ground arith) in
            let above = get! parent p in
            let kept = halved-SameRoots parent x w hx moves x r hx root in
            let own = halved-own parent x w hx moves in
            let apart = above-apart parent x w hx moves in
            let later : Root (set parent x above) above r =
              subst (λ z. Root (set parent x above) z r) own
                (Root-above kept (λ e. apart (sym own ∙ e))) in
            let high : height x < height above = elim (ℕ_discrete above p) [
              | yes stays ↦ subst (λ z. height x < height z) (sym stays) (w.rises x hx moves)
              | no climbs ↦ omega (arith, w.rises x hx moves, w.rises p hp climbs)
            ] in
            rw
              (
                at-ok parent p (omega (arith, w.size)),
                put-ok parent x above (omega (arith, w.size)),
              )
              (Ensures-mono
                (λ found c. record {
                  root = c.root;
                  forest = c.forest;
                  same = λ y s hy k. c.same y s hy (halved-SameRoots parent x w hx moves y s hy k);
                })
                (find_loop-IsCompressed fuel (set parent x above) above r
                  (halved-IsForest parent x w hx moves) (w.inside p hp) later (omega arith))))

  -- On a forest, with fuel above its heights, `Find` ends, without a panic, with the root of the
  -- element; after its path halving the parents are a forest in which every element
  -- has the root that it had.
  pub find_loop-Root :
      (fuel : ℕ) (parent : List ℕ) (x : ℕ)
      → IsForest n b height parent
      → x < n
      → b < fuel
      → Ensures
          (λ (r, after). Root parent x r × IsForest n b height after × SameRoots n parent after)
          (find_loop fuel parent x)
  find_loop-Root fuel parent x w hx enough =
      let (r, root) = Root-exists parent w b x hx (omega arith) in
      Ensures-mono (λ found c. (subst (Root parent x) (sym c.root) root, c.forest, c.same))
        (find_loop-IsCompressed fuel parent x r w hx root (omega arith))
