-- ===== src/Graph/UnionFind/Joined.antt =====
-- One root that comes under another, as in `Union`.
use map_router.Base.{
  ◌≤◌, if◌then◌else◌, length-set, ℕ_discrete, ℕ, ◌+◌, ◌<◌, ◌≡◌, ◌≢◌, refl, sym, ◌∙◌, subst, List,
  arith, ◌==◌, ltb, length, set, ◌⊎◌, inl, inr,
}
use map_router.Array.{Zeroed-ℕ, get!, get!-set}
use map_router.Graph.UnionFind.{UnionFind}
use map_router.Graph.UnionFind.Roots.{Root, top, up, IsForest}

-- The elements whose root was `r` or `s` have the root `w` after the code, which is one of the two;
-- all others have the root that they had.
pub record IsUnited (n : ℕ) (before after : List ℕ) (r s w : ℕ) : Type 0 where
  pub one_of : (w ≡ r) ⊎ (w ≡ s)
  pub left : (z : ℕ) → z < n → Root before z r → Root after z w
  pub right : (z : ℕ) → z < n → Root before z s → Root after z w
  pub rest : (z t : ℕ) → z < n → t ≢ r → t ≢ s → Root before z t → Root after z t

-- The state of a `UnionFind` over `n` elements, with heights below `b`.
pub record IsSets (n b : ℕ) (uf : UnionFind) : Type 0 where
  pub height : ℕ → ℕ
  pub forest : IsForest n b height uf.parent
  pub rank_size : length uf.rank ≡ n
  pub size_size : length uf.size ≡ n

pub Root-top : {parent : List ℕ} {x r : ℕ} → Root parent x r → get! parent r ≡ r
Root-top (top root) = root
Root-top (up other rest) = Root-top rest

module _ (parent : List ℕ) (r s : ℕ) (hs : s < length parent) (apart : r ≢ s)
    (root_r : get! parent r ≡ r) (root_s : get! parent s ≡ s) where
  abbrev joined : List ℕ
  joined = set parent s r

  joined-other : (z : ℕ) → s ≢ z → get! joined z ≡ get! parent z
  joined-other z other = let entry = get!-set parent s z r hs in ground arith

  joined-own : get! joined s ≡ r
  joined-own = let entry = get!-set parent s s r hs in ground arith

  under-Root : Root joined s r
  under-Root =
      up (rw joined-own apart) (rw joined-own (top (joined-other r (λ e. apart (sym e)) ∙ root_r)))

  moved-Root : {z t : ℕ} → t ≢ s → Root parent z t → Root joined z t
  moved-Root {z} other (top root) = top (joined-other z (λ e. other (sym e)) ∙ root)
  moved-Root {z} other (up leaves rest) =
      let kept = joined-other z (λ e. leaves (subst (λ y. get! parent y ≡ y) e root_s)) in
      up (rw kept leaves) (rw kept (moved-Root other rest))

  joined-Root : {z : ℕ} → Root parent z s → Root joined z r
  joined-Root (top root) = under-Root
  joined-Root {z} (up leaves rest) =
      let kept = joined-other z (λ e. leaves (subst (λ y. get! parent y ≡ y) e root_s)) in
      up (rw kept leaves) (rw kept (joined-Root rest))

  pub joined-IsUnited : (n : ℕ) → IsUnited n parent joined r s r
  joined-IsUnited n = record {
    one_of = inl refl;
    left = λ z h k. moved-Root apart k;
    right = λ z h k. joined-Root k;
    rest = λ z t h other other2 k. moved-Root other2 k;
  }

-- The root on top is at least as high as before, and higher than the root that comes under it.
pub raised : (ℕ → ℕ) → ℕ → ℕ → ℕ → ℕ
raised height r s z =
    if z == r then (if ltb (height r) (height s + 1) then height s + 1 else height r) else height z

raised-own : (height : ℕ → ℕ) (r s : ℕ) → height s < raised height r s r
unfolding raised
raised-own height r s = ground arith

raised-above : (height : ℕ → ℕ) (r s z : ℕ) → height z ≤ raised height r s z
unfolding raised
raised-above height r s z = elim (ℕ_discrete z r) [
  | yes e ↦ rw e (ground arith)
  | no apart ↦ ground arith
]

raised-other : (height : ℕ → ℕ) (r s z : ℕ) → z ≢ r → raised height r s z ≡ height z
unfolding raised
raised-other height r s z apart = ground arith

raised-below :
    (height : ℕ → ℕ) (b r s z : ℕ)
    → height r < b
    → height s < b
    → height z < b
    → raised height r s z < b + 1
unfolding raised
raised-below height b r s z hr hs hz = ground arith

pub joined-IsForest :
    (n b : ℕ) (height : ℕ → ℕ) (parent : List ℕ) (r s : ℕ)
    → IsForest n b height parent
    → r < n
    → s < n
    → r ≢ s
    → get! parent r ≡ r
    → get! parent s ≡ s
    → IsForest n (b + 1) (raised height r s) (set parent s r)
joined-IsForest n b height parent r s w hr hs apart root_r root_s =
    let other = joined-other parent r s (omega (arith, w.size)) apart root_r root_s in
    let own = joined-own parent r s (omega (arith, w.size)) apart root_r root_s in
    record {
      size = rw length-set w.size;
      inside = λ z h. elim (ℕ_discrete s z) [
        | yes e ↦ subst (λ y. get! (set parent s r) y < n) e (rw own hr)
        | no k ↦ rw (other z k) (w.inside z h)
      ];
      rises = λ z h moves. elim (ℕ_discrete s z) [
        | yes e ↦
            rw (← e, own, raised-other height r s s (λ k. apart (sym k))) (raised-own height r s)
        | no k ↦
            let leaves : get! parent z ≢ z = rw (← other z k) moves in
            let still : raised height r s z ≡ height z =
              raised-other height r s z (λ e. leaves (rw e root_r)) in
            rw (other z k, still)
              (omega (arith, w.rises z h leaves, raised-above height r s (get! parent z)))
      ];
      bound = λ z h. raised-below height b r s z (w.bound r hr) (w.bound s hs) (w.bound z h);
    }

pub IsForest-weaken :
    {n b : ℕ} {height : ℕ → ℕ} {parent : List ℕ}
    → IsForest n b height parent
    → IsForest n (b + 1) height parent
IsForest-weaken w = record {
  size = w.size;
  inside = w.inside;
  rises = w.rises;
  bound = λ x h. omega (arith, w.bound x h);
}

pub IsUnited-swap :
    {n : ℕ} {before after : List ℕ} {r s w : ℕ}
    → IsUnited n before after r s w
    → IsUnited n before after s r w
IsUnited-swap u = record {
  one_of = swap u.one_of;
  left = u.right;
  right = u.left;
  rest = λ z t h other other2 k. u.rest z t h other2 other k;
}
  where
    swap : {A B : Type 0} → A ⊎ B → B ⊎ A
    swap (inl a) = inr a
    swap (inr b) = inl b
