-- ===== src/Routing/QueryState/Reset.antt =====
-- `Reset` gives back a fresh state, because every node whose entries changed is in `Touched`. This
-- is what lets `Engine.qsPool` hand a used state to the next query.
use map_router.Base.{
  ℕ, ◌<◌, ◌≡◌, inl, inr, refl, sym, ◌∙◌, Bool, true, false, ◌||◌, List, [], ◌∷◌, ◌++◌, arith, ◌==◌,
  length, length-set, set, replicate, length-replicate, Bool-cases,
}
use map_router.Run.{ok, Ensures, ensures, Ensures-mono, Ensures-value}
use map_router.Array.{Zeroed-ℕ, get!, put-ok, get!-set, eq_of_get!, get!-replicate}
use map_router.Routing.MinHeap
use map_router.Routing.MinHeap.{MinHeap, max_u32}
use map_router.Routing.QueryState.{Half, QueryState, no_node, new_query_state, clear, reset}

abbrev pub contains : ℕ → List ℕ → Bool
contains v [] = false
contains v (x ∷ xs) = (x == v) || contains v xs

pub contains-concat :
    (v x : ℕ) (xs : List ℕ) → contains v (xs ++ x ∷ []) ≡ (contains v xs || (x == v))
contains-concat v x [] = ground arith
contains-concat v x (y ∷ xs) = ground (arith, contains-concat v x xs)

-- The arrays of a half have `n` entries.
pub record IsSized (n : ℕ) (h : Half) : Type 0 where
  pub dists : length h.dist ≡ n
  pub preds : length h.pred ≡ n

-- The entries of `v` are as `NewQueryState` makes them.
pub record IsUntouched (h : Half) (v : ℕ) : Type 0 where
  pub dist : get! h.dist v ≡ max_u32
  pub pred : get! h.pred v ≡ no_node

-- Touched nodes exist, and every other node is untouched in both directions.
pub record IsTracked (n : ℕ) (own other : Half) (touched : List ℕ) : Type 0 where
  pub inside : (v : ℕ) → contains v touched ≡ true → v < n
  pub fresh_own : (v : ℕ) → v < n → contains v touched ≡ false → IsUntouched own v
  pub fresh_other : (v : ℕ) → v < n → contains v touched ≡ false → IsUntouched other v

pub IsTracked-sym :
    {n : ℕ} {own other : Half} {touched : List ℕ}
    → IsTracked n own other touched
    → IsTracked n other own touched
IsTracked-sym t = record { inside = t.inside; fresh_own = t.fresh_other; fresh_other = t.fresh_own }

-- A state of the pool's graph size whose changes are all recorded.
pub record IsClean (n : ℕ) (qs : QueryState) : Type 0 where
  pub sized_fwd : IsSized n qs.fwd
  pub sized_bwd : IsSized n qs.bwd
  pub tracked : IsTracked n qs.fwd qs.bwd qs.touched

-- The entries of a half after the loop of `Reset` over `nodes`.
record IsCleared (n : ℕ) (nodes : List ℕ) (h h' : Half) : Type 0 where
  sized : IsSized n h'
  done : (v : ℕ) → v < n → contains v nodes ≡ true → IsUntouched h' v
  kept_dist : (v : ℕ) → v < n → contains v nodes ≡ false → get! h'.dist v ≡ get! h.dist v
  kept_pred : (v : ℕ) → v < n → contains v nodes ≡ false → get! h'.pred v ≡ get! h.pred v

clear_node : Half → ℕ → Half
clear_node h v = record h { dist = set h.dist v max_u32; pred = set h.pred v no_node }

IsCleared-node :
    (n v : ℕ) (rest : List ℕ) (h h' : Half)
    → IsSized n h
    → v < n
    → IsCleared n rest (clear_node h v) h'
    → IsCleared n (v ∷ rest) h h'
unfolding clear_node
IsCleared-node n v rest h h' s hv c =
    let hd : v < length h.dist = omega (arith, s.dists) in
    let hp : v < length h.pred = omega (arith, s.preds) in
    record {
      sized = c.sized;
      done = λ w p q. ground (
        arith,
        c.done w p,
        c.kept_dist w p,
        c.kept_pred w p,
        get!-set h.dist v w max_u32 hd,
        get!-set h.pred v w no_node hp,
      );
      kept_dist = λ w p q. ground (arith, c.kept_dist w p, get!-set h.dist v w max_u32 hd);
      kept_pred = λ w p q. ground (arith, c.kept_pred w p, get!-set h.pred v w no_node hp);
    }

IsSized-clear_node : (n v : ℕ) (h : Half) → IsSized n h → IsSized n (clear_node h v)
unfolding clear_node
IsSized-clear_node n v h s = omega (arith, length-set h.dist v max_u32, length-set h.pred v no_node)

clear-IsCleared :
    (n : ℕ) (nodes : List ℕ) (qs : QueryState)
    → IsSized n qs.fwd
    → IsSized n qs.bwd
    → ((v : ℕ) → contains v nodes ≡ true → v < n)
    → Ensures
        (λ r. IsCleared n nodes qs.fwd r.fwd × IsCleared n nodes qs.bwd r.bwd)
        (clear nodes qs)
unfolding clear clear_node
clear-IsCleared n [] qs f b inside = ensures (
  record { sized = f; done = λ v p q. cc; kept_dist = λ v p q. refl; kept_pred = λ v p q. refl },
  record { sized = b; done = λ v p q. cc; kept_dist = λ v p q. refl; kept_pred = λ v p q. refl },
)
clear-IsCleared n (v ∷ rest) qs f b inside =
    let hv : v < n = inside v (ground arith) in
    let sf = IsSized-clear_node n v qs.fwd f in
    let sb = IsSized-clear_node n v qs.bwd b in
    rw
      (
        put-ok qs.fwd.dist v max_u32 (omega (arith, f.dists)),
        put-ok qs.bwd.dist v max_u32 (omega (arith, b.dists)),
        put-ok qs.fwd.pred v no_node (omega (arith, f.preds)),
        put-ok qs.bwd.pred v no_node (omega (arith, b.preds)),
      )
      (Ensures-mono
        (λ r c. (
          IsCleared-node n v rest qs.fwd r.fwd f hv c.0,
          IsCleared-node n v rest qs.bwd r.bwd b hv c.1,
        ))
        (clear-IsCleared n rest (record qs { fwd = clear_node qs.fwd v; bwd = clear_node qs.bwd v })
          sf sb (λ w p. inside w (ground arith))))

-- A cleared half has the arrays of a new one.
new_arrays :
    (n : ℕ) (own other h : Half) (touched : List ℕ)
    → IsTracked n own other touched
    → IsCleared n touched own h
    → (h.dist ≡ replicate n max_u32) × (h.pred ≡ replicate n no_node)
new_arrays n own other h touched t c = (
  eq_of_get! h.dist (replicate n max_u32) (c.sized.dists ∙ sym (length-replicate n max_u32)) (λ i p.
      let hi : i < n = omega (arith, c.sized.dists) in
      let blank = get!-replicate n i max_u32 hi in
      elim (Bool-cases (contains i touched)) [
        | inl hit ↦ (c.done i hi hit).dist ∙ sym blank
        | inr missed ↦ c.kept_dist i hi missed ∙ (t.fresh_own i hi missed).dist ∙ sym blank
      ]),
  eq_of_get! h.pred (replicate n no_node) (c.sized.preds ∙ sym (length-replicate n no_node)) (λ i p.
      let hi : i < n = omega (arith, c.sized.preds) in
      let blank = get!-replicate n i no_node hi in
      elim (Bool-cases (contains i touched)) [
        | inl hit ↦ (c.done i hi hit).pred ∙ sym blank
        | inr missed ↦ c.kept_pred i hi missed ∙ (t.fresh_own i hi missed).pred ∙ sym blank
      ]),
)

-- `Reset` gives back the state that `NewQueryState` makes.
pub reset-new : (n : ℕ) (qs : QueryState) → IsClean n qs → reset qs ≡ ok (new_query_state n)
unfolding reset MinHeap.reset new_query_state
reset-new n qs c =
    let (r, e, (f, b)) =
      Ensures-value (clear-IsCleared n qs.touched qs c.sized_fwd c.sized_bwd c.tracked.inside) in
    let (df, pf) = new_arrays n qs.fwd qs.bwd r.fwd qs.touched c.tracked f in
    let (db, pb) = new_arrays n qs.bwd qs.fwd r.bwd qs.touched (IsTracked-sym c.tracked) b in
    rw e (ground arith)
