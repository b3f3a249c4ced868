-- ===== src/Routing/Seed/Seeded.antt =====
-- What seeding a query does: the labels become the least seeds of the candidates.
use map_router.Base.{
  ℕ, ◌+◌, ◌≤◌, ◌<◌, ◌≡◌, ◌⊎◌, inl, inr, refl, ◌∙◌, true, false, arith, ltb, ◌==◌, if◌then◌else◌,
  length, List, ℕ_discrete, Bool-cases,
}
use map_router.Run.{ok, ◌>>=◌, Ensures, ensures, Ensures-bind, Ensures-mono, Ensures-if}
use map_router.Array.{Zeroed-ℕ, get! }
use map_router.Graph.Csr.Valid.{IsCsr}
use map_router.Routing.MinHeap.{max_u32}
use map_router.Routing.QueryState.{QueryState, no_node}
use map_router.Routing.QueryState.Reset.{IsClean}
use map_router.Routing.Search.Relax.{label}
use map_router.Routing.Search.Walks.{IsSeeded}
use map_router.Routing.Unpack.{find_edge}
use map_router.Routing.Unpack.Find.{IsFound, absent, present, find_edge-IsFound}
use map_router.Routing.Seed.Step.{Seeding, IsSeeding, IsLowered}

-- A family of seeds: `S v d` says that `d` is a seed of node `v`. The state `r` is `qs` with every
-- seed taken in, and with nothing else.
pub record TakesIn (x : Seeding) (n : ℕ) (qs : QueryState) (S : ℕ → ℕ → Type 0) (r : QueryState)
    : Type 0 where
  pub clean : IsClean n r
  pub seeded : IsSeeded n (x.own r)
  pub other_kept : x.other r ≡ x.other qs
  pub lower : (v : ℕ) → label (x.own r) v ≤ label (x.own qs) v
  pub least : (v d : ℕ) → S v d → label (x.own r) v ≤ d
  pub from : (v : ℕ) → (label (x.own r) v ≡ label (x.own qs) v) ⊎ S v (label (x.own r) v)

module _ (x : Seeding) (n : ℕ) where
  pub TakesIn-none :
      (qs : QueryState) (S : ℕ → ℕ → Type 0)
      → IsClean n qs
      → IsSeeded n (x.own qs)
      → ((v d : ℕ) → ¬ S v d)
      → TakesIn x n qs S qs
  TakesIn-none qs S c s none = record {
    clean = c;
    seeded = s;
    other_kept = refl;
    lower = λ v. omega arith;
    least = λ v d h. absurd (none v d h);
    from = λ v. inl refl;
  }

  pub TakesIn-then :
      {S T U : ℕ → ℕ → Type 0} {qs a r : QueryState}
      → ((v d : ℕ) → S v d → U v d)
      → ((v d : ℕ) → T v d → U v d)
      → ((v d : ℕ) → U v d → S v d ⊎ T v d)
      → TakesIn x n qs S a
      → TakesIn x n a T r
      → TakesIn x n qs U r
  TakesIn-then {qs = qs} {a} {r} left right cases p q = record {
    clean = q.clean;
    seeded = q.seeded;
    other_kept = q.other_kept ∙ p.other_kept;
    lower = λ v. omega (arith, p.lower v, q.lower v);
    least = λ v d h. elim (cases v d h) [
      | inl s ↦ omega (arith, p.least v d s, q.lower v)
      | inr t ↦ q.least v d t
    ];
    from = λ v. elim (q.from v) [
      | inr t ↦ inr (right v _ t)
      | inl kept ↦ elim (p.from v) [
        | inl same ↦ inl (kept ∙ same)
        | inr s ↦ inr (rw kept (left v _ s))
      ]
    ];
  }

  IsLowered-TakesIn :
      (qs r : QueryState) (v d : ℕ)
      → IsLowered x n qs v d r
      → TakesIn x n qs (λ w e. (v ≡ w) × (d ≡ e)) r
  IsLowered-TakesIn qs r v d l = record {
    clean = l.clean;
    seeded = l.seeded;
    other_kept = l.other_kept;
    lower = λ w. elim (ℕ_discrete v w) [
      | yes same ↦ rw (← same) (ground (arith, l.labels v))
      | no apart ↦ ground (arith, l.labels w)
    ];
    least = λ w e (same, de). rw (← same) (ground (arith, l.labels v));
    from = λ w. elim (ℕ_discrete v w) [
      | no apart ↦ inl (ground (arith, l.labels w))
      | yes same ↦ rw (← same) (elim (Bool-cases (ltb d (label (x.own qs) v))) [
        | inl less ↦ inr (refl, ground (arith, l.labels v))
        | inr kept ↦ inl (ground (arith, l.labels v))
      ])
    ];
  }

  TakesIn-iff :
      {S T : ℕ → ℕ → Type 0} {qs r : QueryState}
      → ((v d : ℕ) → S v d → T v d)
      → ((v d : ℕ) → T v d → S v d)
      → TakesIn x n qs S r
      → TakesIn x n qs T r
  TakesIn-iff to back p = record {
    clean = p.clean;
    seeded = p.seeded;
    other_kept = p.other_kept;
    lower = p.lower;
    least = λ v d h. p.least v d (back v d h);
    from = λ v. elim (p.from v) [ inl same ↦ inl same | inr s ↦ inr (to v _ s) ];
  }

-- There is an edge from `source` to `target`.
abbrev pub HasEdge : List ℕ → List ℕ → ℕ → ℕ → Type 0
HasEdge first_out head source target =
    (e : ℕ) × (get! first_out source ≤ e)
    × (e < get! first_out (source + 1))
    × (get! head e ≡ target)

-- A seed at `a`, and one at `b` that needs an edge.
abbrev pub PairSeed : Type 0 → ℕ → ℕ → ℕ → ℕ → ℕ → ℕ → Type 0
PairSeed needed a da b db v d = ((a ≡ v) × (da ≡ d)) ⊎ (((b ≡ v) × (db ≡ d)) × needed)

module _ (x : Seeding) (law : IsSeeding x) (n : ℕ) {first_out head : List ℕ}
    (csr : IsCsr first_out head n) (small : length head ≤ no_node) where
  pub pair-TakesIn :
      (qs : QueryState) (a da b db source target : ℕ)
      → IsClean n qs
      → IsSeeded n (x.own qs)
      → (a < n) × (da < max_u32)
      → (b < n) × (db < max_u32)
      → source < n
      → Ensures (TakesIn x n qs (PairSeed (HasEdge first_out head source target) a da b db)) (
          x.seed qs a da >>= λ ahead. find_edge first_out head source target >>= λ back.
          if back == no_node then ok ahead else x.seed ahead b db)
  pair-TakesIn qs a da b db source target c s (ia, fa) (ib, fb) inside =
      Ensures-bind (law n qs a da c s ia fa) λ ahead l.
        Ensures-bind (find_edge-IsFound csr source target inside small) λ back f.
          let first = IsLowered-TakesIn x n qs ahead a da l in
          Ensures-if (back == no_node)
            (λ missing.
              ensures
                (TakesIn-iff x n (λ v d h. inl h) (λ v d h. one h (no_edge back f missing)) first))
            (λ there.
              Ensures-mono
                (λ r m.
                  let second = IsLowered-TakesIn x n ahead r b db m in
                  TakesIn-then x n (λ v d h. inl h) (λ v d h. inr (h, edge back f there))
                    (λ v d h. both h) first second)
                (law n ahead b db l.clean l.seeded ib fb))
    where
      one :
          {v d : ℕ}
          → PairSeed (HasEdge first_out head source target) a da b db v d
          → ¬ HasEdge first_out head source target
          → (a ≡ v) × (da ≡ d)
      one (inl h) none = h
      one (inr (h, e)) none = absurd (none e)

      both :
          {v d : ℕ}
          → PairSeed (HasEdge first_out head source target) a da b db v d
          → ((a ≡ v) × (da ≡ d)) ⊎ ((b ≡ v) × (db ≡ d))
      both (inl h) = inl h
      both (inr (h, e)) = inr h

      no_edge :
          (back : ℕ)
          → IsFound head target (get! first_out source) (get! first_out (source + 1)) back
          → (back == no_node) ≡ true
          → ¬ HasEdge first_out head source target
      no_edge back (absent none h) e (i, lo, hi, same) = h i lo hi same
      no_edge back (present some lo hi same) e edge = absurd (some (ground arith))

      edge :
          (back : ℕ)
          → IsFound head target (get! first_out source) (get! first_out (source + 1)) back
          → (back == no_node) ≡ false
          → HasEdge first_out head source target
      edge back (absent none h) e = absurd (ground arith)
      edge back (present some lo hi same) e = (back, lo, hi, same)
