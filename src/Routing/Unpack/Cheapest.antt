-- ===== src/Routing/Unpack/Cheapest.antt =====
-- `findMiddle` picks a cheapest overlay edge of the pair.
use map_router.Base.{
  ℕ, zero, suc, ◌+◌, ◌≤◌, ◌<◌, ◌≡◌, ◌∙◌, ◌⊎◌, inl, inr, refl, true, not, ◌||◌, List, arith, length,
  ltb, ◌==◌, if◌then◌else◌, ℤ, ℕ_discrete,
}
use map_router.Run.{ok, Ensures, ensures, Ensures-mono, Ensures-if, Ensures-bind}
use map_router.Array.{Zeroed, Zeroed-ℕ, get!, at-ok}
use map_router.Routing.Unpack.{Best, scan_edges}

module _ ⦃z : Zeroed ℤ⦄ (head weight : List ℕ) (middle : List ℤ) (target : ℕ) where
  -- No edge to `target` from index `i` up to before `j` is cheaper than the best one, which is one of
  -- them unless it is the one that was there before.
  pub record IsBest (before : Best) (i j : ℕ) (b : Best) : Type 0 where
    pub kept : before.found ≡ true → (b.found ≡ true) × (b.weight ≤ before.weight)
    pub least :
        (e : ℕ)
        → i ≤ e
        → e < j
        → get! head e ≡ target
        → (b.found ≡ true) × (b.weight ≤ get! weight e)
    pub origin :
        (b ≡ before)
        ⊎ (e : ℕ) × (i ≤ e)
          × (e < j)
          × (get! head e ≡ target)
          × (b ≡ record { weight = get! weight e; middle = get! middle e; found = true })

  first_edge :
      (i : ℕ) (best : Best)
      → Ensures (IsBest best i (i + 1)) (
          if get! head i == target
          then if not best.found || ltb (get! weight i) best.weight
            then ok (record { weight = get! weight i; middle = get! middle i; found = true })
            else ok best
          else ok best)
  first_edge i best =
      Ensures-if (get! head i == target)
        (λ hit.
          Ensures-if (not best.found || ltb (get! weight i) best.weight)
            (λ better. ensures (record {
              kept = λ e. (refl, ground arith);
              least = λ e p q r. let same : e ≡ i = omega arith in rw same (refl, omega arith);
              origin = inr (i, omega arith, omega arith, ground arith, refl);
            }))
            (λ worse. ensures (record {
              kept = λ e. (e, omega arith);
              least = λ e p q r. let same : e ≡ i = omega arith in rw same (ground arith);
              origin = inl refl;
            })))
        (λ miss. ensures (record {
          kept = λ e. (e, omega arith);
          least = λ e p q r.
              let same : e ≡ i = omega arith in absurd (let r' = rw same at r in ground arith);
          origin = inl refl;
        }))

  joined :
      (i k : ℕ) (best next : Best)
      → IsBest best i (i + 1) next
      → (b : Best) → IsBest next (i + 1) (i + 1 + k) b
      → IsBest best i (i + suc k) b
  joined i k best next s b t = record {
    kept = λ e. let (f, l) = s.kept e in let (f', l') = t.kept f in (f', omega arith);
    least = λ e p q r. elim (ℕ_discrete e i) [
      | yes same ↦
          let (f, l) = s.least e p (omega arith) r in let (f', l') = t.kept f in (f', omega arith)
      | no other ↦ t.least e (omega arith) (omega arith) r
    ];
    origin = elim t.origin [
      | inl same ↦ elim s.origin [
        | inl same' ↦ inl (same ∙ same')
        | inr (e, p, q, r, x) ↦ inr (e, p, omega arith, r, same ∙ x)
      ]
      | inr (e, p, q, r, x) ↦ inr (e, omega arith, omega arith, r, x)
    ];
  }

  -- On arrays of one length that the range does not pass, the scan of `findMiddle` ends; no edge to
  -- `target` in the range is cheaper than the best one that it ends with, nor is the one before; and
  -- that is the one before or an edge to `target` in the range, with its weight and its middle.
  pub scan_edges-IsBest :
      (k i : ℕ) (best : Best)
      → i + k ≤ length head
      → length weight ≡ length head
      → length middle ≡ length head
      → Ensures (IsBest best i (i + k)) (scan_edges k head weight middle target i best)
  unfolding scan_edges
  scan_edges-IsBest zero i best h hw hm = ensures (record {
    kept = λ e. (e, omega arith);
    least = λ e p q. absurd (omega arith);
    origin = inl refl;
  })
  scan_edges-IsBest (suc k) i best h hw hm =
      rw (at-ok head i (omega arith), at-ok weight i (omega arith), at-ok middle i (omega arith))
        (Ensures-bind (first_edge i best) λ next s.
          Ensures-mono (joined i k best next s)
            (scan_edges-IsBest k (i + 1) next (omega arith) hw hm))
