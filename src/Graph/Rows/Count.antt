-- ===== src/Graph/Rows/Count.antt =====
-- What the counting yields: row `i` begins after the edges whose source is below `i`.
use map_router.Base.{
  ℕ, zero, suc, ◌+◌, ◌-◌, ◌≤◌, ◌<◌, ◌≡◌, ◌∙◌, refl, List, [], ◌∷◌, arith, ltb, ◌==◌, if◌then◌else◌,
  length, set, replicate, length-set, length-replicate,
}
use map_router.Run.{Ensures, ensures, Ensures-bind, Ensures-mono}
use map_router.Array.{Zeroed-ℕ, get!, at-ok, put-ok, get!-set, get!-replicate}
use map_router.Word.{u32_mod, add32, add32-eq}
use map_router.Graph.Rows.{count_loop, prefix_loop, count_rows}

-- How many of the sources are `i`, and how many are below `i`.
abbrev pub tally : ℕ → List ℕ → ℕ
tally i [] = 0
tally i (u ∷ us) = (if u == i then 1 else 0) + tally i us

abbrev pub below : ℕ → List ℕ → ℕ
below i [] = 0
below i (u ∷ us) = (if ltb u i then 1 else 0) + below i us

-- Every source is a node.
abbrev pub AllBelow : ℕ → List ℕ → Type 0
AllBelow n [] = Unit
AllBelow n (u ∷ us) = (u < n) × AllBelow n us

pub below-suc : (i : ℕ) (us : List ℕ) → below (i + 1) us ≡ below i us + tally i us
below-suc i [] = omega arith
below-suc i (u ∷ us) = ground (arith, below-suc i us)

pub below_zero : (us : List ℕ) → below 0 us ≡ 0
below_zero [] = refl
below_zero (u ∷ us) = ground (arith, below_zero us)

pub below-length : (n : ℕ) (us : List ℕ) → AllBelow n us → below n us ≡ length us
below-length n [] h = refl
below-length n (u ∷ us) (h, hs) = ground (arith, below-length n us hs)

pub below-le : (i : ℕ) (us : List ℕ) → below i us ≤ length us
below-le i [] = omega arith
below-le i (u ∷ us) = ground (arith, below-le i us)

pub below_mono : (i : ℕ) (us : List ℕ) → below i us ≤ below (i + 1) us
below_mono i us = omega (arith, below-suc i us)

pub AllBelow-get! : (n : ℕ) (us : List ℕ) (e : ℕ) → AllBelow n us → e < length us → get! us e < n
unfolding get!
AllBelow-get! n [] e h p = absurd (omega arith)
AllBelow-get! n (u ∷ us) zero (h, hs) p = h
AllBelow-get! n (u ∷ us) (suc e) (h, hs) p = AllBelow-get! n us e hs (omega arith)

abbrev zeros : ℕ → List ℕ
zeros n = replicate n 0

-- The counters after the counting loop.
record IsCounted (n : ℕ) (us before after : List ℕ) : Type 0 where
  size : length after ≡ n + 1
  first : get! after 0 ≡ get! before 0
  counts : (i : ℕ) → i < n → get! after (i + 1) ≡ get! before (i + 1) + tally i us

module _ (n : ℕ) (small : n + 1 < u32_mod) where
  count_loop-IsCounted :
      (us before : List ℕ)
      → AllBelow n us
      → length before ≡ n + 1
      → ((i : ℕ) → i ≤ n → get! before i + length us < u32_mod)
      → Ensures (IsCounted n us before) (count_loop us before)
  unfolding count_loop
  count_loop-IsCounted [] before h e room =
      ensures (record { size = e; first = refl; counts = λ i p. omega arith })
  count_loop-IsCounted (u ∷ us) before (h, hs) e room =
      let slot : add32 u 1 ≡ u + 1 = add32-eq u 1 (omega arith) in
      let more : add32 (get! before (u + 1)) 1 ≡ get! before (u + 1) + 1 =
        add32-eq (get! before (u + 1)) 1 (omega (arith, room (u + 1) (omega arith))) in
      let next : List ℕ = set before (u + 1) (get! before (u + 1) + 1) in
      let entry : (i : ℕ)
          → get! next i ≡ (if u + 1 == i then get! before (u + 1) + 1 else get! before i) =
        λ i. get!-set before (u + 1) i (get! before (u + 1) + 1) (omega arith) in
      let rest : Ensures (IsCounted n us next) (count_loop us next) =
        count_loop-IsCounted us next hs (rw length-set e)
          (λ i p. ground (arith, entry i, room i p)) in
      rw
        (
          slot,
          at-ok before (u + 1) (omega arith),
          more,
          put-ok before (u + 1) (get! before (u + 1) + 1) (omega arith),
        )
        (Ensures-mono
          (λ after c. record {
            size = c.size;
            first = ground (arith, c.first, entry 0);
            counts = λ i p. ground (arith, c.counts i p, entry (i + 1));
          })
          rest)

  -- The prefix sums, from `i` on.
  prefix_loop-below :
      (k i : ℕ) (us before : List ℕ)
      → length us < u32_mod
      → 0 < i
      → i + k ≡ n + 1
      → length before ≡ n + 1
      → ((j : ℕ) → j < i → get! before j ≡ below j us)
      → ((j : ℕ) → i ≤ j → j ≤ n → get! before j ≡ tally (j - 1) us)
      → Ensures
          (λ after. (length after ≡ n + 1) × ((j : ℕ) → j ≤ n → get! after j ≡ below j us))
          (prefix_loop k i before)
  unfolding prefix_loop
  prefix_loop-below zero i us before fits pos e size done todo =
      ensures (size, λ j p. done j (omega arith))
  prefix_loop-below (suc k) i us before fits pos e size done todo =
      let here : get! before i ≡ tally (i - 1) us = todo i (omega arith) (omega arith) in
      let prev : get! before (i - 1) ≡ below (i - 1) us = done (i - 1) (omega arith) in
      let back : i - 1 + 1 ≡ i = omega arith in
      let total : below i us ≡ below (i - 1) us + tally (i - 1) us =
        rw back at (below-suc (i - 1) us) in
      let sum : add32 (get! before i) (get! before (i - 1)) ≡ below i us =
        add32-eq (get! before i) (get! before (i - 1)) (omega (arith, below-le i us))
        ∙ omega arith in
      let entry : (j : ℕ)
          → get! (set before i (below i us)) j ≡ (if i == j then below i us else get! before j) =
        λ j. get!-set before i j (below i us) (omega arith) in
      let rest =
        prefix_loop-below k (i + 1) us (set before i (below i us)) fits (omega arith) (omega arith)
          (rw length-set size) (λ j p. ground (arith, entry j, done j))
          (λ j p q. ground (arith, entry j, todo j (omega arith) q)) in
      rw
        (
          at-ok before i (omega arith),
          at-ok before (i - 1) (omega arith),
          sum,
          put-ok before i (below i us) (omega arith),
        )
        rest

  -- `firstOut[i]` is the number of edges whose source is below `i`.
  pub count_rows-below :
      (us : List ℕ)
      → AllBelow n us
      → length us < u32_mod
      → Ensures
          (λ first_out.
            (length first_out ≡ n + 1) × ((j : ℕ) → j ≤ n → get! first_out j ≡ below j us))
          (count_rows n us)
  unfolding count_rows
  count_rows-below us h fits =
      let width : add32 n 1 ≡ n + 1 = add32-eq n 1 small in
      rw width (
        Ensures-bind
          (count_loop-IsCounted us (zeros (n + 1)) h (length-replicate (n + 1) 0)
            (λ i p. omega (arith, blank i (omega arith))))
          (λ counted c.
            prefix_loop-below n 1 us counted fits (omega arith) (omega arith) c.size
              (λ (j : ℕ) p. first_row counted c j p) (λ j p q. count_at counted c j p q)))
    where
      blank : (i : ℕ) → i < n + 1 → get! (zeros (n + 1)) i ≡ 0
      blank i p = get!-replicate (n + 1) i 0 p

      first_row :
          (counted : List ℕ)
          → IsCounted n us (zeros (n + 1)) counted
          → (j : ℕ) → j < 1
          → get! counted j ≡ below j us
      first_row counted c zero p = omega (arith, c.first, blank 0 (omega arith), below_zero us)
      first_row counted c (suc j) p = absurd (omega arith)

      count_at :
          (counted : List ℕ)
          → IsCounted n us (zeros (n + 1)) counted
          → (j : ℕ) → 1 ≤ j
          → j ≤ n
          → get! counted j ≡ tally (j - 1) us
      count_at counted c j p q =
          let back : j - 1 + 1 ≡ j = omega arith in
          omega (arith, rw back at (c.counts (j - 1) (omega arith)), blank j (omega arith))
