-- ===== src/Graph/Csr/Valid.antt =====
-- `validateCSR` accepts exactly the CSR arrays over the given number of nodes.
use map_router.Base.{
  ℕ, zero, suc, ◌+◌, ◌-◌, ◌%◌, ◌≤◌, ◌<◌, ◌≡◌, ◌↔◌, refl, Bool, true, false, List, [], ◌∷◌, arith,
  ltb, ◌==◌, length, ℕ_discrete, if◌then◌else◌, ltb_of_le,
}
use map_router.Array.{Zeroed-ℕ, get! }
use map_router.Word.{u32_mod, add32}
use map_router.Load.{
  LoadError, not_monotonic, first_out_length, head_length, loaded, failed, require, >>=-eq-loaded,
}
use map_router.Graph.Csr.{fetch, monotonic, heads_in_range, validate_csr}

-- Arrays in CSR form for `n` nodes.
pub record IsCsr (first_out head : List ℕ) (n : ℕ) : Type 0 where
  pub firsts : length first_out ≡ n + 1
  pub last : get! first_out n ≡ length head
  pub ordered : (i : ℕ) → i < n → get! first_out i ≤ get! first_out (i + 1)
  pub heads : (e : ℕ) → e < length head → get! head e < n

pub fetch-loaded : (a : List ℕ) (i : ℕ) → i < length a → fetch a i ≡ loaded (get! a i)
unfolding fetch get!
fetch-loaded [] i h = absurd (omega arith)
fetch-loaded (x ∷ a) zero h = refl
fetch-loaded (x ∷ a) (suc i) h = fetch-loaded a i (omega arith)

monotonic-ordered :
    (k : ℕ) (a : List ℕ) (i j : ℕ)
    → 0 < i
    → i + k ≤ length a
    → monotonic k a i ≡ loaded tt
    → i ≤ j
    → j < i + k
    → get! a (j - 1) ≤ get! a j
unfolding monotonic
monotonic-ordered zero a i j pos fits e p q = absurd (omega arith)
monotonic-ordered (suc k) a i j pos fits e p q =
    let (kept, rest) =
      step (rw (fetch-loaded a i (omega arith), fetch-loaded a (i - 1) (omega arith)) at e) in
    elim (ℕ_discrete i j) [
      | yes same ↦ rw (← same) kept
      | no later ↦
          monotonic-ordered k a (i + 1) j (omega arith) (omega arith) rest (omega arith)
            (omega arith)
    ]
  where
    step :
        (if ltb (get! a i) (get! a (i - 1))
            then failed (not_monotonic i)
            else monotonic k a (i + 1))
          ≡ loaded tt
        → (get! a (i - 1) ≤ get! a i) × (monotonic k a (i + 1) ≡ loaded tt)
    step h = ground arith

monotonic-loaded :
    (k : ℕ) (a : List ℕ) (i : ℕ)
    → 0 < i
    → i + k ≤ length a
    → ((j : ℕ) → i ≤ j → j < i + k → get! a (j - 1) ≤ get! a j)
    → monotonic k a i ≡ loaded tt
unfolding monotonic
monotonic-loaded zero a i pos fits h = refl
monotonic-loaded (suc k) a i pos fits h = rw (
  fetch-loaded a i (omega arith),
  fetch-loaded a (i - 1) (omega arith),
  ltb_of_le (get! a i) (get! a (i - 1)) (h i (omega arith) (omega arith)),
  monotonic-loaded k a (i + 1) (omega arith) (omega arith)
      (λ j p q. h j (omega arith) (omega arith)),
)

heads_in_range-lt :
    (hs : List ℕ) (i n e : ℕ) → heads_in_range i hs n ≡ loaded tt → e < length hs → get! hs e < n
unfolding heads_in_range get!
heads_in_range-lt [] i n e h p = absurd (omega arith)
heads_in_range-lt (x ∷ hs) i n zero h p = ground arith
heads_in_range-lt (x ∷ hs) i n (suc e) h p = ground (arith, heads_in_range-lt hs (i + 1) n e)

heads_in_range-loaded :
    (hs : List ℕ) (i n : ℕ)
    → ((e : ℕ) → e < length hs → get! hs e < n)
    → heads_in_range i hs n ≡ loaded tt
unfolding heads_in_range get!
heads_in_range-loaded [] i n h = refl
heads_in_range-loaded (x ∷ hs) i n h =
    let first : x < n = h 0 (omega arith) in
    ground (arith, heads_in_range-loaded hs (i + 1) n (λ e p. h (suc e) (omega arith)))

pub require-eq : (b : Bool) (e : LoadError) → require b e ≡ loaded tt → b ≡ true
require-eq true e h = refl
require-eq false e h = cc

module _ (first_out head : List ℕ) (n : ℕ) (small : n + 1 < u32_mod)
    (fits : length first_out < u32_mod) (fits' : length head < u32_mod) where
  -- `validateCSR` accepts arrays exactly if they are in CSR form.
  pub validate_csr-IsCsr : (validate_csr first_out head n ≡ loaded tt) ↔ IsCsr first_out head n
  unfolding validate_csr add32
  validate_csr-IsCsr = (accepted, accepts)
    where
      accepted : validate_csr first_out head n ≡ loaded tt → IsCsr first_out head n
      accepted h =
          let (u1, sizes, h1) =
            >>=-eq-loaded (require (length first_out % u32_mod == add32 n 1) first_out_length) _
              h in
          let size : length first_out ≡ n + 1 = let b = require-eq _ _ sizes in ground arith in
          let (m, fetched, h2) = >>=-eq-loaded (fetch first_out n) _ h1 in
          let last : m ≡ get! first_out n = let f = fetch-loaded first_out n (omega arith) in cc in
          let (u2, lasts, h3) =
            >>=-eq-loaded (require (length head % u32_mod == m) head_length) _ h2 in
          let count : length head ≡ m = let b = require-eq _ _ lasts in ground arith in
          let (u3, mono, h4) = >>=-eq-loaded (monotonic n first_out 1) _ h3 in
          record {
            firsts = size;
            last = omega arith;
            ordered = λ i p.
                let back : i + 1 - 1 ≡ i = omega arith in
                rw back at (
                  monotonic-ordered n first_out 1 (i + 1) (omega arith) (omega arith) mono
                    (omega arith) (omega arith));
            heads = λ e p. heads_in_range-lt head 0 n e h4 p;
          }

      accepts : IsCsr first_out head n → validate_csr first_out head n ≡ loaded tt
      accepts c =
          let sizes : (length first_out % u32_mod == add32 n 1) ≡ true = ground (arith, c.firsts) in
          let lasts : (length head % u32_mod == get! first_out n) ≡ true = ground (arith, c.last) in
          rw (
            sizes,
            fetch-loaded first_out n (omega (arith, c.firsts)),
            lasts,
            monotonic-loaded n first_out 1 (omega arith) (omega (arith, c.firsts)) (λ j p q.
                let back : j - 1 + 1 ≡ j = omega arith in
                rw back at (c.ordered (j - 1) (omega arith))),
            heads_in_range-loaded head 0 n c.heads,
          )
