-- ===== src/Ch/Overlay/Placed.antt =====
-- `buildCSR`: every row holds the edges of its node, in their order.
use map_router.Base.{
  ℕ, zero, suc, ◌+◌, ◌-◌, ◌≤◌, ◌<◌, ◌≡◌, ◌≢◌, refl, ap, List, [], ◌∷◌, ◌++◌, some, map, arith, ◌==◌,
  if◌then◌else◌, length, get_elem?, set, ℤ, pos,
}
use map_router.Array.{Zeroed, Zeroed-ℕ, get!, get!-set}
use map_router.Graph.Rows.Count.{tally, below, below_mono, AllBelow}
use map_router.Ch.Overlay.{CsrEdge, Csr}

instance abbrev pub Zeroed-ℤ : Zeroed ℤ
Zeroed-ℤ = record { zero_value = pos 0 }

abbrev pub sources : List CsrEdge → List ℕ
sources edges = map (λ e. e.from) edges

-- The edges of a node, in their order.
abbrev pub with_source : ℕ → List CsrEdge → List CsrEdge
with_source u [] = []
with_source u (e ∷ edges) = let rest = with_source u edges in if e.from == u then e ∷ rest else rest

-- Both ends of every edge are nodes.
abbrev pub AllInside : ℕ → List CsrEdge → Type 0
AllInside n [] = Unit
AllInside n (e ∷ edges) = ((e.from < n) × (e.to < n)) × AllInside n edges

pub with_source-append :
    (u : ℕ) (xs ys : List CsrEdge) → with_source u (xs ++ ys) ≡ with_source u xs ++ with_source u ys
with_source-append u [] ys = refl
with_source-append u (e ∷ xs) ys = ground (arith, with_source-append u xs ys)

pub length-with_source :
    (u : ℕ) (edges : List CsrEdge) → length (with_source u edges) ≡ tally u (sources edges)
length-with_source u [] = refl
length-with_source u (e ∷ edges) = ground (arith, length-with_source u edges)

pub length-sources : (edges : List CsrEdge) → length (sources edges) ≡ length edges
length-sources [] = refl
length-sources (e ∷ edges) = ap suc (length-sources edges)

pub AllInside-AllBelow :
    (n : ℕ) (edges : List CsrEdge) → AllInside n edges → AllBelow n (sources edges)
AllInside-AllBelow n [] h = tt
AllInside-AllBelow n (e ∷ edges) (h, hs) = (h.0, AllInside-AllBelow n edges hs)

-- A row ends before a later one begins.
pub below-row : (k u v : ℕ) (us : List ℕ) → u + 1 + k ≡ v → below (u + 1) us ≤ below v us
below-row zero u v us e = let same : u + 1 ≡ v = omega arith in rw same (omega arith)
below-row (suc k) u v us e =
    let back : v - 1 + 1 ≡ v = omega arith in
    omega (arith, below-row k u (v - 1) us (omega arith), rw back at (below_mono (v - 1) us))

module _ {ℓ} {A : Type ℓ} where
  pub get_elem?-concat :
      (xs : List A) (y : A) (r : ℕ) (c : A)
      → get_elem? (xs ++ y ∷ []) r ≡ some c
      → r ≢ length xs
      → get_elem? xs r ≡ some c
  get_elem?-concat [] y zero c e p = absurd (p refl)
  get_elem?-concat [] y (suc r) c e p = cc
  get_elem?-concat (x ∷ xs) y zero c e p = e
  get_elem?-concat (x ∷ xs) y (suc r) c e p = get_elem?-concat xs y r c e (λ same. p (ap suc same))

  pub get_elem?-last :
      (xs : List A) (y c : A) → get_elem? (xs ++ y ∷ []) (length xs) ≡ some c → y ≡ c
  get_elem?-last [] y c e = cc
  get_elem?-last (x ∷ xs) y c e = get_elem?-last xs y c e

  pub get_elem?-inside : (xs : List A) (r : ℕ) (c : A) → get_elem? xs r ≡ some c → r < length xs
  get_elem?-inside [] r c e = cc
  get_elem?-inside (x ∷ xs) zero c e = omega arith
  get_elem?-inside (x ∷ xs) (suc r) c e = omega (arith, get_elem?-inside xs r c e)

-- The entries at `k` are those of an edge.
pub record IsAt (a : Csr) (k : ℕ) (e : CsrEdge) : Type 0 where
  pub head : get! a.head k ≡ e.to
  pub weight : get! a.weight k ≡ e.weight
  pub middle : get! a.middle k ≡ e.middle

-- After `done` of the edges whose sources are `us`: the next free places and the arrays.
pub record IsPlacing (n m : ℕ) (us : List ℕ) (done : List CsrEdge) (next : List ℕ) (a : Csr)
    : Type 0 where
  pub free : length next ≡ n
  pub heads : length a.head ≡ m
  pub weights : length a.weight ≡ m
  pub middles : length a.middle ≡ m
  pub inside : (k : ℕ) → k < m → get! a.head k < n
  pub places : (u : ℕ) → u < n → get! next u ≡ below u us + length (with_source u done)
  pub rows :
      (u r : ℕ) (c : CsrEdge)
      → u < n
      → get_elem? (with_source u done) r ≡ some c
      → IsAt a (below u us + r) c

abbrev pub written : Csr → ℕ → CsrEdge → Csr
written a k e = record {
  head = set a.head k e.to;
  weight = set a.weight k e.weight;
  middle = set a.middle k e.middle;
}

pub written-IsAt :
    (a : Csr) (m k : ℕ) (e : CsrEdge)
    → length a.head ≡ m
    → length a.weight ≡ m
    → length a.middle ≡ m
    → k < m
    → IsAt (written a k e) k e
written-IsAt a m k e h w i p = record {
  head = ground (arith, get!-set a.head k k e.to (omega arith));
  weight = ground (arith, get!-set a.weight k k e.weight (omega arith));
  middle = ground (arith, get!-set a.middle k k e.middle (omega arith));
}

pub written-kept :
    (a : Csr) (m k : ℕ) (e : CsrEdge)
    → length a.head ≡ m
    → length a.weight ≡ m
    → length a.middle ≡ m
    → k < m
    → (j : ℕ) (c : CsrEdge) → k ≢ j
    → IsAt a j c
    → IsAt (written a k e) j c
written-kept a m k e h w i p j c apart at_j = record {
  head = ground (arith, get!-set a.head k j e.to (omega arith), at_j.head);
  weight = ground (arith, get!-set a.weight k j e.weight (omega arith), at_j.weight);
  middle = ground (arith, get!-set a.middle k j e.middle (omega arith), at_j.middle);
}
