-- ===== src/Routing/Snap/Grid/Range.antt =====
-- `cellRange` against a linear scan of the sorted entries.
use map_router.Base.{
  ℕ, zero, suc, ◌+◌, ◌-◌, ◌≤◌, ◌<◌, ◌≡◌, ◌≢◌, refl, sym, ◌∙◌, ap, Bool, true, false, not, ◌||◌,
  List, [], ◌∷◌, map, arith, ltb, leb, ◌==◌, if◌then◌else◌, if-holds, length, take, drop,
  ℕ_discrete, dec_lt, le_of_leb, lt_of_leb, Bool-cases, inl, inr,
}
use map_router.Array.{Zeroed-ℕ, get! }
use map_router.Sort.{IsOrdered}
use map_router.Graph.Rows.Count.{below, below-le, below-suc}
use map_router.Graph.Rows.Sorted.{IsAscending, IsAscending-rest, below-none, below-upto, below-past}
use map_router.Routing.Snap.Grid.{CellEdge, Zeroed-CellEdge, key_less, SearchSlice, cell_range}

-- The entries of a cell.
abbrev pub with_key : ℕ → List CellEdge → List CellEdge
with_key key [] = []
with_key key (c ∷ edges) = let rest = with_key key edges in if c.key == key then c ∷ rest else rest

abbrev keys : List CellEdge → List ℕ
keys edges = map (λ c. c.key) edges

length-keys : (edges : List CellEdge) → length (keys edges) ≡ length edges
length-keys [] = refl
length-keys (c ∷ edges) = ap suc (length-keys edges)

get!-keys : (edges : List CellEdge) (i : ℕ) → get! (keys edges) i ≡ (get! edges i).key
unfolding get!
get!-keys [] i = refl
get!-keys (c ∷ edges) zero = refl
get!-keys (c ∷ edges) (suc i) = get!-keys edges i

keys-IsAscending : (edges : List CellEdge) → IsOrdered key_less edges → IsAscending (keys edges)
keys-IsAscending [] o = tt
keys-IsAscending (c ∷ []) o = tt
keys-IsAscending (c ∷ d ∷ rest) (o, os) = (ground arith, keys-IsAscending (d ∷ rest) os)

-- In ascending order the entries of a cell stand together.
with_key-take :
    (key : ℕ) (edges : List CellEdge) (lo len : ℕ)
    → IsAscending (keys edges)
    → below key (keys edges) ≡ lo
    → below (key + 1) (keys edges) ≡ lo + len
    → with_key key edges ≡ take len (drop lo edges)
with_key-take key [] zero zero a p q = refl
with_key-take key [] zero (suc len) a p q = refl
with_key-take key [] (suc lo) zero a p q = refl
with_key-take key [] (suc lo) (suc len) a p q = refl
with_key-take key (c ∷ edges) (suc lo) len a p q = elim (dec_lt c.key key) [
  | yes less ↦
      ground (arith, with_key-take key edges lo len (IsAscending-rest c.key (keys edges) a))
  | no more ↦ absurd (omega (arith, below-none key c.key (keys edges) a (omega arith)))
]
with_key-take key (c ∷ edges) zero zero a p q = elim (dec_lt key c.key) [
  | yes past ↦ ground (arith, with_key-take key edges 0 0 (IsAscending-rest c.key (keys edges) a))
  | no upto ↦ absurd (ground arith)
]
with_key-take key (c ∷ edges) zero (suc len) a p q = elim (ℕ_discrete c.key key) [
  | yes same ↦
      let rest =
        with_key-take key edges 0 len (IsAscending-rest c.key (keys edges) a) (ground arith)
          (ground arith) in
      let hit : (c.key == key) ≡ true = ground arith in rw hit (ap (◌∷◌ c) rest)
  | no apart ↦ absurd (elim (dec_lt key c.key) [
    | yes past ↦ omega (arith, below-none (key + 1) c.key (keys edges) a (omega arith))
    | no upto ↦ ground arith
  ])
]

module _ (edges : List CellEdge) (bound : ℕ) (a : IsAscending (keys edges)) where
  abbrev first : ℕ
  first = below bound (keys edges)

  before-first : (j : ℕ) → j < length edges → (get! edges j).key < bound → j < first
  before-first j p q =
      below-past bound (keys edges) j a (omega (arith, length-keys edges))
        (rw (get!-keys edges j) q)

  from-first : (i : ℕ) → i < length edges → bound ≤ (get! edges i).key → first ≤ i
  from-first i p q =
      below-upto bound (keys edges) i a (omega (arith, length-keys edges))
        (rw (get!-keys edges i) q)

  -- What `sort.Search` finds for a bound on the keys.
  search-below :
      (find : SearchSlice) (test : ℕ → Bool)
      → ((i : ℕ) → test i ≡ leb bound (get! edges i).key)
      → find.search (length edges) test ≡ first
  search-below find test same =
      let (inside, fails, passes) = find.least (length edges) test mono in
      let r = find.search (length edges) test in
      elim (dec_lt r first) [
        | yes early ↦
            let room : r < length edges =
              omega (arith, below-le bound (keys edges), length-keys edges) in
            let ok_r : leb bound (get! edges r).key ≡ true = sym (same r) ∙ passes room in
            absurd (omega (arith, from-first r room (le_of_leb _ _ ok_r)))
        | no not_early ↦ elim (dec_lt first r) [
          | yes late ↦
              let bad : leb bound (get! edges first).key ≡ false =
                sym (same first) ∙ fails first late in
              absurd (omega (arith, before-first first (omega arith) (lt_of_leb _ _ bad)))
          | no not_late ↦ omega arith
        ]
      ]
    where
      mono : (i j : ℕ) → i ≤ j → j < length edges → test i ≡ true → test j ≡ true
      mono i j p q t =
          let low : bound ≤ (get! edges i).key = le_of_leb _ _ (sym (same i) ∙ t) in
          elim (Bool-cases (test j)) [
            | inl yes_j ↦ yes_j
            | inr no_j ↦
                let high : (get! edges j).key < bound = lt_of_leb _ _ (sym (same j) ∙ no_j) in
                absurd (omega (arith, from-first i (omega arith) low, before-first j q high))
          ]

-- No entry stands between the bounds where `cellRange` returns early.
no_entry :
    (key : ℕ) (edges : List CellEdge)
    → IsAscending (keys edges)
    → leb (length edges) (below key (keys edges))
        || not ((get! edges (below key (keys edges))).key == key)
      ≡ true
    → below (key + 1) (keys edges) ≤ below key (keys edges)
no_entry key edges a none =
    let lo = below key (keys edges) in
    elim (dec_lt lo (length edges)) [
      | no past ↦ omega (arith, below-le (key + 1) (keys edges), length-keys edges)
      | yes inside ↦
          let other : (get! edges lo).key ≢ key = λ same. absurd (ground arith) in
          elim (dec_lt (get! edges lo).key key) [
            | yes low ↦ absurd (omega (arith, before-first edges key a lo inside low))
            | no high ↦ from-first edges (key + 1) a lo inside (omega arith)
          ]
    ]

-- On entries in the order of their keys, the two binary searches of `cellRange` find exactly the
-- entries that a scan for the key finds.
pub cell_range-with_key :
    (find : SearchSlice) (edges : List CellEdge) (key : ℕ)
    → IsOrdered key_less edges
    → cell_range find edges key ≡ with_key key edges
unfolding cell_range
cell_range-with_key find edges key o =
    let a = keys-IsAscending edges o in
    let lo = below key (keys edges) in
    let hi = below (key + 1) (keys edges) in
    let size = below-suc key (keys edges) in
    let scan = with_key-take key edges lo (hi - lo) a refl (omega arith) in
    rw
      (
        search-below edges key a find (λ i. leb key (get! edges i).key) (λ i. refl),
        search-below edges (key + 1) a find (λ i. ltb key (get! edges i).key)
            (λ i. strict key (get! edges i).key),
      )
      (if-holds (λ cells. cells ≡ with_key key edges)
        (leb (length edges) lo || not ((get! edges lo).key == key))
        (λ none.
          sym
            (with_key-take key edges lo 0 a refl (omega (arith, size, no_entry key edges a none))))
        (λ some. sym scan))
  where
    strict : (x y : ℕ) → ltb x y ≡ leb (x + 1) y
    strict x y = ground arith
