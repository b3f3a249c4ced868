-- ===== src/Routing/Snap/Nearest/Reach.antt =====
-- The candidates that `SnapCandidates` collects.
use map_router.Base.{
  ℕ, ◌≡◌, ◌⊎◌, inl, inr, ◌↔◌, refl, sym, ◌∙◌, Bool, true, false, List, [], ◌∷◌, ◌++◌, arith,
  if◌then◌else◌, ◌==◌, ==-refl, In, here, there, In-left, In-right, In-append, In-one,
}
use map_router.Run.{Run, ok, panic, out_of_fuel, ◌>>=◌}
use map_router.Float.{Float}
use map_router.Sort.{IsOrdered}
use map_router.Routing.Snap.{SnapResult}
use map_router.Routing.Snap.Grid.{SearchSlice, CellEdge, Snapper, key_less, cell_range, grid_cell}
use map_router.Routing.Snap.Grid.Range.{with_key, cell_range-with_key}
use map_router.Routing.Snap.Nearest.{snap_to, collect_cell, collect, ring_keys, ring_span}
use map_router.Routing.Snap.Nearest.Ring.{InRing, ring_keys-InRing}

bind-ok :
    {A B : Type 0} (m : Run A) (k : A → Run B) (b : B)
    → (m >>= k) ≡ ok b
    → (a : A) × (m ≡ ok a) × (k a ≡ ok b)
bind-ok (ok a) k b e = (a, refl, e)
bind-ok panic k b e = cc
bind-ok out_of_fuel k b e = cc

-- An entry of a cell.
module _ (key : ℕ) (c : CellEdge) where
  with_key-keeps :
      (b : Bool) (d : CellEdge) (rest edges : List CellEdge)
      → (d.key == key) ≡ b
      → (In c rest → In c edges × (c.key ≡ key))
      → In c (if b then d ∷ rest else rest)
      → In c (d ∷ edges) × (c.key ≡ key)
  with_key-keeps true d rest edges e from here = (here, ground arith)
  with_key-keeps true d rest edges e from (there p) = let (q, k) = from p in (there q, k)
  with_key-keeps false d rest edges e from p = let (q, k) = from p in (there q, k)

  with_key-from : (edges : List CellEdge) → In c (with_key key edges) → In c edges × (c.key ≡ key)
  with_key-from [] p = elim p [ ]
  with_key-from (d ∷ edges) p =
      with_key-keeps (d.key == key) d (with_key key edges) edges refl (with_key-from edges) p

  with_key-later :
      (b : Bool) (d : CellEdge) (rest : List CellEdge)
      → In c rest
      → In c (if b then d ∷ rest else rest)
  with_key-later true d rest p = there p
  with_key-later false d rest p = p

  with_key-to : (edges : List CellEdge) → In c edges → c.key ≡ key → In c (with_key key edges)
  with_key-to [] p e = elim p [ ]
  with_key-to (d ∷ edges) here e = rw (e, ==-refl key) here
  with_key-to (d ∷ edges) (there p) e =
      with_key-later (d.key == key) d (with_key key edges) (with_key-to edges p e)

module _ (f : Float) (s : Snapper f) (lat lng radius : f.F) where
  -- The candidate that one of the entries yields, within the radius.
  pub record IsFrom (cells : List CellEdge) (r : SnapResult f) : Type 0 where
    pub entry : CellEdge
    pub listed : In entry cells
    pub snapped : snap_to f s lat lng entry ≡ ok r
    pub near : f.le r.dist radius ≡ true

  IsFrom-there :
      {c : CellEdge} {cells : List CellEdge} {r : SnapResult f}
      → IsFrom cells r
      → IsFrom (c ∷ cells) r
  IsFrom-there i = record {
    entry = i.entry;
    listed = there i.listed;
    snapped = i.snapped;
    near = i.near;
  }

  added : List (SnapResult f) → SnapResult f → List (SnapResult f)
  added all r = if f.le r.dist radius then all ++ r ∷ [] else all

  added-from :
      (all : List (SnapResult f)) (q r : SnapResult f)
      → In r (added all q)
      → In r all ⊎ ((r ≡ q) × (f.le q.dist radius ≡ true))
  unfolding added
  added-from all q r p = by_test (f.le q.dist radius) refl p
    where
      by_test :
          (b : Bool)
          → f.le q.dist radius ≡ b
          → In r (if b then all ++ q ∷ [] else all)
          → In r all ⊎ ((r ≡ q) × (f.le q.dist radius ≡ true))
      by_test true e p = elim (In-append all (q ∷ []) p) [
        | inl old ↦ inl old
        | inr new ↦ inr (In-one new, e)
      ]
      by_test false e p = inl p

  added-old : (all : List (SnapResult f)) (q r : SnapResult f) → In r all → In r (added all q)
  unfolding added
  added-old all q r p = by_test (f.le q.dist radius)
    where
      by_test : (b : Bool) → In r (if b then all ++ q ∷ [] else all)
      by_test true = In-left _ p
      by_test false = p

  added-new :
      (all : List (SnapResult f)) (r : SnapResult f)
      → f.le r.dist radius ≡ true
      → In r (added all r)
  unfolding added
  added-new all r near = rw near (In-right all here)

  collect_cell-IsFrom :
      (cells : List CellEdge) (all out : List (SnapResult f))
      → collect_cell f s lat lng radius cells all ≡ ok out
      → (r : SnapResult f) → In r out ↔ (In r all ⊎ IsFrom cells r)
  unfolding collect_cell added
  collect_cell-IsFrom [] all out e r =
      let same : all ≡ out = cc in
      (λ p. inl (rw same p), λ q. elim q [ inl p ↦ rw (← same) p | inr i ↦ elim i.listed [ ] ])
  collect_cell-IsFrom (c ∷ cells) all out e r =
      let (q, snapped, rest) = bind-ok (snap_to f s lat lng c) _ out e in
      let (from, to) = collect_cell-IsFrom cells (added all q) out rest r in
      (
        λ p. elim (from p) [
          | inl p ↦ elim (added-from all q r p) [
            | inl old ↦ inl old
            | inr (same, near) ↦ inr (record {
              entry = c;
              listed = here;
              snapped = rw same snapped;
              near = rw same near;
            })
          ]
          | inr i ↦ inr (IsFrom-there i)
        ],
        λ p. elim p [
          | inl old ↦ to (inl (added-old all q r old))
          | inr i ↦ first q to snapped i.entry i.listed i.snapped i.near
        ],
      )
    where
      first :
          (q : SnapResult f)
          → (In r (added all q) ⊎ IsFrom cells r → In r out)
          → snap_to f s lat lng c ≡ ok q
          → (d : CellEdge) → In d (c ∷ cells)
          → snap_to f s lat lng d ≡ ok r
          → f.le r.dist radius ≡ true
          → In r out
      first q to snapped d here e2 near =
          let same : q ≡ r = let both = sym snapped ∙ e2 in cc in
          to (inl (rw same (added-new all r near)))
      first q to snapped d (there p) e2 near =
          to (inr (record { entry = d; listed = p; snapped = e2; near = near }))

  -- A candidate that an entry of a cell in the ring yields, within the radius.
  pub record IsReached (r : SnapResult f) : Type 0 where
    pub entry : CellEdge
    pub listed : In entry s.edges
    pub ring : InRing (grid_cell f lat) (grid_cell f lng) (ring_span f radius) entry.key
    pub snapped : snap_to f s lat lng entry ≡ ok r
    pub near : f.le r.dist radius ≡ true

  -- The same for a list of keys.
  record IsFromKeys (keys : List ℕ) (r : SnapResult f) : Type 0 where
    entry : CellEdge
    listed : In entry s.edges
    key : In entry.key keys
    snapped : snap_to f s lat lng entry ≡ ok r
    near : f.le r.dist radius ≡ true

  cell-IsFromKeys :
      (k : ℕ) (keys : List ℕ) (r : SnapResult f)
      → IsFrom (with_key k s.edges) r
      → IsFromKeys (k ∷ keys) r
  cell-IsFromKeys k keys r i =
      let (q, e) = with_key-from k i.entry s.edges i.listed in
      record { entry = i.entry; listed = q; key = rw e here; snapped = i.snapped; near = i.near }

  IsFromKeys-there :
      {k : ℕ} {keys : List ℕ} {r : SnapResult f} → IsFromKeys keys r → IsFromKeys (k ∷ keys) r
  IsFromKeys-there i = record {
    entry = i.entry;
    listed = i.listed;
    key = there i.key;
    snapped = i.snapped;
    near = i.near;
  }

  IsFromKeys-cases :
      (k : ℕ) (keys : List ℕ) (r : SnapResult f)
      → IsFromKeys (k ∷ keys) r
      → IsFrom (with_key k s.edges) r ⊎ IsFromKeys keys r
  IsFromKeys-cases k keys r i = by_key i.entry.key refl i.key
    where
      by_key :
          (j : ℕ)
          → i.entry.key ≡ j
          → In j (k ∷ keys)
          → IsFrom (with_key k s.edges) r ⊎ IsFromKeys keys r
      by_key j e here = inl (record {
        entry = i.entry;
        listed = with_key-to k i.entry s.edges i.listed e;
        snapped = i.snapped;
        near = i.near;
      })
      by_key j e (there p) = inr (record {
        entry = i.entry;
        listed = i.listed;
        key = rw e p;
        snapped = i.snapped;
        near = i.near;
      })

  module _ (find : SearchSlice) (ordered : IsOrdered key_less s.edges) where
    collect-IsFromKeys :
        (keys : List ℕ) (all out : List (SnapResult f))
        → collect f find s lat lng radius keys all ≡ ok out
        → (r : SnapResult f) → In r out ↔ (In r all ⊎ IsFromKeys keys r)
    unfolding collect
    collect-IsFromKeys [] all out e r =
        let same : all ≡ out = cc in
        (λ p. inl (rw same p), λ q. elim q [ inl p ↦ rw (← same) p | inr i ↦ elim i.key [ ] ])
    collect-IsFromKeys (k ∷ keys) all out e r =
        let (more, gathered, rest) =
          bind-ok (collect_cell f s lat lng radius (cell_range find s.edges k) all) _ out e in
        let (from, to) = collect-IsFromKeys keys more out rest r in
        let (from_cell, to_cell) =
          collect_cell-IsFrom (with_key k s.edges) all more
            (rw (cell_range-with_key find s.edges k ordered) at gathered) r in
        (
          λ p. elim (from p) [
            | inl p ↦ elim (from_cell p) [
              | inl old ↦ inl old
              | inr i ↦ inr (cell-IsFromKeys k keys r i)
            ]
            | inr i ↦ inr (IsFromKeys-there i)
          ],
          λ p. elim p [
            | inl old ↦ to (inl (to_cell (inl old)))
            | inr i ↦ elim (IsFromKeys-cases k keys r i) [
              | inl i ↦ to (inl (to_cell (inr i)))
              | inr i ↦ to (inr i)
            ]
          ],
        )

    -- The code collects the candidates of the ring.
    pub collect-IsReached :
        (all : List (SnapResult f))
        → collect f find s lat lng radius
            (ring_keys (grid_cell f lat) (grid_cell f lng) (ring_span f radius))
            []
          ≡ ok all
        → (r : SnapResult f) → In r all ↔ IsReached r
    collect-IsReached all e r =
        let (from, to) = collect-IsFromKeys _ [] all e r in
        let ring = ring_keys-InRing (grid_cell f lat) (grid_cell f lng) (ring_span f radius) in
        (
          λ p. elim (from p) [
            | inl none ↦ elim none [ ]
            | inr i ↦ record {
              entry = i.entry;
              listed = i.listed;
              ring = (ring i.entry.key).0 i.key;
              snapped = i.snapped;
              near = i.near;
            }
          ],
          λ i. to (
              inr (record {
                entry = i.entry;
                listed = i.listed;
                key = (ring i.entry.key).1 i.ring;
                snapped = i.snapped;
                near = i.near;
              })),
        )
