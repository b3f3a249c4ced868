-- ===== src/Graph/Build/Coordinates.antt =====
-- The loop of `Build` over the entries of `nodeSet`: whatever order `range` takes, every node gets
-- the coordinates of its id.
use map_router.Base.{
  ℕ, ◌<◌, ◌≡◌, refl, ap, Bool, false, ◌||◌, List, [], ◌∷◌, arith, ◌==◌, if◌then◌else◌, length,
  length-set, set, any_of, ℕ_discrete,
}
use map_router.Run.{Ensures, ensures, Ensures-mono}
use map_router.Array.{Zeroed, Zeroed-ℕ, get!, get!-set, put-ok}
use map_router.Float.{Float}
use map_router.Osm.Parse.{NodeMap}
use map_router.Graph.Build.{coordinates_of, fill_coordinates}
use map_router.Graph.Build.Nodes.{is_wrong}

module _ (f : Float) (nodes : NodeMap f) (ids : List ℕ) where
  -- `0.0`
  abbrev pub Zeroed-F : Zeroed f.F
  Zeroed-F = record { zero_value = f.of_ratio 0 1 }

  -- `row` differs from `before` in the nodes visited, whose entries `value` gives.
  pub record IsPainted (value : ℕ → f.F) (visits : List (ℕ × ℕ)) (before row : List f.F)
      : Type 0 where
    pub size : length row ≡ length ids
    pub painted :
        (i : ℕ)
        → i < length ids
        → get! ⦃z = Zeroed-F⦄ row i ≡ (
            if any_of (λ p. p.1 == i) visits
            then value (get! ids i)
            else get! ⦃z = Zeroed-F⦄ before i)

  confirmed :
      (id idx : ℕ) → is_wrong ids (id, idx) ≡ false → (idx < length ids) × (get! ids idx ≡ id)
  confirmed id idx right = ground arith

  paint :
      (value : ℕ → f.F) (id idx : ℕ) (visits : List (ℕ × ℕ)) (before row : List f.F)
      → length before ≡ length ids
      → is_wrong ids (id, idx) ≡ false
      → IsPainted value visits (set before idx (value id)) row
      → IsPainted value ((id, idx) ∷ visits) before row
  paint value id idx visits before row e right p = record {
    size = p.size;
    painted = λ i h.
        let (inside, named) = confirmed id idx right in
        let entry = get!-set ⦃z = Zeroed-F⦄ before idx i (value id) (omega arith) in
        let later = p.painted i h in
        elim (ℕ_discrete idx i) [
          | yes same ↦
              let here : value (get! ids i) ≡ value id = ap value (rw same at named) in
              ground (arith, later, entry, here)
          | no apart ↦ ground (arith, later, entry)
        ];
  }

  pub fill_coordinates-IsPainted :
      (visits : List (ℕ × ℕ)) (lats lons : List f.F)
      → any_of (is_wrong ids) visits ≡ false
      → length lats ≡ length ids
      → length lons ≡ length ids
      → Ensures
          (λ r.
            IsPainted (λ id. (coordinates_of f nodes id).0) visits lats (r.0)
            × IsPainted (λ id. (coordinates_of f nodes id).1) visits lons (r.1))
          (fill_coordinates f nodes visits (lats, lons))
  unfolding fill_coordinates
  fill_coordinates-IsPainted [] lats lons right e e2 =
      ensures
        (record { size = e; painted = λ i h. refl }, record { size = e2; painted = λ i h. refl })
  fill_coordinates-IsPainted ((id, idx) ∷ visits) lats lons right e e2 =
      let (first, rest) =
        both_right (is_wrong ids (id, idx)) (any_of (is_wrong ids) visits) right in
      let (inside, named) = confirmed id idx first in
      let (lat, lon) = coordinates_of f nodes id in
      rw (put-ok lats idx lat (omega arith), put-ok lons idx lon (omega arith))
        (Ensures-mono
          (λ r p. (
            paint _ id idx visits lats (r.0) e first (p.0),
            paint _ id idx visits lons (r.1) e2 first (p.1),
          ))
          (fill_coordinates-IsPainted visits (set lats idx lat) (set lons idx lon) rest
            (rw length-set e) (rw length-set e2)))
    where
      both_right : (a b : Bool) → a || b ≡ false → (a ≡ false) × (b ≡ false)
      both_right a b h = ground arith
