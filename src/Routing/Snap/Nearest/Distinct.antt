-- ===== src/Routing/Snap/Nearest/Distinct.antt =====
-- The loop that drops candidates on a road that is there already: it is the first candidates of
-- every road, cut off after `k`.
use mathlib.Core.List.{append_assoc, append-nil}
use mathlib.Core.Bool.{true≢false}
use map_router.Base.{
  ℕ, In, here, there, zero, suc, ◌+◌, ◌≤◌, ◌<◌, ◌≡◌, refl, sym, ◌∙◌, ap, Bool, true, false, ◌||◌,
  List, [], ◌∷◌, ◌++◌, arith, leb, ◌==◌, if◌then◌else◌, if-holds, length, take, length-append,
  any_of, Bool-cases, ℕ_discrete, inl, inr,
}
use map_router.Float.{Float}
use map_router.Routing.Snap.{SnapResult}
use map_router.Routing.Snap.Nearest.{pair_key, is_seen, keep_distinct}

module _ {ℓ} {A : Type ℓ} where
  take-append_all : (k : ℕ) (xs ys : List A) → length xs ≡ k → take k (xs ++ ys) ≡ xs
  take-append_all zero [] [] e = refl
  take-append_all zero [] (y ∷ ys) e = refl
  take-append_all zero (x ∷ xs) ys e = absurd (omega arith)
  take-append_all (suc k) [] ys e = absurd (omega arith)
  take-append_all (suc k) (x ∷ xs) ys e = ap (◌∷◌ x) (take-append_all k xs ys (omega arith))

  pub take-short : (k : ℕ) (xs : List A) → length xs ≤ k → take k xs ≡ xs
  take-short zero [] e = refl
  take-short zero (x ∷ xs) e = absurd (omega arith)
  take-short (suc k) [] e = refl
  take-short (suc k) (x ∷ xs) e = ap (◌∷◌ x) (take-short k xs (omega arith))

  pub length-take_le : (k : ℕ) (xs : List A) → length (take k xs) ≤ k
  length-take_le zero xs = omega arith
  length-take_le (suc k) [] = omega arith
  length-take_le (suc k) (x ∷ xs) = omega (arith, length-take_le k xs)

  pub any_of-take :
      (test : A → Bool) (k : ℕ) (xs : List A)
      → any_of test xs ≡ false
      → any_of test (take k xs) ≡ false
  any_of-take test zero xs h = refl
  any_of-take test (suc k) [] h = refl
  any_of-take test (suc k) (x ∷ xs) h = ground (arith, any_of-take test k xs)

  pub In-any_of :
      (test : A → Bool) (x : A) (xs : List A) → test x ≡ true → In x xs → any_of test xs ≡ true
  In-any_of test x [] h p = elim p [ ]
  In-any_of test x (_ ∷ xs) h here = rw h refl
  In-any_of test x (y ∷ xs) h (there p) = ground (arith, In-any_of test x xs h p)

  pub any_of-append :
      (test : A → Bool) (xs ys : List A)
      → any_of test (xs ++ ys) ≡ (any_of test xs || any_of test ys)
  any_of-append test [] ys = refl
  any_of-append test (x ∷ xs) ys = ground (arith, any_of-append test xs ys)

module _ (f : Float) where
  -- The first candidate of every road that is not in `seen`.
  abbrev pub first_of_roads : List ℕ → List (SnapResult f) → List (SnapResult f)
  first_of_roads seen [] = []
  first_of_roads seen (r ∷ rest) =
      let skipped = first_of_roads seen rest in
      let kept = first_of_roads (pair_key f r ∷ seen) rest in
      if is_seen f (pair_key f r) seen then skipped else r ∷ kept

  -- A candidate on the road `key`.
  abbrev pub is_on : ℕ → SnapResult f → Bool
  is_on key r = pair_key f r == key

  -- No two candidates lie on one road.
  abbrev pub IsDistinct : List (SnapResult f) → Type 0
  IsDistinct [] = Unit
  IsDistinct (r ∷ rest) = (any_of (is_on (pair_key f r)) rest ≡ false) × IsDistinct rest

  pub keep_distinct-take :
      (k : ℕ) (seen : List ℕ) (rows out : List (SnapResult f))
      → length out < k
      → keep_distinct f k seen rows out ≡ take k (out ++ first_of_roads seen rows)
  unfolding keep_distinct
  keep_distinct-take k seen [] out room = rw (append-nil out) (sym (take-short k out (omega arith)))
  keep_distinct-take k seen (r ∷ rest) out room =
      elim (Bool-cases (is_seen f (pair_key f r) seen)) [
        | inl old ↦ rw (old) (keep_distinct-take k seen rest out room)
        | inr new ↦ rw new (elim (Bool-cases (leb k (length out + 1))) [
          | inl full ↦ rw full (filled full)
          | inr more ↦ rw more (
              keep_distinct-take k (pair_key f r ∷ seen) rest (out ++ r ∷ []) (longer more)
              ∙ ap (take k) (append_assoc out (r ∷ []) _))
        ])
      ]
    where
      filled :
          leb k (length out + 1) ≡ true
          → out ++ r ∷ [] ≡ take k (out ++ r ∷ first_of_roads (pair_key f r ∷ seen) rest)
      filled full = sym (
          ap (take k) (sym (append_assoc out (r ∷ []) _))
          ∙ take-append_all k (out ++ r ∷ []) _ (length-append out (r ∷ []) ∙ ground arith))

      longer : leb k (length out + 1) ≡ false → length (out ++ r ∷ []) < k
      longer more = let size = length-append out (r ∷ []) in ground arith

  is_seen-apart :
      (key other : ℕ) (seen : List ℕ)
      → is_seen f key seen ≡ true
      → is_seen f other seen ≡ false
      → (other == key) ≡ false
  is_seen-apart key other seen h k = elim (ℕ_discrete other key) [
    | yes same ↦ absurd (true≢false (sym h ∙ (rw same at k)))
    | no apart ↦ ground arith
  ]

  -- The roads seen before do not come up again.
  first_of_roads-unseen :
      (key : ℕ) (seen : List ℕ) (rows : List (SnapResult f))
      → is_seen f key seen ≡ true
      → any_of (is_on key) (first_of_roads seen rows) ≡ false
  first_of_roads-unseen key seen [] h = refl
  first_of_roads-unseen key seen (r ∷ rest) h = elim (Bool-cases (is_seen f (pair_key f r) seen)) [
    | inl old ↦ rw old (first_of_roads-unseen key seen rest h)
    | inr new ↦
        let apart = is_seen-apart key (pair_key f r) seen h new in
        let later =
          first_of_roads-unseen key (pair_key f r ∷ seen) rest (or_true (pair_key f r == key) h) in
        rw new (neither apart later)
  ]
    where
      or_true : (b : Bool) {c : Bool} → c ≡ true → b || c ≡ true
      or_true b e = ground arith

      neither : {b c : Bool} → b ≡ false → c ≡ false → b || c ≡ false
      neither e e2 = ground arith

  pub first_of_roads-IsDistinct :
      (seen : List ℕ) (rows : List (SnapResult f)) → IsDistinct (first_of_roads seen rows)
  first_of_roads-IsDistinct seen [] = tt
  first_of_roads-IsDistinct seen (r ∷ rest) =
      if-holds IsDistinct (is_seen f (pair_key f r) seen) (λ _. first_of_roads-IsDistinct seen rest)
        (λ _. (
          first_of_roads-unseen (pair_key f r) (pair_key f r ∷ seen) rest (ground arith),
          first_of_roads-IsDistinct (pair_key f r ∷ seen) rest,
        ))

  pub IsDistinct-take :
      (k : ℕ) (rows : List (SnapResult f)) → IsDistinct rows → IsDistinct (take k rows)
  IsDistinct-take zero rows d = tt
  IsDistinct-take (suc k) [] d = tt
  IsDistinct-take (suc k) (r ∷ rest) (new, d) =
      (any_of-take (is_on (pair_key f r)) k rest new, IsDistinct-take k rest d)

  pub any_of-first_of_roads :
      (test : SnapResult f → Bool) (seen : List ℕ) (rows : List (SnapResult f))
      → any_of test rows ≡ false
      → any_of test (first_of_roads seen rows) ≡ false
  any_of-first_of_roads test seen [] h = refl
  any_of-first_of_roads test seen (r ∷ rest) h = ground (
    arith,
    any_of-first_of_roads test seen rest,
    any_of-first_of_roads test (pair_key f r ∷ seen) rest,
  )

  -- Every road among the rows that is not in `seen` has its first candidate there.
  pub first_of_roads-all :
      (key : ℕ) (seen : List ℕ) (rows : List (SnapResult f))
      → is_seen f key seen ≡ false
      → any_of (is_on key) (first_of_roads seen rows) ≡ any_of (is_on key) rows
  first_of_roads-all key seen [] h = refl
  first_of_roads-all key seen (r ∷ rest) h = elim (Bool-cases (is_seen f (pair_key f r) seen)) [
    | inl old ↦
        let apart : (pair_key f r == key) ≡ false =
          sym_apart key (pair_key f r) (is_seen-apart (pair_key f r) key seen old h) in
        rw (old, apart) (first_of_roads-all key seen rest h)
    | inr new ↦ elim (Bool-cases (pair_key f r == key)) [
      | inl same ↦ rw (new, same) refl
      | inr apart ↦ rw (new, apart) (first_of_roads-all key (pair_key f r ∷ seen) rest (rw apart h))
    ]
  ]
    where
      sym_apart : (a b : ℕ) → (a == b) ≡ false → (b == a) ≡ false
      sym_apart a b e = ground arith
