-- ===== src/Sort.antt =====
-- `sort.Slice` of Go's standard library, by what its documentation says: it permutes the slice, and
-- afterwards no entry is less than the one before it. The order of equal entries is left open.
use mathlib.Core.List.Perm
use map_router.Base.{if-holds, ◌≡◌, Bool, true, false, List, [], ◌∷◌, Perm, if◌then◌else◌}

module _ {ℓ} {A : Type ℓ} where
  -- No entry is less than the one before it.
  abbrev pub IsOrdered : (A → A → Bool) → List A → Type 0
  IsOrdered less [] = Unit
  IsOrdered less (x ∷ []) = Unit
  IsOrdered less (x ∷ y ∷ rest) = (less y x ≡ false) × IsOrdered less (y ∷ rest)

  pub record SortSlice (less : A → A → Bool) : Type ℓ where
    pub sort : List A → List A
    pub perm : (row : List A) → Perm (sort row) row
    pub ordered : (row : List A) → IsOrdered less (sort row)

  module _ (less : A → A → Bool) (asym : (x y : A) → less x y ≡ true → less y x ≡ false) where
    insert : A → List A → List A
    insert x [] = x ∷ []
    insert x (y ∷ rest) = let later = insert x rest in if less y x then y ∷ later else x ∷ y ∷ rest

    pub sorted : List A → List A
    sorted [] = []
    sorted (x ∷ row) = insert x (sorted row)

    insert-perm : (x : A) (row : List A) → Perm (insert x row) (x ∷ row)
    unfolding insert
    insert-perm x [] = Perm.refl _
    insert-perm x (y ∷ rest) =
        let swapped = Perm.trans (Perm.cons y (insert-perm x rest)) (Perm.swap x y rest) in
        if-holds (λ row. Perm row (x ∷ y ∷ rest)) (less y x) (λ _. swapped) (λ _. Perm.refl _)

    -- Below `y` stands `x` or what stood there before.
    insert-behind :
        (x y : A) (rest : List A)
        → less x y ≡ false
        → IsOrdered less (y ∷ rest)
        → IsOrdered less (insert x rest)
        → IsOrdered less (y ∷ insert x rest)
    unfolding insert
    insert-behind x y [] e o p = (e, tt)
    insert-behind x y (z ∷ rest) e (o, os) p =
        if-holds (λ row. IsOrdered less row → IsOrdered less (y ∷ row)) (less z x) (λ _ q. (o, q))
          (λ _ q. (e, q)) p

    IsOrdered-rest : (x : A) (row : List A) → IsOrdered less (x ∷ row) → IsOrdered less row
    IsOrdered-rest x [] o = tt
    IsOrdered-rest x (y ∷ rest) o = o.1

    insert-IsOrdered : (x : A) (row : List A) → IsOrdered less row → IsOrdered less (insert x row)
    unfolding insert
    insert-IsOrdered x [] o = tt
    insert-IsOrdered x (y ∷ rest) o =
        let tail_ordered = insert-IsOrdered x rest (IsOrdered-rest y rest o) in
        if-holds (IsOrdered less) (less y x)
          (λ e. insert-behind x y rest (asym y x e) o tail_ordered) (λ e. (e, o))

    pub sorted-perm : (row : List A) → Perm (sorted row) row
    unfolding sorted
    sorted-perm [] = Perm.refl []
    sorted-perm (x ∷ row) = Perm.trans (insert-perm x (sorted row)) (Perm.cons x (sorted-perm row))

    pub sorted-IsOrdered : (row : List A) → IsOrdered less (sorted row)
    unfolding sorted
    sorted-IsOrdered [] = tt
    sorted-IsOrdered (x ∷ row) = insert-IsOrdered x (sorted row) (sorted-IsOrdered row)

    -- An insertion sort, which does what is promised for every order that is asymmetric.
    unfoldable pub insertion_sort : SortSlice less
    unfolding insert sorted
    insertion_sort = record { sort = sorted; perm = sorted-perm; ordered = sorted-IsOrdered }
