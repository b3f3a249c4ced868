-- ===== src/Base/Lists.antt =====
-- Slices as lists under native indices.
use Prim.Native.Nat.{ℕ, zero, suc, ◌+◌, ◌≤◌}
use mathlib.Core.Path.{◌≡◌, refl, ap, ◌∙◌}
use mathlib.Core.Bool.{Bool, false, ◌||◌, Bool-set}
use mathlib.Core.Logic.{◌⊎◌, inl, inr, ∥∥₁_elim}
use mathlib.Core.Option.{Option, none, some}
use mathlib.Core.List.{List, [], ◌∷◌, ◌++◌, Perm, Permᴰ}
use native.Mathlib.Omega.{arith}

module _ {ℓ} {A : Type ℓ} where
  abbrev pub length : List A → ℕ
  length [] = 0
  length (x ∷ xs) = suc (length xs)

  abbrev pub get_elem? : List A → ℕ → Option A
  get_elem? [] i = none
  get_elem? (x ∷ xs) zero = some x
  get_elem? (x ∷ xs) (suc i) = get_elem? xs i

  -- A write past the end changes nothing; the code's writes go through `Array.put`, which panics.
  abbrev pub set : List A → ℕ → A → List A
  set [] i v = []
  set (x ∷ xs) zero v = v ∷ xs
  set (x ∷ xs) (suc i) v = x ∷ set xs i v

  abbrev pub take : ℕ → List A → List A
  take zero xs = []
  take (suc n) [] = []
  take (suc n) (x ∷ xs) = x ∷ take n xs

  abbrev pub drop : ℕ → List A → List A
  drop zero xs = xs
  drop (suc n) [] = []
  drop (suc n) (x ∷ xs) = drop n xs

  abbrev pub replicate : ℕ → A → List A
  replicate zero x = []
  replicate (suc n) x = x ∷ replicate n x

  pub length-append : (xs ys : List A) → length (xs ++ ys) ≡ length xs + length ys
  length-append [] ys = omega arith
  length-append (x ∷ xs) ys = omega (arith, length-append xs ys)

  pub length-set : (xs : List A) (i : ℕ) (v : A) → length (set xs i v) ≡ length xs
  length-set [] i v = refl
  length-set (x ∷ xs) zero v = refl
  length-set (x ∷ xs) (suc i) v = ap suc (length-set xs i v)

  pub length-replicate : (n : ℕ) (x : A) → length (replicate n x) ≡ n
  length-replicate zero x = refl
  length-replicate (suc n) x = ap suc (length-replicate n x)

  pub length-take : (n : ℕ) (xs : List A) → n ≤ length xs → length (take n xs) ≡ n
  length-take zero xs h = refl
  length-take (suc n) [] h = absurd (omega arith)
  length-take (suc n) (x ∷ xs) h = ap suc (length-take n xs (omega arith))

  -- Whether an entry passes the test.
  abbrev pub any_of : (A → Bool) → List A → Bool
  any_of test [] = false
  any_of test (x ∷ xs) = test x || any_of test xs

  Permᴰ-any_of :
      (test : A → Bool) {before after : List A}
      → Permᴰ before after
      → any_of test before ≡ any_of test after
  Permᴰ-any_of test (Permᴰ.trans q r) = Permᴰ-any_of test q ∙ Permᴰ-any_of test r
  Permᴰ-any_of test (Permᴰ.cons e q) = cc (ap test e, Permᴰ-any_of test q)
  Permᴰ-any_of test (Permᴰ.swap e e2) = ground (arith, ap test e, ap test e2)
  Permᴰ-any_of test Permᴰ.nil = refl

  pub any_of-perm :
      (test : A → Bool) {before after : List A}
      → Perm before after
      → any_of test before ≡ any_of test after
  any_of-perm test q = ∥∥₁_elim q (Bool-set _ _) (Permᴰ-any_of test)

-- The places of an element in a list.
pub data In {ℓ} {A : Type ℓ} (x : A) : List A → Type ℓ where
  here : {xs : List A} → In x (x ∷ xs)
  there : {y : A} {xs : List A} → In x xs → In x (y ∷ xs)

module _ {ℓ} {A : Type ℓ} {x : A} where
  pub In-left : {xs : List A} (ys : List A) → In x xs → In x (xs ++ ys)
  In-left ys here = here
  In-left ys (there p) = there (In-left ys p)

  pub In-right : (xs : List A) {ys : List A} → In x ys → In x (xs ++ ys)
  In-right [] p = p
  In-right (y ∷ xs) p = there (In-right xs p)

  pub In-append : (xs ys : List A) → In x (xs ++ ys) → In x xs ⊎ In x ys
  In-append [] ys p = inr p
  In-append (y ∷ xs) ys here = inl here
  In-append (y ∷ xs) ys (there p) = elim (In-append xs ys p) [
    | inl q ↦ inl (there q)
    | inr q ↦ inr q
  ]

  pub In-one : {y : A} → In x (y ∷ []) → x ≡ y
  In-one here = refl
  In-one (there p) = elim p [ ]
