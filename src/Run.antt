-- ===== src/Run.antt =====
-- How a piece of Go code ends: with a value, by a run-time panic (an index out of range), or,
-- in the model only, because a loop's fuel ran out. `Ensures P r` is total correctness: the code
-- ends with a value, and the value satisfies `P`.
use map_router.Base.{◌≡◌, refl, Bool, true, false, if◌then◌else◌}

pub data Run {ℓ} (A : Type ℓ) : Type ℓ where
  ok : A → Run A
  panic out_of_fuel : Run A

infixl 5 ◌>>=◌
abbrev pub ◌>>=◌ {ℓ κ} : {A : Type ℓ} {B : Type κ} → Run A → (A → Run B) → Run B
ok a >>= f = f a
panic >>= f = panic
out_of_fuel >>= f = out_of_fuel

pub data Ensures {ℓ κ} {A : Type ℓ} (P : A → Type κ) : Run A → Type (ℓ ⊔ κ) where
  ensures : {a : A} → P a → Ensures P (ok a)

module _ {ℓ κ} {A : Type ℓ} {P : A → Type κ} where
  pub Ensures-bind {μ ν} :
      {B : Type μ} {Q : B → Type ν} {m : Run A} {f : A → Run B}
      → Ensures P m
      → ((a : A) → P a → Ensures Q (f a))
      → Ensures Q (m >>= f)
  Ensures-bind (ensures p) rest = rest _ p

  pub Ensures-mono {ν} :
      {Q : A → Type ν} {m : Run A} → ((a : A) → P a → Q a) → Ensures P m → Ensures Q m
  Ensures-mono weaken (ensures p) = ensures (weaken _ p)

  -- The branches of a test, each with the outcome of the test.
  pub Ensures-if :
      (b : Bool) {then_run else_run : Run A}
      → (b ≡ true → Ensures P then_run)
      → (b ≡ false → Ensures P else_run)
      → Ensures P (if b then then_run else else_run)
  Ensures-if true t e = t refl
  Ensures-if false t e = e refl

  -- The value that the code ends with.
  pub Ensures-value : {m : Run A} → Ensures P m → (a : A) × (m ≡ ok a) × P a
  Ensures-value (ensures p) = (_, refl, p)

pub >>=-assoc {ℓ κ μ} :
    {A : Type ℓ} {B : Type κ} {C : Type μ} (m : Run A) (f : A → Run B) (g : B → Run C)
    → ((m >>= f) >>= g) ≡ (m >>= λ a. f a >>= g)
>>=-assoc (ok a) f g = refl
>>=-assoc panic f g = refl
>>=-assoc out_of_fuel f g = refl

pub >>=-cong {ℓ κ} :
    {A : Type ℓ} {B : Type κ} (m : Run A) (f g : A → Run B)
    → ((a : A) → f a ≡ g a)
    → (m >>= f) ≡ (m >>= g)
>>=-cong (ok a) f g h = h a
>>=-cong panic f g h = refl
>>=-cong out_of_fuel f g h = refl

pub >>=-ok {ℓ} : {A : Type ℓ} (m : Run A) → (m >>= λ a. ok a) ≡ m
>>=-ok (ok a) = refl
>>=-ok panic = refl
>>=-ok out_of_fuel = refl
