-- ===== src/Base/Tests.antt =====
-- Boolean tests on the native numbers, and how a proof splits on one.
use Prim.Native.Nat.{ℕ, ◌≤◌, ◌<◌, compare, Ordering}
use mathlib.Core.Path.{◌≡◌, refl}
use mathlib.Core.Logic.{◌⊎◌, inl, inr}
use mathlib.Core.Bool.{Bool, true, false}
use native.Mathlib.Omega.{arith}

abbrev pub ltb : ℕ → ℕ → Bool
ltb a b = elim (compare a b) [ Ordering.lt ↦ true | _ ↦ false ]

abbrev pub leb : ℕ → ℕ → Bool
leb a b = elim (compare a b) [ Ordering.gt ↦ false | _ ↦ true ]

infix 50 ◌==◌
abbrev pub ◌==◌ : ℕ → ℕ → Bool
a == b = elim (compare a b) [ Ordering.eq ↦ true | _ ↦ false ]

infix 1 if◌then◌else◌
abbrev pub if◌then◌else◌ {ℓ} : {A : Type ℓ} → Bool → A → A → A
if true then x else y = x
if false then x else y = y

pub lt_of_ltb : (a b : ℕ) → ltb a b ≡ true → a < b
lt_of_ltb a b h = ground arith

pub le_of_ltb : (a b : ℕ) → ltb a b ≡ false → b ≤ a
le_of_ltb a b h = ground arith

pub ltb_of_lt : (a b : ℕ) → a < b → ltb a b ≡ true
ltb_of_lt a b h = ground arith

pub ltb_of_le : (a b : ℕ) → b ≤ a → ltb a b ≡ false
ltb_of_le a b h = ground arith

pub le_of_leb : (a b : ℕ) → leb a b ≡ true → a ≤ b
le_of_leb a b h = ground arith

pub lt_of_leb : (a b : ℕ) → leb a b ≡ false → b < a
lt_of_leb a b h = ground arith

pub Bool-cases : (b : Bool) → (b ≡ true) ⊎ (b ≡ false)
Bool-cases true = inl refl
Bool-cases false = inr refl

pub ==-refl : (a : ℕ) → (a == a) ≡ true
==-refl a = ground arith

-- A predicate holds of an `if` when it holds of each branch under the outcome of the test.
pub if-holds {ℓ κ} :
    {A : Type ℓ} (P : A → Type κ) (b : Bool) {x y : A}
    → (b ≡ true → P x)
    → (b ≡ false → P y)
    → P (if b then x else y)
if-holds P true t e = t refl
if-holds P false t e = e refl
