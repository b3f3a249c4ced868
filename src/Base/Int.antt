-- ===== src/Base/Int.antt =====
-- Signed integers: `negsuc n` is -(n + 1).
use Prim.Native.Nat.{ℕ, suc, ◌+◌, ◌-◌, ◌≤◌}
use mathlib.Core.Bool.{Bool}
use mathlib.Core.Path.{◌≡◌, ap}
use native.Mathlib.Omega.{arith}
use map_router.Base.Tests.{ltb, leb, if◌then◌else◌}

pub data ℤ : Type 0 where
  pos : ℕ → ℤ
  negsuc : ℕ → ℤ

abbrev pub pos_part : ℤ → ℕ
pos_part (pos n) = n
pos_part (negsuc n) = 0

abbrev pub neg_part : ℤ → ℕ
neg_part (pos n) = 0
neg_part (negsuc n) = suc n

-- a - b, as an integer.
abbrev pub sub_ℕ : ℕ → ℕ → ℤ
sub_ℕ a b = if leb b a then pos (a - b) else negsuc (b - a - 1)

infixl 65 ◌+ℤ◌
infix 50 ◌≤ℤ◌
unfoldable pub ◌+ℤ◌ : ℤ → ℤ → ℤ
a +ℤ b = sub_ℕ (pos_part a + pos_part b) (neg_part a + neg_part b)

abbrev pub ◌≤ℤ◌ : ℤ → ℤ → Type 0
a ≤ℤ b = pos_part a + neg_part b ≤ pos_part b + neg_part a

-- The tests `a < b` and `a <= b`.
abbrev pub ltb_ℤ : ℤ → ℤ → Bool
ltb_ℤ a b = ltb (pos_part a + neg_part b) (pos_part b + neg_part a)

abbrev pub leb_ℤ : ℤ → ℤ → Bool
leb_ℤ a b = leb (pos_part a + neg_part b) (pos_part b + neg_part a)

pub ℤ-ext : (a b : ℤ) → pos_part a + neg_part b ≡ pos_part b + neg_part a → a ≡ b
ℤ-ext (pos m) (pos n) e = ap pos (omega arith)
ℤ-ext (pos m) (negsuc n) e = absurd (omega arith)
ℤ-ext (negsuc m) (pos n) e = absurd (omega arith)
ℤ-ext (negsuc m) (negsuc n) e = ap negsuc (omega arith)

pub sub_ℕ-parts : (a b : ℕ) → pos_part (sub_ℕ a b) + b ≡ neg_part (sub_ℕ a b) + a
sub_ℕ-parts a b = ground arith

pub +ℤ-parts :
    (a b : ℤ)
    → pos_part (a +ℤ b) + (neg_part a + neg_part b) ≡ neg_part (a +ℤ b) + (pos_part a + pos_part b)
unfolding ◌+ℤ◌
+ℤ-parts a b = sub_ℕ-parts (pos_part a + pos_part b) (neg_part a + neg_part b)
