-- ===== src/Word.antt =====
-- Go's `uint32`: a value is a `ℕ` below `2 ^ 32`, and addition wraps.
use map_router.Base.{ℕ, ◌+◌, ◌-◌, ◌%◌, ◌<◌, ◌≡◌, arith, ℤ, pos, negsuc}

abbrev pub u32_mod : ℕ
u32_mod = 4294967296

-- `a + b` on `uint32`.
unfoldable pub add32 : ℕ → ℕ → ℕ
add32 a b = (a + b) % u32_mod

pub add32-eq : (a b : ℕ) → a + b < u32_mod → add32 a b ≡ a + b
unfolding add32
add32-eq a b h = omega arith

pub add32-lt : (a b : ℕ) → add32 a b < u32_mod
unfolding add32
add32-lt a b = omega arith

-- `uint32(i)` of an `int32`.
unfoldable pub u32_of_i32 : ℤ → ℕ
u32_of_i32 (pos n) = n % u32_mod
u32_of_i32 (negsuc n) = u32_mod - 1 - n % u32_mod

pub u32_of_i32-lt : (i : ℤ) → u32_of_i32 i < u32_mod
unfolding u32_of_i32
u32_of_i32-lt (pos n) = omega arith
u32_of_i32-lt (negsuc n) = omega arith
