-- ===== src/Graph/Bytes/RoundTrip.antt =====
-- What is written is read back, with the rest of the file left over.
use native.Mathlib.Nat.{pow-suc, zero-mul, suc-mul}
use map_router.Base.{
  ℕ, zero, suc, ◌-◌, ◌*◌, ◌/◌, ◌%◌, ◌^◌, ◌≤◌, ◌<◌, ◌≡◌, refl, sym, List, [], ◌∷◌, ◌++◌, some, arith,
  length, length-append, ℤ, pos, negsuc, ltb, ltb_of_le, false, ◌==◌,
}
use mathlib.Core.List.{append_assoc}
use map_router.Word.{u32_mod}
use map_router.Load.{LoadError, loaded, read_field, >>=-eq-loaded}
use map_router.Graph.Bytes.{
  Bytes, le_bytes, le_value, split_bytes, read_word, write_words, read_words, int32_word,
  word_int32, write_prefixed, optional, read_optional, skip_bytes,
}

-- Every word is below the bound.
abbrev pub AllBelow : ℕ → List ℕ → Type 0
AllBelow m [] = Unit
AllBelow m (w ∷ ws) = (w < m) × AllBelow m ws

le_value-le_bytes : (k w : ℕ) → w < 256 ^ k → le_value (le_bytes k w) ≡ w
unfolding le_value le_bytes
le_value-le_bytes zero w h = omega arith
le_value-le_bytes (suc k) w h =
    let h' : w < 256 ^ k * 256 = rw pow-suc at h in
    let small : w / 256 < 256 ^ k = omega (arith, h') in
    omega (arith, le_value-le_bytes k (w / 256) small)

pub length-le_bytes : (k w : ℕ) → length (le_bytes k w) ≡ k
unfolding le_bytes
length-le_bytes zero w = refl
length-le_bytes (suc k) w = omega (arith, length-le_bytes k (w / 256))

split_bytes-append : (xs rest : Bytes) → split_bytes (length xs) (xs ++ rest) ≡ some (xs, rest)
unfolding split_bytes
split_bytes-append [] rest = refl
split_bytes-append (x ∷ xs) rest = rw (split_bytes-append xs rest)

pub read_word-le_bytes :
    (e : LoadError) (k w : ℕ) (rest : Bytes)
    → w < 256 ^ k
    → read_word e k (le_bytes k w ++ rest) ≡ loaded (w, rest)
unfolding read_word
read_word-le_bytes e k w rest h =
    let whole = rw length-le_bytes at (split_bytes-append (le_bytes k w) rest) in
    rw (whole, read_word, le_value-le_bytes k w h)

pub read_words-write_words :
    (e : LoadError) (k : ℕ) (ws : List ℕ) (rest : Bytes)
    → AllBelow (256 ^ k) ws
    → read_words e k (length ws) (write_words k ws ++ rest) ≡ loaded (ws, rest)
unfolding read_words write_words
read_words-write_words e k [] rest h = refl
read_words-write_words e k (w ∷ ws) rest (h, hs) = rw (
  append_assoc,
  read_word-le_bytes e k w (write_words k ws ++ rest) h,
  read_words-write_words e k ws rest hs,
)

pub length-write_words : (k : ℕ) (ws : List ℕ) → length (write_words k ws) ≡ length ws * k
unfolding write_words
length-write_words k [] = sym (zero-mul k)
length-write_words k (w ∷ ws) =
    let ih = length-write_words k ws in
    let split = length-append (le_bytes k w) (write_words k ws) in
    let width = length-le_bytes k w in
    let product = suc-mul (length ws) k in omega (arith, ih, split, width, product)

pub skip_bytes-write_words :
    (e : LoadError) (k : ℕ) (ws : List ℕ) (rest : Bytes)
    → skip_bytes e (length ws * k) (write_words k ws ++ rest) ≡ loaded (tt, rest)
unfolding skip_bytes
skip_bytes-write_words e k ws rest =
    let whole = rw (length-write_words k ws) at (split_bytes-append (write_words k ws) rest) in
    rw (whole, skip_bytes)

-- As many words as were asked for.
pub read_words-length :
    (e : LoadError) (k n : ℕ) (bs : Bytes) (ws : List ℕ) (rest : Bytes)
    → read_words e k n bs ≡ loaded (ws, rest)
    → length ws ≡ n
unfolding read_words
read_words-length e k zero bs ws rest h = let same : ws ≡ [] = cc in rw same refl
read_words-length e k (suc n) bs ws rest h =
    let ((w, r1), e1, h1) = >>=-eq-loaded (read_word e k bs) _ h in
    let ((ws', r2), e2, h2) = >>=-eq-loaded (read_words e k n r1) _ h1 in
    let ih = read_words-length e k n r1 ws' r2 e2 in
    let same : ws ≡ w ∷ ws' = cc in rw (same, ih) refl

-- The range of an `int32`.
abbrev pub IsInt32 : ℤ → Type 0
IsInt32 (pos n) = n < 2147483648
IsInt32 (negsuc n) = n < 2147483648

pub int32_word-bound : (z : ℤ) → IsInt32 z → int32_word z < u32_mod
unfolding int32_word u32_mod
int32_word-bound (pos n) h = omega (arith, h)
int32_word-bound (negsuc n) h = omega arith

pub word_int32-int32_word : (z : ℤ) → IsInt32 z → word_int32 (int32_word z) ≡ z
unfolding int32_word word_int32 u32_mod
word_int32-int32_word (pos n) h = ground arith
word_int32-int32_word (negsuc n) h =
    let back : 4294967295 - (4294967295 - n) ≡ n = omega (arith, h) in
    let high : ltb (4294967295 - n) 2147483648 ≡ false =
      ltb_of_le (4294967295 - n) 2147483648 (omega (arith, h)) in
    rw (high, word_int32, back)

read_optional-write_prefixed_empty :
    (k : ℕ) (rest : Bytes) → read_optional k (write_prefixed k [] ++ rest) ≡ ([], rest)
unfolding read_optional split_bytes le_value write_prefixed le_bytes write_words
read_optional-write_prefixed_empty k rest = refl

write_prefixed-eq :
    (k : ℕ) (ws : List ℕ)
    → write_prefixed k ws ≡ le_bytes 4 (length ws % u32_mod) ++ write_words k ws
unfolding write_prefixed
write_prefixed-eq k ws = refl

read_optional-le_bytes :
    (k m : ℕ) (body : Bytes) {r : List ℕ × Bytes}
    → suc m ≤ (u32_mod - 1) / k
    → suc m < u32_mod
    → read_words read_field k (suc m) body ≡ loaded r
    → read_optional k (le_bytes 4 (suc m) ++ body) ≡ r
unfolding read_optional optional
read_optional-le_bytes k m body fits short h =
    let whole = rw length-le_bytes at (split_bytes-append (le_bytes 4 (suc m)) body) in
    let some_left : (suc m == 0) ≡ false = ground arith in
    rw
      (
        whole,
        read_optional,
        le_value-le_bytes 4 (suc m) short,
        some_left,
        ltb_of_le ((u32_mod - 1) / k) (suc m) fits,
        h,
      )
      refl

-- A length-prefixed slice is read back, whatever follows it.
pub read_optional-write_prefixed :
    (k : ℕ) (ws : List ℕ) (rest : Bytes)
    → AllBelow (256 ^ k) ws
    → length ws ≤ (u32_mod - 1) / k
    → length ws < u32_mod
    → read_optional k (write_prefixed k ws ++ rest) ≡ (ws, rest)
read_optional-write_prefixed k [] rest all fits short = read_optional-write_prefixed_empty k rest
read_optional-write_prefixed k (w ∷ ws) rest all fits short =
    let same : length (w ∷ ws) % u32_mod ≡ length (w ∷ ws) = omega (arith, short) in
    rw (write_prefixed-eq, same, append_assoc)
      (read_optional-le_bytes k (length ws) (write_words k (w ∷ ws) ++ rest) fits short
        (read_words-write_words read_field k (w ∷ ws) rest all))
