-- ===== src/Graph/Bytes.antt =====
-- The slice helpers of pkg/graph/binary.go: little-endian words of `k` bytes, and their decoding.
-- A file is the list of its bytes; an I/O error other than a short file is not modelled.
pub mod RoundTrip
use map_router.Base.{
  ℕ, zero, suc, ◌+◌, ◌-◌, ◌*◌, ◌/◌, ◌%◌, ◌^◌, Bool, true, false, List, [], ◌∷◌, ◌++◌, Option, none,
  some, map, ltb, leb, ◌==◌, ◌||◌, if◌then◌else◌, length, drop, ℤ, pos, negsuc,
}
use map_router.Word.{u32_mod}
use map_router.Load.{Load, loaded, failed, ◌>>=◌, read_field, read_crc, LoadError}

abbrev pub Bytes : Type 0
Bytes = List ℕ

pub le_bytes : ℕ → ℕ → Bytes
le_bytes zero w = []
le_bytes (suc k) w = (w % 256) ∷ le_bytes k (w / 256)

pub le_value : Bytes → ℕ
le_value [] = 0
le_value (b ∷ bs) = b + 256 * le_value bs

-- The first `n` bytes and the rest, if there are so many.
pub split_bytes : ℕ → Bytes → Option (Bytes × Bytes)
split_bytes zero bs = some ([], bs)
split_bytes (suc n) [] = none
split_bytes (suc n) (b ∷ bs) = elim (split_bytes n bs) [
  | some (xs, rest) ↦ some (b ∷ xs, rest)
  | none ↦ none
]

-- A reader hands on its value and the bytes that are left.
abbrev pub Reader : Type 0 → Type 0
Reader A = Bytes → Load (A × Bytes)

abbrev pub map_fst : {A B : Type 0} → (A → B) → A × Bytes → B × Bytes
map_fst g (a, bs) = (g a, bs)

-- `binary.Read` of one word; `e` is the error at the end of the file.
pub read_word : LoadError → ℕ → Reader ℕ
read_word e k bs = elim (split_bytes k bs) [
  | some (xs, rest) ↦ loaded (le_value xs, rest)
  | none ↦ failed e
]

-- `writeUint32Slice`, and `writeFloat64Slice` on the bits.
pub write_words : ℕ → List ℕ → Bytes
write_words k [] = []
write_words k (w ∷ ws) = le_bytes k w ++ write_words k ws

-- `readUint32Slice`, and `readFloat64Slice` on the bits: `n` words, or the error of a short file.
pub read_words : LoadError → ℕ → ℕ → Reader (List ℕ)
read_words e k zero bs = loaded ([], bs)
read_words e k (suc n) bs =
    read_word e k bs >>= λ (w, r). read_words e k n r >>= λ (ws, r'). loaded (w ∷ ws, r')

-- `int32` as the word that stores it, in two's complement.
pub int32_word : ℤ → ℕ
int32_word (pos n) = n
int32_word (negsuc n) = u32_mod - 1 - n

pub word_int32 : ℕ → ℤ
word_int32 w = if ltb w 2147483648 then pos w else negsuc (u32_mod - 1 - w)

-- `writeLenPrefixedUint32`, `writeLenPrefixedFloat64`
pub write_prefixed : ℕ → List ℕ → Bytes
write_prefixed k ws = le_bytes 4 (length ws % u32_mod) ++ write_words k ws

-- `io.ReadFull` of an optional field: a short file is read to its end, and the field is absent.
optional : Load (List ℕ × Bytes) → List ℕ × Bytes
optional (loaded r) = r
optional _ = ([], [])

-- `readUint32SliceOptional`, `readFloat64SliceOptional`: the length, then so many words, unless
-- the length is absent, zero or over the limit.
pub read_optional : ℕ → Bytes → List ℕ × Bytes
read_optional k bs =
    let body : ℕ → Bytes → List ℕ × Bytes = λ n r.
      if n == 0 || ltb ((u32_mod - 1) / k) n
      then ([], r)
      else optional (read_words read_field k n r) in
    elim (split_bytes 4 bs) [ some (xs, r) ↦ body (le_value xs) r | none ↦ ([], []) ]

-- `skipBytes`
pub skip_bytes : LoadError → ℕ → Reader (Unit {0})
skip_bytes e n bs = elim (split_bytes n bs) [
  | some (xs, rest) ↦ loaded (tt, rest)
  | none ↦ failed e
]
