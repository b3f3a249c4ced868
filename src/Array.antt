-- ===== src/Array.antt =====
-- Indexed access to a Go slice. `at` and `put` are the code's `a[i]` and `a[i] = v`, which panic
-- out of range; `get!` is the total reading that statements and proofs use.
use mathlib.Core.List.Perm
use mathlib.Core.List.{append-nil, perm_middle, Permᴰ}
use mathlib.Core.Logic.{∥∥₁_elim}
use native.Mathlib.Nat.{ℕ_set}
use map_router.Base.{
  ℕ, zero, suc, ◌<◌, ◌≡◌, ◌≢◌, refl, sym, ap, ◌∙◌, List, [], ◌∷◌, ◌++◌, Perm, arith, ltb, ◌==◌,
  if◌then◌else◌, length, set, take, replicate, length-set,
}
use map_router.Run.{Run, ok, panic}

-- A type with Go's zero value.
pub record Zeroed {ℓ} (A : Type ℓ) : Type ℓ where
  pub zero_value : A

instance abbrev pub Zeroed-ℕ : Zeroed ℕ
Zeroed-ℕ = record { zero_value = 0 }

module _ {ℓ} {A : Type ℓ} where
  -- The read `a[i]`.
  unfoldable pub at : List A → ℕ → Run A
  at [] slot = panic
  at (entry ∷ row) zero = ok entry
  at (entry ∷ row) (suc slot) = at row slot

  -- The write `a[i] = v`.
  unfoldable pub put : List A → ℕ → A → Run (List A)
  put row slot item = if ltb slot (length row) then ok (set row slot item) else panic

  Permᴰ-size : {before after : List A} → Permᴰ before after → length after ≡ length before
  Permᴰ-size (Permᴰ.trans q r) = Permᴰ-size r ∙ Permᴰ-size q
  Permᴰ-size (Permᴰ.cons _ q) = omega (arith, Permᴰ-size q)
  Permᴰ-size (Permᴰ.swap _ _) = refl
  Permᴰ-size Permᴰ.nil = refl

  -- A permutation has as many entries.
  pub length-perm : {before after : List A} → Perm before after → length before ≡ length after
  length-perm q = sym (∥∥₁_elim q (ℕ_set _ _) Permᴰ-size)

  pub append-singleton-perm : (row : List A) (entry : A) → Perm (row ++ entry ∷ []) (entry ∷ row)
  append-singleton-perm row entry = rw (append-nil row) at (perm_middle {a = entry} row [])

  pub put-ok :
      (row : List A) (slot : ℕ) (item : A)
      → slot < length row
      → put row slot item ≡ ok (set row slot item)
  unfolding put
  put-ok row slot item bound = ground arith

  pub set-set :
      (row : List A) (slot : ℕ) (item later : A)
      → set (set row slot item) slot later ≡ set row slot later
  set-set [] slot item later = refl
  set-set (entry ∷ row) zero item later = refl
  set-set (entry ∷ row) (suc slot) item later = ap (◌∷◌ entry) (set-set row slot item later)

module _ {ℓ} {A : Type ℓ} ⦃z : Zeroed A⦄ where
  unfoldable pub get! : List A → ℕ → A
  get! [] slot = z.zero_value
  get! (entry ∷ row) zero = entry
  get! (entry ∷ row) (suc slot) = get! row slot

  pub at-ok : (row : List A) (slot : ℕ) → slot < length row → at row slot ≡ ok (get! row slot)
  unfolding get! at
  at-ok [] slot bound = absurd (omega arith)
  at-ok (entry ∷ row) zero bound = refl
  at-ok (entry ∷ row) (suc slot) bound = at-ok row slot (omega arith)

  pub get!-set :
      (row : List A) (slot seen : ℕ) (item : A)
      → slot < length row
      → get! (set row slot item) seen ≡ (if slot == seen then item else get! row seen)
  unfolding get!
  get!-set [] slot seen item bound = absurd (omega arith)
  get!-set (entry ∷ row) zero zero item bound = refl
  get!-set (entry ∷ row) (suc slot) (suc seen) item bound =
      ground (arith, get!-set row slot seen item)
  get!-set (entry ∷ row) slot seen item bound = ground arith

  pub set-get! : (row : List A) (slot : ℕ) → set row slot (get! row slot) ≡ row
  unfolding get!
  set-get! [] slot = refl
  set-get! (entry ∷ row) zero = refl
  set-get! (entry ∷ row) (suc slot) = ap (◌∷◌ entry) (set-get! row slot)

  pub get!-append :
      (row more : List A) (slot : ℕ) → slot < length row → get! (row ++ more) slot ≡ get! row slot
  unfolding get!
  get!-append [] more slot bound = absurd (omega arith)
  get!-append (entry ∷ row) more zero bound = refl
  get!-append (entry ∷ row) more (suc slot) bound = get!-append row more slot (omega arith)

  pub get!-append_right : (row : List A) (entry : A) → get! (row ++ entry ∷ []) (length row) ≡ entry
  unfolding get!
  get!-append_right [] entry = refl
  get!-append_right (entry2 ∷ row) entry = get!-append_right row entry

  pub get!-take :
      (len : ℕ) (row : List A) (slot : ℕ) → slot < len → get! (take len row) slot ≡ get! row slot
  unfolding get!
  get!-take zero row slot bound = absurd (omega arith)
  get!-take (suc len) [] slot bound = refl
  get!-take (suc len) (entry ∷ row) zero bound = refl
  get!-take (suc len) (entry ∷ row) (suc slot) bound = get!-take len row slot (omega arith)

  pub take-append-last :
      (len : ℕ) (row : List A) → length row ≡ suc len → take len row ++ get! row len ∷ [] ≡ row
  unfolding get!
  take-append-last zero (entry ∷ []) bound = refl
  take-append-last (suc len) (entry ∷ row) bound =
      ap (◌∷◌ entry) (take-append-last len row (omega arith))
  take-append-last len row bound = absurd (omega arith)

  -- A write trades the old entry for the new one.
  pub set-perm :
      (row : List A) (slot : ℕ) (item : A)
      → slot < length row
      → Perm (get! row slot ∷ set row slot item) (item ∷ row)
  unfolding get!
  set-perm [] slot item bound = absurd (omega arith)
  set-perm (entry ∷ row) zero item bound = Perm.swap item entry row
  set-perm (entry ∷ row) (suc slot) item bound = Perm.trans (Perm.swap entry _ _) (
      Perm.trans (Perm.cons entry (set-perm row slot item (omega arith)))
        (Perm.swap item entry row))

  -- Moving the entry at `above` into the hole at `slot`, and the item over to `above`, loses nothing.
  pub hole-perm :
      (row : List A) (slot above : ℕ) (item : A)
      → slot < length row
      → above < length row
      → slot ≢ above
      → Perm (set (set row slot (get! row above)) above item) (set row slot item)
  hole-perm row slot above item hi hp apart =
      let kept : get! (set row slot (get! row above)) above ≡ get! row above =
        ground (arith, get!-set row slot above (get! row above)) in
      let filled : get! (set row slot item) slot ≡ item =
        ground (arith, get!-set row slot slot item) in
      let moved =
        rw kept at (set-perm (set row slot (get! row above)) above item (rw length-set hp)) in
      let undone =
        rw (filled, set-set) at
          (set-perm (set row slot item) slot (get! row above) (rw length-set hi)) in
      Perm.cons_inv (Perm.trans moved undone)

  pub get!-replicate :
      (len slot : ℕ) (entry : A) → slot < len → get! (replicate len entry) slot ≡ entry
  unfolding get!
  get!-replicate zero slot entry bound = absurd (omega arith)
  get!-replicate (suc len) zero entry bound = refl
  get!-replicate (suc len) (suc slot) entry bound = get!-replicate len slot entry (omega arith)

  -- Lists of one length that agree at every index are equal.
  pub eq_of_get! :
      (xs ys : List A)
      → length xs ≡ length ys
      → ((slot : ℕ) → slot < length xs → get! xs slot ≡ get! ys slot)
      → xs ≡ ys
  unfolding get!
  eq_of_get! [] [] e bound = refl
  eq_of_get! (entry ∷ xs) (entry2 ∷ ys) e bound = cc (
    bound 0 (omega arith),
    eq_of_get! xs ys (omega arith) (λ slot p. bound (suc slot) (omega arith)),
  )
  eq_of_get! [] (entry2 ∷ ys) e bound = absurd (omega arith)
  eq_of_get! (entry ∷ xs) [] e bound = absurd (omega arith)
