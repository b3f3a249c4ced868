-- ===== src/Routing/Snap/Nearest/Ring.antt =====
-- The cells that `SnapCandidates` looks at.
use map_router.Base.{
  ℕ, zero, suc, ◌+◌, ◌≡◌, ◌<◌, ◌⊎◌, inl, inr, ◌↔◌, refl, arith, ℤ, pos, negsuc, ◌+ℤ◌, ◌≤ℤ◌,
  sub_ℕ-parts, ℤ-ext, +ℤ-parts, pos_part, neg_part, ℕ_discrete, In, here, there, In-left, In-right,
  In-append,
}
use map_router.Routing.Snap.Grid.{cell_key, rounds}
use map_router.Routing.Snap.Nearest.{neg_ℤ, ring_row, ring_loop, ring_keys}

-- The offsets from `-span` to `span`.
abbrev pub IsWithin : ℤ → ℤ → Type 0
IsWithin span o = (neg_ℤ span ≤ℤ o) × (o ≤ℤ span)

-- The key of a cell whose offsets from the centre are at most `span`.
pub record InRing (center_lat center_lon span : ℤ) (key : ℕ) : Type 0 where
  pub d_lat : ℤ
  pub d_lon : ℤ
  pub cell : key ≡ cell_key (center_lat +ℤ d_lat) (center_lon +ℤ d_lon)
  pub lat_within : IsWithin span d_lat
  pub lon_within : IsWithin span d_lon

next-parts : (d : ℤ) → pos_part (d +ℤ pos 1) + neg_part d ≡ neg_part (d +ℤ pos 1) + pos_part d + 1
next-parts d = omega (arith, +ℤ-parts d (pos 1))

-- `count` offsets from `d` on.
IsFrom : ℤ → ℕ → ℤ → Type 0
IsFrom d count o = (d ≤ℤ o) × (pos_part o + neg_part d < pos_part d + neg_part o + count)

IsFrom-next : (d : ℤ) (count : ℕ) (o : ℤ) → IsFrom (d +ℤ pos 1) count o → IsFrom d (suc count) o
unfolding IsFrom
IsFrom-next d count o (lo, hi) = (omega (arith, next-parts d), omega (arith, next-parts d))

IsFrom-cases :
    (d : ℤ) (count : ℕ) (o : ℤ) → IsFrom d (suc count) o → (o ≡ d) ⊎ IsFrom (d +ℤ pos 1) count o
unfolding IsFrom
IsFrom-cases d count o (lo, hi) =
    elim (ℕ_discrete (pos_part o + neg_part d) (pos_part d + neg_part o)) [
      | yes same ↦ inl (ℤ-ext o d same)
      | no apart ↦ inr (omega (arith, next-parts d), omega (arith, next-parts d))
    ]

IsFrom-here : (d : ℤ) (count : ℕ) → IsFrom d (suc count) d
unfolding IsFrom
IsFrom-here d count = (omega arith, omega arith)

IsFrom-none : (d o : ℤ) → ¬ IsFrom d 0 o
unfolding IsFrom
IsFrom-none d o (lo, hi) = omega arith

ring_row-IsFrom :
    (count : ℕ) (la lon d : ℤ) (key : ℕ)
    → In key (ring_row count la lon d)
    → (o : ℤ) × IsFrom d count o × (key ≡ cell_key la (lon +ℤ o))
unfolding ring_row
ring_row-IsFrom zero la lon d key p = elim p [ ]
ring_row-IsFrom (suc count) la lon d key here = (d, IsFrom-here d count, refl)
ring_row-IsFrom (suc count) la lon d key (there p) =
    let (o, r, e) = ring_row-IsFrom count la lon (d +ℤ pos 1) key p in
    (o, IsFrom-next d count o r, e)

ring_row-all :
    (count : ℕ) (la lon d o : ℤ)
    → IsFrom d count o
    → In (cell_key la (lon +ℤ o)) (ring_row count la lon d)
unfolding ring_row
ring_row-all zero la lon d o r = absurd (IsFrom-none d o r)
ring_row-all (suc count) la lon d o r = elim (IsFrom-cases d count o r) [
  | inl same ↦ rw same here
  | inr later ↦ there (ring_row-all count la lon (d +ℤ pos 1) o later)
]

ring_loop-IsFrom :
    (key count : ℕ) (clat clon span d : ℤ)
    → In key (ring_loop count clat clon span d)
    → (o : ℤ) × IsFrom d count o
      × In key (ring_row (rounds (neg_ℤ span) span) (clat +ℤ o) clon (neg_ℤ span))
unfolding ring_loop
ring_loop-IsFrom key zero clat clon span d p = elim p [ ]
ring_loop-IsFrom key (suc count) clat clon span d p =
    elim (In-append (ring_row (rounds (neg_ℤ span) span) (clat +ℤ d) clon (neg_ℤ span)) _ p) [
      | inl first ↦ (d, IsFrom-here d count, first)
      | inr later ↦
          let (o, r, q) = ring_loop-IsFrom key count clat clon span (d +ℤ pos 1) later in
          (o, IsFrom-next d count o r, q)
    ]

ring_loop-all :
    (key count : ℕ) (clat clon span d o : ℤ)
    → IsFrom d count o
    → In key (ring_row (rounds (neg_ℤ span) span) (clat +ℤ o) clon (neg_ℤ span))
    → In key (ring_loop count clat clon span d)
unfolding ring_loop
ring_loop-all key zero clat clon span d o r p = absurd (IsFrom-none d o r)
ring_loop-all key (suc count) clat clon span d o r p = elim (IsFrom-cases d count o r) [
  | inl same ↦ In-left _ (rw same at p)
  | inr later ↦ In-right _ (ring_loop-all key count clat clon span (d +ℤ pos 1) o later p)
]

neg-parts : (a : ℤ) → pos_part (neg_ℤ a) + pos_part a ≡ neg_part (neg_ℤ a) + neg_part a
neg-parts a = sub_ℕ-parts (neg_part a) (pos_part a)

-- The loops from `-span` up to `span` take every offset within the span.
rounds-IsWithin : (span o : ℤ) → IsFrom (neg_ℤ span) (rounds (neg_ℤ span) span) o → IsWithin span o
unfolding IsFrom
rounds-IsWithin (pos n) o (lo, hi) = (lo, omega (arith, neg-parts (pos n)))
rounds-IsWithin (negsuc n) o (lo, hi) = (lo, omega (arith, neg-parts (negsuc n)))

IsWithin-rounds : (span o : ℤ) → IsWithin span o → IsFrom (neg_ℤ span) (rounds (neg_ℤ span) span) o
unfolding IsFrom
IsWithin-rounds (pos n) o (lo, hi) = (lo, omega (arith, neg-parts (pos n)))
IsWithin-rounds (negsuc n) o (lo, hi) = (lo, omega (arith, neg-parts (negsuc n)))

-- The keys are those of the cells around the centre.
pub ring_keys-InRing :
    (clat clon span : ℤ) (key : ℕ) → In key (ring_keys clat clon span) ↔ InRing clat clon span key
unfolding ring_keys
ring_keys-InRing clat clon span key = (
  λ p.
      let (o, r, q) = ring_loop-IsFrom key _ clat clon span (neg_ℤ span) p in
      let (o2, r2, e) = ring_row-IsFrom _ (clat +ℤ o) clon (neg_ℤ span) key q in
      record {
        d_lat = o;
        d_lon = o2;
        cell = e;
        lat_within = rounds-IsWithin span o r;
        lon_within = rounds-IsWithin span o2 r2;
      },
  λ i.
      ring_loop-all key _ clat clon span (neg_ℤ span) i.d_lat
        (IsWithin-rounds span i.d_lat i.lat_within)
        (rw i.cell (
          ring_row-all _ (clat +ℤ i.d_lat) clon (neg_ℤ span) i.d_lon
            (IsWithin-rounds span i.d_lon i.lon_within))),
)
