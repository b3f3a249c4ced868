-- ===== src/Osm/Access/Rules.antt =====
-- What the tag rules decide.
use Prim.Native.String.{String}
use text.Mathlib.Text.{◌==◌ as str_eq}
use text.Mathlib.TextEquality.{eq_iff}
use map_router.Base.{◌≡◌, refl, not, ◌&&◌, ◌||◌, [], ◌∷◌, arith, inl, inr, Bool-cases, false}
use map_router.Osm.Access.{
  one_of, car_highways, physical_barriers, gate_barriers, gated, open_access, classify_access,
  node_barrier_restricts, direction_flags,
}

-- The values of `oneway` that the rules know, or another one.
data Oneway (s : String) : Type 0 where
  is_yes : s ≡ "yes" → Oneway s
  is_true : s ≡ "true" → Oneway s
  is_1 : s ≡ "1" → Oneway s
  is_minus_1 : s ≡ "-1" → Oneway s
  is_reverse : s ≡ "reverse" → Oneway s
  is_no : s ≡ "no" → Oneway s
  is_reversible : s ≡ "reversible" → Oneway s
  is_other :
      (str_eq s "yes" ≡ false)
      → (str_eq s "true" ≡ false)
      → (str_eq s "1" ≡ false)
      → (str_eq s "-1" ≡ false)
      → (str_eq s "reverse" ≡ false)
      → (str_eq s "no" ≡ false)
      → (str_eq s "reversible" ≡ false)
      → Oneway s

Oneway-cases : (s : String) → Oneway s
Oneway-cases s = elim (Bool-cases (str_eq s "yes")) [
  | inl e ↦ is_yes ((eq_iff s "yes").0 e)
  | inr n0 ↦ elim (Bool-cases (str_eq s "true")) [
    | inl e ↦ is_true ((eq_iff s "true").0 e)
    | inr n1 ↦ elim (Bool-cases (str_eq s "1")) [
      | inl e ↦ is_1 ((eq_iff s "1").0 e)
      | inr n2 ↦ elim (Bool-cases (str_eq s "-1")) [
        | inl e ↦ is_minus_1 ((eq_iff s "-1").0 e)
        | inr n3 ↦ elim (Bool-cases (str_eq s "reverse")) [
          | inl e ↦ is_reverse ((eq_iff s "reverse").0 e)
          | inr n4 ↦ elim (Bool-cases (str_eq s "no")) [
            | inl e ↦ is_no ((eq_iff s "no").0 e)
            | inr n5 ↦ elim (Bool-cases (str_eq s "reversible")) [
              | inl e ↦ is_reversible ((eq_iff s "reversible").0 e)
              | inr n6 ↦ is_other n0 n1 n2 n3 n4 n5 n6
            ]
          ]
        ]
      ]
    ]
  ]
]

module _ {Tags : Type 0} (find : Tags → String → String) (tags : Tags) where
  -- A way is kept exactly if it is a car highway that is no area, `access` does not close it, and
  -- `motor_vehicle=no` does not close it either, which `access` overrides for gated roads.
  pub classify_access-keep : (classify_access find tags).keep ≡ (
      one_of car_highways (find tags "highway")
      && not (str_eq (find tags "area") "yes")
      && not (str_eq (find tags "access") "no")
      && (one_of gated (find tags "access") || not (str_eq (find tags "motor_vehicle") "no")))
  unfolding classify_access
  classify_access-keep = ground arith

  -- A barrier node restricts exactly if it is a known barrier that no tag opens, and it is
  -- physical, locked, or a gate that a tag closes.
  pub node_barrier_restricts_lem : node_barrier_restricts find tags ≡ (
      not (str_eq (find tags "barrier") "")
      && (one_of physical_barriers (find tags "barrier")
          || one_of gate_barriers (find tags "barrier"))
      && not (one_of open_access (find tags "motor_vehicle"))
      && not (one_of open_access (find tags "access"))
      && (one_of physical_barriers (find tags "barrier")
          || str_eq (find tags "locked") "yes"
          || one_of ("no" ∷ gated) (find tags "access")
          || one_of ("no" ∷ "private" ∷ []) (find tags "motor_vehicle")))
  unfolding node_barrier_restricts
  node_barrier_restricts_lem = ground arith

  -- A way may be driven forward unless `oneway` reverses it or is `reversible`.
  pub direction_flags-forward :
      (direction_flags find tags).forward
      ≡ not (one_of ("-1" ∷ "reverse" ∷ "reversible" ∷ []) (find tags "oneway"))
  unfolding direction_flags one_of
  direction_flags-forward = elim (Oneway-cases (find tags "oneway")) [
    | is_yes e ↦ rw e refl
    | is_true e ↦ rw e refl
    | is_1 e ↦ rw e refl
    | is_minus_1 e ↦ rw e refl
    | is_reverse e ↦ rw e refl
    | is_no e ↦ rw e refl
    | is_reversible e ↦ rw e refl
    | is_other n0 n1 n2 n3 n4 n5 n6 ↦ rw (n0, n1, n2, n3, n4, n5, n6) refl
  ]

  -- A way may be driven backward if `oneway` reverses it or denies a one-way, and without an
  -- `oneway` that the rules know unless its class implies one.
  pub direction_flags-backward : (direction_flags find tags).backward ≡ (
      one_of ("-1" ∷ "reverse" ∷ "no" ∷ []) (find tags "oneway")
      || (not (one_of ("yes" ∷ "true" ∷ "1" ∷ "reversible" ∷ []) (find tags "oneway"))
          && not (
              str_eq (find tags "highway") "motorway"
              || str_eq (find tags "highway") "motorway_link"
              || str_eq (find tags "junction") "roundabout")))
  unfolding direction_flags one_of
  direction_flags-backward = elim (Oneway-cases (find tags "oneway")) [
    | is_yes e ↦ rw e refl
    | is_true e ↦ rw e refl
    | is_1 e ↦ rw e refl
    | is_minus_1 e ↦ rw e refl
    | is_reverse e ↦ rw e refl
    | is_no e ↦ rw e refl
    | is_reversible e ↦ rw e refl
    | is_other n0 n1 n2 n3 n4 n5 n6 ↦ rw (n0, n1, n2, n3, n4, n5, n6) refl
  ]
