-- ===== src/Routing/Unpack/Expand.antt =====
-- The stack of `unpackOverlayPath` computes the recursive expansion of a hop.
use map_router.Base.{
  ℕ, zero, suc, ◌+◌, ◌-◌, ◌<◌, ◌≤◌, ◌≡◌, ◌∙◌, refl, sym, List, [], ◌∷◌, arith, ltb_of_le, ltb_of_lt,
  ℤ, pos, negsuc,
}
use map_router.Run.{Run, ok, ◌>>=◌, >>=-assoc, >>=-cong, >>=-ok}
use map_router.Graph.{ChGraph}
use map_router.Routing.Unpack.{
  by_middle, append_edge, StackItem, hop_fuel, find_middle, unpack_loop, unpack_hops,
  unpack_overlay_path,
}

module _ {F : Type 0} (chg : ChGraph F) where
  -- A hop, expanded with `r` levels left: an original edge is appended, a shortcut is its two
  -- halves, and a hop without levels left is dropped.
  pub expand : ℕ → ℕ → ℕ → List ℕ → Run (List ℕ)
  expand zero from_node to_node result = ok result
  expand (suc r) from_node to_node result = find_middle chg from_node to_node >>= λ middle.
      by_middle middle (λ m. expand r from_node m result >>= λ longer. expand r m to_node longer)
        (append_edge result from_node to_node)

  abbrev levels : StackItem → ℕ
  levels it = 201 - it.depth

  -- The items of a stack, expanded one after the other.
  expand_all : List StackItem → List ℕ → Run (List ℕ)
  expand_all [] result = ok result
  expand_all (it ∷ stack) result =
      expand (levels it) it.from_node it.to_node result >>= λ longer. expand_all stack longer

  stack_fuel : List StackItem → ℕ
  stack_fuel [] = 0
  stack_fuel (it ∷ stack) = hop_fuel (levels it) + stack_fuel stack

  hop_fuel_pos : (r : ℕ) → 0 < hop_fuel r
  unfolding hop_fuel
  hop_fuel_pos zero = omega arith
  hop_fuel_pos (suc r) = omega arith

  abbrev AtFuel : ℕ → Type 0
  AtFuel fuel =
      (stack : List StackItem) (result : List ℕ)
      → stack_fuel stack < fuel
      → unpack_loop chg fuel stack result ≡ expand_all stack result

  -- One iteration, if the loop is right on one step of fuel less.
  module _ (fuel : ℕ) (it : StackItem) (stack : List StackItem) (result : List ℕ) where
    abbrev halves : ℕ → List StackItem
    halves v =
        record { from_node = it.from_node; to_node = v; depth = it.depth + 1 }
        ∷ record { from_node = v; to_node = it.to_node; depth = it.depth + 1 }
        ∷ stack

    shortcut-expand :
        (r v : ℕ)
        → levels it ≡ suc r
        → unpack_loop chg fuel (halves v) result ≡ expand_all (halves v) result
        → unpack_loop chg fuel (halves v) result ≡ (
            (expand r it.from_node v result >>= λ longer. expand r v it.to_node longer)
            >>= λ longer. expand_all stack longer)
    unfolding expand_all
    shortcut-expand r v e ih =
        let below : 201 - (it.depth + 1) ≡ r = omega (arith, e) in
        let flat =
          >>=-assoc (expand r it.from_node v result) (λ longer. expand r v it.to_node longer)
            (λ longer. expand_all stack longer) in
        rw below at ih ∙ sym flat

    deep :
        200 < it.depth
        → unpack_loop chg (suc fuel) (it ∷ stack) result ≡ unpack_loop chg fuel stack result
    unfolding unpack_loop
    deep h = rw (ltb_of_lt 200 it.depth h) refl

    shallow :
        it.depth ≤ 200
        → unpack_loop chg (suc fuel) (it ∷ stack) result ≡ (
            find_middle chg it.from_node it.to_node >>= λ middle.
            by_middle middle
              (λ v. unpack_loop chg fuel (halves v) result)
              (append_edge result it.from_node it.to_node >>= λ longer.
                unpack_loop chg fuel stack longer))
    unfolding unpack_loop
    shallow h = rw (ltb_of_le 200 it.depth h) refl

    dropped : levels it ≡ 0 → expand_all (it ∷ stack) result ≡ expand_all stack result
    unfolding expand_all expand
    dropped e = rw e refl

    expanded :
        (r : ℕ)
        → levels it ≡ suc r
        → expand_all (it ∷ stack) result ≡ (
            (find_middle chg it.from_node it.to_node >>= λ middle.
            by_middle middle
              (λ v. expand r it.from_node v result >>= λ longer. expand r v it.to_node longer)
              (append_edge result it.from_node it.to_node))
            >>= λ longer. expand_all stack longer)
    unfolding expand_all expand
    expanded r e = rw e refl

    stack_small : stack_fuel (it ∷ stack) < suc fuel → stack_fuel stack < fuel
    unfolding stack_fuel
    stack_small h = let positive = hop_fuel_pos (levels it) in omega arith

    halves_small :
        (r v : ℕ)
        → levels it ≡ suc r
        → stack_fuel (it ∷ stack) < suc fuel
        → stack_fuel (halves v) < fuel
    unfolding stack_fuel hop_fuel
    halves_small r v e h =
        let below : 201 - (it.depth + 1) ≡ r = omega (arith, e) in
        let h' = rw e at h in rw below (omega (arith, h'))

    same_middle :
        (r : ℕ) (middle : ℤ)
        → AtFuel fuel
        → stack_fuel (it ∷ stack) < suc fuel
        → levels it ≡ suc r
        → by_middle middle
            (λ v. unpack_loop chg fuel (halves v) result)
            (append_edge result it.from_node it.to_node >>= λ longer.
              unpack_loop chg fuel stack longer)
          ≡ (by_middle middle
                (λ v. expand r it.from_node v result >>= λ longer. expand r v it.to_node longer)
                (append_edge result it.from_node it.to_node)
              >>= λ longer. expand_all stack longer)
    same_middle r (pos v) ih h e =
        shortcut-expand r v e (ih (halves v) result (halves_small r v e h))
    same_middle r (negsuc v) ih h e =
        >>=-cong (append_edge result it.from_node it.to_node) _ _
          (λ longer. ih stack longer (stack_small h))

    iteration :
        (r : ℕ)
        → levels it ≡ r
        → AtFuel fuel
        → stack_fuel (it ∷ stack) < suc fuel
        → unpack_loop chg (suc fuel) (it ∷ stack) result ≡ expand_all (it ∷ stack) result
    iteration zero e ih h =
        deep (omega (arith, e)) ∙ ih stack result (stack_small h) ∙ sym (dropped e)
    iteration (suc r) e ih h =
        shallow (omega (arith, e))
        ∙ >>=-cong (find_middle chg it.from_node it.to_node) _ _
            (λ middle. same_middle r middle ih h e)
        ∙ sym (>>=-assoc (find_middle chg it.from_node it.to_node) _ _)
        ∙ sym (expanded r e)

  unpack_loop-expand_all : (fuel : ℕ) → AtFuel fuel
  unfolding unpack_loop expand_all
  unpack_loop-expand_all zero stack result h = absurd (omega arith)
  unpack_loop-expand_all (suc fuel) [] result h = refl
  unpack_loop-expand_all (suc fuel) (it ∷ stack) result h =
      iteration fuel it stack result (levels it) refl (unpack_loop-expand_all fuel) h

  -- The hops of a path, expanded one after the other.
  pub expand_hops : List ℕ → List ℕ → Run (List ℕ)
  expand_hops [] result = ok result
  expand_hops (a ∷ []) result = ok result
  expand_hops (a ∷ b ∷ rest) result =
      expand 201 a b result >>= λ longer. expand_hops (b ∷ rest) longer

  -- What a path unpacks to, by recursion on the levels of shortcuts.
  abbrev pub expand_path : List ℕ → Run (List ℕ)
  expand_path [] = ok []
  expand_path (a ∷ rest) = expand_hops (a ∷ rest) (a ∷ [])

  hop_small :
      (a b : ℕ)
      → stack_fuel (record { from_node = a; to_node = b; depth = 0 } ∷ []) < hop_fuel 201 + 1
  unfolding stack_fuel
  hop_small a b = omega arith

  single :
      (a b : ℕ) (result : List ℕ)
      → expand_all (record { from_node = a; to_node = b; depth = 0 } ∷ []) result
        ≡ expand 201 a b result
  unfolding expand_all
  single a b result = >>=-ok (expand 201 a b result)

  one_hop :
      (a b : ℕ) (result : List ℕ) (rest : List ℕ → Run (List ℕ))
      → (unpack_loop chg
            (hop_fuel 201 + 1)
            (record { from_node = a; to_node = b; depth = 0 } ∷ [])
            result
          >>= rest)
        ≡ (expand 201 a b result >>= rest)
  one_hop a b result rest =
      let hop : List StackItem = record { from_node = a; to_node = b; depth = 0 } ∷ [] in
      let whole = unpack_loop-expand_all (hop_fuel 201 + 1) hop result (hop_small a b) in
      rw (whole, single a b result) refl

  unpack_hops-expand_hops :
      (path result : List ℕ) → unpack_hops chg path result ≡ expand_hops path result
  unfolding unpack_hops expand_hops
  unpack_hops-expand_hops [] result = refl
  unpack_hops-expand_hops (a ∷ []) result = refl
  unpack_hops-expand_hops (a ∷ b ∷ rest) result =
      one_hop a b result (λ longer. unpack_hops chg (b ∷ rest) longer)
      ∙ >>=-cong (expand 201 a b result) _ _ (unpack_hops-expand_hops (b ∷ rest))

  -- The loop with its stack computes the recursive expansion of every hop, and its fuel never runs
  -- out before that ends.
  pub unpack_overlay_path-expand_path :
      (path : List ℕ) → unpack_overlay_path chg path ≡ expand_path path
  unfolding unpack_overlay_path expand_hops
  unpack_overlay_path-expand_path [] = refl
  unpack_overlay_path-expand_path (a ∷ []) = refl
  unpack_overlay_path-expand_path (a ∷ b ∷ rest) = unpack_hops-expand_hops (a ∷ b ∷ rest) (a ∷ [])
