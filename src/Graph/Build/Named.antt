-- ===== src/Graph/Build/Named.antt =====
-- The ids that the numbering of `Build` lists.
use map_router.Base.{
  ℕ, ◌≡◌, refl, ◌∙◌, ap, Bool, true, ◌||◌, List, [], ◌∷◌, ◌++◌, Option, none, some, arith, ◌==◌,
  any_of, ℕ_discrete, Bool-cases, inl, inr,
}
use map_router.Float.{Float}
use map_router.Osm.Parse.{RawEdge}
use map_router.Graph.Build.{Numbering, find_node, add_if, add_node, number_nodes}

-- `nodeIDs` has every key of `nodeSet`.
abbrev IsListed : Numbering → Type 0
IsListed s = (id i : ℕ) → find_node id s.node_set ≡ some i → any_of (λ k. k == id) s.node_ids ≡ true

any_of-last :
    (test : ℕ → Bool) (ids : List ℕ) (id : ℕ)
    → any_of test (ids ++ id ∷ []) ≡ (any_of test ids || test id)
any_of-last test [] id = ground arith
any_of-last test (k ∷ ids) id = ground (arith, any_of-last test ids id)

add_if-any :
    (o : Option ℕ) (id : ℕ) (s : Numbering)
    → find_node id s.node_set ≡ o
    → IsListed s
    → (x : ℕ)
    → any_of (λ k. k == x) (add_if o id s).node_ids ≡ (any_of (λ k. k == x) s.node_ids || id == x)
unfolding add_if
add_if-any none id s e listed x = any_of-last (λ k. k == x) s.node_ids id
add_if-any (some i) id s e listed x = elim (ℕ_discrete id x) [
  | yes same ↦ rw (← same, listed id i e) refl
  | no apart ↦ ground arith
]

add_if-IsListed :
    (o : Option ℕ) (id : ℕ) (s : Numbering)
    → find_node id s.node_set ≡ o
    → IsListed s
    → IsListed (add_if o id s)
unfolding add_if find_node
add_if-IsListed (some i) id s e listed x j h = listed x j h
add_if-IsListed none id s e listed x i h =
    rw (any_of-last (λ k. k == x) s.node_ids id) (elim (Bool-cases (id == x)) [
      | inl same ↦ rw same (ground arith)
      | inr apart ↦ rw (listed x i (rw apart at h)) refl
    ])

module _ (f : Float) where
  -- Whether an edge names the node.
  abbrev pub is_named : ℕ → RawEdge f → Bool
  is_named id e = e.from_node_id == id || e.to_node_id == id

  -- The ids that are numbered are those that the edges name.
  pub number_nodes-named :
      (es : List (RawEdge f)) (s : Numbering)
      → IsListed s
      → (x : ℕ)
      → any_of (λ k. k == x) (number_nodes f es s).node_ids
        ≡ (any_of (λ k. k == x) s.node_ids || any_of (is_named x) es)
  unfolding number_nodes add_node
  number_nodes-named [] s listed x = ground arith
  number_nodes-named (e ∷ es) s listed x =
      let first = add_node e.from_node_id s in
      let second = add_node e.to_node_id first in
      let listed1 = add_if-IsListed _ e.from_node_id s refl listed in
      let listed2 = add_if-IsListed _ e.to_node_id first refl listed1 in
      number_nodes-named es second listed2 x
      ∙ ap (λ b. b || any_of (is_named x) es)
          (add_if-any _ e.to_node_id first refl listed1 x
            ∙ ap (λ b. b || e.to_node_id == x) (add_if-any _ e.from_node_id s refl listed x))
      ∙ regroup (any_of (λ k. k == x) s.node_ids) (e.from_node_id == x) (e.to_node_id == x) _
    where
      regroup : (a b c d : Bool) → ((a || b) || c) || d ≡ a || ((b || c) || d)
      regroup a b c d = ground arith
