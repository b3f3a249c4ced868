-- ===== src/Graph/Build/Nodes.antt =====
-- The numbering of `Build`: every node id that an edge names gets one index, and `nodeIDs` lists
-- the ids under their indices.
use map_router.Base.{
  ℕ, ◌+◌, ◌%◌, ◌<◌, ◌≤◌, ◌≡◌, refl, ◌∙◌, Bool, true, false, not, ◌&&◌, List, [], ◌∷◌, ◌++◌, Option,
  none, some, arith, ltb, ◌==◌, length, length-append, any_of, ℕ_discrete, ==-refl, ap,
}
use map_router.Array.{Zeroed-ℕ, get!, get!-append, get!-append_right}
use map_router.Word.{u32_mod}
use map_router.Float.{Float}
use map_router.Osm.Parse.{RawEdge}
use map_router.Graph.Build.{Numbering, find_node, add_if, add_node, node_index, number_nodes}

-- An entry of `nodeSet` that `nodeIDs` does not confirm.
abbrev pub is_wrong : List ℕ → ℕ × ℕ → Bool
is_wrong ids (id, idx) = not (ltb idx (length ids) && (get! ids idx == id))

-- `nodeSet` and `nodeIDs` are inverse to each other.
pub record IsNumbered (s : Numbering) : Type 0 where
  pub right : any_of (is_wrong s.node_ids) s.node_set ≡ false
  pub found : (i : ℕ) → i < length s.node_ids → find_node (get! s.node_ids i) s.node_set ≡ some i

-- What a lookup finds is in the map.
pub find_node-right :
    (ids : List ℕ) (id : ℕ) (node_set : List (ℕ × ℕ)) (i : ℕ)
    → any_of (is_wrong ids) node_set ≡ false
    → find_node id node_set ≡ some i
    → (i < length ids) × (get! ids i ≡ id)
unfolding find_node
find_node-right ids id [] i r h = cc
find_node-right ids id ((k, idx) ∷ node_set) i r h =
    ground (arith, find_node-right ids id node_set i)

pub find_node-any :
    (id : ℕ) (node_set : List (ℕ × ℕ)) (i : ℕ)
    → find_node id node_set ≡ some i
    → any_of (λ p. p.1 == i) node_set ≡ true
unfolding find_node
find_node-any id [] i h = cc
find_node-any id ((k, idx) ∷ node_set) i h = ground (arith, find_node-any id node_set i)

-- A longer `nodeIDs` confirms what the shorter one does.
is_wrong-append :
    (ids : List ℕ) (id : ℕ) (node_set : List (ℕ × ℕ))
    → any_of (is_wrong ids) node_set ≡ false
    → any_of (is_wrong (ids ++ id ∷ [])) node_set ≡ false
is_wrong-append ids id [] r = refl
is_wrong-append ids id ((k, idx) ∷ node_set) r = ground (
  arith,
  is_wrong-append ids id node_set,
  get!-append ids (id ∷ []) idx,
  length-append ids (id ∷ []),
)

find_node-none :
    (ids : List ℕ) (id i : ℕ) (node_set : List (ℕ × ℕ))
    → find_node id node_set ≡ none
    → find_node (get! ids i) node_set ≡ some i
    → (id == get! ids i) ≡ false
unfolding find_node
find_node-none ids id i node_set h e = differs (ℕ_discrete id (get! ids i))
  where
    differs : Dec (id ≡ get! ids i) → (id == get! ids i) ≡ false
    differs (yes same) = absurd (let e2 : find_node id node_set ≡ some i = rw same e in cc)
    differs (no apart) = ground arith

-- The numbering grows: ids keep their indices.
pub record IsLonger (s t : Numbering) : Type 0 where
  pub size : length s.node_ids ≤ length t.node_ids
  pub kept : (id i : ℕ) → find_node id s.node_set ≡ some i → find_node id t.node_set ≡ some i

pub IsLonger-refl : (s : Numbering) → IsLonger s s
IsLonger-refl s = record { size = omega arith; kept = λ id i h. h }

IsLonger-trans : {s t u : Numbering} → IsLonger s t → IsLonger t u → IsLonger s u
IsLonger-trans a b = record {
  size = omega (arith, a.size, b.size);
  kept = λ id i h. b.kept id i (a.kept id i h);
}

add_if-IsLonger :
    (o : Option ℕ) (id : ℕ) (s : Numbering)
    → find_node id s.node_set ≡ o
    → IsLonger s (add_if o id s)
unfolding add_if find_node
add_if-IsLonger (some idx) id s e = IsLonger-refl s
add_if-IsLonger none id s e = record {
  size = omega (arith, length-append s.node_ids (id ∷ []));
  kept = λ k i h. grind arith;
}

add_if-found :
    (o : Option ℕ) (id : ℕ) (s : Numbering)
    → find_node id s.node_set ≡ o
    → (i : ℕ) × (find_node id (add_if o id s).node_set ≡ some i)
unfolding add_if find_node
add_if-found (some idx) id s e = (idx, e)
add_if-found none id s e = (length s.node_ids % u32_mod, ground arith)

add_if-IsNumbered :
    (o : Option ℕ) (id : ℕ) (s : Numbering)
    → find_node id s.node_set ≡ o
    → length (add_if o id s).node_ids < u32_mod
    → IsNumbered s
    → IsNumbered (add_if o id s)
unfolding add_if find_node
add_if-IsNumbered (some idx) id s e room n = n
add_if-IsNumbered none id s e room n =
    let size : length (s.node_ids ++ id ∷ []) ≡ length s.node_ids + 1 =
      length-append s.node_ids (id ∷ []) in
    let index : length s.node_ids % u32_mod ≡ length s.node_ids = omega arith in
    let last = get!-append_right s.node_ids id in
    rw index record {
      right = ground (arith, is_wrong-append s.node_ids id s.node_set n.right, last);
      found = λ i p. elim (ℕ_discrete i (length s.node_ids)) [
        | yes same ↦ rw (same, last, ==-refl id)
        | no earlier ↦
            let before : i < length s.node_ids = omega arith in
            let old = get!-append s.node_ids (id ∷ []) i before in
            let apart : (id == get! (s.node_ids ++ id ∷ []) i) ≡ false =
              rw old (find_node-none s.node_ids id i s.node_set e (n.found i before)) in
            rw apart (ap (λ k. find_node k s.node_set) old ∙ n.found i before)
      ];
    }

-- Every node that an edge names has an index, which stands for its id.
pub record IsKnown (s : Numbering) (id : ℕ) : Type 0 where
  pub index : ℕ
  pub found : find_node id s.node_set ≡ some index

pub IsKnown-kept : {s t : Numbering} {id : ℕ} → IsLonger s t → IsKnown s id → IsKnown t id
IsKnown-kept a k = record { index = k.index; found = a.kept _ k.index k.found }

pub IsKnown-index :
    {s : Numbering} {id : ℕ}
    → IsNumbered s
    → IsKnown s id
    → (node_index id s.node_set < length s.node_ids)
      × (get! s.node_ids (node_index id s.node_set) ≡ id)
unfolding node_index
IsKnown-index {s} {id} n k =
    rw (node_index, k.found) (find_node-right s.node_ids id s.node_set k.index n.right k.found)

module _ (f : Float) where
  -- Both ends of every edge are known.
  abbrev pub AllKnown : Numbering → List (RawEdge f) → Type 0
  AllKnown s [] = Unit
  AllKnown s (e ∷ es) = IsKnown s e.from_node_id × IsKnown s e.to_node_id × AllKnown s es

  number_nodes-IsLonger : (es : List (RawEdge f)) (s : Numbering) → IsLonger s (number_nodes f es s)
  unfolding number_nodes add_node
  number_nodes-IsLonger [] s = IsLonger-refl s
  number_nodes-IsLonger (e ∷ es) s =
      IsLonger-trans (add_if-IsLonger _ e.from_node_id s refl)
        (IsLonger-trans (add_if-IsLonger _ e.to_node_id _ refl) (number_nodes-IsLonger es _))

  pub number_nodes-AllKnown :
      (es : List (RawEdge f)) (s : Numbering) → AllKnown (number_nodes f es s) es
  unfolding number_nodes add_node
  number_nodes-AllKnown [] s = tt
  number_nodes-AllKnown (e ∷ es) s =
      let (i, from_found) = add_if-found _ e.from_node_id s refl in
      let first = add_node e.from_node_id s in
      let (j, to_found) = add_if-found _ e.to_node_id first refl in
      let later = number_nodes-IsLonger es (add_node e.to_node_id first) in
      let whole = IsLonger-trans (add_if-IsLonger _ e.to_node_id first refl) later in
      (
        IsKnown-kept whole (record { index = i; found = from_found }),
        IsKnown-kept later (record { index = j; found = to_found }),
        number_nodes-AllKnown es _,
      )

  pub number_nodes-IsNumbered :
      (es : List (RawEdge f)) (s : Numbering)
      → length (number_nodes f es s).node_ids < u32_mod
      → IsNumbered s
      → IsNumbered (number_nodes f es s)
  unfolding number_nodes add_node
  number_nodes-IsNumbered [] s room n = n
  number_nodes-IsNumbered (e ∷ es) s room n =
      let first = add_node e.from_node_id s in
      let second = add_node e.to_node_id first in
      let later = number_nodes-IsLonger es second in
      let between = add_if-IsLonger _ e.to_node_id first refl in
      let middle =
        add_if-IsNumbered _ e.from_node_id s refl (omega (arith, later.size, between.size)) n in
      number_nodes-IsNumbered es second room
        (add_if-IsNumbered _ e.to_node_id first refl (omega (arith, later.size)) middle)
