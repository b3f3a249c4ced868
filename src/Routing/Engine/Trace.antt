-- ===== src/Routing/Engine/Trace.antt =====
-- `reconstructOverlayPath`: where the predecessors lead down, its two loops end, with the way from
-- the start's seed over the meeting node to the end's seed.
use mathlib.Core.List.{reverse, append_assoc, append-nil}
use map_router.Base.{
  ℕ, zero, suc, ◌<◌, ◌≡◌, ◌≢◌, refl, sym, ◌∙◌, List, [], ◌∷◌, ◌++◌, arith, ◌==◌, length,
}
use map_router.Run.{Ensures, ensures, Ensures-bind, Ensures-mono, Ensures-if}
use map_router.Array.{Zeroed-ℕ, get!, at-ok}
use map_router.Routing.QueryState.{no_node}
use map_router.Routing.Engine.{trace_forward, trace_backward, reconstruct_overlay_path}

-- The nodes from `v` along the predecessors to one that has none.
pub data Chain (pred : List ℕ) : ℕ → List ℕ → Type 0 where
  stop : {v : ℕ} → get! pred v ≡ no_node → Chain pred v (v ∷ [])
  back :
      {v : ℕ} {path : List ℕ}
      → get! pred v ≢ no_node
      → Chain pred (get! pred v) path
      → Chain pred v (v ∷ path)

-- Every predecessor is a node of less height, as for nodes with less and less distance.
pub record IsDescending (n : ℕ) (pred : List ℕ) (height : ℕ → ℕ) : Type 0 where
  pub size : length pred ≡ n
  pub inside : (v : ℕ) → v < n → get! pred v ≢ no_node → get! pred v < n
  pub down : (v : ℕ) → v < n → get! pred v ≢ no_node → height (get! pred v) < height v

module _ (n : ℕ) (pred : List ℕ) (height : ℕ → ℕ) (desc : IsDescending n pred height) where
  -- The loops from `v` on add a chain to the path so far.
  Added : List ℕ → ℕ → List ℕ → Type 0
  Added path v whole = (more : List ℕ) × Chain pred v more × (whole ≡ path ++ more)

  Added-back :
      (path : List ℕ) (v : ℕ) (whole : List ℕ)
      → get! pred v ≢ no_node
      → Added (path ++ v ∷ []) (get! pred v) whole
      → Added path v whole
  unfolding Added
  Added-back path v whole some (more, chain, e) =
      (v ∷ more, back some chain, e ∙ append_assoc path (v ∷ []) more)

  trace_forward-Added :
      (fuel v : ℕ) (path : List ℕ)
      → v < n
      → height v < fuel
      → Ensures (Added path v) (trace_forward fuel pred v path)
  unfolding trace_forward Added
  trace_forward-Added zero v path inside enough = absurd (omega arith)
  trace_forward-Added (suc fuel) v path inside enough =
      rw (at-ok pred v (omega (arith, desc.size))) (
        Ensures-if (get! pred v == no_node) (λ none. ensures (v ∷ [], stop (ground arith), refl))
          (λ there.
            let some : get! pred v ≢ no_node = λ e. absurd (ground arith) in
            Ensures-mono (λ whole more. Added-back path v whole some more)
              (trace_forward-Added fuel (get! pred v) (path ++ v ∷ []) (desc.inside v inside some)
                (omega (arith, desc.down v inside some)))))

  -- The backward loop leaves out the first node of the chain.
  Behind : List ℕ → ℕ → List ℕ → Type 0
  Behind path v whole = (more : List ℕ) × Chain pred v (v ∷ more) × (whole ≡ path ++ more)

  Behind-back :
      (path : List ℕ) (v : ℕ) (whole : List ℕ)
      → get! pred v ≢ no_node
      → Behind (path ++ get! pred v ∷ []) (get! pred v) whole
      → Behind path v whole
  unfolding Behind
  Behind-back path v whole some (more, chain, e) =
      (get! pred v ∷ more, back some chain, e ∙ append_assoc path (get! pred v ∷ []) more)

  trace_backward-Behind :
      (fuel v : ℕ) (path : List ℕ)
      → v < n
      → height v < fuel
      → Ensures (Behind path v) (trace_backward fuel pred v path)
  unfolding trace_backward Behind
  trace_backward-Behind zero v path inside enough = absurd (omega arith)
  trace_backward-Behind (suc fuel) v path inside enough =
      rw (at-ok pred v (omega (arith, desc.size))) (
        Ensures-if (get! pred v == no_node)
          (λ none. ensures ([], stop (ground arith), sym (append-nil path)))
          (λ there.
            let some : get! pred v ≢ no_node = λ e. absurd (ground arith) in
            Ensures-mono (λ whole more. Behind-back path v whole some more)
              (trace_backward-Behind fuel (get! pred v) (path ++ get! pred v ∷ [])
                (desc.inside v inside some) (omega (arith, desc.down v inside some)))))

-- Where the predecessors of both directions descend, the reconstruction ends, with fuel above the
-- meeting node's heights. The path is the forward chain reversed, and then the backward chain
-- behind the meeting node.
pub reconstruct_overlay_path-Chain :
    (n : ℕ) (pred_fwd pred_bwd : List ℕ) (fwd_height bwd_height : ℕ → ℕ)
    → IsDescending n pred_fwd fwd_height
    → IsDescending n pred_bwd bwd_height
    → (fuel meet_node : ℕ) → meet_node < n
    → fwd_height meet_node < fuel
    → bwd_height meet_node < fuel
    → Ensures
        (λ path.
          (front : List ℕ) × (behind : List ℕ) × Chain pred_fwd meet_node front
          × Chain pred_bwd meet_node (meet_node ∷ behind)
          × (path ≡ reverse front ++ behind))
        (reconstruct_overlay_path fuel meet_node pred_fwd pred_bwd)
unfolding reconstruct_overlay_path Added Behind
reconstruct_overlay_path-Chain n pred_fwd pred_bwd fwd_height bwd_height fd bd fuel meet_node inside
      fwd_enough bwd_enough =
    Ensures-bind (trace_forward-Added n pred_fwd fwd_height fd fuel meet_node [] inside fwd_enough)
      λ path (front, chain, same).
        Ensures-mono
          (λ whole (behind, chain_back, e). (front, behind, chain, chain_back, rw same at e))
          (trace_backward-Behind n pred_bwd bwd_height bd fuel meet_node (reverse path) inside
            bwd_enough)
