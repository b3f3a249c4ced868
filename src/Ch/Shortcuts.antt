-- ===== src/Ch/Shortcuts.antt =====
-- `findShortcuts` and `computePriority` of pkg/ch/contractor.go.
use map_router.Base.{
  ℕ, ◌+◌, ◌*◌, Bool, not, ◌&&◌, ◌||◌, List, [], ◌∷◌, ◌++◌, ltb, ◌==◌, if◌then◌else◌, length, ℤ, pos,
  ◌+ℤ◌, sub_ℕ,
}
use map_router.Run.{Run, ok, ◌>>=◌}
use map_router.Array.{at}
use map_router.Word.{add32}
use map_router.Ch.Witness.{AdjEntry, Adjacency, WitnessState, batch_witness_search}

pub record Shortcut : Type 0 where
  pub from : ℕ
  pub to : ℕ
  pub weight : ℕ

-- The entries whose node is not contracted.
unfoldable pub active : List Bool → List AdjEntry → Run (List AdjEntry)
active contracted [] = ok []
active contracted (e ∷ edges) = active contracted edges >>= λ rest.
    at contracted e.to >>= λ gone. ok (if gone then rest else e ∷ rest)

-- `maxOut`, from the value so far.
pub max_out : ℕ → List AdjEntry → ℕ → ℕ
max_out source [] best = best
max_out source (out ∷ outgoing) best =
    max_out source outgoing
      (if not (out.to == source) && ltb best out.weight then out.weight else best)

-- The loop over the outgoing entries after the search from `in.to`.
pub check_targets : List ℕ → AdjEntry → List AdjEntry → List Shortcut → Run (List Shortcut)
check_targets dist into [] shortcuts = ok shortcuts
check_targets dist into (out ∷ outgoing) shortcuts =
    let sc_weight = add32 into.weight out.weight in
    let check : Run (List Shortcut) = do
      label ← at dist out.to
      ok (
          if ltb sc_weight label
          then shortcuts ++ record { from = into.to; to = out.to; weight = sc_weight } ∷ []
          else shortcuts)
    in (if out.to == into.to then ok shortcuts else check) >>= λ next.
    check_targets dist into outgoing next

-- The loop over the incoming entries.
pub shortcut_loop :
    ℕ
    → Adjacency
    → ℕ
    → List Bool
    → List AdjEntry
    → List AdjEntry
    → WitnessState
    → List Shortcut
    → Run (List Shortcut × WitnessState)
shortcut_loop fuel out_adj node contracted outgoing [] ws shortcuts = ok (shortcuts, ws)
shortcut_loop fuel out_adj node contracted outgoing (into ∷ incoming) ws shortcuts =
    let most = max_out into.to outgoing 0 in
    let skipped = shortcut_loop fuel out_adj node contracted outgoing incoming ws shortcuts in
    let searched : Run (List Shortcut × WitnessState) = do
      found ← batch_witness_search fuel ws out_adj into.to node (add32 into.weight most) contracted
      more ← check_targets found.dist into outgoing shortcuts
      shortcut_loop fuel out_adj node contracted outgoing incoming found more
    in if most == 0 then skipped else searched

unfoldable pub find_shortcuts :
    ℕ → WitnessState → Adjacency → Adjacency → ℕ → List Bool → Run (List Shortcut × WitnessState)
unfolding shortcut_loop check_targets max_out
find_shortcuts fuel ws out_adj in_adj node contracted = do
  ins ← at in_adj node
  incoming ← active contracted ins
  outs ← at out_adj node
  outgoing ← active contracted outs
  if length incoming == 0 || length outgoing == 0
      then ok ([], ws)
      else shortcut_loop fuel out_adj node contracted outgoing incoming ws []

unfoldable pub compute_priority : Adjacency → Adjacency → ℕ → List Bool → ℕ → ℕ → Run ℤ
compute_priority out_adj in_adj node contracted contracted_neighbors level = do
  ins ← at in_adj node
  incoming ← active contracted ins
  outs ← at out_adj node
  outgoing ← active contracted outs
  let active_in = length incoming
  let active_out = length outgoing
  let edge_difference = sub_ℕ (active_in * active_out) (active_in + active_out)
  ok (edge_difference +ℤ pos (2 * contracted_neighbors) +ℤ pos level)
