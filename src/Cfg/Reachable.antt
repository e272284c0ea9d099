-- ===== src/Cfg/Reachable.antt =====
-- `ControlFlowGraph.reachable_blocks`: the loop ends, and finds exactly the reachable blocks.
use misra_c_agent.Base.{suc, ◌≡◌, refl, ◌↔◌, arith, true, some, List, [], ◌∷◌, ◌||◌, mem, length}
use misra_c_agent.Base.Search.{
  Reach, open_edges, visit_all_lem, Explored, stack_push-IsPush, Reach-closed,
}
use misra_c_agent.Cfg.{
  BlockId, entry_id, exit_id, b, block_id_eq, CfgEdge, ControlFlowGraph, pairs, reachable_blocks,
}

-- A walk along the edges of the graph from the entry block.
abbrev pub IsReachable : ControlFlowGraph → BlockId → Type 0
IsReachable cfg block_id = Reach (pairs cfg.edges) entry_id block_id

open_edges-pairs : (edges : List CfgEdge) → open_edges (pairs edges) [] ≡ length edges
open_edges-pairs [] = refl
open_edges-pairs (edge ∷ edges) = omega (arith, open_edges-pairs edges)

root_IsReachable :
    (cfg : ControlFlowGraph) (a : BlockId)
    → (mem a (entry_id ∷ []) || mem a []) ≡ true
    → IsReachable cfg a
root_IsReachable cfg entry_id m = Reach.here
root_IsReachable cfg exit_id m = cc
root_IsReachable cfg (b n) m = cc

explored :
    (cfg : ControlFlowGraph)
    → Explored (IsReachable cfg) (pairs cfg.edges) (entry_id ∷ []) [] (reachable_blocks cfg)
unfolding reachable_blocks
explored cfg =
    visit_all_lem (IsReachable cfg) (pairs cfg.edges) (λ a b r t. Reach.step r t) stack_push-IsPush
      (suc (suc (length cfg.edges))) (entry_id ∷ []) [] (omega (arith, open_edges-pairs cfg.edges))
      (root_IsReachable cfg) (λ a b m. cc)

-- The loop ends with a set that holds a block exactly when a walk leads to it from the entry block.
pub reachable_blocks_exact :
    (cfg : ControlFlowGraph)
    → (reachable : List BlockId) × (reachable_blocks cfg ≡ some reachable)
      × ((x : BlockId) → (mem x reachable ≡ true) ↔ IsReachable cfg x)
reachable_blocks_exact cfg =
    let r = explored cfg in
    (
      r.all,
      r.ends,
      λ x. (
        r.sound x,
        Reach-closed (pairs cfg.edges) r.all r.closed entry_id x (r.holds entry_id refl),
      ),
    )
