-- ===== src/DataFlow/Liveness.antt =====
-- `liveness` and `dead_stores` of dataflow_engine_v2.py.
use misra_c_agent.Base.{
  ℕ, String, Bool, Option, none, some, List, [], ◌∷◌, ◌++◌, map, ◌==◌, ◌&&◌, not, reverse,
  string_eq, mem, filter_by, if◌then◌else◌, add, Dict, lookup,
}
use misra_c_agent.Base.Tables.{Table, get}
use misra_c_agent.Base.Backward.{backward}
use misra_c_agent.Base.GenKill.{gen_kill, all_generated}
use misra_c_agent.Ast.{Node, AstGraph}
use misra_c_agent.Cfg.{BlockId, block_id_eq, CfgEdge, BasicBlock, ControlFlowGraph, successors}
use misra_c_agent.DataFlow.{Event, reads, block_events, block_def_use}
use misra_c_agent.DataFlow.Reaching.{block_ids, written, writes_of}

-- `edge.target for edge in cfg.successors(block_id)`
abbrev pub targets_of : ControlFlowGraph → BlockId → List BlockId
targets_of cfg block_id = map (λ (edge : CfgEdge). edge.target) (successors cfg block_id)

-- The set `live_after`, past an event on the way back.
unfoldable pub before_event : Event → List String → List String
before_event event live =
    let kept =
      if event.is_write && not event.is_read_too
      then filter_by (λ name. not (name == event.variable)) live
      else live in
    if reads event then add event.variable kept else kept

-- The loop over the reversed events of a block.
unfoldable pub dead_scan : List Event → List String → List Node
unfolding before_event
dead_scan [] live = []
dead_scan (event ∷ events) live =
    let rest = dead_scan events (before_event event live) in
    if event.is_write && not event.is_read_too && not (mem event.variable live)
    then event.node ∷ rest
    else rest

module _ (fuel : ℕ) where
  -- `use[block_id]`
  unfoldable pub use_of : ControlFlowGraph → AstGraph → BlockId → List String
  unfolding block_def_use
  use_of cfg graph block_id = elim (lookup block_id cfg.blocks) [
    | none ↦ []
    | some block ↦ (block_def_use fuel block graph).1
  ]

  -- `name in defs[block_id]`
  unfoldable pub defines : ControlFlowGraph → AstGraph → BlockId → String → Bool
  unfolding writes_of
  defines cfg graph block_id name = mem name (written (writes_of fuel cfg graph block_id))

  -- The loop of `liveness`, with both of its tables.
  unfoldable pub live_tables :
      ControlFlowGraph → AstGraph → Option (Table BlockId String × Table BlockId String)
  unfolding backward use_of defines successors
  live_tables cfg graph =
      let use_sets = use_of cfg graph in
      let kills = defines cfg graph in
      backward (gen_kill use_sets kills) (targets_of cfg) (block_ids cfg)
        (all_generated use_sets kills (block_ids cfg))

  -- `liveness`
  unfoldable pub liveness : ControlFlowGraph → AstGraph → Option (Table BlockId String)
  unfolding live_tables
  liveness cfg graph = elim (live_tables cfg graph) [
    | none ↦ none
    | some (live_in, live_out) ↦ some live_out
  ]

  unfoldable pub dead_in_blocks :
      AstGraph → Table BlockId String → Dict BlockId BasicBlock → List Node
  unfolding block_events get dead_scan
  dead_in_blocks graph live_out [] = []
  dead_in_blocks graph live_out ((block_id, block) ∷ blocks) =
      dead_scan (reverse (block_events fuel block graph)) (get live_out block_id)
      ++ dead_in_blocks graph live_out blocks

  -- `dead_stores`
  unfoldable pub dead_stores : ControlFlowGraph → AstGraph → Option (List Node)
  unfolding liveness dead_in_blocks
  dead_stores cfg graph = elim (liveness cfg graph) [
    | none ↦ none
    | some live_out ↦ some (dead_in_blocks graph live_out cfg.blocks)
  ]
