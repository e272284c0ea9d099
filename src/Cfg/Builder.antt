-- ===== src/Cfg/Builder.antt =====
-- rule-engine/src/misra_platform_rules/analyzers/cfg_engine.py: the state of `CFGEngine.build` and
-- the helpers that work on it. `Builder` holds what the source keeps in `cfg`, `factory`,
-- `label_targets`, `pending_gotos` and `_sequence_tails`. A block in hand is known by its id: the
-- source's object and the entry of `cfg.blocks` are one. The top of a loop stack is its head.
use misra_c_agent.Base.{
  ℕ, suc, String, Bool, false, Option, none, some, List, [], ◌∷◌, ◌++◌, ◌==◌, ◌||◌, string_eq, Dict,
  lookup, insert, any_of, if◌then◌else◌,
}
use misra_c_agent.Ast.{Node}
use misra_c_agent.Cfg.{
  BlockId, b, block_id_eq, CfgEdge, BasicBlock, ControlFlowGraph, successors, has_statements,
}

pub record Builder : Type 0 where
  pub function_node_id : String
  pub blocks : Dict BlockId BasicBlock
  pub edges : List CfgEdge
  pub counter : ℕ
  pub label_targets : Dict String BlockId
  pub pending_gotos : List (BlockId × String)
  pub sequence_tails : Dict BlockId BlockId

abbrev pub cfg_of : Builder → ControlFlowGraph
cfg_of s = record { function_node_id = s.function_node_id; blocks = s.blocks; edges = s.edges }

-- (continue target, break target)
abbrev pub LoopStack : Type 0
LoopStack = List (BlockId × BlockId)

-- `_new_block`, with `_BlockFactory.next_id`.
unfoldable pub new_block : String → Builder → BlockId × Builder
new_block kind s =
    let n = suc s.counter in
    (
      b n,
      record s {
        counter = n;
        blocks = insert (b n) (record { statements = []; kind = kind }) s.blocks;
      },
    )

-- `cfg.edges.append(CFGEdge(source, target, kind=kind, label=label))`
unfoldable pub add_labelled_edge : BlockId → BlockId → String → Option String → Builder → Builder
add_labelled_edge source target kind label s = record s {
  edges = s.edges ++ record { source = source; target = target; kind = kind; label = label } ∷ [];
}

unfoldable pub add_edge : BlockId → BlockId → String → Builder → Builder
unfolding add_labelled_edge
add_edge source target kind s = add_labelled_edge source target kind none s

unfoldable pub append_to : BlockId → Node → Dict BlockId BasicBlock → Dict BlockId BasicBlock
append_to block_id statement [] = []
append_to block_id statement ((j, block) ∷ blocks) =
    if j == block_id
    then (j, record block { statements = block.statements ++ statement ∷ [] }) ∷ blocks
    else (j, block) ∷ append_to block_id statement blocks

-- `current.statements.append(statement)`
unfoldable pub append_statement : BlockId → Node → Builder → Builder
unfolding append_to
append_statement current statement s = record s { blocks = append_to current statement s.blocks }

-- `bool(current.statements)`
unfoldable pub is_filled : BlockId → Builder → Bool
is_filled current s = elim (lookup current s.blocks) [
  | none ↦ false
  | some block ↦ has_statements block
]

-- `_tail_of`
unfoldable pub tail_of : BlockId → Builder → BlockId
tail_of entry_block_id s = elim (lookup entry_block_id s.sequence_tails) [
  | none ↦ entry_block_id
  | some tail ↦ tail
]

-- `self._sequence_tails.setdefault(first, current)`
unfoldable pub set_tail : BlockId → BlockId → Builder → Builder
set_tail first current s = elim (lookup first s.sequence_tails) [
  | none ↦ record s { sequence_tails = insert first current s.sequence_tails }
  | some tail ↦ s
]

-- `_terminates`
unfoldable pub terminates : Builder → BlockId → Bool
unfolding successors
terminates s block_id =
    any_of (λ edge. edge.kind == "return" || edge.kind == "break" || edge.kind == "goto")
      (successors (cfg_of s) block_id)

-- A `LabelStmt` starts a block of its own unless the current one is empty.
unfoldable pub label_block : BlockId → Builder → BlockId × Builder
unfolding is_filled new_block add_edge
label_block current s =
    let (next, s1) = new_block "normal" s in
    if is_filled current s then (next, add_edge current next "fallthrough" s1) else (current, s)

-- `semantic_properties.get("name", statement["node_id"])`
unfoldable pub label_name : Node → String
label_name statement = elim statement.semantic_properties.name [
  | none ↦ statement.node_id
  | some name ↦ name
]
