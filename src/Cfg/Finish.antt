-- ===== src/Cfg/Finish.antt =====
-- rule-engine/src/misra_platform_rules/analyzers/cfg_engine.py: `CFGEngine.build`, which wires the
-- ends of the statement list and the gotos, and prunes empty blocks.
use misra_c_agent.Base.{
  ℕ, zero, suc, String, Bool, true, false, Option, none, some, List, [], ◌∷◌, ◌==◌, ◌||◌, ◌&&◌, not,
  string_eq, lookup, delete, keys, filter_by, mem, length, if◌then◌else◌,
}
use misra_c_agent.Ast.{Node, AstGraph, children}
use misra_c_agent.Cfg.{
  BlockId, entry_id, exit_id, block_id_eq, is_real, CfgEdge, ControlFlowGraph, successors,
  predecessors,
}
use misra_c_agent.Cfg.Builder.{Builder, cfg_of, add_edge, add_labelled_edge, tail_of}
use misra_c_agent.Cfg.Build.{build_block_sequence}

-- `_NON_STATEMENT_KINDS`
abbrev non_statement_kinds : List String
non_statement_kinds = "ParmVarDecl" ∷ "BuiltinType" ∷ "PointerType" ∷ "RecordType" ∷ "EnumDecl" ∷ []

-- The first `CompoundStmt` among the children, or the children that are statements.
unfoldable pub body_among : AstGraph → List Node → List Node → List Node
body_among graph all [] = filter_by (λ child. not (mem child.node_kind non_statement_kinds)) all
body_among graph all (child ∷ rest) =
    if child.node_kind == "CompoundStmt"
    then children graph child.node_id
    else body_among graph all rest

-- `_body_statements`
unfoldable pub body_statements : AstGraph → Node → List Node
unfolding body_among children
body_statements graph function_node =
    let kids = children graph function_node.node_id in body_among graph kids kids

unfoldable pub empty_builder : String → Builder
empty_builder function_node_id = record {
  function_node_id = function_node_id;
  blocks =
      (entry_id, record { statements = []; kind = "entry" })
      ∷ (exit_id, record { statements = []; kind = "exit" })
      ∷ [];
  edges = [];
  counter = 0;
  label_targets = [];
  pending_gotos = [];
  sequence_tails = [];
}

abbrev pub is_nil {ℓ} : {A : Type ℓ} → List A → Bool
is_nil [] = true
is_nil (_ ∷ _) = false

-- The implicit return at the end of the body, if its tail is reached and goes nowhere yet.
unfoldable pub wire_implicit_return : BlockId → Builder → Builder
unfolding add_edge successors predecessors tail_of
wire_implicit_return entry_of_body s =
    let top_tail = tail_of entry_of_body s in
    if is_nil (successors (cfg_of s) top_tail) && not (is_nil (predecessors (cfg_of s) top_tail))
    then add_edge top_tail exit_id "implicit_return" s
    else s

-- A label that the function does not have leads to the exit.
unfoldable pub wire_gotos : List (BlockId × String) → Builder → Builder
unfolding add_labelled_edge
wire_gotos [] s = s
wire_gotos ((goto_block, label_name) ∷ gotos) s =
    let target = (elim (lookup label_name s.label_targets) as (λ _. BlockId) [
      | none ↦ exit_id
      | some block_id ↦ block_id
    ]) in
    wire_gotos gotos (add_labelled_edge goto_block target "goto" (some label_name) s)

-- `for edge in incoming: edge.target = target`, and the outgoing edge is taken out.
unfoldable pub retarget : BlockId → BlockId → List CfgEdge → List CfgEdge
retarget block_id target [] = []
retarget block_id target (edge ∷ edges) =
    let rest = retarget block_id target edges in
    if edge.source == block_id
    then rest
    else (if edge.target == block_id then record edge { target = target } else edge) ∷ rest

unfoldable pub collapse : BlockId → BlockId → ControlFlowGraph → ControlFlowGraph
unfolding retarget
collapse block_id target cfg = record cfg {
  edges = retarget block_id target cfg.edges;
  blocks = delete block_id cfg.blocks;
}

-- Where a block with these outgoing edges may be collapsed to.
unfoldable pub sole_fallthrough : BlockId → List CfgEdge → Option BlockId
sole_fallthrough block_id (edge ∷ []) =
    if not (edge.kind == "fallthrough") || edge.target == block_id then none else some edge.target
sole_fallthrough block_id _ = none

-- The tests of `_prune_empty_pass_through_blocks` on one block.
unfoldable pub pass_through : ControlFlowGraph → BlockId → Option BlockId
unfolding sole_fallthrough successors
pass_through cfg block_id =
    if not (is_real block_id) then none else elim (lookup block_id cfg.blocks) [
      | none ↦ none
      | some block ↦
          if is_nil block.statements
          then sole_fallthrough block_id (successors cfg block_id)
          else none
    ]

-- The `for` loop over a snapshot of the block ids, with `changed`.
unfoldable pub prune_pass : List BlockId → ControlFlowGraph → Bool → ControlFlowGraph × Bool
unfolding pass_through collapse
prune_pass [] cfg changed = (cfg, changed)
prune_pass (block_id ∷ ids) cfg changed = elim (pass_through cfg block_id) [
  | none ↦ prune_pass ids cfg changed
  | some target ↦ prune_pass ids (collapse block_id target cfg) true
]

-- The `while changed` loop: `none` if the fuel runs out.
unfoldable pub prune : ℕ → ControlFlowGraph → Option ControlFlowGraph
unfolding prune_pass
prune zero cfg = none
prune (suc fuel) cfg =
    let (cfg', changed) = prune_pass (keys cfg.blocks) cfg false in
    elim changed [ true ↦ prune fuel cfg' | false ↦ some cfg' ]

-- `_prune_empty_pass_through_blocks`. A pass that changes anything deletes a block, so one pass
-- more than there are blocks is enough (`Cfg/Prune`).
unfoldable pub prune_empty_pass_through_blocks : ControlFlowGraph → Option ControlFlowGraph
unfolding prune
prune_empty_pass_through_blocks cfg = prune (suc (length cfg.blocks)) cfg

-- The graph before pruning.
unfoldable pub wire_body_statements : ℕ → AstGraph → Node → List Node → Builder
unfolding build_block_sequence wire_implicit_return wire_gotos empty_builder add_edge
wire_body_statements fuel graph function_node statements =
    let (entry_of_body, s) =
      build_block_sequence fuel graph exit_id [] statements (empty_builder function_node.node_id) in
    let s1 = add_edge entry_id entry_of_body "fallthrough" s in
    let s2 = wire_implicit_return entry_of_body s1 in wire_gotos s2.pending_gotos s2

-- `build`. A body with no statements gets one edge, and is not pruned.
unfoldable pub build : ℕ → AstGraph → Node → Option ControlFlowGraph
unfolding body_statements wire_body_statements prune_empty_pass_through_blocks add_edge
build fuel graph function_node =
    let statements = body_statements graph function_node in
    elim statements [
      | [] ↦
          some
            (cfg_of (add_edge entry_id exit_id "fallthrough" (empty_builder function_node.node_id)))
      | first ∷ rest ↦
          prune_empty_pass_through_blocks
            (cfg_of (wire_body_statements fuel graph function_node (first ∷ rest)))
    ]
