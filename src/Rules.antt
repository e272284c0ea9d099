-- ===== src/Rules.antt =====
-- rule-engine/src/misra_platform_rules/standards/misra_c_2012/rules/rule_pack_control_flow.py: the nodes that `detect` reports, for the
-- rules that need no more than the syntax tree and the control-flow graph. The fixed texts and scores of a
-- finding, which `make_result` joins to the node, are left out. `fuel` is that of the builder and of `descendants`.
pub mod Unreachable
mod Examples
use misra_c_agent.Base.{
  ℕ, String, Bool, true, false, Option, none, some, List, [], ◌∷◌, ◌++◌, map, ◌==◌, ◌||◌, ◌&&◌, not,
  string_eq, nat_eq, mem, filter_by, any_of, length, leb, if◌then◌else◌, flat_map,
}
use misra_c_agent.Ast.{Node, AstGraph, nodes_by_kind, children, descendants}
use misra_c_agent.Cfg.{BlockId, BasicBlock, ControlFlowGraph, unreachable_blocks}
use misra_c_agent.Cfg.Finish.{build}
use misra_c_agent.DataFlow.{first_one}

-- `block.statements[0] for block in cfg.unreachable_blocks()`: such a block has a statement.
unfoldable pub first_statements : List (BlockId × BasicBlock) → List Node
first_statements blocks = flat_map (λ (ib : BlockId × BasicBlock). first_one ib.1.statements) blocks

unfoldable pub unreachable_statements : ControlFlowGraph → Option (List Node)
unfolding unreachable_blocks first_statements
unreachable_statements cfg = elim (unreachable_blocks cfg) [
  | none ↦ none
  | some blocks ↦ some (first_statements blocks)
]

-- Both lists, where there are both.
abbrev pub joined : Option (List Node) → Option (List Node) → Option (List Node)
joined none found = none
joined (some nodes) none = none
joined (some nodes) (some rest) = some (nodes ++ rest)

module _ (fuel : ℕ) where
  unfoldable pub unreachable_in_function : AstGraph → Node → Option (List Node)
  unfolding build unreachable_statements
  unreachable_in_function graph function_node = elim (build fuel graph function_node) [
    | none ↦ none
    | some cfg ↦ unreachable_statements cfg
  ]

  unfoldable pub unreachable_in_functions : AstGraph → List Node → Option (List Node)
  unfolding unreachable_in_function
  unreachable_in_functions graph [] = some []
  unreachable_in_functions graph (function_node ∷ functions) =
      joined (unreachable_in_function graph function_node)
        (unreachable_in_functions graph functions)

  -- `Rule2_1.detect`
  unfoldable pub unreachable_code : AstGraph → Option (List Node)
  unfolding unreachable_in_functions nodes_by_kind
  unreachable_code graph = unreachable_in_functions graph (nodes_by_kind graph "FunctionDecl")

  -- `Rule16_4.detect`
  unfoldable pub switches_without_default : AstGraph → List Node
  unfolding descendants nodes_by_kind
  switches_without_default graph =
      filter_by
        (λ (node : Node). not (
          any_of (λ (d : Node). d.node_kind == "DefaultStmt")
            (descendants fuel graph node.node_id)))
        (nodes_by_kind graph "SwitchStmt")

  -- `Rule16_6.detect`
  unfoldable pub switches_with_few_clauses : AstGraph → List Node
  unfolding descendants nodes_by_kind
  switches_with_few_clauses graph =
      filter_by
        (λ (node : Node). not (
          leb 2 (
            length (
              filter_by (λ (d : Node). mem d.node_kind ("CaseStmt" ∷ "DefaultStmt" ∷ []))
                (descendants fuel graph node.node_id)))))
        (nodes_by_kind graph "SwitchStmt")

-- `Rule15_1.detect`
unfoldable pub goto_statements : AstGraph → List Node
unfolding nodes_by_kind
goto_statements graph = nodes_by_kind graph "GotoStmt"

-- Whether the last of the nodes is no compound statement; false where there is none.
unfoldable pub ends_unbraced : List Node → Bool
ends_unbraced [] = false
ends_unbraced (node ∷ []) = not (node.node_kind == "CompoundStmt")
ends_unbraced (node ∷ next ∷ nodes) = ends_unbraced (next ∷ nodes)

unfoldable pub starts_unbraced : List Node → Bool
starts_unbraced [] = false
starts_unbraced (node ∷ nodes) = not (node.node_kind == "CompoundStmt")

-- The findings at an `if`, in view of its children: one for each branch without braces.
unfoldable pub unbraced_branches : Node → List Node → List Node
unbraced_branches node (condition ∷ then_branch ∷ []) =
    if then_branch.node_kind == "CompoundStmt" then [] else node ∷ []
unbraced_branches node (condition ∷ then_branch ∷ else_branch ∷ rest) =
    (if then_branch.node_kind == "CompoundStmt" then [] else node ∷ [])
    ++ (if mem else_branch.node_kind ("CompoundStmt" ∷ "IfStmt" ∷ []) then [] else node ∷ [])
unbraced_branches node _ = []

-- `Rule15_6.detect`
unfoldable pub unbraced_bodies : AstGraph → List Node
unfolding unbraced_branches ends_unbraced starts_unbraced children nodes_by_kind
unbraced_bodies graph =
    flat_map (λ (node : Node). unbraced_branches node (children graph node.node_id))
      (nodes_by_kind graph "IfStmt")
    ++ (filter_by (λ (node : Node). ends_unbraced (children graph node.node_id))
          (nodes_by_kind graph "WhileStmt" ++ nodes_by_kind graph "ForStmt")
        ++ filter_by (λ (node : Node). starts_unbraced (children graph node.node_id))
            (nodes_by_kind graph "DoStmt"))
