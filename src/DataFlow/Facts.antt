-- ===== src/DataFlow/Facts.antt =====
-- `null_check_facts`, `variable_lifetime_ranges`, `escapes_lifetime` and `modified_parameters` of
-- dataflow_engine_v2.py. The line numbers of a node without a source range are zeros, the defaults of the source.
use misra_c_agent.Base.{
  ℕ, String, Bool, true, false, Option, none, some, List, [], ◌∷◌, ◌++◌, ◌==◌, ◌||◌, ◌&&◌, not,
  string_eq, mem, if◌then◌else◌, Dict, ltb, leb, add, filter_by,
}
use misra_c_agent.Ast.{Node, AstGraph, name_of, get_node, children, descendants}
use misra_c_agent.Cfg.{BlockId, block_id_eq, CfgEdge, BasicBlock, ControlFlowGraph, successors}
use misra_c_agent.DataFlow.{Event, block_events}

pub data NullState : Type 0 where
  null non_null : NullState

pub record NullCheckFact : Type 0 where
  pub block_id : BlockId
  pub variable : String
  pub state : NullState

-- `other_side` is `0`, `0x0` or `NULL`.
unfoldable pub is_null_literal : Node → Bool
is_null_literal node = node.node_kind == "IntegerLiteral" && (elim node.semantic_properties.value [
  | none ↦ false
  | some value ↦ mem value ("0" ∷ "0x0" ∷ "NULL" ∷ [])
])

abbrev is_decl_ref : Node → Bool
is_decl_ref node = node.node_kind == "DeclRefExpr"

-- `ptr == NULL` or `ptr != NULL`, with the variable on either side.
unfoldable pub parse_comparison : String → List Node → Option (String × Bool)
unfolding is_null_literal
parse_comparison opcode (lhs ∷ rhs ∷ rest) =
    let var_side = if is_decl_ref lhs then lhs else rhs in
    let other_side = if is_decl_ref lhs then rhs else lhs in
    if is_decl_ref var_side && is_null_literal other_side
    then some (name_of var_side, opcode == "==")
    else none
parse_comparison opcode _ = none

-- `!ptr`
unfoldable pub parse_negation : List Node → Option (String × Bool)
parse_negation [] = none
parse_negation (child ∷ kids) = if is_decl_ref child then some (name_of child, true) else none

-- `_parse_null_check`: the variable, and whether it is null when the condition is true.
unfoldable pub parse_null_check : Node → AstGraph → Option (String × Bool)
unfolding children parse_comparison parse_negation
parse_null_check condition graph =
    let kind = condition.node_kind in
    let opcode = condition.semantic_properties.opcode in
    let kids = children graph condition.node_id in
    if kind == "UnaryOperator" && opcode == "!"
    then parse_negation kids
    else if kind == "DeclRefExpr"
    then some (name_of condition, false)
    else if kind == "BinaryOperator" && mem opcode ("==" ∷ "!=" ∷ [])
    then parse_comparison opcode kids
    else none

abbrev state_when : Bool → NullState
state_when is_null = if is_null then null else non_null

-- The facts on the edges out of a block that ends in a null check.
unfoldable pub edge_facts : String → Bool → List CfgEdge → List NullCheckFact
edge_facts variable null_when_true [] = []
edge_facts variable null_when_true (edge ∷ edges) =
    let rest = edge_facts variable null_when_true edges in
    let when_true : NullCheckFact = record {
      block_id = edge.target;
      variable = variable;
      state = state_when null_when_true;
    } in
    let when_false : NullCheckFact = record {
      block_id = edge.target;
      variable = variable;
      state = state_when (not null_when_true);
    } in
    if edge.kind == "true"
    then when_true ∷ rest
    else if edge.kind == "false"
    then when_false ∷ rest
    else rest

unfoldable pub statement_facts : AstGraph → List CfgEdge → Node → List NullCheckFact
unfolding children parse_null_check edge_facts
statement_facts graph edges statement =
    if not (statement.node_kind == "IfStmt") then [] else elim (children graph statement.node_id) [
      | [] ↦ []
      | condition ∷ _ ↦ elim (parse_null_check condition graph) [
        | none ↦ []
        | some (variable, null_when_true) ↦ edge_facts variable null_when_true edges
      ]
    ]

unfoldable pub block_facts : AstGraph → List CfgEdge → List Node → List NullCheckFact
unfolding statement_facts
block_facts graph edges [] = []
block_facts graph edges (statement ∷ statements) =
    statement_facts graph edges statement ++ block_facts graph edges statements

unfoldable pub facts_in_blocks :
    ControlFlowGraph → AstGraph → Dict BlockId BasicBlock → List NullCheckFact
unfolding block_facts successors
facts_in_blocks cfg graph [] = []
facts_in_blocks cfg graph ((block_id, block) ∷ blocks) =
    block_facts graph (successors cfg block_id) block.statements ++ facts_in_blocks cfg graph blocks

-- `null_check_facts`
unfoldable pub null_check_facts : ControlFlowGraph → AstGraph → List NullCheckFact
unfolding facts_in_blocks
null_check_facts cfg graph = facts_in_blocks cfg graph cfg.blocks

pub record LifetimeRange : Type 0 where
  pub variable : String
  pub decl_node_id : String
  pub scope_node_id : String
  pub first_line : ℕ
  pub last_line : ℕ

-- `max(lines) if lines else decl_line`
unfoldable pub max_line_end : List Node → ℕ → ℕ
max_line_end [] decl_line = decl_line
max_line_end (node ∷ []) decl_line = node.source_range.line_end
max_line_end (node ∷ next ∷ nodes) decl_line =
    let rest = max_line_end (next ∷ nodes) decl_line in
    if leb rest node.source_range.line_end then node.source_range.line_end else rest

-- `last_line`: of the siblings those with a source range count.
unfoldable pub last_line_of : List Node → ℕ → ℕ
unfolding max_line_end
last_line_of siblings decl_line =
    max_line_end (filter_by (λ (sibling : Node). sibling.has_source_range) siblings) decl_line

unfoldable pub lifetime_of : AstGraph → Node → List LifetimeRange
unfolding children get_node last_line_of
lifetime_of graph node =
    if not (node.node_kind == "VarDecl") || name_of node == ""
    then []
    else elim (get_node graph node.parent_id) [
      | none ↦ []
      | some scope ↦
          let range : LifetimeRange = record {
            variable = name_of node;
            decl_node_id = node.node_id;
            scope_node_id = scope.node_id;
            first_line = node.source_range.line_start;
            last_line = last_line_of (children graph scope.node_id) node.source_range.line_start;
          } in
          range ∷ []
    ]

unfoldable pub lifetimes_of : AstGraph → List Node → List LifetimeRange
unfolding lifetime_of
lifetimes_of graph [] = []
lifetimes_of graph (node ∷ nodes) = lifetime_of graph node ++ lifetimes_of graph nodes

-- `escapes_lifetime`
unfoldable pub escapes_lifetime : LifetimeRange → Node → Bool
escapes_lifetime lifetime use_node = ltb lifetime.last_line use_node.source_range.line_start

unfoldable pub parameter_names : List Node → List String
parameter_names [] = []
parameter_names (param ∷ params) =
    let rest = parameter_names params in
    if param.node_kind == "ParmVarDecl" && not (name_of param == "")
    then add (name_of param) rest
    else rest

-- The written references to one of the names.
unfoldable pub writes_to : List String → List Event → List Node
writes_to param_names [] = []
writes_to param_names (event ∷ events) =
    let rest = writes_to param_names events in
    if event.is_write && mem event.variable param_names then event.node ∷ rest else rest

module _ (fuel : ℕ) where
  -- `variable_lifetime_ranges`
  unfoldable pub variable_lifetime_ranges : Node → AstGraph → List LifetimeRange
  unfolding lifetimes_of descendants
  variable_lifetime_ranges function_node graph =
      lifetimes_of graph (descendants fuel graph function_node.node_id)

  unfoldable pub modified_in_blocks : List String → AstGraph → Dict BlockId BasicBlock → List Node
  unfolding writes_to block_events
  modified_in_blocks param_names graph [] = []
  modified_in_blocks param_names graph ((block_id, block) ∷ blocks) =
      writes_to param_names (block_events fuel block graph)
      ++ modified_in_blocks param_names graph blocks

  -- `modified_parameters`: without parameters nothing is found, as the early return has it.
  unfoldable pub modified_parameters : Node → ControlFlowGraph → AstGraph → List Node
  unfolding parameter_names modified_in_blocks children
  modified_parameters function_node cfg graph =
      let param_names = parameter_names (children graph function_node.node_id) in
      elim param_names [
        | [] ↦ []
        | name ∷ names ↦ modified_in_blocks (name ∷ names) graph cfg.blocks
      ]
