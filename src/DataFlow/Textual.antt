-- ===== src/DataFlow/Textual.antt =====
-- rule-engine/src/misra_platform_rules/analyzers/dataflow_engine.py: the first engine, which takes the references to a variable in
-- textual order. Its `_linearize` is that of dataflow_engine_v2.py.
use misra_c_agent.Base.{
  ℕ, String, Bool, false, Option, none, some, List, [], ◌∷◌, ◌==◌, ◌&&◌, not, string_eq, mem,
  filter_by, ends_with, if◌then◌else◌,
}
use misra_c_agent.Ast.{Node, AstGraph, name_of, get_node, children, descendants}
use misra_c_agent.DataFlow.{is_first_child, linearize}
use misra_c_agent.DataFlow.Reaching.{has_initializer}

-- `_is_write_target` at a parent: every operator that ends in `=` but `==` and `!=` writes.
unfoldable pub writes_at : Node → AstGraph → Node → Bool
unfolding is_first_child children
writes_at parent graph decl_ref =
    let opcode = parent.semantic_properties.opcode in
    if parent.node_kind == "BinaryOperator"
      && (ends_with "=" opcode && not (opcode == "==") && not (opcode == "!="))
    then is_first_child decl_ref (children graph parent.node_id)
    else parent.node_kind == "UnaryOperator" && mem opcode ("++" ∷ "--" ∷ [])

unfoldable pub is_textual_write : Node → AstGraph → Bool
unfolding get_node writes_at
is_textual_write decl_ref graph = elim (get_node graph decl_ref.parent_id) [
  | none ↦ false
  | some parent ↦ writes_at parent graph decl_ref
]

unfoldable pub last_one : List Node → Option Node
last_one [] = none
last_one (node ∷ []) = some node
last_one (node ∷ next ∷ nodes) = last_one (next ∷ nodes)

-- The first of the references, if it is a read.
unfoldable pub first_read : AstGraph → List Node → Option Node
unfolding is_textual_write
first_read graph [] = none
first_read graph (reference ∷ rest) =
    if is_textual_write reference graph then none else some reference

-- The last of the references, if it is a write.
unfoldable pub last_write : AstGraph → List Node → Option Node
unfolding is_textual_write last_one
last_write graph nodes = elim (last_one nodes) [
  | none ↦ none
  | some last ↦ if is_textual_write last graph then some last else none
]

abbrev pub is_reference_to : String → Node → Bool
is_reference_to name node = node.node_kind == "DeclRefExpr" && name_of node == name

module _ (fuel : ℕ) where
  -- `local_variable_declarations`
  unfoldable pub local_variable_declarations : Node → AstGraph → List Node
  unfolding descendants
  local_variable_declarations function_node graph =
      filter_by (λ (node : Node). node.node_kind == "VarDecl")
        (descendants fuel graph function_node.node_id)

  -- `references`
  unfoldable pub references : Node → Node → AstGraph → List Node
  unfolding linearize descendants
  references var_decl function_node graph =
      if name_of var_decl == ""
      then []
      else linearize (
          filter_by (is_reference_to (name_of var_decl))
            (descendants fuel graph function_node.node_id))

  -- `uninitialized_read`
  unfoldable pub uninitialized_read : Node → Node → AstGraph → Option Node
  unfolding has_initializer references first_read
  uninitialized_read var_decl function_node graph =
      let read = first_read graph (references var_decl function_node graph) in
      if has_initializer graph var_decl then none else read

  -- `dead_store`
  unfoldable pub dead_store : Node → Node → AstGraph → Option Node
  unfolding references last_write
  dead_store var_decl function_node graph =
      last_write graph (references var_decl function_node graph)
