-- ===== src/Alias/Analysis.antt =====
-- `analyze` of alias_analyzer.py: its passes over the declarations and assignments of a function.
use misra_c_agent.Base.{
  ℕ, zero, suc, String, Bool, Option, none, some, List, [], ◌∷◌, ◌==◌, ◌||◌, ◌&&◌, not, string_eq,
  nat_eq, mem, filter_by, all_of, length, if◌then◌else◌, keys, same_set,
}
use misra_c_agent.Base.Tables.{get}
use misra_c_agent.Ast.{Node, AstGraph, name_of, children, descendants}
use misra_c_agent.DataFlow.{linearize}
use misra_c_agent.Alias.{
  pointee_eq, PointsToTable, add_pointees, seed_pointer_parameters, resolve_rhs,
}

-- The first child that is no type.
unfoldable pub initializer_of : List Node → Option Node
initializer_of [] = none
initializer_of (child ∷ nodes) =
    let rest = initializer_of nodes in
    if mem child.node_kind ("BuiltinType" ∷ "PointerType" ∷ "RecordType" ∷ [])
    then rest
    else some child

-- What a relevant node gives a value to, and from which node: the target's name, and the right side.
unfoldable pub declared : Node → AstGraph → Option (String × Node)
unfolding initializer_of children
declared node graph =
    let initializer = initializer_of (children graph node.node_id) in
    if name_of node == "" || not node.type_information.is_pointer
    then none
    else elim initializer [ none ↦ none | some rhs ↦ some (name_of node, rhs) ]

unfoldable pub assigned : List Node → Option (String × Node)
assigned (lhs ∷ rhs ∷ rest) =
    if not (lhs.node_kind == "DeclRefExpr") || name_of lhs == ""
    then none
    else some (name_of lhs, rhs)
assigned _ = none

unfoldable pub value_given : Node → AstGraph → Option (String × Node)
unfolding declared assigned children
value_given node graph =
    if node.node_kind == "VarDecl"
    then declared node graph
    else assigned (children graph node.node_id)

-- `_handle_var_decl` and `_handle_assignment`
unfoldable pub handle_node : AstGraph → Node → PointsToTable → PointsToTable
unfolding value_given add_pointees resolve_rhs
handle_node graph node table = elim (value_given node graph) [
  | none ↦ table
  | some (name, rhs) ↦ add_pointees name (resolve_rhs rhs graph table) table
]

-- One pass over the relevant nodes.
unfoldable pub pass : AstGraph → List Node → PointsToTable → PointsToTable
unfolding handle_node
pass graph [] table = table
pass graph (node ∷ nodes) table = pass graph nodes (handle_node graph node table)

-- `after == before`
unfoldable pub same_table : PointsToTable → PointsToTable → Bool
unfolding get
same_table before after =
    same_set (keys before) (keys after)
    && all_of (λ name. same_set (get before name) (get after name)) (keys after)

-- `for _ in range(rounds)`, with its `break`.
unfoldable pub passes : ℕ → AstGraph → List Node → PointsToTable → PointsToTable
unfolding pass same_table
passes zero graph relevant table = table
passes (suc rounds) graph relevant table =
    let after = pass graph relevant table in
    let rest = passes rounds graph relevant after in if same_table table after then after else rest

unfoldable pub is_relevant : Node → Bool
is_relevant node =
    node.node_kind == "VarDecl"
    || (node.node_kind == "BinaryOperator" && node.semantic_properties.opcode == "=")

module _ (fuel : ℕ) where
  -- `analyze`
  unfoldable pub analyze : Node → AstGraph → PointsToTable
  unfolding seed_pointer_parameters is_relevant linearize passes children descendants
  analyze function_node graph =
      let relevant =
        linearize (filter_by is_relevant (descendants fuel graph function_node.node_id)) in
      passes (suc (length relevant)) graph relevant
        (seed_pointer_parameters (children graph function_node.node_id) [])
