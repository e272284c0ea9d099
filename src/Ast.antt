-- ===== src/Ast.antt =====
-- rule-engine/src/misra_platform_rules/ast_graph.py: the serialized AST as a graph of nodes.
-- A node is a JSON dict in the source. A key that the source reads with a default of `""` (or of
-- `[]`, `False`, `0`) is a plain field here, which holds the default where the key is absent; a key
-- whose absence the source tells apart is an `Option`.
pub mod Walk
use misra_c_agent.Base.{
  ℕ, zero, suc, String, Bool, false, Option, none, some, List, [], ◌∷◌, reverse, ◌==◌, string_eq,
  Dict, lookup, insert, filter_by, if◌then◌else◌, stack_push,
}

-- `node["semantic_properties"]`
pub record Properties : Type 0 where
  pub name : Option String
  pub opcode : String
  pub callee : String
  pub target_label : String
  pub value : Option String
  pub storage_class : Option String
  pub is_function : Bool
  pub pointer_name : String
  pub invalidated_pointers : List String
  -- The other keys that hold a true value.
  pub flags : List String

-- `node["type_information"]`
pub record TypeInformation : Type 0 where
  pub spelling : String
  pub fundamental_kind : String
  pub is_pointer : Bool
  pub is_array : Bool
  pub pointee_type : String

-- `node["source_range"]`
pub record SourceRange : Type 0 where
  pub line_start : ℕ
  pub line_end : ℕ
  pub column_start : ℕ

pub record Node : Type 0 where
  pub node_id : String
  pub node_kind : String
  pub parent_id : String
  pub children_ids : List String
  pub semantic_properties : Properties
  pub type_information : TypeInformation
  pub source_range : SourceRange
  -- `node.get("source_range")` is there and not empty.
  pub has_source_range : Bool
  pub essential_type : Option String

-- `node.get("semantic_properties", {}).get("name", "")`
abbrev pub name_of : Node → String
name_of node = elim node.semantic_properties.name [ none ↦ "" | some name ↦ name ]

pub record AstGraph : Type 0 where
  pub nodes : Dict String Node
  pub nodes_list : List Node

-- `{node["node_id"]: node for node in nodes}`: the last node with an id wins.
unfoldable pub index_nodes : List Node → Dict String Node → Dict String Node
index_nodes [] d = d
index_nodes (node ∷ rest) d = index_nodes rest (insert node.node_id node d)

unfoldable pub new_graph : List Node → AstGraph
unfolding index_nodes
new_graph nodes = record { nodes = index_nodes nodes []; nodes_list = nodes }

unfoldable pub get_node : AstGraph → String → Option Node
get_node graph node_id = lookup node_id graph.nodes

unfoldable pub nodes_by_kind : AstGraph → String → List Node
nodes_by_kind graph kind = filter_by (λ node. node.node_kind == kind) graph.nodes_list

-- `[self._nodes[c] for c in ids if c in self._nodes]`
unfoldable pub existing_nodes : AstGraph → List String → List Node
unfolding get_node
existing_nodes graph [] = []
existing_nodes graph (child_id ∷ ids) = elim (get_node graph child_id) [
  | none ↦ existing_nodes graph ids
  | some node ↦ node ∷ existing_nodes graph ids
]

unfoldable pub children : AstGraph → String → List Node
unfolding existing_nodes
children graph node_id = elim (get_node graph node_id) [
  | none ↦ []
  | some node ↦ existing_nodes graph node.children_ids
]

-- The `while stack` loop of `descendants`. The head of the list is the top of the stack, and each
-- round takes one unit of fuel.
unfoldable pub descend : ℕ → AstGraph → List Node → List Node
unfolding children
descend zero graph stack = []
descend (suc fuel) graph [] = []
descend (suc fuel) graph (current ∷ stack) =
    current ∷ descend fuel graph (stack_push (children graph current.node_id) stack)

unfoldable pub descendants : ℕ → AstGraph → String → List Node
unfolding descend
descendants fuel graph node_id = descend fuel graph (reverse (children graph node_id))

-- The `while current_id` loop of `node_path`, which puts each ancestor in front of the path.
unfoldable pub path_up : ℕ → AstGraph → String → List String → Option (List String)
unfolding get_node
path_up zero graph current_id path = none
path_up (suc fuel) graph current_id path =
    let parent : String = (elim (get_node graph current_id) [
      | none ↦ ""
      | some node ↦ node.parent_id
    ]) in
    let rest = path_up fuel graph parent (current_id ∷ path) in
    if current_id == "" then some path else rest

unfoldable pub node_path : ℕ → AstGraph → String → Option (List String)
unfolding path_up
node_path fuel graph node_id = path_up fuel graph node_id []

unfoldable pub is_file_scope : AstGraph → String → Bool
unfolding get_node
is_file_scope graph node_id = elim (get_node graph node_id) [
  | none ↦ false
  | some node ↦ node.parent_id == ""
]
