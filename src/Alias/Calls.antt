-- ===== src/Alias/Calls.antt =====
-- The violations that alias_analyzer.py reports from the points-to table. `fuel` is that of `AstGraph.descendants`.
use misra_c_agent.Base.{
  ℕ, String, Bool, true, false, Option, none, some, List, [], ◌∷◌, ◌++◌, map, ◌==◌, ◌||◌, ◌&&◌, not,
  string_eq, mem, filter_by, any_of, if◌then◌else◌, keys, union,
}
use misra_c_agent.Ast.{Node, AstGraph, name_of, get_node, children, descendants}
use misra_c_agent.DataFlow.{linearize}
use misra_c_agent.Alias.{Pointee, PointsToTable}
use misra_c_agent.Alias.Queries.{points_to, is_unknown, aliases_of}

-- `node["semantic_properties"].get(flag)`
abbrev pub has_flag : String → Node → Bool
has_flag flag node = mem flag node.semantic_properties.flags

abbrev pub is_call_of : List String → Node → Bool
is_call_of callees node =
    node.node_kind == "CallExpr" && mem node.semantic_properties.callee callees

abbrev pub points_nowhere : List Pointee → Bool
points_nowhere [] = true
points_nowhere (pointee ∷ pointees) = false

-- The test of `pointer_arithmetic_violations`.
unfoldable pub is_pointer_arithmetic_violation : PointsToTable → Node → Bool
is_pointer_arithmetic_violation table node =
    has_flag "pointer_arithmetic_out_of_bounds" node
    || (mem node.node_kind ("BinaryOperator" ∷ "UnaryOperator" ∷ [])
        && has_flag "is_pointer_arithmetic" node
        && not (node.semantic_properties.pointer_name == "")
        && not (points_nowhere (points_to table node.semantic_properties.pointer_name))
        && has_flag "offset_exceeds_array_size" node)

-- The types of the first two arguments are known, differ, and neither is `void`.
unfoldable pub has_different_pointees : List Node → Bool
has_different_pointees (left ∷ right ∷ rest) =
    let left_type = left.type_information.pointee_type in
    let right_type = right.type_information.pointee_type in
    not (left_type == "")
    && not (right_type == "")
    && not (left_type == right_type)
    && not (left_type == "void")
    && not (right_type == "void")
has_different_pointees _ = false

-- The tests of `incompatible_mem_calls`, `string_buffer_overflow_calls` and `size_exceeds_destination_calls`.
unfoldable pub is_incompatible_mem_call : AstGraph → Node → Bool
unfolding has_different_pointees children
is_incompatible_mem_call graph node =
    is_call_of ("memcpy" ∷ "memmove" ∷ "memcmp" ∷ []) node
    && (has_flag "incompatible_pointer_args" node
        || has_different_pointees (children graph node.node_id))

unfoldable pub is_string_buffer_overflow_call : Node → Bool
is_string_buffer_overflow_call node =
    is_call_of ("strcpy" ∷ "strcat" ∷ "sprintf" ∷ "snprintf" ∷ "gets" ∷ []) node
    && has_flag "string_buffer_overflow" node

unfoldable pub is_size_exceeds_destination_call : Node → Bool
is_size_exceeds_destination_call node =
    is_call_of ("memcpy" ∷ "memmove" ∷ "memset" ∷ "strncpy" ∷ []) node
    && has_flag "size_exceeds_destination" node

-- The aliases of all of the names, put in the set.
unfoldable pub mark_aliases : PointsToTable → List String → List String → List String
unfolding aliases_of
mark_aliases table [] marked = marked
mark_aliases table (name ∷ names) marked =
    mark_aliases table names (union marked (aliases_of table name))

-- What a scan reads of a node: the names that a call makes stale, of which the aliases go with them, or a use of
-- a name, with its flag.
pub data ScanItem : Type 0 where
  invalidates : (pointers : List String) → ScanItem
  uses : (node : Node) (is_flagged : Bool) → ScanItem

-- The loop of the two scans, with the set of stale names.
unfoldable pub scan : PointsToTable → List ScanItem → List String → List Node
unfolding mark_aliases
scan table [] stale = []
scan table (invalidates pointers ∷ items) stale =
    scan table items (mark_aliases table pointers stale)
scan table (uses node is_flagged ∷ items) stale =
    let rest = scan table items stale in
    if is_flagged || (not (name_of node == "") && mem (name_of node) stale)
    then node ∷ rest
    else rest

-- Whether the parent is a call that closes a file.
unfoldable pub is_closing : Option Node → Bool
is_closing none = false
is_closing (some parent) = is_call_of ("fclose" ∷ []) parent

unfoldable pub items_by : (Node → List ScanItem) → List Node → List ScanItem
items_by item [] = []
items_by item (node ∷ nodes) = item node ++ items_by item nodes

-- The patterns of one node.
unfoldable pub patterns_of : PointsToTable → Node → List String
patterns_of table node =
    let pointees = points_to table node.semantic_properties.pointer_name in
    (if is_call_of ("malloc" ∷ "calloc" ∷ "realloc" ∷ []) node
      then "heap_allocation_opaque_target" ∷ []
      else [])
    ++ (if node.node_kind == "BinaryOperator"
          && has_flag "is_pointer_arithmetic" node
          && not (node.semantic_properties.pointer_name == "")
          && any_of is_unknown pointees
        then "pointer_arithmetic_unknown_pointee" ∷ []
        else [])
    ++ (if node.node_kind == "DeclRefExpr"
          && mem (name_of node) (keys table)
          && any_of is_unknown (points_to table (name_of node))
        then "parameter_pointer_unknown_target" ∷ []
        else [])

unfoldable pub unsupported_patterns_in : PointsToTable → List Node → List String
unfolding patterns_of
unsupported_patterns_in table [] = []
unsupported_patterns_in table (node ∷ nodes) =
    patterns_of table node ++ unsupported_patterns_in table nodes

module _ (fuel : ℕ) where
  -- `_function_nodes`
  unfoldable pub function_nodes : Node → AstGraph → List Node
  unfolding descendants
  function_nodes function_node graph = function_node ∷ descendants fuel graph function_node.node_id

  -- `_decl_ref_names_in`
  unfoldable pub decl_ref_names_in : Node → AstGraph → List String
  unfolding function_nodes
  decl_ref_names_in node graph =
      filter_by (λ name. not (name == ""))
        (map name_of
          (filter_by (λ (n : Node). n.node_kind == "DeclRefExpr") (function_nodes node graph)))

  unfoldable pub pointer_arithmetic_violations : PointsToTable → Node → AstGraph → List Node
  unfolding function_nodes is_pointer_arithmetic_violation
  pointer_arithmetic_violations table function_node graph =
      filter_by (is_pointer_arithmetic_violation table) (function_nodes function_node graph)

  unfoldable pub incompatible_mem_calls : Node → AstGraph → List Node
  unfolding function_nodes is_incompatible_mem_call
  incompatible_mem_calls function_node graph =
      filter_by (is_incompatible_mem_call graph) (function_nodes function_node graph)

  unfoldable pub string_buffer_overflow_calls : Node → AstGraph → List Node
  unfolding function_nodes is_string_buffer_overflow_call
  string_buffer_overflow_calls function_node graph =
      filter_by is_string_buffer_overflow_call (function_nodes function_node graph)

  unfoldable pub size_exceeds_destination_calls : Node → AstGraph → List Node
  unfolding function_nodes is_size_exceeds_destination_call
  size_exceeds_destination_calls function_node graph =
      filter_by is_size_exceeds_destination_call (function_nodes function_node graph)

  -- A node, in the loop of `use_after_string_invalidation_reads`.
  unfoldable pub string_item : PointsToTable → AstGraph → Node → List ScanItem
  unfolding decl_ref_names_in
  string_item table graph node =
      let pointers =
        node.semantic_properties.invalidated_pointers
        ++ filter_by (λ name. mem name (keys table)) (decl_ref_names_in node graph) in
      if node.node_kind == "CallExpr"
      then (if mem node.semantic_properties.callee
            ("strtok" ∷ "asctime" ∷ "ctime" ∷ "gmtime" ∷ "localtime" ∷ [])
          then invalidates pointers ∷ []
          else [])
      else if node.node_kind == "DeclRefExpr"
      then uses node (has_flag "use_after_string_invalidation" node) ∷ []
      else []

  -- The names in the first argument of a call.
  unfoldable pub first_argument_names : List Node → AstGraph → List String
  unfolding decl_ref_names_in
  first_argument_names [] graph = []
  first_argument_names (argument ∷ arguments) graph = decl_ref_names_in argument graph

  -- A node, in the loop of `use_after_file_close_reads`.
  unfoldable pub file_item : AstGraph → Node → List ScanItem
  unfolding first_argument_names is_closing children get_node
  file_item graph node =
      let pointers = first_argument_names (children graph node.node_id) graph in
      if node.node_kind == "CallExpr"
      then (if node.semantic_properties.callee == "fclose" then invalidates pointers ∷ [] else [])
      else if node.node_kind == "DeclRefExpr" && not (is_closing (get_node graph node.parent_id))
      then uses node (has_flag "use_after_file_close" node) ∷ []
      else []

  unfoldable pub use_after_string_invalidation_reads : PointsToTable → Node → AstGraph → List Node
  unfolding scan items_by string_item linearize function_nodes
  use_after_string_invalidation_reads table function_node graph =
      scan table
        (items_by (string_item table graph) (linearize (function_nodes function_node graph))) []

  unfoldable pub use_after_file_close_reads : PointsToTable → Node → AstGraph → List Node
  unfolding scan items_by file_item linearize function_nodes
  use_after_file_close_reads table function_node graph =
      scan table (items_by (file_item graph) (linearize (function_nodes function_node graph))) []

  unfoldable pub unsupported_patterns : PointsToTable → Node → AstGraph → List String
  unfolding function_nodes unsupported_patterns_in
  unsupported_patterns table function_node graph =
      unsupported_patterns_in table (function_nodes function_node graph)
