-- ===== src/Rules/Examples.antt =====
-- `{ return; ; }` in a function, and an `if` without braces: tests of the rules, and a property at one.
use misra_c_agent.Base.{true, String, false, none, some, List, [], ◌∷◌, ◌≡◌, refl, string_eq}
use misra_c_agent.Ast.{Node, AstGraph, new_graph, nodes_by_kind}
use misra_c_agent.Rules.{unreachable_code, unbraced_bodies}
use misra_c_agent.Rules.Unreachable.{IsReport, unreachable_code-IsReport}

abbrev node : String → String → List String → Node
node id kind ids = record {
  node_id = id;
  node_kind = kind;
  parent_id = "";
  children_ids = ids;
  semantic_properties = record {
    name = none;
    opcode = "";
    callee = "";
    target_label = "";
    value = none;
    storage_class = none;
    is_function = false;
    pointer_name = "";
    invalidated_pointers = [];
    flags = [];
  };
  type_information = record {
    spelling = "";
    fundamental_kind = "";
    is_pointer = false;
    is_array = false;
    pointee_type = "";
  };
  source_range = record { line_start = 0; line_end = 0; column_start = 0 };
  has_source_range = true;
  essential_type = none;
}

abbrev dead : Node
dead = node "dead" "NullStmt" []

abbrev after_return : AstGraph
after_return = new_graph (
    node "f" "FunctionDecl" ("body" ∷ [])
    ∷ node "body" "CompoundStmt" ("out" ∷ "dead" ∷ [])
    ∷ node "out" "ReturnStmt" []
    ∷ dead
    ∷ [])

dead_reported : unreachable_code 5 after_return ≡ some (dead ∷ [])
unfolding unreachable_code new_graph
dead_reported = refl

abbrev branch : Node
branch = node "if" "IfStmt" ("c" ∷ "then" ∷ "else" ∷ [])

abbrev unbraced : AstGraph
unbraced =
    new_graph (
      branch ∷ node "c" "DeclRefExpr" [] ∷ node "then" "NullStmt" [] ∷ node "else" "IfStmt" [] ∷ [])

-- An `else if` needs no braces.
then_reported : unbraced_bodies unbraced ≡ (branch ∷ [])
unfolding unbraced_bodies new_graph
then_reported = refl

unreachable_code-IsReport_example :
    (nodes : List Node) × (unreachable_code 5 after_return ≡ some nodes)
    × IsReport 5 after_return (nodes_by_kind after_return "FunctionDecl") nodes
unreachable_code-IsReport_example = unreachable_code-IsReport 5 after_return
