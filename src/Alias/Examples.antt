-- ===== src/Alias/Examples.antt =====
-- `int *p = &x; int *q = &x; strtok(p);`: tests, and the properties at it.
use misra_c_agent.Base.{
  ℕ, String, true, false, none, some, List, [], ◌∷◌, ◌++◌, ◌≡◌, ◌↔◌, refl, ◌==◌, ◌||◌, ◌&&◌, not,
  string_eq, if◌then◌else◌,
}
use misra_c_agent.Base.Tables.{get}
use misra_c_agent.Ast.{Node, AstGraph, name_of, new_graph, descendants}
use misra_c_agent.Alias.{Pointee, pointee_eq, PointsToTable, definite}
use misra_c_agent.Alias.Analysis.{value_given, is_relevant, analyze}
use misra_c_agent.Alias.Queries.{may_alias}
use misra_c_agent.Alias.Aliases.{HaveCommon, may_alias_exact}
use misra_c_agent.Alias.PointsTo.{takes_address, analyze-may_alias}
use misra_c_agent.Alias.Calls.{invalidates, uses, scan, use_after_string_invalidation_reads}
use misra_c_agent.Alias.Invalidated.{is_stale_after, stale_set, scan_exact}

abbrev node : String → String → List String → String → ℕ → ℕ → Node
node id kind ids name line column = record {
  node_id = id;
  node_kind = kind;
  parent_id = "";
  children_ids = ids;
  semantic_properties = record {
    name = some name;
    opcode = if kind == "UnaryOperator" then "&" else "";
    callee = if kind == "CallExpr" then "strtok" else "";
    target_label = "";
    value = none;
    storage_class = none;
    is_function = false;
    pointer_name = "";
    invalidated_pointers = [];
    flags = [];
  };
  type_information = record {
    spelling = "int *";
    fundamental_kind = "";
    is_pointer = kind == "VarDecl";
    is_array = false;
    pointee_type = "int";
  };
  source_range = record { line_start = line; line_end = line; column_start = column };
  has_source_range = true;
  essential_type = none;
}

abbrev function : Node
function = node "f" "FunctionDecl" ("p" ∷ "q" ∷ "call" ∷ []) "f" 1 1

abbrev first : Node
first = node "p" "VarDecl" ("p0" ∷ []) "p" 2 1

abbrev second : Node
second = node "q" "VarDecl" ("q0" ∷ []) "q" 3 1

abbrev first_address : Node
first_address = node "p0" "UnaryOperator" ("p1" ∷ []) "" 2 10

abbrev second_address : Node
second_address = node "q0" "UnaryOperator" ("q1" ∷ []) "" 3 10

abbrev argument : Node
argument = node "arg" "DeclRefExpr" [] "p" 4 8

abbrev graph : AstGraph
graph = new_graph (
    function
    ∷ first
    ∷ second
    ∷ first_address
    ∷ second_address
    ∷ node "p1" "DeclRefExpr" [] "x" 2 11
    ∷ node "q1" "DeclRefExpr" [] "x" 3 11
    ∷ node "call" "CallExpr" ("arg" ∷ []) "" 4 1
    ∷ argument
    ∷ [])

abbrev table : PointsToTable
table = analyze 20 function graph

abbrev address_of_x : Pointee
address_of_x = record { target = "x"; kind = "variable"; confidence = definite }

both_point_at_x : (get table "p" ≡ (address_of_x ∷ [])) × (get table "q" ≡ (address_of_x ∷ []))
unfolding analyze new_graph
both_point_at_x = (refl, refl)

definite_alias : may_alias table "p" "q" ≡ (true, "definite")
unfolding analyze may_alias new_graph
definite_alias = refl

-- The argument of the call that invalidates the pointer stands behind the start of the call, and is reported.
own_argument_reported :
    use_after_string_invalidation_reads 20 table function graph ≡ (argument ∷ [])
unfolding analyze use_after_string_invalidation_reads new_graph
own_argument_reported = refl

may_alias_exact_example :
    (may_alias table "p" "q" ≡ may_alias table "q" "p")
    × (((may_alias table "p" "q").0 ≡ true) ↔ HaveCommon (get table "p") (get table "q"))
may_alias_exact_example = may_alias_exact table "p" "q"

analyze-may_alias_example : (may_alias table "p" "q").0 ≡ true
unfolding descendants new_graph value_given is_relevant takes_address
analyze-may_alias_example =
    analyze-may_alias 20 function graph 5 2 first second "p" "q" first_address second_address "x"
      refl refl refl refl refl refl refl refl

scan_exact_example : scan table (invalidates ("q" ∷ []) ∷ uses argument false ∷ []) [] ≡ (
    (if false
        || (not (name_of argument == "")
            && is_stale_after table (invalidates ("q" ∷ []) ∷ []) (name_of argument))
      then argument ∷ []
      else [])
    ++ scan table [] (stale_set table (invalidates ("q" ∷ []) ∷ []) []))
unfolding scan
scan_exact_example = scan_exact table (invalidates ("q" ∷ []) ∷ []) argument false []
