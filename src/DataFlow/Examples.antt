-- ===== src/DataFlow/Examples.antt =====
-- Small functions: tests of the data-flow analyses, and the properties at them.
use misra_c_agent.Base.{
  ℕ, String, Bool, true, false, none, some, List, [], ◌∷◌, ◌≡◌, refl, ◌↔◌, mem, string_eq, All,
  get_elem?, flat_map, ◌⊎◌,
}
use misra_c_agent.Base.Tables.{Table, get}
use misra_c_agent.Ast.{Node, AstGraph, new_graph, descendants}
use misra_c_agent.Cfg.{
  BlockId, entry_id, exit_id, b, block_id_eq, CfgEdge, BasicBlock, ControlFlowGraph,
}
use misra_c_agent.DataFlow.{Event, at_most, block_events}
use misra_c_agent.DataFlow.Reaching.{
  Definition, definition_eq, block_ids, has_initializer, reaching_definitions,
  uninitialized_local_decls, uninitialized_reads,
}
use misra_c_agent.DataFlow.Definitions.{ReachesEnd, reaching_definitions_exact, observed}
use misra_c_agent.DataFlow.Seeded.{IsDeclaredIn}
use misra_c_agent.DataFlow.Uninitialized.{IsHandedOn, uninitialized_reads_exact}
use misra_c_agent.DataFlow.Liveness.{targets_of, liveness, dead_stores}
use misra_c_agent.DataFlow.Live.{IsLiveAt, liveness_exact, unneeded, dead_stores_exact}
use misra_c_agent.DataFlow.Textual.{is_textual_write, is_reference_to, uninitialized_read}
use misra_c_agent.DataFlow.FirstRead.{uninitialized_read-first}
use misra_c_agent.DataFlow.Taint.{taint_sets, propagate_taint, default_taint_sources}
use misra_c_agent.DataFlow.Tainted.{IsTainted, taint_sets_exact}
use misra_c_agent.DataFlow.Facts.{variable_lifetime_ranges}
use misra_c_agent.DataFlow.Lifetimes.{IsExact, variable_lifetime_ranges-IsExact}

abbrev node : String → String → String → List String → String → String → String → ℕ → ℕ → Node
node id kind parent ids name opcode callee line column = record {
  node_id = id;
  node_kind = kind;
  parent_id = parent;
  children_ids = ids;
  semantic_properties = record {
    name = some name;
    opcode = opcode;
    callee = callee;
    target_label = "";
    value = none;
    storage_class = none;
    is_function = false;
    pointer_name = "";
    invalidated_pointers = [];
    flags = [];
  };
  type_information = record {
    spelling = "";
    fundamental_kind = "";
    is_pointer = false;
    is_array = false;
    pointee_type = "";
  };
  source_range = record { line_start = line; line_end = line; column_start = column };
  has_source_range = true;
  essential_type = none;
}

abbrev function : Node
function = node "f" "FunctionDecl" "" ("decl" ∷ "set" ∷ []) "f" "" "" 1 0

abbrev declaration : Node
declaration = node "decl" "VarDecl" "f" [] "x" "" "" 2 0

abbrev assignment : Node
assignment = node "set" "BinaryOperator" "f" ("lhs" ∷ "sum" ∷ []) "" "=" "" 3 0

abbrev write_ref : Node
write_ref = node "lhs" "DeclRefExpr" "set" [] "x" "" "" 3 0

abbrev read : Node
read = node "rhs" "DeclRefExpr" "sum" [] "x" "" "" 3 4

-- `int x; x = x + 1;`
abbrev nodes : List Node
nodes =
    function
    ∷ declaration
    ∷ assignment
    ∷ write_ref
    ∷ node "sum" "BinaryOperator" "set" ("rhs" ∷ []) "" "+" "" 3 4
    ∷ read
    ∷ []

abbrev graph : AstGraph
unfolding new_graph
graph = new_graph nodes

abbrev edge : BlockId → BlockId → CfgEdge
edge x y = record { source = x; target = y; kind = "fallthrough"; label = none }

abbrev block : List Node → BasicBlock
block statements = record { statements = statements; kind = "normal" }

abbrev one_block : ControlFlowGraph
one_block = record {
  function_node_id = "f";
  blocks =
      (entry_id, block [])
      ∷ (b 1, block (declaration ∷ assignment ∷ []))
      ∷ (exit_id, block [])
      ∷ [];
  edges = edge entry_id (b 1) ∷ edge (b 1) exit_id ∷ [];
}

-- The declaration and the assignment in blocks of their own, with a loop around the second.
abbrev two_blocks : ControlFlowGraph
two_blocks = record {
  function_node_id = "f";
  blocks =
      (entry_id, block [])
      ∷ (b 1, block (declaration ∷ []))
      ∷ (b 2, block (assignment ∷ []))
      ∷ (exit_id, block [])
      ∷ [];
  edges = edge entry_id (b 1) ∷ edge (b 1) (b 2) ∷ edge (b 2) (b 2) ∷ edge (b 2) exit_id ∷ [];
}

-- The read of `x` in `x = x + 1` stands after the write in the source, and is not reported.
read_hidden_by_write : uninitialized_reads 9 function one_block graph ≡ some []
unfolding uninitialized_reads graph
read_hidden_by_write = refl

abbrev stored : Node
stored = node "lhs0" "DeclRefExpr" "set0" [] "x" "" "" 2 9

abbrev first_store : Node
first_store = node "set0" "BinaryOperator" "f" ("lhs0" ∷ []) "" "=" "" 2 9

abbrev store_graph : AstGraph
unfolding new_graph
store_graph = new_graph (first_store ∷ stored ∷ nodes)

-- `x = 0;` in a block before that of `x = x + 1;`
abbrev store_then_read : ControlFlowGraph
store_then_read = record {
  function_node_id = "f";
  blocks = (b 1, block (first_store ∷ [])) ∷ (b 2, block (assignment ∷ [])) ∷ [];
  edges = edge (b 1) (b 2) ∷ [];
}

-- For the same reason the first store is reported as dead, though the second statement reads it.
read_store_found : dead_stores 9 store_then_read store_graph ≡ some (stored ∷ [])
unfolding dead_stores store_graph
read_store_found = refl

reaching_definitions_exact_example :
    (out_sets : Table BlockId Definition) × (reaching_definitions 9 function two_blocks graph
      ≡ some out_sets)
    × ((block_id : BlockId) (d : Definition)
        → (mem d (get out_sets block_id) ≡ true)
          ↔ ReachesEnd 9 function two_blocks graph d block_id)
reaching_definitions_exact_example = reaching_definitions_exact 9 function two_blocks graph

abbrev event : Bool → Node → Event
event is_write ref = record { variable = "x"; is_write = is_write; is_read_too = false; node = ref }

uninitialized_reads_exact_example :
    (nodes : List Node) × (starts : BlockId → List String) × (uninitialized_reads 9 function
        two_blocks graph
      ≡ some nodes)
    × (nodes
        ≡ flat_map
            (λ (row : BlockId × BasicBlock).
              observed (starts row.0) [] (block_events 9 row.1 graph))
            two_blocks.blocks)
    × ((block_id : BlockId) (name : String)
        → (mem name (starts block_id) ≡ true) ↔ (
            IsHandedOn 9 function two_blocks graph block_id name
            ⊎ IsDeclaredIn two_blocks (uninitialized_local_decls 9 function graph) block_id name))
uninitialized_reads_exact_example = uninitialized_reads_exact 9 function two_blocks graph

liveness_exact_example :
    (live_out : Table BlockId String) × (liveness 9 two_blocks graph ≡ some live_out)
    × ((block_id : BlockId) (name : String)
        → mem block_id (block_ids two_blocks) ≡ true
        → (mem name (get live_out block_id) ≡ true) ↔ (
            (next : BlockId) × (mem next (targets_of two_blocks block_id) ≡ true)
            × IsLiveAt 9 two_blocks graph name next))
liveness_exact_example = liveness_exact 9 two_blocks graph

dead_stores_exact_example :
    (stores : List Node) × (live : BlockId → List String) × (dead_stores 9 two_blocks graph
      ≡ some stores)
    × (stores
        ≡ flat_map
            (λ (row : BlockId × BasicBlock). unneeded (block_events 9 row.1 graph) (live row.0))
            two_blocks.blocks)
    × ((block_id : BlockId) (name : String)
        → mem block_id (block_ids two_blocks) ≡ true
        → (mem name (live block_id) ≡ true) ↔ (
            (next : BlockId) × (mem next (targets_of two_blocks block_id) ≡ true)
            × IsLiveAt 9 two_blocks graph name next))
dead_stores_exact_example = dead_stores_exact 9 two_blocks graph

-- `x = recv(); system(x);`
abbrev tainted_nodes : List Node
tainted_nodes =
    node "set" "BinaryOperator" "f" ("lhs" ∷ "call" ∷ []) "" "=" "" 1 0
    ∷ node "lhs" "DeclRefExpr" "set" [] "x" "" "" 1 0
    ∷ node "call" "CallExpr" "set" [] "" "" "recv" 1 4
    ∷ node "sink" "CallExpr" "f" ("arg" ∷ []) "" "" "system" 2 0
    ∷ node "arg" "DeclRefExpr" "sink" [] "x" "" "" 2 7
    ∷ []

abbrev tainted_graph : AstGraph
unfolding new_graph
tainted_graph = new_graph tainted_nodes

-- The call of the sink stands in the block after that of the source.
abbrev tainted_cfg : ControlFlowGraph
tainted_cfg = record {
  function_node_id = "f";
  blocks =
      (b 1, block (node "set" "BinaryOperator" "f" ("lhs" ∷ "call" ∷ []) "" "=" "" 1 0 ∷ []))
      ∷ (b 2, block (node "sink" "CallExpr" "f" ("arg" ∷ []) "" "" "system" 2 0 ∷ []))
      ∷ [];
  edges = edge (b 1) (b 2) ∷ [];
}

sink_found :
    propagate_taint 9 default_taint_sources ("system" ∷ []) tainted_cfg tainted_graph
    ≡ some (
        record { sink_call_node_id = "sink"; sink_function_name = "system"; tainted_argument = "x" }
        ∷ [])
unfolding propagate_taint tainted_graph
sink_found = refl

taint_sets_exact_example :
    (out_sets : Table BlockId String) × (taint_sets 9 ("recv" ∷ []) tainted_cfg tainted_graph
      ≡ some out_sets)
    × ((block_id : BlockId) (y : String)
        → (mem y (get out_sets block_id) ≡ true)
          ↔ IsTainted 9 ("recv" ∷ []) tainted_cfg tainted_graph block_id y)
taint_sets_exact_example = taint_sets_exact 9 ("recv" ∷ []) tainted_cfg tainted_graph

variable_lifetime_ranges-IsExact_example :
    All (IsExact graph (descendants 9 graph "f")) (variable_lifetime_ranges 9 function graph)
variable_lifetime_ranges-IsExact_example = variable_lifetime_ranges-IsExact 9 function graph

-- `int x; x <= x;`
abbrev compared : Node
compared = node "cmp" "BinaryOperator" "f" ("left" ∷ "right" ∷ []) "" "<=" "" 3 0

abbrev left : Node
left = node "left" "DeclRefExpr" "cmp" [] "x" "" "" 3 0

abbrev right : Node
right = node "right" "DeclRefExpr" "cmp" [] "x" "" "" 3 5

abbrev comparison_graph : AstGraph
comparison_graph = new_graph (
    node "f" "FunctionDecl" "" ("decl" ∷ "cmp" ∷ []) "f" "" "" 1 0
    ∷ declaration
    ∷ compared
    ∷ left
    ∷ right
    ∷ [])

-- The comparison counts as a write, and hides the read.
comparison_hides_read : uninitialized_read 9 declaration function comparison_graph ≡ none
unfolding uninitialized_read new_graph
comparison_hides_read = refl

-- `int x; f(x);`
abbrev call_graph : AstGraph
call_graph = new_graph (
    node "f" "FunctionDecl" "" ("decl" ∷ "call" ∷ []) "f" "" "" 1 0
    ∷ declaration
    ∷ node "call" "CallExpr" "f" ("arg" ∷ []) "" "" "g" 3 0
    ∷ node "arg" "DeclRefExpr" "call" [] "x" "" "" 3 2
    ∷ [])

uninitialized_read-first_example :
    (has_initializer call_graph declaration ≡ false)
    × (is_reference_to "x" (node "arg" "DeclRefExpr" "call" [] "x" "" "" 3 2) ≡ true)
    × ((i : ℕ) × (get_elem? (descendants 9 call_graph "f") i
          ≡ some (node "arg" "DeclRefExpr" "call" [] "x" "" "" 3 2)))
    × (is_textual_write (node "arg" "DeclRefExpr" "call" [] "x" "" "" 3 2) call_graph ≡ false)
    × All
        (λ (n : Node).
          is_reference_to "x" n ≡ true
          → at_most (node "arg" "DeclRefExpr" "call" [] "x" "" "" 3 2) n ≡ true)
        (descendants 9 call_graph "f")
unfolding uninitialized_read new_graph
uninitialized_read-first_example =
    uninitialized_read-first 9 declaration function call_graph
      (node "arg" "DeclRefExpr" "call" [] "x" "" "" 3 2) refl
