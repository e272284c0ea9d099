-- ===== src/DataFlow/Taint.antt =====
-- `propagate_taint` of dataflow_engine_v2.py. The fixed text of a finding is left out.
use misra_c_agent.Base.{
  ℕ, String, Bool, Option, none, some, List, [], ◌∷◌, ◌++◌, map, ◌==◌, ◌||◌, ◌&&◌, not, string_eq,
  mem, filter_by, any_of, if◌then◌else◌, add, lookup,
}
use misra_c_agent.Base.Tables.{Table, join}
use misra_c_agent.Base.Fixpoint.{fixpoint}
use misra_c_agent.Ast.{Node, AstGraph, name_of, children, descendants}
use misra_c_agent.Cfg.{BlockId, block_id_eq, ControlFlowGraph, predecessors}
use misra_c_agent.DataFlow.{statement_own_descendants}
use misra_c_agent.DataFlow.Reaching.{block_ids, sources_of}

abbrev pub default_taint_sources : List String
default_taint_sources =
    "recv" ∷ "read" ∷ "scanf" ∷ "sscanf" ∷ "getenv" ∷ "HAL_UART_Receive" ∷ "gets" ∷ []

abbrev pub default_taint_sinks : List String
default_taint_sinks =
    "memcpy" ∷ "memmove" ∷ "strcpy" ∷ "strcat" ∷ "malloc" ∷ "system" ∷ "HAL_UART_Transmit" ∷ []

pub record TaintFinding : Type 0 where
  pub sink_call_node_id : String
  pub sink_function_name : String
  pub tainted_argument : String

-- What the scan reads of a node: of an assignment its target, whether its right side calls a source, and the
-- variables there; of a call its function and the names of its arguments.
pub data TaintItem : Type 0 where
  assigns : (target : String) (is_tainted_source : Bool) (reads : List String) → TaintItem
  calls : (node_id callee : String) (arguments : List String) → TaintItem

abbrev pub names : List Node → List String
names nodes = map name_of nodes

module _ (fuel : ℕ) (sources : List String) where
  unfoldable pub assignment_item : AstGraph → List Node → List TaintItem
  unfolding descendants
  assignment_item graph (lhs ∷ rhs ∷ rest) =
      let rhs_descendants = rhs ∷ descendants fuel graph rhs.node_id in
      if name_of lhs == ""
      then []
      else assigns (name_of lhs)
          (any_of
            (λ (n : Node). n.node_kind == "CallExpr" && mem n.semantic_properties.callee sources)
            rhs_descendants)
          (names (filter_by (λ (n : Node). n.node_kind == "DeclRefExpr") rhs_descendants))
        ∷ []
  assignment_item graph _ = []

  unfoldable pub item_of : AstGraph → Node → List TaintItem
  unfolding children assignment_item
  item_of graph node =
      let kids = children graph node.node_id in
      if node.node_kind == "BinaryOperator" && node.semantic_properties.opcode == "="
      then assignment_item graph kids
      else if node.node_kind == "CallExpr"
      then calls node.node_id node.semantic_properties.callee (names kids) ∷ []
      else []

  unfoldable pub items_of_nodes : AstGraph → List Node → List TaintItem
  unfolding item_of
  items_of_nodes graph [] = []
  items_of_nodes graph (node ∷ nodes) = item_of graph node ++ items_of_nodes graph nodes

  unfoldable pub items_of : AstGraph → List Node → List TaintItem
  unfolding items_of_nodes statement_own_descendants
  items_of graph [] = []
  items_of graph (statement ∷ statements) =
      items_of_nodes graph (statement_own_descendants fuel statement graph)
      ++ items_of graph statements

-- One node of `_taint_transfer`, on the set of tainted variables.
unfoldable pub taint_step : TaintItem → List String → List String
taint_step (assigns target is_tainted_source reads) tainted =
    if is_tainted_source || any_of (λ name. mem name tainted) reads
    then add target tainted
    else filter_by (λ name. not (name == target)) tainted
taint_step (calls node_id callee arguments) tainted = tainted

-- The set that `_taint_transfer` returns.
unfoldable pub taint_transfer : List TaintItem → List String → List String
unfolding taint_step
taint_transfer [] tainted = tainted
taint_transfer (item ∷ items) tainted = taint_transfer items (taint_step item tainted)

-- The findings of one call: an argument that is no name is `""`.
unfoldable pub sink_findings : String → String → List String → List String → List TaintFinding
sink_findings node_id callee [] tainted = []
sink_findings node_id callee (argument ∷ arguments) tainted =
    let rest = sink_findings node_id callee arguments tainted in
    let finding : TaintFinding = record {
      sink_call_node_id = node_id;
      sink_function_name = callee;
      tainted_argument = argument;
    } in
    if not (argument == "") && mem argument tainted then finding ∷ rest else rest

-- The findings that `_taint_transfer` appends, from the sets that it comes by.
unfoldable pub taint_findings : List String → List TaintItem → List String → List TaintFinding
unfolding taint_step sink_findings
taint_findings sinks [] tainted = []
taint_findings sinks (assigns target is_tainted_source reads ∷ items) tainted =
    taint_findings sinks items (taint_step (assigns target is_tainted_source reads) tainted)
taint_findings sinks (calls node_id callee arguments ∷ items) tainted =
    let rest = taint_findings sinks items tainted in
    if mem callee sinks then sink_findings node_id callee arguments tainted ++ rest else rest

abbrev pub targets_in : List TaintItem → List String
targets_in [] = []
targets_in (assigns target is_tainted_source reads ∷ items) = target ∷ targets_in items
targets_in (calls node_id callee arguments ∷ items) = targets_in items

module _ (fuel : ℕ) (sources : List String) where
  unfoldable pub block_items : ControlFlowGraph → AstGraph → BlockId → List TaintItem
  unfolding items_of
  block_items cfg graph block_id = elim (lookup block_id cfg.blocks) [
    | none ↦ []
    | some block ↦ items_of fuel sources graph block.statements
  ]

  -- The variables that some block assigns.
  unfoldable pub assigned_in : ControlFlowGraph → AstGraph → List BlockId → List String
  unfolding block_items
  assigned_in cfg graph [] = []
  assigned_in cfg graph (block_id ∷ ids) =
      targets_in (block_items cfg graph block_id) ++ assigned_in cfg graph ids

  -- The loop of `propagate_taint`.
  unfoldable pub taint_sets : ControlFlowGraph → AstGraph → Option (Table BlockId String)
  unfolding fixpoint taint_transfer block_items assigned_in predecessors
  taint_sets cfg graph =
      fixpoint (λ block_id incoming. taint_transfer (block_items cfg graph block_id) incoming)
        (sources_of cfg) (block_ids cfg) (assigned_in cfg graph (block_ids cfg))

  unfoldable pub findings_in_blocks :
      List String
      → ControlFlowGraph
      → AstGraph
      → Table BlockId String
      → List BlockId
      → List TaintFinding
  unfolding taint_findings block_items join predecessors
  findings_in_blocks sinks cfg graph out_sets [] = []
  findings_in_blocks sinks cfg graph out_sets (block_id ∷ ids) =
      taint_findings sinks (block_items cfg graph block_id)
        (join out_sets (sources_of cfg block_id))
      ++ findings_in_blocks sinks cfg graph out_sets ids

  -- `propagate_taint`
  unfoldable pub propagate_taint :
      List String → ControlFlowGraph → AstGraph → Option (List TaintFinding)
  unfolding taint_sets findings_in_blocks
  propagate_taint sinks cfg graph = elim (taint_sets cfg graph) [
    | none ↦ none
    | some out_sets ↦ some (findings_in_blocks sinks cfg graph out_sets (block_ids cfg))
  ]
