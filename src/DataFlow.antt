-- ===== src/DataFlow.antt =====
-- rule-engine/src/misra_platform_rules/analyzers/dataflow_engine_v2.py: what a block reads and writes. `fuel` is that of
-- `AstGraph.descendants`.
pub mod Ordered
pub mod Reaching
pub mod Textual
pub mod FirstRead
pub mod Definitions
pub mod Seeded
pub mod Uninitialized
pub mod Liveness
pub mod Live
pub mod Taint
pub mod Flows
pub mod Tainted
pub mod Facts
pub mod Lifetimes
mod Examples
use misra_c_agent.Base.{
  ℕ, zero, suc, String, Bool, true, false, Option, none, some, List, [], ◌∷◌, ◌++◌, map, ◌==◌, ◌||◌,
  ◌&&◌, not, string_eq, nat_eq, mem, filter_by, any_of, ltb, leb, if◌then◌else◌, ends_with, add,
}
use misra_c_agent.Ast.{Node, AstGraph, name_of, get_node, children, descendants}
use misra_c_agent.Cfg.{BlockId, BasicBlock, ControlFlowGraph}

-- `children[0]["node_id"] == decl_ref["node_id"]`, where there is a first child.
unfoldable pub is_first_child : Node → List Node → Bool
is_first_child node [] = false
is_first_child node (child ∷ kids) = child.node_id == node.node_id

-- The two flags of `_is_write_target` at a parent.
unfoldable pub write_at : Node → AstGraph → Node → Bool × Bool
unfolding is_first_child children
write_at parent graph decl_ref =
    let opcode = parent.semantic_properties.opcode in
    let is_lhs = is_first_child decl_ref (children graph parent.node_id) in
    if parent.node_kind == "BinaryOperator"
    then (if opcode == "=" && is_lhs
        then (true, false)
        else if ends_with "=" opcode && not (mem opcode ("==" ∷ "!=" ∷ "<=" ∷ ">=" ∷ [])) && is_lhs
        then (true, true)
        else (false, false))
    else if parent.node_kind == "UnaryOperator" && mem opcode ("++" ∷ "--" ∷ [])
    then (true, true)
    else (false, false)

-- `_is_write_target`: whether the reference is written, and whether it is then read too.
unfoldable pub is_write_target : Node → AstGraph → Bool × Bool
unfolding get_node write_at
is_write_target decl_ref graph = elim (get_node graph decl_ref.parent_id) [
  | none ↦ (false, false)
  | some parent ↦ write_at parent graph decl_ref
]

-- `nodes[:1]`, `nodes[1:]` and `nodes[:-1]`
abbrev pub first_one : List Node → List Node
first_one [] = []
first_one (node ∷ nodes) = node ∷ []

abbrev pub all_but_first : List Node → List Node
all_but_first [] = []
all_but_first (node ∷ nodes) = nodes

abbrev pub all_but_last : List Node → List Node
all_but_last [] = []
all_but_last (node ∷ []) = []
all_but_last (node ∷ next ∷ nodes) = node ∷ all_but_last (next ∷ nodes)

-- The children whose subtrees belong to the block of the statement, or `none` where all of it does.
unfoldable pub own_children : Node → AstGraph → Option (List Node)
unfolding children
own_children statement graph =
    let kids = children graph statement.node_id in
    let kind = statement.node_kind in
    if kind == "IfStmt"
    then some (first_one kids)
    else if kind == "WhileStmt" || kind == "ForStmt" || kind == "SwitchStmt"
    then some (all_but_last kids)
    else if kind == "DoStmt"
    then some (all_but_first kids)
    else none

-- `(line_start, column_start)` of the one is at most that of the other.
unfoldable pub at_most : Node → Node → Bool
at_most a b =
    ltb a.source_range.line_start b.source_range.line_start
    || (a.source_range.line_start == b.source_range.line_start
        && leb a.source_range.column_start b.source_range.column_start)

unfoldable pub insert_by_position : Node → List Node → List Node
unfolding at_most
insert_by_position node [] = node ∷ []
insert_by_position node (next ∷ nodes) =
    let rest = insert_by_position node nodes in
    if at_most node next then node ∷ next ∷ nodes else next ∷ rest

-- `_linearize`: `sorted` is stable, and so is this.
unfoldable pub linearize : List Node → List Node
unfolding insert_by_position
linearize [] = []
linearize (node ∷ nodes) = insert_by_position node (linearize nodes)

pub record Event : Type 0 where
  pub variable : String
  pub is_write : Bool
  pub is_read_too : Bool
  pub node : Node

-- `(not is_write) or is_read_too`
abbrev pub reads : Event → Bool
reads event = not event.is_write || event.is_read_too

-- The loop of `_block_events` over the ordered references.
unfoldable pub events_of : AstGraph → List Node → List Event
unfolding is_write_target
events_of graph [] = []
events_of graph (ref ∷ refs) =
    let rest = events_of graph refs in
    let (is_write, is_read_too) = is_write_target ref graph in
    let event : Event = record {
      variable = name_of ref;
      is_write = is_write;
      is_read_too = is_read_too;
      node = ref;
    } in
    if name_of ref == "" then rest else event ∷ rest

-- The loop of `block_def_use`: the writes, and the variables read before any write.
unfoldable pub def_use :
    List Event → List String → List String → List Event → List Event × List String
def_use [] exposed_reads locally_defined writes = (writes, exposed_reads)
def_use (event ∷ events) exposed_reads locally_defined writes =
    let exposed =
      if reads event && not (mem event.variable locally_defined)
      then add event.variable exposed_reads
      else exposed_reads in
    if event.is_write
    then def_use events exposed (add event.variable locally_defined) (writes ++ event ∷ [])
    else def_use events exposed locally_defined writes

module _ (fuel : ℕ) where
  unfoldable pub with_descendants : AstGraph → List Node → List Node
  unfolding descendants
  with_descendants graph [] = []
  with_descendants graph (child ∷ nodes) =
      child ∷ (descendants fuel graph child.node_id ++ with_descendants graph nodes)

  -- `_statement_own_descendants`
  unfoldable pub statement_own_descendants : Node → AstGraph → List Node
  unfolding own_children with_descendants descendants
  statement_own_descendants statement graph = elim (own_children statement graph) [
    | none ↦ statement ∷ descendants fuel graph statement.node_id
    | some kids ↦ statement ∷ with_descendants graph kids
  ]

  unfoldable pub references_in : AstGraph → List Node → List Node
  unfolding statement_own_descendants
  references_in graph [] = []
  references_in graph (statement ∷ statements) =
      filter_by (λ (node : Node). node.node_kind == "DeclRefExpr")
        (statement_own_descendants statement graph)
      ++ references_in graph statements

  -- `_block_events`
  unfoldable pub block_events : BasicBlock → AstGraph → List Event
  unfolding events_of linearize references_in
  block_events block graph = events_of graph (linearize (references_in graph block.statements))

  -- `block_def_use`
  unfoldable pub block_def_use : BasicBlock → AstGraph → List Event × List String
  unfolding def_use block_events
  block_def_use block graph = def_use (block_events block graph) [] [] []
