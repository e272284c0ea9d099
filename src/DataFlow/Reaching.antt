-- ===== src/DataFlow/Reaching.antt =====
-- `reaching_definitions` and `uninitialized_reads` of dataflow_engine_v2.py.
use misra_c_agent.Base.{
  ℕ, String, Bool, true, Option, none, some, List, [], ◌∷◌, ◌++◌, map, ◌==◌, ◌&&◌, not, ◌≡◌, ◌↔◌,
  arith, Eq, string_eq, mem, filter_by, any_of, if◌then◌else◌, add, Dict, keys, lookup,
}
use misra_c_agent.Base.Tables.{Table, join}
use misra_c_agent.Base.Fixpoint.{fixpoint}
use misra_c_agent.Base.GenKill.{gen_kill, all_generated}
use misra_c_agent.Ast.{Node, AstGraph, name_of, children, descendants}
use misra_c_agent.Cfg.{
  BlockId, block_id_eq, CfgEdge, BasicBlock, ControlFlowGraph, predecessors, block_containing,
}
use misra_c_agent.DataFlow.{Event, reads, block_events, block_def_use}

abbrev pub uninit : String
uninit = "<uninit>"

pub record Definition : Type 0 where
  pub variable : String
  pub site_node_id : String
  pub block_id : BlockId

abbrev definition_beq : Definition → Definition → Bool
definition_beq a b =
    a.variable == b.variable && (a.site_node_id == b.site_node_id && a.block_id == b.block_id)

pub definition_beq_iff : (a b : Definition) → (definition_beq a b ≡ true) ↔ (a ≡ b)
definition_beq_iff a b = ground (
  arith,
  string_eq.beq_iff a.variable b.variable,
  string_eq.beq_iff a.site_node_id b.site_node_id,
  block_id_eq.beq_iff a.block_id b.block_id,
)

instance abbrev pub definition_eq : Eq Definition
definition_eq = record { beq = definition_beq; beq_iff = definition_beq_iff }

abbrev pub block_ids : ControlFlowGraph → List BlockId
block_ids cfg = keys cfg.blocks

-- `edge.source for edge in cfg.predecessors(block_id)`
abbrev pub sources_of : ControlFlowGraph → BlockId → List BlockId
sources_of cfg block_id = map (λ (edge : CfgEdge). edge.source) (predecessors cfg block_id)

-- `has_initializer` of `_uninitialized_local_decls`
unfoldable pub has_initializer : AstGraph → Node → Bool
unfolding children
has_initializer graph var_decl =
    any_of
      (λ (child : Node).
        not (mem child.node_kind ("BuiltinType" ∷ "RecordType" ∷ "PointerType" ∷ [])))
      (children graph var_decl.node_id)

-- The loop that seeds `gen` with the declarations that leave their variable uninitialized.
unfoldable pub uninit_gen : ControlFlowGraph → List Node → BlockId → List Definition
unfolding block_containing
uninit_gen cfg [] block_id = []
uninit_gen cfg (var_decl ∷ decls) block_id =
    let rest = uninit_gen cfg decls block_id in
    let definition : Definition = record {
      variable = name_of var_decl;
      site_node_id = uninit;
      block_id = block_id;
    } in
    elim (block_containing cfg var_decl.node_id) [
      | none ↦ rest
      | some (decl_block, block) ↦
          if decl_block == block_id && not (name_of var_decl == "")
          then add definition rest
          else rest
    ]

-- The loop over the writes of a block.
unfoldable pub gen_writes : BlockId → List Event → List Definition → List Definition
gen_writes block_id [] block_gen = block_gen
gen_writes block_id (write ∷ writes) block_gen =
    let definition : Definition = record {
      variable = write.variable;
      site_node_id = write.node.node_id;
      block_id = block_id;
    } in
    gen_writes block_id writes (
      add definition (filter_by (λ (d : Definition). not (d.variable == write.variable)) block_gen))

abbrev pub written : List Event → List String
written writes = map (λ (event : Event). event.variable) writes

-- `in_set`
unfoldable pub in_set : BlockId → ControlFlowGraph → Table BlockId Definition → List Definition
unfolding join predecessors
in_set block_id cfg out_sets = join out_sets (sources_of cfg block_id)

-- The names with an uninitialized declaration in the block.
unfoldable pub decl_names : ControlFlowGraph → List Node → BlockId → List String
unfolding block_containing
decl_names cfg [] block_id = []
decl_names cfg (var_decl ∷ decls) block_id =
    let rest = decl_names cfg decls block_id in
    elim (block_containing cfg var_decl.node_id) [
      | none ↦ rest
      | some (decl_block, block) ↦
          if decl_block == block_id && not (name_of var_decl == "")
          then add (name_of var_decl) rest
          else rest
    ]

unfoldable pub reaching_uninit : List Definition → List String → List String
reaching_uninit [] names = names
reaching_uninit (d ∷ ds) names =
    let rest = reaching_uninit ds names in
    if d.site_node_id == uninit then add d.variable rest else rest

-- The loop over the events of a block.
unfoldable pub uninit_scan : List Event → List String → List Node
uninit_scan [] reaching = []
uninit_scan (event ∷ events) reaching =
    let skipped = uninit_scan events reaching in
    let rest = uninit_scan events (
      if event.is_write
      then filter_by (λ name. not (name == event.variable)) reaching
      else reaching) in
    if not (mem event.variable reaching)
    then skipped
    else if reads event
    then event.node ∷ rest
    else rest

module _ (fuel : ℕ) where
  unfoldable pub uninitialized_local_decls : Node → AstGraph → List Node
  unfolding descendants has_initializer
  uninitialized_local_decls function_node graph =
      filter_by (λ (node : Node). node.node_kind == "VarDecl" && not (has_initializer graph node))
        (descendants fuel graph function_node.node_id)

  -- `block_def_use(cfg.blocks[block_id], graph)[0]`
  unfoldable pub writes_of : ControlFlowGraph → AstGraph → BlockId → List Event
  unfolding block_def_use
  writes_of cfg graph block_id = elim (lookup block_id cfg.blocks) [
    | none ↦ []
    | some block ↦ (block_def_use fuel block graph).0
  ]

  -- `gen[block_id]` after the second loop, and membership in `kill_vars[block_id]`.
  unfoldable pub gen_of : Node → ControlFlowGraph → AstGraph → BlockId → List Definition
  unfolding gen_writes writes_of uninit_gen uninitialized_local_decls
  gen_of function_node cfg graph block_id =
      gen_writes block_id (writes_of cfg graph block_id)
        (uninit_gen cfg (uninitialized_local_decls function_node graph) block_id)

  unfoldable pub killed : ControlFlowGraph → AstGraph → BlockId → Definition → Bool
  unfolding writes_of
  killed cfg graph block_id d = mem d.variable (written (writes_of cfg graph block_id))

  -- `reaching_definitions`
  unfoldable pub reaching_definitions :
      Node → ControlFlowGraph → AstGraph → Option (Table BlockId Definition)
  unfolding fixpoint gen_of killed predecessors
  reaching_definitions function_node cfg graph =
      let gen = gen_of function_node cfg graph in
      let kills = killed cfg graph in
      fixpoint (gen_kill gen kills) (sources_of cfg) (block_ids cfg)
        (all_generated gen kills (block_ids cfg))

  unfoldable pub uninit_in_blocks :
      ControlFlowGraph
      → AstGraph
      → List Node
      → Table BlockId Definition
      → Dict BlockId BasicBlock
      → List Node
  unfolding block_events in_set decl_names reaching_uninit uninit_scan
  uninit_in_blocks cfg graph decls out_sets [] = []
  uninit_in_blocks cfg graph decls out_sets ((block_id, block) ∷ blocks) =
      uninit_scan (block_events fuel block graph)
        (reaching_uninit (in_set block_id cfg out_sets) (decl_names cfg decls block_id))
      ++ uninit_in_blocks cfg graph decls out_sets blocks

  -- `uninitialized_reads`
  unfoldable pub uninitialized_reads : Node → ControlFlowGraph → AstGraph → Option (List Node)
  unfolding reaching_definitions uninit_in_blocks uninitialized_local_decls
  uninitialized_reads function_node cfg graph =
      let decls = uninitialized_local_decls function_node graph in
      elim (reaching_definitions function_node cfg graph) [
        | none ↦ none
        | some out_sets ↦ some (uninit_in_blocks cfg graph decls out_sets cfg.blocks)
      ]
