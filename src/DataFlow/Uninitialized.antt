-- ===== src/DataFlow/Uninitialized.antt =====
-- Which reads `uninitialized_reads` of dataflow_engine_v2.py reports.
use misra_c_agent.Base.{
  ℕ, String, true, some, List, [], ◌∷◌, ◌≡◌, ◌↔◌, ◌⊎◌, refl, subst, string_eq, mem, flat_map, Dict,
  inl, inr,
}
use misra_c_agent.Base.Tables.{Table, get, join-from, join-to}
use misra_c_agent.Ast.{Node, AstGraph}
use misra_c_agent.Cfg.{BlockId, block_id_eq, BasicBlock, ControlFlowGraph}
use misra_c_agent.DataFlow.{block_events}
use misra_c_agent.DataFlow.Reaching.{
  uninit, Definition, definition_eq, sources_of, in_set, decl_names, reaching_uninit,
  uninitialized_local_decls, uninit_in_blocks, uninitialized_reads,
}
use misra_c_agent.DataFlow.Definitions.{
  ReachesEnd, reaching_definitions_exact, observed, observed_lem,
}
use misra_c_agent.DataFlow.Seeded.{
  IsDeclaredIn, decl_names-from, decl_names-to, reaching_uninit-from, reaching_uninit-names,
  reaching_uninit-to,
}

module _ (fuel : ℕ) (function_node : Node) (cfg : ControlFlowGraph) (graph : AstGraph) where
  -- A predecessor of the block has at its end a definition of the variable that gives it no value.
  abbrev pub IsHandedOn : BlockId → String → Type 0
  IsHandedOn block_id name =
      (d : Definition) × (source : BlockId) × (mem source (sources_of cfg block_id) ≡ true)
      × ReachesEnd fuel function_node cfg graph d source
      × (d.site_node_id ≡ uninit)
      × (d.variable ≡ name)

  abbrev starts_of : Table BlockId Definition → BlockId → List String
  starts_of out_sets block_id =
      reaching_uninit (in_set block_id cfg out_sets)
        (decl_names cfg (uninitialized_local_decls fuel function_node graph) block_id)

  -- The blocks one after the other.
  observed_in_blocks :
      (out_sets : Table BlockId Definition) (blocks : Dict BlockId BasicBlock)
      → uninit_in_blocks fuel cfg graph
          (uninitialized_local_decls fuel function_node graph)
          out_sets
          blocks
        ≡ flat_map
            (λ (row : BlockId × BasicBlock).
              observed (starts_of out_sets row.0) [] (block_events fuel row.1 graph))
            blocks
  unfolding uninit_in_blocks
  observed_in_blocks out_sets [] = refl
  observed_in_blocks out_sets ((block_id, block) ∷ blocks) =
      rw
        (
          observed_lem (starts_of out_sets block_id) (block_events fuel block graph),
          observed_in_blocks out_sets blocks,
        )
        refl

  starts_of_iff :
      (out_sets : Table BlockId Definition)
      → ((block_id : BlockId) (d : Definition)
          → (mem d (get out_sets block_id) ≡ true)
            ↔ ReachesEnd fuel function_node cfg graph d block_id)
      → (block_id : BlockId) (name : String)
      → (mem name (starts_of out_sets block_id) ≡ true) ↔ (
          IsHandedOn block_id name
          ⊎ IsDeclaredIn cfg (uninitialized_local_decls fuel function_node graph) block_id name)
  unfolding in_set
  starts_of_iff out_sets exact block_id name =
      let decls = uninitialized_local_decls fuel function_node graph in
      let names = decl_names cfg decls block_id in
      let incoming = in_set block_id cfg out_sets in
      (
        λ m. elim (reaching_uninit-from incoming names name m) [
          | inl (d, k, site, named) ↦
              let (source, edge, at) = join-from out_sets (sources_of cfg block_id) d k in
              inl (d, source, edge, (exact source d).0 at, site, named)
          | inr k ↦ inr (decl_names-from cfg decls block_id name k)
        ],
        λ either. elim either [
          | inl (d, source, edge, reaches, site, named) ↦
              let k =
                join-to out_sets (sources_of cfg block_id) d source edge
                  ((exact source d).1 reaches) in
              subst (λ n. mem n (reaching_uninit incoming names) ≡ true) named
                (reaching_uninit-to incoming names d k site)
          | inr declared ↦
              reaching_uninit-names incoming names name
                (decl_names-to cfg decls block_id name declared)
        ],
      )

  -- `uninitialized_reads` ends, and it reports, block after block, the reads of a variable that may have no value at the
  -- start of the block or is declared in it without an initializer, if no event of the block in front of the
  -- read writes the variable. A variable may have no value at the start of a block exactly if a
  -- definition that gives it none reaches the end of a predecessor.
  pub uninitialized_reads_exact :
      (nodes : List Node) × (starts : BlockId → List String) × (uninitialized_reads fuel
          function_node cfg graph
        ≡ some nodes)
      × (nodes
          ≡ flat_map
              (λ (row : BlockId × BasicBlock).
                observed (starts row.0) [] (block_events fuel row.1 graph))
              cfg.blocks)
      × ((block_id : BlockId) (name : String)
          → (mem name (starts block_id) ≡ true) ↔ (
              IsHandedOn block_id name
              ⊎ IsDeclaredIn cfg
                  (uninitialized_local_decls fuel function_node graph)
                  block_id
                  name))
  unfolding uninitialized_reads
  uninitialized_reads_exact =
      let (out_sets, ends, exact) = reaching_definitions_exact fuel function_node cfg graph in
      (
        uninit_in_blocks fuel cfg graph (uninitialized_local_decls fuel function_node graph)
            out_sets cfg.blocks,
        starts_of out_sets,
        rw (ends, uninitialized_reads) refl,
        observed_in_blocks out_sets cfg.blocks,
        starts_of_iff out_sets exact,
      )
