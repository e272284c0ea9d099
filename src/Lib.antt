-- ===== src/Lib.antt =====
-- A model of the MISRA C compliance platform: the rule engine that analyses a serialized C syntax
-- tree, and the backend in which engineers review what it finds.
--
-- Parts and files. Paths are from the repository's root; `rules` is
-- rule-engine/src/misra_platform_rules and `backend` is backend/src/misra_platform.
-- - Base: what the modules share: native numbers, lists, Python's dicts as association lists in
--   insertion order, equality as an instance argument, sets as lists, a visited-set search over a
--   graph, the contraction of an edge of a graph, and loops that sweep over the nodes of a graph until
--   nothing changes.
-- - Ast (rules/ast_graph.py): the tree as a dict of nodes, with `children`, `descendants`, `node_path`.
--   Ast/Walk is about `descendants`.
-- - Cfg (rules/analyzers/cfg_engine.py): `ControlFlowGraph` and its queries. Cfg/Builder has the state
--   that `CFGEngine` threads through a build (the graph, the block factory, `_sequence_tails`, the
--   label targets and the pending gotos) as a record; Cfg/Build has `_build_block_sequence` with its
--   handlers, Cfg/Finish has `build` and the pruning. WellFormed, Joined, Handlers, Sequences and
--   EndPoints carry the builder's invariant; Collapse and Prune the pruning; Fuel the recursion.
-- - DataFlow (rules/analyzers/dataflow_engine_v2.py): the reads and writes of a block, in source order.
--   DataFlow/Reaching, Liveness, Taint and Facts have the analyses; Definitions, Seeded, Uninitialized, Live,
--   Flows, Tainted and Lifetimes are about them. Textual (rules/analyzers/dataflow_engine.py) is the first engine,
--   with FirstRead, and Ordered the order by source position. The tables and the loops that settle
--   are in Base/Tables, Settle, Fixpoint, GenKill and Backward.
-- - Alias (rules/analyzers/alias_analyzer.py): pointees and what the right side of an assignment points to.
--   Alias/Analysis has `analyze`, Queries and Calls have the queries on its table; Growth, PointsTo,
--   Aliases and Invalidated are about them.
-- - Cache (rules/analysis_cache.py): the analyses of one translation unit, built when first asked for. What is
--   built is a parameter; the graph, the linkage and the computation are arguments, as in the source. Cache/Questions has what rules ask of it; Entries and Coherent are about
--   what its entries hold.
-- - Engine (rules/engine.py): `_execute_rule_safe` and `_deduplicate`; Engine/Execution has `execute`, over the
--   waves of the planner. A plugin's `detect`, the confidence score, the fingerprint and the order in
--   which the futures of a wave complete are parameters.
-- - Registry (rules/registry.py): the plugins and their metadata by rule id, and the loading of manifests. The
--   YAML reader with the file system, and the import of a plugin class, are parameters.
-- - Rules (rules/standards/misra_c_2012/rules/rule_pack_control_flow.py): the nodes that rules 2.1, 15.1, 15.6,
--   16.4 and 16.6 report; Rules/Unreachable is about rule 2.1.
-- - Planner (rules/execution_planner.py, taxonomy.py): `resolve_execution_groups`, with the memo table
--   and the ids whose calls are open. Staged and Tiers are about the tiers that are given out, Fuel about
--   the depth of the calls, Groups about the plan.
-- - Enablement (rules/rule_enablement.py): which rules are enabled, and the summary of it. The rates
--   are a parameter with a comparison, for Python's floats.
-- - Types (rules/analyzers/essential_type_analyzer.py, essential_type_engine.py): essential types.
-- - Incremental (backend/integrations/clang_bridge/incremental_index.py): changed files, and the
--   translation units that a change reaches.
-- - Review (backend/services/review_service.py, bulk_review_service.py, domain/enums,
--   domain/models, repositories/review_repo.py): the review workflow over an explicit database.
--   Review/Service and Review/Bulk have the operations; Submitting, Kept, Keeping and AuditTrail
--   what they write and keep.
--
-- State and errors. A method that changes an object takes its state and returns the new one; a method
-- that raises returns a `Result`. Python's block ids `entry`, `exit` and `bN` are three constructors.
--
-- Bounds. The search loops take one round for each edge and each root and one more to find the work
-- list empty, since an edge is followed once. The pruning takes one round more than there are blocks,
-- since a round that changes anything deletes one. `resolve` takes two rounds more than there are rules,
-- since no rule is open twice. The loops of the data-flow analyses take one round for each block and each
-- element that its set can get, and one more, since a round that changes anything adds an element.
-- The recursion of the builder follows the syntax tree and takes fuel: the rank of the function node,
-- in any ranking of the tree in which children rank below their parent, is enough. `descendants`
-- needs as much as there are nodes below the node; `node_path` and the essential type of an
-- expression take fuel as well.
--
-- Not modelled: reading files, hashing and JSON, `difflib`, the thread pool and its timings, database
-- queries for display, timestamps, the HTTP layer and the other rules. Ids of rows come from
-- a parameter in place of `uuid4`, and the text of a patch from one in place of `PatchEngine`.
pub mod Base
pub mod Cache
pub mod Ast
pub mod Alias
pub mod Cfg
pub mod DataFlow
pub mod Engine
pub mod Incremental
pub mod Types
pub mod Review
pub mod Rules
pub mod Enablement
pub mod Planner
pub mod Registry
