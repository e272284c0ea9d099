-- ===== src/Cache/Examples.antt =====
-- Two rules that ask for the same function: tests, and the property at them.
use misra_c_agent.Base.{
  ℕ, suc, String, true, false, Option, none, some, List, [], ◌∷◌, map, length, ◌≡◌, refl, string_eq,
}
use misra_c_agent.Ast.{Node, AstGraph, new_graph, get_node}
use misra_c_agent.Alias.{PointsToTable}
use misra_c_agent.Alias.Analysis.{analyze}
use misra_c_agent.Cfg.{ControlFlowGraph}
use misra_c_agent.Cfg.Finish.{build}
use misra_c_agent.Cache.{
  Analyses, AnalysisCache, empty_cache, cached_symbols, cached_linkage, cached_result,
}
use misra_c_agent.Cache.Questions.{
  Question, asks_cfg, asks_engine, asks_result, asks_symbols, asks_analyzer, ask_all, answer_afresh,
}
use misra_c_agent.Cache.Coherent.{IsAskable, IsCoherent, ask_all-IsCoherent}

abbrev function : Node
function = record {
  node_id = "f";
  node_kind = "FunctionDecl";
  parent_id = "";
  children_ids = [];
  semantic_properties = record {
    name = some "f";
    opcode = "";
    callee = "";
    target_label = "";
    value = none;
    storage_class = none;
    is_function = true;
    pointer_name = "";
    invalidated_pointers = [];
    flags = [];
  };
  type_information = record {
    spelling = "void (void)";
    fundamental_kind = "";
    is_pointer = false;
    is_array = false;
    pointee_type = "";
  };
  source_range = record { line_start = 1; line_end = 1; column_start = 1 };
  has_source_range = true;
  essential_type = none;
}

abbrev graph : AstGraph
graph = new_graph (function ∷ [])

-- The engine is its points-to table, and the index of symbols the number of nodes.
abbrev analyses : Analyses ℕ (Option ControlFlowGraph) PointsToTable PointsToTable ℕ ℕ ℕ
analyses = record {
  cfg_of = λ g node. build 9 g node;
  aliases_of = λ g node. analyze 9 node g;
  engine_on = λ table. table;
  symbols_of = λ g. length g.nodes_list;
  linkage_index_of = λ cross_tu_linkage. cross_tu_linkage;
  linkage_analyzer_on = λ index. suc index;
}

abbrev named_result : Node → String → String
named_result node name = name

abbrev questions : List (Question ℕ String)
questions =
    asks_cfg function graph
    ∷ asks_engine function graph
    ∷ asks_cfg function graph
    ∷ asks_result function "liveness" (λ u. "liveness")
    ∷ asks_symbols graph
    ∷ asks_analyzer 2
    ∷ asks_engine function graph
    ∷ []

abbrev Cached : Type 0
Cached = AnalysisCache (Option ControlFlowGraph) PointsToTable PointsToTable String ℕ ℕ ℕ

counted :
    (let cache = (ask_all analyses questions empty_cache).1 in
      (cache.stats.hits ≡ 2)
      × (cache.stats.misses ≡ 7)
      × (cache.stats.cfg_builds ≡ (("f", 1) ∷ [])))
unfolding ask_all
counted = (refl, refl, refl)

-- Asked about another graph, or with another linkage or another computation, the cache has the old answer.
stale :
    (let new_cache : Cached = empty_cache in
      let symbols = cached_symbols analyses graph new_cache in
      let linkage = cached_linkage analyses 2 new_cache in
      let result = cached_result analyses function "liveness" (λ u. "old") new_cache in
      ((cached_symbols analyses (new_graph []) symbols.1).0 ≡ 1)
      × ((cached_linkage analyses 3 linkage.1).0 ≡ 2)
      × ((cached_result analyses function "liveness" (λ u. "new") result.1).0 ≡ "old"))
unfolding cached_symbols cached_linkage cached_result new_graph
stale = (refl, refl, refl)

ask_all-IsCoherent_example :
    ((ask_all analyses questions empty_cache).0 ≡ map (answer_afresh analyses) questions)
    × IsCoherent analyses graph 2 named_result (ask_all analyses questions empty_cache).1
unfolding IsAskable new_graph get_node
ask_all-IsCoherent_example = ask_all-IsCoherent analyses graph 2 named_result questions (
  (refl, refl),
  ((refl, refl), ((refl, refl), ((refl, refl), (refl, (refl, ((refl, refl), tt)))))),
)
