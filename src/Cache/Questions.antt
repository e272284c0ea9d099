-- ===== src/Cache/Questions.antt =====
-- The questions that rules ask of an `AnalysisCache`, and their answers with and without it.
use misra_c_agent.Base.{String, List, [], ◌∷◌, string_eq}
use misra_c_agent.Ast.{Node, AstGraph}
use misra_c_agent.Cache.{
  Analyses, AnalysisCache, cached_cfg, cached_aliases, cached_engine, cached_result, cached_symbols,
  cached_linkage, cached_analyzer,
}

-- What a rule asks of the cache.
pub data Question (X R : Type 0) : Type 0 where
  asks_cfg asks_aliases asks_engine : (node : Node) (graph : AstGraph) → Question X R
  asks_result : (node : Node) (analysis_name : String) (compute : Unit {0} → R) → Question X R
  asks_symbols : (graph : AstGraph) → Question X R
  asks_linkage asks_analyzer : (cross_tu_linkage : X) → Question X R

pub data Answer (C A D R S L K : Type 0) : Type 0 where
  cfg_answer : (value : C) → Answer C A D R S L K
  aliases_answer : (value : A) → Answer C A D R S L K
  engine_answer : (value : D) → Answer C A D R S L K
  result_answer : (value : R) → Answer C A D R S L K
  symbols_answer : (value : S) → Answer C A D R S L K
  linkage_answer : (value : L) → Answer C A D R S L K
  analyzer_answer : (value : K) → Answer C A D R S L K

module _ {X C A D R S L K : Type 0} (analyses : Analyses X C A D S L K) where
  -- A question put to the cache; the analyzer is asked for with the index that the cache gives for the
  -- same `cross_tu_linkage`.
  unfoldable pub ask :
      Question X R
      → AnalysisCache C A D R S L K
      → Answer C A D R S L K × AnalysisCache C A D R S L K
  unfolding cached_cfg cached_aliases cached_engine cached_result cached_symbols cached_linkage
      cached_analyzer
  ask (asks_cfg node graph) cache =
      let r = cached_cfg analyses node graph cache in (cfg_answer r.0, r.1)
  ask (asks_aliases node graph) cache =
      let r = cached_aliases analyses node graph cache in (aliases_answer r.0, r.1)
  ask (asks_engine node graph) cache =
      let r = cached_engine analyses node graph cache in (engine_answer r.0, r.1)
  ask (asks_result node name compute) cache =
      let r = cached_result analyses node name compute cache in (result_answer r.0, r.1)
  ask (asks_symbols graph) cache =
      let r = cached_symbols analyses graph cache in (symbols_answer r.0, r.1)
  ask (asks_linkage cross_tu_linkage) cache =
      let r = cached_linkage analyses cross_tu_linkage cache in (linkage_answer r.0, r.1)
  ask (asks_analyzer cross_tu_linkage) cache =
      let l = cached_linkage analyses cross_tu_linkage cache in
      let r = cached_analyzer analyses l.0 l.1 in (analyzer_answer r.0, r.1)

  -- Questions one after the other, as the rules of a run ask them.
  unfoldable pub ask_all :
      List (Question X R)
      → AnalysisCache C A D R S L K
      → List (Answer C A D R S L K) × AnalysisCache C A D R S L K
  unfolding ask
  ask_all [] cache = ([], cache)
  ask_all (question ∷ questions) cache =
      let r = ask question cache in let rest = ask_all questions r.1 in (r.0 ∷ rest.0, rest.1)

  -- The answer without a cache.
  unfoldable pub answer_afresh : Question X R → Answer C A D R S L K
  answer_afresh (asks_cfg node graph) = cfg_answer (analyses.cfg_of graph node)
  answer_afresh (asks_aliases node graph) = aliases_answer (analyses.aliases_of graph node)
  answer_afresh (asks_engine node graph) =
      engine_answer (analyses.engine_on (analyses.aliases_of graph node))
  answer_afresh (asks_result node name compute) = result_answer (compute tt)
  answer_afresh (asks_symbols graph) = symbols_answer (analyses.symbols_of graph)
  answer_afresh (asks_linkage cross_tu_linkage) =
      linkage_answer (analyses.linkage_index_of cross_tu_linkage)
  answer_afresh (asks_analyzer cross_tu_linkage) =
      analyzer_answer (analyses.linkage_analyzer_on (analyses.linkage_index_of cross_tu_linkage))
