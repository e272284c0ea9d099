-- ===== src/Cache.antt =====
-- rule-engine/src/misra_platform_rules/analysis_cache.py: the analyses of one translation unit, each built when it is first
-- asked for. What it caches is a parameter; rounded rates are left out of its statistics.
pub mod Questions
pub mod Entries
pub mod Coherent
mod Examples
use misra_c_agent.Base.{
  ℕ, ◌+◌, String, Option, none, some, List, [], ◌∷◌, map, ◌==◌, ◌&&◌, ◌≡◌, ◌↔◌, arith, Eq,
  string_eq, Bool, true, Dict, lookup, insert, append_text,
}
use misra_c_agent.Ast.{Node, AstGraph}

-- A key of `_dataflow_results`: a node id and the name of an analysis.
abbrev pub ResultKey : Type 0
ResultKey = String × String

abbrev key_beq : ResultKey → ResultKey → Bool
key_beq (a, b) (c, d) = a == c && b == d

pub key_beq_iff : (j k : ResultKey) → (key_beq j k ≡ true) ↔ (j ≡ k)
key_beq_iff (a, b) (c, d) = ground (arith, string_eq.beq_iff a c, string_eq.beq_iff b d)

instance abbrev pub key_eq : Eq ResultKey
key_eq = record { beq = key_beq; beq_iff = key_beq_iff }

-- What the cache builds: graphs, points-to facts, engines over them, and the indexes; `X` is the type of
-- `cross_tu_linkage`.
pub record Analyses (X C A D S L K : Type 0) : Type 0 where
  pub cfg_of : AstGraph → Node → C
  pub aliases_of : AstGraph → Node → A
  pub engine_on : A → D
  pub symbols_of : AstGraph → S
  pub linkage_index_of : X → L
  pub linkage_analyzer_on : L → K

-- The counters.
pub record CacheStats : Type 0 where
  pub hits : ℕ
  pub misses : ℕ
  pub hits_by_analyzer : Dict String ℕ
  pub misses_by_analyzer : Dict String ℕ
  pub miss_reasons : Dict String ℕ
  pub cfg_builds : Dict String ℕ
  pub alias_builds : Dict String ℕ
  pub dataflow_builds : Dict String ℕ
  pub symbol_index_builds : ℕ
  pub linkage_index_builds : ℕ
  pub linkage_analyzer_builds : ℕ

-- `AnalysisCache`
pub record AnalysisCache (C A D R S L K : Type 0) : Type 0 where
  pub cfgs : Dict String C
  pub alias_facts : Dict String A
  pub engines : Dict String D
  pub results : Dict ResultKey R
  pub symbol_index : Option S
  pub linkage : Option L
  pub analyzer : Option K
  pub stats : CacheStats

-- `d[key] += 1` on a `defaultdict(int)`.
unfoldable pub bump : String → Dict String ℕ → Dict String ℕ
bump key d = elim (lookup key d) [ none ↦ insert key 1 d | some n ↦ insert key (n + 1) d ]

-- `_record_hit`
unfoldable pub record_hit : String → CacheStats → CacheStats
unfolding bump
record_hit analyzer stats = record stats {
  hits = stats.hits + 1;
  hits_by_analyzer = bump analyzer stats.hits_by_analyzer;
}

-- `_record_miss`, with the one reason that there is.
unfoldable pub record_miss : String → CacheStats → CacheStats
unfolding bump
record_miss analyzer stats = record stats {
  misses = stats.misses + 1;
  misses_by_analyzer = bump analyzer stats.misses_by_analyzer;
  miss_reasons = bump (append_text analyzer ":first_access_for_semantic_unit") stats.miss_reasons;
}

abbrev pub no_stats : CacheStats
no_stats = record {
  hits = 0;
  misses = 0;
  hits_by_analyzer = [];
  misses_by_analyzer = [];
  miss_reasons = [];
  cfg_builds = [];
  alias_builds = [];
  dataflow_builds = [];
  symbol_index_builds = 0;
  linkage_index_builds = 0;
  linkage_analyzer_builds = 0;
}

module _ {C A D R S L K : Type 0} where
  -- `AnalysisCache()`
  abbrev pub empty_cache : AnalysisCache C A D R S L K
  empty_cache = record {
    cfgs = [];
    alias_facts = [];
    engines = [];
    results = [];
    symbol_index = none;
    linkage = none;
    analyzer = none;
    stats = no_stats;
  }

  -- The cache after a lookup that found its entry.
  abbrev pub hit : String → AnalysisCache C A D R S L K → AnalysisCache C A D R S L K
  hit name cache = record cache { stats = record_hit name cache.stats }

  module _ {X : Type 0} (analyses : Analyses X C A D S L K) where
    -- `cfg`
    unfoldable pub cached_cfg :
        Node → AstGraph → AnalysisCache C A D R S L K → C × AnalysisCache C A D R S L K
    unfolding record_hit record_miss
    cached_cfg node graph cache = elim (lookup node.node_id cache.cfgs) [
      | some cached ↦ (cached, hit "cfg" cache)
      | none ↦
          let result = analyses.cfg_of graph node in
          let stats = record_miss "cfg" cache.stats in
          (
            result,
            record cache {
              cfgs = insert node.node_id result cache.cfgs;
              stats = record stats { cfg_builds = bump node.node_id stats.cfg_builds };
            },
          )
    ]

    -- `aliases`
    unfoldable pub cached_aliases :
        Node → AstGraph → AnalysisCache C A D R S L K → A × AnalysisCache C A D R S L K
    unfolding record_hit record_miss
    cached_aliases node graph cache = elim (lookup node.node_id cache.alias_facts) [
      | some cached ↦ (cached, hit "alias" cache)
      | none ↦
          let result = analyses.aliases_of graph node in
          let stats = record_miss "alias" cache.stats in
          (
            result,
            record cache {
              alias_facts = insert node.node_id result cache.alias_facts;
              stats = record stats { alias_builds = bump node.node_id stats.alias_builds };
            },
          )
    ]

    -- `dataflow_engine`, which asks for the aliases where it has no engine.
    unfoldable pub cached_engine :
        Node → AstGraph → AnalysisCache C A D R S L K → D × AnalysisCache C A D R S L K
    unfolding record_hit record_miss cached_aliases
    cached_engine node graph cache = elim (lookup node.node_id cache.engines) [
      | some cached ↦ (cached, hit "dataflow_engine" cache)
      | none ↦
          let asked =
            cached_aliases node graph
              (record cache { stats = record_miss "dataflow_engine" cache.stats }) in
          let result = analyses.engine_on asked.0 in
          let cache' = asked.1 in
          let stats = cache'.stats in
          (
            result,
            record cache' {
              engines = insert node.node_id result cache'.engines;
              stats = record stats { dataflow_builds = bump node.node_id stats.dataflow_builds };
            },
          )
    ]

    -- `dataflow_result`. `compute` is the callable of the caller.
    unfoldable pub cached_result :
        Node
        → String
        → (Unit {0} → R)
        → AnalysisCache C A D R S L K
        → R × AnalysisCache C A D R S L K
    unfolding record_hit record_miss
    cached_result node analysis_name compute cache =
        let key : ResultKey = (node.node_id, analysis_name) in
        elim (lookup key cache.results) [
          | some cached ↦ (cached, hit "dataflow_result" cache)
          | none ↦
              let result = compute tt in
              (
                result,
                record cache {
                  results = insert key result cache.results;
                  stats = record_miss "dataflow_result" cache.stats;
                },
              )
        ]

    -- `symbols`
    unfoldable pub cached_symbols :
        AstGraph → AnalysisCache C A D R S L K → S × AnalysisCache C A D R S L K
    unfolding record_hit record_miss
    cached_symbols graph cache = elim cache.symbol_index [
      | some cached ↦ (cached, hit "symbol_index" cache)
      | none ↦
          let stats = record_miss "symbol_index" cache.stats in
          (
            analyses.symbols_of graph,
            record cache {
              symbol_index = some (analyses.symbols_of graph);
              stats = record stats { symbol_index_builds = stats.symbol_index_builds + 1 };
            },
          )
    ]

    -- `linkage_index`
    unfoldable pub cached_linkage :
        X → AnalysisCache C A D R S L K → L × AnalysisCache C A D R S L K
    unfolding record_hit record_miss
    cached_linkage cross_tu_linkage cache = elim cache.linkage [
      | some cached ↦ (cached, hit "linkage_index" cache)
      | none ↦
          let stats = record_miss "linkage_index" cache.stats in
          (
            analyses.linkage_index_of cross_tu_linkage,
            record cache {
              linkage = some (analyses.linkage_index_of cross_tu_linkage);
              stats = record stats { linkage_index_builds = stats.linkage_index_builds + 1 };
            },
          )
    ]

    -- `linkage_analyzer`
    unfoldable pub cached_analyzer :
        L → AnalysisCache C A D R S L K → K × AnalysisCache C A D R S L K
    unfolding record_hit record_miss
    cached_analyzer linkage_index cache = elim cache.analyzer [
      | some cached ↦ (cached, hit "linkage_analyzer" cache)
      | none ↦
          let stats = record_miss "linkage_analyzer" cache.stats in
          (
            analyses.linkage_analyzer_on linkage_index,
            record cache {
              analyzer = some (analyses.linkage_analyzer_on linkage_index);
              stats = record stats { linkage_analyzer_builds = stats.linkage_analyzer_builds + 1 };
            },
          )
    ]
