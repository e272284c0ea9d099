-- ===== src/Cache/Coherent.antt =====
-- What the cache answers, and what its entries are.
use misra_c_agent.Base.{
  ℕ, ◌+◌, ◌⊎◌, sym, subst, arith, String, Option, none, some, List, [], ◌∷◌, map, ◌≡◌, refl, ap,
  ◌∙◌, string_eq, Dict, lookup, insert, All, Option-cases, inl, inr,
}
use misra_c_agent.Ast.{Node, AstGraph}
use misra_c_agent.Cache.{
  ResultKey, key_eq, Analyses, AnalysisCache, bump, record_hit, record_miss, empty_cache,
  cached_cfg, cached_aliases, cached_engine, cached_result, cached_symbols, cached_linkage,
  cached_analyzer,
}
use misra_c_agent.Cache.Questions.{
  Question, asks_cfg, asks_aliases, asks_engine, asks_result, asks_symbols, asks_linkage,
  asks_analyzer, cfg_answer, aliases_answer, engine_answer, result_answer, symbols_answer,
  linkage_answer, analyzer_answer, ask, ask_all, answer_afresh,
}
use misra_c_agent.Cache.Entries.{
  once, BuiltOnce, BuiltOnce-insert, IsNode, Holds, Holds-insert, HoldsResults, AreResults,
  AreResults-insert, AreResults-bump, count_of,
}

module _ {X C A D R S L K : Type 0} (analyses : Analyses X C A D S L K) (graph : AstGraph)
    (cross_tu_linkage : X) (result_of : Node → String → R) where
  -- The question is asked with the graph and the linkage of the one context, about a node of the graph or about none,
  -- and a computation is the one that the node and the name stand for.
  unfoldable pub IsAskable : Question X R → Type 0
  IsAskable (asks_cfg node other) = IsNode graph node × (graph ≡ other)
  IsAskable (asks_aliases node other) = IsNode graph node × (graph ≡ other)
  IsAskable (asks_engine node other) = IsNode graph node × (graph ≡ other)
  IsAskable (asks_result node name compute) = IsNode graph node × (compute tt ≡ result_of node name)
  IsAskable (asks_symbols other) = graph ≡ other
  IsAskable (asks_linkage other) = cross_tu_linkage ≡ other
  IsAskable (asks_analyzer other) = cross_tu_linkage ≡ other

  -- A dict by node id has what the analysis gives, each entry built once.
  abbrev pub IsBuilt : {V : Type 0} → (Node → V) → Dict String V → Dict String ℕ → Type 0
  IsBuilt f d builds = Holds graph f d × BuiltOnce d builds

  IsBuilt-insert :
      {V : Type 0} (f : Node → V) (node : Node) (d : Dict String V) (builds : Dict String ℕ)
      → IsNode graph node
      → lookup node.node_id d ≡ none
      → IsBuilt f d builds
      → IsBuilt f (insert node.node_id (f node) d) (bump node.node_id builds)
  IsBuilt-insert f node d builds known free (holds, once) = (
    Holds-insert graph f node d known holds,
    BuiltOnce-insert node.node_id (f node) d builds free once,
  )

  -- A single entry is the value and has been built once, or it is not there and has not been built.
  abbrev pub IsValue : {V : Type 0} → V → Option V → ℕ → Type 0
  IsValue v entry builds = ((entry ≡ none) × (builds ≡ 0)) ⊎ ((entry ≡ some v) × (builds ≡ 1))

  fresh-IsValue :
      {V : Type 0} (v : V) (entry : Option V) (builds : ℕ)
      → entry ≡ none
      → IsValue v entry builds
      → IsValue v (some v) (builds + 1)
  fresh-IsValue v entry builds e (inl (absent, unbuilt)) = inr (refl, omega (arith, unbuilt))
  fresh-IsValue v entry builds e (inr (there, built)) = cc

  found-IsValue :
      {V : Type 0} (v w : V) (entry : Option V) (builds : ℕ)
      → entry ≡ some w
      → IsValue v entry builds
      → w ≡ v
  found-IsValue v w entry builds e (inl (absent, unbuilt)) = cc
  found-IsValue v w entry builds e (inr (there, built)) = cc

  -- Every entry is what its analysis gives, and has been built once.
  abbrev pub IsCoherent : AnalysisCache C A D R S L K → Type 0
  IsCoherent cache =
      IsBuilt (analyses.cfg_of graph) cache.cfgs cache.stats.cfg_builds
      × IsBuilt (analyses.aliases_of graph) cache.alias_facts cache.stats.alias_builds
      × IsBuilt (λ node. analyses.engine_on (analyses.aliases_of graph node)) cache.engines
          cache.stats.dataflow_builds
      × AreResults graph result_of cache.results cache.stats.misses_by_analyzer
      × IsValue (analyses.symbols_of graph) cache.symbol_index cache.stats.symbol_index_builds
      × IsValue (analyses.linkage_index_of cross_tu_linkage) cache.linkage
          cache.stats.linkage_index_builds
      × IsValue (analyses.linkage_analyzer_on (analyses.linkage_index_of cross_tu_linkage))
          cache.analyzer cache.stats.linkage_analyzer_builds

  -- An answer, and the cache that it leaves.
  abbrev pub IsAnswered : {V : Type 0} → V → V × AnalysisCache C A D R S L K → Type 0
  IsAnswered v result = (result.0 ≡ v) × IsCoherent result.1

  cached_cfg-IsAnswered :
      (node : Node) (cache : AnalysisCache C A D R S L K)
      → IsNode graph node
      → IsCoherent cache
      → IsAnswered (analyses.cfg_of graph node) (cached_cfg analyses node graph cache)
  unfolding cached_cfg record_miss record_hit Holds
  cached_cfg-IsAnswered node cache known ok =
      let (c, a, d, r, s, l, k) = ok in
      elim (Option-cases (lookup node.node_id cache.cfgs)) [
        | inr (v, e) ↦ rw (e, cached_cfg) (c.0 node v known e, ok)
        | inl e ↦
            rw (e, cached_cfg)
              (
                refl,
                (
                  IsBuilt-insert (analyses.cfg_of graph) node cache.cfgs cache.stats.cfg_builds
                      known e c,
                  a,
                  d,
                  AreResults-bump graph result_of "cfg" cache.results cache.stats.misses_by_analyzer
                      refl r,
                  s,
                  l,
                  k,
                ),
              )
      ]

  cached_aliases-IsAnswered :
      (node : Node) (cache : AnalysisCache C A D R S L K)
      → IsNode graph node
      → IsCoherent cache
      → IsAnswered (analyses.aliases_of graph node) (cached_aliases analyses node graph cache)
  unfolding cached_aliases record_miss record_hit Holds
  cached_aliases-IsAnswered node cache known ok =
      let (c, a, d, r, s, l, k) = ok in
      elim (Option-cases (lookup node.node_id cache.alias_facts)) [
        | inr (v, e) ↦ rw (e, cached_aliases) (a.0 node v known e, ok)
        | inl e ↦
            rw (e, cached_aliases)
              (
                refl,
                (
                  c,
                  IsBuilt-insert (analyses.aliases_of graph) node cache.alias_facts
                      cache.stats.alias_builds known e a,
                  d,
                  AreResults-bump graph result_of "alias" cache.results
                      cache.stats.misses_by_analyzer refl r,
                  s,
                  l,
                  k,
                ),
              )
      ]

  -- Asking for the aliases leaves the engines alone.
  cached_aliases-engines :
      (node : Node) (cache : AnalysisCache C A D R S L K)
      → (cached_aliases analyses node graph cache).1.engines ≡ cache.engines
  unfolding cached_aliases
  cached_aliases-engines node cache = elim (Option-cases (lookup node.node_id cache.alias_facts)) [
    | inr (v, e) ↦ rw (e, cached_aliases) refl
    | inl e ↦ rw (e, cached_aliases) refl
  ]

  -- The engine that is put over the aliases that were asked for.
  engine-IsAnswered :
      (node : Node) (asked : A × AnalysisCache C A D R S L K)
      → IsNode graph node
      → asked.0 ≡ analyses.aliases_of graph node
      → IsCoherent asked.1
      → lookup node.node_id asked.1.engines ≡ none
      → IsAnswered (analyses.engine_on (analyses.aliases_of graph node)) (
        analyses.engine_on asked.0,
        record (asked.1) {
          engines = insert node.node_id (analyses.engine_on asked.0) asked.1.engines;
          stats = record (asked.1.stats) {
            dataflow_builds = bump node.node_id asked.1.stats.dataflow_builds;
          };
        },
      )
  engine-IsAnswered node asked known same ok free =
      let (c, a, d, r, s, l, k) = ok in
      let f = λ (n : Node). analyses.engine_on (analyses.aliases_of graph n) in
      rw (same) (
        refl,
        (
          c,
          a,
          IsBuilt-insert f node asked.1.engines asked.1.stats.dataflow_builds known free d,
          r,
          s,
          l,
          k,
        ),
      )

  cached_engine-IsAnswered :
      (node : Node) (cache : AnalysisCache C A D R S L K)
      → IsNode graph node
      → IsCoherent cache
      → IsAnswered
          (analyses.engine_on (analyses.aliases_of graph node))
          (cached_engine analyses node graph cache)
  unfolding cached_engine record_miss record_hit Holds
  cached_engine-IsAnswered node cache known ok =
      let (c, a, d, r, s, l, k) = ok in
      elim (Option-cases (lookup node.node_id cache.engines)) [
        | inr (v, e) ↦ rw (e, cached_engine) (d.0 node v known e, ok)
        | inl e ↦
            let missed = record cache { stats = record_miss "dataflow_engine" cache.stats } in
            let r1 =
              AreResults-bump graph result_of "dataflow_engine" cache.results
                cache.stats.misses_by_analyzer refl r in
            let ok1 : IsCoherent missed = (c, a, d, r1, s, l, k) in
            let (same, ok') = cached_aliases-IsAnswered node missed known ok1 in
            rw (e, cached_engine)
              (engine-IsAnswered node (cached_aliases analyses node graph missed) known same ok'
                (ap (lookup node.node_id) (cached_aliases-engines node missed) ∙ e))
      ]

  cached_result-IsAnswered :
      (node : Node) (name : String) (compute : Unit {0} → R) (cache : AnalysisCache C A D R S L K)
      → IsNode graph node
      → compute tt ≡ result_of node name
      → IsCoherent cache
      → IsAnswered (result_of node name) (cached_result analyses node name compute cache)
  unfolding cached_result record_miss record_hit HoldsResults
  cached_result-IsAnswered node name compute cache known computed ok =
      let (c, a, d, r, s, l, k) = ok in
      let key : ResultKey = (node.node_id, name) in
      elim (Option-cases (lookup key cache.results)) [
        | inr (v, e) ↦ rw (e, cached_result) (r.0 node name v known e, ok)
        | inl e ↦
            rw (e, cached_result, computed)
              (
                refl,
                (
                  c,
                  a,
                  d,
                  AreResults-insert graph result_of node name cache.results
                      cache.stats.misses_by_analyzer known e r,
                  s,
                  l,
                  k,
                ),
              )
      ]

  cached_symbols-IsAnswered :
      (cache : AnalysisCache C A D R S L K)
      → IsCoherent cache
      → IsAnswered (analyses.symbols_of graph) (cached_symbols analyses graph cache)
  unfolding cached_symbols record_miss record_hit
  cached_symbols-IsAnswered cache ok =
      let (c, a, d, r, s, l, k) = ok in
      elim (Option-cases cache.symbol_index) [
        | inr (v, e) ↦ rw (e, cached_symbols) (found-IsValue _ v _ _ e s, ok)
        | inl e ↦
            rw (e, cached_symbols)
              (
                refl,
                (
                  c,
                  a,
                  d,
                  AreResults-bump graph result_of "symbol_index" cache.results
                      cache.stats.misses_by_analyzer refl r,
                  fresh-IsValue _ _ _ e s,
                  l,
                  k,
                ),
              )
      ]

  cached_linkage-IsAnswered :
      (cache : AnalysisCache C A D R S L K)
      → IsCoherent cache
      → IsAnswered
          (analyses.linkage_index_of cross_tu_linkage)
          (cached_linkage analyses cross_tu_linkage cache)
  unfolding cached_linkage record_miss record_hit
  cached_linkage-IsAnswered cache ok =
      let (c, a, d, r, s, l, k) = ok in
      elim (Option-cases cache.linkage) [
        | inr (v, e) ↦ rw (e, cached_linkage) (found-IsValue _ v _ _ e l, ok)
        | inl e ↦
            rw (e, cached_linkage)
              (
                refl,
                (
                  c,
                  a,
                  d,
                  AreResults-bump graph result_of "linkage_index" cache.results
                      cache.stats.misses_by_analyzer refl r,
                  s,
                  fresh-IsValue _ _ _ e l,
                  k,
                ),
              )
      ]

  cached_analyzer-IsAnswered :
      (cache : AnalysisCache C A D R S L K)
      → IsCoherent cache
      → IsAnswered
          (analyses.linkage_analyzer_on (analyses.linkage_index_of cross_tu_linkage))
          (cached_analyzer analyses (analyses.linkage_index_of cross_tu_linkage) cache)
  unfolding cached_analyzer record_miss record_hit
  cached_analyzer-IsAnswered cache ok =
      let (c, a, d, r, s, l, k) = ok in
      elim (Option-cases cache.analyzer) [
        | inr (v, e) ↦ rw (e, cached_analyzer) (found-IsValue _ v _ _ e k, ok)
        | inl e ↦
            rw (e, cached_analyzer)
              (
                refl,
                (
                  c,
                  a,
                  d,
                  AreResults-bump graph result_of "linkage_analyzer" cache.results
                      cache.stats.misses_by_analyzer refl r,
                  s,
                  l,
                  fresh-IsValue _ _ _ e k,
                ),
              )
      ]

  ask-IsAnswered :
      (question : Question X R) (cache : AnalysisCache C A D R S L K)
      → IsAskable question
      → IsCoherent cache
      → IsAnswered (answer_afresh analyses question) (ask analyses question cache)
  unfolding ask answer_afresh IsAskable
  ask-IsAnswered (asks_cfg node other) cache (known, same) ok =
      let (e, ok') = cached_cfg-IsAnswered node cache known ok in
      subst
        (λ g.
          IsAnswered (cfg_answer (analyses.cfg_of g node)) (ask analyses (asks_cfg node g) cache))
        same (ap cfg_answer e, ok')
  ask-IsAnswered (asks_aliases node other) cache (known, same) ok =
      let (e, ok') = cached_aliases-IsAnswered node cache known ok in
      subst
        (λ g.
          IsAnswered (aliases_answer (analyses.aliases_of g node))
            (ask analyses (asks_aliases node g) cache))
        same (ap aliases_answer e, ok')
  ask-IsAnswered (asks_engine node other) cache (known, same) ok =
      let (e, ok') = cached_engine-IsAnswered node cache known ok in
      subst
        (λ g.
          IsAnswered (engine_answer (analyses.engine_on (analyses.aliases_of g node)))
            (ask analyses (asks_engine node g) cache))
        same (ap engine_answer e, ok')
  ask-IsAnswered (asks_result node name compute) cache (known, computed) ok =
      let (e, ok') = cached_result-IsAnswered node name compute cache known computed ok in
      (ap result_answer (e ∙ sym computed), ok')
  ask-IsAnswered (asks_symbols other) cache same ok =
      let (e, ok') = cached_symbols-IsAnswered cache ok in
      subst
        (λ g.
          IsAnswered (symbols_answer (analyses.symbols_of g)) (ask analyses (asks_symbols g) cache))
        same (ap symbols_answer e, ok')
  ask-IsAnswered (asks_linkage other) cache same ok =
      let (e, ok') = cached_linkage-IsAnswered cache ok in
      subst
        (λ x.
          IsAnswered (linkage_answer (analyses.linkage_index_of x))
            (ask analyses (asks_linkage x) cache))
        same (ap linkage_answer e, ok')
  ask-IsAnswered (asks_analyzer other) cache same ok =
      let (e, ok') = cached_linkage-IsAnswered cache ok in
      let (f, ok'') =
        cached_analyzer-IsAnswered (cached_linkage analyses cross_tu_linkage cache).1 ok' in
      subst
        (λ x.
          IsAnswered (analyzer_answer (analyses.linkage_analyzer_on (analyses.linkage_index_of x)))
            (ask analyses (asks_analyzer x) cache))
        same (rw (e) (ap analyzer_answer f, ok''))

  ask_all_lem :
      (questions : List (Question X R)) (cache : AnalysisCache C A D R S L K)
      → All IsAskable questions
      → IsCoherent cache
      → ((ask_all analyses questions cache).0 ≡ map (answer_afresh analyses) questions)
        × IsCoherent (ask_all analyses questions cache).1
  unfolding ask_all
  ask_all_lem [] cache askable ok = (refl, ok)
  ask_all_lem (question ∷ questions) cache askable ok =
      let (e, ok') = ask-IsAnswered question cache askable.0 ok in
      let (es, ok'') = ask_all_lem questions (ask analyses question cache).1 askable.1 ok' in
      (rw (e, es) refl, ok'')

  -- Whatever is asked of a new cache, in whatever order, with the graph and the linkage of one context and with the
  -- computation that belongs to a node and a name, each answer is what the analysis gives without a cache. Every
  -- entry that is left is such an answer; those by node id and the single ones have been built once,
  -- and as many results have been computed as there are.
  pub ask_all-IsCoherent :
      (questions : List (Question X R))
      → All IsAskable questions
      → ((ask_all analyses questions empty_cache).0 ≡ map (answer_afresh analyses) questions)
        × IsCoherent (ask_all analyses questions empty_cache).1
  unfolding Holds HoldsResults BuiltOnce count_of
  ask_all-IsCoherent questions askable = ask_all_lem questions empty_cache askable (
    ((λ n v h e. cc), λ id. refl),
    ((λ n v h e. cc), λ id. refl),
    ((λ n v h e. cc), λ id. refl),
    ((λ n name v h e. cc), refl),
    inl (refl, refl),
    inl (refl, refl),
    inl (refl, refl),
  )
