-- ===== src/Enablement/Decisions.antt =====
-- What `evaluate_rule` decides, and that every rule is counted once.
use misra_c_agent.Base.{
  ◌+◌, ◌≡◌, refl, arith, String, Bool, false, List, [], ◌∷◌, ◌&&◌, ◌||◌, not, mem, string_eq, Dict,
  lookup, filter_by, length, Option-cases, inl, inr, All,
}
use misra_c_agent.Enablement.{
  RuleConformanceSuite, missing_kinds, is_empty, has_minimum_coverage, conformance_completeness,
  ConformanceMetrics, ConfidenceThresholds, RuleEnablementDecision, low_confidence, evaluate_rule,
  evaluate_all, without_metrics, enablement_summary, is_enabled, is_experimental, is_disabled,
  decide_as,
}

-- Every required kind is there.
unfoldable pub covers_all : RuleConformanceSuite → Bool
covers_all suite =
    mem "edge" suite.case_kinds
    && mem "embedded" suite.case_kinds
    && mem "macro" suite.case_kinds
    && mem "negative" suite.case_kinds
    && mem "positive" suite.case_kinds

missing_kinds_lem :
    (suite : RuleConformanceSuite) → is_empty (missing_kinds suite) ≡ covers_all suite
unfolding missing_kinds covers_all
missing_kinds_lem suite = ground arith

module _ {Rate : Type 0} (below : Rate → Rate → Bool) (zero one : Rate) where
  -- A rule is enabled exactly when its suite has positive and negative cases; it is experimental when it is
  -- enabled and some required kind is missing or a rate is beyond its threshold; it counts as legacy when it is
  -- enabled and a kind is missing; it is complete when none is missing.
  pub evaluate_rule_flags :
      (suite : RuleConformanceSuite) (metrics : ConformanceMetrics Rate)
      (thresholds : ConfidenceThresholds Rate)
      → (let d = evaluate_rule below zero one suite metrics thresholds in
          (d.enabled_by_default
            ≡ (mem "positive" suite.case_kinds && mem "negative" suite.case_kinds))
          × (d.conformance_complete ≡ covers_all suite)
          × (d.experimental ≡ (
              d.enabled_by_default
              && (not (covers_all suite) || low_confidence below zero one metrics thresholds)))
          × (d.legacy_partial_conformance ≡ (d.enabled_by_default && not (covers_all suite)))
          × (d.missing_case_kinds ≡ missing_kinds suite))
  unfolding evaluate_rule missing_kinds conformance_completeness has_minimum_coverage decide_as
      covers_all
  evaluate_rule_flags suite metrics thresholds =
      (ground arith, ground arith, ground arith, ground arith, ground arith)

  -- A decision that is experimental is enabled.
  abbrev IsConsistent : RuleEnablementDecision Rate → Type 0
  IsConsistent d = (d.experimental && not d.enabled_by_default) ≡ false

  evaluate_all-IsConsistent :
      (suites : Dict String RuleConformanceSuite)
      (metrics_by_id : Dict String (ConformanceMetrics Rate))
      (thresholds : ConfidenceThresholds Rate)
      → All IsConsistent (evaluate_all below zero one suites metrics_by_id thresholds)
  unfolding evaluate_all without_metrics
  evaluate_all-IsConsistent [] metrics_by_id thresholds = tt
  evaluate_all-IsConsistent ((id, suite) ∷ suites) metrics_by_id thresholds =
      let rest = evaluate_all-IsConsistent suites metrics_by_id thresholds in
      elim (Option-cases (lookup id metrics_by_id)) [
        | inl n ↦ rw (n, evaluate_all) (refl, rest)
        | inr (metrics, s) ↦
            let flags = evaluate_rule_flags suite metrics thresholds in
            rw (s, evaluate_all) (ground (arith, flags.2), rest)
      ]

  counted_once :
      (decisions : List (RuleEnablementDecision Rate))
      → All IsConsistent decisions
      → length (filter_by is_enabled decisions)
          + length (filter_by is_experimental decisions)
          + length (filter_by is_disabled decisions)
        ≡ length decisions
  counted_once [] h = omega arith
  counted_once (d ∷ decisions) h = ground (arith, h.0, counted_once decisions h.1)

  length-evaluate_all :
      (suites : Dict String RuleConformanceSuite)
      (metrics_by_id : Dict String (ConformanceMetrics Rate))
      (thresholds : ConfidenceThresholds Rate)
      → length (evaluate_all below zero one suites metrics_by_id thresholds) ≡ length suites
  unfolding evaluate_all
  length-evaluate_all [] metrics_by_id thresholds = refl
  length-evaluate_all (s ∷ suites) metrics_by_id thresholds =
      omega (arith, length-evaluate_all suites metrics_by_id thresholds)

  -- There is one decision for each suite, and the counts of enabled, experimental and disabled rules in
  -- the summary add up to them.
  pub enablement_summary_counts :
      (in_order : List String → List String) (suites : Dict String RuleConformanceSuite)
      (metrics_by_id : Dict String (ConformanceMetrics Rate))
      (thresholds : ConfidenceThresholds Rate)
      → (let s =
            enablement_summary in_order
              (evaluate_all below zero one suites metrics_by_id thresholds) in
          (s.total_rules ≡ length suites)
          × (s.enabled_count + s.experimental_count + s.disabled_count ≡ s.total_rules))
  unfolding enablement_summary
  enablement_summary_counts in_order suites metrics_by_id thresholds = (
    length-evaluate_all suites metrics_by_id thresholds,
    counted_once (evaluate_all below zero one suites metrics_by_id thresholds)
        (evaluate_all-IsConsistent suites metrics_by_id thresholds),
  )
