-- ===== src/Enablement/Examples.antt =====
-- Suites with and without their required kinds: tests, and the properties at them. The rates are
-- percentages.
use misra_c_agent.Base.{
  ℕ, ◌+◌, String, [], ◌∷◌, ◌≡◌, refl, ◌&&◌, ◌||◌, not, mem, string_eq, Dict, ltb,
}
use misra_c_agent.Enablement.{
  RuleConformanceSuite, missing_kinds, ConformanceMetrics, ConfidenceThresholds, low_confidence,
  evaluate_rule, evaluate_all, enablement_summary, legacy_partial,
}
use misra_c_agent.Enablement.Decisions.{covers_all, evaluate_rule_flags, enablement_summary_counts}

abbrev partial : RuleConformanceSuite
partial = record { rule_id = "R1"; case_kinds = "positive" ∷ "negative" ∷ "macro" ∷ [] }

abbrev untested : RuleConformanceSuite
untested = record { rule_id = "R2"; case_kinds = "macro" ∷ [] }

abbrev metrics : ConformanceMetrics ℕ
metrics = record { precision = 90; recall = 80; false_positive_rate = 5; total_cases = 3 }

abbrev thresholds : ConfidenceThresholds ℕ
thresholds = record { min_precision = 85; min_recall = 75; max_false_positive_rate = 15 }

kept_experimental :
    (evaluate_rule ltb 0 100 partial metrics thresholds).reason
    ≡ legacy_partial ("edge" ∷ "embedded" ∷ [])
unfolding evaluate_rule
kept_experimental = refl

evaluate_rule_flags_example :
    (let d = evaluate_rule ltb 0 100 partial metrics thresholds in
      (d.enabled_by_default
        ≡ (mem "positive" partial.case_kinds && mem "negative" partial.case_kinds))
      × (d.conformance_complete ≡ covers_all partial)
      × (d.experimental ≡ (
          d.enabled_by_default
          && (not (covers_all partial) || low_confidence ltb 0 100 metrics thresholds)))
      × (d.legacy_partial_conformance ≡ (d.enabled_by_default && not (covers_all partial)))
      × (d.missing_case_kinds ≡ missing_kinds partial))
evaluate_rule_flags_example = evaluate_rule_flags ltb 0 100 partial metrics thresholds

abbrev suites : Dict String RuleConformanceSuite
suites = ("R1", partial) ∷ ("R2", untested) ∷ ("R3", partial) ∷ []

abbrev measured : Dict String (ConformanceMetrics ℕ)
measured = ("R1", metrics) ∷ ("R2", metrics) ∷ []

enablement_summary_counts_example :
    (let s = enablement_summary (λ ids. ids) (evaluate_all ltb 0 100 suites measured thresholds) in
      (s.total_rules ≡ 3)
      × (s.enabled_count + s.experimental_count + s.disabled_count ≡ s.total_rules))
enablement_summary_counts_example =
    enablement_summary_counts ltb 0 100 (λ ids. ids) suites measured thresholds
