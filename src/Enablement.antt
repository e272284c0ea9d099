-- ===== src/Enablement.antt =====
-- rule-engine/src/misra_platform_rules/rule_enablement.py: which rules are enabled. A rate is a value of `Rate`, compared by
-- `below`, which stand for Python's floats and their `<`; `zero` and `one` are 0.0 and 1.0, and
-- `in_order` is `sorted` on strings. A decision's reason is kept as its kind, with what its text names.
pub mod Decisions
mod Examples
use misra_c_agent.Base.{
  ℕ, String, Bool, true, false, Option, none, some, List, [], ◌∷◌, ◌&&◌, ◌||◌, not, map, mem,
  string_eq, Dict, lookup, filter_by, length, if◌then◌else◌,
}

-- `sorted(REQUIRED_CASE_KINDS)`
abbrev pub required_case_kinds : List String
required_case_kinds = "edge" ∷ "embedded" ∷ "macro" ∷ "negative" ∷ "positive" ∷ []

-- A suite, as its id and the kinds of its cases.
pub record RuleConformanceSuite : Type 0 where
  pub rule_id : String
  pub case_kinds : List String

pub data Reason : Type 0 where
  no_tests : (missing : List String) → Reason
  legacy_partial : (missing : List String) → Reason
  below_thresholds : Reason
  within_thresholds : Reason
  no_metrics : Reason

-- `sorted(REQUIRED_CASE_KINDS - present)`: a selection from the sorted kinds is sorted.
unfoldable pub missing_kinds : RuleConformanceSuite → List String
missing_kinds suite = filter_by (λ kind. not (mem kind suite.case_kinds)) required_case_kinds

-- `not xs`
abbrev pub is_empty {ℓ} : {A : Type ℓ} → List A → Bool
is_empty [] = true
is_empty (x ∷ xs) = false

unfoldable pub conformance_completeness : RuleConformanceSuite → Bool × List String
unfolding missing_kinds
conformance_completeness suite = (is_empty (missing_kinds suite), missing_kinds suite)

-- `MINIMUM_CASE_KINDS <= present`
unfoldable pub has_minimum_coverage : RuleConformanceSuite → Bool
has_minimum_coverage suite = mem "positive" suite.case_kinds && mem "negative" suite.case_kinds

module _ (Rate : Type 0) where
  pub record ConformanceMetrics : Type 0 where
    pub precision : Rate
    pub recall : Rate
    pub false_positive_rate : Rate
    pub total_cases : ℕ

  pub record ConfidenceThresholds : Type 0 where
    pub min_precision : Rate
    pub min_recall : Rate
    pub max_false_positive_rate : Rate

  pub record RuleEnablementDecision : Type 0 where
    pub rule_id : String
    pub conformance_complete : Bool
    pub missing_case_kinds : List String
    pub precision : Rate
    pub recall : Rate
    pub false_positive_rate : Rate
    pub total_cases : ℕ
    pub enabled_by_default : Bool
    pub experimental : Bool
    pub legacy_partial_conformance : Bool
    pub reason : Reason

module _ {Rate : Type 0} (below : Rate → Rate → Bool) (zero one : Rate) where
  unfoldable pub low_confidence : ConformanceMetrics Rate → ConfidenceThresholds Rate → Bool
  low_confidence metrics thresholds =
      below metrics.precision thresholds.min_precision
      || below metrics.recall thresholds.min_recall
      || below thresholds.max_false_positive_rate metrics.false_positive_rate

  -- The decision with these flags, and the rates of the metrics.
  unfoldable pub decide_as :
      RuleConformanceSuite
      → ConformanceMetrics Rate
      → Bool
      → List String
      → Bool
      → Bool
      → Bool
      → Reason
      → RuleEnablementDecision Rate
  decide_as suite metrics complete missing enabled experimental legacy reason = record {
    rule_id = suite.rule_id;
    conformance_complete = complete;
    missing_case_kinds = missing;
    precision = metrics.precision;
    recall = metrics.recall;
    false_positive_rate = metrics.false_positive_rate;
    total_cases = metrics.total_cases;
    enabled_by_default = enabled;
    experimental = experimental;
    legacy_partial_conformance = legacy;
    reason = reason;
  }

  unfoldable pub evaluate_rule :
      RuleConformanceSuite
      → ConformanceMetrics Rate
      → ConfidenceThresholds Rate
      → RuleEnablementDecision Rate
  unfolding conformance_completeness has_minimum_coverage low_confidence decide_as
  evaluate_rule suite metrics thresholds =
      let (complete, missing) = conformance_completeness suite in
      if not complete && not (has_minimum_coverage suite)
      then decide_as suite metrics false missing false false false (no_tests missing)
      else if not complete
      then decide_as suite metrics false missing true true true (legacy_partial missing)
      else if low_confidence metrics thresholds
      then decide_as suite metrics true [] true true false below_thresholds
      else decide_as suite metrics true [] true false false within_thresholds

  unfoldable pub without_metrics : String → RuleEnablementDecision Rate
  without_metrics rule_id = record {
    rule_id = rule_id;
    conformance_complete = false;
    missing_case_kinds = required_case_kinds;
    precision = zero;
    recall = zero;
    false_positive_rate = one;
    total_cases = 0;
    enabled_by_default = false;
    experimental = false;
    legacy_partial_conformance = false;
    reason = no_metrics;
  }

  unfoldable pub evaluate_all :
      Dict String RuleConformanceSuite
      → Dict String (ConformanceMetrics Rate)
      → ConfidenceThresholds Rate
      → List (RuleEnablementDecision Rate)
  unfolding evaluate_rule without_metrics
  evaluate_all [] metrics_by_id thresholds = []
  evaluate_all ((rule_id, suite) ∷ suites) metrics_by_id thresholds =
      elim (lookup rule_id metrics_by_id) as (λ _. RuleEnablementDecision Rate) [
        | none ↦ without_metrics rule_id
        | some metrics ↦ evaluate_rule suite metrics thresholds
      ]
      ∷ evaluate_all suites metrics_by_id thresholds

pub record EnablementSummary : Type 0 where
  pub total_rules : ℕ
  pub enabled_count : ℕ
  pub experimental_count : ℕ
  pub disabled_count : ℕ
  pub legacy_partial_conformance_count : ℕ
  pub enabled_rule_ids : List String
  pub experimental_rule_ids : List String
  pub disabled_rule_ids : List String
  pub legacy_partial_conformance_rule_ids : List String

module _ {Rate : Type 0} where
  abbrev pub is_enabled : RuleEnablementDecision Rate → Bool
  is_enabled d = d.enabled_by_default && not d.experimental

  abbrev pub is_experimental : RuleEnablementDecision Rate → Bool
  is_experimental d = d.experimental

  abbrev pub is_disabled : RuleEnablementDecision Rate → Bool
  is_disabled d = not d.enabled_by_default

  abbrev pub is_legacy : RuleEnablementDecision Rate → Bool
  is_legacy d = d.legacy_partial_conformance

  abbrev ids_of : List (RuleEnablementDecision Rate) → List String
  ids_of decisions = map (λ (d : RuleEnablementDecision Rate). d.rule_id) decisions

  unfoldable pub enablement_summary :
      (List String → List String) → List (RuleEnablementDecision Rate) → EnablementSummary
  enablement_summary in_order decisions =
      let enabled = filter_by is_enabled decisions in
      let experimental = filter_by is_experimental decisions in
      let disabled = filter_by is_disabled decisions in
      let legacy_partial = filter_by is_legacy decisions in
      record {
        total_rules = length decisions;
        enabled_count = length enabled;
        experimental_count = length experimental;
        disabled_count = length disabled;
        legacy_partial_conformance_count = length legacy_partial;
        enabled_rule_ids = in_order (ids_of enabled);
        experimental_rule_ids = in_order (ids_of experimental);
        disabled_rule_ids = in_order (ids_of disabled);
        legacy_partial_conformance_rule_ids = in_order (ids_of legacy_partial);
      }
