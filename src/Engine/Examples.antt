-- ===== src/Engine/Examples.antt =====
-- A rule that raises once, and findings that repeat: tests, and the properties at them.
use misra_c_agent.Base.{
  ℕ, zero, suc, ◌+◌, ◌<◌, ◌≤◌, String, true, false, Option, none, some, List, [], ◌∷◌, ◌≡◌, refl,
  ◌⊎◌, map, mem, string_eq, length, Distinct, ◌==◌, if◌then◌else◌, reverse,
}
use mathlib.Core.List.Permᴰ
use misra_c_agent.Engine.{execute_rule_safe, deduplicate}
use misra_c_agent.Engine.Retry.{Succeeds, Fails, execute_rule_safe_outcome}
use misra_c_agent.Engine.Deduplicate.{deduplicate_one_each}
use misra_c_agent.Engine.Execution.{ExecutionReport, report_of, execute, found}
use misra_c_agent.Engine.Orders.{IsReport, IsSameReport, execute_outcome}
use misra_c_agent.Planner.{RuleImplementationCategory, a_ast_only, d_data_flow, Rule, done, cyclic}
use misra_c_agent.Planner.Fuel.{IsRankedBy}

-- Raises at the first attempt, and finds one violation at the next.
abbrev flaky : ℕ → Option (List String)
flaky zero = none
flaky (suc n) = some ("finding" ∷ [])

abbrev same : String → String
same v = v

-- The scoring of a finding, which raises at a blank one.
abbrev scored : String → Option String
scored v = if v == "" then none else some v

second_attempt : (execute_rule_safe scored 1 "R1" flaky).1 ≡ ("finding" ∷ [])
unfolding execute_rule_safe
second_attempt = refl

-- A finding whose scoring raises fails its attempt.
unscored :
    execute_rule_safe scored 0 "R1" (λ n. some ("finding" ∷ "" ∷ []))
    ≡ (record { rule_id = "R1"; violation_count = 0; success = false }, [])
unfolding execute_rule_safe
unscored = refl

no_attempt_left : (execute_rule_safe scored 0 "R1" flaky).0.success ≡ false
unfolding execute_rule_safe
no_attempt_left = refl

execute_rule_safe_outcome_example :
    (let r = execute_rule_safe scored 1 "R1" flaky in
      ((k : ℕ) × (vs : List String) × (k ≤ 1)
        × Succeeds scored flaky k vs
        × ((j : ℕ) → j < k → Fails scored flaky j)
        × (r.0.success ≡ true)
        × (r.0.violation_count ≡ length vs)
        × (r.1 ≡ vs))
      ⊎ (((j : ℕ) → j ≤ 1 → Fails scored flaky j)
          × (r.0.success ≡ false)
          × (r.0.violation_count ≡ 0)
          × (r.1 ≡ [])))
execute_rule_safe_outcome_example = execute_rule_safe_outcome scored 1 "R1" flaky

abbrev findings : List String
findings = "a" ∷ "b" ∷ "a" ∷ []

one_removed : deduplicate same findings ≡ ("a" ∷ "b" ∷ [], 1)
unfolding deduplicate
one_removed = refl

deduplicate_one_each_example :
    (let r = deduplicate same findings in
      Distinct (map same r.0)
      × ((f : String) → mem f (map same r.0) ≡ mem f (map same findings))
      × (length r.0 + r.1 ≡ length findings))
deduplicate_one_each_example = deduplicate_one_each same findings

-- Two rules with one finding in common: one after the other, and in groups that are handed back the other way round.
abbrev rule : String → RuleImplementationCategory → Rule
rule id category = record {
  rule_id = id;
  implementation_category = some category;
  rule_dependencies = [];
}

abbrev detect : Rule → ℕ → Option (List String)
detect r n = if r.rule_id == "R1" then some ("a" ∷ "b" ∷ []) else some ("b" ∷ "c" ∷ [])

abbrev rules : List Rule
rules = rule "R2" d_data_flow ∷ rule "R1" a_ast_only ∷ rule "R3" a_ast_only ∷ []

abbrev last_first : List Rule → List Rule
last_first wave = reverse wave

grouped_run :
    execute detect scored same 1 last_first rules true
    ≡ done (record {
      violations = "b" ∷ "c" ∷ "a" ∷ [];
      fingerprints = "b" ∷ "c" ∷ "a" ∷ [];
      metrics =
          record { rule_id = "R3"; violation_count = 2; success = true }
          ∷ record { rule_id = "R1"; violation_count = 2; success = true }
          ∷ record { rule_id = "R2"; violation_count = 2; success = true }
          ∷ [];
      deduplicated_count = 3;
    })
unfolding execute
grouped_run = refl

execute_outcome_example :
    ((report : ExecutionReport String) × (execute detect scored same 1 last_first rules true
        ≡ done report)
      × IsReport same (found detect scored same 1 rules) report
      × IsSameReport report (report_of detect scored same 1 (λ wave. wave) (rules ∷ [])))
    ⊎ ((id : String) × (true ≡ true)
        × (execute detect scored same 1 last_first rules true ≡ cyclic id)
        × ((rank : String → ℕ) → ¬ IsRankedBy rules rank))
execute_outcome_example =
    execute_outcome detect scored same 1 last_first (λ wave. Permᴰ.reverse wave) rules true
