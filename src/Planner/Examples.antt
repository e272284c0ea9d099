-- ===== src/Planner/Examples.antt =====
-- Rules that depend on each other: tests of the planner, and the properties at them.
use misra_c_agent.Base.{ℕ, String, some, List, [], ◌∷◌, ◌≡◌, refl, ◌⊎◌}
use misra_c_agent.Planner.Fuel.{IsRankedBy}
use misra_c_agent.Planner.Groups.{IsPlan, resolve_execution_groups_outcome}
use misra_c_agent.Planner.{
  RuleImplementationCategory, a_ast_only, d_data_flow, Rule, done, cyclic, resolve_execution_groups,
}

abbrev rule : String → RuleImplementationCategory → List String → Rule
rule id category ids = record {
  rule_id = id;
  implementation_category = some category;
  rule_dependencies = ids;
}

abbrev two_deep : List Rule
two_deep =
    rule "R1" a_ast_only ("R2" ∷ "R9" ∷ [])
    ∷ rule "R2" d_data_flow []
    ∷ rule "R3" a_ast_only []
    ∷ []

dependency_first :
    resolve_execution_groups two_deep
    ≡ done (
        (rule "R3" a_ast_only [] ∷ [])
        ∷ (rule "R2" d_data_flow [] ∷ [])
        ∷ (rule "R1" a_ast_only ("R2" ∷ "R9" ∷ []) ∷ [])
        ∷ [])
unfolding resolve_execution_groups
dependency_first = refl

cycle_found :
    resolve_execution_groups
      (rule "R1" a_ast_only ("R2" ∷ []) ∷ rule "R2" a_ast_only ("R1" ∷ []) ∷ [])
    ≡ cyclic "R1"
unfolding resolve_execution_groups
cycle_found = refl

resolve_execution_groups_outcome_example :
    ((groups : List (List Rule)) × (resolve_execution_groups two_deep ≡ done groups)
      × IsPlan two_deep groups)
    ⊎ ((id : String) × (resolve_execution_groups two_deep ≡ cyclic id)
        × ((rank : String → ℕ) → ¬ IsRankedBy two_deep rank))
resolve_execution_groups_outcome_example = resolve_execution_groups_outcome two_deep
