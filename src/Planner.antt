-- ===== src/Planner.antt =====
-- rule-engine/src/misra_platform_rules/execution_planner.py, with CATEGORY_EXECUTION_ORDER of taxonomy.py: rules in
-- ordered groups. `visiting` is passed down: a call takes its own id out again before it returns, so
-- the set is the path of the calls that are open.
pub mod Staged
pub mod Tiers
pub mod Fuel
pub mod Groups
mod Examples
use misra_c_agent.Base.{
  ℕ, zero, suc, ◌+◌, String, Bool, true, false, Option, none, some, List, [], ◌∷◌, ◌++◌, ◌==◌,
  string_eq, nat_eq, Dict, lookup, insert, mem, filter_by, length, map, leb, if◌then◌else◌,
}

pub data RuleImplementationCategory : Type 0 where
  a_ast_only b_type_system c_control_flow d_data_flow e_cross_translation_unit f_preprocessor
        g_configuration_build :
      RuleImplementationCategory

-- `CATEGORY_EXECUTION_ORDER`
unfoldable pub category_execution_order : RuleImplementationCategory → ℕ
category_execution_order a_ast_only = 0
category_execution_order f_preprocessor = 0
category_execution_order b_type_system = 1
category_execution_order c_control_flow = 2
category_execution_order d_data_flow = 3
category_execution_order e_cross_translation_unit = 4
category_execution_order g_configuration_build = 4

-- The metadata of a rule. The category is `none` where its string names no category.
pub record Rule : Type 0 where
  pub rule_id : String
  pub implementation_category : Option RuleImplementationCategory
  pub rule_dependencies : List String

unfoldable pub tier_of : Rule → ℕ
unfolding category_execution_order
tier_of rule = elim rule.implementation_category [
  | none ↦ 0
  | some category ↦ category_execution_order category
]

-- `by_id.get(rule_id)`: the last rule with the id wins.
unfoldable pub rule_by_id : String → List Rule → Option Rule
rule_by_id rule_id [] = none
rule_by_id rule_id (rule ∷ rules) = elim (rule_by_id rule_id rules) [
  | some later ↦ some later
  | none ↦ if rule.rule_id == rule_id then some rule else none
]

pub data Planned (A : Type 0) : Type 0 where
  done : A → Planned A
  cyclic : String → Planned A
  out_of_fuel : Planned A

abbrev pub and_then : {A B : Type 0} → Planned A → (A → Planned B) → Planned B
and_then (done a) f = f a
and_then (cyclic rule_id) f = cyclic rule_id
and_then out_of_fuel f = out_of_fuel

abbrev pub Resolver : Type 0
Resolver = String → Dict String ℕ → Planned (ℕ × Dict String ℕ)

-- `max(a, b)`
abbrev pub max_tier : ℕ → ℕ → ℕ
max_tier a b = if leb b a then a else b

-- The loop over `rule_dependencies`.
unfoldable pub resolve_dependencies :
    List Rule → Resolver → List String → ℕ → Dict String ℕ → Planned (ℕ × Dict String ℕ)
unfolding rule_by_id
resolve_dependencies rules resolve [] tier resolved = done (tier, resolved)
resolve_dependencies rules resolve (dependency_id ∷ ids) tier resolved =
    elim (rule_by_id dependency_id rules) [
      | none ↦ resolve_dependencies rules resolve ids tier resolved
      | some dependency ↦
          and_then (resolve dependency_id resolved)
            (λ r. resolve_dependencies rules resolve ids (max_tier tier (r.0 + 1)) r.1)
    ]

-- The body of `resolve` past its two early exits.
unfoldable pub resolve_fresh :
    List Rule → Resolver → String → Dict String ℕ → Planned (ℕ × Dict String ℕ)
unfolding rule_by_id tier_of resolve_dependencies
resolve_fresh rules resolve rule_id resolved =
    and_then {B = ℕ × Dict String ℕ}
      (elim (rule_by_id rule_id rules) as (λ _. Planned (ℕ × Dict String ℕ)) [
        | none ↦ done (0, resolved)
        | some rule ↦
            resolve_dependencies rules resolve rule.rule_dependencies (tier_of rule) resolved
      ])
      (λ r. let result : ℕ × Dict String ℕ = (r.0, insert rule_id r.0 r.1) in done result)

-- `resolve`
unfoldable pub resolve : ℕ → List Rule → List String → Resolver
unfolding resolve_fresh
resolve zero rules visiting rule_id resolved = out_of_fuel
resolve (suc fuel) rules visiting rule_id resolved =
    let fresh = resolve_fresh rules (resolve fuel rules (rule_id ∷ visiting)) rule_id resolved in
    elim (lookup rule_id resolved) [
      | some tier ↦ done (tier, resolved)
      | none ↦ if mem rule_id visiting then cyclic rule_id else fresh
    ]

-- `for rule in rules: resolve(rule.metadata.rule_id, set())`
unfoldable pub resolve_all : ℕ → List Rule → List Rule → Dict String ℕ → Planned (Dict String ℕ)
unfolding resolve
resolve_all fuel rules [] resolved = done resolved
resolve_all fuel rules (rule ∷ rest) resolved =
    and_then (resolve fuel rules [] rule.rule_id resolved) (λ r. resolve_all fuel rules rest r.1)

-- `resolved_tier[rule_id]`, which every rule has by then.
abbrev pub resolved_tier : Dict String ℕ → String → ℕ
resolved_tier resolved rule_id = elim (lookup rule_id resolved) [ none ↦ 0 | some tier ↦ tier ]

-- `sorted(groups.keys())`, by insertion of a key that is not there yet.
unfoldable pub insert_sorted : ℕ → List ℕ → List ℕ
insert_sorted tier [] = tier ∷ []
insert_sorted tier (t ∷ tiers) =
    let rest = insert_sorted tier tiers in
    if tier == t then t ∷ tiers else if leb tier t then tier ∷ t ∷ tiers else t ∷ rest

unfoldable pub sorted_tiers : Dict String ℕ → List Rule → List ℕ
unfolding insert_sorted
sorted_tiers resolved [] = []
sorted_tiers resolved (rule ∷ rules) =
    insert_sorted (resolved_tier resolved rule.rule_id) (sorted_tiers resolved rules)

-- `[groups[tier] for tier in sorted(groups.keys())]`; a group has its rules in the order given.
unfoldable pub groups_at : Dict String ℕ → List Rule → List ℕ → List (List Rule)
groups_at resolved rules [] = []
groups_at resolved rules (tier ∷ tiers) =
    filter_by (λ (rule : Rule). resolved_tier resolved rule.rule_id == tier) rules
    ∷ groups_at resolved rules tiers

-- `resolve_execution_groups`. A chain of open calls has each id once, and all of them but the last are
-- rules, so a depth of two more than there are rules is enough.
unfoldable pub resolve_execution_groups : List Rule → Planned (List (List Rule))
unfolding resolve_all sorted_tiers groups_at
resolve_execution_groups rules =
    and_then (resolve_all (suc (suc (length rules))) rules rules [])
      (λ resolved. done (groups_at resolved rules (sorted_tiers resolved rules)))
