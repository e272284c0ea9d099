-- ===== src/Planner/Groups.antt =====
-- `resolve_execution_groups`: what its groups are, and when it reports a cycle.
use misra_c_agent.Base.{
  ℕ, suc, ◌≤◌, ◌<◌, ◌≡◌, refl, ap, subst, arith, String, true, some, List, [], ◌∷◌, ◌==◌, string_eq,
  nat_eq, Dict, lookup, mem, map, length, filter_by, Bool-cases, Option-cases, inl, inr, ◌⊎◌, ◌||◌,
  All, All-mono, beq_refl, leb,
}
use misra_c_agent.Planner.{
  Rule, tier_of, rule_by_id, Planned, done, cyclic, out_of_fuel, and_then, resolve_all,
  resolved_tier, insert_sorted, sorted_tiers, groups_at, resolve_execution_groups,
}
use misra_c_agent.Planner.Staged.{Below, IsStaged, Resolved, OnDone}
use misra_c_agent.Planner.Tiers.{resolve_all-Resolved}
use misra_c_agent.Planner.Fuel.{IsRankedBy, Ends, unvisited-all, resolve_all-Ends}

-- Each element is below all later ones.
unfoldable pub IsIncreasing : List ℕ → Type 0
IsIncreasing [] = Unit
IsIncreasing (t ∷ ts) = All (λ u. t < u) ts × IsIncreasing ts

mem-insert_sorted : (t u : ℕ) (ts : List ℕ) → mem u (insert_sorted t ts) ≡ ((u == t) || mem u ts)
unfolding insert_sorted
mem-insert_sorted t u [] = refl
mem-insert_sorted t u (v ∷ ts) = ground (arith, mem-insert_sorted t u ts, nat_eq.beq_iff t v)

All-insert_sorted :
    (P : ℕ → Type 0) (t : ℕ) (ts : List ℕ) → P t → All P ts → All P (insert_sorted t ts)
unfolding insert_sorted
All-insert_sorted P t [] p h = (p, tt)
All-insert_sorted P t (v ∷ ts) p h = elim (Bool-cases (t == v)) [
  | inl e ↦ rw (e, insert_sorted) h
  | inr n ↦ elim (Bool-cases (leb t v)) [
    | inl le ↦ rw (n, le, insert_sorted) (p, h)
    | inr gt ↦ rw (n, gt, insert_sorted) (h.0, All-insert_sorted P t ts p h.1)
  ]
]

insert_sorted-IsIncreasing :
    (t : ℕ) (ts : List ℕ) → IsIncreasing ts → IsIncreasing (insert_sorted t ts)
unfolding insert_sorted IsIncreasing
insert_sorted-IsIncreasing t [] h = (tt, tt)
insert_sorted-IsIncreasing t (v ∷ ts) h = elim (Bool-cases (t == v)) [
  | inl e ↦ rw (e, insert_sorted) h
  | inr n ↦ elim (Bool-cases (leb t v)) [
    | inl le ↦
        let lt : t < v = ground (arith, n, le) in
        rw (n, le, insert_sorted) ((lt, All-mono ts (λ u k. omega (arith, lt, k)) h.0), h)
    | inr gt ↦
        rw (n, gt, insert_sorted)
          (
            All-insert_sorted (λ u. v < u) t ts (ground (arith, gt)) h.0,
            insert_sorted-IsIncreasing t ts h.1,
          )
  ]
]

sorted_tiers-IsIncreasing :
    (resolved : Dict String ℕ) (rules : List Rule) → IsIncreasing (sorted_tiers resolved rules)
unfolding sorted_tiers IsIncreasing
sorted_tiers-IsIncreasing resolved [] = tt
sorted_tiers-IsIncreasing resolved (rule ∷ rules) =
    insert_sorted-IsIncreasing _ _ (sorted_tiers-IsIncreasing resolved rules)

mem-sorted_tiers :
    (resolved : Dict String ℕ) (rules : List Rule)
    → All
        (λ (rule : Rule).
          mem (resolved_tier resolved rule.rule_id) (sorted_tiers resolved rules) ≡ true)
        rules
unfolding sorted_tiers
mem-sorted_tiers resolved [] = tt
mem-sorted_tiers resolved (rule ∷ rules) =
    let t = resolved_tier resolved rule.rule_id in
    (
      ground (arith, mem-insert_sorted t t (sorted_tiers resolved rules), beq_refl t),
      All-mono rules
          (λ r m. ground (
            arith,
            m,
            mem-insert_sorted t (resolved_tier resolved r.rule_id) (sorted_tiers resolved rules),
          ))
          (mem-sorted_tiers resolved rules),
    )

groups_at_lem :
    (resolved : Dict String ℕ) (rules : List Rule) (tiers : List ℕ)
    → groups_at resolved rules tiers
      ≡ map
          (λ tier. filter_by (λ (rule : Rule). resolved_tier resolved rule.rule_id == tier) rules)
          tiers
unfolding groups_at
groups_at_lem resolved rules [] = refl
groups_at_lem resolved rules (tier ∷ tiers) =
    ap (λ l. filter_by (λ (rule : Rule). resolved_tier resolved rule.rule_id == tier) rules ∷ l)
      (groups_at_lem resolved rules tiers)

-- What a plan is: the groups are those of the rules' tiers in increasing order, no rule is left out,
-- and a rule comes after its category and after the known rules it depends on.
pub record IsPlan (rules : List Rule) (groups : List (List Rule)) : Type 0 where
  pub tier : String → ℕ
  pub tiers : List ℕ
  pub increasing : IsIncreasing tiers
  pub fibres : groups ≡ map (λ t. filter_by (λ (rule : Rule). tier rule.rule_id == t) rules) tiers
  pub complete : All (λ (rule : Rule). mem (tier rule.rule_id) tiers ≡ true) rules
  pub ordered :
      (id d : String) (rule dependency : Rule)
      → rule_by_id id rules ≡ some rule
      → mem d rule.rule_dependencies ≡ true
      → rule_by_id d rules ≡ some dependency
      → tier d < tier id
  pub categories :
      (id : String) (rule : Rule) → rule_by_id id rules ≡ some rule → tier_of rule ≤ tier id

by_id-known :
    (rules : List Rule)
    → All (λ (rule : Rule). (known : Rule) × (rule_by_id rule.rule_id rules ≡ some known)) rules
unfolding rule_by_id
by_id-known [] = tt
by_id-known (rule ∷ rules) = (
  elim (Option-cases (rule_by_id rule.rule_id rules)) [
    | inr (later, e) ↦ (later, rw (e, rule_by_id) refl)
    | inl e ↦ (rule, rw (e, rule_by_id, beq_refl rule.rule_id) refl)
  ],
  All-mono rules (λ r (known, e). (known, rw (e, rule_by_id) refl)) (by_id-known rules),
)

tier-by_id :
    (resolved : Dict String ℕ) (rules : List Rule) (id : String) (rule : Rule)
    → All (λ (r : Rule). (t : ℕ) × (lookup r.rule_id resolved ≡ some t)) rules
    → rule_by_id id rules ≡ some rule
    → (t : ℕ) × (lookup id resolved ≡ some t)
unfolding rule_by_id
tier-by_id resolved [] id rule all e = cc
tier-by_id resolved (first ∷ rules) id rule ((t, at), all) e =
    elim (Option-cases (rule_by_id id rules)) [
      | inr (later, s) ↦ tier-by_id resolved rules id later all s
      | inl n ↦
          let here : (first.rule_id == id) ≡ true = ground (arith, e, n) in
          (
            t,
            subst (λ i. lookup i resolved ≡ some t) ((string_eq.beq_iff first.rule_id id).0 here)
                at,
          )
    ]

resolved-IsPlan :
    (rules : List Rule) (resolved : Dict String ℕ)
    → IsStaged rules resolved
    → All (λ (rule : Rule). (t : ℕ) × (lookup rule.rule_id resolved ≡ some t)) rules
    → IsPlan rules (groups_at resolved rules (sorted_tiers resolved rules))
unfolding IsStaged Below
resolved-IsPlan rules resolved staged all = record {
  tier = resolved_tier resolved;
  tiers = sorted_tiers resolved rules;
  increasing = sorted_tiers-IsIncreasing resolved rules;
  fibres = groups_at_lem resolved rules (sorted_tiers resolved rules);
  complete = mem-sorted_tiers resolved rules;
  ordered = λ id d rule dependency e m k.
      let (t, at) = tier-by_id resolved rules id rule all e in
      let (u, found, lt) = (staged id t rule at e).1 d dependency m k in
      rw (at, found, resolved_tier) lt;
  categories = λ id rule e.
      let (t, at) = tier-by_id resolved rules id rule all e in
      rw (at, resolved_tier) (staged id t rule at e).0;
}

-- The planner always ends. It gives a plan, or it names a rule and then no rank of the rules falls along
-- every dependency, so that the dependencies have a cycle.
pub resolve_execution_groups_outcome :
    (rules : List Rule)
    → ((groups : List (List Rule)) × (resolve_execution_groups rules ≡ done groups)
        × IsPlan rules groups)
      ⊎ ((id : String) × (resolve_execution_groups rules ≡ cyclic id)
          × ((rank : String → ℕ) → ¬ IsRankedBy rules rank))
unfolding resolve_execution_groups OnDone Ends IsStaged
resolve_execution_groups_outcome rules =
    go (resolve_all (suc (suc (length rules))) rules rules [])
      (resolve_all-Resolved rules (suc (suc (length rules))) rules [] (λ id t rule h e. cc))
      (resolve_all-Ends rules (suc (suc (length rules))) rules []
        (let l = unvisited-all rules in omega (arith, l)) (by_id-known rules))
  where
    finish : Planned (Dict String ℕ) → Planned (List (List Rule))
    finish planned =
        and_then planned (λ resolved. done (groups_at resolved rules (sorted_tiers resolved rules)))

    go :
        (planned : Planned (Dict String ℕ))
        → OnDone rules
            (λ (r : Dict String ℕ).
              Resolved rules [] [] r
              × All (λ (rule : Rule). (t : ℕ) × (lookup rule.rule_id r ≡ some t)) rules)
            planned
        → Ends rules planned
        → ((groups : List (List Rule)) × (finish planned ≡ done groups) × IsPlan rules groups)
          ⊎ ((id : String) × (finish planned ≡ cyclic id)
              × ((rank : String → ℕ) → ¬ IsRankedBy rules rank))
    go (done resolved) (h, all) ends = inl (_, refl, resolved-IsPlan rules resolved h.staged all)
    go (cyclic id) h ends = inr (id, refl, ends)
    go out_of_fuel h ends = cc
