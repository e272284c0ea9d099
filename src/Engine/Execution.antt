-- ===== src/Engine/Execution.antt =====
-- `execute` of engine.py, over the waves of the planner. `as_completed` is a parameter: the order in which the futures
-- of a wave complete.
use misra_c_agent.Base.{
  ℕ, ◌≡◌, refl, ◌∙◌, String, Bool, Option, List, [], ◌∷◌, ◌++◌, map, string_eq, nat_eq,
  if◌then◌else◌, flat_map, flat_map-append, append_assoc, append-nil,
}
use misra_c_agent.Engine.{RuleExecutionMetrics, execute_rule_safe, deduplicate}
use misra_c_agent.Planner.{Rule, Planned, done, resolve_execution_groups, and_then}

-- `ExecutionReport`, without the statistics of the cache.
pub record ExecutionReport (V : Type 0) : Type 0 where
  pub violations : List V
  pub fingerprints : List String
  pub metrics : List RuleExecutionMetrics
  pub deduplicated_count : ℕ

module _ {V : Type 0} (detect : Rule → ℕ → Option (List V)) (score : V → Option V)
    (fingerprint : V → String) (max_retries : ℕ) where
  -- A future's result.
  abbrev pub run_rule : Rule → RuleExecutionMetrics × List V
  run_rule rule = execute_rule_safe score max_retries rule.rule_id (detect rule)

  -- The loop over `as_completed(futures)`, on `report.metrics` and `report.violations`.
  unfoldable pub collect :
      List Rule → List RuleExecutionMetrics → List V → List RuleExecutionMetrics × List V
  unfolding execute_rule_safe
  collect [] metrics violations = (metrics, violations)
  collect (rule ∷ rules) metrics violations =
      collect rules (metrics ++ (run_rule rule).0 ∷ []) (violations ++ (run_rule rule).1)

  -- The loop over the waves.
  unfoldable pub collect_waves :
      (List Rule → List Rule)
      → List (List Rule)
      → List RuleExecutionMetrics
      → List V
      → List RuleExecutionMetrics × List V
  unfolding collect
  collect_waves as_completed [] metrics violations = (metrics, violations)
  collect_waves as_completed (wave ∷ waves) metrics violations =
      let collected = collect (as_completed wave) metrics violations in
      collect_waves as_completed waves collected.0 collected.1

  -- From the loop over the waves on.
  unfoldable pub report_of : (List Rule → List Rule) → List (List Rule) → ExecutionReport V
  unfolding collect_waves deduplicate
  report_of as_completed waves =
      let collected = collect_waves as_completed waves [] [] in
      let (deduplicated, removed) = deduplicate fingerprint collected.1 in
      record {
        violations = deduplicated;
        fingerprints = map fingerprint deduplicated;
        metrics = collected.0;
        deduplicated_count = removed;
      }

  -- `execute`
  unfoldable pub execute : (List Rule → List Rule) → List Rule → Bool → Planned (ExecutionReport V)
  unfolding report_of resolve_execution_groups
  execute as_completed rules grouped =
      and_then (if grouped then resolve_execution_groups rules else done (rules ∷ []))
        (λ waves. done (report_of as_completed waves))

  abbrev pub found : List Rule → List V
  found rules = flat_map (λ rule. (run_rule rule).1) rules

  abbrev pub measured : List Rule → List RuleExecutionMetrics
  measured rules = flat_map (λ rule. (run_rule rule).0 ∷ []) rules

  collect_lem :
      (rules : List Rule) (metrics : List RuleExecutionMetrics) (violations : List V)
      → collect rules metrics violations ≡ (metrics ++ measured rules, violations ++ found rules)
  unfolding collect
  collect_lem [] metrics violations = rw (append-nil metrics, append-nil violations) refl
  collect_lem (rule ∷ rules) metrics violations =
      let (m, vs) = run_rule rule in
      collect_lem rules (metrics ++ m ∷ []) (violations ++ vs)
      ∙ rw
          (append_assoc metrics (m ∷ []) (measured rules), append_assoc violations vs (found rules))
          refl

  -- The rules of the waves, in the order in which they complete.
  abbrev pub completed : (List Rule → List Rule) → List (List Rule) → List Rule
  completed as_completed waves = flat_map as_completed waves

  pub collect_waves_lem :
      (as_completed : List Rule → List Rule) (waves : List (List Rule))
      (metrics : List RuleExecutionMetrics) (violations : List V)
      → collect_waves as_completed waves metrics violations ≡ (
        metrics ++ measured (completed as_completed waves),
        violations ++ found (completed as_completed waves),
      )
  unfolding collect_waves
  collect_waves_lem as_completed [] metrics violations =
      rw (append-nil metrics, append-nil violations) refl
  collect_waves_lem as_completed (wave ∷ waves) metrics violations =
      let first = as_completed wave in
      let rest = completed as_completed waves in
      rw
        (
          collect_lem first metrics violations,
          collect_waves_lem as_completed waves (metrics ++ measured first)
              (violations ++ found first),
          append_assoc metrics (measured first) (measured rest),
          append_assoc violations (found first) (found rest),
          flat_map-append (λ rule. (run_rule rule).1) first rest,
          flat_map-append (λ rule. (run_rule rule).0 ∷ []) first rest,
        )
        refl
