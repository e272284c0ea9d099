-- ===== src/Engine.antt =====
-- rule-engine/src/misra_platform_rules/engine.py: one rule's attempts, and the removal of duplicate
-- findings. A rule's `detect` is a parameter: what it does at each attempt, `none` where it raises.
-- The fingerprint (JSON and SHA-256 of the standard library) is a parameter too, and so is the score of
-- confidence.py, with floats, which may raise.
pub mod Retry
pub mod Deduplicate
pub mod Execution
pub mod Orders
mod Examples
use misra_c_agent.Base.{
  ℕ, zero, suc, ◌+◌, ◌-◌, String, Bool, true, false, Option, none, some, List, [], ◌∷◌, ◌++◌, map,
  mem, string_eq, length, leb, if◌then◌else◌,
}

-- `RuleExecutionMetrics`, without the wall-clock duration and the text of the last traceback (`error_message`).
pub record RuleExecutionMetrics : Type 0 where
  pub rule_id : String
  pub violation_count : ℕ
  pub success : Bool

module _ {V : Type 0} where
  -- The `while attempts <= self.max_retries` loop: `rounds` is how many rounds its test still allows,
  -- `attempts` how many have been made. The violations, or `none` if no attempt returned.
  unfoldable pub attempt : (ℕ → Option (List V)) → ℕ → ℕ → Option (List V)
  attempt detect zero attempts = none
  attempt detect (suc rounds) attempts = elim (detect attempts) [
    | none ↦ attempt detect rounds (suc attempts)
    | some violations ↦ some violations
  ]

  -- The loop that sets the confidence of each finding, or `none` where one of them raises.
  unfoldable pub score_all : (V → Option V) → List V → Option (List V)
  score_all score [] = some []
  score_all score (violation ∷ violations) =
      let rest = score_all score violations in
      elim (score violation) [
        | none ↦ none
        | some scored ↦ elim rest [ none ↦ none | some all ↦ some (scored ∷ all) ]
      ]

  -- The body of the `try` at one attempt.
  unfoldable pub detect_and_score : (V → Option V) → (ℕ → Option (List V)) → ℕ → Option (List V)
  unfolding score_all
  detect_and_score score detect attempts = elim (detect attempts) [
    | none ↦ none
    | some violations ↦ score_all score violations
  ]

  -- `_execute_rule_safe`. `score` sets the confidence of a finding, or is `none` where it raises.
  unfoldable pub execute_rule_safe :
      (V → Option V) → ℕ → String → (ℕ → Option (List V)) → RuleExecutionMetrics × List V
  unfolding attempt detect_and_score
  execute_rule_safe score max_retries rule_id detect =
      elim (attempt (detect_and_score score detect) (suc max_retries) 0) [
        | none ↦ (record { rule_id = rule_id; violation_count = 0; success = false }, [])
        | some violations ↦ (
          record { rule_id = rule_id; violation_count = length violations; success = true },
          violations,
        )
      ]

  -- The loop of `_deduplicate` over `seen`, `unique` and `removed`.
  unfoldable pub dedup_loop : (V → String) → List V → List String → List V → ℕ → List V × ℕ
  dedup_loop fingerprint [] seen unique removed = (unique, removed)
  dedup_loop fingerprint (violation ∷ violations) seen unique removed =
      let print = fingerprint violation in
      let duplicate = dedup_loop fingerprint violations seen unique (removed + 1) in
      let fresh =
        dedup_loop fingerprint violations (seen ++ print ∷ []) (unique ++ violation ∷ []) removed in
      if mem print seen then duplicate else fresh

  -- `_deduplicate`
  unfoldable pub deduplicate : (V → String) → List V → List V × ℕ
  unfolding dedup_loop
  deduplicate fingerprint violations = dedup_loop fingerprint violations [] [] 0
